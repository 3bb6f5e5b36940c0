-- ===== src/Machine/Run.antt =====
-- Runs of the driver: they return, crash on a null pointer, give the processor to the guest, or use up
-- their fuel.
use guypervisor.Base.{ℕ, none, some, ◌∷◌}
use guypervisor.Machine.{Call, Platform, World, TableRegister, CpuInfo, ProcessorContext}

pub data Run (A : Type 0) : Type 0 where
  done : A → World → Run A
  crash : World → Run A
  -- VMLAUNCH or VMRESUME has succeeded: what stands after it is not executed
  in_guest : World → Run A
  out_of_fuel : Run A

abbrev pub Io : Type 0 → Type 0
Io A = World → Run A

abbrev pub pure : {A : Type 0} → A → Io A
pure a w = done a w

abbrev pub enter_guest : {A : Type 0} → Io A
enter_guest w = in_guest w

module _ {A B : Type 0} where
  abbrev pub and_then : Run A → (A → Io B) → Run B
  and_then (done a w) k = k a w
  and_then (crash w) k = crash w
  and_then (in_guest w) k = in_guest w
  and_then out_of_fuel k = out_of_fuel

  infixl 5 ◌>>=◌ ◌>>◌
  abbrev pub ◌>>=◌ : Io A → (A → Io B) → Io B
  m >>= k = λ w. and_then (m w) k

  abbrev pub ◌>>◌ : Io A → Io B → Io B
  m >> n = m >>= λ _. n

-- The guest runs until it exits, which hands the processor to `k`.
abbrev pub until_exit : {A : Type 0} → Run A → Io A → Run A
until_exit (done a w) k = done a w
until_exit (crash w) k = crash w
until_exit (in_guest w) k = k w
until_exit out_of_fuel k = out_of_fuel

-- The world after a call.
abbrev pub log : Call → World → World
log c w = record w { trace = c ∷ w.trace }

-- A call that returns nothing.
abbrev pub issue : Call → Io (Unit {0})
issue c w = done tt (log c w)

module _ (p : Platform) where
  -- A call for the value that it reads.
  abbrev pub ask : Call → Io ℕ
  ask c w = done (p.datum w.trace c) (log c w)

  -- A call for the code that it returns.
  abbrev pub attempt : Call → Io ℕ
  attempt c w = done (p.code w.trace c) (log c w)

  abbrev pub read_table : Call → Io TableRegister
  read_table c w = done (p.table w.trace c) (log c w)

  abbrev pub read_cpu_info : Call → Io CpuInfo
  read_cpu_info c w = done (p.cpu_info w.trace c) (log c w)

  -- A call that stores something: its code, and what stands at the destination afterwards.
  abbrev pub load_field : Call → ℕ → Io (ℕ × ℕ)
  load_field c old w =
      done (p.code w.trace c, elim (p.loaded w.trace c) [ none ↦ old | some v ↦ v ]) (log c w)

-- `*kProcessorContext`, a crash where that is null.
abbrev pub the_context : Io ProcessorContext
the_context w = elim w.context [ none ↦ crash w | some c ↦ done c w ]

-- `kProcessorContext->… = …`
abbrev pub update_context : (ProcessorContext → ProcessorContext) → Io (Unit {0})
update_context f w = elim w.context [
  | none ↦ crash w
  | some c ↦ done tt (record w { context = some (f c) })
]
