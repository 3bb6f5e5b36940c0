-- ===== src/Machine/Written.antt =====
-- The fields of the VMCS that a run writes, in their order.
use guypervisor.Base.{ℕ, Bool, true, false, ◌≡◌, refl, ◌∙◌, List, [], ◌∷◌, if◌then◌else◌, ap}
use guypervisor.Machine.{Call, Trace, Platform, World, vmwrite}
use guypervisor.Machine.Run.{
  Run, done, crash, in_guest, out_of_fuel, Io, pure, and_then, ◌>>=◌, ask, attempt, read_table,
  load_field,
}
use guypervisor.Machine.Returns.{Returns, returns}

-- The encodings written, the last one first.
abbrev pub written : Trace → List ℕ
written [] = []
written (vmwrite e v ∷ t) = e ∷ written t
written (_ ∷ t) = written t

-- Where the run returns, these are the encodings written.
pub data EndsWriting {A : Type 0} (es : List ℕ) : Run A → Type 0 where
  done_writing : {a : A} {w : World} → written w.trace ≡ es → EndsWriting es (done a w)
  crash_writing : {w : World} → EndsWriting es (crash w)
  guest_writing : {w : World} → EndsWriting es (in_guest w)
  fuel_writing : EndsWriting es out_of_fuel

-- A computation that makes the encodings `after` of the encodings `before`.
pub data IsWriting {A : Type 0} (before after : List ℕ) (m : Io A) : Type 0 where
  writing :
      ((w : World) → written w.trace ≡ before → EndsWriting after (m w)) → IsWriting before after m

-- A run that returns, returns with these encodings written.
pub Returns-EndsWriting :
    {A : Type 0} {es : List ℕ} {P : A → World → Type 0} {r : Run A}
    → Returns P r
    → EndsWriting es r
    → Returns (λ a w'. P a w' × (written w'.trace ≡ es)) r
Returns-EndsWriting (returns h) (done_writing e) = returns (h, e)

module _ {A : Type 0} {es fs : List ℕ} where
  pub run_writing :
      {m : Io A} → IsWriting es fs m → (w : World) → written w.trace ≡ es → EndsWriting fs (m w)
  run_writing (writing f) = f

  pub if-IsWriting :
      (b : Bool) {m n : Io A}
      → IsWriting es fs m
      → IsWriting es fs n
      → IsWriting es fs (if b then m else n)
  if-IsWriting true f g = f
  if-IsWriting false f g = g

module _ {A B : Type 0} where
  and_then-IsWriting :
      {fs gs : List ℕ} {r : Run A} {k : A → Io B}
      → EndsWriting fs r
      → ((a : A) → IsWriting fs gs (k a))
      → EndsWriting gs (and_then r k)
  and_then-IsWriting (done_writing e) f = run_writing (f _) _ e
  and_then-IsWriting crash_writing f = crash_writing
  and_then-IsWriting guest_writing f = guest_writing
  and_then-IsWriting fuel_writing f = fuel_writing

  pub bind-IsWriting :
      {es fs gs : List ℕ} {m : Io A} {k : A → Io B}
      → IsWriting es fs m
      → ((a : A) → IsWriting fs gs (k a))
      → IsWriting es gs (m >>= k)
  bind-IsWriting f g = writing (λ w e. and_then-IsWriting (run_writing f w e) g)

  -- One that writes no field, and what follows it.
  pub silent_bind-IsWriting :
      {es gs : List ℕ} {m : Io A} {k : A → Io B}
      → IsWriting es es m
      → ((a : A) → IsWriting es gs (k a))
      → IsWriting es gs (m >>= k)
  silent_bind-IsWriting f g = bind-IsWriting f g

-- Whether a call writes a field.
abbrev pub writes : Call → Bool
writes (vmwrite e v) = true
writes _ = false

written-other : (c : Call) (t : Trace) → writes c ≡ false → written (c ∷ t) ≡ written t
written-other (vmwrite e v) t h = cc h
written-other Call.read_cr0 t h = refl
written-other _ t h = refl

module _ {es : List ℕ} where
  pub pure-IsWriting : {A : Type 0} (a : A) → IsWriting es es (pure a)
  pure-IsWriting a = writing (λ w e. done_writing e)

  pub ask-IsWriting : (p : Platform) (c : Call) → writes c ≡ false → IsWriting es es (ask p c)
  ask-IsWriting p c h = writing (λ w e. done_writing (written-other c w.trace h ∙ e))

  pub read_table-IsWriting :
      (p : Platform) (c : Call) → writes c ≡ false → IsWriting es es (read_table p c)
  read_table-IsWriting p c h = writing (λ w e. done_writing (written-other c w.trace h ∙ e))

  pub load_field-IsWriting :
      (p : Platform) (c : Call) (old : ℕ) → writes c ≡ false → IsWriting es es (load_field p c old)
  load_field-IsWriting p c old h = writing (λ w e. done_writing (written-other c w.trace h ∙ e))

  pub vmwrite-IsWriting : (p : Platform) (e v : ℕ) → IsWriting es (e ∷ es) (attempt p (vmwrite e v))
  vmwrite-IsWriting p e v = writing (λ w h. done_writing (ap (λ t. e ∷ t) h))

  pub out_of_fuel-IsWriting :
      {A : Type 0} {fs : List ℕ} → IsWriting {A = A} es fs (λ _. out_of_fuel)
  out_of_fuel-IsWriting = writing (λ w e. fuel_writing)

pub ruleset silences = (
  pure-IsWriting, if-IsWriting, silent_bind-IsWriting, ask-IsWriting, read_table-IsWriting,
  load_field-IsWriting, out_of_fuel-IsWriting, refl,
)
