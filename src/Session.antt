-- ===== src/Session.antt =====
-- The started driver between its requests: the kernel looks the handler of a request up in the dispatch
-- table that `InitDevice` (Guypervisor/Device.cpp) has left, and calls it (Guypervisor/irp_handlers.cpp).
pub mod Served
pub mod Reach
use guypervisor.Base.{
  ℕ, suc, ◌≡◌, ◌≢◌, ◌<◌, ◌==◌, ltb, true, Option, none, some, if◌then◌else◌, List, [], ◌∷◌,
}
use guypervisor.Machine.{
  Platform, World, Handler, general, create, close, write, device_control, ProcessorContext,
}
use guypervisor.Machine.Run.{Run, Io, done, crash, pure, ◌>>=◌}
use guypervisor.VmxMode.{outside, mode}
use guypervisor.Machine.Frame.{completions}
use guypervisor.VmxMode.Launched.{IsLaunched}
use guypervisor.IrpHandlers.{handle}

-- A request of the kernel: the index of its function, and the address of its IRP.
pub record Request : Type 0 where
  pub major : ℕ
  pub irp : ℕ

-- The dispatch table as `InitDevice` sets it.
abbrev pub table_entry : ℕ → Handler
table_entry j =
    if j == 4
    then write
    else if j == 14
    then device_control
    else if j == 2
    then close
    else if j == 0
    then create
    else general

-- A started driver, outside VMX operation: its context with the two regions of VMX operation, and its
-- dispatch table.
pub record IsStarted (p : Platform) (c : ProcessorContext) (w : World) : Type 0 where
  pub vmxon_there : c.vmxon_region ≢ 0
  pub vmcs_there : c.vmcs_region ≢ 0
  pub context : w.context ≡ some c
  pub at : mode p.code w.trace ≡ outside
  pub dispatches : (j : ℕ) → j < 27 → w.driver.major_function j ≡ some (table_entry j)

module _ (p : Platform) (fuel : ℕ) where
  -- A request, which is given to the handler that the table names.
  unfoldable pub dispatch : Request → Io ℕ
  dispatch r w = elim (w.driver.major_function r.major) [
    | none ↦ crash w
    | some h ↦ handle p fuel h r.irp w
  ]

  -- One request after another.
  unfoldable pub serve : List Request → Io (Unit {0})
  serve [] = pure tt
  serve (r ∷ rs) = do status ← dispatch r; serve rs

-- The requests that a driver promises to complete, the last one first: those of device control.
abbrev pub promised : List Request → List ℕ → List ℕ
promised [] before = before
promised (r ∷ rs) before = promised rs (if r.major == 14 then r.irp ∷ before else before)

pub data AreServed : List Request → Type 0 where
  none_left : AreServed []
  and_served : {r : Request} {rs : List Request} → r.major < 27 → AreServed rs → AreServed (r ∷ rs)

-- What may happen to the machine once the driver has started: the handler of a request returns, or memory
-- is written elsewhere.
pub data Step (p : Platform) : World → World → Type 0 where
  request :
      {w w' : World} (fuel : ℕ) (r : Request) {status : ℕ}
      → r.major < 27
      → dispatch p (suc fuel) r w ≡ done status w'
      → Step p w w'
  elsewhere : {w : World} (m : ℕ → ℕ) → Step p w (record w { memory = m })

pub data Steps (p : Platform) : World → World → Type 0 where
  no_step : {w : World} → Steps p w w
  and_step : {u v w : World} → Step p u v → Steps p v w → Steps p u w

-- The guest has been launched at one of the requests, one of device control, and those completed are the
-- device-control ones before it.
pub data LaunchedAt (p : Platform) : List Request → (completed : List ℕ) → World → Type 0 where
  launched_now :
      {r : Request} {rs : List Request} {before : List ℕ} {w : World}
      → (r.major == 14) ≡ true
      → IsLaunched p w
      → completions w.trace ≡ before
      → LaunchedAt p (r ∷ rs) before w
  launched_later :
      {r : Request} {rs : List Request} {before : List ℕ} {w : World}
      → LaunchedAt p rs (promised (r ∷ []) before) w
      → LaunchedAt p (r ∷ rs) before w
