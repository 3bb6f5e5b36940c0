-- ===== src/Tests/Session.antt =====
-- The theorems on the start of the driver and on sequences of requests at concrete inputs.
use guypervisor.Base.{
  ℕ, ◌^◌, ◌≡◌, refl, leb, ◌==◌, if◌then◌else◌, true, none, some, [], ◌∷◌, arith, ◌⊎◌,
}
use guypervisor.Machine.{
  Platform, World, Trace, Call, write_eflags, read_eflags, allocate_contiguous, io_control_code,
  vmptrst,
}
use guypervisor.Machine.Run.{◌>>◌}
use guypervisor.Machine.Ends.{Ends}
use guypervisor.VmxMode.Launched.{IsLaunched}
use guypervisor.Machine.Frame.{completions}
use guypervisor.VmxMode.{outside, mode}
use guypervisor.VmxMode.Cooperative.{IsCooperative}
use guypervisor.IrpHandlers.{handle, ioctl_handler}
use guypervisor.Session.{
  Request, LaunchedAt, IsStarted, AreServed, none_left, and_served, table_entry, serve, dispatch,
  request, elsewhere, Steps, no_step, and_step,
}
use guypervisor.Session.Served.{IsNext, serve-promised}
use guypervisor.Session.Reach.{Steps-IsStarted}
use guypervisor.Driver.{driver_entry}
use guypervisor.Driver.Equipped.{IsEquipped}
use guypervisor.Driver.Started.{IsSetUp, IsSetUpLaunched, driver_entry-IsSetUp, driver_entry-serve}
use guypervisor.Tests.{declining, no_launch, wdm-IsDocumented, pointer, known, after}

-- A machine with all that the driver asks for, but on which VMLAUNCH fails; the IRP at 7 asks to enter VMX
-- operation.
abbrev flags : Trace → ℕ
flags (write_eflags v ∷ t) = v
flags _ = 2

abbrev equipped_answer : Trace → Call → ℕ
equipped_answer t vmptrst = pointer (mode no_launch t)
equipped_answer t read_eflags = flags t
equipped_answer t (allocate_contiguous size highest) = if leb size (2 ^ 16) then 8192 else 0
equipped_answer t (io_control_code irp) = if irp == 7 then 0x222004 else 0
equipped_answer t _ = 8192

abbrev equipped : Platform
equipped = record declining { datum = equipped_answer }

equipped-IsCooperative : IsCooperative equipped
equipped-IsCooperative = record {
  vmxon_succeeds = λ _ _. refl;
  vmclear_succeeds = λ _ _. refl;
  vmptrld_succeeds = λ _ _. refl;
  vmread_succeeds = λ _ _ _ _. refl;
  vmread_launched = λ _ _ _ _. refl;
  vmptrst_stores = λ t a at. rw at refl;
  physical_lt = λ _ _. omega arith;
}

equipped-IsEquipped : IsEquipped equipped
equipped-IsEquipped = record {
  flag_sticks = λ t v set. set;
  vendor_intel = λ _. refl;
  has_vtx = λ _. refl;
  vmcs_small = omega arith;
  context_small = omega arith;
  device_small = omega arith;
  pool_given = λ _ _ _. omega arith;
  block_given = λ _ size _ small. ground arith;
  block_fits = λ _ size _ given. ground arith;
  device_created = λ _. refl;
  link_created = λ _. refl;
}

-- Requests of create, device control and write.
abbrev opened : Request
opened = record { major = 0; irp = 5 }

abbrev entering : Request
entering = record { major = 14; irp = 7 }

abbrev other_control : Request
other_control = record { major = 14; irp = 9 }

requests_served : AreServed (opened ∷ entering ∷ other_control ∷ [])
requests_served =
    and_served (omega arith) (and_served (omega arith) (and_served (omega arith) none_left))

driver_entry-IsSetUp_example :
    Ends
      (λ s w'. (s ≡ 0) × IsSetUp equipped [] w')
      (IsSetUpLaunched equipped [])
      (driver_entry equipped 1 (record (after []) { context = none }))
driver_entry-IsSetUp_example =
    driver_entry-IsSetUp equipped wdm-IsDocumented equipped-IsCooperative equipped-IsEquipped 0
      (record (after []) { context = none }) refl

driver_entry-serve_example :
    Ends
      (λ _ w'. (mode no_launch w'.trace ≡ outside) × (completions w'.trace ≡ 9 ∷ 7 ∷ []))
      (λ w'.
        (IsLaunched equipped w' × (completions w'.trace ≡ []))
        ⊎ LaunchedAt equipped (opened ∷ entering ∷ other_control ∷ []) [] w')
      ((driver_entry equipped 1 >> serve equipped 1 (opened ∷ entering ∷ other_control ∷ []))
        (record (after []) { context = none }))
driver_entry-serve_example =
    driver_entry-serve equipped wdm-IsDocumented equipped-IsCooperative equipped-IsEquipped 0
      (opened ∷ entering ∷ other_control ∷ []) (record (after []) { context = none })
      requests_served refl

abbrev started : World
started = record (after []) {
  driver = record { major_function = λ j. some (table_entry j); unload = true };
}

started-IsStarted : IsStarted equipped known started
started-IsStarted = record {
  vmxon_there = ground arith;
  vmcs_there = ground arith;
  context = refl;
  at = refl;
  dispatches = λ _ _. refl;
}

serve-promised_example :
    Ends
      (λ _. IsNext equipped started (9 ∷ 7 ∷ []))
      (LaunchedAt equipped (opened ∷ entering ∷ other_control ∷ []) [])
      (serve equipped 1 (opened ∷ entering ∷ other_control ∷ []) started)
serve-promised_example =
    serve-promised equipped wdm-IsDocumented equipped-IsCooperative known 0
      (opened ∷ entering ∷ other_control ∷ []) started requests_served started-IsStarted

-- The world after a device-control request that asks for nothing, and writes elsewhere.
abbrev served : World
served = record started {
  trace = Call.complete_request 9 0 ∷ io_control_code 9 ∷ [];
  memory = λ _. 0;
}

some-Steps : Steps equipped started served
unfolding dispatch handle ioctl_handler
some-Steps =
    and_step (request 0 opened (omega arith) refl) (
      and_step (request 0 other_control (omega arith) refl) (and_step (elsewhere (λ _. 0)) no_step))

Steps-IsStarted_example : IsStarted equipped known served
Steps-IsStarted_example =
    Steps-IsStarted equipped wdm-IsDocumented equipped-IsCooperative known started-IsStarted
      some-Steps
