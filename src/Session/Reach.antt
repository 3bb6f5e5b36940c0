-- ===== src/Session/Reach.antt =====
-- The states that the started driver reaches (Guypervisor/irp_handlers.cpp).
use guypervisor.Base.{◌≡◌, subst}
use guypervisor.Machine.{Platform, World, ProcessorContext}
use guypervisor.Machine.Run.{Run, done}
use guypervisor.Machine.Ends.{Ends, ends}
use guypervisor.Machine.Status.{IsDocumented}
use guypervisor.VmxMode.Cooperative.{IsCooperative}
use guypervisor.Session.{IsStarted, Step, request, elsewhere, Steps, no_step, and_step}
use guypervisor.Session.Served.{dispatch-IsNext, IsStarted-of_next}

module _ {A : Type 0} {P : A → World → Type 0} {Q : World → Type 0} where
  Ends-done : {r : Run A} {a : A} {w : World} → Ends P Q r → r ≡ done a w → P a w
  Ends-done h returned = done_only (subst (Ends P Q) returned h)
    where
      done_only : {a : A} {w : World} → Ends P Q (done a w) → P a w
      done_only (ends h) = h

module _ (p : Platform) (documented : IsDocumented p.wdk) (cooperative : IsCooperative p) where
  module _ (c : ProcessorContext) where
    Step-IsStarted : {u v : World} → IsStarted p c u → Step p u v → IsStarted p c v
    Step-IsStarted {u} {v} started (request fuel r below returned) =
        IsStarted-of_next p documented cooperative c fuel u v started
          (Ends-done (dispatch-IsNext p documented cooperative c fuel r u below started) returned)
    Step-IsStarted started (elsewhere m) = record {
      vmxon_there = started.vmxon_there;
      vmcs_there = started.vmcs_there;
      context = started.context;
      at = started.at;
      dispatches = started.dispatches;
    }

    -- On a processor that sets VMX operation up, every state that the started driver reaches, by requests
    -- that return and memory written elsewhere in any order, is one of the started driver again: its
    -- dispatch table set, its context the same, and the processor outside VMX operation.
    pub Steps-IsStarted : {u v : World} → IsStarted p c u → Steps p u v → IsStarted p c v
    Steps-IsStarted started no_step = started
    Steps-IsStarted started (and_step first more) =
        Steps-IsStarted (Step-IsStarted started first) more
