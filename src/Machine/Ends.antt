-- ===== src/Machine/Ends.antt =====
-- Total correctness of a run that may give the processor to the guest: it returns and a postcondition
-- holds, or the guest runs and another one holds.
use guypervisor.Machine.{World}
use guypervisor.Machine.Run.{Run, done, in_guest, Io, and_then}
use guypervisor.Machine.Returns.{Returns, returns}

pub data Ends {A : Type 0} (P : A → World → Type 0) (Q : World → Type 0) : Run A → Type 0 where
  ends : {a : A} {w : World} → P a w → Ends P Q (done a w)
  enters : {w : World} → Q w → Ends P Q (in_guest w)

module _ {A : Type 0} {P : A → World → Type 0} {Q : World → Type 0} where
  pub bind :
      {B : Type 0} {R : B → World → Type 0} {r : Run A} {k : A → Io B}
      → Ends P Q r
      → ((a : A) (w : World) → P a w → Ends R Q (k a w))
      → Ends R Q (and_then r k)
  bind (ends p) next = next _ _ p
  bind (enters q) next = enters q

  -- What follows a run that returns.
  pub after :
      {B : Type 0} {R : B → World → Type 0} {r : Run A} {k : A → Io B}
      → Returns P r
      → ((a : A) (w : World) → P a w → Ends R Q (k a w))
      → Ends R Q (and_then r k)
  after (returns p) next = next _ _ p

  pub weaken :
      {P' : A → World → Type 0} {Q' : World → Type 0} {r : Run A}
      → Ends P Q r
      → ((a : A) (w : World) → P a w → P' a w)
      → ((w : World) → Q w → Q' w)
      → Ends P' Q' r
  weaken (ends p) f g = ends (f _ _ p)
  weaken (enters q) f g = enters (g _ q)
