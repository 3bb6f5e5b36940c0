-- ===== src/Machine/Returns.antt =====
-- Total correctness of a run: it returns, and a postcondition holds.
use guypervisor.Machine.{World}
use guypervisor.Machine.Run.{Run, done, Io, and_then}

pub data Returns {A : Type 0} (P : A → World → Type 0) : Run A → Type 0 where
  returns : {a : A} {w : World} → P a w → Returns P (done a w)

module _ {A : Type 0} {P : A → World → Type 0} where
  pub bind :
      {B : Type 0} {Q : B → World → Type 0} {r : Run A} {k : A → Io B}
      → Returns P r
      → ((a : A) (w : World) → P a w → Returns Q (k a w))
      → Returns Q (and_then r k)
  bind (returns p) next = next _ _ p

  pub weaken :
      {Q : A → World → Type 0} {r : Run A}
      → Returns P r
      → ((a : A) (w : World) → P a w → Q a w)
      → Returns Q r
  weaken (returns p) f = returns (f _ _ p)
