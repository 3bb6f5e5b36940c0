-- ===== src/Base/Lists.antt =====
-- Lists over the native numbers.
use Prim.Native.Nat.{ℕ, suc}
use mathlib.Core.Path.{◌≡◌, refl, ap, ◌∙◌}
use mathlib.Core.Bool.{Bool, true, false, ◌&&◌}
use mathlib.Core.List.{List, [], ◌∷◌, Memᴰ}

module _ {ℓ} {A : Type ℓ} where
  abbrev pub length : List A → ℕ
  length [] = 0
  length (_ ∷ xs) = suc (length xs)

pub both : {a b : Bool} → (a && b) ≡ true → (a ≡ true) × (b ≡ true)
both {a = true} h = (refl, h)
both {a = false} h = cc h

module _ {ℓ} {A : Type ℓ} (f : A → Bool) where
  -- Whether a test holds of every member of a list.
  abbrev pub every : List A → Bool
  every [] = true
  every (x ∷ xs) = f x && every xs

  pub every-Memᴰ : (xs : List A) (x : A) → every xs ≡ true → Memᴰ x xs → f x ≡ true
  every-Memᴰ [] x h at = elim at [ ]
  every-Memᴰ (y ∷ ys) x h (Memᴰ.head e) = ap f e ∙ (both h).0
  every-Memᴰ (y ∷ ys) x h (Memᴰ.tail at) = every-Memᴰ ys x (both h).1 at
