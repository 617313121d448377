-- ===== src/Base/Lists.antt =====
-- Lists measured by native numbers, Boolean membership, and updates of a store.
use Prim.Native.Nat.{ℕ, suc, ◌+◌}
use mathlib.Core.Path.{◌≡◌, refl}
use mathlib.Core.Bool.{Bool, true, false, ◌||◌}
use mathlib.Core.List.{List, [], ◌∷◌, ◌++◌}
use native.Mathlib.Omega.{arith}
use untitled_bare_metal.Base.Tests.{◌==◌, if◌then◌else◌}

module _ {ℓ} {A : Type ℓ} where
  abbrev pub length : List A → ℕ
  length [] = 0
  length (x ∷ xs) = suc (length xs)

  -- A store with the entry at one address replaced.
  abbrev pub update : (ℕ → A) → ℕ → A → ℕ → A
  update s p v a = if a == p then v else s a

  pub length-append : (xs ys : List A) → length (xs ++ ys) ≡ length xs + length ys
  length-append [] ys = omega arith
  length-append (x ∷ xs) ys = omega (arith, length-append xs ys)

-- Does an address occur in a list?
abbrev pub has : ℕ → List ℕ → Bool
has a [] = false
has a (x ∷ xs) = (a == x) || has a xs

pub has-append : (a : ℕ) (xs ys : List ℕ) → has a (xs ++ ys) ≡ (has a xs || has a ys)
has-append a [] ys = refl
has-append a (x ∷ xs) ys = ground (arith, has-append a xs ys)

-- One more element behind `u`.
module _ (a n u : ℕ) (xs ys : List ℕ) where
  pub has-insert_out :
      has a (xs ++ u ∷ ys) ≡ false → (a == n) ≡ false → has a (xs ++ u ∷ n ∷ ys) ≡ false
  has-insert_out out ne = ground (arith, has-append a xs (u ∷ ys), has-append a xs (u ∷ n ∷ ys))

  pub has-insert_in :
      has a (xs ++ u ∷ n ∷ ys) ≡ true → (a == n) ≡ false → has a (xs ++ u ∷ ys) ≡ true
  has-insert_in i ne = ground (arith, has-append a xs (u ∷ ys), has-append a xs (u ∷ n ∷ ys))
