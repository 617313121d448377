-- ===== src/Cdt/Distinct.antt =====
-- The slots of a derivation list are distinct and not null.
use untitled_bare_metal.Base.{
  ℕ, ◌≡◌, refl, true, false, List, [], ◌∷◌, ◌++◌, arith, has, has-append,
}
use untitled_bare_metal.Cdt.{Slots}
use untitled_bare_metal.Cdt.Chain.{Chain}

abbrev pub Distinct : List ℕ → Type 0
Distinct [] = Unit {0}
Distinct (x ∷ xs) = (has x xs ≡ false) × Distinct xs

pub Chain-Distinct : (s : Slots) (p : ℕ) (xs : List ℕ) → Chain s p xs → Distinct xs
Chain-Distinct s p [] c = tt
Chain-Distinct s p (x ∷ xs) c = (c.1, Chain-Distinct s x xs c.4)

pub Chain-null : (s : Slots) (p : ℕ) (xs : List ℕ) → Chain s p xs → has 0 xs ≡ false
Chain-null s p [] c = refl
Chain-null s p (x ∷ xs) c = ground (arith, Chain-null s x xs c.4)

pub append_one : (x : ℕ) (xs ys : List ℕ) → (xs ++ x ∷ []) ++ ys ≡ xs ++ x ∷ ys
append_one x [] ys = refl
append_one x (z ∷ xs) ys = rw (append_one x xs ys)

-- What stands in the middle does not stand before or behind.
pub Distinct-mid :
    (a : ℕ) (us vs ws : List ℕ)
    → Distinct (us ++ (vs ++ ws))
    → has a vs ≡ true
    → (has a us ≡ false) × (has a ws ≡ false)
Distinct-mid a [] [] ws d i = ground arith
Distinct-mid a [] (v ∷ vs) ws d i =
    ground (arith, has-append v vs ws, has-append a vs ws, Distinct-mid a [] vs ws d.1)
Distinct-mid a (u ∷ us) vs ws d i =
    ground (arith, Distinct-mid a us vs ws d.1, has-append u us (vs ++ ws), has-append u vs ws)
