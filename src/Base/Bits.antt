-- ===== src/Base/Bits.antt =====
-- `&` on numbers, by its lowest digit, and what follows at every width.
use Prim.Native.Nat.{
  ℕ, zero, suc, ◌+◌, ◌*◌, ◌/◌, ◌%◌, ◌≤◌, ◌<◌, min, bit_and, digits, bit_and-bitwise,
}
use mathlib.Core.Path.{◌≡◌, refl}
use mathlib.Core.WellFounded
use native.Mathlib.Omega.{arith}
use untitled_bare_metal.Base.Order.{lt_wf}

abbrev and_by : ℕ → ℕ → ℕ → ℕ
and_by n a b = digits (λ y. zero) min n a b

-- More fuel than the first number changes nothing.
and_by_fuel : (n m a b : ℕ) → a ≤ n → a ≤ m → and_by n a b ≡ and_by m a b
and_by_fuel zero zero a b p q = refl
and_by_fuel zero (suc m) zero b p q = refl
and_by_fuel zero (suc m) (suc a) b p q = absurd (omega arith)
and_by_fuel (suc n) zero zero b p q = refl
and_by_fuel (suc n) zero (suc a) b p q = absurd (omega arith)
and_by_fuel (suc n) (suc m) zero b p q = refl
and_by_fuel (suc n) (suc m) (suc a) b p q =
    omega (arith, and_by_fuel n m (suc a / 2) (b / 2) (omega arith) (omega arith))

pub bit_and-digit : (a b : ℕ) → bit_and a b ≡ bit_and (a / 2) (b / 2) * 2 + min (a % 2) (b % 2)
bit_and-digit zero b = omega (arith, bit_and-bitwise 0 b, bit_and-bitwise 0 (b / 2))
bit_and-digit (suc a) b = omega (
  arith,
  bit_and-bitwise (suc a) b,
  bit_and-bitwise (suc a / 2) (b / 2),
  and_by_fuel a (suc a / 2) (suc a / 2) (b / 2) (omega arith) (omega arith),
)

-- `&` takes bits away only.
pub bit_and-le : (a b : ℕ) → bit_and a b ≤ a
bit_and-le a = WellFounded.induction lt_wf {C = λ n. (b : ℕ) → bit_and n b ≤ n} a step
  where
    step : (n : ℕ) → ((m : ℕ) → m < n → (b : ℕ) → bit_and m b ≤ m) → (b : ℕ) → bit_and n b ≤ n
    step zero ih b = omega (arith, bit_and-bitwise 0 b)
    step (suc n) ih b = omega (arith, bit_and-digit (suc n) b, ih (suc n / 2) (omega arith) (b / 2))
