-- ===== src/Chacha/Xor.antt =====
-- `^` on numbers, by its lowest digit, and that it undoes itself.
use Prim.Native.Nat.{
  ℕ, zero, suc, ◌+◌, ◌*◌, ◌/◌, ◌%◌, ◌≤◌, ◌<◌, differ, bit_xor, digits, bit_xor-bitwise,
}
use mathlib.Core.Path.{◌≡◌, refl, ap, ◌∙◌}
use native.Mathlib.Omega.{arith}

abbrev xor_by : ℕ → ℕ → ℕ → ℕ
xor_by n a b = digits (λ y. y) differ n a b

xor_by_fuel : (n m a b : ℕ) → a ≤ n → a ≤ m → xor_by n a b ≡ xor_by m a b
xor_by_fuel zero zero a b p q = refl
xor_by_fuel zero (suc m) zero b p q = refl
xor_by_fuel zero (suc m) (suc a) b p q = absurd (omega arith)
xor_by_fuel (suc n) zero zero b p q = refl
xor_by_fuel (suc n) zero (suc a) b p q = absurd (omega arith)
xor_by_fuel (suc n) (suc m) zero b p q = refl
xor_by_fuel (suc n) (suc m) (suc a) b p q =
    omega (arith, xor_by_fuel n m (suc a / 2) (b / 2) (omega arith) (omega arith))

bit_xor-digit : (a b : ℕ) → bit_xor a b ≡ bit_xor (a / 2) (b / 2) * 2 + differ (a % 2) (b % 2)
bit_xor-digit zero b = omega (arith, bit_xor-bitwise 0 b, bit_xor-bitwise 0 (b / 2))
bit_xor-digit (suc a) b = omega (
  arith,
  bit_xor-bitwise (suc a) b,
  bit_xor-bitwise (suc a / 2) (b / 2),
  xor_by_fuel a (suc a / 2) (suc a / 2) (b / 2) (omega arith) (omega arith),
)

differ_twice : (x y : ℕ) → x < 2 → y < 2 → (differ x y < 2) × (differ (differ x y) y ≡ x)
differ_twice zero zero h h' = omega arith
differ_twice zero (suc zero) h h' = omega arith
differ_twice (suc zero) zero h h' = omega arith
differ_twice (suc zero) (suc zero) h h' = omega arith
differ_twice (suc (suc x)) y h h' = absurd (omega arith)
differ_twice zero (suc (suc y)) h h' = absurd (omega arith)
differ_twice (suc zero) (suc (suc y)) h h' = absurd (omega arith)

-- With the quotients of the result in hand.
twice_step :
    (a b x : ℕ)
    → x ≡ bit_xor (a / 2) (b / 2) * 2 + differ (a % 2) (b % 2)
    → bit_xor (bit_xor (a / 2) (b / 2)) (b / 2) ≡ a / 2
    → bit_xor x b ≡ a
twice_step a b x e ih =
    let (bit, back) = differ_twice (a % 2) (b % 2) (omega arith) (omega arith) in
    let half : x / 2 ≡ bit_xor (a / 2) (b / 2) = omega arith in
    let low : x % 2 ≡ differ (a % 2) (b % 2) = omega arith in
    bit_xor-digit x b
    ∙ ap (λ (t : ℕ). bit_xor t (b / 2) * 2 + differ (x % 2) (b % 2)) half
    ∙ ap (λ (t : ℕ). bit_xor (bit_xor (a / 2) (b / 2)) (b / 2) * 2 + differ t (b % 2)) low
    ∙ omega (arith, ih, back)

twice_below : (n a b : ℕ) → a ≤ n → b ≤ n → bit_xor (bit_xor a b) b ≡ a
twice_below zero a b h h' =
    let none : a ≡ 0 = omega arith in let none' : b ≡ 0 = omega arith in rw (none, none') refl
twice_below (suc n) a b h h' =
    twice_step a b (bit_xor a b) (bit_xor-digit a b)
      (twice_below n (a / 2) (b / 2) (omega arith) (omega arith))

pub bit_xor_twice : (a b : ℕ) → bit_xor (bit_xor a b) b ≡ a
bit_xor_twice a b = twice_below (a + b) a b (omega arith) (omega arith)
