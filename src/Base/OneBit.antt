-- ===== src/Base/OneBit.antt =====
-- Single bits of a number: how `|` and `&` with a power of two set and read them.
use Prim.Native.Nat.{max, min, bit_and, bit_or, digits, bit_or-bitwise, bit_and-bitwise}
use native.Mathlib.Nat.{pow-suc, mul_assoc}
use untitled_bare_metal.Base.{
  ℕ, zero, suc, ◌+◌, ◌-◌, ◌*◌, ◌/◌, ◌%◌, ◌^◌, ◌≤◌, ◌<◌, ◌≡◌, ◌≢◌, refl, arith,
}
use untitled_bare_metal.Base.Bits.{bit_and-digit}
use untitled_bare_metal.Base.Powers.{pow-le}

abbrev or_by : ℕ → ℕ → ℕ → ℕ
or_by n a b = digits (λ y. y) max n a b

-- More fuel than the first number changes nothing.
or_by_fuel : (n m a b : ℕ) → a ≤ n → a ≤ m → or_by n a b ≡ or_by m a b
or_by_fuel zero zero a b p q = refl
or_by_fuel zero (suc m) zero b p q = refl
or_by_fuel zero (suc m) (suc a) b p q = absurd (omega arith)
or_by_fuel (suc n) zero zero b p q = refl
or_by_fuel (suc n) zero (suc a) b p q = absurd (omega arith)
or_by_fuel (suc n) (suc m) zero b p q = refl
or_by_fuel (suc n) (suc m) (suc a) b p q =
    omega (arith, or_by_fuel n m (suc a / 2) (b / 2) (omega arith) (omega arith))

pub bit_or-digit : (a b : ℕ) → bit_or a b ≡ bit_or (a / 2) (b / 2) * 2 + max (a % 2) (b % 2)
bit_or-digit zero b = omega (arith, bit_or-bitwise 0 b, bit_or-bitwise 0 (b / 2))
bit_or-digit (suc a) b = omega (
  arith,
  bit_or-bitwise (suc a) b,
  bit_or-bitwise (suc a / 2) (b / 2),
  or_by_fuel a (suc a / 2) (suc a / 2) (b / 2) (omega arith) (omega arith),
)

-- The bit of a number at a place.
unfoldable pub bit_at : ℕ → ℕ → ℕ
bit_at n zero = n % 2
bit_at n (suc b) = bit_at (n / 2) b

pub bit_at-lt : (b n : ℕ) → bit_at n b < 2
unfolding bit_at
bit_at-lt zero n = omega arith
bit_at-lt (suc b) n = bit_at-lt b (n / 2)

pub bit_or-bit_at : (c a b : ℕ) → bit_at (bit_or a b) c ≡ max (bit_at a c) (bit_at b c)
unfolding bit_at
bit_or-bit_at zero a b = omega (arith, bit_or-digit a b)
bit_or-bit_at (suc c) a b =
    let half : bit_or a b / 2 ≡ bit_or (a / 2) (b / 2) = omega (arith, bit_or-digit a b) in
    rw half (bit_or-bit_at c (a / 2) (b / 2))

bit_and_zero : (fuel n : ℕ) → n ≤ fuel → bit_and n 0 ≡ 0
bit_and_zero zero n h = let z : n ≡ 0 = omega arith in rw z (omega (arith, bit_and-bitwise 0 0))
bit_and_zero (suc fuel) zero h = omega (arith, bit_and-bitwise 0 0)
bit_and_zero (suc fuel) (suc n) h =
    omega (arith, bit_and-digit (suc n) 0, bit_and_zero fuel (suc n / 2) (omega arith))

pub bit_and-bit_at : (c n : ℕ) → bit_and n (2 ^ c) ≡ bit_at n c * 2 ^ c
unfolding bit_at
bit_and-bit_at zero n = omega (arith, bit_and-digit n 1, bit_and_zero (n / 2) (n / 2) (omega arith))
bit_and-bit_at (suc c) n =
    let half : 2 ^ suc c / 2 ≡ 2 ^ c = omega (arith, pow-suc 2 c) in
    let even : 2 ^ suc c % 2 ≡ 0 = omega (arith, pow-suc 2 c) in
    rw (bit_and-digit n (2 ^ suc c), half, even, bit_and-bit_at c (n / 2), pow-suc 2 c)
      (omega (arith, mul_assoc (bit_at (n / 2) c) (2 ^ c) 2))

pub pow-bit_at-same : (b : ℕ) → bit_at (2 ^ b) b ≡ 1
unfolding bit_at
pow-bit_at-same zero = refl
pow-bit_at-same (suc b) =
    let half : 2 ^ suc b / 2 ≡ 2 ^ b = omega (arith, pow-suc 2 b) in rw half (pow-bit_at-same b)

zero-bit_at : (b : ℕ) → bit_at 0 b ≡ 0
unfolding bit_at
zero-bit_at zero = refl
zero-bit_at (suc b) = zero-bit_at b

pub pow-bit_at-other : (b c : ℕ) → b ≢ c → bit_at (2 ^ b) c ≡ 0
unfolding bit_at
pow-bit_at-other zero zero h = absurd (omega arith)
pow-bit_at-other zero (suc c) h = zero-bit_at c
pow-bit_at-other (suc b) zero h = omega (arith, pow-suc 2 b)
pow-bit_at-other (suc b) (suc c) h =
    let half : 2 ^ suc b / 2 ≡ 2 ^ b = omega (arith, pow-suc 2 b) in
    rw half (pow-bit_at-other b c (omega arith))

-- A word of ones.
pub ones-bit_at : (n b : ℕ) → b < n → bit_at (2 ^ n - 1) b ≡ 1
unfolding bit_at
ones-bit_at zero b h = absurd (omega arith)
ones-bit_at (suc n) zero h = omega (arith, pow-suc 2 n, pow-le 0 n (omega arith))
ones-bit_at (suc n) (suc b) h =
    let half : (2 ^ suc n - 1) / 2 ≡ 2 ^ n - 1 = omega (arith, pow-suc 2 n) in
    rw half (ones-bit_at n b (omega arith))

pub bit_and-min : (c a b : ℕ) → bit_at (bit_and a b) c ≡ min (bit_at a c) (bit_at b c)
unfolding bit_at
bit_and-min zero a b = omega (arith, bit_and-digit a b)
bit_and-min (suc c) a b =
    let half : bit_and a b / 2 ≡ bit_and (a / 2) (b / 2) = omega (arith, bit_and-digit a b) in
    rw half (bit_and-min c (a / 2) (b / 2))

-- A word of ones but for the bit `b`.
mask_half : (n b : ℕ) → b < n → (2 ^ suc n - 1 - 2 ^ suc b) / 2 ≡ 2 ^ n - 1 - 2 ^ b
mask_half n b lt = omega (arith, pow-suc 2 n, pow-suc 2 b, pow-le (suc b) n (omega arith))

pub mask-bit_at-same : (n b : ℕ) → b < n → bit_at (2 ^ n - 1 - 2 ^ b) b ≡ 0
unfolding bit_at
mask-bit_at-same zero b lt = absurd (omega arith)
mask-bit_at-same (suc n) zero lt = omega (arith, pow-suc 2 n, pow-le 0 n (omega arith))
mask-bit_at-same (suc n) (suc b) lt =
    rw (mask_half n b (omega arith)) (mask-bit_at-same n b (omega arith))

pub mask-bit_at-other : (n b c : ℕ) → b < n → c < n → b ≢ c → bit_at (2 ^ n - 1 - 2 ^ b) c ≡ 1
unfolding bit_at
mask-bit_at-other zero b c lt lt' ne = absurd (omega arith)
mask-bit_at-other (suc n) zero zero lt lt' ne = absurd (omega arith)
mask-bit_at-other (suc n) zero (suc c) lt lt' ne =
    let half : (2 ^ suc n - 1 - 2 ^ 0) / 2 ≡ 2 ^ n - 1 =
      omega (arith, pow-suc 2 n, pow-le 0 n (omega arith)) in
    rw half (ones-bit_at n c (omega arith))
mask-bit_at-other (suc n) (suc b) zero lt lt' ne =
    omega
      (arith, pow-suc 2 n, pow-suc 2 b, pow-le 0 b (omega arith), pow-le (suc b) n (omega arith))
mask-bit_at-other (suc n) (suc b) (suc c) lt lt' ne =
    rw (mask_half n b (omega arith))
      (mask-bit_at-other n b c (omega arith) (omega arith) (omega arith))
