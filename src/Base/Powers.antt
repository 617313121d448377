-- ===== src/Base/Powers.antt =====
-- Powers of two.
use native.Mathlib.Nat.{pow-suc, mul_assoc, add-zero, add-suc}
use untitled_bare_metal.Base.{ℕ, zero, suc, ◌+◌, ◌*◌, ◌%◌, ◌^◌, ◌≤◌, ◌<◌, ◌≡◌, ◌≢◌, ap, arith}

-- An odd multiple of a small power of two is no multiple of a larger one.
pub odd-multiple : (n k odd q : ℕ) → k < n → odd % 2 ≡ 1 → odd * 2 ^ k ≢ q * 2 ^ n
odd-multiple zero k odd q lt h e = omega arith
odd-multiple (suc n) zero odd q lt h e =
    omega (arith, e, pow-suc 2 n, mul_assoc q (2 ^ n) 2, ap (λ (t : ℕ). q * t) (pow-suc 2 n))
odd-multiple (suc n) (suc k) odd q lt h e = odd-multiple n k odd q (omega arith) h (
    omega (
      arith,
      e,
      mul_assoc q (2 ^ n) 2,
      ap (λ (t : ℕ). q * t) (pow-suc 2 n),
      mul_assoc odd (2 ^ k) 2,
      ap (λ (t : ℕ). odd * t) (pow-suc 2 k),
    ))

pub pow-le : (i j : ℕ) → i ≤ j → 2 ^ i ≤ 2 ^ j
pow-le zero zero h = omega arith
pow-le zero (suc j) h = omega (arith, pow-suc 2 j, pow-le zero j (omega arith))
pow-le (suc i) zero h = absurd (omega arith)
pow-le (suc i) (suc j) h = omega (arith, pow-suc 2 i, pow-suc 2 j, pow-le i j (omega arith))

pub pow-add : (i n : ℕ) → 2 ^ (i + n) ≡ 2 ^ i * 2 ^ n
pow-add i zero = rw add-zero (omega arith)
pow-add i (suc n) =
    rw (add-suc, pow-suc 2 (i + n), pow-suc 2 n, pow-add i n) (mul_assoc (2 ^ i) (2 ^ n) 2)
