-- ===== src/Alloc/Blocks.antt =====
-- The blocks of a power of two that an extent is cut into.
use Prim.Native.Nat.{bit_and}
use native.Mathlib.Nat.{pow-suc, mul_assoc}
use untitled_bare_metal.Base.{
  ℕ, zero, suc, ◌+◌, ◌*◌, ◌/◌, ◌%◌, ◌^◌, ◌≤◌, ◌<◌, ◌≡◌, dec_lt, le→ltb, lt→ltb, ap, ◌∙◌, refl, ◌⊎◌,
  inl, inr, u64, sub64, some, arith,
}
use untitled_bare_metal.Base.Bits.{bit_and-digit, bit_and-le}
use untitled_bare_metal.Alloc.{shrink, largest_fitting_block}

-- A number and its complement share no bit.
bit_and-complement : (w n m : ℕ) → n + m + 1 ≡ 2 ^ w → bit_and n m ≡ 0
bit_and-complement zero n m e = omega (arith, bit_and-le n m)
bit_and-complement (suc w) n m e = omega (
  arith,
  bit_and-digit n m,
  pow-suc 2 w,
  bit_and-complement w (n / 2) (m / 2) (omega (arith, pow-suc 2 w)),
)

-- A number and its negation share the lowest bit.
bit_and-negated :
    (w n m : ℕ)
    → n + m ≡ 2 ^ w
    → 0 < n
    → 0 < m
    → (k odd : ℕ) × (bit_and n m ≡ 2 ^ k) × (n ≡ odd * 2 ^ k) × (odd % 2 ≡ 1) × (k < w)
bit_and-negated zero n m e p p' = absurd (omega arith)
bit_and-negated (suc w) n m e p p' = elim (dec_lt 0 (n % 2)) [
  | yes h ↦ (
    0,
    n,
    omega (
      arith,
      bit_and-digit n m,
      bit_and-complement w (n / 2) (m / 2) (omega (arith, pow-suc 2 w)),
    ),
    omega arith,
    omega arith,
    omega arith,
  )
  | no h ↦
      let (k, odd, same, n_is, is_odd, lt) =
        bit_and-negated w (n / 2) (m / 2) (omega (arith, pow-suc 2 w)) (omega arith)
          (omega (arith, pow-suc 2 w)) in
      (
        suc k,
        odd,
        omega (arith, bit_and-digit n m, same, pow-suc 2 k, pow-suc 2 w),
        rw (pow-suc 2 k, ← mul_assoc odd (2 ^ k) 2) (omega (arith, n_is)),
        is_odd,
        omega arith,
      )
]

-- The exponent of the largest block that fits, of those up to 2^k.
abbrev pub Fits : (start end k j : ℕ) → Type 0
Fits start end k j = (j ≤ k) × (start + 2 ^ j ≤ end) × ((j ≡ k) ⊎ (end < start + 2 ^ suc j))

halve-Fits :
    (fuel start end k j : ℕ)
    → end < start + 2 ^ suc k
    → start + 2 ^ suc k < 2 ^ 64
    → shrink fuel start end (2 ^ k) ≡ some (2 ^ j)
    → Fits start end k j
    → (shrink (suc fuel) start end (2 ^ suc k) ≡ some (2 ^ j)) × Fits start end (suc k) j
unfolding shrink
halve-Fits fuel start end k j past b e (le, fits, top) =
    let half : 2 ^ suc k / 2 ≡ 2 ^ k = omega (arith, pow-suc 2 k) in
    (
      rw (lt→ltb end (u64 (start + 2 ^ suc k)) (omega arith)) (rw half e),
      (omega arith, fits, inr (elim top [ inl same ↦ rw same past | inr above ↦ above ])),
    )

shrink-Fits :
    (fuel start end k : ℕ)
    → k < fuel
    → start < end
    → start + 2 ^ k < 2 ^ 64
    → (j : ℕ) × (shrink fuel start end (2 ^ k) ≡ some (2 ^ j)) × Fits start end k j
unfolding shrink
shrink-Fits zero start end k lt s b = absurd (omega arith)
shrink-Fits (suc fuel) start end zero lt s b =
    (0, rw (le→ltb end (u64 (start + 1)) (omega arith)), (omega arith, omega arith, inl refl))
shrink-Fits (suc fuel) start end (suc k) lt s b = elim (dec_lt end (start + 2 ^ suc k)) [
  | no fits ↦ (
    suc k,
    rw (le→ltb end (u64 (start + 2 ^ suc k)) (omega arith)),
    (omega arith, omega arith, inl refl),
  )
  | yes past ↦
      let (j, e, fits) =
        shrink-Fits fuel start end k (omega arith) s (omega (arith, pow-suc 2 k)) in
      let (e', fits') = halve-Fits fuel start end k j past b e fits in (j, e', fits')
]

-- A block stands at a multiple of its size, and is the largest such that fits.
pub largest_fitting_block-Fits :
    (start end : ℕ)
    → 0 < start
    → start < end
    → start < 2 ^ 63
    → (k odd j : ℕ) × (largest_fitting_block 64 start end ≡ some (2 ^ j))
      × (start ≡ odd * 2 ^ k)
      × (odd % 2 ≡ 1)
      × Fits start end k j
unfolding largest_fitting_block
largest_fitting_block-Fits start end p s b =
    let (k, odd, same, n_is, is_odd, lt) =
      bit_and-negated 64 start (sub64 0 start) (omega arith) p (omega arith) in
    let le : 2 ^ k ≤ start = omega (arith, same, bit_and-le start (sub64 0 start)) in
    let (j, e, fits) = shrink-Fits 64 start end k lt s (omega arith) in
    (k, odd, j, ap (shrink 64 start end) same ∙ e, n_is, is_odd, fits)
