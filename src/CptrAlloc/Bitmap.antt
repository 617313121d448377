-- ===== src/CptrAlloc/Bitmap.antt =====
-- The bitmap of lib/cptr_alloc.c as the set of the slots in use.
use Prim.Native.Nat.{bit_and, bit_or}
use untitled_bare_metal.Base.{
  ℕ, zero, suc, ◌+◌, ◌-◌, ◌*◌, ◌/◌, ◌%◌, ◌^◌, ◌≤◌, ◌<◌, ◌≡◌, ◌≢◌, refl, sym, ◌∙◌, Bool, true, not,
  ◌||◌, ◌==◌, ==_iff, leb, ℕ_discrete, dec_lt, arith, ◌⊎◌, inl, inr,
}
use untitled_bare_metal.Base.Powers.{pow-le}
use untitled_bare_metal.Base.OneBit.{
  bit_at, bit_at-lt, bit_or-bit_at, bit_and-bit_at, pow-bit_at-same, pow-bit_at-other, ones-bit_at,
}
use untitled_bare_metal.CptrAlloc.{Bitmap, bitmap_size, set_bit, is_taken, mark_from}

-- Slot `c` is in use, or behind the end of the bitmap.
abbrev pub slot_taken : ℕ → Bitmap → Bool
slot_taken c bitmap = leb bitmap_size (c / 64) || not (bit_at (bitmap (c / 64)) (c % 64) == 0)

-- The test of a bit by a mask.
pub mask_test : (word b : ℕ) → (bit_and word (2 ^ b) == 0) ≡ (bit_at word b == 0)
mask_test word b = elim (ℕ_discrete (bit_at word b) 0) [
  | yes z ↦
      let no_bit : bit_and word (2 ^ b) ≡ 0 = rw (bit_and-bit_at b word, z) (omega arith) in
      ground arith
  | no nz ↦
      let one : bit_at word b ≡ 1 = omega (arith, bit_at-lt b word) in
      let word_bit : bit_and word (2 ^ b) ≢ 0 =
        rw (bit_and-bit_at b word, one) (omega (arith, pow-le 0 b (omega arith))) in
      ground arith
]

pub is_taken-bit :
    (idx b : ℕ) (bitmap : Bitmap)
    → is_taken idx b bitmap ≡ (leb bitmap_size idx || not (bit_at (bitmap idx) b == 0))
unfolding is_taken
is_taken-bit idx b bitmap = rw (mask_test (bitmap idx) b) refl

-- The test of the code is whether the slot is in use.
pub slot_taken-test :
    (c : ℕ) (bitmap : Bitmap) → is_taken (c / 64) (c % 64) bitmap ≡ slot_taken c bitmap
slot_taken-test c bitmap = is_taken-bit (c / 64) (c % 64) bitmap

pub full_word-taken :
    (idx b : ℕ) (bitmap : Bitmap) → bitmap idx ≡ 2 ^ 64 - 1 → b < 64 → is_taken idx b bitmap ≡ true
full_word-taken idx b bitmap full lt =
    rw (is_taken-bit idx b bitmap, full, ones-bit_at 64 b lt) (ground arith)

pub outside-taken : (idx b : ℕ) (bitmap : Bitmap) → bitmap_size ≤ idx → is_taken idx b bitmap ≡ true
unfolding is_taken
outside-taken idx b bitmap h = ground arith

module _ (idx b : ℕ) (bitmap : Bitmap) where
  pub set_bit-same : is_taken idx b (set_bit idx b bitmap) ≡ true
  set_bit-same =
      let set : bit_at (bit_or (bitmap idx) (2 ^ b)) b ≡ 1 = omega (
        arith,
        bit_or-bit_at b (bitmap idx) (2 ^ b),
        pow-bit_at-same b,
        bit_at-lt b (bitmap idx),
      ) in
      rw (is_taken-bit idx b (set_bit idx b bitmap), (==_iff idx idx).1 refl, set) (ground arith)

  pub set_bit-bit : (c : ℕ) → b ≢ c → is_taken idx c (set_bit idx b bitmap) ≡ is_taken idx c bitmap
  set_bit-bit c ne =
      let kept : bit_at (bit_or (bitmap idx) (2 ^ b)) c ≡ bit_at (bitmap idx) c =
        omega (arith, bit_or-bit_at c (bitmap idx) (2 ^ b), pow-bit_at-other b c ne) in
      rw
        (
          is_taken-bit idx c (set_bit idx b bitmap),
          is_taken-bit idx c bitmap,
          (==_iff idx idx).1 refl,
          kept,
        )
        refl

  pub set_bit-word : (i c : ℕ) → i ≢ idx → is_taken i c (set_bit idx b bitmap) ≡ is_taken i c bitmap
  unfolding is_taken
  set_bit-word i c ne = ground arith

set_bit-test :
    (c x : ℕ) (bitmap : Bitmap)
    → ((x ≡ c) × (is_taken (x / 64) (x % 64) (set_bit (c / 64) (c % 64) bitmap) ≡ true))
      ⊎ ((x ≢ c)
          × (is_taken (x / 64) (x % 64) (set_bit (c / 64) (c % 64) bitmap)
              ≡ is_taken (x / 64) (x % 64) bitmap))
set_bit-test c x bitmap = elim (ℕ_discrete x c) [
  | yes e ↦ inl (e, rw e (set_bit-same (c / 64) (c % 64) bitmap))
  | no ne ↦ inr (
    ne,
    elim (ℕ_discrete (x / 64) (c / 64)) [
      | yes e ↦ rw e (set_bit-bit (c / 64) (c % 64) bitmap (x % 64) (omega arith))
      | no nw ↦ set_bit-word (c / 64) (c % 64) bitmap (x / 64) (x % 64) nw
    ],
  )
]

pub set_bit-taken :
    (c x : ℕ) (bitmap : Bitmap)
    → ((x ≡ c) × (slot_taken x (set_bit (c / 64) (c % 64) bitmap) ≡ true))
      ⊎ ((x ≢ c) × (slot_taken x (set_bit (c / 64) (c % 64) bitmap) ≡ slot_taken x bitmap))
set_bit-taken c x bitmap = elim (set_bit-test c x bitmap) [
  | inl (e, t) ↦ inl (e, sym (slot_taken-test x (set_bit (c / 64) (c % 64) bitmap)) ∙ t)
  | inr (ne, t) ↦ inr (
    ne,
    sym (slot_taken-test x (set_bit (c / 64) (c % 64) bitmap)) ∙ t ∙ slot_taken-test x bitmap,
  )
]

-- Marking takes the slots of the range, and changes no other.
pub mark_from-taken :
    (left k i j x : ℕ) (bitmap : Bitmap)
    → ((i * 64 + j + k ≤ x)
        × (x < i * 64 + j + k + left)
        × (slot_taken x (mark_from left k i j bitmap) ≡ true))
      ⊎ (((x < i * 64 + j + k) ⊎ (i * 64 + j + k + left ≤ x))
          × (slot_taken x (mark_from left k i j bitmap) ≡ slot_taken x bitmap))
unfolding mark_from
mark_from-taken zero k i j x bitmap =
    inr (elim (dec_lt x (i * 64 + j + k)) [ yes lt ↦ inl lt | no ge ↦ inr (omega arith) ], refl)
mark_from-taken (suc left) k i j x bitmap =
    let bit : (j + k) % 64 ≡ (i * 64 + j + k) % 64 = omega arith in
    let marked = set_bit ((i * 64 + j + k) / 64) ((j + k) % 64) bitmap in
    let one = set_bit-taken (i * 64 + j + k) x bitmap in
    elim (mark_from-taken left (k + 1) i j x marked) [
      | inl (lo, hi, t) ↦ inl (omega arith, omega arith, t)
      | inr (out, t) ↦ elim one [
        | inl (e, t') ↦ inl (omega arith, omega arith, t ∙ (rw bit t'))
        | inr (ne, t') ↦
            inr
              (elim out [ inl b ↦ inl (omega arith) | inr a ↦ inr (omega arith) ], t ∙ (rw bit t'))
      ]
    ]
