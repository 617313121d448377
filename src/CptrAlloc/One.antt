-- ===== src/CptrAlloc/One.antt =====
-- A single slot: the search of cptr_alloc, whose mask is a shifted `int`.
use mathlib.Core.Option
use Prim.Native.Nat.{bit_and}
use untitled_bare_metal.Base.{
  ℕ, zero, suc, ◌+◌, ◌*◌, ◌/◌, ◌%◌, ◌^◌, ◌≤◌, ◌<◌, ◌≡◌, ◌≢◌, refl, sym, subst, ap, ◌∙◌, true, false,
  ◌==◌, ==_iff, ltb, Bool-cases, dec_lt, ℕ_discrete, arith, some, none, ◌⊎◌, inl, inr,
}
use untitled_bare_metal.CptrAlloc.{
  Bitmap, bitmap_size, set_bit, is_taken, Allocation, allocated, exhausted, undefined_shift,
  bits_from, single_from, cptr_alloc,
}
use untitled_bare_metal.CptrAlloc.Bitmap.{slot_taken, slot_taken-test, set_bit-taken}
use untitled_bare_metal.CptrAlloc.Range.{Marked}

abbrev full_word : ℕ
full_word = 0xffff_ffff_ffff_ffff

-- What the loop over j finds in word `i` from bit `j` on.
abbrev FirstBit : (j i : ℕ) → Bitmap → Option.Option Allocation → Type 0
FirstBit j i bitmap result =
    ((b : ℕ) × (j ≤ b)
      × (b < 31)
      × (result ≡ some (allocated (i * 64 + b) (set_bit i b bitmap)))
      × (is_taken i b bitmap ≡ false)
      × ((l : ℕ) → j ≤ l → l < b → is_taken i l bitmap ≡ true))
    ⊎ ((result ≡ some undefined_shift) × ((l : ℕ) → j ≤ l → l < 31 → is_taken i l bitmap ≡ true))

module _ (i : ℕ) (bitmap : Bitmap) (inside : i < bitmap_size) where
  taken_test : (b : ℕ) → (bit_and (bitmap i) (2 ^ b) == 0) ≡ false → is_taken i b bitmap ≡ true
  unfolding is_taken
  taken_test b h = rw h (ground arith)

  free_test : (b : ℕ) → (bit_and (bitmap i) (2 ^ b) == 0) ≡ true → is_taken i b bitmap ≡ false
  unfolding is_taken
  free_test b h = rw h (ground arith)

  bits_from-FirstBit :
      (left j : ℕ) → j ≤ 31 → 31 < j + left → FirstBit j i bitmap (bits_from left j i bitmap)
  unfolding bits_from
  bits_from-FirstBit zero j le lt = absurd (omega arith)
  bits_from-FirstBit (suc left) j le lt = elim (dec_lt j 31) [
    | no end ↦
        let test : ltb j 31 ≡ false = ground arith in
        inr (rw test refl, λ l lo hi. absurd (omega arith))
    | yes more ↦
        let test : ltb j 31 ≡ true = ground arith in
        elim (Bool-cases (bit_and (bitmap i) (2 ^ j) == 0)) [
          | inl free ↦ inl (
            j,
            omega arith,
            more,
            rw (test, free) refl,
            free_test j free,
            λ l lo hi. absurd (omega arith),
          )
          | inr set ↦
              let here : (l : ℕ) → l ≡ j → is_taken i l bitmap ≡ true =
                λ l e. rw e (taken_test j set) in
              elim (bits_from-FirstBit left (j + 1) (omega arith) (omega arith)) [
                | inl (b, lo, hi, r, free, before) ↦ inl (
                  b,
                  omega arith,
                  hi,
                  rw (test, set) r,
                  free,
                  λ l a c. elim (dec_lt j l) [
                    | yes above ↦ before l (omega arith) c
                    | no at ↦ here l (omega arith)
                  ],
                )
                | inr (r, all) ↦ inr (
                  rw (test, set) r,
                  λ l a c. elim (dec_lt j l) [
                    | yes above ↦ all l (omega arith) c
                    | no at ↦ here l (omega arith)
                  ],
                )
              ]
        ]
  ]

-- The first word from `i` on that is not full, and what is found there.
abbrev FirstWord : (i hi : ℕ) → Bitmap → Option.Option Allocation → Type 0
FirstWord i hi bitmap result =
    ((w : ℕ) × (i ≤ w)
      × (w < hi)
      × (bitmap w ≢ full_word)
      × ((v : ℕ) → i ≤ v → v < w → bitmap v ≡ full_word)
      × FirstBit 0 w bitmap result)
    ⊎ ((result ≡ none) × ((v : ℕ) → i ≤ v → v < hi → bitmap v ≡ full_word))

single_from-FirstWord :
    (left i : ℕ) (bitmap : Bitmap)
    → i + left ≤ bitmap_size
    → FirstWord i (i + left) bitmap (single_from left i bitmap)
unfolding single_from
single_from-FirstWord zero i bitmap le = inr (refl, λ v lo hi. absurd (omega arith))
single_from-FirstWord (suc left) i bitmap le = elim (ℕ_discrete (bitmap i) full_word) [
  | yes full ↦
      let test : (bitmap i == full_word) ≡ true = (==_iff _ _).1 full in
      let here : (v : ℕ) → v ≡ i → bitmap v ≡ full_word = λ v e. ap bitmap e ∙ full in
      elim (single_from-FirstWord left (i + 1) bitmap (omega arith)) [
        | inl (w, lo, hi, ne, before, f) ↦ inl (
          w,
          omega arith,
          omega arith,
          ne,
          λ v a b. elim (dec_lt i v) [
            | yes above ↦ before v (omega arith) b
            | no at ↦ here v (omega arith)
          ],
          rw test f,
        )
        | inr (r, all) ↦ inr (
          rw test r,
          λ v a b. elim (dec_lt i v) [
            | yes above ↦ all v (omega arith) (omega arith)
            | no at ↦ here v (omega arith)
          ],
        )
      ]
  | no ne ↦
      let test : (bitmap i == full_word) ≡ false = ground arith in
      inl (
        i,
        omega arith,
        omega arith,
        ne,
        λ v a b. absurd (omega arith),
        rw test (elim (bits_from-FirstBit i bitmap (omega arith) 64 0 (omega arith) (omega arith)) [
          | inl (b, lo, hi, r, free, more) ↦ inl (b, lo, hi, rw r refl, free, more)
          | inr (r, all) ↦ inr (rw r refl, all)
        ]),
      )
]

set_bit-Marked :
    (w b : ℕ) (bitmap : Bitmap) → b < 64 → Marked (w * 64 + b) 1 bitmap (set_bit w b bitmap)
set_bit-Marked w b bitmap lt x =
    let word : (w * 64 + b) / 64 ≡ w = omega arith in
    let bit : (w * 64 + b) % 64 ≡ b = omega arith in
    let one =
      subst
        (λ (i : ℕ).
          ((x ≡ w * 64 + b) × (slot_taken x (set_bit i b bitmap) ≡ true))
          ⊎ ((x ≢ w * 64 + b) × (slot_taken x (set_bit i b bitmap) ≡ slot_taken x bitmap)))
        word
        (subst
          (λ (j : ℕ).
            ((x ≡ w * 64 + b) × (slot_taken x (set_bit ((w * 64 + b) / 64) j bitmap) ≡ true))
            ⊎ ((x ≢ w * 64 + b)
                × (slot_taken x (set_bit ((w * 64 + b) / 64) j bitmap) ≡ slot_taken x bitmap)))
          bit (set_bit-taken (w * 64 + b) x bitmap)) in
    elim one [
      | inl (e, t) ↦ inl (omega arith, omega arith, t)
      | inr (ne, t) ↦
          inr (
            elim (dec_lt x (w * 64 + b)) [ yes below ↦ inl below | no above ↦ inr (omega arith) ],
            t,
          )
    ]

same_bit :
    (w b : ℕ) (bitmap : Bitmap) → b < 64 → slot_taken (w * 64 + b) bitmap ≡ is_taken w b bitmap
same_bit w b bitmap lt =
    let word : (w * 64 + b) / 64 ≡ w = omega arith in
    let bit : (w * 64 + b) % 64 ≡ b = omega arith in
    sym (slot_taken-test (w * 64 + b) bitmap) ∙ (rw (word, bit) refl)

-- For any bitmap: if every word is full, cptr_alloc returns -1 and changes nothing. Otherwise, in
-- the first word that is not full, either one of the bits 0 to 30 is clear, and it returns the slot
-- of the first of them and puts exactly that slot in use; or they are all set, and it shifts an int
-- out of range, which is undefined.
pub cptr_alloc-Answers :
    (bitmap : Bitmap)
    → ((w : ℕ) × (w < bitmap_size)
        × (bitmap w ≢ 0xffff_ffff_ffff_ffff)
        × ((v : ℕ) → v < w → bitmap v ≡ 0xffff_ffff_ffff_ffff)
        × (((b : ℕ) × (bitmap' : Bitmap) × (b < 31)
              × (cptr_alloc bitmap ≡ allocated (w * 64 + b) bitmap')
              × (slot_taken (w * 64 + b) bitmap ≡ false)
              × ((l : ℕ) → l < b → slot_taken (w * 64 + l) bitmap ≡ true)
              × Marked (w * 64 + b) 1 bitmap bitmap')
            ⊎ ((cptr_alloc bitmap ≡ undefined_shift)
                × ((l : ℕ) → l < 31 → slot_taken (w * 64 + l) bitmap ≡ true))))
      ⊎ ((cptr_alloc bitmap ≡ exhausted bitmap)
          × ((v : ℕ) → v < bitmap_size → bitmap v ≡ 0xffff_ffff_ffff_ffff))
unfolding cptr_alloc
cptr_alloc-Answers bitmap = elim (single_from-FirstWord bitmap_size 0 bitmap (omega arith)) [
  | inr (r, all) ↦ inr (rw (r, cptr_alloc) refl, λ v lt. all v (omega arith) lt)
  | inl (w, lo, hi, ne, before, f) ↦
      let inside : w < bitmap_size = omega arith in
      inl (
        w,
        inside,
        ne,
        λ v lt. before v (omega arith) lt,
        elim f [
          | inl (b, low, lt, r, free, all) ↦ inl (
            b,
            set_bit w b bitmap,
            lt,
            rw (r, cptr_alloc) refl,
            same_bit w b bitmap (omega arith) ∙ free,
            λ l less. same_bit w l bitmap (omega arith) ∙ all l (omega arith) less,
            set_bit-Marked w b bitmap (omega arith),
          )
          | inr (r, all) ↦ inr (
            rw (r, cptr_alloc) refl,
            λ l less. same_bit w l bitmap (omega arith) ∙ all l (omega arith) less,
          )
        ],
      )
]
