-- ===== src/CptrAlloc/Clear.antt =====
-- Slots that are given back, and the slots that are free at the start.
use Prim.Native.Nat.{bit_and}
use untitled_bare_metal.Base.{
  ℕ, zero, suc, ◌+◌, ◌-◌, ◌*◌, ◌/◌, ◌%◌, ◌^◌, ◌≤◌, ◌<◌, ◌≡◌, ◌≢◌, refl, sym, subst, ◌∙◌, Bool, true,
  false, ◌&&◌, ==_iff, ltb, dec_lt, ℕ_discrete, arith, some, ◌⊎◌, inl, inr,
}
use untitled_bare_metal.Base.OneBit.{
  bit_at, bit_at-lt, bit_and-min, mask-bit_at-same, mask-bit_at-other,
}
use untitled_bare_metal.CptrAlloc.{
  Bitmap, bitmap_size, set_bit, clear_bit, is_taken, set_from, clear_from, cptr_set_range,
  cptr_clear_range, cptr_alloc_init, allocated, cptr_alloc, cptr_free,
}
use untitled_bare_metal.CptrAlloc.Bitmap.{slot_taken, slot_taken-test, set_bit-taken, is_taken-bit}
use untitled_bare_metal.CptrAlloc.Range.{Marked}
use untitled_bare_metal.CptrAlloc.One.{cptr_alloc-Answers}

module _ (idx b : ℕ) (bitmap : Bitmap) (lt : b < 64) where
  clear_bit-same : idx < bitmap_size → is_taken idx b (clear_bit idx b bitmap) ≡ false
  clear_bit-same inside =
      let clear : bit_at (bit_and (bitmap idx) (2 ^ 64 - 1 - 2 ^ b)) b ≡ 0 =
        omega (arith, bit_and-min b (bitmap idx) (2 ^ 64 - 1 - 2 ^ b), mask-bit_at-same 64 b lt) in
      rw (is_taken-bit idx b (clear_bit idx b bitmap), (==_iff idx idx).1 refl, clear)
        (ground arith)

  clear_bit-bit :
      (c : ℕ) → c < 64 → b ≢ c → is_taken idx c (clear_bit idx b bitmap) ≡ is_taken idx c bitmap
  clear_bit-bit c lt' ne =
      let kept : bit_at (bit_and (bitmap idx) (2 ^ 64 - 1 - 2 ^ b)) c ≡ bit_at (bitmap idx) c =
        omega (
          arith,
          bit_and-min c (bitmap idx) (2 ^ 64 - 1 - 2 ^ b),
          mask-bit_at-other 64 b c lt lt' ne,
          bit_at-lt c (bitmap idx),
        ) in
      rw
        (
          is_taken-bit idx c (clear_bit idx b bitmap),
          is_taken-bit idx c bitmap,
          (==_iff idx idx).1 refl,
          kept,
        )
        refl

  clear_bit-word : (i c : ℕ) → i ≢ idx → is_taken i c (clear_bit idx b bitmap) ≡ is_taken i c bitmap
  unfolding is_taken
  clear_bit-word i c ne = ground arith

clear_bit-test :
    (c x : ℕ) (bitmap : Bitmap)
    → c < 32768
    → ((x ≡ c) × (is_taken (x / 64) (x % 64) (clear_bit (c / 64) (c % 64) bitmap) ≡ false))
      ⊎ ((x ≢ c)
          × (is_taken (x / 64) (x % 64) (clear_bit (c / 64) (c % 64) bitmap)
              ≡ is_taken (x / 64) (x % 64) bitmap))
clear_bit-test c x bitmap inside = elim (ℕ_discrete x c) [
  | yes e ↦ inl (e, rw e (clear_bit-same (c / 64) (c % 64) bitmap (omega arith) (omega arith)))
  | no ne ↦ inr (
    ne,
    elim (ℕ_discrete (x / 64) (c / 64)) [
      | yes e ↦ rw e (
          clear_bit-bit (c / 64) (c % 64) bitmap (omega arith) (x % 64) (omega arith) (omega arith))
      | no nw ↦ clear_bit-word (c / 64) (c % 64) bitmap (omega arith) (x / 64) (x % 64) nw
    ],
  )
]

clear_bit-taken :
    (c x : ℕ) (bitmap : Bitmap)
    → c < 32768
    → ((x ≡ c) × (slot_taken x (clear_bit (c / 64) (c % 64) bitmap) ≡ false))
      ⊎ ((x ≢ c) × (slot_taken x (clear_bit (c / 64) (c % 64) bitmap) ≡ slot_taken x bitmap))
clear_bit-taken c x bitmap inside = elim (clear_bit-test c x bitmap inside) [
  | inl (e, t) ↦ inl (e, sym (slot_taken-test x (clear_bit (c / 64) (c % 64) bitmap)) ∙ t)
  | inr (ne, t) ↦ inr (
    ne,
    sym (slot_taken-test x (clear_bit (c / 64) (c % 64) bitmap)) ∙ t ∙ slot_taken-test x bitmap,
  )
]

-- Slots `start` to `end` get the value `v`, and the others keep theirs.
abbrev Becomes : Bool → (start end : ℕ) → (bitmap bitmap' : Bitmap) → ℕ → Type 0
Becomes v start end bitmap bitmap' x =
    ((start ≤ x) × (x < end) × (slot_taken x bitmap' ≡ v))
    ⊎ (((x < start) ⊎ (end ≤ x)) × (slot_taken x bitmap' ≡ slot_taken x bitmap))

-- One slot first, and then the rest.
Becomes-step :
    (v : Bool) (left i x : ℕ) (bitmap one all : Bitmap)
    → ((x ≡ i) × (slot_taken x one ≡ v)) ⊎ ((x ≢ i) × (slot_taken x one ≡ slot_taken x bitmap))
    → Becomes v (i + 1) (i + 1 + left) one all x
    → Becomes v i (i + suc left) bitmap all x
Becomes-step v left i x bitmap one all h (inl (lo, hi, t)) = inl (omega arith, omega arith, t)
Becomes-step v left i x bitmap one all (inl (e, t')) (inr (out, t)) =
    inl (omega arith, omega arith, t ∙ t')
Becomes-step v left i x bitmap one all (inr (ne, t')) (inr (inl b, t)) =
    inr (inl (omega arith), t ∙ t')
Becomes-step v left i x bitmap one all (inr (ne, t')) (inr (inr a, t)) =
    inr (inr (omega arith), t ∙ t')

nothing-Becomes : (v : Bool) (i x : ℕ) (bitmap : Bitmap) → Becomes v i (i + 0) bitmap bitmap x
nothing-Becomes v i x bitmap =
    inr (elim (dec_lt x i) [ yes lt ↦ inl lt | no ge ↦ inr (omega arith) ], refl)

set_from-Becomes :
    (left i x : ℕ) (bitmap : Bitmap) → Becomes true i (i + left) bitmap (set_from left i bitmap) x
unfolding set_from
set_from-Becomes zero i x bitmap = nothing-Becomes true i x bitmap
set_from-Becomes (suc left) i x bitmap =
    Becomes-step true left i x bitmap (set_bit (i / 64) (i % 64) bitmap)
      (set_from left (i + 1) (set_bit (i / 64) (i % 64) bitmap)) (set_bit-taken i x bitmap)
      (set_from-Becomes left (i + 1) x (set_bit (i / 64) (i % 64) bitmap))

clear_from-Becomes :
    (left i x : ℕ) (bitmap : Bitmap)
    → i + left ≤ 32768
    → Becomes false i (i + left) bitmap (clear_from left i bitmap) x
unfolding clear_from
clear_from-Becomes zero i x bitmap le = nothing-Becomes false i x bitmap
clear_from-Becomes (suc left) i x bitmap le =
    Becomes-step false left i x bitmap (clear_bit (i / 64) (i % 64) bitmap)
      (clear_from left (i + 1) (clear_bit (i / 64) (i % 64) bitmap))
      (clear_bit-taken i x bitmap (omega arith))
      (clear_from-Becomes left (i + 1) x (clear_bit (i / 64) (i % 64) bitmap) (omega arith))

-- For a range of free slots inside the bitmap, exactly these slots are free after cptr_alloc_init
-- among the first 4096, and from there on those outside the range are as before.
pub cptr_alloc_init-Slots :
    (start end x : ℕ) (bitmap : Bitmap)
    → start ≤ end
    → end ≤ 32768
    → ((start ≤ x) × (x < end) × (slot_taken x (cptr_alloc_init start end bitmap) ≡ false))
      ⊎ (((x < start) ⊎ (end ≤ x))
          × (((x < 4096) × (slot_taken x (cptr_alloc_init start end bitmap) ≡ true))
              ⊎ ((4096 ≤ x)
                  × (slot_taken x (cptr_alloc_init start end bitmap) ≡ slot_taken x bitmap))))
unfolding cptr_alloc_init cptr_set_range cptr_clear_range
cptr_alloc_init-Slots start end x bitmap le size =
    elim (clear_from-Becomes (end - start) start x (set_from 4096 0 bitmap) (omega arith)) [
      | inl (lo, hi, t) ↦ inl (lo, omega arith, t)
      | inr (out, t) ↦ inr (
        elim out [ inl b ↦ inl b | inr a ↦ inr (omega arith) ],
        elim (set_from-Becomes 4096 0 x bitmap) [
          | inl (lo, hi, t') ↦ inl (omega arith, t ∙ t')
          | inr (inl b, t') ↦ absurd (omega arith)
          | inr (inr a, t') ↦ inr (omega arith, t ∙ t')
        ],
      )
    ]

-- If cptr_alloc has returned a slot, cptr_free of it succeeds, and every slot is then in use
-- exactly if it was before the allocation.
pub cptr_free-cptr_alloc :
    (c x : ℕ) (bitmap bitmap' : Bitmap)
    → cptr_alloc bitmap ≡ allocated c bitmap'
    → (bitmap'' : Bitmap) × (cptr_free c bitmap' ≡ some bitmap'')
      × (slot_taken x bitmap'' ≡ slot_taken x bitmap)
unfolding cptr_free
cptr_free-cptr_alloc c x bitmap bitmap' e = elim (cptr_alloc-Answers bitmap) [
  | inr (r, all) ↦ cc (e, r)
  | inl (w, lt, ne, before, inr (r, all)) ↦ cc (e, r)
  | inl (w, lt, ne, before, inl (b, marked, small, r, free, all, changed)) ↦
      let same : w * 64 + b ≡ c = cc (e, r) in
      let same' : marked ≡ bitmap' = cc (e, r) in
      let inside : (ltb (c % 64) 31 && ltb (c / 64) 512) ≡ true = ground arith in
      let was : slot_taken c bitmap ≡ false =
        subst (λ (s : ℕ). slot_taken s bitmap ≡ false) same free in
      (
        clear_bit (c / 64) (c % 64) bitmap',
        rw inside refl,
        elim (clear_bit-taken c x bitmap' (omega arith)) [
          | inl (at, t) ↦ t ∙ sym (rw at was)
          | inr (off, t) ↦
              t ∙ elim (subst (λ (m : Bitmap). Marked (w * 64 + b) 1 bitmap m) same' changed x) [
                | inl (lo, hi, _) ↦ absurd (omega arith)
                | inr (out, t') ↦ t'
              ]
        ],
      )
]
