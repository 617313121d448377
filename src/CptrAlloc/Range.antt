-- ===== src/CptrAlloc/Range.antt =====
-- The search for a run of free slots.
use mathlib.Core.Option
use untitled_bare_metal.Base.{
  ℕ, zero, suc, ◌+◌, ◌-◌, ◌*◌, ◌/◌, ◌%◌, ◌^◌, ◌≤◌, ◌<◌, ◌≡◌, refl, ap, sym, ◌∙◌, true, false, ◌==◌,
  ==_iff, Bool-cases, dec_lt, ℕ_discrete, arith, some, none, ◌⊎◌, inl, inr,
}
use untitled_bare_metal.CptrAlloc.{
  Bitmap, bitmap_size, is_taken, found_from, mark_from, starts_from, repeat_starts, words_from,
  cptr_alloc_range,
}
use untitled_bare_metal.CptrAlloc.Bitmap.{
  slot_taken, slot_taken-test, full_word-taken, outside-taken, mark_from-taken,
}

-- The `n` slots from `c` on are free.
abbrev pub RunFree : (c n : ℕ) → Bitmap → Type 0
RunFree c n bitmap = (m : ℕ) → m < n → slot_taken (c + m) bitmap ≡ false

-- One of the `n` slots from `c` on is in use, or behind the end.
abbrev pub Blocked : (c n : ℕ) → Bitmap → Type 0
Blocked c n bitmap = (m : ℕ) × (m < n) × (slot_taken (c + m) bitmap ≡ true)

same_slot :
    (i j k : ℕ) (bitmap : Bitmap)
    → is_taken (i + (j + k) / 64) ((j + k) % 64) bitmap ≡ slot_taken (i * 64 + j + k) bitmap
same_slot i j k bitmap =
    let word : i + (j + k) / 64 ≡ (i * 64 + j + k) / 64 = omega arith in
    let bit : (j + k) % 64 ≡ (i * 64 + j + k) % 64 = omega arith in
    ap (λ (w : ℕ). is_taken w ((j + k) % 64) bitmap) word
    ∙ ap (λ (b : ℕ). is_taken ((i * 64 + j + k) / 64) b bitmap) bit
    ∙ slot_taken-test (i * 64 + j + k) bitmap

-- The loop over k finds whether the slots from `k` on are free.
found_from-decides :
    (left k i j : ℕ) (bitmap : Bitmap)
    → ((found_from left k i j bitmap ≡ true)
        × ((m : ℕ) → k ≤ m → m < k + left → slot_taken (i * 64 + j + m) bitmap ≡ false))
      ⊎ ((found_from left k i j bitmap ≡ false)
          × (m : ℕ) × (m < k + left)
          × (slot_taken (i * 64 + j + m) bitmap ≡ true))
unfolding found_from
found_from-decides zero k i j bitmap = inl (refl, λ m lo hi. absurd (omega arith))
found_from-decides (suc left) k i j bitmap =
    let here = same_slot i j k bitmap in
    elim (Bool-cases (slot_taken (i * 64 + j + k) bitmap)) [
      | inl t ↦ inr (rw (here, t) refl, k, omega arith, t)
      | inr f ↦ elim (found_from-decides left (k + 1) i j bitmap) [
        | inl (e, all) ↦ inl (
          rw (here, f) e,
          λ m lo hi. elim (dec_lt k m) [
            | yes above ↦ all m (omega arith) (omega arith)
            | no at ↦ let same : m ≡ k = omega arith in rw same f
          ],
        )
        | inr (e, m, hi, t) ↦ inr (rw (here, f) e, m, omega arith, t)
      ]
    ]

-- The first free run that starts in slots `lo` to `hi`, and its marking; or there is none.
abbrev FirstRun : (lo hi n : ℕ) → Bitmap → Option.Option (ℕ × Bitmap) → Type 0
FirstRun lo hi n bitmap result =
    ((c : ℕ) × (lo ≤ c)
      × (c < hi)
      × (result ≡ some (c, mark_from n 0 (c / 64) (c % 64) bitmap))
      × RunFree c n bitmap
      × ((l : ℕ) → lo ≤ l → l < c → Blocked l n bitmap))
    ⊎ ((result ≡ none) × ((l : ℕ) → lo ≤ l → l < hi → Blocked l n bitmap))

starts_from-FirstRun :
    (left j i n : ℕ) (bitmap : Bitmap)
    → j + left ≤ 64
    → FirstRun (i * 64 + j) (i * 64 + j + left) n bitmap (starts_from left j i n bitmap)
unfolding starts_from
starts_from-FirstRun zero j i n bitmap le = inr (refl, λ l lo hi. absurd (omega arith))
starts_from-FirstRun (suc left) j i n bitmap le = elim (found_from-decides n 0 i j bitmap) [
  | inl (e, all) ↦
      let word : (i * 64 + j) / 64 ≡ i = omega arith in
      let bit : (i * 64 + j) % 64 ≡ j = omega arith in
      inl (
        i * 64 + j,
        omega arith,
        omega arith,
        rw (e, word, bit) refl,
        λ m lt. all m (omega arith) (omega arith),
        λ l lo hi. absurd (omega arith),
      )
  | inr (e, m, hi, t) ↦
      let here : (l : ℕ) → l ≡ i * 64 + j → Blocked l n bitmap =
        λ l p. rw p (m, omega (arith, hi), t) in
      elim (starts_from-FirstRun left (j + 1) i n bitmap (omega arith)) [
        | inl (c, lo, up, r, free, before) ↦ inl (
          c,
          omega arith,
          omega arith,
          rw e r,
          free,
          λ l a b. elim (dec_lt (i * 64 + j) l) [
            | yes above ↦ before l (omega arith) b
            | no at ↦ here l (omega arith)
          ],
        )
        | inr (r, all) ↦ inr (
          rw e r,
          λ l a b. elim (dec_lt (i * 64 + j) l) [
            | yes above ↦ all l (omega arith) (omega arith)
            | no at ↦ here l (omega arith)
          ],
        )
      ]
]

-- The next rounds of the outer loop over j find what the first one found.
repeat_starts-first :
    (rounds i n : ℕ) (bitmap : Bitmap)
    → repeat_starts (suc rounds) i n bitmap ≡ starts_from 64 0 i n bitmap
unfolding repeat_starts
repeat_starts-first rounds i n bitmap = elim (starts_from-FirstRun 64 0 i n bitmap (omega arith)) [
  | inl (c, lo, up, r, free, before) ↦ rw (r, repeat_starts) refl
  | inr (r, all) ↦ rounds-none r rounds
]
  where
    rounds-none :
        starts_from 64 0 i n bitmap ≡ none
        → (rounds : ℕ) → repeat_starts (suc rounds) i n bitmap ≡ starts_from 64 0 i n bitmap
    rounds-none r zero = rw (r, repeat_starts) refl
    rounds-none r (suc rounds) = rw (r, repeat_starts) (rounds-none r rounds ∙ r)

-- No run starts in a full word.
full_word-Blocked :
    (i n l : ℕ) (bitmap : Bitmap)
    → 0 < n
    → bitmap i ≡ 0xffff_ffff_ffff_ffff
    → i * 64 ≤ l
    → l < i * 64 + 64
    → Blocked l n bitmap
full_word-Blocked i n l bitmap pos full lo hi =
    let word : (l + 0) / 64 ≡ i = omega arith in
    (
      0,
      pos,
      sym (slot_taken-test (l + 0) bitmap)
          ∙ (rw word (full_word-taken i ((l + 0) % 64) bitmap full (omega arith))),
    )

-- What is found behind a word in which no run starts.
later-FirstRun :
    (i left n : ℕ) (bitmap : Bitmap) (result : Option.Option (ℕ × Bitmap))
    → ((l : ℕ) → i * 64 ≤ l → l < i * 64 + 64 → Blocked l n bitmap)
    → FirstRun ((i + 1) * 64) ((i + 1 + left) * 64) n bitmap result
    → FirstRun (i * 64) ((i + suc left) * 64) n bitmap result
later-FirstRun i left n bitmap result word (inl (c, lo, up, r, run, before)) = inl (
  c,
  omega arith,
  omega arith,
  r,
  run,
  λ l a b. elim (dec_lt l (i * 64 + 64)) [
    | yes lt ↦ word l a lt
    | no ge ↦ before l (omega arith) b
  ],
)
later-FirstRun i left n bitmap result word (inr (r, all)) = inr (
  r,
  λ l a b. elim (dec_lt l (i * 64 + 64)) [
    | yes lt ↦ word l a lt
    | no ge ↦ all l (omega arith) (omega arith)
  ],
)

words_from-FirstRun :
    (left i n : ℕ) (bitmap : Bitmap)
    → 0 < n
    → FirstRun (i * 64) ((i + left) * 64) n bitmap (words_from left i n bitmap)
unfolding words_from
words_from-FirstRun zero i n bitmap pos = inr (refl, λ l lo hi. absurd (omega arith))
words_from-FirstRun (suc left) i n bitmap pos =
    let others = words_from-FirstRun left (i + 1) n bitmap pos in
    elim (ℕ_discrete (bitmap i) 0xffff_ffff_ffff_ffff) [
      | yes full ↦
          let test : (bitmap i == 0xffff_ffff_ffff_ffff) ≡ true = (==_iff _ _).1 full in
          rw test (
            later-FirstRun i left n bitmap _
              (λ l lo hi. full_word-Blocked i n l bitmap pos full lo hi) others)
      | no free ↦
          let test : (bitmap i == 0xffff_ffff_ffff_ffff) ≡ false = ground arith in
          elim (starts_from-FirstRun 64 0 i n bitmap (omega arith)) [
            | inl (c, lo, up, r, run, before) ↦ inl (
              c,
              omega arith,
              omega arith,
              rw (test, repeat_starts-first 63 i n bitmap, r) refl,
              run,
              λ l a b. before l (omega arith) b,
            )
            | inr (r, all) ↦
                rw (test, repeat_starts-first 63 i n bitmap, r)
                  (later-FirstRun i left n bitmap _ (λ l lo hi. all l (omega arith) (omega arith))
                    others)
          ]
    ]

-- The slots from `c` on are in use afterwards, and the others as before.
abbrev pub Marked : (c n : ℕ) (bitmap bitmap' : Bitmap) → Type 0
Marked c n bitmap bitmap' =
    (x : ℕ)
    → ((c ≤ x) × (x < c + n) × (slot_taken x bitmap' ≡ true))
      ⊎ (((x < c) ⊎ (c + n ≤ x)) × (slot_taken x bitmap' ≡ slot_taken x bitmap))

pub mark_from-Marked :
    (c n : ℕ) (bitmap : Bitmap) → Marked c n bitmap (mark_from n 0 (c / 64) (c % 64) bitmap)
mark_from-Marked c n bitmap x = elim (mark_from-taken n 0 (c / 64) (c % 64) x bitmap) [
  | inl (lo, hi, t) ↦ inl (omega arith, omega arith, t)
  | inr (out, t) ↦ inr (elim out [ inl b ↦ inl (omega arith) | inr a ↦ inr (omega arith) ], t)
]

-- For n > 0 and any bitmap, cptr_alloc_range returns the first slot from which n slots are free,
-- and then exactly these n are in use in addition; or it returns -1 and changes nothing, and then
-- every run of n slots has one that is in use or behind the end.
pub cptr_alloc_range-First :
    (n : ℕ) (bitmap : Bitmap)
    → 0 < n
    → ((c : ℕ) × (bitmap' : Bitmap) × (cptr_alloc_range n bitmap ≡ (c, bitmap'))
        × RunFree c n bitmap
        × ((l : ℕ) → l < c → Blocked l n bitmap)
        × Marked c n bitmap bitmap')
      ⊎ ((cptr_alloc_range n bitmap ≡ (2 ^ 64 - 1, bitmap)) × ((l : ℕ) → Blocked l n bitmap))
unfolding cptr_alloc_range
cptr_alloc_range-First n bitmap pos = elim (words_from-FirstRun bitmap_size 0 n bitmap pos) [
  | inl (c, lo, up, r, run, before) ↦ inl (
    c,
    mark_from n 0 (c / 64) (c % 64) bitmap,
    rw (r, cptr_alloc_range) refl,
    run,
    λ l lt. before l (omega arith) lt,
    mark_from-Marked c n bitmap,
  )
  | inr (r, all) ↦ inr (
    rw (r, cptr_alloc_range) refl,
    λ l. elim (dec_lt l 32768) [
      | yes lt ↦ all l (omega arith) (omega arith)
      | no ge ↦ (
        0,
        pos,
        sym (slot_taken-test (l + 0) bitmap)
            ∙ outside-taken ((l + 0) / 64) ((l + 0) % 64) bitmap (omega arith),
      )
    ],
  )
]
