-- ===== src/Alloc/Page.antt =====
-- Pages for the kernel: whose memory they come from, and that none is given out twice.
use untitled_bare_metal.Base.{
  ℕ, zero, suc, ◌+◌, ◌^◌, ◌≤◌, ◌<◌, ◌≡◌, refl, sym, subst, Bool, true, false, u64, none, some, ◌↔◌,
  ◌⊎◌, inl, inr, arith, Bool-cases, dec_lt,
}
use untitled_bare_metal.Alloc.{
  PowerOfTwoRegion, Memory, page_size, region_size, has_page, is_unused, first_region, page_from,
  open_region, alloc_page,
}
use untitled_bare_metal.Alloc.Taking.{Sound, Given, Exhausted, Takes-Given}

-- The first region with a property, or that there is none.
abbrev pub FirstWith : (PowerOfTwoRegion → Bool) → (left i : ℕ) → (ℕ → PowerOfTwoRegion) → Type 0
FirstWith p left i rs =
    ((j : ℕ) × (first_region p left i rs ≡ some j) × (i ≤ j) × (j < i + left) × (p (rs j) ≡ true))
    ⊎ ((first_region p left i rs ≡ none) × ((j : ℕ) → i ≤ j → j < i + left → p (rs j) ≡ false))

pub first_region-FirstWith :
    (p : PowerOfTwoRegion → Bool) (left i : ℕ) (rs : ℕ → PowerOfTwoRegion) → FirstWith p left i rs
unfolding first_region
first_region-FirstWith p zero i rs = inr (refl, λ j lo hi. absurd (omega arith))
first_region-FirstWith p (suc left) i rs = elim (Bool-cases (p (rs i))) [
  | inl h ↦ inl (i, rw h, omega arith, omega arith, h)
  | inr h ↦ elim (first_region-FirstWith p left (i + 1) rs) [
    | inl (j, e, lo, hi, q) ↦ inl (j, rw h e, omega arith, omega arith, q)
    | inr (e, all) ↦ inr (
      rw h e,
      λ j lo hi. elim (dec_lt i j) [
        | yes above ↦ all j (omega arith) (omega arith)
        | no here ↦ let same : j ≡ i = omega arith in rw same h
      ],
    )
  ]
]

has_page_iff :
    (r : PowerOfTwoRegion)
    → page_size ≤ region_size r
    → region_size r < 2 ^ 64
    → (has_page r ≡ true) ↔ (
        (r.in_kernel_use ≡ true) × (r.for_pages ≡ true) × (r.watermark + page_size < region_size r))
unfolding has_page
has_page_iff r p b = (λ h. ground arith, λ h. ground arith)

is_unused-false :
    (r : PowerOfTwoRegion) → is_unused r ≡ false → (r.in_kernel_use ≡ true) ⊎ (r.in_user_use ≡ true)
unfolding is_unused
is_unused-false r h = elim (Bool-cases r.in_kernel_use) [
  | inl k ↦ inl k
  | inr k ↦ inr (ground arith)
]

page_from-Given :
    (m : Memory) (i : ℕ)
    → Sound m
    → i < m.region_count
    → has_page (m.regions i) ≡ true
    → Given m (page_from i m).0 (page_from i m).1
unfolding region_size
page_from-Given m i s lt h =
    let (k, _, room) =
      (has_page_iff (m.regions i) (s.page i lt) (omega (arith, s.below i lt))).0 h in
    let whole : u64 ((m.regions i).addr + (m.regions i).watermark)
        ≡ (m.regions i).addr + (m.regions i).watermark =
      omega (arith, s.below i lt, room) in
    rw whole (
      Takes-Given m i _ (m.regions i).watermark s (record {
        index = lt;
        addr = refl;
        size = refl;
        kernel = k;
        user = (s.taken i lt k).1;
        was_user = (s.taken i lt k).1;
        watermark = omega (arith, s.below i lt, room);
        room = omega (arith, room);
        before = inl (k, refl);
      }))

open_region-Given :
    (m : Memory) (i : ℕ)
    → Sound m
    → i < m.region_count
    → is_unused (m.regions i) ≡ true
    → Given m (open_region i m).0 (open_region i m).1
unfolding is_unused region_size
open_region-Given m i s lt h =
    let user : (m.regions i).in_user_use ≡ false = ground arith in
    let start : (m.regions i).addr ≡ (m.regions i).addr + 0 = omega arith in
    subst (λ (a : ℕ). Given m a (open_region i m).1) (sym start)
      (Takes-Given m i _ 0 s (record {
        index = lt;
        addr = refl;
        size = refl;
        kernel = refl;
        user = user;
        was_user = user;
        watermark = omega arith;
        room = s.page i lt;
        before = inr (ground arith, refl);
      }))

-- If the regions lie apart, each has a page at least, none is used by both the kernel and the user,
-- and what was taken lies in its region, then alloc_page has two answers. Either it returns an
-- address whose page was not taken before and is now, everything taken stays so, the page overlaps
-- no region of the user, and the conditions hold again. Or it fails, and then every region is in
-- use and none that the kernel takes pages from has more than one page left.
pub alloc_page-Answers :
    (m : Memory)
    → Sound m
    → ((a : ℕ) × (m' : Memory) × (alloc_page m ≡ some (a, m')) × Given m a m')
      ⊎ ((alloc_page m ≡ none) × Exhausted m)
unfolding alloc_page
alloc_page-Answers m s = elim (first_region-FirstWith has_page m.region_count 0 m.regions) [
  | inl (i, e, lo, hi, h) ↦ inl (
    (page_from i m).0,
    (page_from i m).1,
    rw (e, alloc_page) refl,
    page_from-Given m i s (omega arith) h,
  )
  | inr (e, no_page) ↦ elim (first_region-FirstWith is_unused m.region_count 0 m.regions) [
    | inl (i, e', lo, hi, h) ↦ inl (
      (open_region i m).0,
      (open_region i m).1,
      rw (e, alloc_page) (rw e' refl),
      open_region-Given m i s (omega arith) h,
    )
    | inr (e', no_region) ↦ inr (
      rw (e, alloc_page) (rw e' refl),
      record {
        in_use = λ j lt. is_unused-false (m.regions j) (no_region j (omega arith) (omega arith));
        full = λ j lt k p.
            elim (dec_lt ((m.regions j).watermark + page_size) (region_size (m.regions j))) [
              | yes room ↦ cc (
                no_page j (omega arith) (omega arith),
                (has_page_iff (m.regions j) (s.page j lt) (omega (arith, s.below j lt))).1
                    (k, p, room),
              )
              | no full ↦ omega arith
            ];
      },
    )
  ]
]
