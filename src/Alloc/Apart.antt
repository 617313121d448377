-- ===== src/Alloc/Apart.antt =====
-- The pages of the kernel and the memory of the user's first capabilities do not overlap.
use untitled_bare_metal.Base.{
  ℕ, ◌-◌, ◌≤◌, ◌<◌, ◌≡◌, refl, sym, subst, ◌∙◌, true, false, some, inl, inr, arith, List, [], ◌∷◌,
  Bool-cases,
}
use untitled_bare_metal.Alloc.{
  max_regions, PowerOfTwoRegion, Memory, Untypeds, region_size, create_init_untyped_caps,
}
use untitled_bare_metal.Alloc.Taking.{Sound}
use untitled_bare_metal.Alloc.Pages.{Pages, PageApart, Separate, ApartFromUser, Pages-Separate}
use untitled_bare_metal.Alloc.Handout.{
  CapsSafe, HandedOut, for_user, create_init_untyped_caps-HandedOut,
}

-- No page of the list overlaps a region that the kernel does not use.
abbrev pub ApartFromGiven : ℕ → Memory → List ℕ → Type 0
ApartFromGiven n m [] = Unit {0}
ApartFromGiven n m (a ∷ pages) =
    ((j : ℕ)
      → j < n
      → (m.regions j).in_kernel_use ≡ false
      → PageApart a (m.regions j).addr (region_size (m.regions j)))
    × ApartFromGiven n m pages

-- What giving a region to the user leaves alone.
record Kept (r r' : PowerOfTwoRegion) : Type 0 where
  addr : r'.addr ≡ r.addr
  size : region_size r' ≡ region_size r
  kernel : r'.in_kernel_use ≡ r.in_kernel_use
  watermark : r'.watermark ≡ r.watermark
  user : r.in_kernel_use ≡ true → r'.in_user_use ≡ r.in_user_use
  given : r.in_kernel_use ≡ false → r'.in_user_use ≡ true

for_user-Kept : (r : PowerOfTwoRegion) → Kept r (for_user r)
unfolding region_size
for_user-Kept r = elim (Bool-cases r.in_kernel_use) [
  | inl k ↦ record {
    addr = rw k refl;
    size = rw k refl;
    kernel = rw k refl;
    watermark = rw k refl;
    user = λ _. rw k refl;
    given = λ f. cc (k, f);
  }
  | inr f ↦ record {
    addr = rw f refl;
    size = rw f refl;
    kernel = rw f refl;
    watermark = rw f refl;
    user = λ k. cc (k, f);
    given = λ _. rw f refl;
  }
]

module _ (n : ℕ) (m : Memory) (u : Untypeds) (c : m.region_count ≡ n) (h : HandedOut 0 n m u) where
  kept : (j : ℕ) → j < n → Kept (m.regions j) (u.memory.regions j)
  kept j lt = rw (h.inside j (omega arith) lt) (for_user-Kept (m.regions j))

  HandedOut-Sound : Sound m → Sound u.memory
  HandedOut-Sound s = record {
    below = λ i lt.
        let l : i < n = omega (arith, lt, h.count) in
        let k = kept i l in omega (arith, k.addr, k.size, s.below i (omega arith));
    page = λ i lt.
        let l : i < n = omega (arith, lt, h.count) in
        let k = kept i l in omega (arith, k.size, s.page i (omega arith));
    apart = λ i j lt lt' ne.
        let l : i < n = omega (arith, lt, h.count) in
        let l' : j < n = omega (arith, lt', h.count) in
        let k = kept i l in
        let k' = kept j l' in
        elim (s.apart i j (omega arith) (omega arith) ne) [
          | inl a ↦ inl (omega (arith, a, k.addr, k.size, k'.addr))
          | inr a ↦ inr (omega (arith, a, k'.addr, k'.size, k.addr))
        ];
    taken = λ i lt used.
        let l : i < n = omega (arith, lt, h.count) in
        let k = kept i l in
        let was = sym k.kernel ∙ used in
        let (le, f) = s.taken i (omega arith) was in
        (omega (arith, le, k.watermark, k.size), k.user was ∙ f);
  }

  user-Given : (pages : List ℕ) → ApartFromUser u.memory pages → ApartFromGiven n m pages
  user-Given [] p = tt
  user-Given (a ∷ pages) (p, ps) = (
    λ j lt free.
        let k = kept j lt in
        elim (p j (omega (arith, h.count, lt)) (k.given free)) [
          | inl l ↦ inl (omega (arith, l, k.addr))
          | inr l ↦ inr (omega (arith, l, k.addr, k.size))
        ],
    user-Given pages ps,
  )

-- Let at most 64 regions lie apart, as alloc_page wants them, the last one not in kernel use, with
-- addresses that fit a capability, and let create_init_untyped_caps have room for as many
-- capabilities. Then of any number of pages that alloc_page gives one after another when it has
-- returned, no two overlap, and none overlaps a region that was not in kernel use.
pub create_init_untyped_caps-Pages :
    (n count : ℕ) (m : Memory) (u : Untypeds) (pages : List ℕ) (m' : Memory)
    → m.region_count ≡ n
    → 0 < n
    → n ≤ count
    → n ≤ max_regions
    → (m.regions (n - 1)).in_kernel_use ≡ false
    → CapsSafe n m
    → Sound m
    → create_init_untyped_caps count m ≡ some u
    → Pages u.memory pages m'
    → Separate pages × ApartFromGiven n m pages
create_init_untyped_caps-Pages n count m u pages m' c p le small last safe s e taken =
    let (v, e', h) = create_init_untyped_caps-HandedOut n count m c p le small last safe in
    let same : v ≡ u = cc (e, e') in
    let handed : HandedOut 0 n m u = subst (HandedOut 0 n m) same h in
    let (separate, user, _) =
      Pages-Separate u.memory pages m' (HandedOut-Sound n m u c handed s) taken in
    (separate, user-Given n m u c handed pages user)
