-- ===== src/Alloc/Pages.antt =====
-- Any number of pages that the kernel takes one after another.
use untitled_bare_metal.Base.{
  ℕ, ◌+◌, ◌≤◌, ◌<◌, ◌≡◌, ◌≢◌, refl, subst, ap, ◌∙◌, true, ==_iff, update, ℕ_discrete, List, [], ◌∷◌,
  some, none, ◌⊎◌, inl, inr, arith, dec_lt,
}
use untitled_bare_metal.Alloc.{
  PowerOfTwoRegion, Memory, page_size, region_size, has_page, is_unused, page_from, open_region,
  alloc_page,
}
use untitled_bare_metal.Alloc.Taking.{Sound, Given, Taken}
use untitled_bare_metal.Alloc.Page.{first_region-FirstWith, alloc_page-Answers}

-- The pages at the addresses of the list, the last one first, are taken from a memory.
pub data Pages (m : Memory) : List ℕ → Memory → Type 0 where
  no_pages : Pages m [] m
  one_more :
      (a : ℕ) (pages : List ℕ) (m' m'' : Memory)
      → Pages m pages m'
      → alloc_page m' ≡ some (a, m'')
      → Pages m (a ∷ pages) m''

-- What taking a page leaves alone.
record Frame (m m' : Memory) : Type 0 where
  count : m'.region_count ≡ m.region_count
  addr : (j : ℕ) → (m'.regions j).addr ≡ (m.regions j).addr
  size : (j : ℕ) → region_size (m'.regions j) ≡ region_size (m.regions j)
  user : (j : ℕ) → (m'.regions j).in_user_use ≡ (m.regions j).in_user_use

module _ (i : ℕ) (r : PowerOfTwoRegion) (m : Memory) where
  update-Frame :
      r.addr ≡ (m.regions i).addr
      → region_size r ≡ region_size (m.regions i)
      → r.in_user_use ≡ (m.regions i).in_user_use
      → Frame m (record m { regions = update m.regions i r })
  update-Frame ea es eu = record {
    count = refl;
    addr = λ j. elim (ℕ_discrete j i) [
      | yes e ↦ rw (e, (==_iff i i).1 refl) ea
      | no ne ↦ ground arith
    ];
    size = λ j. elim (ℕ_discrete j i) [
      | yes e ↦ rw (e, (==_iff i i).1 refl) es
      | no ne ↦ ap region_size (update_other j ne)
    ];
    user = λ j. elim (ℕ_discrete j i) [
      | yes e ↦ rw (e, (==_iff i i).1 refl) eu
      | no ne ↦ ground arith
    ];
  }
    where
      update_other : (j : ℕ) → j ≢ i → update m.regions i r j ≡ m.regions j
      update_other j ne = ground arith

alloc_page-cases :
    (m : Memory)
    → ((i : ℕ) × (alloc_page m ≡ some (page_from i m)))
      ⊎ (((i : ℕ) × (alloc_page m ≡ some (open_region i m))) ⊎ (alloc_page m ≡ none))
unfolding alloc_page
alloc_page-cases m = elim (first_region-FirstWith has_page m.region_count 0 m.regions) [
  | inl (i, e, _, _, _) ↦ inl (i, rw (e, alloc_page) refl)
  | inr (e, _) ↦ elim (first_region-FirstWith is_unused m.region_count 0 m.regions) [
    | inl (i, e', _, _, _) ↦ inr (inl (i, rw (e, alloc_page) (rw e' refl)))
    | inr (e', _) ↦ inr (inr (rw (e, alloc_page) (rw e' refl)))
  ]
]

alloc_page-Frame : (m : Memory) (a : ℕ) (m' : Memory) → alloc_page m ≡ some (a, m') → Frame m m'
unfolding region_size
alloc_page-Frame m a m' e = elim (alloc_page-cases m) [
  | inl (i, p) ↦
      let same : (page_from i m).1 ≡ m' = cc (e, p) in
      subst (Frame m) same (update-Frame i _ m refl refl refl)
  | inr (inl (i, p)) ↦
      let same : (open_region i m).1 ≡ m' = cc (e, p) in
      subst (Frame m) same (update-Frame i _ m refl refl refl)
  | inr (inr p) ↦ cc (e, p)
]

alloc_page-Given :
    (m : Memory) (a : ℕ) (m' : Memory) → Sound m → alloc_page m ≡ some (a, m') → Given m a m'
alloc_page-Given m a m' s e = elim (alloc_page-Answers m s) [
  | inl (b, n, p, g) ↦
      let same_page : b ≡ a = cc (e, p) in
      let same : n ≡ m' = cc (e, p) in
      subst (Given m a) same (subst (λ (x : ℕ). Given m x n) same_page g)
  | inr (p, _) ↦ cc (e, p)
]

-- The page at `a` lies beside the memory from `start` on.
abbrev pub PageApart : (a start len : ℕ) → Type 0
PageApart a start len = (a + page_size ≤ start) ⊎ (start + len ≤ a)

abbrev pub ApartFromAll : ℕ → List ℕ → Type 0
ApartFromAll a [] = Unit {0}
ApartFromAll a (b ∷ pages) = PageApart a b page_size × ApartFromAll a pages

-- No two pages of the list overlap.
abbrev pub Separate : List ℕ → Type 0
Separate [] = Unit {0}
Separate (a ∷ pages) = ApartFromAll a pages × Separate pages

-- No page of the list overlaps a region of the user.
abbrev pub ApartFromUser : Memory → List ℕ → Type 0
ApartFromUser m [] = Unit {0}
ApartFromUser m (a ∷ pages) =
    ((j : ℕ)
      → j < m.region_count
      → (m.regions j).in_user_use ≡ true
      → PageApart a (m.regions j).addr (region_size (m.regions j)))
    × ApartFromUser m pages

abbrev PageTaken : Memory → ℕ → Type 0
PageTaken m a = (x : ℕ) → a ≤ x → x < a + page_size → Taken m x

abbrev AllTaken : Memory → List ℕ → Type 0
AllTaken m [] = Unit {0}
AllTaken m (a ∷ pages) = PageTaken m a × AllTaken m pages

AllTaken-kept :
    (pages : List ℕ) (m m' : Memory)
    → ((x : ℕ) → Taken m x → Taken m' x)
    → AllTaken m pages
    → AllTaken m' pages
AllTaken-kept [] m m' h t = tt
AllTaken-kept (a ∷ pages) m m' h (t, ts) =
    (λ x lo hi. h x (t x lo hi), AllTaken-kept pages m m' h ts)

-- A page that was free overlaps none that was taken.
fresh-ApartFromAll :
    (pages : List ℕ) (m : Memory) (a : ℕ)
    → ((x : ℕ) → a ≤ x → x < a + page_size → ¬ Taken m x)
    → AllTaken m pages
    → ApartFromAll a pages
fresh-ApartFromAll [] m a free t = tt
fresh-ApartFromAll (b ∷ pages) m a free (t, ts) = (
  elim (dec_lt b (a + page_size)) [
    | no behind ↦ inl (omega arith)
    | yes before ↦ elim (dec_lt a (b + page_size)) [
      | no front ↦ inr (omega arith)
      | yes over ↦ elim (dec_lt a b) [
        | yes lt ↦ absurd (free b (omega arith) before (t b (omega arith) (omega arith)))
        | no ge ↦ absurd (free a (omega arith) (omega arith) (t a (omega arith) over))
      ]
    ]
  ],
  fresh-ApartFromAll pages m a free ts,
)

-- What holds while pages are taken.
record Progress (m : Memory) (pages : List ℕ) (m' : Memory) : Type 0 where
  sound : Sound m'
  frame : Frame m m'
  taken : AllTaken m' pages
  separate : Separate pages
  user : ApartFromUser m pages

module _ (m m' : Memory) (pages : List ℕ) (a : ℕ) (m'' : Memory) where
  more-Progress : Progress m pages m' → alloc_page m' ≡ some (a, m'') → Progress m (a ∷ pages) m''
  more-Progress p e =
      let g = alloc_page-Given m' a m'' p.sound e in
      let f = alloc_page-Frame m' a m'' e in
      let w = p.frame in
      record {
        sound = g.sound;
        frame = record {
          count = f.count ∙ w.count;
          addr = λ j. f.addr j ∙ w.addr j;
          size = λ j. f.size j ∙ w.size j;
          user = λ j. f.user j ∙ w.user j;
        };
        taken = (g.taken, AllTaken-kept pages m' m'' g.kept p.taken);
        separate = (fresh-ApartFromAll pages m' a g.fresh p.taken, p.separate);
        user = (
          λ j lt u. elim (g.not_user j (omega (arith, w.count, lt)) (w.user j ∙ u)) [
            | inl h ↦ inl (omega (arith, h, w.addr j))
            | inr h ↦ inr (omega (arith, h, w.addr j, w.size j))
          ],
          p.user,
        );
      }

Pages-Progress :
    (m : Memory) (pages : List ℕ) (m' : Memory) → Sound m → Pages m pages m' → Progress m pages m'
Pages-Progress m [] m' s no_pages = record {
  sound = s;
  frame = record { count = refl; addr = λ j. refl; size = λ j. refl; user = λ j. refl };
  taken = tt;
  separate = tt;
  user = tt;
}
Pages-Progress m pages m'' s (one_more a before m' _ p e) =
    more-Progress m m' before a m'' (Pages-Progress m before m' s p) e

pub Pages-Separate :
    (m : Memory) (pages : List ℕ) (m' : Memory)
    → Sound m
    → Pages m pages m'
    → Separate pages × ApartFromUser m pages × Sound m'
Pages-Separate m pages m' s p =
    let q = Pages-Progress m pages m' s p in (q.separate, q.user, q.sound)
