-- ===== src/Alloc/Taking.antt =====
-- What taking a page from a region does to the memory.
use untitled_bare_metal.Base.{
  ℕ, ◌+◌, ◌^◌, ◌≤◌, ◌<◌, ◌≡◌, ◌≢◌, refl, subst, ℕ_discrete, true, false, update, ◌⊎◌, inl, inr,
  arith, ==_iff,
}
use untitled_bare_metal.Alloc.{PowerOfTwoRegion, Memory, page_size, region_size}

-- The regions lie apart, below 2^64; the kernel and the user share none, and what was taken from a
-- region lies in it.
pub record Sound (m : Memory) : Type 0 where
  pub below : (i : ℕ) → i < m.region_count → (m.regions i).addr + region_size (m.regions i) < 2 ^ 64
  pub page : (i : ℕ) → i < m.region_count → page_size ≤ region_size (m.regions i)
  pub apart :
      (i j : ℕ)
      → i < m.region_count
      → j < m.region_count
      → i ≢ j
      → ((m.regions i).addr + region_size (m.regions i) ≤ (m.regions j).addr)
        ⊎ ((m.regions j).addr + region_size (m.regions j) ≤ (m.regions i).addr)
  pub taken :
      (i : ℕ)
      → i < m.region_count
      → (m.regions i).in_kernel_use ≡ true
      → ((m.regions i).watermark ≤ region_size (m.regions i)) × ((m.regions i).in_user_use ≡ false)

-- An address that the kernel has taken.
abbrev pub Taken : Memory → ℕ → Type 0
Taken m a =
    (i : ℕ) × (i < m.region_count)
    × ((m.regions i).in_kernel_use ≡ true)
    × ((m.regions i).addr ≤ a)
    × (a < (m.regions i).addr + (m.regions i).watermark)

-- Region `i` becomes `r`, in which the page behind the first `w` bytes is taken.
pub record Takes (m : Memory) (i : ℕ) (r : PowerOfTwoRegion) (w : ℕ) : Type 0 where
  pub index : i < m.region_count
  pub addr : r.addr ≡ (m.regions i).addr
  pub size : region_size r ≡ region_size (m.regions i)
  pub kernel : r.in_kernel_use ≡ true
  pub user : r.in_user_use ≡ false
  pub was_user : (m.regions i).in_user_use ≡ false
  pub watermark : r.watermark ≡ w + page_size
  pub room : w + page_size ≤ region_size (m.regions i)
  pub before :
      (((m.regions i).in_kernel_use ≡ true) × ((m.regions i).watermark ≡ w))
      ⊎ (((m.regions i).in_kernel_use ≡ false) × (w ≡ 0))

module _ (m : Memory) (i : ℕ) (r : PowerOfTwoRegion) (w : ℕ) (s : Sound m) (t : Takes m i r w) where
  abbrev after : Memory
  after = record m { regions = update m.regions i r }

  abbrev at : ℕ
  at = (m.regions i).addr + w

  at_self : after.regions i ≡ r
  at_self = rw ((==_iff i i).1 refl) refl

  at_other : (j : ℕ) → j ≢ i → after.regions j ≡ m.regions j
  at_other j ne = ground arith

  -- A region is the changed one, or as before.
  here_or : (j : ℕ) → (j ≡ i) ⊎ (j ≢ i)
  here_or j = elim (ℕ_discrete j i) [ yes e ↦ inl e | no ne ↦ inr ne ]

  same_place :
      (j : ℕ)
      → ((after.regions j).addr ≡ (m.regions j).addr)
        × (region_size (after.regions j) ≡ region_size (m.regions j))
  same_place j = elim (here_or j) [
    | inl e ↦ rw (e, at_self) (t.addr, t.size)
    | inr ne ↦ rw (at_other j ne) (refl, refl)
  ]

  taken-Sound : Sound after
  taken-Sound = record {
    below = λ j lt. omega (arith, s.below j lt, same_place j);
    page = λ j lt. omega (arith, s.page j lt, same_place j);
    apart = λ j l lt lt' ne. elim (s.apart j l lt lt' ne) [
      | inl h ↦ inl (omega (arith, same_place j, same_place l))
      | inr h ↦ inr (omega (arith, same_place j, same_place l))
    ];
    taken = λ j lt. elim (here_or j) [
      | inl e ↦ rw (e, at_self) (λ k. (omega (arith, t.watermark, t.size, t.room), t.user))
      | inr ne ↦ rw (at_other j ne) (s.taken j lt)
    ];
  }

  -- The page overlaps no other region.
  page_apart :
      (j : ℕ)
      → j < m.region_count
      → j ≢ i
      → (at + page_size ≤ (m.regions j).addr)
        ⊎ ((m.regions j).addr + region_size (m.regions j) ≤ at)
  page_apart j lt ne = elim (s.apart j i lt t.index ne) [
    | inl h ↦ inr (omega (arith, h))
    | inr h ↦ inl (omega (arith, h, t.room))
  ]

  taken_here : (a : ℕ) (h : Taken m a) → h.0 ≡ i → ((m.regions i).addr ≤ a) × (a < at)
  taken_here a (j, lt, k, ge, le) e =
      let k' : (m.regions i).in_kernel_use ≡ true =
        subst (λ (x : ℕ). (m.regions x).in_kernel_use ≡ true) e k in
      let ge' : (m.regions i).addr ≤ a = subst (λ (x : ℕ). (m.regions x).addr ≤ a) e ge in
      let le' : a < (m.regions i).addr + (m.regions i).watermark =
        subst (λ (x : ℕ). a < (m.regions x).addr + (m.regions x).watermark) e le in
      elim t.before [
        | inl (_, same) ↦ omega (arith, same, ge', le')
        | inr (free, _) ↦ cc (free, k')
      ]

  page_fresh : (a : ℕ) → at ≤ a → a < at + page_size → ¬ Taken m a
  page_fresh a lo hi (j, lt, k, ge, le) = elim (here_or j) [
    | inl e ↦ omega (arith, taken_here a (j, lt, k, ge, le) e)
    | inr ne ↦ elim (page_apart j lt ne) [
      | inl h ↦ omega (arith, h, hi, ge)
      | inr h ↦ omega (arith, h, lo, le, s.taken j lt k)
    ]
  ]

  page_taken : (a : ℕ) → at ≤ a → a < at + page_size → Taken after a
  page_taken a lo hi = (
    i,
    t.index,
    rw at_self t.kernel,
    rw at_self (omega (arith, t.addr)),
    rw at_self (omega (arith, t.addr, t.watermark)),
  )

  taken_kept : (a : ℕ) → Taken m a → Taken after a
  taken_kept a (j, lt, k, ge, le) = elim (here_or j) [
    | inl e ↦
        let (lo, hi) = taken_here a (j, lt, k, ge, le) e in
        (
          i,
          t.index,
          rw at_self t.kernel,
          rw at_self (omega (arith, t.addr, lo)),
          rw at_self (omega (arith, t.addr, t.watermark, hi)),
        )
    | inr ne ↦ (j, lt, rw (at_other j ne) k, rw (at_other j ne) ge, rw (at_other j ne) le)
  ]

  not_user :
      (j : ℕ)
      → j < m.region_count
      → (m.regions j).in_user_use ≡ true
      → (at + page_size ≤ (m.regions j).addr)
        ⊎ ((m.regions j).addr + region_size (m.regions j) ≤ at)
  not_user j lt u = elim (here_or j) [
    | inl e ↦ cc (subst (λ (x : ℕ). (m.regions x).in_user_use ≡ true) e u, t.was_user)
    | inr ne ↦ page_apart j lt ne
  ]

-- What taking the page at `a` does: nobody had it, the kernel has it, and it is in no memory of the
-- user.
pub record Given (m : Memory) (a : ℕ) (m' : Memory) : Type 0 where
  pub fresh : (x : ℕ) → a ≤ x → x < a + page_size → ¬ Taken m x
  pub taken : (x : ℕ) → a ≤ x → x < a + page_size → Taken m' x
  pub kept : (x : ℕ) → Taken m x → Taken m' x
  pub not_user :
      (j : ℕ)
      → j < m.region_count
      → (m.regions j).in_user_use ≡ true
      → (a + page_size ≤ (m.regions j).addr) ⊎ ((m.regions j).addr + region_size (m.regions j) ≤ a)
  pub sound : Sound m'

-- No region is free, and none of the kernel's for pages has more than a page left.
pub record Exhausted (m : Memory) : Type 0 where
  pub in_use :
      (j : ℕ)
      → j < m.region_count
      → ((m.regions j).in_kernel_use ≡ true) ⊎ ((m.regions j).in_user_use ≡ true)
  pub full :
      (j : ℕ)
      → j < m.region_count
      → (m.regions j).in_kernel_use ≡ true
      → (m.regions j).for_pages ≡ true
      → region_size (m.regions j) ≤ (m.regions j).watermark + page_size

pub Takes-Given :
    (m : Memory) (i : ℕ) (r : PowerOfTwoRegion) (w : ℕ)
    → Sound m
    → Takes m i r w
    → Given m ((m.regions i).addr + w) (record m { regions = update m.regions i r })
Takes-Given m i r w s t = record {
  fresh = page_fresh m i r w s t;
  taken = page_taken m i r w s t;
  kept = taken_kept m i r w s t;
  not_user = not_user m i r w s t;
  sound = taken-Sound m i r w s t;
}
