-- ===== src/Alloc/Extents.antt =====
-- All the extents that the boot loader reports.
use untitled_bare_metal.Base.{
  ℕ, ◌+◌, ◌/◌, ◌%◌, ◌^◌, ◌≤◌, ◌<◌, ◌≡◌, refl, ap, ◌∙◌, dec_lt, u64, le→ltb, lt→ltb, List, [], ◌∷◌,
  ◌++◌, length, length-append, arith,
}
use untitled_bare_metal.Alloc.{
  PowerOfTwoRegion, PhysicalExtent, Memory, overrun, max_regions, add_region, aligned_regions,
  allocate_aligned_regions, init_page_mmap,
}
use untitled_bare_metal.Alloc.Split.{Tiles, add_all, stored, aligned_regions-Tiles}

-- The extents have whole pages, begin behind address 0 and end below 2^63; the fuel exceeds the pages
-- of each.
abbrev pub Usable : ℕ → List PhysicalExtent → Type 0
Usable fuel [] = Unit {0}
Usable fuel (e ∷ es) =
    ((e.start % 4096 ≡ 0)
      × (e.len % 4096 ≡ 0)
      × (0 < e.start)
      × (e.start + e.len < 2 ^ 63)
      × (e.len / 4096 < fuel))
    × Usable fuel es

-- The extents are cut one after another.
abbrev pub Covers : List PhysicalExtent → List PowerOfTwoRegion → Type 0
Covers [] rs = rs ≡ []
Covers (e ∷ es) rs =
    (front back : List PowerOfTwoRegion) × (rs ≡ front ++ back)
    × Tiles e.start (e.start + e.len) front
    × Covers es back

region_count-add_all :
    (rs : List PowerOfTwoRegion) (m : Memory)
    → (add_all rs m).region_count ≡ m.region_count + length rs
region_count-add_all [] m = omega arith
region_count-add_all (r ∷ rs) m = omega (arith, region_count-add_all rs (add_region r m))

add_all-append :
    (xs ys : List PowerOfTwoRegion) (m : Memory) → add_all ys (add_all xs m) ≡ add_all (xs ++ ys) m
add_all-append [] ys m = refl
add_all-append (r ∷ xs) ys m = add_all-append xs ys (add_region r m)

module _ (xs ys : List PowerOfTwoRegion) (m : Memory) where
  stored-append : stored ys (add_all xs m) ≡ stored (xs ++ ys) m
  stored-append =
      let same : (add_all xs m).region_count + length ys ≡ m.region_count + length (xs ++ ys) =
        omega (arith, region_count-add_all xs m, length-append {0} xs ys) in
      rw (same, add_all-append xs ys m)

  stored-overrun : max_regions < m.region_count + length xs → overrun ≡ stored (xs ++ ys) m
  stored-overrun h = rw (
      lt→ltb max_regions (m.region_count + length (xs ++ ys))
        (omega (arith, length-append {0} xs ys)))

-- One extent, and then the others.
module _ (fuel : ℕ) (e : PhysicalExtent) (es : List PhysicalExtent) (m : Memory)
    (xs : List PowerOfTwoRegion) (first : allocate_aligned_regions fuel e m ≡ stored xs m) where
  init-full : max_regions < m.region_count + length xs → init_page_mmap fuel (e ∷ es) m ≡ overrun
  unfolding init_page_mmap
  init-full h = rw (first, init_page_mmap) (rw (lt→ltb max_regions (m.region_count + length xs) h))

  init-room :
      m.region_count + length xs ≤ max_regions
      → init_page_mmap fuel (e ∷ es) m ≡ init_page_mmap fuel es (add_all xs m)
  unfolding init_page_mmap
  init-room h = rw (first, init_page_mmap) (rw (le→ltb max_regions (m.region_count + length xs) h))

-- For extents of whole pages that begin behind address 0 and end below 2^63, with more fuel than
-- pages in each, there are unused regions that fill the extents one after another without a gap or
-- an overlap, each at a multiple of its size, a power of two. From at most 64 regions,
-- init_page_mmap stores them behind those in the array, or writes behind the array if they do not
-- fit.
pub init_page_mmap-Covers :
    (fuel : ℕ) (extents : List PhysicalExtent) (m : Memory)
    → Usable fuel extents
    → (rs : List PowerOfTwoRegion) × Covers extents rs
      × (m.region_count ≤ max_regions → init_page_mmap fuel extents m ≡ stored rs m)
unfolding init_page_mmap allocate_aligned_regions
init_page_mmap-Covers fuel [] m u =
    ([], refl, λ c. rw (le→ltb max_regions (m.region_count + 0) (omega arith)))
init_page_mmap-Covers fuel (e ∷ es) m ((s, l, p, b, f), u) =
    let end : u64 (e.start + e.len) ≡ e.start + e.len = omega arith in
    let (xs, tiles, first) =
      aligned_regions-Tiles fuel e.start (e.start + e.len) m s (omega arith) p (omega arith) b
        (omega arith) in
    let (ys, covers, others) = init_page_mmap-Covers fuel es (add_all xs m) u in
    let whole : m.region_count ≤ max_regions → allocate_aligned_regions fuel e m ≡ stored xs m =
      λ c. ap (λ (t : ℕ). aligned_regions fuel e.start t m) end ∙ first c in
    (
      xs ++ ys,
      (xs, ys, refl, tiles, covers),
      λ c. elim (dec_lt max_regions (m.region_count + length xs)) [
        | yes full ↦ init-full fuel e es m xs (whole c) full ∙ stored-overrun xs ys m full
        | no room ↦
            init-room fuel e es m xs (whole c) (omega arith)
            ∙ others (omega (arith, region_count-add_all xs m))
            ∙ stored-append xs ys m
      ],
    )
