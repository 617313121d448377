-- ===== src/Alloc/Split.antt =====
-- What cutting the extents gives.
use native.Mathlib.Nat.{pow-suc, mul_assoc}
use untitled_bare_metal.Base.{
  ℕ, zero, suc, ◌+◌, ◌-◌, ◌*◌, ◌/◌, ◌%◌, ◌^◌, ◌≤◌, ◌<◌, ◌≡◌, refl, sym, ap, ◌∙◌, dec_lt,
  if◌then◌else◌, u64, ltb, le→ltb, lt→ltb, List, [], ◌∷◌, length, some, arith, inl, inr,
}
use untitled_bare_metal.Base.Powers.{pow-add, pow-le, odd-multiple}
use untitled_bare_metal.Alloc.{
  PowerOfTwoRegion, Memory, Made, made, overrun, max_regions, no_region, add_region, trailing_zeros,
  page_count, largest_fitting_block, aligned_regions,
}
use untitled_bare_metal.Alloc.Blocks.{largest_fitting_block-Fits, Fits}

abbrev pub byte_size : PowerOfTwoRegion → ℕ
byte_size r = 2 ^ (r.size_bits + 12)

-- Regions that nobody uses stand behind one another from `start` to `end`, each at a multiple of its
-- size.
abbrev pub Tiles : (start end : ℕ) → List PowerOfTwoRegion → Type 0
Tiles start end [] = start ≡ end
Tiles start end (r ∷ rs) =
    (r ≡ record no_region { addr = start; size_bits = r.size_bits })
    × ((q : ℕ) × (start ≡ q * byte_size r))
    × Tiles (start + byte_size r) end rs

-- The regions written one after another.
abbrev pub add_all : List PowerOfTwoRegion → Memory → Memory
add_all [] m = m
add_all (r ∷ rs) m = add_all rs (add_region r m)

-- The regions in the array, if they fit.
abbrev pub stored : List PowerOfTwoRegion → Memory → Made
stored rs m = if ltb max_regions (m.region_count + length rs) then overrun else made (add_all rs m)

trailing_zeros-pow : (fuel j : ℕ) → j < fuel → trailing_zeros fuel (2 ^ j) ≡ j
unfolding trailing_zeros
trailing_zeros-pow zero j h = absurd (omega arith)
trailing_zeros-pow (suc fuel) zero h = refl
trailing_zeros-pow (suc fuel) (suc j) h =
    let half : 2 ^ suc j / 2 ≡ 2 ^ j = omega (arith, pow-suc 2 j) in
    let even : 2 ^ suc j % 2 ≡ 0 = omega (arith, pow-suc 2 j) in
    rw (even, half) (ap suc (trailing_zeros-pow fuel j (omega arith)))

page_count-pow : (i : ℕ) → i + 12 < 64 → page_count (2 ^ (i + 12)) ≡ i
unfolding page_count
page_count-pow i h = omega (arith, trailing_zeros-pow 64 (i + 12) h)

-- A block of an extent of whole pages has whole pages.
page_block :
    (start end k odd j : ℕ)
    → start % 4096 ≡ 0
    → end % 4096 ≡ 0
    → start < end
    → start ≡ odd * 2 ^ k
    → odd % 2 ≡ 1
    → Fits start end k j
    → 12 ≤ j
page_block start end k odd j s e lt is h (le, fits, top) = elim (dec_lt j 12) [
  | no large ↦ omega arith
  | yes small ↦ absurd (elim top [
    | inl same ↦ odd-multiple 12 k odd (start / 4096) (omega arith) h (omega arith)
    | inr past ↦ omega (arith, pow-le (suc j) 12 small)
  ])
]

-- The next block, of whole pages.
record Block (start end i : ℕ) : Type 0 where
  found : largest_fitting_block 64 start end ≡ some (2 ^ (i + 12))
  natural : (q : ℕ) × (start ≡ q * 2 ^ (i + 12))
  fits : start + 2 ^ (i + 12) ≤ end
  pages : (start + 2 ^ (i + 12)) % 4096 ≡ 0
  page : 4096 ≤ 2 ^ (i + 12)
  bits : i + 12 < 64

Block_of :
    (start end k odd i : ℕ)
    → start % 4096 ≡ 0
    → end < 2 ^ 63
    → largest_fitting_block 64 start end ≡ some (2 ^ (i + 12))
    → start ≡ odd * 2 ^ k
    → i + 12 ≤ k
    → start + 2 ^ (i + 12) ≤ end
    → Block start end i
Block_of start end k odd i s b found is le fits = record {
  found = found;
  natural = (odd * 2 ^ (k - (i + 12)), natural);
  fits = fits;
  pages = omega (arith, pow-add i 12);
  page = pow-le 12 (i + 12) (omega arith);
  bits = elim (dec_lt (i + 12) 64) [
    | yes small ↦ small
    | no large ↦ absurd (omega (arith, pow-le 64 (i + 12) (omega arith)))
  ];
}
  where
    natural : start ≡ odd * 2 ^ (k - (i + 12)) * 2 ^ (i + 12)
    natural =
        let whole : k ≡ k - (i + 12) + (i + 12) = omega arith in
        is
        ∙ ap (λ (t : ℕ). odd * 2 ^ t) whole
        ∙ ap (λ (t : ℕ). odd * t) (pow-add (k - (i + 12)) (i + 12))
        ∙ sym (mul_assoc odd (2 ^ (k - (i + 12))) (2 ^ (i + 12)))

next_block :
    (start end : ℕ)
    → start % 4096 ≡ 0
    → end % 4096 ≡ 0
    → 0 < start
    → start < end
    → end < 2 ^ 63
    → (i : ℕ) × Block start end i
next_block start end s e p lt b =
    let (k, odd, j, found, is, h, (le, fits, top)) =
      largest_fitting_block-Fits start end p lt (omega arith) in
    let large : 12 ≤ j = page_block start end k odd j s e lt is h (le, fits, top) in
    let same : j - 12 + 12 ≡ j = omega arith in
    (j - 12, Block_of start end k odd (j - 12) s b (rw same found) is (rw same le) (rw same fits))

-- A block of 2^(i+12) bytes.
abbrev tile : (start i : ℕ) → PowerOfTwoRegion
tile start i = record no_region { addr = start; size_bits = i }

-- One round of the loop.
module _ (fuel start end : ℕ) (m : Memory) {i : ℕ} (k : Block start end i) (b : end < 2 ^ 63) where
  round :
      start < end
      → aligned_regions (suc fuel) start end m ≡ (
          if ltb m.region_count max_regions
          then aligned_regions fuel (start + 2 ^ (i + 12)) end (add_region (tile start i) m)
          else overrun)
  unfolding aligned_regions
  round lt = rw (lt→ltb start end lt, k.found, page_count-pow i k.bits, next) refl
    where
      next : u64 (start + 2 ^ (i + 12)) ≡ start + 2 ^ (i + 12)
      next = omega (arith, k.fits)

  stored_first :
      (rs : List PowerOfTwoRegion)
      → m.region_count < max_regions
      → stored rs (add_region (tile start i) m) ≡ stored (tile start i ∷ rs) m
  stored_first rs lt =
      let same : m.region_count + 1 + length rs ≡ m.region_count + suc (length rs) = omega arith in
      rw same

  stored_none :
      (rs : List PowerOfTwoRegion)
      → max_regions ≤ m.region_count
      → overrun ≡ stored (tile start i ∷ rs) m
  stored_none rs le = rw (lt→ltb max_regions (m.region_count + suc (length rs)) (omega arith))

stop :
    (fuel start end : ℕ) (m : Memory)
    → ¬ (start < end)
    → m.region_count ≤ max_regions
    → aligned_regions (suc fuel) start end m ≡ stored [] m
unfolding aligned_regions
stop fuel start end m done c =
    rw (le→ltb start end (omega arith), le→ltb max_regions (m.region_count + 0) (omega arith))

pub aligned_regions-Tiles :
    (fuel start end : ℕ) (m : Memory)
    → start % 4096 ≡ 0
    → end % 4096 ≡ 0
    → 0 < start
    → start ≤ end
    → end < 2 ^ 63
    → (end - start) / 4096 < fuel
    → (rs : List PowerOfTwoRegion) × Tiles start end rs
      × (m.region_count ≤ max_regions → aligned_regions fuel start end m ≡ stored rs m)
aligned_regions-Tiles zero start end m s e p le b f = absurd (omega arith)
aligned_regions-Tiles (suc fuel) start end m s e p le b f = elim (dec_lt start end) [
  | no done ↦ ([], omega arith, stop fuel start end m done)
  | yes lt ↦
      let (i, k) = next_block start end s e p lt b in
      let (rs, tiles, stores) =
        aligned_regions-Tiles fuel (start + 2 ^ (i + 12)) end (add_region (tile start i) m) k.pages
          e (omega arith) k.fits b (omega (arith, k.page, k.fits)) in
      (
        tile start i ∷ rs,
        (refl, k.natural, tiles),
        λ c. elim (dec_lt m.region_count max_regions) [
          | yes room ↦
              round fuel start end m k b lt
              ∙ rw (lt→ltb m.region_count max_regions room)
                  (stores (omega arith) ∙ stored_first fuel start end m k b rs room)
          | no full ↦
              round fuel start end m k b lt
              ∙ rw (le→ltb m.region_count max_regions (omega arith))
                  (stored_none fuel start end m k b rs (omega arith))
        ],
      )
]
