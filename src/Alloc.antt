-- ===== src/Alloc.antt =====
-- kern/alloc.c: physical memory is cut into regions of a power of two, and the kernel takes its own
-- pages from them. `regions` is a static array, so entries that nobody wrote are zero.
pub mod Blocks
pub mod Split
pub mod Extents
pub mod Taking
pub mod Page
pub mod Handout
pub mod Apart
pub mod Pages
mod Tests
use Prim.Native.Nat.{bit_and}
use mathlib.Core.Option
use untitled_bare_metal.Base.{
  ℕ, zero, suc, ◌+◌, ◌-◌, ◌*◌, ◌/◌, ◌%◌, ◌^◌, Bool, true, false, not, ◌&&◌, ◌||◌, ◌==◌,
  if◌then◌else◌, ltb, leb, update, u64, sub64, List, [], ◌∷◌, Option, none, some,
}
use untitled_bare_metal.Cap.{Capability, new_untyped_cap}

-- struct power_of_two_region
pub record PowerOfTwoRegion : Type 0 where
  pub addr : ℕ
  pub size_bits : ℕ
  pub in_kernel_use : Bool
  pub in_user_use : Bool
  pub for_pages : Bool
  pub watermark : ℕ

-- struct physical_extent
pub record PhysicalExtent : Type 0 where
  pub start : ℕ
  pub len : ℕ

-- The static variables of the file.
pub record Memory : Type 0 where
  pub regions : ℕ → PowerOfTwoRegion
  pub region_count : ℕ

-- `overrun` is a write behind the end of `regions`.
pub data Made : Type 0 where
  made : Memory → Made
  overrun : Made
  out_of_fuel : Made

abbrev pub max_regions : ℕ
max_regions = 64

abbrev pub page_size : ℕ
page_size = 0x1000

abbrev pub no_region : PowerOfTwoRegion
no_region = record {
  addr = 0;
  size_bits = 0;
  in_kernel_use = false;
  in_user_use = false;
  for_pages = false;
  watermark = 0;
}

-- while (start + block > end) block >>= 1
unfoldable pub shrink : (fuel start end block : ℕ) → Option ℕ
shrink zero start end block = none
shrink (suc fuel) start end block =
    let rest = shrink fuel start end (block / 2) in
    if ltb end (u64 (start + block)) then rest else some block

unfoldable pub largest_fitting_block : (fuel start end : ℕ) → Option ℕ
largest_fitting_block fuel start end = shrink fuel start end (bit_and start (sub64 0 start))

-- __builtin_ctzll, for a number below 2^fuel
unfoldable pub trailing_zeros : (fuel n : ℕ) → ℕ
trailing_zeros zero n = 0
trailing_zeros (suc fuel) n =
    let rest = trailing_zeros fuel (n / 2) in if n % 2 == 1 then 0 else suc rest

-- As a `uint8_t`, to which it is assigned.
unfoldable pub page_count : ℕ → ℕ
unfolding trailing_zeros
page_count block_size = (trailing_zeros 64 block_size + 2 ^ 8 - 12) % 2 ^ 8

abbrev pub new_region : (start block : ℕ) → PowerOfTwoRegion
new_region start block = record no_region { addr = start; size_bits = page_count block }

-- regions[region_count++] = region
abbrev pub add_region : PowerOfTwoRegion → Memory → Memory
add_region r m = record {
  regions = update m.regions m.region_count r;
  region_count = m.region_count + 1;
}

-- while (start < end), with the fuel of the inner loop beside its own
unfoldable pub aligned_regions : (fuel start end : ℕ) → Memory → Made
aligned_regions zero start end m = out_of_fuel
aligned_regions (suc fuel) start end m =
    let body : Made = elim (largest_fitting_block 64 start end) [
      | none ↦ out_of_fuel
      | some block ↦
          let rest =
            aligned_regions fuel (u64 (start + block)) end
              (add_region (new_region start block) m) in
          if ltb m.region_count max_regions then rest else overrun
    ] in
    if ltb start end then body else made m

unfoldable pub allocate_aligned_regions : ℕ → PhysicalExtent → Memory → Made
allocate_aligned_regions fuel extent =
    aligned_regions fuel extent.start (u64 (extent.start + extent.len))

-- The loop of init_page_mmap; what the boot loader reports is an argument.
unfoldable pub init_page_mmap : ℕ → List PhysicalExtent → Memory → Made
init_page_mmap fuel [] m = made m
init_page_mmap fuel (extent ∷ extents) m = elim (allocate_aligned_regions fuel extent m) [
  | made m' ↦ init_page_mmap fuel extents m'
  | overrun ↦ overrun
  | out_of_fuel ↦ out_of_fuel
]

-- PAGE_SIZE << size_bits
unfoldable pub region_size : PowerOfTwoRegion → ℕ
region_size r = u64 (page_size * 2 ^ r.size_bits)

-- A region that the kernel takes pages from, with room left.
unfoldable pub has_page : PowerOfTwoRegion → Bool
unfolding region_size
has_page r = r.in_kernel_use && r.for_pages && ltb r.watermark (sub64 (region_size r) page_size)

unfoldable pub is_unused : PowerOfTwoRegion → Bool
is_unused r = not r.in_kernel_use && not r.in_user_use

-- The index of the first region with a property, of `left` regions from `i`.
unfoldable pub first_region :
    (PowerOfTwoRegion → Bool) → (left i : ℕ) → (ℕ → PowerOfTwoRegion) → Option ℕ
first_region p zero i regions = none
first_region p (suc left) i regions =
    let rest = first_region p left (i + 1) regions in if p (regions i) then some i else rest

abbrev pub set_region : ℕ → PowerOfTwoRegion → Memory → Memory
set_region i r m = record m { regions = update m.regions i r }

abbrev pub page_from : ℕ → Memory → ℕ × Memory
page_from i m = (
  u64 ((m.regions i).addr + (m.regions i).watermark),
  set_region i (record (m.regions i) { watermark = u64 ((m.regions i).watermark + page_size) }) m,
)

abbrev pub open_region : ℕ → Memory → ℕ × Memory
open_region i m = (
  (m.regions i).addr,
  set_region i
      (record (m.regions i) { in_kernel_use = true; for_pages = true; watermark = page_size }) m,
)

-- `none` is the failed assertion.
unfoldable pub alloc_page : Memory → Option (ℕ × Memory)
alloc_page m = elim (first_region has_page m.region_count 0 m.regions) [
  | some i ↦ some (page_from i m)
  | none ↦ Option.map (λ i. open_region i m) (first_region is_unused m.region_count 0 m.regions)
]

-- struct untyped_desc, as far as it is written here
pub record UntypedDesc : Type 0 where
  pub base : ℕ
  pub size_bits : ℕ

-- The capabilities and descriptions written to `base` and `desc`, in order, and the state left.
pub record Untypeds : Type 0 where
  pub caps : List Capability
  pub descs : List UntypedDesc
  pub memory : Memory

abbrev pub add_untyped : Capability → UntypedDesc → Untypeds → Untypeds
add_untyped c d u = record u { caps = c ∷ u.caps; descs = d ∷ u.descs }

abbrev pub untyped_desc : PowerOfTwoRegion → UntypedDesc
untyped_desc r = record { base = r.addr; size_bits = r.size_bits + 12 }

abbrev pub give_to_user : ℕ → Memory → Memory
give_to_user i m = set_region i (record (m.regions i) { in_user_use = true }) m

-- The loop from `i`, for `left` rounds at most. `none` is a failed assertion in the capability.
unfoldable pub init_untyped_from : (left i : ℕ) → Memory → Option Untypeds
init_untyped_from zero i m = some (record { caps = []; descs = []; memory = m })
init_untyped_from (suc left) i m =
    let skipped = init_untyped_from left (i + 1) m in
    let m' = give_to_user i m in
    let rest = init_untyped_from left (i + 1) m' in
    let last : Option Untypeds = some (record { caps = []; descs = []; memory = m' }) in
    if (m.regions i).in_kernel_use
    then skipped
    else Option.bind (new_untyped_cap (m.regions i).addr ((m.regions i).size_bits + 12)) (λ c.
      Option.map (add_untyped c (untyped_desc (m.regions i)))
        (if leb (sub64 m.region_count 1) i then last else rest))

unfoldable pub create_init_untyped_caps : ℕ → Memory → Option Untypeds
unfolding init_untyped_from
create_init_untyped_caps count = init_untyped_from count 0
