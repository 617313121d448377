-- ===== src/Alloc/Tests.antt =====
-- Runs of kern/alloc.c.
use mathlib.Core.Option
use untitled_bare_metal.Base.{
  ℕ, zero, suc, ◌≡◌, ◌≢◌, ◌≤◌, ◌<◌, ◌+◌, ◌⊎◌, inl, inr, refl, true, false, ◌==◌, if◌then◌else◌,
  List, [], ◌∷◌, some, none, arith,
}
use untitled_bare_metal.Alloc.{
  PowerOfTwoRegion, PhysicalExtent, Memory, made, no_region, page_count, region_size,
  init_page_mmap, max_regions, alloc_page, largest_fitting_block, shrink, allocate_aligned_regions,
  aligned_regions, Untypeds, create_init_untyped_caps, init_untyped_from, give_to_user, page_from,
  has_page, first_region,
}
use untitled_bare_metal.Cap.{new_cap, is_safe_cap_ptr, cap_set_ptr}
use untitled_bare_metal.Sys.{cap_untyped}
use untitled_bare_metal.Alloc.Split.{stored, add_all}
use untitled_bare_metal.Alloc.Extents.{Covers, init_page_mmap-Covers}
use untitled_bare_metal.Alloc.Handout.{CapsSafe, HandedOut, create_init_untyped_caps-HandedOut}
use untitled_bare_metal.Alloc.Pages.{no_pages, one_more, Separate}
use untitled_bare_metal.Alloc.Apart.{ApartFromGiven, create_init_untyped_caps-Pages}
use untitled_bare_metal.Alloc.Taking.{Sound, Given, Exhausted}
use untitled_bare_metal.Alloc.Page.{alloc_page-Answers}

abbrev fresh_memory : Memory
fresh_memory = record { regions = λ i. no_region; region_count = 0 }

abbrev extents : List PhysicalExtent
extents = record { start = 0x3000; len = 0x5000 } ∷ record { start = 0x1_0000; len = 0x2000 } ∷ []

-- 0x3000 and 0x4000 begin the two blocks of the first extent, and the second is a block.
split_run :
    init_page_mmap 10 extents fresh_memory
    ≡ made (
        add_all
          (record no_region { addr = 0x3000; size_bits = 0 }
            ∷ record no_region { addr = 0x4000; size_bits = 2 }
            ∷ record no_region { addr = 0x1_0000; size_bits = 1 }
            ∷ [])
          fresh_memory)
unfolding init_page_mmap allocate_aligned_regions aligned_regions largest_fitting_block shrink
    page_count
split_run = refl

init_page_mmap-Covers_example :
    (rs : List PowerOfTwoRegion) × Covers extents rs
    × (fresh_memory.region_count ≤ max_regions
        → init_page_mmap 10 extents fresh_memory ≡ stored rs fresh_memory)
init_page_mmap-Covers_example = init_page_mmap-Covers 10 extents fresh_memory (omega arith)

-- A region that the kernel takes pages from, and a free one.
abbrev two_regions : Memory
two_regions = record {
  regions = λ i.
      if i == 0
      then record {
        addr = 0x4000;
        size_bits = 2;
        in_kernel_use = true;
        in_user_use = false;
        for_pages = true;
        watermark = 0x1000;
      }
      else record no_region { addr = 0x1_0000; size_bits = 3 };
  region_count = 2;
}

two_regions-Sound : Sound two_regions
unfolding region_size
two_regions-Sound = record {
  below = λ i lt. ground arith;
  page = λ i lt. ground arith;
  apart = apart;
  taken = λ i lt k. ground arith;
}
  where
    apart :
        (i j : ℕ)
        → i < 2
        → j < 2
        → i ≢ j
        → ((two_regions.regions i).addr + region_size (two_regions.regions i)
            ≤ (two_regions.regions j).addr)
          ⊎ ((two_regions.regions j).addr + region_size (two_regions.regions j)
              ≤ (two_regions.regions i).addr)
    apart zero zero h h' ne = absurd (ne refl)
    apart zero (suc zero) h h' ne = inl (omega arith)
    apart (suc zero) zero h h' ne = inr (omega arith)
    apart (suc zero) (suc zero) h h' ne = absurd (ne refl)
    apart (suc (suc i)) j h h' ne = absurd (omega arith)
    apart zero (suc (suc j)) h h' ne = absurd (omega arith)
    apart (suc zero) (suc (suc j)) h h' ne = absurd (omega arith)

alloc_page-Answers_example :
    ((a : ℕ) × (m' : Memory) × (alloc_page two_regions ≡ some (a, m')) × Given two_regions a m')
    ⊎ ((alloc_page two_regions ≡ none) × Exhausted two_regions)
alloc_page-Answers_example = alloc_page-Answers two_regions two_regions-Sound

two_regions-CapsSafe : CapsSafe 2 two_regions
unfolding is_safe_cap_ptr
two_regions-CapsSafe zero lt k = refl
two_regions-CapsSafe (suc zero) lt k = refl
two_regions-CapsSafe (suc (suc j)) lt k = absurd (omega arith)

create_init_untyped_caps-HandedOut_example :
    (u : Untypeds) × (create_init_untyped_caps 8 two_regions ≡ some u) × HandedOut 0 2 two_regions u
create_init_untyped_caps-HandedOut_example =
    create_init_untyped_caps-HandedOut 2 8 two_regions refl (omega arith) (omega arith)
      (omega arith) refl two_regions-CapsSafe

-- Region 1 is the user's, and the kernel keeps region 0.
abbrev first_caps : Untypeds
first_caps = record {
  caps = record (new_cap cap_untyped) { size_bits = 15; ptr = 0x1000 } ∷ [];
  descs = record { base = 0x1_0000; size_bits = 15 } ∷ [];
  memory = give_to_user 1 two_regions;
}

first_caps_run : create_init_untyped_caps 8 two_regions ≡ some first_caps
unfolding create_init_untyped_caps init_untyped_from cap_set_ptr is_safe_cap_ptr Option.bind
first_caps_run = refl

abbrev one_page_less : Memory
one_page_less = (page_from 0 first_caps.memory).1

abbrev two_pages_less : Memory
two_pages_less = (page_from 0 one_page_less).1

first_page : alloc_page first_caps.memory ≡ some (0x5000, one_page_less)
unfolding alloc_page first_region has_page region_size
first_page = refl

second_page : alloc_page one_page_less ≡ some (0x6000, two_pages_less)
unfolding alloc_page first_region has_page region_size
second_page = refl

create_init_untyped_caps-Pages_example :
    Separate (0x6000 ∷ 0x5000 ∷ []) × ApartFromGiven 2 two_regions (0x6000 ∷ 0x5000 ∷ [])
create_init_untyped_caps-Pages_example =
    create_init_untyped_caps-Pages 2 8 two_regions first_caps (0x6000 ∷ 0x5000 ∷ []) two_pages_less
      refl (omega arith) (omega arith) (omega arith) refl two_regions-CapsSafe two_regions-Sound
      first_caps_run
      (one_more 0x6000 (0x5000 ∷ []) one_page_less two_pages_less
        (one_more 0x5000 [] first_caps.memory one_page_less no_pages first_page) second_page)
