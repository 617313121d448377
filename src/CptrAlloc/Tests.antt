-- ===== src/CptrAlloc/Tests.antt =====
-- Runs of lib/cptr_alloc.c.
use untitled_bare_metal.Base.{
  ℕ, ◌+◌, ◌-◌, ◌*◌, ◌^◌, ◌≤◌, ◌<◌, ◌≡◌, ◌≢◌, refl, true, false, ◌==◌, if◌then◌else◌, arith, some,
  ◌⊎◌,
}
use untitled_bare_metal.CptrAlloc.{
  Bitmap, bitmap_size, set_bit, is_taken, found_from, mark_from, starts_from, repeat_starts,
  words_from, cptr_alloc_range, allocated, exhausted, undefined_shift, bits_from, single_from,
  cptr_alloc, cptr_free, cptr_alloc_init,
}
use untitled_bare_metal.CptrAlloc.Bitmap.{slot_taken}
use untitled_bare_metal.CptrAlloc.Range.{RunFree, Blocked, Marked, cptr_alloc_range-First}
use untitled_bare_metal.CptrAlloc.One.{cptr_alloc-Answers}
use untitled_bare_metal.CptrAlloc.Clear.{cptr_alloc_init-Slots, cptr_free-cptr_alloc}

-- Word 0 is full, and bits 0 and 2 of word 1 are set.
abbrev some_taken : Bitmap
some_taken = λ idx. if idx == 0 then 0xffff_ffff_ffff_ffff else if idx == 1 then 5 else 0

alloc_run : cptr_alloc some_taken ≡ allocated 65 (set_bit 1 1 some_taken)
unfolding cptr_alloc single_from bits_from
alloc_run = refl

range_run : cptr_alloc_range 3 some_taken ≡ (67, mark_from 3 0 1 3 some_taken)
unfolding cptr_alloc_range words_from repeat_starts starts_from found_from is_taken
range_run = refl

-- Bit 31 cannot be reached by a shifted int.
low_half_taken : cptr_alloc (λ idx. 0x7fff_ffff) ≡ undefined_shift
unfolding cptr_alloc single_from bits_from
low_half_taken = refl

cptr_alloc_range-First_example :
    ((c : ℕ) × (bitmap' : Bitmap) × (cptr_alloc_range 70 some_taken ≡ (c, bitmap'))
      × RunFree c 70 some_taken
      × ((l : ℕ) → l < c → Blocked l 70 some_taken)
      × Marked c 70 some_taken bitmap')
    ⊎ ((cptr_alloc_range 70 some_taken ≡ (2 ^ 64 - 1, some_taken))
        × ((l : ℕ) → Blocked l 70 some_taken))
cptr_alloc_range-First_example = cptr_alloc_range-First 70 some_taken (omega arith)

cptr_alloc-Answers_example :
    ((w : ℕ) × (w < bitmap_size)
      × (some_taken w ≢ 0xffff_ffff_ffff_ffff)
      × ((v : ℕ) → v < w → some_taken v ≡ 0xffff_ffff_ffff_ffff)
      × (((b : ℕ) × (bitmap' : Bitmap) × (b < 31)
            × (cptr_alloc some_taken ≡ allocated (w * 64 + b) bitmap')
            × (slot_taken (w * 64 + b) some_taken ≡ false)
            × ((l : ℕ) → l < b → slot_taken (w * 64 + l) some_taken ≡ true)
            × Marked (w * 64 + b) 1 some_taken bitmap')
          ⊎ ((cptr_alloc some_taken ≡ undefined_shift)
              × ((l : ℕ) → l < 31 → slot_taken (w * 64 + l) some_taken ≡ true))))
    ⊎ ((cptr_alloc some_taken ≡ exhausted some_taken)
        × ((v : ℕ) → v < bitmap_size → some_taken v ≡ 0xffff_ffff_ffff_ffff))
cptr_alloc-Answers_example = cptr_alloc-Answers some_taken

cptr_free-cptr_alloc_example :
    (bitmap : Bitmap) × (cptr_free 65 (set_bit 1 1 some_taken) ≡ some bitmap)
    × (slot_taken 65 bitmap ≡ slot_taken 65 some_taken)
cptr_free-cptr_alloc_example =
    cptr_free-cptr_alloc 65 65 some_taken (set_bit 1 1 some_taken) alloc_run

cptr_alloc_init-Slots_example :
    ((40 ≤ 39) × (39 < 4000) × (slot_taken 39 (cptr_alloc_init 40 4000 some_taken) ≡ false))
    ⊎ (((39 < 40) ⊎ (4000 ≤ 39))
        × (((39 < 4096) × (slot_taken 39 (cptr_alloc_init 40 4000 some_taken) ≡ true))
            ⊎ ((4096 ≤ 39)
                × (slot_taken 39 (cptr_alloc_init 40 4000 some_taken) ≡ slot_taken 39 some_taken))))
cptr_alloc_init-Slots_example =
    cptr_alloc_init-Slots 40 4000 39 some_taken (omega arith) (omega arith)
