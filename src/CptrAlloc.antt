-- ===== src/CptrAlloc.antt =====
-- lib/cptr_alloc.c: free slots of the capability space, in a bitmap of 512 words.
pub mod Bitmap
pub mod Range
pub mod One
pub mod Clear
mod Tests
use Prim.Native.Nat.{bit_and, bit_or}
use untitled_bare_metal.Base.{
  ℕ, zero, suc, ◌+◌, ◌-◌, ◌*◌, ◌/◌, ◌%◌, ◌^◌, Bool, true, false, not, ◌&&◌, ◌||◌, ltb, ◌==◌,
  if◌then◌else◌, leb, update, Option, none, some,
}

abbrev pub Bitmap : Type 0
Bitmap = ℕ → ℕ

abbrev pub bitmap_size : ℕ
bitmap_size = 512

abbrev pub bits_per_word : ℕ
bits_per_word = 64

-- bitmap[idx] |= (1ULL << bit)
abbrev pub set_bit : ℕ → ℕ → Bitmap → Bitmap
set_bit idx bit bitmap = update bitmap idx (bit_or (bitmap idx) (2 ^ bit))

-- bitmap[idx] &= ~(1ULL << bit)
abbrev pub clear_bit : ℕ → ℕ → Bitmap → Bitmap
clear_bit idx bit bitmap = update bitmap idx (bit_and (bitmap idx) (2 ^ 64 - 1 - 2 ^ bit))

-- `left` is end - i.
unfoldable pub set_from : (left i : ℕ) → Bitmap → Bitmap
set_from zero i bitmap = bitmap
set_from (suc left) i bitmap =
    set_from left (i + 1) (set_bit (i / bits_per_word) (i % bits_per_word) bitmap)

unfoldable pub cptr_set_range : (start end : ℕ) → Bitmap → Bitmap
cptr_set_range start end = set_from (end - start) start

unfoldable pub clear_from : (left i : ℕ) → Bitmap → Bitmap
clear_from zero i bitmap = bitmap
clear_from (suc left) i bitmap =
    clear_from left (i + 1) (clear_bit (i / bits_per_word) (i % bits_per_word) bitmap)

unfoldable pub cptr_clear_range : (start end : ℕ) → Bitmap → Bitmap
cptr_clear_range start end = clear_from (end - start) start

-- The range is that of the free slots in the boot information.
unfoldable pub cptr_alloc_init : (start end : ℕ) → Bitmap → Bitmap
unfolding cptr_set_range cptr_clear_range
cptr_alloc_init start end bitmap = cptr_clear_range start end (cptr_set_range 0 (2 ^ 12) bitmap)

-- The test of a bit that ends a run.
unfoldable pub is_taken : ℕ → ℕ → Bitmap → Bool
is_taken idx bit bitmap = leb bitmap_size idx || not (bit_and (bitmap idx) (2 ^ bit) == 0)

-- The value of `found` after the loop over k, from `k` on.
unfoldable pub found_from : (left k i j : ℕ) → Bitmap → Bool
found_from zero k i j bitmap = true
found_from (suc left) k i j bitmap =
    let rest = found_from left (k + 1) i j bitmap in
    if is_taken (i + (j + k) / bits_per_word) ((j + k) % bits_per_word) bitmap then false else rest

-- Mark the range as allocated.
unfoldable pub mark_from : (left k i j : ℕ) → Bitmap → Bitmap
mark_from zero k i j bitmap = bitmap
mark_from (suc left) k i j bitmap =
    mark_from left (k + 1) i j
      (set_bit ((i * bits_per_word + j + k) / bits_per_word) ((j + k) % bits_per_word) bitmap)

-- The inner loop over j, from `j` on. `none`: it ends without a return.
unfoldable pub starts_from : (left j i n : ℕ) → Bitmap → Option (ℕ × Bitmap)
starts_from zero j i n bitmap = none
starts_from (suc left) j i n bitmap =
    let rest = starts_from left (j + 1) i n bitmap in
    if found_from n 0 i j bitmap
    then some (i * bits_per_word + j, mark_from n 0 i j bitmap)
    else rest

-- The loop over j around it, which only repeats it.
unfoldable pub repeat_starts : (rounds i n : ℕ) → Bitmap → Option (ℕ × Bitmap)
repeat_starts zero i n bitmap = none
repeat_starts (suc rounds) i n bitmap = elim (starts_from bits_per_word 0 i n bitmap) [
  | some r ↦ some r
  | none ↦ repeat_starts rounds i n bitmap
]

unfoldable pub words_from : (left i n : ℕ) → Bitmap → Option (ℕ × Bitmap)
words_from zero i n bitmap = none
words_from (suc left) i n bitmap =
    let rest = words_from left (i + 1) n bitmap in
    if bitmap i == 0xffff_ffff_ffff_ffff
    then rest
    else elim (repeat_starts 64 i n bitmap) [ some r ↦ some r | none ↦ rest ]

-- The result of the failed search is (cptr_t)-1.
unfoldable pub cptr_alloc_range : ℕ → Bitmap → ℕ × Bitmap
cptr_alloc_range n bitmap = elim (words_from bitmap_size 0 n bitmap) [
  | some r ↦ r
  | none ↦ (2 ^ 64 - 1, bitmap)
]

-- `exhausted` is the result (cptr_t)-1, and `undefined_shift` is `1 << j` on a 32-bit `int`
-- for a j that it cannot be shifted by, which C leaves undefined.
pub data Allocation : Type 0 where
  allocated : ℕ → Bitmap → Allocation
  exhausted : Bitmap → Allocation
  undefined_shift : Allocation

-- The loop over j in cptr_alloc, from `j` on. `none`: it ends without a return.
unfoldable pub bits_from : (left j i : ℕ) → Bitmap → Option Allocation
bits_from zero j i bitmap = none
bits_from (suc left) j i bitmap =
    let rest = bits_from left (j + 1) i bitmap in
    let free = some (allocated (i * 64 + j) (set_bit i j bitmap)) in
    let tested = if bit_and (bitmap i) (2 ^ j) == 0 then free else rest in
    if ltb j 31 then tested else some undefined_shift

unfoldable pub single_from : (left i : ℕ) → Bitmap → Option Allocation
single_from zero i bitmap = none
single_from (suc left) i bitmap =
    let rest = single_from left (i + 1) bitmap in
    if bitmap i == 0xffff_ffff_ffff_ffff
    then rest
    else elim (bits_from 64 0 i bitmap) [ some r ↦ some r | none ↦ rest ]

unfoldable pub cptr_alloc : Bitmap → Allocation
cptr_alloc bitmap = elim (single_from bitmap_size 0 bitmap) [ some r ↦ r | none ↦ exhausted bitmap ]

-- `none` is an undefined shift, or an access behind the array.
unfoldable pub cptr_free : ℕ → Bitmap → Option Bitmap
cptr_free cptr bitmap =
    if ltb (cptr % 64) 31 && ltb (cptr / 64) bitmap_size
    then some (clear_bit (cptr / 64) (cptr % 64) bitmap)
    else none
