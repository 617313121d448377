-- ===== src/Strings.antt =====
-- lib/string.c: bytes in memory. Memory is a store of bytes by address, a string ends at its first zero
-- byte, and the loops that look for it take fuel. `size_t` counts are the rounds of a loop.
pub mod Move
pub mod Compare
mod Tests
use mathlib.Core.Option
use untitled_bare_metal.Base.{
  ℕ, zero, suc, ◌+◌, ◌%◌, ◌^◌, Bool, ◌&&◌, ◌==◌, if◌then◌else◌, ltb, update, Option, none, some,
}
use untitled_bare_metal.Base.Int.{ℤ, pos, sub_ℕ}

abbrev pub Bytes : Type 0
Bytes = ℕ → ℕ

-- `c` is converted to unsigned char.
unfoldable pub memset : (n s c : ℕ) → Bytes → Bytes
memset zero s c mem = mem
memset (suc n) s c mem = memset n (s + 1) c (update mem s (c % 2 ^ 8))

unfoldable pub memcpy : (n dest src : ℕ) → Bytes → Bytes
memcpy zero dest src mem = mem
memcpy (suc n) dest src mem = memcpy n (dest + 1) (src + 1) (update mem dest (mem src))

-- d += n; s += n; while (n--) *--d = *--s
unfoldable pub copy_backwards : (n dest src : ℕ) → Bytes → Bytes
copy_backwards zero dest src mem = mem
copy_backwards (suc n) dest src mem =
    copy_backwards n dest src (update mem (dest + n) (mem (src + n)))

-- The loop of the first branch is that of memcpy.
unfoldable pub memmove : (n dest src : ℕ) → Bytes → Bytes
unfolding memcpy copy_backwards
memmove n dest src mem =
    if ltb dest src then memcpy n dest src mem else copy_backwards n dest src mem

unfoldable pub memcmp : (n s1 s2 : ℕ) → Bytes → ℤ
memcmp zero s1 s2 mem = pos 0
memcmp (suc n) s1 s2 mem =
    let rest = memcmp n (s1 + 1) (s2 + 1) mem in
    if mem s1 == mem s2 then rest else sub_ℕ (mem s1) (mem s2)

unfoldable pub strlen : (fuel s : ℕ) → Bytes → Option ℕ
strlen zero s mem = none
strlen (suc fuel) s mem =
    let rest = Option.map suc (strlen fuel (s + 1) mem) in if mem s == 0 then some 0 else rest

-- `c` is not negative; a `char` is signed, so a byte from 128 on is no such `c`. Address 0 is NULL.
unfoldable pub strchr : (fuel s c : ℕ) → Bytes → Option ℕ
strchr zero s c mem = none
strchr (suc fuel) s c mem =
    let rest = strchr fuel (s + 1) c mem in
    if mem s == 0 then some 0 else if (mem s == c) && ltb (mem s) 0x80 then some s else rest

unfoldable pub strcpy : (fuel dest src : ℕ) → Bytes → Option Bytes
strcpy zero dest src mem = none
strcpy (suc fuel) dest src mem =
    let mem' = update mem dest (mem src) in
    let rest = strcpy fuel (dest + 1) (src + 1) mem' in if mem src == 0 then some mem' else rest

unfoldable pub strncpy : (n dest src : ℕ) → Bytes → Bytes
strncpy zero dest src mem = mem
strncpy (suc n) dest src mem =
    let mem' = update mem dest (mem src) in
    let rest = strncpy n (dest + 1) (src + 1) mem' in if mem src == 0 then mem' else rest

-- while (*s1 && *s1 == *s2)
unfoldable pub strcmp : (fuel s1 s2 : ℕ) → Bytes → Option ℤ
strcmp zero s1 s2 mem = none
strcmp (suc fuel) s1 s2 mem =
    let rest = strcmp fuel (s1 + 1) (s2 + 1) mem in
    if mem s1 == 0
    then some (sub_ℕ (mem s1) (mem s2))
    else if mem s1 == mem s2
    then rest
    else some (sub_ℕ (mem s1) (mem s2))
