-- ===== src/Numbers.antt =====
-- lib/num.c and include/ctype.h: reading a number from a string in memory. A `char` is a byte here;
-- bytes from 128 on, which C reads as negative, belong to no class. A `long` is a word of 64 bits; an
-- overflow, which C leaves undefined, is an outcome.
pub mod Digits
mod Tests
use untitled_bare_metal.Base.{
  ℕ, zero, suc, ◌+◌, ◌-◌, ◌*◌, ◌%◌, ◌/◌, ◌^◌, Bool, true, false, ◌&&◌, ◌||◌, ◌==◌, if◌then◌else◌,
  ltb, leb, sub64, Option, none, some,
}
use untitled_bare_metal.Strings.{Bytes}

abbrev pub isdigit : ℕ → Bool
isdigit c = leb b'0' c && leb c b'9'

abbrev pub islower : ℕ → Bool
islower c = leb b'a' c && leb c b'z'

abbrev pub isupper : ℕ → Bool
isupper c = leb b'A' c && leb c b'Z'

abbrev pub isalpha : ℕ → Bool
isalpha c = islower c || isupper c

abbrev pub isalnum : ℕ → Bool
isalnum c = isalpha c || isdigit c

abbrev pub isprint : ℕ → Bool
isprint c = leb 0x20 c && leb c 0x7e

-- ' ', '\t', '\n', '\r', '\f' and '\v'
abbrev pub isspace : ℕ → Bool
isspace c = (c == 0x20) || (c == 9) || (c == 10) || (c == 13) || (c == 12) || (c == 11)

abbrev pub isxdigit : ℕ → Bool
isxdigit c = isdigit c || (leb b'a' c && leb c b'f') || (leb b'A' c && leb c b'F')

-- while (isspace (*nptr)) nptr++
unfoldable pub skip_space : (fuel p : ℕ) → Bytes → Option ℕ
skip_space zero p mem = none
skip_space (suc fuel) p mem =
    let rest = skip_space fuel (p + 1) mem in if isspace (mem p) then rest else some p

-- (c | 32) == 'x': both letters differ in that bit alone.
abbrev pub is_x : ℕ → Bool
is_x c = (c == b'x') || (c == b'X')

abbrev pub has_hex_prefix : ℕ → Bytes → Bool
has_hex_prefix p mem = (mem p == b'0') && is_x (mem (p + 1))

-- The base and the place of the digits, after the prefix.
unfoldable pub base_prefix : (base p : ℕ) → Bytes → ℕ × ℕ
base_prefix base p mem =
    if base == 0
    then (if mem p == b'0' then (if is_x (mem (p + 1)) then (16, p + 2) else (8, p)) else (10, p))
    else if (base == 16) && has_hex_prefix p mem
    then (base, p + 2)
    else (base, p)

-- The value of a letter or digit, and 36 for any other byte.
unfoldable pub digit_value : ℕ → ℕ
digit_value c =
    if leb b'0' c && leb c b'9'
    then c - b'0'
    else if leb b'A' c && leb c b'Z'
    then c - b'A' + 10
    else if leb b'a' c && leb c b'z'
    then c - b'a' + 10
    else 36

abbrev pub is_letter_or_digit : ℕ → Bool
is_letter_or_digit c = ltb (digit_value c) 36

-- `reading` has the number and the place of the first byte that was not read. `overflow` is the
-- undefined overflow of `result`, and `out_of_fuel` is a string longer than the fuel.
pub data Reading : Type 0 where
  reading : (result end : ℕ) → Reading
  overflow : Reading
  out_of_fuel : Reading

-- while (1), with the number read so far.
unfoldable pub read_digits : (fuel base result p : ℕ) → Bytes → Reading
read_digits zero base result p mem = out_of_fuel
read_digits (suc fuel) base result p mem =
    let rest = read_digits fuel base (result * base + digit_value (mem p)) (p + 1) mem in
    let more = if ltb (result * base + digit_value (mem p)) (2 ^ 63) then rest else overflow in
    if is_letter_or_digit (mem p)
    then (if leb base (digit_value (mem p)) then reading result p else more)
    else reading result p

-- result * sign, as a word of 64 bits
abbrev pub signed : (negative : Bool) → ℕ → ℕ
signed true result = sub64 0 result
signed false result = result

-- The sign, and the place behind it.
unfoldable pub read_sign : ℕ → Bytes → Bool × ℕ
read_sign p mem =
    if mem p == b'-' then (true, p + 1) else if mem p == b'+' then (false, p + 1) else (false, p)

abbrev pub with_sign : Bool → Reading → Reading
with_sign negative (reading result end) = reading (signed negative result) end
with_sign negative overflow = overflow
with_sign negative out_of_fuel = out_of_fuel

abbrev pub digits_from : (fuel : ℕ) → Bytes → Bool × ℕ → ℕ → Reading
digits_from fuel mem (negative, p) base =
    let (b, q) = base_prefix base p mem in with_sign negative (read_digits fuel b 0 q mem)

-- The number and the value for `*endptr`.
unfoldable pub strtol : (fuel nptr base : ℕ) → Bytes → Reading
strtol fuel nptr base mem = elim (skip_space fuel nptr mem) [
  | some p ↦ digits_from fuel mem (read_sign p mem) base
  | none ↦ out_of_fuel
]
