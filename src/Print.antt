-- ===== src/Print.antt =====
-- lib/print.c, the numbers and strings of formatted output. What a function writes to the stream is a
-- list of bytes, and `written` is its length; `n` bounds it. A padding below zero pads nothing, and so
-- does subtraction that stops at 0. The macro `panic` is empty in that file.
pub mod Format
pub mod Layout
pub mod Numerals
pub mod Limit
pub mod Plain
mod Tests
use untitled_bare_metal.Base.{
  ℕ, zero, suc, ◌+◌, ◌-◌, ◌*◌, ◌/◌, ◌%◌, ◌^◌, Bool, true, false, not, ◌&&◌, ◌||◌, ◌==◌,
  if◌then◌else◌, ltb, List, [], ◌∷◌, ◌++◌, length,
}

-- enum base
pub data NumberBase : Type 0 where
  base_10 base_16 base_16_caps base_8 base_2 base_ptr : NumberBase

-- struct format_spec: `int_width` is a `char`, the last two fields are `short`, each with its two's
-- complement.
pub record FormatSpec : Type 0 where
  pub base : NumberBase
  pub alternate_form : Bool
  pub print_plus : Bool
  pub leave_space : Bool
  pub left_justify : Bool
  pub padding_char : ℕ
  pub int_width : ℕ
  pub padding_width : ℕ
  pub precision : ℕ

-- struct number
pub record Number : Type 0 where
  pub value : ℕ
  pub negative : Bool

module _ {ℓ} {A : Type ℓ} where
  abbrev pub take : ℕ → List A → List A
  take zero xs = []
  take (suc n) [] = []
  take (suc n) (x ∷ xs) = x ∷ take n xs

  abbrev pub replicate : ℕ → A → List A
  replicate zero x = []
  replicate (suc n) x = x ∷ replicate n x

-- WRITE (data, size), behind what is written already
unfoldable pub write : (n : ℕ) → (bytes out : List ℕ) → List ℕ
write n bytes out = if ltb (length out) n then out ++ take (n - length out) bytes else out

-- written += f (n - written)
abbrev pub write_by : (n : ℕ) → (ℕ → List ℕ) → List ℕ → List ℕ
write_by n f out = out ++ f (n - length out)

-- The loop of format_pad, for the rounds that are left.
unfoldable pub pad_from : (pad_len n char : ℕ) → List ℕ → List ℕ
pad_from zero n char out = out
pad_from (suc pad_len) n char out = pad_from pad_len n char (write n (char ∷ []) out)

unfoldable pub format_pad : FormatSpec → (pad_len n : ℕ) → List ℕ
unfolding pad_from write
format_pad spec pad_len n = pad_from pad_len n spec.padding_char []

abbrev pub divisor : NumberBase → ℕ
divisor NumberBase.base_10 = 10
divisor NumberBase.base_16 = 16
divisor NumberBase.base_16_caps = 16
divisor NumberBase.base_8 = 8
divisor NumberBase.base_2 = 2
divisor NumberBase.base_ptr = 16

-- Is the charset the one with capitals?
abbrev pub upper : NumberBase → Bool
upper NumberBase.base_16_caps = true
upper NumberBase.base_ptr = true
upper _ = false

-- charset[i]: the digits, and then the letters from 'A' or 'a'
abbrev pub charset : NumberBase → ℕ → ℕ
charset b i = if ltb i 10 then b'0' + i else if upper b then b'A' + (i - 10) else b'a' + (i - 10)

abbrev pub is_ptr : NumberBase → Bool
is_ptr NumberBase.base_ptr = true
is_ptr _ = false

-- "(nullptr)"
abbrev pub nullptr_text : List ℕ
nullptr_text = b'(' ∷ b'n' ∷ b'u' ∷ b'l' ∷ b'l' ∷ b'p' ∷ b't' ∷ b'r' ∷ b')' ∷ []

-- The loop fills the buffer from its end; `digits` are the bytes that are there.
unfoldable pub layout_digits : (left : ℕ) → NumberBase → (acc : ℕ) → (digits : List ℕ) → List ℕ
layout_digits zero b acc digits = digits
layout_digits (suc left) b acc digits =
    let rest = layout_digits left b (acc / divisor b) (charset b (acc % divisor b) ∷ digits) in
    if ltb 0 acc then rest else digits

-- The string in the buffer that the result points to.
unfoldable pub format_layout_int : FormatSpec → Number → List ℕ
format_layout_int spec number =
    if number.value == 0
    then (if is_ptr spec.base then nullptr_text else b'0' ∷ [])
    else layout_digits 64 spec.base number.value []

unfoldable pub format_number_sign : FormatSpec → Number → (n : ℕ) → List ℕ
unfolding write
format_number_sign spec number n =
    if number.negative
    then write n (b'-' ∷ []) []
    else if spec.print_plus
    then write n (b'+' ∷ []) []
    else if spec.leave_space
    then write n (b' ' ∷ []) []
    else []

abbrev pub alternate_prefix : NumberBase → List ℕ
alternate_prefix NumberBase.base_2 = b'0' ∷ b'b' ∷ []
alternate_prefix NumberBase.base_8 = b'0' ∷ []
alternate_prefix NumberBase.base_10 = []
alternate_prefix NumberBase.base_16_caps = b'0' ∷ b'X' ∷ []
alternate_prefix NumberBase.base_16 = b'0' ∷ b'x' ∷ []
alternate_prefix NumberBase.base_ptr = b'0' ∷ b'x' ∷ []

unfoldable pub format_number_alternate_form : FormatSpec → (n : ℕ) → List ℕ
unfolding write
format_number_alternate_form spec n =
    if spec.alternate_form then write n (alternate_prefix spec.base) [] else []

-- A `short` that is negative counts as 0.
abbrev pub width : ℕ → ℕ
width w = if ltb w 0x8000 then w else 0

abbrev pub null_pointer : FormatSpec → Number → Bool
null_pointer spec number = (number.value == 0) && is_ptr spec.base

-- What the sign takes of the width.
abbrev pub sign_len : FormatSpec → Number → ℕ
sign_len spec number = if number.negative || spec.print_plus || spec.leave_space then 1 else 0

-- What the prefix takes of the width.
abbrev pub prefix_len : FormatSpec → Number → ℕ
prefix_len spec number =
    if spec.alternate_form && not (null_pointer spec number)
    then length (alternate_prefix spec.base)
    else 0

unfoldable pub number_pad_len : FormatSpec → Number → ℕ
number_pad_len spec number =
    width spec.padding_width
    - length (format_layout_int spec number)
    - sign_len spec number
    - prefix_len spec number

-- The sign and the prefix, which a null pointer lacks.
unfoldable pub number_front : FormatSpec → Number → (n : ℕ) → List ℕ → List ℕ
number_front spec number n out =
    if null_pointer spec number
    then out
    else write_by n (format_number_alternate_form spec)
        (write_by n (format_number_sign spec number) out)

unfoldable pub format_number : FormatSpec → Number → (n : ℕ) → List ℕ
format_number spec number n =
    let digits = format_layout_int spec number in
    let pad = write_by n (format_pad spec (number_pad_len spec number)) in
    let zeros = spec.padding_char == b'0' in
    if spec.padding_width == 0
    then write n digits (number_front spec number n [])
    else if spec.left_justify
    then pad (write n digits (number_front spec number n []))
    else if zeros
    then write n digits (pad (number_front spec number n []))
    else write n digits (number_front spec number n (pad []))

-- The string `s` is that at the address, or "(null)" for NULL.
unfoldable pub format_string : FormatSpec → (s : List ℕ) → (n : ℕ) → List ℕ
format_string spec s n =
    let all = length s in
    let len =
      if ltb spec.precision 0x8000
      then (if ltb all spec.precision then all else spec.precision)
      else all in
    let pad = write_by n (format_pad spec (width spec.padding_width - len)) in
    if spec.padding_width == 0
    then write n (take len s) []
    else if spec.left_justify
    then pad (write n (take len s) [])
    else write n (take len s) (pad [])
