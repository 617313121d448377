-- ===== src/Print/Tests.antt =====
-- Runs of lib/print.c.
use untitled_bare_metal.Base.{
  ℕ, ◌≡◌, ◌+◌, ◌-◌, refl, true, false, ◌==◌, if◌then◌else◌, List, [], ◌∷◌, ◌++◌, length, arith,
}
use untitled_bare_metal.Strings.{Bytes, strchr, strlen}
use untitled_bare_metal.Numbers.{signed, strtol, reading}
use untitled_bare_metal.Numbers.Digits.{sign}
use untitled_bare_metal.Print.{
  NumberBase, FormatSpec, Number, take, width, format_number, format_layout_int, layout_digits,
  format_number_sign, format_number_alternate_form, number_front, number_pad_len, format_pad,
  pad_from, write,
}
use untitled_bare_metal.Print.Format.{
  done, plain_spec, vfnprintf, print_from, consume, directive, run_conversion, get_number,
}
use untitled_bare_metal.Print.Layout.{laid_out, front_text, format_number-Laid}
use untitled_bare_metal.Print.Numerals.{strtol-format_layout_int}
use untitled_bare_metal.Print.Limit.{Bounded, vfnprintf-Bounded}
use untitled_bare_metal.Print.Plain.{vfnprintf-past_end}

-- "%#08x"
abbrev hex_spec : FormatSpec
hex_spec = record plain_spec {
  base = NumberBase.base_16;
  alternate_form = true;
  padding_char = b'0';
  padding_width = 8;
}

abbrev hex_number : Number
hex_number = record { value = 255; negative = false }

hex_run :
    format_number hex_spec hex_number 100
    ≡ b'0' ∷ b'x' ∷ b'0' ∷ b'0' ∷ b'0' ∷ b'0' ∷ b'f' ∷ b'f' ∷ []
unfolding format_number format_layout_int layout_digits format_number_sign
    format_number_alternate_form number_front number_pad_len format_pad pad_from write
hex_run = refl

format_number-Laid_example :
    ((n : ℕ) → format_number hex_spec hex_number n ≡ take n (laid_out hex_spec hex_number))
    × (length (laid_out hex_spec hex_number)
        ≡ length (front_text hex_spec hex_number ++ format_layout_int hex_spec hex_number)
          + (width hex_spec.padding_width
              - length (front_text hex_spec hex_number ++ format_layout_int hex_spec hex_number)))
format_number-Laid_example = format_number-Laid hex_spec hex_number refl

abbrev minus_42 : Number
minus_42 = record { value = 42; negative = true }

-- "-42" at 8, and "a%" at 16 with "xy" behind it
abbrev memory : Bytes
memory a =
    if a == 8
    then b'-'
    else if a == 9
    then b'4'
    else if a == 10
    then b'2'
    else if a == 16
    then b'a'
    else if a == 17
    then b'%'
    else if a == 19
    then b'x'
    else if a == 20
    then b'y'
    else 0

strtol-format_layout_int_example :
    strtol 5 8 10 memory
    ≡ reading (signed true 42) (8 + length (sign true ++ format_layout_int plain_spec minus_42))
unfolding format_layout_int layout_digits
strtol-format_layout_int_example =
    strtol-format_layout_int 5 plain_spec minus_42 8 memory refl (omega arith) (omega arith)
      (omega arith)

vfnprintf-Bounded_example : Bounded 4 (vfnprintf 9 4 16 [] memory)
vfnprintf-Bounded_example = vfnprintf-Bounded 9 4 16 [] memory (omega arith) (omega arith)

vfnprintf-past_end_example :
    vfnprintf 9 100 16 [] memory
    ≡ done (
      record {
        mem = memory;
        args = [];
        out = take (100 - 1) ((b'a' ∷ [] ++ b'%' ∷ []) ++ b'x' ∷ b'y' ∷ []);
        reported = [];
      },
      take (100 - 1) ((b'a' ∷ [] ++ b'%' ∷ []) ++ b'x' ∷ b'y' ∷ []) ++ 0 ∷ [],
    )
vfnprintf-past_end_example =
    vfnprintf-past_end 9 100 (b'a' ∷ []) (b'x' ∷ b'y' ∷ []) 16 [] memory (omega arith) (omega arith)
      (omega arith) (omega arith) (omega arith) (omega arith) (omega arith) (omega arith)

-- "a%5d|" with 42 for its argument
abbrev with_width : Bytes
with_width a =
    if a == 16
    then b'a'
    else if a == 17
    then b'%'
    else if a == 18
    then b'5'
    else if a == 19
    then b'd'
    else if a == 20
    then b'|'
    else 0

abbrev printed : List ℕ
printed = b'a' ∷ b' ' ∷ b' ' ∷ b' ' ∷ b'4' ∷ b'2' ∷ b'|' ∷ []

width_run :
    vfnprintf 9 100 16 (42 ∷ []) with_width
    ≡ done (record { mem = with_width; args = []; out = printed; reported = [] }, printed ++ 0 ∷ [])
unfolding vfnprintf print_from consume directive run_conversion get_number strchr strlen
    format_number format_layout_int layout_digits format_number_sign format_number_alternate_form
    number_front number_pad_len format_pad pad_from write
width_run = refl

-- "a%?|": the question mark is no conversion.
abbrev with_unknown : Bytes
with_unknown a =
    if a == 16
    then b'a'
    else if a == 17
    then b'%'
    else if a == 18
    then b'?'
    else if a == 19
    then b'|'
    else 0

unknown_run :
    vfnprintf 9 100 16 [] with_unknown
    ≡ done (
      record { mem = with_unknown; args = []; out = b'a' ∷ b'|' ∷ []; reported = b'?' ∷ [] },
      b'a' ∷ b'|' ∷ 0 ∷ [],
    )
unfolding vfnprintf print_from consume directive run_conversion strchr strlen write
unknown_run = refl
