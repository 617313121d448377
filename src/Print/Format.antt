-- ===== src/Print/Format.antt =====
-- lib/print.c, the format string: `vfnprintf` and the functions that call it. The variable arguments
-- are slots of 64 bits, of which an `int` takes the lower half; a pointer argument is an address. The
-- functions that differ only in the stream or in how they get their arguments have one model.
use untitled_bare_metal.Base.{
  ℕ, zero, suc, ◌+◌, ◌-◌, ◌*◌, ◌/◌, ◌%◌, ◌^◌, Bool, true, false, not, ◌&&◌, ◌||◌, ◌==◌,
  if◌then◌else◌, ltb, leb, sub64, update, List, [], ◌∷◌, ◌++◌, length, Option, none, some,
}
use untitled_bare_metal.Strings.{Bytes, strlen, strchr}
use untitled_bare_metal.Print.{
  NumberBase, FormatSpec, Number, write, write_by, format_number, format_string,
}

-- `missing` is an argument that the caller did not give.
pub data Run (A : Type 0) : Type 0 where
  done : A → Run A
  missing : Run A
  out_of_fuel : Run A

infixl 5 ◌>>=◌
abbrev pub ◌>>=◌ : {A B : Type 0} → Run A → (A → Run B) → Run B
done a >>= f = f a
missing >>= f = missing
out_of_fuel >>= f = out_of_fuel

abbrev pub from_option : {A : Type 0} → Option A → Run A
from_option none = out_of_fuel
from_option (some a) = done a

-- The memory, the arguments that are left, the bytes written to the stream, and the characters behind
-- '%' that are no conversion, each of which was reported on standard output: that text is kept apart
-- from the bytes of `out`, also where both go to the same place.
pub record Printer : Type 0 where
  pub mem : Bytes
  pub args : List ℕ
  pub out : List ℕ
  pub reported : List ℕ

-- va_arg
abbrev pub next_arg : List ℕ → Run (ℕ × List ℕ)
next_arg [] = missing
next_arg (a ∷ args) = done (a, args)

-- An `int`, and a `long` or `long long`, as its absolute value.
abbrev pub from_int : ℕ → Number
from_int a =
    if ltb (a % 2 ^ 32) (2 ^ 31)
    then record { value = a % 2 ^ 32; negative = false }
    else record { value = 2 ^ 32 - a % 2 ^ 32; negative = true }

abbrev pub from_long : ℕ → Number
from_long a =
    if ltb a (2 ^ 63)
    then record { value = a; negative = false }
    else record { value = 2 ^ 64 - a; negative = true }

-- The widths -2 to 0.
abbrev pub is_int_width : ℕ → Bool
is_int_width w = (w == 0) || leb 254 w

abbrev pub is_long_width : ℕ → Bool
is_long_width w = (w == 1) || (w == 2)

-- An invalid width takes no argument.
unfoldable pub get_number : FormatSpec → (signed : Bool) → List ℕ → Run (Number × List ℕ)
get_number spec signed args =
    let negative_width = leb 0x80 spec.int_width in
    if is_int_width spec.int_width
    then next_arg args >>= (λ ((a, rest) : ℕ × List ℕ). done (
      (if signed || negative_width
          then from_int a
          else record { value = a % 2 ^ 32; negative = false }),
      rest,
    ))
    else if is_long_width spec.int_width
    then next_arg args >>= (λ ((a, rest) : ℕ × List ℕ).
      done ((if signed then from_long a else record { value = a; negative = false }), rest))
    else done (record { value = 0; negative = false }, args)

abbrev pub plain_spec : FormatSpec
plain_spec = record {
  base = NumberBase.base_10;
  alternate_form = false;
  print_plus = false;
  leave_space = false;
  left_justify = false;
  padding_char = b' ';
  int_width = 0;
  padding_width = 0;
  precision = 0xffff;
}

-- What a character behind '%' stands for: one more flag, a conversion, or the width or precision that
-- is an argument.
pub data Conversion : Type 0 where
  percent store_written character text : Conversion
  number : (signed : Bool) → Conversion
  report : ℕ → Conversion

pub data Directive : Type 0 where
  flag : FormatSpec → Directive
  argument : Directive
  convert : FormatSpec → Conversion → Directive

abbrev pub has_precision : FormatSpec → Bool
has_precision spec = ltb spec.precision 0x8000

-- *= 10 and += digit of a `short`
abbrev pub more_digits : (w digit : ℕ) → ℕ
more_digits w digit = (w * 10 + digit) % 2 ^ 16

unfoldable pub zero_flag : FormatSpec → FormatSpec
zero_flag spec =
    if has_precision spec
    then record spec { precision = more_digits spec.precision 0 }
    else if not (spec.padding_width == 0)
    then record spec { padding_width = more_digits spec.padding_width 0 }
    else record spec { padding_char = b'0' }

unfoldable pub digit_flag : (digit : ℕ) → FormatSpec → FormatSpec
digit_flag digit spec =
    if has_precision spec
    then record spec { precision = more_digits spec.precision digit }
    else record spec { padding_width = more_digits spec.padding_width digit }

-- The two characters below 'A' apart, the switch in the source's order.
unfoldable pub directive : (c : ℕ) → FormatSpec → Directive
unfolding zero_flag digit_flag
directive c spec =
    if (c == 0) || (c == b'%')
    then convert spec percent
    else if c == b'-'
    then flag (record spec { left_justify = true })
    else if c == b'+'
    then flag (record spec { print_plus = true })
    else if c == b' '
    then flag (record spec { leave_space = true })
    else if c == b'#'
    then flag (record spec { alternate_form = true })
    else if c == b'0'
    then flag (zero_flag spec)
    else if leb b'1' c && leb c b'9'
    then flag (digit_flag (c - b'0') spec)
    else if c == b'*'
    then argument
    else if c == b'.'
    then flag (record spec { precision = 0 })
    else if c == b'l'
    then flag (record spec { int_width = (spec.int_width + 1) % 2 ^ 8 })
    else if c == b'h'
    then flag (record spec { int_width = (spec.int_width + 0xff) % 2 ^ 8 })
    else if (c == b'j') || (c == b'z') || (c == b't')
    then flag (record spec { int_width = 2 })
    else if c == b'n'
    then convert spec store_written
    else if c == b'c'
    then convert spec character
    else if c == b's'
    then convert spec text
    else if (c == b'd') || (c == b'i')
    then convert spec (number true)
    else if c == b'u'
    then convert spec (number false)
    else if c == b'x'
    then convert (record spec { base = NumberBase.base_16 }) (number false)
    else if c == b'X'
    then convert (record spec { base = NumberBase.base_16_caps }) (number false)
    else if c == b'o'
    then convert (record spec { base = NumberBase.base_8 }) (number false)
    else if c == b'b'
    then convert (record spec { base = NumberBase.base_2 }) (number false)
    else if c == b'p'
    then convert (record spec { base = NumberBase.base_ptr; alternate_form = true; int_width = 2 })
        (number false)
    else convert spec (report c)

-- The case '*', with the argument: it is an `int`, kept as a `short`.
unfoldable pub star : (a : ℕ) → FormatSpec → FormatSpec
star a spec =
    let w = a % 2 ^ 16 in
    if has_precision spec
    then record spec { precision = w }
    else if ltb w 0x8000
    then record spec { padding_width = w; padding_char = b' ' }
    else record spec {
      padding_width = (2 ^ 16 - w) % 2 ^ 16;
      padding_char = b' ';
      left_justify = true;
    }

-- From consume_next on, with `fmt` before the next character: the place of the conversion, and what it
-- is.
unfoldable pub consume :
    (fuel fmt : ℕ) → FormatSpec → Bytes → List ℕ → Run (ℕ × FormatSpec × Conversion × List ℕ)
unfolding directive star
consume zero fmt spec mem args = out_of_fuel
consume (suc fuel) fmt spec mem args = elim (directive (mem (fmt + 1)) spec) [
  | flag spec' ↦ consume fuel (fmt + 1) spec' mem args
  | argument ↦ elim args [ [] ↦ missing | a ∷ rest ↦ consume fuel (fmt + 1) (star a spec) mem rest ]
  | convert spec' c ↦ done (fmt + 1, spec', c, args)
]

-- `len` bytes at an address
abbrev pub bytes_at : (len p : ℕ) → Bytes → List ℕ
bytes_at zero p mem = []
bytes_at (suc len) p mem = mem p ∷ bytes_at len (p + 1) mem

-- The four bytes of an `int`, the lowest first.
abbrev pub store_int : (p v : ℕ) → Bytes → Bytes
store_int p v mem =
    update
      (update (update (update mem p (v % 2 ^ 8)) (p + 1) (v / 2 ^ 8 % 2 ^ 8)) (p + 2)
        (v / 2 ^ 16 % 2 ^ 8))
      (p + 3) (v / 2 ^ 24 % 2 ^ 8)

-- "(null)"
abbrev pub null_text : List ℕ
null_text = b'(' ∷ b'n' ∷ b'u' ∷ b'l' ∷ b'l' ∷ b')' ∷ []

-- The string at an address.
unfoldable pub string_at : (fuel s : ℕ) → Bytes → Run (List ℕ)
string_at fuel s mem =
    if s == 0
    then done null_text
    else from_option (strlen fuel s mem) >>= (λ len. done (bytes_at len s mem))

abbrev pub print_to : (n : ℕ) → (ℕ → List ℕ) → Printer → Printer
print_to n f st = record st { out = write_by n f st.out }

unfoldable pub run_conversion : (fuel n : ℕ) → FormatSpec → Conversion → Printer → Run Printer
run_conversion fuel n spec percent st = done (record st { out = write n (b'%' ∷ []) st.out })
run_conversion fuel n spec store_written st = next_arg st.args >>= (λ ((a, rest) : ℕ × List ℕ).
    done (record st { args = rest; mem = store_int a (length st.out) st.mem }))
run_conversion fuel n spec character st = next_arg st.args >>= (λ ((a, rest) : ℕ × List ℕ).
    done (record st { args = rest; out = write n (a % 2 ^ 8 ∷ []) st.out }))
run_conversion fuel n spec text st = next_arg st.args >>= (λ ((a, rest) : ℕ × List ℕ).
    string_at fuel a st.mem
    >>= (λ s. done (print_to n (format_string spec s) (record st { args = rest }))))
run_conversion fuel n spec (report c) st = done (record st { reported = st.reported ++ c ∷ [] })
run_conversion fuel n spec (number signed) st =
    get_number spec signed st.args >>= (λ ((v, rest) : Number × List ℕ).
      done (print_to n (format_number spec v) (record st { args = rest })))

-- The rest of the format, after the last directive.
abbrev pub print_rest : (fuel n fmt : ℕ) → Printer → Run Printer
print_rest fuel n fmt st =
    from_option (strlen fuel fmt st.mem)
    >>= (λ len. done (record st { out = write n (bytes_at len fmt st.mem) st.out }))

-- while (*fmt != 0); strchr gives the place `p` of the next directive.
unfoldable pub print_from : (fuel n fmt : ℕ) → Printer → Run Printer
print_from zero n fmt st = out_of_fuel
print_from (suc fuel) n fmt st =
    let body : Run Printer = from_option (strchr fuel fmt b'%' st.mem) >>= (λ p.
      let st' = record st { out = write n (bytes_at (p - fmt) fmt st.mem) st.out } in
      let next : Run Printer =
        consume fuel p plain_spec st'.mem st'.args
        >>= (λ ((q, spec, c, args) : ℕ × FormatSpec × Conversion × List ℕ).
            run_conversion fuel n spec c (record st' { args = args })
            >>= (λ st''. print_from fuel n (q + 1) st'')) in
      if p == 0 then print_rest fuel n fmt st else next) in
    if st.mem fmt == 0 then done st else body

-- The printer at the end, and the bytes on the stream; the result is the length of the printer's.
unfoldable pub vfnprintf : (fuel n format : ℕ) → (args : List ℕ) → Bytes → Run (Printer × List ℕ)
vfnprintf fuel n format args mem =
    print_from fuel (sub64 n 1) format (record { mem = mem; args = args; out = []; reported = [] })
    >>= (λ st. done (st, st.out ++ 0 ∷ []))

-- fnprintf passes the arguments on; vfprintf, fprintf, vprintf and printf pass INT_MAX.
abbrev pub vfprintf : (fuel format : ℕ) → (args : List ℕ) → Bytes → Run (Printer × List ℕ)
vfprintf fuel format args mem = vfnprintf fuel (2 ^ 31 - 1) format args mem

unfoldable pub print : (fuel str : ℕ) → Bytes → Run (List ℕ)
print fuel str mem = from_option (strlen fuel str mem) >>= (λ len. done (bytes_at len str mem))

unfoldable pub puts : (fuel str : ℕ) → Bytes → Run (List ℕ)
unfolding print
puts fuel str mem = print fuel str mem >>= (λ s. done (s ++ 10 ∷ []))

unfoldable pub putchar : ℕ → List ℕ
putchar c = (c % 2 ^ 8) ∷ []
