-- ===== src/Print/Limit.antt =====
-- Formatted output keeps to its bound.
use untitled_bare_metal.Base.{
  ℕ, zero, suc, ◌+◌, ◌-◌, ◌≤◌, ◌<◌, ◌^◌, Bool, true, false, ◌==◌, if◌then◌else◌, lt→ltb, le→ltb,
  dec_lt, sub64, List, [], ◌∷◌, ◌++◌, length, length-append, arith,
}
use untitled_bare_metal.Strings.{Bytes, strlen, strchr}
use untitled_bare_metal.Print.{
  FormatSpec, Number, take, replicate, write, write_by, format_pad, format_number, format_string,
}
use untitled_bare_metal.Print.Layout.{format_pad-take, format_number-take, laid_out}
use untitled_bare_metal.Print.Format.{
  Run, done, missing, out_of_fuel, ◌>>=◌, from_option, Printer, Conversion, percent, store_written,
  character, text, number, report, run_conversion, consume, print_from, vfnprintf, next_arg,
  get_number, string_at, bytes_at, plain_spec,
}

length-take : (n : ℕ) (xs : List ℕ) → length (take n xs) ≤ n
length-take zero xs = omega arith
length-take (suc n) [] = omega arith
length-take (suc n) (x ∷ xs) = omega (arith, length-take n xs)

write-length : (n : ℕ) (xs out : List ℕ) → length out ≤ n → length (write n xs out) ≤ n
unfolding write
write-length n xs out h = elim (dec_lt (length out) n) [
  | yes room ↦ rw (lt→ltb (length out) n room) (
      omega
        (arith, length-append {0} out (take (n - length out) xs), length-take (n - length out) xs))
  | no full ↦ rw (le→ltb (length out) n (omega arith)) h
]

write_by-length :
    (n : ℕ) (f : ℕ → List ℕ) (out : List ℕ)
    → ((m : ℕ) → length (f m) ≤ m)
    → length out ≤ n
    → length (write_by n f out) ≤ n
write_by-length n f out b h =
    omega (arith, length-append {0} out (f (n - length out)), b (n - length out))

format_number-length :
    (spec : FormatSpec) (v : Number) (n : ℕ) → length (format_number spec v n) ≤ n
format_number-length spec v n = rw (format_number-take spec v n) (length-take n (laid_out spec v))

format_pad-length : (spec : FormatSpec) (k n : ℕ) → length (format_pad spec k n) ≤ n
format_pad-length spec k n =
    rw (format_pad-take spec k n) (length-take n (replicate k spec.padding_char))

length-if :
    (n : ℕ) (b : Bool) (xs ys : List ℕ)
    → length xs ≤ n
    → length ys ≤ n
    → length (if b then xs else ys) ≤ n
length-if n true xs ys h h' = h
length-if n false xs ys h h' = h'

format_string-length :
    (spec : FormatSpec) (s : List ℕ) (n : ℕ) → length (format_string spec s n) ≤ n
unfolding format_string
format_string-length spec s n =
    length-if n (spec.padding_width == 0) _ _ (write-length n _ [] (omega arith)) (
      length-if n spec.left_justify _ _
        (write_by-length n _ _ (format_pad-length spec _) (write-length n _ [] (omega arith)))
        (write-length n _ _ (write_by-length n _ [] (format_pad-length spec _) (omega arith))))

-- A run that ends within the bound.
abbrev Within : ℕ → Run Printer → Type 0
Within n (done st) = length st.out ≤ n
Within n missing = Unit {0}
Within n out_of_fuel = Unit {0}

Within-bind :
    {A : Type 0} (n : ℕ) (m : Run A) (f : A → Run Printer)
    → ((a : A) → Within n (f a))
    → Within n (m >>= f)
Within-bind n (done a) f h = h a
Within-bind n missing f h = tt
Within-bind n out_of_fuel f h = tt

Within-then :
    (n : ℕ) (m : Run Printer) (f : Printer → Run Printer)
    → Within n m
    → ((st : Printer) → length st.out ≤ n → Within n (f st))
    → Within n (m >>= f)
Within-then n (done st) f w h = h st w
Within-then n missing f w h = tt
Within-then n out_of_fuel f w h = tt

Within-if :
    (n : ℕ) (b : Bool) (x y : Run Printer) → Within n x → Within n y → Within n (if b then x else y)
Within-if n true x y h h' = h
Within-if n false x y h h' = h'

run_conversion-Within :
    (fuel n : ℕ) (spec : FormatSpec) (c : Conversion) (st : Printer)
    → length st.out ≤ n
    → Within n (run_conversion fuel n spec c st)
unfolding run_conversion
run_conversion-Within fuel n spec percent st h = write-length n _ st.out h
run_conversion-Within fuel n spec store_written st h = Within-bind n (next_arg st.args) _ (λ a. h)
run_conversion-Within fuel n spec character st h =
    Within-bind n (next_arg st.args) _ (λ a. write-length n _ st.out h)
run_conversion-Within fuel n spec text st h = Within-bind n (next_arg st.args) _ (λ a.
    Within-bind n (string_at fuel a.0 st.mem) _
      (λ s. write_by-length n _ st.out (format_string-length spec s) h))
run_conversion-Within fuel n spec (report c) st h = h
run_conversion-Within fuel n spec (number signed) st h =
    Within-bind n (get_number spec signed st.args) _
      (λ v. write_by-length n _ st.out (format_number-length spec v.0) h)

print_from-Within :
    (fuel n fmt : ℕ) (st : Printer) → length st.out ≤ n → Within n (print_from fuel n fmt st)
unfolding print_from
print_from-Within zero n fmt st h = tt
print_from-Within (suc fuel) n fmt st h = Within-if n (st.mem fmt == 0) _ _ h (
    Within-bind n (from_option (strchr fuel fmt b'%' st.mem)) _ (λ p.
      Within-if n (p == 0) _ _
        (Within-bind n (from_option (strlen fuel fmt st.mem)) _
          (λ len. write-length n (bytes_at len fmt st.mem) st.out h))
        (Within-bind n (consume fuel p plain_spec st.mem st.args) _ (λ d.
          Within-then n (run_conversion fuel n d.1 d.2 _) _
            (run_conversion-Within fuel n d.1 d.2 _
              (write-length n (bytes_at (p - fmt) fmt st.mem) st.out h))
            (λ st'' h''. print_from-Within fuel n (d.0 + 1) st'' h'')))))

-- The bytes on the stream, if the run ends.
abbrev pub Bounded : ℕ → Run (Printer × List ℕ) → Type 0
Bounded n (done (st, out)) = (length st.out < n) × (length out ≤ n)
Bounded n missing = Unit {0}
Bounded n out_of_fuel = Unit {0}

-- For a bound n of 1 to 2^64 - 1, whatever the format and the arguments: if vfnprintf ends, it has
-- printed fewer than n bytes to its stream, and n at most with the zero byte at the end, not
-- counting the text that standard output gets about a character that is no conversion.
pub vfnprintf-Bounded :
    (fuel n format : ℕ) (args : List ℕ) (mem : Bytes)
    → 0 < n
    → n < 2 ^ 64
    → Bounded n (vfnprintf fuel n format args mem)
unfolding vfnprintf
vfnprintf-Bounded fuel n format args mem p b = finish (print_from fuel (sub64 n 1) format _) (
    print_from-Within fuel (sub64 n 1) format
      (record { mem = mem; args = args; out = []; reported = [] }) (omega arith))
  where
    finish :
        (r : Run Printer)
        → Within (sub64 n 1) r
        → Bounded n (r >>= (λ st. done (st, st.out ++ 0 ∷ [])))
    finish (done st) h = omega (arith, length-append {0} st.out (0 ∷ []))
    finish missing h = tt
    finish out_of_fuel h = tt
