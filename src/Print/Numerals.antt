-- ===== src/Print/Numerals.antt =====
-- The digits of a number, and that `strtol` reads them back.
use native.Mathlib.Nat.{pow-suc}
use untitled_bare_metal.Base.{
  ℕ, zero, suc, ◌+◌, ◌*◌, ◌/◌, ◌%◌, ◌^◌, ◌≤◌, ◌<◌, ◌≡◌, refl, ap, ◌∙◌, false, ◌==◌, ==_iff, le→ltb,
  lt→ltb, dec_lt, List, [], ◌∷◌, ◌++◌, length, arith, Bool-cases, inl, inr,
}
use untitled_bare_metal.Strings.{Bytes}
use untitled_bare_metal.Strings.Compare.{IsString}
use untitled_bare_metal.Numbers.{digit_value, signed, strtol, reading}
use untitled_bare_metal.Numbers.Digits.{value, AreDigits, sign, strtol-signed}
use untitled_bare_metal.Print.{
  NumberBase, FormatSpec, Number, divisor, charset, layout_digits, format_layout_int, is_ptr,
  null_pointer,
}

charset-digit : (b : NumberBase) (i : ℕ) → i < divisor b → digit_value (charset b i) ≡ i
unfolding digit_value
charset-digit NumberBase.base_10 i h = ground arith
charset-digit NumberBase.base_16 i h = ground arith
charset-digit NumberBase.base_16_caps i h = ground arith
charset-digit NumberBase.base_8 i h = ground arith
charset-digit NumberBase.base_2 i h = ground arith
charset-digit NumberBase.base_ptr i h = ground arith

divisor_bounds : (b : NumberBase) → (0 < divisor b) × (divisor b ≤ 36)
divisor_bounds NumberBase.base_10 = omega arith
divisor_bounds NumberBase.base_16 = omega arith
divisor_bounds NumberBase.base_16_caps = omega arith
divisor_bounds NumberBase.base_8 = omega arith
divisor_bounds NumberBase.base_2 = omega arith
divisor_bounds NumberBase.base_ptr = omega arith

digit_zero : digit_value b'0' ≡ 0
unfolding digit_value
digit_zero = refl

-- One digit is taken off.
digit_off :
    (b : NumberBase) (acc : ℕ)
    → (acc / divisor b * divisor b + acc % divisor b ≡ acc)
      × (acc % divisor b < divisor b)
      × (acc / divisor b ≤ acc / 2)
digit_off NumberBase.base_10 acc = omega arith
digit_off NumberBase.base_16 acc = omega arith
digit_off NumberBase.base_16_caps acc = omega arith
digit_off NumberBase.base_8 acc = omega arith
digit_off NumberBase.base_2 acc = omega arith
digit_off NumberBase.base_ptr acc = omega arith

layout_digits-value :
    (left : ℕ) (b : NumberBase) (acc : ℕ) (ds : List ℕ)
    → acc < 2 ^ left
    → value (divisor b) 0 (layout_digits left b acc ds) ≡ value (divisor b) acc ds
unfolding layout_digits
layout_digits-value zero b acc ds h = let none : acc ≡ 0 = omega arith in rw none refl
layout_digits-value (suc left) b acc ds h = elim (dec_lt 0 acc) [
  | no none ↦ let none : acc ≡ 0 = omega arith in rw none refl
  | yes more ↦
      let (back, lt, half) = digit_off b acc in
      rw (lt→ltb 0 acc more) (
        layout_digits-value left b (acc / divisor b) (charset b (acc % divisor b) ∷ ds)
          (omega (arith, half, pow-suc 2 left))
        ∙ ap (λ (t : ℕ). value (divisor b) t ds)
            (ap (λ (t : ℕ). acc / divisor b * divisor b + t) (charset-digit b (acc % divisor b) lt)
              ∙ back))
]

layout_digits-AreDigits :
    (left : ℕ) (b : NumberBase) (acc : ℕ) (ds : List ℕ)
    → AreDigits (divisor b) ds
    → AreDigits (divisor b) (layout_digits left b acc ds)
unfolding layout_digits
layout_digits-AreDigits zero b acc ds h = h
layout_digits-AreDigits (suc left) b acc ds h = elim (dec_lt 0 acc) [
  | no none ↦ rw (le→ltb 0 acc (omega arith)) h
  | yes more ↦
      let (back, lt, half) = digit_off b acc in
      rw (lt→ltb 0 acc more) (
        layout_digits-AreDigits left b (acc / divisor b) (charset b (acc % divisor b) ∷ ds)
          (rw (charset-digit b (acc % divisor b) lt) lt, h))
]

-- The text of a number, a null pointer's apart.
format_layout_int-digits :
    (spec : FormatSpec) (number : Number)
    → null_pointer spec number ≡ false
    → number.value < 2 ^ 64
    → (value (divisor spec.base) 0 (format_layout_int spec number) ≡ number.value)
      × AreDigits (divisor spec.base) (format_layout_int spec number)
unfolding format_layout_int
format_layout_int-digits spec number h lt = elim (Bool-cases (number.value == 0)) [
  | inl nought ↦
      let other : is_ptr spec.base ≡ false = ground arith in
      simp (nought, other)
        (
          omega (arith, digit_zero, (==_iff number.value 0).0 nought),
          (omega (arith, digit_zero, divisor_bounds spec.base), tt),
        )
  | inr more ↦ simp more (
    layout_digits-value 64 spec.base number.value [] lt,
    layout_digits-AreDigits 64 spec.base number.value [] tt,
  )
]

-- For a number below 2^63 that is no null pointer, strtol in the same base does not overflow, and
-- it reads the text that format_layout_int makes of it, behind a minus sign or without one, back as
-- the number with that sign; its end is the end of the text, if the fuel exceeds the digits.
pub strtol-format_layout_int :
    (fuel : ℕ) (spec : FormatSpec) (number : Number) (p : ℕ) (mem : Bytes)
    → null_pointer spec number ≡ false
    → number.value < 2 ^ 63
    → IsString mem p (sign number.negative ++ format_layout_int spec number)
    → length (format_layout_int spec number) < fuel
    → strtol fuel p (divisor spec.base) mem
      ≡ reading
          (signed number.negative number.value)
          (p + length (sign number.negative ++ format_layout_int spec number))
strtol-format_layout_int fuel spec number p mem h lt s f =
    let (same, digits) = format_layout_int-digits spec number h (omega arith) in
    strtol-signed fuel (divisor spec.base) number.negative (format_layout_int spec number) p mem s
      digits (divisor_bounds spec.base).0 (divisor_bounds spec.base).1 (rw same lt) f
    ∙ rw same refl
