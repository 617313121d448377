-- ===== src/Print/Layout.antt =====
-- How a number is laid out in its width, and that a bound cuts the layout off.
use mathlib.Core.List.{append_assoc, append-nil}
use untitled_bare_metal.Base.{
  ℕ, zero, suc, ◌+◌, ◌-◌, ◌≤◌, ◌≡◌, refl, sym, ap, ◌∙◌, false, ◌==◌, if◌then◌else◌, lt→ltb, le→ltb,
  dec_lt, List, [], ◌∷◌, ◌++◌, length, length-append, arith, Bool-cases, inl, inr,
}
use untitled_bare_metal.Print.{
  FormatSpec, Number, take, replicate, write, write_by, pad_from, format_pad, alternate_prefix,
  width, null_pointer, sign_len, prefix_len, number_pad_len, number_front, format_layout_int,
  format_number_sign, format_number_alternate_form, format_number,
}

pub take-nil : (n : ℕ) → take {A = ℕ} n [] ≡ []
take-nil zero = refl
take-nil (suc n) = refl

take-append_short :
    (n : ℕ) (xs ys : List ℕ)
    → length xs ≤ n
    → (take n xs ≡ xs) × (take n (xs ++ ys) ≡ xs ++ take (n - length xs) ys)
take-append_short n [] ys h = let all : n - 0 ≡ n = omega arith in (take-nil n, rw all refl)
take-append_short zero (x ∷ xs) ys h = absurd (omega arith)
take-append_short (suc n) (x ∷ xs) ys h =
    let (e, e') = take-append_short n xs ys (omega arith) in
    let same : suc n - suc (length xs) ≡ n - length xs = omega arith in
    (ap (λ (l : List ℕ). x ∷ l) e, rw same (ap (λ (l : List ℕ). x ∷ l) e'))

take-append_long :
    (n : ℕ) (xs ys : List ℕ)
    → n ≤ length xs
    → (length (take n xs) ≡ n) × (take n (xs ++ ys) ≡ take n xs)
take-append_long zero xs ys h = (refl, refl)
take-append_long (suc n) [] ys h = absurd (omega arith)
take-append_long (suc n) (x ∷ xs) ys h =
    let (e, e') = take-append_long n xs ys (omega arith) in
    (ap suc e, ap (λ (l : List ℕ). x ∷ l) e')

-- Writing behind the first `n` bytes of what was to be written.
pub write-take : (n : ℕ) (xs out : List ℕ) → write n xs (take n out) ≡ take n (out ++ xs)
unfolding write
write-take n xs out = elim (dec_lt (length out) n) [
  | yes room ↦
      let (e, e') = take-append_short n out xs (omega arith) in
      rw (e, lt→ltb (length out) n room) (sym e')
  | no full ↦
      let (e, e') = take-append_long n out xs (omega arith) in
      rw (le→ltb (length (take n out)) n (omega (arith, e))) (sym e')
]

write_by-take :
    (n : ℕ) (f : ℕ → List ℕ) (xs out : List ℕ)
    → ((m : ℕ) → f m ≡ take m xs)
    → write_by n f (take n out) ≡ take n (out ++ xs)
write_by-take n f xs out h = elim (dec_lt (length out) n) [
  | yes room ↦
      let (e, e') = take-append_short n out xs (omega arith) in rw (e, h (n - length out)) (sym e')
  | no full ↦
      let (e, e') = take-append_long n out xs (omega arith) in
      let none : n - length (take n out) ≡ 0 = omega (arith, e) in
      rw (none, h 0, e', append-nil) refl
]

pub write-first : (n : ℕ) (xs : List ℕ) → write n xs [] ≡ take n xs
write-first n xs = rw (← take-nil n) (write-take n xs [])

pad_from-take :
    (k n c : ℕ) (out : List ℕ) → pad_from k n c (take n out) ≡ take n (out ++ replicate k c)
unfolding pad_from
pad_from-take zero n c out = rw append-nil refl
pad_from-take (suc k) n c out =
    ap (pad_from k n c) (write-take n (c ∷ []) out)
    ∙ pad_from-take k n c (out ++ c ∷ [])
    ∙ ap (take n) (append_assoc out (c ∷ []) (replicate k c))

pub format_pad-take :
    (spec : FormatSpec) (k n : ℕ) → format_pad spec k n ≡ take n (replicate k spec.padding_char)
unfolding format_pad
format_pad-take spec k n =
    let c = spec.padding_char in ap (pad_from k n c) (sym (take-nil n)) ∙ pad_from-take k n c []

pub sign_text : FormatSpec → Number → List ℕ
sign_text spec number =
    if number.negative
    then b'-' ∷ []
    else if spec.print_plus
    then b'+' ∷ []
    else if spec.leave_space
    then b' ' ∷ []
    else []

pub prefix_text : FormatSpec → List ℕ
prefix_text spec = if spec.alternate_form then alternate_prefix spec.base else []

-- What stands in front of the digits.
pub front_text : FormatSpec → Number → List ℕ
front_text spec number =
    if null_pointer spec number then [] else sign_text spec number ++ prefix_text spec

-- The whole layout, without a bound.
pub laid_out : FormatSpec → Number → List ℕ
laid_out spec number =
    let digits = format_layout_int spec number in
    let front = front_text spec number in
    let pads = replicate (number_pad_len spec number) spec.padding_char in
    if spec.padding_width == 0
    then front ++ digits
    else if spec.left_justify
    then (front ++ digits) ++ pads
    else if spec.padding_char == b'0'
    then (front ++ pads) ++ digits
    else (pads ++ front) ++ digits

module _ (spec : FormatSpec) (number : Number) where
  sign-take : (n : ℕ) → format_number_sign spec number n ≡ take n (sign_text spec number)
  unfolding format_number_sign sign_text
  sign-take n = ground (
    arith,
    write-first n (b'-' ∷ []),
    write-first n (b'+' ∷ []),
    write-first n (b' ' ∷ []),
    take-nil n,
  )

  prefix-take : (n : ℕ) → format_number_alternate_form spec n ≡ take n (prefix_text spec)
  unfolding format_number_alternate_form prefix_text
  prefix-take n = ground (arith, write-first n (alternate_prefix spec.base), take-nil n)

  front-take :
      (n : ℕ) (out : List ℕ)
      → number_front spec number n (take n out) ≡ take n (out ++ front_text spec number)
  unfolding number_front front_text
  front-take n out = elim (Bool-cases (null_pointer spec number)) [
    | inl null ↦ rw null (ap (take n) (sym (append-nil out)))
    | inr other ↦ rw other (
        ap (write_by n (format_number_alternate_form spec))
          (write_by-take n (format_number_sign spec number) (sign_text spec number) out sign-take)
        ∙ write_by-take n (format_number_alternate_form spec) (prefix_text spec)
            (out ++ sign_text spec number) prefix-take
        ∙ ap (take n) (append_assoc out (sign_text spec number) (prefix_text spec)))
  ]

  front-first : (n : ℕ) → number_front spec number n [] ≡ take n (front_text spec number)
  front-first n = ap (number_front spec number n) (sym (take-nil n)) ∙ front-take n []

  -- Padding behind what is written.
  pad-take :
      (n k : ℕ) (out : List ℕ)
      → write_by n (format_pad spec k) (take n out) ≡ take n (out ++ replicate k spec.padding_char)
  pad-take n k out =
      write_by-take n (format_pad spec k) (replicate k spec.padding_char) out
        (format_pad-take spec k)

  pub format_number-take : (n : ℕ) → format_number spec number n ≡ take n (laid_out spec number)
  unfolding format_number laid_out
  format_number-take n = elim (Bool-cases (spec.padding_width == 0)) [
    | inl narrow ↦ simp narrow (ap (write n digits) (front-first n) ∙ write-take n digits front)
    | inr wide ↦ simp wide (elim (Bool-cases spec.left_justify) [
      | inl left ↦ simp left (
          ap pad (ap (write n digits) (front-first n) ∙ write-take n digits front)
          ∙ pad-take n k (front ++ digits))
      | inr right ↦ simp right (elim (Bool-cases (spec.padding_char == b'0')) [
        | inl zeros ↦ simp zeros (
            ap (λ (l : List ℕ). write n digits (pad l)) (front-first n)
            ∙ ap (write n digits) (pad-take n k front)
            ∙ write-take n digits (front ++ pads))
        | inr blanks ↦ simp blanks (
            ap (λ (l : List ℕ). write n digits (number_front spec number n (pad l)))
              (sym (take-nil n))
            ∙ ap (λ (l : List ℕ). write n digits (number_front spec number n l)) (pad-take n k [])
            ∙ ap (write n digits) (front-take n pads)
            ∙ write-take n digits (pads ++ front))
      ])
    ])
  ]
    where
      digits : List ℕ
      digits = format_layout_int spec number

      front : List ℕ
      front = front_text spec number

      k : ℕ
      k = number_pad_len spec number

      pads : List ℕ
      pads = replicate k spec.padding_char

      pad : List ℕ → List ℕ
      pad = write_by n (format_pad spec k)

length-replicate : (k c : ℕ) → length (replicate k c) ≡ k
length-replicate zero c = refl
length-replicate (suc k) c = ap suc (length-replicate k c)

-- The sign and the prefix take what number_pad_len counts for them.
length-front_text :
    (spec : FormatSpec) (number : Number)
    → null_pointer spec number ≡ false
    → length (front_text spec number) ≡ sign_len spec number + prefix_len spec number
unfolding front_text sign_text prefix_text
length-front_text spec number h =
    simp h (ground (arith, length-append {0} (sign_text spec number) (prefix_text spec)))

number_pad_len-front :
    (spec : FormatSpec) (number : Number)
    → null_pointer spec number ≡ false
    → number_pad_len spec number
      ≡ width spec.padding_width
        - (length (front_text spec number) + length (format_layout_int spec number))
unfolding number_pad_len
number_pad_len-front spec number h = omega (arith, length-front_text spec number h)

-- The three orders of three texts have one length.
length_three : (xs ys zs : List ℕ) → length ((xs ++ ys) ++ zs) ≡ length xs + length ys + length zs
length_three xs ys zs = omega (arith, length-append {0} (xs ++ ys) zs, length-append {0} xs ys)

-- For a number that is no null pointer, format_number writes the first n bytes of one text: the
-- sign, the prefix and the digits, with the padding behind, in front, or between prefix and digits.
-- That text is as long as the width, or as the number where that is longer.
pub format_number-Laid :
    (spec : FormatSpec) (number : Number)
    → null_pointer spec number ≡ false
    → ((n : ℕ) → format_number spec number n ≡ take n (laid_out spec number))
      × (length (laid_out spec number)
          ≡ length (front_text spec number ++ format_layout_int spec number)
            + (width spec.padding_width
                - length (front_text spec number ++ format_layout_int spec number)))
unfolding laid_out
format_number-Laid spec number h = (
  format_number-take spec number,
  elim (Bool-cases (spec.padding_width == 0)) [
    | inl narrow ↦
        let none : width spec.padding_width ≡ 0 = ground arith in simp (narrow, none) (omega arith)
    | inr wide ↦ simp wide (elim (Bool-cases spec.left_justify) [
      | inl left ↦ simp left (omega (arith, both, padded, length_three front digits pads))
      | inr right ↦ simp right (elim (Bool-cases (spec.padding_char == b'0')) [
        | inl zeros ↦ simp zeros (omega (arith, both, padded, length_three front pads digits))
        | inr blanks ↦ simp blanks (omega (arith, both, padded, length_three pads front digits))
      ])
    ])
  ],
)
  where
    digits : List ℕ
    digits = format_layout_int spec number

    front : List ℕ
    front = front_text spec number

    pads : List ℕ
    pads = replicate (number_pad_len spec number) spec.padding_char

    both : length (front ++ digits) ≡ length front + length digits
    both = length-append {0} front digits

    padded : length pads ≡ width spec.padding_width - (length front + length digits)
    padded =
        length-replicate (number_pad_len spec number) spec.padding_char
        ∙ number_pad_len-front spec number h
