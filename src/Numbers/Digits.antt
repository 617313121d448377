-- ===== src/Numbers/Digits.antt =====
-- Reading a string of digits.
use untitled_bare_metal.Base.{
  ℕ, zero, suc, ◌+◌, ◌*◌, ◌≤◌, ◌<◌, ◌^◌, ◌≡◌, refl, ap, ◌∙◌, ◌⊎◌, inl, inr, Bool, true, false, ◌==◌,
  List, [], ◌∷◌, ◌++◌, length, some, arith,
}
use untitled_bare_metal.Strings.{Bytes}
use untitled_bare_metal.Strings.Compare.{IsString}
use untitled_bare_metal.Numbers.{
  isspace, is_x, skip_space, base_prefix, digit_value, read_digits, read_sign, signed, strtol,
  reading, with_sign,
}

-- The number that digits stand for, the first one the highest, behind a number read before.
abbrev pub value : (base acc : ℕ) → List ℕ → ℕ
value base acc [] = acc
value base acc (c ∷ cs) = value base (acc * base + digit_value c) cs

abbrev pub AreDigits : ℕ → List ℕ → Type 0
AreDigits base [] = Unit {0}
AreDigits base (c ∷ cs) = (digit_value c < base) × AreDigits base cs

value-ge : (base acc : ℕ) (cs : List ℕ) → 0 < base → acc ≤ value base acc cs
value-ge base acc [] h = omega arith
value-ge base acc (c ∷ cs) h =
    let more : acc ≤ acc * base = grind arith in
    omega (arith, more, value-ge base (acc * base + digit_value c) cs h)

end_of_string : digit_value 0 ≡ 36
unfolding digit_value
end_of_string = refl

read_digits-stop :
    (fuel base acc p : ℕ) (mem : Bytes)
    → mem p ≡ 0
    → read_digits (suc fuel) base acc p mem ≡ reading acc p
unfolding read_digits
read_digits-stop fuel base acc p mem e = ground (arith, end_of_string, ap digit_value e)

read_digits-step :
    (fuel base acc p : ℕ) (mem : Bytes)
    → digit_value (mem p) < base
    → base ≤ 36
    → acc * base + digit_value (mem p) < 2 ^ 63
    → read_digits (suc fuel) base acc p mem
      ≡ read_digits fuel base (acc * base + digit_value (mem p)) (p + 1) mem
unfolding read_digits
read_digits-step fuel base acc p mem d b v = ground arith

read_digits-value :
    (fuel base acc : ℕ) (cs : List ℕ) (p : ℕ) (mem : Bytes)
    → IsString mem p cs
    → AreDigits base cs
    → 0 < base
    → base ≤ 36
    → value base acc cs < 2 ^ 63
    → length cs < fuel
    → read_digits fuel base acc p mem ≡ reading (value base acc cs) (p + length cs)
read_digits-value zero base acc cs p mem s d b b' v f = absurd (omega arith)
read_digits-value (suc fuel) base acc [] p mem s d b b' v f =
    let here : p + 0 ≡ p = omega arith in rw here (read_digits-stop fuel base acc p mem s)
read_digits-value (suc fuel) base acc (c ∷ cs) p mem (e, ne, s) (d, ds) b b' v f =
    let behind : p + 1 + length cs ≡ p + suc (length cs) = omega arith in
    read_digits-step fuel base acc p mem (rw e d) b'
      (rw e (omega (arith, v, value-ge base (acc * base + digit_value c) cs b)))
    ∙ rw e (
        read_digits-value fuel base (acc * base + digit_value c) cs (p + 1) mem s ds b b' v
          (omega arith))
    ∙ ap (λ (q : ℕ). reading (value base (acc * base + digit_value c) cs) q) behind

-- A byte that can begin a number without a sign, or end it.
plain :
    (c : ℕ)
    → (c ≡ 0) ⊎ (digit_value c < 36)
    → (isspace c ≡ false) × ((c == b'-') ≡ false) × ((c == b'+') ≡ false)
unfolding digit_value
plain c (inl e) = ground arith
plain c (inr d) = ground arith

no_x : (c : ℕ) → digit_value c < 16 → is_x c ≡ false
unfolding digit_value
no_x c d = ground arith

first_byte :
    (base : ℕ) (cs : List ℕ) (p : ℕ) (mem : Bytes)
    → IsString mem p cs
    → AreDigits base cs
    → base ≤ 36
    → (mem p ≡ 0) ⊎ (digit_value (mem p) < 36)
first_byte base [] p mem s d b = inl s
first_byte base (c ∷ cs) p mem (e, ne, s) (d, ds) b = inr (rw e (omega arith))

base_prefix-none :
    (base : ℕ) (cs : List ℕ) (p : ℕ) (mem : Bytes)
    → IsString mem p cs
    → AreDigits base cs
    → 0 < base
    → base_prefix base p mem ≡ (base, p)
unfolding base_prefix
base_prefix-none base [] p mem s d b = ground arith
base_prefix-none base (c ∷ []) p mem (e, ne, s) (d, ds) b = ground arith
base_prefix-none base (c ∷ x ∷ cs) p mem (e, ne, (e', _, s)) (d, (d', ds)) b =
    ground (arith, no_x x)

skip_space-none :
    (fuel p : ℕ) (mem : Bytes) → 0 < fuel → isspace (mem p) ≡ false → skip_space fuel p mem ≡ some p
unfolding skip_space
skip_space-none zero p mem f h = absurd (omega arith)
skip_space-none (suc fuel) p mem f h = rw h

minus_sign : (p : ℕ) (mem : Bytes) → mem p ≡ b'-' → read_sign p mem ≡ (true, p + 1)
unfolding read_sign
minus_sign p mem e = rw e refl

no_sign :
    (p : ℕ) (mem : Bytes)
    → (mem p == b'-') ≡ false
    → (mem p == b'+') ≡ false
    → read_sign p mem ≡ (false, p)
unfolding read_sign
no_sign p mem m q = ground arith

-- The digits are read behind the sign and the prefix.
strtol-steps :
    (fuel base p : ℕ) (mem : Bytes) (negative : Bool) (q : ℕ)
    → 0 < fuel
    → isspace (mem p) ≡ false
    → read_sign p mem ≡ (negative, q)
    → base_prefix base q mem ≡ (base, q)
    → strtol fuel p base mem ≡ with_sign negative (read_digits fuel base 0 q mem)
unfolding strtol
strtol-steps fuel base p mem negative q f h s e =
    rw (skip_space-none fuel p mem f h, strtol) (rw s (rw e refl))

-- The sign in front of a number.
abbrev pub sign : Bool → List ℕ
sign true = b'-' ∷ []
sign false = []

pub strtol-signed :
    (fuel base : ℕ) (negative : Bool) (cs : List ℕ) (p : ℕ) (mem : Bytes)
    → IsString mem p (sign negative ++ cs)
    → AreDigits base cs
    → 0 < base
    → base ≤ 36
    → value base 0 cs < 2 ^ 63
    → length cs < fuel
    → strtol fuel p base mem
      ≡ reading (signed negative (value base 0 cs)) (p + length (sign negative ++ cs))
strtol-signed fuel base true cs p mem (e, _, s) d b b' v f =
    let behind : p + 1 + length cs ≡ p + suc (length cs) = omega arith in
    strtol-steps fuel base p mem true (p + 1) (omega arith) (rw e refl) (minus_sign p mem e)
      (base_prefix-none base cs (p + 1) mem s d b)
    ∙ rw (read_digits-value fuel base 0 cs (p + 1) mem s d b b' v f) (rw behind refl)
strtol-signed fuel base false cs p mem s d b b' v f =
    let (space, minus, plus) = plain (mem p) (first_byte base cs p mem s d b') in
    strtol-steps fuel base p mem false p (omega arith) space (no_sign p mem minus plus)
      (base_prefix-none base cs p mem s d b)
    ∙ rw (read_digits-value fuel base 0 cs p mem s d b b' v f) refl
