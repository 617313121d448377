-- ===== src/Print/Plain.antt =====
-- Formats without a directive, and with one sign '%' at the end.
use mathlib.Core.List.{append-nil}
use untitled_bare_metal.Base.{
  ℕ, zero, suc, ◌+◌, ◌-◌, ◌<◌, ◌^◌, ◌≡◌, ◌≢◌, refl, sym, ap, ◌∙◌, false, ◌==◌, sub64, List, [], ◌∷◌,
  ◌++◌, length, arith, some,
}
use untitled_bare_metal.Strings.{Bytes, strchr}
use untitled_bare_metal.Strings.Compare.{IsString, strlen-length}
use untitled_bare_metal.Print.{take, write}
use untitled_bare_metal.Print.Layout.{take-nil, write-take}
use untitled_bare_metal.Print.Format.{
  Run, done, ◌>>=◌, Printer, percent, consume, run_conversion, print_rest, print_from, vfnprintf,
  bytes_at, plain_spec,
}

-- No directive begins in the string.
abbrev pub IsPlain : List ℕ → Type 0
IsPlain [] = Unit {0}
IsPlain (c ∷ cs) = (c ≢ b'%') × IsPlain cs

bytes_at-IsString :
    (s : List ℕ) (p : ℕ) (mem : Bytes) → IsString mem p s → bytes_at (length s) p mem ≡ s
bytes_at-IsString [] p mem h = refl
bytes_at-IsString (c ∷ cs) p mem (e, _, h) = cc (e, bytes_at-IsString cs (p + 1) mem h)

strchr-plain :
    (fuel : ℕ) (s : List ℕ) (p : ℕ) (mem : Bytes)
    → IsString mem p s
    → IsPlain s
    → length s < fuel
    → strchr fuel p b'%' mem ≡ some 0
unfolding strchr
strchr-plain zero s p mem h n f = absurd (omega arith)
strchr-plain (suc fuel) [] p mem h n f = rw h refl
strchr-plain (suc fuel) (c ∷ cs) p mem (e, ne, h) (o, n) f =
    rw e (ground (arith, strchr-plain fuel cs (p + 1) mem h n (omega arith)))

strchr-percent :
    (fuel : ℕ) (s : List ℕ) (p : ℕ) (mem : Bytes)
    → IsString mem p (s ++ b'%' ∷ [])
    → IsPlain s
    → length s < fuel
    → strchr fuel p b'%' mem ≡ some (p + length s)
unfolding strchr
strchr-percent zero s p mem h n f = absurd (omega arith)
strchr-percent (suc fuel) [] p mem (e, _, h) n f =
    let here : p + 0 ≡ p = omega arith in rw (here, e) refl
strchr-percent (suc fuel) (c ∷ cs) p mem (e, ne, h) (o, n) f =
    let there : p + suc (length cs) ≡ p + 1 + length cs = omega arith in
    rw (there, e) (ground (arith, strchr-percent fuel cs (p + 1) mem h n (omega arith)))

-- What stands in front of the sign.
bytes_at-percent :
    (s : List ℕ) (p : ℕ) (mem : Bytes)
    → IsString mem p (s ++ b'%' ∷ [])
    → (bytes_at (length s) p mem ≡ s) × (mem (p + length s + 1) ≡ 0)
bytes_at-percent [] p mem (_, _, e) =
    (refl, let here : p + 0 + 1 ≡ p + 1 = omega arith in rw here e)
bytes_at-percent (c ∷ cs) p mem (e, _, h) =
    let (rest, stop) = bytes_at-percent cs (p + 1) mem h in
    let there : p + suc (length cs) + 1 ≡ p + 1 + length cs + 1 = omega arith in
    (cc (e, rest), rw there stop)

abbrev printed : Printer → ℕ → List ℕ → Printer
printed st n out = record st { out = take n out }

print_rest-plain :
    (fuel n : ℕ) (s : List ℕ) (p : ℕ) (st : Printer) (out : List ℕ)
    → IsString st.mem p s
    → length s < fuel
    → print_rest fuel n p (printed st n out) ≡ done (printed st n (out ++ s))
print_rest-plain fuel n s p st out h f =
    rw (strlen-length fuel s p st.mem h f, bytes_at-IsString s p st.mem h)
      (ap (λ (l : List ℕ). done (record st { out = l })) (write-take n s out))

print_from-plain :
    (fuel n : ℕ) (s : List ℕ) (p : ℕ) (st : Printer) (out : List ℕ)
    → IsString st.mem p s
    → IsPlain s
    → length s < fuel
    → print_from (suc fuel) n p (printed st n out) ≡ done (printed st n (out ++ s))
unfolding print_from
print_from-plain fuel n [] p st out h pl f =
    rw h (ap (λ (l : List ℕ). done (printed st n l)) (sym (append-nil out)))
print_from-plain fuel n (c ∷ cs) p st out (e, ne, h) pl f =
    let more : (st.mem p == 0) ≡ false = ground arith in
    rw (more, strchr-plain fuel (c ∷ cs) p st.mem (e, ne, h) pl f)
      (print_rest-plain fuel n (c ∷ cs) p st out (e, ne, h) f)

first_byte :
    (s : List ℕ) (p : ℕ) (mem : Bytes) → IsString mem p (s ++ b'%' ∷ []) → (mem p == 0) ≡ false
first_byte [] p mem (e, ne, h) = ground arith
first_byte (c ∷ cs) p mem (e, ne, h) = ground arith

not_null : (p : ℕ) → 0 < p → (p == 0) ≡ false
not_null p h = ground arith

consume-end :
    (fuel p : ℕ) (mem : Bytes) (args : List ℕ)
    → 0 < fuel
    → mem (p + 1) ≡ 0
    → consume fuel p plain_spec mem args ≡ done (p + 1, plain_spec, percent, args)
unfolding consume
consume-end zero p mem args f h = absurd (omega arith)
consume-end (suc fuel) p mem args f h = rw (h, consume) refl

-- A directive that is the sign alone, behind `s`.
print_from-percent :
    (fuel n : ℕ) (s : List ℕ) (p : ℕ) (st : Printer) (out : List ℕ)
    → IsString st.mem p (s ++ b'%' ∷ [])
    → IsPlain s
    → 0 < p
    → suc (length s) < fuel
    → print_from (suc fuel) n p (printed st n out)
      ≡ print_from fuel n (p + length s + 2) (printed st n ((out ++ s) ++ b'%' ∷ []))
unfolding print_from run_conversion
print_from-percent fuel n s p st out h pl pos f =
    let len : p + length s - p ≡ length s = omega arith in
    let behind : p + length s + 1 + 1 ≡ p + length s + 2 = omega arith in
    let (before, stop) = bytes_at-percent s p st.mem h in
    let text = write-take n s out in
    let sign = write-take n (b'%' ∷ []) (out ++ s) in
    rw
      (
        first_byte s p st.mem h,
        strchr-percent fuel s p st.mem h pl (omega arith),
        not_null (p + length s) (omega arith),
        consume-end fuel (p + length s) st.mem st.args (omega arith) stop,
      )
      (rw (len, behind, before)
        (ap
            (λ (l : List ℕ).
              print_from fuel n (p + length s + 2) (record st { out = write n (b'%' ∷ []) l }))
            text
          ∙ ap (λ (l : List ℕ). print_from fuel n (p + length s + 2) (record st { out = l })) sign))

-- The call, from what the loop prints.
module _ (n p : ℕ) (args : List ℕ) (mem : Bytes) (pos : 0 < n) (b : n < 2 ^ 64) where
  abbrev start : Printer
  start = record { mem = mem; args = args; out = []; reported = [] }

  abbrev finish : Printer → Run (Printer × List ℕ)
  finish st = done (st, st.out ++ 0 ∷ [])

  vfnprintf-print_from :
      (fuel : ℕ) (out : List ℕ)
      → print_from fuel (n - 1) p (printed start (n - 1) []) ≡ done (printed start (n - 1) out)
      → vfnprintf fuel n p args mem ≡ finish (printed start (n - 1) out)
  unfolding vfnprintf
  vfnprintf-print_from fuel out h =
      let bound : sub64 n 1 ≡ n - 1 = omega arith in
      let empty : take (n - 1) [] ≡ [] = take-nil (n - 1) in
      rw bound (
        ap (λ (l : List ℕ). print_from fuel (n - 1) p (record start { out = l }) >>= finish)
          (sym empty)
        ∙ ap (λ (r : Run Printer). r >>= finish) h)

-- Without a directive the format is printed, as far as the bound lets it.
pub vfnprintf-plain :
    (fuel n : ℕ) (s : List ℕ) (p : ℕ) (args : List ℕ) (mem : Bytes)
    → IsString mem p s
    → IsPlain s
    → length s + 1 < fuel
    → 0 < n
    → n < 2 ^ 64
    → vfnprintf fuel n p args mem
      ≡ done (
        record { mem = mem; args = args; out = take (n - 1) s; reported = [] },
        take (n - 1) s ++ 0 ∷ [],
      )
vfnprintf-plain zero n s p args mem h pl f pos b = absurd (omega arith)
vfnprintf-plain (suc fuel) n s p args mem h pl f pos b =
    vfnprintf-print_from n p args mem pos b (suc fuel) s
      (print_from-plain fuel (n - 1) s p (start n p args mem pos b) [] h pl (omega arith))

-- If a format without other directives ends in a percent sign, and a string without directives lies
-- behind its terminating byte, then vfnprintf prints the format and that string, as far as the
-- bound lets it, and ends, given fuel above the length of both and 3 more.
pub vfnprintf-past_end :
    (fuel n : ℕ) (s t : List ℕ) (p : ℕ) (args : List ℕ) (mem : Bytes)
    → IsString mem p (s ++ b'%' ∷ [])
    → IsString mem (p + length s + 2) t
    → IsPlain s
    → IsPlain t
    → 0 < p
    → length s + length t + 3 < fuel
    → 0 < n
    → n < 2 ^ 64
    → vfnprintf fuel n p args mem
      ≡ done (
        record {
          mem = mem;
          args = args;
          out = take (n - 1) ((s ++ b'%' ∷ []) ++ t);
          reported = [];
        },
        take (n - 1) ((s ++ b'%' ∷ []) ++ t) ++ 0 ∷ [],
      )
vfnprintf-past_end zero n s t p args mem h h' pl pl' pos f pos' b = absurd (omega arith)
vfnprintf-past_end (suc zero) n s t p args mem h h' pl pl' pos f pos' b = absurd (omega arith)
vfnprintf-past_end (suc (suc fuel)) n s t p args mem h h' pl pl' pos f pos' b =
    let st = start n p args mem pos' b in
    vfnprintf-print_from n p args mem pos' b (suc (suc fuel)) ((s ++ b'%' ∷ []) ++ t) (
      print_from-percent (suc fuel) (n - 1) s p st [] h pl pos (omega arith)
      ∙ print_from-plain fuel (n - 1) t (p + length s + 2) st (s ++ b'%' ∷ []) h' pl' (omega arith))
