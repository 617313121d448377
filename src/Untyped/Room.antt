-- ===== src/Untyped/Room.antt =====
-- The check that an untyped capability has room.
use native.Mathlib.Nat.{
  pow-suc, mul-mod_left, lt-div-mul-add, one-le-pow, mod-eq_of_lt, pow-le-pow_right,
}
use untitled_bare_metal.Base.{
  ℕ, zero, suc, ◌+◌, ◌-◌, ◌*◌, ◌/◌, ◌%◌, ◌^◌, ◌≤◌, ◌<◌, ◌≡◌, false, arith, ltb, ap, ◌∙◌, ◌↔◌,
}
use untitled_bare_metal.Region.{bit}
use untitled_bare_metal.Untyped.{align_up, total_size, available_memory}

div-below : (m a q : ℕ) → m < (q + 1) * a → m / a ≤ q
div-below m a q lt = grind arith

-- Rounding up reaches the next multiple, and stays below a multiple.
pub align_up-le :
    (x a q : ℕ)
    → 0 < a
    → x ≤ q * a
    → q * a ≤ 2 ^ 63
    → a ≤ 2 ^ 63
    → (x ≤ align_up x a) × (align_up x a ≤ q * a) × (align_up x a % a ≡ 0)
unfolding align_up
align_up-le x a q pos le small small' =
    rw whole
      (omega (arith, lt-div-mul-add {a = x + a - 1} pos), up, mul-mod_left ((x + a - 1) / a) a)
  where
    whole : (x + a - 1) % 2 ^ 64 ≡ x + a - 1
    whole = mod-eq_of_lt (omega arith)

    up : (x + a - 1) / a * a ≤ q * a
    up = grind (arith, div-below (x + a - 1) a q)

pub pow_split : (j d : ℕ) → 2 ^ (j + d) ≡ 2 ^ d * 2 ^ j
pow_split j zero = omega (arith, ap (λ (t : ℕ). 2 ^ t) e)
  where
    e : j + 0 ≡ j
    e = omega arith
pow_split j (suc d) = omega (
  arith,
  ap (λ (t : ℕ). 2 ^ t) e,
  pow-suc 2 (j + d),
  pow-suc 2 d,
  pow_split j d,
  ap (λ (t : ℕ). t * 2 ^ j) (pow-suc 2 d),
)
  where
    e : j + suc d ≡ suc (j + d)
    e = omega arith

-- The one positive multiple of `a` up to `a`.
multiple : (x a : ℕ) → 0 < x → x ≤ a → x % a ≡ 0 → x ≡ a
multiple x a pos le e = grind (arith, mod-eq_of_lt)

pub below_top : (n : ℕ) → n < 64 → 2 ^ n ≤ 2 ^ 63
below_top n lt = pow-le-pow_right {n = 2} (omega arith) {j = 63} (omega arith)

-- The offset of the first new object.
pub align_up-size :
    (n j badge : ℕ)
    → n < 64
    → j ≤ n
    → badge ≤ 2 ^ n
    → (badge ≤ align_up badge (2 ^ j))
      × (align_up badge (2 ^ j) ≤ 2 ^ n)
      × (align_up badge (2 ^ j) % 2 ^ j ≡ 0)
align_up-size n j badge top le fits =
    let (lo, hi, al) =
      align_up-le badge (2 ^ j) (2 ^ (n - j)) (one-le-pow j 2 (omega arith)) (omega (arith, split))
        (omega (arith, split, below_top n top)) (below_top j (omega arith)) in
    (lo, omega (arith, split), al)
  where
    split : 2 ^ n ≡ 2 ^ (n - j) * 2 ^ j
    split = ap (λ (t : ℕ). 2 ^ t) (omega arith) ∙ pow_split j (n - j)

-- For objects of 2^j bytes no larger than the untyped memory of 2^n bytes, n below 64, a mark
-- within the memory, and a total that does not wrap, the memory check of untyped_retype passes
-- exactly when the objects fit between the aligned mark and the end of the memory.
pub retype-fits :
    (n j badge num : ℕ)
    → n < 64
    → j ≤ n
    → badge ≤ 2 ^ n
    → 2 ^ j * num < 2 ^ 64
    → (ltb (available_memory n badge (2 ^ j)) (total_size (2 ^ j) num) ≡ false)
      ↔ (align_up badge (2 ^ j) + 2 ^ j * num ≤ 2 ^ n)
unfolding available_memory
retype-fits n j badge num top le fits total =
    let (lo, hi, al) = align_up-size n j badge top le fits in
    ground (arith, exact, sum, below_top n top)
  where
    exact : bit n ≡ 2 ^ n
    exact = ap (λ (t : ℕ). 2 ^ t) (mod-eq_of_lt top)

    sum : total_size (2 ^ j) num ≡ 2 ^ j * num
    sum = mod-eq_of_lt total

-- For objects of 2^j bytes larger than the untyped memory of 2^n bytes, with a mark above 0 and
-- within the memory, the memory check of untyped_retype passes although the objects end behind the
-- memory.
retype-oversized :
    (n j badge num : ℕ)
    → n < j
    → j < 64
    → 0 < badge
    → badge ≤ 2 ^ n
    → 2 ^ j * (num + 1) < 2 ^ 64
    → (ltb (available_memory n badge (2 ^ j)) (total_size (2 ^ j) num) ≡ false)
      × (2 ^ n < align_up badge (2 ^ j) + 2 ^ j * num)
unfolding available_memory
retype-oversized n j badge num lt top pos fits total = ground (arith, offset, smaller, exact, sum)
  where
    smaller : 2 ^ n < 2 ^ j
    smaller = omega (
      arith,
      pow-suc 2 n,
      one-le-pow n 2 (omega arith),
      pow-le-pow_right {n = 2} (omega arith) {i = suc n} {j = j} (omega arith),
    )

    offset : align_up badge (2 ^ j) ≡ 2 ^ j
    offset =
        let (lo, hi, al) =
          align_up-le badge (2 ^ j) 1 (one-le-pow j 2 (omega arith)) (omega (arith, smaller))
            (omega (arith, below_top j top)) (below_top j top) in
        multiple (align_up badge (2 ^ j)) (2 ^ j) (omega arith) (omega arith) al

    exact : bit n ≡ 2 ^ n
    exact = ap (λ (t : ℕ). 2 ^ t) (mod-eq_of_lt (omega arith))

    sum : total_size (2 ^ j) num ≡ 2 ^ j * num
    sum = mod-eq_of_lt (omega arith)
