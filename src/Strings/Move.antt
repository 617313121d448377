-- ===== src/Strings/Move.antt =====
-- What copying does to memory.
use untitled_bare_metal.Base.{
  ℕ, zero, suc, ◌+◌, ◌≤◌, ◌<◌, ◌≡◌, refl, ◌∙◌, ◌⊎◌, inl, inr, ==_iff, update, lt→ltb, le→ltb,
  dec_lt, arith,
}
use untitled_bare_metal.Strings.{Bytes, memcpy, memmove, copy_backwards}

-- The bytes that stood in the source are in the destination, and all others are as before.
pub record Moved (n dest src : ℕ) (mem mem' : Bytes) : Type 0 where
  pub moved : (i : ℕ) → i < n → mem' (dest + i) ≡ mem (src + i)
  pub below : (a : ℕ) → a < dest → mem' a ≡ mem a
  pub behind : (a : ℕ) → dest + n ≤ a → mem' a ≡ mem a

-- Forwards, from behind the destination or from elsewhere.
memcpy-below : (n dest src a : ℕ) (mem : Bytes) → a < dest → memcpy n dest src mem a ≡ mem a
unfolding memcpy
memcpy-below zero dest src a mem h = refl
memcpy-below (suc n) dest src a mem h =
    ground (arith, memcpy-below n (dest + 1) (src + 1) a (update mem dest (mem src)) (omega arith))

memcpy-behind : (n dest src a : ℕ) (mem : Bytes) → dest + n ≤ a → memcpy n dest src mem a ≡ mem a
unfolding memcpy
memcpy-behind zero dest src a mem h = refl
memcpy-behind (suc n) dest src a mem h =
    ground (arith, memcpy-behind n (dest + 1) (src + 1) a (update mem dest (mem src)) (omega arith))

memcpy-moved :
    (n dest src i : ℕ) (mem : Bytes)
    → (dest ≤ src) ⊎ (src + n ≤ dest)
    → i < n
    → memcpy n dest src mem (dest + i) ≡ mem (src + i)
unfolding memcpy
memcpy-moved zero dest src i mem d h = absurd (omega arith)
memcpy-moved (suc n) dest src zero mem d h =
    let here : dest + 0 ≡ dest = omega arith in
    let there : src + 0 ≡ src = omega arith in
    rw (here, there)
      (memcpy-below n (dest + 1) (src + 1) dest (update mem dest (mem src)) (omega arith)
        ∙ rw ((==_iff dest dest).1 refl) refl)
memcpy-moved (suc n) dest src (suc i) mem d h =
    let there : dest + suc i ≡ dest + 1 + i = omega arith in
    let from : src + suc i ≡ src + 1 + i = omega arith in
    rw (there, from)
      (memcpy-moved n (dest + 1) (src + 1) i (update mem dest (mem src)) (later d) (omega arith)
        ∙ other d)
  where
    later : (dest ≤ src) ⊎ (src + suc n ≤ dest) → (dest + 1 ≤ src + 1) ⊎ (src + 1 + n ≤ dest + 1)
    later (inl le) = inl (omega arith)
    later (inr le) = inr (omega arith)

    other :
        (dest ≤ src) ⊎ (src + suc n ≤ dest)
        → update mem dest (mem src) (src + 1 + i) ≡ mem (src + 1 + i)
    other (inl le) = ground arith
    other (inr le) = ground arith

pub memcpy-Moved :
    (n dest src : ℕ) (mem : Bytes)
    → (dest ≤ src) ⊎ (src + n ≤ dest)
    → Moved n dest src mem (memcpy n dest src mem)
memcpy-Moved n dest src mem d = record {
  moved = λ i lt. memcpy-moved n dest src i mem d lt;
  below = λ a lt. memcpy-below n dest src a mem lt;
  behind = λ a le. memcpy-behind n dest src a mem le;
}

-- Backwards, from in front of the destination.
backwards-outside :
    (n dest src a : ℕ) (mem : Bytes)
    → (a < dest) ⊎ (dest + n ≤ a)
    → copy_backwards n dest src mem a ≡ mem a
unfolding copy_backwards
backwards-outside zero dest src a mem h = refl
backwards-outside (suc n) dest src a mem (inl h) =
    backwards-outside n dest src a (update mem (dest + n) (mem (src + n))) (inl h) ∙ ground arith
backwards-outside (suc n) dest src a mem (inr h) =
    backwards-outside n dest src a (update mem (dest + n) (mem (src + n))) (inr (omega arith))
    ∙ ground arith

backwards-moved :
    (n dest src i : ℕ) (mem : Bytes)
    → src ≤ dest
    → i < n
    → copy_backwards n dest src mem (dest + i) ≡ mem (src + i)
unfolding copy_backwards
backwards-moved zero dest src i mem le h = absurd (omega arith)
backwards-moved (suc n) dest src i mem le h = elim (dec_lt i n) [
  | yes below ↦
      backwards-moved n dest src i (update mem (dest + n) (mem (src + n))) le below ∙ ground arith
  | no last ↦
      let same : i ≡ n = omega arith in
      rw same (
        backwards-outside n dest src (dest + n) (update mem (dest + n) (mem (src + n)))
          (inr (omega arith))
        ∙ rw ((==_iff (dest + n) (dest + n)).1 refl) refl)
]

-- For any addresses, overlapping or not, memmove puts the n bytes that stood in the source into the
-- destination, and leaves every byte below and behind the destination as it was.
pub memmove-Moved : (n dest src : ℕ) (mem : Bytes) → Moved n dest src mem (memmove n dest src mem)
unfolding memmove
memmove-Moved n dest src mem = elim (dec_lt dest src) [
  | yes lt ↦ rw (lt→ltb dest src lt) (memcpy-Moved n dest src mem (inl (omega arith)))
  | no ge ↦ rw (le→ltb dest src (omega arith)) (record {
    moved = λ i lt. backwards-moved n dest src i mem (omega arith) lt;
    below = λ a lt. backwards-outside n dest src a mem (inl lt);
    behind = λ a le. backwards-outside n dest src a mem (inr le);
  })
]
