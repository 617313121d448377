-- ===== src/Strings/Compare.antt =====
-- Strings in memory as lists of bytes.
use untitled_bare_metal.Base.{
  ℕ, zero, suc, ◌+◌, ◌≤◌, ◌<◌, ◌≡◌, ◌≢◌, refl, sym, ap, ◌∙◌, ◌⊎◌, ◌↔◌, inl, inr, false, ◌==◌,
  ==_iff, if◌then◌else◌, update, List, [], ◌∷◌, length, some, arith, Bool-cases,
}
use untitled_bare_metal.Base.Int.{ℤ, pos, sub_ℕ}
use untitled_bare_metal.Strings.{Bytes, memcpy, strlen, strcpy, strcmp}
use untitled_bare_metal.Strings.Move.{Moved, memcpy-Moved}

-- The bytes at `p` are those of the list, none of them zero, and a zero byte follows.
abbrev pub IsString : Bytes → ℕ → List ℕ → Type 0
IsString mem p [] = mem p ≡ 0
IsString mem p (c ∷ cs) = (mem p ≡ c) × (c ≢ 0) × IsString mem (p + 1) cs

pub IsString-ext :
    (s : List ℕ) (p q : ℕ) (mem mem' : Bytes)
    → ((i : ℕ) → i < suc (length s) → mem' (q + i) ≡ mem (p + i))
    → IsString mem p s
    → IsString mem' q s
IsString-ext [] p q mem mem' same h =
    let at_q : q + 0 ≡ q = omega arith in
    let at_p : p + 0 ≡ p = omega arith in
    ap mem' (sym at_q) ∙ same 0 (omega arith) ∙ ap mem at_p ∙ h
IsString-ext (c ∷ cs) p q mem mem' same (first, ne, rest) =
    let at_q : q + 0 ≡ q = omega arith in
    let at_p : p + 0 ≡ p = omega arith in
    (
      ap mem' (sym at_q) ∙ same 0 (omega arith) ∙ ap mem at_p ∙ first,
      ne,
      IsString-ext cs (p + 1) (q + 1) mem mem'
          (λ i lt.
            let to : q + 1 + i ≡ q + suc i = omega arith in
            let from : p + 1 + i ≡ p + suc i = omega arith in
            ap mem' to ∙ same (suc i) (omega arith) ∙ ap mem (sym from))
          rest,
    )

pub strlen-length :
    (fuel : ℕ) (s : List ℕ) (p : ℕ) (mem : Bytes)
    → IsString mem p s
    → length s < fuel
    → strlen fuel p mem ≡ some (length s)
unfolding strlen
strlen-length zero s p mem h lt = absurd (omega arith)
strlen-length (suc fuel) [] p mem h lt = rw h refl
strlen-length (suc fuel) (c ∷ cs) p mem (first, ne, rest) lt =
    ground (arith, strlen-length fuel cs (p + 1) mem rest (omega arith))

-- The order of strings by their first difference.
abbrev pub difference : List ℕ → List ℕ → ℤ
difference [] [] = pos 0
difference [] (d ∷ ds) = sub_ℕ 0 d
difference (c ∷ cs) [] = sub_ℕ c 0
difference (c ∷ cs) (d ∷ ds) = if c == d then difference cs ds else sub_ℕ c d

difference-zero : (s : List ℕ) → difference s s ≡ pos 0
difference-zero [] = refl
difference-zero (c ∷ cs) = rw ((==_iff c c).1 refl) (difference-zero cs)

sub_ℕ-zero : (a b : ℕ) → sub_ℕ a b ≡ pos 0 → a ≡ b
sub_ℕ-zero a b h = ground arith

strcmp-difference :
    (fuel : ℕ) (s t : List ℕ) (p q : ℕ) (mem : Bytes)
    → IsString mem p s
    → IsString mem q t
    → length s < fuel
    → strcmp fuel p q mem ≡ some (difference s t)
unfolding strcmp
strcmp-difference zero s t p q mem hs ht lt = absurd (omega arith)
strcmp-difference (suc fuel) [] [] p q mem hs ht lt = rw (hs, ht) refl
strcmp-difference (suc fuel) [] (d ∷ ds) p q mem hs (e, _, _) lt = rw (hs, e) refl
strcmp-difference (suc fuel) (c ∷ cs) [] p q mem (e, ne, _) ht lt = rw (e, ht) (ground arith)
strcmp-difference (suc fuel) (c ∷ cs) (d ∷ ds) p q mem (e, ne, hs) (e', ne', ht) lt =
    rw (e, e')
      (ground (arith, strcmp-difference fuel cs ds (p + 1) (q + 1) mem hs ht (omega arith)))

difference-zero_only :
    (s t : List ℕ) (p q : ℕ) (mem : Bytes)
    → IsString mem p s
    → IsString mem q t
    → difference s t ≡ pos 0
    → s ≡ t
difference-zero_only [] [] p q mem hs ht h = refl
difference-zero_only [] (d ∷ ds) p q mem hs (_, ne, _) h = absurd (ne (sym (sub_ℕ-zero 0 d h)))
difference-zero_only (c ∷ cs) [] p q mem (_, ne, _) ht h = absurd (ne (sub_ℕ-zero c 0 h))
difference-zero_only (c ∷ cs) (d ∷ ds) p q mem (_, ne, hs) (_, ne', ht) h =
    elim (Bool-cases (c == d)) [
      | inl same ↦
          let rest : difference cs ds ≡ pos 0 = ground arith in
          cc ((==_iff c d).0 same, difference-zero_only cs ds (p + 1) (q + 1) mem hs ht rest)
      | inr other ↦
          let same : c ≡ d = sub_ℕ-zero c d (ground arith) in cc (other, (==_iff c d).1 same)
    ]

-- For two strings in memory and fuel above the length of the first, strcmp returns the difference
-- of the first bytes that differ, the terminating ones included, and that is 0 exactly if the
-- strings are equal.
pub strcmp-Compared :
    (fuel : ℕ) (s t : List ℕ) (p q : ℕ) (mem : Bytes)
    → IsString mem p s
    → IsString mem q t
    → length s < fuel
    → (strcmp fuel p q mem ≡ some (difference s t)) × ((difference s t ≡ pos 0) ↔ (s ≡ t))
strcmp-Compared fuel s t p q mem hs ht lt = (
  strcmp-difference fuel s t p q mem hs ht lt,
  ((λ h. difference-zero_only s t p q mem hs ht h), λ e. rw (← e) (difference-zero s)),
)

-- Where the bytes may be copied forwards.
abbrev Forwards : (dest src n : ℕ) → Type 0
Forwards dest src n = (dest ≤ src) ⊎ (src + n ≤ dest)

Forwards-suc : (dest src n : ℕ) → Forwards dest src (suc n) → Forwards (dest + 1) (src + 1) n
Forwards-suc dest src n (inl le) = inl (omega arith)
Forwards-suc dest src n (inr le) = inr (omega arith)

-- The write of the first byte leaves the others of the source.
update-behind :
    (dest src n v i : ℕ) (mem : Bytes)
    → Forwards dest src (suc n)
    → i < n
    → update mem dest v (src + 1 + i) ≡ mem (src + 1 + i)
update-behind dest src n v i mem (inl le) lt = ground arith
update-behind dest src n v i mem (inr le) lt = ground arith

-- A copy is a move of the bytes up to the end of the string.
strcpy-memcpy :
    (fuel : ℕ) (s : List ℕ) (dest src : ℕ) (mem : Bytes)
    → IsString mem src s
    → Forwards dest src (suc (length s))
    → length s < fuel
    → strcpy fuel dest src mem ≡ some (memcpy (suc (length s)) dest src mem)
unfolding strcpy memcpy
strcpy-memcpy zero s dest src mem h d lt = absurd (omega arith)
strcpy-memcpy (suc fuel) [] dest src mem h d lt = rw h refl
strcpy-memcpy (suc fuel) (c ∷ cs) dest src mem (e, ne, h) d lt =
    let mem' : Bytes = update mem dest (mem src) in
    let rest =
      strcpy-memcpy fuel cs (dest + 1) (src + 1) mem'
        (IsString-ext cs (src + 1) (src + 1) mem mem'
          (λ i lt'. update-behind dest src (suc (length cs)) (mem src) i mem d lt') h)
        (Forwards-suc dest src (suc (length cs)) d) (omega arith) in
    let more : (mem src == 0) ≡ false = ground arith in rw more rest

module _ (s : List ℕ) (dest src : ℕ) (mem : Bytes) (h : IsString mem src s) where
  abbrev copied : Bytes
  copied = memcpy (suc (length s)) dest src mem

  copied-IsString : Moved (suc (length s)) dest src mem copied → IsString copied dest s
  copied-IsString m = IsString-ext s src dest mem copied m.moved h

  source-IsString :
      Moved (suc (length s)) dest src mem copied
      → (dest + suc (length s) ≤ src) ⊎ (src + suc (length s) ≤ dest)
      → IsString copied src s
  source-IsString m d = IsString-ext s src src mem copied (kept d) h
    where
      kept :
          (dest + suc (length s) ≤ src) ⊎ (src + suc (length s) ≤ dest)
          → (i : ℕ) → i < suc (length s)
          → copied (src + i) ≡ mem (src + i)
      kept (inl le) i lt = m.behind (src + i) (omega arith)
      kept (inr le) i lt = m.below (src + i) (omega arith)

-- A copy by strcpy to a place that does not overlap the string returns, if the fuel exceeds its
-- length; it moves the bytes of the string with its end and no others, and strcmp then finds the
-- two equal.
pub strcpy-strcmp :
    (fuel : ℕ) (s : List ℕ) (dest src : ℕ) (mem : Bytes)
    → IsString mem src s
    → (dest + suc (length s) ≤ src) ⊎ (src + suc (length s) ≤ dest)
    → length s < fuel
    → (mem' : Bytes) × (strcpy fuel dest src mem ≡ some mem')
      × Moved (suc (length s)) dest src mem mem'
      × (strcmp fuel dest src mem' ≡ some (pos 0))
strcpy-strcmp fuel s dest src mem h d lt =
    let m = memcpy-Moved (suc (length s)) dest src mem (forwards d) in
    (
      copied s dest src mem h,
      strcpy-memcpy fuel s dest src mem h (forwards d) lt,
      m,
      strcmp-difference fuel s s dest src (copied s dest src mem h)
            (copied-IsString s dest src mem h m) (source-IsString s dest src mem h m d) lt
          ∙ ap some (difference-zero s),
    )
  where
    forwards :
        (dest + suc (length s) ≤ src) ⊎ (src + suc (length s) ≤ dest)
        → Forwards dest src (suc (length s))
    forwards (inl le) = inl (omega arith)
    forwards (inr le) = inr le
