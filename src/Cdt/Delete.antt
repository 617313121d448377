-- ===== src/Cdt/Delete.antt =====
-- The end of `delete_cap`: a slot is unlinked and emptied after its children are gone.
use untitled_bare_metal.Base.{
  ℕ, ◌≡◌, ◌≢◌, sym, ap, ◌∙◌, true, false, List, [], ◌∷◌, ◌++◌, arith, has, has-append, ℕ_discrete,
}
use untitled_bare_metal.Cap.{Capability, Cte, new_null_cap}
use untitled_bare_metal.Cdt.{Slots, empty_slot, unlink_cte}
use untitled_bare_metal.Cdt.Chain.{
  Chain, next-mid, prev-mid, first-ne, last-ne, has-mid, ne-of-out, unlink-Chain, unlink_outside,
}
use untitled_bare_metal.Cdt.Distinct.{Chain-Distinct, Chain-null, Distinct-mid, append_one}
use untitled_bare_metal.Cdt.Sweep.{Sweep}

abbrev pub caps : Slots → ℕ → Capability
caps s a = (s a).cap

-- An empty slot that is in no list.
abbrev pub cleared_slot : Cte
cleared_slot = record { cap = new_null_cap; next = 0; prev = 0 }

-- The slot `c` stood between `xs` and `ys`, and all that its revocation removes is gone.
pub record Swept (s s' : Slots) (xs : List ℕ) (c : ℕ) (ys : List ℕ) : Type 0 where
  pub gone : List ℕ
  pub left : List ℕ
  pub parts : ys ≡ gone ++ left
  pub spec : Sweep (caps s) (s c).cap ys left
  pub chain : Chain s' 0 (xs ++ c ∷ left)
  pub cleared : (a : ℕ) → has a gone ≡ true → s' a ≡ cleared_slot
  pub kept : (a : ℕ) → has a gone ≡ false → (s' a).cap ≡ (s a).cap
  pub same : (a : ℕ) → a ≢ 0 → has a (xs ++ c ∷ ys) ≡ false → s' a ≡ s a

-- The same, and the slot `c` itself is gone too.
pub record Deleted (s s' : Slots) (xs : List ℕ) (c : ℕ) (ys : List ℕ) : Type 0 where
  pub gone : List ℕ
  pub left : List ℕ
  pub parts : ys ≡ gone ++ left
  pub spec : Sweep (caps s) (s c).cap ys left
  pub chain : Chain s' 0 (xs ++ left)
  pub cleared : (a : ℕ) → has a (c ∷ gone) ≡ true → s' a ≡ cleared_slot
  pub kept : (a : ℕ) → has a (c ∷ gone) ≡ false → (s' a).cap ≡ (s a).cap
  pub same : (a : ℕ) → a ≢ 0 → has a (xs ++ c ∷ ys) ≡ false → s' a ≡ s a

-- A list rests on the links alone.
Chain-links :
    (s t : Slots) (p : ℕ) (xs : List ℕ)
    → Chain s p xs
    → ((a : ℕ) → ((t a).next ≡ (s a).next) × ((t a).prev ≡ (s a).prev))
    → Chain t p xs
Chain-links s t p [] c h = tt
Chain-links s t p (x ∷ xs) (ne, out, pr, nx, c) h =
    (ne, out, (h x).1 ∙ pr, (h x).0 ∙ nx, Chain-links s t x xs c h)

unlink-cap : (s : Slots) (d a : ℕ) → (unlink_cte d s a).cap ≡ (s a).cap
unfolding unlink_cte
unlink-cap s d a = ground arith

unlink_self : (s : Slots) (d : ℕ) → empty_slot d s d ≡ cleared_slot
unfolding unlink_cte
unlink_self s d = ground arith

module _ (s s' : Slots) (xs : List ℕ) (c : ℕ) (ys : List ℕ) (whole : Chain s 0 (xs ++ c ∷ ys))
    (w : Swept s s' xs c ys) where
  open w use {gone, left, parts, spec, chain, cleared, kept, same}

  abbrev after : Slots
  after = empty_slot c s'

  away : (a : ℕ) → a ≢ 0 → a ≢ c → has a xs ≡ false → has a left ≡ false → after a ≡ s' a
  away a nz ne out out' = ground (
    arith,
    unlink_outside s' c a ne (λ e. last-ne a 0 xs nz out (sym (e ∙ prev-mid s' c left 0 xs chain)))
        (λ e. first-ne a left nz out' (sym (e ∙ next-mid s' c left 0 xs chain))),
  )

  gone_apart : (a : ℕ) → has a gone ≡ true → (has a (xs ++ c ∷ []) ≡ false) × (has a left ≡ false)
  gone_apart a i =
      Distinct-mid a (xs ++ c ∷ []) gone left
        (rw (append_one c xs (gone ++ left), ← parts) (Chain-Distinct s 0 (xs ++ c ∷ ys) whole)) i

  not_null : (a : ℕ) → has a gone ≡ true → a ≢ 0
  not_null a i =
      ne-of-out 0 a (xs ++ c ∷ ys)
        (rw (has-append a xs (c ∷ ys), parts) (ground (arith, has-append a gone left)))
        (Chain-null s 0 (xs ++ c ∷ ys) whole)

  Discrete-cases : (a : ℕ) → has a (c ∷ gone) ≡ true → Dec (a ≡ c) → after a ≡ cleared_slot
  Discrete-cases a i (yes e) = rw e (unlink_self s' c)
  Discrete-cases a i (no ne) =
      away a (not_null a here) ne (has-mid a c xs [] (gone_apart a here).0).0 (gone_apart a here).1
      ∙ cleared a here
    where
      here : has a gone ≡ true
      here = ground arith

  unlinked_cap : (a : ℕ) → a ≢ c → (after a).cap ≡ (s' a).cap
  unlinked_cap a ne = ground (arith, unlink-cap s' c a)

  left_alone : (a : ℕ) → a ≢ 0 → (has a xs ≡ false) × (a ≢ c) × (has a ys ≡ false) → after a ≡ s a
  left_alone a nz (out, ne, out') =
      away a nz ne out (ground (arith, has-append a gone left, ap (has a) parts))
      ∙ same a nz (rw (has-append a xs (c ∷ ys)) (ground arith))

  pub Swept-Deleted : Deleted s after xs c ys
  Swept-Deleted = record {
    gone = gone;
    left = left;
    parts = parts;
    spec = spec;
    chain =
        Chain-links (unlink_cte c s') after 0 (xs ++ left)
          (unlink-Chain s' c 0 xs left chain (Chain-null s' 0 (xs ++ c ∷ left) chain))
          (λ a. ground arith);
    cleared = λ a i. Discrete-cases a i (ℕ_discrete a c);
    kept = λ a out. unlinked_cap a (ground arith) ∙ kept a (ground arith);
    same = λ a nz out. left_alone a nz (has-mid a c xs ys out);
  }
