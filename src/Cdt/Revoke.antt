-- ===== src/Cdt/Revoke.antt =====
-- `revoke_cap` and `delete_cap` on a derivation list.
use mathlib.Core.List.{append_assoc}
use untitled_bare_metal.Base.{
  ℕ, zero, suc, ◌<◌, ◌≡◌, ◌≢◌, refl, sym, ap, ◌∙◌, true, false, some, List, [], ◌∷◌, ◌++◌, arith,
  has, has-append, length, length-append, inl, inr, Bool-cases, ◌==◌,
}
use untitled_bare_metal.Cdt.{Slots, empty_slot, is_child, is_child_cap, revoke_cap, delete_cap}
use untitled_bare_metal.Cdt.Chain.{Chain, next-mid, mid-ne-zero, has-mid, ne-of-out}
use untitled_bare_metal.Cdt.Distinct.{Chain-Distinct, Chain-null, Distinct-mid, append_one}
use untitled_bare_metal.Cdt.Delete.{caps, cleared_slot, Swept, Deleted, Swept-Deleted}
use untitled_bare_metal.Cdt.Sweep.{Sweep, nothing, stop, child, Sweep-agree}

-- Revoking the slot `c` after its neighbour `y` and what follows from that is deleted.
module _ (s s2 s3 : Slots) (xs : List ℕ) (c y : ℕ) (ys : List ℕ)
    (whole : Chain s 0 (xs ++ c ∷ y ∷ ys)) (h : is_child (s y).cap (s c).cap ≡ true)
    (d : Deleted s s2 (xs ++ c ∷ []) y ys) (w : Swept s2 s3 xs c d.left) where
  apart : (a : ℕ) → has a (y ∷ d.gone) ≡ true → has a (xs ++ c ∷ d.left) ≡ false
  apart a i =
      rw (← append_one c xs d.left, has-append a (xs ++ c ∷ []) d.left) (ground (arith, both))
    where
      both : (has a (xs ++ c ∷ []) ≡ false) × (has a d.left ≡ false)
      both =
          Distinct-mid a (xs ++ c ∷ []) (y ∷ d.gone) d.left
            (rw (append_one c xs (y ∷ d.gone ++ d.left), ← d.parts)
              (Chain-Distinct s 0 (xs ++ c ∷ y ∷ ys) whole))
            i

  survivor : (a : ℕ) → has a (xs ++ c ∷ d.left) ≡ true → has a (y ∷ d.gone) ≡ false
  survivor a i = elim (Bool-cases (has a (y ∷ d.gone))) [
    | inl dead ↦ cc (apart a dead)
    | inr alive ↦ alive
  ]

  rest-Sweep : Sweep (caps s) (s c).cap d.left w.left
  rest-Sweep = rw (d.kept c (survivor c (rw (has-append c xs (c ∷ d.left)) (ground arith)))) at (
      Sweep-agree w.spec
        (λ a i. d.kept a (survivor a (rw (has-append a xs (c ∷ d.left)) (ground arith)))))

  cleared_now : (a : ℕ) → has a (y ∷ d.gone ++ w.gone) ≡ true → s3 a ≡ cleared_slot
  cleared_now a i = elim (Bool-cases (has a (y ∷ d.gone))) [
    | inl dead ↦ w.same a (not_null a dead) (apart a dead) ∙ d.cleared a dead
    | inr alive ↦ w.cleared a (ground (arith, has-append a d.gone w.gone))
  ]
    where
      not_null : (b : ℕ) → has b (y ∷ d.gone) ≡ true → b ≢ 0
      not_null b i =
          ne-of-out 0 b (xs ++ c ∷ y ∷ ys)
            (rw (has-append b xs (c ∷ y ∷ ys), d.parts)
              (ground (arith, has-append b d.gone d.left)))
            (Chain-null s 0 (xs ++ c ∷ y ∷ ys) whole)

  step-Swept : Swept s s3 xs c (y ∷ ys)
  step-Swept = record {
    gone = y ∷ d.gone ++ w.gone;
    left = w.left;
    parts =
        ap (◌∷◌ y) (d.parts ∙ ap (◌++◌ d.gone) w.parts ∙ sym (append_assoc d.gone w.gone w.left));
    spec = child h d.spec rest-Sweep;
    chain = w.chain;
    cleared = cleared_now;
    kept = λ a out.
        w.kept a (ground (arith, has-append a d.gone w.gone))
        ∙ d.kept a (ground (arith, has-append a d.gone w.gone));
    same = λ a nz out.
        w.same a nz (
          ground (
            arith,
            has-mid a c xs (y ∷ ys),
            has-append a xs (c ∷ d.left),
            ap (has a) d.parts,
            has-append a d.gone d.left,
          ))
        ∙ d.same a nz (rw (append_one c xs (y ∷ ys)) out);
  }

abbrev pub Revokes : ℕ → Slots → List ℕ → ℕ → List ℕ → Type 0
Revokes fuel s xs c ys = (s' : Slots) × (revoke_cap fuel c s ≡ some s') × Swept s s' xs c ys

-- A slot whose neighbour is no child stays as it is.
idle-Swept :
    (s : Slots) (xs : List ℕ) (c : ℕ) (ys : List ℕ)
    → Chain s 0 (xs ++ c ∷ ys)
    → Sweep (caps s) (s c).cap ys ys
    → Swept s s xs c ys
idle-Swept s xs c ys whole spec = record {
  gone = [];
  left = ys;
  parts = refl;
  spec = spec;
  chain = whole;
  cleared = λ a i. cc;
  kept = λ a out. refl;
  same = λ a nz out. refl;
}

zero_test : (y : ℕ) → y ≢ 0 → (y == 0) ≡ false
zero_test y nz = ground arith

-- One round of the loop in `revoke_cap`.
revoke_round :
    (fuel : ℕ) (s : Slots) (c y : ℕ) (s1 : Slots)
    → (s c).next ≡ y
    → y ≢ 0
    → is_child (s y).cap (s c).cap ≡ true
    → revoke_cap fuel y s ≡ some s1
    → revoke_cap (suc fuel) c s ≡ revoke_cap fuel c (empty_slot y s1)
unfolding revoke_cap is_child_cap
revoke_round fuel s c y s1 nx nz is e = rw (revoke_cap, nx, is_child_cap, zero_test y nz, is, e)

-- On a well-formed derivation list with the slot c, and with more fuel than slots behind c,
-- revoke_cap returns. What it removes is exactly what the relation Sweep, a description of the
-- nested revocations on the capabilities alone, takes off the front of the slots behind c; the rest
-- is a well-formed list in the old order, the removed slots are null and linked nowhere, the
-- capabilities of all other slots are as before, and the slots outside the list are untouched.
pub revoke_cap-Revokes :
    (fuel : ℕ) (s : Slots) (xs : List ℕ) (c : ℕ) (ys : List ℕ)
    → Chain s 0 (xs ++ c ∷ ys)
    → length ys < fuel
    → Revokes fuel s xs c ys
unfolding revoke_cap is_child_cap
revoke_cap-Revokes zero s xs c ys whole lt = absurd (omega arith)
revoke_cap-Revokes (suc fuel) s xs c [] whole lt =
    (s, ground (arith, next-mid s c [] 0 xs whole), idle-Swept s xs c [] whole nothing)
revoke_cap-Revokes (suc fuel) s xs c (y ∷ ys) whole lt =
    elim (Bool-cases (is_child (s y).cap (s c).cap)) [
      | inr no_child ↦ (
        s,
        ground (arith, next-mid s c (y ∷ ys) 0 xs whole),
        idle-Swept s xs c (y ∷ ys) whole (stop no_child),
      )
      | inl is ↦
          let (s1, e1, w1) =
            revoke_cap-Revokes fuel s (xs ++ c ∷ []) y ys (rw (append_one c xs (y ∷ ys)) whole)
              (omega arith) in
          let d : Deleted s (empty_slot y s1) (xs ++ c ∷ []) y ys =
            Swept-Deleted s s1 (xs ++ c ∷ []) y ys (rw (append_one c xs (y ∷ ys)) whole) w1 in
          let (s3, e3, w3) =
            revoke_cap-Revokes fuel (empty_slot y s1) xs c d.left
              (rw (← append_one c xs d.left) d.chain)
              (omega (arith, ap length d.parts, length-append d.gone d.left)) in
          (
            s3,
            revoke_round fuel s c y s1 (next-mid s c (y ∷ ys) 0 xs whole)
                  (mid-ne-zero s y ys 0 (xs ++ c ∷ []) (rw (append_one c xs (y ∷ ys)) whole)) is e1
                ∙ e3,
            step-Swept s (empty_slot y s1) s3 xs c y ys whole is d w3,
          )
    ]

abbrev pub Deletes : ℕ → Slots → List ℕ → ℕ → List ℕ → Type 0
Deletes fuel s xs c ys = (s' : Slots) × (delete_cap fuel c s ≡ some s') × Deleted s s' xs c ys

-- On a well-formed derivation list with the slot c, and with more fuel than slots behind c,
-- delete_cap returns. The slot c and exactly the slots that its revocation sweeps are null and
-- linked nowhere, the others make a well-formed list in the old order with their capabilities, and
-- the slots outside the list are untouched.
pub delete_cap-Deletes :
    (fuel : ℕ) (s : Slots) (xs : List ℕ) (c : ℕ) (ys : List ℕ)
    → Chain s 0 (xs ++ c ∷ ys)
    → length ys < fuel
    → Deletes fuel s xs c ys
unfolding delete_cap
delete_cap-Deletes fuel s xs c ys whole lt =
    let (s', e, w) = revoke_cap-Revokes fuel s xs c ys whole lt in
    (empty_slot c s', rw e, Swept-Deleted s s' xs c ys whole w)
