-- ===== src/Cdt/Effects.antt =====
-- What revocation does to the neighbour of a slot, and two ways in which the list goes wrong.
use untitled_bare_metal.Base.{
  ℕ, ◌+◌, ◌<◌, ◌≡◌, ◌≢◌, ◌∙◌, refl, sym, ap, true, false, some, ◌&&◌, ◌⊎◌, List, [], ◌∷◌, ◌++◌,
  arith, has, has-append, length, ◌==◌, Bool-cases, inl, inr,
}
use untitled_bare_metal.Sys.{cap_null, cap_untyped, cap_endpoint, cap_notification}
use untitled_bare_metal.Tag.{msg_ok}
use untitled_bare_metal.Cap.{Capability, cap_set_rights, cap_ptr}
use untitled_bare_metal.Cdt.{
  Slots, copy_cap, mint_cap, is_child, revoke_cap, insert_cte_after, set_cap,
}
use untitled_bare_metal.Cdt.Chain.{
  first, Chain, next-mid, has-mid, prev-first, insert-links, insert-next,
}
use untitled_bare_metal.Cdt.Distinct.{Chain-Distinct, Distinct-mid, append_one}
use untitled_bare_metal.Cdt.Delete.{Swept, cleared_slot}
use untitled_bare_metal.Cdt.Derive.{
  copied, copied-is_child, copy_cap-Copied, copy_cap-ok, copy_cap-caps, mint_cap-caps, insert-cap,
  derived-caps,
}
use untitled_bare_metal.Cdt.Revoke.{revoke_cap-Revokes}
use untitled_bare_metal.Cdt.Sweep.{Sweep-child}

-- A neighbour that counts as a child is emptied by a revocation.
pub revoke_cap-neighbour :
    (fuel : ℕ) (s : Slots) (xs : List ℕ) (c y : ℕ) (ys : List ℕ)
    → Chain s 0 (xs ++ c ∷ y ∷ ys)
    → length ys + 1 < fuel
    → is_child (s y).cap (s c).cap ≡ true
    → (s' : Slots) × (revoke_cap fuel c s ≡ some s') × (s' y ≡ cleared_slot)
revoke_cap-neighbour fuel s xs c y ys whole lt is =
    let (s', e, w) = revoke_cap-Revokes fuel s xs c (y ∷ ys) whole (omega arith) in
    (s', e, w.cleared y (in_gone w))
  where
    alone : has y ys ≡ false
    alone =
        (Distinct-mid y (xs ++ c ∷ []) (y ∷ []) ys
          (rw (append_one c xs (y ∷ ys)) (Chain-Distinct s 0 (xs ++ c ∷ y ∷ ys) whole))
          (ground arith)).1

    in_gone : {s' : Slots} (w : Swept s s' xs c (y ∷ ys)) → has y w.gone ≡ true
    in_gone w = elim (Bool-cases (has y w.left)) [
      | inl i ↦ ground (arith, alone, Sweep-child w.spec refl is y i)
      | inr out ↦ ground (arith, ap (has y) w.parts, has-append y w.gone w.left)
    ]

-- What copy_cap derives from an original capability other than an untyped one, in a well-formed
-- list, into a null slot outside it, is gone after the original is revoked: revoke_cap returns and
-- dest is null and linked nowhere.
pub copy-revoke :
    (fuel : ℕ) (s : Slots) (xs : List ℕ) (src dest : ℕ) (ys : List ℕ) (m : ℕ)
    → Chain s 0 (xs ++ src ∷ ys)
    → dest ≢ 0
    → has dest (xs ++ src ∷ ys) ≡ false
    → (s dest).cap.type ≡ cap_null
    → (s src).cap.type ≢ cap_untyped
    → (s src).cap.is_original ≡ true
    → length ys + 1 < fuel
    → (s' : Slots) × (revoke_cap fuel src (copy_cap dest src m s).1 ≡ some s')
      × (s' dest ≡ cleared_slot)
copy-revoke fuel s xs src dest ys m chain nz out empty kind orig lt =
    revoke_cap-neighbour fuel (copy_cap dest src m s).1 xs src dest ys
      (copy_cap-Copied s xs src dest ys chain nz out m empty (λ e. absurd (kind e))).1.chain lt
      (rw (is.0, is.1) (copied-is_child (s src).cap m orig kind))
  where
    is :
        (((copy_cap dest src m s).1 dest).cap ≡ copied (s src).cap m)
        × (((copy_cap dest src m s).1 src).cap ≡ (s src).cap)
    is = copy_cap-caps s dest src m (has-mid dest src xs ys out).1 empty (λ e. absurd (kind e))

stranger-is_child :
    (d c : Capability)
    → c.is_original ≡ true
    → d.type ≡ c.type
    → c.type ≢ cap_untyped
    → c.badge ≡ 0
    → is_child d c ≡ true
unfolding is_child
stranger-is_child d c orig kind typed plain = ground arith

-- In a well-formed list, revoking an original capability with badge 0 that is not untyped empties
-- the next slot if that holds an original capability of the same type, also where the two name
-- different objects.
pub revoke_cap-stranger :
    (fuel : ℕ) (s : Slots) (xs : List ℕ) (c y : ℕ) (ys : List ℕ)
    → Chain s 0 (xs ++ c ∷ y ∷ ys)
    → length ys + 1 < fuel
    → (s c).cap.is_original ≡ true
    → (s y).cap.is_original ≡ true
    → (s y).cap.type ≡ (s c).cap.type
    → (s c).cap.type ≢ cap_untyped
    → (s c).cap.badge ≡ 0
    → cap_ptr (s y).cap ≢ cap_ptr (s c).cap
    → (s' : Slots) × (revoke_cap fuel c s ≡ some s') × (s' y ≡ cleared_slot)
revoke_cap-stranger fuel s xs c y ys whole lt orig orig' kind typed plain other =
    revoke_cap-neighbour fuel s xs c y ys whole lt
      (stranger-is_child (s y).cap (s c).cap orig kind typed plain)

set_cap-next : (s : Slots) (d : ℕ) (c : Capability) (a : ℕ) → (set_cap d c s a).next ≡ (s a).next
set_cap-next s d c a = ground arith

copied-type : (c : Capability) (m : ℕ) → (copied c m).type ≡ c.type
unfolding cap_set_rights
copied-type c m = ground arith

null-untyped : {a : ℕ} → a ≡ cap_null → a ≡ cap_untyped → ⊥
null-untyped n u = omega arith

elsewhere-cap :
    (s : Slots) (dest src other : ℕ) (c : Capability)
    → dest ≢ other
    → (insert_cte_after dest src (set_cap dest c s) other).cap ≡ (s other).cap
elsewhere-cap s dest src other c ne = insert-cap (set_cap dest c s) dest src other ∙ ground arith

-- No list goes through `src` if its successor points back to another slot.
pub no-Chain :
    (t : Slots) (src dest other p : ℕ) (us vs : List ℕ)
    → (t src).next ≡ dest
    → (t dest).prev ≡ other
    → dest ≢ 0
    → src ≢ other
    → ¬ (Chain t p (us ++ src ∷ vs))
no-Chain t src dest other p us vs nx pr nz ne c = ne (sym back ∙ pr)
  where
    ahead : first vs ≡ dest
    ahead = sym (next-mid t src vs p us c) ∙ nx

    back : (t dest).prev ≡ src
    back = rw (← ahead) (prev-first t src p us vs c (λ e. nz (sym ahead ∙ e)))

-- Linked behind `src`, and then behind `other` as well.
twice_linked :
    (s : Slots) (dest src other : ℕ) (c c' : Capability)
    → dest ≢ src
    → dest ≢ other
    → src ≢ other
    → let s1 = insert_cte_after dest src (set_cap dest c s) in
      let s2 = insert_cte_after dest other (set_cap dest c' s1) in
      ((s2 src).next ≡ dest) × ((s2 dest).prev ≡ other)
twice_linked s dest src other c c' ds dt so =
    let s1 = insert_cte_after dest src (set_cap dest c s) in
    (
      insert-next (set_cap dest c' s1) dest other src (λ e. ds (sym e)) so
          ∙ set_cap-next s1 dest c' src
          ∙ (insert-links (set_cap dest c s) dest src ds).1,
      (insert-links (set_cap dest c' s1) dest other dt).0,
    )

-- A copy_cap from a null slot into another null slot dest succeeds, a second one into dest from a
-- slot that is not untyped succeeds too, and then no well-formed list goes through the first
-- source.
copy_null-breaks :
    (s : Slots) (dest src other m m' : ℕ) (p : ℕ) (us vs : List ℕ)
    → dest ≢ src
    → dest ≢ other
    → src ≢ other
    → dest ≢ 0
    → (s dest).cap.type ≡ cap_null
    → (s src).cap.type ≡ cap_null
    → (s other).cap.type ≢ cap_untyped
    → let (r, s1) = copy_cap dest src m s in
      let (r', s2) = copy_cap dest other m' s1 in
      (r ≡ msg_ok 0) × (r' ≡ msg_ok 0) × ¬ (Chain s2 p (us ++ src ∷ vs))
copy_null-breaks s dest src other m m' p us vs ds dt so nz empty null kind =
    let s1 = insert_cte_after dest src (set_cap dest (copied (s src).cap m) s) in
    let c2 = copied (s1 other).cap m' in
    let t2 = insert_cte_after dest other (set_cap dest c2 s1) in
    let links = twice_linked s dest src other (copied (s src).cap m) c2 ds dt so in
    rw (copy_cap-ok s dest src m empty (λ e. absurd (null-untyped null e))) (
      rw
        (copy_cap-ok s1 dest other m'
          (ap (λ (c : Capability). c.type) (derived-caps s dest src (copied (s src).cap m) ds).0
            ∙ copied-type (s src).cap m
            ∙ null)
          (λ e. absurd (
            kind (
              ap (λ (c : Capability). c.type)
                (sym (elsewhere-cap s dest src other (copied (s src).cap m) dt))
              ∙ e))))
        (refl, refl, no-Chain t2 src dest other p us vs links.0 links.1 nz so))

-- What mint_cap derives into a null slot from an endpoint with badge 0 is an original capability
-- exactly where its source is one; what it derives from a notification with badge 0 never is.
pub mint_cap-original :
    (s : Slots) (dest src b m : ℕ)
    → dest ≢ src
    → (s dest).cap.type ≡ cap_null
    → ((s src).cap.type ≡ cap_endpoint) ⊎ ((s src).cap.type ≡ cap_notification)
    → (s src).cap.badge ≡ 0
    → ((mint_cap dest src b m s).1 dest).cap.is_original
      ≡ ((s src).cap.type == cap_endpoint) && (s src).cap.is_original
unfolding cap_set_rights
mint_cap-original s dest src b m ne empty kind plain = ground (arith, mint_cap-caps s dest src b m)
