-- ===== src/Cdt/Derive.antt =====
-- `copy_cap` and `mint_cap`: what they write, when they refuse, and whose children they make.
use Prim.Native.Nat.{bit_and}
use untitled_bare_metal.Base.{
  ℕ, ◌%◌, ◌^◌, Bool, ◌≡◌, ◌≢◌, ◌∙◌, refl, true, false, not, ◌&&◌, ◌⊎◌, inl, inr, Bool-cases, List,
  ◌∷◌, ◌++◌, arith, has, ◌==◌, if◌then◌else◌,
}
use untitled_bare_metal.Sys.{cap_null, cap_untyped, cap_endpoint, cap_notification}
use untitled_bare_metal.Tag.{
  MessageTag, msg_ok, msg_delete_first, msg_revoke_first, msg_illegal_operation,
}
use untitled_bare_metal.Cap.{Capability, cap_set_rights}
use untitled_bare_metal.Cdt.{Slots, insert_cte_after, set_cap, copy_cap, mint_cap, is_child}
use untitled_bare_metal.Cdt.Chain.{Chain, Chain-frame, insert-Chain, ne-of-out}

pub insert-cap : (s : Slots) (n a b : ℕ) → (insert_cte_after n a s b).cap ≡ (s b).cap
unfolding insert_cte_after
insert-cap s n a b = ground arith

-- A derived capability: that of the source, with the rights that the mask leaves of its rights, in
-- the five bits of the field.
pub record Derived (mask b : ℕ) (original : Bool) (c d : Capability) : Type 0 where
  pub type : d.type ≡ c.type
  pub ptr : d.ptr ≡ c.ptr
  pub size_bits : d.size_bits ≡ c.size_bits
  pub is_device : d.is_device ≡ c.is_device
  pub rights : d.rights ≡ bit_and c.rights mask % 2 ^ 5
  pub badge : d.badge ≡ b
  pub is_original : d.is_original ≡ original

-- The slot `dest` stands right behind `src`, holds what is derived from it, and no other
-- capability has changed.
pub record Copied (mask badge : ℕ) (original : Bool) (s s' : Slots) (xs : List ℕ) (src dest : ℕ)
    (ys : List ℕ) : Type 0 where
  pub chain : Chain s' 0 (xs ++ src ∷ dest ∷ ys)
  pub derived : Derived mask badge original (s src).cap (s' dest).cap
  pub kept : (a : ℕ) → a ≢ dest → (s' a).cap ≡ (s a).cap

-- A slot outside a list does not matter to it.
pub set_cap-Chain :
    (s : Slots) (d : ℕ) (c : Capability) (xs : List ℕ)
    → Chain s 0 xs
    → has d xs ≡ false
    → Chain (set_cap d c s) 0 xs
set_cap-Chain s d c xs chain out =
    Chain-frame s (set_cap d c s) 0 xs chain (λ a i. if_false (ne-of-out d a xs i out))
  where
    if_false : {a : ℕ} → a ≢ d → set_cap d c s a ≡ s a
    if_false ne = ground arith

-- The capability that `copy_cap` writes.
abbrev pub copied : Capability → ℕ → Capability
copied c rights_mask =
    cap_set_rights (if not (c.type == cap_untyped) then record c { is_original = false } else c)
      (bit_and c.rights rights_mask)

-- Only an untyped capability is copied as an original.
abbrev pub copy_original : Capability → Bool
copy_original c = (c.type == cap_untyped) && c.is_original

-- A notification is not minted as an original.
abbrev pub mint_original : Capability → Bool
mint_original c = not (c.type == cap_notification) && c.is_original

copied-Derived : (c : Capability) (m : ℕ) → Derived m c.badge (copy_original c) c (copied c m)
unfolding cap_set_rights
copied-Derived c m = ground arith

abbrev pub minted : Capability → ℕ → ℕ → Capability
minted c badge rights_mask =
    cap_set_rights
      (if c.type == cap_notification
        then record c { badge = badge; is_original = false }
        else record c { badge = badge })
      (bit_and c.rights rights_mask)

minted-Derived : (c : Capability) (b m : ℕ) → Derived m b (mint_original c) c (minted c b m)
unfolding cap_set_rights
minted-Derived c b m = ground arith

pub copy_cap-ok :
    (s : Slots) (dest src m : ℕ)
    → (s dest).cap.type ≡ cap_null
    → ((s src).cap.type ≡ cap_untyped → (s src).cap.badge ≡ 0)
    → copy_cap dest src m s
      ≡ (msg_ok 0, insert_cte_after dest src (set_cap dest (copied (s src).cap m) s))
unfolding copy_cap
copy_cap-ok s dest src m empty unused = rw (empty, free)
  where
    free : ((s src).cap.type == cap_untyped) && not ((s src).cap.badge == 0) ≡ false
    free = ground arith

pub mint_cap-ok :
    (s : Slots) (dest src b m : ℕ)
    → (s dest).cap.type ≡ cap_null
    → ((s src).cap.type ≡ cap_endpoint) ⊎ ((s src).cap.type ≡ cap_notification)
    → (s src).cap.badge ≡ 0
    → mint_cap dest src b m s
      ≡ (msg_ok 0, insert_cte_after dest src (set_cap dest (minted (s src).cap b m) s))
unfolding mint_cap
mint_cap-ok s dest src b m empty kind plain = rw (empty, allowed, plain)
  where
    allowed :
        not ((s src).cap.type == cap_endpoint) && not ((s src).cap.type == cap_notification) ≡ false
    allowed = ground arith

module _ (s : Slots) (xs : List ℕ) (src dest : ℕ) (ys : List ℕ) (chain : Chain s 0 (xs ++ src ∷ ys))
    (nz : dest ≢ 0) (out : has dest (xs ++ src ∷ ys) ≡ false) where
  -- What an insertion of a derived capability amounts to.
  insert-Copied :
      (mask badge : ℕ) (original : Bool) (d : Capability)
      → Derived mask badge original (s src).cap d
      → Copied mask badge original s (insert_cte_after dest src (set_cap dest d s)) xs src dest ys
  insert-Copied mask badge original d is = record {
    chain =
        insert-Chain (set_cap dest d s) dest src 0 xs ys
          (set_cap-Chain s dest d (xs ++ src ∷ ys) chain out) nz out;
    derived = rw (insert-cap (set_cap dest d s) dest src dest) (ground arith);
    kept = λ a ne. insert-cap (set_cap dest d s) dest src a ∙ ground arith;
  }

  -- If src stands in a well-formed list, dest is a null slot outside it, and src is not an untyped
  -- capability in use, then copy_cap replies without an error, and dest stands right behind src in
  -- a well-formed list. It holds the same type, pointer, size and badge, the rights are those of
  -- src that the mask leaves, and it is an original only if src is and is untyped; no other
  -- capability has changed.
  pub copy_cap-Copied :
      (m : ℕ)
      → (s dest).cap.type ≡ cap_null
      → ((s src).cap.type ≡ cap_untyped → (s src).cap.badge ≡ 0)
      → ((copy_cap dest src m s).0 ≡ msg_ok 0)
        × Copied m
            (s src).cap.badge
            (copy_original (s src).cap)
            s
            (copy_cap dest src m s).1
            xs
            src
            dest
            ys
  copy_cap-Copied m empty unused = rw (copy_cap-ok s dest src m empty unused) (
    refl,
    insert-Copied m (s src).cap.badge (copy_original (s src).cap) (copied (s src).cap m)
        (copied-Derived (s src).cap m),
  )

  -- If src stands in a well-formed list and holds an endpoint or a notification with badge 0, and
  -- dest is a null slot outside the list, then mint_cap replies without an error, and dest stands
  -- right behind src in a well-formed list. It holds the same type, pointer and size with the given
  -- badge, the rights are those of src that the mask leaves, and it is an original only if src is
  -- and is no notification; no other capability has changed.
  pub mint_cap-Copied :
      (b m : ℕ)
      → (s dest).cap.type ≡ cap_null
      → ((s src).cap.type ≡ cap_endpoint) ⊎ ((s src).cap.type ≡ cap_notification)
      → (s src).cap.badge ≡ 0
      → ((mint_cap dest src b m s).0 ≡ msg_ok 0)
        × Copied m b (mint_original (s src).cap) s (mint_cap dest src b m s).1 xs src dest ys
  mint_cap-Copied b m empty kind plain = rw (mint_cap-ok s dest src b m empty kind plain) (
    refl,
    insert-Copied m b (mint_original (s src).cap) (minted (s src).cap b m)
        (minted-Derived (s src).cap b m),
  )

-- A refused copy has changed nothing, and the reply says why.
abbrev pub Refused : Slots → (dest src : ℕ) → MessageTag × Slots → Type 0
Refused s dest src (tag, s') =
    (s' ≡ s)
    × (((tag ≡ msg_delete_first) × ((s dest).cap.type ≢ cap_null))
        ⊎ ((tag ≡ msg_revoke_first) × ((s src).cap.type ≡ cap_untyped) × ((s src).cap.badge ≢ 0)))

-- A refused mint: the slot is occupied, or the source is no plain endpoint or notification.
abbrev pub RefusedMint : Slots → (dest src : ℕ) → MessageTag × Slots → Type 0
RefusedMint s dest src (tag, s') =
    (s' ≡ s)
    × (((tag ≡ msg_delete_first) × ((s dest).cap.type ≢ cap_null))
        ⊎ ((tag ≡ msg_illegal_operation)
            × ((((s src).cap.type ≢ cap_endpoint) × ((s src).cap.type ≢ cap_notification))
                ⊎ ((s src).cap.badge ≢ 0))))

-- A copy_cap whose reply is not success has changed no slot: it says delete first and dest is not
-- null, or it says revoke first and src is an untyped capability in use.
pub copy_cap-Refused :
    (s : Slots) (dest src m : ℕ)
    → (copy_cap dest src m s).0 ≢ msg_ok 0
    → Refused s dest src (copy_cap dest src m s)
unfolding copy_cap
copy_cap-Refused s dest src m bad = elim (Bool-cases ((s dest).cap.type == cap_null)) [
  | inr full ↦ rw full (refl, inl (refl, ground arith))
  | inl empty ↦
      elim (Bool-cases (((s src).cap.type == cap_untyped) && not ((s src).cap.badge == 0))) [
        | inl used ↦ rw (empty, used) (refl, inr (refl, ground arith, ground arith))
        | inr unused ↦ absurd (bad (rw (empty, unused)))
      ]
]

-- A mint_cap whose reply is not success has changed no slot: it says delete first and dest is not
-- null, or it says illegal operation and src is neither an endpoint nor a notification, or has a
-- badge.
pub mint_cap-Refused :
    (s : Slots) (dest src b m : ℕ)
    → (mint_cap dest src b m s).0 ≢ msg_ok 0
    → RefusedMint s dest src (mint_cap dest src b m s)
unfolding mint_cap
mint_cap-Refused s dest src b m bad = elim (Bool-cases ((s dest).cap.type == cap_null)) [
  | inr full ↦ rw full (refl, inl (refl, ground arith))
  | inl empty ↦
      elim (Bool-cases
        (not ((s src).cap.type == cap_endpoint) && not ((s src).cap.type == cap_notification))) [
          | inl wrong ↦ rw (empty, wrong) (refl, inr (refl, inl (ground arith, ground arith)))
          | inr kind ↦ elim (Bool-cases ((s src).cap.badge == 0)) [
            | inr badged ↦ rw (empty, kind, badged) (refl, inr (refl, inr (ground arith)))
            | inl plain ↦ absurd (bad (rw (empty, kind, plain)))
          ]
        ]
]

-- What is derived from an original capability other than an untyped one is its child.
pub copied-is_child :
    (c : Capability) (m : ℕ)
    → c.is_original ≡ true
    → c.type ≢ cap_untyped
    → is_child (copied c m) c ≡ true
unfolding is_child cap_set_rights
copied-is_child c m orig kind = ground arith

pub minted-is_child :
    (c : Capability) (b m : ℕ)
    → c.is_original ≡ true
    → (c.type ≡ cap_endpoint) ⊎ (c.type ≡ cap_notification)
    → c.badge ≡ 0
    → is_child (minted c b m) c ≡ true
unfolding is_child cap_set_rights
minted-is_child c b m orig kind plain = ground arith

pub derived-caps :
    (s : Slots) (dest src : ℕ) (d : Capability)
    → dest ≢ src
    → ((insert_cte_after dest src (set_cap dest d s) dest).cap ≡ d)
      × ((insert_cte_after dest src (set_cap dest d s) src).cap ≡ (s src).cap)
derived-caps s dest src d ne = (
  insert-cap (set_cap dest d s) dest src dest ∙ ground arith,
  insert-cap (set_cap dest d s) dest src src ∙ ground arith,
)

-- The two capabilities after a copy.
pub copy_cap-caps :
    (s : Slots) (dest src m : ℕ)
    → dest ≢ src
    → (s dest).cap.type ≡ cap_null
    → ((s src).cap.type ≡ cap_untyped → (s src).cap.badge ≡ 0)
    → (((copy_cap dest src m s).1 dest).cap ≡ copied (s src).cap m)
      × (((copy_cap dest src m s).1 src).cap ≡ (s src).cap)
copy_cap-caps s dest src m ne empty unused =
    rw (copy_cap-ok s dest src m empty unused) (derived-caps s dest src (copied (s src).cap m) ne)

-- The two capabilities after a mint.
pub mint_cap-caps :
    (s : Slots) (dest src b m : ℕ)
    → dest ≢ src
    → (s dest).cap.type ≡ cap_null
    → ((s src).cap.type ≡ cap_endpoint) ⊎ ((s src).cap.type ≡ cap_notification)
    → (s src).cap.badge ≡ 0
    → (((mint_cap dest src b m s).1 dest).cap ≡ minted (s src).cap b m)
      × (((mint_cap dest src b m s).1 src).cap ≡ (s src).cap)
mint_cap-caps s dest src b m ne empty kind plain =
    rw (mint_cap-ok s dest src b m empty kind plain)
      (derived-caps s dest src (minted (s src).cap b m) ne)
