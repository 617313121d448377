-- ===== src/Cdt/Tests.antt =====
-- Runs of kern/cdt.c on a list of three slots.
use untitled_bare_metal.Base.{
  ℕ, ◌≡◌, ◌≢◌, refl, Bool, true, false, [], ◌∷◌, arith, inl, update, some,
}
use untitled_bare_metal.Sys.{cap_endpoint}
use untitled_bare_metal.Tag.{msg_ok}
use untitled_bare_metal.Cap.{Capability, Cte, new_cap, cap_ptr, bits_pointer, cap_word_0}
use untitled_bare_metal.Cdt.{Slots, copy_cap, mint_cap, revoke_cap}
use untitled_bare_metal.Cdt.Chain.{Chain}
use untitled_bare_metal.Cdt.Delete.{cleared_slot}
use untitled_bare_metal.Cdt.Derive.{
  Copied, copy_original, mint_original, copy_cap-Copied, mint_cap-Copied,
}
use untitled_bare_metal.Cdt.Effects.{copy-revoke, revoke_cap-stranger}
use untitled_bare_metal.Cdt.Revoke.{Revokes, Deletes, revoke_cap-Revokes, delete_cap-Deletes}

abbrev endpoint_cap : Bool → ℕ → Capability
endpoint_cap original object = record (new_cap cap_endpoint) {
  is_original = original;
  ptr = object;
  rights = 31;
}

abbrev slot_of : Capability → (prev next : ℕ) → Cte
slot_of c prev next = record { cap = c; next = next; prev = prev }

abbrev empty : Slots
empty = λ a. cleared_slot

-- An original endpoint, a copy of it, and another original endpoint.
abbrev tree : Slots
tree =
    update
      (update (update empty 32 (slot_of (endpoint_cap true 1) 0 64)) 64
        (slot_of (endpoint_cap false 1) 32 96))
      96 (slot_of (endpoint_cap true 2) 64 0)

tree-Chain : Chain tree 0 (32 ∷ 64 ∷ 96 ∷ [])
tree-Chain = ground arith

revoke_cap-Revokes_example : Revokes 4 tree [] 32 (64 ∷ 96 ∷ [])
revoke_cap-Revokes_example = revoke_cap-Revokes 4 tree [] 32 (64 ∷ 96 ∷ []) tree-Chain (omega arith)

delete_cap-Deletes_example : Deletes 4 tree (32 ∷ []) 64 (96 ∷ [])
delete_cap-Deletes_example =
    delete_cap-Deletes 4 tree (32 ∷ []) 64 (96 ∷ []) tree-Chain (omega arith)

copy_cap-Copied_example :
    ((copy_cap 128 32 5 tree).0 ≡ msg_ok 0)
    × Copied 5
        (tree 32).cap.badge
        (copy_original (tree 32).cap)
        tree
        (copy_cap 128 32 5 tree).1
        []
        32
        128
        (64 ∷ 96 ∷ [])
copy_cap-Copied_example =
    copy_cap-Copied tree [] 32 128 (64 ∷ 96 ∷ []) tree-Chain (omega arith) refl 5 refl
      (λ e. absurd (omega arith))

mint_cap-Copied_example :
    ((mint_cap 128 32 7 5 tree).0 ≡ msg_ok 0)
    × Copied 5 7
        (mint_original (tree 32).cap)
        tree
        (mint_cap 128 32 7 5 tree).1
        []
        32
        128
        (64 ∷ 96 ∷ [])
mint_cap-Copied_example =
    mint_cap-Copied tree [] 32 128 (64 ∷ 96 ∷ []) tree-Chain (omega arith) refl 7 5 refl (inl refl)
      refl

occupied : (copy_cap 64 32 5 tree).0 ≢ msg_ok 0
unfolding copy_cap
occupied = ground arith

occupied_mint : (mint_cap 64 32 7 5 tree).0 ≢ msg_ok 0
unfolding mint_cap
occupied_mint = ground arith

copy-revoke_example :
    (s' : Slots) × (revoke_cap 4 32 (copy_cap 128 32 5 tree).1 ≡ some s') × (s' 128 ≡ cleared_slot)
copy-revoke_example =
    copy-revoke 4 tree [] 32 128 (64 ∷ 96 ∷ []) 5 tree-Chain (omega arith) refl refl (omega arith)
      refl (omega arith)

-- Two original endpoints side by side.
abbrev strangers : Slots
strangers =
    update (update empty 32 (slot_of (endpoint_cap true 1) 0 96)) 96
      (slot_of (endpoint_cap true 2) 32 0)

distinct_objects : cap_ptr (strangers 96).cap ≢ cap_ptr (strangers 32).cap
unfolding cap_ptr bits_pointer cap_word_0
distinct_objects = ground arith

strangers-Chain : Chain strangers 0 (32 ∷ 96 ∷ [])
strangers-Chain = ground arith

revoke_cap-stranger_example :
    (s' : Slots) × (revoke_cap 3 32 strangers ≡ some s') × (s' 96 ≡ cleared_slot)
revoke_cap-stranger_example =
    revoke_cap-stranger 3 strangers [] 32 96 [] strangers-Chain (omega arith) refl refl refl
      (omega arith) refl distinct_objects
