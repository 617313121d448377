-- ===== src/CNode.antt =====
-- kern/obj/cnode.c: slots of a capability node, and the methods on them.
pub mod Methods
mod Tests
use untitled_bare_metal.Base.{
  ℕ, ◌+◌, ◌*◌, ◌%◌, ◌^◌, Bool, not, ◌==◌, leb, if◌then◌else◌, Option, none, some,
}
use untitled_bare_metal.Sys.{no_error, cap_cnode, invalid_root, range_error}
use untitled_bare_metal.Tag.{MessageTag, msg_ok, msg_invalid_root}
use untitled_bare_metal.Cap.{Capability, cap_ptr, cap_size, cap_word_0}
use untitled_bare_metal.Cdt.{Slots, copy_cap, mint_cap, delete_cap, revoke_cap}
use untitled_bare_metal.Kernel.{
  Kernel, Outcome, done, panicked, out_of_fuel, K, pure, ◌>>=◌, ◌>>◌, get, set_cte, assert, try_,
  set_mr, msg_range_error,
}

-- &cte[index]: a slot takes 32 bytes
abbrev pub slot_at : ℕ → ℕ → ℕ
slot_at base index = (base + 32 * index) % 2 ^ 64

-- The error and the slot, null with an error. `root` is the slot of the node.
unfoldable pub lookup_cap_slot_raw : (root index depth : ℕ) → K (ℕ × ℕ)
lookup_cap_slot_raw root index depth = do
  assert (depth == 64)
  k ← get
  let c = (k.cte root).cap
  if not (c.type == cap_cnode)
      then pure (invalid_root, 0)
      else if leb (cap_size c) index
      then pure (range_error, 0)
      else pure (no_error, slot_at (cap_ptr c) index)

unfoldable pub lookup_cap_slot : (root index depth : ℕ) → K (MessageTag × ℕ)
unfolding lookup_cap_slot_raw msg_range_error
lookup_cap_slot root index depth = do
  (err, out) ← lookup_cap_slot_raw root index depth
  k ← get
  if err == invalid_root
      then pure (msg_invalid_root, out)
      else if err == range_error
      then (do tag ← msg_range_error 0 (cap_size (k.cte root).cap); pure (tag, out))
      else pure (msg_ok 0, out)

-- TRY (lookup_cap_slot (root, index, depth, &slot)); rest
abbrev pub with_slot : (root index depth : ℕ) → (ℕ → K MessageTag) → K MessageTag
with_slot root index depth rest = do
  (tag, slot) ← lookup_cap_slot root index depth
  if tag.label == no_error then rest slot else pure tag

-- The derivation functions on the slots of the kernel.
abbrev pub on_slots : (Slots → MessageTag × Slots) → K MessageTag
on_slots f k = let (tag, s) = f k.cte in done tag (record k { cte = s })

abbrev pub finish : Option Slots → K MessageTag
finish none k = out_of_fuel
finish (some s) k = done (msg_ok 0) (record k { cte = s })

abbrev pub on_slots_fuel : (Slots → Option Slots) → K MessageTag
on_slots_fuel f k = finish (f k.cte) k

unfoldable pub cnode_copy :
    (obj dst_offset dst_depth root src_offset src_depth rights : ℕ) → K MessageTag
unfolding lookup_cap_slot copy_cap
cnode_copy obj dst_offset dst_depth root src_offset src_depth rights =
    with_slot obj dst_offset dst_depth λ dst.
      with_slot root src_offset src_depth
        λ src. try_ (on_slots (copy_cap dst src rights)) (pure (msg_ok 0))

unfoldable pub cnode_mint :
    (obj dst_offset dst_depth root src_offset src_depth rights badge : ℕ) → K MessageTag
unfolding lookup_cap_slot mint_cap
cnode_mint obj dst_offset dst_depth root src_offset src_depth rights badge =
    with_slot obj dst_offset dst_depth λ dst.
      with_slot root src_offset src_depth
        λ src. try_ (on_slots (mint_cap dst src badge rights)) (pure (msg_ok 0))

unfoldable pub cnode_delete : (fuel obj offset depth : ℕ) → K MessageTag
unfolding lookup_cap_slot delete_cap
cnode_delete fuel obj offset depth =
    with_slot obj offset depth λ cte. try_ (on_slots_fuel (delete_cap fuel cte)) (pure (msg_ok 0))

unfoldable pub cnode_revoke : (fuel obj offset depth : ℕ) → K MessageTag
unfolding lookup_cap_slot revoke_cap
cnode_revoke fuel obj offset depth =
    with_slot obj offset depth λ cte. try_ (on_slots_fuel (revoke_cap fuel cte)) (pure (msg_ok 0))

unfoldable pub cnode_debug_get : (obj offset depth : ℕ) → K MessageTag
unfolding lookup_cap_slot set_mr cap_word_0
cnode_debug_get obj offset depth = with_slot obj offset depth λ cte. do
  k ← get
  set_mr 0 (cap_word_0 (k.cte cte).cap)
  k' ← get
  set_mr 1 (k'.cte cte).cap.badge
  pure (msg_ok 2)
