-- ===== src/CNode/Methods.antt =====
-- Every branch of the lookup, and the methods that revoke and delete.
use untitled_bare_metal.Base.{
  ℕ, ◌≤◌, ◌<◌, ◌≡◌, ◌≢◌, true, false, ◌⊎◌, Option, some, inl, inr, List, ◌∷◌, ◌++◌, arith, length,
  ◌==◌, leb, ℕ_discrete, dec_lt,
}
use untitled_bare_metal.Sys.{cap_cnode}
use untitled_bare_metal.Tag.{msg_ok, msg_invalid_root, msg_err}
use untitled_bare_metal.Sys.{range_error}
use untitled_bare_metal.Cap.{cap_ptr, cap_size}
use untitled_bare_metal.Cdt.{Slots}
use untitled_bare_metal.Cdt.Chain.{Chain}
use untitled_bare_metal.Cdt.Delete.{Swept, Deleted}
use untitled_bare_metal.Cdt.Revoke.{revoke_cap-Revokes, delete_cap-Deletes}
use untitled_bare_metal.Cdt.{revoke_cap, delete_cap}
use untitled_bare_metal.Kernel.{Kernel, pure, try_, done, panicked}
use untitled_bare_metal.Kernel.Registers.{Ready, put_mr, msg_range_error-ok}
use untitled_bare_metal.CNode.{
  lookup_cap_slot_raw, lookup_cap_slot, slot_at, cnode_copy, cnode_revoke, cnode_delete,
  on_slots_fuel,
}

-- The slot of an index in range.
pub lookup_found :
    (root index : ℕ) (k : Kernel)
    → (k.cte root).cap.type ≡ cap_cnode
    → index < cap_size (k.cte root).cap
    → lookup_cap_slot root index 64 k ≡ done (msg_ok 0, slot_at (cap_ptr (k.cte root).cap) index) k
unfolding lookup_cap_slot lookup_cap_slot_raw
lookup_found root index k kind lt = rw (is_node, in_range)
  where
    is_node : ((k.cte root).cap.type == cap_cnode) ≡ true
    is_node = ground arith

    in_range : leb (cap_size (k.cte root).cap) index ≡ false
    in_range = ground arith

lookup_no_node :
    (root index : ℕ) (k : Kernel)
    → (k.cte root).cap.type ≢ cap_cnode
    → lookup_cap_slot root index 64 k ≡ done (msg_invalid_root, 0) k
unfolding lookup_cap_slot lookup_cap_slot_raw
lookup_no_node root index k kind = rw other
  where
    other : ((k.cte root).cap.type == cap_cnode) ≡ false
    other = ground arith

lookup_out_of_range :
    (root index : ℕ) (k : Kernel)
    → Ready k
    → (k.cte root).cap.type ≡ cap_cnode
    → cap_size (k.cte root).cap ≤ index
    → lookup_cap_slot root index 64 k
      ≡ done (msg_err range_error 2, 0) (put_mr 1 (cap_size (k.cte root).cap) (put_mr 0 0 k))
unfolding lookup_cap_slot lookup_cap_slot_raw
lookup_out_of_range root index k r kind le =
    rw (is_node, out, msg_range_error-ok k r 0 (cap_size (k.cte root).cap))
  where
    is_node : ((k.cte root).cap.type == cap_cnode) ≡ true
    is_node = ground arith

    out : leb (cap_size (k.cte root).cap) index ≡ true
    out = ground arith

-- The answer of a lookup at depth 64, on each of its branches.
abbrev pub Looked : (root index : ℕ) → Kernel → Type 0
Looked root index k =
    let c = (k.cte root).cap in
    (c.type ≢ cap_cnode × (lookup_cap_slot root index 64 k ≡ done (msg_invalid_root, 0) k))
    ⊎ (c.type ≡ cap_cnode
        × cap_size c ≤ index
        × (lookup_cap_slot root index 64 k
            ≡ done (msg_err range_error 2, 0) (put_mr 1 (cap_size c) (put_mr 0 0 k))))
    ⊎ (c.type ≡ cap_cnode
        × index < cap_size c
        × (lookup_cap_slot root index 64 k ≡ done (msg_ok 0, slot_at (cap_ptr c) index) k))

-- A lookup at depth 64 by a thread with a buffer has one of three answers: invalid root where the
-- slot holds no capability node; a range error, with the bounds 0 and the node's size in the
-- message registers, where the index is not below the size; else the slot of the index, and nothing
-- changes.
pub lookup_cap_slot-Looked : (root index : ℕ) (k : Kernel) → Ready k → Looked root index k
lookup_cap_slot-Looked root index k r = elim (ℕ_discrete (k.cte root).cap.type cap_cnode) [
  | no other ↦ inl (other, lookup_no_node root index k other)
  | yes node ↦ elim (dec_lt index (cap_size (k.cte root).cap)) [
    | yes lt ↦ inr (inr (node, lt, lookup_found root index k node lt))
    | no ge ↦ inr (inl (node, omega arith, lookup_out_of_range root index k r node (omega arith)))
  ]
]

-- A cnode_copy whose target depth is not 64 ends in a failed assertion of the kernel.
pub cnode_copy-depth :
    (obj dst_offset dst_depth root src_offset src_depth rights : ℕ) (k : Kernel)
    → dst_depth ≢ 64
    → cnode_copy obj dst_offset dst_depth root src_offset src_depth rights k ≡ panicked
unfolding cnode_copy lookup_cap_slot lookup_cap_slot_raw
cnode_copy-depth obj dst_offset dst_depth root src_offset src_depth rights k ne = rw wrong
  where
    wrong : (dst_depth == 64) ≡ false
    wrong = ground arith

finished :
    (f : Slots → Option Slots) (k : Kernel) (s : Slots)
    → f k.cte ≡ some s
    → try_ (on_slots_fuel f) (pure (msg_ok 0)) k ≡ done (msg_ok 0) (record k { cte = s })
finished f k s e = rw e

module _ (fuel obj offset : ℕ) (k : Kernel) (xs ys : List ℕ)
    (node : (k.cte obj).cap.type ≡ cap_cnode) (lt : offset < cap_size (k.cte obj).cap) where
  abbrev target : ℕ
  target = slot_at (cap_ptr (k.cte obj).cap) offset

  -- On a capability node with the offset in range, if the slot of the offset stands in a
  -- well-formed list and the fuel exceeds the slots behind it, cnode_revoke at depth 64 replies
  -- without an error, and only the slots have changed, as a revocation sweeps them.
  pub cnode_revoke-Swept :
      Chain k.cte 0 (xs ++ target ∷ ys)
      → length ys < fuel
      → (s : Slots) × (cnode_revoke fuel obj offset 64 k ≡ done (msg_ok 0) (record k { cte = s }))
        × Swept k.cte s xs target ys
  unfolding cnode_revoke
  cnode_revoke-Swept whole enough =
      let (s, e, w) = revoke_cap-Revokes fuel k.cte xs target ys whole enough in
      (s, rw (lookup_found obj offset k node lt) (finished (revoke_cap fuel target) k s e), w)

  -- On a capability node with the offset in range, if the slot of the offset stands in a
  -- well-formed list and the fuel exceeds the slots behind it, cnode_delete at depth 64 replies
  -- without an error, and only the slots have changed, as a deletion of the slot does.
  pub cnode_delete-Deleted :
      Chain k.cte 0 (xs ++ target ∷ ys)
      → length ys < fuel
      → (s : Slots) × (cnode_delete fuel obj offset 64 k ≡ done (msg_ok 0) (record k { cte = s }))
        × Deleted k.cte s xs target ys
  unfolding cnode_delete
  cnode_delete-Deleted whole enough =
      let (s, e, w) = delete_cap-Deletes fuel k.cte xs target ys whole enough in
      (s, rw (lookup_found obj offset k node lt) (finished (delete_cap fuel target) k s e), w)
