-- ===== src/Endpoints/Caps.antt =====
-- A capability that travels with a message.
use untitled_bare_metal.Base.{ℕ, ◌<◌, ◌≡◌, ◌≢◌, true, false, List, ◌∷◌, ◌++◌, arith, has, ◌==◌, leb}
use untitled_bare_metal.Sys.{no_error, cap_null, cap_cnode, cap_untyped, cap_rights_all}
use untitled_bare_metal.Tag.{MessageTag}
use untitled_bare_metal.Cap.{cap_ptr, cap_size}
use untitled_bare_metal.Cdt.{copy_cap}
use untitled_bare_metal.Cdt.Chain.{Chain}
use untitled_bare_metal.Cdt.Derive.{Copied, copy_original, copy_cap-Copied}
use untitled_bare_metal.Kernel.{Kernel, done}
use untitled_bare_metal.CNode.{lookup_cap_slot_raw, slot_at}
use untitled_bare_metal.Threads.{cspace_root}
use untitled_bare_metal.Endpoints.{transfer_cap}

-- The slot `root` holds a node, and the index is in it.
pub record InNode (root index : ℕ) (k : Kernel) : Type 0 where
  pub node : (k.cte root).cap.type ≡ cap_cnode
  pub in_range : index < cap_size (k.cte root).cap

abbrev pub entry : (root index : ℕ) → Kernel → ℕ
entry root index k = slot_at (cap_ptr (k.cte root).cap) index

looked_up :
    (root index : ℕ) (k : Kernel)
    → InNode root index k
    → lookup_cap_slot_raw root index 64 k ≡ done (no_error, entry root index k) k
unfolding lookup_cap_slot_raw
looked_up root index k i = rw (is_node, in_range)
  where
    is_node : ((k.cte root).cap.type == cap_cnode) ≡ true
    is_node = ground (arith, i.node)

    in_range : leb (cap_size (k.cte root).cap) index ≡ false
    in_range = ground (arith, i.in_range)

module _ (sender receiver : ℕ) (tag : MessageTag) (k : Kernel) where
  -- The slot of the capability that is sent, the node that receives, and the slot in it.
  abbrev pub sent_slot : ℕ
  sent_slot = entry (cspace_root sender) ((k.buffer (k.tcb sender).ipc_buffer).caps_or_badges 0) k

  abbrev pub receive_root : ℕ
  receive_root = entry (cspace_root receiver) (k.buffer (k.tcb receiver).ipc_buffer).receive_cnode k

  abbrev pub receive_slot : ℕ
  receive_slot = entry receive_root (k.buffer (k.tcb receiver).ipc_buffer).receive_index k

  -- All three lookups succeed.
  pub record CanTransfer : Type 0 where
    pub carries : tag.extra_caps ≢ 0
    pub sent : InNode (cspace_root sender) ((k.buffer (k.tcb sender).ipc_buffer).caps_or_badges 0) k
    pub root : InNode (cspace_root receiver) (k.buffer (k.tcb receiver).ipc_buffer).receive_cnode k
    pub slot : InNode receive_root (k.buffer (k.tcb receiver).ipc_buffer).receive_index k
    pub depth : (k.buffer (k.tcb receiver).ipc_buffer).receive_depth ≡ 64

  transfers :
      CanTransfer
      → transfer_cap sender receiver tag k
        ≡ done tag (record k { cte = (copy_cap receive_slot sent_slot cap_rights_all k.cte).1 })
  unfolding transfer_cap
  transfers c =
      rw (carries, looked_up _ _ k c.sent)
        (rw (looked_up _ _ k c.root) (rw (c.depth, looked_up _ _ k c.slot)))
    where
      carries : (tag.extra_caps == 0) ≡ false
      carries = ground (arith, c.carries)

  -- If a message carries a capability and the lookups of its slot, of the receiving node and of the
  -- slot in it succeed at depth 64, the sent slot stands in a well-formed list and is not untyped
  -- memory in use, and the receiving slot is null and outside that list, then transfer_cap keeps
  -- the tag, and the receiving slot stands right behind the sent one in a well-formed list, with
  -- the same type, pointer, size and badge and the rights of the sent one masked by all rights; no
  -- other capability has changed.
  pub transfer_cap-Copied :
      (xs ys : List ℕ)
      → CanTransfer
      → Chain k.cte 0 (xs ++ sent_slot ∷ ys)
      → receive_slot ≢ 0
      → has receive_slot (xs ++ sent_slot ∷ ys) ≡ false
      → (k.cte receive_slot).cap.type ≡ cap_null
      → ((k.cte sent_slot).cap.type ≡ cap_untyped → (k.cte sent_slot).cap.badge ≡ 0)
      → (k' : Kernel) × (transfer_cap sender receiver tag k ≡ done tag k')
        × Copied cap_rights_all
            (k.cte sent_slot).cap.badge
            (copy_original (k.cte sent_slot).cap)
            k.cte
            k'.cte
            xs
            sent_slot
            receive_slot
            ys
  transfer_cap-Copied xs ys c chain nz out empty unused = (
    record k { cte = (copy_cap receive_slot sent_slot cap_rights_all k.cte).1 },
    transfers c,
    (copy_cap-Copied k.cte xs sent_slot receive_slot ys chain nz out cap_rights_all empty unused).1,
  )
