-- ===== src/Untyped.antt =====
-- kern/obj/untyped.c: objects are cut from the memory of an untyped capability.
pub mod Room
mod Tests
pub mod Create
pub mod Objects
pub mod Retype
pub mod Whole
use Prim.Native.Nat.{bit_or}
use untitled_bare_metal.Base.{
  ℕ, zero, suc, ◌+◌, ◌-◌, ◌*◌, ◌/◌, ◌%◌, ◌^◌, Bool, true, false, not, ◌&&◌, ◌==◌, ltb, leb, sub64,
  if◌then◌else◌, Option, none, some,
}
use untitled_bare_metal.Sys.{no_error, cap_cnode, cap_endpoint, cap_notification, cap_rights_all}
use untitled_bare_metal.Tag.{MessageTag, msg_ok}
use untitled_bare_metal.Cap.{Capability, Cte, new_null_cap, cap_ptr, cap_size, cap_set_ptr}
use untitled_bare_metal.Region.{bit, object_size}
use untitled_bare_metal.Cdt.{Slots, insert_cte_after, set_cap}
use untitled_bare_metal.ListHead.{Nodes, init_list}
use untitled_bare_metal.Kernel.{
  TcbState, Kernel, panicked, done, K, pure, ◌>>=◌, ◌>>◌, get, modify, set_cte, set_node, assert,
  msg_range_error, msg_not_enough_memory,
}
use untitled_bare_metal.CNode.{slot_at, with_slot}

-- ALIGN_UP (x, a) for a power of two `a`, and 0 for 0
unfoldable pub align_up : ℕ → ℕ → ℕ
align_up x a = (x + a - 1) % 2 ^ 64 / a * a

-- direct_map_of, with its assertion
abbrev pub direct_map_of : ℕ → K ℕ
direct_map_of addr = do k ← get; assert (not (k.hhdm == 0)); pure (bit_or addr k.hhdm)

abbrev pub inside : (base n a : ℕ) → Bool
inside base n a = leb base a && ltb a (base + n)

-- memset (p, 0, n): every object that begins in the range is zero.
unfoldable pub clear_memory : (p n : ℕ) → Kernel → Kernel
clear_memory p n k = record k {
  cte = λ a. if inside p n a then record { cap = new_null_cap; next = 0; prev = 0 } else k.cte a;
  pte = λ a. if inside p n a then 0 else k.pte a;
  node = λ a. if inside p n a then record { next = 0; prev = 0 } else k.node a;
  notification = λ a. if inside p n a then record { word = 0; bound_tcb = 0 } else k.notification a;
  frame = λ a. if inside p n a then record { rax = 0; rsi = 0 } else k.frame a;
  buffer = λ a.
      if inside p n a
      then record {
        msg = λ _. 0;
        sender_badge = 0;
        caps_or_badges = λ _. 0;
        receive_cnode = 0;
        receive_index = 0;
        receive_depth = 0;
      }
      else k.buffer a;
  tcb = λ a.
      if inside p n a
      then record {
        state = TcbState.runnable;
        ipc_buffer = 0;
        endpoint_badge = 0;
        expects_reply = false;
        reply_to = 0;
        tls_base = 0;
        bound_notification = 0;
        saved_state = record { rax = 0; rsi = 0 };
        current_user_frame = 0;
        debug = false;
      }
      else k.tcb a;
}

-- The list of an endpoint is its first field, that of a notification its second. `init_tcb` does
-- nothing.
abbrev pub init_object : (type p : ℕ) → Nodes → Nodes
init_object type p h =
    if type == cap_endpoint
    then init_list p h
    else if type == cap_notification
    then init_list (p + 8) h
    else h

-- The capability written over that of the slot, before its pointer.
abbrev pub object_cap : Capability → (type size_bits : ℕ) → Capability
object_cap c type size_bits = record c {
  type = type % 2 ^ 5;
  size_bits = size_bits % 2 ^ 6;
  badge = 0;
  is_original = true;
  rights = cap_rights_all;
}

abbrev pub set_object_cap : (dest : ℕ) → Option Capability → K (Unit {0})
set_object_cap dest none k = panicked
set_object_cap dest (some c) k = done tt (record k { cte = set_cap dest c k.cte })

-- One round of the loop in `create_objects`.
unfoldable pub create_object : (untyped type size_bits dest obj_size obj_paddr : ℕ) → K (Unit {0})
unfolding clear_memory
create_object untyped type size_bits dest obj_size obj_paddr = do
  obj_ptr ← direct_map_of obj_paddr
  modify (clear_memory obj_ptr obj_size)
  set_node (init_object type obj_ptr)
  k ← get
  set_object_cap dest (cap_set_ptr (object_cap (k.cte dest).cap type size_bits) obj_ptr)
  set_cte (insert_cte_after dest untyped)

-- The loop, with `left` rounds to go from round `i`. `obj_size` is that of the caller.
unfoldable pub create_objects :
    (untyped type size_bits dest_slot_0 obj_size usable_memory left i : ℕ) → K (Unit {0})
unfolding create_object
create_objects untyped type size_bits dest_slot_0 obj_size usable_memory zero i = pure tt
create_objects untyped type size_bits dest_slot_0 obj_size usable_memory (suc left) i = do
  create_object untyped type size_bits (slot_at dest_slot_0 i) obj_size
      ((usable_memory + i * obj_size) % 2 ^ 64)
  create_objects untyped type size_bits dest_slot_0 obj_size usable_memory left (i + 1)

-- The first slot of the target, which must lie in the node: `cte_for`.
abbrev pub cte_for : (root index depth : ℕ) → K ℕ
cte_for root index depth = do
  assert (depth == 64)
  k ← get
  assert (ltb index (cap_size (k.cte root).cap))
  pure (slot_at (cap_ptr (k.cte root).cap) index)

-- The sizes that `untyped_retype` computes first.
abbrev pub total_size : (obj_size num_objects : ℕ) → ℕ
total_size obj_size num_objects = obj_size * num_objects % 2 ^ 64

unfoldable pub available_memory : (size_bits badge obj_size : ℕ) → ℕ
unfolding align_up
available_memory size_bits badge obj_size = sub64 (bit size_bits) (align_up badge obj_size)

abbrev pub set_badge : ℕ → ℕ → Slots → Slots
set_badge p b s = set_cap p (record (s p).cap { badge = b }) s

-- The part behind the check of the memory.
unfoldable pub retype_into :
    (slot type size_bits root node_index node_depth node_offset num_objects obj_size : ℕ)
    → K MessageTag
unfolding create_objects msg_range_error
retype_into slot type size_bits root node_index node_depth node_offset num_objects obj_size =
    with_slot root node_index node_depth λ dest_cnode. do
      k ← get
      assert ((k.cte dest_cnode).cap.type == cap_cnode)
      if ltb (cap_size (k.cte dest_cnode).cap) ((node_offset + num_objects) % 2 ^ 64)
          then msg_range_error 0 (cap_size (k.cte dest_cnode).cap)
          else (do
            dest_slot_0 ← cte_for dest_cnode node_offset node_depth
            assert (not (dest_slot_0 == 0))
            let offset = align_up (k.cte slot).cap.badge obj_size
            create_objects slot type size_bits dest_slot_0 obj_size
                ((cap_ptr (k.cte slot).cap + offset) % 2 ^ 64) num_objects 0
            set_cte (set_badge slot ((offset + total_size obj_size num_objects) % 2 ^ 64))
            pure (msg_ok 0))

abbrev pub retype_sized :
    Option ℕ
    → (slot type size_bits root node_index node_depth node_offset num_objects : ℕ) → K MessageTag
retype_sized none slot type size_bits root node_index node_depth node_offset num_objects k =
    panicked
retype_sized (some obj_size) slot type size_bits root node_index node_depth node_offset num_objects
      k =
    let u = (k.cte slot).cap in
    let available = available_memory u.size_bits u.badge obj_size in
    if ltb available (total_size obj_size num_objects)
    then msg_not_enough_memory available k
    else retype_into slot type size_bits root node_index node_depth node_offset num_objects obj_size
        k

unfoldable pub untyped_retype :
    (slot type size_bits root node_index node_depth node_offset num_objects : ℕ) → K MessageTag
unfolding object_size available_memory msg_not_enough_memory retype_into
untyped_retype slot type size_bits = retype_sized (object_size type size_bits) slot type size_bits
