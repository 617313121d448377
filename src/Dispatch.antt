-- ===== src/Dispatch.antt =====
-- include/kern/syscall_dispatch.c: the method that a label names, its checks and its arguments. First
-- the message registers are read, then the type of the capability is tested, the length of the
-- message, and the number of capabilities; then these are looked up. Arguments of type uint8_t lose
-- their high bits.
pub mod Checks
pub mod Devices
mod Tests
use untitled_bare_metal.Base.{ℕ, ◌%◌, ◌^◌, not, ◌==◌, ltb, if◌then◌else◌}
use untitled_bare_metal.Sys.{
  cap_cnode, cap_tcb, cap_untyped, cap_io_port, cap_io_port_control, cap_pdpt, cap_pd, cap_pt,
  cap_page, cap_huge_page, cap_irq_control, cap_irq_handler, method_cnode_copy, method_cnode_delete,
  method_cnode_mint, method_cnode_revoke, method_cnode_debug_print, method_cnode_debug_get,
  method_tcb_configure, method_tcb_read_registers, method_tcb_resume, method_tcb_bind_notification,
  method_tcb_set_tls_base, method_tcb_suspend, method_tcb_write_registers, method_tcb_set_debug,
  method_tcb_set_name, method_untyped_retype, method_io_port_in8, method_io_port_in16,
  method_io_port_in32, method_io_port_out8, method_io_port_out16, method_io_port_out32,
  method_io_port_control_issue, method_pdpt_map, method_pd_map, method_pt_map, method_page_map,
  method_huge_page_map, method_irq_control_get, method_irq_handler_ack, method_irq_handler_clear,
  method_irq_handler_set_notification,
}
use untitled_bare_metal.Tag.{MessageTag, msg_ok, msg_illegal_operation}
use untitled_bare_metal.Kernel.{K, pure, ◌>>=◌, ◌>>◌, get, get_mr, get_cap, msg_truncated_message}
use untitled_bare_metal.CNode.{
  with_slot, cnode_copy, cnode_mint, cnode_delete, cnode_revoke, cnode_debug_get, lookup_cap_slot,
}
use untitled_bare_metal.Untyped.{untyped_retype}
use untitled_bare_metal.Threads.{
  cspace_root, tcb_configure, tcb_read_registers, tcb_write_registers, tcb_resume, tcb_suspend,
  tcb_bind_notification, tcb_set_tls_base, tcb_set_debug,
}
use untitled_bare_metal.Irq.{
  irq_control_get, irq_handler_ack, irq_handler_clear, irq_handler_set_notification,
}
use untitled_bare_metal.IoPorts.{
  Ports, io_port_in8, io_port_in16, io_port_in32, io_port_out8, io_port_out16, io_port_out32,
  io_port_control_issue,
}
use untitled_bare_metal.Pages.{pdpt_map, pd_map, pt_map, page_map, huge_page_map}

-- What a method needs: the type of the capability, the words and the capabilities of the message.
unfoldable pub checked : (type words caps slot : ℕ) → MessageTag → K MessageTag → K MessageTag
unfolding msg_truncated_message
checked type words caps slot info body = do
  k ← get
  if not ((k.cte slot).cap.type == type)
      then pure msg_illegal_operation
      else if ltb info.length words
      then msg_truncated_message info.length words
      else if ltb info.extra_caps caps
      then msg_truncated_message info.extra_caps caps
      else body

-- TRY (lookup_cap_slot (&this_tcb->cspace_root, get_cap (i), 64, &slot)); rest
abbrev pub with_cap : ℕ → (ℕ → K MessageTag) → K MessageTag
with_cap i rest = do cptr ← get_cap i; k ← get; with_slot (cspace_root k.current_tcb) cptr 64 rest

abbrev pub uint8 : ℕ → ℕ
uint8 v = v % 2 ^ 8

-- The methods of a capability node. `fuel` is that of `revoke_cap`.
module _ (fuel slot : ℕ) (info : MessageTag) where
  unfoldable pub do_cnode_copy : K MessageTag
  unfolding checked get_mr get_cap lookup_cap_slot cnode_copy
  do_cnode_copy = do
    dest_index ← get_mr 0
    dest_depth ← get_mr 1
    src_index ← get_mr 2
    src_depth ← get_mr 3
    rights ← get_mr 4
    checked cap_cnode 5 1 slot info (
        with_cap 0 λ src_root.
          cnode_copy slot dest_index (uint8 dest_depth) src_root src_index (uint8 src_depth) rights)

  unfoldable pub do_cnode_delete : K MessageTag
  unfolding checked get_mr cnode_delete
  do_cnode_delete = do
    index ← get_mr 0
    depth ← get_mr 1
    checked cap_cnode 2 0 slot info (cnode_delete fuel slot index (uint8 depth))

  unfoldable pub do_cnode_mint : K MessageTag
  unfolding checked get_mr get_cap lookup_cap_slot cnode_mint
  do_cnode_mint = do
    dest_index ← get_mr 0
    dest_depth ← get_mr 1
    src_index ← get_mr 2
    src_depth ← get_mr 3
    rights ← get_mr 4
    badge ← get_mr 5
    checked cap_cnode 6 1 slot info (
        with_cap 0 λ src_root.
          cnode_mint slot dest_index (uint8 dest_depth) src_root src_index (uint8 src_depth) rights
            badge)

  unfoldable pub do_cnode_revoke : K MessageTag
  unfolding checked get_mr cnode_revoke
  do_cnode_revoke = do
    index ← get_mr 0
    depth ← get_mr 1
    checked cap_cnode 2 0 slot info (cnode_revoke fuel slot index (uint8 depth))

  -- The method itself only prints.
  unfoldable pub do_cnode_debug_print : K MessageTag
  unfolding checked
  do_cnode_debug_print = checked cap_cnode 0 0 slot info (pure (msg_ok 0))

  unfoldable pub do_cnode_debug_get : K MessageTag
  unfolding checked get_mr cnode_debug_get
  do_cnode_debug_get = do
    index ← get_mr 0
    depth ← get_mr 1
    checked cap_cnode 2 0 slot info (cnode_debug_get slot index (uint8 depth))

-- The methods of a thread and of untyped memory.
module _ (slot : ℕ) (info : MessageTag) where
  unfoldable pub do_tcb_configure : K MessageTag
  unfolding checked get_mr get_cap lookup_cap_slot tcb_configure
  do_tcb_configure = do
    _ ← get_mr 0
    _ ← get_mr 1
    checked cap_tcb 2 3 slot info (
        with_cap 0 λ cspace.
          with_cap 1
            λ vspace. with_cap 2 λ buffer_frame. tcb_configure slot cspace vspace buffer_frame)

  unfoldable pub do_tcb_read_registers : K MessageTag
  unfolding checked get_mr tcb_read_registers
  do_tcb_read_registers = do
    _ ← get_mr 0
    _ ← get_mr 1
    _ ← get_mr 2
    regs ← get_mr 3
    checked cap_tcb 4 0 slot info (tcb_read_registers slot regs)

  unfoldable pub do_tcb_resume : K MessageTag
  unfolding checked tcb_resume
  do_tcb_resume = checked cap_tcb 0 0 slot info (tcb_resume slot)

  unfoldable pub do_tcb_bind_notification : K MessageTag
  unfolding checked get_cap lookup_cap_slot tcb_bind_notification
  do_tcb_bind_notification =
      checked cap_tcb 0 1 slot info
        (with_cap 0 λ notification. tcb_bind_notification slot notification)

  unfoldable pub do_tcb_set_tls_base : K MessageTag
  unfolding checked get_mr tcb_set_tls_base
  do_tcb_set_tls_base = do
    tls_base ← get_mr 0
    checked cap_tcb 1 0 slot info (tcb_set_tls_base slot tls_base)

  unfoldable pub do_tcb_suspend : K MessageTag
  unfolding checked tcb_suspend
  do_tcb_suspend = checked cap_tcb 0 0 slot info (tcb_suspend slot)

  unfoldable pub do_tcb_write_registers : K MessageTag
  unfolding checked get_mr tcb_write_registers
  do_tcb_write_registers = do
    _ ← get_mr 0
    _ ← get_mr 1
    _ ← get_mr 2
    regs ← get_mr 3
    checked cap_tcb 4 0 slot info (tcb_write_registers slot regs)

  unfoldable pub do_tcb_set_debug : K MessageTag
  unfolding checked get_mr tcb_set_debug
  do_tcb_set_debug = do flags ← get_mr 0; checked cap_tcb 1 0 slot info (tcb_set_debug slot flags)

  unfoldable pub do_untyped_retype : K MessageTag
  unfolding checked get_mr get_cap lookup_cap_slot untyped_retype
  do_untyped_retype = do
    type ← get_mr 0
    size_bits ← get_mr 1
    node_index ← get_mr 2
    node_depth ← get_mr 3
    node_offset ← get_mr 4
    num_objects ← get_mr 5
    checked cap_untyped 6 1 slot info (
        with_cap 0 λ root.
          untyped_retype slot type size_bits root node_index (uint8 node_depth) node_offset
            num_objects)
