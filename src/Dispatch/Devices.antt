-- ===== src/Dispatch/Devices.antt =====
-- The rest of include/kern/syscall_dispatch.c: ports, page tables and interrupts, and the choice of
-- the method by the label.
use untitled_bare_metal.Base.{ℕ, Bool, ◌==◌, if◌then◌else◌}
use untitled_bare_metal.Sys.{
  cap_tcb, cap_io_port, cap_io_port_control, cap_pdpt, cap_pd, cap_pt, cap_page, cap_huge_page,
  cap_irq_control, cap_irq_handler, method_cnode_copy, method_cnode_delete, method_cnode_mint,
  method_cnode_revoke, method_cnode_debug_print, method_cnode_debug_get, method_tcb_configure,
  method_tcb_read_registers, method_tcb_resume, method_tcb_bind_notification,
  method_tcb_set_tls_base, method_tcb_suspend, method_tcb_write_registers, method_tcb_set_debug,
  method_tcb_set_name, method_untyped_retype, method_io_port_in8, method_io_port_in16,
  method_io_port_in32, method_io_port_out8, method_io_port_out16, method_io_port_out32,
  method_io_port_control_issue, method_pdpt_map, method_pd_map, method_pt_map, method_page_map,
  method_huge_page_map, method_irq_control_get, method_irq_handler_ack, method_irq_handler_clear,
  method_irq_handler_set_notification,
}
use untitled_bare_metal.Tag.{MessageTag, msg_illegal_operation}
use untitled_bare_metal.Kernel.{K, pure, ◌>>=◌, get_mr, get_cap}
use untitled_bare_metal.CNode.{lookup_cap_slot}
use untitled_bare_metal.Irq.{
  irq_control_get, irq_handler_ack, irq_handler_clear, irq_handler_set_notification,
}
use untitled_bare_metal.IoPorts.{
  Ports, io_port_in8, io_port_in16, io_port_in32, io_port_out8, io_port_out16, io_port_out32,
  io_port_control_issue,
}
use untitled_bare_metal.Pages.{pdpt_map, pd_map, pt_map, page_map, huge_page_map}
use untitled_bare_metal.Dispatch.{
  checked, with_cap, uint8, do_cnode_copy, do_cnode_delete, do_cnode_mint, do_cnode_revoke,
  do_cnode_debug_print, do_cnode_debug_get, do_tcb_configure, do_tcb_read_registers, do_tcb_resume,
  do_tcb_bind_notification, do_tcb_set_tls_base, do_tcb_suspend, do_tcb_write_registers,
  do_tcb_set_debug, do_untyped_retype,
}

module _ (slot : ℕ) (info : MessageTag) where
  -- The three reads of a port, and the three writes.
  unfoldable pub do_io_port_in : ((slot port : ℕ) → K MessageTag) → K MessageTag
  unfolding checked get_mr
  do_io_port_in read = do port ← get_mr 0; checked cap_io_port 1 0 slot info (read slot port)

  unfoldable pub do_io_port_out : ((slot port value : ℕ) → K MessageTag) → K MessageTag
  unfolding checked get_mr
  do_io_port_out write = do
    port ← get_mr 0
    value ← get_mr 1
    checked cap_io_port 2 0 slot info (write slot port value)

  unfoldable pub do_io_port_control_issue : K MessageTag
  unfolding checked get_mr get_cap lookup_cap_slot io_port_control_issue
  do_io_port_control_issue = do
    first_port ← get_mr 0
    last_port ← get_mr 1
    index ← get_mr 2
    depth ← get_mr 3
    checked cap_io_port_control 4 1 slot info
        (with_cap 0 λ root. io_port_control_issue first_port last_port root index (uint8 depth))

  -- The five methods that map: the type of the capability, and what is done.
  unfoldable pub do_map : (type : ℕ) → ((cte vspace vaddr attr : ℕ) → K MessageTag) → K MessageTag
  unfolding checked get_mr get_cap lookup_cap_slot
  do_map type map_it = do
    vaddr ← get_mr 0
    attr ← get_mr 1
    checked type 2 1 slot info (with_cap 0 λ vspace. map_it slot vspace vaddr attr)

  unfoldable pub do_irq_control_get : K MessageTag
  unfolding checked get_mr get_cap lookup_cap_slot irq_control_get
  do_irq_control_get = do
    irq ← get_mr 0
    index ← get_mr 1
    depth ← get_mr 2
    checked cap_irq_control 3 1 slot info
        (with_cap 0 λ root. irq_control_get irq root index (uint8 depth))

  unfoldable pub do_irq_handler_ack : K MessageTag
  unfolding checked irq_handler_ack
  do_irq_handler_ack = checked cap_irq_handler 0 0 slot info (irq_handler_ack slot)

  unfoldable pub do_irq_handler_clear : K MessageTag
  unfolding checked irq_handler_clear
  do_irq_handler_clear = checked cap_irq_handler 0 0 slot info (irq_handler_clear slot)

  unfoldable pub do_irq_handler_set_notification : K MessageTag
  unfolding checked get_cap lookup_cap_slot irq_handler_set_notification
  do_irq_handler_set_notification =
      checked cap_irq_handler 0 1 slot info
        (with_cap 0 λ notification. irq_handler_set_notification slot notification)

  -- `tcb_set_name` copies the bytes of a string, which the model does not have, and is an argument.
  unfoldable pub do_tcb_set_name : ((slot name len : ℕ) → K MessageTag) → K MessageTag
  unfolding checked get_mr
  do_tcb_set_name tcb_set_name = do
    name ← get_mr 0
    len ← get_mr 1
    checked cap_tcb 2 0 slot info (tcb_set_name slot name len)

module _ (fuel : ℕ) (ports : Ports) (tcb_set_name : (slot name len : ℕ) → K MessageTag) where
  unfoldable pub dispatch_method : (slot : ℕ) → MessageTag → K MessageTag
  unfolding do_cnode_copy do_cnode_delete do_cnode_mint do_cnode_revoke do_cnode_debug_print
      do_cnode_debug_get do_tcb_configure do_tcb_read_registers do_tcb_resume
      do_tcb_bind_notification do_tcb_set_tls_base do_tcb_suspend do_tcb_write_registers
      do_tcb_set_debug do_tcb_set_name do_untyped_retype do_io_port_in do_io_port_out
      do_io_port_control_issue do_map do_irq_control_get do_irq_handler_ack do_irq_handler_clear
      do_irq_handler_set_notification io_port_in8 io_port_in16 io_port_in32 io_port_out8
      io_port_out16 io_port_out32 pdpt_map pd_map pt_map page_map huge_page_map
  dispatch_method slot info =
      let is : ℕ → Bool = λ m. info.label == m in
      if is method_cnode_copy
      then do_cnode_copy fuel slot info
      else if is method_cnode_delete
      then do_cnode_delete fuel slot info
      else if is method_cnode_mint
      then do_cnode_mint fuel slot info
      else if is method_cnode_revoke
      then do_cnode_revoke fuel slot info
      else if is method_cnode_debug_print
      then do_cnode_debug_print fuel slot info
      else if is method_cnode_debug_get
      then do_cnode_debug_get fuel slot info
      else if is method_tcb_configure
      then do_tcb_configure slot info
      else if is method_tcb_read_registers
      then do_tcb_read_registers slot info
      else if is method_tcb_resume
      then do_tcb_resume slot info
      else if is method_tcb_bind_notification
      then do_tcb_bind_notification slot info
      else if is method_tcb_set_tls_base
      then do_tcb_set_tls_base slot info
      else if is method_tcb_suspend
      then do_tcb_suspend slot info
      else if is method_tcb_write_registers
      then do_tcb_write_registers slot info
      else if is method_tcb_set_debug
      then do_tcb_set_debug slot info
      else if is method_tcb_set_name
      then do_tcb_set_name slot info tcb_set_name
      else if is method_untyped_retype
      then do_untyped_retype slot info
      else if is method_io_port_in8
      then do_io_port_in slot info (io_port_in8 ports)
      else if is method_io_port_in16
      then do_io_port_in slot info (io_port_in16 ports)
      else if is method_io_port_in32
      then do_io_port_in slot info (io_port_in32 ports)
      else if is method_io_port_out8
      then do_io_port_out slot info (io_port_out8 ports)
      else if is method_io_port_out16
      then do_io_port_out slot info (io_port_out16 ports)
      else if is method_io_port_out32
      then do_io_port_out slot info (io_port_out32 ports)
      else if is method_io_port_control_issue
      then do_io_port_control_issue slot info
      else if is method_pdpt_map
      then do_map slot info cap_pdpt (λ c v a _. pdpt_map c v a)
      else if is method_pd_map
      then do_map slot info cap_pd (λ c v a _. pd_map c v a)
      else if is method_pt_map
      then do_map slot info cap_pt (λ c v a _. pt_map c v a)
      else if is method_page_map
      then do_map slot info cap_page page_map
      else if is method_huge_page_map
      then do_map slot info cap_huge_page huge_page_map
      else if is method_irq_control_get
      then do_irq_control_get slot info
      else if is method_irq_handler_ack
      then do_irq_handler_ack slot info
      else if is method_irq_handler_clear
      then do_irq_handler_clear slot info
      else if is method_irq_handler_set_notification
      then do_irq_handler_set_notification slot info
      else pure msg_illegal_operation
