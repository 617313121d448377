-- ===== src/Threads.antt =====
-- kern/obj/tcb.c and include/kern/ipc.h: threads, the run queue and the frames of system calls. The
-- lists and the slots in a `struct tcb` lie at fixed offsets from its address. Names, the segments and
-- flags of a frame, and the jump to user mode are left out, and the lock of the run queue is.
pub mod RunQueue
mod Tests
use untitled_bare_metal.Base.{ℕ, ◌+◌, ◌-◌, not, ◌&&◌, ◌==◌, if◌then◌else◌, update}
use untitled_bare_metal.Sys.{cap_notification, cap_rights_all}
use untitled_bare_metal.Tag.{
  MessageTag, msg_ok, msg_illegal_operation, message_info_to_word, message_info_from_word,
}
use untitled_bare_metal.Cap.{cap_ptr}
use untitled_bare_metal.Cdt.{copy_cap}
use untitled_bare_metal.ListHead.{append_to_list, remove_from_list, pop_from_list, is_list_empty}
use untitled_bare_metal.Kernel.{
  TcbState, done, K, pure, ◌>>=◌, ◌>>◌, get, modify, when, skip, assert, set_tcb, set_node,
  set_notification, ◌is◌,
}
use untitled_bare_metal.CNode.{on_slots}
use untitled_bare_metal.Pages.{physical_of}

-- &t->runnable_tcbs and the others
abbrev pub run_node : ℕ → ℕ
run_node t = t + 8

abbrev pub send_receive_node : ℕ → ℕ
send_receive_node t = t + 24

abbrev pub cspace_root : ℕ → ℕ
cspace_root t = t + 80

abbrev pub vspace_root : ℕ → ℕ
vspace_root t = t + 112

abbrev pub ipc_buffer_frame : ℕ → ℕ
ipc_buffer_frame t = t + 144

abbrev pub set_state : ℕ → TcbState → K (Unit {0})
set_state t s = set_tcb t λ r. record r { state = s }

abbrev pub destroy_tcb : ℕ → K (Unit {0})
destroy_tcb t = do
  k ← get
  assert (is_list_empty (run_node t) k.node)
  assert ((k.tcb t).state is TcbState.dead)

unfoldable pub save_tcb_state : ℕ → K (Unit {0})
save_tcb_state t = do
  k ← get
  assert (not ((k.tcb t).current_user_frame == 0))
  set_tcb t λ r. record r { saved_state = k.frame r.current_user_frame }

unfoldable pub schedule_tcb : ℕ → K (Unit {0})
schedule_tcb t = do
  k ← get
  assert (not ((k.tcb t).state is TcbState.dead))
  set_state t TcbState.runnable
  set_node (append_to_list (run_node t) k.runnable_tcbs)

unfoldable pub suspend_tcb : ℕ → K (Unit {0})
suspend_tcb t = do set_state t TcbState.suspended; set_node (remove_from_list (run_node t))

unfoldable pub tcb_resume : ℕ → K MessageTag
unfolding schedule_tcb
tcb_resume cap = do k ← get; schedule_tcb (cap_ptr (k.cte cap).cap); pure (msg_ok 0)

unfoldable pub tcb_suspend : ℕ → K MessageTag
unfolding suspend_tcb
tcb_suspend cap = do k ← get; suspend_tcb (cap_ptr (k.cte cap).cap); pure (msg_ok 0)

-- `regs` is an address, and the flags are not looked at.
unfoldable pub tcb_read_registers : (cap regs : ℕ) → K MessageTag
tcb_read_registers cap regs = do
  modify λ k. record k { frame = update k.frame regs (k.tcb (cap_ptr (k.cte cap).cap)).saved_state }
  pure (msg_ok 0)

unfoldable pub tcb_write_registers : (cap regs : ℕ) → K MessageTag
tcb_write_registers cap regs = do
  k ← get
  set_tcb (cap_ptr (k.cte cap).cap) λ r. record r { saved_state = k.frame regs }
  pure (msg_ok 0)

-- The replies of `copy_cap` are dropped.
abbrev pub copy_quietly : (dest src : ℕ) → K (Unit {0})
copy_quietly dest src = on_slots (copy_cap dest src cap_rights_all) >>= λ _. skip

unfoldable pub tcb_configure : (slot cspace vspace buffer_frame : ℕ) → K MessageTag
unfolding copy_cap
tcb_configure slot cspace vspace buffer_frame = do
  k ← get
  let tcb = cap_ptr (k.cte slot).cap
  copy_quietly (cspace_root tcb) cspace
  copy_quietly (vspace_root tcb) vspace
  copy_quietly (ipc_buffer_frame tcb) buffer_frame
  k' ← get
  set_tcb tcb λ r. record r { ipc_buffer = cap_ptr (k'.cte buffer_frame).cap }
  pure (msg_ok 0)

unfoldable pub tcb_bind_notification : (cap notification : ℕ) → K MessageTag
tcb_bind_notification cap notification = do
  k ← get
  let tcb = cap_ptr (k.cte cap).cap
  let n = cap_ptr (k.cte notification).cap
  if not ((k.cte notification).cap.type == cap_notification)
      then pure msg_illegal_operation
      else if not ((k.notification n).bound_tcb == 0)
      then pure msg_illegal_operation
      else (do
        set_tcb tcb λ r. record r { bound_notification = n }
        set_notification n λ m. record m { bound_tcb = tcb }
        pure (msg_ok 0))

unfoldable pub tcb_set_tls_base : (cap tls_base : ℕ) → K MessageTag
tcb_set_tls_base cap tls_base = do
  k ← get
  let tcb = cap_ptr (k.cte cap).cap
  set_tcb tcb λ r. record r { tls_base = tls_base }
  when (tcb == k.current_tcb) (modify λ k'. record k' { user_tls_base = tls_base })
  pure (msg_ok 0)

unfoldable pub tcb_set_debug : (cap flags : ℕ) → K MessageTag
tcb_set_debug cap flags = do
  k ← get
  set_tcb (cap_ptr (k.cte cap).cap) λ r. record r { debug = not (flags == 0) }
  pure (msg_ok 0)

unfoldable pub switch_tcb : ℕ → K (Unit {0})
switch_tcb t = do set_state t TcbState.runnable; modify λ k. record k { return_to_tcb = t }

-- The physical address of the page table of a thread.
unfoldable pub tcb_vm_root : ℕ → K ℕ
tcb_vm_root t = do k ← get; physical_of (cap_ptr (k.cte (vspace_root t)).cap)

-- The frame that is jumped to is `saved_state` of the new current thread.
unfoldable pub switch_tcb_actual : ℕ → K (Unit {0})
unfolding schedule_tcb save_tcb_state tcb_vm_root
switch_tcb_actual t = do
  k ← get
  let current = k.current_tcb
  assert (not (current == t))
  when (not (current == 0) && not ((k.tcb current).state is TcbState.dead)) (save_tcb_state current)
  when (not (current == 0) && ((k.tcb current).state is TcbState.running)) (schedule_tcb current)
  k' ← get
  assert ((k'.tcb t).state is TcbState.runnable)
  modify λ m. record m { current_tcb = t }
  root ← tcb_vm_root t
  modify λ m. record m { vm_root = root; user_tls_base = (m.tcb t).tls_base }
  set_state t TcbState.running

-- Without a thread to return to, the processor halts until an interrupt.
unfoldable pub return_from_kernel_code : K (Unit {0})
unfolding switch_tcb_actual save_tcb_state
return_from_kernel_code = do
  k ← get
  if k.return_to_tcb == k.current_tcb
      then skip
      else if not (k.return_to_tcb == 0)
      then switch_tcb_actual k.return_to_tcb
      else when (not (k.current_tcb == 0) && not ((k.tcb k.current_tcb).state is TcbState.dead))
          (save_tcb_state k.current_tcb)

unfoldable pub kill_tcb : ℕ → K (Unit {0})
kill_tcb t = do set_state t TcbState.dead; destroy_tcb t

-- Null where no thread is runnable.
unfoldable pub pick_next_tcb : K ℕ
pick_next_tcb k =
    if is_list_empty k.runnable_tcbs k.node
    then done 0 k
    else (let (node, h) = pop_from_list k.runnable_tcbs k.node in
        done (node - 8) (record k { node = h }))

unfoldable pub schedule : K (Unit {0})
unfolding pick_next_tcb switch_tcb
schedule = do
  k ← get
  next ← pick_next_tcb
  if (next == 0) && not (k.current_tcb == 0) && ((k.tcb k.current_tcb).state is TcbState.running)
      then skip
      else if next == 0
      then modify (λ m. record m { return_to_tcb = 0 })
      else switch_tcb next

-- Only the current thread has a live frame: `ipc_frame` with a read and a write of it.
abbrev pub live_frame : ℕ → K ℕ
live_frame t = do
  k ← get
  assert (not ((k.tcb t).current_user_frame == 0))
  pure (k.tcb t).current_user_frame

unfoldable pub get_pending_ipc_info : ℕ → K MessageTag
unfolding message_info_from_word
get_pending_ipc_info t = do
  assert (not (t == 0))
  k ← get
  if t == k.current_tcb
      then (do f ← live_frame t; pure (message_info_from_word (k.frame f).rsi))
      else pure (message_info_from_word (k.tcb t).saved_state.rsi)

unfoldable pub set_ipc_result : ℕ → MessageTag → K (Unit {0})
unfolding message_info_to_word
set_ipc_result t tag = do
  assert (not (t == 0))
  k ← get
  if t == k.current_tcb
      then (do
        f ← live_frame t
        modify λ m. record m {
          frame = update m.frame f (record (m.frame f) { rax = message_info_to_word tag });
        })
      else set_tcb t
          λ r. record r { saved_state = record r.saved_state { rax = message_info_to_word tag } }
