-- ===== src/Syscalls.antt =====
-- kern/syscall.c: the system calls. The one lock is held throughout, so a system call is one step.
-- Writing debug output replies success and does nothing else here.
pub mod Replies
mod Tests
use untitled_bare_metal.Base.{ℕ, not, ◌&&◌, ◌==◌, if◌then◌else◌}
use untitled_bare_metal.Sys.{
  cap_notification, cap_endpoint, invalid_capability, invalid_syscall, no_error, sys_exit,
  sys_debug_write, sys_yield, sys_reply, sys_call, sys_send, sys_nbsend, sys_recv, sys_nbrecv,
  sys_replyrecv,
}
use untitled_bare_metal.Tag.{
  MessageTag, msg_ok, msg_err, msg_noreturn, msg_is_noreturn, message_info_from_word,
}
use untitled_bare_metal.Kernel.{K, pure, ◌>>=◌, ◌>>◌, get, skip}
use untitled_bare_metal.CNode.{with_slot, lookup_cap_slot}
use untitled_bare_metal.Threads.{cspace_root, kill_tcb, schedule, set_ipc_result}
use untitled_bare_metal.Endpoints.{
  invoke_endpoint_send, invoke_endpoint_nbsend, invoke_endpoint_recv, invoke_endpoint_nbrecv,
  invoke_endpoint_call, invoke_reply, invoke_reply_recv,
}
use untitled_bare_metal.Signals.{invoke_notification_send, invoke_notification_recv}
use untitled_bare_metal.IoPorts.{Ports}
use untitled_bare_metal.Dispatch.Devices.{dispatch_method}

module _ (fuel : ℕ) (ports : Ports) (tcb_set_name : (slot name len : ℕ) → K MessageTag) where
  -- The system calls on the capability in a slot.
  unfoldable pub op_on_slot : (slot syscall_number : ℕ) → MessageTag → K MessageTag
  unfolding dispatch_method invoke_endpoint_call invoke_notification_send invoke_endpoint_send
      invoke_endpoint_nbsend invoke_notification_recv invoke_endpoint_recv invoke_endpoint_nbrecv
      invoke_reply_recv
  op_on_slot slot syscall_number info = do
    k ← get
    let type = (k.cte slot).cap.type
    if syscall_number == sys_call
        then (if not (type == cap_endpoint)
            then dispatch_method fuel ports tcb_set_name slot info
            else (do invoke_endpoint_call slot info; pure msg_noreturn))
        else if syscall_number == sys_send
        then (if not (type == cap_notification) && not (type == cap_endpoint)
            then pure (msg_err invalid_capability 0)
            else if type == cap_notification
            then (do _ ← invoke_notification_send slot; pure msg_noreturn)
            else (do invoke_endpoint_send slot info; pure msg_noreturn))
        else if syscall_number == sys_nbsend
        then (if not (type == cap_endpoint)
            then pure (msg_err invalid_capability 0)
            else (do invoke_endpoint_nbsend slot info; pure msg_noreturn))
        else if syscall_number == sys_recv
        then (if not (type == cap_notification) && not (type == cap_endpoint)
            then pure (msg_err invalid_capability 0)
            else if type == cap_notification
            then invoke_notification_recv slot
            else invoke_endpoint_recv slot)
        else if syscall_number == sys_nbrecv
        then (if not (type == cap_endpoint)
            then pure (msg_err invalid_capability 0)
            else invoke_endpoint_nbrecv slot)
        else if syscall_number == sys_replyrecv
        then (if not (type == cap_endpoint)
            then pure (msg_err invalid_capability 0)
            else invoke_reply_recv slot info)
        else pure (msg_err invalid_syscall 0)

  unfoldable pub op_syscall : (a0 a1 syscall_number : ℕ) → K MessageTag
  unfolding message_info_from_word kill_tcb schedule invoke_reply lookup_cap_slot op_on_slot
  op_syscall a0 a1 syscall_number = do
    k ← get
    let info = message_info_from_word a1
    if syscall_number == sys_exit
        then (do kill_tcb k.current_tcb; schedule; pure msg_noreturn)
        else if syscall_number == sys_debug_write
        then pure (msg_ok 0)
        else if syscall_number == sys_yield
        then (do schedule; pure msg_noreturn)
        else if syscall_number == sys_reply
        then (do invoke_reply info; pure info)
        else with_slot (cspace_root k.current_tcb) a0 64 λ slot. op_on_slot slot syscall_number info

  unfoldable pub do_syscall : (a0 a1 syscall_number : ℕ) → K (Unit {0})
  unfolding op_syscall msg_is_noreturn set_ipc_result
  do_syscall a0 a1 syscall_number = do
    tag ← op_syscall a0 a1 syscall_number
    k ← get
    if not (msg_is_noreturn tag) then set_ipc_result k.current_tcb tag else skip
