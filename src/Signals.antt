-- ===== src/Signals.antt =====
-- kern/obj/notification.c: a notification is a word of pending badges and a list of waiting threads,
-- which is its second field.
pub mod Wake
mod Tests
use Prim.Native.Nat.{bit_or}
use untitled_bare_metal.Base.{ℕ, ◌+◌, ◌-◌, not, ◌&&◌, ◌==◌, if◌then◌else◌}
use untitled_bare_metal.Sys.{cap_notification}
use untitled_bare_metal.Tag.{MessageTag, msg_ok, msg_noreturn}
use untitled_bare_metal.Cap.{cap_ptr}
use untitled_bare_metal.ListHead.{append_to_list, remove_from_list, is_list_empty, first_item}
use untitled_bare_metal.Kernel.{
  TcbState, K, pure, ◌>>=◌, ◌>>◌, get, when, skip, assert, set_buffer, set_node, set_notification,
  ◌is◌,
}
use untitled_bare_metal.Threads.{
  send_receive_node, set_state, switch_tcb, schedule, kill_tcb, set_ipc_result,
}

-- &nfn->list
abbrev pub notification_list : ℕ → ℕ
notification_list nfn = nfn + 8

unfoldable pub signal_waiting_receiver : (receiver badge : ℕ) → K MessageTag
unfolding set_ipc_result switch_tcb
signal_waiting_receiver receiver badge = do
  set_ipc_result receiver (msg_ok 0)
  k ← get
  set_buffer (k.tcb receiver).ipc_buffer (λ b. record b { sender_badge = badge })
  switch_tcb receiver
  pure (msg_ok 0)

unfoldable pub signal_bound_receiver_waiting_on_something_else : (receiver badge : ℕ) → K (Unit {0})
unfolding signal_waiting_receiver
signal_bound_receiver_waiting_on_something_else receiver badge = do
  set_node (remove_from_list (send_receive_node receiver))
  _ ← signal_waiting_receiver receiver badge
  skip

unfoldable pub queue_receiver_on_notification : (nfn : ℕ) → K MessageTag
unfolding schedule
queue_receiver_on_notification nfn = do
  k ← get
  set_node (append_to_list (send_receive_node k.current_tcb) (notification_list nfn))
  set_state k.current_tcb TcbState.receiving
  schedule
  pure msg_noreturn

-- The word with the badge in it, and the threads that may be woken.
unfoldable pub notification_signal : (nfn badge : ℕ) → K (Unit {0})
unfolding signal_waiting_receiver signal_bound_receiver_waiting_on_something_else
notification_signal nfn badge = do
  set_notification nfn (λ n. record n { word = bit_or n.word badge })
  k ← get
  let n = k.notification nfn
  let list = notification_list nfn
  let empty = is_list_empty list k.node
  let tcb = first_item list k.node - 24
  if empty && not (n.bound_tcb == 0) && ((k.tcb n.bound_tcb).state is TcbState.receiving)
      then (do
        set_notification nfn (λ m. record m { word = 0 })
        signal_bound_receiver_waiting_on_something_else n.bound_tcb n.word)
      else if empty
      then skip
      else (do
        set_notification nfn (λ m. record m { word = 0 })
        set_node (remove_from_list (send_receive_node tcb))
        _ ← signal_waiting_receiver tcb n.word
        skip)

unfoldable pub invoke_notification_send : (cap : ℕ) → K MessageTag
unfolding notification_signal
invoke_notification_send cap = do
  k ← get
  assert ((k.cte cap).cap.type == cap_notification)
  notification_signal (cap_ptr (k.cte cap).cap) (k.cte cap).cap.badge
  pure (msg_ok 0)

unfoldable pub invoke_notification_recv : (cap : ℕ) → K MessageTag
unfolding kill_tcb schedule queue_receiver_on_notification
invoke_notification_recv cap = do
  k ← get
  assert ((k.cte cap).cap.type == cap_notification)
  let nfn = cap_ptr (k.cte cap).cap
  let bound = (k.notification nfn).bound_tcb
  when (not (bound == 0) && not (bound == k.current_tcb)) (do kill_tcb k.current_tcb; schedule)
  if (k.notification nfn).word == 0
      then queue_receiver_on_notification nfn
      else (do set_notification nfn (λ n. record n { word = 0 }); pure (msg_ok 0))
