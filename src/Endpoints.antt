-- ===== src/Endpoints.antt =====
-- kern/obj/endpoint.c: messages between threads, and the queue of an endpoint. The list of an endpoint
-- is its first field, so an endpoint is known by the address of its list. A queue holds threads by
-- their `send_receive_node`.
pub mod Transfer
pub mod Deliver
pub mod Receive
pub mod Blocked
pub mod Caps
mod Tests
use untitled_bare_metal.Base.{
  ℕ, ◌+◌, ◌-◌, Bool, true, false, not, ◌&&◌, ◌||◌, ltb, ◌==◌, if◌then◌else◌,
}
use untitled_bare_metal.Sys.{no_error, cap_endpoint, cap_rights_all}
use untitled_bare_metal.Tag.{MessageTag, msg_ok, msg_noreturn, message_info_to_word}
use untitled_bare_metal.Cap.{cap_ptr}
use untitled_bare_metal.Cdt.{copy_cap}
use untitled_bare_metal.ListHead.{append_to_list, pop_from_list, is_list_empty, first_item}
use untitled_bare_metal.Kernel.{
  TcbState, IpcBuffer, Kernel, panicked, done, K, pure, ◌>>=◌, ◌>>◌, get, when, assert, set_tcb,
  set_buffer, set_node, set_notification, ◌is◌,
}
use untitled_bare_metal.CNode.{lookup_cap_slot_raw, on_slots}
use untitled_bare_metal.Threads.{
  send_receive_node, cspace_root, set_state, schedule_tcb, switch_tcb, schedule, kill_tcb,
  get_pending_ipc_info, set_ipc_result,
}

-- MESSAGE_MAX_LENGTH
abbrev pub message_max_length : ℕ
message_max_length = 504

-- memcpy of `n` words from the start of one buffer to another. Behind the 504 message words come the
-- badge, three capability words and the receive slot.
unfoldable pub copy_words : ℕ → (from to : IpcBuffer) → IpcBuffer
copy_words n from to = record {
  msg = λ i. if ltb i n then from.msg i else to.msg i;
  sender_badge = if ltb 504 n then from.sender_badge else to.sender_badge;
  caps_or_badges = λ i. if ltb (505 + i) n then from.caps_or_badges i else to.caps_or_badges i;
  receive_cnode = if ltb 508 n then from.receive_cnode else to.receive_cnode;
  receive_index = if ltb 509 n then from.receive_index else to.receive_index;
  receive_depth = if ltb 510 n then from.receive_depth else to.receive_depth;
}

abbrev dropped : MessageTag → MessageTag
dropped tag = record tag { extra_caps = 0 }

-- The part of `transfer_message` for a capability. A failed lookup drops it.
unfoldable pub transfer_cap : (sender receiver : ℕ) → MessageTag → K MessageTag
unfolding lookup_cap_slot_raw copy_cap
transfer_cap sender receiver tag = do
  k ← get
  let from = k.buffer (k.tcb sender).ipc_buffer
  let to = k.buffer (k.tcb receiver).ipc_buffer
  if tag.extra_caps == 0 then pure tag else (do
    (err, cap) ← lookup_cap_slot_raw (cspace_root sender) (from.caps_or_badges 0) 64
    if not (err == no_error) then pure (dropped tag) else (do
      (err1, root) ← lookup_cap_slot_raw (cspace_root receiver) to.receive_cnode 64
      if not (err1 == no_error) then pure (dropped tag) else (do
        (err2, slot) ← lookup_cap_slot_raw root to.receive_index to.receive_depth
        if not (err2 == no_error)
            then pure (dropped tag)
            else (on_slots (copy_cap slot cap cap_rights_all) >>= λ _. pure tag))))

unfoldable pub transfer_message : (sender receiver badge : ℕ) → MessageTag → K MessageTag
unfolding copy_words transfer_cap set_ipc_result
transfer_message sender receiver badge tag = do
  k ← get
  let from = (k.tcb sender).ipc_buffer
  let to = (k.tcb receiver).ipc_buffer
  set_buffer to (copy_words tag.length (k.buffer from))
  set_buffer to (λ b. record b { sender_badge = badge })
  tag' ← transfer_cap sender receiver tag
  when (k.tcb sender).expects_reply (set_tcb receiver (λ r. record r { reply_to = sender }))
  set_ipc_result receiver tag'
  pure tag'

unfoldable pub send_message_directly :
    (receiver badge : ℕ) → MessageTag → (resume_now : Bool) → K (Unit {0})
unfolding transfer_message switch_tcb schedule_tcb
send_message_directly receiver badge tag resume_now = do
  k ← get
  assert (not (receiver == 0))
  assert (not ((k.tcb receiver).ipc_buffer == 0))
  assert (not ((k.tcb k.current_tcb).ipc_buffer == 0))
  _ ← transfer_message k.current_tcb receiver badge tag
  if resume_now then switch_tcb receiver else schedule_tcb receiver

-- pop_from_list (&e->list), with the thread that the node lies in
unfoldable pub pop_waiting : (e : ℕ) → K ℕ
pop_waiting e k = let (node, h) = pop_from_list e k.node in done (node - 24) (record k { node = h })

unfoldable pub send_message_to_blocked_receiver :
    (e badge : ℕ) → MessageTag → (resume_now : Bool) → K (Unit {0})
unfolding pop_waiting send_message_directly
send_message_to_blocked_receiver e badge tag resume_now = do
  receiver ← pop_waiting e
  send_message_directly receiver badge tag resume_now

unfoldable pub queue_message_on_endpoint :
    (e badge : ℕ) → MessageTag → (is_call : Bool) → K (Unit {0})
unfolding get_pending_ipc_info message_info_to_word schedule
queue_message_on_endpoint e badge tag is_call = do
  k ← get
  pending ← get_pending_ipc_info k.current_tcb
  assert (message_info_to_word pending == message_info_to_word tag)
  set_node (append_to_list (send_receive_node k.current_tcb) e)
  set_state k.current_tcb (if is_call then TcbState.calling else TcbState.sending)
  set_tcb k.current_tcb (λ r. record r { endpoint_badge = badge })
  schedule

unfoldable pub receive_message_from_blocked_sender : (e : ℕ) → K MessageTag
unfolding pop_waiting get_pending_ipc_info transfer_message schedule_tcb
receive_message_from_blocked_sender e = do
  sender ← pop_waiting e
  tag ← get_pending_ipc_info sender
  k ← get
  result ← transfer_message sender k.current_tcb (k.tcb sender).endpoint_badge tag
  k' ← get
  if (k'.tcb sender).expects_reply
      then set_tcb k'.current_tcb (λ r. record r { reply_to = sender })
      else schedule_tcb sender
  pure result

unfoldable pub queue_receiver_on_endpoint : (e : ℕ) → K MessageTag
unfolding schedule
queue_receiver_on_endpoint e = do
  k ← get
  set_node (append_to_list (send_receive_node k.current_tcb) e)
  set_state k.current_tcb TcbState.receiving
  schedule
  pure msg_noreturn

-- first_tcb (e)->state
abbrev pub first_state : (e : ℕ) → Kernel → TcbState
first_state e k = (k.tcb (first_item e k.node - 24)).state

unfoldable pub recv_will_block : (e : ℕ) → Kernel → Bool
recv_will_block e k = is_list_empty e k.node || (first_state e k is TcbState.receiving)

unfoldable pub send_will_block : (e : ℕ) → Kernel → Bool
send_will_block e k =
    is_list_empty e k.node
    || (first_state e k is TcbState.sending)
    || (first_state e k is TcbState.calling)

unfoldable pub endpoint_send : (e badge : ℕ) → MessageTag → (is_call : Bool) → K (Unit {0})
unfolding send_will_block queue_message_on_endpoint send_message_to_blocked_receiver
endpoint_send e badge tag is_call k =
    if send_will_block e k
    then queue_message_on_endpoint e badge tag is_call k
    else send_message_to_blocked_receiver e badge tag true k

unfoldable pub endpoint_nbsend : (e badge : ℕ) → MessageTag → K (Unit {0})
unfolding send_will_block send_message_to_blocked_receiver
endpoint_nbsend e badge tag k =
    if send_will_block e k then done tt k else send_message_to_blocked_receiver e badge tag false k

unfoldable pub endpoint_recv : (e : ℕ) → K MessageTag
unfolding recv_will_block queue_receiver_on_endpoint receive_message_from_blocked_sender
endpoint_recv e k =
    if recv_will_block e k
    then queue_receiver_on_endpoint e k
    else receive_message_from_blocked_sender e k

unfoldable pub endpoint_nbrecv : (e : ℕ) → K MessageTag
unfolding recv_will_block receive_message_from_blocked_sender
endpoint_nbrecv e k =
    if recv_will_block e k then done (msg_ok 0) k else receive_message_from_blocked_sender e k

-- What the capability in a slot must be, and what it names.
abbrev endpoint_of : (cap : ℕ) → K ℕ
endpoint_of cap = do
  k ← get
  assert ((k.cte cap).cap.type == cap_endpoint)
  pure (cap_ptr (k.cte cap).cap)

unfoldable pub invoke_endpoint_send : (cap : ℕ) → MessageTag → K (Unit {0})
unfolding endpoint_send
invoke_endpoint_send cap tag = do
  e ← endpoint_of cap
  k ← get
  set_tcb k.current_tcb (λ r. record r { expects_reply = false })
  endpoint_send e (k.cte cap).cap.badge tag false

-- The body ends in `panic` before it does anything.
unfoldable pub invoke_endpoint_nbsend : (cap : ℕ) → MessageTag → K (Unit {0})
invoke_endpoint_nbsend cap tag k = panicked

unfoldable pub handle_recv_with_pending_notification : K Bool
handle_recv_with_pending_notification = do
  k ← get
  let me = k.tcb k.current_tcb
  let word = (k.notification me.bound_notification).word
  if not (me.bound_notification == 0) && not (word == 0)
      then (do
        set_buffer me.ipc_buffer (λ b. record b { sender_badge = word })
        set_notification me.bound_notification (λ n. record n { word = 0 })
        pure true)
      else pure false

unfoldable pub invoke_endpoint_recv : (cap : ℕ) → K MessageTag
unfolding handle_recv_with_pending_notification endpoint_recv
invoke_endpoint_recv cap = do
  e ← endpoint_of cap
  pending ← handle_recv_with_pending_notification
  if pending then pure (msg_ok 0) else endpoint_recv e

unfoldable pub invoke_endpoint_nbrecv : (cap : ℕ) → K MessageTag
unfolding handle_recv_with_pending_notification endpoint_nbrecv
invoke_endpoint_nbrecv cap = do
  e ← endpoint_of cap
  pending ← handle_recv_with_pending_notification
  if pending then pure (msg_ok 0) else endpoint_nbrecv e

unfoldable pub invoke_endpoint_call : (cap : ℕ) → MessageTag → K (Unit {0})
unfolding endpoint_send
invoke_endpoint_call cap tag = do
  e ← endpoint_of cap
  k ← get
  set_tcb k.current_tcb (λ r. record r { expects_reply = true; state = TcbState.calling })
  endpoint_send e (k.cte cap).cap.badge tag true

-- The trap for a debugger is left out.
unfoldable pub invoke_reply : MessageTag → K (Unit {0})
unfolding kill_tcb send_message_directly
invoke_reply tag = do
  k ← get
  let receiver = (k.tcb k.current_tcb).reply_to
  when ((receiver == 0) || not ((k.tcb receiver).state is TcbState.calling))
      (kill_tcb k.current_tcb)
  send_message_directly receiver 0 tag false

unfoldable pub invoke_reply_recv : (cap : ℕ) → MessageTag → K MessageTag
unfolding invoke_reply invoke_endpoint_recv
invoke_reply_recv cap tag = do invoke_reply tag; invoke_endpoint_recv cap
