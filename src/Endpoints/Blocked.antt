-- ===== src/Endpoints/Blocked.antt =====
-- A thread that blocks on sending, and a reply that nobody waits for.
use untitled_bare_metal.Base.{
  ℕ, ◌≡◌, ◌≢◌, refl, ap, Bool, true, false, List, ◌∷◌, arith, has, ◌==◌, update, inl, inr,
  Bool-cases, if◌then◌else◌,
}
use untitled_bare_metal.Tag.{MessageTag, message_info_from_word, message_info_to_word}
use untitled_bare_metal.ListHead.{append_to_list, is_list_empty}
use untitled_bare_metal.ListHead.Ring.{Ring, append_to_list-Ring}
use untitled_bare_metal.ListHead.Apart.{Apart, append-Apart}
use untitled_bare_metal.Kernel.{TcbState, Kernel, done, panicked}
use untitled_bare_metal.Threads.{
  send_receive_node, run_node, schedule, kill_tcb, get_pending_ipc_info,
}
use untitled_bare_metal.Endpoints.{
  send_will_block, send_message_directly, endpoint_send, queue_message_on_endpoint, invoke_reply,
}

-- The kernel with the current thread in the queue of the endpoint.
abbrev queued : (e badge : ℕ) → (is_call : Bool) → Kernel → Kernel
queued e badge is_call k =
    let t = k.current_tcb in
    let s = if is_call then TcbState.calling else TcbState.sending in
    let m = record k {
      node = append_to_list (send_receive_node t) e k.node;
      tcb = update k.tcb t (record (k.tcb t) { state = s });
    } in
    record m { tcb = update m.tcb t (record (m.tcb t) { endpoint_badge = badge }) }

-- The current thread can block: the tag that is sent is the one in its live frame.
pub record CanBlock (tag : MessageTag) (k : Kernel) : Type 0 where
  pub thread : k.current_tcb ≢ 0
  pub frame : (k.tcb k.current_tcb).current_user_frame ≢ 0
  pub tag_ : message_info_from_word (k.frame (k.tcb k.current_tcb).current_user_frame).rsi ≡ tag

-- It is first in the queue, with its badge, in front of `xs`, and the run queue is as before.
pub record Queued (e badge : ℕ) (is_call : Bool) (xs q : List ℕ) (k k' : Kernel) : Type 0 where
  pub queue : Ring k'.node e (send_receive_node k.current_tcb ∷ xs)
  pub run_queue : Ring k'.node k.runnable_tcbs q
  pub state :
      (k'.tcb k.current_tcb).state ≡ (if is_call then TcbState.calling else TcbState.sending)
  pub badge_ : (k'.tcb k.current_tcb).endpoint_badge ≡ badge

equal_test : (a b : ℕ) → a ≡ b → (a == b) ≡ true
equal_test a b e = ground arith

pending_now :
    (tag : MessageTag) (k : Kernel)
    → CanBlock tag k
    → get_pending_ipc_info k.current_tcb k ≡ done tag k
unfolding get_pending_ipc_info
pending_now tag k c = rw (thread, same, has_frame) (ap (λ (t : MessageTag). done t k) c.tag_)
  where
    thread : (k.current_tcb == 0) ≡ false
    thread = ground (arith, c.thread)

    same : (k.current_tcb == k.current_tcb) ≡ true
    same = ground arith

    has_frame : ((k.tcb k.current_tcb).current_user_frame == 0) ≡ false
    has_frame = ground (arith, c.frame)

queues :
    (e badge : ℕ) (tag : MessageTag) (is_call : Bool) (k : Kernel)
    → CanBlock tag k
    → queue_message_on_endpoint e badge tag is_call k ≡ schedule (queued e badge is_call k)
unfolding queue_message_on_endpoint
queues e badge tag is_call k c =
    rw (pending_now tag k c, equal_test (message_info_to_word tag) (message_info_to_word tag) refl)

-- If a send will block, the tag is the one in the live frame of the current thread, its node is in
-- neither list, and the endpoint's queue and the run queue share no node, then endpoint_send goes
-- on as schedule does from a state in which the current thread is first in the queue, in front of
-- those who waited, with the state of a sender or a caller and the badge, and the run queue is as
-- before.
pub endpoint_send-Queued :
    (e badge : ℕ) (tag : MessageTag) (is_call : Bool) (xs q : List ℕ) (k : Kernel)
    → send_will_block e k ≡ true
    → CanBlock tag k
    → Ring k.node e xs
    → Ring k.node k.runnable_tcbs q
    → has (send_receive_node k.current_tcb) (e ∷ xs) ≡ false
    → Apart (k.runnable_tcbs ∷ q) (send_receive_node k.current_tcb ∷ e ∷ xs)
    → (k' : Kernel) × (endpoint_send e badge tag is_call k ≡ schedule k')
      × Queued e badge is_call xs q k k'
unfolding endpoint_send
endpoint_send-Queued e badge tag is_call xs q k blocks c r run new apart = (
  queued e badge is_call k,
  rw blocks (queues e badge tag is_call k c),
  record {
    queue = append_to_list-Ring k.node (send_receive_node k.current_tcb) e xs r new;
    run_queue =
        append-Apart k.node (send_receive_node k.current_tcb) k.runnable_tcbs e q xs run r apart;
    state = ground arith;
    badge_ = ground arith;
  },
)

-- A reply by a thread that nobody waits for ends in a failed assertion.
pub invoke_reply-panics :
    (tag : MessageTag) (k : Kernel)
    → (k.tcb k.current_tcb).reply_to ≡ 0
    → invoke_reply tag k ≡ panicked
unfolding invoke_reply kill_tcb send_message_directly
invoke_reply-panics tag k nobody =
    elim (Bool-cases (is_list_empty (run_node k.current_tcb) k.node)) [
      | inl idle ↦ rw (no_receiver, idle, same)
      | inr waiting ↦ rw (no_receiver, waiting)
    ]
  where
    no_receiver : ((k.tcb k.current_tcb).reply_to == 0) ≡ true
    no_receiver = ground arith

    same : (k.current_tcb == k.current_tcb) ≡ true
    same = ground arith
