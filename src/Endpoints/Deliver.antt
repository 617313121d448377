-- ===== src/Endpoints/Deliver.antt =====
-- A message meets a thread that waits at the endpoint.
use untitled_bare_metal.Base.{
  ℕ, ◌+◌, ◌-◌, ◌≡◌, ◌≢◌, refl, ap, ◌∙◌, Bool, true, false, not, ◌||◌, List, ◌∷◌, arith, ◌==◌,
  update,
}
use untitled_bare_metal.Tag.{MessageTag}
use untitled_bare_metal.ListHead.{pop_from_list, is_list_empty}
use untitled_bare_metal.ListHead.Ring.{Ring, next-start}
use untitled_bare_metal.ListHead.Remove.{pop_from_list-Ring}
use untitled_bare_metal.Kernel.{TcbState, Kernel, Outcome, and_then, done, ◌is◌}
use untitled_bare_metal.Kernel.Registers.{assert_then}
use untitled_bare_metal.Threads.{send_receive_node, switch_tcb}
use untitled_bare_metal.Endpoints.{
  pop_waiting, send_will_block, send_message_directly, send_message_to_blocked_receiver,
  endpoint_send, first_state,
}
use untitled_bare_metal.Endpoints.Transfer.{
  Transferred, transferred, transfer_message-ok, transferred-Transferred,
}

-- The first thread of the queue of `e` is `t`.
pub head_thread :
    (k : Kernel) (e t : ℕ) (rest : List ℕ)
    → Ring k.node e (send_receive_node t ∷ rest)
    → (is_list_empty e k.node ≡ false) × ((k.node e).next - 24 ≡ t)
unfolding is_list_empty
head_thread k e t rest r = (
  ground (arith, r.out, next-start k.node e (send_receive_node t ∷ rest) e r.links),
  omega (arith, next-start k.node e (send_receive_node t ∷ rest) e r.links),
)

pub popped :
    (k : Kernel) (e t : ℕ) (rest : List ℕ)
    → Ring k.node e (send_receive_node t ∷ rest)
    → let h = (pop_from_list e k.node).1 in
      (pop_waiting e k ≡ done t (record k { node = h })) × Ring h e rest
unfolding pop_waiting
popped k e t rest r =
    let (head_is, left) = pop_from_list-Ring k.node e (send_receive_node t) rest r in
    (rw (head_is, back), left)
  where
    back : t + 24 - 24 ≡ t
    back = omega arith

pub popped_thread :
    (k : Kernel) (e t : ℕ) (rest : List ℕ)
    → Ring k.node e (send_receive_node t ∷ rest)
    → (pop_from_list e k.node).0 - 24 ≡ t
popped_thread k e t rest r =
    omega (arith, (pop_from_list-Ring k.node e (send_receive_node t) rest r).0)

-- A thread `t` that waits for a message is first at the endpoint `e`.
pub record WaitsFirst (e t : ℕ) (rest : List ℕ) (k : Kernel) : Type 0 where
  pub queue : Ring k.node e (send_receive_node t ∷ rest)
  pub receives : ((k.tcb t).state is TcbState.receiving) ≡ true
  pub thread : t ≢ 0
  pub blocked : t ≢ k.current_tcb
  pub buffer : (k.tcb t).ipc_buffer ≢ 0
  pub own_buffer : (k.tcb k.current_tcb).ipc_buffer ≢ 0
  pub apart : (k.tcb k.current_tcb).ipc_buffer ≢ (k.tcb t).ipc_buffer

-- It has the message, it is the next to run, and the others still wait.
pub record Delivered (e t badge : ℕ) (tag : MessageTag) (rest : List ℕ) (k k' : Kernel)
    : Type 0 where
  pub message : Transferred k.current_tcb t badge tag k k'
  pub queue : Ring k'.node e rest
  pub next : k'.return_to_tcb ≡ t
  pub runs : ((k'.tcb t).state is TcbState.runnable) ≡ true

abbrev delivered : (e t badge : ℕ) → MessageTag → Kernel → Kernel
delivered e t badge tag k =
    let m =
      transferred k.current_tcb t badge tag (record k { node = (pop_from_list e k.node).1 }) in
    record m {
      tcb = update m.tcb t (record (m.tcb t) { state = TcbState.runnable });
      return_to_tcb = t;
    }

direct :
    (t badge : ℕ) (tag : MessageTag) (k : Kernel)
    → tag.extra_caps ≡ 0
    → t ≢ 0
    → t ≢ k.current_tcb
    → (k.tcb t).ipc_buffer ≢ 0
    → (k.tcb k.current_tcb).ipc_buffer ≢ 0
    → send_message_directly t badge tag true k
      ≡ switch_tcb t (transferred k.current_tcb t badge tag k)
unfolding send_message_directly
direct t badge tag k none_ nz away b b' =
    assert_then (not (t == 0)) _ k (ground arith)
    ∙ assert_then (not ((k.tcb t).ipc_buffer == 0)) _ k (ground arith)
    ∙ assert_then (not ((k.tcb k.current_tcb).ipc_buffer == 0)) _ k (ground arith)
    ∙ rw (transfer_message-ok k.current_tcb t badge tag k none_ (nz, λ e. absurd (away e)))

sends :
    (e t badge : ℕ) (tag : MessageTag) (rest : List ℕ) (k : Kernel)
    → WaitsFirst e t rest k
    → tag.extra_caps ≡ 0
    → send_message_to_blocked_receiver e badge tag true k ≡ done tt (delivered e t badge tag k)
unfolding send_message_to_blocked_receiver switch_tcb
sends e t badge tag rest k w none_ =
    ap (λ (o : Outcome ℕ). and_then o (λ r. send_message_directly r badge tag true))
      (popped k e t rest w.queue).0
    ∙ direct t badge tag (record k { node = (pop_from_list e k.node).1 }) none_ w.thread w.blocked
        w.buffer w.own_buffer

-- If a blocked thread that waits for a message is first in the queue of an endpoint, both threads
-- have buffers of their own and the tag carries no capability, then endpoint_send returns: the
-- words of the message, the badge and the tag are with the receiver, the rest of its message words
-- and all other buffers are as before, a sender that expects a reply is noted, the receiver is
-- runnable and next to run, and the others stay queued in order.
pub endpoint_send-Delivered :
    (e t badge : ℕ) (tag : MessageTag) (is_call : Bool) (rest : List ℕ) (k : Kernel)
    → WaitsFirst e t rest k
    → tag.extra_caps ≡ 0
    → (k' : Kernel) × (endpoint_send e badge tag is_call k ≡ done tt k')
      × Delivered e t badge tag rest k k'
unfolding endpoint_send send_will_block
endpoint_send-Delivered e t badge tag is_call rest k w none_ =
    let left = (popped k e t rest w.queue).1 in
    let m = record k { node = (pop_from_list e k.node).1 } in
    let sent = transferred-Transferred k.current_tcb t badge tag m w.apart in
    (
      delivered e t badge tag k,
      rw ready (sends e t badge tag rest k w none_),
      record {
        message = record {
          words = sent.words;
          rest = sent.rest;
          badge_ = sent.badge_;
          tag_ = ground (arith, sent.tag_);
          reply = λ x. ground (arith, sent.reply x);
          others = sent.others;
        };
        queue = left;
        next = refl;
        runs = ground arith;
      },
    )
  where
    first_is : first_state e k ≡ (k.tcb t).state
    first_is = ap (λ (a : ℕ). (k.tcb a).state) (head_thread k e t rest w.queue).1

    ready :
        is_list_empty e k.node
          || (first_state e k is TcbState.sending)
          || (first_state e k is TcbState.calling)
        ≡ false
    ready = rw ((head_thread k e t rest w.queue).0, first_is) (ground (arith, w.receives))
