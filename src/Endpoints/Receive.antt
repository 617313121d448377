-- ===== src/Endpoints/Receive.antt =====
-- A thread receives from one that is blocked on sending.
use untitled_bare_metal.Base.{
  ℕ, ◌≡◌, ◌≢◌, refl, ap, ◌∙◌, Bool, true, false, ◌||◌, List, ◌∷◌, arith, has, ◌==◌, update, inl,
  inr, Bool-cases, if◌then◌else◌,
}
use untitled_bare_metal.Tag.{MessageTag, message_info_from_word}
use untitled_bare_metal.ListHead.{pop_from_list, is_list_empty}
use untitled_bare_metal.ListHead.Ring.{Ring, append_to_list-Ring}
use untitled_bare_metal.ListHead.Apart.{Apart, append-Apart, pop-Apart}
use untitled_bare_metal.Kernel.{TcbState, Kernel, done, ◌is◌}
use untitled_bare_metal.Kernel.{set_tcb}
use untitled_bare_metal.Kernel.Registers.{either_step}
use untitled_bare_metal.Threads.{schedule_tcb, send_receive_node, run_node, get_pending_ipc_info}
use untitled_bare_metal.Threads.RunQueue.{scheduled, schedule_tcb-ok}
use untitled_bare_metal.Endpoints.{
  recv_will_block, receive_message_from_blocked_sender, endpoint_recv, first_state,
}
use untitled_bare_metal.Endpoints.Transfer.{
  Transferred, transferred, transfer_message-ok, transferred-Transferred,
}
use untitled_bare_metal.Endpoints.Deliver.{head_thread, popped, popped_thread}

-- A thread `t` that is blocked on sending is first at the endpoint `e`.
pub record SendsFirst (e t : ℕ) (rest : List ℕ) (k : Kernel) : Type 0 where
  pub queue : Ring k.node e (send_receive_node t ∷ rest)
  pub sends : ((k.tcb t).state is TcbState.receiving) ≡ false
  pub alive : ((k.tcb t).state is TcbState.dead) ≡ false
  pub thread : t ≢ 0
  pub blocked : t ≢ k.current_tcb
  pub receiver : k.current_tcb ≢ 0
  pub frame : (k.tcb k.current_tcb).current_user_frame ≢ 0
  pub apart : (k.tcb t).ipc_buffer ≢ (k.tcb k.current_tcb).ipc_buffer

-- The tag that the sender left in its registers.
abbrev pub pending_tag : ℕ → Kernel → MessageTag
pending_tag t k = message_info_from_word (k.tcb t).saved_state.rsi

pending :
    (t : ℕ) (k : Kernel)
    → t ≢ 0
    → t ≢ k.current_tcb
    → get_pending_ipc_info t k ≡ done (pending_tag t k) k
unfolding get_pending_ipc_info
pending t k nz away = rw (thread, blocked)
  where
    thread : (t == 0) ≡ false
    thread = ground arith

    blocked : (t == k.current_tcb) ≡ false
    blocked = ground arith

abbrev moved : (e t : ℕ) → Kernel → Kernel
moved e t k =
    transferred t k.current_tcb (k.tcb t).endpoint_badge (pending_tag t k)
      (record k { node = (pop_from_list e k.node).1 })

-- The sender waits for a reply, or it is runnable again.
abbrev after_receive : (e t : ℕ) → Kernel → Kernel
after_receive e t k =
    let m = moved e t k in
    if (m.tcb t).expects_reply
    then record m {
      tcb = update m.tcb k.current_tcb (record (m.tcb k.current_tcb) { reply_to = t });
    }
    else scheduled t m

receives :
    (e t : ℕ) (rest : List ℕ) (k : Kernel)
    → SendsFirst e t rest k
    → (pending_tag t k).extra_caps ≡ 0
    → receive_message_from_blocked_sender e k ≡ done (pending_tag t k) (after_receive e t k)
unfolding receive_message_from_blocked_sender
receives e t rest k s none_ =
    let popped_k = record k { node = (pop_from_list e k.node).1 } in
    rw (popped_thread k e t rest s.queue) (
      rw (pending t popped_k s.thread s.blocked) (
        rw
          (transfer_message-ok t k.current_tcb (k.tcb t).endpoint_badge (pending_tag t k) popped_k
            none_ (s.receiver, λ x. s.frame))
          (rw last_steps)))
  where
    still_alive : (((moved e t k).tcb t).state is TcbState.dead) ≡ false
    still_alive = ground (arith, s.alive, s.blocked)

    last_steps :
        (if ((moved e t k).tcb t).expects_reply
            then set_tcb (moved e t k).current_tcb (λ r. record r { reply_to = t })
            else schedule_tcb t)
          (moved e t k)
        ≡ done tt (after_receive e t k)
    last_steps =
        either_step ((moved e t k).tcb t).expects_reply _ _ (moved e t k) _ _ refl
          (schedule_tcb-ok t (moved e t k) still_alive)

-- The message is here. A caller waits for the reply; any other sender is first in the run queue,
-- whose other threads are `q`. The rest of the endpoint's queue is as before.
pub record Received (e t : ℕ) (rest q : List ℕ) (k k' : Kernel) : Type 0 where
  pub message : Transferred t k.current_tcb (k.tcb t).endpoint_badge (pending_tag t k) k k'
  pub queue : Ring k'.node e rest
  pub woken :
      (k.tcb t).expects_reply ≡ false
      → Ring k'.node k'.runnable_tcbs (run_node t ∷ q)
        × (((k'.tcb t).state is TcbState.runnable) ≡ true)
  pub waits :
      (k.tcb t).expects_reply ≡ true
      → Ring k'.node k'.runnable_tcbs q × ((k'.tcb t).state ≡ (k.tcb t).state)

module _ (e t : ℕ) (rest q : List ℕ) (k : Kernel) (s : SendsFirst e t rest k)
    (run_queue : Ring k.node k.runnable_tcbs q)
    (fresh : has (run_node t) (k.runnable_tcbs ∷ q) ≡ false)
    (apart : Apart (run_node t ∷ k.runnable_tcbs ∷ q) (e ∷ send_receive_node t ∷ rest)) where
  abbrev popped_k : Kernel
  popped_k = record k { node = (pop_from_list e k.node).1 }

  abbrev called : Kernel
  called =
      let m = moved e t k in
      record m { tcb = update m.tcb k.current_tcb (record (m.tcb k.current_tcb) { reply_to = t }) }

  run_queue_after : Ring popped_k.node k.runnable_tcbs q
  run_queue_after =
      pop-Apart k.node (send_receive_node t) k.runnable_tcbs e q rest run_queue s.queue
        (λ a i. apart a (ground arith))

  sent :
      Transferred t k.current_tcb (k.tcb t).endpoint_badge (pending_tag t k) popped_k (moved e t k)
  sent =
      transferred-Transferred t k.current_tcb (k.tcb t).endpoint_badge (pending_tag t k) popped_k
        s.apart

  called-Received : (k.tcb t).expects_reply ≡ true → Received e t rest q k called
  called-Received calls = record {
    message = record {
      words = sent.words;
      rest = sent.rest;
      badge_ = sent.badge_;
      tag_ = ground (arith, sent.tag_);
      reply = λ x. ground arith;
      others = sent.others;
    };
    queue = (popped k e t rest s.queue).1;
    woken = λ x. cc;
    waits = λ x. (run_queue_after, ground (arith, s.blocked));
  }

  woken-Received :
      (k.tcb t).expects_reply ≡ false → Received e t rest q k (scheduled t (moved e t k))
  woken-Received sends = record {
    message = record {
      words = sent.words;
      rest = sent.rest;
      badge_ = sent.badge_;
      tag_ = ground (arith, sent.tag_, s.blocked);
      reply = λ x. cc;
      others = sent.others;
    };
    queue =
        append-Apart popped_k.node (run_node t) e k.runnable_tcbs rest q
          (popped k e t rest s.queue).1 run_queue_after (λ a i. elsewhere a i);
    woken = λ x. (
      append_to_list-Ring popped_k.node (run_node t) k.runnable_tcbs q run_queue_after fresh,
      ground arith,
    );
    waits = λ x. cc;
  }
    where
      elsewhere :
          (a : ℕ) → has a (e ∷ rest) ≡ true → has a (run_node t ∷ k.runnable_tcbs ∷ q) ≡ false
      elsewhere a i = elim (Bool-cases (has a (run_node t ∷ k.runnable_tcbs ∷ q))) [
        | inl there ↦ ground (arith, apart a there)
        | inr not_there ↦ not_there
      ]

  still_expects : (b : Bool) → (k.tcb t).expects_reply ≡ b → ((moved e t k).tcb t).expects_reply ≡ b
  still_expects b x = ground (arith, s.blocked)

  ready : is_list_empty e k.node || (first_state e k is TcbState.receiving) ≡ false
  ready =
      rw
        (
          (head_thread k e t rest s.queue).0,
          ap (λ (a : ℕ). (k.tcb a).state) (head_thread k e t rest s.queue).1,
        )
        (ground (arith, s.sends))

  -- If a thread that is neither receiving nor dead is first in the queue of an endpoint, the
  -- current thread has a live frame, their buffers differ, the pending tag carries no capability,
  -- and the endpoint's queue and the run queue share no node, then endpoint_recv returns the
  -- sender's tag with its message and badge delivered. The rest of the queue is as before; a sender
  -- that expects a reply keeps its state, and any other is runnable and first in the run queue.
  pub endpoint_recv-Received :
      (pending_tag t k).extra_caps ≡ 0
      → (k' : Kernel) × (endpoint_recv e k ≡ done (pending_tag t k) k') × Received e t rest q k k'
  unfolding endpoint_recv recv_will_block
  endpoint_recv-Received none_ = elim (Bool-cases (k.tcb t).expects_reply) [
    | inl calls ↦ (
      called,
      rw ready (
          receives e t rest k s none_
          ∙ ap
              (λ (b : Bool).
                done (pending_tag t k) (if b then called else scheduled t (moved e t k)))
              (still_expects true calls)),
      called-Received calls,
    )
    | inr sends ↦ (
      scheduled t (moved e t k),
      rw ready (
          receives e t rest k s none_
          ∙ ap
              (λ (b : Bool).
                done (pending_tag t k) (if b then called else scheduled t (moved e t k)))
              (still_expects false sends)),
      woken-Received sends,
    )
  ]
