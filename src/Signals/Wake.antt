-- ===== src/Signals/Wake.antt =====
-- What a signal does to the word of a notification and to the threads that wait for it.
use Prim.Native.Nat.{bit_or}
use untitled_bare_metal.Base.{
  ℕ, ◌+◌, ◌-◌, ◌≡◌, ◌≢◌, ◌⊎◌, refl, ap, ◌∙◌, true, false, not, ◌&&◌, List, [], ◌∷◌, arith, has,
  ◌==◌, update,
}
use untitled_bare_metal.Sys.{cap_notification}
use untitled_bare_metal.Tag.{msg_ok, message_info_to_word}
use untitled_bare_metal.Cap.{cap_ptr}
use untitled_bare_metal.ListHead.{Nodes, remove_from_list, is_list_empty, first_item}
use untitled_bare_metal.ListHead.Ring.{Ring, next-start}
use untitled_bare_metal.ListHead.Remove.{remove_from_list-Ring}
use untitled_bare_metal.Kernel.{TcbState, Kernel, done, ◌is◌}
use untitled_bare_metal.Threads.{send_receive_node, switch_tcb}
use untitled_bare_metal.Endpoints.Transfer.{answered, result_of, CanAnswer, set_ipc_result-ok}
use untitled_bare_metal.Signals.{
  notification_list, notification_signal, invoke_notification_recv, signal_waiting_receiver,
}

-- The kernel with another word in the notification.
abbrev pub with_word : ℕ → ℕ → Kernel → Kernel
with_word nfn w k = record k {
  notification = update k.notification nfn (record (k.notification nfn) { word = w });
}

abbrev pub signalled_word : ℕ → ℕ → Kernel → ℕ
signalled_word nfn badge k = bit_or (k.notification nfn).word badge

-- No thread is bound to the notification and receives.
abbrev pub NoneBound : ℕ → Kernel → Type 0
NoneBound nfn k =
    let b = (k.notification nfn).bound_tcb in
    (not (b == 0) && ((k.tcb b).state is TcbState.receiving)) ≡ false

-- If no thread waits for a notification and no receiving thread is bound to it, notification_signal
-- adds the bits of the badge to the word and changes nothing else.
pub notification_signal-pending :
    (nfn badge : ℕ) (k : Kernel)
    → Ring k.node (notification_list nfn) []
    → NoneBound nfn k
    → notification_signal nfn badge k ≡ done tt (with_word nfn (signalled_word nfn badge k) k)
unfolding notification_signal is_list_empty
notification_signal-pending nfn badge k r unbound = rw (none_waits, same, unbound)
  where
    none_waits : ((k.node (nfn + 8)).next == nfn + 8) ≡ true
    none_waits = ground (arith, r.links.0)

    same : (nfn == nfn) ≡ true
    same = ground arith

-- What a woken thread finds: the word in its buffer, success in its registers.
pub record Woken (nfn t word : ℕ) (rest : List ℕ) (k k' : Kernel) : Type 0 where
  pub cleared : (k'.notification nfn).word ≡ 0
  pub badge : (k'.buffer (k.tcb t).ipc_buffer).sender_badge ≡ word
  pub result : result_of t k' ≡ message_info_to_word (msg_ok 0)
  pub runs : ((k'.tcb t).state is TcbState.runnable) ≡ true
  pub next : k'.return_to_tcb ≡ t
  pub queue : Ring k'.node (notification_list nfn) rest

abbrev woken : (t badge : ℕ) → Kernel → Kernel
woken t badge k =
    let m = answered t (msg_ok 0) k in
    let b = (m.tcb t).ipc_buffer in
    record m {
      buffer = update m.buffer b (record (m.buffer b) { sender_badge = badge });
      tcb = update m.tcb t (record (m.tcb t) { state = TcbState.runnable });
      return_to_tcb = t;
    }

wakes :
    (t badge : ℕ) (k : Kernel)
    → CanAnswer t k
    → signal_waiting_receiver t badge k ≡ done (msg_ok 0) (woken t badge k)
unfolding signal_waiting_receiver switch_tcb
wakes t badge k can = rw (set_ipc_result-ok t (msg_ok 0) k can)

-- The kernel with the word taken and the node of the thread out of its list.
abbrev taken : (nfn t badge : ℕ) → Kernel → Kernel
taken nfn t badge k =
    let m = with_word nfn 0 (with_word nfn (signalled_word nfn badge k) k) in
    record m { node = remove_from_list (send_receive_node t) m.node }

-- A blocked thread `t` that is the first to wait for the notification.
pub record WaitsAt (nfn t : ℕ) (rest : List ℕ) (k : Kernel) : Type 0 where
  pub queue : Ring k.node (notification_list nfn) (send_receive_node t ∷ rest)
  pub thread : t ≢ 0
  pub blocked : t ≢ k.current_tcb

list_in_use :
    (h : Nodes) (head x : ℕ) (xs : List ℕ)
    → (h head).next ≡ x
    → has head (x ∷ xs) ≡ false
    → is_list_empty head h ≡ false
unfolding is_list_empty
list_in_use h head x xs e out = ground arith

-- The word as the code reads it back, and the thread as it finds it.
abbrev read_word : (nfn badge : ℕ) → Kernel → ℕ
read_word nfn badge k = ((with_word nfn (signalled_word nfn badge k) k).notification nfn).word

abbrev found : ℕ → Kernel → ℕ
found nfn k = first_item (notification_list nfn) k.node - 24

signals_first :
    (nfn badge : ℕ) (k : Kernel)
    → is_list_empty (notification_list nfn) k.node ≡ false
    → CanAnswer (found nfn k) (taken nfn (found nfn k) badge k)
    → notification_signal nfn badge k
      ≡ done tt (woken (found nfn k) (read_word nfn badge k) (taken nfn (found nfn k) badge k))
unfolding notification_signal
signals_first nfn badge k someone can =
    rw someone
      (rw (wakes (found nfn k) (read_word nfn badge k) (taken nfn (found nfn k) badge k) can))

-- If a blocked thread is first in the list of a notification, notification_signal returns with the
-- word cleared, the old word together with the badge in the thread's buffer, success in its
-- registers, and the thread runnable and next to run; the others still wait in order.
pub notification_signal-Woken :
    (nfn t badge : ℕ) (rest : List ℕ) (k : Kernel)
    → WaitsAt nfn t rest k
    → (k' : Kernel) × (notification_signal nfn badge k ≡ done tt k')
      × Woken nfn t (signalled_word nfn badge k) rest k k'
notification_signal-Woken nfn t badge rest k w = (
  woken t (signalled_word nfn badge k) (taken nfn t badge k),
  signals_first nfn badge k someone can
      ∙ ap (λ (u : ℕ). done tt (woken u (read_word nfn badge k) (taken nfn u badge k))) first
      ∙ ap (λ (v : ℕ). done tt (woken t v (taken nfn t badge k))) word_is,
  record {
    cleared = ground arith;
    badge = ground arith;
    result = ground (arith, w.blocked);
    runs = ground arith;
    next = refl;
    queue =
        remove_from_list-Ring k.node (send_receive_node t) (notification_list nfn) [] rest w.queue;
  },
)
  where
    head_next : (k.node (nfn + 8)).next ≡ t + 24
    head_next = next-start k.node (nfn + 8) (send_receive_node t ∷ rest) (nfn + 8) w.queue.links

    someone : is_list_empty (notification_list nfn) k.node ≡ false
    someone = list_in_use k.node (notification_list nfn) (t + 24) rest head_next w.queue.out

    first : found nfn k ≡ t
    first = omega (arith, head_next)

    word_is : read_word nfn badge k ≡ signalled_word nfn badge k
    word_is = ground arith

    can : CanAnswer (found nfn k) (taken nfn (found nfn k) badge k)
    can = rw first (w.thread, λ e. absurd (w.blocked e))

-- If a notification has a word of pending badges and is bound to no other thread,
-- invoke_notification_recv replies success, clears the word and changes nothing else: the word
-- reaches neither the buffer nor the registers of the receiver.
pub invoke_notification_recv-drops :
    (cap : ℕ) (k : Kernel)
    → (k.cte cap).cap.type ≡ cap_notification
    → let nfn = cap_ptr (k.cte cap).cap in
      (((k.notification nfn).bound_tcb ≡ 0) ⊎ ((k.notification nfn).bound_tcb ≡ k.current_tcb))
      → (k.notification nfn).word ≢ 0
      → invoke_notification_recv cap k ≡ done (msg_ok 0) (with_word nfn 0 k)
unfolding invoke_notification_recv
invoke_notification_recv-drops cap k kind allowed pending = rw (is_notification, fine, some_word)
  where
    is_notification : ((k.cte cap).cap.type == cap_notification) ≡ true
    is_notification = ground arith

    fine :
        not ((k.notification (cap_ptr (k.cte cap).cap)).bound_tcb == 0)
          && not ((k.notification (cap_ptr (k.cte cap).cap)).bound_tcb == k.current_tcb)
        ≡ false
    fine = ground arith

    some_word : ((k.notification (cap_ptr (k.cte cap).cap)).word == 0) ≡ false
    some_word = ground arith
