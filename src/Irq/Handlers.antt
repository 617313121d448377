-- ===== src/Irq/Handlers.antt =====
-- The table of interrupt handlers.
use Prim.Native.Nat.{bit_or}
use untitled_bare_metal.Tag.{msg_ok}
use untitled_bare_metal.Base.{
  ℕ, ◌+◌, ◌%◌, ◌^◌, ◌<◌, ◌≡◌, ◌≢◌, refl, ◌⊎◌, inl, inr, true, false, [], arith, ◌==◌, leb, update,
  Bool-cases,
}
use untitled_bare_metal.Sys.{cap_null, cap_cnode}
use untitled_bare_metal.Cap.{cap_ptr, cap_size, cap_set_ptr, is_safe_cap_ptr}
use untitled_bare_metal.ListHead.Ring.{Ring}
use untitled_bare_metal.Kernel.{Kernel, done, panicked}
use untitled_bare_metal.CNode.{slot_at}
use untitled_bare_metal.CNode.Methods.{lookup_found}
use untitled_bare_metal.Signals.{notification_list}
use untitled_bare_metal.Signals.Wake.{
  NoneBound, with_word, signalled_word, notification_signal-pending,
}
use untitled_bare_metal.Irq.{
  irq_handler_at, is_issued, irq_control_get, irq_handler_ack, handle_irq,
}

unsafe_neighbour :
    (base irq : ℕ)
    → (is_safe_cap_ptr (irq_handler_at base irq) ≡ false)
      ⊎ (is_safe_cap_ptr (irq_handler_at base (irq + 1)) ≡ false)
unfolding is_safe_cap_ptr
unsafe_neighbour base irq = elim (Bool-cases (irq_handler_at base irq % 2 ^ 4 == 0)) [
  | inr odd ↦ inl (ground arith)
  | inl even ↦ inr (ground arith)
]

-- An interrupt number that can be asked for, with a null slot to put it in.
pub record CanGet (irq root index : ℕ) (k : Kernel) : Type 0 where
  pub node : (k.cte root).cap.type ≡ cap_cnode
  pub in_node : index < cap_size (k.cte root).cap
  pub empty : (k.cte (slot_at (cap_ptr (k.cte root).cap) index)).cap.type ≡ cap_null
  pub in_range : irq < 16
  pub free : is_issued k.irq_handlers_issued irq ≡ false

unaligned :
    (irq root index : ℕ) (k : Kernel)
    → CanGet irq root index k
    → is_safe_cap_ptr (irq_handler_at k.irq_handlers irq) ≡ false
    → irq_control_get irq root index 64 k ≡ panicked
unfolding irq_control_get cap_set_ptr
unaligned irq root index k c bad =
    rw (lookup_found root index k c.node c.in_node) (rw (is_null, small, c.free, bad))
  where
    is_null : ((k.cte (slot_at (cap_ptr (k.cte root).cap) index)).cap.type == cap_null) ≡ true
    is_null = ground (arith, c.empty)

    small : leb 16 irq ≡ false
    small = ground (arith, c.in_range)

-- Of two neighbouring interrupt numbers that can both be asked for into a null slot, at least one
-- makes irq_control_get end in a failed assertion.
pub irq_control_get-neighbours :
    (irq root index : ℕ) (k : Kernel)
    → CanGet irq root index k
    → CanGet (irq + 1) root index k
    → (irq_control_get irq root index 64 k ≡ panicked)
      ⊎ (irq_control_get (irq + 1) root index 64 k ≡ panicked)
irq_control_get-neighbours irq root index k c c' = elim (unsafe_neighbour k.irq_handlers irq) [
  | inl bad ↦ inl (unaligned irq root index k c bad)
  | inr bad ↦ inr (unaligned (irq + 1) root index k c' bad)
]

-- The kernel with the interrupt masked and in service.
abbrev in_service_now : ℕ → Kernel → Kernel
in_service_now irq k =
    let at_ = irq_handler_at k.irq_handlers irq in
    let d = k.irq_handler_data at_ in
    record k {
      irq_masked = update k.irq_masked d.irq true;
      irq_handler_data = update k.irq_handler_data at_ (record d { in_service = true });
    }

-- A handler with a notification that no thread waits for.
pub record Armed (irq : ℕ) (k : Kernel) : Type 0 where
  pub has_notification : (k.irq_handler_data (irq_handler_at k.irq_handlers irq)).n ≢ 0
  pub idle : (k.irq_handler_data (irq_handler_at k.irq_handlers irq)).in_service ≡ false
  pub queue :
      Ring k.node (notification_list (k.irq_handler_data (irq_handler_at k.irq_handlers irq)).n) []
  pub unbound : NoneBound (k.irq_handler_data (irq_handler_at k.irq_handlers irq)).n k

abbrev pub raised : ℕ → Kernel → Kernel
raised irq k =
    let d = k.irq_handler_data (irq_handler_at k.irq_handlers irq) in
    with_word d.n (signalled_word d.n d.badge k) (in_service_now irq k)

raises : (irq : ℕ) (k : Kernel) → Armed irq k → handle_irq irq k ≡ done tt (raised irq k)
unfolding handle_irq
raises irq k a =
    rw (some_notification, a.idle)
      (notification_signal-pending (k.irq_handler_data (irq_handler_at k.irq_handlers irq)).n
        (k.irq_handler_data (irq_handler_at k.irq_handlers irq)).badge (in_service_now irq k)
        a.queue a.unbound)
  where
    some_notification : ((k.irq_handler_data (irq_handler_at k.irq_handlers irq)).n == 0) ≡ false
    some_notification = ground (arith, a.has_notification)

-- The interrupt has been delivered: it is masked and in service, and its badge is in the word of the
-- notification, while no other notification has changed.
pub record Delivered (irq : ℕ) (k k' : Kernel) : Type 0 where
  pub word :
      let d = k.irq_handler_data (irq_handler_at k.irq_handlers irq) in
      (k'.notification d.n).word ≡ bit_or (k.notification d.n).word d.badge
  pub others :
      (n : ℕ)
      → n ≢ (k.irq_handler_data (irq_handler_at k.irq_handlers irq)).n
      → k'.notification n ≡ k.notification n
  pub masked : k'.irq_masked (k.irq_handler_data (irq_handler_at k.irq_handlers irq)).irq ≡ true
  pub busy : (k'.irq_handler_data (irq_handler_at k.irq_handlers irq)).in_service ≡ true

raised-Delivered : (irq : ℕ) (k : Kernel) → Delivered irq k (raised irq k)
raised-Delivered irq k = record {
  word = ground arith;
  others = λ n ne. ground arith;
  masked = ground arith;
  busy = ground arith;
}

-- Since `k` the handler of the interrupt was put in service and not touched otherwise; no thread waits
-- for its notification, and `obj` holds the capability to the handler.
pub record InService (irq obj : ℕ) (k k' : Kernel) : Type 0 where
  pub table : k'.irq_handlers ≡ k.irq_handlers
  pub handler :
      k'.irq_handler_data (irq_handler_at k.irq_handlers irq)
      ≡ record (k.irq_handler_data (irq_handler_at k.irq_handlers irq)) { in_service = true }
  pub queue :
      Ring k'.node (notification_list (k.irq_handler_data (irq_handler_at k.irq_handlers irq)).n) []
  pub unbound : NoneBound (k.irq_handler_data (irq_handler_at k.irq_handlers irq)).n k'
  pub names : cap_ptr (k'.cte obj).cap ≡ irq_handler_at k.irq_handlers irq

-- The kernel after the acknowledgement.
abbrev acked : (irq : ℕ) → (k k' : Kernel) → Kernel
acked irq k k' =
    let at_ = irq_handler_at k.irq_handlers irq in
    let d = k.irq_handler_data at_ in
    record k' {
      irq_masked = update k'.irq_masked d.irq false;
      irq_handler_data = update k'.irq_handler_data at_ (record d { in_service = false });
    }

module _ (irq obj : ℕ) (k k' : Kernel) (a : Armed irq k) (s : InService irq obj k k') where
  abbrev at : ℕ
  at = irq_handler_at k.irq_handlers irq

  still_busy : handle_irq irq k' ≡ done tt k'
  unfolding handle_irq
  still_busy = rw (s.table, s.handler, some_notification) refl
    where
      some_notification : ((k.irq_handler_data at).n == 0) ≡ false
      some_notification = ground (arith, a.has_notification)

  acknowledged : irq_handler_ack obj k' ≡ done (msg_ok 0) (acked irq k k')
  unfolding irq_handler_ack
  acknowledged = rw (s.names, s.handler) refl

  same : (at == at) ≡ true
  same = ground arith

  acked-Armed : Armed irq (acked irq k k')
  acked-Armed = record {
    has_notification = rw (s.table, same) a.has_notification;
    idle = rw (s.table, same) refl;
    queue = rw (s.table, same) s.queue;
    unbound = rw (s.table, same) s.unbound;
  }

-- Take an interrupt whose handler is idle and has a notification that no thread waits for, and a
-- later state in which the handler was not touched and again no thread waits. handle_irq masks the
-- interrupt, puts it in service and adds its badge to the notification. In the later state it
-- changes nothing, even if the word was read meanwhile. After irq_handler_ack there, the interrupt
-- is not masked, and handle_irq delivers it again.
pub handle_irq-once :
    (irq obj : ℕ) (k k' : Kernel)
    → Armed irq k
    → InService irq obj k k'
    → (k1 : Kernel) × (k2 : Kernel) × (k3 : Kernel) × (handle_irq irq k ≡ done tt k1)
      × Delivered irq k k1
      × (handle_irq irq k' ≡ done tt k')
      × (irq_handler_ack obj k' ≡ done (msg_ok 0) k2)
      × (k2.irq_masked (k.irq_handler_data (irq_handler_at k.irq_handlers irq)).irq ≡ false)
      × (handle_irq irq k2 ≡ done tt k3)
      × Delivered irq k2 k3
handle_irq-once irq obj k k' a s = (
  raised irq k,
  acked irq k k',
  raised irq (acked irq k k'),
  raises irq k a,
  raised-Delivered irq k,
  still_busy irq obj k k' a s,
  acknowledged irq obj k k' a s,
  ground arith,
  raises irq (acked irq k k') (acked-Armed irq obj k k' a s),
  raised-Delivered irq (acked irq k k'),
)
