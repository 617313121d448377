-- ===== src/Irq.antt =====
-- kern/obj/irq.c: interrupt handlers. The table `irq_handlers` lies at an address that the linker
-- chooses; an entry takes 24 bytes. The mask of the interrupt controller is kept as a flag.
pub mod Handlers
mod Tests
use Prim.Native.Nat.{bit_or}
use untitled_bare_metal.Base.{
  ℕ, ◌+◌, ◌*◌, ◌/◌, ◌%◌, ◌^◌, Bool, true, false, not, ◌==◌, leb, if◌then◌else◌, update, Option,
  none, some,
}
use untitled_bare_metal.Sys.{cap_null}
use untitled_bare_metal.Tag.{MessageTag, msg_ok, msg_delete_first}
use untitled_bare_metal.Cap.{Capability, cap_ptr, cap_set_ptr, new_irq_handler_cap}
use untitled_bare_metal.Cdt.{set_cap}
use untitled_bare_metal.Kernel.{
  K, pure, panicked, done, ◌>>=◌, ◌>>◌, get, modify, skip, set_irq_handler, msg_invalid_argument,
}
use untitled_bare_metal.CNode.{with_slot}
use untitled_bare_metal.Signals.{notification_signal}

-- &irq_handlers[irq]
abbrev pub irq_handler_at : (base irq : ℕ) → ℕ
irq_handler_at base irq = base + 24 * irq

abbrev pub is_issued : (issued irq : ℕ) → Bool
is_issued issued irq = issued / 2 ^ irq % 2 == 1

-- The new capability is written first, and then its pointer.
abbrev pub put_handler_cap : (slot irq : ℕ) → Option Capability → K (Unit {0})
put_handler_cap slot irq none k = panicked
put_handler_cap slot irq (some c) k = done tt (record k { cte = set_cap slot c k.cte })

unfoldable pub irq_control_get : (irq root index depth : ℕ) → K MessageTag
unfolding msg_invalid_argument
irq_control_get irq root index depth = with_slot root index depth λ slot. do
  k ← get
  if not ((k.cte slot).cap.type == cap_null)
      then pure msg_delete_first
      else if leb 16 irq
      then msg_invalid_argument 0
      else if is_issued k.irq_handlers_issued irq
      then msg_invalid_argument 0
      else (do
        modify λ m. record m { irq_handlers_issued = bit_or m.irq_handlers_issued (2 ^ irq) }
        put_handler_cap slot irq
            (cap_set_ptr (new_irq_handler_cap irq) (irq_handler_at k.irq_handlers irq))
        set_irq_handler (irq_handler_at k.irq_handlers irq) (λ d. record d { irq = irq })
        pure (msg_ok 0))

abbrev set_mask : ℕ → Bool → K (Unit {0})
set_mask irq b = modify λ k. record k { irq_masked = update k.irq_masked irq b }

unfoldable pub irq_handler_clear : (obj : ℕ) → K MessageTag
irq_handler_clear obj = do
  k ← get
  set_irq_handler (cap_ptr (k.cte obj).cap) (λ d. record d { n = 0 })
  pure (msg_ok 0)

unfoldable pub irq_handler_ack : (obj : ℕ) → K MessageTag
irq_handler_ack obj = do
  k ← get
  let data_at = cap_ptr (k.cte obj).cap
  set_mask (k.irq_handler_data data_at).irq false
  set_irq_handler data_at (λ d. record d { in_service = false })
  pure (msg_ok 0)

unfoldable pub irq_handler_set_notification : (obj notification : ℕ) → K MessageTag
irq_handler_set_notification obj notification = do
  k ← get
  let data_at = cap_ptr (k.cte obj).cap
  set_irq_handler data_at (λ d. record d {
    n = cap_ptr (k.cte notification).cap;
    badge = (k.cte notification).cap.badge;
  })
  set_mask (k.irq_handler_data data_at).irq false
  pure (msg_ok 0)

unfoldable pub handle_irq : (irq : ℕ) → K (Unit {0})
unfolding notification_signal
handle_irq irq = do
  k ← get
  let data_at = irq_handler_at k.irq_handlers irq
  let d = k.irq_handler_data data_at
  if d.n == 0 then skip else if d.in_service then skip else (do
    set_mask d.irq true
    set_irq_handler data_at (λ e. record e { in_service = true })
    notification_signal d.n d.badge)
