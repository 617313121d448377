-- ===== src/Kernel.antt =====
-- The state of the kernel on one processor, and steps that may fail. Objects of each kind stand in a
-- store of their own, by address; distinct objects do not overlap. Printing is left out.
pub mod Registers
use untitled_bare_metal.Base.{ℕ, Bool, true, false, ◌==◌, if◌then◌else◌, update}
use untitled_bare_metal.Sys.{
  no_error, range_error, truncated_message, invalid_argument, not_enough_memory, failed_lookup,
}
use untitled_bare_metal.Tag.{MessageTag, msg_err}
use untitled_bare_metal.Cdt.{Slots}
use untitled_bare_metal.ListHead.{Nodes}

-- enum tcb_state
pub data TcbState : Type 0 where
  runnable running dead sending receiving calling suspended : TcbState

-- The numbers of the enumeration.
abbrev pub state_number : TcbState → ℕ
state_number TcbState.runnable = 0
state_number TcbState.running = 1
state_number TcbState.dead = 2
state_number TcbState.sending = 3
state_number TcbState.receiving = 4
state_number TcbState.calling = 5
state_number TcbState.suspended = 6

infix 50 ◌is◌
abbrev pub ◌is◌ : TcbState → TcbState → Bool
s is t = state_number s == state_number t

-- The registers of a `frame_t` that carry a message tag: a reply in RAX, a request in RSI.
pub record Frame : Type 0 where
  pub rax : ℕ
  pub rsi : ℕ

-- struct ipc_buffer
pub record IpcBuffer : Type 0 where
  pub msg : ℕ → ℕ
  pub sender_badge : ℕ
  pub caps_or_badges : ℕ → ℕ
  pub receive_cnode : ℕ
  pub receive_index : ℕ
  pub receive_depth : ℕ

-- struct tcb. Its list nodes and slots stand in the stores of nodes and slots: see `Tcb`.
pub record Tcb : Type 0 where
  pub state : TcbState
  pub ipc_buffer : ℕ
  pub endpoint_badge : ℕ
  pub expects_reply : Bool
  pub reply_to : ℕ
  pub tls_base : ℕ
  pub bound_notification : ℕ
  pub saved_state : Frame
  pub current_user_frame : ℕ
  pub debug : Bool

-- struct notification, less its list
pub record Notification : Type 0 where
  pub word : ℕ
  pub bound_tcb : ℕ

-- struct irq_handler_data; the notification is known by its address
pub record IrqHandlerData : Type 0 where
  pub irq : ℕ
  pub in_service : Bool
  pub n : ℕ
  pub badge : ℕ

pub record Kernel : Type 0 where
  pub cte : Slots
  pub node : Nodes
  pub tcb : ℕ → Tcb
  pub notification : ℕ → Notification
  pub buffer : ℕ → IpcBuffer
  pub frame : ℕ → Frame
  pub current_tcb : ℕ
  pub return_to_tcb : ℕ
  pub runnable_tcbs : ℕ  -- the head of the run queue
  pub user_tls_base : ℕ  -- the processor's register
  pub irq_handlers : ℕ  -- where the table of interrupt handlers lies
  pub irq_handler_data : ℕ → IrqHandlerData  -- by address
  pub irq_handlers_issued : ℕ
  pub irq_masked : ℕ → Bool  -- in the interrupt controller
  pub pte : ℕ → ℕ  -- page table entries, by address
  pub vm_root : ℕ  -- the processor's page table register
  pub hhdm : ℕ  -- where the boot loader maps physical memory

-- `panicked` is a failed assertion.
pub data Outcome (A : Type 0) : Type 0 where
  done : A → Kernel → Outcome A
  panicked : Outcome A
  out_of_fuel : Outcome A

abbrev pub K : Type 0 → Type 0
K A = Kernel → Outcome A

abbrev pub pure : {A : Type 0} → A → K A
pure = done

abbrev pub and_then : {A B : Type 0} → Outcome A → (A → K B) → Outcome B
and_then (done a k) f = f a k
and_then panicked f = panicked
and_then out_of_fuel f = out_of_fuel

infixl 5 ◌>>=◌ ◌>>◌
abbrev pub ◌>>=◌ : {A B : Type 0} → K A → (A → K B) → K B
◌>>=◌ m f k = and_then (m k) f

abbrev pub ◌>>◌ : {B : Type 0} → K (Unit {0}) → K B → K B
m >> n = m >>= λ _. n

abbrev pub get : K Kernel
get k = done k k

abbrev pub modify : (Kernel → Kernel) → K (Unit {0})
modify f k = done tt (f k)

abbrev pub skip : K (Unit {0})
skip = pure tt

-- if (b) m
abbrev pub when : Bool → K (Unit {0}) → K (Unit {0})
when b m = if b then m else skip

abbrev pub assert : Bool → K (Unit {0})
assert true k = done tt k
assert false k = panicked

-- TRY (m); rest
abbrev pub try_ : K MessageTag → K MessageTag → K MessageTag
try_ m rest = m >>= λ tag. if tag.label == no_error then rest else pure tag

abbrev pub set_tcb : ℕ → (Tcb → Tcb) → K (Unit {0})
set_tcb t f = modify λ k. record k { tcb = update k.tcb t (f (k.tcb t)) }

abbrev pub set_buffer : ℕ → (IpcBuffer → IpcBuffer) → K (Unit {0})
set_buffer b f = modify λ k. record k { buffer = update k.buffer b (f (k.buffer b)) }

abbrev pub set_notification : ℕ → (Notification → Notification) → K (Unit {0})
set_notification n f =
    modify λ k. record k { notification = update k.notification n (f (k.notification n)) }

abbrev pub set_irq_handler : ℕ → (IrqHandlerData → IrqHandlerData) → K (Unit {0})
set_irq_handler a f =
    modify
      λ k. record k { irq_handler_data = update k.irq_handler_data a (f (k.irq_handler_data a)) }

abbrev pub set_cte : (Slots → Slots) → K (Unit {0})
set_cte f = modify λ k. record k { cte = f k.cte }

abbrev pub set_node : (Nodes → Nodes) → K (Unit {0})
set_node f = modify λ k. record k { node = f k.node }

-- assert (this_tcb && this_tcb->ipc_buffer): the address of the buffer
unfoldable pub this_buffer : K ℕ
this_buffer k =
    if k.current_tcb == 0
    then panicked
    else if (k.tcb k.current_tcb).ipc_buffer == 0
    then panicked
    else done (k.tcb k.current_tcb).ipc_buffer k

unfoldable pub get_mr : ℕ → K ℕ
unfolding this_buffer
get_mr i = do b ← this_buffer; k ← get; pure ((k.buffer b).msg i)

unfoldable pub get_cap : ℕ → K ℕ
unfolding this_buffer
get_cap i = do b ← this_buffer; k ← get; pure ((k.buffer b).caps_or_badges i)

unfoldable pub set_mr : ℕ → ℕ → K (Unit {0})
unfolding this_buffer
set_mr i v = do b ← this_buffer; set_buffer b (λ m. record m { msg = update m.msg i v })

unfoldable pub msg_range_error : ℕ → ℕ → K MessageTag
unfolding set_mr
msg_range_error min max = do set_mr 0 min; set_mr 1 max; pure (msg_err range_error 2)

unfoldable pub msg_truncated_message : ℕ → ℕ → K MessageTag
unfolding set_mr
msg_truncated_message expected provided = do
  set_mr 0 expected
  set_mr 1 provided
  pure (msg_err truncated_message 2)

unfoldable pub msg_invalid_argument : ℕ → K MessageTag
unfolding set_mr
msg_invalid_argument n = do set_mr 0 n; pure (msg_err invalid_argument 1)

unfoldable pub msg_not_enough_memory : ℕ → K MessageTag
unfolding set_mr
msg_not_enough_memory available_memory = do
  set_mr 0 available_memory
  pure (msg_err not_enough_memory 1)

unfoldable pub msg_failed_lookup : ℕ → K MessageTag
unfolding set_mr
msg_failed_lookup level = do set_mr 0 level; pure (msg_err failed_lookup 1)
