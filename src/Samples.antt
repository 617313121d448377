-- ===== src/Samples.antt =====
-- A small kernel state for the runs in the test modules.
use untitled_bare_metal.Base.{ℕ, ◌^◌, true, false, update}
use untitled_bare_metal.Sys.{cap_cnode, cap_untyped}
use untitled_bare_metal.Cap.{Capability, Cte, new_cap, new_null_cap}
use untitled_bare_metal.Cdt.{Slots}
use untitled_bare_metal.Kernel.{Kernel, TcbState, Tcb, IpcBuffer, Frame}

abbrev pub lone : Capability → Cte
lone c = record { cap = c; next = 0; prev = 0 }

-- A root node of 16 slots in slot 32, whose first slot holds another node; untyped memory of 4096
-- bytes in slot 64.
abbrev pub sample_slots : Slots
sample_slots =
    update
      (update
        (update (λ a. lone new_null_cap) 32
          (lone (record (new_cap cap_cnode) { ptr = 0x40; size_bits = 4 })))
        0x400 (lone (record (new_cap cap_cnode) { ptr = 0x80; size_bits = 4 })))
      64 (lone (record (new_cap cap_untyped) { is_original = true; ptr = 0x1000; size_bits = 12 }))

abbrev zero_frame : Frame
zero_frame = record { rax = 0; rsi = 0 }

abbrev pub zero_tcb : Tcb
zero_tcb = record {
  state = TcbState.runnable;
  ipc_buffer = 0;
  endpoint_badge = 0;
  expects_reply = false;
  reply_to = 0;
  tls_base = 0;
  bound_notification = 0;
  saved_state = zero_frame;
  current_user_frame = 0;
  debug = false;
}

abbrev zero_buffer : IpcBuffer
zero_buffer = record {
  msg = λ _. 0;
  sender_badge = 0;
  caps_or_badges = λ _. 0;
  receive_cnode = 0;
  receive_index = 0;
  receive_depth = 0;
}

-- Thread 0x2000 runs, and its buffer is at 0x3000.
abbrev pub sample_kernel : Kernel
sample_kernel = record {
  cte = sample_slots;
  node = λ a. record { next = a; prev = a };
  tcb =
      update (λ a. zero_tcb) 0x2000
        (record zero_tcb { state = TcbState.running; ipc_buffer = 0x3000 });
  notification = λ a. record { word = 0; bound_tcb = 0 };
  buffer = λ a. zero_buffer;
  frame = λ a. zero_frame;
  current_tcb = 0x2000;
  return_to_tcb = 0x2000;
  runnable_tcbs = 0x5000;
  user_tls_base = 0;
  irq_handlers = 0x6000;
  irq_handler_data = λ a. record { irq = 0; in_service = false; n = 0; badge = 0 };
  irq_handlers_issued = 0;
  irq_masked = λ i. true;
  pte = λ a. 0;
  vm_root = 0x7000;
  hhdm = 2 ^ 40;
}

-- A list with one node.
abbrev pub with_one : (head n : ℕ) → Kernel → Kernel
with_one head n k = record k {
  node =
      update (update k.node head (record { next = n; prev = n })) n
        (record { next = head; prev = head });
}

-- Another thread, 0x2400, with its buffer at 0x3800; the running one has a frame at 0x9000.
abbrev pub with_thread : TcbState → Kernel → Kernel
with_thread s k = record k {
  tcb =
      update
        (update k.tcb 0x2400
          (record zero_tcb { state = s; ipc_buffer = 0x3800; endpoint_badge = 5 }))
        0x2000 (record (k.tcb 0x2000) { current_user_frame = 0x9000 });
}
