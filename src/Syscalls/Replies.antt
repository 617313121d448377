-- ===== src/Syscalls/Replies.antt =====
-- What system calls reply.
use untitled_bare_metal.Base.{ℕ, ◌≡◌, ◌<◌, true, ◌==◌, arith}
use untitled_bare_metal.Sys.{cap_endpoint, cap_cnode, sys_nbsend}
use untitled_bare_metal.Tag.{MessageTag}
use untitled_bare_metal.Cap.{cap_ptr, cap_size}
use untitled_bare_metal.Kernel.{Kernel, K, panicked}
use untitled_bare_metal.CNode.{slot_at}
use untitled_bare_metal.CNode.Methods.{lookup_found}
use untitled_bare_metal.Threads.{cspace_root}
use untitled_bare_metal.Endpoints.{invoke_endpoint_nbsend}
use untitled_bare_metal.IoPorts.{Ports}
use untitled_bare_metal.Syscalls.{op_on_slot, op_syscall, do_syscall}

module _ (fuel : ℕ) (ports : Ports) (tcb_set_name : (slot name len : ℕ) → K MessageTag) (a0 a1 : ℕ)
    (k : Kernel) where
  abbrev named : ℕ
  named = slot_at (cap_ptr (k.cte (cspace_root k.current_tcb)).cap) a0

  -- A system call to send without blocking, on a slot of the caller's node that holds an endpoint,
  -- ends in a failed assertion.
  pub nbsend-panics :
      (k.cte (cspace_root k.current_tcb)).cap.type ≡ cap_cnode
      → a0 < cap_size (k.cte (cspace_root k.current_tcb)).cap
      → (k.cte named).cap.type ≡ cap_endpoint
      → do_syscall fuel ports tcb_set_name a0 a1 sys_nbsend k ≡ panicked
  unfolding do_syscall op_syscall op_on_slot invoke_endpoint_nbsend
  nbsend-panics node lt kind =
      rw (lookup_found (cspace_root k.current_tcb) a0 k node lt) (rw is_endpoint)
    where
      is_endpoint : ((k.cte named).cap.type == cap_endpoint) ≡ true
      is_endpoint = ground arith
