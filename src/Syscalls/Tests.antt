-- ===== src/Syscalls/Tests.antt =====
-- Runs of kern/syscall.c.
use untitled_bare_metal.Base.{◌<◌, ◌≡◌, refl, arith, update}
use untitled_bare_metal.Sys.{cap_endpoint, cap_cnode}
use untitled_bare_metal.Cap.{new_cap, cap_ptr, cap_size, bits_pointer, cap_word_0}
use untitled_bare_metal.Kernel.{Kernel, pure}
use untitled_bare_metal.CNode.{slot_at}
use untitled_bare_metal.IoPorts.{Ports}
use untitled_bare_metal.Samples.{sample_kernel}

-- Ports that read as 0.
abbrev no_ports : Ports
no_ports = record {
  read_port_b = λ p. pure 0;
  read_port_w = λ p. pure 0;
  read_port_l = λ p. pure 0;
  write_port_b = λ p v. pure tt;
  write_port_w = λ p v. pure tt;
  write_port_l = λ p v. pure tt;
}

-- The root node of the running thread has an endpoint in its third slot.
abbrev with_endpoint : Kernel
with_endpoint = record sample_kernel {
  cte =
      update
        (update sample_kernel.cte 0x2050 (record {
          cap = record (new_cap cap_cnode) { ptr = 0x40; size_bits = 4 };
          next = 0;
          prev = 0;
        }))
        0x440 (record { cap = record (new_cap cap_endpoint) { ptr = 0x800 }; next = 0; prev = 0 });
}

slot_facts :
    (2 < cap_size (with_endpoint.cte 0x2050).cap)
    × ((with_endpoint.cte (slot_at (cap_ptr (with_endpoint.cte 0x2050).cap) 2)).cap.type
        ≡ cap_endpoint)
unfolding cap_size cap_ptr bits_pointer cap_word_0
slot_facts = (omega arith, refl)
