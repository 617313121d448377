-- ===== src/IoPorts/Tests.antt =====
-- Runs of kern/arch/x86_64/obj/io_port.c.
use untitled_bare_metal.Base.{ℕ, ◌+◌, ◌≤◌, ◌<◌, ◌≡◌, ◌⊎◌, arith, update}
use untitled_bare_metal.Sys.{range_error}
use untitled_bare_metal.Tag.{msg_ok, msg_err}
use untitled_bare_metal.Cap.{new_io_port_cap, cap_io_port_first_port, cap_io_port_last_port}
use untitled_bare_metal.Kernel.{Kernel, done}
use untitled_bare_metal.Kernel.Registers.{put_mr}
use untitled_bare_metal.IoPorts.{io_port_range_check}
use untitled_bare_metal.IoPorts.Range.{AllInRange, io_port_range_check-Answers}
use untitled_bare_metal.Samples.{sample_kernel, lone}

-- Slot 0x420 has the ports of a serial line.
abbrev with_ports : Kernel
with_ports = record sample_kernel {
  cte = update sample_kernel.cte 0x420 (lone (new_io_port_cap 0x3f8 0x3ff));
}

io_port_range_check-Answers_example :
    let first_port = cap_io_port_first_port (with_ports.cte 0x420).cap in
    let last_port = cap_io_port_last_port (with_ports.cte 0x420).cap in
    ((io_port_range_check 0x420 0x3fd 4 with_ports ≡ done (msg_ok 0) with_ports)
      × AllInRange first_port last_port 0x3fd 4)
    ⊎ ((io_port_range_check 0x420 0x3fd 4 with_ports
          ≡ done (msg_err range_error 2) (put_mr 1 last_port (put_mr 0 first_port with_ports)))
        × (p : ℕ) × (0x3fd ≤ p)
        × (p < 0x3fd + 4)
        × ((p < first_port) ⊎ (last_port < p)))
io_port_range_check-Answers_example =
    io_port_range_check-Answers 0x420 0x3fd 4 with_ports
      (record { thread = omega arith; buffer = omega arith }) (omega arith) (omega arith)
