-- ===== src/IoPorts.antt =====
-- kern/arch/x86_64/obj/io_port.c: capabilities to a range of I/O ports. The port instructions are an
-- argument: what a read gives, and what a write does.
pub mod Range
mod Tests
use untitled_bare_metal.Base.{ℕ, ◌+◌, ◌%◌, ◌^◌, Bool, ltb, ◌||◌, if◌then◌else◌}
use untitled_bare_metal.Tag.{MessageTag, msg_ok}
use untitled_bare_metal.Cap.{new_io_port_cap, cap_io_port_first_port, cap_io_port_last_port}
use untitled_bare_metal.Cdt.{set_cap}
use untitled_bare_metal.Kernel.{K, pure, ◌>>=◌, ◌>>◌, get, set_cte, set_mr, try_, msg_range_error}
use untitled_bare_metal.CNode.{with_slot}

-- The port numbers that the instructions take are 16 bits wide.
pub record Ports : Type 0 where
  pub read_port_b : ℕ → K ℕ
  pub read_port_w : ℕ → K ℕ
  pub read_port_l : ℕ → K ℕ
  pub write_port_b : (port value : ℕ) → K (Unit {0})
  pub write_port_w : (port value : ℕ) → K (Unit {0})
  pub write_port_l : (port value : ℕ) → K (Unit {0})

unfoldable pub io_port_control_issue : (first_port last_port root index depth : ℕ) → K MessageTag
io_port_control_issue first_port last_port root index depth =
    with_slot root index depth
      λ slot. do set_cte (set_cap slot (new_io_port_cap first_port last_port)); pure (msg_ok 0)

-- The sum of the port and the size wraps.
abbrev pub out_of_ports : (first_port last_port port size : ℕ) → Bool
out_of_ports first_port last_port port size =
    ltb port first_port || ltb (last_port + 1) ((port + size) % 2 ^ 64)

unfoldable pub io_port_range_check : (slot port size : ℕ) → K MessageTag
unfolding msg_range_error
io_port_range_check slot port size = do
  k ← get
  let first_port = cap_io_port_first_port (k.cte slot).cap
  let last_port = cap_io_port_last_port (k.cte slot).cap
  if out_of_ports first_port last_port port size
      then msg_range_error first_port last_port
      else pure (msg_ok 0)

module _ (ports : Ports) where
  -- The three reads, and the three writes: the size that is checked is 1 in all of them.
  abbrev read_checked : (slot port : ℕ) → K ℕ → K MessageTag
  read_checked slot port read =
      try_ (io_port_range_check slot port 1) (do v ← read; set_mr 0 v; pure (msg_ok 1))

  abbrev write_checked : (slot port : ℕ) → K (Unit {0}) → K MessageTag
  write_checked slot port write = try_ (io_port_range_check slot port 1) (do write; pure (msg_ok 0))

  unfoldable pub io_port_in8 : (slot port : ℕ) → K MessageTag
  unfolding io_port_range_check set_mr
  io_port_in8 slot port = read_checked slot port (ports.read_port_b (port % 2 ^ 16))

  unfoldable pub io_port_in16 : (slot port : ℕ) → K MessageTag
  unfolding io_port_range_check set_mr
  io_port_in16 slot port = read_checked slot port (ports.read_port_w (port % 2 ^ 16))

  unfoldable pub io_port_in32 : (slot port : ℕ) → K MessageTag
  unfolding io_port_range_check set_mr
  io_port_in32 slot port = read_checked slot port (ports.read_port_l (port % 2 ^ 16))

  unfoldable pub io_port_out8 : (slot port value : ℕ) → K MessageTag
  unfolding io_port_range_check
  io_port_out8 slot port value =
      write_checked slot port (ports.write_port_b (port % 2 ^ 16) (value % 2 ^ 8))

  unfoldable pub io_port_out16 : (slot port value : ℕ) → K MessageTag
  unfolding io_port_range_check
  io_port_out16 slot port value =
      write_checked slot port (ports.write_port_w (port % 2 ^ 16) (value % 2 ^ 16))

  unfoldable pub io_port_out32 : (slot port value : ℕ) → K MessageTag
  unfolding io_port_range_check
  io_port_out32 slot port value =
      write_checked slot port (ports.write_port_l (port % 2 ^ 16) (value % 2 ^ 32))
