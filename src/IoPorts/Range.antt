-- ===== src/IoPorts/Range.antt =====
-- Which ports the check of a range lets through.
use untitled_bare_metal.Base.{
  ℕ, ◌+◌, ◌-◌, ◌≤◌, ◌<◌, ◌^◌, ◌≡◌, refl, true, false, ◌⊎◌, inl, inr, Bool-cases, dec_lt, arith,
}
use untitled_bare_metal.Sys.{range_error}
use untitled_bare_metal.Tag.{msg_ok, msg_err}
use untitled_bare_metal.Kernel.Registers.{Ready, put_mr, msg_range_error-ok}
use untitled_bare_metal.Cap.{cap_io_port_first_port, cap_io_port_last_port}
use untitled_bare_metal.Kernel.{Kernel, done}
use untitled_bare_metal.IoPorts.{out_of_ports, io_port_range_check}

-- Every port of an access of `size` bytes at `port` lies in the range.
abbrev pub AllInRange : (first_port last_port port size : ℕ) → Type 0
AllInRange first_port last_port port size =
    (p : ℕ) → port ≤ p → p < port + size → (first_port ≤ p) × (p ≤ last_port)

passes-AllInRange :
    (first_port last_port port size : ℕ)
    → port + size < 2 ^ 64
    → out_of_ports first_port last_port port size ≡ false
    → AllInRange first_port last_port port size
passes-AllInRange first_port last_port port size small h p lo hi = (ground arith, ground arith)

-- A refused access has a port outside the range.
refused-outside :
    (first_port last_port port size : ℕ)
    → 0 < size
    → port + size < 2 ^ 64
    → out_of_ports first_port last_port port size ≡ true
    → (p : ℕ) × (port ≤ p) × (p < port + size) × ((p < first_port) ⊎ (last_port < p))
refused-outside first_port last_port port size pos small h = elim (dec_lt port first_port) [
  | yes below ↦ (port, omega arith, omega arith, inl below)
  | no above ↦
      let behind : last_port < port + size - 1 = ground arith in
      (port + size - 1, omega arith, omega arith, inr behind)
]

-- For an access of at least one byte whose end does not wrap, by a thread with a buffer, the range
-- check of the capability in a slot has two answers. Either every port of the access lies in the
-- range of the capability, and it replies without an error and changes nothing; or one of the ports
-- lies outside, and it replies a range error with the ends of the range in message registers 0 and
-- 1.
pub io_port_range_check-Answers :
    (slot port size : ℕ) (k : Kernel)
    → Ready k
    → 0 < size
    → port + size < 2 ^ 64
    → let first_port = cap_io_port_first_port (k.cte slot).cap in
      let last_port = cap_io_port_last_port (k.cte slot).cap in
      ((io_port_range_check slot port size k ≡ done (msg_ok 0) k)
        × AllInRange first_port last_port port size)
      ⊎ ((io_port_range_check slot port size k
            ≡ done (msg_err range_error 2) (put_mr 1 last_port (put_mr 0 first_port k)))
          × (p : ℕ) × (port ≤ p)
          × (p < port + size)
          × ((p < first_port) ⊎ (last_port < p)))
unfolding io_port_range_check
io_port_range_check-Answers slot port size k r pos small =
    let first_port = cap_io_port_first_port (k.cte slot).cap in
    let last_port = cap_io_port_last_port (k.cte slot).cap in
    elim (Bool-cases (out_of_ports first_port last_port port size)) [
      | inl out ↦
          let (p, lo, hi, outside) = refused-outside first_port last_port port size pos small out in
          inr (rw (out, msg_range_error-ok k r first_port last_port) refl, p, lo, hi, outside)
      | inr fine ↦ inl (rw fine refl, passes-AllInRange first_port last_port port size small fine)
    ]

-- The range check of one port passes for the port number 2^64 - 1, whatever the range of the
-- capability.
pub io_port_range_check-wraps :
    (slot : ℕ) (k : Kernel) → io_port_range_check slot (2 ^ 64 - 1) 1 k ≡ done (msg_ok 0) k
unfolding io_port_range_check
io_port_range_check-wraps slot k = rw passes
  where
    passes :
        out_of_ports
          (cap_io_port_first_port (k.cte slot).cap)
          (cap_io_port_last_port (k.cte slot).cap)
          (2 ^ 64 - 1)
          1
        ≡ false
    passes = ground arith
