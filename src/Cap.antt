-- ===== src/Cap.antt =====
-- include/kern/cap.h: a capability is a union of two words and a struct of bit fields. The model
-- keeps the fields; `cap_word_0` is the word that they make, from bit 0 upwards.
pub mod Pointer
mod Tests
use untitled_bare_metal.Base.{
  ℕ, ◌+◌, ◌-◌, ◌*◌, ◌/◌, ◌%◌, ◌^◌, ◌<◌, Bool, true, false, ◌&&◌, ◌||◌, ◌==◌, if◌then◌else◌, leb,
  bit_value, Option, none, some,
}
use untitled_bare_metal.Sys.{
  cap_null, cap_endpoint, cap_cnode, cap_tcb, cap_untyped, cap_io_port, cap_io_port_control,
  cap_pml4, cap_pdpt, cap_pd, cap_pt, cap_page, cap_irq_control, cap_irq_handler,
}

pub record Capability : Type 0 where
  pub is_original : Bool
  pub is_device : Bool
  pub reserved : ℕ  -- 2 bits
  pub ptr : ℕ  -- 44 bits
  pub size_bits : ℕ  -- 6 bits
  pub rights : ℕ  -- 5 bits
  pub type : ℕ  -- 5 bits
  pub badge : ℕ  -- the second word

pub record Cte : Type 0 where
  pub cap : Capability
  pub next : ℕ
  pub prev : ℕ

unfoldable pub cap_word_0 : Capability → ℕ
cap_word_0 c =
    bit_value c.is_original
    + 2 * bit_value c.is_device
    + 2 ^ 2 * c.reserved
    + 2 ^ 4 * c.ptr
    + 2 ^ 48 * c.size_bits
    + 2 ^ 54 * c.rights
    + 2 ^ 59 * c.type

-- Each field is within its width.
pub record Fits (c : Capability) : Type 0 where
  pub reserved : c.reserved < 2 ^ 2
  pub ptr : c.ptr < 2 ^ 44
  pub size_bits : c.size_bits < 2 ^ 6
  pub rights : c.rights < 2 ^ 5
  pub type : c.type < 2 ^ 5
  pub badge : c.badge < 2 ^ 64

-- BITS_PTR_MASK keeps bits 4 to 47.
abbrev pub bits_ptr : ℕ → ℕ
bits_ptr bits = bits / 2 ^ 4 % 2 ^ 44 * 2 ^ 4

unfoldable pub is_safe_cap_ptr : ℕ → Bool
is_safe_cap_ptr p = if p % 2 ^ 4 == 0 then (p / 2 ^ 47 == 0x1_ffff) || (p / 2 ^ 47 == 0) else false

-- Bit 47 is copied into the bits above it.
unfoldable pub bits_pointer : ℕ → ℕ
bits_pointer bits =
    if bits_ptr bits / 2 ^ 47 % 2 == 1 then bits_ptr bits + 0xffff_0000_0000_0000 else bits_ptr bits

-- `none` is the failed assertion.
unfoldable pub set_bits_pointer : ℕ → ℕ → Option ℕ
set_bits_pointer bits p =
    if is_safe_cap_ptr p then some (bits - bits_ptr bits + bits_ptr p) else none

unfoldable pub cap_ptr : Capability → ℕ
unfolding bits_pointer cap_word_0
cap_ptr c = bits_pointer (cap_word_0 c)

-- `set_bits_pointer` on the first word changes the field `ptr` alone.
unfoldable pub cap_set_ptr : Capability → ℕ → Option Capability
cap_set_ptr c p = if is_safe_cap_ptr p then some (record c { ptr = p / 2 ^ 4 % 2 ^ 44 }) else none

-- BIT (cap.size_bits)
unfoldable pub cap_size : Capability → ℕ
cap_size c = 2 ^ c.size_bits

unfoldable pub cap_set_size_bits : Capability → ℕ → Capability
cap_set_size_bits c n = record c { size_bits = n % 2 ^ 6 }

unfoldable pub cap_set_rights : Capability → ℕ → Capability
cap_set_rights c r = record c { rights = r % 2 ^ 5 }

-- A designated initialiser: fields that it does not name are zero.
abbrev pub new_cap : ℕ → Capability
new_cap t = record {
  is_original = false;
  is_device = false;
  reserved = 0;
  ptr = 0;
  size_bits = 0;
  rights = 0;
  type = t;
  badge = 0;
}

abbrev pub new_null_cap : Capability
new_null_cap = new_cap cap_null

abbrev pub new_untyped_cap : ℕ → ℕ → Option Capability
new_untyped_cap paddr n = cap_set_ptr (record (new_cap cap_untyped) { size_bits = n % 2 ^ 6 }) paddr

abbrev pub new_untyped_device_cap : ℕ → ℕ → Option Capability
new_untyped_device_cap paddr n =
    cap_set_ptr (record (new_cap cap_untyped) { size_bits = n % 2 ^ 6; is_device = true }) paddr

abbrev pub new_endpoint_cap : ℕ → ℕ → Option Capability
new_endpoint_cap endpoint b = cap_set_ptr (record (new_cap cap_endpoint) { badge = b }) endpoint

abbrev pub new_cnode_cap : ℕ → ℕ → Option Capability
new_cnode_cap cnode n = cap_set_ptr (record (new_cap cap_cnode) { size_bits = n % 2 ^ 6 }) cnode

abbrev pub new_tcb_cap : ℕ → Option Capability
new_tcb_cap tcb = cap_set_ptr (new_cap cap_tcb) tcb

abbrev pub new_io_port_control_cap : Capability
new_io_port_control_cap = new_cap cap_io_port_control

-- The port numbers are uint16_t.
abbrev pub new_io_port_cap : ℕ → ℕ → Capability
new_io_port_cap first_port last_port = record (new_cap cap_io_port) {
  ptr = first_port % 2 ^ 16;
  badge = last_port % 2 ^ 16;
}

abbrev pub cap_io_port_first_port : Capability → ℕ
cap_io_port_first_port c = c.ptr % 2 ^ 16

abbrev pub cap_io_port_last_port : Capability → ℕ
cap_io_port_last_port c = c.badge % 2 ^ 16

abbrev pub new_pml4_cap : ℕ → Option Capability
new_pml4_cap phy = cap_set_ptr (new_cap cap_pml4) phy

abbrev pub new_pdpt_cap : ℕ → Option Capability
new_pdpt_cap phy = cap_set_ptr (new_cap cap_pdpt) phy

abbrev pub new_pd_cap : ℕ → Option Capability
new_pd_cap phy = cap_set_ptr (new_cap cap_pd) phy

abbrev pub new_pt_cap : ℕ → Option Capability
new_pt_cap phy = cap_set_ptr (new_cap cap_pt) phy

abbrev pub new_page_cap : ℕ → Option Capability
new_page_cap phy = cap_set_ptr (new_cap cap_page) phy

abbrev pub new_irq_control_cap : Capability
new_irq_control_cap = new_cap cap_irq_control

abbrev pub new_irq_handler_cap : ℕ → Capability
new_irq_handler_cap irq = record (new_cap cap_irq_handler) { size_bits = irq % 2 ^ 6 }
