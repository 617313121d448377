-- ===== src/Cap/Tests.antt =====
-- Capabilities at given values.
use untitled_bare_metal.Base.{◌≡◌, true, some, arith, refl}
use untitled_bare_metal.Sys.{cap_endpoint}
use untitled_bare_metal.Cap.{
  Capability, Fits, new_cap, cap_word_0, is_safe_cap_ptr, set_bits_pointer, cap_ptr, cap_set_ptr,
}
use untitled_bare_metal.Cap.Pointer.{cap_ptr-cap_set_ptr}

abbrev kernel_cap : Capability
kernel_cap = record (new_cap cap_endpoint) { ptr = 0x800_0000_1234; rights = 31; badge = 9 }

kernel_cap-Fits : Fits kernel_cap
kernel_cap-Fits = record {
  reserved = omega arith;
  ptr = omega arith;
  size_bits = omega arith;
  rights = omega arith;
  type = omega arith;
  badge = omega arith;
}

high-is_safe : is_safe_cap_ptr 0xffff_8000_0010_0040 ≡ true
unfolding is_safe_cap_ptr
high-is_safe = refl

cap_ptr-cap_set_ptr_example :
    (c' : Capability) × (cap_set_ptr kernel_cap 0xffff_8000_0010_0040 ≡ some c')
    × (cap_ptr c' ≡ 0xffff_8000_0010_0040)
    × (set_bits_pointer (cap_word_0 kernel_cap) 0xffff_8000_0010_0040 ≡ some (cap_word_0 c'))
cap_ptr-cap_set_ptr_example =
    cap_ptr-cap_set_ptr kernel_cap 0xffff_8000_0010_0040 kernel_cap-Fits (omega arith) high-is_safe
