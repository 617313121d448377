-- ===== src/Cap/Pointer.antt =====
-- The pointer that a capability carries.
use untitled_bare_metal.Base.{ℕ, ◌*◌, ◌/◌, ◌%◌, ◌^◌, ◌<◌, ◌≡◌, true, some, arith}
use untitled_bare_metal.Cap.{
  Capability, Fits, cap_word_0, is_safe_cap_ptr, set_bits_pointer, bits_ptr, cap_ptr, cap_set_ptr,
}

-- The pointer bits of the packed word are the field.
pub bits_ptr-cap_word_0 : (c : Capability) → Fits c → bits_ptr (cap_word_0 c) ≡ c.ptr * 2 ^ 4
unfolding cap_word_0
bits_ptr-cap_word_0 c f = ground arith

-- Storing a 64-bit pointer that is_safe_cap_ptr accepts in a capability with fields in range
-- succeeds, cap_ptr reads it back, and the packed word is the one that the masking of
-- set_bits_pointer makes.
pub cap_ptr-cap_set_ptr :
    (c : Capability) (p : ℕ)
    → Fits c
    → p < 2 ^ 64
    → is_safe_cap_ptr p ≡ true
    → (c' : Capability) × (cap_set_ptr c p ≡ some c')
      × (cap_ptr c' ≡ p)
      × (set_bits_pointer (cap_word_0 c) p ≡ some (cap_word_0 c'))
unfolding cap_set_ptr is_safe_cap_ptr cap_ptr set_bits_pointer
cap_ptr-cap_set_ptr c p f w safe =
    (record c { ptr = p / 2 ^ 4 % 2 ^ 44 }, ground arith, ground arith, ground arith)

-- The pointer that cap_ptr reads from any capability with fields in range is one that
-- is_safe_cap_ptr accepts.
pub cap_ptr-is_safe : (c : Capability) → Fits c → is_safe_cap_ptr (cap_ptr c) ≡ true
unfolding cap_ptr is_safe_cap_ptr
cap_ptr-is_safe c f = ground arith
