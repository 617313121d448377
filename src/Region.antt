-- ===== src/Region.antt =====
-- include/kern/size.h and the region of an untyped capability (kern/obj/untyped.c).
use untitled_bare_metal.Base.{
  ℕ, ◌+◌, ◌%◌, ◌^◌, Bool, ◌&&◌, ◌==◌, if◌then◌else◌, ltb, leb, Option, none, some,
}
use untitled_bare_metal.Sys.{
  cap_null, cap_endpoint, cap_notification, cap_cnode, cap_tcb, cap_untyped, cap_pml4, cap_pdpt,
  cap_pd, cap_pt, cap_page, cap_huge_page,
}
use untitled_bare_metal.Cap.{Capability, cap_ptr, cap_size}

-- BIT (x): the processor takes the shift count modulo 64
abbrev pub bit : ℕ → ℕ
bit x = 2 ^ (x % 64)

-- `none` is the failed assertion on an invalid object type.
unfoldable pub object_size : ℕ → ℕ → Option ℕ
object_size type size_bits =
    if type == cap_null
    then some 0
    else if type == cap_tcb
    then some (bit 9)
    else if type == cap_cnode
    then some (bit (size_bits + 5))
    else if type == cap_endpoint
    then some (bit 4)
    else if type == cap_notification
    then some (bit 5)
    else if type == cap_untyped
    then some (bit size_bits)
    else if type == cap_pml4
    then some (bit 12)
    else if type == cap_page
    then some (bit 12)
    else if type == cap_huge_page
    then some (bit 21)
    else if type == cap_pdpt
    then some (bit 12)
    else if type == cap_pd
    then some (bit 12)
    else if type == cap_pt
    then some (bit 12)
    else none

unfoldable pub untyped_contains : Capability → Capability → Bool
untyped_contains untyped obj =
    leb (cap_ptr untyped) (cap_ptr obj)
    && ltb (cap_ptr obj) ((cap_ptr untyped + cap_size untyped) % 2 ^ 64)
