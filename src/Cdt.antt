-- ===== src/Cdt.antt =====
-- kern/cdt.c: the capability derivation tree, a doubly linked list of slots. A slot is known by its
-- address, and address 0 is the null pointer.
pub mod Chain
pub mod Derive
pub mod Distinct
pub mod Sweep
pub mod Delete
pub mod Revoke
pub mod Effects
mod Tests
use Prim.Native.Nat.{bit_and}
use untitled_bare_metal.Base.{
  ℕ, zero, suc, Bool, true, false, not, ◌&&◌, ◌||◌, ◌==◌, if◌then◌else◌, update, Option, none, some,
}
use untitled_bare_metal.Sys.{cap_null, cap_untyped, cap_endpoint, cap_notification}
use untitled_bare_metal.Tag.{
  MessageTag, msg_ok, msg_delete_first, msg_revoke_first, msg_illegal_operation,
}
use untitled_bare_metal.Cap.{Capability, Cte, new_null_cap, cap_set_rights}
use untitled_bare_metal.Region.{untyped_contains}

abbrev pub Slots : Type 0
Slots = ℕ → Cte

abbrev pub set_next : ℕ → ℕ → Slots → Slots
set_next p q s = update s p (record (s p) { next = q })

abbrev pub set_prev : ℕ → ℕ → Slots → Slots
set_prev p q s = update s p (record (s p) { prev = q })

abbrev pub set_cap : ℕ → Capability → Slots → Slots
set_cap p c s = update s p (record (s p) { cap = c })

unfoldable pub insert_cte_after : (new after : ℕ) → Slots → Slots
insert_cte_after new after s =
    let next = (s after).next in
    let s1 = if next == 0 then s else set_prev next new s in
    set_prev new after (set_next new next (set_next after new s1))

unfoldable pub unlink_cte : ℕ → Slots → Slots
unlink_cte del s =
    let s1 = if (s del).prev == 0 then s else set_next (s del).prev (s del).next s in
    let s2 = if (s1 del).next == 0 then s1 else set_prev (s1 del).next (s1 del).prev s1 in
    set_prev del 0 (set_next del 0 s2)

unfoldable pub copy_cap : (dest src rights_mask : ℕ) → Slots → MessageTag × Slots
copy_cap dest src rights_mask s =
    if not ((s dest).cap.type == cap_null)
    then (msg_delete_first, s)
    else if ((s src).cap.type == cap_untyped) && not ((s src).cap.badge == 0)
    then (msg_revoke_first, s)
    else (let c = (s src).cap in
        let kept = if not (c.type == cap_untyped) then record c { is_original = false } else c in
        let masked = cap_set_rights kept (bit_and c.rights rights_mask) in
        (msg_ok 0, insert_cte_after dest src (set_cap dest masked s)))

unfoldable pub mint_cap : (dest src badge rights_mask : ℕ) → Slots → MessageTag × Slots
mint_cap dest src badge rights_mask s =
    if not ((s dest).cap.type == cap_null)
    then (msg_delete_first, s)
    else if not ((s src).cap.type == cap_endpoint) && not ((s src).cap.type == cap_notification)
    then (msg_illegal_operation, s)
    else if not ((s src).cap.badge == 0)
    then (msg_illegal_operation, s)
    else (let c = record (s src).cap { badge = badge } in
        let kept = if c.type == cap_notification then record c { is_original = false } else c in
        let masked = cap_set_rights kept (bit_and c.rights rights_mask) in
        (msg_ok 0, insert_cte_after dest src (set_cap dest masked s)))

-- Is the capability `c` a child of `parent`?
unfoldable pub is_child : (c parent : Capability) → Bool
is_child c parent =
    if not parent.is_original
    then false
    else if parent.type == cap_untyped
    then untyped_contains parent c
    else if not (c.type == parent.type)
    then false
    else if parent.type == cap_endpoint
    then (parent.badge == c.badge) || (parent.badge == 0)
    else true

-- The slot `c` may be null. `parent` is asserted not to be; the one caller has read it before.
unfoldable pub is_child_cap : Slots → (c parent : ℕ) → Bool
is_child_cap s c parent = if c == 0 then false else is_child (s c).cap (s parent).cap

-- `unlink_cte (c); c->cap = new_null_cap ()`
abbrev pub empty_slot : ℕ → Slots → Slots
empty_slot c s = set_cap c new_null_cap (unlink_cte c s)

-- `delete_cap`, with the call of `revoke_cap` as an argument. Nothing is done for the kernel object.
abbrev pub delete_after : Option Slots → ℕ → Option Slots
delete_after none c = none
delete_after (some s) c = some (empty_slot c s)

abbrev pub then_with : Option Slots → (Slots → Option Slots) → Option Slots
then_with none k = none
then_with (some s) k = k s

-- The fuel bounds how deep the calls and how long the loop goes; `none` means that it ran out.
-- Both functions reply `msg_ok 0` whenever they return.
unfoldable pub revoke_cap : ℕ → ℕ → Slots → Option Slots
revoke_cap zero c s = none
revoke_cap (suc fuel) c s =
    let next = (s c).next in
    let more = then_with (delete_after (revoke_cap fuel next s) next) (revoke_cap fuel c) in
    if is_child_cap s next c then more else some s

unfoldable pub delete_cap : ℕ → ℕ → Slots → Option Slots
unfolding revoke_cap
delete_cap fuel c s = delete_after (revoke_cap fuel c s) c
