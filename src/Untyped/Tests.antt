-- ===== src/Untyped/Tests.antt =====
-- Runs of kern/obj/untyped.c.
use untitled_bare_metal.Base.{
  ℕ, zero, suc, ◌+◌, ◌*◌, ◌^◌, ◌≤◌, ◌<◌, ◌≡◌, ◌≢◌, ◌↔◌, refl, true, false, some, arith, [], ◌∷◌,
  ltb, has,
}
use untitled_bare_metal.Sys.{cap_tcb}
use untitled_bare_metal.Tag.{msg_ok}
use untitled_bare_metal.Cap.{cap_ptr, cap_size, cap_word_0, bits_pointer, is_safe_cap_ptr}
use untitled_bare_metal.Region.{object_size}
use untitled_bare_metal.Kernel.{Kernel, done}
use untitled_bare_metal.CNode.{slot_at}
use untitled_bare_metal.Untyped.{
  untyped_retype, create_objects, available_memory, total_size, align_up, set_badge, inside,
}
use untitled_bare_metal.Untyped.Room.{retype-fits}
use untitled_bare_metal.Untyped.Objects.{object_at, Placed, CreatedAll, create_objects-CreatedAll}
use untitled_bare_metal.Untyped.Whole.{first_target, memory_at, Retyped, untyped_retype-Retyped}
use untitled_bare_metal.Cdt.Chain.{Chain}
use untitled_bare_metal.Samples.{sample_kernel}

retype-fits_example :
    (ltb (available_memory 12 40 (2 ^ 9)) (total_size (2 ^ 9) 3) ≡ false)
    ↔ (align_up 40 (2 ^ 9) + 2 ^ 9 * 3 ≤ 2 ^ 12)
retype-fits_example = retype-fits 12 9 40 3 (omega arith) (omega arith) (omega arith) (omega arith)

tcb_size : object_size cap_tcb 0 ≡ some (2 ^ 9)
unfolding object_size
tcb_size = refl

-- The untyped capability in slot 64 has been used up to byte 40.
abbrev marked : Kernel
marked = record sample_kernel { cte = set_badge 64 40 sample_kernel.cte }

abbrev node : ℕ
node = slot_at (cap_ptr (marked.cte 32).cap) 0

abbrev base : ℕ
base = first_target 32 0 1 marked

abbrev usable : ℕ
usable = memory_at 64 (1 * 2 ^ 9) marked

node_facts :
    ((marked.cte node).cap.type ≡ 4)
    × (0 < cap_size (marked.cte 32).cap)
    × (2 ≤ cap_size (marked.cte node).cap)
    × (base ≢ 0)
unfolding cap_ptr bits_pointer cap_word_0 cap_size
node_facts = (refl, omega arith, omega arith, λ e. absurd (omega arith))

one_safe : (j : ℕ) → 0 ≤ j → j < 1 → is_safe_cap_ptr (object_at usable (2 ^ 9) marked.hhdm j) ≡ true
unfolding cap_ptr bits_pointer cap_word_0 is_safe_cap_ptr
one_safe zero lo hi = refl
one_safe (suc j) lo hi = absurd (omega arith)

facts : (base ≡ 0x820) × (object_at usable (2 ^ 9) marked.hhdm 0 ≡ 2 ^ 40 + 0x10200)
unfolding cap_ptr bits_pointer cap_word_0
facts = (refl, refl)

abbrev first_object : ℕ
first_object = object_at usable (2 ^ 9) marked.hhdm 0

base_at : slot_at base 0 ≡ 0x820
base_at = omega (arith, facts.0)

place : Placed base (2 ^ 9) usable marked.hhdm (64 ∷ []) 1 0
place = record {
  fresh = fresh;
  distinct = λ j j' lo lt hi. absurd (omega arith);
  listed = listed;
  apart = apart;
}
  where
    fresh :
        (j : ℕ) → 0 ≤ j → j < 1 → (slot_at base j ≢ 0) × (has (slot_at base j) (64 ∷ []) ≡ false)
    fresh zero lo hi = (omega (arith, base_at), ground (arith, base_at))
    fresh (suc j) lo hi = absurd (omega arith)

    listed :
        (j a : ℕ)
        → 0 ≤ j
        → j < 1
        → has a (64 ∷ []) ≡ true
        → inside (object_at usable (2 ^ 9) marked.hhdm j) (2 ^ 9) a ≡ false
    listed zero a lo hi is = ground (arith, facts.1)
    listed (suc j) a lo hi is = absurd (omega arith)

    apart :
        (j j' : ℕ)
        → 0 ≤ j
        → j < 1
        → 0 ≤ j'
        → j' < 1
        → inside (object_at usable (2 ^ 9) marked.hhdm j) (2 ^ 9) (slot_at base j') ≡ false
    apart zero zero lo hi lo' hi' = ground (arith, facts.1, base_at)
    apart zero (suc j') lo hi lo' hi' = absurd (omega arith)
    apart (suc j) j' lo hi lo' hi' = absurd (omega arith)

marked-Chain : Chain marked.cte 0 (64 ∷ [])
marked-Chain = ((λ e. absurd (omega arith)), refl, refl, refl, tt)

create_objects-CreatedAll_example :
    (k' : Kernel) × (create_objects 64 cap_tcb 0 base (2 ^ 9) usable 1 0 marked ≡ done tt k')
    × CreatedAll 64 cap_tcb 0 base (2 ^ 9) usable (2 ^ 40) marked.cte k'.cte [] [] 1 0
create_objects-CreatedAll_example =
    create_objects-CreatedAll 64 cap_tcb 0 base (2 ^ 9) usable 1 0 marked [] [] (omega arith)
      (λ j lo hi. one_safe j lo (omega arith)) marked-Chain place

untyped_retype-Retyped_example :
    (k' : Kernel) × (untyped_retype 64 cap_tcb 0 32 0 64 1 1 marked ≡ done (msg_ok 0) k')
    × Retyped 64 cap_tcb 0 base
        (2 ^ 9)
        usable
        (2 ^ 40)
        (1 * 2 ^ 9 + 2 ^ 9 * 1)
        1
        marked.cte
        k'.cte
        []
        []
untyped_retype-Retyped_example =
    untyped_retype-Retyped 64 cap_tcb 0 32 0 1 1 9 1 marked [] [] tcb_size
      (record {
        word = omega arith;
        fits = omega arith;
        behind = omega arith;
        first_multiple = omega arith;
        room = omega arith;
      })
      (record {
        is_node = refl;
        in_root = node_facts.1;
        is_node' = node_facts.0;
        small = omega arith;
        in_node = node_facts.2;
        some_slot = omega (arith, node_facts);
        nonzero = node_facts.3;
      })
      (omega arith) (λ j hi. one_safe j (omega arith) hi) marked-Chain place
