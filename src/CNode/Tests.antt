-- ===== src/CNode/Tests.antt =====
-- Runs of kern/obj/cnode.c.
use untitled_bare_metal.Base.{ℕ, ◌<◌, ◌≡◌, refl, arith, [], ◌∷◌}
use untitled_bare_metal.Tag.{msg_ok}
use untitled_bare_metal.Cap.{cap_ptr, cap_size, cap_word_0, bits_pointer}
use untitled_bare_metal.Cdt.{Slots}
use untitled_bare_metal.Cdt.Chain.{Chain}
use untitled_bare_metal.Cdt.Delete.{Swept}
use untitled_bare_metal.Kernel.{done}
use untitled_bare_metal.Kernel.Registers.{Ready}
use untitled_bare_metal.CNode.{slot_at, cnode_revoke}
use untitled_bare_metal.CNode.Methods.{Looked, lookup_cap_slot-Looked, cnode_revoke-Swept}
use untitled_bare_metal.Samples.{sample_kernel}

sample-Ready : Ready sample_kernel
sample-Ready = record { thread = omega arith; buffer = omega arith }

lookup_cap_slot-Looked_example : Looked 32 3 sample_kernel
lookup_cap_slot-Looked_example = lookup_cap_slot-Looked 32 3 sample_kernel sample-Ready

in_node : 0 < cap_size (sample_kernel.cte 32).cap
unfolding cap_size
in_node = omega arith

abbrev slot_0 : ℕ
slot_0 = slot_at (cap_ptr (sample_kernel.cte 32).cap) 0

slot_0-Chain : Chain sample_kernel.cte 0 (slot_0 ∷ [])
unfolding cap_ptr bits_pointer cap_word_0
slot_0-Chain = ((λ e. absurd (omega arith)), refl, refl, refl, tt)

cnode_revoke-Swept_example :
    (s : Slots) × (cnode_revoke 1 32 0 64 sample_kernel
      ≡ done (msg_ok 0) (record sample_kernel { cte = s }))
    × Swept sample_kernel.cte s [] slot_0 []
cnode_revoke-Swept_example =
    cnode_revoke-Swept 1 32 0 sample_kernel [] [] refl in_node slot_0-Chain (omega arith)
