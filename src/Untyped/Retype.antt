-- ===== src/Untyped/Retype.antt =====
-- `untyped_retype` as a whole: its refusal, its success, and a target slot that is in use.
use Prim.Native.Nat.{bit_or}
use untitled_bare_metal.Base.{
  ℕ, ◌+◌, ◌%◌, ◌^◌, ◌≤◌, ◌<◌, ◌≡◌, ◌≢◌, ◌∙◌, true, false, some, List, ◌∷◌, ◌++◌, arith, ltb, ◌==◌,
}
use untitled_bare_metal.Sys.{cap_cnode, not_enough_memory}
use untitled_bare_metal.Tag.{msg_ok, msg_err}
use untitled_bare_metal.Cap.{cap_ptr, cap_size, is_safe_cap_ptr}
use untitled_bare_metal.Region.{object_size}
use untitled_bare_metal.Cdt.{Slots, set_cap}
use untitled_bare_metal.Cdt.Chain.{Chain, insert-links, insert-next}
use untitled_bare_metal.Cdt.Effects.{no-Chain}
use untitled_bare_metal.Kernel.{Kernel, done}
use untitled_bare_metal.Kernel.Registers.{Ready, put_mr, msg_not_enough_memory-ok}
use untitled_bare_metal.CNode.{slot_at}
use untitled_bare_metal.CNode.Methods.{lookup_found}
use untitled_bare_metal.Untyped.{
  untyped_retype, retype_into, available_memory, total_size, align_up, set_badge, inside,
  create_object,
}
use untitled_bare_metal.Untyped.Create.{
  created, created_slots, created_cap, zeroed, create_object-ok,
}
use untitled_bare_metal.Untyped.Objects.{created_run, create_objects-run, object_at}

module _ (slot type size_bits root node_index node_offset num n : ℕ) (k : Kernel)
    (sized : object_size type size_bits ≡ some n) where
  abbrev room : ℕ
  room = available_memory (k.cte slot).cap.size_bits (k.cte slot).cap.badge n

  -- Where the sizes leave no room, untyped_retype by a thread with a buffer replies that memory is
  -- short, message register 0 holds what is available, and nothing else has changed.
  pub untyped_retype-full :
      Ready k
      → ltb room (total_size n num) ≡ true
      → untyped_retype slot type size_bits root node_index 64 node_offset num k
        ≡ done (msg_err not_enough_memory 1) (put_mr 0 room k)
  unfolding untyped_retype
  untyped_retype-full r full = rw (sized, full) (msg_not_enough_memory-ok k r room)

  abbrev node : ℕ
  node = slot_at (cap_ptr (k.cte root).cap) node_index

  abbrev base : ℕ
  base = slot_at (cap_ptr (k.cte node).cap) node_offset

  abbrev offset : ℕ
  offset = align_up (k.cte slot).cap.badge n

  abbrev usable : ℕ
  usable = (cap_ptr (k.cte slot).cap + offset) % 2 ^ 64

  -- If the sizes leave room, the root and the target are capability nodes with the indices in
  -- range, and the objects' addresses are safe, then untyped_retype replies without an error after
  -- creating all objects from the aligned mark on, and the mark moves to their end.
  pub untyped_retype-ok :
      ltb room (total_size n num) ≡ false
      → (k.cte root).cap.type ≡ cap_cnode
      → node_index < cap_size (k.cte root).cap
      → (k.cte node).cap.type ≡ cap_cnode
      → node_offset + num < 2 ^ 64
      → node_offset + num ≤ cap_size (k.cte node).cap
      → node_offset < cap_size (k.cte node).cap
      → base ≢ 0
      → k.hhdm ≢ 0
      → ((j : ℕ) → j < num → is_safe_cap_ptr (object_at usable n k.hhdm j) ≡ true)
      → let k' = created_run slot type size_bits base n usable num 0 k in
        untyped_retype slot type size_bits root node_index 64 node_offset num k
        ≡ done
            (msg_ok 0)
            (record k' { cte = set_badge slot ((offset + total_size n num) % 2 ^ 64) k'.cte })
  unfolding untyped_retype retype_into
  untyped_retype-ok fits is_node in_root is_node' small in_node here nz mapped safe =
      rw (sized, fits, lookup_found root node_index k is_node in_root)
        (rw (
          test,
          bound,
          inside_node,
          base_test,
          create_objects-run slot type size_bits base n usable num 0 k mapped
              (λ j lo hi. safe j (omega arith)),
        ))
    where
      test : ((k.cte node).cap.type == cap_cnode) ≡ true
      test = ground arith

      bound : ltb (cap_size (k.cte node).cap) ((node_offset + num) % 2 ^ 64) ≡ false
      bound = ground arith

      inside_node : ltb node_offset (cap_size (k.cte node).cap) ≡ true
      inside_node = ground arith

      base_test : (base == 0) ≡ false
      base_test = ground arith

-- The links after a slot `dest` that stood behind `src` is given to a new object.
stolen-links :
    (s : Slots) (untyped type size_bits src dest p n : ℕ)
    → src ≢ dest
    → src ≢ untyped
    → dest ≢ untyped
    → (s src).next ≡ dest
    → inside p n src ≡ false
    → ((created_slots untyped type size_bits dest p n s src).next ≡ dest)
      × ((created_slots untyped type size_bits dest p n s dest).prev ≡ untyped)
stolen-links s untyped type size_bits src dest p n sd su du nx out =
    let t = set_cap dest (created_cap (zeroed p n s dest).cap type size_bits p) (zeroed p n s) in
    (insert-next t dest untyped src sd su ∙ still, (insert-links t dest untyped du).0)
  where
    still :
        (set_cap dest
          (created_cap (zeroed p n s dest).cap type size_bits p)
          (zeroed p n s)
          src).next
        ≡ dest
    still = ground arith

-- If the target slot of a new object is not null and stands behind another slot src, both not the
-- untyped slot, and src is not under the object, then create_object succeeds and no well-formed
-- list goes through src any more.
create_object-occupied :
    (untyped type size_bits src dest n paddr : ℕ) (k : Kernel) (us vs : List ℕ) (q : ℕ)
    → k.hhdm ≢ 0
    → is_safe_cap_ptr (bit_or paddr k.hhdm) ≡ true
    → src ≢ dest
    → src ≢ untyped
    → dest ≢ untyped
    → dest ≢ 0
    → (k.cte src).next ≡ dest
    → inside (bit_or paddr k.hhdm) n src ≡ false
    → (k' : Kernel) × (create_object untyped type size_bits dest n paddr k ≡ done tt k')
      × ¬ (Chain k'.cte q (us ++ src ∷ vs))
create_object-occupied untyped type size_bits src dest n paddr k us vs q mapped safe sd su du nz nx
      out =
    let p = bit_or paddr k.hhdm in
    let (nx', pr') = stolen-links k.cte untyped type size_bits src dest p n sd su du nx out in
    (
      created untyped type size_bits dest n p k,
      create_object-ok untyped type size_bits dest n paddr k mapped safe,
      no-Chain (created_slots untyped type size_bits dest p n k.cte) src dest untyped q us vs nx'
          pr' nz su,
    )
