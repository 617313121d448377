-- ===== src/Untyped/Whole.antt =====
-- `untyped_retype` from its arguments to the slots and the mark that it leaves.
use native.Mathlib.Nat.{one-le-pow, mod-eq_of_lt}
use untitled_bare_metal.Base.{
  ℕ, ◌+◌, ◌-◌, ◌*◌, dec_lt, ◌/◌, ◌%◌, ◌^◌, ◌≤◌, ◌<◌, ◌≡◌, ◌≢◌, ◌∙◌, sym, ap, subst, true, false,
  some, List, [], ◌∷◌, ◌++◌, arith, ltb, has, has-append,
}
use untitled_bare_metal.Sys.{cap_cnode}
use untitled_bare_metal.Tag.{msg_ok}
use untitled_bare_metal.Cap.{Capability, cap_ptr, cap_size, is_safe_cap_ptr}
use untitled_bare_metal.Region.{object_size}
use untitled_bare_metal.Cdt.{Slots}
use untitled_bare_metal.Cdt.Chain.{Chain, ne-of-out}
use untitled_bare_metal.Kernel.{Kernel, done}
use untitled_bare_metal.CNode.{slot_at}
use untitled_bare_metal.Untyped.{untyped_retype, available_memory, total_size, align_up, set_badge}
use untitled_bare_metal.Untyped.Create.{Names}
use untitled_bare_metal.Untyped.Objects.{
  object_at, onto, Placed, created_run-CreatedAll, CreatedAll,
}
use untitled_bare_metal.Untyped.Room.{align_up-le, retype-fits, below_top}
use untitled_bare_metal.Untyped.Retype.{untyped_retype-ok}

-- The first target slot, for an index in the root node and an offset in the node that is there.
abbrev pub first_target : (root node_index node_offset : ℕ) → Kernel → ℕ
first_target root node_index node_offset k =
    slot_at (cap_ptr (k.cte (slot_at (cap_ptr (k.cte root).cap) node_index)).cap) node_offset

-- Where the objects begin, at an offset in the memory of the untyped capability.
abbrev pub memory_at : (slot offset : ℕ) → Kernel → ℕ
memory_at slot offset k = (cap_ptr (k.cte slot).cap + offset) % 2 ^ 64

-- After `num` objects of `n` bytes from `usable` on, the new slots stand behind the untyped one, each
-- with an original capability to its object; the mark of the untyped capability is `mark`, and the
-- other capabilities of the old list are as before.
pub record Retyped (slot type size_bits base n usable hhdm mark num : ℕ) (s s' : Slots)
    (xs ys : List ℕ) : Type 0 where
  pub chain : Chain s' 0 (xs ++ slot ∷ onto base num 0 ys)
  pub names :
      (j : ℕ) → j < num → Names type size_bits (object_at usable n hhdm j) (s' (slot_at base j)).cap
  pub marked : (s' slot).cap ≡ record (s slot).cap { badge = mark }
  pub kept : (a : ℕ) → has a (xs ++ slot ∷ ys) ≡ true → a ≢ slot → (s' a).cap ≡ (s a).cap

-- Only the links of the slots matter to a list.
Chain-links :
    (s t : Slots) (p : ℕ) (xs : List ℕ)
    → ((a : ℕ) → ((t a).prev ≡ (s a).prev) × ((t a).next ≡ (s a).next))
    → Chain s p xs
    → Chain t p xs
Chain-links s t p [] h c = tt
Chain-links s t p (x ∷ xs) h (nz, out, pr, nx, c) =
    (nz, out, (h x).0 ∙ pr, (h x).1 ∙ nx, Chain-links s t x xs h c)

set_badge-links :
    (p b : ℕ) (s : Slots) (a : ℕ)
    → ((set_badge p b s a).prev ≡ (s a).prev) × ((set_badge p b s a).next ≡ (s a).next)
set_badge-links p b s a = (ground arith, ground arith)

set_badge-cap :
    (p b : ℕ) (s : Slots)
    → ((set_badge p b s p).cap ≡ record (s p).cap { badge = b })
      × ((a : ℕ) → a ≢ p → (set_badge p b s a).cap ≡ (s a).cap)
set_badge-cap p b s = (ground arith, λ a ne. ground arith)

-- The mark after the loop.
CreatedAll-Retyped :
    (slot type size_bits base n usable hhdm mark num : ℕ) (s t : Slots) (xs ys : List ℕ)
    → Placed base n usable hhdm (xs ++ slot ∷ ys) num 0
    → CreatedAll slot type size_bits base n usable hhdm s t xs ys num 0
    → Retyped slot type size_bits base n usable hhdm mark num s (set_badge slot mark t) xs ys
CreatedAll-Retyped slot type size_bits base n usable hhdm mark num s t xs ys p c =
    let listed : has slot (xs ++ slot ∷ ys) ≡ true =
      ground (arith, has-append slot xs (slot ∷ ys)) in
    let (here, there) = set_badge-cap slot mark t in
    record {
      chain = Chain-links t (set_badge slot mark t) 0 _ (set_badge-links slot mark t) c.chain;
      names = λ j lt.
          let other : slot_at base j ≢ slot = λ e.
            ne-of-out (slot_at base j) slot (xs ++ slot ∷ ys) listed
              (p.fresh j (omega arith) (omega arith)).1 (sym e) in
          rw (there (slot_at base j) other) (c.names j (omega arith) (omega arith));
      marked = here ∙ ap (λ (d : Capability). record d { badge = mark }) (c.kept slot listed);
      kept = λ a is ne. there a ne ∙ c.kept a is;
    }

-- Two multiples less than the divisor apart are the same.
same_multiple : (q r a : ℕ) → r * a ≤ q * a → q * a < r * a + a → r * a ≡ q * a
same_multiple q r a le lt = elim (dec_lt r q) [
  | yes below ↦
      let up : (r + 1) * a ≤ q * a = grind arith in
      let next : (r + 1) * a ≡ r * a + a = grind arith in absurd (omega (arith, up, next, lt))
  | no above ↦ let down : q * a ≤ r * a = grind arith in omega (arith, le, down)
]

-- An offset is the badge rounded up where it is a multiple that is reached first.
align_up-first :
    (badge a q : ℕ)
    → 0 < a
    → a ≤ 2 ^ 63
    → q * a ≤ 2 ^ 63
    → badge ≤ q * a
    → q * a < badge + a
    → align_up badge a ≡ q * a
unfolding align_up
align_up-first badge a q pos small small' lo hi =
    let (le, up, _) = align_up-le badge a q pos lo small' small in
    let whole : (badge + a - 1) % 2 ^ 64 ≡ badge + a - 1 = mod-eq_of_lt (omega arith) in
    let up' : (badge + a - 1) / a * a ≤ q * a = subst (λ (m : ℕ). m / a * a ≤ q * a) whole up in
    let le' : badge ≤ (badge + a - 1) / a * a = subst (λ (m : ℕ). badge ≤ m / a * a) whole le in
    rw whole (same_multiple q ((badge + a - 1) / a) a up' (omega (arith, le', hi)))

module _ (slot type size_bits root node_index node_offset num n : ℕ) (k : Kernel)
    (xs ys : List ℕ) where
  abbrev base : ℕ
  base = first_target root node_index node_offset k

  -- The result for objects from an offset on, with the mark behind them.
  abbrev RetypesFrom : (offset mark : ℕ) → Type 0
  RetypesFrom offset mark =
      (k' : Kernel) × (untyped_retype slot type size_bits root node_index 64 node_offset num k
        ≡ done (msg_ok 0) k')
      × Retyped slot type size_bits base n (memory_at slot offset k) k.hhdm mark num k.cte k'.cte xs
          ys

  -- Where the target slots lie, in a capability node that the lookup finds.
  pub record Target : Type 0 where
    pub is_node : (k.cte root).cap.type ≡ cap_cnode
    pub in_root : node_index < cap_size (k.cte root).cap
    pub is_node' : (k.cte (slot_at (cap_ptr (k.cte root).cap) node_index)).cap.type ≡ cap_cnode
    pub small : node_offset + num < 2 ^ 64
    pub in_node :
        node_offset + num ≤ cap_size (k.cte (slot_at (cap_ptr (k.cte root).cap) node_index)).cap
    pub some_slot :
        node_offset < cap_size (k.cte (slot_at (cap_ptr (k.cte root).cap) node_index)).cap
    pub nonzero : base ≢ 0

  module _ (sized : object_size type size_bits ≡ some n) (g : Target) (mapped : k.hhdm ≢ 0)
      (chain : Chain k.cte 0 (xs ++ slot ∷ ys))
      (room : ltb
          (available_memory (k.cte slot).cap.size_bits (k.cte slot).cap.badge n)
          (total_size n num)
        ≡ false) where
    retypes_from :
        (offset : ℕ)
        → align_up (k.cte slot).cap.badge n ≡ offset
        → ((j : ℕ)
            → j < num
            → is_safe_cap_ptr (object_at (memory_at slot offset k) n k.hhdm j) ≡ true)
        → Placed base n (memory_at slot offset k) k.hhdm (xs ++ slot ∷ ys) num 0
        → RetypesFrom offset ((offset + total_size n num) % 2 ^ 64)
    retypes_from offset e =
        subst
          (λ (o : ℕ).
            ((j : ℕ) → j < num → is_safe_cap_ptr (object_at (memory_at slot o k) n k.hhdm j) ≡ true)
            → Placed base n (memory_at slot o k) k.hhdm (xs ++ slot ∷ ys) num 0
            → RetypesFrom o ((o + total_size n num) % 2 ^ 64))
          e from_badge
      where
        from_badge :
            ((j : ℕ)
              → j < num
              → is_safe_cap_ptr
                  (object_at (memory_at slot (align_up (k.cte slot).cap.badge n) k) n k.hhdm j)
                ≡ true)
            → Placed base n
                (memory_at slot (align_up (k.cte slot).cap.badge n) k)
                k.hhdm
                (xs ++ slot ∷ ys)
                num
                0
            → RetypesFrom
                (align_up (k.cte slot).cap.badge n)
                ((align_up (k.cte slot).cap.badge n + total_size n num) % 2 ^ 64)
        from_badge safe placed = (
          _,
          untyped_retype-ok slot type size_bits root node_index node_offset num n k sized room
              g.is_node g.in_root g.is_node' g.small g.in_node g.some_slot g.nonzero mapped safe,
          CreatedAll-Retyped slot type size_bits base n _ k.hhdm _ num k.cte _ xs ys placed
              (created_run-CreatedAll slot type size_bits base n _ xs num 0 k ys chain placed),
        )

-- The memory of an untyped capability of 2^m bytes has room for `num` objects of 2^j bytes from the
-- offset q * 2^j on, the first multiple of their size that is not below the mark.
pub record Room (m j q num badge : ℕ) : Type 0 where
  pub word : m < 64
  pub fits : j ≤ m
  pub behind : badge ≤ q * 2 ^ j
  pub first_multiple : q * 2 ^ j < badge + 2 ^ j
  pub room : q * 2 ^ j + 2 ^ j * num ≤ 2 ^ m

-- Let objects of 2^j bytes have room in the untyped memory from the first multiple of 2^j that is
-- not below its mark, let the root and the target be capability nodes with the indices in range,
-- let the objects' addresses be safe, the untyped slot stand in a well-formed list, and the target
-- slots be distinct, outside that list and not under the new objects. Then untyped_retype replies
-- without an error, the new slots stand right behind the untyped one in a well-formed list, the
-- last one first, each holds an original capability with badge 0 of the given type and size to its
-- object, the objects lie one behind another from that multiple on, the mark moves to their end,
-- and the other capabilities of the list are as before.
pub untyped_retype-Retyped :
    (slot type size_bits root node_index node_offset num j q : ℕ) (k : Kernel) (xs ys : List ℕ)
    → object_size type size_bits ≡ some (2 ^ j)
    → Room (k.cte slot).cap.size_bits j q num (k.cte slot).cap.badge
    → Target slot type size_bits root node_index node_offset num (2 ^ j) k xs ys
    → k.hhdm ≢ 0
    → ((i : ℕ)
        → i < num
        → is_safe_cap_ptr (object_at (memory_at slot (q * 2 ^ j) k) (2 ^ j) k.hhdm i) ≡ true)
    → Chain k.cte 0 (xs ++ slot ∷ ys)
    → Placed
        (first_target root node_index node_offset k)
        (2 ^ j)
        (memory_at slot (q * 2 ^ j) k)
        k.hhdm
        (xs ++ slot ∷ ys)
        num
        0
    → (k' : Kernel) × (untyped_retype slot type size_bits root node_index 64 node_offset num k
        ≡ done (msg_ok 0) k')
      × Retyped slot type size_bits
          (first_target root node_index node_offset k)
          (2 ^ j)
          (memory_at slot (q * 2 ^ j) k)
          k.hhdm
          (q * 2 ^ j + 2 ^ j * num)
          num
          k.cte
          k'.cte
          xs
          ys
untyped_retype-Retyped slot type size_bits root node_index node_offset num j q k xs ys sized r g
      mapped safe chain placed =
    let m = (k.cte slot).cap.size_bits in
    let badge = (k.cte slot).cap.badge in
    let top = below_top m r.word in
    let pos = one-le-pow j 2 (omega arith) in
    let half = below_top j (omega (arith, r.word, r.fits)) in
    let aligned : align_up badge (2 ^ j) ≡ q * 2 ^ j =
      align_up-first badge (2 ^ j) q (omega (arith, pos)) (omega (arith, half))
        (omega (arith, r.room, top)) r.behind r.first_multiple in
    let total : 2 ^ j * num < 2 ^ 64 = omega (arith, r.room, top) in
    let enough =
      (retype-fits m j badge num r.word r.fits (omega (arith, r.behind, r.room)) total).1
        (omega (arith, aligned, r.room)) in
    let whole : (q * 2 ^ j + total_size (2 ^ j) num) % 2 ^ 64 ≡ q * 2 ^ j + 2 ^ j * num =
      omega (arith, r.room, top, total) in
    subst
      (λ (mark : ℕ).
        RetypesFrom slot type size_bits root node_index node_offset num (2 ^ j) k xs ys (q * 2 ^ j)
          mark)
      whole
      (retypes_from slot type size_bits root node_index node_offset num (2 ^ j) k xs ys sized g
        mapped chain enough (q * 2 ^ j) aligned safe placed)
