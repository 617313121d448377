-- ===== src/Untyped/Objects.antt =====
-- The loop of `create_objects`: all the objects, and the list that their slots make.
use Prim.Native.Nat.{bit_or}
use untitled_bare_metal.Base.{
  ℕ, zero, suc, ◌+◌, ◌*◌, ◌%◌, ◌^◌, ◌≤◌, ◌<◌, ◌≡◌, ◌≢◌, ◌∙◌, refl, true, false, List, ◌∷◌, ◌++◌,
  arith, has, has-append, has-insert_out, has-insert_in, ℕ_discrete, ◌==◌,
}
use untitled_bare_metal.Cap.{is_safe_cap_ptr}
use untitled_bare_metal.Cdt.{Slots}
use untitled_bare_metal.Cdt.Chain.{Chain, ne-of-out}
use untitled_bare_metal.Kernel.{Kernel, done}
use untitled_bare_metal.CNode.{slot_at}
use untitled_bare_metal.Untyped.{create_objects, inside, clear_memory}
use untitled_bare_metal.Untyped.Create.{Names, created, create_object-ok, created_slots-Created}

-- Where object `j` lies.
abbrev pub object_at : (usable_memory obj_size hhdm j : ℕ) → ℕ
object_at usable_memory obj_size hhdm j = bit_or ((usable_memory + j * obj_size) % 2 ^ 64) hhdm

-- The kernel after `left` rounds from round `i`.
pub created_run : (untyped type size_bits base n usable left i : ℕ) → Kernel → Kernel
created_run untyped type size_bits base n usable zero i k = k
created_run untyped type size_bits base n usable (suc left) i k =
    created_run untyped type size_bits base n usable left (i + 1)
      (created untyped type size_bits (slot_at base i) n (object_at usable n k.hhdm i) k)

-- The slots in front of `ys`, the last one first.
abbrev pub onto : (base left i : ℕ) → List ℕ → List ℕ
onto base zero i ys = ys
onto base (suc left) i ys = onto base left (i + 1) (slot_at base i ∷ ys)

module _ (untyped type size_bits base n usable : ℕ) where
  pub create_objects-run :
      (left i : ℕ) (k : Kernel)
      → k.hhdm ≢ 0
      → ((j : ℕ) → i ≤ j → j < i + left → is_safe_cap_ptr (object_at usable n k.hhdm j) ≡ true)
      → create_objects untyped type size_bits base n usable left i k
        ≡ done tt (created_run untyped type size_bits base n usable left i k)
  unfolding create_objects created_run
  create_objects-run zero i k mapped safe = refl
  create_objects-run (suc left) i k mapped safe =
      rw
        (create_object-ok untyped type size_bits (slot_at base i) n ((usable + i * n) % 2 ^ 64) k
          mapped (safe i (omega arith) (omega arith)))
        (create_objects-run left (i + 1)
          (created untyped type size_bits (slot_at base i) n (object_at usable n k.hhdm i) k) mapped
          (λ j lo hi. safe j (omega arith) (omega arith)))

-- The new slots are distinct and in no list, and no object lies over a slot in use.
pub record Placed (base n usable hhdm : ℕ) (zs : List ℕ) (left i : ℕ) : Type 0 where
  pub fresh :
      (j : ℕ) → i ≤ j → j < i + left → (slot_at base j ≢ 0) × (has (slot_at base j) zs ≡ false)
  pub distinct : (j j' : ℕ) → i ≤ j → j < j' → j' < i + left → slot_at base j' ≢ slot_at base j
  pub listed :
      (j a : ℕ)
      → i ≤ j
      → j < i + left
      → has a zs ≡ true
      → inside (object_at usable n hhdm j) n a ≡ false
  pub apart :
      (j j' : ℕ)
      → i ≤ j
      → j < i + left
      → i ≤ j'
      → j' < i + left
      → inside (object_at usable n hhdm j) n (slot_at base j') ≡ false

differ : (a b : ℕ) → a ≢ b → (a == b) ≡ false
differ a b ne = ground arith

module _ (untyped base n usable hhdm : ℕ) (xs : List ℕ) where
  Placed-next :
      (ys : List ℕ) (left i : ℕ)
      → Placed base n usable hhdm (xs ++ untyped ∷ ys) (suc left) i
      → Placed base n usable hhdm (xs ++ untyped ∷ slot_at base i ∷ ys) left (i + 1)
  Placed-next ys left i p = record {
    fresh = λ j lo hi. (
      (p.fresh j (omega arith) (omega arith)).0,
      has-insert_out (slot_at base j) (slot_at base i) untyped xs ys
          (p.fresh j (omega arith) (omega arith)).1
          (differ (slot_at base j) (slot_at base i)
            (p.distinct i j (omega arith) (omega arith) (omega arith))),
    );
    distinct = λ j j' lo lt hi. p.distinct j j' (omega arith) lt (omega arith);
    listed = λ j a lo hi is. elim (ℕ_discrete a (slot_at base i)) [
      | yes e ↦ rw e (p.apart j i (omega arith) (omega arith) (omega arith) (omega arith))
      | no ne ↦
          p.listed j a (omega arith) (omega arith)
            (has-insert_in a (slot_at base i) untyped xs ys is (differ a (slot_at base i) ne))
    ];
    apart =
        λ j j' lo hi lo' hi'. p.apart j j' (omega arith) (omega arith) (omega arith) (omega arith);
  }

-- After the loop the new slots stand behind the untyped one, each names its object, and the other
-- capabilities of the list are as before.
pub record CreatedAll (untyped type size_bits base n usable hhdm : ℕ) (s s' : Slots)
    (xs ys : List ℕ) (left i : ℕ) : Type 0 where
  pub chain : Chain s' 0 (xs ++ untyped ∷ onto base left i ys)
  pub names :
      (j : ℕ)
      → i ≤ j
      → j < i + left
      → Names type size_bits (object_at usable n hhdm j) (s' (slot_at base j)).cap
  pub kept : (a : ℕ) → has a (xs ++ untyped ∷ ys) ≡ true → (s' a).cap ≡ (s a).cap

module _ (untyped type size_bits base n usable : ℕ) (xs : List ℕ) where
  mine : (i : ℕ) (ys : List ℕ) → has (slot_at base i) (xs ++ untyped ∷ slot_at base i ∷ ys) ≡ true
  mine i ys = ground (arith, has-append (slot_at base i) xs (untyped ∷ slot_at base i ∷ ys))

  bigger :
      (a i : ℕ) (ys : List ℕ)
      → has a (xs ++ untyped ∷ ys) ≡ true
      → has a (xs ++ untyped ∷ slot_at base i ∷ ys) ≡ true
  bigger a i ys is =
      ground
        (arith, has-append a xs (untyped ∷ ys), has-append a xs (untyped ∷ slot_at base i ∷ ys))

  other : (a b : ℕ) (zs : List ℕ) → has a zs ≡ true → has b zs ≡ false → a ≢ b
  other a b zs is out = ne-of-out b a zs is out

  pub created_run-CreatedAll :
      (left i : ℕ) (k : Kernel) (ys : List ℕ)
      → Chain k.cte 0 (xs ++ untyped ∷ ys)
      → Placed base n usable k.hhdm (xs ++ untyped ∷ ys) left i
      → CreatedAll untyped type size_bits base n usable k.hhdm k.cte
          (created_run untyped type size_bits base n usable left i k).cte
          xs
          ys
          left
          i
  unfolding created_run clear_memory
  created_run-CreatedAll zero i k ys chain p = record {
    chain = chain;
    names = λ j lo hi. absurd (omega arith);
    kept = λ a is. refl;
  }
  created_run-CreatedAll (suc left) i k ys chain p =
      let first =
        created_slots-Created k.cte xs untyped (slot_at base i) ys type size_bits
          (object_at usable n k.hhdm i) n chain (p.fresh i (omega arith) (omega arith)).0
          (p.fresh i (omega arith) (omega arith)).1
          (λ a is. p.listed i a (omega arith) (omega arith) is) in
      let rest =
        created_run-CreatedAll left (i + 1)
          (created untyped type size_bits (slot_at base i) n (object_at usable n k.hhdm i) k)
          (slot_at base i ∷ ys) first.chain
          (Placed-next untyped base n usable k.hhdm xs ys left i p) in
      record {
        chain = rest.chain;
        names = λ j lo hi. elim (ℕ_discrete j i) [
          | yes e ↦ rw (e, rest.kept (slot_at base i) (mine i ys)) first.names
          | no ne ↦ rest.names j (omega arith) (omega arith)
        ];
        kept = λ a is.
            rest.kept a (bigger a i ys is)
            ∙ first.kept a
                (other a (slot_at base i) (xs ++ untyped ∷ ys) is
                  (p.fresh i (omega arith) (omega arith)).1)
                (p.listed i a (omega arith) (omega arith) is);
      }

-- If the direct map is set, the objects' addresses are safe, the untyped slot stands in a
-- well-formed list, and the target slots are distinct, outside that list and not under the new
-- objects, then the loop of create_objects from round i for left rounds succeeds. The new slots
-- stand right behind the untyped slot in a well-formed list, the last one first, slot j holds an
-- original capability with badge 0 of the given type and size to object j, and the capabilities of
-- the old list are as before.
pub create_objects-CreatedAll :
    (untyped type size_bits base n usable left i : ℕ) (k : Kernel) (xs ys : List ℕ)
    → k.hhdm ≢ 0
    → ((j : ℕ) → i ≤ j → j < i + left → is_safe_cap_ptr (object_at usable n k.hhdm j) ≡ true)
    → Chain k.cte 0 (xs ++ untyped ∷ ys)
    → Placed base n usable k.hhdm (xs ++ untyped ∷ ys) left i
    → (k' : Kernel) × (create_objects untyped type size_bits base n usable left i k ≡ done tt k')
      × CreatedAll untyped type size_bits base n usable k.hhdm k.cte k'.cte xs ys left i
create_objects-CreatedAll untyped type size_bits base n usable left i k xs ys mapped safe chain
      placed =
    (
      created_run untyped type size_bits base n usable left i k,
      create_objects-run untyped type size_bits base n usable left i k mapped safe,
      created_run-CreatedAll untyped type size_bits base n usable xs left i k ys chain placed,
    )
