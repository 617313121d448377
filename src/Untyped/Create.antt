-- ===== src/Untyped/Create.antt =====
-- One object cut from untyped memory, and the slot that names it.
use Prim.Native.Nat.{bit_or}
use untitled_bare_metal.Base.{
  ℕ, ◌/◌, ◌%◌, ◌^◌, ◌≡◌, ◌≢◌, ◌∙◌, refl, ap, true, false, List, ◌∷◌, ◌++◌, arith, has, ◌==◌,
  if◌then◌else◌,
}
use untitled_bare_metal.Cap.{Capability, Cte, is_safe_cap_ptr, cap_set_ptr, new_null_cap}
use untitled_bare_metal.Cdt.{Slots, insert_cte_after, set_cap}
use untitled_bare_metal.Cdt.Chain.{Chain, Chain-frame, insert-Chain}
use untitled_bare_metal.Cdt.Derive.{set_cap-Chain, insert-cap}
use untitled_bare_metal.Kernel.{Kernel, done}
use untitled_bare_metal.Untyped.{create_object, clear_memory, inside, object_cap, init_object}

-- The slots once the memory of the object is zero.
abbrev pub zeroed : (p n : ℕ) → Slots → Slots
zeroed p n s a = if inside p n a then record { cap = new_null_cap; next = 0; prev = 0 } else s a

-- The capability of a new object.
abbrev pub created_cap : Capability → (type size_bits p : ℕ) → Capability
created_cap c type size_bits p = record (object_cap c type size_bits) { ptr = p / 2 ^ 4 % 2 ^ 44 }

abbrev pub created_slots : (untyped type size_bits dest p n : ℕ) → Slots → Slots
created_slots untyped type size_bits dest p n s =
    insert_cte_after dest untyped
      (set_cap dest (created_cap (zeroed p n s dest).cap type size_bits p) (zeroed p n s))

-- The kernel with one more object.
abbrev pub created : (untyped type size_bits dest n p : ℕ) → Kernel → Kernel
created untyped type size_bits dest n p k = record (clear_memory p n k) {
  node = init_object type p (clear_memory p n k).node;
  cte = created_slots untyped type size_bits dest p n k.cte;
}

pub create_object-ok :
    (untyped type size_bits dest n paddr : ℕ) (k : Kernel)
    → k.hhdm ≢ 0
    → is_safe_cap_ptr (bit_or paddr k.hhdm) ≡ true
    → create_object untyped type size_bits dest n paddr k
      ≡ done tt (created untyped type size_bits dest n (bit_or paddr k.hhdm) k)
unfolding create_object cap_set_ptr
create_object-ok untyped type size_bits dest n paddr k mapped safe = rw (zero_test, safe)
  where
    zero_test : (k.hhdm == 0) ≡ false
    zero_test = ground arith

-- A slot outside the zeroed memory keeps its contents.
zeroed-out : (p n : ℕ) (s : Slots) (a : ℕ) → inside p n a ≡ false → zeroed p n s a ≡ s a
zeroed-out p n s a out = rw out

-- A capability that names a new object at `p`.
pub record Names (type size_bits p : ℕ) (c : Capability) : Type 0 where
  pub type_ : c.type ≡ type % 2 ^ 5
  pub size_ : c.size_bits ≡ size_bits % 2 ^ 6
  pub original : c.is_original ≡ true
  pub badge : c.badge ≡ 0
  pub pointer : c.ptr ≡ p / 2 ^ 4 % 2 ^ 44

-- The new slot stands right behind the untyped one, and names the object.
pub record Created (s s' : Slots) (xs : List ℕ) (untyped dest : ℕ) (ys : List ℕ)
    (type size_bits p n : ℕ) : Type 0 where
  pub chain : Chain s' 0 (xs ++ untyped ∷ dest ∷ ys)
  pub names : Names type size_bits p (s' dest).cap
  pub kept : (a : ℕ) → a ≢ dest → inside p n a ≡ false → (s' a).cap ≡ (s a).cap

pub created_slots-Created :
    (s : Slots) (xs : List ℕ) (untyped dest : ℕ) (ys : List ℕ) (type size_bits p n : ℕ)
    → Chain s 0 (xs ++ untyped ∷ ys)
    → dest ≢ 0
    → has dest (xs ++ untyped ∷ ys) ≡ false
    → ((a : ℕ) → has a (xs ++ untyped ∷ ys) ≡ true → inside p n a ≡ false)
    → Created s
        (created_slots untyped type size_bits dest p n s)
        xs
        untyped
        dest
        ys
        type
        size_bits
        p
        n
created_slots-Created s xs untyped dest ys type size_bits p n chain nz out apart = record {
  chain =
      insert-Chain (set_cap dest c z) dest untyped 0 xs ys
        (set_cap-Chain z dest c (xs ++ untyped ∷ ys) base out) nz out;
  names =
      rw is (record { type_ = refl; size_ = refl; original = refl; badge = refl; pointer = refl });
  kept = λ a ne away.
      insert-cap (set_cap dest c z) dest untyped a
      ∙ ap (λ (e : Cte). e.cap) (other a ne)
      ∙ ap (λ (e : Cte). e.cap) (zeroed-out p n s a away);
}
  where
    z : Slots
    z = zeroed p n s

    c : Capability
    c = created_cap (z dest).cap type size_bits p

    base : Chain z 0 (xs ++ untyped ∷ ys)
    base = Chain-frame s z 0 (xs ++ untyped ∷ ys) chain (λ a i. zeroed-out p n s a (apart a i))

    is : (insert_cte_after dest untyped (set_cap dest c z) dest).cap ≡ c
    is = insert-cap (set_cap dest c z) dest untyped dest ∙ ground arith

    other : (a : ℕ) → a ≢ dest → set_cap dest c z a ≡ z a
    other a ne = ground arith
