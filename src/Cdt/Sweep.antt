-- ===== src/Cdt/Sweep.antt =====
-- What revoking a capability removes from the list of slots behind it.
use untitled_bare_metal.Base.{ℕ, ◌≡◌, refl, true, false, List, [], ◌∷◌, arith, has}
use untitled_bare_metal.Cap.{Capability}
use untitled_bare_metal.Cdt.{is_child}

-- `Sweep caps c ys zs`: with `c` revoked, `zs` is left of `ys`. A child goes after its own children.
pub data Sweep (caps : ℕ → Capability) : Capability → List ℕ → List ℕ → Type 0 where
  nothing : {c : Capability} → Sweep caps c [] []
  stop :
      {c : Capability} {y : ℕ} {ys : List ℕ}
      → is_child (caps y) c ≡ false
      → Sweep caps c (y ∷ ys) (y ∷ ys)
  child :
      {c : Capability} {y : ℕ} {ys zs ws : List ℕ}
      → is_child (caps y) c ≡ true
      → Sweep caps (caps y) ys zs
      → Sweep caps c zs ws
      → Sweep caps c (y ∷ ys) ws

pub Sweep-mem :
    {caps : ℕ → Capability} {c : Capability} {ys zs : List ℕ} (a : ℕ)
    → Sweep caps c ys zs
    → has a zs ≡ true
    → has a ys ≡ true
Sweep-mem a nothing i = i
Sweep-mem a (stop h) i = i
Sweep-mem a (child {y} {ys} h inner outer) i =
    ground (arith, Sweep-mem a inner (Sweep-mem a outer i))

-- Only the capabilities of the swept slots matter.
pub Sweep-agree :
    {caps caps' : ℕ → Capability} {c : Capability} {ys zs : List ℕ}
    → Sweep caps c ys zs
    → ((a : ℕ) → has a ys ≡ true → caps a ≡ caps' a)
    → Sweep caps' c ys zs
Sweep-agree nothing same = nothing
Sweep-agree {caps'} (stop {c} {y} h) same = stop (ground (arith, same y))
Sweep-agree {caps} {caps'} (child {c} {y} {ys} {zs} {ws} h inner outer) same =
    child (ground (arith, same y))
      (rw (same' refl) at (Sweep-agree inner (λ a i. same a (ground arith))))
      (Sweep-agree outer (λ a i. same a (ground (arith, Sweep-mem a inner i))))
  where
    same' : ◌≡◌ {A = ℕ} y y → caps y ≡ caps' y
    same' e = same y (ground arith)

-- The first slot that is left is no child.
pub Sweep-first :
    {caps : ℕ → Capability} {c : Capability} {ys zs : List ℕ} {y : ℕ} {rest : List ℕ}
    → Sweep caps c ys zs
    → zs ≡ y ∷ rest
    → is_child (caps y) c ≡ false
Sweep-first nothing e = cc
Sweep-first {y} (stop {y = z} {ys} h) e = ground arith
Sweep-first (child h inner outer) e = Sweep-first outer e

-- A neighbour that is a child is not left.
pub Sweep-child :
    {caps : ℕ → Capability} {c : Capability} {ys zs : List ℕ} {y : ℕ} {rest : List ℕ}
    → Sweep caps c ys zs
    → ys ≡ y ∷ rest
    → is_child (caps y) c ≡ true
    → (a : ℕ) → has a zs ≡ true
    → has a rest ≡ true
Sweep-child nothing e is a i = cc
Sweep-child {y} (stop {y = z} {ys} h) e is a i = ground arith
Sweep-child {rest} (child {y = z} {ys} h inner outer) e is a i =
    ground (arith, Sweep-mem a inner (Sweep-mem a outer i))
