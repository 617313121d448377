-- ===== src/Cdt/Chain.antt =====
-- A derivation list as a sequence of slots, and what `insert_cte_after` and `unlink_cte` do to it.
use untitled_bare_metal.Base.{
  ℕ, ◌≡◌, ◌≢◌, refl, sym, ◌∙◌, true, false, List, [], ◌∷◌, ◌++◌, arith, has, has-append,
}
use untitled_bare_metal.Cdt.{Slots, insert_cte_after, unlink_cte}

-- The first slot of a list, or null.
abbrev pub first : List ℕ → ℕ
first [] = 0
first (x ∷ xs) = x

-- The last slot of a list, or `p` where it is empty.
abbrev pub last : ℕ → List ℕ → ℕ
last p [] = p
last p (x ∷ xs) = last x xs

-- `xs` are distinct slots, linked forwards and backwards; `p` comes before the first, null after
-- the last.
abbrev pub Chain : Slots → ℕ → List ℕ → Type 0
Chain s p [] = Unit {0}
Chain s p (x ∷ xs) =
    (x ≢ 0) × (has x xs ≡ false) × ((s x).prev ≡ p) × ((s x).next ≡ first xs) × Chain s x xs

-- A slot outside a list is not its first.
pub first-ne : (a : ℕ) (ys : List ℕ) → a ≢ 0 → has a ys ≡ false → first ys ≢ a
first-ne a [] ne out = ground arith
first-ne a (y ∷ ys) ne out = ground arith

pub Chain-frame :
    (s t : Slots) (p : ℕ) (xs : List ℕ)
    → Chain s p xs
    → ((a : ℕ) → has a xs ≡ true → t a ≡ s a)
    → Chain t p xs
Chain-frame s t p [] c same = tt
Chain-frame s t p (x ∷ xs) (ne, out, pr, nx, c) same = (
  ne,
  out,
  ground (arith, same x),
  ground (arith, same x),
  Chain-frame s t x xs c (λ a i. same a (ground arith)),
)

-- The neighbours of a slot in the middle.
module _ (s : Slots) (a : ℕ) (ys : List ℕ) where
  pub next-mid : (p : ℕ) (xs : List ℕ) → Chain s p (xs ++ a ∷ ys) → (s a).next ≡ first ys
  next-mid p [] c = c.3
  next-mid p (x ∷ xs) c = next-mid x xs c.4

  pub prev-mid : (p : ℕ) (xs : List ℕ) → Chain s p (xs ++ a ∷ ys) → (s a).prev ≡ last p xs
  prev-mid p [] c = c.2
  prev-mid p (x ∷ xs) c = prev-mid x xs c.4

  pub mid-ne-zero : (p : ℕ) (xs : List ℕ) → Chain s p (xs ++ a ∷ ys) → a ≢ 0
  mid-ne-zero p [] c = c.0
  mid-ne-zero p (x ∷ xs) c = mid-ne-zero x xs c.4

first-append : (a : ℕ) (xs ys zs : List ℕ) → first (xs ++ a ∷ ys) ≡ first (xs ++ a ∷ zs)
first-append a [] ys zs = refl
first-append a (x ∷ xs) ys zs = refl

pub insert_outside :
    (s : Slots) (n a b : ℕ) → b ≢ n → b ≢ a → b ≢ (s a).next → insert_cte_after n a s b ≡ s b
unfolding insert_cte_after
insert_outside s n a b bn ba bx = ground arith

pub unlink_outside :
    (s : Slots) (d b : ℕ) → b ≢ d → b ≢ (s d).prev → b ≢ (s d).next → unlink_cte d s b ≡ s b
unfolding unlink_cte
unlink_outside s d b bd bp bx = ground arith

unlink-next : (s : Slots) (d b : ℕ) → b ≢ d → b ≢ (s d).prev → (unlink_cte d s b).next ≡ (s b).next
unfolding unlink_cte
unlink-next s d b bd bp = ground arith

-- What it means that `a` is not among the parts of a list.
pub has-mid :
    (a d : ℕ) (xs ys : List ℕ)
    → has a (xs ++ d ∷ ys) ≡ false
    → (has a xs ≡ false) × (a ≢ d) × (has a ys ≡ false)
has-mid a d xs ys out = ground (arith, has-append a xs (d ∷ ys))

pub ne-of-out : (a b : ℕ) (xs : List ℕ) → has b xs ≡ true → has a xs ≡ false → b ≢ a
ne-of-out a b [] i out = ground arith
ne-of-out a b (x ∷ xs) i out = ground (arith, ne-of-out a b xs)

-- Inserting a slot that is not null and not in a well-formed list behind any slot of the list
-- leaves a well-formed list with the new slot right behind that one.
pub insert-Chain :
    (s : Slots) (n a p : ℕ) (xs ys : List ℕ)
    → Chain s p (xs ++ a ∷ ys)
    → n ≢ 0
    → has n (xs ++ a ∷ ys) ≡ false
    → Chain (insert_cte_after n a s) p (xs ++ a ∷ n ∷ ys)
unfolding insert_cte_after
insert-Chain s n a p [] [] c ne out = ground arith
insert-Chain s n a p [] (y ∷ ys) (a_ne, a_out, pr, nx, (y_ne, y_out, ypr, ynx, c)) ne out = (
  a_ne,
  ground arith,
  ground arith,
  ground arith,
  (
    ne,
    ground arith,
    ground arith,
    ground arith,
    (
      y_ne,
      y_out,
      ground arith,
      ground arith,
      Chain-frame s (insert_cte_after n a s) y ys c (λ b i.
          insert_outside s n a b (ne-of-out n b ys i (ground arith))
            (ne-of-out a b ys i (ground arith)) (λ e. ne-of-out y b ys i y_out (e ∙ nx))),
    ),
  ),
)
insert-Chain s n a p (x ∷ xs) ys (x_ne, x_out, pr, nx, c) ne out = (
  x_ne,
  ground (arith, has-append x xs (a ∷ ys), has-append x xs (a ∷ n ∷ ys)),
  ground (arith, next-mid s a ys x xs c, has-append x xs (a ∷ ys), first-ne x ys),
  ground (
    arith,
    next-mid s a ys x xs c,
    has-append x xs (a ∷ ys),
    first-ne x ys,
    first-append a xs ys (n ∷ ys),
  ),
  insert-Chain s n a x xs ys c ne (ground arith),
)

pub last-ne : (a p : ℕ) (xs : List ℕ) → a ≢ p → has a xs ≡ false → last p xs ≢ a
last-ne a p [] ne out = ground arith
last-ne a p (x ∷ xs) ne out = last-ne a x xs (ground arith) (ground arith)

last-out : (a d z : ℕ) (xs ys : List ℕ) → has a (z ∷ xs ++ d ∷ ys) ≡ false → last z xs ≢ a
last-out a d z xs ys out =
    last-ne a z xs (ground (arith, has-mid a d (z ∷ xs) ys))
      (ground (arith, has-mid a d (z ∷ xs) ys))

-- Unlinking any slot of a well-formed list whose predecessor pointer p is not in it leaves a
-- well-formed list of the other slots.
pub unlink-Chain :
    (s : Slots) (d p : ℕ) (xs ys : List ℕ)
    → Chain s p (xs ++ d ∷ ys)
    → has p (xs ++ d ∷ ys) ≡ false
    → Chain (unlink_cte d s) p (xs ++ ys)
unfolding unlink_cte
unlink-Chain s d p [] [] c out = tt
unlink-Chain s d p [] (y ∷ ys) (d_ne, d_out, pr, nx, (y_ne, y_out, ypr, ynx, c)) out = (
  y_ne,
  y_out,
  ground arith,
  ground arith,
  Chain-frame s (unlink_cte d s) y ys c (λ b i.
      unlink_outside s d b (ne-of-out d b ys i (ground arith))
        (λ e. ne-of-out p b ys i (ground arith) (e ∙ pr)) (λ e. ne-of-out y b ys i y_out (e ∙ nx))),
)
unlink-Chain s d p (x ∷ []) ys (x_ne, x_out, pr, nx, c) out = (
  x_ne,
  ground arith,
  ground (arith, next-mid s d ys x [] c, first-ne x ys),
  ground (arith, next-mid s d ys x [] c, prev-mid s d ys x [] c, first-ne x ys),
  unlink-Chain s d x [] ys c x_out,
)
unlink-Chain s d p (x ∷ z ∷ xs) ys (x_ne, x_out, pr, nx, c) out = (
  x_ne,
  ground (arith, has-append x xs (d ∷ ys), has-append x xs ys),
  ground (arith, next-mid s d ys x (z ∷ xs) c, has-append x xs (d ∷ ys), first-ne x ys),
  unlink-next s d x (has-mid x d (z ∷ xs) ys x_out).1
        (λ e. last-out x d z xs ys x_out (sym (e ∙ prev-mid s d ys x (z ∷ xs) c)))
      ∙ nx,
  unlink-Chain s d x (z ∷ xs) ys c x_out,
)

-- The successor of a slot points back to it.
pub prev-first :
    (s : Slots) (a p : ℕ) (xs ys : List ℕ)
    → Chain s p (xs ++ a ∷ ys)
    → first ys ≢ 0
    → (s (first ys)).prev ≡ a
prev-first s a p [] [] c nz = absurd (nz refl)
prev-first s a p [] (y ∷ ys) c nz = c.4.2
prev-first s a p (x ∷ xs) ys c nz = prev-first s a x xs ys c.4 nz

-- The links that an insertion writes.
pub insert-links :
    (s : Slots) (n a : ℕ)
    → n ≢ a
    → ((insert_cte_after n a s n).prev ≡ a) × ((insert_cte_after n a s a).next ≡ n)
unfolding insert_cte_after
insert-links s n a ne = ground arith

pub insert-next :
    (s : Slots) (n a b : ℕ) → b ≢ n → b ≢ a → (insert_cte_after n a s b).next ≡ (s b).next
unfolding insert_cte_after
insert-next s n a b bn ba = ground arith
