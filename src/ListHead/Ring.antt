-- ===== src/ListHead/Ring.antt =====
-- A list of include/list.h as a sequence of nodes behind its head, and what the operations do to it.
use untitled_bare_metal.Base.{
  ℕ, ◌≡◌, ◌≢◌, refl, ◌∙◌, true, false, List, [], ◌∷◌, ◌++◌, arith, has, has-append,
}
use untitled_bare_metal.ListHead.{
  Nodes, append_to_list, prepend_to_list, insert_list_internal, remove_from_list, init_list,
}

-- From the node `p` over `xs` to `q`, forwards and backwards.
abbrev pub Links : Nodes → ℕ → List ℕ → ℕ → Type 0
Links h p [] q = ((h p).next ≡ q) × ((h q).prev ≡ p)
Links h p (x ∷ xs) q = ((h p).next ≡ x) × ((h x).prev ≡ p) × Links h x xs q

abbrev pub Uniq : List ℕ → Type 0
Uniq [] = Unit {0}
Uniq (x ∷ xs) = (has x xs ≡ false) × Uniq xs

-- The list of `head` is `xs`, in this order, each node once.
pub record Ring (h : Nodes) (head : ℕ) (xs : List ℕ) : Type 0 where
  pub links : Links h head xs head
  pub out : has head xs ≡ false
  pub uniq : Uniq xs

-- The links rest on `next` of the nodes up to the last, and on `prev` of those behind the first.
pub Links-frame :
    (h h' : Nodes) (p : ℕ) (xs : List ℕ) (q : ℕ)
    → Links h p xs q
    → ((a : ℕ) → has a (p ∷ xs) ≡ true → (h' a).next ≡ (h a).next)
    → ((a : ℕ) → has a (q ∷ xs) ≡ true → (h' a).prev ≡ (h a).prev)
    → Links h' p xs q
Links-frame h h' p [] q (nx, pr) f g = (f p (ground arith) ∙ nx, g q (ground arith) ∙ pr)
Links-frame h h' p (x ∷ xs) q (nx, pr, rest) f g = (
  f p (ground arith) ∙ nx,
  g x (ground arith) ∙ pr,
  Links-frame h h' x xs q rest (λ a i. f a (ground arith)) (λ a i. g a (ground arith)),
)

-- Right behind the head.
append-Links :
    (h : Nodes) (n head : ℕ) (xs : List ℕ)
    → Links h head xs head
    → has head xs ≡ false
    → Uniq xs
    → has n (head ∷ xs) ≡ false
    → Links (append_to_list n head h) head (n ∷ xs) head
unfolding append_to_list insert_list_internal
append-Links h n head [] (nx, pr) out u new = ground arith
append-Links h n head (x ∷ xs) (nx, pr, rest) out (x_out, u) new = (
  ground arith,
  ground arith,
  (
    ground arith,
    ground arith,
    Links-frame h (append_to_list n head h) x xs head rest (λ a i. same_next a i)
        (λ a i. same_prev a i),
  ),
)
  where
    same_next : (a : ℕ) → has a (x ∷ xs) ≡ true → (append_to_list n head h a).next ≡ (h a).next
    same_next a i = ground arith

    same_prev : (a : ℕ) → has a (head ∷ xs) ≡ true → (append_to_list n head h a).prev ≡ (h a).prev
    same_prev a i = ground arith

pub append_to_list-Ring :
    (h : Nodes) (n head : ℕ) (xs : List ℕ)
    → Ring h head xs
    → has n (head ∷ xs) ≡ false
    → Ring (append_to_list n head h) head (n ∷ xs)
append_to_list-Ring h n head xs r new = record {
  links = append-Links h n head xs r.links r.out r.uniq new;
  out = ground (arith, r.out);
  uniq = (ground arith, r.uniq);
}

-- The node in front of `q`, and the one behind `p`.
abbrev pub last_of : ℕ → List ℕ → ℕ
last_of p [] = p
last_of p (x ∷ xs) = last_of x xs

abbrev pub first_of : List ℕ → ℕ → ℕ
first_of [] q = q
first_of (x ∷ xs) q = x

pub prev-end :
    (h : Nodes) (p : ℕ) (xs : List ℕ) (q : ℕ) → Links h p xs q → (h q).prev ≡ last_of p xs
prev-end h p [] q (nx, pr) = pr
prev-end h p (x ∷ xs) q (nx, pr, rest) = prev-end h x xs q rest

pub next-start :
    (h : Nodes) (p : ℕ) (xs : List ℕ) (q : ℕ) → Links h p xs q → (h p).next ≡ first_of xs q
next-start h p [] q (nx, pr) = nx
next-start h p (x ∷ xs) q (nx, pr, rest) = nx

-- Both neighbours of a node in the middle, and the two parts.
pub Links-mid :
    (h : Nodes) (p : ℕ) (us : List ℕ) (e : ℕ) (vs : List ℕ) (q : ℕ)
    → Links h p (us ++ e ∷ vs) q
    → Links h p us e × Links h e vs q
Links-mid h p [] e vs q (nx, pr, rest) = ((nx, pr), rest)
Links-mid h p (u ∷ us) e vs q (nx, pr, rest) =
    let (front, back) = Links-mid h u us e vs q rest in ((nx, pr, front), back)

pub last_of-ne : (a p : ℕ) (xs : List ℕ) → has a (p ∷ xs) ≡ false → last_of p xs ≢ a
last_of-ne a p [] out = ground arith
last_of-ne a p (x ∷ xs) out = last_of-ne a x xs (ground arith)

pub first_of-ne : (a : ℕ) (xs : List ℕ) (q : ℕ) → has a (q ∷ xs) ≡ false → first_of xs q ≢ a
first_of-ne a [] q out = ground arith
first_of-ne a (x ∷ xs) q out = ground arith

-- In front of `q`, behind the last of `xs`.
insert_last-Links :
    (h : Nodes) (n p : ℕ) (xs : List ℕ) (q : ℕ)
    → Links h p xs q
    → has p xs ≡ false
    → has q xs ≡ false
    → Uniq xs
    → has n (p ∷ q ∷ xs) ≡ false
    → Links (insert_list_internal n (last_of p xs) q h) p (xs ++ n ∷ []) q
unfolding insert_list_internal
insert_last-Links h n p [] q (nx, pr) p_out q_out u new = ground arith
insert_last-Links h n p (x ∷ xs) q (nx, pr, rest) p_out q_out (x_out, u) new = (
  ground (arith, last_of-ne p x xs p_out),
  ground arith,
  insert_last-Links h n x xs q rest x_out (ground arith) u (ground arith),
)

-- prepend_to_list with a node that is not in a well-formed list leaves a well-formed list with that
-- node last.
pub prepend_to_list-Ring :
    (h : Nodes) (n head : ℕ) (xs : List ℕ)
    → Ring h head xs
    → has n (head ∷ xs) ≡ false
    → Ring (prepend_to_list n head h) head (xs ++ n ∷ [])
unfolding prepend_to_list
prepend_to_list-Ring h n head xs r new = record {
  links =
      rw (prev-end h head xs head r.links)
        (insert_last-Links h n head xs head r.links r.out r.out r.uniq (ground arith));
  out = rw (has-append head xs (n ∷ [])) (ground (arith, r.out));
  uniq = Uniq-snoc xs n r.uniq (ground arith);
}
  where
    Uniq-snoc : (zs : List ℕ) (m : ℕ) → Uniq zs → has m zs ≡ false → Uniq (zs ++ m ∷ [])
    Uniq-snoc [] m u o = (refl, tt)
    Uniq-snoc (z ∷ zs) m (z_out, u) o =
        (rw (has-append z zs (m ∷ [])) (ground arith), Uniq-snoc zs m u (ground arith))

-- What a removal changes.
module _ (h : Nodes) (e : ℕ) where
  pub remove-next : (a : ℕ) → a ≢ e → a ≢ (h e).prev → (remove_from_list e h a).next ≡ (h a).next
  unfolding remove_from_list init_list
  remove-next a ne np = ground arith

  pub remove-prev :
      (a : ℕ) → (h e).prev ≢ e → a ≢ e → a ≢ (h e).next → (remove_from_list e h a).prev ≡ (h a).prev
  unfolding remove_from_list init_list
  remove-prev a self ne nx = ground arith

  pub remove-before : (h e).prev ≢ e → (remove_from_list e h (h e).prev).next ≡ (h e).next
  unfolding remove_from_list init_list
  remove-before self = ground arith

  pub remove-behind :
      (h e).prev ≢ e → (h e).next ≢ e → (remove_from_list e h (h e).next).prev ≡ (h e).prev
  unfolding remove_from_list init_list
  remove-behind self self' = ground arith
