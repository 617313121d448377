-- ===== src/ListHead/Apart.antt =====
-- Two lists of include/list.h that share no node.
use untitled_bare_metal.Base.{ℕ, ◌≡◌, ◌≢◌, ap, ◌∙◌, true, false, List, [], ◌∷◌, arith, has}
use untitled_bare_metal.ListHead.{
  Nodes, append_to_list, insert_list_internal, remove_from_list, init_list, pop_from_list,
}
use untitled_bare_metal.ListHead.Ring.{Ring, Links-frame, first_of, last_of, next-start}

abbrev pub Apart : (xs ys : List ℕ) → Type 0
Apart xs ys = (a : ℕ) → has a xs ≡ true → has a ys ≡ false

Ring-frame :
    (h h' : Nodes) (head : ℕ) (xs : List ℕ)
    → Ring h head xs
    → ((a : ℕ) → has a (head ∷ xs) ≡ true → h' a ≡ h a)
    → Ring h' head xs
Ring-frame h h' head xs r same = record {
  links =
      Links-frame h h' head xs head r.links (λ a i. ap (λ n. n.next) (same a i))
        (λ a i. ap (λ n. n.prev) (same a i));
  out = r.out;
  uniq = r.uniq;
}

append_elsewhere :
    (h : Nodes) (n head a : ℕ)
    → a ≢ n
    → a ≢ head
    → a ≢ (h head).next
    → append_to_list n head h a ≡ h a
unfolding append_to_list insert_list_internal
append_elsewhere h n head a ne he nx = ground arith

remove_elsewhere :
    (h : Nodes) (e a : ℕ)
    → (h e).prev ≢ e
    → a ≢ e
    → a ≢ (h e).prev
    → a ≢ (h e).next
    → remove_from_list e h a ≡ h a
unfolding remove_from_list init_list
remove_elsewhere h e a self ne pr nx = ground arith

first-has : (a : ℕ) (xs : List ℕ) (q : ℕ) → has a (q ∷ xs) ≡ false → a ≢ first_of xs q
first-has a [] q out = ground arith
first-has a (x ∷ xs) q out = ground arith

last-has : (a p : ℕ) (xs : List ℕ) → has a (p ∷ xs) ≡ false → a ≢ last_of p xs
last-has a p [] out = ground arith
last-has a p (x ∷ xs) out = last-has a x xs (ground arith)

-- An insertion into one list leaves the other.
pub append-Apart :
    (h : Nodes) (n head head' : ℕ) (xs ys : List ℕ)
    → Ring h head xs
    → Ring h head' ys
    → Apart (head ∷ xs) (n ∷ head' ∷ ys)
    → Ring (append_to_list n head' h) head xs
append-Apart h n head head' xs ys r s apart =
    Ring-frame h (append_to_list n head' h) head xs r (λ a i. same a i)
  where
    same : (a : ℕ) → has a (head ∷ xs) ≡ true → append_to_list n head' h a ≡ h a
    same a i =
        append_elsewhere h n head' a (ground (arith, apart a i)) (ground (arith, apart a i)) (λ e.
          first-has a ys head' (ground (arith, apart a i))
            (e ∙ next-start h head' ys head' s.links))

-- And so does the removal of its first node.
pub pop-Apart :
    (h : Nodes) (x head head' : ℕ) (xs ys : List ℕ)
    → Ring h head xs
    → Ring h head' (x ∷ ys)
    → Apart (head ∷ xs) (head' ∷ x ∷ ys)
    → Ring (pop_from_list head' h).1 head xs
unfolding pop_from_list
pop-Apart h x head head' xs ys r s apart =
    rw first (Ring-frame h (remove_from_list x h) head xs r (λ a i. same a i))
  where
    first : (h head').next ≡ x
    first = next-start h head' (x ∷ ys) head' s.links

    before : (h x).prev ≡ head'
    before = s.links.1

    behind : (h x).next ≡ first_of ys head'
    behind = next-start h x ys head' s.links.2

    same : (a : ℕ) → has a (head ∷ xs) ≡ true → remove_from_list x h a ≡ h a
    same a i =
        remove_elsewhere h x a (ground (arith, before, s.out)) (ground (arith, apart a i))
          (λ e. absurd (ground (arith, apart a i, before)))
          (λ e. first-has a ys head' (ground (arith, apart a i)) (e ∙ behind))
