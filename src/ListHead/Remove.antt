-- ===== src/ListHead/Remove.antt =====
-- Removal from a list of include/list.h.
use untitled_bare_metal.Base.{
  ℕ, ◌≡◌, ◌≢◌, refl, sym, ap, ◌∙◌, false, List, [], ◌∷◌, ◌++◌, arith, has, has-append,
}
use untitled_bare_metal.ListHead.{Nodes, remove_from_list, pop_from_list, append_to_list}
use untitled_bare_metal.ListHead.Ring.{
  Links, Uniq, Ring, Links-frame, Links-mid, prev-end, next-start, last_of-ne, first_of-ne,
  remove-next, remove-prev, remove-before, remove-behind, append_to_list-Ring,
}

Uniq-mid :
    (e : ℕ) (us vs : List ℕ)
    → Uniq (us ++ e ∷ vs)
    → (has e us ≡ false) × (has e vs ≡ false) × Uniq (us ++ vs)
Uniq-mid e [] vs (out, u) = (refl, out, u)
Uniq-mid e (x ∷ us) vs (out, u) =
    let (e_us, e_vs, rest) = Uniq-mid e us vs u in
    (
      ground (arith, has-append x us (e ∷ vs)),
      e_vs,
      (ground (arith, has-append x us (e ∷ vs), has-append x us vs), rest),
    )

-- The nodes around a removed one become neighbours.
module _ (h : Nodes) (e q : ℕ) (vs : List ℕ) (back : Links h e vs q) (e_vs : has e vs ≡ false)
    (q_vs : has q vs ≡ false) (u : Uniq vs) (eq : e ≢ q) where
  meet : (p : ℕ) → (h e).prev ≡ p → p ≢ e → has p vs ≡ false → Links (remove_from_list e h) p vs q
  meet p at ne out = close vs back e_vs q_vs u out
    where
      joined :
          (f : ℕ)
          → (h e).next ≡ f
          → f ≢ e
          → ((remove_from_list e h p).next ≡ f) × ((remove_from_list e h f).prev ≡ p)
      joined f nx fe = (
        ap (λ (a : ℕ). (remove_from_list e h a).next) (sym at)
            ∙ remove-before h e (λ x. ne (sym at ∙ x))
            ∙ nx,
        ap (λ (a : ℕ). (remove_from_list e h a).prev) (sym nx)
            ∙ remove-behind h e (λ x. ne (sym at ∙ x)) (λ x. fe (sym nx ∙ x))
            ∙ at,
      )

      close :
          (zs : List ℕ)
          → Links h e zs q
          → has e zs ≡ false
          → has q zs ≡ false
          → Uniq zs
          → has p zs ≡ false
          → Links (remove_from_list e h) p zs q
      close [] (nx, pr) e_zs q_zs w p_zs = joined q nx (λ x. eq (sym x))
      close (z ∷ zs) (nx, pr, rest) e_zs q_zs (z_out, w) p_zs =
          let (a, b) = joined z nx (ground arith) in
          (
            a,
            b,
            Links-frame h (remove_from_list e h) z zs q rest
                (λ a i. remove-next h e a (ground arith) (ground (arith, at)))
                (λ a i.
                  remove-prev h e a (λ x. ne (sym at ∙ x)) (ground arith) (ground (arith, nx))),
          )

  splice :
      (us : List ℕ) (p : ℕ)
      → Links h p us e
      → has e (p ∷ us) ≡ false
      → has p (us ++ vs) ≡ false
      → has q (us ++ vs) ≡ false
      → Uniq (us ++ vs)
      → Links (remove_from_list e h) p (us ++ vs) q
  splice [] p front e_out p_out q_out w = meet p (prev-end h p [] e front) (ground arith) p_out
  splice (x ∷ us) p (nx, pr, front) e_out p_out q_out (x_out, w) = (
    remove-next h e p (ground arith) (λ at.
          last_of-ne p x us (ground (arith, has-append p us vs))
            (sym (at ∙ prev-end h x us e front)))
        ∙ nx,
    remove-prev h e x (λ at. last_of-ne e x us (ground arith) (sym (prev-end h x us e front) ∙ at))
          (ground arith)
          (λ at.
            first_of-ne x vs q (ground (arith, has-append x us vs))
              (sym (at ∙ next-start h e vs q back)))
        ∙ pr,
    splice us x front (ground arith) x_out (ground arith) w,
  )

-- Removing any node of a well-formed list leaves a well-formed list of the other nodes in their
-- order.
pub remove_from_list-Ring :
    (h : Nodes) (e head : ℕ) (us vs : List ℕ)
    → Ring h head (us ++ e ∷ vs)
    → Ring (remove_from_list e h) head (us ++ vs)
remove_from_list-Ring h e head us vs r =
    let (front, back) = Links-mid h head us e vs head r.links in
    let (e_us, e_vs, u) = Uniq-mid e us vs r.uniq in
    record {
      links =
          splice h e head vs back e_vs (ground (arith, apart)) (Uniq-tail us vs u)
            (ground (arith, apart)) us head front (ground (arith, apart))
            (ground (arith, apart, has-append head us vs))
            (ground (arith, apart, has-append head us vs)) u;
      out = ground (arith, apart, has-append head us vs);
      uniq = u;
    }
  where
    apart : (has head us ≡ false) × (e ≢ head) × (has head vs ≡ false)
    apart = ground (arith, r.out, has-append head us (e ∷ vs))

    Uniq-tail : (xs ys : List ℕ) → Uniq (xs ++ ys) → Uniq ys
    Uniq-tail [] ys u = u
    Uniq-tail (x ∷ xs) ys (out, u) = Uniq-tail xs ys u

pub pop_from_list-Ring :
    (h : Nodes) (head x : ℕ) (xs : List ℕ)
    → Ring h head (x ∷ xs)
    → ((pop_from_list head h).0 ≡ x) × Ring (pop_from_list head h).1 head xs
unfolding pop_from_list
pop_from_list-Ring h head x xs r = (is, rw is (remove_from_list-Ring h x head [] xs r))
  where
    is : (h head).next ≡ x
    is = next-start h head (x ∷ xs) head r.links

-- Popping from a well-formed list after append_to_list with a node that is not in it gives that
-- node back and leaves the list that was there: the list is a stack.
pub pop-append :
    (h : Nodes) (n head : ℕ) (xs : List ℕ)
    → Ring h head xs
    → has n (head ∷ xs) ≡ false
    → let (first, h') = pop_from_list head (append_to_list n head h) in
      (first ≡ n) × Ring h' head xs
pop-append h n head xs r new =
    pop_from_list-Ring (append_to_list n head h) head n xs (append_to_list-Ring h n head xs r new)
