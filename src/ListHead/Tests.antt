-- ===== src/ListHead/Tests.antt =====
-- Runs of include/list.h.
use untitled_bare_metal.Base.{◌≡◌, refl, [], ◌∷◌, update}
use untitled_bare_metal.ListHead.{Nodes, append_to_list, remove_from_list, pop_from_list}
use untitled_bare_metal.ListHead.Ring.{Ring}
use untitled_bare_metal.ListHead.Remove.{remove_from_list-Ring, pop-append}

-- The list 8, with the nodes 16 and 24.
abbrev two : Nodes
two =
    update
      (update (update (λ a. record { next = a; prev = a }) 8 (record { next = 16; prev = 24 })) 16
        (record { next = 24; prev = 8 }))
      24 (record { next = 8; prev = 16 })

two-Ring : Ring two 8 (16 ∷ 24 ∷ [])
two-Ring = record {
  links = (refl, refl, (refl, refl, (refl, refl)));
  out = refl;
  uniq = (refl, (refl, tt));
}

remove_from_list-Ring_example : Ring (remove_from_list 16 two) 8 (24 ∷ [])
remove_from_list-Ring_example = remove_from_list-Ring two 16 8 [] (24 ∷ []) two-Ring

pop-append_example :
    let (first, h') = pop_from_list 8 (append_to_list 32 8 two) in
    (first ≡ 32) × Ring h' 8 (16 ∷ 24 ∷ [])
pop-append_example = pop-append two 32 8 (16 ∷ 24 ∷ []) two-Ring refl
