-- ===== src/ListHead.antt =====
-- include/list.h: circular, doubly linked lists of nodes that stand inside other objects. A node is
-- known by its address.
pub mod Ring
pub mod Remove
pub mod Apart
mod Tests
use untitled_bare_metal.Base.{ℕ, Bool, ◌==◌, update}

pub record ListHead : Type 0 where
  pub next : ℕ
  pub prev : ℕ

abbrev pub Nodes : Type 0
Nodes = ℕ → ListHead

abbrev pub link_next : ℕ → ℕ → Nodes → Nodes
link_next p q h = update h p (record (h p) { next = q })

abbrev pub link_prev : ℕ → ℕ → Nodes → Nodes
link_prev p q h = update h p (record (h p) { prev = q })

unfoldable pub init_list : ℕ → Nodes → Nodes
init_list head h = link_prev head head (link_next head head h)

unfoldable pub insert_list_internal : (new prev next : ℕ) → Nodes → Nodes
insert_list_internal new prev next h =
    link_prev next new (link_next prev new (link_prev new prev (link_next new next h)))

unfoldable pub append_to_list : (new prev : ℕ) → Nodes → Nodes
append_to_list new prev h = insert_list_internal new prev (h prev).next h

unfoldable pub prepend_to_list : (new next : ℕ) → Nodes → Nodes
prepend_to_list new next h = insert_list_internal new (h next).prev next h

unfoldable pub remove_from_list : ℕ → Nodes → Nodes
remove_from_list entry h =
    let h1 = link_next (h entry).prev (h entry).next h in
    init_list entry (link_prev (h1 entry).next (h1 entry).prev h1)

-- The node that was first, and the list without it.
unfoldable pub pop_from_list : ℕ → Nodes → ℕ × Nodes
pop_from_list head h = let next = (h head).next in (next, remove_from_list next h)

unfoldable pub is_list_empty : ℕ → Nodes → Bool
is_list_empty head h = (h head).next == head

abbrev pub first_item : ℕ → Nodes → ℕ
first_item head h = (h head).next
