-- ===== src/Links/Examples.antt =====
-- The theorems on list.h at a small list: head 1, then the nodes 7 and 8.
use libtbm.Base.{refl, ◌∷◌, []}
use libtbm.Links.{Links, list_inithead, list_add, list_addtail, list_del, list_replace}
use libtbm.Links.Ring.{Ring}
use libtbm.Links.Steps.{Built, fresh, added, added_last, removed, replaced, Built-Ring}

memory : Links
memory = record { next = λ a. a; prev = λ a. a }

two_nodes : Links
two_nodes = list_addtail 8 1 (list_add 7 1 (list_inithead 1 memory))

two_nodes-Built : Built 1 two_nodes (7 ∷ 8 ∷ [])
unfolding two_nodes
two_nodes-Built =
    added_last (list_add 7 1 (list_inithead 1 memory)) (7 ∷ []) 8 refl
      (added (list_inithead 1 memory) [] 7 refl (fresh memory))

Built-Ring_example : Ring (list_del 8 (list_replace 7 9 two_nodes)) 1 (9 ∷ [])
Built-Ring_example = Built-Ring 1 (list_del 8 (list_replace 7 9 two_nodes)) (9 ∷ []) (
    removed (list_replace 7 9 two_nodes) (9 ∷ []) 8 []
      (replaced two_nodes [] 7 (8 ∷ []) 9 refl two_nodes-Built))
