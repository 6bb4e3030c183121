-- ===== src/HashList/Tests.antt =====
-- The theorems on the list of hash nodes, applied to lists of one and of two nodes.
use autobahn_app.Prelude.{ℕ, ◌≡◌, refl, true, false, none, some, [], ◌∷◌, arith}
use autobahn_app.HashList.{
  HashNode, HashNodeList, new_list, push_back_list_node, pop_front_list_node, remove_list_node,
}
use autobahn_app.HashList.Chain.{Holds, push_back_lem, pop_front_lem}
use autobahn_app.HashList.Removal.{remove_list_node_lem}

abbrev nodes : ℕ → HashNode
nodes i = record {
  inode = some i;
  lbn = i;
  is_valid = true;
  mutex = false;
  prev = none;
  next = none;
}

abbrev one_node : HashNodeList
one_node = push_back_list_node (new_list nodes) 4

new_list-Holds : Holds (new_list nodes) []
unfolding new_list
new_list-Holds = record { linked = tt; starts = refl; ends = refl; apart = tt; counted = refl }

one_node-Holds : Holds one_node (4 ∷ [])
one_node-Holds = push_back_lem (new_list nodes) [] 4 new_list-Holds tt

push_back_lem_example : Holds (push_back_list_node one_node 9) (4 ∷ 9 ∷ [])
push_back_lem_example =
    push_back_lem one_node (4 ∷ []) 9 one_node-Holds (λ e. absurd (omega arith), tt)

pop_front_lem_example :
    ((pop_front_list_node one_node).0 ≡ some 4) × Holds (pop_front_list_node one_node).1 []
pop_front_lem_example = pop_front_lem one_node (4 ∷ []) one_node-Holds

remove_list_node_lem_example :
    (left : HashNodeList) × (remove_list_node (push_back_list_node one_node 9) 4 ≡ some left)
    × Holds left (9 ∷ [])
remove_list_node_lem_example =
    remove_list_node_lem (push_back_list_node one_node 9) [] 4 (9 ∷ [])
      (push_back_lem one_node (4 ∷ []) 9 one_node-Holds (λ e. absurd (omega arith), tt))
