-- ===== src/Avl/Tests.antt =====
-- Runs of the tree operations, and the theorems at concrete trees.
use autobahn_app.Prelude.{
  ℕ, ◌+◌, ◌≡◌, refl, Option, some, none, List, [], ◌∷◌, arith, ◌==◌, if◌then◌else◌, ◌>>=◌, sub_ℕ,
  ltb_ℤ,
}
use autobahn_app.Avl.{
  Entry, valid, invalid, Tree, null, node, TreeRoot, init_tree_node, search_tree_node,
  insert_tree_node, insert_fix, update_height, insert_tree_root, logical_delete_tree_node,
  physical_delete_tree_node, find_invalid_tree_node, rebalance_tree_node, get_height,
}
use autobahn_app.Avl.Sorted
use autobahn_app.Avl.Inorder.{inorder}
use autobahn_app.Avl.Flags.{invalidate}
use autobahn_app.Avl.Correct.{
  IsTree, IsRoot, Inserted, insert_tree_root_lem, physical_delete_lem, logical_delete_lem,
}
use autobahn_app.Avl.Rebalance.{Cleared, rebalance_lem}
use autobahn_app.Avl.Duplicates.{insert_thrice, insert_thrice_unbalanced}
use autobahn_app.Avl.Shape.{IsAvl}

abbrev entry : ℕ → Entry
entry k = record { inode = k + 100; lbn = k; flag = valid }

abbrev ten_invalid : Entry
ten_invalid = record { inode = 110; lbn = 10; flag = invalid }

-- 10 (invalid), 20, 30 and 40 below 30
abbrev sample : Tree
sample =
    node (entry 20) (node ten_invalid null null 1)
      (node (entry 30) null (node (entry 40) null null 1) 2) 3

abbrev sample_root : TreeRoot
sample_root = record { root = sample; count_total = 4; count_invalid = 1 }

insert_all : List ℕ → Tree → Option Tree
insert_all [] t = some t
insert_all (k ∷ ks) t = insert_tree_node t (entry k) >>= (λ t'. insert_all ks t')

-- Seven keys in ascending order make a full tree of three levels.
seven_ascending :
    (insert_all (1 ∷ 2 ∷ 3 ∷ 4 ∷ 5 ∷ 6 ∷ 7 ∷ []) null >>= (λ t. some (get_height t))) ≡ some 3
unfolding insert_all insert_tree_node insert_fix update_height sub_ℕ ltb_ℤ
seven_ascending = refl

-- LR and RL: the new key becomes the root.
double_rotations :
    (insert_all (1 ∷ 3 ∷ 2 ∷ []) null ≡ insert_all (2 ∷ 1 ∷ 3 ∷ []) null)
    × (insert_all (3 ∷ 1 ∷ 2 ∷ []) null ≡ insert_all (2 ∷ 1 ∷ 3 ∷ []) null)
unfolding insert_all insert_tree_node insert_fix update_height sub_ℕ ltb_ℤ
double_rotations = (refl, refl)

sample_found : find_invalid_tree_node sample ≡ some (some ten_invalid)
unfolding find_invalid_tree_node
sample_found = refl

sample-IsTree : IsTree sample
sample-IsTree = record { avl = omega arith; sorted = omega arith }

sample_root-IsRoot : IsRoot sample_root
sample_root-IsRoot = record { tree = sample-IsTree; total = refl; invalids = refl }

sample-search_25 : search_tree_node sample 25 ≡ none
unfolding search_tree_node
sample-search_25 = refl

insert_tree_root_lem_example :
    (t' : TreeRoot) × (insert_tree_root sample_root (init_tree_node 7 25) ≡ some t')
    × Inserted sample_root (init_tree_node 7 25) t'
insert_tree_root_lem_example =
    insert_tree_root_lem sample_root 7 25 sample_root-IsRoot sample-search_25

physical_delete_lem_example :
    (t' : Tree) × (physical_delete_tree_node sample 20 ≡ some t')
    × IsTree t'
    × (inorder t' ≡ Sorted.erase 20 (inorder sample))
    × ((j : ℕ) → search_tree_node t' j ≡ (if j == 20 then none else search_tree_node sample j))
physical_delete_lem_example = physical_delete_lem sample 20 sample-IsTree

logical_delete_lem_example :
    IsRoot (logical_delete_tree_node sample_root 40)
    × ((j : ℕ)
        → search_tree_node (logical_delete_tree_node sample_root 40).root j
          ≡ (if j == 40 then invalidate (search_tree_node sample j) else search_tree_node sample j))
logical_delete_lem_example = logical_delete_lem sample_root 40 sample_root-IsRoot

rebalance_lem_example :
    (t' : TreeRoot) × (rebalance_tree_node sample_root ≡ some t') × Cleared sample_root t'
rebalance_lem_example = rebalance_lem sample_root sample_root-IsRoot

insert_thrice_unbalanced_example : (t : Tree) × (insert_thrice 5 0 1 2 ≡ some t) × ¬ (IsAvl t)
insert_thrice_unbalanced_example = insert_thrice_unbalanced 5 0 1 2
