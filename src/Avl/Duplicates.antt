-- ===== src/Avl/Duplicates.antt =====
-- Equal keys in src/nvm0avltree.cc: the tests of the rebalancing are both strict.
use autobahn_app.Prelude.{ℕ, ◌≡◌, Option, some, arith, ◌>>=◌, sub_ℕ, ltb_ℤ, le→ltb}
use autobahn_app.Avl.{Tree, null, node, init_tree_node, insert_fix, insert_tree_node}
use autobahn_app.Avl.Shape.{IsAvl}

-- Three insertions of one block number into an empty tree.
abbrev pub insert_thrice : ℕ → ℕ → ℕ → ℕ → Option Tree
insert_thrice lbn a b c = insert_tree_node null (init_tree_node a lbn) >>= (λ t.
    insert_tree_node t (init_tree_node b lbn) >>= (λ u. insert_tree_node u (init_tree_node c lbn)))

-- Three nodes with one block number, whatever the number and the inodes, are left as a chain to the
-- right, which is no balanced tree: neither RR nor RL rotates for an equal key.
pub insert_thrice_unbalanced :
    (lbn a b c : ℕ) → (t : Tree) × (insert_thrice lbn a b c ≡ some t) × ¬ (IsAvl t)
unfolding insert_tree_node insert_fix init_tree_node sub_ℕ ltb_ℤ
insert_thrice_unbalanced lbn a b c =
    let na = init_tree_node a lbn in
    let nb = init_tree_node b lbn in
    let nc = init_tree_node c lbn in
    (
      node na null (node nb null (node nc null null 1) 2) 3,
      simp (le→ltb lbn lbn (omega arith)),
      λ bad. omega (arith, bad),
    )
