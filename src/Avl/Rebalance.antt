-- ===== src/Avl/Rebalance.antt =====
-- rebalance_tree_node of src/nvm0avltree.cc removes every invalid node and stops.
use autobahn_app.Prelude.{ℕ, zero, suc, ◌-◌, ◌≡◌, ◌∙◌, refl, sym, ap, some, arith, length}
use autobahn_app.Avl.{TreeRoot, rebalance_loop, rebalance_tree_node}
use autobahn_app.Avl.Inorder.{inorder}
use autobahn_app.Avl.Flags
use autobahn_app.Avl.Flags.{count_invalid, valid_part}
use autobahn_app.Avl.Find.{find-invalid}
use autobahn_app.Avl.Correct.{IsRoot, physical_delete_lem}

-- A root without invalid nodes, with the valid entries of `t`.
abbrev pub Cleared : TreeRoot → TreeRoot → Type 0
Cleared t t' =
    IsRoot t'
    × (t'.count_invalid ≡ 0)
    × (inorder t'.root ≡ valid_part (inorder t.root))
    × (t'.count_total ≡ length (valid_part (inorder t.root)))

loop-Cleared :
    (n : ℕ) (t : TreeRoot)
    → IsRoot t
    → t.count_invalid ≡ n
    → (t' : TreeRoot) × (rebalance_loop n t ≡ some t') × Cleared t t'
unfolding rebalance_loop
loop-Cleared zero t is none_left =
    let same = Flags.valid_part_of_none (inorder t.root) (sym is.invalids ∙ none_left) in
    (t, refl, (is, none_left, sym same, is.total ∙ ap length (sym same)))
loop-Cleared (suc n) t is more =
    let (e, found, bad, there) = find-invalid t.root is.tree.sorted (omega (arith, is.invalids)) in
    let (root, gone, tree, same, searched) = physical_delete_lem t.root e.lbn is.tree in
    let t1 : TreeRoot = record t {
      root = root;
      count_total = t.count_total - 1;
      count_invalid = n;
    } in
    let is1 : IsRoot t1 = record {
      tree = tree;
      total = rw same (omega (arith, is.total, Flags.length-erase e bad (inorder t.root) there));
      invalids =
          rw same
            (omega (arith, is.invalids, Flags.count_invalid-erase e bad (inorder t.root) there));
    } in
    let (t', done, (is', zero_left, left, total)) = loop-Cleared n t1 is1 refl in
    let kept = ap valid_part same ∙ Flags.valid_part-erase e bad (inorder t.root) there in
    (t', rw (found, gone) done, (is', zero_left, left ∙ kept, total ∙ ap length kept))

-- On a well-formed root rebalance_tree_node ends and follows no null pointer: it never asks
-- find_invalid_tree_node for a node that is not there. Afterwards the root is well formed, its
-- entries are exactly the valid ones from before, in order, `count_invalid` is 0 and `count_total`
-- is their number.
pub rebalance_lem :
    (t : TreeRoot) → IsRoot t → (t' : TreeRoot) × (rebalance_tree_node t ≡ some t') × Cleared t t'
unfolding rebalance_tree_node
rebalance_lem t is = loop-Cleared t.count_invalid t is refl
