-- ===== src/Avl.antt =====
-- src/nvm0avltree.cc and include/nvm0avltree.h: the AVL tree of inodes by logical block number.
-- A `tree_node*` is a `Tree`. A pointer that the code follows without a test of its own may be
-- null: then the result is `none`. `int height` is a natural number, a difference of two is signed.
pub mod Shape
pub mod Insert
pub mod Delete
pub mod Sorted
pub mod Inorder
pub mod Contents
pub mod Flags
pub mod Find
pub mod Correct
pub mod Rebalance
pub mod Duplicates
mod Tests
use autobahn_app.Prelude.{
  ℕ, zero, suc, ◌+◌, ◌-◌, ◌&&◌, Option, none, some, List, [], ◌∷◌, ltb, ◌==◌, if◌then◌else◌, ◌>>=◌,
  ℤ, pos, negsuc, sub_ℕ, ltb_ℤ, leb_ℤ,
}

-- TREE_VALID and TREE_INVALID
pub data Validity : Type 0 where
  valid invalid : Validity

-- What a tree_node carries beside its links: the inode it points at, the key and the flag.
pub record Entry : Type 0 where
  pub inode : ℕ
  pub lbn : ℕ
  pub flag : Validity

-- tree_node: entry, left, right, height
pub data Tree : Type 0 where
  null : Tree
  node : Entry → Tree → Tree → ℕ → Tree

pub record TreeRoot : Type 0 where
  pub root : Tree
  pub count_total : ℕ
  pub count_invalid : ℕ

unfoldable pub max_height : ℕ → ℕ → ℕ
max_height a b = if ltb b a then a else b

abbrev pub get_height : Tree → ℕ
get_height null = 0
get_height (node e l r h) = h

unfoldable pub get_balance : Tree → ℤ
get_balance null = pos 0
get_balance (node e l r h) = sub_ℕ (get_height l) (get_height r)

-- A node whose height has just been brought up to date.
unfoldable pub update_height : Entry → Tree → Tree → Tree
unfolding max_height
update_height e l r = node e l r (max_height (get_height l) (get_height r) + 1)

unfoldable pub right_rotate : Tree → Option Tree
right_rotate (node y (node x l t2 hx) r hy) = some (update_height x l (update_height y t2 r))
right_rotate _ = none

unfoldable pub left_rotate : Tree → Option Tree
left_rotate (node x l (node y t2 r hy) hx) = some (update_height y (update_height x l t2) r)
left_rotate _ = none

-- init_tree_node, for the inode with this index and block number
unfoldable pub init_tree_node : ℕ → ℕ → Entry
init_tree_node inode lbn = record { inode = inode; lbn = lbn; flag = valid }

unfoldable pub search_tree_node : Tree → ℕ → Option Entry
search_tree_node null k = none
search_tree_node (node e l r h) k =
    let left = search_tree_node l k in
    let right = search_tree_node r k in
    if k == e.lbn then some e else if ltb k e.lbn then left else right

-- The tests LL and LR of an insertion of key `k`: `root->left` is followed.
unfoldable pub insert_left_heavy : ℕ → Entry → Tree → Tree → ℕ → Option Tree
unfolding right_rotate left_rotate
insert_left_heavy k e null r h = none
insert_left_heavy k e (node x ll lr hx) r h =
    if ltb k x.lbn
    then right_rotate (node e (node x ll lr hx) r h)
    else if ltb x.lbn k
    then left_rotate (node x ll lr hx) >>= (λ l. right_rotate (node e l r h))
    else some (node e (node x ll lr hx) r h)

-- The tests RR and RL.
unfoldable pub insert_right_heavy : ℕ → Entry → Tree → Tree → ℕ → Option Tree
unfolding right_rotate left_rotate
insert_right_heavy k e l null h = none
insert_right_heavy k e l (node x rl rr hx) h =
    if ltb x.lbn k
    then left_rotate (node e l (node x rl rr hx) h)
    else if ltb k x.lbn
    then right_rotate (node x rl rr hx) >>= (λ r. left_rotate (node e l r h))
    else some (node e l (node x rl rr hx) h)

-- The end of the recursive insert_tree_node: new height, then rebalancing.
unfoldable pub insert_fix : ℕ → Entry → Tree → Tree → Option Tree
unfolding get_balance max_height insert_left_heavy insert_right_heavy
insert_fix k e l r =
    let h = max_height (get_height l) (get_height r) + 1 in
    let balance = get_balance (node e l r h) in
    if ltb_ℤ (pos 1) balance
    then insert_left_heavy k e l r h
    else if ltb_ℤ balance (negsuc 0)
    then insert_right_heavy k e l r h
    else some (node e l r h)

-- insert_tree_node on a root pointer; the new node comes from `init_tree_node`, so it is a leaf.
unfoldable pub insert_tree_node : Tree → Entry → Option Tree
insert_tree_node null n = some (node n null null 1)
insert_tree_node (node e l r h) n =
    let left = insert_tree_node l n >>= (λ l'. insert_fix n.lbn e l' r) in
    let right = insert_tree_node r n >>= (λ r'. insert_fix n.lbn e l r') in
    if ltb n.lbn e.lbn then left else right

-- insert_tree_node on a `tree_root*`
unfoldable pub insert_tree_root : TreeRoot → Entry → Option TreeRoot
insert_tree_root t n =
    insert_tree_node t.root n
    >>= (λ root. some (record t { root = root; count_total = t.count_total + 1 }))

-- What logical_delete_tree_node does to the node that it finds.
unfoldable pub mark_entry : Entry → Entry × ℕ
mark_entry e = elim e.flag [ valid ↦ (record e { flag = invalid }, 1) | invalid ↦ (e, 0) ]

-- The loop of logical_delete_tree_node: the tree, and what `count_invalid` grows by.
unfoldable pub mark_invalid : Tree → ℕ → Tree × ℕ
unfolding mark_entry
mark_invalid null k = (null, 0)
mark_invalid (node e l r h) k =
    let left : Tree × ℕ = (node e (mark_invalid l k).0 r h, (mark_invalid l k).1) in
    let right : Tree × ℕ = (node e l (mark_invalid r k).0 h, (mark_invalid r k).1) in
    if k == e.lbn
    then (node (mark_entry e).0 l r h, (mark_entry e).1)
    else if ltb k e.lbn
    then left
    else right

unfoldable pub logical_delete_tree_node : TreeRoot → ℕ → TreeRoot
unfolding mark_invalid
logical_delete_tree_node t k =
    let (root, n) = mark_invalid t.root k in
    record t { root = root; count_invalid = t.count_invalid + n }

-- `none`: `node->left` of a null pointer.
unfoldable pub min_value_node : Tree → Option Entry
min_value_node null = none
min_value_node (node e null r h) = some e
min_value_node (node e (node x ll lr hx) r h) = min_value_node (node x ll lr hx)

-- The tests LL and LR of a deletion look at the balance of the child.
unfoldable pub delete_fix : Entry → Tree → Tree → Option Tree
unfolding get_balance max_height right_rotate left_rotate
delete_fix e l r =
    let h = max_height (get_height l) (get_height r) + 1 in
    let balance = get_balance (node e l r h) in
    if ltb_ℤ (pos 1) balance && leb_ℤ (pos 0) (get_balance l)
    then right_rotate (node e l r h)
    else if ltb_ℤ (pos 1) balance && ltb_ℤ (get_balance l) (pos 0)
    then left_rotate l >>= (λ l'. right_rotate (node e l' r h))
    else if ltb_ℤ balance (negsuc 0) && leb_ℤ (get_balance r) (pos 0)
    then left_rotate (node e l r h)
    else if ltb_ℤ balance (negsuc 0) && ltb_ℤ (pos 0) (get_balance r)
    then right_rotate r >>= (λ r'. left_rotate (node e l r' h))
    else some (node e l r h)

-- After `*root = *temp` the node is its only child, whose height and balance are looked at again.
unfoldable pub delete_refix : Tree → Option Tree
unfolding delete_fix
delete_refix null = some null
delete_refix (node e l r h) = delete_fix e l r

-- The node is found: no child, one child, or the deletion of the successor, `both`.
unfoldable pub delete_here : Tree → Tree → Option Tree → Option Tree
unfolding delete_refix
delete_here null r both = delete_refix r
delete_here (node x ll lr hx) null both = delete_refix (node x ll lr hx)
delete_here (node x ll lr hx) (node y rl rr hy) both = both

-- The node to delete is named by its key.
unfoldable pub physical_delete_tree_node : Tree → ℕ → Option Tree
unfolding delete_here
physical_delete_tree_node null k = some null
physical_delete_tree_node (node e l r h) k =
    let left = physical_delete_tree_node l k >>= (λ l'. delete_fix e l' r) in
    let right = physical_delete_tree_node r k >>= (λ r'. delete_fix e l r') in
    let both =
      min_value_node r >>= (λ m. physical_delete_tree_node r m.lbn >>= (λ r'. delete_fix m l r')) in
    if ltb k e.lbn then left else if ltb e.lbn k then right else delete_here l r both

-- find_invalid_tree_node: the stack holds the right siblings still to visit, none of them null.
-- Each round takes the top node, and pushes its right and then its left child.
unfoldable pub push_child : Tree → List Tree → List Tree
push_child null s = s
push_child (node e l r h) s = node e l r h ∷ s

unfoldable pub find_invalid_loop : ℕ → List Tree → Option (Option Entry)
unfolding push_child
find_invalid_loop zero s = none
find_invalid_loop (suc f) [] = some none
find_invalid_loop (suc f) (null ∷ s) = some none
find_invalid_loop (suc f) (node e l r h ∷ s) =
    let rest = find_invalid_loop f (push_child l (push_child r s)) in
    elim e.flag [ invalid ↦ some (some e) | valid ↦ rest ]

unfoldable pub tree_size : Tree → ℕ
tree_size null = 0
tree_size (node e l r h) = tree_size l + tree_size r + 1

-- The outer `none` is lack of fuel: one round for each node, and one for the empty stack, do.
unfoldable pub find_invalid_tree_node : Tree → Option (Option Entry)
unfolding find_invalid_loop tree_size
find_invalid_tree_node t = find_invalid_loop (tree_size t + 1) (t ∷ [])

-- rebalance_tree_node: `count_invalid` is the number of rounds left. A null pointer that
-- find_invalid_tree_node returns is followed.
unfoldable pub rebalance_loop : ℕ → TreeRoot → Option TreeRoot
rebalance_loop zero t = some t
rebalance_loop (suc n) t = find_invalid_tree_node t.root >>= (λ found. found >>= (λ e.
    physical_delete_tree_node t.root e.lbn >>= (λ root.
      rebalance_loop n
        (record t { root = root; count_total = t.count_total - 1; count_invalid = n }))))

unfoldable pub rebalance_tree_node : TreeRoot → Option TreeRoot
unfolding rebalance_loop
rebalance_tree_node t = rebalance_loop t.count_invalid t
