-- ===== src/Avl/Correct.antt =====
-- The operations of src/nvm0avltree.cc on a `tree_root`: what each of them promises.
use autobahn_app.Prelude.{
  ℕ, ◌+◌, ◌≡◌, ◌∙◌, refl, sym, ap, inl, inr, tri-cases, ==→eq, ne_ge→lt, ltb→lt, none, some, ◌∷◌,
  arith, ◌==◌, if◌then◌else◌, length,
}
use autobahn_app.Avl.{
  Entry, valid, invalid, Tree, null, node, get_height, TreeRoot, init_tree_node, search_tree_node,
  insert_tree_root, mark_entry, mark_invalid, logical_delete_tree_node, physical_delete_tree_node,
}
use autobahn_app.Avl.Shape.{IsAvl}
use autobahn_app.Avl.Sorted
use autobahn_app.Avl.Sorted.{IsSorted}
use autobahn_app.Avl.Inorder.{inorder}
use autobahn_app.Avl.Insert.{insert-Grows}
use autobahn_app.Avl.Delete.{delete-Shrinks}
use autobahn_app.Avl.Contents.{search-lookup, Absent-lookup, inorder-insert, inorder-delete}
use autobahn_app.Avl.Flags
use autobahn_app.Avl.Flags.{count_invalid, valid_part, mark, invalidate}

-- Balanced, with right heights, and in the order of distinct keys.
pub record IsTree (t : Tree) : Type 0 where
  pub avl : IsAvl t
  pub sorted : IsSorted (inorder t)

-- The counters agree with the tree.
pub record IsRoot (t : TreeRoot) : Type 0 where
  pub tree : IsTree t.root
  pub total : t.count_total ≡ length (inorder t.root)
  pub invalids : t.count_invalid ≡ count_invalid (inorder t.root)

abbrev pub Inserted : TreeRoot → Entry → TreeRoot → Type 0
Inserted t n t' =
    IsRoot t'
    × (inorder t'.root ≡ Sorted.insert n (inorder t.root))
    × ((k : ℕ)
        → search_tree_node t'.root k ≡ (if k == n.lbn then some n else search_tree_node t.root k))

-- On a well-formed root that has no node with the block number, insert_tree_node succeeds for a
-- node made by init_tree_node. The new root is well formed, its entries are the old ones with the
-- new one at its place in the order, and a search finds the new entry at its key and what it found
-- before at every other key.
pub insert_tree_root_lem :
    (t : TreeRoot) (inode lbn : ℕ)
    → IsRoot t
    → search_tree_node t.root lbn ≡ none
    → (t' : TreeRoot) × (insert_tree_root t (init_tree_node inode lbn) ≡ some t')
      × Inserted t (init_tree_node inode lbn) t'
unfolding insert_tree_root init_tree_node
insert_tree_root_lem t inode lbn is new =
    let n : Entry = record { inode = inode; lbn = lbn; flag = valid } in
    let absent = sym (search-lookup t.root lbn is.tree.sorted) ∙ new in
    let (root, done, grown) =
      insert-Grows t.root n is.tree.avl (Absent-lookup t.root lbn is.tree.sorted absent) in
    let same = inorder-insert t.root n root is.tree.sorted done in
    let ordered : IsSorted (inorder root) =
      rw same (Sorted.insert-IsSorted n (inorder t.root) absent is.tree.sorted) in
    (
      record t { root = root; count_total = t.count_total + 1 },
      rw done,
      (
        record {
          tree = record { avl = grown.avl; sorted = ordered };
          total = rw same (omega (arith, Flags.length-insert n (inorder t.root), is.total));
          invalids =
              rw same (omega (arith, Flags.count_invalid-insert n (inorder t.root), is.invalids));
        },
        same,
        λ k.
            search-lookup root k ordered
            ∙ rw (same, search-lookup t.root k is.tree.sorted)
                (Sorted.lookup-insert k n (inorder t.root) absent),
      ),
    )

-- On a balanced, ordered tree physical_delete_tree_node succeeds for every key, present or not. The
-- result is balanced and ordered, its entries are the old ones without the one with the key, and a
-- search finds nothing at the key and what it found before at every other key.
pub physical_delete_lem :
    (t : Tree) (k : ℕ)
    → IsTree t
    → (t' : Tree) × (physical_delete_tree_node t k ≡ some t')
      × IsTree t'
      × (inorder t' ≡ Sorted.erase k (inorder t))
      × ((j : ℕ) → search_tree_node t' j ≡ (if j == k then none else search_tree_node t j))
physical_delete_lem t k is =
    let (t', done, shrunk) = delete-Shrinks t k is.avl in
    let same = inorder-delete t k t' is.sorted done in
    let ordered : IsSorted (inorder t') = rw same (Sorted.erase-IsSorted k (inorder t) is.sorted) in
    (
      t',
      done,
      record { avl = shrunk.avl; sorted = ordered },
      same,
      λ j.
          search-lookup t' j ordered
          ∙ rw (same, search-lookup t j is.sorted) (Sorted.lookup-erase j k (inorder t) is.sorted),
    )

-- The loop of logical_delete_tree_node changes no height and no key.
mark_invalid-IsAvl :
    (t : Tree) (k : ℕ)
    → IsAvl t
    → IsAvl (mark_invalid t k).0 × (get_height (mark_invalid t k).0 ≡ get_height t)
unfolding mark_invalid
mark_invalid-IsAvl null k a = (tt, refl)
mark_invalid-IsAvl (node e l r h) k a = elim (tri-cases k e.lbn) [
  | inl at ↦ rw at (a, refl)
  | inr (inl (p, q)) ↦
      let (avl, same) = mark_invalid-IsAvl l k a.0 in
      rw (p, q, same) ((avl, a.1, a.2, a.3, a.4), refl)
  | inr (inr (p, q)) ↦
      let (avl, same) = mark_invalid-IsAvl r k a.1 in
      rw (p, q, same) ((a.0, avl, a.2, a.3, a.4), refl)
]

mark_entry_lem :
    (e : Entry)
    → ((mark_entry e).0 ≡ record e { flag = invalid }) × (Flags.is_invalid e + (mark_entry e).1 ≡ 1)
unfolding mark_entry
mark_entry_lem e = ground arith

count-mark_invalid :
    (t : Tree) (k : ℕ)
    → count_invalid (inorder (mark_invalid t k).0)
      ≡ count_invalid (inorder t) + (mark_invalid t k).1
unfolding mark_invalid
count-mark_invalid null k = omega arith
count-mark_invalid (node e l r h) k =
    let here = mark_entry_lem e in
    let old = Flags.count_invalid-append (inorder l) (e ∷ inorder r) in
    elim (tri-cases k e.lbn) [
      | inl at ↦
          rw (at, here.0)
            (omega (
              arith,
              old,
              here.1,
              Flags.count_invalid-append (inorder l) (record e { flag = invalid } ∷ inorder r),
            ))
      | inr (inl (p, q)) ↦
          rw (p, q)
            (omega (
              arith,
              old,
              count-mark_invalid l k,
              Flags.count_invalid-append (inorder (mark_invalid l k).0) (e ∷ inorder r),
            ))
      | inr (inr (p, q)) ↦
          rw (p, q)
            (omega (
              arith,
              old,
              count-mark_invalid r k,
              Flags.count_invalid-append (inorder l) (e ∷ inorder (mark_invalid r k).0),
            ))
    ]

inorder-mark_invalid :
    (t : Tree) (k : ℕ) → IsSorted (inorder t) → inorder (mark_invalid t k).0 ≡ mark k (inorder t)
unfolding mark_invalid
inorder-mark_invalid null k s = unfold mark in refl
inorder-mark_invalid (node e l r h) k s =
    let f = Sorted.IsSorted-Split (inorder l) e (inorder r) s in
    elim (tri-cases k e.lbn) [
      | inl at ↦
          rw (at, (mark_entry_lem e).0)
            (sym (Flags.mark-append_at k e (inorder r) (inorder l) (==→eq _ _ at) f.below))
      | inr (inl (p, q)) ↦
          rw (p, q, inorder-mark_invalid l k f.left)
            (sym (Flags.mark-append_below k e (inorder r) (inorder l) (ltb→lt _ _ q) f.above))
      | inr (inr (p, q)) ↦
          rw (p, q, inorder-mark_invalid r k f.right)
            (sym
              (Flags.mark-append_above k e (inorder r) (inorder l) (ne_ge→lt k e.lbn p q) f.below))
    ]

-- logical_delete_tree_node keeps a root well formed, `count_invalid` included. A search then finds
-- the entry of the key as an invalid one, and all else as before.
pub logical_delete_lem :
    (t : TreeRoot) (k : ℕ)
    → IsRoot t
    → IsRoot (logical_delete_tree_node t k)
      × ((j : ℕ)
          → search_tree_node (logical_delete_tree_node t k).root j ≡ (
              if j == k then invalidate (search_tree_node t.root j) else search_tree_node t.root j))
unfolding logical_delete_tree_node
logical_delete_lem t k is =
    let same = inorder-mark_invalid t.root k is.tree.sorted in
    let ordered : IsSorted (inorder (mark_invalid t.root k).0) =
      rw same (Flags.mark-IsSorted k (inorder t.root) is.tree.sorted) in
    (
      record {
        tree = record { avl = (mark_invalid-IsAvl t.root k is.tree.avl).0; sorted = ordered };
        total = is.total ∙ sym (ap length same ∙ Flags.length-mark k (inorder t.root));
        invalids = omega (arith, count-mark_invalid t.root k, is.invalids);
      },
      λ j.
          search-lookup (mark_invalid t.root k).0 j ordered
          ∙ rw (same, search-lookup t.root j is.tree.sorted)
              (Flags.lookup-mark j k (inorder t.root)),
    )
