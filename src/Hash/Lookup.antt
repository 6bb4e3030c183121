-- ===== src/Hash/Lookup.antt =====
-- The hash table of src/nvm0hash.cc as a map from block numbers to inodes: what a search for a valid
-- node finds, and how the operations change it.
use autobahn_app.Prelude.{
  some-inj, none-some, ℕ, ◌+◌, ◌<◌, ◌≡◌, ◌≢◌, ◌⊎◌, ◌∙◌, refl, sym, ap, subst, inl, inr, true, false,
  Option, none, some, if◌then◌else◌, ◌==◌, Bool-cases, ==_refl, ==→eq, ne_of_test, arith,
}
use autobahn_app.LfQueue.{update}
use autobahn_app.HashList.{
  HashNode, HashNodeList, set_prev, set_next, push_after, push_back_list_node, validate_hash_node,
}
use autobahn_app.HashList as List
use autobahn_app.Pool.Blocks.{update_self, update_ne}
use autobahn_app.Hash.{CuckooMap, HashTable, new_hash_table, new_hash_node, insert_hash_node}

-- The inode of a node, when it is a valid one.
abbrev pub inode_of : (ℕ → HashNode) → Option ℕ → Option ℕ
inode_of nodes none = none
inode_of nodes (some n) = if (nodes n).is_valid then (nodes n).inode else none

module _ (cuckoo : CuckooMap) where
  open cuckoo use {Map, find, find-empty, find-assign, find-assign_ne, find-erase, find-erase_ne}

  abbrev pub look : HashTable cuckoo → ℕ → Option ℕ
  look table lbn = inode_of table.list.nodes (find table.map lbn)

  -- Nobody holds a mutex, a node in the map has been made and is labelled with its key, and a valid
  -- one has an inode.
  pub record IsTable (table : HashTable cuckoo) : Type 0 where
    pub unlocked : (n : ℕ) → (table.list.nodes n).mutex ≡ false
    pub made : (lbn n : ℕ) → find table.map lbn ≡ some n → n < table.fresh
    pub labelled : (lbn n : ℕ) → find table.map lbn ≡ some n → (table.list.nodes n).lbn ≡ lbn
    pub has_inode :
        (lbn n : ℕ)
        → find table.map lbn ≡ some n
        → (table.list.nodes n).is_valid ≡ true
        → (i : ℕ) × ((table.list.nodes n).inode ≡ some i)

  pub new_hash_table-IsTable :
      (nodes : ℕ → HashNode)
      → ((n : ℕ) → (nodes n).mutex ≡ false)
      → IsTable (new_hash_table cuckoo nodes)
        × ((lbn : ℕ) → look (new_hash_table cuckoo nodes) lbn ≡ none)
  unfolding new_hash_table List.new_list
  new_hash_table-IsTable nodes free = (
    record {
      unlocked = free;
      made = λ lbn n h. absurd (none-some (sym (find-empty lbn) ∙ h));
      labelled = λ lbn n h. absurd (none-some (sym (find-empty lbn) ∙ h));
      has_inode = λ lbn n h v. absurd (none-some (sym (find-empty lbn) ∙ h));
    },
    λ lbn. ap (inode_of nodes) (find-empty lbn),
  )

  -- The nodes of the map keep what counts, but for one node; so do the searches, but for its key.
  inode_of-same :
      (nodes next : ℕ → HashNode) (o : Option ℕ)
      → ((n : ℕ)
          → o ≡ some n
          → ((next n).is_valid ≡ (nodes n).is_valid) × ((next n).inode ≡ (nodes n).inode))
      → inode_of next o ≡ inode_of nodes o
  inode_of-same nodes next none h = refl
  inode_of-same nodes next (some n) h = rw ((h n refl).0, (h n refl).1) refl

  -- The table `next` finds `o` at the block number, and elsewhere what `table` does.
  pub record Sets (table : HashTable cuckoo) (lbn : ℕ) (o : Option ℕ) (next : HashTable cuckoo)
      : Type 0 where
    pub is_table : IsTable next
    pub at_key : look next lbn ≡ o
    pub elsewhere : (m : ℕ) → m ≢ lbn → look next m ≡ look table m

  -- A node is made for a block that is not in the map.
  module _ (table : HashTable cuckoo) (t : IsTable table) (lbn inode : ℕ)
      (absent : find table.map lbn ≡ none) where
    abbrev made_node : HashNode
    made_node = record {
      inode = some inode;
      lbn = lbn;
      is_valid = true;
      mutex = false;
      prev = none;
      next = none;
    }

    abbrev pub with_node : HashTable cuckoo
    with_node = record table {
      map = cuckoo.assign table.map lbn table.fresh;
      list = record (table.list) { nodes = update table.list.nodes table.fresh made_node };
      fresh = table.fresh + 1;
    }

    pub insert_hash_node-with_node :
        (lbn_of : ℕ → ℕ)
        → lbn_of inode ≡ lbn
        → insert_hash_node cuckoo lbn_of
            (new_hash_node cuckoo table inode lbn).1
            (new_hash_node cuckoo table inode lbn).0
          ≡ some with_node
    unfolding insert_hash_node new_hash_node
    insert_hash_node-with_node lbn_of e = rw (==_refl table.fresh) (rw (e) refl)

    find_cases :
        (m n : ℕ)
        → find with_node.map m ≡ some n
        → ((m ≡ lbn) × (table.fresh ≡ n)) ⊎ ((find table.map m ≡ some n) × (n < table.fresh))
    find_cases m n h = elim (Bool-cases (lbn == m)) [
      | inl e ↦
          let q = ==→eq lbn m e in
          inl (
            sym q,
            some-inj (sym (find-assign table.map lbn table.fresh) ∙ ap (find with_node.map) q ∙ h),
          )
      | inr e ↦
          let old = sym (find-assign_ne table.map lbn table.fresh m (ne_of_test lbn m e)) ∙ h in
          inr (old, t.made m n old)
    ]

    old_node : (n : ℕ) → n < table.fresh → with_node.list.nodes n ≡ table.list.nodes n
    old_node n h = update_ne table.list.nodes table.fresh made_node n (λ e. absurd (omega arith))

    own_node : with_node.list.nodes table.fresh ≡ made_node
    own_node = update_self table.list.nodes table.fresh made_node

    with_node-IsTable : IsTable with_node
    with_node-IsTable = record {
      unlocked = λ n. elim (Bool-cases (table.fresh == n)) [
        | inl e ↦ rw (e) refl
        | inr e ↦ rw (e) (t.unlocked n)
      ];
      made = λ m n h. elim (find_cases m n h) [
        | inl q ↦ omega (arith, q.1)
        | inr q ↦ omega (arith, q.1)
      ];
      labelled = λ m n h. elim (find_cases m n h) [
        | inl q ↦
            subst (λ x. (with_node.list.nodes x).lbn ≡ m) q.1 (ap (λ x. x.lbn) own_node ∙ sym q.0)
        | inr q ↦ ap (λ x. x.lbn) (old_node n q.1) ∙ t.labelled m n q.0
      ];
      has_inode = λ m n h v. elim (find_cases m n h) [
        | inl q ↦ (
          inode,
          subst (λ x. (with_node.list.nodes x).inode ≡ some inode) q.1 (ap (λ x. x.inode) own_node),
        )
        | inr q ↦
            let (i, e) = t.has_inode m n q.0 (ap (λ x. x.is_valid) (sym (old_node n q.1)) ∙ v) in
            (i, ap (λ x. x.inode) (old_node n q.1) ∙ e)
      ];
    }

    pub with_node-Sets : Sets table lbn (some inode) with_node
    with_node-Sets = record {
      is_table = with_node-IsTable;
      at_key =
          ap (inode_of with_node.list.nodes) (find-assign table.map lbn table.fresh)
          ∙ rw (==_refl table.fresh) refl;
      elsewhere = λ m ne.
          ap (inode_of with_node.list.nodes)
            (find-assign_ne table.map lbn table.fresh m (λ e. ne (sym e)))
          ∙ inode_of-same table.list.nodes with_node.list.nodes (find table.map m) (λ n h. (
            ap (λ x. x.is_valid) (old_node n (t.made m n h)),
            ap (λ x. x.inode) (old_node n (t.made m n h)),
          ));
    }

    -- A new node goes into a table that does not have its block: a search for the block then finds
    -- its inode, every other search finds what it found, and the table keeps its invariant.
    pub insert_hash_node-Sets :
        (lbn_of : ℕ → ℕ)
        → lbn_of inode ≡ lbn
        → (next : HashTable cuckoo) × (insert_hash_node cuckoo lbn_of
              (new_hash_node cuckoo table inode lbn).1
              (new_hash_node cuckoo table inode lbn).0
            ≡ some next)
          × Sets table lbn (some inode) next
    insert_hash_node-Sets lbn_of e =
        (with_node, insert_hash_node-with_node lbn_of e, with_node-Sets)

    pub own_inode : (with_node.list.nodes table.fresh).inode ≡ some inode
    own_inode = ap (λ x. x.inode) own_node

  -- The node of a block changes, and the other nodes keep what counts.
  module _ (table next : HashTable cuckoo) (t : IsTable table) (lbn node : ℕ)
      (found : find table.map lbn ≡ some node) (same_map : next.map ≡ table.map)
      (same_fresh : next.fresh ≡ table.fresh)
      (locks : (n : ℕ) → (next.list.nodes n).mutex ≡ (table.list.nodes n).mutex)
      (lbns : (n : ℕ) → (next.list.nodes n).lbn ≡ (table.list.nodes n).lbn)
      (others : (n : ℕ)
        → node ≢ n
        → ((next.list.nodes n).is_valid ≡ (table.list.nodes n).is_valid)
          × ((next.list.nodes n).inode ≡ (table.list.nodes n).inode))
      (own : (next.list.nodes node).is_valid ≡ true
        → (i : ℕ) × ((next.list.nodes node).inode ≡ some i)) where
    changed-IsTable : IsTable next
    changed-IsTable = record {
      unlocked = λ n. locks n ∙ t.unlocked n;
      made = λ m n h.
          subst (λ x. n < x) (sym same_fresh) (t.made m n (ap (λ x. find x m) (sym same_map) ∙ h));
      labelled = λ m n h. lbns n ∙ t.labelled m n (ap (λ x. find x m) (sym same_map) ∙ h);
      has_inode = λ m n h v. elim (Bool-cases (node == n)) [
        | inl e ↦
            subst (λ x. (i : ℕ) × ((next.list.nodes x).inode ≡ some i)) (==→eq node n e)
              (own (ap (λ x. (next.list.nodes x).is_valid) (==→eq node n e) ∙ v))
        | inr e ↦
            let keep = others n (ne_of_test node n e) in
            let (i, q) = t.has_inode m n (ap (λ x. find x m) (sym same_map) ∙ h) (sym keep.0 ∙ v) in
            (i, keep.1 ∙ q)
      ];
    }

    pub changed-Sets : Sets table lbn (inode_of next.list.nodes (some node)) next
    changed-Sets = record {
      is_table = changed-IsTable;
      at_key = ap (inode_of next.list.nodes) (ap (λ x. find x lbn) same_map ∙ found);
      elsewhere = λ m ne.
          ap (inode_of next.list.nodes) (ap (λ x. find x m) same_map)
          ∙ inode_of-same table.list.nodes next.list.nodes (find table.map m) (λ n h. others n (λ e.
            ne (
              sym (t.labelled m n h)
              ∙ ap (λ x. (table.list.nodes x).lbn) (sym e)
              ∙ t.labelled lbn node found)));
    }
