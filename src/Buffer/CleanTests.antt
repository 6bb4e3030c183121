-- ===== src/Buffer/CleanTests.antt =====
-- The theorems on the hash table and on the balloon, applied to a buffer of four inodes, in which the
-- inode 1 is clean and holds the block 7 of the volume 0.
use autobahn_app.Prelude.{
  true, ◌+◌, eq-or-ne, some-inj, none-some, ℕ, ◌≡◌, ◌≢◌, ◌∙◌, refl, sym, ap, ap₂, subst, inl, inr,
  false, some, none, [], ◌∷◌, ◌==◌, if◌then◌else◌, arith, test_of_ne,
}
use autobahn_app.Hash.{
  insert_hash_node, new_hash_node, HashTable, new_hash_table, logical_delete, validate,
}
use autobahn_app.Hash.Lookup.{
  insert_hash_node-Sets, look, IsTable, Sets, with_node, with_node-Sets, new_hash_table-IsTable,
}
use autobahn_app.Hash.Change.{validate-Sets, logical_delete-Sets}
use autobahn_app.Pool.{Pool, Inode, InodeState, state_free, state_dirty, state_clean}
use autobahn_app.Buffer.{Buffer, fill_free_inodes}
use autobahn_app.Buffer.Wf.{Labelled}
use autobahn_app.Buffer.Held.{finder, IsBuffer, Held, hold_node_lem}
use autobahn_app.Buffer.Balloon.{Emptied, fill_free_inodes_lem}
use autobahn_app.Buffer.Samples.{table_map, blank, system}

abbrev no_table : HashTable table_map
no_table = new_hash_table table_map blank

no_table-IsTable : IsTable table_map no_table × ((lbn : ℕ) → look table_map no_table lbn ≡ none)
no_table-IsTable = new_hash_table-IsTable table_map blank (λ n. refl)

not_there : table_map.find no_table.map 7 ≡ none
unfolding new_hash_table
not_there = refl

abbrev table : HashTable table_map
table = with_node table_map no_table no_table-IsTable.0 7 1 not_there

table-Sets : Sets table_map no_table 7 (some 1) table
table-Sets = with_node-Sets table_map no_table no_table-IsTable.0 7 1 not_there

abbrev inode : (state : InodeState) → (i : ℕ) → Inode
inode state i = record { lbn = 7; state = state; volume = 0; block_index = i; locked = false }

abbrev pool : Pool
pool = record (system 4) {
  inode_table = λ i. if i == 1 then inode state_clean i else inode state_free i;
  free_queue = λ k. if k == 0 then 0 ∷ 2 ∷ [] else [];
  clean_queue = λ k. 1 ∷ 3 ∷ 1 ∷ [];
}

abbrev buffer : Buffer table_map
buffer = record {
  pool = pool;
  tables = λ v. if v == 0 then table else no_table;
  linked = λ v. true;
  free_enqueue_idx = 0;
}

block_of : (i : ℕ) → (pool.inode_table i).block_index ≡ i
block_of i = elim (eq-or-ne i 1) [ inl e ↦ rw (e) refl | inr ne ↦ rw (test_of_ne i 1 ne) refl ]

other_table : (v : ℕ) → v ≢ 0 → buffer.tables v ≡ no_table
other_table v ne = rw (test_of_ne v 0 ne) refl

own_table-IsTable : (v : ℕ) → IsTable table_map (buffer.tables v)
own_table-IsTable v = elim (eq-or-ne v 0) [
  | inl e ↦ subst (λ x. IsTable table_map (buffer.tables x)) (sym e) table-Sets.is_table
  | inr ne ↦ subst (IsTable table_map) (sym (other_table v ne)) no_table-IsTable.0
]

found : (v lbn i : ℕ) → finder table_map buffer v lbn ≡ some i → (v ≡ 0) × (lbn ≡ 7) × (1 ≡ i)
found v lbn i h = elim (eq-or-ne v 0) [
  | inr nv ↦ absurd (
      none-some (
        sym (no_table-IsTable.1 lbn) ∙ ap (λ t. look table_map t lbn) (sym (other_table v nv)) ∙ h))
  | inl v0 ↦ elim (eq-or-ne lbn 7) [
    | inr nl ↦ absurd (
        none-some (
          sym (table-Sets.elsewhere lbn nl ∙ no_table-IsTable.1 lbn)
          ∙ ap (λ x. finder table_map buffer x lbn) (sym v0)
          ∙ h))
    | inl l7 ↦ (
      v0,
      l7,
      some-inj (sym table-Sets.at_key ∙ ap₂ (finder table_map buffer) (sym v0) (sym l7) ∙ h),
    )
  ]
]

labelled : Labelled pool 0 7 1
labelled = record {
  in_table = omega arith;
  volume_in = omega arith;
  same_lbn = refl;
  same_volume = refl;
}

clean-ne-free : state_clean ≢ state_free
clean-ne-free e = cc

clean-ne-dirty : state_clean ≢ state_dirty
clean-ne-dirty e = cc

free-ne-dirty : state_free ≢ state_dirty
free-ne-dirty e = cc

other_inode : (i : ℕ) → i ≢ 1 → pool.inode_table i ≡ inode state_free i
other_inode i ne = rw (test_of_ne i 1 ne) refl

buffer-IsBuffer : IsBuffer table_map buffer
buffer-IsBuffer = record {
  tables = own_table-IsTable;
  linked = λ v lbn i h. refl;
  wf = record {
    dealt = record {
      inodes_apart = λ i j hi hj ne e. ne (sym (block_of i) ∙ e ∙ block_of j);
      volumes_apart = λ v w hv hw ne e. ne (omega (arith, e));
      spare_apart = λ i v hi hv e. omega (arith, sym (block_of i) ∙ e);
    };
    labels = λ v lbn i h.
        let (v0, l7, i1) = found v lbn i h in
        (
          subst (Labelled pool v lbn) i1 (
              subst (λ x. Labelled pool x lbn 1) (sym v0)
                (subst (λ x. Labelled pool 0 x 1) (sym l7) labelled)),
          λ f. clean-ne-free (ap (λ x. (pool.inode_table x).state) i1 ∙ f),
        );
    found = λ i hi used. elim (eq-or-ne i 1) [
      | inl e ↦
          subst
            (λ x.
              finder table_map buffer (pool.inode_table x).volume (pool.inode_table x).lbn ≡ some x)
            (sym e) table-Sets.at_key
      | inr ne ↦ absurd (used (ap (λ x. x.state) (other_inode i ne)))
    ];
    free = record {
      all = λ k. elim (eq-or-ne k 0) [
        | inl e ↦ rw (e) ((omega arith, refl), ((omega arith, refl), tt))
        | inr ne ↦ rw (test_of_ne k 0 ne) tt
      ];
      once = λ k. elim (eq-or-ne k 0) [
        | inl e ↦ rw (e) ((λ q. absurd (omega (arith, q)), tt), (tt, tt))
        | inr ne ↦ rw (test_of_ne k 0 ne) tt
      ];
      one_queue = λ k l ne. elim (eq-or-ne k 0) [
        | inl e ↦ rw (e, test_of_ne l 0 (λ q. ne (e ∙ sym q))) (tt, (tt, tt))
        | inr nk ↦ rw (test_of_ne k 0 nk) tt
      ];
    };
    queued = λ i hi d. elim (eq-or-ne i 1) [
      | inl e ↦ absurd (clean-ne-dirty (ap (λ x. (pool.inode_table x).state) (sym e) ∙ d))
      | inr ne ↦ absurd (free-ne-dirty (ap (λ x. x.state) (sym (other_inode i ne)) ∙ d))
    ];
  };
}

fill_free_inodes_lem_example :
    (after : Buffer table_map) × (fill_free_inodes table_map 0 buffer ≡ some after)
    × Emptied table_map buffer 0 after
fill_free_inodes_lem_example =
    fill_free_inodes_lem table_map 0 buffer buffer-IsBuffer
      (omega arith, (omega arith, (omega arith, tt)))

hold_node_lem_example :
    (node : ℕ) × (next : Buffer table_map) × Held table_map buffer 0 7 1 node next
hold_node_lem_example =
    hold_node_lem table_map buffer buffer-IsBuffer 0 7 1 (omega arith) (inl table-Sets.at_key)

at_node : table_map.find table.map 7 ≡ some 0
unfolding new_hash_table
at_node = refl

logical_delete-Sets_example : Sets table_map table 7 none (logical_delete table_map table 0)
logical_delete-Sets_example = logical_delete-Sets table_map table table-Sets.is_table 7 0 at_node

validate-Sets_example : Sets table_map table 7 (some 2) (validate table_map table 0 2 7)
validate-Sets_example = validate-Sets table_map table table-Sets.is_table 7 0 at_node 2

insert_hash_node-Sets_example :
    (next : HashTable table_map) × (insert_hash_node table_map
        (λ i. i + 6)
        (new_hash_node table_map no_table 1 7).1
        (new_hash_node table_map no_table 1 7).0
      ≡ some next)
    × Sets table_map no_table 7 (some 1) next
insert_hash_node-Sets_example =
    insert_hash_node-Sets table_map no_table no_table-IsTable.0 7 1 not_there (λ i. i + 6) refl
