-- ===== src/Buffer/Held.antt =====
-- get_hash_node_with_lock of src/nvm0write.cc: when the block is in the buffer, or enough inodes are
-- free, the loop ends with a node whose inode is claimed for the block.
use autobahn_app.Prelude.{
  eq-or-ne, none-some, ℕ, ◌+◌, ◌%◌, ◌^◌, ◌≤◌, ◌<◌, ◌≡◌, ◌≢◌, ◌⊎◌, ◌∙◌, refl, sym, ap, subst, inl,
  inr, true, false, Option, some, none, List, ◌∷◌, ◌>>=◌, Bool-cases, Option-cases, ==_refl,
  test_of_ne, length, leb→le, arith,
}
use autobahn_app.LfQueue.{update}
use autobahn_app.Hash.{CuckooMap, HashTable, search_hash_node, validate, new_hash_node}
use autobahn_app.Hash.Lookup.{
  inode_of, look, IsTable, Sets, with_node, insert_hash_node-with_node, with_node-Sets, own_inode,
}
use autobahn_app.Hash.Change.{validate-Sets, validate-inode}
use autobahn_app.Pool.{Pool, num_free, block_data}
use autobahn_app.Pool.Blocks.{update_self, update_ne, update_field}
use autobahn_app.Buffer.{
  Buffer, free_min_count, free_enough, is_valid_node, place_node, hold_found, hold_node,
}
use autobahn_app.Buffer.Wf.{Finder, Wf, Claim, data_of}
use autobahn_app.Buffer.Keeps.{Wf-Claim}
use autobahn_app.Cycle.Flow.{IsFlow}
use autobahn_app.Buffer.Taken.{Adds, take_free_inode-after, after, after-Claim, after-IsFlow}

module _ (cuckoo : CuckooMap) where
  -- The inode that holds a block of a volume.
  abbrev pub finder : Buffer cuckoo → Finder
  finder b v lbn = look cuckoo (b.tables v) lbn

  -- The invariant of the buffer between the operations.
  pub record IsBuffer (b : Buffer cuckoo) : Type 0 where
    pub tables : (v : ℕ) → IsTable cuckoo (b.tables v)
    pub linked : (v lbn i : ℕ) → finder b v lbn ≡ some i → b.linked v ≡ true
    pub wf : Wf b.pool (finder b)

  -- What a call needs to get the inode idx for the block without waiting.
  abbrev pub Available : Buffer cuckoo → (v lbn idx : ℕ) → Type 0
  Available b v lbn idx =
      (finder b v lbn ≡ some idx)
      ⊎ ((finder b v lbn ≡ none)
          × (free_enough b.pool ≡ true)
          × ((rest : List ℕ) × (b.pool.free_queue (b.pool.free_dequeue_idx % num_free)
                ≡ idx ∷ rest)))

  -- The tables change at one block at most.
  abbrev pub SameElsewhere : (v lbn : ℕ) → Buffer cuckoo → Buffer cuckoo → Type 0
  SameElsewhere v lbn b next = (w m : ℕ) → ((w ≡ v) → m ≢ lbn) → finder next w m ≡ finder b w m

  pub record Held (b : Buffer cuckoo) (v lbn idx node : ℕ) (next : Buffer cuckoo) : Type 0 where
    pub holds : hold_node cuckoo v lbn b ≡ some (node, next)
    pub inode : ((next.tables v).list.nodes node).inode ≡ some idx
    pub claim : Claim next.pool (finder next) v lbn idx
    pub tables : (w : ℕ) → IsTable cuckoo (next.tables w)
    pub elsewhere : SameElsewhere v lbn b next
    pub bytes : (i j : ℕ) → data_of next.pool i j ≡ data_of b.pool i j
    pub dirty : next.pool.dirty_queue ≡ b.pool.dirty_queue
    pub linked : next.linked ≡ b.linked
    pub flow : IsFlow b.pool → IsFlow next.pool
    pub sizes :
        (next.pool.max_inode_entry ≡ b.pool.max_inode_entry)
        × (next.pool.max_volume_entry ≡ b.pool.max_volume_entry)
        × (next.pool.block_size ≡ b.pool.block_size)
    pub locks : (i : ℕ) → (next.pool.inode_table i).locked ≡ (b.pool.inode_table i).locked
    pub count_left :
        b.pool.inode_free_count < 2 ^ 32
        → (next.pool.inode_free_count < 2 ^ 32)
          × (b.pool.inode_free_count ≤ next.pool.inode_free_count + 1)
    pub queues_left : (k : ℕ) → length (b.pool.free_queue k) ≤ length (next.pool.free_queue k) + 1

  -- What a search finds, by the node in the map.
  pub look_cases :
      (table : HashTable cuckoo) (lbn : ℕ)
      → IsTable cuckoo table
      → ((cuckoo.find table.map lbn ≡ none) × (look cuckoo table lbn ≡ none))
        ⊎ ((n : ℕ) × (cuckoo.find table.map lbn ≡ some n)
            × ((((table.list.nodes n).is_valid ≡ false) × (look cuckoo table lbn ≡ none))
                ⊎ (((table.list.nodes n).is_valid ≡ true)
                    × ((i : ℕ) × ((table.list.nodes n).inode ≡ some i)
                        × (look cuckoo table lbn ≡ some i)))))
  look_cases table lbn t = elim (Option-cases (cuckoo.find table.map lbn)) [
    | inl e ↦ inl (e, ap (inode_of table.list.nodes) e)
    | inr (n, e) ↦ inr (
      n,
      e,
      elim (Bool-cases (table.list.nodes n).is_valid) [
        | inl valid ↦
            let (i, q) = t.has_inode lbn n e valid in
            inr (valid, (i, q, ap (inode_of table.list.nodes) e ∙ rw (valid) q))
        | inr invalid ↦ inl (invalid, ap (inode_of table.list.nodes) e ∙ rw (invalid) refl)
      ],
    )
  ]

  module _ (b : Buffer cuckoo) (is : IsBuffer b) (v lbn idx : ℕ) where
    abbrev table : HashTable cuckoo
    table = b.tables v

    -- Without a valid node a free inode is asked for.
    pub not_valid :
        (o : Option ℕ)
        → is_valid_node cuckoo table o ≡ false
        → hold_found cuckoo v lbn o (is_valid_node cuckoo table o) b
          ≡ hold_found cuckoo v lbn o false b
    not_valid o e = ap (λ q. hold_found cuckoo v lbn o q b) e

    -- The block is in the buffer.
    Held-old :
        (node : ℕ)
        → cuckoo.find table.map lbn ≡ some node
        → (table.list.nodes node).is_valid ≡ true
        → (table.list.nodes node).inode ≡ some idx
        → finder b v lbn ≡ some idx
        → Held b v lbn idx node b
    unfolding hold_node search_hash_node
    Held-old node e valid q h = record {
      holds =
          ap (λ o. hold_found cuckoo v lbn o (is_valid_node cuckoo table o) b) e
          ∙ rw (valid) (rw ((is.tables v).unlocked node) refl);
      inode = q;
      claim = Wf-Claim b.pool (finder b) v lbn idx is.wf h;
      tables = is.tables;
      elsewhere = λ w m ne. refl;
      bytes = λ i j. refl;
      dirty = refl;
      linked = refl;
      flow = λ f. f;
      sizes = (refl, refl, refl);
      locks = λ i. refl;
      count_left = λ h. (h, omega arith);
      queues_left = λ k. omega arith;
    }

    -- A free inode is taken, and the table `new` finds it.
    module _ (rest : List ℕ) (v_in : v < b.pool.max_volume_entry) (absent : finder b v lbn ≡ none)
        (enough : free_enough b.pool ≡ true)
        (first : b.pool.free_queue (b.pool.free_dequeue_idx % num_free) ≡ idx ∷ rest)
        (new : HashTable cuckoo) (sets : Sets cuckoo table lbn (some idx) new) where
      abbrev tables : ℕ → HashTable cuckoo
      tables = update b.tables v new

      abbrev found : Finder
      found w m = look cuckoo (tables w) m

      found_same : (w m : ℕ) → ((w ≡ v) → m ≢ lbn) → found w m ≡ finder b w m
      found_same w m ne = elim (eq-or-ne v w) [
        | inl e ↦
            ap (λ x. look cuckoo (tables x) m) (sym e)
            ∙ ap (λ t. look cuckoo t m) (update_self b.tables v new)
            ∙ sets.elsewhere m (ne (sym e))
            ∙ ap (λ x. finder b x m) e
        | inr nv ↦ ap (λ t. look cuckoo t m) (update_ne b.tables v new w nv)
      ]

      adds : Adds (finder b) found v lbn idx
      adds = record {
        absent = absent;
        here = ap (λ t. look cuckoo t lbn) (update_self b.tables v new) ∙ sets.at_key;
        same = found_same;
      }

      tables_ok : (w : ℕ) → IsTable cuckoo (tables w)
      tables_ok w = elim (eq-or-ne v w) [
        | inl e ↦
            subst (λ x. IsTable cuckoo (tables x)) e
              (subst (IsTable cuckoo) (sym (update_self b.tables v new)) sets.is_table)
        | inr ne ↦ subst (IsTable cuckoo) (sym (update_ne b.tables v new w ne)) (is.tables w)
      ]

      abbrev pool : Pool
      pool = after b.pool (finder b) found v lbn idx rest is.wf adds v_in first

      abbrev next : Buffer cuckoo
      next = record b { pool = pool; tables = tables }

      enough_pos : 0 < b.pool.inode_free_count
      enough_pos = omega (arith, leb→le free_min_count b.pool.inode_free_count enough)

      popped_length : (k : ℕ) → length (b.pool.free_queue k) ≤ length (pool.free_queue k) + 1
      popped_length k =
          let ticket = b.pool.free_dequeue_idx % num_free in
          elim (eq-or-ne ticket k) [
            | inl e ↦
                subst (λ x. length (b.pool.free_queue x) ≤ length (pool.free_queue x) + 1) e
                  (rw (==_refl ticket) (omega (arith, ap length first)))
            | inr ne ↦ rw (test_of_ne ticket k ne) (omega arith)
          ]

      Held-new :
          (node : ℕ)
          → place_node cuckoo v lbn idx (cuckoo.find table.map lbn) (record b { pool = pool })
            ≡ some (node, next)
          → is_valid_node cuckoo table (cuckoo.find table.map lbn) ≡ false
          → (new.list.nodes node).inode ≡ some idx
          → Held b v lbn idx node next
      unfolding hold_node search_hash_node block_data
      Held-new node placed invalid q = record {
        holds =
            not_valid (cuckoo.find table.map lbn) invalid
            ∙ rw (enough) (
                ap
                  (λ t. t >>= λ r.
                    place_node cuckoo v lbn r.0 (cuckoo.find table.map lbn)
                      (record b { pool = r.1 }))
                  (take_free_inode-after b.pool (finder b) found v lbn idx rest is.wf adds v_in
                    first)
                ∙ placed);
        inode = ap (λ t. (t.list.nodes node).inode) (update_self b.tables v new) ∙ q;
        claim = after-Claim b.pool (finder b) found v lbn idx rest is.wf adds v_in first;
        tables = tables_ok;
        elsewhere = found_same;
        bytes = λ i j.
            ap (λ c. block_data b.pool c j)
              (update_field (λ x. x.block_index) b.pool.inode_table idx _ refl i);
        dirty = refl;
        linked = refl;
        flow = after-IsFlow b.pool (finder b) found v lbn idx rest is.wf adds v_in first;
        sizes = (refl, refl, refl);
        locks = λ i. update_field (λ x. x.locked) b.pool.inode_table idx _ refl i;
        count_left = λ h. (omega arith, omega (arith, enough_pos));
        queues_left = λ k. popped_length k;
      }

      -- The place of the inode in the table: the node of the block is made, or validated again.
      placed_new :
          (e : cuckoo.find table.map lbn ≡ none)
          → new ≡ with_node cuckoo table (is.tables v) lbn idx e
          → place_node cuckoo v lbn idx none (record b { pool = pool }) ≡ some (table.fresh, next)
      unfolding new_hash_node
      placed_new e same =
          ap
            (λ o.
              o >>= λ t. some (table.fresh, record b { pool = pool; tables = update b.tables v t }))
            (insert_hash_node-with_node cuckoo table (is.tables v) lbn idx e
              (λ i. (pool.inode_table i).lbn) (rw (==_refl idx) refl))
          ∙ ap (λ t. some (table.fresh, record b { pool = pool; tables = update b.tables v t }))
              (sym same)

      placed_again :
          (node : ℕ)
          → new ≡ validate cuckoo table node idx lbn
          → place_node cuckoo v lbn idx (some node) (record b { pool = pool }) ≡ some (node, next)
      placed_again node same =
          rw ((is.tables v).unlocked node) (
            ap (λ t. some (node, record b { pool = pool; tables = update b.tables v t }))
              (sym same))

    -- When the block is found, or enough inodes are free and the queue asked next has one, the call
    -- returns a node of the block with the inode: the inode is found for the block, the tables change
    -- nowhere else, and the bytes of all inodes stay.
    pub hold_node_lem :
        v < b.pool.max_volume_entry
        → Available b v lbn idx
        → (node : ℕ) × (next : Buffer cuckoo) × Held b v lbn idx node next
    hold_node_lem v_in (inl h) = elim (look_cases table lbn (is.tables v)) [
      | inl c ↦ absurd (none-some (sym c.1 ∙ h))
      | inr (n, e, inl c) ↦ absurd (none-some (sym c.1 ∙ h))
      | inr (n, e, inr (valid, (i, q, l))) ↦ (n, b, Held-old n e valid (q ∙ sym l ∙ h) h)
    ]
    hold_node_lem v_in (inr (absent, enough, (rest, first))) =
        elim (look_cases table lbn (is.tables v)) [
          | inl (e, l) ↦
              let t = is.tables v in
              let new = with_node cuckoo table t lbn idx e in
              let sets = with_node-Sets cuckoo table t lbn idx e in
              (
                table.fresh,
                next rest v_in absent enough first new sets,
                Held-new rest v_in absent enough first new sets table.fresh
                    (ap
                        (λ o.
                          place_node cuckoo v lbn idx o
                            (record b { pool = pool rest v_in absent enough first new sets }))
                        e
                      ∙ placed_new rest v_in absent enough first new sets e refl)
                    (ap (is_valid_node cuckoo table) e) (own_inode cuckoo table t lbn idx e),
              )
          | inr (n, e, inl (invalid, l)) ↦
              let t = is.tables v in
              let new = validate cuckoo table n idx lbn in
              let sets = validate-Sets cuckoo table t lbn n e idx in
              (
                n,
                next rest v_in absent enough first new sets,
                Held-new rest v_in absent enough first new sets n
                    (ap
                        (λ o.
                          place_node cuckoo v lbn idx o
                            (record b { pool = pool rest v_in absent enough first new sets }))
                        e
                      ∙ placed_again rest v_in absent enough first new sets n refl)
                    (ap (is_valid_node cuckoo table) e ∙ invalid)
                    (validate-inode cuckoo table t lbn n e idx),
              )
          | inr (n, e, inr (valid, (i, q, l))) ↦ absurd (none-some (sym absent ∙ l))
        ]
