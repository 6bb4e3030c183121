-- ===== src/Buffer/Freed.antt =====
-- One round of fill_free_inodes (src/nvm0balloon.cc), for a clean inode: it leaves the hash table, and
-- waits in a queue of free inodes.
use mathlib.Core.List.{Mem}
use autobahn_app.Prelude.{
  eq-or-ne, some-inj, none-some, All-imp, ℕ, ◌+◌, ◌%◌, ◌<◌, ◌≡◌, ◌≢◌, ◌∙◌, refl, sym, ap, ap₂,
  subst, inl, inr, some, none, length, lt→ltb,
}
use autobahn_app.LfQueue.{u32, u64, update}
use autobahn_app.Hash.{CuckooMap, HashTable, search_hash_node, logical_delete}
use autobahn_app.Hash.Lookup.{look, IsTable, Sets}
use autobahn_app.Hash.Change.{logical_delete-Sets}
use autobahn_app.Pool.{Pool, Inode, state_free, state_dirty, state_clean, num_free, block_data}
use autobahn_app.Pool.Blocks.{update_self, update_ne, update_field}
use autobahn_app.Buffer.{Buffer, free_clean}
use autobahn_app.Buffer.Wf.{In, Labelled, Wf, data_of}
use autobahn_app.HashList.Chain.{Absent}
use autobahn_app.Cycle.Queues.{Queues, Queues-imp, joined, joined-Queues}
use autobahn_app.Buffer.Held.{finder, IsBuffer, look_cases}

clean-ne-free : state_clean ≢ state_free
clean-ne-free e = cc

free-ne-dirty : state_free ≢ state_dirty
free-ne-dirty e = cc

module _ (cuckoo : CuckooMap) where
  -- What the round leaves.
  pub record Freed (b : Buffer cuckoo) (idx : ℕ) (next : Buffer cuckoo) : Type 0 where
    pub frees : free_clean cuckoo idx b ≡ some next
    pub is : IsBuffer cuckoo next
    pub free : (next.pool.inode_table idx).state ≡ state_free
    pub others : (i : ℕ) → idx ≢ i → next.pool.inode_table i ≡ b.pool.inode_table i
    pub gone :
        finder cuckoo next (b.pool.inode_table idx).volume (b.pool.inode_table idx).lbn ≡ none
    pub kept :
        (w m : ℕ) → finder cuckoo b w m ≢ some idx → finder cuckoo next w m ≡ finder cuckoo b w m
    pub clean_queues : next.pool.clean_queue ≡ b.pool.clean_queue
    pub dirty_queues : next.pool.dirty_queue ≡ b.pool.dirty_queue
    pub sync_queues : next.pool.sync_queue ≡ b.pool.sync_queue
    pub max : next.pool.max_inode_entry ≡ b.pool.max_inode_entry
    pub size : next.pool.block_size ≡ b.pool.block_size
    pub bytes : (i j : ℕ) → data_of next.pool i j ≡ data_of b.pool i j

  module _ (b : Buffer cuckoo) (is : IsBuffer cuckoo b) (idx : ℕ)
      (idx_in : idx < b.pool.max_inode_entry)
      (clean : (b.pool.inode_table idx).state ≡ state_clean) where
    abbrev v : ℕ
    v = (b.pool.inode_table idx).volume

    abbrev lbn : ℕ
    lbn = (b.pool.inode_table idx).lbn

    used : (b.pool.inode_table idx).state ≢ state_free
    used f = clean-ne-free (sym clean ∙ f)

    own : finder cuckoo b v lbn ≡ some idx
    own = is.wf.found idx idx_in used

    -- The node of the block is valid and has the inode.
    own_node :
        (node : ℕ) × (cuckoo.find (b.tables v).map lbn ≡ some node)
        × (((b.tables v).list.nodes node).inode ≡ some idx)
    own_node = elim (look_cases cuckoo (b.tables v) lbn (is.tables v)) [
      | inl c ↦ absurd (none-some (sym c.1 ∙ own))
      | inr (n, e, inl c) ↦ absurd (none-some (sym c.1 ∙ own))
      | inr (n, e, inr (valid, (i, q, l))) ↦ (n, e, q ∙ sym l ∙ own)
    ]

    abbrev k : ℕ
    k = b.free_enqueue_idx % num_free

    module _ (node : ℕ) (at_node : cuckoo.find (b.tables v).map lbn ≡ some node)
        (has : ((b.tables v).list.nodes node).inode ≡ some idx)
        (room : length (b.pool.free_queue k) < b.pool.max_inode_entry) where
      abbrev table : HashTable cuckoo
      table = logical_delete cuckoo (b.tables v) node

      sets : Sets cuckoo (b.tables v) lbn none table
      sets = logical_delete-Sets cuckoo (b.tables v) (is.tables v) lbn node at_node

      abbrev freed : Inode
      freed = record (b.pool.inode_table idx) { state = state_free }

      abbrev pool : Pool
      pool = record (b.pool) {
        inode_table = update b.pool.inode_table idx freed;
        inode_free_count = u32 (b.pool.inode_free_count + 1);
        free_queue = joined b.pool.free_queue k idx;
      }

      abbrev next : Buffer cuckoo
      next = record b {
        pool = pool;
        tables = update b.tables v table;
        free_enqueue_idx = u64 (b.free_enqueue_idx + 1);
      }

      frees : free_clean cuckoo idx b ≡ some next
      unfolding free_clean search_hash_node
      frees = rw (clean) (
          rw (at_node) (
            rw (is.linked v lbn idx own, (is.tables v).unlocked node)
              (rw (has) (
                rw (clean)
                  (rw (lt→ltb (length (b.pool.free_queue k)) b.pool.max_inode_entry room) refl)))))

      gone : finder cuckoo next v lbn ≡ none
      gone = ap (λ t. look cuckoo t lbn) (update_self b.tables v table) ∙ sets.at_key

      elsewhere : (w m : ℕ) → ((w ≡ v) → m ≢ lbn) → finder cuckoo next w m ≡ finder cuckoo b w m
      elsewhere w m ne = elim (eq-or-ne v w) [
        | inl e ↦
            subst (λ x. finder cuckoo next x m ≡ finder cuckoo b x m) e
              (ap (λ t. look cuckoo t m) (update_self b.tables v table)
                ∙ sets.elsewhere m (ne (sym e)))
        | inr nv ↦ ap (λ t. look cuckoo t m) (update_ne b.tables v table w nv)
      ]

      tables_ok : (w : ℕ) → IsTable cuckoo (next.tables w)
      tables_ok w = elim (eq-or-ne v w) [
        | inl e ↦
            subst (λ x. IsTable cuckoo (next.tables x)) e
              (subst (IsTable cuckoo) (sym (update_self b.tables v table)) sets.is_table)
        | inr ne ↦ subst (IsTable cuckoo) (sym (update_ne b.tables v table w ne)) (is.tables w)
      ]

      kept :
          (w m : ℕ) → finder cuckoo b w m ≢ some idx → finder cuckoo next w m ≡ finder cuckoo b w m
      kept w m ne = elsewhere w m (λ e q. ne (ap₂ (finder cuckoo b) e q ∙ own))

      -- A block that is found holds another inode, under the same label as before.
      old :
          (w m i : ℕ) → finder cuckoo next w m ≡ some i → (finder cuckoo b w m ≡ some i) × (idx ≢ i)
      old w m i h =
          let other : (w ≡ v) → m ≢ lbn =
            λ e q. none-some (sym gone ∙ ap₂ (finder cuckoo next) (sym e) (sym q) ∙ h) in
          let was = sym (elsewhere w m other) ∙ h in
          let l = (is.wf.labels w m i was).0 in
          (
            was,
            λ e.
                other (sym l.same_volume ∙ ap (λ x. (b.pool.inode_table x).volume) (sym e))
                  (sym l.same_lbn ∙ ap (λ x. (b.pool.inode_table x).lbn) (sym e)),
          )

      same_inode : (i : ℕ) → idx ≢ i → pool.inode_table i ≡ b.pool.inode_table i
      same_inode i ne = update_ne b.pool.inode_table idx freed i ne

      same_block : (i : ℕ) → (pool.inode_table i).block_index ≡ (b.pool.inode_table i).block_index
      same_block i = update_field (λ x. x.block_index) b.pool.inode_table idx freed refl i

      is_free : (pool.inode_table idx).state ≡ state_free
      is_free = ap (λ x. x.state) (update_self b.pool.inode_table idx freed)

      not_idx : (i : ℕ) → (pool.inode_table i).state ≢ state_free → idx ≢ i
      not_idx i h e = h (ap (λ x. (pool.inode_table x).state) (sym e) ∙ is_free)

      Labelled-next : (w m i : ℕ) → idx ≢ i → Labelled b.pool w m i → Labelled pool w m i
      Labelled-next w m i ne l = record {
        in_table = l.in_table;
        volume_in = l.volume_in;
        same_lbn = ap (λ x. x.lbn) (same_inode i ne) ∙ l.same_lbn;
        same_volume = ap (λ x. x.volume) (same_inode i ne) ∙ l.same_volume;
      }

      in_no_queue : (j : ℕ) → Absent idx (b.pool.free_queue j)
      in_no_queue j =
          All-imp (b.pool.free_queue j)
            (λ i h e. used (ap (λ x. (b.pool.inode_table x).state) e ∙ h.1)) (is.wf.free.all j)

      free_after : Queues (In pool state_free) pool.free_queue
      free_after =
          joined-Queues (In pool state_free) b.pool.free_queue k idx
            (Queues-imp (In b.pool state_free) (In pool state_free) b.pool.free_queue idx is.wf.free
              in_no_queue (λ i ne h. (h.0, ap (λ x. x.state) (same_inode i ne) ∙ h.1)))
            in_no_queue (idx_in, is_free)

      wf : Wf pool (finder cuckoo next)
      wf = record {
        dealt = record {
          inodes_apart = λ i j hi hj ne e.
              is.wf.dealt.inodes_apart i j hi hj ne (sym (same_block i) ∙ e ∙ same_block j);
          volumes_apart = is.wf.dealt.volumes_apart;
          spare_apart = λ i w hi hw e. is.wf.dealt.spare_apart i w hi hw (sym (same_block i) ∙ e);
        };
        labels = λ w m i h.
            let (was, ne) = old w m i h in
            let (l, u) = is.wf.labels w m i was in
            (Labelled-next w m i ne l, λ f. u (ap (λ x. x.state) (sym (same_inode i ne)) ∙ f));
        found = λ i hi u.
            let ne = not_idx i u in
            let e = same_inode i ne in
            let was = is.wf.found i hi (λ f. u (ap (λ x. x.state) e ∙ f)) in
            ap₂ (finder cuckoo next) (ap (λ x. x.volume) e) (ap (λ x. x.lbn) e)
            ∙ kept _ _ (λ q. ne (some-inj (sym q ∙ was)))
            ∙ was;
        free = free_after;
        queued = λ i hi d.
            let ne = not_idx i (λ f. free-ne-dirty (sym f ∙ d)) in
            let e = same_inode i ne in
            subst (λ u. Mem i (b.pool.dirty_queue u)) (ap (λ x. x.volume) (sym e))
              (is.wf.queued i hi (ap (λ x. x.state) (sym e) ∙ d));
      }

      next-Freed : Freed b idx next
      unfolding block_data
      next-Freed = record {
        frees = frees;
        is = record {
          tables = tables_ok;
          linked = λ w m i h. is.linked w m i (old w m i h).0;
          wf = wf;
        };
        free = is_free;
        others = same_inode;
        gone = gone;
        kept = kept;
        clean_queues = refl;
        dirty_queues = refl;
        sync_queues = refl;
        max = refl;
        size = refl;
        bytes = λ i j. ap (λ c. block_data b.pool c j) (same_block i);
      }

    -- A clean inode is freed, whatever its block is.
    pub free_clean_lem :
        length (b.pool.free_queue k) < b.pool.max_inode_entry
        → (next : Buffer cuckoo) × Freed b idx next
    free_clean_lem room =
        let (node, at_node, has) = own_node in
        (next node at_node has room, next-Freed node at_node has room)
