-- ===== src/Cycle/Write.antt =====
-- A round of nvm_durable_write (src/nvm0write.cc), whenever it returns: it updates one block of the
-- buffer, and the inode goes on its way from the start.
use mathlib.Core.List.{Mem}
use autobahn_app.Prelude.{
  arith, ◌^◌, eq-or-ne, some-inj, none-some, ℕ, ◌%◌, ◌≤◌, ◌<◌, ◌≡◌, ◌≢◌, ◌∙◌, sym, ap, subst, inl,
  inr, true, false, Option, some, none, List, All, All-imp, ◌>>=◌, >>=-eq-some, Bool-cases,
  List-cases,
}
use autobahn_app.HashList.Chain.{Absent}
use autobahn_app.Hash.{CuckooMap, search_hash_node}
use autobahn_app.Pool.{state_dirty, state_sync, Pool, num_free}
use autobahn_app.Buffer.{
  Buffer, is_dirty, free_enough, is_valid_node, hold_found, hold_node, take_free_inode, write_inode,
  write_round,
}
use autobahn_app.Buffer.Stored.{
  get_inode_entry_idx_from_hash_lem, Written, write_inode_lem, write_inode-some, dirty_of_test,
}
use autobahn_app.Cycle.Queues.{joined, joined-All}
use autobahn_app.Buffer.Held.{
  finder, IsBuffer, Available, Held, hold_node_lem, look_cases, not_valid,
}
use autobahn_app.Buffer.Round.{Round, Held-Round}
use autobahn_app.Cycle.Queues.{
  Queues, Queues-imp, Queues-map, joined-Queues, joined-Mem, joined-Mem_self,
}
use autobahn_app.Buffer.Wf.{In}
use autobahn_app.Cycle.Flow.{InLocked, IsFlow}

-- The write of an inode that nobody has locked.
module _ (s t : Pool) (v idx : ℕ) (buf : ℕ → ℕ) (count : ℕ) (w : Written s v idx buf count t)
    (label : (s.inode_table idx).volume ≡ v) (idx_in : idx < s.max_inode_entry)
    (unlocked : (s.inode_table idx).locked ≡ false) (flow : IsFlow s) where
  below : (i : ℕ) → i < s.max_inode_entry → i < t.max_inode_entry
  below i h = subst (λ n. i < n) (sym w.sizes.0) h

  true-ne-false : true ≢ false
  true-ne-false e = cc

  sync_left : (k : ℕ) → Absent idx (s.sync_queue k)
  sync_left k =
      All-imp (s.sync_queue k)
        (λ i h e. true-ne-false (sym h.1 ∙ ap (λ x. (s.inode_table x).locked) (sym e) ∙ unlocked))
        (flow.sync.all k)

  sync_after : Queues (InLocked t state_sync) t.sync_queue
  sync_after = subst (Queues (InLocked t state_sync)) (sym w.sync_queues) (
      Queues-imp (InLocked s state_sync) (InLocked t state_sync) s.sync_queue idx flow.sync
        sync_left (λ i ne h. ((below i h.0.0, w.states i ne ∙ h.0.1), w.locks i ∙ h.1)))

  clean_after : (k : ℕ) → All (λ i. i < t.max_inode_entry) (t.clean_queue k)
  clean_after k =
      subst (λ q. All (λ i. i < t.max_inode_entry) (q k)) (sym w.clean_queues)
        (All-imp (s.clean_queue k) below (flow.clean k))

  In-dirty : (i : ℕ) → In s state_dirty i → In t state_dirty i
  In-dirty i h = elim (eq-or-ne idx i) [
    | inl e ↦ (below i h.0, subst (λ x. (t.inode_table x).state ≡ state_dirty) e w.dirty)
    | inr ne ↦ (below i h.0, w.states i ne ∙ h.1)
  ]

  -- The queue that the write leaves, by whether the inode was dirty.
  abbrev DirtyQueues : (ℕ → List ℕ) → Type 0
  DirtyQueues q =
      Queues (In t state_dirty) q
      × ((u : ℕ) → All (λ i. (t.inode_table i).volume ≡ u) (q u))
      × ((i : ℕ) → In t state_dirty i → Mem i (q (t.inode_table i).volume))

  was_dirty : (s.inode_table idx).state ≡ state_dirty → DirtyQueues s.dirty_queue
  was_dirty d = (
    Queues-map (In s state_dirty) (In t state_dirty) s.dirty_queue In-dirty flow.dirty,
    λ u. All-imp (s.dirty_queue u) (λ i h. w.volumes i ∙ h) (flow.own u),
    λ i h.
        let before : In s state_dirty i = elim (eq-or-ne idx i) [
          | inl e ↦ subst (In s state_dirty) e (idx_in, d)
          | inr ne ↦ (subst (λ n. i < n) w.sizes.0 h.0, sym (w.states i ne) ∙ h.1)
        ] in
        elim (flow.queued i before) [
          | inl a ↦ absurd a
          | inr m ↦ subst (λ u. Mem i (s.dirty_queue u)) (sym (w.volumes i)) m
        ],
  )

  not_dirty : (s.inode_table idx).state ≢ state_dirty → DirtyQueues (joined s.dirty_queue v idx)
  not_dirty nd =
      let absent : (u : ℕ) → Absent idx (s.dirty_queue u) = λ u.
        All-imp (s.dirty_queue u) (λ i h e. nd (ap (λ x. (s.inode_table x).state) e ∙ h.1))
          (flow.dirty.all u) in
      (
        joined-Queues (In t state_dirty) s.dirty_queue v idx
            (Queues-map (In s state_dirty) (In t state_dirty) s.dirty_queue In-dirty flow.dirty)
            absent (below idx idx_in, w.dirty),
        λ u.
            joined-All s.dirty_queue v idx (λ i. (t.inode_table i).volume ≡ u) u
              (All-imp (s.dirty_queue u) (λ i h. w.volumes i ∙ h) (flow.own u))
              (λ e. w.volumes idx ∙ label ∙ e),
        λ i h. elim (eq-or-ne idx i) [
          | inl e ↦
              subst (λ x. Mem x (joined s.dirty_queue v idx (t.inode_table x).volume)) e
                (subst (λ u. Mem idx (joined s.dirty_queue v idx u)) (sym (w.volumes idx ∙ label))
                  (joined-Mem_self s.dirty_queue v idx))
          | inr ne ↦
              elim (flow.queued i (subst (λ n. i < n) w.sizes.0 h.0, sym (w.states i ne) ∙ h.1)) [
                | inl a ↦ absurd a
                | inr m ↦
                    subst (λ u. Mem i (joined s.dirty_queue v idx u)) (sym (w.volumes i))
                      (joined-Mem s.dirty_queue v idx (s.inode_table i).volume i m)
              ]
        ],
      )

  not_dirty_of_test :
      is_dirty (s.inode_table idx).state ≡ false → (s.inode_table idx).state ≢ state_dirty
  not_dirty_of_test e q = cc

  dirty_after : DirtyQueues t.dirty_queue
  dirty_after = elim w.queue_change [
    | inl c ↦ subst DirtyQueues (sym c.1) (was_dirty (dirty_of_test _ c.0))
    | inr c ↦ subst DirtyQueues (sym c.1) (not_dirty (not_dirty_of_test c.0))
  ]

  Written-IsFlow : IsFlow t
  Written-IsFlow =
      let (queues, own, queued) = dirty_after in
      record {
        dirty = queues;
        own = own;
        queued = λ i h. inr (queued i h);
        hand = λ i h. absurd h;
        hand_left = λ i h. absurd h;
        sync = sync_after;
        clean = clean_after;
      }

module _ (cuckoo : CuckooMap) (b : Buffer cuckoo) (is : IsBuffer cuckoo b) (v lbn : ℕ) where
  -- A call that returns had an inode for the block.
  taken-Available :
      (found : Option ℕ) (r : ℕ × Buffer cuckoo)
      → finder cuckoo b v lbn ≡ none
      → hold_found cuckoo v lbn found false b ≡ some r
      → (idx : ℕ) × Available cuckoo b v lbn idx
  unfolding take_free_inode
  taken-Available found r absent h = elim (Bool-cases (free_enough b.pool)) [
    | inr e ↦ absurd (none-some (rw (e) at h))
    | inl e ↦
        let k = b.pool.free_dequeue_idx % num_free in
        elim (List-cases (b.pool.free_queue k)) [
          | inl q ↦ absurd (none-some (rw (e, q) at h))
          | inr (idx, rest, q) ↦ (idx, inr (absent, e, (rest, q)))
        ]
  ]

  hold_node-Available :
      (r : ℕ × Buffer cuckoo)
      → hold_node cuckoo v lbn b ≡ some r
      → (idx : ℕ) × Available cuckoo b v lbn idx
  unfolding hold_node search_hash_node
  hold_node-Available r h =
      let table = b.tables v in
      let o = cuckoo.find table.map lbn in
      elim (look_cases cuckoo table lbn (is.tables v)) [
        | inl (e, absent) ↦
            taken-Available o r absent
              (sym (not_valid cuckoo b is v lbn 0 o (ap (is_valid_node cuckoo table) e)) ∙ h)
        | inr (n, e, inl (invalid, absent)) ↦ taken-Available o r absent (
            sym (not_valid cuckoo b is v lbn 0 o (ap (is_valid_node cuckoo table) e ∙ invalid)) ∙ h)
        | inr (n, e, inr (valid, (i, q, l))) ↦ (i, inl l)
      ]

  -- The end of a round, after the node is held.
  abbrev finish :
      (offset : ℕ) → (buf : ℕ → ℕ) → (count : ℕ) → ℕ × Buffer cuckoo → Option (Buffer cuckoo)
  finish offset buf count held = ((held.1.tables v).list.nodes held.0).inode >>= λ idx.
      write_inode v idx offset buf count held.1.pool >>= λ pool.
      some (record (held.1) { pool = pool })

  module _ (offset : ℕ) (buf : ℕ → ℕ) (count : ℕ) (next : Buffer cuckoo)
      (v_in : v < b.pool.max_volume_entry) (small : b.pool.max_inode_entry ≤ 2 ^ 26)
      (fits : count ≤ b.pool.block_size) where
    finish-Round :
        (idx node : ℕ) (held : Buffer cuckoo)
        → Held cuckoo b v lbn idx node held
        → b.linked v ≡ true
        → finish offset buf count (node, held) ≡ some next
        → Round cuckoo b v lbn buf count next × (IsFlow b.pool → IsFlow next.pool)
    finish-Round idx node held h linked eq =
        let (pool, wrote, same) =
          >>=-eq-some (write_inode v idx offset buf count held.pool) _ (rw (h.inode) at eq) in
        let (unlocked, room) = write_inode-some held.pool pool v idx offset buf count wrote in
        let (pool', done, w) = write_inode_lem held.pool v idx offset buf count (record {
          dealt = h.claim.dealt;
          idx_in = h.claim.label.in_table;
          v_in = h.claim.label.volume_in;
          same_volume = h.claim.label.same_volume;
          unlocked = unlocked;
          room = room;
          fits = subst (λ z. count ≤ z) (sym h.sizes.2) fits;
          same_index =
              get_inode_entry_idx_from_hash_lem idx
                (omega (arith, h.claim.label.in_table, h.sizes.0, small));
        }) in
        let end : record held { pool = pool' } ≡ next =
          ap (λ p. record held { pool = p }) (some-inj (sym done ∙ wrote)) ∙ some-inj same in
        subst (λ x. Round cuckoo b v lbn buf count x × (IsFlow b.pool → IsFlow x.pool)) end
          (
            Held-Round cuckoo b held v lbn idx node buf count pool' is linked h w,
            λ f.
                Written-IsFlow held.pool pool' v idx buf count w h.claim.label.same_volume
                  h.claim.label.in_table unlocked (h.flow f),
          )

    linked_of_some : write_round cuckoo v lbn offset buf count b ≡ some next → b.linked v ≡ true
    unfolding write_round
    linked_of_some eq = elim (Bool-cases (b.linked v)) [
      | inl e ↦ e
      | inr e ↦ absurd (none-some (rw (e) at eq))
    ]

    -- Whenever a round returns, it updates the block: the block starts with the data, every other
    -- block keeps its bytes, and the buffer and the queues keep their invariants.
    pub write_round-Round :
        write_round cuckoo v lbn offset buf count b ≡ some next
        → Round cuckoo b v lbn buf count next × (IsFlow b.pool → IsFlow next.pool)
    unfolding write_round
    write_round-Round eq =
        let linked : b.linked v ≡ true = linked_of_some eq in
        let (r, held_eq, more) = >>=-eq-some (hold_node cuckoo v lbn b) _ (rw (linked) at eq) in
        let (idx, available) = hold_node-Available r held_eq in
        let (node, held, h) = hold_node_lem cuckoo b is v lbn idx v_in available in
        finish-Round idx node held h linked
          (ap (finish offset buf count) (some-inj (sym h.holds ∙ held_eq)) ∙ more)
