-- ===== src/Buffer/Round.antt =====
-- One round of nvm_durable_write (src/nvm0write.cc), seen as an update of one block of the buffer.
use mathlib.Core.List.{Mem}
use autobahn_app.Prelude.{
  eq-or-ne, true, ℕ, suc, ◌+◌, ◌%◌, ◌^◌, ◌≤◌, ◌<◌, ◌≡◌, ◌≢◌, ◌∙◌, refl, sym, ap, subst, inl, inr,
  false, Option, some, none, Option-cases, List-cases, All, length, le→leb, arith,
}
use autobahn_app.Hash.{CuckooMap}
use autobahn_app.Pool.{Pool, state_dirty, num_free}
use autobahn_app.Buffer.{Buffer, free_min_count, write_round}
use autobahn_app.Buffer.Wf.{Wf, data_of}
use autobahn_app.Buffer.Keeps.{Wf-after}
use autobahn_app.Buffer.Stored.{Written, Ready, write_inode_lem, get_inode_entry_idx_from_hash_lem}
use autobahn_app.Buffer.Held.{finder, IsBuffer, Available, Held, hold_node_lem}

abbrev pub byte_of : Pool → Option ℕ → ℕ → Option ℕ
byte_of s none j = none
byte_of s (some i) j = some (data_of s i j)

none_left : (len n : ℕ) → suc n ≤ len → len ≢ 0
none_left len n h e = omega arith

module _ (cuckoo : CuckooMap) where
  -- The buffer as a map: the byte j of a block of a volume, if the block is there.
  abbrev pub byte_at : Buffer cuckoo → (v lbn j : ℕ) → Option ℕ
  byte_at b v lbn j = byte_of b.pool (finder cuckoo b v lbn) j

  -- There is enough of everything for `n` rounds, no inode is locked, and the indices of the inodes
  -- are the ones that get_inode_entry_idx_from_hash can answer.
  pub record Spare (n v : ℕ) (b : Buffer cuckoo) : Type 0 where
    pub count : free_min_count + n ≤ b.pool.inode_free_count
    pub small : b.pool.inode_free_count < 2 ^ 32
    pub queues : (k : ℕ) → k < num_free → n ≤ length (b.pool.free_queue k)
    pub room : length (b.pool.dirty_queue v) + n ≤ b.pool.max_inode_entry
    pub unlocked : (i : ℕ) → i < b.pool.max_inode_entry → (b.pool.inode_table i).locked ≡ false
    pub v_in : v < b.pool.max_volume_entry
    pub indexed : b.pool.max_inode_entry ≤ 2 ^ 26

  pub record Round (b : Buffer cuckoo) (v lbn : ℕ) (buf : ℕ → ℕ) (count : ℕ) (next : Buffer cuckoo)
      : Type 0 where
    pub is : IsBuffer cuckoo next
    pub hit : (j : ℕ) → j < count → byte_at next v lbn j ≡ some (buf j)
    pub miss :
        (w m j : ℕ)
        → ((w ≡ v) → m ≢ lbn)
        → j < b.pool.block_size
        → byte_at next w m j ≡ byte_at b w m j
    pub queued :
        (i : ℕ) × (finder cuckoo next v lbn ≡ some i)
        × ((next.pool.inode_table i).state ≡ state_dirty)
        × Mem i (next.pool.dirty_queue v)
    pub same_size : next.pool.block_size ≡ b.pool.block_size
    pub same_max : next.pool.max_inode_entry ≡ b.pool.max_inode_entry
    pub same_linked : next.linked ≡ b.linked
    pub spare : (n : ℕ) → Spare (suc n) v b → Spare n v next

  -- With something to spare an inode is available.
  Spare-Available :
      (b : Buffer cuckoo) (n v lbn : ℕ)
      → IsBuffer cuckoo b
      → Spare (suc n) v b
      → (idx : ℕ) × Available cuckoo b v lbn idx × (idx < b.pool.max_inode_entry)
  Spare-Available b n v lbn is sp = elim (Option-cases (finder cuckoo b v lbn)) [
    | inr (i, e) ↦ (i, inl e, (is.wf.labels v lbn i e).0.in_table)
    | inl absent ↦
        let ticket = b.pool.free_dequeue_idx % num_free in
        elim (List-cases (b.pool.free_queue ticket)) [
          | inl empty ↦ absurd (
              none_left (length (b.pool.free_queue ticket)) n (sp.queues ticket (omega arith))
                (ap length empty))
          | inr (i, rest, e) ↦ (
            i,
            inr (
              absent,
              le→leb free_min_count b.pool.inode_free_count (omega (arith, sp.count)),
              (rest, e),
            ),
            (subst (All _) e (is.wf.free.all ticket)).0.0,
          )
        ]
  ]

  -- The node is held, and the write is done.
  module _ (b held : Buffer cuckoo) (v lbn idx node : ℕ) (buf : ℕ → ℕ) (count : ℕ) (pool : Pool)
      (is : IsBuffer cuckoo b) (linked_v : b.linked v ≡ true)
      (h : Held cuckoo b v lbn idx node held) (w : Written held.pool v idx buf count pool) where
    abbrev next : Buffer cuckoo
    next = record held { pool = pool }

    wf : Wf pool (finder cuckoo held)
    wf = Wf-after held.pool pool (finder cuckoo held) v lbn idx buf count h.claim w

    -- Another block has another inode.
    other_inode : (u m i : ℕ) → finder cuckoo held u m ≡ some i → ((u ≡ v) → m ≢ lbn) → idx ≢ i
    other_inode u m i e ne q =
        let (l, _) = h.claim.labels u m i e in
        let own = h.claim.label in
        ne
          (sym l.same_volume ∙ ap (λ x. (held.pool.inode_table x).volume) (sym q) ∙ own.same_volume)
          (sym l.same_lbn ∙ ap (λ x. (held.pool.inode_table x).lbn) (sym q) ∙ own.same_lbn)

    miss :
        (u m j : ℕ)
        → ((u ≡ v) → m ≢ lbn)
        → j < b.pool.block_size
        → byte_at next u m j ≡ byte_at b u m j
    miss u m j ne hj =
        ap (λ o. byte_of pool o j) (h.elsewhere u m ne)
        ∙ elim (Option-cases (finder cuckoo b u m)) [
          | inl e ↦ ap (λ o. byte_of pool o j) e ∙ sym (ap (λ o. byte_of b.pool o j) e)
          | inr (i, e) ↦
              let there = h.elsewhere u m ne ∙ e in
              ap (λ o. byte_of pool o j) e
              ∙ ap some (
                  w.others i j (h.claim.labels u m i there).0.in_table (other_inode u m i there ne)
                    (subst (λ z. j < z) (sym h.sizes.2) hj)
                  ∙ h.bytes i j)
              ∙ sym (ap (λ o. byte_of b.pool o j) e)
        ]

    waits : Mem idx (pool.dirty_queue v)
    waits =
        subst (λ u. Mem idx (pool.dirty_queue u)) (w.volumes idx ∙ h.claim.label.same_volume)
          (wf.queued idx (subst (λ z. idx < z) (sym w.sizes.0) h.claim.label.in_table) w.dirty)

    spare : (n : ℕ) → Spare (suc n) v b → Spare n v next
    spare n sp = record {
      count = omega (arith, w.free_count, h.count_left sp.small, sp.count);
      small = omega (arith, w.free_count, h.count_left sp.small);
      queues = λ k hk.
          subst (λ q. n ≤ length (q k)) (sym w.free_queues)
            (omega (arith, h.queues_left k, sp.queues k hk));
      room =
          omega
            (arith, w.queue_length, ap (λ q. length (q v)) h.dirty, sp.room, w.sizes.0, h.sizes.0);
      unlocked = λ i hi.
          w.locks i ∙ h.locks i ∙ sp.unlocked i (subst (λ z. i < z) (w.sizes.0 ∙ h.sizes.0) hi);
      v_in = subst (λ z. v < z) (sym (w.sizes.1 ∙ h.sizes.1)) sp.v_in;
      indexed = subst (λ z. z ≤ 2 ^ 26) (sym (w.sizes.0 ∙ h.sizes.0)) sp.indexed;
    }

    linked : (u m i : ℕ) → finder cuckoo held u m ≡ some i → held.linked u ≡ true
    linked u m i e = ap (λ f. f u) h.linked ∙ elim (eq-or-ne u v) [
      | inl q ↦ ap b.linked q ∙ linked_v
      | inr ne ↦ is.linked u m i (sym (h.elsewhere u m (λ q. absurd (ne q))) ∙ e)
    ]

    pub Held-Round : Round b v lbn buf count next
    Held-Round = record {
      is = record { tables = h.tables; linked = linked; wf = wf };
      hit = λ j hj. ap (λ o. byte_of pool o j) h.claim.here ∙ ap some (w.stored j hj);
      miss = miss;
      queued = (idx, h.claim.here, w.dirty, waits);
      same_size = w.sizes.2 ∙ h.sizes.2;
      same_max = w.sizes.0 ∙ h.sizes.0;
      same_linked = h.linked;
      spare = spare;
    }

  module _ (b : Buffer cuckoo) (n v lbn offset : ℕ) (buf : ℕ → ℕ) (count : ℕ)
      (is : IsBuffer cuckoo b) (linked_v : b.linked v ≡ true) (sp : Spare (suc n) v b)
      (fits : count ≤ b.pool.block_size) where
    -- The write that a held node allows.
    Held-Ready :
        (idx node : ℕ) (held : Buffer cuckoo)
        → Held cuckoo b v lbn idx node held
        → Ready held.pool v idx count
    Held-Ready idx node held h = record {
      dealt = h.claim.dealt;
      idx_in = h.claim.label.in_table;
      v_in = h.claim.label.volume_in;
      same_volume = h.claim.label.same_volume;
      unlocked =
          h.locks idx ∙ sp.unlocked idx (subst (λ z. idx < z) h.sizes.0 h.claim.label.in_table);
      room = λ e. omega (arith, ap (λ q. length (q v)) h.dirty, sp.room, h.sizes.0);
      fits = subst (λ z. count ≤ z) (sym h.sizes.2) fits;
      same_index =
          get_inode_entry_idx_from_hash_lem idx
            (omega (arith, h.claim.label.in_table, h.sizes.0, sp.indexed));
    }

    pub write_round_lem :
        (next : Buffer cuckoo) × (write_round cuckoo v lbn offset buf count b ≡ some next)
        × Round b v lbn buf count next
    unfolding write_round
    write_round_lem =
        let (idx, available, idx_in) = Spare-Available b n v lbn is sp in
        let (node, held, h) = hold_node_lem cuckoo b is v lbn idx sp.v_in available in
        let (pool, eq, w) =
          write_inode_lem held.pool v idx offset buf count (Held-Ready idx node held h) in
        (
          record held { pool = pool },
          rw (linked_v) (rw (h.holds) (rw (h.inode) (rw (eq) refl))),
          Held-Round b held v lbn idx node buf count pool is linked_v h w,
        )
