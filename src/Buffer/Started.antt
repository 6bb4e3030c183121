-- ===== src/Buffer/Started.antt =====
-- What nvm_system_init (src/nvm0nvm.cc) leaves: every queue but the one of the free entries and the
-- ones of free inodes is empty, and each inode is free, unlocked and in its queue.
use autobahn_app.Prelude.{
  eq-or-ne, ℕ, zero, suc, ◌+◌, ◌*◌, ◌-◌, ◌%◌, ◌^◌, ◌≤◌, ◌<◌, ◌≡◌, ◌≢◌, ◌∙◌, refl, sym, ap, subst,
  inl, inr, some, false, List, [], ◌∷◌, length, length-append, All, All-imp, ==_refl, lt→ltb, arith,
}
use autobahn_app.LfQueue.{update}
use autobahn_app.HashList.Chain.{Absent, Apart}
use autobahn_app.Pool.{state_free, Inode, Pool, num_free}
use autobahn_app.Pool.Blocks.{IsDealt, update_self, update_ne, update_field}
use autobahn_app.Pool.Start.{new_queues, free_inode, free_inodes, system_init}
use autobahn_app.Pool.Start.Filled.{Volumes, free_volumes-Volumes, none-Volumes}
use autobahn_app.Buffer.Room.{Absent-room}
use autobahn_app.Cycle.Queues.{joined, joined-All, joined-Apart}

-- Which inodes are free so far, and in which queue.
record Begun (i : ℕ) (s t : Pool) : Type 0 where
  same_max : t.max_inode_entry ≡ s.max_inode_entry
  same_volumes : t.max_volume_entry ≡ s.max_volume_entry
  same_table : t.volume_table ≡ s.volume_table
  same_free : t.volume_free ≡ s.volume_free
  same_inuse : t.volume_inuse ≡ s.volume_inuse
  same_dirty : t.dirty_queue ≡ s.dirty_queue
  same_sync : t.sync_queue ≡ s.sync_queue
  same_clean : t.clean_queue ≡ s.clean_queue
  same_size : t.block_size ≡ s.block_size
  same_count : t.inode_free_count ≡ s.inode_free_count
  blocks : (j : ℕ) → (t.inode_table j).block_index ≡ (s.inode_table j).block_index
  free : (j : ℕ) → j < i → (t.inode_table j).state ≡ state_free
  unlocked : (j : ℕ) → j < i → (t.inode_table j).locked ≡ false
  own_queue : (k : ℕ) → All (λ j. (j < i) × (j % 2 ≡ k)) (t.free_queue k)
  once : (k : ℕ) → Apart (t.free_queue k)
  long : (k : ℕ) → k < 2 → i ≤ 2 * length (t.free_queue k) + k

earlier : (i j : ℕ) → j < suc i → i ≢ j → j < i
earlier i j h ne = omega arith

module _ (i : ℕ) (s t : Pool) (below : i < t.max_inode_entry) (b : Begun i s t) where
  abbrev k : ℕ
  k = i % num_free

  abbrev inode : Inode
  inode = record (t.inode_table i) { state = state_free; locked = false }

  abbrev next : Pool
  next = record t {
    inode_table = update t.inode_table i inode;
    free_queue = joined t.free_queue k i;
  }

  absent : (j : ℕ) → Absent i (t.free_queue j)
  absent j = All-imp (t.free_queue j) (λ y h e. absurd (omega (arith, h.0, e))) (b.own_queue j)

  room : length (t.free_queue k) < t.max_inode_entry
  room =
      Absent-room t.max_inode_entry i (t.free_queue k)
        (All-imp (t.free_queue k) (λ j h. omega (arith, h.0, below)) (b.own_queue k)) (b.once k)
        below (absent k)

  longer : (j : ℕ) → j < 2 → suc i ≤ 2 * length (next.free_queue j) + j
  longer j h = elim (eq-or-ne k j) [
    | inl e ↦
        subst (λ x. suc i ≤ 2 * length (next.free_queue x) + x) e
          (rw (==_refl k)
            (omega (arith, b.long k (omega arith), length-append (t.free_queue k) (i ∷ []))))
    | inr ne ↦
        subst (λ q. suc i ≤ 2 * length q + j) (sym (update_ne t.free_queue k _ j ne))
          (omega (arith, b.long j h, ne))
  ]

  free_inode-Begun : (free_inode i t ≡ some next) × Begun (suc i) s next
  unfolding free_inode
  free_inode-Begun = (
    rw (lt→ltb (length (t.free_queue k)) t.max_inode_entry room) refl,
    record {
      same_max = b.same_max;
      same_volumes = b.same_volumes;
      same_table = b.same_table;
      same_free = b.same_free;
      same_inuse = b.same_inuse;
      same_dirty = b.same_dirty;
      same_sync = b.same_sync;
      same_clean = b.same_clean;
      same_size = b.same_size;
      same_count = b.same_count;
      blocks = λ j. update_field (λ x. x.block_index) t.inode_table i inode refl j ∙ b.blocks j;
      free = λ j h. elim (eq-or-ne i j) [
        | inl e ↦
            subst (λ x. (next.inode_table x).state ≡ state_free) e
              (ap (λ x. x.state) (update_self t.inode_table i inode))
        | inr ne ↦
            ap (λ x. x.state) (update_ne t.inode_table i inode j ne) ∙ b.free j (earlier i j h ne)
      ];
      unlocked = λ j h. elim (eq-or-ne i j) [
        | inl e ↦
            subst (λ x. (next.inode_table x).locked ≡ false) e
              (ap (λ x. x.locked) (update_self t.inode_table i inode))
        | inr ne ↦
            ap (λ x. x.locked) (update_ne t.inode_table i inode j ne)
            ∙ b.unlocked j (earlier i j h ne)
      ];
      own_queue = λ j.
          joined-All t.free_queue k i (λ y. (y < suc i) × (y % 2 ≡ j)) j
            (All-imp (t.free_queue j) (λ y h. (omega (arith, h.0), h.1)) (b.own_queue j))
            (λ e. (omega arith, e));
      once = λ j. joined-Apart t.free_queue k i j (b.once j) (absent j);
      long = longer;
    },
  )

free_inodes-Begun :
    (n i : ℕ) (s t : Pool)
    → i + n ≡ t.max_inode_entry
    → Begun i s t
    → (after : Pool) × (free_inodes n i t ≡ some after) × Begun t.max_inode_entry s after
unfolding free_inodes
free_inodes-Begun zero i s t h b = (t, refl, subst (λ x. Begun x s t) (omega (arith, h)) b)
free_inodes-Begun (suc n) i s t h b =
    let below : i < t.max_inode_entry = omega (arith, h) in
    let (eq, c) = free_inode-Begun i s t below b in
    let (after, done, all) =
      free_inodes-Begun n (suc i) s (next i s t below b) (omega (arith, h)) c in
    (after, rw (eq) done, all)

-- What the start leaves in the pool.
pub record Started (s after : Pool) : Type 0 where
  pub same_max : after.max_inode_entry ≡ s.max_inode_entry
  pub same_volumes : after.max_volume_entry ≡ s.max_volume_entry
  pub same_size : after.block_size ≡ s.block_size
  pub same_count : after.inode_free_count ≡ s.max_inode_entry
  pub no_dirty : (v : ℕ) → after.dirty_queue v ≡ []
  pub no_sync : (k : ℕ) → after.sync_queue k ≡ []
  pub no_clean : (k : ℕ) → after.clean_queue k ≡ []
  pub no_inuse : after.volume_inuse ≡ []
  pub first_free : 0 < s.max_volume_entry → (rest : List ℕ) × (after.volume_free ≡ 0 ∷ rest)
  pub free_vids : (w : ℕ) → w < s.max_volume_entry → (after.volume_table w).vid ≡ 2 ^ 32 - 1
  pub dealt : IsDealt s → IsDealt after
  pub free : (i : ℕ) → i < s.max_inode_entry → (after.inode_table i).state ≡ state_free
  pub unlocked : (i : ℕ) → i < s.max_inode_entry → (after.inode_table i).locked ≡ false
  pub own_queue : (k : ℕ) → All (λ i. (i < s.max_inode_entry) × (i % 2 ≡ k)) (after.free_queue k)
  pub once : (k : ℕ) → Apart (after.free_queue k)
  pub long : (k : ℕ) → k < 2 → s.max_inode_entry ≤ 2 * length (after.free_queue k) + k

none-Begun : (t : Pool) → t.free_queue ≡ (λ k. []) → Begun 0 t t
none-Begun t e = record {
  same_max = refl;
  same_volumes = refl;
  same_table = refl;
  same_free = refl;
  same_inuse = refl;
  same_dirty = refl;
  same_sync = refl;
  same_clean = refl;
  same_size = refl;
  same_count = refl;
  blocks = λ j. refl;
  free = λ j h. absurd (omega (arith, h));
  unlocked = λ j h. absurd (omega (arith, h));
  own_queue = λ k. subst (λ q. All (λ j. (j < 0) × (j % 2 ≡ k)) (q k)) (sym e) tt;
  once = λ k. subst (λ q. Apart (q k)) (sym e) tt;
  long = λ k h. omega arith;
}

both-Started :
    (s mid after : Pool)
    → Volumes s.max_volume_entry (new_queues s) mid
    → Begun s.max_inode_entry mid after
    → Started s after
unfolding new_queues
both-Started s mid after v b = record {
  same_max = b.same_max ∙ v.same_max;
  same_volumes = b.same_volumes ∙ v.same_volumes;
  same_size = b.same_size ∙ v.same_size;
  same_count = b.same_count ∙ v.same_count;
  no_dirty = λ w. ap (λ q. q w) (b.same_dirty ∙ v.same_dirty);
  no_sync = λ w. ap (λ q. q w) (b.same_sync ∙ v.same_sync);
  no_clean = λ w. ap (λ q. q w) (b.same_clean ∙ v.same_clean);
  no_inuse = b.same_inuse ∙ v.same_inuse;
  first_free = λ h. let (rest, e) = v.first h in (rest, b.same_free ∙ e);
  free_vids = λ w h. ap (λ t. (t w).vid) b.same_table ∙ v.free_vids w h;
  dealt = λ d.
      let block : (i : ℕ) → (after.inode_table i).block_index ≡ (s.inode_table i).block_index =
        λ i. b.blocks i ∙ ap (λ t. (t i).block_index) v.same_inodes in
      let spare : (w : ℕ) → (after.volume_table w).spare_block ≡ (s.volume_table w).spare_block =
        λ w. ap (λ t. (t w).spare_block) b.same_table ∙ v.spares w in
      let inodes = b.same_max ∙ v.same_max in
      let volumes = b.same_volumes ∙ v.same_volumes in
      record {
        inodes_apart = λ i j hi hj ne e.
            d.inodes_apart i j (subst (λ n. i < n) inodes hi) (subst (λ n. j < n) inodes hj) ne
              (sym (block i) ∙ e ∙ block j);
        volumes_apart = λ w u hw hu ne e.
            d.volumes_apart w u (subst (λ n. w < n) volumes hw) (subst (λ n. u < n) volumes hu) ne
              (sym (spare w) ∙ e ∙ spare u);
        spare_apart = λ i w hi hw e.
            d.spare_apart i w (subst (λ n. i < n) inodes hi) (subst (λ n. w < n) volumes hw)
              (sym (block i) ∙ e ∙ spare w);
      };
  free = b.free;
  unlocked = b.unlocked;
  own_queue = b.own_queue;
  once = b.once;
  long = b.long;
}

pub system_init-Started :
    (s : Pool) → (after : Pool) × (system_init s ≡ some after) × Started s after
unfolding system_init new_queues
system_init-Started s =
    let fresh = new_queues s in
    let (mid, eq, v) =
      free_volumes-Volumes s.max_volume_entry 0 fresh fresh (none-Volumes fresh refl)
        (omega arith) in
    let (after, done, b) =
      free_inodes-Begun mid.max_inode_entry 0 mid mid (omega arith)
        (none-Begun mid v.same_queues) in
    (after, rw (eq) done, both-Started s mid after v (subst (λ n. Begun n mid after) v.same_max b))
