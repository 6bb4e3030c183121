-- ===== src/Pool/Start/Filled.antt =====
-- nvm_system_init of src/nvm0nvm.cc returns, with every inode free and in a queue of free inodes.
use mathlib.Core.List.{Mem, mem-cons_self, mem-append_left, mem-append_right}
use autobahn_app.Prelude.{
  ℕ, zero, suc, ◌+◌, ◌%◌, ◌-◌, ◌^◌, ◌≤◌, ◌<◌, ◌≡◌, ◌≢◌, refl, sym, ap, ◌∙◌, List, subst, inl, inr,
  some, false, [], ◌∷◌, ◌++◌, length, length-append, ◌==◌, Bool-cases, ==_refl, ==→eq, ne_of_test,
  lt→ltb, arith,
}
use autobahn_app.LfQueue.{update}
use autobahn_app.Pool.{state_free, Inode, Pool, num_free}
use autobahn_app.Pool.Blocks.{update_field}
use autobahn_app.Pool.Start.{
  new_queues, free_volume, free_volumes, free_inode, free_inodes, system_init,
}

-- The inode is free and unlocked, and waits in its queue.
abbrev pub Free : Pool → ℕ → Type 0
Free s i =
    ((s.inode_table i).state ≡ state_free)
    × ((s.inode_table i).locked ≡ false)
    × Mem i (s.free_queue (i % num_free))

-- Before the inode i is freed: what the queues hold so far.
record Filling (i : ℕ) (s : Pool) : Type 0 where
  short : (k : ℕ) → length (s.free_queue k) ≤ i
  free : (j : ℕ) → j < i → Free s j

earlier : (i j : ℕ) → j < suc i → i ≢ j → j < i
earlier i j h ne = omega arith

free_inode-Filling :
    (i : ℕ) (s : Pool)
    → i < s.max_inode_entry
    → Filling i s
    → (after : Pool) × (free_inode i s ≡ some after)
      × (after.max_inode_entry ≡ s.max_inode_entry)
      × Filling (suc i) after
unfolding free_inode
free_inode-Filling i s h f =
    let inode : Inode = record (s.inode_table i) { state = state_free; locked = false } in
    let k = i % num_free in
    let queue = s.free_queue k ++ (i ∷ []) in
    let after : Pool = record s {
      inode_table = update s.inode_table i inode;
      free_queue = update s.free_queue k queue;
    } in
    (
      after,
      rw (lt→ltb (length (s.free_queue k)) s.max_inode_entry (omega (arith, f.short k))) refl,
      refl,
      record {
        short = λ j. elim (Bool-cases (k == j)) [
          | inl e ↦ rw (e) (omega (arith, f.short k, length-append (s.free_queue k) (i ∷ [])))
          | inr e ↦ rw (e) (omega (arith, f.short j))
        ];
        free = λ j hj. elim (Bool-cases (i == j)) [
          | inl e ↦ subst (Free after) (==→eq i j e) (
            rw (==_refl i) refl,
            rw (==_refl i) refl,
            rw (==_refl k) (mem-append_right (s.free_queue k) mem-cons_self),
          )
          | inr e ↦
              let old = f.free j (earlier i j hj (ne_of_test i j e)) in
              (
                rw (e) old.0,
                rw (e) old.1,
                elim (Bool-cases (k == j % num_free)) [
                  | inl q ↦ rw (q) (
                      mem-append_left (i ∷ []) (
                        subst (λ x. Mem j (s.free_queue x)) (sym (==→eq k (j % num_free) q)) old.2))
                  | inr q ↦ rw (q) old.2
                ],
              )
        ];
      },
    )

free_inodes-Filling :
    (n i : ℕ) (s : Pool)
    → i + n ≡ s.max_inode_entry
    → Filling i s
    → (after : Pool) × (free_inodes n i s ≡ some after) × Filling s.max_inode_entry after
unfolding free_inodes
free_inodes-Filling zero i s h f = (s, refl, subst (λ x. Filling x s) (omega (arith, h)) f)
free_inodes-Filling (suc n) i s h f =
    let (mid, eq, max, g) = free_inode-Filling i s (omega (arith, h)) f in
    let (after, done, all) = free_inodes-Filling n (suc i) mid (omega (arith, h, max)) g in
    (after, rw (eq) done, subst (λ x. Filling x after) max all)

-- What the loop over the volumes has freed, and what it leaves alone.
pub record Volumes (v : ℕ) (s t : Pool) : Type 0 where
  pub same_max : t.max_inode_entry ≡ s.max_inode_entry
  pub same_volumes : t.max_volume_entry ≡ s.max_volume_entry
  pub same_queues : t.free_queue ≡ s.free_queue
  pub queue_length : length t.volume_free ≡ v
  pub first : 0 < v → (rest : List ℕ) × (t.volume_free ≡ 0 ∷ rest)
  pub free_vids : (w : ℕ) → w < v → (t.volume_table w).vid ≡ 2 ^ 32 - 1
  pub spares : (w : ℕ) → (t.volume_table w).spare_block ≡ (s.volume_table w).spare_block
  pub same_inodes : t.inode_table ≡ s.inode_table
  pub same_dirty : t.dirty_queue ≡ s.dirty_queue
  pub same_sync : t.sync_queue ≡ s.sync_queue
  pub same_clean : t.clean_queue ≡ s.clean_queue
  pub same_inuse : t.volume_inuse ≡ s.volume_inuse
  pub same_size : t.block_size ≡ s.block_size
  pub same_count : t.inode_free_count ≡ s.inode_free_count

abbrev freed_volume : ℕ → Pool → Pool
freed_volume v t = record t {
  volume_table = update t.volume_table v (record (t.volume_table v) { vid = 2 ^ 32 - 1 });
  volume_free = t.volume_free ++ (v ∷ []);
}

freed_first :
    (v : ℕ) (xs : List ℕ)
    → length xs ≡ v
    → (0 < v → (rest : List ℕ) × (xs ≡ 0 ∷ rest))
    → (rest : List ℕ) × (xs ++ (v ∷ []) ≡ 0 ∷ rest)
freed_first v [] len h = ([], ap (λ x. x ∷ []) (sym len))
freed_first v (x ∷ xs) len h =
    let (rest, e) = h (omega (arith, len)) in (rest ++ (v ∷ []), ap (λ q. q ++ (v ∷ [])) e)

freed_volume-Volumes : (v : ℕ) (s t : Pool) → Volumes v s t → Volumes (suc v) s (freed_volume v t)
freed_volume-Volumes v s t r = record {
  same_max = r.same_max;
  same_volumes = r.same_volumes;
  same_queues = r.same_queues;
  queue_length = omega (arith, r.queue_length, length-append t.volume_free (v ∷ []));
  first = λ h. freed_first v t.volume_free r.queue_length r.first;
  free_vids = λ w h. elim (Bool-cases (v == w)) [
    | inl e ↦ rw (e) refl
    | inr e ↦ rw (e) (r.free_vids w (earlier v w h (ne_of_test v w e)))
  ];
  spares = λ w. update_field (λ x. x.spare_block) t.volume_table v _ refl w ∙ r.spares w;
  same_inodes = r.same_inodes;
  same_dirty = r.same_dirty;
  same_sync = r.same_sync;
  same_clean = r.same_clean;
  same_inuse = r.same_inuse;
  same_size = r.same_size;
  same_count = r.same_count;
}

pub free_volumes-Volumes :
    (n v : ℕ) (s t : Pool)
    → Volumes v s t
    → v + n ≡ s.max_volume_entry
    → (after : Pool) × (free_volumes n v t ≡ some after) × Volumes s.max_volume_entry s after
unfolding free_volumes free_volume
free_volumes-Volumes zero v s t r h = (t, refl, subst (λ x. Volumes x s t) (omega (arith, h)) r)
free_volumes-Volumes (suc n) v s t r h =
    let (after, done, all) =
      free_volumes-Volumes n (suc v) s (freed_volume v t) (freed_volume-Volumes v s t r)
        (omega (arith, h)) in
    (
      after,
      rw
          (lt→ltb (length t.volume_free) t.max_volume_entry
            (omega (arith, r.queue_length, r.same_volumes, h)))
          done,
      all,
    )

pub none-Volumes : (s : Pool) → length s.volume_free ≡ 0 → Volumes 0 s s
none-Volumes s e = record {
  same_max = refl;
  same_volumes = refl;
  same_queues = refl;
  queue_length = e;
  first = λ h. absurd (omega (arith, h));
  free_vids = λ w h. absurd (omega (arith, h));
  spares = λ w. refl;
  same_inodes = refl;
  same_dirty = refl;
  same_sync = refl;
  same_clean = refl;
  same_inuse = refl;
  same_size = refl;
  same_count = refl;
}

-- The start returns, whatever the state before. Then every inode is free, not locked,
-- and in its queue of free inodes.
pub system_init_lem :
    (s : Pool)
    → (after : Pool) × (system_init s ≡ some after)
      × ((i : ℕ) → i < s.max_inode_entry → Free after i)
unfolding system_init new_queues
system_init_lem s =
    let fresh = new_queues s in
    let (mid, eq, v) =
      free_volumes-Volumes s.max_volume_entry 0 fresh fresh (none-Volumes fresh refl)
        (omega arith) in
    let (after, done, f) = free_inodes-Filling mid.max_inode_entry 0 mid (omega arith) (record {
      short = λ k. subst (λ q. length (q k) ≤ 0) (sym v.same_queues) (omega arith);
      free = λ j h. absurd (omega arith);
    }) in
    (after, rw (eq) done, λ i h. f.free i (omega (arith, h, v.same_max)))
