-- ===== src/Buffer/Stored.antt =====
-- The write to an inode under its lock, in nvm_durable_write of src/nvm0write.cc: the inode becomes
-- dirty and queued, its block starts with the data, and all else keeps its meaning.
use mathlib.Core.List.{Mem, mem-cons_self, mem-append_left, mem-append_right}
use autobahn_app.Prelude.{
  ◌^◌, none-some, ℕ, ◌+◌, ◌≤◌, ◌<◌, ◌≡◌, ◌≢◌, ◌⊎◌, ◌∙◌, refl, sym, ap, subst, inl, inr, true, false,
  some, [], ◌∷◌, ◌++◌, length, length-append, ◌==◌, Bool-cases, ==_refl, ==→eq, test_of_ne, lt→ltb,
  ltb, ltb→lt, arith,
}
use autobahn_app.LfQueue.{u32, update}
use autobahn_app.Pool.{
  InodeState, state_free, state_dirty, state_sync, state_clean, Pool, block_data,
}
use autobahn_app.Pool.Blocks.{IsDealt, write_data, update_field}
use autobahn_app.Pool.Blocks.Owned.{write_data_lem}
use autobahn_app.Buffer.{is_dirty, write_inode, get_inode_entry_idx_from_hash}
use autobahn_app.Buffer.Wf.{data_of}

-- What the write leaves and changes.
pub record Written (s : Pool) (v idx : ℕ) (buf : ℕ → ℕ) (count : ℕ) (after : Pool) : Type 0 where
  pub sizes :
      (after.max_inode_entry ≡ s.max_inode_entry)
      × (after.max_volume_entry ≡ s.max_volume_entry)
      × (after.block_size ≡ s.block_size)
  pub lbns : (i : ℕ) → (after.inode_table i).lbn ≡ (s.inode_table i).lbn
  pub volumes : (i : ℕ) → (after.inode_table i).volume ≡ (s.inode_table i).volume
  pub dirty : (after.inode_table idx).state ≡ state_dirty
  pub states : (i : ℕ) → idx ≢ i → (after.inode_table i).state ≡ (s.inode_table i).state
  pub free_queues : after.free_queue ≡ s.free_queue
  pub free_count : after.inode_free_count ≡ s.inode_free_count
  pub locks : (i : ℕ) → (after.inode_table i).locked ≡ (s.inode_table i).locked
  pub queue_length : length (after.dirty_queue v) ≤ length (s.dirty_queue v) + 1
  pub queued : ((s.inode_table idx).state ≡ state_dirty) ⊎ Mem idx (after.dirty_queue v)
  pub queue_change :
      ((is_dirty (s.inode_table idx).state ≡ true) × (after.dirty_queue ≡ s.dirty_queue))
      ⊎ ((is_dirty (s.inode_table idx).state ≡ false)
          × (after.dirty_queue ≡ update s.dirty_queue v (s.dirty_queue v ++ (idx ∷ []))))
  pub sync_queues : after.sync_queue ≡ s.sync_queue
  pub clean_queues : after.clean_queue ≡ s.clean_queue
  pub stay : (w i : ℕ) → Mem i (s.dirty_queue w) → Mem i (after.dirty_queue w)
  pub dealt : IsDealt after
  pub stored : (j : ℕ) → j < count → data_of after idx j ≡ buf j
  pub others :
      (i j : ℕ)
      → i < s.max_inode_entry
      → idx ≢ i
      → j < s.block_size
      → data_of after i j ≡ data_of s i j

pub dirty_of_test : (st : InodeState) → is_dirty st ≡ true → st ≡ state_dirty
dirty_of_test state_free h = cc
dirty_of_test state_dirty h = refl
dirty_of_test state_sync h = cc
dirty_of_test state_clean h = cc

-- The write needs the lock, and room in the dirty queue of the volume.
-- Below 2 ^ 26 the index is the one of the inode.
pub get_inode_entry_idx_from_hash_lem : (i : ℕ) → i < 2 ^ 26 → get_inode_entry_idx_from_hash i ≡ i
unfolding get_inode_entry_idx_from_hash
get_inode_entry_idx_from_hash_lem i h = omega (arith, h)

pub record Ready (s : Pool) (v idx count : ℕ) : Type 0 where
  pub dealt : IsDealt s
  pub idx_in : idx < s.max_inode_entry
  pub v_in : v < s.max_volume_entry
  pub same_volume : (s.inode_table idx).volume ≡ v
  pub unlocked : (s.inode_table idx).locked ≡ false
  pub room :
      is_dirty (s.inode_table idx).state ≡ false → length (s.dirty_queue v) < s.max_inode_entry
  pub fits : count ≤ s.block_size
  pub same_index : get_inode_entry_idx_from_hash idx ≡ idx

module _ (s : Pool) (v idx offset : ℕ) (buf : ℕ → ℕ) (count : ℕ) (ready : Ready s v idx count) where
  abbrev marked : Pool
  marked = record s {
    inode_table = update s.inode_table idx (record (s.inode_table idx) { state = state_dirty });
  }

  marked_block : (i : ℕ) → (marked.inode_table i).block_index ≡ (s.inode_table i).block_index
  marked_block i = update_field (λ x. x.block_index) s.inode_table idx _ refl i

  marked-IsDealt : IsDealt marked
  marked-IsDealt = record {
    inodes_apart = λ i j hi hj ne e.
        ready.dealt.inodes_apart i j hi hj ne (sym (marked_block i) ∙ e ∙ marked_block j);
    volumes_apart = ready.dealt.volumes_apart;
    spare_apart = λ i w hi hw e. ready.dealt.spare_apart i w hi hw (sym (marked_block i) ∙ e);
  }

  marked_volume : (marked.inode_table idx).volume ≡ v
  marked_volume = update_field (λ x. x.volume) s.inode_table idx _ refl idx ∙ ready.same_volume

  abbrev copied : Pool
  copied = write_data marked idx offset buf count

  -- The pool without the end of the round.
  record Copied (after : Pool) : Type 0 where
    lbns : (i : ℕ) → (after.inode_table i).lbn ≡ (s.inode_table i).lbn
    locks : (i : ℕ) → (after.inode_table i).locked ≡ (s.inode_table i).locked
    volumes : (i : ℕ) → (after.inode_table i).volume ≡ (s.inode_table i).volume
    dirty : (after.inode_table idx).state ≡ state_dirty
    states : (i : ℕ) → idx ≢ i → (after.inode_table i).state ≡ (s.inode_table i).state
    dealt : IsDealt after
    stored : (j : ℕ) → j < count → data_of after idx j ≡ buf j
    others :
        (i j : ℕ)
        → i < s.max_inode_entry
        → idx ≢ i
        → j < s.block_size
        → data_of after i j ≡ data_of s i j

  copied-Copied : Copied copied
  unfolding write_data block_data
  copied-Copied =
      let all =
        write_data_lem marked idx offset buf count marked-IsDealt ready.idx_in
          (subst (λ w. w < s.max_volume_entry) (sym marked_volume) ready.v_in) ready.fits in
      record {
        lbns = λ i.
            update_field (λ x. x.lbn) marked.inode_table idx _ refl i
            ∙ update_field (λ x. x.lbn) s.inode_table idx _ refl i;
        locks = λ i.
            update_field (λ x. x.locked) marked.inode_table idx _ refl i
            ∙ update_field (λ x. x.locked) s.inode_table idx _ refl i;
        volumes = λ i.
            update_field (λ x. x.volume) marked.inode_table idx _ refl i
            ∙ update_field (λ x. x.volume) s.inode_table idx _ refl i;
        dirty = rw (==_refl idx) refl;
        states = λ i ne. rw (test_of_ne idx i ne) refl;
        dealt = all.0;
        stored = all.1;
        others = λ i j hi ne hj. all.2 i j hi ne hj ∙ ap (λ b. block_data s b j) (marked_block i);
      }

  -- The write under the lock returns, and does what `Written` says.
  pub write_inode_lem :
      (after : Pool) × (write_inode v idx offset buf count s ≡ some after)
      × Written s v idx buf count after
  unfolding write_inode write_data block_data
  write_inode_lem =
      let c = copied-Copied in
      elim (Bool-cases (is_dirty (s.inode_table idx).state)) [
        | inl e ↦ (
          copied,
          rw (ready.same_index) (rw (ready.unlocked, e) refl),
          record {
            sizes = (refl, refl, refl);
            lbns = c.lbns;
            volumes = c.volumes;
            dirty = c.dirty;
            states = c.states;
            free_queues = refl;
            free_count = refl;
            locks = c.locks;
            queue_length = omega arith;
            queue_change = inl (e, refl);
            sync_queues = refl;
            clean_queues = refl;
            queued = inl (dirty_of_test (s.inode_table idx).state e);
            stay = λ w i h. h;
            dealt = c.dealt;
            stored = c.stored;
            others = c.others;
          },
        )
        | inr e ↦
            let queue = s.dirty_queue v ++ (idx ∷ []) in
            (
              record copied {
                dirty_queue = update s.dirty_queue v queue;
                inode_dirty_count = u32 (s.inode_dirty_count + 1);
              },
              rw (ready.same_index) (
                  rw (ready.unlocked, e)
                    (rw (lt→ltb (length (s.dirty_queue v)) s.max_inode_entry (ready.room e)) refl)),
              record {
                sizes = (refl, refl, refl);
                lbns = c.lbns;
                volumes = c.volumes;
                dirty = c.dirty;
                states = c.states;
                free_queues = refl;
                free_count = refl;
                locks = c.locks;
                queue_length =
                    rw (==_refl v) (omega (arith, length-append (s.dirty_queue v) (idx ∷ [])));
                queue_change = inr (e, refl);
                sync_queues = refl;
                clean_queues = refl;
                queued = inr (rw (==_refl v) (mem-append_right (s.dirty_queue v) mem-cons_self));
                stay = λ w i h. elim (Bool-cases (v == w)) [
                  | inl t ↦ rw (t) (
                      mem-append_left (idx ∷ [])
                        (subst (λ x. Mem i (s.dirty_queue x)) (sym (==→eq v w t)) h))
                  | inr t ↦ rw (t) h
                ];
                dealt = record {
                  inodes_apart = c.dealt.inodes_apart;
                  volumes_apart = c.dealt.volumes_apart;
                  spare_apart = c.dealt.spare_apart;
                };
                stored = c.stored;
                others = c.others;
              },
            )
      ]

-- What a success of the write tells.
pub write_inode-some :
    (s t : Pool) (v idx offset : ℕ) (buf : ℕ → ℕ) (count : ℕ)
    → write_inode v idx offset buf count s ≡ some t
    → ((s.inode_table idx).locked ≡ false)
      × (is_dirty (s.inode_table idx).state ≡ false → length (s.dirty_queue v) < s.max_inode_entry)
unfolding write_inode write_data
write_inode-some s t v idx offset buf count h = elim (Bool-cases (s.inode_table idx).locked) [
  | inl l ↦ absurd (none-some (rw (l) at h))
  | inr l ↦ (
    l,
    λ e. elim (Bool-cases (ltb (length (s.dirty_queue v)) s.max_inode_entry)) [
      | inl r ↦ ltb→lt (length (s.dirty_queue v)) s.max_inode_entry r
      | inr r ↦ absurd (none-some (rw (l, e, r) at h))
    ],
  )
]
