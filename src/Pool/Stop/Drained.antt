-- ===== src/Pool/Stop/Drained.antt =====
-- nvm_system_close of src/nvm0nvm.cc writes all that the dirty queues hold.
use mathlib.Core.List.{map}
use autobahn_app.Prelude.{
  ℕ, zero, suc, ◌+◌, ◌*◌, ◌≤◌, ◌<◌, ◌≡◌, ◌≢◌, ◌∙◌, ◌⊎◌, refl, sym, ap, ap₂, inl, inr, List, [], ◌∷◌,
  ◌++◌, append_assoc, append-nil, ==_refl, test_of_ne, if◌then◌else◌, arith,
}
use autobahn_app.LfQueue.{update}
use autobahn_app.Pool.{state_clean, Inode, Pool, Io, write_at, sync_all, block_data}
use autobahn_app.Pool.Recovery.{sync_and_clean}
use autobahn_app.Pool.Recovery.Correct.{
  is_due, needs_write-is_due, clean_loop-io, clean_loop-dirty_queue, clean_loop-state,
}
use autobahn_app.Pool.Stop.{close_write, drain, drain_all, close_flush}

-- The write of the block of an inode to the open file of its volume.
abbrev pub file_write : Pool → ℕ → Io
file_write s i =
    let inode = s.inode_table i in
    write_at (s.volume_table inode.volume).fd (s.block_size * inode.lbn)
      (block_data s inode.block_index ∷ [])

-- One write for each place in the queues, queue by queue: of `n` queues from v on.
unfoldable pub queued_writes : (write : ℕ → Io) → (queue : ℕ → List ℕ) → (n v : ℕ) → List Io
queued_writes write queue zero v = []
queued_writes write queue (suc n) v = map write (queue v) ++ queued_writes write queue n (suc v)

queued_writes-same :
    (write : ℕ → Io) (queue other : ℕ → List ℕ) (n v : ℕ)
    → ((w : ℕ) → v ≤ w → other w ≡ queue w)
    → queued_writes write other n v ≡ queued_writes write queue n v
unfolding queued_writes
queued_writes-same write queue other zero v h = refl
queued_writes-same write queue other (suc n) v h =
    ap₂ ◌++◌ (ap (map write) (h v (omega arith)))
      (queued_writes-same write queue other n (suc v) (λ w k. h w (omega (arith, k))))

-- The loop over a queue makes the writes of the queue, and leaves the inodes.
record Drains (s : Pool) (w : List Io) (t : Pool) : Type 0 where
  io : t.io ≡ s.io ++ w
  writes : file_write t ≡ file_write s
  inodes : t.inode_table ≡ s.inode_table
  max : t.max_inode_entry ≡ s.max_inode_entry

drain-Drains :
    (v : ℕ) (idxs : List ℕ) (s : Pool) → Drains s (map (file_write s) idxs) (drain v idxs s)
unfolding drain close_write block_data
drain-Drains v [] s = record {
  io = sym (append-nil s.io);
  writes = refl;
  inodes = refl;
  max = refl;
}
drain-Drains v (idx ∷ idxs) s =
    let next : Pool = record s {
      dirty_queue = update s.dirty_queue v idxs;
      io = s.io ++ (close_write s idx ∷ []);
    } in
    let rest = drain-Drains v idxs next in
    record {
      io = rest.io ∙ append_assoc s.io (close_write s idx ∷ []) (map (file_write s) idxs);
      writes = rest.writes;
      inodes = rest.inodes;
      max = rest.max;
    }

drain-other :
    (v w : ℕ) (idxs : List ℕ) (s : Pool) → v ≢ w → (drain v idxs s).dirty_queue w ≡ s.dirty_queue w
unfolding drain
drain-other v w [] s ne = refl
drain-other v w (idx ∷ idxs) s ne = drain-other v w idxs _ ne ∙ rw (test_of_ne v w ne) refl

drain-empty :
    (v : ℕ) (idxs : List ℕ) (s : Pool)
    → s.dirty_queue v ≡ idxs
    → (drain v idxs s).dirty_queue v ≡ []
unfolding drain
drain-empty v [] s q = q
drain-empty v (idx ∷ idxs) s q = drain-empty v idxs _ (rw (==_refl v) refl)

drain_all-Drains :
    (n v : ℕ) (s : Pool)
    → Drains s (queued_writes (file_write s) s.dirty_queue n v) (drain_all n v s)
unfolding drain_all queued_writes
drain_all-Drains zero v s = record {
  io = sym (append-nil s.io);
  writes = refl;
  inodes = refl;
  max = refl;
}
drain_all-Drains (suc n) v s =
    let mid = drain v (s.dirty_queue v) s in
    let first = drain-Drains v (s.dirty_queue v) s in
    let rest = drain_all-Drains n (suc v) mid in
    let later = queued_writes (file_write s) s.dirty_queue n (suc v) in
    record {
      io =
          rest.io
          ∙ ap₂ ◌++◌ first.io (
              ap (λ f. queued_writes f mid.dirty_queue n (suc v)) first.writes
              ∙ queued_writes-same (file_write s) s.dirty_queue mid.dirty_queue n (suc v)
                  (λ w h. drain-other v w (s.dirty_queue v) s (omega (arith, h))))
          ∙ append_assoc s.io (map (file_write s) (s.dirty_queue v)) later;
      writes = rest.writes ∙ first.writes;
      inodes = rest.inodes ∙ first.inodes;
      max = rest.max ∙ first.max;
    }

drain_all-below : (n v w : ℕ) (s : Pool) → w < v → (drain_all n v s).dirty_queue w ≡ s.dirty_queue w
unfolding drain_all
drain_all-below zero v w s h = refl
drain_all-below (suc n) v w s h =
    drain_all-below n (suc v) w _ (omega (arith, h))
    ∙ drain-other v w (s.dirty_queue v) s (omega (arith, h))

here_or_later : (a b : ℕ) → a ≤ b → (a ≡ b) ⊎ (suc a ≤ b)
here_or_later a b h = ground arith

drain_all-empty : (n v w : ℕ) (s : Pool) → v ≤ w → w < v + n → (drain_all n v s).dirty_queue w ≡ []
unfolding drain_all
drain_all-empty zero v w s h k = absurd (omega arith)
drain_all-empty (suc n) v w s h k =
    let mid = drain v (s.dirty_queue v) s in
    elim (here_or_later v w h) [
      | inl e ↦
          ap (drain_all n (suc v) mid).dirty_queue (sym e)
          ∙ drain_all-below n (suc v) v mid (omega arith)
          ∙ drain-empty v (s.dirty_queue v) s refl
      | inr later ↦ drain_all-empty n (suc v) w mid later (omega (arith, k))
    ]

-- The flush of nvm_system_close makes exactly these calls, in this order: for each volume of the table
-- and each inode in its dirty queue a write of the block of the inode, at the byte offset of its block
-- number in the open file of its volume; and then two sync(). Afterwards the dirty queue of each volume
-- is empty, each inode of the table that was dirty or sync is clean, and any other has the state that
-- it had.
pub close_flush_lem :
    (s : Pool)
    → ((close_flush s).io
        ≡ s.io
          ++ queued_writes (file_write s) s.dirty_queue s.max_volume_entry 0
          ++ (sync_all ∷ sync_all ∷ []))
      × ((v : ℕ) → v < s.max_volume_entry → (close_flush s).dirty_queue v ≡ [])
      × ((i : ℕ)
          → i < s.max_inode_entry
          → ((close_flush s).inode_table i).state
            ≡ (if is_due (s.inode_table i).state then state_clean else (s.inode_table i).state))
unfolding close_flush sync_and_clean
close_flush_lem s =
    let t = drain_all s.max_volume_entry 0 s in
    let d = drain_all-Drains s.max_volume_entry 0 s in
    let synced : Pool = record t { io = t.io ++ (sync_all ∷ sync_all ∷ []) } in
    (
      clean_loop-io t.max_inode_entry 0 synced ∙ ap (λ l. l ++ (sync_all ∷ sync_all ∷ [])) d.io,
      (λ v h.
          ap (λ q. q v) (clean_loop-dirty_queue t.max_inode_entry 0 synced)
          ∙ drain_all-empty s.max_volume_entry 0 v s (omega arith) (omega (arith, h))),
      λ i h.
          clean_loop-state t.max_inode_entry 0 synced i (omega arith) (omega (arith, h, d.max))
          ∙ ap (λ t. if t then state_clean else (synced.inode_table i).state)
              (needs_write-is_due (synced.inode_table i).state)
          ∙ ap (λ (f : ℕ → Inode). if is_due (f i).state then state_clean else (f i).state)
              d.inodes,
    )
