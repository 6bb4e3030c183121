-- ===== src/Pool/Flush/Passed.antt =====
-- The second loop of nvm_flush (src/nvm0flush.cc) ends, and passes every inode on to a syncer.
use mathlib.Core.List.{Mem, mem-cons_self, mem-append_left, mem-append_right}
use autobahn_app.Prelude.{
  ℕ, zero, suc, ◌+◌, ◌-◌, ◌*◌, ◌%◌, ◌^◌, ◌≤◌, ◌<◌, ◌≡◌, ◌∙◌, refl, sym, ap, subst, inl, inr, Bool,
  true, some, List, [], ◌∷◌, ◌++◌, length, length-append, All, All-imp, All-append, ◌==◌,
  Bool-cases, ==_refl, ==→eq, lt→ltb, leb, leb→le, arith,
}
use autobahn_app.LfQueue.{u32, u64, update}
use autobahn_app.Pool.{
  state_sync, Inode, Pool, Io, write_at, stat_file, num_syncer, flush_batch_size,
}
use autobahn_app.Pool.Flush.{
  look_ahead, gather, pass_on, pass_all, get_filesizes, write_batch, write_loop, flush_size,
  take_loop, nvm_flush,
}
use autobahn_app.Pool.Flush.Take.{Taken, take_loop_lem}
use autobahn_app.Pool.Flush.Runs.{look_ahead_lem}

-- Each queue of a syncer can take `n` inodes more.
abbrev pub SyncRoom : ℕ → Pool → Type 0
SyncRoom n s = (k : ℕ) → length (s.sync_queue k) + n ≤ s.max_inode_entry

-- The inode waits for a syncer.
abbrev pub Passed : Pool → ℕ → Type 0
Passed s i =
    ((s.inode_table i).state ≡ state_sync) × ((k : ℕ) × (k < num_syncer) × Mem i (s.sync_queue k))

pass_on-Passed :
    (n idx : ℕ) (s : Pool)
    → SyncRoom (suc n) s
    → (after : Pool) × (pass_on idx s ≡ some after)
      × SyncRoom n after
      × Passed after idx
      × ((i : ℕ) → Passed s i → Passed after i)
unfolding pass_on
pass_on-Passed n idx s room =
    let inode : Inode = record (s.inode_table idx) { state = state_sync } in
    let k = s.sync_queue_idx % num_syncer in
    let queue = s.sync_queue k ++ (idx ∷ []) in
    (
      record s {
        inode_dirty_count = u32 (s.inode_dirty_count + 2 ^ 32 - 1);
        inode_table = update s.inode_table idx inode;
        sync_queue = update s.sync_queue k queue;
        sync_queue_idx = u64 (s.sync_queue_idx + 1);
      },
      rw (lt→ltb (length (s.sync_queue k)) s.max_inode_entry (omega (arith, room k))) refl,
      (λ j. elim (Bool-cases (k == j)) [
        | inl e ↦ rw (e) (omega (arith, room k, length-append (s.sync_queue k) (idx ∷ [])))
        | inr e ↦ rw (e) (omega (arith, room j))
      ]),
      (
        rw (==_refl idx) refl,
        (k, omega arith, rw (==_refl k) (mem-append_right (s.sync_queue k) mem-cons_self)),
      ),
      λ i h. (
        elim (Bool-cases (idx == i)) [ inl e ↦ rw (e) refl | inr e ↦ rw (e) h.0 ],
        (
          h.1.0,
          h.1.1,
          elim (Bool-cases (k == h.1.0)) [
            | inl e ↦ rw (e) (
                mem-append_left (idx ∷ [])
                  (subst (λ j. Mem i (s.sync_queue j)) (sym (==→eq k h.1.0 e)) h.1.2))
            | inr e ↦ rw (e) h.1.2
          ],
        ),
      ),
    )

pass_all-Passed :
    (n : ℕ) (idxs : List ℕ) (s : Pool)
    → SyncRoom (length idxs + n) s
    → (after : Pool) × (pass_all idxs s ≡ some after)
      × SyncRoom n after
      × All (Passed after) idxs
      × ((i : ℕ) → Passed s i → Passed after i)
unfolding pass_all
pass_all-Passed n [] s room = (s, refl, (λ k. omega (arith, room k)), tt, λ i h. h)
pass_all-Passed n (idx ∷ idxs) s room =
    let (mid, eq, more, here, kept) =
      pass_on-Passed (length idxs + n) idx s (λ k. omega (arith, room k)) in
    let (after, done, left, all, still) = pass_all-Passed n idxs mid more in
    (after, rw (eq) done, left, (still idx here, all), λ i h. still i (kept i h))

-- The sizes are there when the system answers every call.
get_filesizes_lem :
    (accepts : Io → Bool) (vid : ℕ) (idxs : List ℕ)
    → ((call : Io) → accepts call ≡ true)
    → get_filesizes accepts vid idxs ≡ true
get_filesizes_lem accepts vid [] ok = refl
get_filesizes_lem accepts vid (idx ∷ idxs) ok =
    rw (ok (stat_file vid)) (get_filesizes_lem accepts vid idxs ok)

-- The loop returns when the system does all that it is asked to and each queue of a syncer has
-- room for the inodes, on fuel for one round more than there are inodes. Then each of them is marked
-- sync and waits for a syncer.
pub write_loop_lem :
    (fuel : ℕ) (accepts : Io → Bool) (v_idx : ℕ) (idxs : List ℕ) (s : Pool)
    → length idxs < fuel
    → ((call : Io) → accepts call ≡ true)
    → SyncRoom (length idxs) s
    → (after : Pool) × (write_loop fuel accepts v_idx idxs s ≡ some after)
      × All (Passed after) idxs
      × ((i : ℕ) → Passed s i → Passed after i)
unfolding write_loop write_batch
write_loop_lem zero accepts v_idx idxs s h ok room = absurd (omega arith)
write_loop_lem (suc fuel) accepts v_idx [] s h ok room = (s, refl, tt, λ i p. p)
write_loop_lem (suc fuel) accepts v_idx (idx ∷ idxs) s h ok room =
    let batch = look_ahead s (s.inode_table idx).lbn idxs in
    let start = s.inode_table idx in
    let call =
      write_at (s.volume_table start.volume).fd (s.block_size * start.lbn)
        (gather s (idx ∷ batch.0)) in
    let whole = (look_ahead_lem s (s.inode_table idx).lbn idxs).0 in
    let count : length batch.0 + length batch.1 ≡ length idxs =
      sym (length-append batch.0 batch.1) ∙ ap length whole in
    let (mid, eq, left, some_passed, kept) =
      pass_all-Passed (length batch.1) (idx ∷ batch.0) (record s { io = s.io ++ (call ∷ []) })
        (λ k. omega (arith, room k, count)) in
    let (after, done, all, still) =
      write_loop_lem fuel accepts v_idx batch.1 mid (omega (arith, h, count)) ok left in
    (
      after,
      rw (get_filesizes_lem accepts (s.volume_table v_idx).vid (idx ∷ batch.0) ok, ok call)
          (rw (eq) done),
      (
        still idx some_passed.0,
        subst (λ l. All (Passed after) l) whole
            (All-append (Passed after) batch.0 batch.1 (All-imp batch.0 still some_passed.1) all),
      ),
      λ i p. still i (kept i p),
    )

room_left :
    (k : ℕ) (s mid : Pool) (m n : ℕ)
    → length (s.sync_queue k) + n ≤ s.max_inode_entry
    → mid.sync_queue ≡ s.sync_queue
    → mid.max_inode_entry ≡ s.max_inode_entry
    → m ≤ n
    → length (mid.sync_queue k) + m ≤ mid.max_inode_entry
room_left k s mid m n room same max h =
    let e : length (mid.sync_queue k) ≡ length (s.sync_queue k) = ap (λ q. length (q k)) same in
    omega (arith, room, e, max, h)

batch_size : (d : ℕ) → flush_size d ≤ d
batch_size d = elim (Bool-cases (leb flush_batch_size d)) [
  | inl e ↦ rw (e) (leb→le flush_batch_size d e)
  | inr e ↦ rw (e) (omega arith)
]

-- A call of nvm_flush returns when the dirty queue holds some inodes and no more than there are,
-- every call of the system succeeds, stat() of the volume's file and pwritev alike, and each queue
-- of a syncer has room for the dirty inodes. Its first loop takes inodes out of the queue: one less
-- than it holds and no more than a batch, or fewer and then an inode that stays in the queue is
-- locked. The inodes that it takes are marked sync at the end and wait for a syncer.
pub nvm_flush_lem :
    (accepts : Io → Bool) (v_idx : ℕ) (s : Pool)
    → 0 < length (s.dirty_queue v_idx)
    → length (s.dirty_queue v_idx) ≤ s.max_inode_entry
    → ((call : Io) → accepts call ≡ true)
    → SyncRoom (length (s.dirty_queue v_idx)) s
    → (idxs : List ℕ) × (mid : Pool) × (after : Pool) × (take_loop
          (suc (flush_size (length (s.dirty_queue v_idx) - 1) + (length (s.dirty_queue v_idx) - 1)))
          (flush_size (length (s.dirty_queue v_idx) - 1))
          (length (s.dirty_queue v_idx) - 1)
          v_idx
          s
        ≡ some (idxs, mid))
      × (nvm_flush accepts v_idx s ≡ some after)
      × Taken (flush_size (length (s.dirty_queue v_idx) - 1)) v_idx s idxs mid
      × All (Passed after) idxs
unfolding nvm_flush
nvm_flush_lem accepts v_idx s h k ok room =
    let dirty = length (s.dirty_queue v_idx) - 1 in
    let size = flush_size dirty in
    let small : size ≤ dirty = batch_size dirty in
    let (idxs, mid, eq, t) =
      take_loop_lem (suc (size + dirty)) size dirty v_idx s (omega arith) (omega (arith, small))
        k in
    let (after, done, all, still) =
      write_loop_lem (suc (length idxs)) accepts v_idx idxs mid (omega arith) ok (λ q.
        room_left q s mid (length idxs) (length (s.dirty_queue v_idx)) (room q) t.syncers t.max
          (omega (arith, t.no_less))) in
    (idxs, mid, after, eq, rw (eq) done, t, all)
