-- ===== src/Pool/Sync/Handover.antt =====
-- nvm_sync of src/nvm0sync.cc returns, and hands every inode of its queue over.
use native.Mathlib.Nat.{mod-eq_of_lt}
use mathlib.Core.List.{Mem, mem-cons_self, mem-append_left, mem-append_right}
use autobahn_app.Prelude.{
  ℕ, zero, suc, ◌+◌, ◌%◌, ◌^◌, ◌≤◌, ◌<◌, ◌≡◌, refl, sym, subst, inl, inr, false, some, List, [],
  ◌∷◌, ◌++◌, length, length-append, All, ◌==◌, Bool-cases, ==_refl, ==→eq, lt→ltb, arith,
}
use autobahn_app.LfQueue.{u64, update}
use autobahn_app.Pool.{state_clean, Inode, Pool, sync_all, num_balloon}
use autobahn_app.Pool.Sync.{sync_one, sync_loop, nvm_sync}

-- Each clean queue can take `n` inodes more.
abbrev pub Room : ℕ → Pool → Type 0
Room n s = (k : ℕ) → length (s.clean_queue k) + n ≤ s.max_inode_entry

-- The inode is marked clean, and is in a queue of a balloon thread.
abbrev pub Handed : Pool → ℕ → Type 0
Handed s i =
    ((s.inode_table i).state ≡ state_clean)
    × ((k : ℕ) × (k < num_balloon) × Mem i (s.clean_queue k))

-- One round: `idx` is the inode that was first.
record Round (index : ℕ) (s : Pool) (idx : ℕ) (rest : List ℕ) (n : ℕ) (after : Pool) : Type 0 where
  left : after.sync_queue index ≡ rest
  room : Room n after
  handed : Handed after idx
  keeps : (i : ℕ) → Handed s i → Handed after i

sync_one-Round :
    (index n : ℕ) (s : Pool) (idx : ℕ) (rest : List ℕ)
    → s.sync_queue index ≡ idx ∷ rest
    → Room (suc n) s
    → (after : Pool) × (sync_one index s ≡ some after) × Round index s idx rest n after
unfolding sync_one
sync_one-Round index n s idx rest q room =
    let inode : Inode = record (s.inode_table idx) { state = state_clean; locked = false } in
    let k = s.clean_queue_idx % num_balloon in
    let queue = s.clean_queue k ++ (idx ∷ []) in
    (
      record s {
        sync_queue = update s.sync_queue index rest;
        inode_table = update s.inode_table idx inode;
        clean_queue = update s.clean_queue k queue;
        clean_queue_idx = u64 (s.clean_queue_idx + 1);
      },
      rw (q)
          (rw (lt→ltb (length (s.clean_queue k)) s.max_inode_entry (omega (arith, room k))) refl),
      record {
        left = rw (==_refl index) refl;
        room = λ j. elim (Bool-cases (k == j)) [
          | inl e ↦ rw (e) (omega (arith, room k, length-append (s.clean_queue k) (idx ∷ [])))
          | inr e ↦ rw (e) (omega (arith, room j))
        ];
        handed = (
          rw (==_refl idx) refl,
          (k, omega arith, rw (==_refl k) (mem-append_right (s.clean_queue k) mem-cons_self)),
        );
        keeps = λ i h. (
          elim (Bool-cases (idx == i)) [ inl e ↦ rw (e) refl | inr e ↦ rw (e) h.0 ],
          (
            h.1.0,
            h.1.1,
            elim (Bool-cases (k == h.1.0)) [
              | inl e ↦ rw (e) (
                  mem-append_left (idx ∷ [])
                    (subst (λ j. Mem i (s.clean_queue j)) (sym (==→eq k h.1.0 e)) h.1.2))
              | inr e ↦ rw (e) h.1.2
            ],
          ),
        );
      },
    )

-- The loop hands over the first `n` inodes of the queue, when every clean queue has room for them.
sync_loop_lem :
    (n index : ℕ) (s : Pool) (idxs : List ℕ)
    → s.sync_queue index ≡ idxs
    → length idxs ≡ n
    → Room n s
    → (after : Pool) × (sync_loop n index s ≡ some after)
      × (after.sync_queue index ≡ [])
      × All (Handed after) idxs
      × ((i : ℕ) → Handed s i → Handed after i)
unfolding sync_loop
sync_loop_lem zero index s [] q len room = (s, refl, q, tt, λ i h. h)
sync_loop_lem zero index s (idx ∷ idxs) q len room = absurd (omega arith)
sync_loop_lem (suc n) index s [] q len room = absurd (omega arith)
sync_loop_lem (suc n) index s (idx ∷ idxs) q len room =
    let (mid, eq, r) = sync_one-Round index n s idx idxs q room in
    let (after, done, empty, all, still) =
      sync_loop_lem n index mid idxs r.left (omega (arith, len)) r.room in
    (after, rw (eq) done, empty, (still idx r.handed, all), λ i h. still i (r.keeps i h))

-- A call of nvm_sync returns when each clean queue has room for the inodes of the syncer's queue,
-- whose length fits a uint32_t. Then that queue is empty, and each inode that was in it, or that
-- was handed over before, is marked clean and is in a queue of a balloon thread.
pub nvm_sync_lem :
    (index : ℕ) (s : Pool)
    → Room (length (s.sync_queue index)) s
    → length (s.sync_queue index) < 2 ^ 32
    → (after : Pool) × (nvm_sync index s ≡ some after)
      × (after.sync_queue index ≡ [])
      × All (Handed after) (s.sync_queue index)
      × ((i : ℕ) → Handed s i → Handed after i)
unfolding nvm_sync
nvm_sync_lem index s room fits = rw (mod-eq_of_lt fits) (
    sync_loop_lem (length (s.sync_queue index)) index (record s { io = s.io ++ (sync_all ∷ []) })
      (s.sync_queue index) refl refl room)
