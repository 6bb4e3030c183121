-- ===== src/Pool/Sync.antt =====
-- nvm_sync of src/nvm0sync.cc: one storage barrier, then every inode that was in the syncer's
-- queue at the start goes to a queue of clean inodes.
pub mod Handover
use autobahn_app.Prelude.{
  ℕ, zero, suc, ◌+◌, ◌%◌, ◌≤◌, ◌<◌, ◌≡◌, ◌≢◌, ◌∙◌, refl, sym, ap, subst, Bool, true, false, Option,
  none, some, List, [], ◌∷◌, ◌++◌, length, ◌>>=◌, arith,
}
use autobahn_app.LfQueue.{u64, u32, update}
use autobahn_app.Pool.{InodeState, state_clean, Inode, Pool, sync_all, push, pop, num_balloon}

-- One round of the loop.
unfoldable pub sync_one : (index : ℕ) → Pool → Option Pool
sync_one index s = pop (s.sync_queue index) >>= λ taken.
    let idx = taken.0 in
    let inode : Inode = record (s.inode_table idx) { state = state_clean; locked = false } in
    let k = s.clean_queue_idx % num_balloon in
    push s.max_inode_entry (s.clean_queue k) idx >>= λ queue. some (record s {
      sync_queue = update s.sync_queue index taken.1;
      inode_table = update s.inode_table idx inode;
      clean_queue = update s.clean_queue k queue;
      clean_queue_idx = u64 (s.clean_queue_idx + 1);
    })

unfoldable pub sync_loop : (n index : ℕ) → Pool → Option Pool
sync_loop zero index s = some s
sync_loop (suc n) index s = sync_one index s >>= sync_loop n index

unfoldable pub nvm_sync : (index : ℕ) → Pool → Option Pool
nvm_sync index s =
    sync_loop (u32 (length (s.sync_queue index))) index (record s { io = s.io ++ (sync_all ∷ []) })
