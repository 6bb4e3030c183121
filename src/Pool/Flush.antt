-- ===== src/Pool/Flush.antt =====
-- src/nvm0flush.cc: nvm_flush takes dirty inodes, locks them, writes runs of consecutive blocks
-- with one call each, and passes the inodes on to the syncers. num_dirty_inodes is never negative,
-- since the caller finds two inodes at least.
pub mod TakeOne
pub mod Take
pub mod Runs
pub mod Passed
use autobahn_app.Prelude.{
  ◌&&◌, ℕ, zero, suc, ◌+◌, ◌-◌, ◌*◌, ◌%◌, ◌^◌, ◌≤◌, ◌<◌, ◌≡◌, Bool, true, false, Option, none, some,
  List, [], ◌∷◌, ◌++◌, length, ltb, leb, ◌==◌, if◌then◌else◌, ◌>>=◌, arith,
}
use autobahn_app.LfQueue.{u64, u32, update}
use autobahn_app.Pool.{
  state_sync, Inode, Volume, Pool, Io, write_at, stat_file, push, pop, num_syncer, flush_batch_size,
  block_data,
}

-- pthread_mutex_trylock on the inode idx: it fails when the inode is locked, and then the inode
-- goes back to the queue, which holds `rest`.
unfoldable pub lock_or_return : (v_idx idx : ℕ) → (rest : List ℕ) → Pool → Option (ℕ × Bool × Pool)
lock_or_return v_idx idx rest s =
    let inode = s.inode_table idx in
    let locked : Inode = record inode { locked = true } in
    let popped : Pool = record s { dirty_queue = update s.dirty_queue v_idx rest } in
    if inode.locked
    then (push s.max_inode_entry rest idx >>= λ queue.
        some (idx, false, record popped { dirty_queue = update popped.dirty_queue v_idx queue }))
    else some (idx, true, record popped { inode_table = update s.inode_table idx locked })

-- One round of the first loop: the inode, and whether it is locked now or back in the queue.
unfoldable pub take_one : (v_idx : ℕ) → Pool → Option (ℕ × Bool × Pool)
take_one v_idx s = pop (s.dirty_queue v_idx) >>= λ taken. lock_or_return v_idx taken.0 taken.1 s

-- The first loop: `left` is write_size - i, `dirty` is num_dirty_inodes, and the answer holds the
-- inodes that are locked. The fuel bounds the rounds.
unfoldable pub take_loop : (fuel left dirty v_idx : ℕ) → Pool → Option (List ℕ × Pool)
take_loop zero left dirty v_idx s = none
take_loop (suc fuel) zero dirty v_idx s = some ([], s)
take_loop (suc fuel) (suc left) dirty v_idx s = take_one v_idx s >>= λ round. elim round.1 [
  | true ↦ take_loop fuel left dirty v_idx round.2 >>= λ rest. some (round.0 ∷ rest.0, rest.1)
  | false ↦
      take_loop fuel (if ltb (dirty - 1) flush_batch_size then left else suc left) (dirty - 1) v_idx
        round.2
]

-- The look-ahead: the inodes that continue a run which ends at curr_lbn, and the inodes left.
unfoldable pub look_ahead : Pool → (curr_lbn : ℕ) → List ℕ → List ℕ × List ℕ
look_ahead s curr_lbn [] = ([], [])
look_ahead s curr_lbn (idx ∷ idxs) =
    let succ_lbn = (s.inode_table idx).lbn in
    let more = look_ahead s succ_lbn idxs in
    if succ_lbn == u32 (curr_lbn + 1) then (idx ∷ more.0, more.1) else ([], idx ∷ idxs)

abbrev pub gather : Pool → List ℕ → List (ℕ → ℕ)
gather s [] = []
gather s (idx ∷ idxs) = block_data s (s.inode_table idx).block_index ∷ gather s idxs

-- The hand over of one inode to a syncer.
unfoldable pub pass_on : (idx : ℕ) → Pool → Option Pool
pass_on idx s =
    let inode : Inode = record (s.inode_table idx) { state = state_sync } in
    let k = s.sync_queue_idx % num_syncer in
    push s.max_inode_entry (s.sync_queue k) idx >>= λ queue. some (record s {
      inode_dirty_count = u32 (s.inode_dirty_count + 2 ^ 32 - 1);
      inode_table = update s.inode_table idx inode;
      sync_queue = update s.sync_queue k queue;
      sync_queue_idx = u64 (s.sync_queue_idx + 1);
    })

unfoldable pub pass_all : List ℕ → Pool → Option Pool
pass_all [] s = some s
pass_all (idx ∷ idxs) s = pass_on idx s >>= pass_all idxs

-- get_filesize of src/nvm0volume.cc: it asserts when stat() fails. Its answer is not used.
abbrev pub get_filesize : (accepts : Io → Bool) → (vid : ℕ) → Bool
get_filesize accepts vid = accepts (stat_file vid)

-- The calls of get_filesize, one for each inode of a run.
abbrev pub get_filesizes : (accepts : Io → Bool) → (vid : ℕ) → List ℕ → Bool
get_filesizes accepts vid [] = true
get_filesizes accepts vid (idx ∷ idxs) = get_filesize accepts vid && get_filesizes accepts vid idxs

-- pwritev: `accepts` tells whether the system writes all the bytes, and finds the file of a stat();
-- when not, the code exits. Here ve is the entry of v_idx.
unfoldable pub write_batch :
    (accepts : Io → Bool) → (v_idx idx : ℕ) → (run : List ℕ) → Pool → Option Pool
write_batch accepts v_idx idx run s =
    let ve = s.volume_table v_idx in
    let start = s.inode_table idx in
    let fd = (s.volume_table start.volume).fd in
    let call = write_at fd (s.block_size * start.lbn) (gather s (idx ∷ run)) in
    if get_filesizes accepts ve.vid (idx ∷ run) && accepts call
    then some (record s { io = s.io ++ (call ∷ []) })
    else none

-- The second loop, over the inodes not yet written; each round takes one at least.
unfoldable pub write_loop :
    (fuel : ℕ) → (accepts : Io → Bool) → (v_idx : ℕ) → List ℕ → Pool → Option Pool
write_loop zero accepts v_idx idxs s = none
write_loop (suc fuel) accepts v_idx [] s = some s
write_loop (suc fuel) accepts v_idx (idx ∷ idxs) s =
    let batch = look_ahead s (s.inode_table idx).lbn idxs in
    write_batch accepts v_idx idx batch.0 s >>= λ written.
    pass_all (idx ∷ batch.0) written >>= λ passed. write_loop fuel accepts v_idx batch.1 passed

-- write_size at the start, for the number of dirty inodes.
abbrev pub flush_size : ℕ → ℕ
flush_size dirty = if leb flush_batch_size dirty then flush_batch_size else dirty

unfoldable pub nvm_flush : (accepts : Io → Bool) → (v_idx : ℕ) → Pool → Option Pool
nvm_flush accepts v_idx s =
    let dirty = length (s.dirty_queue v_idx) - 1 in
    let size = flush_size dirty in
    take_loop (suc (size + dirty)) size dirty v_idx s >>= λ taken.
    write_loop (suc (length taken.0)) accepts v_idx taken.0 taken.1

-- The body of flush_thread_func's loop; `low` is kFlushLwm.
unfoldable pub flush_round : (accepts : Io → Bool) → (low : ℕ) → Pool → Option Pool
flush_round accepts low s = if ltb s.inode_dirty_count low then some s else elim s.volume_inuse [
  | [] ↦ some s
  | v_idx ∷ rest ↦
      let popped : Pool = record s { volume_inuse = rest } in
      (if ltb 1 (length (s.dirty_queue v_idx)) then nvm_flush accepts v_idx popped else some popped)
      >>= λ flushed. push s.max_volume_entry flushed.volume_inuse v_idx >>= λ queue.
          some (record flushed { volume_inuse = queue })
]
