-- ===== src/Pool/Tests.antt =====
-- The theorems on the pool, applied to a pool of four inodes and two volumes.
use autobahn_app.Prelude.{
  ◌⊎◌, ℕ, ◌+◌, ◌*◌, ◌^◌, ◌≤◌, ◌<◌, ◌≡◌, ◌≢◌, refl, true, some, List, [], ◌∷◌, ◌++◌, All, ◌==◌, ◌%◌,
  arith,
}
use autobahn_app.Pool.{state_dirty, state_clean, Pool, sync_all, block_data}
use autobahn_app.Pool.Layout.{
  Sizes, overhead, inode_table_end, block_table, max_block, usable_end, block_bytes, max_volumes,
  block_table-InMemory, unused_end_space, inode_table, volume_table,
}
use autobahn_app.Pool.Blocks.{deal_blocks, write_data, IsDealt}
use autobahn_app.Pool.Blocks.Dealt.{deal_blocks-IsDealt}
use autobahn_app.Pool.Blocks.Owned.{write_data_lem}
use autobahn_app.Pool.Recovery.{recovery_start}
use autobahn_app.Pool.Recovery.Correct.{due_writes, storage_write, recovery_start_lem}
use autobahn_app.Pool.Start.{system_init}
use autobahn_app.Pool.Start.Filled.{Free, system_init_lem}
use autobahn_app.Pool.Stop.{close_flush}
use autobahn_app.Pool.Stop.Drained.{queued_writes, file_write, close_flush_lem}
use autobahn_app.Pool.Sync.{nvm_sync}
use autobahn_app.Pool.Sync.Handover.{Room, Handed, nvm_sync_lem}
use autobahn_app.Pool.Flush.{take_loop, look_ahead, nvm_flush}
use autobahn_app.Pool.Flush.Passed.{SyncRoom, Passed, nvm_flush_lem}
use autobahn_app.Pool.Flush.Take.{Taken, take_loop_lem}
use autobahn_app.Pool.Flush.Runs.{Consecutive, Breaks, last_lbn, look_ahead_lem}
use autobahn_app.Pool.Volumes.{get_volume_entry_idx}
use autobahn_app.Pool.Volumes.Lookup.{get_volume_lem}

abbrev pool : Pool
pool = record {
  max_inode_entry = 4;
  max_volume_entry = 2;
  block_size = 8;
  inode_table = λ i. record {
    lbn = 7 + i;
    state = state_dirty;
    volume = 0;
    block_index = i;
    locked = i == 2;
  };
  volume_table = λ v. record { vid = 90 + v; fd = 3 + v; spare_block = v + 4 };
  memory = λ a. a;
  volume_free = 1 ∷ [];
  volume_inuse = 0 ∷ [];
  free_queue = λ i. [];
  dirty_queue = λ v. 2 ∷ 0 ∷ 1 ∷ [];
  sync_queue = λ i. 3 ∷ 1 ∷ [];
  clean_queue = λ i. [];
  free_dequeue_idx = 0;
  sync_queue_idx = 0;
  clean_queue_idx = 5;
  inode_free_count = 0;
  inode_dirty_count = 3;
  io = [];
}

abbrev sizes : Sizes
sizes = record { metadata = 48; volume_entry = 24; inode_entry = 64 }

overhead-fits : overhead sizes 4096 (2 ^ 24) ≤ 2 ^ 24
unfolding overhead unused_end_space
overhead-fits = omega arith

not-full :
    inode_table_end sizes 4096 (2 ^ 24) + block_bytes * max_block sizes 4096 (2 ^ 24)
    ≢ usable_end sizes 4096 (2 ^ 24)
unfolding inode_table_end block_table inode_table volume_table max_block overhead unused_end_space
not-full e = ground arith

block_table-InMemory_example :
    (4096 + sizes.metadata ≤ volume_table sizes 4096 (2 ^ 24))
    × (volume_table sizes 4096 (2 ^ 24) + sizes.volume_entry * max_volumes
        ≤ inode_table sizes 4096 (2 ^ 24))
    × (inode_table sizes 4096 (2 ^ 24) + sizes.inode_entry * max_block sizes 4096 (2 ^ 24)
        ≤ block_table sizes 4096 (2 ^ 24))
    × (block_table sizes 4096 (2 ^ 24) % block_bytes ≡ 0)
    × (block_table sizes 4096 (2 ^ 24) + block_bytes * max_block sizes 4096 (2 ^ 24)
        ≤ usable_end sizes 4096 (2 ^ 24))
block_table-InMemory_example =
    block_table-InMemory sizes 4096 (2 ^ 24) overhead-fits (omega arith) not-full

deal_blocks-IsDealt_example :
    IsDealt (deal_blocks pool)
    × ((c : ℕ)
        → c < 6
        → ((i : ℕ) × (i < 4) × (((deal_blocks pool).inode_table i).block_index ≡ c))
          ⊎ ((v : ℕ) × (v < 2) × (((deal_blocks pool).volume_table v).spare_block ≡ c)))
    × ((i : ℕ) → i < 4 → ((deal_blocks pool).inode_table i).block_index < 6)
    × ((v : ℕ) → v < 2 → ((deal_blocks pool).volume_table v).spare_block < 6)
deal_blocks-IsDealt_example = deal_blocks-IsDealt pool (omega arith)

recovery_start_lem_example :
    ((recovery_start (λ vid. vid + 5) pool).io
      ≡ []
        ++ due_writes (λ i. true) (storage_write (λ vid. vid + 5) pool) 4 0
        ++ (sync_all ∷ sync_all ∷ []))
    × ((i : ℕ) → i < 4 → ((recovery_start (λ vid. vid + 5) pool).inode_table i).state ≡ state_clean)
recovery_start_lem_example = recovery_start_lem (λ vid. vid + 5) pool

room : Room 2 pool
room k = omega arith

nvm_sync_lem_example :
    (after : Pool) × (nvm_sync 0 pool ≡ some after)
    × (after.sync_queue 0 ≡ [])
    × All (Handed after) (3 ∷ 1 ∷ [])
    × ((i : ℕ) → Handed pool i → Handed after i)
nvm_sync_lem_example = nvm_sync_lem 0 pool room (omega arith)

take_loop_lem_example :
    (idxs : List ℕ) × (after : Pool) × (take_loop 5 2 2 0 pool ≡ some (idxs, after))
    × Taken 2 0 pool idxs after
take_loop_lem_example = take_loop_lem 5 2 2 0 pool (omega arith) (omega arith) (omega arith)

look_ahead_lem_example :
    ((look_ahead pool 7 (1 ∷ 2 ∷ 0 ∷ [])).0 ++ (look_ahead pool 7 (1 ∷ 2 ∷ 0 ∷ [])).1
      ≡ 1 ∷ 2 ∷ 0 ∷ [])
    × Consecutive pool 7 (look_ahead pool 7 (1 ∷ 2 ∷ 0 ∷ [])).0
    × Breaks pool
        (last_lbn pool 7 (look_ahead pool 7 (1 ∷ 2 ∷ 0 ∷ [])).0)
        (look_ahead pool 7 (1 ∷ 2 ∷ 0 ∷ [])).1
look_ahead_lem_example = look_ahead_lem pool 7 (1 ∷ 2 ∷ 0 ∷ [])

get_volume_lem_example :
    (v : ℕ) × (after : Pool) × (get_volume_entry_idx some 55 pool ≡ some (v, after))
    × ((after.volume_table v).vid ≡ 55)
    × (v < 2)
    × ((again : ℕ) × (get_volume_entry_idx some 55 after ≡ some (again, after))
        × ((after.volume_table again).vid ≡ 55))
get_volume_lem_example = get_volume_lem some 55 55 1 [] pool refl (omega arith) refl (omega arith)

pool-IsDealt : IsDealt pool
pool-IsDealt = record {
  inodes_apart = λ i j hi hj ne. ne;
  volumes_apart = λ v w hv hw ne e. ne (omega arith);
  spare_apart = λ i v hi hv e. absurd (omega arith);
}

write_data_lem_example :
    IsDealt (write_data pool 1 0 (λ j. 200 + j) 8)
    × ((j : ℕ)
        → j < 8
        → block_data
            (write_data pool 1 0 (λ j. 200 + j) 8)
            ((write_data pool 1 0 (λ j. 200 + j) 8).inode_table 1).block_index
            j
          ≡ 200 + j)
    × ((i j : ℕ)
        → i < 4
        → 1 ≢ i
        → j < 8
        → block_data
            (write_data pool 1 0 (λ j. 200 + j) 8)
            ((write_data pool 1 0 (λ j. 200 + j) 8).inode_table i).block_index
            j
          ≡ block_data pool i j)
    × ((j : ℕ)
        → j < 8
        → block_data
            (write_data pool 1 0 (λ j. 200 + j) 8)
            ((write_data pool 1 0 (λ j. 200 + j) 8).volume_table 0).spare_block
            j
          ≡ block_data pool 1 j)
write_data_lem_example =
    write_data_lem pool 1 0 (λ j. 200 + j) 8 pool-IsDealt (omega arith) (omega arith) (omega arith)

system_init_lem_example :
    (after : Pool) × (system_init pool ≡ some after) × ((i : ℕ) → i < 4 → Free after i)
system_init_lem_example = system_init_lem pool

abbrev idle_syncers : Pool
idle_syncers = record pool { sync_queue = λ i. [] }

sync_room : SyncRoom 3 idle_syncers
sync_room k = omega arith

nvm_flush_lem_example :
    (idxs : List ℕ) × (mid : Pool) × (after : Pool) × (take_loop 5 2 2 0 idle_syncers
      ≡ some (idxs, mid))
    × (nvm_flush (λ call. true) 0 idle_syncers ≡ some after)
    × Taken 2 0 idle_syncers idxs mid
    × All (Passed after) idxs
nvm_flush_lem_example =
    nvm_flush_lem (λ call. true) 0 idle_syncers (omega arith) (omega arith) (λ call. refl) sync_room

close_flush_lem_example :
    ((close_flush pool).io
      ≡ []
        ++ queued_writes (file_write pool) (λ v. 2 ∷ 0 ∷ 1 ∷ []) 2 0
        ++ (sync_all ∷ sync_all ∷ []))
    × ((v : ℕ) → v < 2 → (close_flush pool).dirty_queue v ≡ [])
    × ((i : ℕ) → i < 4 → ((close_flush pool).inode_table i).state ≡ state_clean)
close_flush_lem_example = close_flush_lem pool
