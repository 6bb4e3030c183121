-- ===== src/Pool/Start.antt =====
-- nvm_system_init of src/nvm0nvm.cc, after recovery and without the threads: every queue is made
-- anew, and all the volumes and inodes are free.
pub mod Filled
use autobahn_app.Prelude.{ℕ, zero, suc, ◌-◌, ◌%◌, ◌/◌, ◌^◌, false, Option, some, List, [], ◌>>=◌}
use autobahn_app.LfQueue.{update}
use autobahn_app.Pool.{Inode, Volume, Pool, state_free, push, num_free}

-- The queues and the counters of the start.
unfoldable pub new_queues : Pool → Pool
new_queues s = record s {
  volume_free = [];
  volume_inuse = [];
  free_queue = λ i. [];
  dirty_queue = λ v. [];
  sync_queue = λ i. [];
  clean_queue = λ i. [];
  inode_dirty_count = 0;
  inode_free_count = s.max_inode_entry;
  free_dequeue_idx = 0;
  sync_queue_idx = 0;
  clean_queue_idx = 0;
}

-- A free entry has the id 0x0U - 1.
unfoldable pub free_volume : ℕ → Pool → Option Pool
free_volume v s =
    let volume : Volume = record (s.volume_table v) { vid = 2 ^ 32 - 1 } in
    push s.max_volume_entry s.volume_free v >>= λ queue.
    some (record s { volume_table = update s.volume_table v volume; volume_free = queue })

unfoldable pub free_volumes : (n v : ℕ) → Pool → Option Pool
free_volumes zero v s = some s
free_volumes (suc n) v s = free_volume v s >>= free_volumes n (suc v)

unfoldable pub free_inode : ℕ → Pool → Option Pool
free_inode i s =
    let inode : Inode = record (s.inode_table i) { state = state_free; locked = false } in
    let k = i % num_free in
    push s.max_inode_entry (s.free_queue k) i >>= λ queue. some (record s {
      inode_table = update s.inode_table i inode;
      free_queue = update s.free_queue k queue;
    })

unfoldable pub free_inodes : (n i : ℕ) → Pool → Option Pool
free_inodes zero i s = some s
free_inodes (suc n) i s = free_inode i s >>= free_inodes n (suc i)

unfoldable pub system_init : Pool → Option Pool
system_init s = free_volumes s.max_volume_entry 0 (new_queues s) >>= λ volumes.
    free_inodes volumes.max_inode_entry 0 volumes

-- kFlushLwm: the product with 0.1, rounded down.
unfoldable pub flush_low : Pool → ℕ
flush_low s = s.max_inode_entry / 10
