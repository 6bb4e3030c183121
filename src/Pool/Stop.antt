-- ===== src/Pool/Stop.antt =====
-- The flush of nvm_system_close in src/nvm0nvm.cc: when the threads have ended, what the dirty
-- queues hold is written, and then the storage is synchronised and the inodes are marked clean.
pub mod Drained
use autobahn_app.Prelude.{ℕ, zero, suc, ◌*◌, List, [], ◌∷◌, ◌++◌}
use autobahn_app.LfQueue.{update}
use autobahn_app.Pool.{Pool, Io, write_at, block_data}
use autobahn_app.Pool.Recovery.{sync_and_clean}

unfoldable pub close_write : Pool → ℕ → Io
close_write s idx =
    let inode = s.inode_table idx in
    write_at (s.volume_table inode.volume).fd (s.block_size * inode.lbn)
      (block_data s inode.block_index ∷ [])

-- The inner loop, over what the queue of the volume holds.
unfoldable pub drain : (v_idx : ℕ) → List ℕ → Pool → Pool
drain v_idx [] s = s
drain v_idx (idx ∷ idxs) s = drain v_idx idxs (record s {
  dirty_queue = update s.dirty_queue v_idx idxs;
  io = s.io ++ (close_write s idx ∷ []);
})

-- The outer loop, from the volume v_idx on; `n` volumes are left.
unfoldable pub drain_all : (n v_idx : ℕ) → Pool → Pool
drain_all zero v_idx s = s
drain_all (suc n) v_idx s = drain_all n (suc v_idx) (drain v_idx (s.dirty_queue v_idx) s)

unfoldable pub close_flush : Pool → Pool
close_flush s = sync_and_clean (drain_all s.max_volume_entry 0 s)
