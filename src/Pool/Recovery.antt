-- ===== src/Pool/Recovery.antt =====
-- recovery_start of src/nvm0nvm.cc. `open_file` stands for open(): the descriptor that it answers
-- for a volume. The offset of lseek is the product of two uint32_t, so it has 32 bits.
pub mod Correct
use autobahn_app.Prelude.{
  ℕ, zero, suc, ◌*◌, ◌%◌, ◌^◌, Bool, true, false, List, [], ◌∷◌, ◌++◌, if◌then◌else◌,
}
use autobahn_app.LfQueue.{u32, update}
use autobahn_app.Pool.{
  InodeState, state_free, state_dirty, state_sync, state_clean, Inode, Pool, Io, write_at, sync_all,
  block_data,
}

-- state == INODE_STATE_DIRTY || state == INODE_STATE_SYNC
abbrev pub needs_write : InodeState → Bool
needs_write state_free = false
needs_write state_dirty = true
needs_write state_sync = true
needs_write state_clean = false

module _ (open_file : ℕ → ℕ) where
  unfoldable pub recovery_write : Pool → ℕ → Io
  recovery_write s idx =
      let inode = s.inode_table idx in
      write_at (open_file (s.volume_table inode.volume).vid) (u32 (s.block_size * inode.lbn))
        (block_data s inode.block_index ∷ [])

  unfoldable pub write_one : ℕ → Pool → Pool
  write_one idx s =
      if needs_write (s.inode_table idx).state
      then record s { io = s.io ++ (recovery_write s idx ∷ []) }
      else s

  -- The first loop, from the inode idx on; `n` inodes are left.
  unfoldable pub write_loop : (n idx : ℕ) → Pool → Pool
  write_loop zero idx s = s
  write_loop (suc n) idx s = write_loop n (suc idx) (write_one idx s)

unfoldable pub clean_one : ℕ → Pool → Pool
clean_one idx s =
    let inode = s.inode_table idx in
    if needs_write inode.state
    then record s { inode_table = update s.inode_table idx (record inode { state = state_clean }) }
    else s

-- The second loop, which nvm_system_close runs too.
unfoldable pub clean_loop : (n idx : ℕ) → Pool → Pool
clean_loop zero idx s = s
clean_loop (suc n) idx s = clean_loop n (suc idx) (clean_one idx s)

unfoldable pub sync_and_clean : Pool → Pool
sync_and_clean s =
    clean_loop s.max_inode_entry 0 (record s { io = s.io ++ (sync_all ∷ sync_all ∷ []) })

unfoldable pub recovery_start : (open_file : ℕ → ℕ) → Pool → Pool
recovery_start open_file s = sync_and_clean (write_loop open_file s.max_inode_entry 0 s)
