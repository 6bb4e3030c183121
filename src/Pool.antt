-- ===== src/Pool.antt =====
-- The state that the writers and the background threads share: the tables of struct nvm_metadata
-- (include/nvm0nvm.h, nvm0inode.h, nvm0volume.h) and the globals of src/nvm0nvm.cc.
-- A queue is the list of what it holds, as LfQueue.Refine shows; a call that would wait for ever
-- answers none. The mutexes are Booleans; an operation runs from its start to its end.
pub mod Layout
pub mod Recovery
pub mod Start
pub mod Stop
pub mod Blocks
pub mod Sync
pub mod Flush
pub mod Volumes
mod Tests
use autobahn_app.Prelude.{
  ℕ, ◌+◌, ◌*◌, ◌%◌, ◌^◌, Bool, true, false, Option, none, some, List, [], ◌∷◌, ◌++◌, length, ltb,
  if◌then◌else◌,
}

pub data InodeState : Type 0 where
  state_free : InodeState
  state_dirty : InodeState
  state_sync : InodeState
  state_clean : InodeState

-- `volume` is an index of the volume table, for a pointer to the entry.
pub record Inode : Type 0 where
  pub lbn : ℕ
  pub state : InodeState
  pub volume : ℕ
  pub block_index : ℕ
  pub locked : Bool

pub record Volume : Type 0 where
  pub vid : ℕ
  pub fd : ℕ
  pub spare_block : ℕ

-- A call of the operating system on the storage: a write of the bytes of some blocks at an offset
-- of a file, sync(), or stat() of the file of a volume, which changes nothing.
pub data Io : Type 0 where
  write_at : (fd offset : ℕ) → (blocks : List (ℕ → ℕ)) → Io
  sync_all : Io
  stat_file : (vid : ℕ) → Io

-- `memory` holds the bytes of the block table, one block after the other.
pub record Pool : Type 0 where
  pub max_inode_entry : ℕ
  pub max_volume_entry : ℕ
  pub block_size : ℕ
  pub inode_table : ℕ → Inode
  pub volume_table : ℕ → Volume
  pub memory : ℕ → ℕ
  pub volume_free : List ℕ
  pub volume_inuse : List ℕ
  pub free_queue : ℕ → List ℕ
  pub dirty_queue : ℕ → List ℕ
  pub sync_queue : ℕ → List ℕ
  pub clean_queue : ℕ → List ℕ
  pub free_dequeue_idx : ℕ
  pub sync_queue_idx : ℕ
  pub clean_queue_idx : ℕ
  pub inode_free_count : ℕ
  pub inode_dirty_count : ℕ
  pub io : List Io

-- enqueue and dequeue of a queue of some capacity.
abbrev pub push : (capacity : ℕ) → List ℕ → ℕ → Option (List ℕ)
push capacity xs x = if ltb (length xs) capacity then some (xs ++ (x ∷ [])) else none

abbrev pub pop : List ℕ → Option (ℕ × List ℕ)
pop [] = none
pop (x ∷ xs) = some (x, xs)

-- nvm->block_table[b].data
unfoldable pub block_data : Pool → ℕ → ℕ → ℕ
block_data s b j = s.memory (b * s.block_size + j)

abbrev pub num_free : ℕ
num_free = 2

abbrev pub num_syncer : ℕ
num_syncer = 2

abbrev pub num_balloon : ℕ
num_balloon = 8

abbrev pub flush_batch_size : ℕ
flush_batch_size = 1024
