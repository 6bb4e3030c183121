-- ===== src/Buffer/Wf.antt =====
-- When a pool and the look-up of its hash tables fit together. `find v lbn` is the inode that holds
-- the block lbn of the volume with the index v.
use mathlib.Core.List.{Mem}
use autobahn_app.Prelude.{ℕ, ◌<◌, ◌≡◌, ◌≢◌, ◌⊎◌, Option, some}
use autobahn_app.HashList.Chain.{Absent}
use autobahn_app.Cycle.Queues.{Queues}
use autobahn_app.Pool.{InodeState, state_free, state_dirty, Pool, block_data}
use autobahn_app.Pool.Blocks.{IsDealt}

abbrev pub Finder : Type 0
Finder = ℕ → ℕ → Option ℕ

-- The inode is in the table, and it is labelled with the block.
pub record Labelled (s : Pool) (v lbn i : ℕ) : Type 0 where
  pub in_table : i < s.max_inode_entry
  pub volume_in : v < s.max_volume_entry
  pub same_lbn : (s.inode_table i).lbn ≡ lbn
  pub same_volume : (s.inode_table i).volume ≡ v

abbrev pub In : Pool → InodeState → ℕ → Type 0
In s state i = (i < s.max_inode_entry) × ((s.inode_table i).state ≡ state)

-- The queues of free inodes hold free inodes, each once. Each used inode is found under its label
-- and nowhere else, and a dirty one waits in the dirty
-- queue of its volume.
pub record Wf (s : Pool) (find : Finder) : Type 0 where
  pub dealt : IsDealt s
  pub labels :
      (v lbn i : ℕ)
      → find v lbn ≡ some i
      → Labelled s v lbn i × ((s.inode_table i).state ≢ state_free)
  pub found :
      (i : ℕ)
      → i < s.max_inode_entry
      → (s.inode_table i).state ≢ state_free
      → find (s.inode_table i).volume (s.inode_table i).lbn ≡ some i
  pub free : Queues (In s state_free) s.free_queue
  pub queued :
      (i : ℕ)
      → i < s.max_inode_entry
      → (s.inode_table i).state ≡ state_dirty
      → Mem i (s.dirty_queue (s.inode_table i).volume)

-- The same, but the inode idx may still be marked free: it is labelled and found, and it has left
-- the queues of free inodes.
pub record Claim (s : Pool) (find : Finder) (v lbn idx : ℕ) : Type 0 where
  pub label : Labelled s v lbn idx
  pub here : find v lbn ≡ some idx
  pub dealt : IsDealt s
  pub labels :
      (w m i : ℕ)
      → find w m ≡ some i
      → Labelled s w m i × ((idx ≡ i) ⊎ ((s.inode_table i).state ≢ state_free))
  pub found :
      (i : ℕ)
      → i < s.max_inode_entry
      → (s.inode_table i).state ≢ state_free
      → find (s.inode_table i).volume (s.inode_table i).lbn ≡ some i
  pub free : Queues (In s state_free) s.free_queue
  pub left : (k : ℕ) → Absent idx (s.free_queue k)
  pub queued :
      (i : ℕ)
      → i < s.max_inode_entry
      → (s.inode_table i).state ≡ state_dirty
      → Mem i (s.dirty_queue (s.inode_table i).volume)

-- The bytes of the block that an inode holds.
abbrev pub data_of : Pool → ℕ → ℕ → ℕ
data_of s i = block_data s (s.inode_table i).block_index
