-- ===== src/Buffer.antt =====
-- The buffer: the pool with the hash tables of its volumes, and the operations that use both. One
-- operation runs from its start to its end, so a mutex that it locks and unlocks itself is free
-- before and after; a wait for what only another thread can do answers none.
pub mod Wf
pub mod Stored
pub mod Keeps
pub mod Taken
pub mod Held
pub mod Round
pub mod Pieces
pub mod Rounds
pub mod Opened
pub mod Durable
pub mod Room
pub mod Freed
pub mod Shrinks
pub mod Balloon
pub mod Started
pub mod Start
pub mod First
pub mod Samples
mod Tests
mod CleanTests
use autobahn_app.Prelude.{
  ℕ, zero, suc, ◌+◌, ◌-◌, ◌*◌, ◌/◌, ◌%◌, ◌^◌, Bool, true, false, ◌&&◌, Option, none, some, List, [],
  ◌∷◌, length, ltb, leb, if◌then◌else◌, ◌>>=◌,
}
use autobahn_app.LfQueue.{u64, u32, update}
use autobahn_app.HashList.{HashNode}
use autobahn_app.Hash.{
  CuckooMap, HashTable, new_hash_node, insert_hash_node, search_hash_node, logical_delete, validate,
  new_hash_table,
}
use autobahn_app.Pool.{
  InodeState, state_free, state_dirty, state_sync, state_clean, Inode, Pool, push, pop, num_free,
  num_balloon,
}
use autobahn_app.Pool.Blocks.{write_data}
use autobahn_app.Pool.Volumes.{get_volume_entry_idx, search_volume}

abbrev pub is_dirty : InodeState → Bool
is_dirty state_free = false
is_dirty state_dirty = true
is_dirty state_sync = false
is_dirty state_clean = false

abbrev pub is_clean : InodeState → Bool
is_clean state_free = false
is_clean state_dirty = false
is_clean state_sync = false
is_clean state_clean = true

-- DEFAULT_FREE_MIN_COUNT
abbrev pub free_min_count : ℕ
free_min_count = 100

abbrev pub free_enough : Pool → Bool
free_enough s = leb free_min_count s.inode_free_count

-- getFreeInodeFromFreeLFQueue
unfoldable pub take_free_inode : (v_idx lbn : ℕ) → Pool → Option (ℕ × Pool)
take_free_inode v_idx lbn s =
    let k = s.free_dequeue_idx % num_free in
    pop (s.free_queue k) >>= λ taken.
    let inode : Inode = record (s.inode_table taken.0) { lbn = lbn; volume = v_idx } in
    some (
      taken.0,
      record s {
        free_queue = update s.free_queue k taken.1;
        free_dequeue_idx = u64 (s.free_dequeue_idx + 1);
        inode_table = update s.inode_table taken.0 inode;
        inode_free_count = u32 (s.inode_free_count + 2 ^ 32 - 1);
      },
    )

-- The end of a round of nvm_durable_write: an inode that was not dirty goes to the dirty queue.
abbrev pub enqueue_dirty : (v_idx idx : ℕ) → (was_dirty : Bool) → Pool → Option Pool
enqueue_dirty v_idx idx true s = some s
enqueue_dirty v_idx idx false s = push s.max_inode_entry (s.dirty_queue v_idx) idx >>= λ queue.
    some (record s {
      dirty_queue = update s.dirty_queue v_idx queue;
      inode_dirty_count = u32 (s.inode_dirty_count + 1);
    })

-- The byte difference is cast to an inode_idx_t, of 32 bits, before it is divided by
-- sizeof(inode_entry), which is 64.
unfoldable pub get_inode_entry_idx_from_hash : (inode : ℕ) → ℕ
get_inode_entry_idx_from_hash inode = u32 (inode * 64) / 64

-- What a round does under the lock of the inode: the state is set through the pointer of the node,
-- and the data and the queue go by the index.
unfoldable pub write_inode : (v_idx i offset : ℕ) → (buf : ℕ → ℕ) → (count : ℕ) → Pool → Option Pool
write_inode v_idx i offset buf count s =
    let inode = s.inode_table i in
    let idx = get_inode_entry_idx_from_hash i in
    let dirty : Inode = record inode { state = state_dirty } in
    let marked : Pool = record s { inode_table = update s.inode_table i dirty } in
    if inode.locked
    then none
    else enqueue_dirty v_idx idx (is_dirty inode.state) (write_data marked idx offset buf count)

module _ (cuckoo : CuckooMap) where
  -- `linked` tells whether the hash_table of an entry was set in this process: without it the code
  -- follows a pointer that was never set, which answers none here.
  pub record Buffer : Type 0 where
    pub pool : Pool
    pub tables : ℕ → HashTable cuckoo
    pub linked : ℕ → Bool
    pub free_enqueue_idx : ℕ

  abbrev pub is_valid_node : HashTable cuckoo → Option ℕ → Bool
  is_valid_node table none = false
  is_valid_node table (some node) = (table.list.nodes node).is_valid

  -- A node for the inode that was taken: a new one, or the invalid one that was found.
  abbrev pub place_node : (v_idx lbn inode : ℕ) → Option ℕ → Buffer → Option (ℕ × Buffer)
  place_node v_idx lbn inode none b =
      let made = new_hash_node cuckoo (b.tables v_idx) inode lbn in
      insert_hash_node cuckoo (λ i. (b.pool.inode_table i).lbn) made.1 made.0 >>= λ table.
      some (made.0, record b { tables = update b.tables v_idx table })
  place_node v_idx lbn inode (some node) b =
      if ((b.tables v_idx).list.nodes node).mutex
      then none
      else some (
        node,
        record b {
          tables = update b.tables v_idx (validate cuckoo (b.tables v_idx) node inode lbn);
        },
      )

  -- get_hash_node_with_lock, by the node that is found and whether it is valid. Without enough free
  -- inodes the loop goes round until the balloon threads have freed some.
  abbrev pub hold_found : (v_idx lbn : ℕ) → Option ℕ → (valid : Bool) → Buffer → Option (ℕ × Buffer)
  hold_found v_idx lbn none true b = none
  hold_found v_idx lbn (some node) true b =
      if ((b.tables v_idx).list.nodes node).mutex then none else some (node, b)
  hold_found v_idx lbn found false b =
      if free_enough b.pool
      then (take_free_inode v_idx lbn b.pool >>= λ taken.
          place_node v_idx lbn taken.0 found (record b { pool = taken.1 }))
      else none

  unfoldable pub hold_node : (v_idx lbn : ℕ) → Buffer → Option (ℕ × Buffer)
  hold_node v_idx lbn b =
      let found = search_hash_node cuckoo (b.tables v_idx) lbn in
      hold_found v_idx lbn found (is_valid_node (b.tables v_idx) found) b

  -- One round of the loop of nvm_durable_write.
  unfoldable pub write_round :
      (v_idx lbn offset : ℕ) → (buf : ℕ → ℕ) → (count : ℕ) → Buffer → Option Buffer
  write_round v_idx lbn offset buf count b =
      if b.linked v_idx
      then (hold_node v_idx lbn b >>= λ held.
          ((held.1.tables v_idx).list.nodes held.0).inode >>= λ i.
          write_inode v_idx i offset buf count held.1.pool >>= λ pool.
          some (record (held.1) { pool = pool }))
      else none

  -- The loop, with what it has written; the fuel bounds the rounds. `count` is a size_t.
  unfoldable pub write_rounds :
      (fuel v_idx lbn lbn_end offset : ℕ)
      → (buf : ℕ → ℕ) → (local_count count written : ℕ) → Buffer
      → Option (ℕ × Buffer)
  write_rounds zero v_idx lbn lbn_end offset buf local_count count written b = none
  write_rounds (suc fuel) v_idx lbn lbn_end offset buf local_count count written b =
      write_round v_idx lbn offset buf local_count b >>= λ b'.
      let left = u64 (count + 2 ^ 64 - local_count) in
      let next_count = u32 (if ltb b.pool.block_size left then b.pool.block_size else left) in
      let total = u64 (written + local_count) in
      let next = u32 (lbn + 1) in
      elim (leb next lbn_end) [
        | true ↦ write_rounds fuel v_idx next lbn_end 0 buf next_count left total b'
        | false ↦ some (total, b')
      ]

  -- get_volume_entry_idx with the hash table of a new entry, whose nodes are still to be made.
  abbrev pub table_of : Option ℕ → HashTable cuckoo → HashTable cuckoo
  table_of none table = new_hash_table cuckoo table.list.nodes
  table_of (some v_idx) table = table

  abbrev pub linked_of : Option ℕ → Bool → Bool
  linked_of none linked = true
  linked_of (some v_idx) linked = linked

  unfoldable pub open_volume : (open_file : ℕ → Option ℕ) → (vid : ℕ) → Buffer → Option (ℕ × Buffer)
  open_volume open_file vid b = get_volume_entry_idx open_file vid b.pool >>= λ r.
      let known = search_volume b.pool.max_volume_entry 0 vid b.pool in
      some (
        r.0,
        record b {
          pool = r.1;
          tables = update b.tables r.0 (table_of known (b.tables r.0));
          linked = update b.linked r.0 (linked_of known (b.linked r.0));
        },
      )

  unfoldable pub nvm_durable_write :
      (open_file : ℕ → Option ℕ)
      → (vid offset : ℕ) → (buf : ℕ → ℕ) → (count : ℕ) → Buffer
      → Option (ℕ × Buffer)
  nvm_durable_write open_file vid offset buf count b = open_volume open_file vid b >>= λ r.
      let size = r.1.pool.block_size in
      let lbn_start = u32 (offset / size) in
      let lbn_end = u32 (u64 (offset + count + 2 ^ 64 - 1) / size) in
      let local_offset = u32 (offset % size) in
      let local_count = u32 (size - local_offset) in
      write_rounds (suc (lbn_end - lbn_start)) r.0 lbn_start lbn_end local_offset buf local_count
        count 0 r.1

  -- try_lock_hash_node finds the node of the inode idx free, and its inode clean still.
  abbrev pub free_node : (idx node : ℕ) → Option ℕ → Buffer → Option Buffer
  free_node idx node none b = none
  free_node idx node (some inode) b =
      let s = b.pool in
      let v_idx = (s.inode_table idx).volume in
      let freed : Inode = record (s.inode_table idx) { state = state_free } in
      let k = b.free_enqueue_idx % num_free in
      if is_clean (s.inode_table inode).state
      then (push s.max_inode_entry (s.free_queue k) idx >>= λ queue. some (record b {
        pool = record s {
          inode_table = update s.inode_table idx freed;
          inode_free_count = u32 (s.inode_free_count + 1);
          free_queue = update s.free_queue k queue;
        };
        tables = update b.tables v_idx (logical_delete cuckoo (b.tables v_idx) node);
        free_enqueue_idx = u64 (b.free_enqueue_idx + 1);
      }))
      else some b

  abbrev pub free_found : (idx : ℕ) → Option ℕ → Buffer → Option Buffer
  free_found idx none b = none
  free_found idx (some node) b =
      let v_idx = (b.pool.inode_table idx).volume in
      let here = (b.tables v_idx).list.nodes node in
      if here.mutex then some b else free_node idx node here.inode b

  -- A round of fill_free_inodes, for an inode that has left the queue.
  unfoldable pub free_clean : (idx : ℕ) → Buffer → Option Buffer
  free_clean idx b =
      let inode = b.pool.inode_table idx in
      if is_clean inode.state
      then (if b.linked inode.volume
          then free_found idx (search_hash_node cuckoo (b.tables inode.volume) inode.lbn) b
          else none)
      else some b

  abbrev pub leave_queue : (index : ℕ) → List ℕ → Buffer → Buffer
  leave_queue index rest b =
      let s = b.pool in
      record b { pool = record s { clean_queue = update s.clean_queue index rest } }

  unfoldable pub fill_loop : (fuel index : ℕ) → Buffer → Option Buffer
  fill_loop zero index b = none
  fill_loop (suc fuel) index b = elim (b.pool.clean_queue index) [
    | [] ↦ some b
    | idx ∷ rest ↦ free_clean idx (leave_queue index rest b) >>= fill_loop fuel index
  ]

  unfoldable pub fill_free_inodes : (index : ℕ) → Buffer → Option Buffer
  fill_free_inodes index b = fill_loop (suc (length (b.pool.clean_queue index))) index b
