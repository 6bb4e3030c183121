-- ===== src/Buffer/Samples.antt =====
-- A system to apply the theorems on the buffer to, and a hash map.
use autobahn_app.Prelude.{ℕ, ◌+◌, ◌%◌, refl, true, false, Option, some, none, [], arith}
use autobahn_app.LfQueue.{update}
use autobahn_app.HashList.{HashNode}
use autobahn_app.Hash.{CuckooMap}
use autobahn_app.Pool.{Pool, state_dirty}
use autobahn_app.Pool.Blocks.{IsDealt, update_self, update_ne}

-- A map as a function.
abbrev pub table_map : CuckooMap
table_map = record {
  Map = ℕ → Option ℕ;
  empty = λ k. none;
  find = λ m k. m k;
  assign = λ m k n. update m k (some n);
  erase = λ m k. update m k none;
  find-empty = λ k. refl;
  find-assign = λ m k n. update_self m k (some n);
  find-assign_ne = λ m k n j ne. update_ne m k (some n) j ne;
  find-erase = λ m k. update_self m k none;
  find-erase_ne = λ m k j ne. update_ne m k none j ne;
}

abbrev pub blank : ℕ → HashNode
blank n = record {
  inode = none;
  lbn = 0;
  is_valid = false;
  mutex = false;
  prev = none;
  next = none;
}

abbrev pub stores : ℕ → ℕ → HashNode
stores v = blank

-- `n` inodes and two volumes.
abbrev pub system : (n : ℕ) → Pool
system n = record {
  max_inode_entry = n;
  max_volume_entry = 2;
  block_size = 16384;
  inode_table =
      λ i. record { lbn = 0; state = state_dirty; volume = 0; block_index = i; locked = true };
  volume_table = λ v. record { vid = v; fd = 3 + v; spare_block = v + n };
  memory = λ a. a;
  volume_free = [];
  volume_inuse = [];
  free_queue = λ i. [];
  dirty_queue = λ v. [];
  sync_queue = λ i. [];
  clean_queue = λ i. [];
  free_dequeue_idx = 0;
  sync_queue_idx = 0;
  clean_queue_idx = 0;
  inode_free_count = 0;
  inode_dirty_count = 0;
  io = [];
}

pub system-IsDealt : (n : ℕ) → IsDealt (system n)
system-IsDealt n = record {
  inodes_apart = λ i j hi hj ne e. ne e;
  volumes_apart = λ v w hv hw ne e. ne (omega (arith, e));
  spare_apart = λ i v hi hv e. omega (arith, e);
}

abbrev pub text : ℕ → ℕ
text j = j % 256
