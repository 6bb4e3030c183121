-- ===== src/Hash.antt =====
-- src/nvm0hash.cc: the hash table of a volume. The map from block numbers to nodes is a third-party
-- table, a parameter with the laws of a map. A table has a store of nodes of its own, in which
-- `fresh` is the next node that `new` makes.
pub mod Lookup
pub mod Change
use autobahn_app.Prelude.{ℕ, ◌+◌, ◌≡◌, ◌≢◌, Bool, true, false, Option, none, some, ◌>>=◌}
use autobahn_app.LfQueue.{update}
use autobahn_app.HashList.{HashNode, HashNodeList, new_list, validate_hash_node}
use autobahn_app.HashList as List

pub record CuckooMap : Type 1 where
  pub Map : Type 0
  pub empty : Map
  pub find : Map → ℕ → Option ℕ
  pub assign : Map → ℕ → ℕ → Map
  pub erase : Map → ℕ → Map
  pub find-empty : (k : ℕ) → find empty k ≡ none
  pub find-assign : (m : Map) (k n : ℕ) → find (assign m k n) k ≡ some n
  pub find-assign_ne : (m : Map) (k n j : ℕ) → k ≢ j → find (assign m k n) j ≡ find m j
  pub find-erase : (m : Map) (k : ℕ) → find (erase m k) k ≡ none
  pub find-erase_ne : (m : Map) (k j : ℕ) → k ≢ j → find (erase m k) j ≡ find m j

module _ (cuckoo : CuckooMap) where
  open cuckoo use {Map, empty, find, assign, erase}

  pub record HashTable : Type 0 where
    pub map : Map
    pub list : HashNodeList
    pub fresh : ℕ

  unfoldable pub new_hash_table : (ℕ → HashNode) → HashTable
  new_hash_table nodes = record { map = empty; list = new_list nodes; fresh = 0 }

  -- The node for an inode with the block number `lbn`.
  unfoldable pub new_hash_node : HashTable → (inode lbn : ℕ) → ℕ × HashTable
  new_hash_node table inode lbn =
      let node : HashNode = record {
        inode = some inode;
        lbn = lbn;
        is_valid = true;
        mutex = false;
        prev = none;
        next = none;
      } in
      (
        table.fresh,
        record table {
          list = record (table.list) { nodes = update table.list.nodes table.fresh node };
          fresh = table.fresh + 1;
        },
      )

  -- `lbn_of` is the block number of an inode.
  unfoldable pub insert_hash_node : (lbn_of : ℕ → ℕ) → HashTable → ℕ → Option HashTable
  insert_hash_node lbn_of table node = (table.list.nodes node).inode >>= λ inode.
      some (record table { map = assign table.map (lbn_of inode) node })

  unfoldable pub search_hash_node : HashTable → ℕ → Option ℕ
  search_hash_node table lbn = find table.map lbn

  unfoldable pub logical_delete : HashTable → ℕ → HashTable
  logical_delete table node = record table { list = List.logical_delete_hash_node table.list node }

  unfoldable pub validate : HashTable → (node inode lbn : ℕ) → HashTable
  validate table node inode lbn = record table {
    list = validate_hash_node table.list node inode lbn;
  }

  unfoldable pub physical_delete_hash_node : HashTable → ℕ → HashTable
  physical_delete_hash_node table lbn = record table { map = erase table.map lbn }
