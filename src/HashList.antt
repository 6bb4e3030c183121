-- ===== src/HashList.antt =====
-- src/nvm0list.cc and the nodes of include/nvm0hash.h: the doubly linked list of invalid hash
-- nodes. A pointer to a node is its number in the store, and none is nullptr; a dereference of
-- nullptr answers none.
pub mod Chain
pub mod Removal
mod Tests
use autobahn_app.Prelude.{
  ℕ, ◌+◌, ◌-◌, ◌^◌, Bool, true, false, ◌&&◌, Option, none, some, ◌==◌, if◌then◌else◌, ◌>>=◌,
}
use autobahn_app.LfQueue.{u64, update}

-- `inode` is an index of the inode table; the mutex is a Boolean.
pub record HashNode : Type 0 where
  pub inode : Option ℕ
  pub lbn : ℕ
  pub is_valid : Bool
  pub mutex : Bool
  pub prev : Option ℕ
  pub next : Option ℕ

pub record HashNodeList : Type 0 where
  pub nodes : ℕ → HashNode
  pub head : Option ℕ
  pub tail : Option ℕ
  pub count : ℕ

unfoldable pub new_list : (ℕ → HashNode) → HashNodeList
new_list nodes = record { nodes = nodes; head = none; tail = none; count = 0 }

abbrev pub set_prev : Option ℕ → ℕ → (ℕ → HashNode) → ℕ → HashNode
set_prev p i nodes = update nodes i (record (nodes i) { prev = p })

abbrev pub set_next : Option ℕ → ℕ → (ℕ → HashNode) → ℕ → HashNode
set_next p i nodes = update nodes i (record (nodes i) { next = p })

-- push_back_list_node, by list->tail.
abbrev pub push_after : HashNodeList → ℕ → Option ℕ → HashNodeList
push_after list node none = record list {
  nodes = set_next none node (set_prev none node list.nodes);
  head = some node;
  tail = some node;
  count = u64 (list.count + 1);
}
push_after list node (some last) = record list {
  nodes = set_next none node (set_prev (some last) node (set_next (some node) last list.nodes));
  tail = some node;
  count = u64 (list.count + 1);
}

unfoldable pub push_back_list_node : HashNodeList → ℕ → HashNodeList
push_back_list_node list node = push_after list node list.tail

-- list->head becomes the second node, if there is one.
abbrev pub drop_head : HashNodeList → Option ℕ → HashNodeList
drop_head list none = record list {
  head = none;
  tail = none;
  count = u64 (list.count + 2 ^ 64 - 1);
}
drop_head list (some second) = record list {
  nodes = set_prev none second list.nodes;
  head = some second;
  count = u64 (list.count + 2 ^ 64 - 1);
}

-- pop_front_list_node, by list->head.
abbrev pub pop_head : HashNodeList → Option ℕ → Option ℕ × HashNodeList
pop_head list none = (none, list)
pop_head list (some node) = (some node, drop_head list (list.nodes node).next)

unfoldable pub pop_front_list_node : HashNodeList → Option ℕ × HashNodeList
pop_front_list_node list = pop_head list list.head

abbrev pub same : Option ℕ → ℕ → Bool
same none node = false
same (some i) node = i == node

unfoldable pub remove_list_node : HashNodeList → ℕ → Option HashNodeList
remove_list_node list node =
    let here = list.nodes node in
    let fewer : HashNodeList = record list { count = u64 (list.count + 2 ^ 64 - 1) } in
    if same list.head node && same list.tail node
    then some (record fewer { head = none; tail = none })
    else if same list.head node
    then (here.next >>= λ second.
        some (record fewer { head = some second; nodes = set_prev none second list.nodes }))
    else if same list.tail node
    then (here.prev >>= λ last.
        some (record fewer { tail = some last; nodes = set_next none last list.nodes }))
    else (here.prev >>= λ before.
        let linked = set_next here.next before list.nodes in
        (linked node).next >>= λ after.
        some (record fewer { nodes = set_prev (linked node).prev after linked }))

-- logical_delete_hash_node of src/nvm0hash.cc.
unfoldable pub logical_delete_hash_node : HashNodeList → ℕ → HashNodeList
logical_delete_hash_node list node =
    let marked : HashNode = record (list.nodes node) { inode = none; is_valid = false } in
    push_back_list_node (record list { nodes = update list.nodes node marked }) node

-- validate_hash_node; `lbn` is the number of the inode's block.
unfoldable pub validate_hash_node : HashNodeList → (node inode lbn : ℕ) → HashNodeList
validate_hash_node list node inode lbn =
    let valid : HashNode = record (list.nodes node) {
      inode = some inode;
      lbn = lbn;
      is_valid = true;
    } in
    record list { nodes = update list.nodes node valid }
