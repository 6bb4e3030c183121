-- ===== src/Hash/Change.antt =====
-- Validation and logical deletion of a node of the hash table (src/nvm0hash.cc): they change what a
-- search for its block finds, and no other search.
use autobahn_app.Prelude.{
  ℕ, ◌≡◌, ◌≢◌, ◌∙◌, refl, sym, subst, true, false, Option, none, some, ==_refl, test_of_ne,
}
use autobahn_app.LfQueue.{update}
use autobahn_app.HashList.{
  HashNode, HashNodeList, set_prev, set_next, push_after, push_back_list_node, validate_hash_node,
  logical_delete_hash_node,
}
use autobahn_app.Pool.Blocks.{update_field}
use autobahn_app.Hash.{CuckooMap, HashTable, logical_delete, validate}
use autobahn_app.Hash.Lookup.{IsTable, Sets, changed-Sets}

true-ne-false : true ≢ false
true-ne-false e = cc

-- A push writes the links alone.
push_after-field {ℓ} :
    {B : Type ℓ} (field : HashNode → B)
    → ((n : HashNode) (p : Option ℕ) → field (record n { prev = p }) ≡ field n)
    → ((n : HashNode) (p : Option ℕ) → field (record n { next = p }) ≡ field n)
    → (list : HashNodeList) (node : ℕ) (tail : Option ℕ) (x : ℕ)
    → field ((push_after list node tail).nodes x) ≡ field (list.nodes x)
push_after-field field hp hn list node none x =
    let first = set_prev none node list.nodes in
    update_field field first node _ (hn (first node) none) x
    ∙ update_field field list.nodes node _ (hp (list.nodes node) none) x
push_after-field field hp hn list node (some last) x =
    let first = set_next (some node) last list.nodes in
    let second = set_prev (some last) node first in
    update_field field second node _ (hn (second node) none) x
    ∙ update_field field first node _ (hp (first node) (some last)) x
    ∙ update_field field list.nodes last _ (hn (list.nodes last) (some node)) x

module _ (cuckoo : CuckooMap) (table : HashTable cuckoo) (t : IsTable cuckoo table) (lbn node : ℕ)
    (found : cuckoo.find table.map lbn ≡ some node) where
  label : (table.list.nodes node).lbn ≡ lbn
  label = t.labelled lbn node found

  -- A node that the map has for the block is validated: a search for the block then finds the
  -- inode, every other search finds what it found, and the table keeps its invariant.
  pub validate-Sets :
      (inode : ℕ) → Sets cuckoo table lbn (some inode) (validate cuckoo table node inode lbn)
  unfolding validate validate_hash_node
  validate-Sets inode =
      subst (λ o. Sets cuckoo table lbn o (validate cuckoo table node inode lbn))
        (rw (==_refl node) refl)
        (changed-Sets cuckoo table (validate cuckoo table node inode lbn) t lbn node found refl refl
          (λ n. update_field (λ x. x.mutex) table.list.nodes node _ refl n)
          (λ n. update_field (λ x. x.lbn) table.list.nodes node _ (sym label) n)
          (λ n ne. (rw (test_of_ne node n ne) refl, rw (test_of_ne node n ne) refl))
          (λ v. (inode, rw (==_refl node) refl)))

  pub validate-inode :
      (inode : ℕ) → ((validate cuckoo table node inode lbn).list.nodes node).inode ≡ some inode
  unfolding validate validate_hash_node
  validate-inode inode = rw (==_refl node) refl

  -- A node that the map has for the block is deleted: a search for the block then finds no valid
  -- node, every other search finds what it found, and the table keeps its invariant.
  pub logical_delete-Sets : Sets cuckoo table lbn none (logical_delete cuckoo table node)
  unfolding logical_delete logical_delete_hash_node push_back_list_node
  logical_delete-Sets =
      let marked : HashNodeList = record (table.list) {
        nodes =
            update table.list.nodes node
              (record (table.list.nodes node) { inode = none; is_valid = false });
      } in
      let invalid : ((push_after marked node marked.tail).nodes node).is_valid ≡ false =
        push_after-field (λ x. x.is_valid) (λ n p. refl) (λ n p. refl) marked node marked.tail node
        ∙ rw (==_refl node) refl in
      subst (λ o. Sets cuckoo table lbn o (logical_delete cuckoo table node)) (rw (invalid) refl)
        (changed-Sets cuckoo table (logical_delete cuckoo table node) t lbn node found refl refl
          (λ n.
            push_after-field (λ x. x.mutex) (λ m p. refl) (λ m p. refl) marked node marked.tail n
            ∙ update_field (λ x. x.mutex) table.list.nodes node _ refl n)
          (λ n.
            push_after-field (λ x. x.lbn) (λ m p. refl) (λ m p. refl) marked node marked.tail n
            ∙ update_field (λ x. x.lbn) table.list.nodes node _ refl n)
          (λ n ne. (
            push_after-field (λ x. x.is_valid) (λ m p. refl) (λ m p. refl) marked node marked.tail n
                ∙ rw (test_of_ne node n ne) refl,
            push_after-field (λ x. x.inode) (λ m p. refl) (λ m p. refl) marked node marked.tail n
                ∙ rw (test_of_ne node n ne) refl,
          ))
          (λ v. absurd (true-ne-false (sym v ∙ invalid))))
