-- ===== src/Avl/Contents.antt =====
-- The operations of src/nvm0avltree.cc, seen on the entries of the tree in order.
use autobahn_app.Prelude.{
  ℕ, ◌≡◌, ◌∙◌, refl, ap, sym, inl, inr, Option, none, some, List, ◌∷◌, ◌++◌, append-nil, arith, ltb,
  ◌>>=◌, >>=-eq-some, Bool-cases, ltb→lt, ltb→le,
}
use mathlib.Core.Option.{some-injective}
use autobahn_app.Avl.{
  Entry, Tree, null, node, insert_fix, delete_fix, delete_refix, delete_here, min_value_node,
  insert_tree_node, physical_delete_tree_node, search_tree_node,
}
use autobahn_app.Avl.Sorted.{IsSorted, IsSorted-Split, Split, Below, Above}
use autobahn_app.Avl.Sorted
use autobahn_app.Avl.Inorder.{inorder, inorder-insert_fix, inorder-delete_fix}
use autobahn_app.Avl.Insert.{Absent}
use autobahn_app.Avl.Delete.{delete_below, delete_above, delete_at}

-- Searching the tree is searching the list.
pub search-lookup :
    (t : Tree) (k : ℕ) → IsSorted (inorder t) → search_tree_node t k ≡ Sorted.lookup k (inorder t)
unfolding search_tree_node Sorted.lookup
search-lookup null k s = refl
search-lookup (node e l r h) k s =
    let f = IsSorted-Split (inorder l) e (inorder r) s in
    ground (
      arith,
      search-lookup l k f.left,
      search-lookup r k f.right,
      Sorted.lookup-append_at k e (inorder r) (inorder l),
      Sorted.lookup-append_below k e (inorder r) (inorder l),
      Sorted.lookup-append_above k e (inorder r) (inorder l),
      f.below,
      f.above,
    )

-- A key that is not found stands at no node.
pub Absent-lookup :
    (t : Tree) (k : ℕ) → IsSorted (inorder t) → Sorted.lookup k (inorder t) ≡ none → Absent k t
Absent-lookup null k s new = tt
Absent-lookup (node e l r h) k s new =
    let f = IsSorted-Split (inorder l) e (inorder r) s in
    let (ne, nl, nr) = Sorted.lookup-append_none k (inorder l) e (inorder r) new in
    (ne, Absent-lookup l k f.left nl, Absent-lookup r k f.right nr)

inorder-bind_left :
    (k : ℕ) (e : Entry) (r : Tree) (out : Option Tree) (t : Tree)
    → (out >>= (λ l'. insert_fix k e l' r)) ≡ some t
    → (l' : Tree) × (out ≡ some l') × (inorder t ≡ inorder l' ++ (e ∷ inorder r))
inorder-bind_left k e r out t p =
    let (l', got, fixed) = >>=-eq-some out _ p in (l', got, inorder-insert_fix k e t l' r fixed)

inorder-bind_right :
    (k : ℕ) (e : Entry) (l : Tree) (out : Option Tree) (t : Tree)
    → (out >>= (λ r'. insert_fix k e l r')) ≡ some t
    → (r' : Tree) × (out ≡ some r') × (inorder t ≡ inorder l ++ (e ∷ inorder r'))
inorder-bind_right k e l out t p =
    let (r', got, fixed) = >>=-eq-some out _ p in (r', got, inorder-insert_fix k e t l r' fixed)

-- insert_tree_node inserts in the order of the keys.
pub inorder-insert :
    (t : Tree) (n : Entry) (t' : Tree)
    → IsSorted (inorder t)
    → insert_tree_node t n ≡ some t'
    → inorder t' ≡ Sorted.insert n (inorder t)
unfolding insert_tree_node
inorder-insert null n t' s p = unfold Sorted.insert in ap inorder (sym (some-injective _ _ p))
inorder-insert (node e l r h) n t' s p =
    let f = IsSorted-Split (inorder l) e (inorder r) s in
    elim (Bool-cases (ltb n.lbn e.lbn)) [
      | inl below ↦
          let (l', got, same) =
            inorder-bind_left n.lbn e r (insert_tree_node l n) t' (rw below at p) in
          same
          ∙ ap (λ xs. xs ++ (e ∷ inorder r)) (inorder-insert l n l' f.left got)
          ∙ sym (Sorted.insert-append_below n e (inorder r) (inorder l) (ltb→lt _ _ below))
      | inr above ↦
          let (r', got, same) =
            inorder-bind_right n.lbn e l (insert_tree_node r n) t' (rw above at p) in
          same
          ∙ ap (λ xs. inorder l ++ (e ∷ xs)) (inorder-insert r n r' f.right got)
          ∙ sym (Sorted.insert-append_above n e (inorder r) (inorder l) (ltb→le _ _ above) f.below)
    ]

inorder-min_value_node :
    (t : Tree) (m : Entry)
    → min_value_node t ≡ some m
    → (rest : List Entry) × (inorder t ≡ m ∷ rest)
unfolding min_value_node
inorder-min_value_node null m p = cc
inorder-min_value_node (node e null r h) m p =
    (inorder r, ap (λ x. x ∷ inorder r) (some-injective _ _ p))
inorder-min_value_node (node e (node x ll lr hx) r h) m p =
    let (rest, first) = inorder-min_value_node (node x ll lr hx) m p in
    (rest ++ (e ∷ inorder r), ap (λ xs. xs ++ (e ∷ inorder r)) first)

inorder-delete_refix : (t t' : Tree) → delete_refix t ≡ some t' → inorder t' ≡ inorder t
unfolding delete_refix
inorder-delete_refix null t' p = ap inorder (sym (some-injective _ _ p))
inorder-delete_refix (node e l r h) t' p = inorder-delete_fix e l r t' p

-- The successor of the deleted entry takes its place.
abbrev successor : Tree → Tree → Option Tree
successor l r =
    min_value_node r >>= (λ m. physical_delete_tree_node r m.lbn >>= (λ r'. delete_fix m l r'))

abbrev Erases : Tree → Type 0
Erases r =
    (j : ℕ) (r' : Tree)
    → physical_delete_tree_node r j ≡ some r'
    → inorder r' ≡ Sorted.erase j (inorder r)

inorder-successor :
    (l r t : Tree) → Erases r → successor l r ≡ some t → inorder t ≡ inorder l ++ inorder r
inorder-successor l r t erases p =
    let (m, least, more) = >>=-eq-some (min_value_node r) _ p in
    let (r', gone, fixed) = >>=-eq-some (physical_delete_tree_node r m.lbn) _ more in
    let (rest, first) = inorder-min_value_node r m least in
    let left : inorder r' ≡ rest =
      erases m.lbn r' gone ∙ ap (Sorted.erase m.lbn) first ∙ Sorted.erase-head m rest in
    inorder-delete_fix m l r' t fixed
    ∙ ap (λ xs. inorder l ++ (m ∷ xs)) left
    ∙ ap (λ xs. inorder l ++ xs) (sym first)

inorder-delete_here :
    (l r t : Tree)
    → Erases r
    → delete_here l r (successor l r) ≡ some t
    → inorder t ≡ inorder l ++ inorder r
unfolding delete_here
inorder-delete_here null r t erases p = inorder-delete_refix r t p
inorder-delete_here (node x ll lr hx) null t erases p =
    inorder-delete_refix (node x ll lr hx) t p ∙ sym (append-nil _)
inorder-delete_here (node x ll lr hx) (node y rl rr hy) t erases p =
    inorder-successor (node x ll lr hx) (node y rl rr hy) t erases p

-- physical_delete_tree_node takes out the entry with the key.
pub inorder-delete :
    (t : Tree) (k : ℕ) (t' : Tree)
    → IsSorted (inorder t)
    → physical_delete_tree_node t k ≡ some t'
    → inorder t' ≡ Sorted.erase k (inorder t)
inorder-delete null k t' s p =
    unfold physical_delete_tree_node Sorted.erase in ap inorder (sym (some-injective _ _ p))
inorder-delete (node e l r h) k t' s p =
    let f = IsSorted-Split (inorder l) e (inorder r) s in
    elim (Bool-cases (ltb k e.lbn)) [
      | inl below ↦
          let (l', got, fixed) =
            >>=-eq-some (physical_delete_tree_node l k) _
              (sym (delete_below e l r h k below) ∙ p) in
          inorder-delete_fix e l' r t' fixed
          ∙ ap (λ xs. xs ++ (e ∷ inorder r)) (inorder-delete l k l' f.left got)
          ∙ sym (Sorted.erase-append_below k e (inorder r) (inorder l) (ltb→lt _ _ below) f.above)
      | inr high ↦ elim (Bool-cases (ltb e.lbn k)) [
        | inl above ↦
            let (r', got, fixed) =
              >>=-eq-some (physical_delete_tree_node r k) _
                (sym (delete_above e l r h k high above) ∙ p) in
            inorder-delete_fix e l r' t' fixed
            ∙ ap (λ xs. inorder l ++ (e ∷ xs)) (inorder-delete r k r' f.right got)
            ∙ sym (Sorted.erase-append_above k e (inorder r) (inorder l) (ltb→lt _ _ above) f.below)
        | inr here ↦
            inorder-delete_here l r t' (λ j r' q. inorder-delete r j r' f.right q)
              (sym (delete_at e l r h k high here) ∙ p)
            ∙ sym (
                Sorted.erase-append_at k e (inorder r) (inorder l)
                  (omega (arith, ltb→le _ _ high, ltb→le _ _ here)) f.below)
      ]
    ]
