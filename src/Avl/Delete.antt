-- ===== src/Avl/Delete.antt =====
-- physical_delete_tree_node of src/nvm0avltree.cc keeps the tree balanced and cannot fail.
use autobahn_app.Prelude.{
  ℕ, ◌+◌, ◌≤◌, ◌≡◌, refl, inl, inr, true, false, Option, some, arith, Bool-cases, ltb, ◌>>=◌,
}
use autobahn_app.Avl.{
  Entry, Tree, null, node, get_height, delete_fix, delete_refix, delete_here, min_value_node,
  physical_delete_tree_node,
}
use autobahn_app.Avl.Shape.{IsAvl, Fixed, delete_fix-Fixed}

-- What a deletion makes of `t`.
pub record Shrunk (t t' : Tree) : Type 0 where
  pub avl : IsAvl t'
  pub upper : get_height t' ≤ get_height t
  pub lower : get_height t ≤ get_height t' + 1

abbrev pub Shrinks : Option Tree → Tree → Type 0
Shrinks out t = (t' : Tree) × (out ≡ some t') × Shrunk t t'

module _ (e m : Entry) (l r : Tree) (h : ℕ) (a : IsAvl (node e l r h)) where
  Shrunk-left : {l' t : Tree} → Shrunk l l' → Fixed l' r t → Shrunk (node e l r h) t
  Shrunk-left s f = record { avl = f.avl; upper = omega arith; lower = omega arith }

  Shrunk-right : {r' t : Tree} → Shrunk r r' → Fixed l r' t → Shrunk (node e l r h) t
  Shrunk-right s f = record { avl = f.avl; upper = omega arith; lower = omega arith }

  shrink_left :
      (out : Option Tree)
      → Shrinks out l
      → Shrinks (out >>= (λ l'. delete_fix e l' r)) (node e l r h)
  shrink_left out (l', got, s) =
      let (t, done, f) = delete_fix-Fixed e l' r s.avl a.1 (omega arith) (omega arith) in
      (t, rw got done, Shrunk-left s f)

  -- The entry at the node may have been replaced by `m`.
  shrink_right :
      (out : Option Tree)
      → Shrinks out r
      → Shrinks (out >>= (λ r'. delete_fix m l r')) (node e l r h)
  shrink_right out (r', got, s) =
      let (t, done, f) = delete_fix-Fixed m l r' a.0 s.avl (omega arith) (omega arith) in
      (t, rw got done, Shrunk-right s f)

pub min_value_node-some :
    (e : Entry) (l r : Tree) (h : ℕ) → (m : Entry) × (min_value_node (node e l r h) ≡ some m)
unfolding min_value_node
min_value_node-some e null r h = (e, refl)
min_value_node-some e (node x ll lr hx) r h = min_value_node-some x ll lr hx

refix-Shrinks :
    (e : Entry) (l r : Tree) (h : ℕ)
    → IsAvl (node e l r h)
    → (t : Tree) × (delete_refix (node e l r h) ≡ some t) × IsAvl t × (get_height t ≡ h)
unfolding delete_refix
refix-Shrinks e l r h a =
    let (t, done, f) = delete_fix-Fixed e l r a.0 a.1 (omega arith) (omega arith) in
    (t, done, f.avl, omega arith)

-- A condition on the right child where there is one.
abbrev IfNode : Tree → Type 0 → Type 0
IfNode null P = Unit
IfNode (node e l r h) P = P

here-Shrinks :
    (e : Entry) (l r : Tree) (h : ℕ) (both : Option Tree)
    → IsAvl (node e l r h)
    → IfNode r (Shrinks both (node e l r h))
    → Shrinks (delete_here l r both) (node e l r h)
unfolding delete_here
here-Shrinks e null null h both a s = (
  null,
  unfold delete_refix in refl,
  record { avl = tt; upper = omega arith; lower = omega arith },
)
here-Shrinks e null (node y rl rr hy) h both a s =
    let (t, done, avl, same) = refix-Shrinks y rl rr hy a.1 in
    (t, done, record { avl = avl; upper = omega (arith, same); lower = omega (arith, same) })
here-Shrinks e (node x ll lr hx) null h both a s =
    let (t, done, avl, same) = refix-Shrinks x ll lr hx a.0 in
    (t, done, record { avl = avl; upper = omega (arith, same); lower = omega (arith, same) })
here-Shrinks e (node x ll lr hx) (node y rl rr hy) h both a s = s

-- The three branches of physical_delete_tree_node.
module _ (e : Entry) (l r : Tree) (h k : ℕ) where
  pub delete_below :
      ltb k e.lbn ≡ true
      → physical_delete_tree_node (node e l r h) k
        ≡ (physical_delete_tree_node l k >>= (λ l'. delete_fix e l' r))
  unfolding physical_delete_tree_node
  delete_below p = rw p

  pub delete_above :
      ltb k e.lbn ≡ false
      → ltb e.lbn k ≡ true
      → physical_delete_tree_node (node e l r h) k
        ≡ (physical_delete_tree_node r k >>= (λ r'. delete_fix e l r'))
  unfolding physical_delete_tree_node
  delete_above p q = rw (p, q)

  pub delete_at :
      ltb k e.lbn ≡ false
      → ltb e.lbn k ≡ false
      → physical_delete_tree_node (node e l r h) k
        ≡ delete_here l r (
            min_value_node r
            >>= (λ m. physical_delete_tree_node r m.lbn >>= (λ r'. delete_fix m l r')))
  unfolding physical_delete_tree_node
  delete_at p q = rw (p, q)

-- The successor is taken out of the right child, whatever its key.
successor-Shrinks :
    (e : Entry) (l r : Tree) (h : ℕ)
    → IsAvl (node e l r h)
    → ((k : ℕ) → Shrinks (physical_delete_tree_node r k) r)
    → IfNode r (
        Shrinks
          (min_value_node r
            >>= (λ m. physical_delete_tree_node r m.lbn >>= (λ r'. delete_fix m l r')))
          (node e l r h))
successor-Shrinks e l null h a s = tt
successor-Shrinks e l (node y rl rr hy) h a s =
    let (m, least) = min_value_node-some y rl rr hy in
    rw least (shrink_right e m l (node y rl rr hy) h a _ (s m.lbn))

-- On a balanced tree physical_delete_tree_node follows no null pointer, and gives a balanced tree
-- that is at most one lower.
pub delete-Shrinks : (t : Tree) (k : ℕ) → IsAvl t → Shrinks (physical_delete_tree_node t k) t
delete-Shrinks null k a = (
  null,
  unfold physical_delete_tree_node in refl,
  record { avl = tt; upper = omega arith; lower = omega arith },
)
delete-Shrinks (node e l r h) k a = elim (Bool-cases (ltb k e.lbn)) [
  | inl below ↦
      rw (delete_below e l r h k below) (shrink_left e e l r h a _ (delete-Shrinks l k a.0))
  | inr high ↦ elim (Bool-cases (ltb e.lbn k)) [
    | inl above ↦
        rw (delete_above e l r h k high above) (shrink_right e e l r h a _ (delete-Shrinks r k a.1))
    | inr here ↦
        rw (delete_at e l r h k high here)
          (here-Shrinks e l r h _ a (successor-Shrinks e l r h a (λ j. delete-Shrinks r j a.1)))
  ]
]
