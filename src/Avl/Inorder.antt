-- ===== src/Avl/Inorder.antt =====
-- The entries of a tree of src/nvm0avltree.cc from left to right, which no rotation changes.
use autobahn_app.Prelude.{
  ◌≡◌, ◌∙◌, ap, sym, ℕ, Bool, true, false, if◌then◌else◌, Option, some, List, [], ◌∷◌, ◌++◌,
  append_assoc, arith, ◌>>=◌, >>=-eq-some,
}
use mathlib.Core.Option.{some-injective}
use autobahn_app.Avl.{
  Entry, Tree, null, node, right_rotate, left_rotate, insert_left_heavy, insert_right_heavy,
  insert_fix, delete_fix, update_height,
}

abbrev pub inorder : Tree → List Entry
inorder null = []
inorder (node e l r h) = inorder l ++ (e ∷ inorder r)

pub inorder-right_rotate : (t t' : Tree) → right_rotate t ≡ some t' → inorder t' ≡ inorder t
unfolding right_rotate update_height
inorder-right_rotate null t' h = cc
inorder-right_rotate (node y null r hy) t' h = cc
inorder-right_rotate (node y (node x l m hx) r hy) t' h =
    ground (arith, append_assoc (inorder l) (x ∷ inorder m) (y ∷ inorder r))

pub inorder-left_rotate : (t t' : Tree) → left_rotate t ≡ some t' → inorder t' ≡ inorder t
unfolding left_rotate update_height
inorder-left_rotate null t' h = cc
inorder-left_rotate (node x l null hx) t' h = cc
inorder-left_rotate (node x l (node y m r hy) hx) t' h =
    ground (arith, append_assoc (inorder l) (x ∷ inorder m) (y ∷ inorder r))

module _ (e : Entry) (l r : Tree) (h : ℕ) where
  inorder-left_right :
      (t : Tree)
      → (left_rotate l >>= (λ l'. right_rotate (node e l' r h))) ≡ some t
      → inorder t ≡ inorder l ++ (e ∷ inorder r)
  inorder-left_right t p =
      let (l', first, second) = >>=-eq-some (left_rotate l) _ p in
      inorder-right_rotate (node e l' r h) t second
      ∙ ap (λ xs. xs ++ (e ∷ inorder r)) (inorder-left_rotate l l' first)

  inorder-right_left :
      (t : Tree)
      → (right_rotate r >>= (λ r'. left_rotate (node e l r' h))) ≡ some t
      → inorder t ≡ inorder l ++ (e ∷ inorder r)
  inorder-right_left t p =
      let (r', first, second) = >>=-eq-some (right_rotate r) _ p in
      inorder-left_rotate (node e l r' h) t second
      ∙ ap (λ xs. inorder l ++ (e ∷ xs)) (inorder-right_rotate r r' first)

-- An `if` whose branches all keep the entries keeps them.
if-some :
    {t : Tree} {xs : List Entry} (b : Bool) (p q : Option Tree)
    → (p ≡ some t → inorder t ≡ xs)
    → (q ≡ some t → inorder t ≡ xs)
    → (if b then p else q) ≡ some t
    → inorder t ≡ xs
if-some true p q hp hq h = hp h
if-some false p q hp hq h = hq h

module _ (e : Entry) (l r t : Tree) where
  same_node : (h : ℕ) → some (node e l r h) ≡ some t → inorder t ≡ inorder l ++ (e ∷ inorder r)
  same_node h p = ap inorder (sym (some-injective _ _ p))

  pub inorder-delete_fix : delete_fix e l r ≡ some t → inorder t ≡ inorder l ++ (e ∷ inorder r)
  unfolding delete_fix
  inorder-delete_fix = if-some _ _ _ (inorder-right_rotate (node e l r _) t) (
      if-some _ _ _ (inorder-left_right e l r _ t) (
        if-some _ _ _ (inorder-left_rotate (node e l r _) t)
          (if-some _ _ _ (inorder-right_left e l r _ t) (same_node _))))

module _ (k : ℕ) (e : Entry) (t : Tree) where
  inorder-insert_left_heavy :
      (l r : Tree) (h : ℕ)
      → insert_left_heavy k e l r h ≡ some t
      → inorder t ≡ inorder l ++ (e ∷ inorder r)
  unfolding insert_left_heavy
  inorder-insert_left_heavy null r h = λ p. cc
  inorder-insert_left_heavy (node x ll lr hx) r h =
      let l = node x ll lr hx in
      if-some _ _ _ (inorder-right_rotate (node e l r h) t)
        (if-some _ _ _ (inorder-left_right e l r h t) (same_node e l r t h))

  inorder-insert_right_heavy :
      (l r : Tree) (h : ℕ)
      → insert_right_heavy k e l r h ≡ some t
      → inorder t ≡ inorder l ++ (e ∷ inorder r)
  unfolding insert_right_heavy
  inorder-insert_right_heavy l null h = λ p. cc
  inorder-insert_right_heavy l (node x rl rr hx) h =
      let r = node x rl rr hx in
      if-some _ _ _ (inorder-left_rotate (node e l r h) t)
        (if-some _ _ _ (inorder-right_left e l r h t) (same_node e l r t h))

  pub inorder-insert_fix :
      (l r : Tree) → insert_fix k e l r ≡ some t → inorder t ≡ inorder l ++ (e ∷ inorder r)
  unfolding insert_fix
  inorder-insert_fix l r =
      if-some _ _ _ (inorder-insert_left_heavy l r _)
        (if-some _ _ _ (inorder-insert_right_heavy l r _) (same_node e l r t _))
