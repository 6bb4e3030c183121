-- ===== src/Avl/Find.antt =====
-- find_invalid_tree_node of src/nvm0avltree.cc: the first invalid node in preorder.
use autobahn_app.Prelude.{
  ℕ, zero, suc, ◌+◌, ◌<◌, ◌≡◌, ◌∙◌, ◌⊎◌, inl, inr, refl, sym, ap, Option, none, some, List, [], ◌∷◌,
  ◌++◌, arith, append-nil, append_assoc, All,
}
use autobahn_app.Avl.{
  Entry, Validity, valid, invalid, Tree, null, node, push_child, find_invalid_loop,
  find_invalid_tree_node, tree_size,
}
use autobahn_app.Avl.Inorder.{inorder}
use autobahn_app.Avl.Sorted.{IsSorted, Above, lookup}
use autobahn_app.Avl.Flags.{count_invalid, count_invalid-append}

abbrev pub preorder : Tree → List Entry
preorder null = []
preorder (node e l r h) = e ∷ (preorder l ++ preorder r)

unfoldable pub first_invalid : List Entry → Option Entry
first_invalid [] = none
first_invalid (x ∷ xs) = elim x.flag [ invalid ↦ some x | valid ↦ first_invalid xs ]

abbrev IsNode : Tree → Type 0
IsNode null = ⊥
IsNode (node e l r h) = Unit

abbrev to_visit : List Tree → List Entry
to_visit [] = []
to_visit (t ∷ s) = preorder t ++ to_visit s

abbrev nodes : List Tree → ℕ
nodes [] = 0
nodes (t ∷ s) = tree_size t + nodes s

push_child-IsNode : (t : Tree) (s : List Tree) → All IsNode s → All IsNode (push_child t s)
unfolding push_child
push_child-IsNode null s a = a
push_child-IsNode (node e l r h) s a = (tt, a)

to_visit-push_child :
    (t : Tree) (s : List Tree) → to_visit (push_child t s) ≡ preorder t ++ to_visit s
unfolding push_child
to_visit-push_child null s = refl
to_visit-push_child (node e l r h) s = refl

nodes-push_child : (t : Tree) (s : List Tree) → nodes (push_child t s) ≡ tree_size t + nodes s
unfolding push_child tree_size
nodes-push_child null s = omega arith
nodes-push_child (node e l r h) s = refl

-- The loop visits what the stack stands for, in preorder.
find_loop-first :
    (f : ℕ) (s : List Tree)
    → All IsNode s
    → nodes s < f
    → find_invalid_loop f s ≡ some (first_invalid (to_visit s))
unfolding find_invalid_loop first_invalid tree_size
find_loop-first zero s a fuel = absurd (omega arith)
find_loop-first (suc f) [] a fuel = refl
find_loop-first (suc f) (null ∷ s) a fuel = absurd a.0
find_loop-first (suc f) (node e l r h ∷ s) a fuel =
    let rest = push_child l (push_child r s) in
    let same : to_visit rest ≡ (preorder l ++ preorder r) ++ to_visit s =
      to_visit-push_child l (push_child r s)
      ∙ ap (λ xs. preorder l ++ xs) (to_visit-push_child r s)
      ∙ sym (append_assoc (preorder l) (preorder r) (to_visit s)) in
    let enough : nodes rest < f =
      omega (arith, nodes-push_child l (push_child r s), nodes-push_child r s) in
    let ih =
      find_loop-first f rest (push_child-IsNode l (push_child r s) (push_child-IsNode r s a.1))
        enough in
    ground (arith, ih, same)

-- The fuel suffices: find_invalid_tree_node returns the first invalid entry in preorder.
pub find-first : (t : Tree) → find_invalid_tree_node t ≡ some (first_invalid (preorder t))
unfolding find_invalid_tree_node
find-first null = unfold find_invalid_loop first_invalid tree_size in refl
find-first (node e l r h) =
    find_loop-first (tree_size (node e l r h) + 1) (node e l r h ∷ []) (tt, tt) (omega arith)
    ∙ ap (λ xs. some (first_invalid xs)) (append-nil _)

pub count_invalid-preorder : (t : Tree) → count_invalid (preorder t) ≡ count_invalid (inorder t)
count_invalid-preorder null = refl
count_invalid-preorder (node e l r h) = omega (
  arith,
  count_invalid-preorder l,
  count_invalid-preorder r,
  count_invalid-append (preorder l) (preorder r),
  count_invalid-append (inorder l) (e ∷ inorder r),
)

flag-cases : (v : Validity) → (v ≡ valid) ⊎ (v ≡ invalid)
flag-cases valid = inl refl
flag-cases invalid = inr refl

abbrev In : Entry → List Entry → Type 0
In e [] = ⊥
In e (x ∷ xs) = (x ≡ e) ⊎ In e xs

In-append_left : (e : Entry) (xs ys : List Entry) → In e xs → In e (xs ++ ys)
In-append_left e [] ys i = elim i [ ]
In-append_left e (x ∷ xs) ys (inl i) = inl i
In-append_left e (x ∷ xs) ys (inr i) = inr (In-append_left e xs ys i)

In-append_right : (e : Entry) (xs ys : List Entry) → In e ys → In e (xs ++ ys)
In-append_right e [] ys i = i
In-append_right e (x ∷ xs) ys i = inr (In-append_right e xs ys i)

In-append : (e : Entry) (xs ys : List Entry) → In e (xs ++ ys) → In e xs ⊎ In e ys
In-append e [] ys i = inr i
In-append e (x ∷ xs) ys (inl i) = inl (inl i)
In-append e (x ∷ xs) ys (inr i) = elim (In-append e xs ys i) [ inl j ↦ inl (inr j) | inr j ↦ inr j ]

In-inorder : (e : Entry) (t : Tree) → In e (preorder t) → In e (inorder t)
In-inorder e null i = i
In-inorder e (node x l r h) (inl i) = In-append_right e (inorder l) (x ∷ inorder r) (inl i)
In-inorder e (node x l r h) (inr i) = elim (In-append e (preorder l) (preorder r) i) [
  | inl j ↦ In-append_left e (inorder l) (x ∷ inorder r) (In-inorder e l j)
  | inr j ↦ In-append_right e (inorder l) (x ∷ inorder r) (inr (In-inorder e r j))
]

lt_of_In : (e : Entry) (k : ℕ) (xs : List Entry) → Above k xs → In e xs → k < e.lbn
lt_of_In e k [] a i = elim i [ ]
lt_of_In e k (x ∷ xs) a (inl i) = rw i at a.0
lt_of_In e k (x ∷ xs) a (inr i) = lt_of_In e k xs a.1 i

lookup_of_In : (e : Entry) (xs : List Entry) → IsSorted xs → In e xs → lookup e.lbn xs ≡ some e
unfolding lookup
lookup_of_In e [] s i = elim i [ ]
lookup_of_In e (x ∷ xs) s (inl i) = ground arith
lookup_of_In e (x ∷ xs) s (inr i) =
    ground (arith, lt_of_In e x.lbn xs s.0 i, lookup_of_In e xs s.1 i)

abbrev FirstOf : List Entry → Type 0
FirstOf xs = (e : Entry) × (first_invalid xs ≡ some e) × (e.flag ≡ invalid) × In e xs

FirstOf-cons : (x : Entry) (xs : List Entry) → x.flag ≡ valid → FirstOf xs → FirstOf (x ∷ xs)
unfolding first_invalid
FirstOf-cons x xs good (e, first, bad, i) = (e, rw good first, bad, inr i)

first-some : (xs : List Entry) → 0 < count_invalid xs → FirstOf xs
first-some [] p = absurd (omega arith)
first-some (x ∷ xs) p = elim (flag-cases x.flag) [
  | inr bad ↦ (x, unfold first_invalid in simp bad, bad, inl refl)
  | inl good ↦ let p' = rw good at p in FirstOf-cons x xs good (first-some xs (omega (arith, p')))
]

-- Where an invalid node is counted, find_invalid_tree_node returns one, and it stands in the tree
-- under its key.
pub find-invalid :
    (t : Tree)
    → IsSorted (inorder t)
    → 0 < count_invalid (inorder t)
    → (e : Entry) × (find_invalid_tree_node t ≡ some (some e))
      × (e.flag ≡ invalid)
      × (lookup e.lbn (inorder t) ≡ some e)
find-invalid t s p =
    let (e, first, bad, i) = first-some (preorder t) (omega (arith, count_invalid-preorder t)) in
    (e, find-first t ∙ ap some first, bad, lookup_of_In e (inorder t) s (In-inorder e t i))
