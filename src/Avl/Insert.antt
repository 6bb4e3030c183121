-- ===== src/Avl/Insert.antt =====
-- insert_tree_node of src/nvm0avltree.cc keeps the tree balanced and cannot fail, for a new key.
use Prim.Native.Nat.{max}
use autobahn_app.Prelude.{
  ℕ, ◌+◌, ◌≤◌, ◌<◌, ◌≡◌, ◌≢◌, ◌∙◌, ◌⊎◌, refl, inl, inr, Option, some, arith, Bool-cases, ltb, ◌>>=◌,
  ltb→lt, ltb→le, lt→ltb, le→ltb, balance_tests,
}
use autobahn_app.Avl.{
  Entry, Tree, null, node, get_height, update_height, insert_fix, insert_tree_node,
}
use autobahn_app.Avl.Shape.{
  IsAvl, heights, update_height-Fixed, single_left, single_right, double_left, double_right,
}

-- No node of the tree has the key.
abbrev pub Absent : ℕ → Tree → Type 0
Absent k null = Unit
Absent k (node e l r h) = (e.lbn ≢ k) × Absent k l × Absent k r

-- The subtree into which `k` belongs is the higher one.
abbrev pub Leans : ℕ → Tree → Type 0
Leans k null = ⊥
Leans k (node e l r h) =
    (h ≡ 1)
    ⊎ ((k < e.lbn) × (get_height r < get_height l))
    ⊎ ((e.lbn < k) × (get_height l < get_height r))

-- What an insertion of `k` makes of `t`.
pub record Grown (k : ℕ) (t t' : Tree) : Type 0 where
  pub avl : IsAvl t'
  pub upper : get_height t' ≤ get_height t + 1
  pub lower : get_height t ≤ get_height t'
  pub leans : get_height t < get_height t' → Leans k t'

abbrev pub Grows : ℕ → Option Tree → Tree → Type 0
Grows k out t = (t' : Tree) × (out ≡ some t') × Grown k t t'

-- A rotation that leaves the height of the higher child.
abbrev Rotates : Option Tree → ℕ → Type 0
Rotates out h = (t : Tree) × (out ≡ some t) × IsAvl t × (get_height t ≡ h)

height_single_left :
    (e x : Entry) (l m r : Tree)
    → get_height (update_height x l (update_height e m r))
      ≡ max (get_height l) (max (get_height m) (get_height r) + 1) + 1
height_single_left e x l m r = omega heights

height_single_right :
    (e x : Entry) (l m r : Tree)
    → get_height (update_height x (update_height e l m) r)
      ≡ max (max (get_height l) (get_height m) + 1) (get_height r) + 1
height_single_right e x l m r = omega heights

height_double :
    (e x w : Entry) (l a b r : Tree)
    → get_height (update_height w (update_height x l a) (update_height e b r))
      ≡ max (max (get_height l) (get_height a) + 1) (max (get_height b) (get_height r) + 1) + 1
height_double e x w l a b r = omega heights

module _ (k : ℕ) (e : Entry) where
  insert_fix-left :
      (l r : Tree)
      → IsAvl l
      → IsAvl r
      → get_height l ≡ get_height r + 2
      → Leans k l
      → Rotates (insert_fix k e l r) (get_height l)
  unfolding insert_fix update_height
  insert_fix-left null r al ar p lean = elim lean [ ]
  insert_fix-left (node x ll lr hx) r al ar p (inl one) = absurd (omega arith)
  insert_fix-left (node x ll lr hx) r al ar p (inr (inl (below, high))) = (
    update_height x ll (update_height e lr r),
    simp (balance_tests, lt→ltb (get_height r + 1) hx (omega arith), lt→ltb k x.lbn below),
    (single_left e x ll lr r hx al ar p (omega arith)).avl,
    omega (arith, height_single_left e x ll lr r),
  )
  insert_fix-left (node x ll null hx) r al ar p (inr (inr (above, high))) = absurd (omega arith)
  insert_fix-left (node x ll (node w a b hw) hx) r al ar p (inr (inr (above, high))) = (
    update_height w (update_height x ll a) (update_height e b r),
    simp (
      balance_tests,
      lt→ltb (get_height r + 1) hx (omega arith),
      le→ltb k x.lbn (omega arith),
      lt→ltb x.lbn k above,
    ),
    (double_left e x w ll a b r hw hx al ar p high).avl,
    omega (arith, height_double e x w ll a b r),
  )

  insert_fix-right :
      (l r : Tree)
      → IsAvl l
      → IsAvl r
      → get_height r ≡ get_height l + 2
      → Leans k r
      → Rotates (insert_fix k e l r) (get_height r)
  unfolding insert_fix update_height
  insert_fix-right l null al ar p lean = elim lean [ ]
  insert_fix-right l (node x rl rr hx) al ar p (inl one) = absurd (omega arith)
  insert_fix-right l (node x rl rr hx) al ar p (inr (inr (above, high))) = (
    update_height x (update_height e l rl) rr,
    simp (
      balance_tests,
      le→ltb (hx + 1) (get_height l) (omega arith),
      lt→ltb (get_height l + 1) hx (omega arith),
      lt→ltb x.lbn k above,
    ),
    (single_right e x l rl rr hx ar al p (omega arith)).avl,
    omega (arith, height_single_right e x l rl rr),
  )
  insert_fix-right l (node x null rr hx) al ar p (inr (inl (below, high))) = absurd (omega arith)
  insert_fix-right l (node x (node w a b hw) rr hx) al ar p (inr (inl (below, high))) = (
    update_height w (update_height e l a) (update_height x b rr),
    simp (
      balance_tests,
      le→ltb (hx + 1) (get_height l) (omega arith),
      lt→ltb (get_height l + 1) hx (omega arith),
      le→ltb x.lbn k (omega arith),
      lt→ltb k x.lbn below,
    ),
    (double_right e x w l a b rr hw hx ar al p high).avl,
    omega (arith, height_double x e w l a b rr),
  )

  insert_fix-even :
      (l r : Tree)
      → get_height l ≤ get_height r + 1
      → get_height r ≤ get_height l + 1
      → insert_fix k e l r ≡ some (update_height e l r)
  unfolding insert_fix update_height
  insert_fix-even l r p q = simp (
    balance_tests,
    le→ltb (get_height r + 1) (get_height l) p,
    le→ltb (get_height l + 1) (get_height r) q,
  )

  Leans-update_height :
      (l r : Tree)
      → ((k < e.lbn) × (get_height r < get_height l))
        ⊎ ((e.lbn < k) × (get_height l < get_height r))
      → Leans k (update_height e l r)
  unfolding update_height
  Leans-update_height l r side = inr side

-- Going down: the child into which the key belongs has grown.
module _ (k : ℕ) (e : Entry) (l r : Tree) (h : ℕ) (a : IsAvl (node e l r h)) where
  Grown-even_left :
      {l' : Tree}
      → k < e.lbn
      → Grown k l l'
      → get_height l' ≤ get_height r + 1
      → Grown k (node e l r h) (update_height e l' r)
  Grown-even_left {l'} below g p = record {
    avl = (update_height-Fixed e l' r g.avl a.1 p (omega arith)).avl;
    upper = omega heights;
    lower = omega heights;
    leans = λ up. Leans-update_height k e l' r (inl (below, omega heights));
  }

  Grown-even_right :
      {r' : Tree}
      → e.lbn < k
      → Grown k r r'
      → get_height r' ≤ get_height l + 1
      → Grown k (node e l r h) (update_height e l r')
  Grown-even_right {r'} above g p = record {
    avl = (update_height-Fixed e l r' a.0 g.avl (omega arith) p).avl;
    upper = omega heights;
    lower = omega heights;
    leans = λ up. Leans-update_height k e l r' (inr (above, omega heights));
  }

  Grown-rotated : {t : Tree} → IsAvl t → get_height t ≡ h → Grown k (node e l r h) t
  Grown-rotated avl same = record {
    avl = avl;
    upper = omega arith;
    lower = omega arith;
    leans = λ up. absurd (omega arith);
  }

  grow_left :
      k < e.lbn
      → (out : Option Tree) → Grows k out l
      → Grows k (out >>= (λ l'. insert_fix k e l' r)) (node e l r h)
  grow_left below out (l', got, g) = elim (Bool-cases (ltb (get_height r + 1) (get_height l'))) [
    | inr small ↦
        let p = ltb→le (get_height r + 1) (get_height l') small in
        (
          update_height e l' r,
          rw got (insert_fix-even k e l' r p (omega arith)),
          Grown-even_left below g p,
        )
    | inl big ↦
        let p = ltb→lt (get_height r + 1) (get_height l') big in
        let (t, done, avl, same) =
          insert_fix-left k e l' r g.avl a.1 (omega arith) (g.leans (omega arith)) in
        (t, rw got done, Grown-rotated avl (same ∙ (omega arith)))
  ]

  grow_right :
      e.lbn < k
      → (out : Option Tree) → Grows k out r
      → Grows k (out >>= (λ r'. insert_fix k e l r')) (node e l r h)
  grow_right above out (r', got, g) = elim (Bool-cases (ltb (get_height l + 1) (get_height r'))) [
    | inr small ↦
        let p = ltb→le (get_height l + 1) (get_height r') small in
        (
          update_height e l r',
          rw got (insert_fix-even k e l r' (omega arith) p),
          Grown-even_right above g p,
        )
    | inl big ↦
        let p = ltb→lt (get_height l + 1) (get_height r') big in
        let (t, done, avl, same) =
          insert_fix-right k e l r' a.0 g.avl (omega arith) (g.leans (omega arith)) in
        (t, rw got done, Grown-rotated avl (same ∙ (omega arith)))
  ]

-- Into a balanced tree without its key, insert_tree_node puts a node without following a null
-- pointer; the tree stays balanced and grows by one level at most.
pub insert-Grows :
    (t : Tree) (n : Entry) → IsAvl t → Absent n.lbn t → Grows n.lbn (insert_tree_node t n) t
unfolding insert_tree_node
insert-Grows null n a new = (
  node n null null 1,
  refl,
  record { avl = omega arith; upper = omega arith; lower = omega arith; leans = λ up. inl refl },
)
insert-Grows (node e l r h) n a new = elim (Bool-cases (ltb n.lbn e.lbn)) [
  | inl below ↦
      rw below (grow_left n.lbn e l r h a (ltb→lt _ _ below) _ (insert-Grows l n a.0 new.1))
  | inr above ↦
      let above' = ltb→le n.lbn e.lbn above in
      let ne = new.0 in
      rw above (grow_right n.lbn e l r h a (omega arith) _ (insert-Grows r n a.1 new.2))
]
