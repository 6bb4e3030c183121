-- ===== src/Avl/Shape.antt =====
-- Heights and balance: the rotations of src/nvm0avltree.cc put a node in order whose children
-- differ by two, and never follow a null pointer.
use Prim.Native.Nat.{max}
use autobahn_app.Prelude.{
  ℕ, ◌+◌, ◌≤◌, ◌<◌, ◌≡◌, ◌⊎◌, inl, inr, Option, some, arith, Bool-cases, ltb, ltb→lt, ltb→le,
  lt→ltb, le→ltb, le→leb, lt→leb, balance_tests,
}
use autobahn_app.Avl.{Entry, Tree, null, node, get_height, max_height, update_height, delete_fix}

-- Every stored height is right, and the children of a node differ by at most one.
abbrev pub IsAvl : Tree → Type 0
IsAvl null = Unit
IsAvl (node e l r h) =
    IsAvl l
    × IsAvl r
    × (get_height l ≤ get_height r + 1)
    × (get_height r ≤ get_height l + 1)
    × (h ≡ max (get_height l) (get_height r) + 1)

pub max_height_lem : (a b : ℕ) → max_height a b ≡ max a b
unfolding max_height
max_height_lem a b = ground arith

module _ (e : Entry) (l r : Tree) where
  pub get_height-update_height :
      get_height (update_height e l r) ≡ max (get_height l) (get_height r) + 1
  unfolding update_height
  get_height-update_height = omega (arith, max_height_lem)

  pub update_height-IsAvl :
      IsAvl l
      → IsAvl r
      → get_height l ≤ get_height r + 1
      → get_height r ≤ get_height l + 1
      → IsAvl (update_height e l r)
  unfolding update_height
  update_height-IsAvl al ar p q = (al, ar, p, q, omega (arith, max_height_lem))

pub ruleset heights = (arith, get_height-update_height)

-- What a rebalancing of the children `l` and `r` gives.
pub record Fixed (l r t : Tree) : Type 0 where
  pub avl : IsAvl t
  pub upper : get_height t ≤ max (get_height l) (get_height r) + 1
  pub lower : max (get_height l) (get_height r) ≤ get_height t
  pub even :
      (get_height t ≡ max (get_height l) (get_height r) + 1)
      ⊎ (get_height r + 2 ≤ get_height l)
      ⊎ (get_height l + 2 ≤ get_height r)

pub update_height-Fixed :
    (e : Entry) (l r : Tree)
    → IsAvl l
    → IsAvl r
    → get_height l ≤ get_height r + 1
    → get_height r ≤ get_height l + 1
    → Fixed l r (update_height e l r)
update_height-Fixed e l r al ar p q = record {
  avl = update_height-IsAvl e l r al ar p q;
  upper = omega heights;
  lower = omega heights;
  even = omega heights;
}

-- One rotation, and two.
module _ (e x : Entry) (l m r : Tree) where
  pub single_left :
      (hx : ℕ)
      → IsAvl (node x l m hx)
      → IsAvl r
      → hx ≡ get_height r + 2
      → get_height m ≤ get_height l
      → Fixed (node x l m hx) r (update_height x l (update_height e m r))
  single_left hx a ar p q = record {
    avl =
        update_height-IsAvl x l _ a.0 (update_height-IsAvl e m r a.1 ar (omega arith) (omega arith))
          (omega heights) (omega heights);
    upper = omega heights;
    lower = omega heights;
    even = omega heights;
  }

  pub single_right :
      (hx : ℕ)
      → IsAvl (node x m r hx)
      → IsAvl l
      → hx ≡ get_height l + 2
      → get_height m ≤ get_height r
      → Fixed l (node x m r hx) (update_height x (update_height e l m) r)
  single_right hx a al p q = record {
    avl =
        update_height-IsAvl x _ r (update_height-IsAvl e l m al a.0 (omega arith) (omega arith)) a.1
          (omega heights) (omega heights);
    upper = omega heights;
    lower = omega heights;
    even = omega heights;
  }

module _ (e x w : Entry) (l a b r : Tree) (hw hx : ℕ) where
  abbrev pub middle : Tree
  middle = node w a b hw

  pub double_left :
      IsAvl (node x l middle hx)
      → IsAvl r
      → hx ≡ get_height r + 2
      → get_height l < hw
      → Fixed (node x l middle hx) r (update_height w (update_height x l a) (update_height e b r))
  double_left h ar p q = record {
    avl =
        update_height-IsAvl w _ _ (update_height-IsAvl x l a h.0 h.1.0 (omega arith) (omega arith))
          (update_height-IsAvl e b r h.1.1 ar (omega arith) (omega arith)) (omega heights)
          (omega heights);
    upper = omega heights;
    lower = omega heights;
    even = omega heights;
  }

  pub double_right :
      IsAvl (node x middle r hx)
      → IsAvl l
      → hx ≡ get_height l + 2
      → get_height r < hw
      → Fixed l (node x middle r hx) (update_height w (update_height e l a) (update_height x b r))
  double_right h al p q = record {
    avl =
        update_height-IsAvl w _ _ (update_height-IsAvl e l a al h.0.0 (omega arith) (omega arith))
          (update_height-IsAvl x b r h.0.1 h.1 (omega arith) (omega arith)) (omega heights)
          (omega heights);
    upper = omega heights;
    lower = omega heights;
    even = omega heights;
  }

-- A rebalancing that succeeds, with what it gives.
abbrev pub Rebalances : Option Tree → Tree → Tree → Type 0
Rebalances out l r = (t : Tree) × (out ≡ some t) × Fixed l r t

module _ (e : Entry) where
  delete_fix-even :
      (l r : Tree)
      → IsAvl l
      → IsAvl r
      → get_height l ≤ get_height r + 1
      → get_height r ≤ get_height l + 1
      → Rebalances (delete_fix e l r) l r
  unfolding delete_fix update_height
  delete_fix-even l r al ar p q = (
    update_height e l r,
    simp (
      balance_tests,
      le→ltb (get_height r + 1) (get_height l) p,
      le→ltb (get_height l + 1) (get_height r) q,
    ),
    update_height-Fixed e l r al ar p q,
  )

  delete_fix-left :
      (l r : Tree)
      → IsAvl l
      → IsAvl r
      → get_height l ≡ get_height r + 2
      → Rebalances (delete_fix e l r) l r
  unfolding delete_fix update_height
  delete_fix-left null r al ar p = absurd (omega arith)
  delete_fix-left (node x ll null hx) r al ar p = (
    update_height x ll (update_height e null r),
    simp (
      balance_tests,
      lt→ltb (get_height r + 1) hx (omega arith),
      le→leb 0 (get_height ll) (omega arith),
    ),
    single_left e x ll null r hx al ar p (omega arith),
  )
  delete_fix-left (node x ll (node w a b hw) hx) r al ar p =
      elim (Bool-cases (ltb (get_height ll) hw)) [
        | inl big ↦ (
          update_height w (update_height x ll a) (update_height e b r),
          simp (
            balance_tests,
            lt→ltb (get_height r + 1) hx (omega arith),
            lt→leb hw (get_height ll) (ltb→lt _ _ big),
            big,
          ),
          double_left e x w ll a b r hw hx al ar p (ltb→lt _ _ big),
        )
        | inr small ↦ (
          update_height x ll (update_height e (node w a b hw) r),
          simp (
            balance_tests,
            lt→ltb (get_height r + 1) hx (omega arith),
            le→leb hw (get_height ll) (ltb→le _ _ small),
          ),
          single_left e x ll (node w a b hw) r hx al ar p (ltb→le _ _ small),
        )
      ]

  delete_fix-right :
      (l r : Tree)
      → IsAvl l
      → IsAvl r
      → get_height r ≡ get_height l + 2
      → Rebalances (delete_fix e l r) l r
  unfolding delete_fix update_height
  delete_fix-right l null al ar p = absurd (omega arith)
  delete_fix-right l (node x null rr hx) al ar p = (
    update_height x (update_height e l null) rr,
    simp (
      balance_tests,
      le→ltb (hx + 1) (get_height l) (omega arith),
      lt→ltb (get_height l + 1) hx (omega arith),
      le→leb 0 (get_height rr) (omega arith),
    ),
    single_right e x l null rr hx ar al p (omega arith),
  )
  delete_fix-right l (node x (node w a b hw) rr hx) al ar p =
      elim (Bool-cases (ltb (get_height rr) hw)) [
        | inl big ↦ (
          update_height w (update_height e l a) (update_height x b rr),
          simp (
            balance_tests,
            le→ltb (hx + 1) (get_height l) (omega arith),
            lt→ltb (get_height l + 1) hx (omega arith),
            lt→leb hw (get_height rr) (ltb→lt _ _ big),
            big,
          ),
          double_right e x w l a b rr hw hx ar al p (ltb→lt _ _ big),
        )
        | inr small ↦ (
          update_height x (update_height e l (node w a b hw)) rr,
          simp (
            balance_tests,
            le→ltb (hx + 1) (get_height l) (omega arith),
            lt→ltb (get_height l + 1) hx (omega arith),
            le→leb hw (get_height rr) (ltb→le _ _ small),
          ),
          single_right e x l (node w a b hw) rr hx ar al p (ltb→le _ _ small),
        )
      ]

  -- Rebalancing after a deletion: for children that differ by two at most it succeeds.
  pub delete_fix-Fixed :
      (l r : Tree)
      → IsAvl l
      → IsAvl r
      → get_height l ≤ get_height r + 2
      → get_height r ≤ get_height l + 2
      → Rebalances (delete_fix e l r) l r
  delete_fix-Fixed l r al ar p q = elim (Bool-cases (ltb (get_height r + 1) (get_height l))) [
    | inl left ↦ delete_fix-left l r al ar (omega (arith, ltb→lt _ _ left))
    | inr even ↦ elim (Bool-cases (ltb (get_height l + 1) (get_height r))) [
      | inl right ↦ delete_fix-right l r al ar (omega (arith, ltb→lt _ _ right))
      | inr level ↦ delete_fix-even l r al ar (ltb→le _ _ even) (ltb→le _ _ level)
    ]
  ]
