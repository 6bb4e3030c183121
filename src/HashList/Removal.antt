-- ===== src/HashList/Removal.antt =====
-- remove_list_node of src/nvm0list.cc takes a node out of the sequence, wherever it stands.
use autobahn_app.Prelude.{
  ℕ, suc, ◌+◌, ◌-◌, ◌^◌, ◌≡◌, ◌≢◌, ◌∙◌, refl, sym, ap, subst, false, Option, some, none, List, [],
  ◌∷◌, ◌++◌, length, All-append_left, All-append_right, All-append, append-nil, ◌==◌, ==_refl,
  test_of_ne,
}
use autobahn_app.LfQueue.{u64}
use autobahn_app.HashList.{
  HashNode, HashNodeList, set_prev, set_next, same, drop_head, remove_list_node,
}
use autobahn_app.HashList.Chain.{
  first, last_of, last, Links, Absent, Apart, Holds, Links-frame, count_down, drop_head-Holds,
}

-- The node before the removed one and the sequence after it are joined.
abbrev splice : (ℕ → HashNode) → ℕ → List ℕ → ℕ → HashNode
splice nodes l [] = set_next none l nodes
splice nodes l (y ∷ ys) = set_prev (some l) y (set_next (some y) l nodes)

-- What is unchanged in the other nodes.
splice-ne :
    (nodes : ℕ → HashNode) (l : ℕ) (ys : List ℕ) (x : ℕ)
    → l ≢ x
    → Absent x ys
    → splice nodes l ys x ≡ nodes x
splice-ne nodes l [] x ne h = rw (test_of_ne l x ne) refl
splice-ne nodes l (y ∷ ys) x ne h =
    rw (test_of_ne y x (λ e. h.0 (sym e))) (rw (test_of_ne l x ne) refl)

splice-after :
    (nodes : ℕ → HashNode) (p : Option ℕ) (l : ℕ) (ys : List ℕ)
    → Links nodes p ys
    → Absent l ys
    → Apart ys
    → Links (splice nodes l ys) (some l) ys
splice-after nodes p l [] links h a = tt
splice-after nodes p l (y ∷ ys) links h a = (
  rw (==_refl y) refl,
  rw (==_refl y) (rw (test_of_ne l y h.0) links.1),
  Links-frame (set_next (some y) l nodes) y _ (some y) ys a.0
      (Links-frame nodes l _ (some y) ys h.1 links.2),
)

splice-here :
    (nodes : ℕ → HashNode) (l : ℕ) (ys : List ℕ)
    → Absent l ys
    → ((splice nodes l ys l).prev ≡ (nodes l).prev) × ((splice nodes l ys l).next ≡ first ys)
splice-here nodes l [] h = (rw (==_refl l) refl, rw (==_refl l) refl)
splice-here nodes l (y ∷ ys) h = (
  rw (test_of_ne y l (λ e. h.0 (sym e))) (rw (==_refl l) refl),
  rw (test_of_ne y l (λ e. h.0 (sym e))) (rw (==_refl l) refl),
)

Apart-right : (xs ys : List ℕ) → Apart (xs ++ ys) → Apart ys
Apart-right [] ys a = a
Apart-right (x ∷ xs) ys a = Apart-right xs ys a.1

-- The sequence without a node in its middle.
Apart-without : (xs : List ℕ) (n : ℕ) (ys : List ℕ) → Apart (xs ++ (n ∷ ys)) → Apart (xs ++ ys)
Apart-without [] n ys a = a.1
Apart-without (x ∷ xs) n ys a = (
  All-append (λ y. x ≢ y) xs ys (All-append_left (λ y. x ≢ y) xs (n ∷ ys) a.0)
      (All-append_right (λ y. x ≢ y) xs (n ∷ ys) a.0).1,
  Apart-without xs n ys a.1,
)

last_of-mid :
    (x : ℕ) (xs : List ℕ) (n : ℕ) (ys : List ℕ) → last_of x (xs ++ (n ∷ ys)) ≡ last_of n ys
last_of-mid x [] n ys = refl
last_of-mid x (z ∷ zs) n ys = last_of-mid z zs n ys

-- A node is not the last one of the nodes after it, whatever they are.
ne_last : (x z : ℕ) (zs : List ℕ) → Absent x (z ∷ zs) → last_of z zs ≢ x
ne_last x z [] h e = h.0 (sym e)
ne_last x z (w ∷ ws) h e = ne_last x w ws h.1 e

spliced-Links :
    (nodes : ℕ → HashNode) (p : Option ℕ) (x : ℕ) (xs : List ℕ) (n : ℕ) (ys : List ℕ)
    → Links nodes p (x ∷ (xs ++ (n ∷ ys)))
    → Apart (x ∷ (xs ++ (n ∷ ys)))
    → Links (splice nodes (last_of x xs) ys) p (x ∷ (xs ++ ys))
spliced-Links nodes p x [] n ys links a =
    let here = splice-here nodes x ys a.0.1 in
    (here.0 ∙ links.0, here.1, splice-after nodes (some n) x ys links.2.2 a.0.1 a.1.1)
spliced-Links nodes p x (z ∷ zs) n ys links a =
    let whole = a.0 in
    let left = All-append_left (λ y. x ≢ y) (z ∷ zs) (n ∷ ys) whole in
    let right = (All-append_right (λ y. x ≢ y) (z ∷ zs) (n ∷ ys) whole).1 in
    let same_node = splice-ne nodes (last_of z zs) ys x (ne_last x z zs left) right in
    (
      ap (λ h. h.prev) same_node ∙ links.0,
      ap (λ h. h.next) same_node ∙ links.1,
      spliced-Links nodes (some x) z zs n ys links.2 a.1,
    )

-- The neighbours of the node that goes.
neighbours :
    (nodes : ℕ → HashNode) (p : Option ℕ) (x : ℕ) (xs : List ℕ) (n : ℕ) (ys : List ℕ)
    → Links nodes p (x ∷ (xs ++ (n ∷ ys)))
    → ((nodes n).prev ≡ some (last_of x xs)) × ((nodes n).next ≡ first ys)
neighbours nodes p x [] n ys links = (links.2.0, links.2.1)
neighbours nodes p x (z ∷ zs) n ys links = neighbours nodes (some x) z zs n ys links.2

count_without :
    (xs : List ℕ) (n : ℕ) (ys : List ℕ) → length (xs ++ (n ∷ ys)) ≡ suc (length (xs ++ ys))
count_without [] n ys = refl
count_without (x ∷ xs) n ys = ap suc (count_without xs n ys)

module _ (list : HashNodeList) (x : ℕ) (xs : List ℕ) (n : ℕ) (ys : List ℕ)
    (is : Holds list (x ∷ (xs ++ (n ∷ ys)))) where
  abbrev spliced : HashNodeList
  spliced = record {
    nodes = splice list.nodes (last_of x xs) ys;
    head = list.head;
    tail = last (x ∷ (xs ++ ys));
    count = u64 (list.count + 2 ^ 64 - 1);
  }

  spliced-Holds : Holds spliced (x ∷ (xs ++ ys))
  spliced-Holds = record {
    linked = spliced-Links list.nodes none x xs n ys is.linked is.apart;
    starts = is.starts;
    ends = refl;
    apart = Apart-without (x ∷ xs) n ys is.apart;
    counted =
        ap (λ c. u64 (c + 2 ^ 64 - 1)) (is.counted ∙ ap u64 (count_without (x ∷ xs) n ys))
        ∙ count_down (suc (length (xs ++ ys)));
  }

  not_first : same list.head n ≡ false
  not_first =
      ap (λ o. same o n) is.starts
      ∙ test_of_ne x n (All-append_right (λ y. x ≢ y) xs (n ∷ ys) is.apart.0).0

  before : (list.nodes n).prev ≡ some (last_of x xs)
  before = (neighbours list.nodes none x xs n ys is.linked).0

  after : (list.nodes n).next ≡ first ys
  after = (neighbours list.nodes none x xs n ys is.linked).1

last_ne :
    (x : ℕ) (xs : List ℕ) (n : ℕ) (ys : List ℕ) → Apart (x ∷ (xs ++ (n ∷ ys))) → last_of x xs ≢ n
last_ne x [] n ys a = a.0.0
last_ne x (z ∷ zs) n ys a = last_ne z zs n ys a.1

-- The node is the last one.
remove_last :
    (list : HashNodeList) (x : ℕ) (xs : List ℕ) (n : ℕ)
    → Holds list (x ∷ (xs ++ (n ∷ [])))
    → (left : HashNodeList) × (remove_list_node list n ≡ some left) × Holds left (x ∷ (xs ++ []))
unfolding remove_list_node
remove_last list x xs n is =
    let l = last_of x xs in
    let ends : list.tail ≡ some n = is.ends ∙ ap some (last_of-mid x xs n []) in
    let tail : some l ≡ last (x ∷ (xs ++ [])) =
      ap (λ q. some (last_of x q)) (sym (append-nil xs)) in
    (
      record list {
        nodes = set_next none l list.nodes;
        tail = some l;
        count = u64 (list.count + 2 ^ 64 - 1);
      },
      rw (not_first list x xs n [] is)
          (rw (ends) (rw (==_refl n) (rw (before list x xs n [] is) refl))),
      subst
          (λ t.
            Holds
              (record list {
                nodes = set_next none l list.nodes;
                tail = t;
                count = u64 (list.count + 2 ^ 64 - 1);
              })
              (x ∷ (xs ++ [])))
          (sym tail) (spliced-Holds list x xs n [] is),
    )

-- The node has neighbours on both sides.
remove_inner :
    (list : HashNodeList) (x : ℕ) (xs : List ℕ) (n y : ℕ) (ys : List ℕ)
    → Holds list (x ∷ (xs ++ (n ∷ (y ∷ ys))))
    → (left : HashNodeList) × (remove_list_node list n ≡ some left)
      × Holds left (x ∷ (xs ++ (y ∷ ys)))
unfolding remove_list_node
remove_inner list x xs n y ys is =
    let l = last_of x xs in
    let ends : list.tail ≡ some (last_of y ys) = is.ends ∙ ap some (last_of-mid x xs n (y ∷ ys)) in
    let tail : last (x ∷ (xs ++ (y ∷ ys))) ≡ list.tail =
      ap some (last_of-mid x xs y ys) ∙ sym ends in
    let apart_n = (Apart-right (x ∷ xs) (n ∷ (y ∷ ys)) is.apart).0 in
    let not_last : (last_of y ys == n) ≡ false =
      test_of_ne (last_of y ys) n (ne_last n y ys apart_n) in
    let apart_l : (l == n) ≡ false = test_of_ne l n (last_ne x xs n (y ∷ ys) is.apart) in
    let prev = before list x xs n (y ∷ ys) is in
    let next = after list x xs n (y ∷ ys) is in
    (
      record list { nodes = splice list.nodes l (y ∷ ys); count = u64 (list.count + 2 ^ 64 - 1) },
      rw (not_first list x xs n (y ∷ ys) is)
          (rw (ap (λ t. same t n) ends ∙ not_last) (rw (prev) (rw (apart_l) (rw (next) refl)))),
      subst
          (λ t.
            Holds
              (record list {
                nodes = splice list.nodes l (y ∷ ys);
                tail = t;
                count = u64 (list.count + 2 ^ 64 - 1);
              })
              (x ∷ (xs ++ (y ∷ ys))))
          tail (spliced-Holds list x xs n (y ∷ ys) is),
    )

-- The node is the first one.
remove_first :
    (list : HashNodeList) (n : ℕ) (ys : List ℕ)
    → Holds list (n ∷ ys)
    → (left : HashNodeList) × (remove_list_node list n ≡ some left) × Holds left ys
unfolding remove_list_node
remove_first list n [] is = (
  drop_head list none,
  rw (is.starts, is.ends) (rw (==_refl n) refl),
  drop_head-Holds list n [] is,
)
remove_first list n (y ∷ ys) is = (
  drop_head list (some y),
  rw (is.starts, is.ends)
      (rw (==_refl n)
        (rw (test_of_ne (last_of y ys) n (ne_last n y ys is.apart.0)) (rw (is.linked.1) refl))),
  drop_head-Holds list n (y ∷ ys) is,
)

-- On a list of some nodes, remove_list_node of one of them returns, and leaves a list of the others
-- in their order.
pub remove_list_node_lem :
    (list : HashNodeList) (xs : List ℕ) (n : ℕ) (ys : List ℕ)
    → Holds list (xs ++ (n ∷ ys))
    → (left : HashNodeList) × (remove_list_node list n ≡ some left) × Holds left (xs ++ ys)
remove_list_node_lem list [] n ys is = remove_first list n ys is
remove_list_node_lem list (x ∷ xs) n [] is = remove_last list x xs n is
remove_list_node_lem list (x ∷ xs) n (y ∷ ys) is = remove_inner list x xs n y ys is
