-- ===== src/HashList/Chain.antt =====
-- The list of src/nvm0list.cc holds a sequence of nodes.
use autobahn_app.Prelude.{
  ℕ, suc, ◌+◌, ◌-◌, ◌^◌, ◌≡◌, ◌≢◌, ◌∙◌, refl, sym, ap, subst, Option, none, some, List, [], ◌∷◌,
  ◌++◌, length, length-append, All, ==_refl, test_of_ne, arith,
}
use autobahn_app.LfQueue.{u64, update}
use autobahn_app.HashList.{
  HashNode, HashNodeList, set_prev, set_next, push_after, push_back_list_node, drop_head, pop_head,
  pop_front_list_node,
}

abbrev pub first : List ℕ → Option ℕ
first [] = none
first (x ∷ xs) = some x

abbrev pub rest : List ℕ → List ℕ
rest [] = []
rest (x ∷ xs) = xs

abbrev pub last_of : ℕ → List ℕ → ℕ
last_of x [] = x
last_of x (y ∷ ys) = last_of y ys

abbrev pub last : List ℕ → Option ℕ
last [] = none
last (x ∷ xs) = some (last_of x xs)

-- Each node points to its neighbours; `p` is before the first.
abbrev pub Links : (ℕ → HashNode) → Option ℕ → List ℕ → Type 0
Links nodes p [] = Unit
Links nodes p (x ∷ xs) =
    ((nodes x).prev ≡ p) × ((nodes x).next ≡ first xs) × Links nodes (some x) xs

abbrev pub Absent : ℕ → List ℕ → Type 0
Absent x xs = All (λ y. x ≢ y) xs

abbrev pub Apart : List ℕ → Type 0
Apart [] = Unit
Apart (x ∷ xs) = Absent x xs × Apart xs

-- The list holds the nodes of the sequence, in order.
pub record Holds (list : HashNodeList) (xs : List ℕ) : Type 0 where
  pub linked : Links list.nodes none xs
  pub starts : list.head ≡ first xs
  pub ends : list.tail ≡ last xs
  pub apart : Apart xs
  pub counted : list.count ≡ u64 (length xs)

pub Links-frame :
    (nodes : ℕ → HashNode) (i : ℕ) (v : HashNode) (p : Option ℕ) (xs : List ℕ)
    → Absent i xs
    → Links nodes p xs
    → Links (update nodes i v) p xs
Links-frame nodes i v p [] h l = tt
Links-frame nodes i v p (x ∷ xs) h l = (
  rw (test_of_ne i x h.0) l.0,
  rw (test_of_ne i x h.0) l.1,
  Links-frame nodes i v (some x) xs h.1 l.2,
)

-- After the store that push_back_list_node makes for a list which ends in `l`.
abbrev pushed : (ℕ → HashNode) → ℕ → ℕ → ℕ → HashNode
pushed nodes l x = set_next none x (set_prev (some l) x (set_next (some x) l nodes))

Absent-last_of : (y z : ℕ) (zs : List ℕ) → Absent y (z ∷ zs) → last_of z zs ≢ y
Absent-last_of y z [] h e = h.0 (sym e)
Absent-last_of y z (w ∷ ws) h e = Absent-last_of y w ws h.1 e

pushed-Links :
    (nodes : ℕ → HashNode) (p : Option ℕ) (y : ℕ) (ys : List ℕ) (x : ℕ)
    → Links nodes p (y ∷ ys)
    → Apart (y ∷ ys)
    → Absent x (y ∷ ys)
    → Links (pushed nodes (last_of y ys) x) p (y ∷ (ys ++ (x ∷ [])))
pushed-Links nodes p y [] x l a h = (
  rw (test_of_ne x y h.0) (rw (==_refl y) l.0),
  rw (test_of_ne x y h.0) (rw (==_refl y) refl),
  (rw (==_refl x) refl, rw (==_refl x) refl, tt),
)
pushed-Links nodes p y (z ∷ zs) x l a h =
    let far = test_of_ne (last_of z zs) y (Absent-last_of y z zs a.0) in
    (
      rw (test_of_ne x y h.0, far) l.0,
      rw (test_of_ne x y h.0, far) l.1,
      pushed-Links nodes (some y) z zs x l.2 a.1 h.1,
    )

Absent-append : (y : ℕ) (ys : List ℕ) (x : ℕ) → Absent y ys → y ≢ x → Absent y (ys ++ (x ∷ []))
Absent-append y [] x h ne = (ne, tt)
Absent-append y (z ∷ zs) x h ne = (h.0, Absent-append y zs x h.1 ne)

last_of-append : (y : ℕ) (ys : List ℕ) (x : ℕ) → last_of y (ys ++ (x ∷ [])) ≡ x
last_of-append y [] x = refl
last_of-append y (z ∷ zs) x = last_of-append z zs x

count_up : (n : ℕ) → u64 (u64 n + 1) ≡ u64 (n + 1)
count_up n = omega arith

pub count_down : (n : ℕ) → u64 (u64 (suc n) + 2 ^ 64 - 1) ≡ u64 n
count_down n = omega arith

pub Apart-append : (xs : List ℕ) (x : ℕ) → Apart xs → Absent x xs → Apart (xs ++ (x ∷ []))
Apart-append [] x a h = (tt, tt)
Apart-append (y ∷ ys) x a h =
    (Absent-append y ys x a.0 (λ e. h.0 (sym e)), Apart-append ys x a.1 h.1)

push_after-Holds :
    (list : HashNodeList) (xs : List ℕ) (x : ℕ)
    → Holds list xs
    → Absent x xs
    → Holds (push_after list x (last xs)) (xs ++ (x ∷ []))
push_after-Holds list [] x is h = record {
  linked = (rw (==_refl x) refl, rw (==_refl x) refl, tt);
  starts = refl;
  ends = refl;
  apart = (tt, tt);
  counted = ap (λ n. u64 (n + 1)) is.counted ∙ count_up 0;
}
push_after-Holds list (y ∷ ys) x is h = record {
  linked = pushed-Links list.nodes none y ys x is.linked is.apart h;
  starts = is.starts;
  ends = ap some (sym (last_of-append y ys x));
  apart = Apart-append (y ∷ ys) x is.apart h;
  counted =
      ap (λ n. u64 (n + 1)) is.counted
      ∙ count_up (suc (length ys))
      ∙ ap u64 (sym (length-append (y ∷ ys) (x ∷ [])));
}

-- The head is the node x, which is followed by the sequence.
pub drop_head-Holds :
    (list : HashNodeList) (x : ℕ) (xs : List ℕ)
    → Holds list (x ∷ xs)
    → Holds (drop_head list (first xs)) xs
drop_head-Holds list x [] is = record {
  linked = tt;
  starts = refl;
  ends = refl;
  apart = tt;
  counted = ap (λ n. u64 (n + 2 ^ 64 - 1)) is.counted ∙ count_down 0;
}
drop_head-Holds list x (y ∷ ys) is = record {
  linked = (
    rw (==_refl y) refl,
    rw (==_refl y) is.linked.2.1,
    Links-frame list.nodes y _ (some y) ys is.apart.1.0 is.linked.2.2,
  );
  starts = refl;
  ends = is.ends;
  apart = is.apart.1;
  counted = ap (λ n. u64 (n + 2 ^ 64 - 1)) is.counted ∙ count_down (suc (length ys));
}

pop_head-Holds :
    (list : HashNodeList) (xs : List ℕ)
    → Holds list xs
    → ((pop_head list (first xs)).0 ≡ first xs) × Holds (pop_head list (first xs)).1 (rest xs)
pop_head-Holds list [] is = (refl, is)
pop_head-Holds list (x ∷ xs) is = (
  refl,
  subst (λ n. Holds (drop_head list n) xs) (sym is.linked.1) (drop_head-Holds list x xs is),
)

-- push_back_list_node on a list of some nodes puts a node that is not among them at the end.
pub push_back_lem :
    (list : HashNodeList) (xs : List ℕ) (x : ℕ)
    → Holds list xs
    → Absent x xs
    → Holds (push_back_list_node list x) (xs ++ (x ∷ []))
unfolding push_back_list_node
push_back_lem list xs x is h =
    subst (λ t. Holds (push_after list x t) (xs ++ (x ∷ []))) (sym is.ends)
      (push_after-Holds list xs x is h)

-- pop_front_list_node on a list of some nodes answers the first one and leaves a list of the rest;
-- on an empty list it answers nullptr and changes nothing.
pub pop_front_lem :
    (list : HashNodeList) (xs : List ℕ)
    → Holds list xs
    → ((pop_front_list_node list).0 ≡ first xs) × Holds (pop_front_list_node list).1 (rest xs)
unfolding pop_front_list_node
pop_front_lem list xs is =
    subst (λ t. ((pop_head list t).0 ≡ first xs) × Holds (pop_head list t).1 (rest xs))
      (sym is.starts) (pop_head-Holds list xs is)
