-- ===== src/Avl/Sorted.antt =====
-- The abstract view of the tree of src/nvm0avltree.cc: the entries in the order of their keys.
use autobahn_app.Prelude.{
  ℕ, ◌≤◌, ◌<◌, ◌≡◌, ◌≢◌, refl, Option, none, some, List, [], ◌∷◌, ◌++◌, arith, ltb, ◌==◌,
  if◌then◌else◌, All, All-append_left, All-append_right,
}
use autobahn_app.Avl.{Entry}

abbrev pub Below : ℕ → List Entry → Type 0
Below k = All (λ e. e.lbn < k)

abbrev pub Above : ℕ → List Entry → Type 0
Above k = All (λ e. k < e.lbn)

-- Strictly increasing keys.
abbrev pub IsSorted : List Entry → Type 0
IsSorted [] = Unit
IsSorted (x ∷ xs) = Above x.lbn xs × IsSorted xs

unfoldable pub lookup : ℕ → List Entry → Option Entry
lookup k [] = none
lookup k (x ∷ xs) = if k == x.lbn then some x else lookup k xs

unfoldable pub insert : Entry → List Entry → List Entry
insert n [] = n ∷ []
insert n (x ∷ xs) = if ltb n.lbn x.lbn then n ∷ x ∷ xs else x ∷ insert n xs

unfoldable pub erase : ℕ → List Entry → List Entry
erase k [] = []
erase k (x ∷ xs) = if k == x.lbn then xs else x ∷ erase k xs

pub record Split (xs : List Entry) (e : Entry) (ys : List Entry) : Type 0 where
  pub left : IsSorted xs
  pub below : Below e.lbn xs
  pub above : Above e.lbn ys
  pub right : IsSorted ys

pub IsSorted-Split :
    (xs : List Entry) (e : Entry) (ys : List Entry) → IsSorted (xs ++ e ∷ ys) → Split xs e ys
IsSorted-Split [] e ys s = record { left = tt; below = tt; above = s.0; right = s.1 }
IsSorted-Split (x ∷ xs) e ys s =
    let t = IsSorted-Split xs e ys s.1 in
    record {
      left = (All-append_left _ xs _ s.0, t.left);
      below = ((All-append_right (λ y. x.lbn < y.lbn) xs (e ∷ ys) s.0).0, t.below);
      above = t.above;
      right = t.right;
    }

pub lookup-Above : (k : ℕ) (xs : List Entry) → Above k xs → lookup k xs ≡ none
unfolding lookup
lookup-Above k [] a = refl
lookup-Above k (x ∷ xs) a = ground (arith, lookup-Above k xs)

erase-Above : (k : ℕ) (xs : List Entry) → Above k xs → erase k xs ≡ xs
unfolding erase
erase-Above k [] a = refl
erase-Above k (x ∷ xs) a = ground (arith, erase-Above k xs)

Above-trans : (j k : ℕ) (xs : List Entry) → j < k → Above k xs → Above j xs
Above-trans j k [] h a = tt
Above-trans j k (x ∷ xs) h a = (omega arith, Above-trans j k xs h a.1)

module _ (k : ℕ) (e : Entry) (ys : List Entry) where
  pub lookup-append_below :
      (xs : List Entry) → k < e.lbn → Above e.lbn ys → lookup k (xs ++ e ∷ ys) ≡ lookup k xs
  unfolding lookup
  lookup-append_below [] h a = ground (arith, lookup-Above k ys (Above-trans k e.lbn ys h a))
  lookup-append_below (x ∷ xs) h a = ground (arith, lookup-append_below xs h a)

  pub lookup-append_above :
      (xs : List Entry) → e.lbn < k → Below e.lbn xs → lookup k (xs ++ e ∷ ys) ≡ lookup k ys
  unfolding lookup
  lookup-append_above [] h b = ground arith
  lookup-append_above (x ∷ xs) h b = ground (arith, lookup-append_above xs h b.1)

  pub lookup-append_at :
      (xs : List Entry) → k ≡ e.lbn → Below e.lbn xs → lookup k (xs ++ e ∷ ys) ≡ some e
  unfolding lookup
  lookup-append_at [] h b = ground arith
  lookup-append_at (x ∷ xs) h b = ground (arith, lookup-append_at xs h b.1)

  pub erase-append_below :
      (xs : List Entry) → k < e.lbn → Above e.lbn ys → erase k (xs ++ e ∷ ys) ≡ erase k xs ++ e ∷ ys
  unfolding erase
  erase-append_below [] h a = ground (arith, erase-Above k ys (Above-trans k e.lbn ys h a))
  erase-append_below (x ∷ xs) h a = ground (arith, erase-append_below xs h a)

  pub erase-append_above :
      (xs : List Entry) → e.lbn < k → Below e.lbn xs → erase k (xs ++ e ∷ ys) ≡ xs ++ e ∷ erase k ys
  unfolding erase
  erase-append_above [] h b = ground arith
  erase-append_above (x ∷ xs) h b = ground (arith, erase-append_above xs h b.1)

  pub erase-append_at :
      (xs : List Entry) → k ≡ e.lbn → Below e.lbn xs → erase k (xs ++ e ∷ ys) ≡ xs ++ ys
  unfolding erase
  erase-append_at [] h b = ground arith
  erase-append_at (x ∷ xs) h b = ground (arith, erase-append_at xs h b.1)

module _ (n e : Entry) (ys : List Entry) where
  pub insert-append_below :
      (xs : List Entry) → n.lbn < e.lbn → insert n (xs ++ e ∷ ys) ≡ insert n xs ++ e ∷ ys
  unfolding insert
  insert-append_below [] h = ground arith
  insert-append_below (x ∷ xs) h = ground (arith, insert-append_below xs h)

  pub insert-append_above :
      (xs : List Entry)
      → e.lbn ≤ n.lbn
      → Below e.lbn xs
      → insert n (xs ++ e ∷ ys) ≡ xs ++ e ∷ insert n ys
  unfolding insert
  insert-append_above [] h b = ground arith
  insert-append_above (x ∷ xs) h b = ground (arith, insert-append_above xs h b.1)

Above-insert :
    (k : ℕ) (n : Entry) (xs : List Entry) → k < n.lbn → Above k xs → Above k (insert n xs)
unfolding insert
Above-insert k n [] h a = (h, tt)
Above-insert k n (x ∷ xs) h a = ground (arith, Above-insert k n xs h a.1)

Above-erase : (k j : ℕ) (xs : List Entry) → Above k xs → Above k (erase j xs)
unfolding erase
Above-erase k j [] a = tt
Above-erase k j (x ∷ xs) a = ground (arith, Above-erase k j xs a.1)

pub erase-IsSorted : (k : ℕ) (xs : List Entry) → IsSorted xs → IsSorted (erase k xs)
unfolding erase
erase-IsSorted k [] s = tt
erase-IsSorted k (x ∷ xs) s = ground (arith, erase-IsSorted k xs s.1, Above-erase x.lbn k xs s.0)

pub insert-IsSorted :
    (n : Entry) (xs : List Entry) → lookup n.lbn xs ≡ none → IsSorted xs → IsSorted (insert n xs)
unfolding insert lookup
insert-IsSorted n [] new s = (tt, tt)
insert-IsSorted n (x ∷ xs) new s =
    ground (arith, insert-IsSorted n xs, Above-insert x.lbn n xs, Above-trans n.lbn x.lbn xs)

-- What is found after an insertion, and after a deletion.
pub lookup-insert :
    (k : ℕ) (n : Entry) (xs : List Entry)
    → lookup n.lbn xs ≡ none
    → lookup k (insert n xs) ≡ (if k == n.lbn then some n else lookup k xs)
unfolding lookup insert
lookup-insert k n [] new = refl
lookup-insert k n (x ∷ xs) new = ground (arith, lookup-insert k n xs)

pub lookup-erase :
    (j k : ℕ) (xs : List Entry)
    → IsSorted xs
    → lookup j (erase k xs) ≡ (if j == k then none else lookup j xs)
unfolding lookup erase
lookup-erase j k [] s = ground arith
lookup-erase j k (x ∷ xs) s = ground (arith, lookup-erase j k xs s.1, lookup-Above x.lbn xs s.0)

pub lookup-append_none :
    (k : ℕ) (xs : List Entry) (e : Entry) (ys : List Entry)
    → lookup k (xs ++ e ∷ ys) ≡ none
    → (e.lbn ≢ k) × (lookup k xs ≡ none) × (lookup k ys ≡ none)
unfolding lookup
lookup-append_none k [] e ys p = ground arith
lookup-append_none k (x ∷ xs) e ys p = ground (arith, lookup-append_none k xs e ys)

pub erase-head : (m : Entry) (xs : List Entry) → erase m.lbn (m ∷ xs) ≡ xs
unfolding erase
erase-head m xs = ground arith
