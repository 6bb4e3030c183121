-- ===== src/Avl/Flags.antt =====
-- Valid and invalid entries of a sorted list: what src/nvm0avltree.cc counts, marks and removes.
use autobahn_app.Prelude.{
  ℕ, ◌+◌, ◌<◌, ◌≡◌, refl, Option, none, some, List, [], ◌∷◌, ◌++◌, arith, ◌==◌, if◌then◌else◌,
  length,
}
use autobahn_app.Avl.{Entry, valid, invalid}
use autobahn_app.Avl.Sorted.{IsSorted, Above, Below, lookup, erase, insert}

abbrev pub is_invalid : Entry → ℕ
is_invalid e = elim e.flag [ valid ↦ 0 | invalid ↦ 1 ]

abbrev pub count_invalid : List Entry → ℕ
count_invalid [] = 0
count_invalid (x ∷ xs) = is_invalid x + count_invalid xs

-- The entries that are valid.
abbrev pub valid_part : List Entry → List Entry
valid_part [] = []
valid_part (x ∷ xs) = elim x.flag [ valid ↦ x ∷ valid_part xs | invalid ↦ valid_part xs ]

-- The entry with the key `k` becomes invalid.
unfoldable pub mark : ℕ → List Entry → List Entry
mark k [] = []
mark k (x ∷ xs) = if k == x.lbn then record x { flag = invalid } ∷ xs else x ∷ mark k xs

pub count_invalid-append :
    (xs ys : List Entry) → count_invalid (xs ++ ys) ≡ count_invalid xs + count_invalid ys
count_invalid-append [] ys = omega arith
count_invalid-append (x ∷ xs) ys = omega (arith, count_invalid-append xs ys)

pub valid_part_of_none : (xs : List Entry) → count_invalid xs ≡ 0 → valid_part xs ≡ xs
valid_part_of_none [] p = refl
valid_part_of_none (x ∷ xs) p = ground (arith, valid_part_of_none xs)

-- Taking out one invalid entry.
module _ (e : Entry) (inv : e.flag ≡ invalid) where
  pub valid_part-erase :
      (xs : List Entry) → lookup e.lbn xs ≡ some e → valid_part (erase e.lbn xs) ≡ valid_part xs
  unfolding lookup erase
  valid_part-erase [] p = cc
  valid_part-erase (x ∷ xs) p = ground (arith, valid_part-erase xs)

  pub count_invalid-erase :
      (xs : List Entry)
      → lookup e.lbn xs ≡ some e
      → count_invalid xs ≡ count_invalid (erase e.lbn xs) + 1
  unfolding lookup erase
  count_invalid-erase [] p = cc
  count_invalid-erase (x ∷ xs) p = ground (arith, count_invalid-erase xs)

  pub length-erase :
      (xs : List Entry) → lookup e.lbn xs ≡ some e → length xs ≡ length (erase e.lbn xs) + 1
  unfolding lookup erase
  length-erase [] p = cc
  length-erase (x ∷ xs) p = ground (arith, length-erase xs)

pub length-insert : (n : Entry) (xs : List Entry) → length (insert n xs) ≡ length xs + 1
unfolding insert
length-insert n [] = refl
length-insert n (x ∷ xs) = ground (arith, length-insert n xs)

pub count_invalid-insert :
    (n : Entry) (xs : List Entry) → count_invalid (insert n xs) ≡ is_invalid n + count_invalid xs
unfolding insert
count_invalid-insert n [] = omega arith
count_invalid-insert n (x ∷ xs) = ground (arith, count_invalid-insert n xs)

pub length-mark : (k : ℕ) (xs : List Entry) → length (mark k xs) ≡ length xs
unfolding mark
length-mark k [] = refl
length-mark k (x ∷ xs) = ground (arith, length-mark k xs)

Above-mark : (j k : ℕ) (xs : List Entry) → Above j xs → Above j (mark k xs)
unfolding mark
Above-mark j k [] a = tt
Above-mark j k (x ∷ xs) a = ground (arith, Above-mark j k xs a.1)

pub mark-IsSorted : (k : ℕ) (xs : List Entry) → IsSorted xs → IsSorted (mark k xs)
unfolding mark
mark-IsSorted k [] s = tt
mark-IsSorted k (x ∷ xs) s = ground (arith, mark-IsSorted k xs s.1, Above-mark x.lbn k xs s.0)

abbrev pub invalidate : Option Entry → Option Entry
invalidate none = none
invalidate (some e) = some (record e { flag = invalid })

pub lookup-mark :
    (j k : ℕ) (xs : List Entry)
    → lookup j (mark k xs) ≡ (if j == k then invalidate (lookup j xs) else lookup j xs)
unfolding lookup mark
lookup-mark j k [] = ground arith
lookup-mark j k (x ∷ xs) = ground (arith, lookup-mark j k xs)

mark-Above : (k : ℕ) (xs : List Entry) → Above k xs → mark k xs ≡ xs
unfolding mark
mark-Above k [] a = refl
mark-Above k (x ∷ xs) a = ground (arith, mark-Above k xs)

module _ (k : ℕ) (e : Entry) (ys : List Entry) where
  Above-lt : (zs : List Entry) → k < e.lbn → Above e.lbn zs → Above k zs
  Above-lt [] h a = tt
  Above-lt (z ∷ zs) h a = (omega arith, Above-lt zs h a.1)

  pub mark-append_below :
      (xs : List Entry)
      → k < e.lbn
      → Above e.lbn ys
      → mark k (xs ++ (e ∷ ys)) ≡ mark k xs ++ (e ∷ ys)
  unfolding mark
  mark-append_below [] h a = ground (arith, mark-Above k ys (Above-lt ys h a))
  mark-append_below (x ∷ xs) h a = ground (arith, mark-append_below xs h a)

  pub mark-append_above :
      (xs : List Entry)
      → e.lbn < k
      → Below e.lbn xs
      → mark k (xs ++ (e ∷ ys)) ≡ xs ++ (e ∷ mark k ys)
  unfolding mark
  mark-append_above [] h b = ground arith
  mark-append_above (x ∷ xs) h b = ground (arith, mark-append_above xs h b.1)

  pub mark-append_at :
      (xs : List Entry)
      → k ≡ e.lbn
      → Below e.lbn xs
      → mark k (xs ++ (e ∷ ys)) ≡ xs ++ (record e { flag = invalid } ∷ ys)
  unfolding mark
  mark-append_at [] h b = ground arith
  mark-append_at (x ∷ xs) h b = ground (arith, mark-append_at xs h b.1)
