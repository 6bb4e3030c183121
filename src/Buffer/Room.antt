-- ===== src/Buffer/Room.antt =====
-- A queue of different inodes of the table has room for one more inode.
use autobahn_app.Prelude.{
  ℕ, zero, suc, ◌+◌, ◌≤◌, ◌<◌, ◌≢◌, ◌∙◌, sym, inl, inr, List, [], ◌∷◌, length, All, All-imp, ◌==◌,
  if◌then◌else◌, Bool-cases, ==→eq, ne_of_test, arith,
}
use autobahn_app.HashList.Chain.{Absent, Apart}

unfoldable without : ℕ → List ℕ → List ℕ
without n [] = []
without n (x ∷ xs) = let rest = without n xs in if x == n then rest else x ∷ rest

without-All {ℓ} : (P : ℕ → Type ℓ) (n : ℕ) (xs : List ℕ) → All P xs → All P (without n xs)
unfolding without
without-All P n [] h = tt
without-All P n (x ∷ xs) h = elim (Bool-cases (x == n)) [
  | inl e ↦ rw (e) (without-All P n xs h.1)
  | inr e ↦ rw (e) (h.0, without-All P n xs h.1)
]

without-Apart : (n : ℕ) (xs : List ℕ) → Apart xs → Apart (without n xs)
unfolding without
without-Apart n [] a = tt
without-Apart n (x ∷ xs) a = elim (Bool-cases (x == n)) [
  | inl e ↦ rw (e) (without-Apart n xs a.1)
  | inr e ↦ rw (e) (without-All (λ y. x ≢ y) n xs a.0, without-Apart n xs a.1)
]

without-below : (n : ℕ) (xs : List ℕ) → All (λ x. x < suc n) xs → All (λ x. x < n) (without n xs)
unfolding without
without-below n [] h = tt
without-below n (x ∷ xs) h = elim (Bool-cases (x == n)) [
  | inl e ↦ rw (e) (without-below n xs h.1)
  | inr e ↦ rw (e) (omega (arith, ne_of_test x n e, h.0), without-below n xs h.1)
]

length-without-Absent : (n : ℕ) (xs : List ℕ) → Absent n xs → length xs ≤ length (without n xs)
unfolding without
length-without-Absent n [] h = omega arith
length-without-Absent n (x ∷ xs) h = elim (Bool-cases (x == n)) [
  | inl e ↦ absurd (h.0 (sym (==→eq x n e)))
  | inr e ↦ rw (e) (omega (arith, length-without-Absent n xs h.1))
]

length-without : (n : ℕ) (xs : List ℕ) → Apart xs → length xs ≤ length (without n xs) + 1
unfolding without
length-without n [] a = omega arith
length-without n (x ∷ xs) a = elim (Bool-cases (x == n)) [
  | inl e ↦
      rw (e)
        (omega (arith, length-without-Absent n xs (All-imp xs (λ y h q. h (==→eq x n e ∙ q)) a.0)))
  | inr e ↦ rw (e) (omega (arith, length-without n xs a.1))
]

-- Different numbers below n are n at most.
length-Apart : (n : ℕ) (xs : List ℕ) → All (λ x. x < n) xs → Apart xs → length xs ≤ n
length-Apart zero [] h a = omega arith
length-Apart zero (x ∷ xs) h a = absurd (omega (arith, h.0))
length-Apart (suc n) xs h a = omega (
  arith,
  length-without n xs a,
  length-Apart n (without n xs) (without-below n xs h) (without-Apart n xs a),
)

pub Absent-room :
    (n i : ℕ) (xs : List ℕ) → All (λ x. x < n) xs → Apart xs → i < n → Absent i xs → length xs < n
Absent-room n i xs h a i_in absent = omega (arith, length-Apart n (i ∷ xs) (i_in, h) (absent, a))
