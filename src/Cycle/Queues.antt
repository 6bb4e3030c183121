-- ===== src/Cycle/Queues.antt =====
-- The queues of one kind, when an inode leaves one or joins one.
use mathlib.Core.Logic.Or
use mathlib.Core.List.{
  Mem, Mem-prop, eq-or-mem_of_mem-cons, mem-cons_self, mem-append_left, mem-append_right,
}
use autobahn_app.Prelude.{
  eq-or-ne, some-inj, none-some, All-append, ℕ, ◌≡◌, ◌≢◌, ◌⊎◌, ◌∙◌, refl, sym, ap, subst, inl, inr,
  List, [], ◌∷◌, ◌++◌, All, All-imp, All-both, some, ltb, length, Bool-cases,
}
use autobahn_app.LfQueue.{update}
use autobahn_app.HashList.Chain.{Absent, Apart, Apart-append}
use autobahn_app.Pool.{push}
use autobahn_app.Pool.Blocks.{update_self, update_ne}

abbrev pub Has : ℕ → List ℕ → Type 0
Has i [] = ⊥
Has i (x ∷ xs) = (x ≡ i) ⊎ Has i xs

pub All-Has {ℓ} : (P : ℕ → Type ℓ) (xs : List ℕ) (i : ℕ) → All P xs → Has i xs → P i
All-Has P [] i h m = absurd m
All-Has P (x ∷ xs) i h (inl e) = subst P e h.0
All-Has P (x ∷ xs) i h (inr m) = All-Has P xs i h.1 m

pub all_Has : (xs : List ℕ) → All (λ i. Has i xs) xs
all_Has [] = tt
all_Has (x ∷ xs) = (inl refl, All-imp xs (λ i h. inr h) (all_Has xs))

pub Mem-tail : {i x : ℕ} {xs : List ℕ} → x ≢ i → Mem i (x ∷ xs) → Mem i xs
Mem-tail {i} {x} {xs} ne h =
    Or.elim (Mem-prop {a = i} {l = xs}) (eq-or-mem_of_mem-cons h) (λ e. absurd (ne (sym e)))
      (λ m. m)

-- Each queue holds items with the property, an item is in one queue at most, and once.
pub record Queues (P : ℕ → Type 0) (q : ℕ → List ℕ) : Type 0 where
  pub all : (k : ℕ) → All P (q k)
  pub once : (k : ℕ) → Apart (q k)
  pub one_queue : (k l : ℕ) → k ≢ l → All (λ i. Absent i (q l)) (q k)

module _ (q : ℕ → List ℕ) (k idx : ℕ) where
  abbrev pub joined : ℕ → List ℕ
  joined = update q k (q k ++ (idx ∷ []))

  joined_cases : (j : ℕ) → ((k ≡ j) × (joined j ≡ q j ++ (idx ∷ []))) ⊎ ((k ≢ j) × (joined j ≡ q j))
  joined_cases j = elim (eq-or-ne k j) [
    | inl e ↦ inl (e, subst (λ x. joined x ≡ q x ++ (idx ∷ [])) e (update_self q k _))
    | inr ne ↦ inr (ne, update_ne q k _ j ne)
  ]

  pub joined-All {ℓ} : (P : ℕ → Type ℓ) (j : ℕ) → All P (q j) → ((k ≡ j) → P idx) → All P (joined j)
  joined-All P j h p = elim (joined_cases j) [
    | inl e ↦ subst (All P) (sym e.1) (All-append P (q j) (idx ∷ []) h (p e.0, tt))
    | inr e ↦ subst (All P) (sym e.1) h
  ]

  pub joined-Apart : (j : ℕ) → Apart (q j) → Absent idx (q j) → Apart (joined j)
  joined-Apart j a h = elim (joined_cases j) [
    | inl e ↦ subst Apart (sym e.1) (Apart-append (q j) idx a h)
    | inr e ↦ subst Apart (sym e.1) a
  ]

module _ (q : ℕ → List ℕ) (k idx : ℕ) (rest : List ℕ) (first : q k ≡ idx ∷ rest) where
  abbrev pub popped : ℕ → List ℕ
  popped = update q k rest

  popped_cases : (j : ℕ) → ((k ≡ j) × (popped j ≡ rest)) ⊎ ((k ≢ j) × (popped j ≡ q j))
  popped_cases j = elim (eq-or-ne k j) [
    | inl e ↦ inl (e, subst (λ x. popped x ≡ rest) e (update_self q k rest))
    | inr ne ↦ inr (ne, update_ne q k rest j ne)
  ]

  pub popped-All {ℓ} : (P : ℕ → Type ℓ) (j : ℕ) → All P (q j) → All P (popped j)
  popped-All P j h = elim (popped_cases j) [
    | inl e ↦ subst (All P) (sym e.1) (subst (All P) (ap q (sym e.0) ∙ first) h).1
    | inr e ↦ subst (All P) (sym e.1) h
  ]

  popped-Apart : (j : ℕ) → Apart (q j) → Apart (popped j)
  popped-Apart j a = elim (popped_cases j) [
    | inl e ↦ subst Apart (sym e.1) (subst Apart (ap q (sym e.0) ∙ first) a).1
    | inr e ↦ subst Apart (sym e.1) a
  ]

  pub popped-Mem : (j i : ℕ) → idx ≢ i → Mem i (q j) → Mem i (popped j)
  popped-Mem j i ne h = elim (popped_cases j) [
    | inl e ↦ subst (Mem i) (sym e.1) (Mem-tail ne (subst (Mem i) (ap q (sym e.0) ∙ first) h))
    | inr e ↦ subst (Mem i) (sym e.1) h
  ]

  module _ (P : ℕ → Type 0) (queues : Queues P q) where
    pub popped-here : P idx
    popped-here = (subst (All P) first (queues.all k)).0

    -- The item that left is in no queue.
    pub popped-Absent : (j : ℕ) → Absent idx (popped j)
    popped-Absent j = elim (popped_cases j) [
      | inl e ↦ subst (Absent idx) (sym e.1) (subst Apart first (queues.once k)).0
      | inr e ↦
          subst (Absent idx) (sym e.1)
            (subst (All (λ i. Absent i (q j))) first (queues.one_queue k j e.0)).0
    ]

    pub popped-Queues : Queues P popped
    popped-Queues = record {
      all = λ j. popped-All P j (queues.all j);
      once = λ j. popped-Apart j (queues.once j);
      one_queue = λ j l ne.
          All-imp (popped j) (λ i h. popped-All (λ y. i ≢ y) l h)
            (popped-All (λ i. Absent i (q l)) j (queues.one_queue j l ne));
    }

-- The property may change for an item that is in no queue.
pub Queues-imp :
    (P Q : ℕ → Type 0) (q : ℕ → List ℕ) (idx : ℕ)
    → Queues P q
    → ((j : ℕ) → Absent idx (q j))
    → ((i : ℕ) → idx ≢ i → P i → Q i)
    → Queues Q q
Queues-imp P Q q idx queues absent f = record {
  all = λ j. All-both (q j) (λ i p ne. f i ne p) (queues.all j) (absent j);
  once = queues.once;
  one_queue = queues.one_queue;
}

pub joined-Queues :
    (P : ℕ → Type 0) (q : ℕ → List ℕ) (k idx : ℕ)
    → Queues P q
    → ((j : ℕ) → Absent idx (q j))
    → P idx
    → Queues P (joined q k idx)
joined-Queues P q k idx queues absent p = record {
  all = λ j. joined-All q k idx P j (queues.all j) (λ e. p);
  once = λ j. joined-Apart q k idx j (queues.once j) (absent j);
  one_queue = λ j l ne.
      joined-All q k idx (λ i. Absent i (joined q k idx l)) j
        (All-both (q j) (λ i h no_idx. joined-All q k idx (λ y. i ≢ y) l h (λ e r. no_idx (sym r)))
          (queues.one_queue j l ne) (absent j))
        (λ e. joined-All q k idx (λ y. idx ≢ y) l (absent l) (λ r. absurd (ne (sym e ∙ r))));
}

pub joined-Mem : (q : ℕ → List ℕ) (k idx j i : ℕ) → Mem i (q j) → Mem i (joined q k idx j)
joined-Mem q k idx j i h = elim (eq-or-ne k j) [
  | inl e ↦
      subst (λ x. Mem i (joined q k idx x)) e
        (subst (Mem i) (sym (update_self q k (q k ++ (idx ∷ []))))
          (mem-append_left (idx ∷ []) (subst (λ x. Mem i (q x)) (sym e) h)))
  | inr ne ↦ subst (Mem i) (sym (update_ne q k (q k ++ (idx ∷ [])) j ne)) h
]

pub joined-Mem_self : (q : ℕ → List ℕ) (k idx : ℕ) → Mem idx (joined q k idx k)
joined-Mem_self q k idx =
    subst (Mem idx) (sym (update_self q k (q k ++ (idx ∷ []))))
      (mem-append_right (q k) mem-cons_self)

pub Queues-map :
    (P Q : ℕ → Type 0) (q : ℕ → List ℕ) → ((i : ℕ) → P i → Q i) → Queues P q → Queues Q q
Queues-map P Q q f queues = record {
  all = λ j. All-imp (q j) f (queues.all j);
  once = queues.once;
  one_queue = queues.one_queue;
}

-- What the success of a step tells.
pub push-some :
    (capacity x : ℕ) (xs ys : List ℕ) → push capacity xs x ≡ some ys → xs ++ (x ∷ []) ≡ ys
push-some capacity x xs ys h = elim (Bool-cases (ltb (length xs) capacity)) [
  | inl e ↦ some-inj (rw (e) at h)
  | inr e ↦ absurd (none-some (rw (e) at h))
]
