-- ===== src/LfQueue/Refine.antt =====
-- What a single-threaded client sees of include/nvm0lfqueue.h.
use native.Mathlib.Nat.{mod-eq_of_lt, add-mod_right}
use autobahn_app.Prelude.Bits.{ones, bit_and-ones}
use autobahn_app.Prelude.{
  ℕ, suc, ◌+◌, ◌-◌, ◌%◌, ◌^◌, ◌≤◌, ◌<◌, ◌≡◌, ◌↔◌, ◌∙◌, refl, sym, ap, Bool, true, false, List, [],
  ◌∷◌, ◌++◌, arith, ltb, if◌then◌else◌, length, inl, inr, Bool-cases, le→leb, leb→le, lt→ltb,
  le→ltb, ltb→lt, ltb→le,
}
use autobahn_app.LfQueue.{
  Queue, Outcome, returned, gave_up, spins, u64, u32, new_queue, enqueue, dequeue, get_size,
  is_empty, Op, put, get, run,
}
use autobahn_app.LfQueue.Fifo.{
  IsValid, InRange, from, contents, length-contents, after_enqueue, after_dequeue, enqueue-returned,
  dequeue-returned, after_enqueue-IsValid, after_dequeue-IsValid, contents-after_enqueue,
  contents-after_dequeue, enqueue-full, dequeue-empty,
}

-- A list of at most `cap` values, oldest first. A call that would block ends the run.
unfoldable pub fifo : ℕ → List ℕ → List Op → List ℕ × Bool
fifo cap xs [] = ([], true)
fifo cap xs (put x ∷ ops) =
    let rest = fifo cap (xs ++ (x ∷ [])) ops in if ltb (length xs) cap then rest else ([], false)
fifo cap [] (get ∷ ops) = ([], false)
fifo cap (x ∷ xs) (get ∷ ops) = let (out, done) = fifo cap xs ops in (x ∷ out, done)

first_round : (t m : ℕ) → m ≤ t → t < m + m → t % m ≡ t - m
first_round t m lo hi =
    ap (λ k. k % m) (let e : t ≡ (t - m) + m = omega arith in e)
    ∙ add-mod_right (t - m) m
    ∙ mod-eq_of_lt (omega arith)

counter_start :
    (capacity : ℕ) → 0 < capacity → capacity ≤ 2 ^ 31 → u32 (capacity + 2 ^ 32 - 1) ≡ capacity - 1
counter_start capacity lo hi = omega arith

-- The constructor makes a valid, empty queue, for a capacity from 1 to 2^31.
pub new_queue-IsValid :
    (fresh : ℕ → ℕ) (capacity : ℕ)
    → 0 < capacity
    → capacity ≤ 2 ^ 31
    → IsValid (new_queue fresh capacity) × (contents (new_queue fresh capacity) ≡ [])
unfolding new_queue
new_queue-IsValid fresh capacity lo hi = (
  record {
    some_room = lo;
    order = omega arith;
    room = omega arith;
    used = λ t u v. absurd (omega arith);
    unused = λ t u v.
        let e = first_round t capacity (omega arith) (omega arith) in
        rw e (omega arith, omega arith);
  },
  ap (from fresh capacity (suc (u32 (capacity + 2 ^ 32 - 1)))) {y = 0} (omega arith),
)

abbrev Blocked : Outcome → Type 0
Blocked (returned v q) = ⊥
Blocked _ = Unit

Blocked-if : (closed : Bool) (t : Queue) → Blocked (if closed then gave_up t else spins t)
Blocked-if true t = tt
Blocked-if false t = tt

run-put-Blocked :
    (q : Queue) (x : ℕ) (ops : List Op) → Blocked (enqueue q x) → run q (put x ∷ ops) ≡ ([], false)
unfolding run
run-put-Blocked q x ops b = ground arith

run-get-Blocked :
    (q : Queue) (ops : List Op) → Blocked (dequeue q) → run q (get ∷ ops) ≡ ([], false)
unfolding run
run-get-Blocked q ops b = ground arith

run-put :
    (q : Queue) (x : ℕ) (ops : List Op) {v : ℕ} {q' : Queue}
    → enqueue q x ≡ returned v q'
    → run q (put x ∷ ops) ≡ run q' ops
unfolding run
run-put q x ops e = rw (e, run)

run-get :
    (q : Queue) (ops : List Op) {v : ℕ} {q' : Queue}
    → dequeue q ≡ returned v q'
    → run q (get ∷ ops) ≡ (v ∷ (run q' ops).0, (run q' ops).1)
unfolding run
run-get q ops e = rw (e, run)

-- Enough tickets for the calls to come.
abbrev pub Lasts : Queue → List Op → Type 0
Lasts q ops = q.c_count + q.capacity + q.capacity + 2 + length ops < 2 ^ 64

fifo-put :
    (cap x : ℕ) (xs : List ℕ) (ops : List Op)
    → length xs < cap
    → fifo cap xs (put x ∷ ops) ≡ fifo cap (xs ++ (x ∷ [])) ops
unfolding fifo
fifo-put cap x xs ops h = rw (lt→ltb (length xs) cap h)

fifo-put_full :
    (cap x : ℕ) (xs : List ℕ) (ops : List Op)
    → cap ≤ length xs
    → fifo cap xs (put x ∷ ops) ≡ ([], false)
unfolding fifo
fifo-put_full cap x xs ops h = rw (le→ltb (length xs) cap h)

fifo-get :
    (cap x : ℕ) (xs : List ℕ) (ops : List Op)
    → fifo cap (x ∷ xs) (get ∷ ops) ≡ (x ∷ (fifo cap xs ops).0, (fifo cap xs ops).1)
unfolding fifo
fifo-get cap x xs ops = refl

fifo-get_empty :
    (cap : ℕ) (xs : List ℕ) (ops : List Op) → length xs ≡ 0 → fifo cap xs (get ∷ ops) ≡ ([], false)
unfolding fifo
fifo-get_empty cap [] ops h = refl
fifo-get_empty cap (x ∷ xs) ops h = absurd (omega arith)

-- Any sequence of calls on a valid queue gives what the bounded list of its contents gives: the
-- same values in the same order, and an end at the same call, where a put finds the list full or a
-- get finds it empty.
pub run-fifo :
    (ops : List Op) (q : Queue)
    → IsValid q
    → Lasts q ops
    → run q ops ≡ fifo q.capacity (contents q) ops
run-fifo [] q is lasts = unfold run fifo in refl
run-fifo (put x ∷ ops) q is lasts = elim (Bool-cases (ltb q.p_count (q.c_count + q.capacity))) [
  | inl room ↦
      let h = ltb→lt _ _ room in
      run-put q x ops (enqueue-returned is (omega arith) x h)
      ∙ run-fifo ops (after_enqueue q x) (after_enqueue-IsValid is (omega arith) x h) (omega arith)
      ∙ ap (λ xs. fifo q.capacity xs ops) (contents-after_enqueue is (omega arith) x h)
      ∙ sym (fifo-put q.capacity x (contents q) ops (omega (arith, length-contents q)))
  | inr full ↦
      let h = ltb→le q.p_count (q.c_count + q.capacity) full in
      run-put-Blocked q x ops
        (rw (enqueue-full is (omega arith) x (omega (arith, is.room))) (Blocked-if q.is_closed _))
      ∙ sym (fifo-put_full q.capacity x (contents q) ops (omega (arith, length-contents q)))
]
run-fifo (get ∷ ops) q is lasts = elim (Bool-cases (ltb q.c_count q.p_count)) [
  | inl some_there ↦
      let h = ltb→lt _ _ some_there in
      let value = q.values ((q.c_count + 1) % q.capacity) in
      run-get q ops (dequeue-returned is (omega arith) h)
      ∙ ap (λ (r : List ℕ × Bool). (value ∷ r.0, r.1))
          (run-fifo ops (after_dequeue q) (after_dequeue-IsValid is (omega arith) h) (omega arith))
      ∙ sym (fifo-get q.capacity value (contents (after_dequeue q)) ops)
      ∙ ap (λ xs. fifo q.capacity xs (get ∷ ops)) (sym (contents-after_dequeue is (omega arith) h))
  | inr empty ↦
      let h : q.p_count ≡ q.c_count = omega (arith, ltb→le q.c_count q.p_count empty, is.order) in
      run-get-Blocked q ops (rw (dequeue-empty is (omega arith) h) (Blocked-if q.is_closed _))
      ∙ sym (fifo-get_empty q.capacity (contents q) ops (omega (arith, length-contents q)))
]

-- get_size is the number of values in the queue.
pub get_size-length :
    (q : Queue) → IsValid q → InRange q → q.capacity < 2 ^ 32 → get_size q ≡ length (contents q)
unfolding get_size ones
get_size-length q is range small =
    let n = q.p_count - q.c_count in
    let bound : n < 2 ^ 32 = omega (arith, is.room) in
    let plain : u64 (q.p_count + 2 ^ 64 - q.c_count) ≡ n = omega (arith, is.order) in
    let mask : u32 (2 ^ 32 - 1) ≡ ones 32 = refl in
    rw (le→leb q.c_count q.p_count is.order, plain)
      (ap u32 (bit_and-ones 32 n bound) ∙ mod-eq_of_lt bound ∙ sym (length-contents q))

nil_of_length : (xs : List ℕ) → length xs ≡ 0 → xs ≡ []
nil_of_length [] h = refl
nil_of_length (x ∷ xs) h = absurd (omega arith)

-- is_empty says whether the queue has no value.
pub is_empty-contents : (q : Queue) → IsValid q → (is_empty q ≡ true) ↔ (contents q ≡ [])
unfolding is_empty
is_empty-contents q is = (
  λ h. nil_of_length (contents q) (omega (arith, length-contents q, leb→le q.p_count q.c_count h)),
  λ e. le→leb q.p_count q.c_count (omega (arith, length-contents q, ap length e)),
)
