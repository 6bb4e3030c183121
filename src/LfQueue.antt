-- ===== src/LfQueue.antt =====
-- include/nvm0lfqueue.h: the latch-free queue, its methods called one after the other.
-- An array is a function of its index; the code indexes it by `% capacity` alone. `uint_fast64_t`
-- has 64 bits. A method that would wait for another thread for ever answers `spins`.
pub mod Modular
pub mod Fifo
pub mod Refine
pub mod Threads
mod Tests
use Prim.Native.Nat.{bit_and}
use autobahn_app.Prelude.{
  ℕ, ◌+◌, ◌-◌, ◌%◌, ◌^◌, Bool, true, false, List, [], ◌∷◌, ◌==◌, leb, if◌then◌else◌,
}

abbrev pub u64 : ℕ → ℕ
u64 n = n % 2 ^ 64

abbrev pub u32 : ℕ → ℕ
u32 n = n % 2 ^ 32

abbrev pub update {ℓ} : {A : Type ℓ} → (ℕ → A) → ℕ → A → ℕ → A
update f i a j = if i == j then a else f j

-- The fields of lfqueue<T>; T is an index type, so a value is a number.
pub record Queue : Type 0 where
  pub p_count : ℕ
  pub c_count : ℕ
  pub values : ℕ → ℕ
  pub c_counts : ℕ → ℕ
  pub p_counts : ℕ → ℕ
  pub capacity : ℕ
  pub is_closed : Bool

-- The constructor; `fresh` is what `new T[capacity]` holds, and `capacity-1` is a uint32_t.
unfoldable pub new_queue : (fresh : ℕ → ℕ) → ℕ → Queue
new_queue fresh capacity = record {
  p_count = u32 (capacity + 2 ^ 32 - 1);
  c_count = u32 (capacity + 2 ^ 32 - 1);
  values = fresh;
  c_counts = λ i. u32 (i + capacity);
  p_counts = λ i. i;
  capacity = capacity;
  is_closed = false;
}

-- How a call ends: with a result, by `is_closed`, or never.
pub data Outcome : Type 0 where
  returned : ℕ → Queue → Outcome
  gave_up : Queue → Outcome
  spins : Queue → Outcome

-- The result 0 of `enqueue` stands for void.
unfoldable pub enqueue : Queue → ℕ → Outcome
enqueue q value =
    let p = u64 (q.p_count + 1) in
    let slot = p % q.capacity in
    let taken : Queue = record q { p_count = p } in
    if p == q.c_counts slot
    then returned 0
        (record taken { values = update q.values slot value; p_counts = update q.p_counts slot p })
    else if q.is_closed
    then gave_up taken
    else spins taken

unfoldable pub dequeue : Queue → Outcome
dequeue q =
    let c = u64 (q.c_count + 1) in
    let slot = c % q.capacity in
    let taken : Queue = record q { c_count = c } in
    if c == q.p_counts slot
    then returned (q.values slot)
        (record taken { c_counts = update q.c_counts slot (u64 (c + q.capacity)) })
    else if q.is_closed
    then gave_up taken
    else spins taken

-- `(pc-cc) & (0x0U - (pc >= cc))`: the mask has 32 bits, and so has the result.
unfoldable pub get_size : Queue → ℕ
get_size q =
    let pc = q.p_count in
    let cc = q.c_count in
    let ge = if leb cc pc then 1 else 0 in
    u32 (bit_and (u64 (pc + 2 ^ 64 - cc)) (u32 (2 ^ 32 - ge)))

unfoldable pub is_empty : Queue → Bool
is_empty q = leb q.p_count q.c_count

unfoldable pub close : Queue → Queue
close q = record q { is_closed = true }

-- Calls by one thread: it puts a value in, or takes one out.
pub data Op : Type 0 where
  put : ℕ → Op
  get : Op

-- The values that a thread has got from its calls, and whether all of them returned.
unfoldable pub run : Queue → List Op → List ℕ × Bool
run q [] = ([], true)
run q (put x ∷ ops) = elim (enqueue q x) [ returned v q' ↦ run q' ops | _ ↦ ([], false) ]
run q (get ∷ ops) = elim (dequeue q) [
  | returned v q' ↦ let (out, done) = run q' ops in (v ∷ out, done)
  | _ ↦ ([], false)
]
