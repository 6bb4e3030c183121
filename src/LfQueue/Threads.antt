-- ===== src/LfQueue/Threads.antt =====
-- include/nvm0lfqueue.h under any number of threads: every access of the shared memory in
-- `enqueue` and `dequeue` is a step of its own, and the steps of the threads interleave freely.
pub mod Inv
pub mod Producer
pub mod Consumer
pub mod Safety
pub mod Reachable
mod Tests
use autobahn_app.Prelude.{ℕ, ◌+◌, ◌%◌, ◌^◌, ◌<◌, ◌≡◌, ◌≢◌, Bool, true, false, Option, none, some}
use autobahn_app.LfQueue.{Queue, u64, update}

-- Where a thread stands, with its local variables. `p` and `c` are the tickets it has taken.
pub data Pc : Type 0 where
  idle : Pc
  enq_wait : (value p : ℕ) → Pc
  enq_check : (value p : ℕ) → Pc
  enq_store : (value p : ℕ) → Pc
  enq_publish : (p : ℕ) → Pc
  deq_wait : (c : ℕ) → Pc
  deq_check : (c : ℕ) → Pc
  deq_read : (c : ℕ) → Pc
  deq_release : (c value : ℕ) → Pc
  deq_return : (value : ℕ) → Pc

-- The ticket of a thread in `enqueue`, and of one in `dequeue`.
abbrev pub p_ticket : Pc → Option ℕ
p_ticket (enq_wait v p) = some p
p_ticket (enq_check v p) = some p
p_ticket (enq_store v p) = some p
p_ticket (enq_publish p) = some p
p_ticket _ = none

abbrev pub c_ticket : Pc → Option ℕ
c_ticket (deq_wait c) = some c
c_ticket (deq_check c) = some c
c_ticket (deq_read c) = some c
c_ticket (deq_release c v) = some c
c_ticket _ = none

-- The queue, with the record of which value was handed to the call that took a ticket.
pub record Shared : Type 0 where
  pub queue : Queue
  pub sent : ℕ → ℕ

-- `this->p_count.fetch_add(1) + 1` for a call `enqueue(value)`, and the accesses that follow.
abbrev pub take_p_ticket : Shared → ℕ → Shared
take_p_ticket s value =
    let p = u64 (s.queue.p_count + 1) in
    record { queue = record (s.queue) { p_count = p }; sent = update s.sent p value }

abbrev pub store_value : Shared → ℕ → ℕ → Shared
store_value s value p = record s {
  queue = record (s.queue) { values = update s.queue.values (p % s.queue.capacity) value };
}

abbrev pub publish_ticket : Shared → ℕ → Shared
publish_ticket s p = record s {
  queue = record (s.queue) { p_counts = update s.queue.p_counts (p % s.queue.capacity) p };
}

abbrev pub take_c_ticket : Shared → Shared
take_c_ticket s = record s { queue = record (s.queue) { c_count = u64 (s.queue.c_count + 1) } }

abbrev pub release_slot : Shared → ℕ → Shared
release_slot s c = record s {
  queue = record (s.queue) {
    c_counts = update s.queue.c_counts (c % s.queue.capacity) (u64 (c + s.queue.capacity));
  };
}

-- One step of one thread.
pub data Move (s : Shared) : Pc → Shared → Pc → Type 0 where
  take_p :
      (value : ℕ) → Move s idle (take_p_ticket s value) (enq_wait value (u64 (s.queue.p_count + 1)))
  ready_p :
      {v p : ℕ}
      → p ≡ s.queue.c_counts (p % s.queue.capacity)
      → Move s (enq_wait v p) s (enq_store v p)
  busy_p :
      {v p : ℕ}
      → p ≢ s.queue.c_counts (p % s.queue.capacity)
      → Move s (enq_wait v p) s (enq_check v p)
  quit_p : {v p : ℕ} → s.queue.is_closed ≡ true → Move s (enq_check v p) s idle
  again_p : {v p : ℕ} → s.queue.is_closed ≡ false → Move s (enq_check v p) s (enq_wait v p)
  store : {v p : ℕ} → Move s (enq_store v p) (store_value s v p) (enq_publish p)
  publish : {p : ℕ} → Move s (enq_publish p) (publish_ticket s p) idle
  take_c : Move s idle (take_c_ticket s) (deq_wait (u64 (s.queue.c_count + 1)))
  ready_c :
      {c : ℕ} → c ≡ s.queue.p_counts (c % s.queue.capacity) → Move s (deq_wait c) s (deq_read c)
  busy_c :
      {c : ℕ} → c ≢ s.queue.p_counts (c % s.queue.capacity) → Move s (deq_wait c) s (deq_check c)
  quit_c : {c : ℕ} → s.queue.is_closed ≡ true → Move s (deq_check c) s (deq_return 0)
  again_c : {c : ℕ} → s.queue.is_closed ≡ false → Move s (deq_check c) s (deq_wait c)
  read : {c : ℕ} → Move s (deq_read c) s (deq_release c (s.queue.values (c % s.queue.capacity)))
  release : {c v : ℕ} → Move s (deq_release c v) (release_slot s c) (deq_return v)
  leave : {v : ℕ} → Move s (deq_return v) s idle

-- A thread moves, or some thread calls close().
pub record System : Type 0 where
  pub shared : Shared
  pub pc : ℕ → Pc

pub data Step (s : System) : System → Type 0 where
  move :
      (i : ℕ) {m : Shared} {p : Pc}
      → Move s.shared (s.pc i) m p
      → Step s (record { shared = m; pc = update s.pc i p })
  close : Step s (record s {
    shared = record (s.shared) { queue = record (s.shared.queue) { is_closed = true } };
  })

-- The next tickets do not wrap around 2^64.
abbrev pub InRange : System → Type 0
InRange s =
    (s.shared.queue.p_count + 1 < 2 ^ 64)
    × (s.shared.queue.c_count + s.shared.queue.capacity + 1 < 2 ^ 64)

-- What is reached from a new queue, with all threads idle, before a counter wraps.
pub data Reach (start : System) : System → Type 0 where
  here : Reach start start
  next : {s t : System} → Reach start s → InRange s → Step s t → Reach start t
