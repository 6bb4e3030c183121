-- ===== src/LfQueue/Threads/Inv.antt =====
-- The invariant of include/nvm0lfqueue.h under interleaving.
use autobahn_app.Prelude.{ℕ, ◌+◌, ◌%◌, ◌≤◌, ◌<◌, ◌≡◌, ◌⊎◌, some}
use autobahn_app.LfQueue.Threads.{
  Pc, enq_wait, enq_check, enq_store, enq_publish, deq_wait, deq_check, deq_read, deq_release,
  p_ticket, c_ticket, Shared, System,
}

-- A slot is free for the ticket in its c_count, or full with the value of that ticket.
pub record Slot (s : Shared) (j : ℕ) : Type 0 where
  pub phase :
      (s.queue.c_counts j ≡ s.queue.p_counts j + s.queue.capacity)
      ⊎ (s.queue.c_counts j ≡ s.queue.p_counts j)
  pub stored :
      s.queue.c_counts j ≡ s.queue.p_counts j → s.queue.values j ≡ s.sent (s.queue.p_counts j)
  pub published : s.queue.p_counts j ≤ s.queue.p_count
  pub released : s.queue.c_counts j ≤ s.queue.c_count + s.queue.capacity
  pub p_place : s.queue.p_counts j % s.queue.capacity ≡ j
  pub c_place : s.queue.c_counts j % s.queue.capacity ≡ j

-- What a thread knows at each place.
abbrev pub Fits : Shared → Pc → Type 0
Fits s (enq_wait v p) =
    (p ≤ s.queue.p_count)
    × (s.sent p ≡ v)
    × (s.queue.p_counts (p % s.queue.capacity) + s.queue.capacity ≤ p)
Fits s (enq_check v p) =
    (p ≤ s.queue.p_count)
    × (s.sent p ≡ v)
    × (s.queue.p_counts (p % s.queue.capacity) + s.queue.capacity ≤ p)
Fits s (enq_store v p) =
    (p ≤ s.queue.p_count)
    × (s.sent p ≡ v)
    × (s.queue.p_counts (p % s.queue.capacity) + s.queue.capacity ≤ p)
    × (s.queue.c_counts (p % s.queue.capacity) ≡ p)
Fits s (enq_publish p) =
    (p ≤ s.queue.p_count)
    × (s.queue.values (p % s.queue.capacity) ≡ s.sent p)
    × (s.queue.p_counts (p % s.queue.capacity) + s.queue.capacity ≤ p)
    × (s.queue.c_counts (p % s.queue.capacity) ≡ p)
Fits s (deq_wait c) = (c ≤ s.queue.c_count) × (s.queue.c_counts (c % s.queue.capacity) ≤ c)
Fits s (deq_check c) = (c ≤ s.queue.c_count) × (s.queue.c_counts (c % s.queue.capacity) ≤ c)
Fits s (deq_read c) =
    (c ≤ s.queue.c_count)
    × (s.queue.c_counts (c % s.queue.capacity) ≡ c)
    × (s.queue.p_counts (c % s.queue.capacity) ≡ c)
Fits s (deq_release c v) =
    (c ≤ s.queue.c_count)
    × (s.queue.c_counts (c % s.queue.capacity) ≡ c)
    × (s.queue.p_counts (c % s.queue.capacity) ≡ c)
    × (v ≡ s.sent c)
Fits s _ = Unit

-- Two places do not hold the same ticket.
abbrev pub Apart : Pc → Pc → Type 0
Apart p r =
    ((t : ℕ) → p_ticket p ≡ some t → p_ticket r ≡ some t → ⊥)
    × ((t : ℕ) → c_ticket p ≡ some t → c_ticket r ≡ some t → ⊥)

pub record Inv (s : System) : Type 0 where
  pub some_room : 0 < s.shared.queue.capacity
  pub slots : (t : ℕ) → Slot s.shared (t % s.shared.queue.capacity)
  pub fits : (i : ℕ) → Fits s.shared (s.pc i)
  pub apart : (i j : ℕ) → (i ≡ j → ⊥) → Apart (s.pc i) (s.pc j)
