-- ===== src/LfQueue/Threads/Reachable.antt =====
-- What holds in every state that threads calling the methods of include/nvm0lfqueue.h can reach.
use native.Mathlib.Nat.{mod-eq_of_lt, mod-lt, add-mod_right}
use autobahn_app.Prelude.{
  ℕ, ◌+◌, ◌-◌, ◌%◌, ◌^◌, ◌≤◌, ◌<◌, ◌≡◌, ◌≢◌, ◌∙◌, sym, ap, true, Option, none, some, arith, ◌==◌,
  Bool-cases, ◌⊎◌, inl, inr, ==→eq, ne_of_test, subst,
}
use autobahn_app.LfQueue.{u32, update, new_queue}
use autobahn_app.LfQueue.Threads.{
  Pc, idle, enq_wait, enq_check, enq_store, enq_publish, deq_wait, deq_check, deq_read, deq_release,
  p_ticket, c_ticket, Shared, Move, System, Step, move, close, InRange, Reach, here, next,
}
use autobahn_app.LfQueue.Threads.Inv.{Slot, Fits, Apart, Inv}
use autobahn_app.LfQueue.Threads.Safety.{
  Apart-sym, Move-capacity, Move-slots, Move-others, Move-own, Move-Apart,
}

abbrev closed : Shared → Shared
closed s = record s { queue = record (s.queue) { is_closed = true } }

close-Fits : (s : Shared) (r : Pc) → Fits s r → Fits (closed s) r
close-Fits s (enq_wait v p) f = f
close-Fits s (enq_check v p) f = f
close-Fits s (enq_store v p) f = f
close-Fits s (enq_publish p) f = f
close-Fits s (deq_wait c) f = f
close-Fits s (deq_check c) f = f
close-Fits s (deq_read c) f = f
close-Fits s (deq_release c v) f = f
close-Fits s _ f = tt

close-Slot : (s : Shared) (j : ℕ) → Slot s j → Slot (closed s) j
close-Slot s j k = record {
  phase = k.phase;
  stored = k.stored;
  published = k.published;
  released = k.released;
  p_place = k.p_place;
  c_place = k.c_place;
}

module _ {s : System} (inv : Inv s) (range : InRange s) (i : ℕ) {m : Shared} {p' : Pc}
    (mv : Move s.shared (s.pc i) m p') where
  moved-Fits : (j : ℕ) → Fits m (update s.pc i p' j)
  moved-Fits j = elim (Bool-cases (i == j)) [
    | inl same ↦ rw same (Move-own s.shared inv.some_room inv.slots range.0 range.1 mv (inv.fits i))
    | inr other ↦ rw other (
        Move-others s.shared inv.some_room inv.slots range.0 range.1 mv (inv.fits i) (s.pc j)
          (inv.fits j) (inv.apart i j (ne_of_test i j other)))
  ]

  move-Apart : (j : ℕ) → (i ≡ j → ⊥) → Apart p' (s.pc j)
  move-Apart j ne =
      Move-Apart s.shared inv.some_room inv.slots range.0 range.1 mv (s.pc j) (inv.fits j)
        (inv.apart i j ne)

  moved-Apart : (j k : ℕ) → (j ≡ k → ⊥) → Apart (update s.pc i p' j) (update s.pc i p' k)
  moved-Apart j k ne = elim (Bool-cases (i == j)) [
    | inl ij ↦ elim (Bool-cases (i == k)) [
      | inl ik ↦ absurd (ne (sym (==→eq i j ij) ∙ ==→eq i k ik))
      | inr nk ↦ rw (ij, nk) (move-Apart k (ne_of_test i k nk))
    ]
    | inr nj ↦ elim (Bool-cases (i == k)) [
      | inl ik ↦ rw (nj, ik) (Apart-sym p' (s.pc j) (move-Apart j (ne_of_test i j nj)))
      | inr nk ↦ rw (nj, nk) (inv.apart j k ne)
    ]
  ]

  moved-Inv : Inv (record { shared = m; pc = update s.pc i p' })
  moved-Inv = record {
    some_room =
        subst (λ c. 0 < c) (sym (Move-capacity s.shared inv.some_room inv.slots range.0 range.1 mv))
          inv.some_room;
    slots = Move-slots s.shared inv.some_room inv.slots range.0 range.1 mv (inv.fits i);
    fits = moved-Fits;
    apart = moved-Apart;
  }

-- Every step keeps the invariant.
pub Step-Inv : {s t : System} → Step s t → Inv s → InRange s → Inv t
Step-Inv (move i mv) inv range = moved-Inv inv range i mv
Step-Inv {s} close inv range = record {
  some_room = inv.some_room;
  slots = λ t. close-Slot s.shared _ (inv.slots t);
  fits = λ i. close-Fits s.shared (s.pc i) (inv.fits i);
  apart = inv.apart;
}

-- A new queue, with no thread inside a method.
abbrev pub start : (ℕ → ℕ) → ℕ → System
start fresh capacity = record {
  shared = record { queue = new_queue fresh capacity; sent = λ _. 0 };
  pc = λ _. idle;
}

start-Slot :
    (fresh : ℕ → ℕ) (capacity j : ℕ)
    → 0 < capacity
    → capacity ≤ 2 ^ 31
    → j < capacity
    → Slot (start fresh capacity).shared j
unfolding new_queue
start-Slot fresh capacity j lo hi h =
    let c : u32 (j + capacity) ≡ j + capacity = mod-eq_of_lt (omega arith) in
    let n : u32 (capacity + 2 ^ 32 - 1) ≡ capacity - 1 = omega arith in
    record {
      phase = inl c;
      stored = λ e. absurd (omega (arith, c, e));
      published = omega (arith, n);
      released = omega (arith, n, c);
      p_place = mod-eq_of_lt h;
      c_place = ap (λ k. k % capacity) c ∙ add-mod_right j capacity ∙ mod-eq_of_lt h;
    }

start-Inv :
    (fresh : ℕ → ℕ) (capacity : ℕ) → 0 < capacity → capacity ≤ 2 ^ 31 → Inv (start fresh capacity)
unfolding new_queue
start-Inv fresh capacity lo hi = record {
  some_room = lo;
  slots = λ t. start-Slot fresh capacity (t % capacity) lo hi (mod-lt t lo);
  fits = λ i. tt;
  apart = λ i j ne. (λ t u v. cc, λ t u v. cc);
}

module _ (fresh : ℕ → ℕ) (capacity : ℕ) (lo : 0 < capacity) (hi : capacity ≤ 2 ^ 31) where
  pub Reach-Inv : {s : System} → Reach (start fresh capacity) s → Inv s
  Reach-Inv here = start-Inv fresh capacity lo hi
  Reach-Inv (next r range st) = Step-Inv st (Reach-Inv r) range

-- The ticket of a thread that has the slot: from the end of its wait to its release of the slot. A
-- thread that still waits for its turn reads the counters of the slot, and has none.
abbrev pub at_slot : Pc → Option ℕ
at_slot (enq_store v p) = some p
at_slot (enq_publish p) = some p
at_slot (deq_read c) = some c
at_slot (deq_release c v) = some c
at_slot _ = none

-- In every reachable state, a `dequeue` that has read its slot holds the value of the call of
-- `enqueue` that took the same ticket.
pub fifo_tickets :
    (fresh : ℕ → ℕ) (capacity : ℕ)
    → 0 < capacity
    → capacity ≤ 2 ^ 31
    → {s : System} → Reach (start fresh capacity) s
    → (i c v : ℕ) → s.pc i ≡ deq_release c v
    → v ≡ s.shared.sent c
fifo_tickets fresh capacity lo hi {s} r i c v e =
    let f = (Reach-Inv fresh capacity lo hi r).fits i in
    let g : Fits s.shared (deq_release c v) = subst (Fits s.shared) e f in g.3

slot_owner :
    (s : Shared) (p : Pc) (t : ℕ)
    → Fits s p
    → at_slot p ≡ some t
    → s.queue.c_counts (t % s.queue.capacity) ≡ t
slot_owner s (enq_store v p) t f e = ground arith
slot_owner s (enq_publish p) t f e = ground arith
slot_owner s (deq_read c) t f e = ground arith
slot_owner s (deq_release c v) t f e = ground arith
slot_owner s _ t f e = cc

-- A writer's slot is empty, a reader's slot is full.
slot_side :
    (s : Shared) (p : Pc) (t : ℕ)
    → Fits s p
    → at_slot p ≡ some t
    → ((p_ticket p ≡ some t) × (s.queue.p_counts (t % s.queue.capacity) + s.queue.capacity ≤ t))
      ⊎ ((c_ticket p ≡ some t) × (s.queue.p_counts (t % s.queue.capacity) ≡ t))
slot_side s (enq_store v p) t f e = inl (e, ground arith)
slot_side s (enq_publish p) t f e = inl (e, ground arith)
slot_side s (deq_read c) t f e = inr (e, ground arith)
slot_side s (deq_release c v) t f e = inr (e, ground arith)
slot_side s _ t f e = cc

same_ticket :
    (s : Shared)
    → 0 < s.queue.capacity
    → (p r : Pc) (t : ℕ) → Fits s p
    → Fits s r
    → Apart p r
    → at_slot p ≡ some t
    → at_slot r ≡ some t
    → ⊥
same_ticket s room p r t f g a e k = elim (slot_side s p t f e) [
  | inl (pt, empty) ↦ elim (slot_side s r t g k) [
    | inl (rt, empty') ↦ a.0 t pt rt
    | inr (rt, full) ↦ omega (arith, empty, full, room)
  ]
  | inr (pt, full) ↦ elim (slot_side s r t g k) [
    | inl (rt, empty) ↦ omega (arith, empty, full, room)
    | inr (rt, full') ↦ a.1 t pt rt
  ]
]

-- In every reachable state, for a capacity from 1 to 2 ^ 31, two threads never have one slot at a
-- time: the tickets t and u of two threads that are between the end of their wait and their release of
-- the slot, whether they write or read, lie in different slots. Threads that still wait for their turn
-- are not meant.
pub slots_exclusive :
    (fresh : ℕ → ℕ) (capacity : ℕ)
    → 0 < capacity
    → capacity ≤ 2 ^ 31
    → {s : System} → Reach (start fresh capacity) s
    → (i j t u : ℕ) → i ≢ j
    → at_slot (s.pc i) ≡ some t
    → at_slot (s.pc j) ≡ some u
    → t % s.shared.queue.capacity ≢ u % s.shared.queue.capacity
slots_exclusive fresh capacity lo hi {s} r i j t u ne at_i at_j e =
    let inv = Reach-Inv fresh capacity lo hi r in
    let held = slot_owner s.shared (s.pc i) t (inv.fits i) at_i in
    let held' = slot_owner s.shared (s.pc j) u (inv.fits j) at_j in
    let same : u ≡ t = sym held' ∙ ap s.shared.queue.c_counts (sym e) ∙ held in
    same_ticket s.shared inv.some_room (s.pc i) (s.pc j) t (inv.fits i) (inv.fits j)
      (inv.apart i j ne) at_i (at_j ∙ ap some same)
