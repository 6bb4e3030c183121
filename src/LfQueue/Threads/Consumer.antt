-- ===== src/LfQueue/Threads/Consumer.antt =====
-- The steps of `dequeue` in include/nvm0lfqueue.h: what they leave true for the other threads.
use native.Mathlib.Nat.{add-mod_right, mod-eq_of_lt}
use autobahn_app.Prelude.{
  ℕ, ◌+◌, ◌%◌, ◌^◌, ◌≤◌, ◌<◌, ◌≡◌, ◌≢◌, ◌∙◌, refl, sym, ap, some, arith, ◌==◌, Bool-cases, inl, inr,
  ==→eq, ltb, ltb→lt, ltb→le,
}
use autobahn_app.LfQueue.{u64}
use autobahn_app.LfQueue.Modular.{mod_gap}
use autobahn_app.LfQueue.Threads.{
  Pc, idle, enq_wait, enq_check, enq_store, enq_publish, deq_wait, deq_check, deq_read, deq_release,
  deq_return, Shared, take_c_ticket, release_slot,
}
use autobahn_app.LfQueue.Threads.Inv.{Slot, Fits, Apart}

module _ (s : Shared) (some_room : 0 < s.queue.capacity)
    (slots : (t : ℕ) → Slot s (t % s.queue.capacity)) where
  open s.queue use {p_count, c_count, p_counts, c_counts, values, capacity}

  module _ (fits : c_count + capacity + 1 < 2 ^ 64) where
    pub take_c-Fits : (r : Pc) → Fits s r → Fits (take_c_ticket s) r
    take_c-Fits (enq_wait v p) f = f
    take_c-Fits (enq_check v p) f = f
    take_c-Fits (enq_store v p) f = f
    take_c-Fits (enq_publish p) f = f
    take_c-Fits (deq_wait c) f = (omega arith, f.1)
    take_c-Fits (deq_check c) f = (omega arith, f.1)
    take_c-Fits (deq_read c) f = (omega arith, f.1, f.2)
    take_c-Fits (deq_release c v) f = (omega arith, f.1, f.2, f.3)
    take_c-Fits idle f = f
    take_c-Fits (deq_return v) f = f

    pub take_c-Slot : (t : ℕ) → Slot (take_c_ticket s) (t % capacity)
    take_c-Slot t =
        let k = slots t in
        record {
          phase = k.phase;
          stored = k.stored;
          published = k.published;
          released = omega (arith, k.released);
          p_place = k.p_place;
          c_place = k.c_place;
        }

    -- The slot of the new ticket has not been released beyond it.
    pub take_c-new : Fits (take_c_ticket s) (deq_wait (u64 (c_count + 1)))
    take_c-new =
        let c = c_count + 1 in
        let e : u64 c ≡ c = mod-eq_of_lt (omega arith) in
        let k = slots c in
        rw e (
          omega arith,
          elim (Bool-cases (ltb c (c_counts (c % capacity)))) [
            | inr low ↦ ltb→le c (c_counts (c % capacity)) low
            | inl high ↦
                let gap =
                  mod_gap c (c_counts (c % capacity)) capacity (sym k.c_place)
                    (ltb→lt c (c_counts (c % capacity)) high) in
                absurd (omega (arith, gap, k.released))
          ],
        )

  module _ (c v : ℕ) (mine : Fits s (deq_release c v))
      (fits : c_count + capacity + 1 < 2 ^ 64) where
    wraps_not : u64 (c + capacity) ≡ c + capacity
    wraps_not = mod-eq_of_lt (omega (arith, mine.0))

    release-behind :
        (c' : ℕ)
        → c ≢ c'
        → c_counts (c' % capacity) ≤ c'
        → (release_slot s c).queue.c_counts (c' % capacity) ≤ c'
    release-behind c' ne old = elim (Bool-cases (c % capacity == c' % capacity)) [
      | inl same ↦
          let e = ==→eq (c % capacity) (c' % capacity) same in
          let held : c_counts (c' % capacity) ≡ c = ap c_counts (sym e) ∙ mine.1 in
          let far = mod_gap c c' capacity e (omega (arith, held, old, ne)) in
          ground (arith, wraps_not)
      | inr other ↦ ground arith
    ]

    release-other : (t : ℕ) → c_counts (t % capacity) ≡ t → c ≢ t → c % capacity ≢ t % capacity
    release-other t held ne e = ne (sym mine.1 ∙ ap c_counts e ∙ held)

    -- A slot that is being written is empty.
    writer : (p : ℕ) → p_counts (p % capacity) + capacity ≤ p → c ≢ p
    writer p behind e =
        let full : p_counts (p % capacity) ≡ p = rw e at (mine.2) in
        omega (arith, behind, full, some_room)

    pub release-Fits : (r : Pc) → Fits s r → Apart (deq_release c v) r → Fits (release_slot s c) r
    release-Fits (enq_wait w p) f apart = f
    release-Fits (enq_check w p) f apart = f
    release-Fits (enq_store w p) f apart =
        let ne = release-other p f.3 (writer p f.2) in (f.0, f.1, f.2, ground arith)
    release-Fits (enq_publish p) f apart =
        let ne = release-other p f.3 (writer p f.2) in (f.0, f.1, f.2, ground arith)
    release-Fits (deq_wait c') f apart =
        (f.0, release-behind c' (λ e. apart.1 c refl (ap some (sym e))) f.1)
    release-Fits (deq_check c') f apart =
        (f.0, release-behind c' (λ e. apart.1 c refl (ap some (sym e))) f.1)
    release-Fits (deq_read c') f apart =
        let ne = release-other c' f.1 (λ e. apart.1 c refl (ap some (sym e))) in
        (f.0, ground arith, f.2)
    release-Fits (deq_release c' w) f apart =
        let ne = release-other c' f.1 (λ e. apart.1 c refl (ap some (sym e))) in
        (f.0, ground arith, f.2, f.3)
    release-Fits idle f apart = f
    release-Fits (deq_return w) f apart = f

    pub release-Slot : (t : ℕ) → Slot (release_slot s c) (t % capacity)
    release-Slot t = elim (Bool-cases (c % capacity == t % capacity)) [
      | inl same ↦
          let e = ==→eq (c % capacity) (t % capacity) same in
          let k = slots t in
          let full : p_counts (t % capacity) ≡ c = ap p_counts (sym e) ∙ mine.2 in
          record {
            phase = ground (arith, wraps_not);
            stored = λ q. ground (arith, wraps_not);
            published = k.published;
            released = ground (arith, wraps_not, mine.0);
            p_place = k.p_place;
            c_place = ground (arith, wraps_not, add-mod_right c capacity);
          }
      | inr other ↦
          let k = slots t in
          record {
            phase = ground (arith, k.phase);
            stored = λ q. ground (arith, k.stored);
            published = k.published;
            released = ground (arith, k.released);
            p_place = k.p_place;
            c_place = ground (arith, k.c_place);
          }
    ]
