-- ===== src/LfQueue/Threads/Producer.antt =====
-- The steps of `enqueue` in include/nvm0lfqueue.h: what they leave true for the other threads.
use native.Mathlib.Nat.{mod-eq_of_lt}
use autobahn_app.Prelude.{
  ℕ, ◌+◌, ◌%◌, ◌^◌, ◌≤◌, ◌<◌, ◌≡◌, ◌≢◌, ◌∙◌, refl, sym, ap, some, arith, ◌==◌, Bool-cases, inl, inr,
  ==→eq,
}
use autobahn_app.LfQueue.{u64}
use autobahn_app.LfQueue.Modular.{mod_gap}
use autobahn_app.LfQueue.Threads.{
  Pc, idle, enq_wait, enq_check, enq_store, enq_publish, deq_wait, deq_check, deq_read, deq_release,
  deq_return, Shared, take_p_ticket, store_value, publish_ticket,
}
use autobahn_app.LfQueue.Threads.Inv.{Slot, Fits, Apart}

module _ (s : Shared) (some_room : 0 < s.queue.capacity)
    (slots : (t : ℕ) → Slot s (t % s.queue.capacity)) where
  open s.queue use {p_count, c_count, p_counts, c_counts, values, capacity}

  module _ (fits : p_count + 1 < 2 ^ 64) (value : ℕ) where
    pub take_p-Fits : (r : Pc) → Fits s r → Fits (take_p_ticket s value) r
    take_p-Fits (enq_wait v p) f = ground arith
    take_p-Fits (enq_check v p) f = ground arith
    take_p-Fits (enq_store v p) f = ground arith
    take_p-Fits (enq_publish p) f = ground arith
    take_p-Fits (deq_release c v) f = ground (arith, (slots c).published)
    take_p-Fits idle f = f
    take_p-Fits (deq_wait c) f = f
    take_p-Fits (deq_check c) f = f
    take_p-Fits (deq_read c) f = f
    take_p-Fits (deq_return v) f = f

    pub take_p-Slot : (t : ℕ) → Slot (take_p_ticket s value) (t % capacity)
    take_p-Slot t =
        let k = slots t in
        record {
          phase = k.phase;
          stored = λ e. ground (arith, k.stored e, k.published);
          published = omega (arith, k.published);
          released = k.released;
          p_place = k.p_place;
          c_place = k.c_place;
        }

    -- The new ticket is beyond what its slot has seen.
    pub take_p-new : Fits (take_p_ticket s value) (enq_wait value (u64 (p_count + 1)))
    take_p-new =
        let p = p_count + 1 in
        let e : u64 p ≡ p = mod-eq_of_lt fits in
        let k = slots p in
        rw e (
          omega arith,
          ground arith,
          mod_gap (p_counts (p % capacity)) p capacity k.p_place (omega (arith, k.published)),
        )

  -- A thread that is about to write, or to publish, owns its slot.
  module _ (v p : ℕ) (mine : Fits s (enq_store v p)) where
    pub store-Fits : (r : Pc) → Fits s r → Apart (enq_store v p) r → Fits (store_value s v p) r
    store-Fits (enq_publish p') f apart = elim (Bool-cases (p % capacity == p' % capacity)) [
      | inl same ↦
          let e = ==→eq (p % capacity) (p' % capacity) same in
          let clash : p' ≡ p = sym f.3 ∙ ap c_counts (sym e) ∙ mine.3 in
          absurd (apart.0 p refl (ap some clash))
      | inr other ↦ ground arith
    ]
    store-Fits (enq_wait v' p') f apart = f
    store-Fits (enq_check v' p') f apart = f
    store-Fits (enq_store v' p') f apart = f
    store-Fits (deq_release c w) f apart = f
    store-Fits idle f apart = f
    store-Fits (deq_wait c) f apart = f
    store-Fits (deq_check c) f apart = f
    store-Fits (deq_read c) f apart = f
    store-Fits (deq_return w) f apart = f

    pub store-Slot : (t : ℕ) → Slot (store_value s v p) (t % capacity)
    store-Slot t =
        let k = slots t in
        record {
          phase = k.phase;
          stored = λ e. elim (Bool-cases (p % capacity == t % capacity)) [
            | inl same ↦
                let q = ==→eq (p % capacity) (t % capacity) same in
                let full : c_counts (p % capacity) ≡ p_counts (p % capacity) =
                  ap c_counts q ∙ e ∙ ap p_counts (sym q) in
                absurd (omega (arith, mine.2, mine.3, full, some_room))
            | inr other ↦ ground (arith, k.stored e)
          ];
          published = k.published;
          released = k.released;
          p_place = k.p_place;
          c_place = k.c_place;
        }

    pub store-mine : Fits (store_value s v p) (enq_publish p)
    store-mine = (mine.0, ground (arith, mine.1), mine.2, mine.3)

  module _ (p : ℕ) (mine : Fits s (enq_publish p)) where
    -- The next ticket of the slot is a capacity away.
    next_round :
        (p' : ℕ)
        → p % capacity ≡ p' % capacity
        → p_counts (p' % capacity) + capacity ≤ p'
        → p ≢ p'
        → p + capacity ≤ p'
    next_round p' e old ne =
        let k = slots p in
        let same : p_counts (p' % capacity) ≡ p_counts (p % capacity) = ap p_counts (sym e) in
        mod_gap p p' capacity e (omega (arith, k.phase, mine.2, mine.3, same, old, ne, some_room))

    -- A slot that is being read is full.
    reader : (c : ℕ) → c_counts (c % capacity) ≡ c → p_counts (c % capacity) ≡ c → p ≢ c
    reader c held full e =
        let behind : p_counts (c % capacity) + capacity ≤ c = rw e at (mine.2) in
        omega (arith, behind, full, some_room)

    publish-behind :
        (p' : ℕ)
        → p ≢ p'
        → p_counts (p' % capacity) + capacity ≤ p'
        → (publish_ticket s p).queue.p_counts (p' % capacity) + capacity ≤ p'
    publish-behind p' ne old = elim (Bool-cases (p % capacity == p' % capacity)) [
      | inl same ↦
          let far = next_round p' (==→eq (p % capacity) (p' % capacity) same) old ne in ground arith
      | inr other ↦ ground arith
    ]

    -- No other thread owns the slot, to write it or to read it.
    publish-other : (t : ℕ) → c_counts (t % capacity) ≡ t → p ≢ t → p % capacity ≢ t % capacity
    publish-other t held ne e = ne (sym mine.3 ∙ ap c_counts e ∙ held)

    pub publish-Fits : (r : Pc) → Fits s r → Apart (enq_publish p) r → Fits (publish_ticket s p) r
    publish-Fits (enq_wait v p') f apart =
        (f.0, f.1, publish-behind p' (λ e. apart.0 p refl (ap some (sym e))) f.2)
    publish-Fits (enq_check v p') f apart =
        (f.0, f.1, publish-behind p' (λ e. apart.0 p refl (ap some (sym e))) f.2)
    publish-Fits (enq_store v p') f apart =
        (f.0, f.1, publish-behind p' (λ e. apart.0 p refl (ap some (sym e))) f.2, f.3)
    publish-Fits (enq_publish p') f apart =
        (f.0, f.1, publish-behind p' (λ e. apart.0 p refl (ap some (sym e))) f.2, f.3)
    publish-Fits (deq_read c) f apart =
        let ne = publish-other c f.1 (reader c f.1 f.2) in (f.0, f.1, ground arith)
    publish-Fits (deq_release c w) f apart =
        let ne = publish-other c f.1 (reader c f.1 f.2) in (f.0, f.1, ground arith, f.3)
    publish-Fits idle f apart = f
    publish-Fits (deq_wait c) f apart = f
    publish-Fits (deq_check c) f apart = f
    publish-Fits (deq_return w) f apart = f

    pub publish-Slot : (t : ℕ) → Slot (publish_ticket s p) (t % capacity)
    publish-Slot t = elim (Bool-cases (p % capacity == t % capacity)) [
      | inl same ↦
          let e = ==→eq (p % capacity) (t % capacity) same in
          let k = slots t in
          let held : c_counts (t % capacity) ≡ p = ap c_counts (sym e) ∙ mine.3 in
          let written : values (t % capacity) ≡ s.sent p = ap values (sym e) ∙ mine.1 in
          record {
            phase = ground arith;
            stored = λ full. ground arith;
            published = ground (arith, mine.0);
            released = k.released;
            p_place = ground arith;
            c_place = k.c_place;
          }
      | inr other ↦
          let k = slots t in
          record {
            phase = ground (arith, k.phase);
            stored = λ full. ground (arith, k.stored);
            published = ground (arith, k.published);
            released = k.released;
            p_place = ground (arith, k.p_place);
            c_place = k.c_place;
          }
    ]
