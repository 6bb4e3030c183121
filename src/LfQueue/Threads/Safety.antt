-- ===== src/LfQueue/Threads/Safety.antt =====
-- include/nvm0lfqueue.h keeps its invariant under every interleaving: each value is handed to the
-- call of `dequeue` that holds the ticket of the `enqueue` that brought it.
use native.Mathlib.Nat.{mod-eq_of_lt}
use autobahn_app.Prelude.{ℕ, ◌+◌, ◌%◌, ◌^◌, ◌≤◌, ◌<◌, ◌≡◌, ◌∙◌, refl, sym, ap, some, arith}
use mathlib.Core.Option.{some-injective}
use autobahn_app.LfQueue.{u64}
use autobahn_app.LfQueue.Threads.{
  Pc, enq_wait, enq_check, enq_store, enq_publish, deq_wait, deq_check, deq_read, deq_release,
  p_ticket, c_ticket, Shared, Move, take_p, ready_p, busy_p, quit_p, again_p, store, publish,
  take_c, ready_c, busy_c, quit_c, again_c, read, release, leave,
}
use autobahn_app.LfQueue.Threads.Inv.{Slot, Fits, Apart}
use autobahn_app.LfQueue.Threads.Producer.{
  take_p-Fits, take_p-Slot, take_p-new, store-Fits, store-Slot, store-mine, publish-Fits,
  publish-Slot,
}
use autobahn_app.LfQueue.Threads.Consumer.{
  take_c-Fits, take_c-Slot, take_c-new, release-Fits, release-Slot,
}

pub Apart-sym : (p r : Pc) → Apart p r → Apart r p
Apart-sym p r a = (λ t u v. a.0 t v u, λ t u v. a.1 t v u)

p_ticket-le : (s : Shared) (r : Pc) (t : ℕ) → Fits s r → p_ticket r ≡ some t → t ≤ s.queue.p_count
p_ticket-le s (enq_wait v p) t f e = ground arith
p_ticket-le s (enq_check v p) t f e = ground arith
p_ticket-le s (enq_store v p) t f e = ground arith
p_ticket-le s (enq_publish p) t f e = ground arith
p_ticket-le s _ t f e = cc

c_ticket-le : (s : Shared) (r : Pc) (t : ℕ) → Fits s r → c_ticket r ≡ some t → t ≤ s.queue.c_count
c_ticket-le s (deq_wait c) t f e = ground arith
c_ticket-le s (deq_check c) t f e = ground arith
c_ticket-le s (deq_read c) t f e = ground arith
c_ticket-le s (deq_release c v) t f e = ground arith
c_ticket-le s _ t f e = cc

module _ (s : Shared) (some_room : 0 < s.queue.capacity)
    (slots : (t : ℕ) → Slot s (t % s.queue.capacity)) (p_fits : s.queue.p_count + 1 < 2 ^ 64)
    (c_fits : s.queue.c_count + s.queue.capacity + 1 < 2 ^ 64) where
  pub Move-capacity : {p p' : Pc} {m : Shared} → Move s p m p' → m.queue.capacity ≡ s.queue.capacity
  Move-capacity (take_p v) = refl
  Move-capacity _ = refl

  pub Move-slots :
      {p p' : Pc} {m : Shared} → Move s p m p' → Fits s p → (t : ℕ) → Slot m (t % m.queue.capacity)
  Move-slots (take_p v) f t = take_p-Slot s some_room slots p_fits v t
  Move-slots (store {v} {p}) f t = store-Slot s some_room slots v p f t
  Move-slots (publish {p}) f t = publish-Slot s some_room slots p f t
  Move-slots take_c f t = take_c-Slot s some_room slots c_fits t
  Move-slots (release {c} {v}) f t = release-Slot s some_room slots c v f c_fits t
  Move-slots _ f t = slots t

  pub Move-others :
      {p p' : Pc} {m : Shared}
      → Move s p m p'
      → Fits s p
      → (r : Pc) → Fits s r
      → Apart p r
      → Fits m r
  Move-others (take_p v) f r g a = take_p-Fits s some_room slots p_fits v r g
  Move-others (store {v} {p}) f r g a = store-Fits s some_room slots v p f r g a
  Move-others (publish {p}) f r g a = publish-Fits s some_room slots p f r g a
  Move-others take_c f r g a = take_c-Fits s some_room slots c_fits r g
  Move-others (release {c} {v}) f r g a = release-Fits s some_room slots c v f c_fits r g a
  Move-others _ f r g a = g

  -- What the moving thread knows at its new place.
  pub Move-own : {p p' : Pc} {m : Shared} → Move s p m p' → Fits s p → Fits m p'
  Move-own (take_p v) f = take_p-new s some_room slots p_fits v
  Move-own (ready_p e) f = (f.0, f.1, f.2, sym e)
  Move-own (busy_p e) f = f
  Move-own (quit_p e) f = tt
  Move-own (again_p e) f = f
  Move-own (store {v} {p}) f = store-mine s some_room slots v p f
  Move-own publish f = tt
  Move-own take_c f = take_c-new s some_room slots c_fits
  Move-own (ready_c {c} e) f = ground (arith, (slots c).phase, some_room)
  Move-own (busy_c e) f = f
  Move-own (quit_c e) f = tt
  Move-own (again_c e) f = f
  Move-own (read {c}) f = (f.0, f.1, f.2, (slots c).stored (f.1 ∙ sym f.2) ∙ ap s.sent f.2)
  Move-own release f = tt
  Move-own leave f = tt

  -- A new ticket is larger than every one that is held.
  pub Move-Apart :
      {p p' : Pc} {m : Shared} → Move s p m p' → (r : Pc) → Fits s r → Apart p r → Apart p' r
  Move-Apart (take_p v) r f a = (
    λ t u w.
        let e : u64 (s.queue.p_count + 1) ≡ s.queue.p_count + 1 = mod-eq_of_lt p_fits in
        let same = some-injective _ _ u in absurd (omega (arith, e, same, p_ticket-le s r t f w)),
    λ t u w. cc,
  )
  Move-Apart take_c r f a = (
    λ t u w. cc,
    λ t u w.
        let e : u64 (s.queue.c_count + 1) ≡ s.queue.c_count + 1 = mod-eq_of_lt (omega arith) in
        let same = some-injective _ _ u in absurd (omega (arith, e, same, c_ticket-le s r t f w)),
  )
  Move-Apart (quit_p e) r f a = (λ t u w. cc, λ t u w. cc)
  Move-Apart publish r f a = (λ t u w. cc, λ t u w. cc)
  Move-Apart (quit_c e) r f a = (λ t u w. cc, λ t u w. cc)
  Move-Apart release r f a = (λ t u w. cc, λ t u w. cc)
  Move-Apart leave r f a = (λ t u w. cc, λ t u w. cc)
  Move-Apart (ready_p e) r f a = a
  Move-Apart (busy_p e) r f a = a
  Move-Apart (again_p e) r f a = a
  Move-Apart store r f a = a
  Move-Apart (ready_c e) r f a = a
  Move-Apart (busy_c e) r f a = a
  Move-Apart (again_c e) r f a = a
  Move-Apart read r f a = a
