-- ===== src/Cycle/Flush.antt =====
-- nvm_flush and the round of flush_thread_func (src/nvm0flush.cc) keep the buffer.
use autobahn_app.Prelude.{
  some-inj, ℕ, suc, ◌+◌, ◌-◌, ◌≡◌, ◌≢◌, ◌⊎◌, refl, subst, inl, inr, Bool, true, false, some, List,
  length, ltb, if◌then◌else◌, >>=-eq-some, Bool-cases, List-cases,
}
use autobahn_app.HashList.Chain.{Absent}
use autobahn_app.Pool.{Pool, Io, push}
use autobahn_app.Pool.Flush.{take_loop, flush_size, nvm_flush, flush_round}
use autobahn_app.Cycle.Queues.{Has, All-Has, all_Has}
use autobahn_app.Cycle.Flow.{Flow-same, IsFlow, Moved, Moved-refl, Moved-trans}
use autobahn_app.Cycle.Take.{take_loop-Taken}
use autobahn_app.Cycle.Pass.{write_loop-Left}

-- Nothing is left in the hands of the flusher at the end.
nvm_flush-Moved :
    (accepts : Io → Bool) (v : ℕ) (s t : Pool)
    → IsFlow s
    → nvm_flush accepts v s ≡ some t
    → IsFlow t × Moved s t
unfolding nvm_flush
nvm_flush-Moved accepts v s t flow h =
    let dirty = length (s.dirty_queue v) - 1 in
    let size = flush_size dirty in
    let (taken, first, second) = >>=-eq-some (take_loop (suc (size + dirty)) size dirty v s) _ h in
    let k = take_loop-Taken (suc (size + dirty)) size dirty v s (λ i. ⊥) taken flow first in
    let held =
      Flow-same taken.1 (λ i. Has i taken.0 ⊎ ⊥) (λ i. Has i taken.0)
        (λ i a. elim a [ inl m ↦ m | inr b ↦ absurd b ]) (λ i m. inl m) k.flow in
    let (last, moved) =
      write_loop-Left (suc (length taken.0)) accepts v taken.0 taken.1 t (λ i. Has i taken.0) held
        (all_Has taken.0) k.once second in
    (
      Flow-same t (λ i. Has i taken.0 × Absent i taken.0) (λ i. ⊥)
          (λ i a. All-Has (λ y. i ≢ y) taken.0 i a.1 a.0 refl) (λ i b. absurd b) last,
      Moved-trans s taken.1 t k.moved moved,
    )

-- The queue of the volumes in use does not matter here.
inuse-Moved :
    (s : Pool) (queue : List ℕ)
    → IsFlow s
    → IsFlow (record s { volume_inuse = queue }) × Moved s (record s { volume_inuse = queue })
inuse-Moved s queue flow = (
  record {
    dirty = flow.dirty;
    own = flow.own;
    queued = flow.queued;
    hand = flow.hand;
    hand_left = flow.hand_left;
    sync = flow.sync;
    clean = flow.clean;
  },
  record {
    max = refl;
    volumes = refl;
    size = refl;
    table = refl;
    memory = refl;
    free_queue = refl;
    lbns = λ i. refl;
    labels = λ i. refl;
    blocks = λ i. refl;
    free = λ i h. h;
    used = λ i h. h;
  },
)

flush_if-Moved :
    (accepts : Io → Bool) (v : ℕ) (test : Bool) (s t : Pool)
    → IsFlow s
    → (if test then nvm_flush accepts v s else some s) ≡ some t
    → IsFlow t × Moved s t
flush_if-Moved accepts v true s t flow h = nvm_flush-Moved accepts v s t flow h
flush_if-Moved accepts v false s t flow h =
    subst (λ x. IsFlow x × Moved s x) (some-inj h) (flow, Moved-refl s)

pub flush_round-Moved :
    (accepts : Io → Bool) (low : ℕ) (s t : Pool)
    → IsFlow s
    → flush_round accepts low s ≡ some t
    → IsFlow t × Moved s t
unfolding flush_round
flush_round-Moved accepts low s t flow h = elim (Bool-cases (ltb s.inode_dirty_count low)) [
  | inl e ↦ subst (λ x. IsFlow x × Moved s x) (some-inj (rw (e) at h)) (flow, Moved-refl s)
  | inr e ↦ elim (List-cases s.volume_inuse) [
    | inl q ↦ subst (λ x. IsFlow x × Moved s x) (some-inj (rw (e, q) at h)) (flow, Moved-refl s)
    | inr (v, rest, q) ↦
        let popped : Pool = record s { volume_inuse = rest } in
        let first = inuse-Moved s rest flow in
        let (flushed, one, more) =
          >>=-eq-some
            (if ltb 1 (length (s.dirty_queue v)) then nvm_flush accepts v popped else some popped) _
            (rw (e, q) at h) in
        let (flow', moved) =
          flush_if-Moved accepts v (ltb 1 (length (s.dirty_queue v))) popped flushed first.0 one in
        let (queue, pushed, eq) =
          >>=-eq-some (push s.max_volume_entry flushed.volume_inuse v) _ more in
        let last = inuse-Moved flushed queue flow' in
        subst (λ x. IsFlow x × Moved s x) (some-inj eq)
          (last.0, Moved-trans s popped _ first.1 (Moved-trans popped flushed _ moved last.1))
  ]
]
