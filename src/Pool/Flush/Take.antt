-- ===== src/Pool/Flush/Take.antt =====
-- The first loop of nvm_flush (src/nvm0flush.cc) ends, with every inode that it keeps locked.
use autobahn_app.Pool.Flush.TakeOne.{Locked, true-ne-false, Round, take_one-Round}
use mathlib.Core.List.Perm
use mathlib.Core.List.{Mem, Perm, mem-cons_self, mem-cons_of_mem}
use autobahn_app.Prelude.{
  ◌≢◌, ◌⊎◌, sym, ℕ, zero, suc, ◌+◌, ◌-◌, ◌≤◌, ◌<◌, ◌≡◌, ◌∙◌, refl, ap, subst, inl, inr, true, false,
  some, List, [], ◌∷◌, ◌++◌, length, All, ltb, if◌then◌else◌, Bool-cases, ltb→le, arith,
}
use autobahn_app.Pool.{Pool, flush_batch_size}
use autobahn_app.Pool.Flush.{take_loop}

-- What the loop answers: the inodes that are locked now, which have left the queue, and the inodes
-- that are still there. A lock is held by an inode that is answered, or was held before. The loop
-- takes as many as it is asked for, or an inode that it could not lock is still in the queue.
pub record Taken (left v_idx : ℕ) (s : Pool) (idxs : List ℕ) (after : Pool) : Type 0 where
  pub no_more : length idxs ≤ left
  pub whole : Perm (s.dirty_queue v_idx) (idxs ++ after.dirty_queue v_idx)
  pub others : (w : ℕ) → v_idx ≢ w → after.dirty_queue w ≡ s.dirty_queue w
  pub only : (i : ℕ) → Locked after i → Locked s i ⊎ Mem i idxs
  pub stays : (i : ℕ) → Mem i (s.dirty_queue v_idx) → Locked s i → Mem i (after.dirty_queue v_idx)
  pub progress : (length idxs ≡ left) ⊎ ((i : ℕ) × Mem i (after.dirty_queue v_idx) × Locked after i)
  pub no_less : length (s.dirty_queue v_idx) ≡ length (after.dirty_queue v_idx) + length idxs
  pub locks : All (Locked after) idxs
  pub still : (i : ℕ) → Locked s i → Locked after i
  pub syncers : after.sync_queue ≡ s.sync_queue
  pub max : after.max_inode_entry ≡ s.max_inode_entry

-- What is left to do goes down after an inode that is locked elsewhere, too.
large : (left dirty : ℕ) → 1024 ≤ dirty - 1 → suc left + (dirty - 1) ≤ left + dirty
large left dirty h = omega arith

again_le :
    (left dirty : ℕ) → (if ltb (dirty - 1) flush_batch_size then left else suc left) ≤ suc left
again_le left dirty = elim (Bool-cases (ltb (dirty - 1) flush_batch_size)) [
  | inl e ↦ rw (e) (omega arith)
  | inr e ↦ rw (e) (omega arith)
]

again_lt :
    (left dirty : ℕ)
    → (if ltb (dirty - 1) flush_batch_size then left else suc left) + (dirty - 1) ≤ left + dirty
again_lt left dirty = elim (Bool-cases (ltb (dirty - 1) flush_batch_size)) [
  | inl e ↦ rw (e) (omega arith)
  | inr e ↦ rw (e) (large left dirty (ltb→le (dirty - 1) flush_batch_size e))
]

-- On more fuel than the inodes to take and the dirty ones together, the loop ends when the queue
-- holds as many inodes as it may take and no more than there are. The inodes that it answers are
-- locked and no more than asked for; they and the inodes that the queue holds afterwards are, in some
-- order, the ones that it held before, each as often; an inode that was locked before stays in the
-- queue. It answers as many as asked for, or an inode in the queue is locked. It takes locks only of
-- the inodes that it answers and gives none up, and the other dirty queues and the queues of the
-- syncers stay as they are.
pub take_loop_lem :
    (fuel left dirty v_idx : ℕ) (s : Pool)
    → left + dirty < fuel
    → left ≤ length (s.dirty_queue v_idx)
    → length (s.dirty_queue v_idx) ≤ s.max_inode_entry
    → (idxs : List ℕ) × (after : Pool) × (take_loop fuel left dirty v_idx s ≡ some (idxs, after))
      × Taken left v_idx s idxs after
unfolding take_loop
take_loop_lem zero left dirty v_idx s f h k = absurd (omega arith)
take_loop_lem (suc fuel) zero dirty v_idx s f h k = (
  [],
  s,
  refl,
  record {
    no_more = omega arith;
    no_less = omega arith;
    whole = Perm.refl (s.dirty_queue v_idx);
    others = λ w ne. refl;
    only = λ i h. inl h;
    stays = λ i m h. m;
    progress = inl refl;
    locks = tt;
    still = λ i x. x;
    syncers = refl;
    max = refl;
  },
)
take_loop_lem (suc fuel) (suc left) dirty v_idx s f h k =
    let (idx, got, mid, first, round) = take_one-Round v_idx s (omega (arith, h)) k in
    elim (Bool-cases got) [
      | inl e ↦
          let eq = first ∙ ap (λ b. some (idx, b, mid)) e in
          let r : Round v_idx s idx true mid = subst (λ b. Round v_idx s idx b mid) e round in
          let (idxs, after, done, t) =
            take_loop_lem fuel left dirty v_idx mid (omega (arith, f))
              (omega (arith, h, r.queue_length))
              (rw (r.same_max) (omega (arith, k, r.queue_length))) in
          (
            idx ∷ idxs,
            after,
            rw (eq) (rw (done) refl),
            record {
              no_more = omega (arith, t.no_more);
              no_less = omega (arith, t.no_less, r.queue_length);
              whole = Perm.trans r.whole (Perm.cons idx t.whole);
              others = λ w ne. t.others w ne ∙ r.others w ne;
              only = λ i h. elim (t.only i h) [
                | inr m ↦ inr (mem-cons_of_mem idx m)
                | inl l ↦ elim (r.only i l) [
                  | inl l ↦ inl l
                  | inr q ↦ inr (subst (λ j. Mem j (idx ∷ idxs)) q.1 mem-cons_self)
                ]
              ];
              stays = λ i m h. t.stays i (r.stays i m h) (r.keeps i h);
              progress = elim t.progress [ inl e ↦ inl (ap suc e) | inr m ↦ inr m ];
              locks = (t.still idx (r.got_lock refl), t.locks);
              still = λ i x. t.still i (r.keeps i x);
              syncers = t.syncers ∙ r.same_sync;
              max = t.max ∙ r.same_max;
            },
          )
      | inr e ↦
          let eq = first ∙ ap (λ b. some (idx, b, mid)) e in
          let r : Round v_idx s idx false mid = subst (λ b. Round v_idx s idx b mid) e round in
          let again = if ltb (dirty - 1) flush_batch_size then left else suc left in
          let (idxs, after, done, t) =
            take_loop_lem fuel again (dirty - 1) v_idx mid (omega (arith, f, again_lt left dirty))
              (omega (arith, h, r.queue_length, again_le left dirty))
              (rw (r.same_max) (omega (arith, k, r.queue_length))) in
          (
            idxs,
            after,
            rw (eq) done,
            record {
              no_more = omega (arith, t.no_more, again_le left dirty);
              no_less = omega (arith, t.no_less, r.queue_length);
              whole = Perm.trans r.whole t.whole;
              others = λ w ne. t.others w ne ∙ r.others w ne;
              only = λ i h. elim (t.only i h) [
                | inr m ↦ inr m
                | inl l ↦ elim (r.only i l) [
                  | inl l ↦ inl l
                  | inr q ↦ absurd (true-ne-false (sym q.0))
                ]
              ];
              stays = λ i m h. t.stays i (r.stays i m h) (r.keeps i h);
              progress = let (m, l) = r.failed refl in inr (idx, t.stays idx m l, t.still idx l);
              locks = t.locks;
              still = λ i x. t.still i (r.keeps i x);
              syncers = t.syncers ∙ r.same_sync;
              max = t.max ∙ r.same_max;
            },
          )
    ]
