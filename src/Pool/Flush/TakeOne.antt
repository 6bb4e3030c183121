-- ===== src/Pool/Flush/TakeOne.antt =====
-- One round of the first loop of nvm_flush (src/nvm0flush.cc): an inode is locked, or it goes back to
-- the queue.
use autobahn_app.Cycle.Queues.{Mem-tail}
use mathlib.Core.List.Perm
use mathlib.Core.List.{Mem, Perm, perm_middle, mem-cons_self, mem-append_right}
use autobahn_app.Prelude.{
  ◌≢◌, ◌⊎◌, sym, append-nil, ==→eq, test_of_ne, ℕ, suc, ◌+◌, ◌≤◌, ◌<◌, ◌≡◌, ◌∙◌, refl, ap, subst,
  inl, inr, Bool, true, false, some, List, [], ◌∷◌, ◌++◌, length, length-append, ◌==◌,
  if◌then◌else◌, Bool-cases, List-cases, ==_refl, lt→ltb, arith,
}
use autobahn_app.LfQueue.{update}
use autobahn_app.Pool.{Pool, push}
use autobahn_app.Pool.Flush.{lock_or_return, take_one}

push-room :
    (capacity : ℕ) (xs : List ℕ) (x : ℕ)
    → length xs < capacity
    → push capacity xs x ≡ some (xs ++ (x ∷ []))
push-room capacity xs x h = rw (lt→ltb (length xs) capacity h) refl

abbrev pub Locked : Pool → ℕ → Type 0
Locked s i = (s.inode_table i).locked ≡ true

-- What a round leaves of the queue, and which locks it holds.
pub record Round (v_idx : ℕ) (s : Pool) (idx : ℕ) (got : Bool) (after : Pool) : Type 0 where
  pub queue_length :
      length (s.dirty_queue v_idx) ≡ length (after.dirty_queue v_idx) + (if got then 1 else 0)
  pub same_max : after.max_inode_entry ≡ s.max_inode_entry
  pub got_lock : got ≡ true → Locked after idx
  pub keeps : (i : ℕ) → Locked s i → Locked after i
  pub same_sync : after.sync_queue ≡ s.sync_queue
  pub whole :
      Perm
        (s.dirty_queue v_idx)
        (if got then idx ∷ after.dirty_queue v_idx else after.dirty_queue v_idx)
  pub others : (w : ℕ) → v_idx ≢ w → after.dirty_queue w ≡ s.dirty_queue w
  pub only : (i : ℕ) → Locked after i → Locked s i ⊎ ((got ≡ true) × (idx ≡ i))
  pub stays : (i : ℕ) → Mem i (s.dirty_queue v_idx) → Locked s i → Mem i (after.dirty_queue v_idx)
  pub failed : got ≡ false → Mem idx (after.dirty_queue v_idx) × Locked after idx

rotated : (x : ℕ) (xs : List ℕ) → Perm (x ∷ xs) (xs ++ (x ∷ []))
rotated x xs =
    Perm.symm (subst (λ l. Perm (xs ++ (x ∷ [])) (x ∷ l)) (append-nil xs) (perm_middle xs []))

pub true-ne-false : true ≢ false
true-ne-false e = cc

not_locked : (s : Pool) (x i : ℕ) → (s.inode_table x).locked ≡ false → Locked s i → x ≢ i
not_locked s x i e h q = true-ne-false (sym h ∙ ap (λ j. (s.inode_table j).locked) (sym q) ∙ e)

pub take_one-Round :
    (v_idx : ℕ) (s : Pool)
    → 0 < length (s.dirty_queue v_idx)
    → length (s.dirty_queue v_idx) ≤ s.max_inode_entry
    → (idx : ℕ) × (got : Bool) × (after : Pool) × (take_one v_idx s ≡ some (idx, got, after))
      × Round v_idx s idx got after
unfolding take_one lock_or_return
take_one-Round v_idx s h k = elim (List-cases (s.dirty_queue v_idx)) [
  | inl q ↦ absurd (omega (arith, ap length q))
  | inr (x, rest, q) ↦
      let n : length (s.dirty_queue v_idx) ≡ suc (length rest) = ap length q in
      let popped : Pool = record s { dirty_queue = update s.dirty_queue v_idx rest } in
      elim (Bool-cases (s.inode_table x).locked) [
        | inl e ↦
            let queue = rest ++ (x ∷ []) in
            (
              x,
              false,
              record popped { dirty_queue = update popped.dirty_queue v_idx queue },
              rw (q) (rw (e, push-room s.max_inode_entry rest x (omega (arith, n, k))) refl),
              record {
                queue_length = rw (==_refl v_idx) (omega (arith, n, length-append rest (x ∷ [])));
                same_max = refl;
                got_lock = λ h. cc;
                keeps = λ i h. h;
                same_sync = refl;
                whole = rw (==_refl v_idx) (subst (λ l. Perm l queue) (sym q) (rotated x rest));
                others = λ w ne. rw (test_of_ne v_idx w ne) refl;
                only = λ i h. inl h;
                stays = λ i m h.
                    rw (==_refl v_idx) ((Perm.mem_iff (rotated x rest)).0 (subst (Mem i) q m));
                failed = λ h. (rw (==_refl v_idx) (mem-append_right rest mem-cons_self), e);
              },
            )
        | inr e ↦
            let locked = record (s.inode_table x) { locked = true } in
            (
              x,
              true,
              record popped { inode_table = update s.inode_table x locked },
              rw (q) (rw (e) refl),
              record {
                queue_length = rw (==_refl v_idx) (omega (arith, n));
                same_max = refl;
                got_lock = λ h. rw (==_refl x) refl;
                keeps =
                    λ i h. elim (Bool-cases (x == i)) [ inl t ↦ rw (t) refl | inr t ↦ rw (t) h ];
                same_sync = refl;
                whole =
                    rw (==_refl v_idx)
                      (subst (λ l. Perm l (x ∷ rest)) (sym q) (Perm.refl (x ∷ rest)));
                others = λ w ne. rw (test_of_ne v_idx w ne) refl;
                only = λ i h. elim (Bool-cases (x == i)) [
                  | inl t ↦ inr (refl, ==→eq x i t)
                  | inr t ↦ inl (rw (t) at h)
                ];
                stays = λ i m h.
                    rw (==_refl v_idx) (Mem-tail (not_locked s x i e h) (subst (Mem i) q m));
                failed = λ h. absurd (true-ne-false h);
              },
            )
      ]
]
