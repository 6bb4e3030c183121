-- ===== src/Cycle/Pass.antt =====
-- The second loop of nvm_flush (src/nvm0flush.cc): the inodes in the hands of the flusher go to the
-- queues of the syncers.
use mathlib.Core.List.{Mem}
use autobahn_app.Prelude.{
  ◌&&◌, eq-or-ne, some-inj, none-some, ℕ, zero, suc, ◌+◌, ◌-◌, ◌%◌, ◌^◌, ◌*◌, ◌≡◌, ◌≢◌, ◌∙◌, refl,
  sym, ap, subst, inl, inr, Bool, some, List, [], ◌∷◌, ◌++◌, All, All-imp, All-both, All-append,
  All-append_left, All-append_right, >>=-eq-some, Bool-cases,
}
use autobahn_app.LfQueue.{u32, u64, update}
use autobahn_app.HashList.Chain.{Absent, Apart}
use autobahn_app.Pool.{
  state_dirty, state_sync, state_free, Inode, Pool, Io, push, write_at, num_syncer,
}
use autobahn_app.Pool.Blocks.{update_self, update_ne, update_field}
use autobahn_app.Pool.Flush.{
  look_ahead, gather, pass_on, pass_all, get_filesizes, write_batch, write_loop,
}
use autobahn_app.Pool.Flush.Runs.{look_ahead_lem}
use autobahn_app.Cycle.Queues.{joined}
use autobahn_app.Buffer.Keeps.{dirty-ne-free}
use autobahn_app.Cycle.Queues.{Queues-imp, push-some, joined-Queues}
use autobahn_app.Buffer.Wf.{In}
use autobahn_app.Cycle.Flow.{InLocked, Flow, Flow-same, Moved, Moved-refl, Moved-trans}

sync-ne-dirty : state_sync ≢ state_dirty
sync-ne-dirty e = cc

sync-ne-free : state_sync ≢ state_free
sync-ne-free e = cc

module _ (s : Pool) (idx : ℕ) (H : ℕ → Type 0) (flow : Flow s H) (here : H idx) where
  abbrev k : ℕ
  k = s.sync_queue_idx % num_syncer

  abbrev passed : Inode
  passed = record (s.inode_table idx) { state = state_sync }

  abbrev after : (ℕ → List ℕ) → Pool
  after q = record s {
    inode_dirty_count = u32 (s.inode_dirty_count + 2 ^ 32 - 1);
    inode_table = update s.inode_table idx passed;
    sync_queue = q;
    sync_queue_idx = u64 (s.sync_queue_idx + 1);
  }

  is_sync : ((after s.sync_queue).inode_table idx).state ≡ state_sync
  is_sync = ap (λ x. x.state) (update_self s.inode_table idx passed)

  is_dirty : (s.inode_table idx).state ≡ state_dirty
  is_dirty = (flow.hand idx here).0.1

  other_state :
      (i : ℕ) → idx ≢ i → ((after s.sync_queue).inode_table i).state ≡ (s.inode_table i).state
  other_state i ne = ap (λ x. x.state) (update_ne s.inode_table idx passed i ne)

  same_volume : (i : ℕ) → ((after s.sync_queue).inode_table i).volume ≡ (s.inode_table i).volume
  same_volume i = update_field (λ x. x.volume) s.inode_table idx passed refl i

  same_lock : (i : ℕ) → ((after s.sync_queue).inode_table i).locked ≡ (s.inode_table i).locked
  same_lock i = update_field (λ x. x.locked) s.inode_table idx passed refl i

  not_idx : (i : ℕ) → ((after s.sync_queue).inode_table i).state ≡ state_dirty → idx ≢ i
  not_idx i d e =
      sync-ne-dirty (sym is_sync ∙ ap (λ x. ((after s.sync_queue).inode_table x).state) e ∙ d)

  -- A dirty inode is in no queue of a syncer.
  sync_left : (j : ℕ) → Absent idx (s.sync_queue j)
  sync_left j =
      All-imp (s.sync_queue j)
        (λ i h e. sync-ne-dirty (sym h.0.1 ∙ ap (λ x. (s.inode_table x).state) (sym e) ∙ is_dirty))
        (flow.sync.all j)

  after-Flow : Flow (after (joined s.sync_queue k idx)) (λ i. H i × (idx ≢ i))
  after-Flow = record {
    dirty =
        Queues-imp (In s state_dirty) (In (after s.sync_queue) state_dirty) s.dirty_queue idx
          flow.dirty (flow.hand_left idx here) (λ i ne h. (h.0, other_state i ne ∙ h.1));
    own = λ v. All-imp (s.dirty_queue v) (λ i h. same_volume i ∙ h) (flow.own v);
    queued = λ i h.
        let ne = not_idx i h.1 in
        elim (flow.queued i (h.0, sym (other_state i ne) ∙ h.1)) [
          | inl a ↦ inl (a, ne)
          | inr m ↦ inr (subst (λ u. Mem i (s.dirty_queue u)) (sym (same_volume i)) m)
        ];
    hand = λ i h. let (d, l) = flow.hand i h.0 in ((d.0, other_state i h.1 ∙ d.1), same_lock i ∙ l);
    hand_left = λ i h. flow.hand_left i h.0;
    sync =
        joined-Queues (InLocked (after s.sync_queue) state_sync) s.sync_queue k idx
          (Queues-imp (InLocked s state_sync) (InLocked (after s.sync_queue) state_sync)
            s.sync_queue idx flow.sync sync_left
            (λ i ne h. ((h.0.0, other_state i ne ∙ h.0.1), same_lock i ∙ h.1)))
          sync_left (((flow.hand idx here).0.0, is_sync), same_lock idx ∙ (flow.hand idx here).1);
    clean = flow.clean;
  }

  after-Moved : (q : ℕ → List ℕ) → Moved s (after q)
  after-Moved q = record {
    max = refl;
    volumes = refl;
    size = refl;
    table = refl;
    memory = refl;
    free_queue = refl;
    lbns = λ i. update_field (λ x. x.lbn) s.inode_table idx passed refl i;
    labels = same_volume;
    blocks = λ i. update_field (λ x. x.block_index) s.inode_table idx passed refl i;
    free = λ i h.
        other_state i (λ e. dirty-ne-free (sym is_dirty ∙ ap (λ x. (s.inode_table x).state) e ∙ h))
        ∙ h;
    used = λ i h f. elim (eq-or-ne idx i) [
      | inl e ↦
          sync-ne-free (sym is_sync ∙ ap (λ x. ((after s.sync_queue).inode_table x).state) e ∙ f)
      | inr ne ↦ h (sym (other_state i ne) ∙ f)
    ];
  }

-- What is left in the hands, and that nothing else has changed.
abbrev pub Left : (s : Pool) → (H : ℕ → Type 0) → List ℕ → Pool → Type 0
Left s H idxs after = Flow after (λ i. H i × Absent i idxs) × Moved s after

pass_on-Flow :
    (s t : Pool) (idx : ℕ) (H : ℕ → Type 0)
    → Flow s H
    → H idx
    → pass_on idx s ≡ some t
    → Flow t (λ i. H i × (idx ≢ i)) × Moved s t
unfolding pass_on
pass_on-Flow s t idx H flow here h =
    let q = s.sync_queue (k s idx H flow here) in
    let (queue, pushed, eq) = >>=-eq-some (push s.max_inode_entry q idx) _ h in
    let same =
      ap (update s.sync_queue (k s idx H flow here))
        (push-some s.max_inode_entry idx q queue pushed) in
    subst (λ x. Flow x (λ i. H i × (idx ≢ i)) × Moved s x)
      (ap (after s idx H flow here) same ∙ some-inj eq)
      (after-Flow s idx H flow here, after-Moved s idx H flow here _)

pass_all-Left :
    (idxs : List ℕ) (s t : Pool) (H : ℕ → Type 0)
    → Flow s H
    → All H idxs
    → Apart idxs
    → pass_all idxs s ≡ some t
    → Left s H idxs t
unfolding pass_all
pass_all-Left [] s t H flow all once h =
    subst (Left s H []) (some-inj h)
      (Flow-same s H (λ i. H i × Absent i []) (λ i a. (a, tt)) (λ i a. a.0) flow, Moved-refl s)
pass_all-Left (idx ∷ idxs) s t H flow all once h =
    let (mid, one, more) = >>=-eq-some (pass_on idx s) _ h in
    let (flow', moved) = pass_on-Flow s mid idx H flow all.0 one in
    let (last, moved') =
      pass_all-Left idxs mid t (λ i. H i × (idx ≢ i)) flow'
        (All-both idxs (λ i a ne. (a, ne)) all.1 once.0) once.1 more in
    (
      Flow-same t (λ i. (H i × (idx ≢ i)) × Absent i idxs) (λ i. H i × Absent i (idx ∷ idxs))
          (λ i a. (a.0.0, (λ e. a.0.1 (sym e), a.1))) (λ i a. ((a.0, λ e. a.1.0 (sym e)), a.1.1))
          last,
      Moved-trans s mid t moved moved',
    )

Absent-nil : (ys : List ℕ) → All (λ i. Absent i []) ys
Absent-nil [] = tt
Absent-nil (y ∷ ys) = (tt, Absent-nil ys)

-- A list without an item that occurs twice, in two parts.
Apart-parts : (xs ys : List ℕ) → Apart (xs ++ ys) → Apart xs × Apart ys × All (λ i. Absent i xs) ys
Apart-parts [] ys a = (tt, a, Absent-nil ys)
Apart-parts (x ∷ xs) ys a =
    let (left, right, both) = Apart-parts xs ys a.1 in
    (
      (All-append_left (λ y. x ≢ y) xs ys a.0, left),
      right,
      All-both ys (λ i h g. ((λ e. h (sym e)), g)) (All-append_right (λ y. x ≢ y) xs ys a.0) both,
    )

Absent-parts : (i : ℕ) (xs ys : List ℕ) → Absent i xs → Absent i ys → Absent i (xs ++ ys)
Absent-parts i xs ys h k = All-append (λ y. i ≢ y) xs ys h k

-- A call of pwritev is noted, and nothing else.
io-Left :
    (s : Pool) (H : ℕ → Type 0) (io : List Io)
    → Flow s H
    → Flow (record s { io = io }) H × Moved s (record s { io = io })
io-Left s H io flow = (
  record {
    dirty = flow.dirty;
    own = flow.own;
    queued = flow.queued;
    hand = flow.hand;
    hand_left = flow.hand_left;
    sync = flow.sync;
    clean = flow.clean;
  },
  record {
    max = refl;
    volumes = refl;
    size = refl;
    table = refl;
    memory = refl;
    free_queue = refl;
    lbns = λ i. refl;
    labels = λ i. refl;
    blocks = λ i. refl;
    free = λ i h. h;
    used = λ i h. h;
  },
)

write_batch-Left :
    (accepts : Io → Bool) (v_idx idx : ℕ) (run : List ℕ) (s t : Pool) (H : ℕ → Type 0)
    → Flow s H
    → write_batch accepts v_idx idx run s ≡ some t
    → Flow t H × Moved s t
unfolding write_batch
write_batch-Left accepts v_idx idx run s t H flow h =
    let start = s.inode_table idx in
    let call =
      write_at (s.volume_table start.volume).fd (s.block_size * start.lbn) (gather s (idx ∷ run)) in
    elim (Bool-cases
      (get_filesizes accepts (s.volume_table v_idx).vid (idx ∷ run) && accepts call)) [
        | inl e ↦
            subst (λ x. Flow x H × Moved s x) (some-inj (rw (e) at h))
              (io-Left s H (s.io ++ (call ∷ [])) flow)
        | inr e ↦ absurd (none-some (rw (e) at h))
      ]

-- One round of the loop, with the rounds after it.
more-Left :
    (s mid t : Pool) (H : ℕ → Type 0) (xs ys idxs : List ℕ)
    → xs ++ ys ≡ idxs
    → Left s H xs mid
    → Left mid (λ i. H i × Absent i xs) ys t
    → Left s H idxs t
more-Left s mid t H xs ys idxs whole first rest = (
  Flow-same t (λ i. (H i × Absent i xs) × Absent i ys) (λ i. H i × Absent i idxs)
      (λ i a. (a.0.0, subst (Absent i) whole (Absent-parts i xs ys a.0.1 a.1)))
      (λ i a.
        let both = subst (Absent i) (sym whole) a.1 in
        ((a.0, All-append_left (λ y. i ≢ y) xs ys both), All-append_right (λ y. i ≢ y) xs ys both))
      rest.0,
  Moved-trans s mid t first.1 rest.1,
)

-- The loop, whenever it returns.
pub write_loop-Left :
    (fuel : ℕ) (accepts : Io → Bool) (v_idx : ℕ) (idxs : List ℕ) (s t : Pool) (H : ℕ → Type 0)
    → Flow s H
    → All H idxs
    → Apart idxs
    → write_loop fuel accepts v_idx idxs s ≡ some t
    → Left s H idxs t
unfolding write_loop
write_loop-Left zero accepts v_idx idxs s t H flow all once h = absurd (none-some h)
write_loop-Left (suc fuel) accepts v_idx [] s t H flow all once h =
    subst (Left s H []) (some-inj h)
      (Flow-same s H (λ i. H i × Absent i []) (λ i a. (a, tt)) (λ i a. a.0) flow, Moved-refl s)
write_loop-Left (suc fuel) accepts v_idx (idx ∷ idxs) s t H flow all once h =
    let batch = look_ahead s (s.inode_table idx).lbn idxs in
    let run = idx ∷ batch.0 in
    let whole : run ++ batch.1 ≡ idx ∷ idxs =
      ap (λ l. idx ∷ l) (look_ahead_lem s (s.inode_table idx).lbn idxs).0 in
    let parts = Apart-parts run batch.1 (subst Apart (sym whole) once) in
    let each = subst (All H) (sym whole) all in
    let (written, call, more) = >>=-eq-some (write_batch accepts v_idx idx batch.0 s) _ h in
    let (flow', moved) = write_batch-Left accepts v_idx idx batch.0 s written H flow call in
    let (passed, one, last) = >>=-eq-some (pass_all run written) _ more in
    let (flow'', moved') =
      pass_all-Left run written passed H flow' (All-append_left H run batch.1 each) parts.0 one in
    more-Left s passed t H run batch.1 (idx ∷ idxs) whole
      (flow'', Moved-trans s written passed moved moved')
      (write_loop-Left fuel accepts v_idx batch.1 passed t (λ i. H i × Absent i run) flow''
        (All-both batch.1 (λ i a b. (a, b)) (All-append_right H run batch.1 each) parts.2) parts.1
        last)
