-- ===== src/Cycle/Sync.antt =====
-- nvm_sync (src/nvm0sync.cc) keeps the buffer: the inodes of the syncer's queue become clean.
use mathlib.Core.List.{Mem}
use autobahn_app.Prelude.{
  eq-or-ne, some-inj, none-some, ℕ, zero, suc, ◌+◌, ◌%◌, ◌<◌, ◌≡◌, ◌≢◌, ◌∙◌, refl, sym, ap, subst,
  inl, inr, false, Option, some, List, [], ◌∷◌, ◌++◌, length, All-imp, ◌>>=◌, >>=-eq-some,
  List-cases,
}
use autobahn_app.LfQueue.{u32, u64, update}
use autobahn_app.HashList.Chain.{Absent}
use autobahn_app.Pool.{
  state_free, state_dirty, state_sync, state_clean, Inode, Pool, sync_all, push, num_balloon,
}
use autobahn_app.Pool.Blocks.{update_self, update_ne, update_field}
use autobahn_app.Pool.Sync.{sync_one, sync_loop, nvm_sync}
use autobahn_app.Cycle.Queues.{joined, joined-All}
use autobahn_app.Cycle.Queues.{
  Queues-imp, popped, popped-here, popped-Absent, popped-Queues, push-some,
}
use autobahn_app.Buffer.Wf.{In}
use autobahn_app.Cycle.Flow.{InLocked, IsFlow, Moved, Moved-refl, Moved-trans}

clean-ne-dirty : state_clean ≢ state_dirty
clean-ne-dirty e = cc

clean-ne-free : state_clean ≢ state_free
clean-ne-free e = cc

sync-ne-dirty : state_sync ≢ state_dirty
sync-ne-dirty e = cc

sync-ne-free : state_sync ≢ state_free
sync-ne-free e = cc

module _ (index : ℕ) (s : Pool) (idx : ℕ) (rest : List ℕ) (flow : IsFlow s)
    (first : s.sync_queue index ≡ idx ∷ rest) where
  abbrev k : ℕ
  k = s.clean_queue_idx % num_balloon

  abbrev cleaned : Inode
  cleaned = record (s.inode_table idx) { state = state_clean; locked = false }

  abbrev after : (ℕ → List ℕ) → Pool
  after q = record s {
    sync_queue = popped s.sync_queue index idx rest first;
    inode_table = update s.inode_table idx cleaned;
    clean_queue = q;
    clean_queue_idx = u64 (s.clean_queue_idx + 1);
  }

  abbrev table : ℕ → Inode
  table = update s.inode_table idx cleaned

  here : In s state_sync idx
  here = (popped-here s.sync_queue index idx rest first (InLocked s state_sync) flow.sync).0

  is_clean : (table idx).state ≡ state_clean
  is_clean = ap (λ x. x.state) (update_self s.inode_table idx cleaned)

  other_state : (i : ℕ) → idx ≢ i → (table i).state ≡ (s.inode_table i).state
  other_state i ne = ap (λ x. x.state) (update_ne s.inode_table idx cleaned i ne)

  same_volume : (i : ℕ) → (table i).volume ≡ (s.inode_table i).volume
  same_volume i = update_field (λ x. x.volume) s.inode_table idx cleaned refl i

  not_idx : (i : ℕ) → (table i).state ≡ state_dirty → idx ≢ i
  not_idx i d e = clean-ne-dirty (sym is_clean ∙ ap (λ x. (table x).state) e ∙ d)

  -- An inode that is marked sync is in no dirty queue.
  dirty_left : (v : ℕ) → Absent idx (s.dirty_queue v)
  dirty_left v =
      All-imp (s.dirty_queue v)
        (λ i h e. sync-ne-dirty (sym here.1 ∙ ap (λ x. (s.inode_table x).state) e ∙ h.1))
        (flow.dirty.all v)

  after-IsFlow : IsFlow (after (joined s.clean_queue k idx))
  after-IsFlow = record {
    dirty =
        Queues-imp (In s state_dirty) (In (after s.clean_queue) state_dirty) s.dirty_queue idx
          flow.dirty dirty_left (λ i ne h. (h.0, other_state i ne ∙ h.1));
    own = λ v. All-imp (s.dirty_queue v) (λ i h. same_volume i ∙ h) (flow.own v);
    queued = λ i h. elim (flow.queued i (h.0, sym (other_state i (not_idx i h.1)) ∙ h.1)) [
      | inl a ↦ absurd a
      | inr m ↦ inr (subst (λ u. Mem i (s.dirty_queue u)) (sym (same_volume i)) m)
    ];
    hand = λ i h. absurd h;
    hand_left = λ i h. absurd h;
    sync =
        Queues-imp (InLocked s state_sync) (InLocked (after s.clean_queue) state_sync)
          (popped s.sync_queue index idx rest first) idx
          (popped-Queues s.sync_queue index idx rest first (InLocked s state_sync) flow.sync)
          (popped-Absent s.sync_queue index idx rest first (InLocked s state_sync) flow.sync)
          (λ i ne h. (
            (h.0.0, other_state i ne ∙ h.0.1),
            ap (λ x. x.locked) (update_ne s.inode_table idx cleaned i ne) ∙ h.1,
          ));
    clean = λ j.
        joined-All s.clean_queue k idx (λ i. i < s.max_inode_entry) j (flow.clean j) (λ e. here.0);
  }

  after-Moved : (q : ℕ → List ℕ) → Moved s (after q)
  after-Moved q = record {
    max = refl;
    volumes = refl;
    size = refl;
    table = refl;
    memory = refl;
    free_queue = refl;
    lbns = λ i. update_field (λ x. x.lbn) s.inode_table idx cleaned refl i;
    labels = same_volume;
    blocks = λ i. update_field (λ x. x.block_index) s.inode_table idx cleaned refl i;
    free = λ i h.
        other_state i (λ e. sync-ne-free (sym here.1 ∙ ap (λ x. (s.inode_table x).state) e ∙ h))
        ∙ h;
    used = λ i h f. elim (eq-or-ne idx i) [
      | inl e ↦ clean-ne-free (sym is_clean ∙ ap (λ x. (table x).state) e ∙ f)
      | inr ne ↦ h (sym (other_state i ne) ∙ f)
    ];
  }

  -- The rest of a round, after the dequeue.
  abbrev hand_over : Option Pool
  hand_over = push s.max_inode_entry (s.clean_queue k) idx >>= λ queue.
      some (after (update s.clean_queue k queue))

  hand_over-Moved : (t : Pool) → hand_over ≡ some t → IsFlow t × Moved s t
  hand_over-Moved t h =
      let (queue, pushed, eq) = >>=-eq-some (push s.max_inode_entry (s.clean_queue k) idx) _ h in
      let same =
        ap (update s.clean_queue k)
          (push-some s.max_inode_entry idx (s.clean_queue k) queue pushed) in
      subst (λ x. IsFlow x × Moved s x) (ap after same ∙ some-inj eq) (after-IsFlow, after-Moved _)

sync_one-Moved :
    (index : ℕ) (s t : Pool) → IsFlow s → sync_one index s ≡ some t → IsFlow t × Moved s t
unfolding sync_one
sync_one-Moved index s t flow h = elim (List-cases (s.sync_queue index)) [
  | inl e ↦ absurd (none-some (rw (e) at h))
  | inr (idx, rest, e) ↦ hand_over-Moved index s idx rest flow e t (rw (e) at h)
]

sync_loop-Moved :
    (n index : ℕ) (s t : Pool) → IsFlow s → sync_loop n index s ≡ some t → IsFlow t × Moved s t
unfolding sync_loop
sync_loop-Moved zero index s t flow h =
    subst (λ x. IsFlow x × Moved s x) (some-inj h) (flow, Moved-refl s)
sync_loop-Moved (suc n) index s t flow h =
    let (mid, one, more) = >>=-eq-some (sync_one index s) _ h in
    let (flow', moved) = sync_one-Moved index s mid flow one in
    let (last, moved') = sync_loop-Moved n index mid t flow' more in
    (last, Moved-trans s mid t moved moved')

barrier-Moved :
    (s : Pool)
    → IsFlow s
    → IsFlow (record s { io = s.io ++ (sync_all ∷ []) })
      × Moved s (record s { io = s.io ++ (sync_all ∷ []) })
barrier-Moved s flow = (
  record {
    dirty = flow.dirty;
    own = flow.own;
    queued = flow.queued;
    hand = flow.hand;
    hand_left = flow.hand_left;
    sync = flow.sync;
    clean = flow.clean;
  },
  record {
    max = refl;
    volumes = refl;
    size = refl;
    table = refl;
    memory = refl;
    free_queue = refl;
    lbns = λ i. refl;
    labels = λ i. refl;
    blocks = λ i. refl;
    free = λ i h. h;
    used = λ i h. h;
  },
)

pub nvm_sync-Moved :
    (index : ℕ) (s t : Pool) → IsFlow s → nvm_sync index s ≡ some t → IsFlow t × Moved s t
unfolding nvm_sync
nvm_sync-Moved index s t flow h =
    let (flow', moved) = barrier-Moved s flow in
    let (last, moved') =
      sync_loop-Moved (u32 (length (s.sync_queue index))) index
        (record s { io = s.io ++ (sync_all ∷ []) }) t flow' h in
    (last, Moved-trans s _ t moved moved')
