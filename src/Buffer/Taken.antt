-- ===== src/Buffer/Taken.antt =====
-- getFreeInodeFromFreeLFQueue of src/nvm0write.cc takes a free inode for a block that is not found.
use mathlib.Core.List.{Mem}
use autobahn_app.Prelude.{
  eq-or-ne, some-inj, none-some, ℕ, ◌-◌, ◌+◌, ◌%◌, ◌^◌, ◌<◌, ◌≡◌, ◌≢◌, ◌⊎◌, ◌∙◌, refl, sym, ap, ap₂,
  subst, inl, inr, some, none, List, ◌∷◌, All-both, ==_refl,
}
use autobahn_app.LfQueue.{u32, u64, update}
use autobahn_app.Pool.{state_free, state_dirty, state_sync, Pool, num_free}
use autobahn_app.Pool.Blocks.{IsDealt, update_ne, update_field}
use autobahn_app.Buffer.{take_free_inode}
use autobahn_app.Buffer.Wf.{Finder, Labelled, Wf, Claim}
use autobahn_app.Cycle.Queues.{Queues-map, popped, popped-here, popped-Queues, popped-Absent}
use autobahn_app.Buffer.Wf.{In}
use autobahn_app.Cycle.Flow.{InLocked, IsFlow}
use autobahn_app.Buffer.Keeps.{dirty-ne-free}

-- The look-up `next` finds `idx` for the block and is `find` elsewhere.
pub record Adds (find next : Finder) (v lbn idx : ℕ) : Type 0 where
  pub absent : find v lbn ≡ none
  pub here : next v lbn ≡ some idx
  pub same : (w m : ℕ) → ((w ≡ v) → m ≢ lbn) → next w m ≡ find w m

module _ (s : Pool) (find next : Finder) (v lbn idx : ℕ) (rest : List ℕ) (wf : Wf s find)
    (adds : Adds find next v lbn idx) (v_in : v < s.max_volume_entry)
    (first : s.free_queue (s.free_dequeue_idx % num_free) ≡ idx ∷ rest) where
  abbrev k : ℕ
  k = s.free_dequeue_idx % num_free

  abbrev pub after : Pool
  after = record s {
    free_queue = popped s.free_queue k idx rest first;
    free_dequeue_idx = u64 (s.free_dequeue_idx + 1);
    inode_table = update s.inode_table idx (record (s.inode_table idx) { lbn = lbn; volume = v });
    inode_free_count = u32 (s.inode_free_count + 2 ^ 32 - 1);
  }

  pub take_free_inode-after : take_free_inode v lbn s ≡ some (idx, after)
  unfolding take_free_inode
  take_free_inode-after = rw (first) refl

  head_free : (idx < s.max_inode_entry) × ((s.inode_table idx).state ≡ state_free)
  head_free = popped-here s.free_queue k idx rest first (In s state_free) wf.free

  state_after : (i : ℕ) → (after.inode_table i).state ≡ (s.inode_table i).state
  state_after i = update_field (λ x. x.state) s.inode_table idx _ refl i

  other : (i : ℕ) → idx ≢ i → after.inode_table i ≡ s.inode_table i
  other i ne = update_ne s.inode_table idx _ i ne

  used_ne : (i : ℕ) → (s.inode_table i).state ≢ state_free → idx ≢ i
  used_ne i used e = used (ap (λ j. (s.inode_table j).state) (sym e) ∙ head_free.1)

  label : Labelled after v lbn idx
  label = record {
    in_table = head_free.0;
    volume_in = v_in;
    same_lbn = rw (==_refl idx) refl;
    same_volume = rw (==_refl idx) refl;
  }

  block_after : (i : ℕ) → (after.inode_table i).block_index ≡ (s.inode_table i).block_index
  block_after i = update_field (λ x. x.block_index) s.inode_table idx _ refl i

  Labelled-after : (w m i : ℕ) → idx ≢ i → Labelled s w m i → Labelled after w m i
  Labelled-after w m i ne l = record {
    in_table = l.in_table;
    volume_in = l.volume_in;
    same_lbn = ap (λ x. x.lbn) (other i ne) ∙ l.same_lbn;
    same_volume = ap (λ x. x.volume) (other i ne) ∙ l.same_volume;
  }

  IsDealt-after : IsDealt after
  IsDealt-after = record {
    inodes_apart = λ i j hi hj ne e.
        wf.dealt.inodes_apart i j hi hj ne (sym (block_after i) ∙ e ∙ block_after j);
    volumes_apart = wf.dealt.volumes_apart;
    spare_apart = λ i w hi hw e. wf.dealt.spare_apart i w hi hw (sym (block_after i) ∙ e);
  }

  label_of_old :
      (w m i : ℕ)
      → find w m ≡ some i
      → Labelled after w m i × ((idx ≡ i) ⊎ ((after.inode_table i).state ≢ state_free))
  label_of_old w m i h =
      let (l, used) = wf.labels w m i h in
      (Labelled-after w m i (used_ne i used) l, inr (λ f. used (sym (state_after i) ∙ f)))

  labels_after :
      (w m i : ℕ)
      → next w m ≡ some i
      → Labelled after w m i × ((idx ≡ i) ⊎ ((after.inode_table i).state ≢ state_free))
  labels_after w m i h = elim (eq-or-ne w v) [
    | inl ew ↦ elim (eq-or-ne m lbn) [
      | inl em ↦
          let e : idx ≡ i = some-inj (sym adds.here ∙ ap₂ next (sym ew) (sym em) ∙ h) in
          (
            subst (Labelled after w m) e (
                subst (λ x. Labelled after x m idx) (sym ew)
                  (subst (λ x. Labelled after v x idx) (sym em) label)),
            inl e,
          )
      | inr nm ↦ label_of_old w m i (sym (adds.same w m (λ q. nm)) ∙ h)
    ]
    | inr nw ↦ label_of_old w m i (sym (adds.same w m (λ q. absurd (nw q))) ∙ h)
  ]

  found_after :
      (i : ℕ)
      → i < s.max_inode_entry
      → (after.inode_table i).state ≢ state_free
      → next (after.inode_table i).volume (after.inode_table i).lbn ≡ some i
  found_after i hi used =
      let was : (s.inode_table i).state ≢ state_free = λ f. used (state_after i ∙ f) in
      let e = other i (used_ne i was) in
      ap₂ next (ap (λ x. x.volume) e) (ap (λ x. x.lbn) e)
      ∙ adds.same (s.inode_table i).volume (s.inode_table i).lbn
          (λ ev el. none-some (sym adds.absent ∙ ap₂ find (sym ev) (sym el) ∙ wf.found i hi was))
      ∙ wf.found i hi was

  queued_after :
      (i : ℕ)
      → i < s.max_inode_entry
      → (after.inode_table i).state ≡ state_dirty
      → Mem i (s.dirty_queue (after.inode_table i).volume)
  queued_after i hi d =
      let dirty = sym (state_after i) ∙ d in
      let e = other i (used_ne i (λ f. dirty-ne-free (sym dirty ∙ f))) in
      subst (λ u. Mem i (s.dirty_queue u)) (ap (λ x. x.volume) (sym e)) (wf.queued i hi dirty)

  -- The inode that is taken is claimed for the block.
  pub after-Claim : Claim after next v lbn idx
  after-Claim = record {
    label = label;
    here = adds.here;
    dealt = IsDealt-after;
    labels = labels_after;
    found = found_after;
    free =
        Queues-map (In s state_free) (In after state_free) after.free_queue
          (λ i h. (h.0, state_after i ∙ h.1))
          (popped-Queues s.free_queue k idx rest first (In s state_free) wf.free);
    left = popped-Absent s.free_queue k idx rest first (In s state_free) wf.free;
    queued = queued_after;
  }

  -- The inode that is taken is free, so no queue of dirty or locked inodes has it.
  pub after-IsFlow : IsFlow s → IsFlow after
  after-IsFlow flow =
      let used_other : (i : ℕ) → (s.inode_table i).state ≡ state_dirty → idx ≢ i =
        λ i d. used_ne i (λ f. dirty-ne-free (sym d ∙ f)) in
      record {
        dirty =
            Queues-map (In s state_dirty) (In after state_dirty) s.dirty_queue
              (λ i h. (h.0, state_after i ∙ h.1)) flow.dirty;
        own = λ w.
            All-both (s.dirty_queue w)
              (λ i h g. ap (λ x. x.volume) (other i (used_other i g.1)) ∙ h) (flow.own w)
              (flow.dirty.all w);
        queued = λ i h.
            let d = sym (state_after i) ∙ h.1 in
            elim (flow.queued i (h.0, d)) [
              | inl a ↦ absurd a
              | inr m ↦ inr (
                  subst (λ x. Mem i (s.dirty_queue x))
                    (ap (λ x. x.volume) (sym (other i (used_other i d)))) m)
            ];
        hand = λ i h. absurd h;
        hand_left = λ i h. absurd h;
        sync =
            Queues-map (InLocked s state_sync) (InLocked after state_sync) s.sync_queue
              (λ i h. (
                (h.0.0, state_after i ∙ h.0.1),
                update_field (λ x. x.locked) s.inode_table idx _ refl i ∙ h.1,
              ))
              flow.sync;
        clean = flow.clean;
      }
