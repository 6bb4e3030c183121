-- ===== src/Buffer/Keeps.antt =====
-- A write to an inode that is claimed for a block leaves the pool and the look-up well formed.
use mathlib.Core.List.{Mem}
use autobahn_app.Prelude.{
  eq-or-ne, ℕ, ◌<◌, ◌≡◌, ◌≢◌, ◌∙◌, sym, ap, ap₂, subst, inl, inr, some, All-imp,
}
use autobahn_app.Pool.{state_free, state_dirty, Pool}
use autobahn_app.Cycle.Queues.{Queues, Queues-imp}
use autobahn_app.Buffer.Wf.{In, Finder, Labelled, Wf, Claim}
use autobahn_app.Buffer.Stored.{Written}

pub dirty-ne-free : state_dirty ≢ state_free
dirty-ne-free e = cc

module _ (s after : Pool) (find : Finder) (v lbn idx : ℕ) (buf : ℕ → ℕ) (count : ℕ)
    (c : Claim s find v lbn idx) (w : Written s v idx buf count after) where
  Labelled-after : (u m i : ℕ) → Labelled s u m i → Labelled after u m i
  Labelled-after u m i l = record {
    in_table = subst (λ n. i < n) (sym w.sizes.0) l.in_table;
    volume_in = subst (λ n. u < n) (sym w.sizes.1) l.volume_in;
    same_lbn = w.lbns i ∙ l.same_lbn;
    same_volume = w.volumes i ∙ l.same_volume;
  }

  free_after : Queues (In after state_free) after.free_queue
  free_after = subst (Queues (In after state_free)) (sym w.free_queues) (
      Queues-imp (In s state_free) (In after state_free) s.free_queue idx c.free c.left
        (λ i ne h. (subst (λ n. i < n) (sym w.sizes.0) h.0, w.states i ne ∙ h.1)))

  -- The write keeps the pool well formed.
  pub Wf-after : Wf after find
  Wf-after = record {
    dealt = w.dealt;
    labels = λ u m i h. (
      Labelled-after u m i (c.labels u m i h).0,
      elim (eq-or-ne idx i) [
        | inl e ↦ λ f. dirty-ne-free (sym w.dirty ∙ ap (λ j. (after.inode_table j).state) e ∙ f)
        | inr ne ↦ elim (c.labels u m i h).1 [
          | inl e ↦ absurd (ne e)
          | inr used ↦ λ f. used (sym (w.states i ne) ∙ f)
        ]
      ],
    );
    found = λ i hi used. ap₂ find (w.volumes i) (w.lbns i) ∙ elim (eq-or-ne idx i) [
      | inl e ↦
          subst (λ j. find (s.inode_table j).volume (s.inode_table j).lbn ≡ some j) e
            (ap₂ find c.label.same_volume c.label.same_lbn ∙ c.here)
      | inr ne ↦ c.found i (subst (λ n. i < n) w.sizes.0 hi) (λ f. used (w.states i ne ∙ f))
    ];
    free = free_after;
    queued = λ i hi d. elim (eq-or-ne idx i) [
      | inl e ↦
          subst (λ j. Mem j (after.dirty_queue (after.inode_table j).volume)) e
            (subst (λ u. Mem idx (after.dirty_queue u)) (sym (w.volumes idx))
              (elim w.queued [
                | inl old ↦ w.stay _ idx (c.queued idx c.label.in_table old)
                | inr new ↦ subst (λ u. Mem idx (after.dirty_queue u)) (sym c.label.same_volume) new
              ]))
      | inr ne ↦
          subst (λ u. Mem i (after.dirty_queue u)) (sym (w.volumes i))
            (w.stay _ i (c.queued i (subst (λ n. i < n) w.sizes.0 hi) (sym (w.states i ne) ∙ d)))
    ];
  }

-- An inode that a block is found in is claimed for it.
pub Wf-Claim :
    (s : Pool) (find : Finder) (v lbn idx : ℕ)
    → Wf s find
    → find v lbn ≡ some idx
    → Claim s find v lbn idx
Wf-Claim s find v lbn idx wf h = record {
  label = (wf.labels v lbn idx h).0;
  here = h;
  dealt = wf.dealt;
  labels = λ w m i e. ((wf.labels w m i e).0, inr (wf.labels w m i e).1);
  found = wf.found;
  free = wf.free;
  left = λ k.
      All-imp (s.free_queue k)
        (λ i f e. (wf.labels v lbn idx h).1 (ap (λ j. (s.inode_table j).state) e ∙ f.1))
        (wf.free.all k);
  queued = wf.queued;
}
