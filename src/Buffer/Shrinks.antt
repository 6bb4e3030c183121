-- ===== src/Buffer/Shrinks.antt =====
-- What rounds of fill_free_inodes (src/nvm0balloon.cc) may change: clean inodes become free.
use mathlib.Core.List.{Mem}
use autobahn_app.Prelude.{
  eq-or-ne, some-inj, none-some, ℕ, ◌<◌, ◌∷◌, All, All-imp, All-both, ◌≡◌, ◌≢◌, ◌⊎◌, ◌∙◌, refl, sym,
  ap, ap₂, subst, inl, inr, true, false, some, none, List, Option-cases,
}
use autobahn_app.Hash.{CuckooMap}
use autobahn_app.Pool.{
  Inode, InodeState, state_free, state_dirty, state_sync, state_clean, block_data,
}
use autobahn_app.Buffer.{Buffer, is_clean, leave_queue}
use autobahn_app.Buffer.Wf.{data_of}
use autobahn_app.Buffer.Held.{finder, IsBuffer}
use autobahn_app.Buffer.Freed.{Freed}
use autobahn_app.Cycle.Queues.{Queues, Queues-imp, popped-All}
use autobahn_app.Buffer.Wf.{In}
use autobahn_app.Cycle.Flow.{InLocked, IsFlow}

pub clean-ne-free : state_clean ≢ state_free
clean-ne-free e = cc

clean-ne-dirty : state_clean ≢ state_dirty
clean-ne-dirty e = cc

clean-ne-sync : state_clean ≢ state_sync
clean-ne-sync e = cc

free-ne-dirty : state_free ≢ state_dirty
free-ne-dirty e = cc

pub clean_of_test : (st : InodeState) → is_clean st ≡ true → st ≡ state_clean
clean_of_test state_free h = cc
clean_of_test state_dirty h = cc
clean_of_test state_sync h = cc
clean_of_test state_clean h = refl

pub unclean_of_test : (st : InodeState) → is_clean st ≡ false → st ≢ state_clean
unclean_of_test st h e = cc

-- An inode that changed is free now, and it was clean.
abbrev pub Step : (before after : Inode) → Type 0
Step before after = (after ≡ before) ⊎ ((before.state ≡ state_clean) × (after.state ≡ state_free))

pub Step-trans : (x y z : Inode) → Step x y → Step y z → Step x z
Step-trans x y z (inl e) (inl q) = inl (q ∙ e)
Step-trans x y z (inl e) (inr (c, f)) = inr (ap (λ i. i.state) (sym e) ∙ c, f)
Step-trans x y z (inr (c, f)) (inl q) = inr (c, ap (λ i. i.state) q ∙ f)
Step-trans x y z (inr (c, f)) (inr (d, g)) = absurd (clean-ne-free (sym d ∙ f))

pub Step-unclean : (x y : Inode) → Step x y → x.state ≢ state_clean → y.state ≢ state_clean
Step-unclean x y (inl e) ne = λ c. ne (ap (λ i. i.state) (sym e) ∙ c)
Step-unclean x y (inr (c, f)) ne = absurd (ne c)

module _ (cuckoo : CuckooMap) where
  -- Some clean inodes have been freed, and nothing else has changed.
  pub record Shrinks (b after : Buffer cuckoo) : Type 0 where
    pub is : IsBuffer cuckoo after
    pub max : after.pool.max_inode_entry ≡ b.pool.max_inode_entry
    pub size : after.pool.block_size ≡ b.pool.block_size
    pub steps : (i : ℕ) → Step (b.pool.inode_table i) (after.pool.inode_table i)
    pub finds :
        (w m : ℕ)
        → (finder cuckoo after w m ≡ none) ⊎ (finder cuckoo after w m ≡ finder cuckoo b w m)
    pub keeps :
        (w m i : ℕ)
        → finder cuckoo b w m ≡ some i
        → (b.pool.inode_table i).state ≢ state_clean
        → finder cuckoo after w m ≡ some i
    pub bytes : (i j : ℕ) → data_of after.pool i j ≡ data_of b.pool i j
    pub flow : IsFlow b.pool → IsFlow after.pool

  pub Shrinks-trans : (a b c : Buffer cuckoo) → Shrinks a b → Shrinks b c → Shrinks a c
  Shrinks-trans a b c x y = record {
    is = y.is;
    max = y.max ∙ x.max;
    size = y.size ∙ x.size;
    steps = λ i.
        Step-trans (a.pool.inode_table i) (b.pool.inode_table i) (c.pool.inode_table i) (x.steps i)
          (y.steps i);
    finds = λ w m. elim (y.finds w m) [
      | inl e ↦ inl e
      | inr e ↦ elim (x.finds w m) [ inl q ↦ inl (e ∙ q) | inr q ↦ inr (e ∙ q) ]
    ];
    keeps = λ w m i h ne.
        y.keeps w m i (x.keeps w m i h ne)
          (Step-unclean (a.pool.inode_table i) (b.pool.inode_table i) (x.steps i) ne);
    bytes = λ i j. y.bytes i j ∙ x.bytes i j;
    flow = λ f. y.flow (x.flow f);
  }

  pub leave_queue-Shrinks :
      (index idx : ℕ) (rest : List ℕ) (b : Buffer cuckoo)
      → b.pool.clean_queue index ≡ idx ∷ rest
      → IsBuffer cuckoo b
      → Shrinks b (leave_queue cuckoo index rest b)
  unfolding block_data
  leave_queue-Shrinks index idx rest b first is = record {
    is = record {
      tables = is.tables;
      linked = is.linked;
      wf = record {
        dealt = record {
          inodes_apart = is.wf.dealt.inodes_apart;
          volumes_apart = is.wf.dealt.volumes_apart;
          spare_apart = is.wf.dealt.spare_apart;
        };
        labels = λ w m i h.
            let l = is.wf.labels w m i h in
            (
              record {
                in_table = l.0.in_table;
                volume_in = l.0.volume_in;
                same_lbn = l.0.same_lbn;
                same_volume = l.0.same_volume;
              },
              l.1,
            );
        found = is.wf.found;
        free = is.wf.free;
        queued = is.wf.queued;
      };
    };
    max = refl;
    size = refl;
    steps = λ i. inl refl;
    finds = λ w m. inr refl;
    keeps = λ w m i h ne. h;
    bytes = λ i j. refl;
    flow = λ f. record {
      dirty = f.dirty;
      own = f.own;
      queued = f.queued;
      hand = f.hand;
      hand_left = f.hand_left;
      sync = f.sync;
      clean = λ k.
          popped-All b.pool.clean_queue index idx rest first (λ i. i < b.pool.max_inode_entry) k
            (f.clean k);
    };
  }

  -- A clean inode is in no queue of dirty inodes and in no queue of a syncer.
  Freed-IsFlow :
      (b next : Buffer cuckoo) (idx : ℕ)
      → (b.pool.inode_table idx).state ≡ state_clean
      → Freed cuckoo b idx next
      → IsFlow b.pool
      → IsFlow next.pool
  Freed-IsFlow b next idx clean f flow =
      let s = b.pool in
      let t = next.pool in
      let below : (i : ℕ) → i < s.max_inode_entry → i < t.max_inode_entry =
        λ i h. subst (λ n. i < n) (sym f.max) h in
      let left : (state : InodeState) (i : ℕ)
          → state_clean ≢ state
          → (s.inode_table i).state ≡ state
          → idx ≢ i =
        λ state i ne h e. ne (sym clean ∙ ap (λ x. (s.inode_table x).state) e ∙ h) in
      let not_idx : (i : ℕ) → (t.inode_table i).state ≡ state_dirty → idx ≢ i =
        λ i d e. free-ne-dirty (sym f.free ∙ ap (λ x. (t.inode_table x).state) e ∙ d) in
      let keep : (i : ℕ) → idx ≢ i → t.inode_table i ≡ s.inode_table i = f.others in
      record {
        dirty = subst (Queues (In t state_dirty)) (sym f.dirty_queues) (
            Queues-imp (In s state_dirty) (In t state_dirty) s.dirty_queue idx flow.dirty
              (λ v.
                All-imp (s.dirty_queue v) (λ i h. left state_dirty i clean-ne-dirty h.1)
                  (flow.dirty.all v))
              (λ i ne h. (below i h.0, ap (λ x. x.state) (keep i ne) ∙ h.1)));
        own = λ v.
            subst (λ q. All (λ i. (t.inode_table i).volume ≡ v) (q v)) (sym f.dirty_queues)
              (All-both (s.dirty_queue v)
                (λ i h g. ap (λ x. x.volume) (keep i (left state_dirty i clean-ne-dirty g.1)) ∙ h)
                (flow.own v) (flow.dirty.all v));
        queued = λ i h.
            let e = keep i (not_idx i h.1) in
            elim (flow.queued i (subst (λ n. i < n) f.max h.0, ap (λ x. x.state) (sym e) ∙ h.1)) [
              | inl a ↦ absurd a
              | inr m ↦ inr (
                  subst (λ q. Mem i (q (t.inode_table i).volume)) (sym f.dirty_queues)
                    (subst (λ x. Mem i (s.dirty_queue x)) (ap (λ x. x.volume) (sym e)) m))
            ];
        hand = λ i h. absurd h;
        hand_left = λ i h. absurd h;
        sync = subst (Queues (InLocked t state_sync)) (sym f.sync_queues) (
            Queues-imp (InLocked s state_sync) (InLocked t state_sync) s.sync_queue idx flow.sync
              (λ k.
                All-imp (s.sync_queue k) (λ i h. left state_sync i clean-ne-sync h.0.1)
                  (flow.sync.all k))
              (λ i ne h. (
                (below i h.0.0, ap (λ x. x.state) (keep i ne) ∙ h.0.1),
                ap (λ x. x.locked) (keep i ne) ∙ h.1,
              )));
        clean = λ k.
            subst (λ q. All (λ i. i < t.max_inode_entry) (q k)) (sym f.clean_queues)
              (All-imp (s.clean_queue k) below (flow.clean k));
      }

  pub Freed-Shrinks :
      (b next : Buffer cuckoo) (idx : ℕ)
      → IsBuffer cuckoo b
      → (b.pool.inode_table idx).state ≡ state_clean
      → Freed cuckoo b idx next
      → Shrinks b next
  Freed-Shrinks b next idx is clean f = record {
    is = f.is;
    max = f.max;
    size = f.size;
    steps = λ i. elim (eq-or-ne idx i) [
      | inl e ↦
          subst (λ x. Step (b.pool.inode_table x) (next.pool.inode_table x)) e (inr (clean, f.free))
      | inr ne ↦ inl (f.others i ne)
    ];
    finds = λ w m. elim (Option-cases (finder cuckoo b w m)) [
      | inl e ↦ inr (f.kept w m (λ q. none-some (sym e ∙ q)))
      | inr (i, e) ↦ elim (eq-or-ne idx i) [
        | inr ne ↦ inr (f.kept w m (λ q. ne (some-inj (sym q ∙ e))))
        | inl same ↦
            let l = (is.wf.labels w m i e).0 in
            inl (
              ap₂ (finder cuckoo next)
                (sym l.same_volume ∙ ap (λ x. (b.pool.inode_table x).volume) (sym same))
                (sym l.same_lbn ∙ ap (λ x. (b.pool.inode_table x).lbn) (sym same))
              ∙ f.gone)
      ]
    ];
    keeps = λ w m i h ne.
        f.kept w m (λ q. ne (ap (λ x. (b.pool.inode_table x).state) (some-inj (sym h ∙ q)) ∙ clean))
        ∙ h;
    bytes = f.bytes;
    flow = Freed-IsFlow b next idx clean f;
  }
