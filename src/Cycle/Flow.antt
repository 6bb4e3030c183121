-- ===== src/Cycle/Flow.antt =====
-- Which queue holds an inode in which state, while a thread may have some inodes in its hands.
use mathlib.Core.List.{Mem}
use autobahn_app.Prelude.{
  ℕ, true, ◌<◌, ◌≡◌, ◌≢◌, ◌⊎◌, ◌∙◌, refl, sym, ap, ap₂, subst, inl, inr, All,
}
use autobahn_app.HashList.Chain.{Absent}
use autobahn_app.Pool.{InodeState, state_free, state_dirty, state_sync, Pool, block_data}
use autobahn_app.Pool.Blocks.{IsDealt}
use autobahn_app.Buffer.Wf.{In, Finder, Wf, data_of}
use autobahn_app.Cycle.Queues.{Queues, Queues-map}

-- A thread has the inode locked.
abbrev pub InLocked : Pool → InodeState → ℕ → Type 0
InLocked s state i = In s state i × ((s.inode_table i).locked ≡ true)

-- A dirty inode is in the dirty queue of its volume, or in the hands of the thread; the queues of the
-- syncers hold locked inodes that are marked sync; each inode is in one of these queues at most, and once.
pub record Flow (s : Pool) (InHand : ℕ → Type 0) : Type 0 where
  pub dirty : Queues (In s state_dirty) s.dirty_queue
  pub own : (v : ℕ) → All (λ i. (s.inode_table i).volume ≡ v) (s.dirty_queue v)
  pub queued :
      (i : ℕ) → In s state_dirty i → InHand i ⊎ Mem i (s.dirty_queue (s.inode_table i).volume)
  pub hand : (i : ℕ) → InHand i → InLocked s state_dirty i
  pub hand_left : (i : ℕ) → InHand i → (v : ℕ) → Absent i (s.dirty_queue v)
  pub sync : Queues (InLocked s state_sync) s.sync_queue
  pub clean : (k : ℕ) → All (λ i. i < s.max_inode_entry) (s.clean_queue k)

-- No thread has an inode in its hands.
abbrev pub IsFlow : Pool → Type 0
IsFlow s = Flow s (λ i. ⊥)

pub Flow-same :
    (s : Pool) (A B : ℕ → Type 0)
    → ((i : ℕ) → A i → B i)
    → ((i : ℕ) → B i → A i)
    → Flow s A
    → Flow s B
Flow-same s A B f g flow = record {
  dirty = flow.dirty;
  own = flow.own;
  queued = λ i h. elim (flow.queued i h) [ inl a ↦ inl (f i a) | inr m ↦ inr m ];
  hand = λ i b. flow.hand i (g i b);
  hand_left = λ i b. flow.hand_left i (g i b);
  sync = flow.sync;
  clean = flow.clean;
}

-- What a flush or a sync leaves alone: the labels, the blocks and who is free.
pub record Moved (s after : Pool) : Type 0 where
  pub max : after.max_inode_entry ≡ s.max_inode_entry
  pub volumes : after.max_volume_entry ≡ s.max_volume_entry
  pub size : after.block_size ≡ s.block_size
  pub table : after.volume_table ≡ s.volume_table
  pub memory : after.memory ≡ s.memory
  pub free_queue : after.free_queue ≡ s.free_queue
  pub lbns : (i : ℕ) → (after.inode_table i).lbn ≡ (s.inode_table i).lbn
  pub labels : (i : ℕ) → (after.inode_table i).volume ≡ (s.inode_table i).volume
  pub blocks : (i : ℕ) → (after.inode_table i).block_index ≡ (s.inode_table i).block_index
  pub free :
      (i : ℕ) → (s.inode_table i).state ≡ state_free → (after.inode_table i).state ≡ state_free
  pub used :
      (i : ℕ) → (s.inode_table i).state ≢ state_free → (after.inode_table i).state ≢ state_free

pub Moved-refl : (s : Pool) → Moved s s
Moved-refl s = record {
  max = refl;
  volumes = refl;
  size = refl;
  table = refl;
  memory = refl;
  free_queue = refl;
  lbns = λ i. refl;
  labels = λ i. refl;
  blocks = λ i. refl;
  free = λ i h. h;
  used = λ i h. h;
}

pub Moved-trans : (a b c : Pool) → Moved a b → Moved b c → Moved a c
Moved-trans a b c x y = record {
  max = y.max ∙ x.max;
  volumes = y.volumes ∙ x.volumes;
  size = y.size ∙ x.size;
  table = y.table ∙ x.table;
  memory = y.memory ∙ x.memory;
  free_queue = y.free_queue ∙ x.free_queue;
  lbns = λ i. y.lbns i ∙ x.lbns i;
  labels = λ i. y.labels i ∙ x.labels i;
  blocks = λ i. y.blocks i ∙ x.blocks i;
  free = λ i h. y.free i (x.free i h);
  used = λ i h. y.used i (x.used i h);
}

module _ (s after : Pool) (m : Moved s after) where
  -- The bytes of every inode stay.
  pub Moved-bytes : (i j : ℕ) → data_of after i j ≡ data_of s i j
  unfolding block_data
  Moved-bytes i j = rw (m.memory, m.blocks i, m.size) refl

  Moved-IsDealt : IsDealt s → IsDealt after
  Moved-IsDealt d =
      let spare : (v : ℕ) → (after.volume_table v).spare_block ≡ (s.volume_table v).spare_block =
        λ v. ap (λ t. (t v).spare_block) m.table in
      record {
        inodes_apart = λ i j hi hj ne e.
            d.inodes_apart i j (subst (λ n. i < n) m.max hi) (subst (λ n. j < n) m.max hj) ne
              (sym (m.blocks i) ∙ e ∙ m.blocks j);
        volumes_apart = λ v w hv hw ne e.
            d.volumes_apart v w (subst (λ n. v < n) m.volumes hv) (subst (λ n. w < n) m.volumes hw)
              ne (sym (spare v) ∙ e ∙ spare w);
        spare_apart = λ i v hi hv e.
            d.spare_apart i v (subst (λ n. i < n) m.max hi) (subst (λ n. v < n) m.volumes hv)
              (sym (m.blocks i) ∙ e ∙ spare v);
      }

  free_after : Queues (In s state_free) s.free_queue → Queues (In after state_free) after.free_queue
  free_after f = subst (Queues (In after state_free)) (sym m.free_queue) (
      Queues-map (In s state_free) (In after state_free) s.free_queue
        (λ i h. (subst (λ n. i < n) (sym m.max) h.0, m.free i h.1)) f)

  -- A used inode was used before.
  used_before :
      (i : ℕ) → (after.inode_table i).state ≢ state_free → (s.inode_table i).state ≢ state_free
  used_before i h f = h (m.free i f)

  -- The pool and the look-up still fit together.
  pub Moved-Wf : (find : Finder) → Wf s find → IsFlow after → Wf after find
  Moved-Wf find wf flow = record {
    dealt = Moved-IsDealt wf.dealt;
    labels = λ v lbn i h.
        let (l, u) = wf.labels v lbn i h in
        (
          record {
            in_table = subst (λ n. i < n) (sym m.max) l.in_table;
            volume_in = subst (λ n. v < n) (sym m.volumes) l.volume_in;
            same_lbn = m.lbns i ∙ l.same_lbn;
            same_volume = m.labels i ∙ l.same_volume;
          },
          m.used i u,
        );
    found = λ i hi u.
        ap₂ find (m.labels i) (m.lbns i)
        ∙ wf.found i (subst (λ n. i < n) m.max hi) (used_before i u);
    free = free_after wf.free;
    queued = λ i hi d. elim (flow.queued i (hi, d)) [ inl h ↦ absurd h | inr q ↦ q ];
  }
