-- ===== src/Cycle/Take.antt =====
-- The first loop of nvm_flush (src/nvm0flush.cc): the inodes that it takes go from the dirty queue
-- into the hands of the flusher.
use mathlib.Core.List.{Mem}
use autobahn_app.Prelude.{
  eq-or-ne, some-inj, none-some, ℕ, zero, suc, ◌-◌, ◌≡◌, ◌≢◌, ◌⊎◌, ◌∙◌, refl, sym, ap, subst, inl,
  inr, Bool, true, false, some, List, [], ◌∷◌, ◌++◌, All, All-imp, ltb, if◌then◌else◌, ◌>>=◌,
  >>=-eq-some, Bool-cases, List-cases,
}
use autobahn_app.LfQueue.{update}
use autobahn_app.HashList.Chain.{Absent, Apart}
use autobahn_app.Pool.{state_dirty, state_sync, Inode, Pool, push, pop, flush_batch_size}
use autobahn_app.Pool.Blocks.{update_self, update_ne, update_field}
use autobahn_app.Pool.Flush.{lock_or_return, take_one, take_loop}
use autobahn_app.Cycle.Queues.{joined, joined-All}
use autobahn_app.Cycle.Queues.{
  Has, Queues, Queues-map, popped, popped-All, popped-Mem, popped-here, popped-Absent,
  popped-Queues, push-some, joined-Queues, joined-Mem, joined-Mem_self,
}
use autobahn_app.Buffer.Wf.{In}
use autobahn_app.Cycle.Flow.{InLocked, Flow, Flow-same, Moved, Moved-refl, Moved-trans}

module _ (s : Pool) (v idx : ℕ) (rest : List ℕ) (H : ℕ → Type 0) (flow : Flow s H)
    (first : s.dirty_queue v ≡ idx ∷ rest) where
  abbrev left : ℕ → List ℕ
  left = popped s.dirty_queue v idx rest first

  own_here : (s.inode_table idx).volume ≡ v
  own_here = (subst (All _) first (flow.own v)).0

  left-Queues : Queues (In s state_dirty) left
  left-Queues = popped-Queues s.dirty_queue v idx rest first (In s state_dirty) flow.dirty

  left-Absent : (j : ℕ) → Absent idx (left j)
  left-Absent = popped-Absent s.dirty_queue v idx rest first (In s state_dirty) flow.dirty

  -- Nobody has the first inode of the queue yet.
  not_in_hand : H idx → ⊥
  not_in_hand h = (subst (Absent idx) first (flow.hand_left idx h v)).0 refl

  -- The inode goes to the end of the queue again.
  again_joined : joined left v idx ≡ update left v (rest ++ (idx ∷ []))
  again_joined = ap (λ xs. update left v (xs ++ (idx ∷ []))) (update_self s.dirty_queue v rest)

  abbrev again : (ℕ → List ℕ) → Pool
  again q = record s { dirty_queue = q }

  again-Flow : Flow (again (joined left v idx)) H
  again-Flow = record {
    dirty =
        joined-Queues (In s state_dirty) left v idx left-Queues left-Absent
          (popped-here s.dirty_queue v idx rest first (In s state_dirty) flow.dirty);
    own = λ w.
        joined-All left v idx (λ i. (s.inode_table i).volume ≡ w) w
          (popped-All s.dirty_queue v idx rest first (λ i. (s.inode_table i).volume ≡ w) w
            (flow.own w))
          (λ e. own_here ∙ e);
    queued = λ i h. elim (flow.queued i h) [
      | inl a ↦ inl a
      | inr m ↦ inr (elim (eq-or-ne idx i) [
        | inl e ↦
            subst (λ x. Mem x (joined left v idx (s.inode_table x).volume)) e
              (subst (λ u. Mem idx (joined left v idx u)) (sym own_here)
                (joined-Mem_self left v idx))
        | inr ne ↦
            joined-Mem left v idx (s.inode_table i).volume i
              (popped-Mem s.dirty_queue v idx rest first (s.inode_table i).volume i ne m)
      ])
    ];
    hand = flow.hand;
    hand_left = λ i h w.
        joined-All left v idx (λ y. i ≢ y) w
          (popped-All s.dirty_queue v idx rest first (λ y. i ≢ y) w (flow.hand_left i h w))
          (λ e q. not_in_hand (subst H q h));
    sync = flow.sync;
    clean = flow.clean;
  }

  abbrev locked : Inode
  locked = record (s.inode_table idx) { locked = true }

  abbrev taken : Pool
  taken = record s { dirty_queue = left; inode_table = update s.inode_table idx locked }

  same_state : (i : ℕ) → (taken.inode_table i).state ≡ (s.inode_table i).state
  same_state i = update_field (λ x. x.state) s.inode_table idx locked refl i

  same_volume : (i : ℕ) → (taken.inode_table i).volume ≡ (s.inode_table i).volume
  same_volume i = update_field (λ x. x.volume) s.inode_table idx locked refl i

  same_lock : (i : ℕ) → (s.inode_table i).locked ≡ true → (taken.inode_table i).locked ≡ true
  same_lock i h = elim (eq-or-ne idx i) [
    | inl e ↦
        subst (λ x. (taken.inode_table x).locked ≡ true) e
          (ap (λ x. x.locked) (update_self s.inode_table idx locked))
    | inr ne ↦ ap (λ x. x.locked) (update_ne s.inode_table idx locked i ne) ∙ h
  ]

  taken-Flow : Flow taken (λ i. (idx ≡ i) ⊎ H i)
  taken-Flow = record {
    dirty =
        Queues-map (In s state_dirty) (In taken state_dirty) left (λ i h. (h.0, same_state i ∙ h.1))
          left-Queues;
    own = λ w.
        popped-All s.dirty_queue v idx rest first (λ i. (taken.inode_table i).volume ≡ w) w
          (All-imp (s.dirty_queue w) (λ i h. same_volume i ∙ h) (flow.own w));
    queued = λ i h. elim (flow.queued i (h.0, sym (same_state i) ∙ h.1)) [
      | inl a ↦ inl (inr a)
      | inr m ↦ elim (eq-or-ne idx i) [
        | inl e ↦ inl (inl e)
        | inr ne ↦ inr (
            subst (λ u. Mem i (left u)) (sym (same_volume i))
              (popped-Mem s.dirty_queue v idx rest first (s.inode_table i).volume i ne m))
      ]
    ];
    hand = λ i h. elim h [
      | inl e ↦
          let here = popped-here s.dirty_queue v idx rest first (In s state_dirty) flow.dirty in
          subst (InLocked taken state_dirty) e (
            (here.0, same_state idx ∙ here.1),
            ap (λ x. x.locked) (update_self s.inode_table idx locked),
          )
      | inr a ↦ let (h', l) = flow.hand i a in ((h'.0, same_state i ∙ h'.1), same_lock i l)
    ];
    hand_left = λ i h w. elim h [
      | inl e ↦ subst (λ x. Absent x (left w)) e (left-Absent w)
      | inr a ↦ popped-All s.dirty_queue v idx rest first (λ y. i ≢ y) w (flow.hand_left i a w)
    ];
    sync =
        Queues-map (InLocked s state_sync) (InLocked taken state_sync) s.sync_queue
          (λ i h. ((h.0.0, same_state i ∙ h.0.1), same_lock i h.1)) flow.sync;
    clean = flow.clean;
  }

  taken-Moved : Moved s taken
  taken-Moved = record {
    max = refl;
    volumes = refl;
    size = refl;
    table = refl;
    memory = refl;
    free_queue = refl;
    lbns = λ i. update_field (λ x. x.lbn) s.inode_table idx locked refl i;
    labels = same_volume;
    blocks = λ i. update_field (λ x. x.block_index) s.inode_table idx locked refl i;
    free = λ i h. same_state i ∙ h;
    used = λ i h f. h (sym (same_state i) ∙ f);
  }

  unlocked_lem :
      (s.inode_table idx).locked ≡ false → lock_or_return v idx rest s ≡ some (idx, true, taken)
  unfolding lock_or_return
  unlocked_lem e = rw (e) refl

  locked_lem :
      (s.inode_table idx).locked ≡ true
      → lock_or_return v idx rest s ≡ (
          push s.max_inode_entry rest idx >>= λ queue.
          some (idx, false, again (update left v queue)))
  unfolding lock_or_return
  locked_lem e = rw (e) refl

-- The answer of a round.
abbrev Took : (s : Pool) → (H : ℕ → Type 0) → ℕ × Bool × Pool → Type 0
Took s H r =
    ((r.1 ≡ true) × Flow r.2 (λ i. (r.0 ≡ i) ⊎ H i) × (H r.0 → ⊥) × Moved s r.2)
    ⊎ ((r.1 ≡ false) × Flow r.2 H × Moved s r.2)

lock_or_return-Took :
    (s : Pool) (v idx : ℕ) (rest : List ℕ) (H : ℕ → Type 0) (r : ℕ × Bool × Pool)
    → Flow s H
    → s.dirty_queue v ≡ idx ∷ rest
    → lock_or_return v idx rest s ≡ some r
    → Took s H r
lock_or_return-Took s v idx rest H r flow first h = elim (Bool-cases (s.inode_table idx).locked) [
  | inr e ↦ subst (Took s H) (some-inj (sym (unlocked_lem s v idx rest H flow first e) ∙ h)) (
      inl (
        refl,
        taken-Flow s v idx rest H flow first,
        not_in_hand s v idx rest H flow first,
        taken-Moved s v idx rest H flow first,
      ))
  | inl e ↦
      let (queue, pushed, eq) =
        >>=-eq-some (push s.max_inode_entry rest idx)
          (λ queue. some (
            idx,
            false,
            again s v idx rest H flow first (update (left s v idx rest H flow first) v queue),
          ))
          (sym (locked_lem s v idx rest H flow first e) ∙ h) in
      let same =
        again_joined s v idx rest H flow first
        ∙ ap (update (left s v idx rest H flow first) v)
            (push-some s.max_inode_entry idx rest queue pushed) in
      subst (Took s H) (some-inj eq) (
        inr (
          refl,
          subst (λ q. Flow (again s v idx rest H flow first q) H) same
              (again-Flow s v idx rest H flow first),
          record {
            max = refl;
            volumes = refl;
            size = refl;
            table = refl;
            memory = refl;
            free_queue = refl;
            lbns = λ i. refl;
            labels = λ i. refl;
            blocks = λ i. refl;
            free = λ i f. f;
            used = λ i f. f;
          },
        ))
]

take_one-Took :
    (s : Pool) (v : ℕ) (H : ℕ → Type 0) (r : ℕ × Bool × Pool)
    → Flow s H
    → take_one v s ≡ some r
    → Took s H r
unfolding take_one
take_one-Took s v H r flow h = elim (List-cases (s.dirty_queue v)) [
  | inl e ↦ absurd (none-some (sym (ap (λ q. pop q >>= λ t. lock_or_return v t.0 t.1 s) e) ∙ h))
  | inr (x, rest, e) ↦
      lock_or_return-Took s v x rest H r flow e
        (sym (ap (λ q. pop q >>= λ t. lock_or_return v t.0 t.1 s) e) ∙ h)
]

-- What the loop answers: inodes that were not in the hands before.
pub record Taken (s : Pool) (H : ℕ → Type 0) (idxs : List ℕ) (after : Pool) : Type 0 where
  pub flow : Flow after (λ i. Has i idxs ⊎ H i)
  pub once : Apart idxs
  pub new : All (λ i. H i → ⊥) idxs
  pub moved : Moved s after

take_more :
    (s mid after : Pool) (H : ℕ → Type 0) (idx : ℕ) (idxs : List ℕ)
    → (H idx → ⊥)
    → Moved s mid
    → Taken mid (λ i. (idx ≡ i) ⊎ H i) idxs after
    → Taken s H (idx ∷ idxs) after
take_more s mid after H idx idxs fresh moved t = record {
  flow =
      Flow-same after (λ i. Has i idxs ⊎ ((idx ≡ i) ⊎ H i)) (λ i. Has i (idx ∷ idxs) ⊎ H i)
        (λ i h. elim h [ inl a ↦ inl (inr a) | inr (inl e) ↦ inl (inl e) | inr (inr a) ↦ inr a ])
        (λ i h. elim h [ inl (inl e) ↦ inr (inl e) | inl (inr a) ↦ inl a | inr a ↦ inr (inr a) ])
        t.flow;
  once = (All-imp idxs (λ i h e. h (inl e)) t.new, t.once);
  new = (fresh, All-imp idxs (λ i h a. h (inr a)) t.new);
  moved = Moved-trans s mid after moved t.moved;
}

none_more : (s : Pool) (H : ℕ → Type 0) → Flow s H → Taken s H [] s
none_more s H flow = record {
  flow =
      Flow-same s H (λ i. Has i [] ⊎ H i) (λ i h. inr h)
        (λ i h. elim h [ inl a ↦ absurd a | inr a ↦ a ]) flow;
  once = tt;
  new = tt;
  moved = Moved-refl s;
}

-- The loop, whenever it returns.
pub take_loop-Taken :
    (fuel n d v : ℕ) (s : Pool) (H : ℕ → Type 0) (r : List ℕ × Pool)
    → Flow s H
    → take_loop fuel n d v s ≡ some r
    → Taken s H r.0 r.1
unfolding take_loop
take_loop-Taken zero n d v s H r flow h = absurd (none-some h)
take_loop-Taken (suc fuel) zero d v s H r flow h =
    subst (λ x. Taken s H x.0 x.1) (some-inj h) (none_more s H flow)
take_loop-Taken (suc fuel) (suc n) d v s H r flow h =
    let (round, one, more) = >>=-eq-some (take_one v s) _ h in
    elim (take_one-Took s v H round flow one) [
      | inl (t, flow', fresh, moved) ↦
          let (rest, all, eq) = >>=-eq-some (take_loop fuel n d v round.2) _ (rw (t) at more) in
          subst (λ x. Taken s H x.0 x.1) (some-inj eq)
            (take_more s round.2 rest.1 H round.0 rest.0 fresh moved
              (take_loop-Taken fuel n d v round.2 (λ i. (round.0 ≡ i) ⊎ H i) rest flow' all))
      | inr (t, flow', moved) ↦
          let rest =
            take_loop-Taken fuel (if ltb (d - 1) flush_batch_size then n else suc n) (d - 1) v
              round.2 H r flow' (rw (t) at more) in
          record {
            flow = rest.flow;
            once = rest.once;
            new = rest.new;
            moved = Moved-trans s round.2 r.1 moved rest.moved;
          }
    ]
