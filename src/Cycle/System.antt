-- ===== src/Cycle/System.antt =====
-- The buffer under writers, flushers, syncers and balloon threads, which take turns: a step is a round
-- of nvm_durable_write, the entry of a volume, a round of flush_thread_func, a call of nvm_sync or a
-- call of fill_free_inodes.
use autobahn_app.Prelude.{
  ◌^◌, some-inj, none-some, ℕ, ◌≤◌, ◌<◌, ◌≡◌, ◌≢◌, ◌⊎◌, ◌∙◌, refl, sym, ap, subst, inl, inr, Bool,
  Option, some, none, List, [], ◌∷◌, Bool-cases, Option-cases, ◌==◌, ◌&&◌, if◌then◌else◌, ==→eq,
  ne_of_test,
}
use autobahn_app.Hash.{CuckooMap}
use autobahn_app.Pool.{state_clean, Pool, Io}
use autobahn_app.Pool.Flush.{flush_round}
use autobahn_app.Pool.Sync.{nvm_sync}
use autobahn_app.Buffer.{Buffer, is_clean, write_round, open_volume, fill_free_inodes}
use autobahn_app.Buffer.Held.{finder, IsBuffer}
use autobahn_app.Buffer.Opened.{Opens, open_volume_lem}
use autobahn_app.Buffer.Round.{byte_of, byte_at}
use autobahn_app.Buffer.Balloon.{Emptied, fill_free_inodes_lem}
use autobahn_app.Buffer.Shrinks.{clean_of_test, unclean_of_test}
use autobahn_app.Cycle.Flow.{IsFlow, Moved, Moved-Wf, Moved-bytes}
use autobahn_app.Cycle.Flush.{flush_round-Moved}
use autobahn_app.Cycle.Sync.{nvm_sync-Moved}
use autobahn_app.Cycle.Write.{write_round-Round}

-- What a step shows to the outside: the block that it writes, or nothing.
pub data Event : Type 0 where
  wrote : (v lbn : ℕ) → (buf : ℕ → ℕ) → (count : ℕ) → Event
  quiet : Event

module _ (cuckoo : CuckooMap) where
  abbrev pub with_pool : Buffer cuckoo → Pool → Buffer cuckoo
  with_pool b s = record b { pool = s }

  -- A writer knows the entry of its volume and writes a block at most; a volume is known
  -- and has its hash table, or is new in an entry that holds no block.
  pub data Step : Buffer cuckoo → Event → Buffer cuckoo → Type 0 where
    write_step :
        (b next : Buffer cuckoo) (v lbn offset : ℕ) (buf : ℕ → ℕ) (count : ℕ)
        → v < b.pool.max_volume_entry
        → count ≤ b.pool.block_size
        → write_round cuckoo v lbn offset buf count b ≡ some next
        → Step b (wrote v lbn buf count) next
    open_step :
        (b next : Buffer cuckoo) (open_file : ℕ → Option ℕ) (vid v : ℕ)
        → Opens cuckoo open_file vid v b
        → open_volume cuckoo open_file vid b ≡ some (v, next)
        → Step b quiet next
    flush_step :
        (b : Buffer cuckoo) (s : Pool) (accepts : Io → Bool) (low : ℕ)
        → flush_round accepts low b.pool ≡ some s
        → Step b quiet (with_pool b s)
    sync_step :
        (b : Buffer cuckoo) (s : Pool) (index : ℕ)
        → nvm_sync index b.pool ≡ some s
        → Step b quiet (with_pool b s)
    balloon_step :
        (b next : Buffer cuckoo) (index : ℕ)
        → fill_free_inodes cuckoo index b ≡ some next
        → Step b quiet next

  pub data Steps : Buffer cuckoo → List Event → Buffer cuckoo → Type 0 where
    done : (b : Buffer cuckoo) → Steps b [] b
    more :
        (b c d : Buffer cuckoo) (e : Event) (es : List Event)
        → Step b e c
        → Steps c es d
        → Steps b (e ∷ es) d

  -- The invariants of the system. The indices of the inodes are the ones that
  -- get_inode_entry_idx_from_hash can answer.
  pub record Good (b : Buffer cuckoo) : Type 0 where
    pub is : IsBuffer cuckoo b
    pub flow : IsFlow b.pool
    pub indexed : b.pool.max_inode_entry ≤ 2 ^ 26

  -- What a step may do to the bytes of the buffer, seen as a map.
  abbrev pub Allowed : Event → (b c : Buffer cuckoo) → Type 0
  Allowed (wrote v lbn buf count) b c =
      ((j : ℕ) → j < count → byte_at cuckoo c v lbn j ≡ some (buf j))
      × ((w m j : ℕ)
          → ((w ≡ v) → m ≢ lbn)
          → j < b.pool.block_size
          → byte_at cuckoo c w m j ≡ byte_at cuckoo b w m j)
  Allowed quiet b c =
      (w m j : ℕ)
      → (byte_at cuckoo c w m j ≡ byte_at cuckoo b w m j)
        ⊎ ((byte_at cuckoo c w m j ≡ none)
            × ((i : ℕ) × (finder cuckoo b w m ≡ some i)
                × ((b.pool.inode_table i).state ≡ state_clean)))

  module _ (b : Buffer cuckoo) (s : Pool) (good : Good b) (flow : IsFlow s)
      (m : Moved b.pool s) where
    moved-Good : Good (with_pool b s)
    moved-Good = record {
      is = record {
        tables = good.is.tables;
        linked = good.is.linked;
        wf = Moved-Wf b.pool s m (finder cuckoo b) good.is.wf flow;
      };
      flow = flow;
      indexed = subst (λ n. n ≤ 2 ^ 26) (sym m.max) good.indexed;
    }

    same_byte : (o : Option ℕ) (j : ℕ) → byte_of s o j ≡ byte_of b.pool o j
    same_byte none j = refl
    same_byte (some i) j = ap some (Moved-bytes b.pool s m i j)

    moved-Allowed : Allowed quiet b (with_pool b s)
    moved-Allowed w n j = inl (same_byte (finder cuckoo b w n) j)

  -- A byte that the balloon drops was in a clean inode.
  balloon-Allowed : (b c : Buffer cuckoo) (index : ℕ) → Emptied cuckoo b index c → Allowed quiet b c
  balloon-Allowed b c index e w m j = elim (Option-cases (finder cuckoo b w m)) [
    | inl absent ↦ elim (e.bytes w m j) [
      | inl n ↦ inl (n ∙ sym (ap (λ o. byte_of b.pool o j) absent))
      | inr q ↦ inl q
    ]
    | inr (i, found) ↦ elim (Bool-cases (is_clean (b.pool.inode_table i).state)) [
      | inl t ↦ elim (e.bytes w m j) [
        | inl n ↦ inr (n, (i, found, clean_of_test (b.pool.inode_table i).state t))
        | inr q ↦ inl q
      ]
      | inr t ↦ elim (e.bytes w m j) [
        | inl n ↦
            let still = (e.kept w m i found (unclean_of_test (b.pool.inode_table i).state t)).0 in
            absurd (none-some (sym n ∙ ap (λ o. byte_of c.pool o j) still))
        | inr q ↦ inl q
      ]
    ]
  ]

  -- Every step keeps the invariants, among them that there are at most 2 ^ 26 inodes, and does what
  -- its event shows: a write stores its bytes and
  -- changes no other block, and the other steps change no byte, but for the blocks in clean inodes,
  -- which may go.
  pub step_lem :
      (b c : Buffer cuckoo) (e : Event)
      → Good b
      → Step b e c
      → Good c × Allowed e b c × (c.pool.block_size ≡ b.pool.block_size)
  step_lem _ _ _ good (write_step b c v lbn offset buf count v_in fits eq) =
      let (r, flow) =
        write_round-Round cuckoo b good.is v lbn offset buf count c v_in good.indexed fits eq in
      (
        record {
          is = r.is;
          flow = flow good.flow;
          indexed = subst (λ n. n ≤ 2 ^ 26) (sym r.same_max) good.indexed;
        },
        (r.hit, r.miss),
        r.same_size,
      )
  step_lem _ _ _ good (open_step b c open_file vid v opens eq) =
      let (after, o) = open_volume_lem cuckoo open_file vid v b good.is opens in
      let same : after ≡ c = ap (λ r. r.1) (some-inj (sym o.opens ∙ eq)) in
      subst (λ x. Good x × Allowed quiet b x × (x.pool.block_size ≡ b.pool.block_size)) same
        (
          record {
            is = o.is;
            flow = o.flow good.flow;
            indexed = subst (λ n. n ≤ 2 ^ 26) (sym o.same_max) good.indexed;
          },
          (λ w m j. inl (o.bytes w m j)),
          o.same_size,
        )
  step_lem _ _ _ good (flush_step b s accepts low eq) =
      let (flow, moved) = flush_round-Moved accepts low b.pool s good.flow eq in
      (moved-Good b s good flow moved, moved-Allowed b s good flow moved, moved.size)
  step_lem _ _ _ good (sync_step b s index eq) =
      let (flow, moved) = nvm_sync-Moved index b.pool s good.flow eq in
      (moved-Good b s good flow moved, moved-Allowed b s good flow moved, moved.size)
  step_lem _ _ _ good (balloon_step b c index eq) =
      let (after, all, x) = fill_free_inodes_lem cuckoo index b good.is (good.flow.clean index) in
      let same : after ≡ c = some-inj (sym all ∙ eq) in
      subst (λ y. Good y × Allowed quiet b y × (y.pool.block_size ≡ b.pool.block_size)) same
        (
          record {
            is = x.is;
            flow = x.flow good.flow;
            indexed = subst (λ n. n ≤ 2 ^ 26) (sym x.max) good.indexed;
          },
          balloon-Allowed b after index x,
          x.size,
        )

  -- The last write of the block (w, m) among the events, or what was the last one before them.
  unfoldable pub last_write : (w m : ℕ) → List Event → Option ((ℕ → ℕ) × ℕ) → Option ((ℕ → ℕ) × ℕ)
  last_write w m [] before = before
  last_write w m (quiet ∷ es) before = last_write w m es before
  last_write w m (wrote v lbn buf count ∷ es) before =
      last_write w m es (if v == w && lbn == m then some (buf, count) else before)

  -- The block holds what was written last, or it is not in the buffer.
  abbrev pub Shows : Option ((ℕ → ℕ) × ℕ) → (w m : ℕ) → Buffer cuckoo → Type 0
  Shows none w m b = Unit
  Shows (some (buf, count)) w m b =
      (j : ℕ)
      → j < count
      → j < b.pool.block_size
      → (byte_at cuckoo b w m j ≡ some (buf j)) ⊎ (byte_at cuckoo b w m j ≡ none)

  Shows-same :
      (o : Option ((ℕ → ℕ) × ℕ)) (w m : ℕ) (b c : Buffer cuckoo)
      → c.pool.block_size ≡ b.pool.block_size
      → ((j : ℕ)
          → j < b.pool.block_size
          → (byte_at cuckoo c w m j ≡ byte_at cuckoo b w m j) ⊎ (byte_at cuckoo c w m j ≡ none))
      → Shows o w m b
      → Shows o w m c
  Shows-same none w m b c size f h = tt
  Shows-same (some (buf, count)) w m b c size f h = λ j hj hs.
      let below = subst (λ n. j < n) size hs in
      elim (f j below) [
        | inr n ↦ inr n
        | inl e ↦ elim (h j hj below) [ inl q ↦ inl (e ∙ q) | inr q ↦ inr (e ∙ q) ]
      ]

  step_Shows :
      (w m : ℕ) (b c : Buffer cuckoo) (e : Event) (before : Option ((ℕ → ℕ) × ℕ))
      → Allowed e b c
      → c.pool.block_size ≡ b.pool.block_size
      → Shows before w m b
      → Shows (last_write w m (e ∷ []) before) w m c
  unfolding last_write
  step_Shows w m b c quiet before allowed size h =
      Shows-same before w m b c size
        (λ j hj. elim (allowed w m j) [ inl q ↦ inl q | inr q ↦ inr q.0 ]) h
  step_Shows w m b c (wrote v lbn buf count) before allowed size h = elim (Bool-cases (v == w)) [
    | inr t ↦ rw (t) (
        Shows-same before w m b c size
          (λ j hj. inl (allowed.1 w m j (λ e. absurd (ne_of_test v w t (sym e))) hj)) h)
    | inl t ↦ elim (Bool-cases (lbn == m)) [
      | inr u ↦
          rw (t, u)
            (Shows-same before w m b c size
              (λ j hj. inl (allowed.1 w m j (λ e q. ne_of_test lbn m u (sym q)) hj)) h)
      | inl u ↦
          rw (t, u)
            (λ j hj hs. inl (
              subst (λ x. byte_at cuckoo c x m j ≡ some (buf j)) (==→eq v w t)
                (subst (λ x. byte_at cuckoo c v x j ≡ some (buf j)) (==→eq lbn m u)
                  (allowed.0 j hj))))
    ]
  ]

  last_write-cons :
      (w m : ℕ) (e : Event) (es : List Event) (before : Option ((ℕ → ℕ) × ℕ))
      → last_write w m (e ∷ es) before ≡ last_write w m es (last_write w m (e ∷ []) before)
  unfolding last_write
  last_write-cons w m quiet es before = refl
  last_write-cons w m (wrote v lbn buf count) es before = refl

  -- In a run from a good state, whatever the order of the writers and the background threads, the
  -- invariants hold at the end, and each block shows the bytes of the last write to it, unless it has
  -- left the buffer.
  pub run_lem :
      (w m : ℕ) (b c : Buffer cuckoo) (es : List Event) (before : Option ((ℕ → ℕ) × ℕ))
      → Good b
      → Shows before w m b
      → Steps b es c
      → Good c × Shows (last_write w m es before) w m c
  unfolding last_write
  run_lem w m _ _ _ before good h (done b) = (good, h)
  run_lem w m _ _ _ before good h (more b c d e es one rest) =
      let (next, allowed, size) = step_lem b c e good one in
      let (last, shows) =
        run_lem w m c d es (last_write w m (e ∷ []) before) next
          (step_Shows w m b c e before allowed size h) rest in
      (last, subst (λ o. Shows o w m d) (sym (last_write-cons w m e es before)) shows)
