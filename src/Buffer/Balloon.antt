-- ===== src/Buffer/Balloon.antt =====
-- fill_free_inodes (src/nvm0balloon.cc): the loop that empties a queue of clean inodes.
use autobahn_app.Prelude.{
  ℕ, zero, suc, ◌%◌, ◌<◌, ◌≡◌, ◌≢◌, ◌⊎◌, ◌∙◌, refl, sym, ap, subst, inl, inr, Option, some, none,
  List, [], ◌∷◌, length, All, All-imp, Bool-cases, arith,
}
use autobahn_app.Hash.{CuckooMap}
use autobahn_app.Pool.{Inode, state_clean, num_free, block_data}
use autobahn_app.Pool.Blocks.{update_self}
use autobahn_app.Buffer.{Buffer, is_clean, leave_queue, free_clean, fill_loop, fill_free_inodes}
use autobahn_app.Buffer.Wf.{data_of}
use autobahn_app.Buffer.Held.{finder, IsBuffer}
use autobahn_app.Buffer.Round.{byte_of, byte_at}
use autobahn_app.Buffer.Room.{Absent-room}
use autobahn_app.Buffer.Freed.{free_clean_lem}
use autobahn_app.Cycle.Flow.{IsFlow}
use autobahn_app.Buffer.Shrinks.{
  clean-ne-free, clean_of_test, unclean_of_test, Step, Step-unclean, Shrinks, Shrinks-trans,
  leave_queue-Shrinks, Freed-Shrinks,
}

module _ (cuckoo : CuckooMap) where
  -- A round for an inode of the table, whatever its state is.
  round_lem :
      (idx : ℕ) (b : Buffer cuckoo)
      → IsBuffer cuckoo b
      → idx < b.pool.max_inode_entry
      → (next : Buffer cuckoo) × (free_clean cuckoo idx b ≡ some next)
        × Shrinks cuckoo b next
        × ((next.pool.inode_table idx).state ≢ state_clean)
        × (next.pool.clean_queue ≡ b.pool.clean_queue)
  unfolding free_clean block_data
  round_lem idx b is idx_in = elim (Bool-cases (is_clean (b.pool.inode_table idx).state)) [
    | inr e ↦ (
      b,
      rw (e) refl,
      record {
        is = is;
        max = refl;
        size = refl;
        steps = λ i. inl refl;
        finds = λ w m. inr refl;
        keeps = λ w m i h ne. h;
        bytes = λ i j. refl;
        flow = λ f. f;
      },
      unclean_of_test _ e,
      refl,
    )
    | inl e ↦
        let clean = clean_of_test (b.pool.inode_table idx).state e in
        let k = b.free_enqueue_idx % num_free in
        let (next, f) = free_clean_lem cuckoo b is idx idx_in clean (
          Absent-room b.pool.max_inode_entry idx (b.pool.free_queue k)
            (All-imp (b.pool.free_queue k) (λ i h. h.0) (is.wf.free.all k)) (is.wf.free.once k)
            idx_in
            (All-imp (b.pool.free_queue k)
              (λ i h q. clean-ne-free (sym clean ∙ ap (λ x. (b.pool.inode_table x).state) q ∙ h.1))
              (is.wf.free.all k))) in
        (
          next,
          f.frees,
          Freed-Shrinks cuckoo b next idx is clean f,
          λ c. clean-ne-free (sym c ∙ f.free),
          f.clean_queues,
        )
  ]

  fill_step :
      (fuel index idx : ℕ) (rest : List ℕ) (b next : Buffer cuckoo)
      {result : Option (Buffer cuckoo)}
      → b.pool.clean_queue index ≡ idx ∷ rest
      → free_clean cuckoo idx (leave_queue cuckoo index rest b) ≡ some next
      → fill_loop cuckoo fuel index next ≡ result
      → fill_loop cuckoo (suc fuel) index b ≡ result
  unfolding fill_loop
  fill_step fuel index idx rest b next e q r = rw (e, fill_loop) (rw (q) r)

  -- The loop ends on fuel for each inode that waits.
  fill_loop_lem :
      (waiting : List ℕ) (fuel index : ℕ) (b : Buffer cuckoo)
      → IsBuffer cuckoo b
      → b.pool.clean_queue index ≡ waiting
      → All (λ i. i < b.pool.max_inode_entry) waiting
      → length waiting < fuel
      → (after : Buffer cuckoo) × (fill_loop cuckoo fuel index b ≡ some after)
        × Shrinks cuckoo b after
        × (after.pool.clean_queue index ≡ [])
        × All (λ i. (after.pool.inode_table i).state ≢ state_clean) waiting
  unfolding fill_loop block_data
  fill_loop_lem waiting zero index b is e inside h = absurd (omega arith)
  fill_loop_lem [] (suc fuel) index b is e inside h = (
    b,
    rw (e, fill_loop) refl,
    record {
      is = is;
      max = refl;
      size = refl;
      steps = λ i. inl refl;
      finds = λ w m. inr refl;
      keeps = λ w m i f ne. f;
      bytes = λ i j. refl;
      flow = λ f. f;
    },
    e,
    tt,
  )
  fill_loop_lem (idx ∷ rest) (suc fuel) index b is e inside h =
      let left = leave_queue cuckoo index rest b in
      let here = leave_queue-Shrinks cuckoo index idx rest b e is in
      let (next, done, x, unclean, queues) = round_lem idx left here.is inside.0 in
      let (after, all, y, empty, freed) =
        fill_loop_lem rest fuel index next x.is
          (ap (λ q. q index) queues ∙ update_self b.pool.clean_queue index rest)
          (All-imp rest (λ i k. subst (λ n. i < n) (sym x.max) k) inside.1) (omega (arith, h)) in
      (
        after,
        fill_step fuel index idx rest b next e done all,
        Shrinks-trans cuckoo b left after here (Shrinks-trans cuckoo left next after x y),
        empty,
        (
          Step-unclean (next.pool.inode_table idx) (after.pool.inode_table idx) (y.steps idx)
              unclean,
          freed,
        ),
      )

  -- What the balloon leaves of the buffer.
  pub record Emptied (b : Buffer cuckoo) (index : ℕ) (after : Buffer cuckoo) : Type 0 where
    pub is : IsBuffer cuckoo after
    pub flow : IsFlow b.pool → IsFlow after.pool
    pub size : after.pool.block_size ≡ b.pool.block_size
    pub max : after.pool.max_inode_entry ≡ b.pool.max_inode_entry
    pub empty : after.pool.clean_queue index ≡ []
    pub freed : All (λ i. (after.pool.inode_table i).state ≢ state_clean) (b.pool.clean_queue index)
    pub kept :
        (w m i : ℕ)
        → finder cuckoo b w m ≡ some i
        → (b.pool.inode_table i).state ≢ state_clean
        → (finder cuckoo after w m ≡ some i) × (after.pool.inode_table i ≡ b.pool.inode_table i)
    pub bytes :
        (w m j : ℕ)
        → (byte_at cuckoo after w m j ≡ none)
          ⊎ (byte_at cuckoo after w m j ≡ byte_at cuckoo b w m j)

  Step-same : (x y : Inode) → Step x y → x.state ≢ state_clean → y ≡ x
  Step-same x y (inl e) ne = e
  Step-same x y (inr (c, f)) ne = absurd (ne c)

  same_byte :
      (b after : Buffer cuckoo) (o : Option ℕ) (j : ℕ)
      → ((i : ℕ) → data_of after.pool i j ≡ data_of b.pool i j)
      → byte_of after.pool o j ≡ byte_of b.pool o j
  same_byte b after none j h = refl
  same_byte b after (some i) j h = ap some (h i)

  -- The call returns, without a failure of a queue or of a search. It empties the queue, keeps the
  -- invariant, and leaves none of the inodes that waited clean. A block in an inode that is not clean
  -- stays as it is; each byte of the buffer is unchanged or gone.
  pub fill_free_inodes_lem :
      (index : ℕ) (b : Buffer cuckoo)
      → IsBuffer cuckoo b
      → All (λ i. i < b.pool.max_inode_entry) (b.pool.clean_queue index)
      → (after : Buffer cuckoo) × (fill_free_inodes cuckoo index b ≡ some after)
        × Emptied b index after
  unfolding fill_free_inodes
  fill_free_inodes_lem index b is inside =
      let waiting = b.pool.clean_queue index in
      let (after, done, x, empty, freed) =
        fill_loop_lem waiting (suc (length waiting)) index b is refl inside (omega arith) in
      (
        after,
        done,
        record {
          is = x.is;
          flow = x.flow;
          size = x.size;
          max = x.max;
          empty = empty;
          freed = freed;
          kept = λ w m i h ne. (
            x.keeps w m i h ne,
            Step-same (b.pool.inode_table i) (after.pool.inode_table i) (x.steps i) ne,
          );
          bytes = λ w m j. elim (x.finds w m) [
            | inl e ↦ inl (ap (λ o. byte_of after.pool o j) e)
            | inr e ↦ inr (
                ap (λ o. byte_of after.pool o j) e
                ∙ same_byte b after (finder cuckoo b w m) j (λ i. x.bytes i j))
          ];
        },
      )
