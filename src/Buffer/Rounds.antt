-- ===== src/Buffer/Rounds.antt =====
-- The loop of nvm_durable_write (src/nvm0write.cc) over the blocks of a write, with blocks of 16384
-- bytes. `pos` is where in the file a round writes, and `end` is the end of the write.
use autobahn_app.Prelude.{
  eq-or-ne, ℕ, zero, suc, ◌+◌, ◌*◌, ◌^◌, ◌≤◌, ◌<◌, ◌≡◌, ◌⊎◌, ◌∙◌, refl, sym, ap, subst, inl, inr,
  true, false, Option, some, leb, Bool-cases, leb→le, arith,
}
use autobahn_app.LfQueue.{u32, u64}
use autobahn_app.Hash.{CuckooMap}
use autobahn_app.Buffer.{Buffer, write_round, write_rounds}
use autobahn_app.Buffer.Held.{IsBuffer}
use autobahn_app.Buffer.Round.{byte_at, Spare, Round, write_round_lem}
use autobahn_app.Buffer.Pieces.{
  start_in, Piece, Piece-fits, next_count, left_of, left_lem, next-Piece, in-Piece, later_start,
  in_block, not_below, last_total, full-Piece,
}

module _ (cuckoo : CuckooMap) where
  -- What the rounds from the block `lbn` on have done.
  pub record Done (b : Buffer cuckoo) (v pos end lbn lbn_end : ℕ) (buf : ℕ → ℕ)
      (after : Buffer cuckoo) : Type 0 where
    pub is : IsBuffer cuckoo after
    pub hit :
        (m j : ℕ)
        → lbn ≤ m
        → m ≤ lbn_end
        → start_in pos m + j < (m + 1) * 16384
        → start_in pos m + j < end
        → byte_at cuckoo after v m j ≡ some (buf j)
    pub miss :
        (w m j : ℕ)
        → ((w ≡ v) → (m < lbn) ⊎ (lbn_end < m))
        → j < 16384
        → byte_at cuckoo after w m j ≡ byte_at cuckoo b w m j
    pub same_size : after.pool.block_size ≡ 16384

  -- A round, and what the later rounds do.
  more-Done :
      (b mid after : Buffer cuckoo) (v pos end lbn lbn_end : ℕ) (buf : ℕ → ℕ) (lc count : ℕ)
      → b.pool.block_size ≡ 16384
      → Piece pos end lbn lbn_end lc count
      → lbn + 1 ≤ lbn_end
      → Round cuckoo b v lbn buf lc mid
      → Done mid v (pos + lc) end (lbn + 1) lbn_end buf after
      → Done b v pos end lbn lbn_end buf after
  more-Done b mid after v pos end lbn lbn_end buf lc count size p h r d = record {
    is = d.is;
    hit = λ m j lo hi inside before. elim (eq-or-ne lbn m) [
      | inl e ↦
          d.miss v m j (λ q. inl (omega (arith, e))) (in_block pos m j inside)
          ∙ subst (λ x. byte_at cuckoo mid v x j ≡ some (buf j)) e
              (r.hit j (
                in-Piece p j (subst (λ x. start_in pos x + j < (x + 1) * 16384) (sym e) inside)
                  (subst (λ x. start_in pos x + j < end) (sym e) before)))
      | inr ne ↦
          let above : lbn + 1 ≤ m = omega (arith, lo, ne) in
          let same = later_start pos (pos + lc) lbn m p.upper (full-Piece p h) above in
          d.hit m j above hi (subst (λ x. x + j < (m + 1) * 16384) same inside)
            (subst (λ x. x + j < end) same before)
    ];
    miss = λ w m j out hj.
        d.miss w m j (λ q. elim (out q) [ inl x ↦ inl (omega (arith, x)) | inr x ↦ inr x ]) hj
        ∙ r.miss w m j
            (λ q. elim (out q) [ inl x ↦ omega (arith, x) | inr x ↦ omega (arith, x, h) ])
            (omega (arith, hj, size));
    same_size = d.same_size;
  }

  -- The last round.
  last-Done :
      (b after : Buffer cuckoo) (v pos end lbn lbn_end : ℕ) (buf : ℕ → ℕ) (lc count : ℕ)
      → b.pool.block_size ≡ 16384
      → Piece pos end lbn lbn_end lc count
      → lbn ≡ lbn_end
      → Round cuckoo b v lbn buf lc after
      → Done b v pos end lbn lbn_end buf after
  last-Done b after v pos end lbn lbn_end buf lc count size p h r = record {
    is = r.is;
    hit = λ m j lo hi inside before.
        let e : lbn ≡ m = omega (arith, lo, hi, h) in
        subst (λ x. byte_at cuckoo after v x j ≡ some (buf j)) e
          (r.hit j (
            in-Piece p j (subst (λ x. start_in pos x + j < (x + 1) * 16384) (sym e) inside)
              (subst (λ x. start_in pos x + j < end) (sym e) before)));
    miss = λ w m j out hj.
        r.miss w m j (λ q. elim (out q) [ inl x ↦ omega (arith, x) | inr x ↦ omega (arith, x, h) ])
          (omega (arith, hj, size));
    same_size = r.same_size ∙ size;
  }

  -- The two ends of a round.
  module _ (fuel : ℕ) (b mid : Buffer cuckoo) (v lbn lbn_end offset : ℕ) (buf : ℕ → ℕ)
      (lc count written : ℕ) (eq : write_round cuckoo v lbn offset buf lc b ≡ some mid) where
    go_on :
        {result : Option (ℕ × Buffer cuckoo)}
        → leb (u32 (lbn + 1)) lbn_end ≡ true
        → u32 (lbn + 1) ≡ lbn + 1
        → b.pool.block_size ≡ 16384
        → u64 (written + lc) ≡ written + lc
        → write_rounds cuckoo fuel v
            (lbn + 1)
            lbn_end
            0
            buf
            (next_count (left_of count lc))
            (left_of count lc)
            (written + lc)
            mid
          ≡ result
        → write_rounds cuckoo (suc fuel) v lbn lbn_end offset buf lc count written b ≡ result
    unfolding write_rounds
    go_on e next size total done = rw (eq) (rw (e) (rw (next, size, total) done))

    pub stop :
        leb (u32 (lbn + 1)) lbn_end ≡ false
        → write_rounds cuckoo (suc fuel) v lbn lbn_end offset buf lc count written b
          ≡ some (u64 (written + lc), mid)
    unfolding write_rounds
    stop e = rw (eq) (rw (e) refl)

  -- The rounds return the number of bytes asked for, on fuel for each block.
  pub write_rounds_lem :
      (fuel : ℕ) (b : Buffer cuckoo) (v pos end lbn lbn_end offset : ℕ) (buf : ℕ → ℕ)
      (lc count written : ℕ)
      → IsBuffer cuckoo b
      → b.linked v ≡ true
      → b.pool.block_size ≡ 16384
      → Spare cuckoo fuel v b
      → Piece pos end lbn lbn_end lc count
      → lbn ≤ lbn_end
      → lbn + fuel ≡ lbn_end + 1
      → written + count < 2 ^ 63
      → (after : Buffer cuckoo) × (write_rounds cuckoo fuel v lbn lbn_end offset buf lc count
            written b
          ≡ some (written + count, after))
        × Done b v pos end lbn lbn_end buf after
  unfolding write_rounds
  write_rounds_lem zero b v pos end lbn lbn_end offset buf lc count written is linked size sp p h f
        bound =
      absurd (omega arith)
  write_rounds_lem (suc fuel) b v pos end lbn lbn_end offset buf lc count written is linked size sp
        p h f bound =
      let (mid, eq, r) =
        write_round_lem cuckoo b fuel v lbn offset buf lc is linked sp
          (omega (arith, Piece-fits p, size)) in
      let l = left_lem p in
      let next : u32 (lbn + 1) ≡ lbn + 1 = omega (arith, p.narrow, h) in
      let total : u64 (written + lc) ≡ written + lc = omega (arith, l.0, bound) in
      elim (Bool-cases (leb (u32 (lbn + 1)) lbn_end)) [
        | inl e ↦
            let below : lbn + 1 ≤ lbn_end = omega (arith, leb→le (u32 (lbn + 1)) lbn_end e, next) in
            let sum : written + lc + left_of count lc ≡ written + count = omega (arith, l.0, l.1) in
            let (after, done, d) =
              write_rounds_lem fuel mid v (pos + lc) end (lbn + 1) lbn_end 0 buf
                (next_count (left_of count lc)) (left_of count lc) (written + lc) r.is
                (ap (λ f. f v) r.same_linked ∙ linked) (r.same_size ∙ size) (r.spare fuel sp)
                (next-Piece pos end lbn lbn_end lc count p below) below (omega (arith, f))
                (omega (arith, l.0, l.1, bound)) in
            (
              after,
              go_on fuel b mid v lbn lbn_end offset buf lc count written eq e next size total
                  (done ∙ ap (λ n. some (n, after)) sum),
              more-Done b mid after v pos end lbn lbn_end buf lc count size p below r d,
            )
        | inr e ↦
            let here : lbn ≡ lbn_end =
              omega (arith, h, next, not_below (u32 (lbn + 1)) lbn_end e) in
            (
              mid,
              stop fuel b mid v lbn lbn_end offset buf lc count written eq e
                  ∙ ap (λ n. some (n, mid)) (total ∙ last_total p here written),
              last-Done b mid v pos end lbn lbn_end buf lc count size p here r,
            )
      ]
