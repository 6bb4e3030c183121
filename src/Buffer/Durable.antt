-- ===== src/Buffer/Durable.antt =====
-- nvm_durable_write (src/nvm0write.cc), with blocks of 16384 bytes.
use autobahn_app.Prelude.{
  ℕ, suc, ◌+◌, ◌-◌, ◌*◌, ◌/◌, ◌%◌, ◌^◌, ◌≤◌, ◌<◌, ◌≡◌, ◌∙◌, refl, ap, inl, Option, some, arith,
}
use autobahn_app.LfQueue.{u32, u64}
use autobahn_app.Hash.{CuckooMap}
use autobahn_app.Buffer.{Buffer, write_rounds, nvm_durable_write}
use autobahn_app.Buffer.Held.{IsBuffer}
use autobahn_app.Buffer.Opened.{Opens, Opened, open_volume_lem}
use autobahn_app.Buffer.Round.{Spare}
use autobahn_app.Buffer.Pieces.{Piece}
use autobahn_app.Buffer.Rounds.{Done, write_rounds_lem}

-- The blocks of a write.
abbrev pub first_block : (offset : ℕ) → ℕ
first_block offset = offset / 16384

abbrev pub last_block : (offset count : ℕ) → ℕ
last_block offset count = (offset + count - 1) / 16384

abbrev pub blocks : (offset count : ℕ) → ℕ
blocks offset count = suc (last_block offset count - first_block offset)

no_wrap :
    (offset count : ℕ)
    → 1 ≤ count
    → offset + count < 2 ^ 45
    → (u32 (offset / 16384) ≡ first_block offset)
      × (u32 (u64 (offset + count + 2 ^ 64 - 1) / 16384) ≡ last_block offset count)
      × (u32 (offset % 16384) ≡ offset % 16384)
      × (u32 (16384 - u32 (offset % 16384)) ≡ 16384 - offset % 16384)
no_wrap offset count pos h =
    let whole : u64 (offset + count + 2 ^ 64 - 1) ≡ offset + count - 1 = omega (arith, pos, h) in
    (omega (arith, h), ap (λ n. u32 (n / 16384)) whole ∙ omega (arith, h), omega arith, omega arith)

module _ (cuckoo : CuckooMap) where
  -- The call is the loop over the blocks, in the buffer with the entry of the volume.
  durable_rounds :
      (open_file : ℕ → Option ℕ) (vid v offset : ℕ) (buf : ℕ → ℕ) (count : ℕ) (b o : Buffer cuckoo)
      → Opened cuckoo open_file vid v b o
      → o.pool.block_size ≡ 16384
      → 1 ≤ count
      → offset + count < 2 ^ 45
      → nvm_durable_write cuckoo open_file vid offset buf count b
        ≡ write_rounds cuckoo
            (blocks offset count)
            v
            (first_block offset)
            (last_block offset count)
            (offset % 16384)
            buf
            (16384 - offset % 16384)
            count
            0
            o
  unfolding nvm_durable_write
  durable_rounds open_file vid v offset buf count b o op size pos h =
      let n = no_wrap offset count pos h in rw (op.opens) (rw (size) (rw (n.3, n.2, n.1, n.0) refl))

  module _ (open_file : ℕ → Option ℕ) (vid v offset : ℕ) (buf : ℕ → ℕ) (count : ℕ)
      (b : Buffer cuckoo) (is : IsBuffer cuckoo b) (size : b.pool.block_size ≡ 16384)
      (opens : Opens cuckoo open_file vid v b) (some_bytes : 1 ≤ count)
      (small : offset + count < 2 ^ 45) where
    first_Piece :
        (first_block offset + 1) * 16384 ≤ offset + count
        → Piece offset
            (offset + count)
            (first_block offset)
            (last_block offset count)
            (16384 - offset % 16384)
            count
    first_Piece reach = record {
      lower = omega arith;
      upper = omega arith;
      whole = refl;
      piece = inl (omega arith, reach);
      last_lower = omega (arith, some_bytes);
      last_upper = omega (arith, some_bytes);
      narrow = omega (arith, small);
      fits = omega (arith, small);
    }

    pub nvm_durable_write_lem :
        (first_block offset + 1) * 16384 ≤ offset + count
        → Spare cuckoo (blocks offset count) v b
        → (after : Buffer cuckoo) × (nvm_durable_write cuckoo open_file vid offset buf count b
            ≡ some (count, after))
          × Done cuckoo b v offset
              (offset + count)
              (first_block offset)
              (last_block offset count)
              buf
              after
    nvm_durable_write_lem reach spare =
        let (o, op) = open_volume_lem cuckoo open_file vid v b is opens in
        let (after, done, d) =
          write_rounds_lem cuckoo (blocks offset count) o v offset (offset + count)
            (first_block offset) (last_block offset count) (offset % 16384) buf
            (16384 - offset % 16384) count 0 op.is op.linked (op.same_size ∙ size)
            (op.spare (blocks offset count) v spare) (first_Piece reach) (omega (arith, reach))
            (omega (arith, reach)) (omega (arith, small)) in
        let from_zero : 0 + count ≡ count = omega arith in
        (
          after,
          durable_rounds open_file vid v offset buf count b o op (op.same_size ∙ size) some_bytes
                small
              ∙ done
              ∙ ap (λ n. some (n, after)) from_zero,
          record {
            is = d.is;
            hit = d.hit;
            miss = λ w m j out hj. d.miss w m j out hj ∙ op.bytes w m j;
            same_size = d.same_size;
          },
        )
