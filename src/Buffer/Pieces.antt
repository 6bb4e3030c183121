-- ===== src/Buffer/Pieces.antt =====
-- The arithmetic of the loop of nvm_durable_write (src/nvm0write.cc): how a write falls into the
-- pieces of its blocks, of 16384 bytes. `pos` is where in the file a round writes, and `end` is the
-- end of the write.
use autobahn_app.Prelude.{
  ℕ, ◌+◌, ◌-◌, ◌*◌, ◌^◌, ◌≤◌, ◌<◌, ◌≡◌, ◌⊎◌, refl, inl, inr, false, ltb, leb, if◌then◌else◌,
  Bool-cases, le→ltb, ltb→lt, ltb→le, arith,
}
use autobahn_app.LfQueue.{u32, u64}

-- Where the write meets the block m: at the start of the block, or at `pos` inside of it.
abbrev pub start_in : (pos m : ℕ) → ℕ
start_in pos m = if ltb (m * 16384) pos then pos else m * 16384

-- The piece of a round ends with the block or with the write.
pub record Piece (pos end lbn lbn_end local_count count : ℕ) : Type 0 where
  pub lower : lbn * 16384 ≤ pos
  pub upper : pos < (lbn + 1) * 16384
  pub whole : end ≡ pos + count
  pub piece :
      ((pos + local_count ≡ (lbn + 1) * 16384) × ((lbn + 1) * 16384 ≤ end))
      ⊎ ((pos + local_count ≡ end) × (end ≤ (lbn + 1) * 16384))
  pub last_lower : lbn_end * 16384 < end
  pub last_upper : end ≤ (lbn_end + 1) * 16384
  pub narrow : lbn_end + 1 < 2 ^ 32
  pub fits : end < 2 ^ 63

pub Piece-fits :
    {pos end lbn lbn_end lc count : ℕ} → Piece pos end lbn lbn_end lc count → lc ≤ 16384
Piece-fits p = elim p.piece [
  | inl h ↦ omega (arith, p.lower, h.0)
  | inr h ↦ omega (arith, p.lower, h.0, h.1)
]

abbrev pub next_count : ℕ → ℕ
next_count left = u32 (if ltb 16384 left then 16384 else left)

abbrev pub left_of : (count lc : ℕ) → ℕ
left_of count lc = u64 (count + 2 ^ 64 - lc)

-- A piece is no longer than what is left, and what is left after it has no wrap.
pub left_lem :
    {pos end lbn lbn_end lc count : ℕ}
    → Piece pos end lbn lbn_end lc count
    → (lc ≤ count) × (left_of count lc ≡ count - lc)
left_lem {pos} {end} {lbn} {lbn_end} {lc} {count} p =
    let le : lc ≤ count = elim p.piece [
      | inl h ↦ omega (arith, h.0, h.1, p.whole)
      | inr h ↦ omega (arith, h.0, p.whole)
    ] in
    (le, omega (arith, le, p.whole, p.fits))

pub full-Piece :
    {pos end lbn lbn_end lc count : ℕ}
    → Piece pos end lbn lbn_end lc count
    → lbn + 1 ≤ lbn_end
    → pos + lc ≡ (lbn + 1) * 16384
full-Piece p h = elim p.piece [ inl q ↦ q.0 | inr q ↦ absurd (omega (arith, q.1, p.last_lower, h)) ]

-- The piece of a round that starts with its block.
block_piece :
    (start left : ℕ)
    → ((start + next_count left ≡ start + 16384) × (start + 16384 ≤ start + left))
      ⊎ ((start + next_count left ≡ start + left) × (start + left ≤ start + 16384))
block_piece start left = elim (Bool-cases (ltb 16384 left)) [
  | inl e ↦ inl (rw (e) refl, omega (arith, ltb→lt 16384 left e))
  | inr e ↦
      let small = ltb→le 16384 left e in inr (rw (e) (omega (arith, small)), omega (arith, small))
]

-- The piece of the next round.
pub next-Piece :
    (pos end lbn lbn_end lc count : ℕ)
    → Piece pos end lbn lbn_end lc count
    → lbn + 1 ≤ lbn_end
    → Piece (pos + lc) end (lbn + 1) lbn_end (next_count (left_of count lc)) (left_of count lc)
next-Piece pos end lbn lbn_end lc count p h =
    let l = left_lem p in
    let full = full-Piece p h in
    let total : end ≡ pos + lc + left_of count lc = omega (arith, l.0, l.1, p.whole) in
    record {
      lower = omega (arith, full);
      upper = omega (arith, full);
      whole = total;
      piece = elim (block_piece (pos + lc) (left_of count lc)) [
        | inl q ↦ inl (omega (arith, q.0, full), omega (arith, q.1, total, full))
        | inr q ↦ inr (omega (arith, q.0, total), omega (arith, q.1, total, full))
      ];
      last_lower = p.last_lower;
      last_upper = p.last_upper;
      narrow = p.narrow;
      fits = p.fits;
    }

-- The bytes of a piece: those of the block from where the write meets it.
pub in-Piece :
    {pos end lbn lbn_end lc count : ℕ}
    → Piece pos end lbn lbn_end lc count
    → (j : ℕ) → start_in pos lbn + j < (lbn + 1) * 16384
    → start_in pos lbn + j < end
    → j < lc
in-Piece {pos} {end} {lbn} {lbn_end} {lc} {count} p j h k =
    let meets : start_in pos lbn ≡ pos = elim (Bool-cases (ltb (lbn * 16384) pos)) [
      | inl e ↦ rw (e) refl
      | inr e ↦ rw (e) (omega (arith, ltb→le (lbn * 16384) pos e, p.lower))
    ] in
    elim p.piece [ inl q ↦ omega (arith, q.0, meets, h) | inr q ↦ omega (arith, q.0, meets, k) ]

-- In later blocks the write meets the start, for this round's position and for the next one's.
pub later_start :
    (pos next lbn m : ℕ)
    → pos < (lbn + 1) * 16384
    → next ≡ (lbn + 1) * 16384
    → lbn + 1 ≤ m
    → start_in pos m ≡ start_in next m
later_start pos next lbn m h e k =
    rw (le→ltb (m * 16384) pos (omega arith), le→ltb (m * 16384) next (omega arith)) refl

pub in_block : (pos m j : ℕ) → start_in pos m + j < (m + 1) * 16384 → j < 16384
in_block pos m j h = elim (Bool-cases (ltb (m * 16384) pos)) [
  | inl e ↦ omega (arith, ltb→lt (m * 16384) pos e, rw (e) at h)
  | inr e ↦ omega (arith, rw (e) at h)
]

pub not_below : (a b : ℕ) → leb a b ≡ false → b < a
not_below a b h = ground arith

-- The last piece is all that is left.
pub last_total :
    {pos end lbn lbn_end lc count : ℕ}
    → Piece pos end lbn lbn_end lc count
    → lbn ≡ lbn_end
    → (written : ℕ) → written + lc ≡ written + count
last_total p h written = elim p.piece [
  | inl q ↦ omega (arith, q.0, q.1, p.whole, p.last_upper, h)
  | inr q ↦ omega (arith, q.0, p.whole)
]
