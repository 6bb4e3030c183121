-- ===== src/Pool/Layout.antt =====
-- nvm_structure_build of src/nvm0nvm.cc: how the memory is divided into the tables. The sizes of
-- the structures are the compiler's; the address is the one that shmat answers.
use autobahn_app.Prelude.{ℕ, ◌+◌, ◌-◌, ◌*◌, ◌/◌, ◌%◌, ◌^◌, ◌≤◌, ◌<◌, ◌≡◌, ◌≢◌, subst, arith}
use native.Mathlib.Nat.{div-mul-le_self, mod-le, mul-le-mul_right, mul-add, mul_comm}

pub record Sizes : Type 0 where
  pub metadata : ℕ
  pub volume_entry : ℕ
  pub inode_entry : ℕ

abbrev pub max_volumes : ℕ
max_volumes = 128

abbrev pub block_bytes : ℕ
block_bytes = 16384

module _ (sizes : Sizes) (nvm nvm_size : ℕ) where
  unfoldable pub unused_end_space : ℕ
  unused_end_space = (nvm + nvm_size) % block_bytes

  unfoldable pub overhead : ℕ
  overhead = sizes.metadata + sizes.volume_entry * max_volumes + unused_end_space

  -- The difference has 64 bits, and the quotient goes into a uint32_t.
  unfoldable pub max_block : ℕ
  max_block = (nvm_size + 2 ^ 64 - overhead) % 2 ^ 64 / (sizes.inode_entry + block_bytes) % 2 ^ 32

  unfoldable pub max_inode_entry : ℕ
  max_inode_entry = (max_block + 2 ^ 32 - max_volumes) % 2 ^ 32

  unfoldable pub volume_table : ℕ
  volume_table = nvm + sizes.metadata

  unfoldable pub inode_table : ℕ
  inode_table = volume_table + sizes.volume_entry * max_volumes

  -- The end of an inode table of max_block entries.
  unfoldable pub inode_table_end : ℕ
  inode_table_end = inode_table + sizes.inode_entry * max_block

  unfoldable pub block_table : ℕ
  block_table = inode_table_end - inode_table_end % block_bytes + block_bytes

  -- The memory up to the last block boundary.
  abbrev pub usable_end : ℕ
  usable_end = nvm + nvm_size - unused_end_space

-- Rounding up to a boundary stays below a boundary, unless the block table starts on one already.
round_up :
    (start size usable : ℕ)
    → usable % 16384 ≡ 0
    → start + 16384 * size ≤ usable
    → start + 16384 * size ≢ usable
    → start - start % 16384 + 16384 + 16384 * size ≤ usable
round_up start size usable h k ne = omega arith

-- Each of max_block blocks has its inode and its data in the shared space.
shares : (space inode blocks m : ℕ) → m ≤ space / (inode + blocks) → inode * m + blocks * m ≤ space
shares space inode blocks m h =
    let a : m * (inode + blocks) ≤ space / (inode + blocks) * (inode + blocks) =
      mul-le-mul_right (inode + blocks) h in
    let b : space / (inode + blocks) * (inode + blocks) ≤ space =
      div-mul-le_self space (inode + blocks) in
    let c : m * (inode + blocks) ≡ m * inode + m * blocks = mul-add m inode blocks in
    let d : m * inode ≡ inode * m = mul_comm m inode in
    let e : m * blocks ≡ blocks * m = mul_comm m blocks in omega (arith, a, b, c, d, e)

wrap_none : (a b : ℕ) → b ≤ a → a < 2 ^ 64 → (a + 2 ^ 64 - b) % 2 ^ 64 ≡ a - b
wrap_none a b h k = omega arith

max_block-le :
    (sizes : Sizes) (nvm nvm_size : ℕ)
    → max_block sizes nvm nvm_size
      ≤ (nvm_size + 2 ^ 64 - overhead sizes nvm nvm_size)
        % 2 ^ 64
        / (sizes.inode_entry + block_bytes)
unfolding max_block
max_block-le sizes nvm nvm_size = mod-le _ (2 ^ 32)

max_block_bound :
    (sizes : Sizes) (nvm nvm_size : ℕ)
    → overhead sizes nvm nvm_size ≤ nvm_size
    → nvm_size < 2 ^ 64
    → sizes.inode_entry * max_block sizes nvm nvm_size + block_bytes * max_block sizes nvm nvm_size
      ≤ nvm_size - overhead sizes nvm nvm_size
max_block_bound sizes nvm nvm_size h k =
    shares (nvm_size - overhead sizes nvm nvm_size) sizes.inode_entry block_bytes
      (max_block sizes nvm nvm_size)
      (subst (λ n. max_block sizes nvm nvm_size ≤ n / (sizes.inode_entry + block_bytes))
        (wrap_none nvm_size (overhead sizes nvm nvm_size) h k) (max_block-le sizes nvm nvm_size))

arrange :
    (nvm size md ve inodes blocks : ℕ)
    → md + ve + (nvm + size) % 16384 ≤ size
    → inodes + 16384 * blocks ≤ size - (md + ve + (nvm + size) % 16384)
    → nvm + md + ve + inodes + 16384 * blocks ≢ nvm + size - (nvm + size) % 16384
    → nvm + md + ve + inodes - (nvm + md + ve + inodes) % 16384 + 16384 + 16384 * blocks
      ≤ nvm + size - (nvm + size) % 16384
arrange nvm size md ve inodes blocks h k ne =
    round_up (nvm + md + ve + inodes) blocks (nvm + size - (nvm + size) % 16384) (omega arith)
      (omega arith) ne

end-up : (e : ℕ) → e ≤ e - e % 16384 + 16384
end-up e = omega arith

end-boundary : (e : ℕ) → (e - e % 16384 + 16384) % 16384 ≡ 0
end-boundary e = omega arith

-- The division of the memory: when the memory holds the fixed tables, the metadata, the table of
-- volumes, the table of inodes with one entry for each block and the table of blocks follow one
-- another without an overlap, and the table of blocks starts at a block boundary and ends in the
-- memory. The condition is that the inodes and the blocks do not fill it exactly up to the
-- last boundary.
pub block_table-InMemory :
    (sizes : Sizes) (nvm nvm_size : ℕ)
    → overhead sizes nvm nvm_size ≤ nvm_size
    → nvm_size < 2 ^ 64
    → inode_table_end sizes nvm nvm_size + block_bytes * max_block sizes nvm nvm_size
      ≢ usable_end sizes nvm nvm_size
    → (nvm + sizes.metadata ≤ volume_table sizes nvm nvm_size)
      × (volume_table sizes nvm nvm_size + sizes.volume_entry * max_volumes
          ≤ inode_table sizes nvm nvm_size)
      × (inode_table sizes nvm nvm_size + sizes.inode_entry * max_block sizes nvm nvm_size
          ≤ block_table sizes nvm nvm_size)
      × (block_table sizes nvm nvm_size % block_bytes ≡ 0)
      × (block_table sizes nvm nvm_size + block_bytes * max_block sizes nvm nvm_size
          ≤ usable_end sizes nvm nvm_size)
unfolding inode_table_end block_table inode_table volume_table overhead unused_end_space
block_table-InMemory sizes nvm nvm_size h k ne = (
  omega arith,
  omega arith,
  end-up (inode_table_end sizes nvm nvm_size),
  end-boundary (inode_table_end sizes nvm nvm_size),
  arrange nvm nvm_size sizes.metadata (sizes.volume_entry * max_volumes)
      (sizes.inode_entry * max_block sizes nvm nvm_size) (max_block sizes nvm nvm_size) h
      (max_block_bound sizes nvm nvm_size h k) ne,
)
