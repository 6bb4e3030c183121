-- ===== src/Pool/Blocks/Owned.antt =====
-- writeDataToNvmBlock of src/nvm0write.cc keeps the blocks apart and touches no other inode's data.
use autobahn_app.Prelude.{
  ℕ, ◌*◌, ◌≤◌, ◌<◌, ◌≡◌, ◌≢◌, ◌∙◌, ◌⊎◌, refl, sym, inl, inr, ◌==◌, Bool-cases, ==→eq, ne_of_test,
  ==_refl, test_of_ne,
}
use autobahn_app.Pool.{Pool, block_data}
use autobahn_app.Pool.Blocks.{write_data, IsDealt, memcpy_in, memcpy_elsewhere}

module _ (s : Pool) (idx offset : ℕ) (ptr : ℕ → ℕ) (count : ℕ) (dealt : IsDealt s)
    (idx_in : idx < s.max_inode_entry)
    (volume_in : (s.inode_table idx).volume < s.max_volume_entry) where
  abbrev after : Pool
  after = write_data s idx offset ptr count

  abbrev owner : ℕ
  owner = (s.inode_table idx).volume

  block_after :
      (i : ℕ)
      → ((idx ≡ i) × ((after.inode_table i).block_index ≡ (s.volume_table owner).spare_block))
        ⊎ ((idx ≢ i) × ((after.inode_table i).block_index ≡ (s.inode_table i).block_index))
  unfolding write_data
  block_after i = elim (Bool-cases (idx == i)) [
    | inl e ↦ inl (==→eq idx i e, rw (e) refl)
    | inr e ↦ inr (ne_of_test idx i e, rw (e) refl)
  ]

  spare_after :
      (v : ℕ)
      → ((owner ≡ v) × ((after.volume_table v).spare_block ≡ (s.inode_table idx).block_index))
        ⊎ ((owner ≢ v) × ((after.volume_table v).spare_block ≡ (s.volume_table v).spare_block))
  unfolding write_data
  spare_after v = elim (Bool-cases (owner == v)) [
    | inl e ↦ inl (==→eq owner v e, rw (e) refl)
    | inr e ↦ inr (ne_of_test owner v e, rw (e) refl)
  ]

  inodes_apart_after :
      (i j : ℕ)
      → i < s.max_inode_entry
      → j < s.max_inode_entry
      → i ≢ j
      → (after.inode_table i).block_index ≢ (after.inode_table j).block_index
  inodes_apart_after i j hi hj ne e = elim (block_after i) [
    | inl a ↦ elim (block_after j) [
      | inl b ↦ ne (sym a.0 ∙ b.0)
      | inr b ↦ dealt.spare_apart j owner hj volume_in (sym b.1 ∙ sym e ∙ a.1)
    ]
    | inr a ↦ elim (block_after j) [
      | inl b ↦ dealt.spare_apart i owner hi volume_in (sym a.1 ∙ e ∙ b.1)
      | inr b ↦ dealt.inodes_apart i j hi hj ne (sym a.1 ∙ e ∙ b.1)
    ]
  ]

  volumes_apart_after :
      (v w : ℕ)
      → v < s.max_volume_entry
      → w < s.max_volume_entry
      → v ≢ w
      → (after.volume_table v).spare_block ≢ (after.volume_table w).spare_block
  volumes_apart_after v w hv hw ne e = elim (spare_after v) [
    | inl a ↦ elim (spare_after w) [
      | inl b ↦ ne (sym a.0 ∙ b.0)
      | inr b ↦ dealt.spare_apart idx w idx_in hw (sym a.1 ∙ e ∙ b.1)
    ]
    | inr a ↦ elim (spare_after w) [
      | inl b ↦ dealt.spare_apart idx v idx_in hv (sym b.1 ∙ sym e ∙ a.1)
      | inr b ↦ dealt.volumes_apart v w hv hw ne (sym a.1 ∙ e ∙ b.1)
    ]
  ]

  spare_apart_after :
      (i v : ℕ)
      → i < s.max_inode_entry
      → v < s.max_volume_entry
      → (after.inode_table i).block_index ≢ (after.volume_table v).spare_block
  spare_apart_after i v hi hv e = elim (block_after i) [
    | inl a ↦ elim (spare_after v) [
      | inl b ↦ dealt.spare_apart idx owner idx_in volume_in (sym b.1 ∙ sym e ∙ a.1)
      | inr b ↦ dealt.volumes_apart owner v volume_in hv b.0 (sym a.1 ∙ e ∙ b.1)
    ]
    | inr a ↦ elim (spare_after v) [
      | inl b ↦ dealt.inodes_apart i idx hi idx_in (λ q. a.0 (sym q)) (sym a.1 ∙ e ∙ b.1)
      | inr b ↦ dealt.spare_apart i v hi hv (sym a.1 ∙ e ∙ b.1)
    ]
  ]

  -- What a call of writeDataToNvmBlock with at most a block of data does, when every block has one
  -- owner: that stays so, the block of the inode starts with the data, the data of every other
  -- inode is what it was, and the spare block of the volume holds the former data of the inode.
  pub write_data_lem :
      count ≤ s.block_size
      → IsDealt after
        × ((j : ℕ) → j < count → block_data after (after.inode_table idx).block_index j ≡ ptr j)
        × ((i j : ℕ)
            → i < s.max_inode_entry
            → idx ≢ i
            → j < s.block_size
            → block_data after (after.inode_table i).block_index j
              ≡ block_data s (s.inode_table i).block_index j)
        × ((j : ℕ)
            → j < s.block_size
            → block_data after (after.volume_table owner).spare_block j
              ≡ block_data s (s.inode_table idx).block_index j)
  unfolding block_data write_data
  write_data_lem fits = (
    record {
      inodes_apart = inodes_apart_after;
      volumes_apart = volumes_apart_after;
      spare_apart = spare_apart_after;
    },
    (λ j h.
        rw (==_refl idx)
          (memcpy_in s.memory ((s.volume_table owner).spare_block * s.block_size) ptr count j h)),
    (λ i j hi ne h. rw (test_of_ne idx i ne) (
        memcpy_elsewhere s.memory (s.volume_table owner).spare_block (s.inode_table i).block_index
          s.block_size ptr count j (λ e. dealt.spare_apart i owner hi volume_in (sym e)) h fits)),
    λ j h. rw (==_refl owner) (
        memcpy_elsewhere s.memory (s.volume_table owner).spare_block (s.inode_table idx).block_index
          s.block_size ptr count j (λ e. dealt.spare_apart idx owner idx_in volume_in (sym e)) h
          fits),
  )
