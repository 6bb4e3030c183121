-- ===== src/Pool/Blocks/Dealt.antt =====
-- The loops of nvm_structure_build (src/nvm0nvm.cc) give every block one owner.
use autobahn_app.LfQueue.{u32}
use autobahn_app.Prelude.{
  ◌-◌, ◌^◌, ◌≤◌, ◌⊎◌, inl, inr, Bool-cases, ltb, ltb→lt, ltb→le, ℕ, zero, suc, ◌+◌, ◌<◌, ◌≡◌, ◌≢◌,
  ◌∙◌, refl, sym, ap, subst, arith,
}
use autobahn_app.Pool.{Pool}
use autobahn_app.Pool.Blocks.{
  deal_inodes, deal_volumes, deal_blocks, IsDealt, deal_inodes_lem, deal_volumes_lem,
  deal_inodes_max, deal_volumes_max,
}

deal_volumes_block :
    (n i : ℕ) (s : Pool)
    → ((deal_volumes n s).inode_table i).block_index ≡ (s.inode_table i).block_index
unfolding deal_volumes
deal_volumes_block zero i s = refl
deal_volumes_block (suc n) i s = deal_volumes_block n i s

deal_volumes_count : (n : ℕ) (s : Pool) → (deal_volumes n s).max_volume_entry ≡ s.max_volume_entry
unfolding deal_volumes
deal_volumes_count zero s = refl
deal_volumes_count (suc n) s = deal_volumes_count n s

deal_inodes_count : (n : ℕ) (s : Pool) → (deal_inodes n s).max_volume_entry ≡ s.max_volume_entry
unfolding deal_inodes
deal_inodes_count zero s = refl
deal_inodes_count (suc n) s = deal_inodes_count n s

-- A block is below the number of inodes, or it is the spare block of a volume.
inode_or_spare : (c n m : ℕ) → c < n + m → (c < n) ⊎ ((v : ℕ) × (v < m) × (c ≡ v + n))
inode_or_spare c n m h = elim (Bool-cases (ltb c n)) [
  | inl e ↦ inl (ltb→lt c n e)
  | inr e ↦ inr (c - n, omega (arith, h, ltb→le c n e), omega (arith, ltb→le c n e))
]

add_cancel : (v w n : ℕ) → v + n ≡ w + n → v ≡ w
add_cancel v w n h = omega arith

below : (i v n : ℕ) → i < n → i ≢ v + n
below i v n h = omega arith

no_wrap : (v n m : ℕ) → v < m → n + m ≤ 2 ^ 32 → u32 (v + n) ≡ v + n
no_wrap v n m h k = omega (arith, h, k)

module _ (s : Pool) where
  inode_count : (deal_blocks s).max_inode_entry ≡ s.max_inode_entry
  unfolding deal_blocks
  inode_count =
      deal_volumes_max (deal_inodes s.max_inode_entry s).max_volume_entry _
      ∙ deal_inodes_max s.max_inode_entry s

  volume_count : (deal_blocks s).max_volume_entry ≡ s.max_volume_entry
  unfolding deal_blocks
  volume_count =
      deal_volumes_count (deal_inodes s.max_inode_entry s).max_volume_entry _
      ∙ deal_inodes_count s.max_inode_entry s

  inode_block : (i : ℕ) → i < s.max_inode_entry → ((deal_blocks s).inode_table i).block_index ≡ i
  unfolding deal_blocks
  inode_block i h =
      deal_volumes_block (deal_inodes s.max_inode_entry s).max_volume_entry i _
      ∙ deal_inodes_lem s.max_inode_entry i s h

  module _ (small : s.max_inode_entry + s.max_volume_entry ≤ 2 ^ 32) where
    volume_block :
        (v : ℕ)
        → v < s.max_volume_entry
        → ((deal_blocks s).volume_table v).spare_block ≡ v + s.max_inode_entry
    unfolding deal_blocks
    volume_block v h =
        let dealt = deal_inodes s.max_inode_entry s in
        deal_volumes_lem dealt.max_volume_entry v dealt
          (subst (λ n. v < n) (sym (deal_inodes_count s.max_inode_entry s)) h)
        ∙ ap (λ n. u32 (v + n)) (deal_inodes_max s.max_inode_entry s)
        ∙ no_wrap v s.max_inode_entry s.max_volume_entry h small

    each_once : IsDealt (deal_blocks s)
    each_once = record {
      inodes_apart = λ i j hi hj ne e. ne (
          sym (inode_block i (subst (λ n. i < n) inode_count hi))
          ∙ e
          ∙ inode_block j (subst (λ n. j < n) inode_count hj));
      volumes_apart = λ v w hv hw ne e. ne (
          add_cancel v w s.max_inode_entry (
            sym (volume_block v (subst (λ n. v < n) volume_count hv))
            ∙ e
            ∙ volume_block w (subst (λ n. w < n) volume_count hw)));
      spare_apart = λ i v hi hv e.
          let i_in = subst (λ n. i < n) inode_count hi in
          below i v s.max_inode_entry i_in
            (sym (inode_block i i_in) ∙ e ∙ volume_block v (subst (λ n. v < n) volume_count hv));
    }

    -- After the structures are built, every block has one owner, when the inodes and the volumes are
    -- at most 2 ^ 32 together: no block has two, each of the max_inode_entry + max_volume_entry blocks
    -- is the block of an inode or the spare block of a volume, and no entry has another block.
    pub deal_blocks-IsDealt :
        IsDealt (deal_blocks s)
        × ((c : ℕ)
            → c < s.max_inode_entry + s.max_volume_entry
            → ((i : ℕ) × (i < s.max_inode_entry)
                × (((deal_blocks s).inode_table i).block_index ≡ c))
              ⊎ ((v : ℕ) × (v < s.max_volume_entry)
                  × (((deal_blocks s).volume_table v).spare_block ≡ c)))
        × ((i : ℕ)
            → i < s.max_inode_entry
            → ((deal_blocks s).inode_table i).block_index < s.max_inode_entry + s.max_volume_entry)
        × ((v : ℕ)
            → v < s.max_volume_entry
            → ((deal_blocks s).volume_table v).spare_block < s.max_inode_entry + s.max_volume_entry)
    deal_blocks-IsDealt = (
      each_once,
      (λ c h. elim (inode_or_spare c s.max_inode_entry s.max_volume_entry h) [
        | inl i_in ↦ inl (c, i_in, inode_block c i_in)
        | inr (v, v_in, e) ↦ inr (v, v_in, volume_block v v_in ∙ sym e)
      ]),
      (λ i h. omega (arith, inode_block i h, h)),
      λ v h. omega (arith, volume_block v h, h),
    )
