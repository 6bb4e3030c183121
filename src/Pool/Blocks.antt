-- ===== src/Pool/Blocks.antt =====
-- Which entry owns which block: the loops of nvm_structure_build (src/nvm0nvm.cc) that deal the
-- blocks out, and writeDataToNvmBlock (src/nvm0write.cc), which writes to the spare block of a
-- volume and exchanges it for the block of the inode.
pub mod Owned
pub mod Dealt
use native.Mathlib.Nat.{mul-le-mul_right, suc-mul}
use autobahn_app.Prelude.{
  ℕ, zero, suc, ◌+◌, ◌-◌, ◌*◌, ◌≤◌, ◌<◌, ◌≡◌, ◌≢◌, ◌⊎◌, ◌∙◌, refl, sym, ap, inl, inr, ◌&&◌, ltb,
  leb, ◌==◌, true, false, if◌then◌else◌, Bool-cases, ==→eq, ne_of_test, test_of_ne, ==_refl, arith,
  ap₂, le→leb, lt→ltb, lt→leb, le→ltb, tri-cases, ltb→lt, ne_ge→lt,
}
use autobahn_app.LfQueue.{u32, update}
use autobahn_app.Pool.{Inode, Volume, Pool, state_free, block_data}

unfoldable pub deal_inodes : (n : ℕ) → Pool → Pool
deal_inodes zero s = s
deal_inodes (suc i) s =
    let s' = deal_inodes i s in
    let inode : Inode = record (s'.inode_table i) { state = state_free; block_index = i } in
    record s' { inode_table = update s'.inode_table i inode }

unfoldable pub deal_volumes : (n : ℕ) → Pool → Pool
deal_volumes zero s = s
deal_volumes (suc v) s =
    let s' = deal_volumes v s in
    let volume : Volume = record (s'.volume_table v) {
      spare_block = u32 (v + s'.max_inode_entry);
    } in
    record s' { volume_table = update s'.volume_table v volume }

unfoldable pub deal_blocks : Pool → Pool
deal_blocks s =
    let dealt = deal_inodes s.max_inode_entry s in deal_volumes dealt.max_volume_entry dealt

unfoldable pub memcpy : (ℕ → ℕ) → (start : ℕ) → (ptr : ℕ → ℕ) → (count : ℕ) → ℕ → ℕ
memcpy memory start ptr count a =
    if leb start a && ltb a (start + count) then ptr (a - start) else memory a

-- The offset is an argument that the code does not use; the answer is `count`.
unfoldable pub write_data : Pool → (idx : ℕ) → (offset : ℕ) → (ptr : ℕ → ℕ) → (count : ℕ) → Pool
write_data s idx offset ptr count =
    let inode = s.inode_table idx in
    let volume = s.volume_table inode.volume in
    let ownerless = volume.spare_block in
    let given : Volume = record volume { spare_block = inode.block_index } in
    let taken : Inode = record inode { block_index = ownerless } in
    record s {
      memory = memcpy s.memory (ownerless * s.block_size) ptr count;
      volume_table = update s.volume_table inode.volume given;
      inode_table = update s.inode_table idx taken;
    }

-- Every block has one owner at most.
pub record IsDealt (s : Pool) : Type 0 where
  pub inodes_apart :
      (i j : ℕ)
      → i < s.max_inode_entry
      → j < s.max_inode_entry
      → i ≢ j
      → (s.inode_table i).block_index ≢ (s.inode_table j).block_index
  pub volumes_apart :
      (v w : ℕ)
      → v < s.max_volume_entry
      → w < s.max_volume_entry
      → v ≢ w
      → (s.volume_table v).spare_block ≢ (s.volume_table w).spare_block
  pub spare_apart :
      (i v : ℕ)
      → i < s.max_inode_entry
      → v < s.max_volume_entry
      → (s.inode_table i).block_index ≢ (s.volume_table v).spare_block

pub update_self {ℓ} : {A : Type ℓ} (f : ℕ → A) (i : ℕ) (a : A) → update f i a i ≡ a
update_self f i a = rw (==_refl i) refl

-- A field that the new value has in common with the old one.
pub update_field {ℓ κ} :
    {A : Type ℓ} {B : Type κ} (field : A → B) (f : ℕ → A) (i : ℕ) (a : A)
    → field a ≡ field (f i)
    → (j : ℕ) → field (update f i a j) ≡ field (f j)
update_field field f i a same j = elim (Bool-cases (i == j)) [
  | inl e ↦ rw (e) (same ∙ ap (λ x. field (f x)) (==→eq i j e))
  | inr e ↦ rw (e) refl
]

pub update_ne {ℓ} : {A : Type ℓ} (f : ℕ → A) (i : ℕ) (a : A) (j : ℕ) → i ≢ j → update f i a j ≡ f j
update_ne f i a j h = rw (test_of_ne i j h) refl

mul_suc : (b size : ℕ) → suc b * size ≡ b * size + size
mul_suc b size = suc-mul b size

-- Two blocks have no byte in common.
apart_lt : (b c size j : ℕ) → b < c → j < size → b * size + j < c * size
apart_lt b c size j h hj =
    let m : suc b * size ≤ c * size = mul-le-mul_right size h in
    let e : suc b * size ≡ b * size + size = mul_suc b size in omega (arith, m, e, hj)

pub memcpy_in :
    (memory : ℕ → ℕ) (start : ℕ) (ptr : ℕ → ℕ) (count j : ℕ)
    → j < count
    → memcpy memory start ptr count (start + j) ≡ ptr j
unfolding memcpy
memcpy_in memory start ptr count j h =
    rw (le→leb start (start + j) (omega arith), lt→ltb (start + j) (start + count) (omega arith))
      (ap ptr (omega arith))

pub memcpy_before :
    (memory : ℕ → ℕ) (start : ℕ) (ptr : ℕ → ℕ) (count a : ℕ)
    → a < start
    → memcpy memory start ptr count a ≡ memory a
unfolding memcpy
memcpy_before memory start ptr count a h = rw (lt→leb start a h) refl

memcpy_after :
    (memory : ℕ → ℕ) (start : ℕ) (ptr : ℕ → ℕ) (count a : ℕ)
    → start + count ≤ a
    → memcpy memory start ptr count a ≡ memory a
unfolding memcpy
memcpy_after memory start ptr count a h =
    rw (le→leb start a (omega arith), le→ltb a (start + count) h) refl

beyond : (b c size count j : ℕ) → b < c → count ≤ size → b * size + count ≤ c * size + j
beyond b c size count j h hc =
    let m : suc b * size ≤ c * size = mul-le-mul_right size h in
    let e : suc b * size ≡ b * size + size = mul_suc b size in omega (arith, m, e, hc)

pub memcpy_elsewhere :
    (memory : ℕ → ℕ) (b c size : ℕ) (ptr : ℕ → ℕ) (count j : ℕ)
    → b ≢ c
    → j < size
    → count ≤ size
    → memcpy memory (b * size) ptr count (c * size + j) ≡ memory (c * size + j)
memcpy_elsewhere memory b c size ptr count j ne hj hc = elim (tri-cases b c) [
  | inl e ↦ absurd (ne (==→eq b c e))
  | inr (inl h) ↦
      memcpy_after memory (b * size) ptr count (c * size + j)
        (beyond b c size count j (ltb→lt b c h.1) hc)
  | inr (inr h) ↦
      memcpy_before memory (b * size) ptr count (c * size + j)
        (apart_lt c b size j (ne_ge→lt b c h.0 h.1) hj)
]

pub deal_inodes_lem :
    (n i : ℕ) (s : Pool) → i < n → ((deal_inodes n s).inode_table i).block_index ≡ i
unfolding deal_inodes
deal_inodes_lem zero i s h = absurd (omega arith)
deal_inodes_lem (suc n) i s h = elim (Bool-cases (n == i)) [
  | inl e ↦ rw (e) (==→eq n i e)
  | inr e ↦ rw (e) (deal_inodes_lem n i s (ground arith))
]

pub deal_inodes_max : (n : ℕ) (s : Pool) → (deal_inodes n s).max_inode_entry ≡ s.max_inode_entry
unfolding deal_inodes
deal_inodes_max zero s = refl
deal_inodes_max (suc n) s = deal_inodes_max n s

pub deal_volumes_max : (n : ℕ) (s : Pool) → (deal_volumes n s).max_inode_entry ≡ s.max_inode_entry
unfolding deal_volumes
deal_volumes_max zero s = refl
deal_volumes_max (suc n) s = deal_volumes_max n s

pub deal_volumes_lem :
    (n v : ℕ) (s : Pool)
    → v < n
    → ((deal_volumes n s).volume_table v).spare_block ≡ u32 (v + s.max_inode_entry)
unfolding deal_volumes
deal_volumes_lem zero v s h = absurd (omega arith)
deal_volumes_lem (suc n) v s h = elim (Bool-cases (n == v)) [
  | inl e ↦ rw (e) (ap u32 (ap₂ ◌+◌ (==→eq n v e) (deal_volumes_max n s)))
  | inr e ↦ rw (e) (deal_volumes_lem n v s (ground arith))
]
