-- ===== src/Pool/Recovery/Correct.antt =====
-- recovery_start of src/nvm0nvm.cc writes every block that the storage lacks, and then no inode
-- is marked for writing.
use autobahn_app.Prelude.{
  Bool, ◌*◌, ◌%◌, ◌^◌, ℕ, ◌⊎◌, zero, suc, ◌+◌, ◌≤◌, ◌<◌, ◌≡◌, ◌≢◌, ◌∙◌, refl, sym, ap, subst, inl,
  inr, true, false, List, [], ◌∷◌, ◌++◌, append_assoc, append-nil, if◌then◌else◌, Bool-cases,
  ==_refl, test_of_ne, arith,
}
use autobahn_app.Pool.{
  InodeState, state_free, state_dirty, state_sync, state_clean, Pool, write_at, Io, sync_all,
  block_data,
}
use autobahn_app.Pool.Recovery.{
  needs_write, recovery_write, write_one, write_loop, clean_one, clean_loop, sync_and_clean,
  recovery_start,
}

abbrev pub cleaned : InodeState → InodeState
cleaned st = if needs_write st then state_clean else st

at_or_above : (a b : ℕ) → a ≤ b → (a ≡ b) ⊎ (suc a ≤ b)
at_or_above a b h = ground arith

true-ne-false : true ≢ false
true-ne-false e = cc

-- An inode whose block the storage may lack is dirty, or was on its way to a sync.
abbrev pub is_due : InodeState → Bool
is_due state_free = false
is_due state_dirty = true
is_due state_sync = true
is_due state_clean = false

pub needs_write-is_due : (st : InodeState) → needs_write st ≡ is_due st
needs_write-is_due state_free = refl
needs_write-is_due state_dirty = refl
needs_write-is_due state_sync = refl
needs_write-is_due state_clean = refl

-- The write of the block of an inode to the file of its volume.
abbrev pub storage_write : (open_file : ℕ → ℕ) → Pool → ℕ → Io
storage_write open_file s i =
    let inode = s.inode_table i in
    write_at (open_file (s.volume_table inode.volume).vid) (s.block_size * inode.lbn % 2 ^ 32)
      (block_data s inode.block_index ∷ [])

-- The writes of the inodes that are due, in the order of the table: of `n` inodes from idx on.
unfoldable pub due_writes : (due : ℕ → Bool) → (write : ℕ → Io) → (n idx : ℕ) → List Io
due_writes due write zero idx = []
due_writes due write (suc n) idx =
    let rest = due_writes due write n (suc idx) in if due idx then write idx ∷ rest else rest

abbrev pub due_of : Pool → ℕ → Bool
due_of s i = is_due (s.inode_table i).state

write_one-cases :
    (open_file : ℕ → ℕ) (idx : ℕ) (s : Pool)
    → ((needs_write (s.inode_table idx).state ≡ true)
        × (write_one open_file idx s
            ≡ record s { io = s.io ++ (recovery_write open_file s idx ∷ []) }))
      ⊎ ((needs_write (s.inode_table idx).state ≡ false) × (write_one open_file idx s ≡ s))
unfolding write_one
write_one-cases open_file idx s = elim (Bool-cases (needs_write (s.inode_table idx).state)) [
  | inl e ↦ inl (e, rw (e) refl)
  | inr e ↦ inr (e, rw (e) refl)
]

-- The first loop makes the writes that are due, and no other call.
write_loop-due_writes :
    (open_file : ℕ → ℕ) (n idx : ℕ) (s : Pool)
    → write_loop open_file n idx s
      ≡ record s { io = s.io ++ due_writes (due_of s) (storage_write open_file s) n idx }
unfolding write_loop recovery_write block_data due_writes
write_loop-due_writes open_file zero idx s = ap (λ l. record s { io = l }) (sym (append-nil s.io))
write_loop-due_writes open_file (suc n) idx s =
    let rest = due_writes (due_of s) (storage_write open_file s) n (suc idx) in
    let x = storage_write open_file s idx in
    elim (write_one-cases open_file idx s) [
      | inl e ↦
          ap (write_loop open_file n (suc idx)) e.1
          ∙ write_loop-due_writes open_file n (suc idx) (record s { io = s.io ++ (x ∷ []) })
          ∙ ap (λ l. record s { io = l })
              (append_assoc s.io (x ∷ []) rest
                ∙ ap (λ t. s.io ++ (if t then x ∷ rest else rest))
                    (sym e.0 ∙ needs_write-is_due (s.inode_table idx).state))
      | inr e ↦
          ap (write_loop open_file n (suc idx)) e.1
          ∙ write_loop-due_writes open_file n (suc idx) s
          ∙ ap (λ t. record s { io = s.io ++ (if t then x ∷ rest else rest) })
              (sym e.0 ∙ needs_write-is_due (s.inode_table idx).state)
    ]

clean_one-io : (idx : ℕ) (s : Pool) → (clean_one idx s).io ≡ s.io
unfolding clean_one
clean_one-io idx s = elim (Bool-cases (needs_write (s.inode_table idx).state)) [
  | inl e ↦ rw (e) refl
  | inr e ↦ rw (e) refl
]

clean_one-other :
    (idx : ℕ) (s : Pool) (i : ℕ) → idx ≢ i → (clean_one idx s).inode_table i ≡ s.inode_table i
unfolding clean_one
clean_one-other idx s i h = elim (Bool-cases (needs_write (s.inode_table idx).state)) [
  | inl e ↦ rw (e, test_of_ne idx i h) refl
  | inr e ↦ rw (e) refl
]

clean_one-state :
    (idx : ℕ) (s : Pool)
    → ((clean_one idx s).inode_table idx).state ≡ cleaned (s.inode_table idx).state
unfolding clean_one
clean_one-state idx s = elim (Bool-cases (needs_write (s.inode_table idx).state)) [
  | inl e ↦ rw (e, ==_refl idx) refl
  | inr e ↦ rw (e) refl
]

pub clean_loop-io : (n idx : ℕ) (s : Pool) → (clean_loop n idx s).io ≡ s.io
unfolding clean_loop
clean_loop-io zero idx s = refl
clean_loop-io (suc n) idx s = clean_loop-io n (suc idx) (clean_one idx s) ∙ clean_one-io idx s

clean_one-dirty_queue : (idx : ℕ) (s : Pool) → (clean_one idx s).dirty_queue ≡ s.dirty_queue
unfolding clean_one
clean_one-dirty_queue idx s = elim (Bool-cases (needs_write (s.inode_table idx).state)) [
  | inl e ↦ rw (e) refl
  | inr e ↦ rw (e) refl
]

pub clean_loop-dirty_queue :
    (n idx : ℕ) (s : Pool) → (clean_loop n idx s).dirty_queue ≡ s.dirty_queue
unfolding clean_loop
clean_loop-dirty_queue zero idx s = refl
clean_loop-dirty_queue (suc n) idx s =
    clean_loop-dirty_queue n (suc idx) (clean_one idx s) ∙ clean_one-dirty_queue idx s

clean_loop-below :
    (n idx : ℕ) (s : Pool) (i : ℕ) → i < idx → (clean_loop n idx s).inode_table i ≡ s.inode_table i
unfolding clean_loop
clean_loop-below zero idx s i h = refl
clean_loop-below (suc n) idx s i h =
    clean_loop-below n (suc idx) (clean_one idx s) i (omega arith)
    ∙ clean_one-other idx s i (omega arith)

pub clean_loop-state :
    (n idx : ℕ) (s : Pool) (i : ℕ)
    → idx ≤ i
    → i < idx + n
    → ((clean_loop n idx s).inode_table i).state ≡ cleaned (s.inode_table i).state
unfolding clean_loop
clean_loop-state zero idx s i h k = absurd (omega arith)
clean_loop-state (suc n) idx s i h k = elim (at_or_above idx i h) [
  | inl q ↦
      subst
        (λ j.
          ((clean_loop n (suc idx) (clean_one idx s)).inode_table j).state
          ≡ cleaned (s.inode_table j).state)
        q
        (ap (λ x. x.state) (clean_loop-below n (suc idx) (clean_one idx s) idx (omega arith))
          ∙ clean_one-state idx s)
  | inr q ↦
      clean_loop-state n (suc idx) (clean_one idx s) i q (omega arith)
      ∙ ap (λ x. cleaned x.state) (clean_one-other idx s i (omega arith))
]

-- Recovery makes the calls of the storage, and then marks. The calls are exactly these, in this
-- order: for each inode of the table that is dirty or sync, and for no other, a write of its block, at
-- the byte offset of its block number, which has 32 bits, in the file opened for its volume; and then
-- two sync(). Afterwards each such inode is clean, and any other has the state that it had.
pub recovery_start_lem :
    (open_file : ℕ → ℕ) (s : Pool)
    → ((recovery_start open_file s).io
        ≡ s.io
          ++ due_writes (due_of s) (storage_write open_file s) s.max_inode_entry 0
          ++ (sync_all ∷ sync_all ∷ []))
      × ((i : ℕ)
          → i < s.max_inode_entry
          → ((recovery_start open_file s).inode_table i).state
            ≡ (if is_due (s.inode_table i).state then state_clean else (s.inode_table i).state))
unfolding recovery_start sync_and_clean
recovery_start_lem open_file s =
    let w = due_writes (due_of s) (storage_write open_file s) s.max_inode_entry 0 in
    let synced : Pool = record s { io = s.io ++ w ++ (sync_all ∷ sync_all ∷ []) } in
    let same = ap sync_and_clean (write_loop-due_writes open_file s.max_inode_entry 0 s) in
    (
      ap (λ x. x.io) same ∙ clean_loop-io s.max_inode_entry 0 synced,
      λ i h.
          let st = (s.inode_table i).state in
          ap (λ x. (x.inode_table i).state) same
          ∙ clean_loop-state s.max_inode_entry 0 synced i (omega arith) (omega (arith, h))
          ∙ ap (λ t. if t then state_clean else st) (needs_write-is_due st),
    )
