-- ===== src/Buffer/First.antt =====
-- nvm_system_init (src/nvm0nvm.cc), and then the first nvm_durable_write (src/nvm0write.cc).
use autobahn_app.Prelude.{
  ℕ, ◌+◌, ◌*◌, ◌-◌, ◌^◌, ◌≤◌, ◌<◌, ◌≡◌, ◌≢◌, ◌∙◌, ap, inr, false, Option, some, length, arith,
}
use autobahn_app.HashList.{HashNode}
use autobahn_app.Hash.{CuckooMap}
use autobahn_app.Pool.{Pool}
use autobahn_app.Pool.Blocks.{IsDealt}
use autobahn_app.Pool.Start.{system_init}
use autobahn_app.Buffer.{Buffer, nvm_durable_write}
use autobahn_app.Buffer.Opened.{Opens}
use autobahn_app.Buffer.Rounds.{Done}
use autobahn_app.Buffer.Durable.{first_block, last_block, blocks, nvm_durable_write_lem}
use autobahn_app.Buffer.Started.{Started, system_init-Started}
use autobahn_app.Buffer.Start.{start, start-none, start-IsBuffer, start-Spare, Started-unknown}

module _ (cuckoo : CuckooMap) (nodes : ℕ → ℕ → HashNode)
    (free_nodes : (v n : ℕ) → (nodes v n).mutex ≡ false) where
  pub start-Opens :
      (s after : Pool) (open_file : ℕ → Option ℕ) (vid fd : ℕ)
      → Started s after
      → open_file vid ≡ some fd
      → vid ≢ 2 ^ 32 - 1
      → 0 < s.max_volume_entry
      → Opens cuckoo open_file vid 0 (start cuckoo nodes free_nodes after)
  start-Opens s after open_file vid fd t file ne pos = inr (
    Started-unknown s after vid t ne,
    (fd, file),
    t.first_free pos,
    omega (arith, ap length t.no_inuse, t.same_volumes, pos),
    λ lbn. start-none cuckoo nodes free_nodes after 0 lbn,
  )

  -- Whatever the queues and the states before, the start returns when each block has one owner, and a
  -- first write then returns `count`: blocks have 16384 bytes, there is an entry for the volume, whose
  -- id is not 2 ^ 32 - 1, and its file opens, the write has a byte, ends with its first block or after
  -- it and below 2 ^ 45, there are 100 inodes more than the write has blocks, twice as many as it has
  -- blocks, and at most 2 ^ 26. Each block of the write then holds, from where the write meets it, the
  -- first bytes of `buf`, counted from the start of the block: every block gets the same bytes.
  pub first_write_lem :
      (s : Pool) (open_file : ℕ → Option ℕ) (vid fd offset : ℕ) (buf : ℕ → ℕ) (count : ℕ)
      → IsDealt s
      → s.block_size ≡ 16384
      → 0 < s.max_volume_entry
      → s.max_inode_entry ≤ 2 ^ 26
      → open_file vid ≡ some fd
      → vid ≢ 2 ^ 32 - 1
      → (first_block offset + 1) * 16384 ≤ offset + count
      → 1 ≤ count
      → offset + count < 2 ^ 45
      → 100 + blocks offset count ≤ s.max_inode_entry
      → 2 * blocks offset count ≤ s.max_inode_entry
      → (started : Pool) × (after : Buffer cuckoo) × (system_init s ≡ some started)
        × (nvm_durable_write cuckoo open_file vid offset buf count
              (start cuckoo nodes free_nodes started)
            ≡ some (count, after))
        × Done cuckoo
            (start cuckoo nodes free_nodes started)
            0
            offset
            (offset + count)
            (first_block offset)
            (last_block offset count)
            buf
            after
  first_write_lem s open_file vid fd offset buf count d size pos narrow file ne reach one small
        enough half =
      let (started, init, t) = system_init-Started s in
      let b = start cuckoo nodes free_nodes started in
      let (after, done, all) =
        nvm_durable_write_lem cuckoo open_file vid 0 offset buf count b
          (start-IsBuffer cuckoo nodes free_nodes s started d t) (t.same_size ∙ size)
          (start-Opens s started open_file vid fd t file ne pos) one small reach
          (start-Spare cuckoo nodes free_nodes s started (blocks offset count) 0 t enough half
            narrow pos) in
      (started, after, init, done, all)
