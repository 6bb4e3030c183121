-- ===== src/Buffer/Tests.antt =====
-- The theorems on the buffer, applied to a system of 300 inodes at its start, and to a buffer of four
-- inodes that holds one clean block.
use autobahn_app.Prelude.{
  ℕ, ◌+◌, ◌*◌, ◌-◌, ◌^◌, ◌≤◌, ◌<◌, ◌≡◌, ◌≢◌, refl, Option, some, none, arith,
}
use autobahn_app.Pool.{Pool, state_free}
use autobahn_app.Pool.Volumes.{search_volume}
use autobahn_app.Buffer.Opened.{Opens, Opened, open_volume_lem}
use autobahn_app.Pool.Start.{system_init}
use autobahn_app.Buffer.{Buffer, nvm_durable_write}
use autobahn_app.Buffer.Held.{IsBuffer}
use autobahn_app.Buffer.Round.{Round}
use autobahn_app.Buffer.Rounds.{Done}
use autobahn_app.Buffer.Durable.{first_block, last_block}
use autobahn_app.Buffer.Started.{Started, system_init-Started}
use autobahn_app.Buffer.Start.{start, start-IsBuffer, system_init-IsBuffer}
use autobahn_app.Buffer.First.{start-Opens, first_write_lem}
use autobahn_app.Buffer.Samples.{table_map, stores, system, system-IsDealt, text}

abbrev open_all : ℕ → Option ℕ
open_all vid = some (vid + 3)

vid-ok : 90 ≢ 2 ^ 32 - 1
vid-ok e = omega (arith, e)

reaches : (first_block 5 + 1) * 16384 ≤ 5 + 40000
reaches = omega arith

first_write_lem_example :
    (started : Pool) × (after : Buffer table_map) × (system_init (system 300) ≡ some started)
    × (nvm_durable_write table_map open_all 90 5 text 40000
          (start table_map stores (λ v n. refl) started)
        ≡ some (40000, after))
    × Done table_map
        (start table_map stores (λ v n. refl) started)
        0
        5
        (5 + 40000)
        (first_block 5)
        (last_block 5 40000)
        text
        after
first_write_lem_example =
    first_write_lem table_map stores (λ v n. refl) (system 300) open_all 90 93 5 text 40000
      (system-IsDealt 300) refl (omega arith) (omega arith) refl vid-ok reaches (omega arith)
      (omega arith) (omega arith) (omega arith)

-- The system of 300 inodes at its start.
abbrev started : Pool
started = (system_init-Started (system 300)).0

abbrev at_start : Started (system 300) started
at_start = (system_init-Started (system 300)).2

abbrev fresh : Buffer table_map
fresh = start table_map stores (λ v n. refl) started

fresh-IsBuffer : IsBuffer table_map fresh
fresh-IsBuffer =
    start-IsBuffer table_map stores (λ v n. refl) (system 300) started (system-IsDealt 300) at_start

fresh-Opens : Opens table_map open_all 90 0 fresh
fresh-Opens =
    start-Opens table_map stores (λ v n. refl) (system 300) started open_all 90 93 at_start refl
      vid-ok (omega arith)

-- The buffer after the entry of a volume is made.
abbrev ready : (after : Buffer table_map) × Opened table_map open_all 90 0 fresh after
ready = open_volume_lem table_map open_all 90 0 fresh fresh-IsBuffer fresh-Opens

system_init-IsBuffer_example :
    (after : Pool) × (system_init (system 300) ≡ some after)
    × IsBuffer table_map (start table_map stores (λ v n. refl) after)
    × ((i : ℕ) → i < 300 → (after.inode_table i).state ≡ state_free)
    × ((vid : ℕ) → vid ≢ 2 ^ 32 - 1 → search_volume after.max_volume_entry 0 vid after ≡ none)
system_init-IsBuffer_example =
    system_init-IsBuffer table_map stores (λ v n. refl) (system 300) (system-IsDealt 300)
