-- ===== src/Cycle/Tests.antt =====
-- The theorems on the runs of the system, applied to a system of 300 inodes: a write of a block, and
-- then a balloon thread.
use autobahn_app.Prelude.{ℕ, ◌+◌, ◌^◌, ◌-◌, ◌≢◌, ◌≡◌, refl, Option, some, none, [], ◌∷◌, arith}
use autobahn_app.Buffer.Opened.{Opens, Opened, open_volume_lem}
use autobahn_app.Buffer.First.{start-Opens}
use autobahn_app.Pool.{Pool}
use autobahn_app.Buffer.{Buffer}
use autobahn_app.Buffer.Round.{write_round_lem}
use autobahn_app.Buffer.Balloon.{fill_free_inodes_lem}
use autobahn_app.Buffer.Started.{Started, system_init-Started}
use autobahn_app.Buffer.Start.{start, start-Spare}
use autobahn_app.Buffer.Samples.{table_map, stores, system, system-IsDealt, text}
use autobahn_app.Cycle.System.{
  wrote, quiet, Step, write_step, balloon_step, open_step, done, more, Good, Allowed, Shows,
  last_write, step_lem,
}
use autobahn_app.Cycle.Run.{start-Good, start_run_lem}

abbrev started : Pool
started = (system_init-Started (system 300)).0

abbrev at_start : Started (system 300) started
at_start = (system_init-Started (system 300)).2

abbrev fresh : Buffer table_map
fresh = start table_map stores (λ v n. refl) started

fresh-Good : Good table_map fresh
fresh-Good =
    start-Good table_map stores (λ v n. refl) (system 300) started (system-IsDealt 300)
      (omega arith) at_start

abbrev open_all : ℕ → Option ℕ
open_all vid = some (vid + 3)

vid-ok : 90 ≢ 2 ^ 32 - 1
vid-ok e = omega (arith, e)

fresh-Opens : Opens table_map open_all 90 0 fresh
fresh-Opens =
    start-Opens table_map stores (λ v n. refl) (system 300) started open_all 90 93 at_start refl
      vid-ok (omega arith)

abbrev ready : (after : Buffer table_map) × Opened table_map open_all 90 0 fresh after
ready = open_volume_lem table_map open_all 90 0 fresh fresh-Good.is fresh-Opens

opening : Step table_map fresh quiet ready.0
opening = open_step fresh ready.0 open_all 90 0 fresh-Opens ready.1.opens

ready-Good : Good table_map ready.0
ready-Good = (step_lem table_map fresh ready.0 quiet fresh-Good opening).0

abbrev written : (next : Buffer table_map) × Step table_map ready.0 (wrote 0 7 text 100) next
written =
    let spare =
      start-Spare table_map stores (λ v n. refl) (system 300) started 4 0 at_start (omega arith)
        (omega arith) (omega arith) (omega arith) in
    let (next, eq, r) =
      write_round_lem table_map ready.0 3 0 7 5 text 100 ready.1.is ready.1.linked
        (ready.1.spare 4 0 spare) (omega (arith, ready.1.same_size, at_start.same_size)) in
    (
      next,
      write_step ready.0 next 0 7 5 text 100 (ready.1.spare 4 0 spare).v_in
          (omega (arith, ready.1.same_size, at_start.same_size)) eq,
    )

step_lem_example :
    Good table_map written.0
    × Allowed table_map (wrote 0 7 text 100) ready.0 written.0
    × (written.0.pool.block_size ≡ ready.0.pool.block_size)
step_lem_example = step_lem table_map ready.0 written.0 (wrote 0 7 text 100) ready-Good written.1

written-Good : Good table_map written.0
written-Good = (step_lem table_map ready.0 written.0 (wrote 0 7 text 100) ready-Good written.1).0

abbrev ballooned : (next : Buffer table_map) × Step table_map written.0 quiet next
ballooned =
    let (next, eq, e) =
      fill_free_inodes_lem table_map 0 written.0 written-Good.is (written-Good.flow.clean 0) in
    (next, balloon_step written.0 next 0 eq)

start_run_lem_example :
    Good table_map ballooned.0
    × Shows table_map
        (last_write table_map 0 7 (quiet ∷ wrote 0 7 text 100 ∷ quiet ∷ []) none)
        0
        7
        ballooned.0
start_run_lem_example =
    start_run_lem table_map stores (λ v n. refl) (system 300) started ballooned.0
      (quiet ∷ wrote 0 7 text 100 ∷ quiet ∷ []) 0 7 (system-IsDealt 300) (omega arith)
      (system_init-Started (system 300)).1
      (more fresh ready.0 ballooned.0 quiet (wrote 0 7 text 100 ∷ quiet ∷ []) opening (
        more ready.0 written.0 ballooned.0 (wrote 0 7 text 100) (quiet ∷ []) written.1
          (more written.0 ballooned.0 ballooned.0 quiet [] ballooned.1 (done ballooned.0))))
