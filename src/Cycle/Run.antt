-- ===== src/Cycle/Run.antt =====
-- The runs of the system from nvm_system_init (src/nvm0nvm.cc) on.
use autobahn_app.Prelude.{
  ◌≤◌, ◌^◌, some-inj, ℕ, ◌<◌, ◌≡◌, ◌∙◌, sym, subst, false, some, none, List, [], All,
}
use autobahn_app.HashList.{HashNode}
use autobahn_app.HashList.Chain.{Absent, Apart}
use autobahn_app.Hash.{CuckooMap}
use autobahn_app.Pool.{state_dirty, state_sync, Pool}
use autobahn_app.Pool.Blocks.{IsDealt}
use autobahn_app.Pool.Start.{system_init}
use autobahn_app.Buffer.{Buffer}
use autobahn_app.Buffer.Keeps.{dirty-ne-free}
use autobahn_app.Buffer.Started.{Started, system_init-Started}
use autobahn_app.Buffer.Start.{start, start-IsBuffer}
use autobahn_app.Cycle.Queues.{Queues}
use autobahn_app.Buffer.Wf.{In}
use autobahn_app.Cycle.Flow.{InLocked, IsFlow}
use autobahn_app.Cycle.System.{Event, Steps, Good, last_write, Shows, run_lem}

empty-Queues : (P : ℕ → Type 0) (q : ℕ → List ℕ) → ((k : ℕ) → q k ≡ []) → Queues P q
empty-Queues P q e = record {
  all = λ k. subst (All P) (sym (e k)) tt;
  once = λ k. subst Apart (sym (e k)) tt;
  one_queue = λ k l ne. subst (All (λ i. Absent i (q l))) (sym (e k)) tt;
}

Started-IsFlow : (s t : Pool) → Started s t → IsFlow t
Started-IsFlow s t st = record {
  dirty = empty-Queues (In t state_dirty) t.dirty_queue st.no_dirty;
  own = λ v. subst (All (λ i. (t.inode_table i).volume ≡ v)) (sym (st.no_dirty v)) tt;
  queued = λ i h. absurd (dirty-ne-free (sym h.1 ∙ st.free i (subst (λ n. i < n) st.same_max h.0)));
  hand = λ i h. absurd h;
  hand_left = λ i h. absurd h;
  sync = empty-Queues (InLocked t state_sync) t.sync_queue st.no_sync;
  clean = λ k. subst (All (λ i. i < t.max_inode_entry)) (sym (st.no_clean k)) tt;
}

module _ (cuckoo : CuckooMap) (nodes : ℕ → ℕ → HashNode)
    (free_nodes : (v n : ℕ) → (nodes v n).mutex ≡ false) where
  pub start-Good :
      (s t : Pool)
      → IsDealt s
      → s.max_inode_entry ≤ 2 ^ 26
      → Started s t
      → Good cuckoo (start cuckoo nodes free_nodes t)
  start-Good s t d small st = record {
    is = start-IsBuffer cuckoo nodes free_nodes s t d st;
    flow = Started-IsFlow s t st;
    indexed = subst (λ n. n ≤ 2 ^ 26) (sym st.same_max) small;
  }

  -- In a run from the start of a system in which each block has one owner and there are at most
  -- 2 ^ 26 inodes, the invariants hold at the end, and each block shows the bytes of the last write to it, unless it has left the buffer.
  -- The run may be any sequence of rounds of writers, each of a block at most, of calls of the
  -- background threads and of entries of volumes that are known and have a hash table, or new in an
  -- entry without a block.
  pub start_run_lem :
      (s started : Pool) (c : Buffer cuckoo) (es : List Event) (w m : ℕ)
      → IsDealt s
      → s.max_inode_entry ≤ 2 ^ 26
      → system_init s ≡ some started
      → Steps cuckoo (start cuckoo nodes free_nodes started) es c
      → Good cuckoo c × Shows cuckoo (last_write cuckoo w m es none) w m c
  start_run_lem s started c es w m d small init run =
      let (t, eq, st) = system_init-Started s in
      let good =
        subst (λ x. Good cuckoo (start cuckoo nodes free_nodes x)) (some-inj (sym eq ∙ init))
          (start-Good s t d small st) in
      run_lem cuckoo w m (start cuckoo nodes free_nodes started) c es none good tt run
