-- ===== src/Buffer/Start.antt =====
-- nvm_system_init (src/nvm0nvm.cc) as the start of a buffer: no volume is known, and there are free
-- inodes for the first writes.
use autobahn_app.Buffer.Started.{Started, system_init-Started}
use autobahn_app.Prelude.{
  test_of_ne, none-some, ℕ, zero, suc, ◌+◌, ◌*◌, ◌-◌, ◌%◌, ◌^◌, ◌≤◌, ◌<◌, ◌≡◌, ◌≢◌, ◌∙◌, refl, sym,
  ap, subst, some, none, false, length, All-imp, arith,
}
use autobahn_app.HashList.{HashNode}
use autobahn_app.Hash.{CuckooMap, new_hash_table}
use autobahn_app.Hash.Lookup.{new_hash_table-IsTable}
use autobahn_app.Pool.{state_free, Pool}
use autobahn_app.Pool.Blocks.{IsDealt}
use autobahn_app.Pool.Volumes.{search_volume}
use autobahn_app.Pool.Start.{system_init}
use autobahn_app.Buffer.{Buffer}
use autobahn_app.Buffer.Keeps.{dirty-ne-free}
use autobahn_app.Buffer.Held.{finder, IsBuffer}
use autobahn_app.Buffer.Round.{Spare}

search_volume-none :
    (n v vid : ℕ) (s : Pool)
    → ((w : ℕ) → w < v + n → (s.volume_table w).vid ≢ vid)
    → search_volume n v vid s ≡ none
unfolding search_volume
search_volume-none zero v vid s h = refl
search_volume-none (suc n) v vid s h =
    rw (test_of_ne (s.volume_table v).vid vid (h v (omega arith)))
      (search_volume-none n (suc v) vid s (λ w k. h w (omega (arith, k))))

-- No entry has a volume at the start.
pub Started-unknown :
    (s after : Pool) (vid : ℕ)
    → Started s after
    → vid ≢ 2 ^ 32 - 1
    → search_volume after.max_volume_entry 0 vid after ≡ none
Started-unknown s after vid t ne =
    search_volume-none after.max_volume_entry 0 vid after
      (λ w h e. ne (sym e ∙ t.free_vids w (omega (arith, h, t.same_volumes))))

module _ (cuckoo : CuckooMap) (nodes : ℕ → ℕ → HashNode)
    (free_nodes : (v n : ℕ) → (nodes v n).mutex ≡ false) where
  -- The buffer of the start: no entry has a hash table yet, so no operation reads the tables here. The
  -- stores of their nodes hold what the memory holds before.
  abbrev pub start : Pool → Buffer cuckoo
  start s = record {
    pool = s;
    tables = λ v. new_hash_table cuckoo (nodes v);
    linked = λ v. false;
    free_enqueue_idx = 0;
  }

  pub start-none : (s : Pool) (v lbn : ℕ) → finder cuckoo (start s) v lbn ≡ none
  start-none s v lbn = (new_hash_table-IsTable cuckoo (nodes v) (free_nodes v)).1 lbn

  pub start-IsBuffer :
      (s after : Pool) → IsDealt s → Started s after → IsBuffer cuckoo (start after)
  start-IsBuffer s after d t = record {
    tables = λ v. (new_hash_table-IsTable cuckoo (nodes v) (free_nodes v)).0;
    linked = λ v lbn i h. absurd (none-some (sym (start-none after v lbn) ∙ h));
    wf = record {
      dealt = t.dealt d;
      labels = λ v lbn i h. absurd (none-some (sym (start-none after v lbn) ∙ h));
      found = λ i hi used. absurd (used (t.free i (subst (λ n. i < n) t.same_max hi)));
      free = record {
        all = λ k.
            All-imp (after.free_queue k)
              (λ i h. (subst (λ n. i < n) (sym t.same_max) h.0, t.free i h.0)) (t.own_queue k);
        once = t.once;
        one_queue = λ k l ne.
            All-imp (after.free_queue k)
              (λ i h.
                All-imp (after.free_queue l) (λ j g e. ne (sym h.1 ∙ ap (λ x. x % 2) e ∙ g.1))
                  (t.own_queue l))
              (t.own_queue k);
      };
      queued =
          λ i hi q. absurd (dirty-ne-free (sym q ∙ t.free i (subst (λ n. i < n) t.same_max hi)));
    };
  }

  pub start-Spare :
      (s after : Pool) (n v : ℕ)
      → Started s after
      → 100 + n ≤ s.max_inode_entry
      → 2 * n ≤ s.max_inode_entry
      → s.max_inode_entry ≤ 2 ^ 26
      → v < s.max_volume_entry
      → Spare cuckoo n v (start after)
  start-Spare s after n v t enough half small v_in = record {
    count = omega (arith, t.same_count, enough);
    small = omega (arith, t.same_count, small);
    queues = λ k hk. omega (arith, t.long k hk, half);
    room = omega (arith, ap length (t.no_dirty v), t.same_max, enough);
    unlocked = λ i hi. t.unlocked i (subst (λ n. i < n) t.same_max hi);
    v_in = subst (λ n. v < n) (sym t.same_volumes) v_in;
    indexed = omega (arith, t.same_max, small);
  }

  -- When each block has one owner, the start returns a buffer that keeps the invariant, in which
  -- every inode is free, and a search finds an entry for no volume id but 2 ^ 32 - 1, which marks the
  -- free entries.
  pub system_init-IsBuffer :
      (s : Pool)
      → IsDealt s
      → (after : Pool) × (system_init s ≡ some after)
        × IsBuffer cuckoo (start after)
        × ((i : ℕ) → i < s.max_inode_entry → (after.inode_table i).state ≡ state_free)
        × ((vid : ℕ) → vid ≢ 2 ^ 32 - 1 → search_volume after.max_volume_entry 0 vid after ≡ none)
  system_init-IsBuffer s d =
      let (after, eq, t) = system_init-Started s in
      (after, eq, start-IsBuffer s after d t, t.free, λ vid ne. Started-unknown s after vid t ne)
