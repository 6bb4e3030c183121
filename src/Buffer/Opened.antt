-- ===== src/Buffer/Opened.antt =====
-- get_volume_entry_idx (src/nvm0volume.cc) at the start of a write: the buffer holds the same blocks
-- after it, with a new hash table for a new entry.
use autobahn_app.Prelude.{
  eq-or-ne, ℕ, ◌<◌, ◌≡◌, ◌⊎◌, ◌∙◌, refl, sym, ap, subst, inl, inr, true, Option, some, none, List,
  ◌∷◌, ◌++◌, [], length, lt→ltb,
}
use autobahn_app.LfQueue.{update}
use autobahn_app.Hash.{CuckooMap, HashTable, new_hash_table}
use autobahn_app.Hash.Lookup.{look, IsTable, new_hash_table-IsTable}
use autobahn_app.Pool.{Pool, Volume, block_data}
use autobahn_app.Pool.Blocks.{update_self, update_ne, update_field}
use autobahn_app.Pool.Volumes.{search_volume, get_volume_entry_idx, alloc_volume_entry_idx}
use autobahn_app.Buffer.{Buffer, open_volume}
use autobahn_app.Buffer.Wf.{Labelled}
use autobahn_app.Buffer.Held.{finder, IsBuffer}
use autobahn_app.Cycle.Flow.{IsFlow}
use autobahn_app.Buffer.Round.{byte_of, byte_at, Spare}

module _ (cuckoo : CuckooMap) where
  -- The entry of the volume: one that is known and has its hash table, or a free one that holds no
  -- block.
  abbrev pub Opens : (open_file : ℕ → Option ℕ) → (vid v : ℕ) → Buffer cuckoo → Type 0
  Opens open_file vid v b =
      ((search_volume b.pool.max_volume_entry 0 vid b.pool ≡ some v) × (b.linked v ≡ true))
      ⊎ ((search_volume b.pool.max_volume_entry 0 vid b.pool ≡ none)
          × ((fd : ℕ) × (open_file vid ≡ some fd))
          × ((rest : List ℕ) × (b.pool.volume_free ≡ v ∷ rest))
          × (length b.pool.volume_inuse < b.pool.max_volume_entry)
          × ((lbn : ℕ) → finder cuckoo b v lbn ≡ none))

  module _ (b : Buffer cuckoo) (is : IsBuffer cuckoo b) (v : ℕ) (table : HashTable cuckoo)
      (free inuse : List ℕ) (entries : ℕ → Volume) (is_table : IsTable cuckoo table)
      (same : (m : ℕ) → look cuckoo table m ≡ finder cuckoo b v m)
      (spares : (w : ℕ) → (entries w).spare_block ≡ (b.pool.volume_table w).spare_block) where
    abbrev pool : Pool
    pool = record (b.pool) { volume_free = free; volume_inuse = inuse; volume_table = entries }

    abbrev opened : Buffer cuckoo
    opened = record b {
      pool = pool;
      tables = update b.tables v table;
      linked = update b.linked v true;
    }

    linked_ok : (w : ℕ) → b.linked w ≡ true → opened.linked w ≡ true
    linked_ok w h = elim (eq-or-ne v w) [
      | inl e ↦ ap opened.linked (sym e) ∙ update_self b.linked v true
      | inr ne ↦ update_ne b.linked v true w ne ∙ h
    ]

    find_same : (w m : ℕ) → finder cuckoo opened w m ≡ finder cuckoo b w m
    find_same w m = elim (eq-or-ne v w) [
      | inl e ↦
          subst (λ x. finder cuckoo opened x m ≡ finder cuckoo b x m) e
            (ap (λ t. look cuckoo t m) (update_self b.tables v table) ∙ same m)
      | inr ne ↦ ap (λ t. look cuckoo t m) (update_ne b.tables v table w ne)
    ]

    tables_ok : (w : ℕ) → IsTable cuckoo (opened.tables w)
    tables_ok w = elim (eq-or-ne v w) [
      | inl e ↦
          subst (λ x. IsTable cuckoo (opened.tables x)) e
            (subst (IsTable cuckoo) (sym (update_self b.tables v table)) is_table)
      | inr ne ↦ subst (IsTable cuckoo) (sym (update_ne b.tables v table w ne)) (is.tables w)
    ]

    same_label : (w m i : ℕ) → Labelled b.pool w m i → Labelled pool w m i
    same_label w m i l = record {
      in_table = l.in_table;
      volume_in = l.volume_in;
      same_lbn = l.same_lbn;
      same_volume = l.same_volume;
    }

    pub opened-IsBuffer : IsBuffer cuckoo opened
    opened-IsBuffer = record {
      tables = tables_ok;
      linked = λ w m i h. linked_ok w (is.linked w m i (sym (find_same w m) ∙ h));
      wf = record {
        dealt = record {
          inodes_apart = is.wf.dealt.inodes_apart;
          volumes_apart = λ w u hw hu ne e.
              is.wf.dealt.volumes_apart w u hw hu ne (sym (spares w) ∙ e ∙ spares u);
          spare_apart = λ i w hi hw e. is.wf.dealt.spare_apart i w hi hw (e ∙ spares w);
        };
        labels = λ w m i h.
            let l = is.wf.labels w m i (sym (find_same w m) ∙ h) in (same_label w m i l.0, l.1);
        found = λ i hi used. find_same _ _ ∙ is.wf.found i hi used;
        free = is.wf.free;
        queued = is.wf.queued;
      };
    }

    same_byte : (o : Option ℕ) (j : ℕ) → byte_of pool o j ≡ byte_of b.pool o j
    unfolding block_data
    same_byte none j = refl
    same_byte (some i) j = refl

    pub opened-byte : (w m j : ℕ) → byte_at cuckoo opened w m j ≡ byte_at cuckoo b w m j
    opened-byte w m j =
        ap (λ o. byte_of pool o j) (find_same w m) ∙ same_byte (finder cuckoo b w m) j

    pub opened-IsFlow : IsFlow b.pool → IsFlow pool
    opened-IsFlow f = record {
      dirty = f.dirty;
      own = f.own;
      queued = f.queued;
      hand = f.hand;
      hand_left = f.hand_left;
      sync = f.sync;
      clean = f.clean;
    }

    pub opened-Spare : (n w : ℕ) → Spare cuckoo n w b → Spare cuckoo n w opened
    opened-Spare n w sp = record {
      count = sp.count;
      small = sp.small;
      queues = sp.queues;
      room = sp.room;
      unlocked = sp.unlocked;
      v_in = sp.v_in;
      indexed = sp.indexed;
    }

  -- The buffer with the entry.
  pub record Opened (open_file : ℕ → Option ℕ) (vid v : ℕ) (b after : Buffer cuckoo) : Type 0 where
    pub opens : open_volume cuckoo open_file vid b ≡ some (v, after)
    pub is : IsBuffer cuckoo after
    pub bytes : (w m j : ℕ) → byte_at cuckoo after w m j ≡ byte_at cuckoo b w m j
    pub same_size : after.pool.block_size ≡ b.pool.block_size
    pub same_max : after.pool.max_inode_entry ≡ b.pool.max_inode_entry
    pub linked : after.linked v ≡ true
    pub flow : IsFlow b.pool → IsFlow after.pool
    pub spare : (n w : ℕ) → Spare cuckoo n w b → Spare cuckoo n w after

  pub open_volume_lem :
      (open_file : ℕ → Option ℕ) (vid v : ℕ) (b : Buffer cuckoo)
      → IsBuffer cuckoo b
      → Opens open_file vid v b
      → (after : Buffer cuckoo) × Opened open_file vid v b after
  unfolding open_volume get_volume_entry_idx alloc_volume_entry_idx
  open_volume_lem open_file vid v b is (inl (known, linked)) =
      let s = b.pool in
      (
        opened b is v (b.tables v) s.volume_free s.volume_inuse s.volume_table (is.tables v)
            (λ m. refl) (λ w. refl),
        record {
          opens = rw (known) (rw (linked) refl);
          is =
              opened-IsBuffer b is v (b.tables v) s.volume_free s.volume_inuse s.volume_table
                (is.tables v) (λ m. refl) (λ w. refl);
          bytes =
              opened-byte b is v (b.tables v) s.volume_free s.volume_inuse s.volume_table
                (is.tables v) (λ m. refl) (λ w. refl);
          same_size = refl;
          same_max = refl;
          linked = update_self b.linked v true;
          spare =
              opened-Spare b is v (b.tables v) s.volume_free s.volume_inuse s.volume_table
                (is.tables v) (λ m. refl) (λ w. refl);
          flow =
              opened-IsFlow b is v (b.tables v) s.volume_free s.volume_inuse s.volume_table
                (is.tables v) (λ m. refl) (λ w. refl);
        },
      )
  open_volume_lem open_file vid v b is
        (inr (unknown, (fd, file), (rest, first), room, holds_none)) =
      let s = b.pool in
      let nodes = (b.tables v).list.nodes in
      let table = new_hash_table cuckoo nodes in
      let (is_table, looks) = new_hash_table-IsTable cuckoo nodes (is.tables v).unlocked in
      let inuse = s.volume_inuse ++ (v ∷ []) in
      let entry : Volume = record (s.volume_table v) { vid = vid; fd = fd } in
      let entries = update s.volume_table v entry in
      let same : (m : ℕ) → look cuckoo table m ≡ finder cuckoo b v m =
        λ m. looks m ∙ sym (holds_none m) in
      let spares : (w : ℕ) → (entries w).spare_block ≡ (s.volume_table w).spare_block =
        λ w. update_field (λ x. x.spare_block) s.volume_table v entry refl w in
      (
        opened b is v table rest inuse entries is_table same spares,
        record {
          opens = rw (unknown) (
              rw (first)
                (rw (file) (rw (lt→ltb (length s.volume_inuse) s.max_volume_entry room) refl)));
          is = opened-IsBuffer b is v table rest inuse entries is_table same spares;
          bytes = opened-byte b is v table rest inuse entries is_table same spares;
          same_size = refl;
          same_max = refl;
          linked = update_self b.linked v true;
          spare = opened-Spare b is v table rest inuse entries is_table same spares;
          flow = opened-IsFlow b is v table rest inuse entries is_table same spares;
        },
      )
