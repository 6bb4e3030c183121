-- ===== src/Pool/Volumes.antt =====
-- src/nvm0volume.cc: the entry of a volume, found by its id or taken from the free entries.
-- `open_file` stands for open(get_filename(vid)), with none for a failure, on which the code stops.
pub mod Lookup
use autobahn_app.Prelude.{ℕ, zero, suc, Option, none, some, ◌==◌, if◌then◌else◌, ◌>>=◌}
use autobahn_app.LfQueue.{update}
use autobahn_app.Pool.{Volume, Pool, push, pop}

-- The search from the index v_idx on; `n` entries are left.
unfoldable pub search_volume : (n v_idx vid : ℕ) → Pool → Option ℕ
search_volume zero v_idx vid s = none
search_volume (suc n) v_idx vid s =
    let rest = search_volume n (suc v_idx) vid s in
    if (s.volume_table v_idx).vid == vid then some v_idx else rest

-- The new hash table is not part of this state.
unfoldable pub alloc_volume_entry_idx :
    (open_file : ℕ → Option ℕ) → (vid : ℕ) → Pool → Option (ℕ × Pool)
alloc_volume_entry_idx open_file vid s = pop s.volume_free >>= λ taken. open_file vid >>= λ fd.
    let entry : Volume = record (s.volume_table taken.0) { vid = vid; fd = fd } in
    push s.max_volume_entry s.volume_inuse taken.0 >>= λ inuse. some (
      taken.0,
      record s {
        volume_free = taken.1;
        volume_inuse = inuse;
        volume_table = update s.volume_table taken.0 entry;
      },
    )

-- What follows the search, by its result.
abbrev pub found_or_alloc :
    (open_file : ℕ → Option ℕ) → (vid : ℕ) → Pool → Option ℕ → Option (ℕ × Pool)
found_or_alloc open_file vid s (some v_idx) = some (v_idx, s)
found_or_alloc open_file vid s none = alloc_volume_entry_idx open_file vid s

unfoldable pub get_volume_entry_idx :
    (open_file : ℕ → Option ℕ) → (vid : ℕ) → Pool → Option (ℕ × Pool)
get_volume_entry_idx open_file vid s =
    found_or_alloc open_file vid s (search_volume s.max_volume_entry 0 vid s)
