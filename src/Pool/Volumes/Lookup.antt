-- ===== src/Pool/Volumes/Lookup.antt =====
-- get_volume_entry_idx of src/nvm0volume.cc answers an entry with the id, and keeps it.
use autobahn_app.Prelude.{
  ℕ, zero, suc, ◌+◌, ◌≤◌, ◌<◌, ◌≡◌, ◌≢◌, true, false, ◌⊎◌, ◌∙◌, refl, sym, ap, subst, inl, inr,
  some, none, Option, List, [], ◌∷◌, ◌++◌, length, ◌==◌, Bool-cases, ==_refl, ==_iff, ==→eq, lt→ltb,
  arith,
}
use autobahn_app.LfQueue.{update}
use autobahn_app.Pool.{Pool}
use autobahn_app.Pool.Volumes.{
  search_volume, found_or_alloc, alloc_volume_entry_idx, get_volume_entry_idx,
}

true-ne-false : true ≢ false
true-ne-false e = cc

first_or_later : (a b : ℕ) → a ≤ b → (a ≡ b) ⊎ (suc a ≤ b)
first_or_later a b h = ground arith

abbrev Found : (n v_idx vid : ℕ) → Pool → Type 0
Found n v_idx vid s =
    (v : ℕ) × (search_volume n v_idx vid s ≡ some v)
    × ((s.volume_table v).vid ≡ vid)
    × (v < v_idx + n)

-- The search fails only when no entry in its range has the id.
search_volume-cases :
    (n v_idx vid : ℕ) (s : Pool)
    → Found n v_idx vid s
      ⊎ ((search_volume n v_idx vid s ≡ none)
          × ((v : ℕ) → v_idx ≤ v → v < v_idx + n → ((s.volume_table v).vid == vid) ≡ false))
unfolding search_volume
search_volume-cases zero v_idx vid s = inr (refl, λ v h k. absurd (omega arith))
search_volume-cases (suc n) v_idx vid s = elim (Bool-cases ((s.volume_table v_idx).vid == vid)) [
  | inl e ↦ inl (v_idx, rw (e) refl, ==→eq _ _ e, omega arith)
  | inr e ↦ elim (search_volume-cases n (suc v_idx) vid s) [
    | inl (v, eq, same, h) ↦ inl (v, rw (e) eq, same, omega (arith, h))
    | inr (eq, absent) ↦ inr (
      rw (e) eq,
      λ v h k. elim (first_or_later v_idx v h) [
        | inl q ↦ subst (λ j. ((s.volume_table j).vid == vid) ≡ false) q e
        | inr q ↦ absent v q (omega (arith, k))
      ],
    )
  ]
]

-- An entry with the id is found, whichever comes first.
search_volume-finds :
    (n vid v : ℕ) (s : Pool) → v < n → (s.volume_table v).vid ≡ vid → Found n 0 vid s
search_volume-finds n vid v s h same = elim (search_volume-cases n 0 vid s) [
  | inl found ↦ found
  | inr (eq, absent) ↦ absurd (
      true-ne-false (
        sym ((==_iff (s.volume_table v).vid vid).1 same)
        ∙ absent v (omega arith) (omega (arith, h))))
]

alloc_lem :
    (open_file : ℕ → Option ℕ) (vid fd v : ℕ) (rest : List ℕ) (s : Pool)
    → s.volume_free ≡ v ∷ rest
    → open_file vid ≡ some fd
    → length s.volume_inuse < s.max_volume_entry
    → (after : Pool) × (alloc_volume_entry_idx open_file vid s ≡ some (v, after))
      × ((after.volume_table v).vid ≡ vid)
      × (after.max_volume_entry ≡ s.max_volume_entry)
unfolding alloc_volume_entry_idx
alloc_lem open_file vid fd v rest s q o room = (
  record s {
    volume_free = rest;
    volume_inuse = s.volume_inuse ++ (v ∷ []);
    volume_table = update s.volume_table v (record (s.volume_table v) { vid = vid; fd = fd });
  },
  rw (q) (rw (o, lt→ltb (length s.volume_inuse) s.max_volume_entry room) refl),
  rw (==_refl v) refl,
  refl,
)

-- When an entry is free, the system opens the file and the queue of entries in use has room, a call
-- returns an entry with the id, and a call for the same id in the state that it leaves finds one
-- and changes nothing.
pub get_volume_lem :
    (open_file : ℕ → Option ℕ) (vid fd free : ℕ) (rest : List ℕ) (s : Pool)
    → s.volume_free ≡ free ∷ rest
    → free < s.max_volume_entry
    → open_file vid ≡ some fd
    → length s.volume_inuse < s.max_volume_entry
    → (v : ℕ) × (after : Pool) × (get_volume_entry_idx open_file vid s ≡ some (v, after))
      × ((after.volume_table v).vid ≡ vid)
      × (v < s.max_volume_entry)
      × ((again : ℕ) × (get_volume_entry_idx open_file vid after ≡ some (again, after))
          × ((after.volume_table again).vid ≡ vid))
unfolding get_volume_entry_idx
get_volume_lem open_file vid fd free rest s q h o room =
    elim (search_volume-cases s.max_volume_entry 0 vid s) [
      | inl (v, eq, same, k) ↦
          let known = ap (found_or_alloc open_file vid s) eq in
          (v, s, known, same, omega (arith, k), (v, known, same))
      | inr (eq, absent) ↦
          let (after, done, same, max) = alloc_lem open_file vid fd free rest s q o room in
          let (again, found, right, k) =
            search_volume-finds after.max_volume_entry vid free after (rw (max) h) same in
          (
            free,
            after,
            ap (found_or_alloc open_file vid s) eq ∙ done,
            same,
            h,
            (again, ap (found_or_alloc open_file vid after) found, right),
          )
    ]
