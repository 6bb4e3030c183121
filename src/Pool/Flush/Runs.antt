-- ===== src/Pool/Flush/Runs.antt =====
-- The batches of nvm_flush (src/nvm0flush.cc) are the longest runs of consecutive block numbers.
use autobahn_app.Prelude.{
  ℕ, ◌+◌, ◌≡◌, ◌≢◌, refl, ap, inl, inr, List, [], ◌∷◌, ◌++◌, ◌==◌, Bool-cases, ==→eq, ne_of_test,
}
use autobahn_app.LfQueue.{u32}
use autobahn_app.Pool.{Pool}
use autobahn_app.Pool.Flush.{look_ahead}

-- The block numbers go up by one from the one after `lbn`.
abbrev pub Consecutive : Pool → ℕ → List ℕ → Type 0
Consecutive s lbn [] = Unit
Consecutive s lbn (idx ∷ idxs) =
    ((s.inode_table idx).lbn ≡ u32 (lbn + 1)) × Consecutive s (s.inode_table idx).lbn idxs

-- The block number that a run after `lbn` ends with.
abbrev pub last_lbn : Pool → ℕ → List ℕ → ℕ
last_lbn s lbn [] = lbn
last_lbn s lbn (idx ∷ idxs) = last_lbn s (s.inode_table idx).lbn idxs

-- The list does not go on with the block number after `lbn`.
abbrev pub Breaks : Pool → ℕ → List ℕ → Type 0
Breaks s lbn [] = Unit
Breaks s lbn (idx ∷ idxs) = (s.inode_table idx).lbn ≢ u32 (lbn + 1)

-- The look-ahead splits the inodes, in their order, into the longest run of consecutive block
-- numbers after the current one and the rest.
pub look_ahead_lem :
    (s : Pool) (lbn : ℕ) (idxs : List ℕ)
    → ((look_ahead s lbn idxs).0 ++ (look_ahead s lbn idxs).1 ≡ idxs)
      × Consecutive s lbn (look_ahead s lbn idxs).0
      × Breaks s (last_lbn s lbn (look_ahead s lbn idxs).0) (look_ahead s lbn idxs).1
unfolding look_ahead
look_ahead_lem s lbn [] = (refl, tt, tt)
look_ahead_lem s lbn (idx ∷ idxs) =
    let (whole, up, stop) = look_ahead_lem s (s.inode_table idx).lbn idxs in
    elim (Bool-cases ((s.inode_table idx).lbn == u32 (lbn + 1))) [
      | inl e ↦ rw (e) (ap (λ l. idx ∷ l) whole, (==→eq _ _ e, up), stop)
      | inr e ↦ rw (e) (refl, tt, ne_of_test _ _ e)
    ]
