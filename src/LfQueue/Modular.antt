-- ===== src/LfQueue/Modular.antt =====
-- Tickets of include/nvm0lfqueue.h that share a slot lie a whole capacity apart.
use native.Mathlib.Nat.{div-add-mod}
use autobahn_app.Prelude.{ℕ, ◌+◌, ◌%◌, ◌≤◌, ◌<◌, ◌≡◌, ◌≢◌, arith}

pub mod_gap : (a b m : ℕ) → a % m ≡ b % m → a < b → a + m ≤ b
mod_gap a b m e h = grind (arith, div-add-mod a m, div-add-mod b m)

pub mod_ne : (a b m : ℕ) → a < b → b < a + m → a % m ≢ b % m
mod_ne a b m h k e = omega (arith, mod_gap a b m e h)
