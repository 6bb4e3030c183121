-- ===== src/LfQueue/Fifo.antt =====
-- A queue of include/nvm0lfqueue.h whose methods run one after the other is a bounded FIFO.
use native.Mathlib.Nat.{add-mod_right, mod-eq_of_lt}
use autobahn_app.Prelude.{
  ℕ, zero, suc, ◌+◌, ◌-◌, ◌%◌, ◌^◌, ◌≤◌, ◌<◌, ◌≡◌, ◌≢◌, ◌∙◌, refl, sym, ap, ap₂, List, [], ◌∷◌,
  ◌++◌, arith, ◌==◌, ==_iff, ==_refl, ==→eq, ne_of_test, test_of_ne, if◌then◌else◌, length, inl,
  inr, Bool-cases,
}
use autobahn_app.LfQueue.{Queue, returned, gave_up, spins, u64, update, enqueue, dequeue}
use autobahn_app.LfQueue.Modular.{mod_ne}

-- The values at `n` tickets from `t` on.
abbrev pub from : (ℕ → ℕ) → ℕ → ℕ → ℕ → List ℕ
from values cap t zero = []
from values cap t (suc n) = values (t % cap) ∷ from values cap (suc t) n

-- What has been put in and not taken out, oldest first.
abbrev pub contents : Queue → List ℕ
contents q = from q.values q.capacity (suc q.c_count) (q.p_count - q.c_count)

-- Between calls every ticket up to `p_count` is published, and every ticket up to `c_count` is
-- released. The counters are far from 2^64.
pub record IsValid (q : Queue) : Type 0 where
  pub some_room : 0 < q.capacity
  pub order : q.c_count ≤ q.p_count
  pub room : q.p_count ≤ q.c_count + q.capacity
  pub used :
      (t : ℕ)
      → q.c_count < t
      → t ≤ q.p_count
      → (q.p_counts (t % q.capacity) ≡ t) × (q.c_counts (t % q.capacity) ≡ t)
  pub unused :
      (t : ℕ)
      → q.p_count < t
      → t ≤ q.c_count + q.capacity
      → (q.c_counts (t % q.capacity) ≡ t) × (q.p_counts (t % q.capacity) + q.capacity ≡ t)

-- The next tickets do not wrap.
abbrev pub InRange : Queue → Type 0
InRange q = q.c_count + q.capacity + q.capacity + 2 < 2 ^ 64

pub length-from : (v : ℕ → ℕ) (cap t n : ℕ) → length (from v cap t n) ≡ n
length-from v cap t zero = refl
length-from v cap t (suc n) = ap suc (length-from v cap (suc t) n)

pub length-contents : (q : Queue) → length (contents q) ≡ q.p_count - q.c_count
length-contents q = length-from q.values q.capacity (suc q.c_count) (q.p_count - q.c_count)

update_self {ℓ} : {A : Type ℓ} (f : ℕ → A) (i : ℕ) (a : A) → update f i a i ≡ a
update_self f i a = rw (==_refl i)

update_ne {ℓ} : {A : Type ℓ} (f : ℕ → A) (i j : ℕ) (a : A) → i ≢ j → update f i a j ≡ f j
update_ne f i j a ne = ground arith

-- A write behind a window leaves it alone.
from-update :
    (v : ℕ → ℕ) (cap x p : ℕ) (t n : ℕ)
    → t + n ≤ p
    → p < t + cap
    → from (update v (p % cap) x) cap t n ≡ from v cap t n
from-update v cap x p t zero h k = refl
from-update v cap x p t (suc n) h k =
    ap₂ ◌∷◌ (update_ne v (p % cap) (t % cap) x (λ e. mod_ne t p cap (omega arith) k (sym e)))
      (from-update v cap x p (suc t) n (omega arith) (omega arith))

from-snoc :
    (v : ℕ → ℕ) (cap t n : ℕ) → from v cap t (suc n) ≡ from v cap t n ++ (v ((t + n) % cap) ∷ [])
from-snoc v cap t zero = ap (λ k. v (k % cap) ∷ []) (omega arith)
from-snoc v cap t (suc n) =
    ap (λ xs. v (t % cap) ∷ xs)
      (from-snoc v cap (suc t) n
        ∙ ap (λ k. from v cap (suc t) n ++ (v (k % cap) ∷ [])) (omega arith))

abbrev pub after_enqueue : Queue → ℕ → Queue
after_enqueue q x =
    let p = q.p_count + 1 in
    record q {
      p_count = p;
      values = update q.values (p % q.capacity) x;
      p_counts = update q.p_counts (p % q.capacity) p;
    }

abbrev pub after_dequeue : Queue → Queue
after_dequeue q =
    let c = q.c_count + 1 in
    record q { c_count = c; c_counts = update q.c_counts (c % q.capacity) (c + q.capacity) }

module _ {q : Queue} (is : IsValid q) (range : InRange q) where
  open is use {some_room, order, room, used, unused}

  pub enqueue-returned :
      (x : ℕ) → q.p_count < q.c_count + q.capacity → enqueue q x ≡ returned 0 (after_enqueue q x)
  unfolding enqueue
  enqueue-returned x h =
      let p = q.p_count + 1 in
      let fits : u64 p ≡ p = mod-eq_of_lt (omega arith) in
      let free = (unused p (omega arith) (omega arith)).0 in
      rw fits (rw ((==_iff p (q.c_counts (p % q.capacity))).1 (sym free)))

  pub dequeue-returned :
      q.c_count < q.p_count
      → dequeue q ≡ returned (q.values ((q.c_count + 1) % q.capacity)) (after_dequeue q)
  unfolding dequeue
  dequeue-returned h =
      let c = q.c_count + 1 in
      let fits : u64 c ≡ c = mod-eq_of_lt (omega arith) in
      let fits' : u64 (c + q.capacity) ≡ c + q.capacity = mod-eq_of_lt (omega arith) in
      let full = (used c (omega arith) (omega arith)).0 in
      rw (fits, fits') (rw ((==_iff c (q.p_counts (c % q.capacity))).1 (sym full)))

  after_enqueue-used :
      (x t : ℕ)
      → q.p_count < q.c_count + q.capacity
      → q.c_count < t
      → t ≤ q.p_count + 1
      → ((after_enqueue q x).p_counts (t % q.capacity) ≡ t) × (q.c_counts (t % q.capacity) ≡ t)
  after_enqueue-used x t h lo hi = elim (Bool-cases (t == q.p_count + 1)) [
    | inl last ↦
        rw (==→eq t (q.p_count + 1) last)
          (update_self q.p_counts _ _, (unused (q.p_count + 1) (omega arith) (omega arith)).0)
    | inr before ↦
        let old = ne_of_test t (q.p_count + 1) before in
        let ne = mod_ne t (q.p_count + 1) q.capacity (omega arith) (omega arith) in
        let held = used t lo (omega arith) in
        (update_ne q.p_counts _ _ _ (λ e. ne (sym e)) ∙ held.0, held.1)
  ]

  after_enqueue-unused :
      (x t : ℕ)
      → q.p_count + 1 < t
      → t ≤ q.c_count + q.capacity
      → (q.c_counts (t % q.capacity) ≡ t)
        × ((after_enqueue q x).p_counts (t % q.capacity) + q.capacity ≡ t)
  after_enqueue-unused x t lo hi =
      let ne = mod_ne (q.p_count + 1) t q.capacity lo (omega arith) in
      let held = unused t (omega arith) hi in
      (held.0, rw (update_ne q.p_counts _ (t % q.capacity) (q.p_count + 1) ne) held.1)

  pub after_enqueue-IsValid :
      (x : ℕ) → q.p_count < q.c_count + q.capacity → IsValid (after_enqueue q x)
  after_enqueue-IsValid x h = record {
    some_room = some_room;
    order = omega arith;
    room = omega arith;
    used = λ t lo hi. after_enqueue-used x t h lo hi;
    unused = λ t lo hi. after_enqueue-unused x t lo hi;
  }

  after_dequeue-used :
      (t : ℕ)
      → q.c_count + 1 < t
      → t ≤ q.p_count
      → (q.p_counts (t % q.capacity) ≡ t) × ((after_dequeue q).c_counts (t % q.capacity) ≡ t)
  after_dequeue-used t lo hi =
      let ne = mod_ne (q.c_count + 1) t q.capacity lo (omega arith) in
      let held = used t (omega arith) hi in
      (held.0, update_ne q.c_counts _ (t % q.capacity) _ ne ∙ held.1)

  after_dequeue-unused :
      (t : ℕ)
      → q.c_count < q.p_count
      → q.p_count < t
      → t ≤ q.c_count + 1 + q.capacity
      → ((after_dequeue q).c_counts (t % q.capacity) ≡ t)
        × (q.p_counts (t % q.capacity) + q.capacity ≡ t)
  after_dequeue-unused t h lo hi =
      let c = q.c_count + 1 in
      elim (Bool-cases (t == c + q.capacity)) [
        | inl last ↦
            rw (==→eq t (c + q.capacity) last, add-mod_right c q.capacity)
              (
                update_self q.c_counts _ _,
                ap (λ k. k + q.capacity) (used c (omega arith) (omega arith)).0,
              )
        | inr before ↦
            let old = ne_of_test t (c + q.capacity) before in
            let ne = mod_ne c t q.capacity (omega arith) (omega arith) in
            let held = unused t lo (omega arith) in (update_ne q.c_counts _ _ _ ne ∙ held.0, held.1)
      ]

  pub after_dequeue-IsValid : q.c_count < q.p_count → IsValid (after_dequeue q)
  after_dequeue-IsValid h = record {
    some_room = some_room;
    order = omega arith;
    room = omega arith;
    used = λ t lo hi. after_dequeue-used t lo hi;
    unused = λ t lo hi. after_dequeue-unused t h lo hi;
  }

  pub contents-after_enqueue :
      (x : ℕ)
      → q.p_count < q.c_count + q.capacity
      → contents (after_enqueue q x) ≡ contents q ++ (x ∷ [])
  contents-after_enqueue x h =
      let p = q.p_count + 1 in
      let n = q.p_count - q.c_count in
      let cap = q.capacity in
      let values' = update q.values (p % cap) x in
      let more : p - q.c_count ≡ suc n = omega arith in
      let next : suc q.c_count + n ≡ p = omega arith in
      ap (from values' cap (suc q.c_count)) more
      ∙ from-snoc values' cap (suc q.c_count) n
      ∙ ap₂ (λ xs y. xs ++ (y ∷ []))
          (from-update q.values cap x p (suc q.c_count) n (omega arith) (omega arith))
          (ap (λ k. values' (k % cap)) next ∙ update_self q.values (p % cap) x)

  pub contents-after_dequeue :
      q.c_count < q.p_count
      → contents q ≡ q.values ((q.c_count + 1) % q.capacity) ∷ contents (after_dequeue q)
  contents-after_dequeue h =
      let one : q.p_count - q.c_count ≡ suc (q.p_count - (q.c_count + 1)) = omega arith in
      let next : suc q.c_count ≡ q.c_count + 1 = omega arith in
      ap (from q.values q.capacity (suc q.c_count)) one
      ∙ ap (λ k. from q.values q.capacity k (suc (q.p_count - (q.c_count + 1)))) next

  pub enqueue-full :
      (x : ℕ)
      → q.p_count ≡ q.c_count + q.capacity
      → let taken : Queue = record q { p_count = q.p_count + 1 } in
        enqueue q x ≡ (if q.is_closed then gave_up taken else spins taken)
  unfolding enqueue
  enqueue-full x h =
      let p = q.p_count + 1 in
      let fits : u64 p ≡ p = mod-eq_of_lt (omega arith) in
      let slot : p % q.capacity ≡ (q.c_count + 1) % q.capacity =
        ap (λ k. k % q.capacity) (omega arith) ∙ add-mod_right (q.c_count + 1) q.capacity in
      let held = (used (q.c_count + 1) (omega arith) (omega arith)).1 in
      rw (fits, slot, held) (rw (test_of_ne p (q.c_count + 1) (omega arith)))

  pub dequeue-empty :
      q.p_count ≡ q.c_count
      → let taken : Queue = record q { c_count = q.c_count + 1 } in
        dequeue q ≡ (if q.is_closed then gave_up taken else spins taken)
  unfolding dequeue
  dequeue-empty h =
      let c = q.c_count + 1 in
      let fits : u64 c ≡ c = mod-eq_of_lt (omega arith) in
      let held = (unused c (omega arith) (omega arith)).1 in
      rw fits (rw (test_of_ne c (q.p_counts (c % q.capacity)) (omega (arith, held))))
