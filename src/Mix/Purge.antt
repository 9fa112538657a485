-- ===== src/Mix/Purge.antt =====
-- `moor_mix_purge_conn` of src/mix.c: it keeps the pool, and leaves nothing for the connection.
use moor_pq.Base.{
  set, get_or-set_self, get_or-set_ne, ℕ, zero, suc, ◌+◌, ◌≡◌, ◌≢◌, ◌<◌, ◌∙◌, refl, sym, ap, Bool,
  true, false, ◌&&◌, arith, inl, inr, ◌==◌, Bool-cases,
}
use mathlib.Core.Path.{subst}
use moor_pq.Mix.{
  wiped, release, purge_loop, mix_purge_conn, MixEntry, MixPool, unused_entry, mix_pool_size,
}
use moor_pq.Mix.Scans.{active_inside, at_slot, and_true}
use moor_pq.Mix.Pool.{release-IsPool, IsPool}

-- A cell of a connection.
abbrev pub aimed_at : ℕ → MixEntry → Bool
aimed_at conn e = e.active && (e.target_conn == conn)

-- A pool that is kept, and that has nothing for the connection.
abbrev pub Purged : ℕ → ℕ → MixPool → Type 0
Purged bound conn pool =
    IsPool bound pool
    × ((j : ℕ) → j < mix_pool_size → aimed_at conn (at_slot pool.entries j) ≡ false)

purge_loop-step :
    (k i conn : ℕ) (pool : MixPool)
    → aimed_at conn (at_slot pool.entries i) ≡ true
    → purge_loop (suc k) i conn pool ≡ purge_loop k (i + 1) conn (release i pool)
unfolding purge_loop
purge_loop-step k i conn pool aimed = rw (aimed) refl

purge_loop-pass :
    (k i conn : ℕ) (pool : MixPool)
    → aimed_at conn (at_slot pool.entries i) ≡ false
    → purge_loop (suc k) i conn pool ≡ purge_loop k (i + 1) conn pool
unfolding purge_loop
purge_loop-pass k i conn pool other = rw (other) refl

purge_loop-IsPool :
    (k i bound conn : ℕ) (pool : MixPool)
    → IsPool bound pool
    → i + k ≡ mix_pool_size
    → ((j : ℕ) → j < i → aimed_at conn (at_slot pool.entries j) ≡ false)
    → IsPool bound (purge_loop k i conn pool)
      × ((j : ℕ)
          → j < mix_pool_size
          → aimed_at conn (at_slot (purge_loop k i conn pool).entries j) ≡ false)
unfolding purge_loop
purge_loop-IsPool zero i bound conn pool v full before = (v, λ j inside. before j (omega arith))
purge_loop-IsPool (suc k) i bound conn pool v full before =
    elim (Bool-cases (aimed_at conn (at_slot pool.entries i))) [
      | inr other ↦
          subst (Purged bound conn) (sym (purge_loop-pass k i conn pool other)) (
            purge_loop-IsPool k (i + 1) bound conn pool v (omega arith) (up_to pool i before other))
      | inl aimed ↦
          let used = (and_true (at_slot pool.entries i).active _ aimed).0 in
          let w = wiped (at_slot pool.entries i) in
          let here : at_slot (set pool.entries i w) i ≡ w =
            get_or-set_self pool.entries i w unused_entry (active_inside pool.entries i used) in
          subst (Purged bound conn) (sym (purge_loop-step k i conn pool aimed)) (
            purge_loop-IsPool k (i + 1) bound conn (release i pool)
              (release-IsPool bound i pool used v) (omega arith)
              (up_to (release i pool) i
                (λ j low.
                  ap (aimed_at conn) (get_or-set_ne pool.entries i j w unused_entry (omega arith))
                  ∙ before j low)
                (ap (aimed_at conn) here)))
    ]
  where
    up_to :
        (pool : MixPool) (i : ℕ)
        → ((j : ℕ) → j < i → aimed_at conn (at_slot pool.entries j) ≡ false)
        → aimed_at conn (at_slot pool.entries i) ≡ false
        → (j : ℕ) → j < i + 1
        → aimed_at conn (at_slot pool.entries j) ≡ false
    up_to pool i before at j low = elim (Bool-cases (j == i)) [
      | inl here ↦
          let same : j ≡ i = ground (arith, here) in
          ap (λ m. aimed_at conn (at_slot pool.entries m)) same ∙ at
      | inr there ↦ let apart : j ≢ i = ground (arith, there) in before j (omega arith)
    ]

-- `moor_mix_purge_conn` keeps the pool well-formed, and leaves no cell of the connection in it.
pub mix_purge_conn-IsPool :
    (bound conn : ℕ) (pool : MixPool)
    → IsPool bound pool
    → IsPool bound (mix_purge_conn pool conn)
      × ((j : ℕ)
          → j < mix_pool_size
          → aimed_at conn (at_slot (mix_purge_conn pool conn).entries j) ≡ false)
unfolding mix_purge_conn
mix_purge_conn-IsPool bound conn pool v =
    purge_loop-IsPool 1024 0 bound conn pool v refl (λ j low. absurd (omega arith))
