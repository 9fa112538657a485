-- ===== src/Mix/Handed.antt =====
-- Which of the cells that leave the pool of src/mix.c are handed to `moor_connection_send_cell`.
use moor_pq.Base.{
  ℕ, zero, suc, ◌≡◌, sym, Bool, true, not, List, [], ◌∷◌, arith, All, All-get_or, All-set, inl, inr,
  ◌==◌, ==_iff, Bool-cases,
}
use moor_pq.Mix.{
  Fds, Stays, Net, MixEntry, MixPool, Leaving, unused_entry, send_entry, shut, is_live, leaving,
  send_loop, wiped, release,
}
use moor_pq.Mix.Scans.{at_slot, pick_lem, and_true}
use moor_pq.Mix.Loop.{send_loop-stop, send_loop-step}
use moor_pq.Mix.Put.{HasFd}

-- A cell whose connection is open in the end was handed over.
abbrev pub WasHanded : Net → Leaving → Type 0
WasHanded net l = net.is_open l.sending.target ≡ true → l.handed ≡ true

-- No connection opens.
abbrev pub Closes : Net → Net → Type 0
Closes before after = (c : ℕ) → after.is_open c ≡ true → before.is_open c ≡ true

pub shut-Closes : (conn : ℕ) (net : Net) → Closes net (shut conn net)
shut-Closes conn net c up = (and_true (net.is_open c) (not (c == conn)) up).0

pub send_entry-Closes :
    (fds : Fds) (stays : Stays) (e : MixEntry) (net : Net) → Closes net (send_entry fds stays e net)
send_entry-Closes fds stays e net c = elim (Bool-cases (is_live fds net e)) [
  | inr dead ↦ rw (dead) (λ up. up)
  | inl live ↦ rw (live) (elim (Bool-cases (stays net.calls)) [
    | inl stay ↦ rw (stay) (λ up. up)
    | inr fail ↦ rw (fail) (shut-Closes e.target_conn net c)
  ])
]

pub leaving-WasHanded :
    (fds : Fds) (net after : Net) (e : MixEntry)
    → HasFd fds e
    → Closes net after
    → WasHanded after (leaving fds net e)
leaving-WasHanded fds net after e fd closes up =
    rw (closes e.target_conn up) ((==_iff (fds e.target_conn) e.target_fd).1 (sym fd))

pub WasHanded-later :
    (before after : Net) (left : List Leaving)
    → Closes before after
    → All (WasHanded before) left
    → All (WasHanded after) left
WasHanded-later before after [] closes all = tt
WasHanded-later before after (l ∷ left) closes (here, all) =
    (λ up. here (closes l.sending.target up), WasHanded-later before after left closes all)

module _ (test : MixEntry → Bool) (uses : (e : MixEntry) → test e ≡ true → e.active ≡ true)
    (fds : Fds) (stays : Stays) where
  pub send_loop-Closes :
      (fuel : ℕ) (pool : MixPool) (net : Net)
      → Closes net (send_loop fuel fds stays test pool net).2
  unfolding send_loop
  send_loop-Closes zero pool net c up = up
  send_loop-Closes (suc fuel) pool net c up = elim (pick_lem test pool.entries) [
    | inl (nothing, _) ↦ rw (send_loop-stop test uses fds stays fuel pool net nothing) at up
    | inr (k, found, _, _, _) ↦
        let e = at_slot pool.entries k in
        send_entry-Closes fds stays e net c (
          send_loop-Closes fuel (release k pool) (send_entry fds stays e net) c
            (rw (send_loop-step test uses fds stays fuel pool net k found) at up))
  ]

  -- What holds of free entries and of those of the pool holds of those that are left.
  pub send_loop-All :
      (P : MixEntry → Type 0)
      → ((e : MixEntry) → P (wiped e))
      → (fuel : ℕ) (pool : MixPool) (net : Net) → All P pool.entries
      → All P (send_loop fuel fds stays test pool net).0.entries
  unfolding send_loop
  send_loop-All P free zero pool net all = all
  send_loop-All P free (suc fuel) pool net all = elim (pick_lem test pool.entries) [
    | inl (nothing, _) ↦ rw (send_loop-stop test uses fds stays fuel pool net nothing) all
    | inr (k, found, _, _, _) ↦
        let e = at_slot pool.entries k in
        rw (send_loop-step test uses fds stays fuel pool net k found) (
          send_loop-All P free fuel (release k pool) (send_entry fds stays e net)
            (All-set P pool.entries k (wiped e) all (free e)))
  ]

  -- Every cell that the loop takes out is handed over, if its connection is open in the end.
  pub send_loop-WasHanded :
      (fuel : ℕ) (pool : MixPool) (net : Net)
      → All (λ e. test e ≡ true → HasFd fds e) pool.entries
      → let r = send_loop fuel fds stays test pool net in All (WasHanded r.2) r.1
  unfolding send_loop
  send_loop-WasHanded zero pool net fit = tt
  send_loop-WasHanded (suc fuel) pool net fit = elim (pick_lem test pool.entries) [
    | inl (nothing, _) ↦ rw (send_loop-stop test uses fds stays fuel pool net nothing) tt
    | inr (k, found, inside, passes, _) ↦
        let e = at_slot pool.entries k in
        let net' = send_entry fds stays e net in
        rw (send_loop-step test uses fds stays fuel pool net k found) (
          leaving-WasHanded fds net (send_loop fuel fds stays test (release k pool) net').2 e
              (All-get_or (λ e. test e ≡ true → HasFd fds e) pool.entries k unused_entry fit inside
                passes)
              (λ c up.
                send_entry-Closes fds stays e net c
                  (send_loop-Closes fuel (release k pool) net' c up)),
          send_loop-WasHanded fuel (release k pool) net' (
              All-set (λ e. test e ≡ true → HasFd fds e) pool.entries k (wiped e) fit
                (λ h. absurd (ground (arith, uses (wiped e) h)))),
        )
  ]
