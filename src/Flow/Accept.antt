-- ===== src/Flow/Accept.antt =====
-- How `moor_circuit_handle_sendme` of src/circuit.c ends, and what it leaves.
use moor_pq.Base.{
  ℕ, ◌≤◌, ◌<◌, ◌≡◌, ◌≢◌, ◌∙◌, refl, sym, ap, Bool, true, false, Option, none, some, List, [], ◌∷◌,
  get_or, take, ltb, ◌==◌, if◌then◌else◌, arith, ap₂, ◌⊎◌, ◌⊎◌, ap₂, Bool-cases, inl, inr, min, max,
}
use mathlib.Core.Path.{subst}
use moor_pq.Sodium.{Sodium}
use moor_pq.Flow.{Flow, tail_of, pop, find_stream, sendme_auth_max}
use moor_pq.Flow.Sendme.{
  open_window, settle, acknowledge, open_stream, open_found, circuit_handle_sendme, is_authentic,
}
use moor_pq.Flow.Fifo.{IsRing, contents, contents-push-pop}
use moor_pq.Flow.Window.{Balanced, core, open_window-Balanced, acknowledge-core}

-- The three ways a SENDME ends.
data Handled (na : Sodium) (f : Flow) (stream_id : ℕ) (sendme_data : List ℕ) (sendme_len now : ℕ)
    : Bool × Flow → Type 0 where
  refused :
      stream_id ≡ 0
      → is_authentic na f sendme_data sendme_len ≡ false
      → Handled na f stream_id sendme_data sendme_len now (false, f)
  acknowledged :
      stream_id ≡ 0
      → is_authentic na f sendme_data sendme_len ≡ true
      → Handled na f stream_id sendme_data sendme_len now (true, acknowledge f now)
  for_stream :
      stream_id ≢ 0
      → Handled na f stream_id sendme_data sendme_len now (true, open_stream f stream_id)

handled :
    (na : Sodium) (f : Flow) (stream_id : ℕ) (sendme_data : List ℕ) (sendme_len now : ℕ)
    → Handled na f stream_id sendme_data sendme_len now
        (circuit_handle_sendme na f stream_id sendme_data sendme_len now)
unfolding circuit_handle_sendme
handled na f stream_id sendme_data sendme_len now = elim (Bool-cases (stream_id == 0)) [
  | inr other ↦ rw (other) (for_stream (ground (arith, other)))
  | inl whole ↦ elim (Bool-cases (is_authentic na f sendme_data sendme_len)) [
    | inl ok ↦ rw (whole, ok) (acknowledged (ground (arith, whole)) ok)
    | inr bad ↦ rw (whole, bad) (refused (ground (arith, whole)) bad)
  ]
]

past_both :
    (a b c : Bool) → (if a then false else if b then false else c) ≡ true → a ≡ false × c ≡ true
past_both true b c e = absurd (ground (arith, e))
past_both false true c e = absurd (ground (arith, e))
past_both false false c e = (refl, e)

authentic_lem :
    (na : Sodium) (f : Flow) (sendme_data : List ℕ) (sendme_len : ℕ)
    → is_authentic na f sendme_data sendme_len ≡ true
    → 0 < f.sendme_auth.count
      × take 20 sendme_data ≡ get_or f.sendme_auth.slots (tail_of sendme_auth_max f.sendme_auth) []
unfolding is_authentic
authentic_lem na f sendme_data sendme_len ok =
    let oldest = get_or f.sendme_auth.slots (tail_of sendme_auth_max f.sendme_auth) [] in
    let (waits, same) =
      past_both (f.sendme_auth.count == 0) (ltb sendme_len 20)
        (na.memcmp (take 20 sendme_data) oldest) ok in
    (ground (arith, waits), (na.memcmp_iff (take 20 sendme_data) oldest).0 same)

acknowledge-contents :
    (f : Flow) (now : ℕ) → contents (acknowledge f now).sendme_auth ≡ contents (pop f.sendme_auth)
unfolding open_window
acknowledge-contents f now = ap (λ c. contents c.expected) (acknowledge-core f now)

-- A SENDME for the circuit, whose ring of digests is well-formed, is either refused, with nothing
-- changed, or accepted; in that case the first 20 bytes of its data are the oldest digest that was
-- expected, and the digests that are expected afterwards are the others, in their order.
pub sendme_takes_oldest :
    (na : Sodium) (f : Flow) (sendme_data : List ℕ) (sendme_len now : ℕ)
    → IsRing f.sendme_auth
    → circuit_handle_sendme na f 0 sendme_data sendme_len now ≡ (false, f)
      ⊎ (circuit_handle_sendme na f 0 sendme_data sendme_len now).0 ≡ true
        × contents f.sendme_auth
          ≡ take 20 sendme_data
            ∷ contents (circuit_handle_sendme na f 0 sendme_data sendme_len now).1.sendme_auth
sendme_takes_oldest na f sendme_data sendme_len now v =
    elim (handled na f 0 sendme_data sendme_len now)
      as (λ r _.
        r ≡ (false, f)
        ⊎ r.0 ≡ true × contents f.sendme_auth ≡ take 20 sendme_data ∷ contents r.1.sendme_auth) [
          | refused zero_id bad ↦ inl refl
          | acknowledged zero_id ok ↦
              let (waits, same) = authentic_lem na f sendme_data sendme_len ok in
              inr (
                refl,
                (contents-push-pop [] f.sendme_auth v).1 waits
                    ∙ ap₂ (λ d ds. d ∷ ds) (sym same) (sym (acknowledge-contents f now)),
              )
          | for_stream other ↦ absurd (other refl)
        ]

open_found-core :
    (found : Option ℕ) (f : Flow)
    → core (open_found found f) ≡ core f × (open_found found f).cwnd ≡ f.cwnd
open_found-core none f = (refl, refl)
open_found-core (some i) f = (refl, refl)

open_stream-core :
    (f : Flow) (stream_id : ℕ)
    → core (open_stream f stream_id) ≡ core f × (open_stream f stream_id).cwnd ≡ f.cwnd
unfolding open_stream
open_stream-core f stream_id = open_found-core (find_stream stream_id f.streams) f

clamped : (c : ℕ) → 100 ≤ min 2000 (max 100 c) × min 2000 (max 100 c) ≤ 2000
clamped c = (omega arith, omega arith)

acknowledge-cwnd :
    (f : Flow) (now : ℕ) → 100 ≤ (acknowledge f now).cwnd × (acknowledge f now).cwnd ≤ 2000
unfolding acknowledge settle
acknowledge-cwnd f now = clamped _

-- A SENDME, for a stream or for the circuit, forged or not, leaves a balanced circuit balanced: the
-- window and the cells underway add up to 1000, and there is one expected digest for every hundred
-- cells underway.
pub handle_sendme-Balanced :
    (na : Sodium) (f : Flow) (stream_id : ℕ) (sendme_data : List ℕ) (sendme_len now : ℕ)
    → Balanced (core f)
    → Balanced (core (circuit_handle_sendme na f stream_id sendme_data sendme_len now).1)
handle_sendme-Balanced na f stream_id sendme_data sendme_len now b =
    elim (handled na f stream_id sendme_data sendme_len now) as (λ r _. Balanced (core r.1)) [
      | refused zero_id bad ↦ b
      | acknowledged zero_id ok ↦ subst Balanced (sym (acknowledge-core f now)) (
          open_window-Balanced f b
            (omega (arith, (authentic_lem na f sendme_data sendme_len ok).0)))
      | for_stream other ↦ subst Balanced (sym (open_stream-core f stream_id).0) b
    ]

-- When the congestion window is between 100 and 2000, it is so after a SENDME too.
pub handle_sendme-cwnd :
    (na : Sodium) (f : Flow) (stream_id : ℕ) (sendme_data : List ℕ) (sendme_len now : ℕ)
    → 100 ≤ f.cwnd × f.cwnd ≤ 2000
    → 100 ≤ (circuit_handle_sendme na f stream_id sendme_data sendme_len now).1.cwnd
      × (circuit_handle_sendme na f stream_id sendme_data sendme_len now).1.cwnd ≤ 2000
handle_sendme-cwnd na f stream_id sendme_data sendme_len now bounds =
    elim (handled na f stream_id sendme_data sendme_len now)
      as (λ r _. 100 ≤ r.1.cwnd × r.1.cwnd ≤ 2000) [
        | refused zero_id bad ↦ bounds
        | acknowledged zero_id ok ↦ acknowledge-cwnd f now
        | for_stream other ↦
            subst (λ c. 100 ≤ c × c ≤ 2000) (sym (open_stream-core f stream_id).1) bounds
      ]
