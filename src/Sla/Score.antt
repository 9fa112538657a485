-- ===== src/Sla/Score.antt =====
-- The score that src/exit_sla.c computes after a run of events.
use mathlib.Core.Path.{subst}
use native.Mathlib.Nat.{div-le_of_le-mul}
use moor_pq.Base.{
  ℕ, ◌+◌, ◌*◌, ◌/◌, ◌^◌, ◌≡◌, ◌≢◌, ◌<◌, ◌≤◌, ◌∙◌, refl, sym, true, false, none, some, List, [], ◌∷◌,
  length, ltb, ◌==◌, ==_iff, le→ltb, arith, All, Bool-cases, Option-cases, inl, inr, u32, u64,
}
use moor_pq.Sodium.{Sodium}
use moor_pq.Sla.{SlaEntry, new_sla_entry, scored, compute_scores, get_score}
use moor_pq.Sla.Tally.{
  Event, record_all, Tally, count_all, no_streams, score_of, lookup_sla, found_or,
}
use moor_pq.Sla.Counts.{HasCounts, size_of, IsRecent, not_zero, fresh, record_all-Tallied}

module _ (na : Sodium) (pk : List ℕ) (now : ℕ) where
  scored_pk : (e : SlaEntry) → (scored now e).identity_pk ≡ e.identity_pk
  unfolding scored
  scored_pk e = elim (Bool-cases (ltb (u64 (e.window_start + 3600)) now)) [
    | inl over ↦ rw (over) refl
    | inr running ↦ elim (Bool-cases (e.streams_attempted == 0)) [
      | inl untried ↦ rw (running, untried) refl
      | inr tried ↦
          elim (Bool-cases
            (u32 (e.streams_succeeded + u32 (e.streams_timeout + u32 (e.dns_failures * 2))) == 0)) [
              | inl nothing ↦ rw (running, tried, nothing) refl
              | inr something ↦ rw (running, tried, something) refl
            ]
    ]
  ]

  get_score-lookup :
      (entries : List SlaEntry)
      → get_score na (compute_scores entries now) pk
        ≡ (elim (lookup_sla na pk entries) [ none ↦ 100 | some e ↦ (scored now e).score ])
  unfolding get_score compute_scores lookup_sla
  get_score-lookup [] = refl
  get_score-lookup (e ∷ entries) = elim (Bool-cases (na.memcmp e.identity_pk pk)) [
    | inl same ↦ rw (scored_pk e, same) refl
    | inr other ↦ rw (scored_pk e, other) (get_score-lookup entries)
  ]

  scored_lem :
      (e : SlaEntry) (t : Tally)
      → size_of t ≤ 256
      → HasCounts now e t
      → (scored now e).score ≡ score_of t
  unfolding scored score_of
  scored_lem e t few v =
      let total = t.succeeded_streams + t.timeouts + 2 * t.dns_errors in
      let same_total : u32
            (e.streams_succeeded + u32 (e.streams_timeout + u32 (e.dns_failures * 2)))
          ≡ total =
        omega (arith, v.good, v.late, v.unnamed, few) in
      let same_good : u32 (e.streams_succeeded * 100) ≡ t.succeeded_streams * 100 =
        omega (arith, v.good, few) in
      let window : u64 (e.window_start + 3600) ≡ e.window_start + 3600 = omega (arith, v.near) in
      let running : ltb (u64 (e.window_start + 3600)) now ≡ false =
        le→ltb (u64 (e.window_start + 3600)) now (omega (arith, window, v.open_window)) in
      elim (Bool-cases (total == 0)) [
        | inl nothing ↦
            let zero_total : total ≡ 0 = ground (arith, nothing) in
            let untried : (e.streams_attempted == 0) ≡ true =
              (==_iff e.streams_attempted 0).1 (omega (arith, v.tried, zero_total)) in
            rw (running, untried, nothing) refl
        | inr something ↦
            let some_total : total ≢ 0 = ground (arith, something) in
            let tried : (e.streams_attempted == 0) ≡ false =
              not_zero e.streams_attempted (omega (arith, v.tried, some_total)) in
            let low : t.succeeded_streams * 100 / total ≤ 100 =
              div-le_of_le-mul total {m = t.succeeded_streams * 100} {n = 100} (omega arith) in
            let small : ltb 100 (t.succeeded_streams * 100 / total) ≡ false =
              le→ltb 100 (t.succeeded_streams * 100 / total) low in
            rw (running, tried, same_total, something, same_good, small) refl
      ]

-- A run of at most 256 events, each in the hour before `now`, on an empty table: the score that is computed
-- and read for an exit at `now`, a time before 2^63, is that of its own streams among them, whatever the other exits do: a hundred
-- times the share that succeeded, rounded down, where a name that was not found counts as two failures, and
-- 100 for an exit without streams.
pub get_score_lem :
    (na : Sodium) (pk : List ℕ) (now : ℕ) (events : List Event)
    → All (IsRecent now) events
    → length events ≤ 256
    → now < 2 ^ 63
    → get_score na (compute_scores (record_all na events []) now) pk
      ≡ score_of (count_all na pk events no_streams)
unfolding score_of lookup_sla
get_score_lem na pk now events recent few near =
    let (v, low) =
      record_all-Tallied na pk now events [] no_streams recent (omega arith) (omega arith)
        (fresh now pk) in
    let entries = record_all na events [] in
    let t = count_all na pk events no_streams in
    let at_now = v now (omega arith) near in
    get_score-lookup na pk now entries ∙ elim (Option-cases (lookup_sla na pk entries)) [
      | inr (e, found) ↦ rw (found) (
          scored_lem na pk now e t low
            (subst (λ o. HasCounts now (found_or (new_sla_entry pk now) o) t) found at_now))
      | inl nothing ↦ rw (nothing) (
          sym (
            no_score t
              (subst (λ o. HasCounts now (found_or (new_sla_entry pk now) o) t) nothing at_now)))
    ]
  where
    no_score : (t : Tally) → HasCounts now (new_sla_entry pk now) t → score_of t ≡ 100
    no_score t v =
        let zero_total : (t.succeeded_streams + t.timeouts + 2 * t.dns_errors == 0) ≡ true =
          (==_iff (t.succeeded_streams + t.timeouts + 2 * t.dns_errors) 0).1
            (omega (arith, v.good, v.late, v.unnamed)) in
        rw (zero_total) refl
