-- ===== src/Sla/Tally.antt =====
-- src/exit_sla.c over a run of events: the score of an exit is that of its own streams.
use moor_pq.Base.{
  ℕ, ◌+◌, ◌*◌, ◌/◌, ◌≡◌, ◌≤◌, ◌∙◌, refl, ap, Bool, true, false, Option, none, some, List, [], ◌∷◌,
  length, ◌==◌, arith, Bool-cases, inl, inr, if◌then◌else◌,
}
use moor_pq.Sodium.{Sodium}
use moor_pq.Sla.{SlaEntry, new_sla_entry, change_entry, record_success, record_failure}

-- What is recorded of a stream of an exit, and when.
pub data Event : Type 0 where
  success : (identity_pk : List ℕ) (latency_ms now : ℕ) → Event
  failure : (identity_pk : List ℕ) (is_dns : Bool) (now : ℕ) → Event

unfoldable pub record_event : Sodium → Event → List SlaEntry → List SlaEntry
record_event na (success pk latency_ms now) entries = record_success na entries pk latency_ms now
record_event na (failure pk is_dns now) entries = record_failure na entries pk is_dns now

unfoldable pub record_all : Sodium → List Event → List SlaEntry → List SlaEntry
unfolding record_event
record_all na [] entries = entries
record_all na (e ∷ events) entries = record_all na events (record_event na e entries)

-- The streams of one exit among the events: that succeeded, that ran out of time, whose names were not found.
pub record Tally : Type 0 where
  pub succeeded_streams : ℕ
  pub timeouts : ℕ
  pub dns_errors : ℕ

abbrev pub no_streams : Tally
no_streams = record { succeeded_streams = 0; timeouts = 0; dns_errors = 0 }

abbrev pub count_event : Sodium → List ℕ → Event → Tally → Tally
count_event na pk (success other latency_ms now) t =
    if na.memcmp other pk then record t { succeeded_streams = t.succeeded_streams + 1 } else t
count_event na pk (failure other is_dns now) t =
    if na.memcmp other pk
    then if is_dns
      then record t { dns_errors = t.dns_errors + 1 }
      else record t { timeouts = t.timeouts + 1 }
    else t

unfoldable pub count_all : Sodium → List ℕ → List Event → Tally → Tally
count_all na pk [] t = t
count_all na pk (e ∷ events) t = count_all na pk events (count_event na pk e t)

-- A hundred times the share of the streams that succeeded, where a name that was not found counts twice; 100
-- without streams.
unfoldable pub score_of : Tally → ℕ
score_of t =
    let total = t.succeeded_streams + t.timeouts + 2 * t.dns_errors in
    if total == 0 then 100 else t.succeeded_streams * 100 / total

-- The entry of an exit.
unfoldable pub lookup_sla : Sodium → List ℕ → List SlaEntry → Option SlaEntry
lookup_sla na pk [] = none
lookup_sla na pk (e ∷ entries) =
    let rest = lookup_sla na pk entries in if na.memcmp e.identity_pk pk then some e else rest

abbrev pub found_or : SlaEntry → Option SlaEntry → SlaEntry
found_or e none = e
found_or e (some x) = x

module _ (na : Sodium) where
  pub change_entry-same :
      (room : Bool) (now : ℕ) (pk : List ℕ) (change : SlaEntry → SlaEntry) (entries : List SlaEntry)
      → ((e : SlaEntry) → (change e).identity_pk ≡ e.identity_pk)
      → room ≡ true
      → lookup_sla na pk (change_entry na room now pk change entries)
        ≡ some (change (found_or (new_sla_entry pk now) (lookup_sla na pk entries)))
  unfolding lookup_sla change_entry
  change_entry-same room now pk change [] keeps free =
      let own : na.memcmp (change (new_sla_entry pk now)).identity_pk pk ≡ true =
        (na.memcmp_iff (change (new_sla_entry pk now)).identity_pk pk).1
          (keeps (new_sla_entry pk now)) in
      rw (free, own) refl
  change_entry-same room now pk change (e ∷ entries) keeps free =
      elim (Bool-cases (na.memcmp e.identity_pk pk)) [
        | inl same ↦ rw (same, keeps e, same) refl
        | inr other ↦ rw (other) (
            ap
              (λ b.
                if b then some e else lookup_sla na pk (change_entry na room now pk change entries))
              other
            ∙ change_entry-same room now pk change entries keeps free)
      ]

  pub change_entry-other :
      (room : Bool) (now : ℕ) (pk other : List ℕ) (change : SlaEntry → SlaEntry)
      (entries : List SlaEntry)
      → ((e : SlaEntry) → (change e).identity_pk ≡ e.identity_pk)
      → na.memcmp other pk ≡ false
      → lookup_sla na pk (change_entry na room now other change entries) ≡ lookup_sla na pk entries
  unfolding lookup_sla change_entry
  change_entry-other room now pk other change [] keeps apart = elim (Bool-cases room) [
    | inl free ↦ rw (free, keeps (new_sla_entry other now), apart) refl
    | inr full ↦ rw (full) refl
  ]
  change_entry-other room now pk other change (e ∷ entries) keeps apart =
      elim (Bool-cases (na.memcmp e.identity_pk other)) [
        | inl same ↦
            let e_other : na.memcmp e.identity_pk pk ≡ false =
              ap (λ x. na.memcmp x pk) ((na.memcmp_iff e.identity_pk other).0 same) ∙ apart in
            rw (same, keeps e, e_other) refl
        | inr not_same ↦ elim (Bool-cases (na.memcmp e.identity_pk pk)) [
          | inl mine ↦ rw (not_same, mine) refl
          | inr not_mine ↦
              rw
                (
                  not_same,
                  not_mine,
                  change_entry-other room now pk other change entries keeps apart,
                )
                refl
        ]
      ]

  pub length-change_entry :
      (room : Bool) (now : ℕ) (pk : List ℕ) (change : SlaEntry → SlaEntry) (entries : List SlaEntry)
      → length (change_entry na room now pk change entries) ≤ length entries + 1
  unfolding change_entry
  length-change_entry room now pk change [] = elim (Bool-cases room) [
    | inl free ↦ rw (free) (omega arith)
    | inr full ↦ rw (full) (omega arith)
  ]
  length-change_entry room now pk change (e ∷ entries) =
      elim (Bool-cases (na.memcmp e.identity_pk pk)) [
        | inl same ↦ rw (same) (omega arith)
        | inr other ↦ rw (other) (omega (arith, length-change_entry room now pk change entries))
      ]
