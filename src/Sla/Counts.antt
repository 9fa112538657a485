-- ===== src/Sla/Counts.antt =====
-- The counts that src/exit_sla.c keeps of an exit are those of its streams among the events.
use moor_pq.Base.{
  ℕ, ◌+◌, ◌^◌, ◌≡◌, ◌≢◌, ◌<◌, ◌≤◌, ◌∙◌, refl, ap, Bool, true, false, some, List, [], ◌∷◌, length,
  ltb, ◌==◌, ==_iff, lt→ltb, arith, All, Bool-cases, inl, inr, if◌then◌else◌,
}
use moor_pq.Sodium.{Sodium}
use moor_pq.Sla.{
  SlaEntry, new_sla_entry, change_entry, succeeded, failed, record_success, record_failure,
}
use moor_pq.Sla.Tally.{
  Event, success, failure, record_event, record_all, Tally, count_event, count_all, no_streams,
  lookup_sla, change_entry-same, change_entry-other, length-change_entry, found_or,
}

-- An entry that has the counts of a tally, in a window that is not over at `now`.
pub record HasCounts (now : ℕ) (e : SlaEntry) (t : Tally) : Type 0 where
  pub good : e.streams_succeeded ≡ t.succeeded_streams
  pub late : e.streams_timeout ≡ t.timeouts
  pub unnamed : e.dns_failures ≡ t.dns_errors
  pub tried : e.streams_attempted ≡ t.succeeded_streams + t.timeouts + t.dns_errors
  pub open_window : now ≤ e.window_start + 3600
  pub near : e.window_start < 2 ^ 63

abbrev pub size_of : Tally → ℕ
size_of t = t.succeeded_streams + t.timeouts + t.dns_errors

-- The time of an event: within the hour before `now`.
abbrev pub time_of : Event → ℕ
time_of (success identity_pk latency_ms now) = now
time_of (failure identity_pk is_dns now) = now

abbrev pub IsRecent : ℕ → Event → Type 0
IsRecent now e = (now ≤ time_of e + 3600) × (time_of e < 2 ^ 63)

pub not_zero : (n : ℕ) → n ≢ 0 → (n == 0) ≡ false
not_zero n some_n = elim (Bool-cases (n == 0)) [
  | inl nothing ↦ absurd (some_n ((==_iff n 0).0 nothing))
  | inr something ↦ something
]

pub fresh :
    (now : ℕ) (pk : List ℕ) (time : ℕ)
    → now ≤ time + 3600
    → time < 2 ^ 63
    → HasCounts now (new_sla_entry pk time) no_streams
fresh now pk time soon near = record {
  good = refl;
  late = refl;
  unnamed = refl;
  tried = refl;
  open_window = soon;
  near = near;
}

module _ (na : Sodium) (pk : List ℕ) (now : ℕ) where
  -- The table has the counts of a tally for the exit, or would start them.
  abbrev Tallied : List SlaEntry → Tally → Type 0
  Tallied entries t =
      (time : ℕ)
      → now ≤ time + 3600
      → time < 2 ^ 63
      → HasCounts now (found_or (new_sla_entry pk time) (lookup_sla na pk entries)) t

  succeeded-HasCounts :
      (latency_ms : ℕ) (e : SlaEntry) (t : Tally)
      → size_of t < 256
      → HasCounts now e t
      → HasCounts now
          (succeeded latency_ms e)
          (record t { succeeded_streams = t.succeeded_streams + 1 })
  succeeded-HasCounts latency_ms e t few v = record {
    good = omega (arith, v.good);
    late = v.late;
    unnamed = v.unnamed;
    tried = omega (arith, v.tried);
    open_window = v.open_window;
    near = v.near;
  }

  failed-HasCounts :
      (is_dns : Bool) (e : SlaEntry) (t : Tally)
      → size_of t < 256
      → HasCounts now e t
      → HasCounts now (failed is_dns e) (
          if is_dns
          then record t { dns_errors = t.dns_errors + 1 }
          else record t { timeouts = t.timeouts + 1 })
  failed-HasCounts true e t few v = record {
    good = v.good;
    late = v.late;
    unnamed = omega (arith, v.unnamed);
    tried = omega (arith, v.tried);
    open_window = v.open_window;
    near = v.near;
  }
  failed-HasCounts false e t few v = record {
    good = v.good;
    late = omega (arith, v.late);
    unnamed = v.unnamed;
    tried = omega (arith, v.tried);
    open_window = v.open_window;
    near = v.near;
  }

  change_entry-Tallied :
      (change : SlaEntry → SlaEntry) (at : ℕ) (other : List ℕ) (entries : List SlaEntry)
      (t t' : Tally)
      → ((e : SlaEntry) → (change e).identity_pk ≡ e.identity_pk)
      → ((e : SlaEntry) → HasCounts now e t → HasCounts now (change e) t')
      → now ≤ at + 3600
      → at < 2 ^ 63
      → length entries < 256
      → Tallied entries t
      → Tallied
          (change_entry na (ltb (length entries) 256) at other change entries)
          (if na.memcmp other pk then t' else t)
  change_entry-Tallied change at other entries t t' keeps step soon near room v time soon' near' =
      let free : ltb (length entries) 256 ≡ true = lt→ltb (length entries) 256 room in
      elim (Bool-cases (na.memcmp other pk)) [
        | inr apart ↦
            rw
              (
                apart,
                change_entry-other na (ltb (length entries) 256) at pk other change entries keeps
                    apart,
              )
              (v time soon' near')
        | inl same ↦
            let same_pk : other ≡ pk = (na.memcmp_iff other pk).0 same in
            let found : lookup_sla na pk
                  (change_entry na (ltb (length entries) 256) at other change entries)
                ≡ some (change (found_or (new_sla_entry pk at) (lookup_sla na pk entries))) =
              ap
                (λ x.
                  lookup_sla na pk (change_entry na (ltb (length entries) 256) at x change entries))
                same_pk
              ∙ change_entry-same na (ltb (length entries) 256) at pk change entries keeps free in
            rw (same, found)
              (step (found_or (new_sla_entry pk at) (lookup_sla na pk entries)) (v at soon near))
      ]

  record_event-Tallied :
      (event : Event) (entries : List SlaEntry) (t : Tally)
      → IsRecent now event
      → length entries < 256
      → size_of t < 256
      → Tallied entries t
      → Tallied (record_event na event entries) (count_event na pk event t)
  unfolding record_event record_success record_failure
  record_event-Tallied (success other latency_ms at) entries t (soon, near) room few v =
      change_entry-Tallied (succeeded latency_ms) at other entries t _ (λ e. refl)
        (λ e. succeeded-HasCounts latency_ms e t few) soon near room v
  record_event-Tallied (failure other is_dns at) entries t (soon, near) room few v =
      change_entry-Tallied (failed is_dns) at other entries t _ (λ e. refl)
        (λ e. failed-HasCounts is_dns e t few) soon near room v

  size_of-count_event :
      (event : Event) (t : Tally) → size_of (count_event na pk event t) ≤ size_of t + 1
  size_of-count_event (success other latency_ms at) t = elim (Bool-cases (na.memcmp other pk)) [
    | inl same ↦ rw (same) (omega arith)
    | inr apart ↦ rw (apart) (omega arith)
  ]
  size_of-count_event (failure other true at) t = elim (Bool-cases (na.memcmp other pk)) [
    | inl same ↦ rw (same) (omega arith)
    | inr apart ↦ rw (apart) (omega arith)
  ]
  size_of-count_event (failure other false at) t = elim (Bool-cases (na.memcmp other pk)) [
    | inl same ↦ rw (same) (omega arith)
    | inr apart ↦ rw (apart) (omega arith)
  ]

  length-record_event :
      (event : Event) (entries : List SlaEntry)
      → length (record_event na event entries) ≤ length entries + 1
  unfolding record_event record_success record_failure
  length-record_event (success other latency_ms at) entries =
      length-change_entry na (ltb (length entries) 256) at other (succeeded latency_ms) entries
  length-record_event (failure other is_dns at) entries =
      length-change_entry na (ltb (length entries) 256) at other (failed is_dns) entries

  pub record_all-Tallied :
      (events : List Event) (entries : List SlaEntry) (t : Tally)
      → All (IsRecent now) events
      → length entries + length events ≤ 256
      → size_of t + length events ≤ 256
      → Tallied entries t
      → Tallied (record_all na events entries) (count_all na pk events t)
        × size_of (count_all na pk events t) ≤ 256
  unfolding record_all count_all
  record_all-Tallied [] entries t recent room few v = (v, omega arith)
  record_all-Tallied (e ∷ events) entries t (now_too, recent) room few v =
      record_all-Tallied events (record_event na e entries) (count_event na pk e t) recent
        (omega (arith, length-record_event e entries)) (omega (arith, size_of-count_event e t))
        (record_event-Tallied e entries t now_too (omega arith) (omega arith) v)
