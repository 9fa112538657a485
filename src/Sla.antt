-- ===== src/Sla.antt =====
-- src/exit_sla.c: how well exits carry streams. The first `count` entries of the table are a list.
pub mod Tally
pub mod Counts
pub mod Score
mod Tests
use moor_pq.Base.{
  ℕ, zero, suc, ◌+◌, ◌-◌, ◌*◌, ◌/◌, Bool, true, false, Option, none, some, List, [], ◌∷◌, map,
  length, ltb, leb, ◌==◌, if◌then◌else◌, u32, u64,
}
use moor_pq.Sodium.{Sodium}

abbrev pub exit_sla_window : ℕ
exit_sla_window = 3600

abbrev pub exit_sla_max_entries : ℕ
exit_sla_max_entries = 256

-- `moor_exit_sla_entry_t`
pub record SlaEntry : Type 0 where
  pub identity_pk : List ℕ
  pub streams_attempted : ℕ
  pub streams_succeeded : ℕ
  pub streams_timeout : ℕ
  pub dns_failures : ℕ
  pub total_latency_ms : ℕ
  pub window_start : ℕ
  pub score : ℕ

abbrev pub new_sla_entry : List ℕ → ℕ → SlaEntry
new_sla_entry identity_pk now = record {
  identity_pk = identity_pk;
  streams_attempted = 0;
  streams_succeeded = 0;
  streams_timeout = 0;
  dns_failures = 0;
  total_latency_ms = 0;
  window_start = now;
  score = 100;
}

-- `moor_exit_sla_init`
abbrev pub sla_init : List SlaEntry
sla_init = []

-- `find_or_create`, and a change of the entry that it finds; `room` says whether the table has a place left.
pub change_entry :
    Sodium → Bool → ℕ → List ℕ → (SlaEntry → SlaEntry) → List SlaEntry → List SlaEntry
change_entry na room now identity_pk change [] =
    if room then change (new_sla_entry identity_pk now) ∷ [] else []
change_entry na room now identity_pk change (e ∷ entries) =
    let rest = change_entry na room now identity_pk change entries in
    if na.memcmp e.identity_pk identity_pk then change e ∷ entries else e ∷ rest

-- A stream that succeeded.
abbrev pub succeeded : ℕ → SlaEntry → SlaEntry
succeeded latency_ms e = record e {
  streams_attempted = u32 (e.streams_attempted + 1);
  streams_succeeded = u32 (e.streams_succeeded + 1);
  total_latency_ms = u64 (e.total_latency_ms + latency_ms);
}

-- A stream that failed.
abbrev pub failed : Bool → SlaEntry → SlaEntry
failed is_dns e = record e {
  streams_attempted = u32 (e.streams_attempted + 1);
  dns_failures = if is_dns then u32 (e.dns_failures + 1) else e.dns_failures;
  streams_timeout = if is_dns then e.streams_timeout else u32 (e.streams_timeout + 1);
}

-- `moor_exit_sla_record_success`
pub record_success : Sodium → List SlaEntry → List ℕ → ℕ → ℕ → List SlaEntry
unfolding change_entry
record_success na entries identity_pk latency_ms now =
    change_entry na (ltb (length entries) exit_sla_max_entries) now identity_pk
      (succeeded latency_ms) entries

-- `moor_exit_sla_record_failure`
pub record_failure : Sodium → List SlaEntry → List ℕ → Bool → ℕ → List SlaEntry
unfolding change_entry
record_failure na entries identity_pk is_dns now =
    change_entry na (ltb (length entries) exit_sla_max_entries) now identity_pk (failed is_dns)
      entries

-- An entry after its score was computed; when its window is over, it starts again.
pub scored : ℕ → SlaEntry → SlaEntry
scored now e =
    let effective_fail = u32 (e.streams_timeout + u32 (e.dns_failures * 2)) in
    let effective_total = u32 (e.streams_succeeded + effective_fail) in
    let raw = u32 (e.streams_succeeded * 100) / effective_total in
    if ltb (u64 (e.window_start + exit_sla_window)) now
    then new_sla_entry e.identity_pk now
    else if e.streams_attempted == 0
    then record e { score = 100 }
    else if effective_total == 0
    then record e { score = 100 }
    else record e { score = if ltb 100 raw then 100 else raw }

-- `moor_exit_sla_compute_scores`
pub compute_scores : List SlaEntry → ℕ → List SlaEntry
unfolding scored
compute_scores entries now = map (scored now) entries

-- `moor_exit_sla_get_score`
pub get_score : Sodium → List SlaEntry → List ℕ → ℕ
get_score na [] identity_pk = 100
get_score na (e ∷ entries) identity_pk =
    let rest = get_score na entries identity_pk in
    if na.memcmp e.identity_pk identity_pk then e.score else rest
