-- ===== src/Sla/Tests.antt =====
-- A run of events of two exits, and an instance of the theorem on src/exit_sla.c.
use moor_pq.Base.{ℕ, ◌≡◌, true, false, List, [], ◌∷◌, arith}
use moor_pq.Sodium.Toy.{toy_sodium}
use moor_pq.Sla.{get_score, compute_scores}
use moor_pq.Sla.Tally.{Event, success, failure, record_all, count_all, no_streams, score_of}
use moor_pq.Sla.Score.{get_score_lem}

abbrev exit_a : List ℕ
exit_a = 1 ∷ []

abbrev exit_b : List ℕ
exit_b = 2 ∷ []

abbrev some_events : List Event
some_events =
    success exit_a 40 1000
    ∷ failure exit_b false 1010
    ∷ failure exit_a true 1020
    ∷ success exit_a 50 1030
    ∷ []

get_score_lem_example :
    get_score toy_sodium (compute_scores (record_all toy_sodium some_events []) 2000) exit_a
    ≡ score_of (count_all toy_sodium exit_a some_events no_streams)
get_score_lem_example =
    get_score_lem toy_sodium exit_a 2000 some_events
      (
        (omega arith, omega arith),
        (
          (omega arith, omega arith),
          ((omega arith, omega arith), ((omega arith, omega arith), tt)),
        ),
      )
      (omega arith) (omega arith)
