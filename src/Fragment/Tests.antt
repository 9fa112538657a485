-- ===== src/Fragment/Tests.antt =====
-- A payload of 600 bytes, sent and put together again, and instances of the theorems on fragments.
use moor_pq.Base.{
  ℕ, ◌+◌, ◌*◌, ◌≡◌, ◌||◌, refl, true, false, some, none, List, [], ◌∷◌, map, length,
  length-replicate, replicate, min, arith, get_or, ltb, ◌==◌, if◌then◌else◌, All, be16, be16_sum,
  ◌≢◌,
}
use moor_pq.Cell.{relay_data}
use moor_pq.Fragment.{
  Message, Callback, State, complete, reassembly_init, blank_slot, max_reassembly, fragment_send,
  fragment_receive, parse_fragment, find_active, find_free, expire_slot,
}
use moor_pq.Fragment.Send.{
  all_fragments, all_fragments_lem, carried_all, Fits, fragment_send_lem, run_calls, whole_call,
}
use moor_pq.Fragment.Slots.{fragment_receive_others}
use moor_pq.Fragment.Invariant.{
  IsState, Delivers, reassembly_init-IsState, fragment_receive-IsState,
}
use moor_pq.Fragment.Roundtrip.{receive_all, receive_all-all_fragments}
use moor_pq.Fragment.Carried.{IsMessage}

abbrev bytes_600 : List ℕ
bytes_600 = replicate 600 7

length-bytes_600 : length bytes_600 ≡ 600
length-bytes_600 = length-replicate {A = ℕ} 600 7

abbrev long_message : Message
long_message = record {
  circuit_id = 5;
  relay_cmd = 30;
  stream_id = 2;
  bytes = bytes_600;
  fragment_id = 700;
}

long_message-IsMessage : IsMessage long_message
long_message-IsMessage = record {
  command = omega arith;
  id = omega arith;
  size = omega (arith, length-bytes_600);
}

-- Cells that come in every 20 ms.
abbrev steady : ℕ → ℕ
steady j = 5000 + min (j * 20) 1000

idle_slots :
    (find_active 700 (map (expire_slot 5000) reassembly_init) ≡ none)
    × (find_free (map (expire_slot 5000) reassembly_init) ≡ some 0)
unfolding reassembly_init find_active find_free expire_slot replicate
idle_slots = (refl, refl)

receive_all-all_fragments_example :
    receive_all steady 0 reassembly_init (all_fragments long_message)
    ≡ (complete 30 bytes_600 (length bytes_600), [])
receive_all-all_fragments_example =
    receive_all-all_fragments long_message long_message-IsMessage steady reassembly_init 0
      (λ j. omega arith) (omega (arith, length-bytes_600)) idle_slots.0 idle_slots.1

-- A callback that counts its calls, and fails from the second on.
abbrev second_fails : Callback ℕ
second_fails n c = (n == 0, n + 1)

all_fragments_lem_example :
    (carried_all long_message (all_fragments long_message) ≡ bytes_600)
    × All ((Fits long_message)) (all_fragments long_message)
all_fragments_lem_example = all_fragments_lem long_message

fragment_send_lem_example :
    fragment_send long_message second_fails 0
    ≡ some (
        if length bytes_600 == 0 || ltb max_reassembly (length bytes_600)
        then (false, 0)
        else if ltb relay_data (length bytes_600)
        then run_calls second_fails (all_fragments long_message) 0
        else second_fails 0 (whole_call long_message))
fragment_send_lem_example = fragment_send_lem long_message second_fails 0

abbrev busy_slots : State
busy_slots =
    record blank_slot { active = true; fragment_id = 9; started_at = 100 } ∷ reassembly_init

stray_id : 9 ≢ be16 1 2
stray_id e = absurd (omega (arith, be16_sum 1 2 (omega arith)))

fragment_receive_others_example :
    get_or
      (fragment_receive busy_slots (1 ∷ 2 ∷ 0 ∷ 0 ∷ 2 ∷ 0 ∷ 30 ∷ 7 ∷ []) 8 2 40 500 500).1
      0
      blank_slot
    ≡ get_or busy_slots 0 blank_slot
fragment_receive_others_example =
    fragment_receive_others busy_slots (1 ∷ 2 ∷ 0 ∷ 0 ∷ 2 ∷ 0 ∷ 30 ∷ 7 ∷ []) 8 2 40 500 500 0 refl
      (omega arith) stray_id

fragment_receive-IsState_example :
    let (verdict, slots') =
      fragment_receive reassembly_init (1 ∷ 2 ∷ 0 ∷ 0 ∷ 2 ∷ 0 ∷ 30 ∷ 7 ∷ []) 8 2 40 500 500 in
    Delivers (parse_fragment (1 ∷ 2 ∷ 0 ∷ 0 ∷ 2 ∷ 0 ∷ 30 ∷ 7 ∷ []) 8) verdict × IsState slots'
fragment_receive-IsState_example =
    fragment_receive-IsState reassembly_init (1 ∷ 2 ∷ 0 ∷ 0 ∷ 2 ∷ 0 ∷ 30 ∷ 7 ∷ []) 8 2 40 500 500
      reassembly_init-IsState
