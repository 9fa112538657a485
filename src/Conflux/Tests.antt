-- ===== src/Conflux/Tests.antt =====
-- A set of two legs, and instances of the theorems on multi-path circuits.
use moor_pq.Base.{
  sym, ap, ℕ, ◌*◌, ◌^◌, ◌<◌, ◌≡◌, refl, true, false, some, List, [], ◌∷◌, take, ltb, length, get_or,
  arith, replicate,
}
use moor_pq.Sodium.Toy.{toy_sodium}
use moor_pq.Conflux.{Circuit, ConfluxSet, conflux_create, new_leg}
use moor_pq.Conflux.Feistel.{feistel_encrypt, feistel_decrypt}
use moor_pq.Conflux.Feistel.Roundtrip.{feistel_permutation}
use moor_pq.Conflux.Legs.{Doubles, conflux_select_leg, best_by_rtt, best_by_ratio}
use moor_pq.Conflux.Legs.Membership.{legs_over}
use moor_pq.Conflux.Legs.Choice.{IsMeasured, Least, conflux_select_leg-Least}
use moor_pq.Conflux.Reorder.{
  accept_seq, buffer_entry, leg_found, conflux_receive, conflux_encrypt_seq, conflux_deliver,
  expire_reorder, expired_any, is_expired, expire_entry, find_invalid, is_buffered, skip_lost,
  buffered, delivered,
}
use moor_pq.Conflux.Reorder.Ascent.{Event, arrives}
use moor_pq.Conflux.Reorder.Buffer.{IsBuffer}
use moor_pq.Conflux.Reorder.Bounds.{conflux_receive-IsBuffer, conflux_create-IsBuffer}
use moor_pq.Conflux.Reorder.Waiting.{NoneLost, set_after}
use moor_pq.Conflux.Reorder.Handover.{receive_numbered, deliver-receive}
use mathlib.Core.Path.{subst}

abbrev first_circuit : Circuit
first_circuit = record { address = 11; circ_package_window = 900 }

abbrev second_circuit : Circuit
second_circuit = record { address = 22; circ_package_window = 0 }

abbrev key_32 : List ℕ
key_32 = replicate 32 5

abbrev two_legs : ConfluxSet
two_legs = record (conflux_create first_circuit key_32 17) {
  legs =
      record (new_leg first_circuit) { srtt_us = 700; rtt_initialized = true }
      ∷ new_leg second_circuit
      ∷ [];
}

-- Ratios as pairs, compared by the cross product.
abbrev fractions : Doubles
fractions = record {
  Double = ℕ × ℕ;
  ratio = λ a b. (a, b);
  less = λ x y. ltb (x.0 * y.1) (y.0 * x.1);
  huge = (10 ^ 18, 1);
}

feistel_permutation_example :
    (feistel_decrypt toy_sodium key_32 (feistel_encrypt toy_sodium key_32 12345) ≡ 12345)
    × (feistel_encrypt toy_sodium key_32 (feistel_decrypt toy_sodium key_32 12345) ≡ 12345)
feistel_permutation_example = feistel_permutation toy_sodium key_32 12345 (omega arith)

two_legs-IsBuffer : IsBuffer two_legs
two_legs-IsBuffer =
    let v = conflux_create-IsBuffer first_circuit key_32 17 in
    record { size = v.size; each = v.each }

conflux_receive-IsBuffer_example :
    IsBuffer (conflux_receive toy_sodium two_legs (some 11) 99 1 (1 ∷ []) 1 1000 1001).1
conflux_receive-IsBuffer_example =
    conflux_receive-IsBuffer toy_sodium two_legs (some 11) 99 1 (1 ∷ []) 1 1000 1001
      two_legs-IsBuffer

conflux_create-IsBuffer_example : IsBuffer (conflux_create first_circuit key_32 17)
conflux_create-IsBuffer_example = conflux_create-IsBuffer first_circuit key_32 17

-- The set is as it was at 1000 ms, and waits for number 0.
waiting_set :
    let c = expire_reorder two_legs 1000 in
    (leg_found 11 c.legs ≡ true)
    × (c.next_recv_seq ≡ 0)
    × (is_buffered 1 c.reorder ≡ false)
    × (find_invalid c.reorder ≡ some 0)
unfolding expire_reorder conflux_create expired_any is_expired expire_entry find_invalid is_buffered
    skip_lost leg_found replicate
waiting_set = (refl, refl, refl, refl)

-- Number 1 comes in; then number 0, which is passed on at once.
abbrev early_kept : ConfluxSet
early_kept =
    (conflux_receive toy_sodium two_legs (some 11) (conflux_encrypt_seq toy_sodium two_legs 1) 6
      (1 ∷ 2 ∷ []) 2 1000 1001).1

abbrev first_comes : List Event
first_comes =
    arrives (some 11) (conflux_encrypt_seq toy_sodium two_legs 0) 6 (9 ∷ []) 1 1002 1002 ∷ []

-- The set then.
abbrev kept_set : ConfluxSet
kept_set = (accept_seq (expire_reorder two_legs 1000) 1 6 (1 ∷ 2 ∷ []) 2 1001).1

early_is_kept : early_kept ≡ kept_set
early_is_kept =
    ap (λ r. r.1)
      (receive_numbered toy_sodium two_legs (some 11) 1 6 (1 ∷ 2 ∷ []) 2 1000 1001 waiting_set.0
        (omega arith))

kept_set-NoneLost : NoneLost toy_sodium kept_set first_comes
unfolding set_after NoneLost conflux_encrypt_seq accept_seq buffer_entry expire_reorder
    conflux_create expired_any is_expired expire_entry find_invalid is_buffered skip_lost leg_found
    replicate
kept_set-NoneLost = (refl, tt)

early_kept-NoneLost : NoneLost toy_sodium early_kept first_comes
early_kept-NoneLost =
    subst (λ c. NoneLost toy_sodium c first_comes) (sym early_is_kept) kept_set-NoneLost

first_known : leg_found 11 (expire_reorder kept_set 1002).legs ≡ true
unfolding set_after NoneLost conflux_encrypt_seq accept_seq buffer_entry expire_reorder
    conflux_create expired_any is_expired expire_entry find_invalid is_buffered skip_lost leg_found
    replicate
first_known = refl

turn_then : (set_after toy_sodium kept_set first_comes).next_recv_seq ≡ 1
unfolding set_after NoneLost conflux_encrypt_seq accept_seq buffer_entry expire_reorder
    conflux_create expired_any is_expired expire_entry find_invalid is_buffered skip_lost leg_found
    replicate
turn_then =
    ap (λ r. r.1.next_recv_seq)
      (receive_numbered toy_sodium kept_set (some 11) 0 6 (9 ∷ []) 1 1002 1002 first_known
        (omega arith))

turn_comes : (set_after toy_sodium early_kept first_comes).next_recv_seq ≡ 1
turn_comes =
    subst (λ c. (set_after toy_sodium c first_comes).next_recv_seq ≡ 1) (sym early_is_kept)
      turn_then

deliver-receive_example :
    ((conflux_receive toy_sodium two_legs
        (some 11)
        (conflux_encrypt_seq toy_sodium two_legs 1)
        6
        (1 ∷ 2 ∷ [])
        2
        1000
        1001).0
      ≡ buffered)
    × ((conflux_deliver (set_after toy_sodium early_kept first_comes) 498).0
        ≡ delivered 6 (take 2 (1 ∷ 2 ∷ [])) 2)
deliver-receive_example =
    deliver-receive toy_sodium two_legs (some 11) 1 6 (1 ∷ 2 ∷ []) 2 1000 1001 498 0 first_comes
      waiting_set.0 (omega (arith, waiting_set.1)) (omega (arith, waiting_set.1)) (omega arith)
      waiting_set.2 waiting_set.3 (omega arith) (omega arith) (omega arith) early_kept-NoneLost
      turn_comes

over_first : (leg_found 11 two_legs.legs ≡ true) × (legs_over 11 two_legs.legs ≡ 1)
unfolding leg_found legs_over
over_first = (refl, refl)

conflux_select_leg-Least_example :
    (j : ℕ) × (conflux_select_leg fractions two_legs ≡ some j)
    × (j < length two_legs.legs)
    × IsMeasured (get_or two_legs.legs j (new_leg first_circuit))
    × Least
        (get_or two_legs.legs j (new_leg first_circuit)).srtt_us
        two_legs.legs
        (new_leg first_circuit)
conflux_select_leg-Least_example =
    conflux_select_leg-Least fractions two_legs (new_leg first_circuit) 0 (omega arith) (refl, refl)
      (omega arith)

first_chosen : conflux_select_leg fractions two_legs ≡ some 0
unfolding conflux_select_leg best_by_rtt best_by_ratio
first_chosen = refl
