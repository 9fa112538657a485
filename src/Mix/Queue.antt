-- ===== src/Mix/Queue.antt =====
-- The queue of a circuit in the pool of src/mix.c: the places of its cells, the earliest first.
use mathlib.Core.Path.{subst}
use moor_pq.Base.{
  ℕ, ◌≡◌, ◌≢◌, ◌<◌, ◌≤◌, ◌∙◌, refl, sym, ap, true, false, List, [], ◌∷◌, ◌++◌, length, length-set,
  set, set-set, get_or-set_self, get_or-set_ne, get_or-set_cases, arith, All, All-append, inl, inr,
  ◌⊎◌,
}
use moor_pq.Mix.{MixEntry, unused_entry, of_circuit}
use moor_pq.Mix.Scans.{at_slot, active_inside, of_circuit-active}

abbrev pub Elem : ℕ → List ℕ → Type 0
Elem i [] = ⊥
Elem i (j ∷ q) = (i ≡ j) ⊎ Elem i q

abbrev pub Ascends : List MixEntry → List ℕ → Type 0
Ascends entries [] = Unit
Ascends entries (i ∷ q) =
    All (λ j. (at_slot entries i).fire_time < (at_slot entries j).fire_time) q × Ascends entries q

-- `q` are the places of all cells of a circuit, in the order of their times, which differ.
pub record Queued (conn circuit_id : ℕ) (entries : List MixEntry) (q : List ℕ) : Type 0 where
  pub ascends : Ascends entries q
  pub sound : All (λ i. of_circuit conn circuit_id (at_slot entries i) ≡ true) q
  pub complete : (i : ℕ) → of_circuit conn circuit_id (at_slot entries i) ≡ true → Elem i q

pub All-Elem : (P : ℕ → Type 0) (q : List ℕ) (i : ℕ) → All P q → Elem i q → P i
All-Elem P [] i all h = absurd h
All-Elem P (j ∷ q) i (here, later) (inl same) = subst P (sym same) here
All-Elem P (j ∷ q) i (here, later) (inr h) = All-Elem P q i later h

All-turn : (P Q : ℕ → Type 0) (q : List ℕ) → ((j : ℕ) → P j → Q j) → All P q → All Q q
All-turn P Q [] step all = tt
All-turn P Q (j ∷ q) step (here, later) = (step j here, All-turn P Q q step later)

Elem-last : (i : ℕ) (q : List ℕ) → Elem i (q ++ (i ∷ []))
Elem-last i [] = inl refl
Elem-last i (j ∷ q) = inr (Elem-last i q)

Elem-append : (i k : ℕ) (q : List ℕ) → Elem i q → Elem i (q ++ (k ∷ []))
Elem-append i k [] h = absurd h
Elem-append i k (j ∷ q) (inl here) = inl here
Elem-append i k (j ∷ q) (inr later) = inr (Elem-append i k q later)

-- A write in a place that is not in a queue changes no entry of it.
abbrev pub Without : ℕ → List ℕ → Type 0
Without i q = All (λ j. i ≢ j) q

at-set :
    (entries : List MixEntry) (i j : ℕ) (e : MixEntry)
    → i ≢ j
    → at_slot (set entries i e) j ≡ at_slot entries j
at-set entries i j e apart = get_or-set_ne entries i j e unused_entry apart

All-later :
    (entries : List MixEntry) (i : ℕ) (e : MixEntry) (time : ℕ) (q : List ℕ)
    → Without i q
    → All (λ j. time < (at_slot entries j).fire_time) q
    → All (λ j. time < (at_slot (set entries i e) j).fire_time) q
All-later entries i e time [] without all = tt
All-later entries i e time (j ∷ q) (apart, without) (here, later) =
    (rw (at-set entries i j e apart) here, All-later entries i e time q without later)

Ascends-set :
    (entries : List MixEntry) (i : ℕ) (e : MixEntry) (q : List ℕ)
    → Without i q
    → Ascends entries q
    → Ascends (set entries i e) q
Ascends-set entries i e [] without h = tt
Ascends-set entries i e (j ∷ q) (apart, without) (here, later) = (
  rw (at-set entries i j e apart)
      (All-later entries i e (at_slot entries j).fire_time q without here),
  Ascends-set entries i e q without later,
)

Ascends-append :
    (entries : List MixEntry) (i : ℕ) (q : List ℕ)
    → All (λ j. (at_slot entries j).fire_time < (at_slot entries i).fire_time) q
    → Ascends entries q
    → Ascends entries (q ++ (i ∷ []))
Ascends-append entries i [] before h = (tt, tt)
Ascends-append entries i (j ∷ q) (low, before) (here, later) = (
  All-append (λ k. (at_slot entries j).fire_time < (at_slot entries k).fire_time) q (i ∷ []) here
      (low, tt),
  Ascends-append entries i q before later,
)

module _ (conn circuit_id : ℕ) where
  abbrev pub Mine : List MixEntry → ℕ → Type 0
  Mine entries i = of_circuit conn circuit_id (at_slot entries i) ≡ true

  sound-set :
      (entries : List MixEntry) (i : ℕ) (e : MixEntry) (q : List ℕ)
      → Without i q
      → All (Mine entries) q
      → All (Mine (set entries i e)) q
  sound-set entries i e [] without all = tt
  sound-set entries i e (j ∷ q) (apart, without) (here, later) =
      (rw (at-set entries i j e apart) here, sound-set entries i e q without later)

  pub other_circuit :
      (entries : List MixEntry) (i : ℕ) (q : List ℕ)
      → of_circuit conn circuit_id (at_slot entries i) ≡ false
      → All (Mine entries) q
      → Without i q
  other_circuit entries i q other all =
      All-turn (Mine entries) (λ j. i ≢ j) q
        (λ j mine same. absurd (
          ground
            (arith, mine, other, ap (λ k. of_circuit conn circuit_id (at_slot entries k)) same)))
        all

  pub earlier_places :
      (entries : List MixEntry) (i : ℕ) (q : List ℕ)
      → All (λ j. (at_slot entries i).fire_time < (at_slot entries j).fire_time) q
      → Without i q
  earlier_places entries i q all =
      All-turn (λ j. (at_slot entries i).fire_time < (at_slot entries j).fire_time) (λ j. i ≢ j) q
        (λ j less same. absurd (omega (arith, less, ap (λ k. (at_slot entries k).fire_time) same)))
        all

  -- A write of another circuit in a place of another circuit.
  pub Queued-other :
      (entries : List MixEntry) (i : ℕ) (e : MixEntry) (q : List ℕ)
      → of_circuit conn circuit_id (at_slot entries i) ≡ false
      → of_circuit conn circuit_id e ≡ false
      → Queued conn circuit_id entries q
      → Queued conn circuit_id (set entries i e) q
  Queued-other entries i e q other other_too v =
      let without = other_circuit entries i q other v.sound in
      record {
        ascends = Ascends-set entries i e q without v.ascends;
        sound = sound-set entries i e q without v.sound;
        complete = λ j mine. elim (get_or-set_cases entries i j e unused_entry) [
          | inl same ↦ v.complete j (sym (ap (of_circuit conn circuit_id) same) ∙ mine)
          | inr (_, written) ↦
              absurd (ground (arith, ap (of_circuit conn circuit_id) written, mine, other_too))
        ];
      }

  -- The first cell goes, and its place is written for another circuit.
  pub Queued-tail :
      (entries : List MixEntry) (i : ℕ) (e : MixEntry) (q : List ℕ)
      → of_circuit conn circuit_id e ≡ false
      → Queued conn circuit_id entries (i ∷ q)
      → Queued conn circuit_id (set entries i e) q
  Queued-tail entries i e q other v =
      let without = earlier_places entries i q v.ascends.0 in
      let inside =
        active_inside entries i (of_circuit-active conn circuit_id (at_slot entries i) v.sound.0) in
      let written_at : at_slot (set entries i e) i ≡ e =
        get_or-set_self entries i e unused_entry inside in
      record {
        ascends = Ascends-set entries i e q without v.ascends.1;
        sound = sound-set entries i e q without v.sound.1;
        complete = λ j mine. elim (get_or-set_cases entries i j e unused_entry) [
          | inl same ↦ elim (v.complete j (sym (ap (of_circuit conn circuit_id) same) ∙ mine)) [
            | inl first ↦ absurd (
                ground (
                  arith,
                  mine,
                  other,
                  ap (of_circuit conn circuit_id)
                      (ap (at_slot (set entries i e)) first ∙ written_at),
                ))
            | inr later ↦ later
          ]
          | inr (_, written) ↦
              absurd (ground (arith, ap (of_circuit conn circuit_id) written, mine, other))
        ];
      }

  -- A cell of the circuit that is later than all of it goes to the end.
  pub Queued-append :
      (entries : List MixEntry) (i : ℕ) (e : MixEntry) (q : List ℕ)
      → i < length entries
      → of_circuit conn circuit_id (at_slot entries i) ≡ false
      → of_circuit conn circuit_id e ≡ true
      → All (λ j. (at_slot entries j).fire_time < e.fire_time) q
      → Queued conn circuit_id entries q
      → Queued conn circuit_id (set entries i e) (q ++ (i ∷ []))
  Queued-append entries i e q inside other mine last v =
      let without = other_circuit entries i q other v.sound in
      let after = set entries i e in
      let written_at : at_slot after i ≡ e = get_or-set_self entries i e unused_entry inside in
      record {
        ascends =
            Ascends-append after i q (All-before entries i e q without (rw (written_at) last))
              (Ascends-set entries i e q without v.ascends);
        sound =
            All-append (Mine after) q (i ∷ []) (sound-set entries i e q without v.sound)
              (ap (of_circuit conn circuit_id) written_at ∙ mine, tt);
        complete = λ j found. elim (get_or-set_cases entries i j e unused_entry) [
          | inl same ↦
              Elem-append j i q (v.complete j (sym (ap (of_circuit conn circuit_id) same) ∙ found))
          | inr (here, _) ↦ subst (λ k. Elem k (q ++ (i ∷ []))) (sym here) (Elem-last i q)
        ];
      }
    where
      All-before :
          (entries : List MixEntry) (i : ℕ) (e : MixEntry) (q : List ℕ)
          → Without i q
          → All (λ j. (at_slot entries j).fire_time < (at_slot (set entries i e) i).fire_time) q
          → All
              (λ j.
                (at_slot (set entries i e) j).fire_time < (at_slot (set entries i e) i).fire_time)
              q
      All-before entries i e [] without all = tt
      All-before entries i e (j ∷ q) (apart, without) (here, later) =
          (rw (at-set entries i j e apart) here, All-before entries i e q without later)

  -- The first cell goes, and its place is written for the circuit again.
  pub Queued-turn :
      (entries : List MixEntry) (i : ℕ) (e : MixEntry) (q : List ℕ)
      → of_circuit conn circuit_id e ≡ true
      → All (λ j. (at_slot entries j).fire_time < e.fire_time) q
      → Queued conn circuit_id entries (i ∷ q)
      → Queued conn circuit_id (set entries i e) (q ++ (i ∷ []))
  Queued-turn entries i e q mine last v =
      let inside =
        active_inside entries i (of_circuit-active conn circuit_id (at_slot entries i) v.sound.0) in
      let cleared = set entries i unused_entry in
      let without = earlier_places entries i q v.ascends.0 in
      subst (λ after. Queued conn circuit_id after (q ++ (i ∷ [])))
        (set-set entries i unused_entry e)
        (Queued-append cleared i e q (omega (arith, inside, length-set entries i unused_entry))
          (ap (of_circuit conn circuit_id)
            (get_or-set_self entries i unused_entry unused_entry inside))
          mine (All-cleared entries i e.fire_time q without last)
          (Queued-tail entries i unused_entry q refl v))
    where
      All-cleared :
          (entries : List MixEntry) (i time : ℕ) (q : List ℕ)
          → Without i q
          → All (λ j. (at_slot entries j).fire_time < time) q
          → All (λ j. (at_slot (set entries i unused_entry) j).fire_time < time) q
      All-cleared entries i time [] without all = tt
      All-cleared entries i time (j ∷ q) (apart, without) (here, later) = (
        rw (at-set entries i j unused_entry apart) here,
        All-cleared entries i time q without later,
      )

  -- The earliest cell of a circuit is the first of its queue.
  pub Queued-head :
      (entries : List MixEntry) (i : ℕ) (q : List ℕ)
      → Mine entries i
      → ((j : ℕ) → Mine entries j → (at_slot entries i).fire_time ≤ (at_slot entries j).fire_time)
      → Queued conn circuit_id entries q
      → (rest : List ℕ) × q ≡ i ∷ rest
  Queued-head entries i [] mine least v = absurd (v.complete i mine)
  Queued-head entries i (j ∷ rest) mine least v = elim (v.complete i mine) [
    | inl same ↦ (rest, ap (λ k. k ∷ rest) (sym same))
    | inr later ↦
        let less =
          All-Elem (λ k. (at_slot entries j).fire_time < (at_slot entries k).fire_time) rest i
            v.ascends.0 later in
        absurd (omega (arith, less, least j v.sound.0))
  ]
