-- ===== src/Mix/Pending.antt =====
-- What leaves the pool of src/mix.c of the queue of a circuit, and what is left of it.
use moor_pq.Base.{
  ℕ, ◌≡◌, ◌∙◌, refl, sym, ap, Bool, true, false, ◌&&◌, List, [], ◌∷◌, ◌++◌, append-nil,
  append_assoc, set, get_or-set_ne, All, inl, inr, ◌==◌, Bool-cases, if◌then◌else◌,
}
use mathlib.Core.Path.{subst}
use moor_pq.Mix.{MixEntry, Sending, Leaving, unused_entry, of_circuit, sending_of, wiped}
use moor_pq.Mix.Scans.{at_slot}
use moor_pq.Mix.Queue.{Queued, Without}

-- The cells that leave the pool, whether or not they are handed over.
unfoldable pub gone : List Leaving → List Sending
gone [] = []
gone (l ∷ left) = l.sending ∷ gone left

pub gone-append : (xs ys : List Leaving) → gone (xs ++ ys) ≡ gone xs ++ gone ys
unfolding gone
gone-append [] ys = refl
gone-append (x ∷ xs) ys = ap (λ ss. x.sending ∷ ss) (gone-append xs ys)

-- The cell of an entry, as a list.
abbrev pub leaves : MixEntry → List Sending
leaves e = sending_of e ∷ []

-- The cells of a queue, in its order.
pub pending : List MixEntry → List ℕ → List Sending
pending entries [] = []
pending entries (i ∷ q) = leaves (at_slot entries i) ++ pending entries q

-- The cells of a circuit.
abbrev pub for_circuit : ℕ → ℕ → Sending → Bool
for_circuit conn circuit_id s = (s.target == conn) && (s.cell.circuit_id == circuit_id)

pub sent_of : ℕ → ℕ → List Sending → List Sending
sent_of conn circuit_id [] = []
sent_of conn circuit_id (s ∷ sent) =
    let rest = sent_of conn circuit_id sent in
    if for_circuit conn circuit_id s then s ∷ rest else rest

pub pending-set :
    (entries : List MixEntry) (i : ℕ) (e : MixEntry) (q : List ℕ)
    → Without i q
    → pending (set entries i e) q ≡ pending entries q
unfolding pending
pending-set entries i e [] without = refl
pending-set entries i e (j ∷ q) (apart, without) =
    rw (get_or-set_ne entries i j e unused_entry apart, pending-set entries i e q without) refl

pub pending-append :
    (entries : List MixEntry) (q r : List ℕ)
    → pending entries (q ++ r) ≡ pending entries q ++ pending entries r
unfolding pending
pending-append entries [] r = refl
pending-append entries (j ∷ q) r =
    ap (λ ss. leaves (at_slot entries j) ++ ss) (pending-append entries q r)
    ∙ sym (append_assoc (leaves (at_slot entries j)) (pending entries q) (pending entries r))

pub sent_of-append :
    (conn circuit_id : ℕ) (xs ys : List Sending)
    → sent_of conn circuit_id (xs ++ ys) ≡ sent_of conn circuit_id xs ++ sent_of conn circuit_id ys
unfolding sent_of
sent_of-append conn circuit_id [] ys = refl
sent_of-append conn circuit_id (x ∷ xs) ys = elim (Bool-cases (for_circuit conn circuit_id x)) [
  | inl mine ↦ rw (mine, sent_of-append conn circuit_id xs ys) refl
  | inr other ↦ rw (other, sent_of-append conn circuit_id xs ys) refl
]

-- The cell of an entry is of its circuit.
pub sent_of-leaves :
    (conn circuit_id : ℕ) (e : MixEntry)
    → e.active ≡ true
    → sent_of conn circuit_id (leaves e) ≡ (if of_circuit conn circuit_id e then leaves e else [])
unfolding sent_of
sent_of-leaves conn circuit_id e used = rw (used) refl

pub pending_one :
    (entries : List MixEntry) (i : ℕ) → pending entries (i ∷ []) ≡ leaves (at_slot entries i)
unfolding pending
pending_one entries i = append-nil (leaves (at_slot entries i))

pub pending_none : (entries : List MixEntry) → pending entries [] ≡ []
unfolding pending
pending_none entries = refl

pub sent_of_none : (conn circuit_id : ℕ) → sent_of conn circuit_id [] ≡ []
unfolding sent_of
sent_of_none conn circuit_id = refl

module _ (conn circuit_id : ℕ) (Kept : MixEntry → Type 0) where
  -- What the loop leaves of a circuit's queue.
  abbrev pub Sent : List MixEntry → List ℕ → List MixEntry → List Sending → Type 0
  Sent entries q after sent =
      (rest : List ℕ) × Queued conn circuit_id after rest
      × All (λ i. Kept (at_slot after i)) rest
      × pending entries q ≡ sent_of conn circuit_id sent ++ pending after rest

  pub All-Kept-set :
      (entries : List MixEntry) (i : ℕ) (e : MixEntry) (q : List ℕ)
      → Without i q
      → All (λ j. Kept (at_slot entries j)) q
      → All (λ j. Kept (at_slot (set entries i e) j)) q
  All-Kept-set entries i e [] without all = tt
  All-Kept-set entries i e (j ∷ q) (apart, without) (here, later) = (
    subst Kept (sym (get_or-set_ne entries i j e unused_entry apart)) here,
    All-Kept-set entries i e q without later,
  )

  -- A cell of another circuit leaves first.
  pub Sent-other :
      (entries after : List MixEntry) (k : ℕ) (q : List ℕ) (sent : List Sending)
      → (at_slot entries k).active ≡ true
      → of_circuit conn circuit_id (at_slot entries k) ≡ false
      → Without k q
      → Sent (set entries k (wiped (at_slot entries k))) q after sent
      → Sent entries q after (leaves (at_slot entries k) ++ sent)
  Sent-other entries after k q sent used other without (rest, v, kept, sum) =
      let e = at_slot entries k in
      let nothing : sent_of conn circuit_id (leaves e) ≡ [] =
        sent_of-leaves conn circuit_id e used ∙ rw (other) refl in
      let skipped : sent_of conn circuit_id (leaves e ++ sent) ≡ sent_of conn circuit_id sent =
        sent_of-append conn circuit_id (leaves e) sent
        ∙ ap (λ ss. ss ++ sent_of conn circuit_id sent) nothing in
      (
        rest,
        v,
        kept,
        sym (pending-set entries k (wiped e) q without)
            ∙ sum
            ∙ ap (λ ss. ss ++ pending after rest) (sym skipped),
      )

  -- The first cell of the circuit leaves first.
  pub Sent-first :
      (entries after : List MixEntry) (k : ℕ) (q : List ℕ) (sent : List Sending)
      → (at_slot entries k).active ≡ true
      → of_circuit conn circuit_id (at_slot entries k) ≡ true
      → Without k q
      → Sent (set entries k (wiped (at_slot entries k))) q after sent
      → Sent entries (k ∷ q) after (leaves (at_slot entries k) ++ sent)
  unfolding pending
  Sent-first entries after k q sent used mine without (rest, v, kept, sum) =
      let e = at_slot entries k in
      let own : sent_of conn circuit_id (leaves e) ≡ leaves e =
        sent_of-leaves conn circuit_id e used ∙ rw (mine) refl in
      let joined : sent_of conn circuit_id (leaves e ++ sent)
          ≡ leaves e ++ sent_of conn circuit_id sent =
        sent_of-append conn circuit_id (leaves e) sent
        ∙ ap (λ ss. ss ++ sent_of conn circuit_id sent) own in
      (
        rest,
        v,
        kept,
        ap (λ ss. leaves e ++ ss) (sym (pending-set entries k (wiped e) q without) ∙ sum)
            ∙ sym (append_assoc (leaves e) (sent_of conn circuit_id sent) (pending after rest))
            ∙ ap (λ ss. ss ++ pending after rest) (sym joined),
      )
