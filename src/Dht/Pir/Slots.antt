-- ===== src/Dht/Pir/Slots.antt =====
-- src/dht.c, the flat arrays that the handlers of private queries make of a store: a slot holds the
-- latest of its entries.
use moor_pq.Base.{
  ℕ, zero, suc, ◌-◌, ◌≡◌, ◌≢◌, ◌<◌, ◌≤◌, ◌∙◌, refl, ap, true, false, List, [], ◌∷◌, ◌++◌, length,
  get_or, set, take, ltb, leb, leb→le, ◌==◌, if◌then◌else◌, arith, All, Bool-cases, inl, inr, ◌⊎◌,
  zeros, length-set, length-replicate, length-append, length-take, length-zeros, get_or-set_self,
  get_or-set_ne, All-set, All-replicate, replicate,
}
use mathlib.Core.Path.{subst}
use moor_pq.Dht.Pir.{DhtEntry, PirSlot, empty_slot, slot_of, place_entry, place_all, flatten}
use moor_pq.Dht.Pir.Select.{HasSize}

-- What a slot holds of an entry.
abbrev pub content : DhtEntry → PirSlot
content e =
    let dlen = if ltb 32768 e.data_len then 32768 else e.data_len in
    record {
      flat = take dlen e.stored_data ++ zeros (32768 - dlen);
      flat_len = dlen;
      flat_time = e.stored_at;
    }

abbrev pub IsIn : DhtEntry → List DhtEntry → Type 0
IsIn e [] = ⊥
IsIn e (x ∷ es) = (e ≡ x) ⊎ IsIn e es

-- The array of an entry has its size.
abbrev pub IsStored : DhtEntry → Type 0
IsStored e = length e.stored_data ≡ 32768

-- What entries make of slot `p`: it stays if it is later than all of them that belong there, and it
-- holds the latest of these if not.
pub data Latest (p : ℕ) (es : List DhtEntry) (before after : PirSlot) : Type 0 where
  kept :
      All (λ e. slot_of e.address_hash ≡ p → e.stored_at < before.flat_time) es
      → after ≡ before
      → Latest p es before after
  latest :
      (e : DhtEntry)
      → IsIn e es
      → slot_of e.address_hash ≡ p
      → before.flat_time ≤ e.stored_at
      → All (λ x. slot_of x.address_hash ≡ p → x.stored_at ≤ e.stored_at) es
      → after ≡ content e
      → Latest p es before after

pub All-weaken :
    (P Q : DhtEntry → Type 0) (es : List DhtEntry)
    → ((e : DhtEntry) → P e → Q e)
    → All P es
    → All Q es
All-weaken P Q [] h all = tt
All-weaken P Q (e ∷ es) h (p, all) = (h e p, All-weaken P Q es h all)

pub length-content : (x : DhtEntry) → IsStored x → HasSize 32768 (content x)
length-content x stored =
    let dlen = if ltb 32768 x.data_len then 32768 else x.data_len in
    let few : dlen ≤ 32768 = ground arith in
    omega (
      arith,
      length-append (take dlen x.stored_data) (zeros (32768 - dlen)),
      length-take dlen x.stored_data,
      length-zeros (32768 - dlen),
      stored,
    )

length-place_entry :
    (x : DhtEntry) (slots : List PirSlot) → length (place_entry x slots) ≡ length slots
unfolding place_entry
length-place_entry x slots =
    elim (Bool-cases
      (leb (get_or slots (slot_of x.address_hash) empty_slot).flat_time x.stored_at)) [
        | inl later ↦ rw (later) (length-set slots (slot_of x.address_hash) (content x))
        | inr early ↦ rw (early) refl
      ]

place_entry-early :
    (x : DhtEntry) (slots : List PirSlot) (p : ℕ)
    → leb (get_or slots (slot_of x.address_hash) empty_slot).flat_time x.stored_at ≡ false
    → get_or (place_entry x slots) p empty_slot ≡ get_or slots p empty_slot
unfolding place_entry
place_entry-early x slots p early = rw (early) refl

place_entry-later :
    (x : DhtEntry) (slots : List PirSlot) (p : ℕ)
    → slot_of x.address_hash ≡ p
    → p < length slots
    → leb (get_or slots (slot_of x.address_hash) empty_slot).flat_time x.stored_at ≡ true
    → get_or (place_entry x slots) p empty_slot ≡ content x
unfolding place_entry
place_entry-later x slots p at inside later = rw (later) (
    ap (λ q. get_or (set slots q (content x)) p empty_slot) at
    ∙ get_or-set_self slots p (content x) empty_slot inside)

place_entry-ne :
    (x : DhtEntry) (slots : List PirSlot) (p : ℕ)
    → slot_of x.address_hash ≢ p
    → get_or (place_entry x slots) p empty_slot ≡ get_or slots p empty_slot
unfolding place_entry
place_entry-ne x slots p apart =
    elim (Bool-cases
      (leb (get_or slots (slot_of x.address_hash) empty_slot).flat_time x.stored_at)) [
        | inl later ↦
            rw (later) (get_or-set_ne slots (slot_of x.address_hash) p (content x) empty_slot apart)
        | inr early ↦ rw (early) refl
      ]

place_entry-sizes :
    (x : DhtEntry) (slots : List PirSlot)
    → IsStored x
    → All (HasSize 32768) slots
    → All (HasSize 32768) (place_entry x slots)
unfolding place_entry
place_entry-sizes x slots stored all =
    elim (Bool-cases
      (leb (get_or slots (slot_of x.address_hash) empty_slot).flat_time x.stored_at)) [
        | inl later ↦ rw (later) (
            All-set (HasSize 32768) slots (slot_of x.address_hash) (content x) all
              (length-content x stored))
        | inr early ↦ rw (early) all
      ]

leb→gt : (a b : ℕ) → leb a b ≡ false → b < a
leb→gt a b h = ground arith

get_or-replicate : (n i : ℕ) (s : PirSlot) → get_or (replicate n s) i s ≡ s
unfolding replicate
get_or-replicate zero i s = refl
get_or-replicate (suc n) zero s = refl
get_or-replicate (suc n) (suc i) s = get_or-replicate n i s

module _ (p : ℕ) where
  -- An entry before others, of another slot or earlier than what is there.
  passed_by :
      (x : DhtEntry) (es : List DhtEntry) (before after : PirSlot)
      → (slot_of x.address_hash ≡ p → x.stored_at < before.flat_time)
      → Latest p es before after
      → Latest p (x ∷ es) before after
  passed_by x es before after early (kept all e) = kept (early, all) e
  passed_by x es before after early (latest e here at later all eq) =
      latest e (inr here) at later ((λ same. omega (arith, early same)), all) eq

  -- An entry that is written before others.
  written :
      (x : DhtEntry) (es : List DhtEntry) (before after : PirSlot)
      → slot_of x.address_hash ≡ p
      → before.flat_time ≤ x.stored_at
      → Latest p es (content x) after
      → Latest p (x ∷ es) before after
  written x es before after at later (kept all e) =
      latest x (inl refl) at later
        ((λ same. omega arith), All-weaken _ _ es (λ y early same. omega (arith, early same)) all) e
  written x es before after at later (latest e here at_e later_e all eq) =
      latest e (inr here) at_e (omega arith) ((λ same. later_e), all) eq

  place_all-Latest :
      (es : List DhtEntry) (slots : List PirSlot)
      → p < length slots
      → Latest p es (get_or slots p empty_slot) (get_or (place_all es slots) p empty_slot)
  unfolding place_all
  place_all-Latest [] slots inside = kept tt refl
  place_all-Latest (x ∷ es) slots inside =
      let slot = slot_of x.address_hash in
      let size = length-place_entry x slots in
      let rest = place_all-Latest es (place_entry x slots) (omega (arith, size)) in
      elim (Bool-cases (slot == p)) [
        | inr other ↦
            let apart : slot ≢ p = ground (arith, other) in
            passed_by x es _ _ (λ same. absurd (apart same))
              (subst (λ b. Latest p es b (get_or (place_all es (place_entry x slots)) p empty_slot))
                (place_entry-ne x slots p apart) rest)
        | inl here ↦
            let at : slot ≡ p = ground (arith, here) in
            let same_test = ap (λ q. leb (get_or slots q empty_slot).flat_time x.stored_at) at in
            elim (Bool-cases (leb (get_or slots p empty_slot).flat_time x.stored_at)) [
              | inl later ↦ written x es (get_or slots p empty_slot) _ at (leb→le _ _ later) (
                  subst
                    (λ b. Latest p es b (get_or (place_all es (place_entry x slots)) p empty_slot))
                    (place_entry-later x slots p at inside (same_test ∙ later)) rest)
              | inr early ↦
                  passed_by x es (get_or slots p empty_slot) _
                    (λ same. leb→gt (get_or slots p empty_slot).flat_time x.stored_at early)
                    (subst
                      (λ b.
                        Latest p es b (get_or (place_all es (place_entry x slots)) p empty_slot))
                      (place_entry-early x slots p (same_test ∙ early)) rest)
            ]
      ]

place_all-sizes :
    (es : List DhtEntry) (slots : List PirSlot)
    → All IsStored es
    → All (HasSize 32768) slots
    → All (HasSize 32768) (place_all es slots) × length (place_all es slots) ≡ length slots
unfolding place_all
place_all-sizes [] slots stored all = (all, refl)
place_all-sizes (x ∷ es) slots (v, stored) all =
    let (sizes, long) =
      place_all-sizes es (place_entry x slots) stored (place_entry-sizes x slots v all) in
    (sizes, long ∙ length-place_entry x slots)

-- A store becomes 256 slots of 32768 bytes.
pub flatten-sizes :
    (es : List DhtEntry)
    → All IsStored es
    → All (HasSize 32768) (flatten es) × length (flatten es) ≡ 256
unfolding flatten
flatten-sizes es stored =
    let (sizes, long) =
      place_all-sizes es (replicate 256 empty_slot) stored
        (All-replicate (HasSize 32768) 256 empty_slot (length-zeros 32768)) in
    (sizes, long ∙ length-replicate 256 empty_slot)

-- PirSlot `p` of the flat arrays is empty when no entry belongs there; else it holds an entry that does,
-- and none of the others that belong there was stored later.
pub flatten-Latest :
    (p : ℕ) (es : List DhtEntry)
    → p < 256
    → Latest p es empty_slot (get_or (flatten es) p empty_slot)
unfolding flatten
flatten-Latest p es few =
    subst (λ b. Latest p es b (get_or (place_all es (replicate 256 empty_slot)) p empty_slot))
      (get_or-replicate 256 p empty_slot)
      (place_all-Latest p es (replicate 256 empty_slot)
        (omega (arith, length-replicate 256 empty_slot)))
