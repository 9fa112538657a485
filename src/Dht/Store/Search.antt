-- ===== src/Dht/Store/Search.antt =====
-- The search for an address in the entries of a store (src/dht.c).
use moor_pq.Base.{
  ℕ, zero, suc, ◌+◌, ◌≡◌, ◌<◌, refl, ap, Bool, true, false, Option, none, some, List, [], ◌∷◌, ◌++◌,
  length, get_or, set, take, if◌then◌else◌, arith, Bool-cases, inl, inr, ◌⊎◌,
}
use mathlib.Core.Option
use moor_pq.Sodium.{Sodium}
use moor_pq.Dht.Pir.{DhtEntry}
use moor_pq.Dht.Store.{blank_entry, find_address}

-- One step of a search.
here_or_later :
    (b : Bool) (r : Option ℕ) (i : ℕ)
    → (if b then some 0 else Option.map suc r) ≡ some i
    → (b ≡ true × i ≡ 0) ⊎ (b ≡ false × ((j : ℕ) × r ≡ some j × i ≡ suc j))
here_or_later true r i h = inl (refl, ground (arith, h))
here_or_later false none i h = absurd (ground (arith, h))
here_or_later false (some j) i h = inr (refl, (j, refl, ground (arith, h)))

nowhere :
    (b : Bool) (r : Option ℕ)
    → (if b then some 0 else Option.map suc r) ≡ none
    → b ≡ false × r ≡ none
nowhere true r h = absurd (ground (arith, h))
nowhere false none h = (refl, refl)
nowhere false (some j) h = absurd (ground (arith, h))

module _ (na : Sodium) where
  -- A place that is found is in the list, and has the address.
  pub find_address-some :
      (a : List ℕ) (es : List DhtEntry) (i : ℕ)
      → find_address na a es ≡ some i
      → i < length es × (get_or es i blank_entry).address_hash ≡ a
  unfolding find_address
  find_address-some a [] i h = absurd (ground (arith, h))
  find_address-some a (e ∷ es) i h =
      elim (here_or_later (na.memcmp e.address_hash a) (find_address na a es) i h) [
        | inl (same, first) ↦ rw (first) (omega arith, (na.memcmp_iff e.address_hash a).0 same)
        | inr (other, (j, later, next)) ↦
            let (inside, at) = find_address-some a es j later in rw (next) (omega arith, at)
      ]

  -- A write that keeps the address changes no search.
  pub find_address-set :
      (a : List ℕ) (es : List DhtEntry) (i : ℕ) (e : DhtEntry)
      → e.address_hash ≡ (get_or es i blank_entry).address_hash
      → find_address na a (set es i e) ≡ find_address na a es
  unfolding find_address
  find_address-set a [] i e h = refl
  find_address-set a (x ∷ es) zero e h = rw (h) refl
  find_address-set a (x ∷ es) (suc i) e h = rw (find_address-set a es i e h) refl

  -- A search in a list with one more entry at its end.
  pub find_address-append_some :
      (a : List ℕ) (es : List DhtEntry) (e : DhtEntry) (i : ℕ)
      → find_address na a es ≡ some i
      → find_address na a (es ++ (e ∷ [])) ≡ some i
  unfolding find_address
  find_address-append_some a [] e i h = absurd (ground (arith, h))
  find_address-append_some a (x ∷ es) e i h =
      elim (here_or_later (na.memcmp x.address_hash a) (find_address na a es) i h) [
        | inl (same, first) ↦ rw (same, first) refl
        | inr (other, (j, later, next)) ↦
            rw (other, find_address-append_some a es e j later, next) refl
      ]

  pub find_address-append_none :
      (a : List ℕ) (es : List DhtEntry) (e : DhtEntry)
      → find_address na a es ≡ none
      → find_address na a (es ++ (e ∷ []))
        ≡ (if na.memcmp e.address_hash a then some (length es) else none)
  unfolding find_address
  find_address-append_none a [] e h = refl
  find_address-append_none a (x ∷ es) e h =
      let (other, rest) = nowhere (na.memcmp x.address_hash a) (find_address na a es) h in
      elim (Bool-cases (na.memcmp e.address_hash a)) [
        | inl same ↦ rw (other, find_address-append_none a es e rest, same) refl
        | inr apart ↦ rw (other, find_address-append_none a es e rest, apart) refl
      ]

pub take-set :
    (n i : ℕ) (es : List DhtEntry) (e : DhtEntry)
    → i < n
    → take n (set es i e) ≡ set (take n es) i e
take-set zero i es e h = absurd (omega arith)
take-set (suc n) i [] e h = refl
take-set (suc n) zero (x ∷ es) e h = refl
take-set (suc n) (suc i) (x ∷ es) e h = ap (λ ys. x ∷ ys) (take-set n i es e (omega arith))

pub take-set_end :
    (n : ℕ) (es : List DhtEntry) (e : DhtEntry)
    → n < length es
    → take (n + 1) (set es n e) ≡ take n es ++ (e ∷ [])
take-set_end zero [] e h = absurd (omega arith)
take-set_end zero (x ∷ es) e h = refl
take-set_end (suc n) [] e h = absurd (omega arith)
take-set_end (suc n) (x ∷ es) e h =
    let more : suc n + 1 ≡ suc (n + 1) = omega arith in
    rw (more) (ap (λ ys. x ∷ ys) (take-set_end n es e (omega arith)))

pub get_or-take :
    (n i : ℕ) (es : List DhtEntry)
    → i < n
    → get_or (take n es) i blank_entry ≡ get_or es i blank_entry
get_or-take zero i es h = absurd (omega arith)
get_or-take (suc n) i [] h = refl
get_or-take (suc n) zero (x ∷ es) h = refl
get_or-take (suc n) (suc i) (x ∷ es) h = get_or-take n i es (omega arith)
