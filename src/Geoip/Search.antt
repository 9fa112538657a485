-- ===== src/Geoip/Search.antt =====
-- `moor_geoip_lookup_ip` of src/geoip.c finds the range of an address.
use moor_pq.Base.{
  ℕ, zero, suc, ◌+◌, ◌-◌, ◌/◌, ◌≡◌, ◌<◌, ◌≤◌, refl, ap, Option, none, some, List, length, get_or,
  ltb, ltb→lt, ltb→le, arith, Bool-cases, inl, inr, ◌⊎◌, lt_or_le,
}
use moor_pq.Geoip.{GeoipEntry, no_entry, search_loop, lookup_ip}

abbrev pub at_place : List GeoipEntry → ℕ → GeoipEntry
at_place entries i = get_or entries i no_entry

-- The ranges are in order, and apart.
abbrev pub Apart : List GeoipEntry → Type 0
Apart entries =
    (i j : ℕ)
    → i < j
    → j < length entries
    → (at_place entries i).ip_end < (at_place entries j).ip_start

abbrev pub Contains : GeoipEntry → ℕ → Type 0
Contains e ip = (e.ip_start ≤ ip) × (ip ≤ e.ip_end)

-- What is found between two places: nothing, and none of them has the address, or a range that has it.
Found : List GeoipEntry → ℕ → ℕ → ℕ → Option GeoipEntry → Type 0
Found entries ip lo top r =
    (r ≡ none × ((i : ℕ) → lo ≤ i → i < top → Contains (at_place entries i) ip → ⊥))
    ⊎ ((k : ℕ) × r ≡ some (at_place entries k) × k < top × Contains (at_place entries k) ip)

module _ (ip : ℕ) (entries : List GeoipEntry)
    (ordered : (i : ℕ)
      → i < length entries
      → (at_place entries i).ip_start ≤ (at_place entries i).ip_end)
    (apart : Apart entries) where
  -- No range from a place on has an address that is before the one there.
  none_after :
      (mid i : ℕ)
      → mid ≤ i
      → i < length entries
      → ip < (at_place entries mid).ip_start
      → Contains (at_place entries i) ip
      → ⊥
  none_after mid i later inside less has = elim (lt_or_le mid i) [
    | inl below ↦
        absurd (omega (arith, apart mid i below inside, ordered mid (omega arith), less, has))
    | inr here ↦
        let same : i ≡ mid = omega arith in
        absurd (omega (arith, ap (λ m. (at_place entries m).ip_start) same, less, has))
  ]

  none_before :
      (mid i : ℕ)
      → i ≤ mid
      → mid < length entries
      → (at_place entries mid).ip_end < ip
      → Contains (at_place entries i) ip
      → ⊥
  none_before mid i early inside more has = elim (lt_or_le i mid) [
    | inl below ↦ absurd (omega (arith, apart i mid below inside, ordered mid inside, more, has))
    | inr here ↦
        let same : i ≡ mid = omega arith in
        absurd (omega (arith, ap (λ m. (at_place entries m).ip_end) same, more, has))
  ]

  search_loop_lem :
      (fuel lo top : ℕ)
      → top - lo < fuel
      → top ≤ length entries
      → Found entries ip lo top (search_loop fuel ip entries lo top)
  unfolding search_loop Found
  search_loop_lem zero lo top enough inside = absurd (omega arith)
  search_loop_lem (suc fuel) lo top enough inside =
      let mid = (lo + (top - 1)) / 2 in
      let e = at_place entries mid in
      elim (Bool-cases (ltb lo top)) [
        | inr empty ↦
            rw (empty) (inl (refl, λ i low high has. absurd (omega (arith, ltb→le lo top empty))))
        | inl some_left ↦
            let range = ltb→lt lo top some_left in
            elim (Bool-cases (ltb ip e.ip_start)) [
              | inl before ↦
                  let less = ltb→lt ip e.ip_start before in
                  rw (some_left, before)
                    (elim (search_loop_lem fuel lo mid (omega arith) (omega arith)) [
                      | inl (nothing, none_left) ↦ inl (
                        nothing,
                        λ i low high has. elim (lt_or_le i mid) [
                          | inl left ↦ none_left i low left has
                          | inr right ↦ none_after mid i right (omega arith) less has
                        ],
                      )
                      | inr (k, found, low, has) ↦ inr (k, found, omega arith, has)
                    ])
              | inr not_before ↦ elim (Bool-cases (ltb e.ip_end ip)) [
                | inl after ↦
                    let more = ltb→lt e.ip_end ip after in
                    rw (some_left, not_before, after)
                      (elim (search_loop_lem fuel (mid + 1) top (omega arith) inside) [
                        | inl (nothing, none_right) ↦ inl (
                          nothing,
                          λ i low high has. elim (lt_or_le mid i) [
                            | inl right ↦ none_right i (omega arith) high has
                            | inr left ↦ none_before mid i left (omega arith) more has
                          ],
                        )
                        | inr found ↦ inr found
                      ])
                | inr not_after ↦
                    rw (some_left, not_before, not_after)
                      (inr (
                        mid,
                        refl,
                        omega arith,
                        (ltb→le ip e.ip_start not_before, ltb→le e.ip_end ip not_after),
                      ))
              ]
            ]
      ]

-- In a table of ranges that are in order and apart, `moor_geoip_lookup_ip` of an address gives nothing, and no
-- range has the address, or it gives a range that has it, and every range that has it stands in the same
-- place.
pub lookup_ip_lem :
    (ip : ℕ) (entries : List GeoipEntry)
    → ((i : ℕ) → i < length entries → (at_place entries i).ip_start ≤ (at_place entries i).ip_end)
    → Apart entries
    → (lookup_ip entries ip ≡ none
        × ((i : ℕ) → i < length entries → Contains (at_place entries i) ip → ⊥))
      ⊎ ((k : ℕ) × lookup_ip entries ip ≡ some (at_place entries k)
          × k < length entries
          × Contains (at_place entries k) ip
          × ((i : ℕ) → i < length entries → Contains (at_place entries i) ip → i ≡ k))
unfolding lookup_ip Found
lookup_ip_lem ip entries ordered apart =
    let n = length entries in
    elim (search_loop_lem ip entries ordered apart (n + 1) 0 n (omega arith) (omega arith)) [
      | inl (nothing, none_there) ↦ inl (nothing, λ i inside. none_there i (omega arith) inside)
      | inr (k, found, inside, has) ↦ inr (
        k,
        found,
        inside,
        has,
        λ i low has_too. elim (lt_or_le i k) [
          | inl below ↦ absurd (omega (arith, apart i k below inside, has, has_too))
          | inr above ↦ elim (lt_or_le k i) [
            | inl over ↦ absurd (omega (arith, apart k i over low, has, has_too))
            | inr same ↦ omega arith
          ]
        ],
      )
    ]
