-- ===== src/Geoip/Tests.antt =====
-- A table of three ranges, and instances of the theorems on src/geoip.c.
use moor_pq.Base.{ℕ, zero, suc, ◌≡◌, ◌<◌, ◌≤◌, ◌⊎◌, none, some, List, [], ◌∷◌, arith}
use moor_pq.Geoip.{GeoipEntry, lookup_ip}
use moor_pq.Geoip.Search.{at_place, Apart, Contains, lookup_ip_lem}

abbrev range_of : ℕ → ℕ → GeoipEntry
range_of a b = record { ip_start = a; ip_end = b; country_code = 17477; as_number = 0 }

abbrev three_ranges : List GeoipEntry
three_ranges = range_of 10 19 ∷ range_of 20 29 ∷ range_of 40 49 ∷ []

three_ranges-ordered :
    (i : ℕ) → i < 3 → (at_place three_ranges i).ip_start ≤ (at_place three_ranges i).ip_end
three_ranges-ordered zero h = omega arith
three_ranges-ordered (suc zero) h = omega arith
three_ranges-ordered (suc (suc zero)) h = omega arith
three_ranges-ordered (suc (suc (suc i))) h = absurd (omega arith)

three_ranges-Apart : Apart three_ranges
three_ranges-Apart i zero h low = absurd (omega arith)
three_ranges-Apart zero (suc zero) h low = omega arith
three_ranges-Apart (suc i) (suc zero) h low = absurd (omega arith)
three_ranges-Apart zero (suc (suc zero)) h low = omega arith
three_ranges-Apart (suc zero) (suc (suc zero)) h low = omega arith
three_ranges-Apart (suc (suc i)) (suc (suc zero)) h low = absurd (omega arith)
three_ranges-Apart i (suc (suc (suc j))) h low = absurd (omega arith)

lookup_ip_lem_example :
    (lookup_ip three_ranges 25 ≡ none
      × ((i : ℕ) → i < 3 → Contains (at_place three_ranges i) 25 → ⊥))
    ⊎ ((k : ℕ) × lookup_ip three_ranges 25 ≡ some (at_place three_ranges k)
        × k < 3
        × Contains (at_place three_ranges k) 25
        × ((i : ℕ) → i < 3 → Contains (at_place three_ranges i) 25 → i ≡ k))
lookup_ip_lem_example = lookup_ip_lem 25 three_ranges three_ranges-ordered three_ranges-Apart
