-- ===== src/Geoip.antt =====
-- src/geoip.c: the table of address ranges, and the search in it. `inet_pton` and `ntohl`, which
-- `parse_ip_str` calls, are one parameter, 0 for what is no address.
pub mod Search
pub mod Country
mod Tests
use moor_pq.Base.{
  ℕ, zero, suc, ◌+◌, ◌-◌, ◌*◌, ◌/◌, ◌%◌, Bool, true, false, ◌&&◌, not, Option, none, some, List, [],
  ◌∷◌, length, get_or, take, ltb, leb, ◌==◌, if◌then◌else◌, u8, u16, ◌>>>◌, ◌<<<◌, bit_or,
}

-- `moor_geoip_entry_t`
pub record GeoipEntry : Type 0 where
  pub ip_start : ℕ
  pub ip_end : ℕ
  pub country_code : ℕ
  pub as_number : ℕ

abbrev pub no_entry : GeoipEntry
no_entry = record { ip_start = 0; ip_end = 0; country_code = 0; as_number = 0 }

-- `moor_geoip_pack_country`, of the bytes before the end of the text.
pub pack_country : List ℕ → ℕ
pack_country (a ∷ b ∷ rest) = u16 (bit_or (u8 a <<< 8) (u8 b))
pack_country [] = 0
pack_country (a ∷ []) = 0

-- `moor_geoip_unpack_country`
pub unpack_country : ℕ → List ℕ
unpack_country code = u8 (code >>> 8) ∷ code % 256 ∷ []

-- The loop of `moor_geoip_lookup_ip`; `top` is `hi + 1`. Every round makes the range smaller.
pub search_loop : ℕ → ℕ → List GeoipEntry → ℕ → ℕ → Option GeoipEntry
search_loop zero ip entries lo top = none
search_loop (suc fuel) ip entries lo top =
    let mid = (lo + (top - 1)) / 2 in
    let e = get_or entries mid no_entry in
    let left = search_loop fuel ip entries lo mid in
    let right = search_loop fuel ip entries (mid + 1) top in
    if ltb lo top
    then if ltb ip e.ip_start then left else if ltb e.ip_end ip then right else some e
    else none

-- `moor_geoip_lookup_ip`
pub lookup_ip : List GeoipEntry → ℕ → Option GeoipEntry
unfolding search_loop
lookup_ip entries ip = search_loop (length entries + 1) ip entries 0 (length entries)

-- A text up to the first colon, code 58.
pub before_colon : List ℕ → List ℕ
before_colon [] = []
before_colon (c ∷ text) = let rest = before_colon text in if c == 58 then [] else c ∷ rest

-- `moor_geoip_lookup`
pub lookup : (List ℕ → ℕ) → List GeoipEntry → List ℕ → Option GeoipEntry
unfolding lookup_ip before_colon
lookup parse entries addr =
    let ip = parse (before_colon (take 63 addr)) in if ip == 0 then none else lookup_ip entries ip

-- `moor_geoip_same_country`
pub same_country : (List ℕ → ℕ) → List GeoipEntry → List ℕ → List ℕ → Bool
unfolding lookup
same_country parse entries addr1 addr2 = elim (lookup parse entries addr1) [
  | none ↦ false
  | some e1 ↦ elim (lookup parse entries addr2) [
    | none ↦ false
    | some e2 ↦ e1.country_code == e2.country_code
  ]
]

-- `moor_geoip_same_as`
pub same_as : (List ℕ → ℕ) → List GeoipEntry → List ℕ → List ℕ → Bool
unfolding lookup
same_as parse entries addr1 addr2 = elim (lookup parse entries addr1) [
  | none ↦ false
  | some e1 ↦ elim (lookup parse entries addr2) [
    | none ↦ false
    | some e2 ↦ (e1.as_number == e2.as_number) && not (e1.as_number == 0)
  ]
]
