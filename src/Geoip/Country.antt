-- ===== src/Geoip/Country.antt =====
-- The country codes of src/geoip.c.
use moor_pq.Base.{
  ℕ, ◌+◌, ◌*◌, ◌%◌, ◌≡◌, ◌<◌, ◌∙◌, ap, ap₂, List, [], ◌∷◌, arith, bit_or, bit_or_fields, u8, u16,
  ◌>>>◌, ◌<<<◌,
}
use moor_pq.Geoip.{pack_country, unpack_country}

-- Two bytes that `moor_geoip_pack_country` makes a code of, whatever follows them, are given back by
-- `moor_geoip_unpack_country`.
pub unpack-pack_country :
    (a b : ℕ) (rest : List ℕ)
    → a < 256
    → b < 256
    → unpack_country (pack_country (a ∷ b ∷ rest)) ≡ a ∷ b ∷ []
unfolding pack_country unpack_country
unpack-pack_country a b rest small_a small_b =
    let same_a : u8 a ≡ a = omega arith in
    let same_b : u8 b ≡ b = omega arith in
    let packed : bit_or (u8 a <<< 8) (u8 b) ≡ a * 256 + b =
      ap₂ (λ x y. bit_or (x <<< 8) y) same_a same_b ∙ bit_or_fields 8 a b (omega arith) in
    let code : u16 (bit_or (u8 a <<< 8) (u8 b)) ≡ a * 256 + b = omega (arith, packed) in
    let high : u8 ((a * 256 + b) >>> 8) ≡ a = omega arith in
    let low : (a * 256 + b) % 256 ≡ b = omega arith in
    ap unpack_country code ∙ ap₂ (λ x y. x ∷ y ∷ []) high low
