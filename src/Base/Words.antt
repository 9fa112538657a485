-- ===== src/Base/Words.antt =====
-- The unsigned widths of C, shifts, and the big-endian fields of a wire format.
use Prim.Native.Nat.{ℕ, ◌+◌, ◌-◌, ◌*◌, ◌/◌, ◌%◌, ◌^◌, ◌<◌, bit_or}
use mathlib.Core.Path.{◌≡◌}
use mathlib.Core.List.{List, [], ◌∷◌}
use native.Mathlib.Omega.{arith}
use moor_pq.Base.Bits.{bit_or_fields}

abbrev pub u8 : ℕ → ℕ
u8 n = n % 2 ^ 8

abbrev pub u16 : ℕ → ℕ
u16 n = n % 2 ^ 16

abbrev pub u32 : ℕ → ℕ
u32 n = n % 2 ^ 32

abbrev pub u64 : ℕ → ℕ
u64 n = n % 2 ^ 64

infixl 75 ◌<<<◌ ◌>>>◌
abbrev pub ◌<<<◌ : ℕ → ℕ → ℕ
x <<< k = x * 2 ^ k

abbrev pub ◌>>>◌ : ℕ → ℕ → ℕ
x >>> k = x / 2 ^ k

-- A uint64_t difference wraps.
abbrev pub sub_u64 : ℕ → ℕ → ℕ
sub_u64 a b = (a + 2 ^ 64 - b) % 2 ^ 64

-- `(uint16_t)hi << 8 | lo`
unfoldable pub be16 : ℕ → ℕ → ℕ
be16 hi lo = bit_or (hi <<< 8) lo

-- `(uint32_t)a << 24 | (uint32_t)b << 16 | (uint32_t)c << 8 | d`
unfoldable pub be32 : ℕ → ℕ → ℕ → ℕ → ℕ
be32 a b c d = bit_or (bit_or (bit_or (a <<< 24) (b <<< 16)) (c <<< 8)) d

-- The two bytes of a uint16_t and the four of a uint32_t, most significant first.
abbrev pub put16 : ℕ → List ℕ
put16 v = u8 (v >>> 8) ∷ u8 v ∷ []

abbrev pub put32 : ℕ → List ℕ
put32 v = u8 (v >>> 24) ∷ u8 (v >>> 16) ∷ u8 (v >>> 8) ∷ u8 v ∷ []

pub be16_sum : (hi lo : ℕ) → lo < 256 → be16 hi lo ≡ hi * 256 + lo
unfolding be16
be16_sum hi lo h = bit_or_fields 8 hi lo h

pub be32_sum :
    (a b c d : ℕ)
    → b < 256
    → c < 256
    → d < 256
    → be32 a b c d ≡ a * 2 ^ 24 + b * 2 ^ 16 + c * 2 ^ 8 + d
unfolding be32
be32_sum a b c d hb hc hd =
    rw
      (
        bit_or_fields 24 a (b * 2 ^ 16) (omega arith),
        two,
        bit_or_fields 16 (a * 256 + b) (c * 2 ^ 8) (omega arith),
        three,
        bit_or_fields 8 (a * 2 ^ 16 + b * 256 + c) d hd,
      )
      (omega arith)
  where
    two : a * 2 ^ 24 + b * 2 ^ 16 ≡ (a * 256 + b) * 2 ^ 16
    two = omega arith

    three : (a * 256 + b) * 2 ^ 16 + c * 2 ^ 8 ≡ (a * 2 ^ 16 + b * 256 + c) * 2 ^ 8
    three = omega arith

pub be16-put16 : (v : ℕ) → v < 2 ^ 16 → be16 (u8 (v >>> 8)) (u8 v) ≡ v
be16-put16 v h = omega (arith, be16_sum (u8 (v >>> 8)) (u8 v) (omega arith))

pub be32-put32 :
    (v : ℕ) → v < 2 ^ 32 → be32 (u8 (v >>> 24)) (u8 (v >>> 16)) (u8 (v >>> 8)) (u8 v) ≡ v
be32-put32 v h = omega (
  arith,
  be32_sum (u8 (v >>> 24)) (u8 (v >>> 16)) (u8 (v >>> 8)) (u8 v) (omega arith) (omega arith)
      (omega arith),
)
