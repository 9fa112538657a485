-- ===== src/Base/Bits.antt =====
-- `|` of disjoint fields as a sum, and the laws of `^`, at every width.
use Prim.Native.Nat.{ℕ, zero, suc, ◌+◌, ◌-◌, ◌*◌, ◌/◌, ◌%◌, ◌^◌, ◌≤◌, ◌<◌, max}
use Prim.Native.Nat.{digits, bitwise, differ, bit_or, bit_xor, bit_or-bitwise, bit_xor-bitwise}
use mathlib.Core.Path.{◌≡◌, refl, ap, ◌∙◌}
use native.Mathlib.Nat.{le_refl, pow-suc}
use native.Mathlib.Omega.{arith}
use mathlib.Core.Logic.{inl, inr}
use moor_pq.Base.Tests.{lt_or_le}

-- The native operations are `digits`, a recursion on fuel. A step more changes nothing once the
-- fuel is the first operand.
module _ (rest : ℕ → ℕ) (op : ℕ → ℕ → ℕ) where
  digits_more : (fuel x y : ℕ) → x ≤ fuel → digits rest op (suc fuel) x y ≡ digits rest op fuel x y
  digits_more zero zero y h = refl
  digits_more zero (suc x) y h = absurd (omega arith)
  digits_more (suc fuel) zero y h = refl
  digits_more (suc fuel) (suc x) y h =
      ap (λ q. q * 2 + op (suc x % 2) (y % 2)) (digits_more fuel (suc x / 2) (y / 2) (omega arith))

  digits_spare :
      (spare fuel x y : ℕ) → fuel ≡ spare + x → digits rest op fuel x y ≡ bitwise rest op x y
  digits_spare zero fuel x y e = ap (λ n. digits rest op n x y) (omega arith)
  digits_spare (suc spare) fuel x y e =
      ap (λ n. digits rest op n x y) {y = suc (spare + x)} (omega arith)
      ∙ digits_more (spare + x) x y (omega arith)
      ∙ digits_spare spare (spare + x) x y refl

  -- The lowest digit, and the others.
  bitwise_lowest :
      (x y : ℕ)
      → 0 < x
      → bitwise rest op x y ≡ bitwise rest op (x / 2) (y / 2) * 2 + op (x % 2) (y % 2)
  bitwise_lowest zero y h = absurd (omega arith)
  bitwise_lowest (suc x) y h =
      ap (λ q. q * 2 + op (suc x % 2) (y % 2))
        (digits_spare (x - suc x / 2) x (suc x / 2) (y / 2) (omega arith))

bit_or_step : (a b : ℕ) → bit_or a b ≡ bit_or (a / 2) (b / 2) * 2 + max (a % 2) (b % 2)
bit_or_step a b = elim (lt_or_le 0 a) [
  | inl some_digit ↦
      rw (bit_or-bitwise a b, bit_or-bitwise (a / 2) (b / 2)) (bitwise_lowest _ max a b some_digit)
  | inr none_left ↦
      let e : a ≡ 0 = omega arith in
      rw (e, bit_or-bitwise 0 b, bit_or-bitwise 0 (b / 2)) (omega arith)
]

or_nothing_fuel : (fuel word : ℕ) → word < fuel → bit_or word 0 ≡ word
or_nothing_fuel zero word h = absurd (omega arith)
or_nothing_fuel (suc fuel) zero h = refl
or_nothing_fuel (suc fuel) (suc word) h =
    let lower = or_nothing_fuel fuel (suc word / 2) (omega arith) in
    bit_or_step (suc word) 0 ∙ omega (arith, lower)

-- A field that is shifted once more is even, and its half is the field before.
shifted_even :
    (width high : ℕ) → high * 2 ^ suc width % 2 ≡ 0 × high * 2 ^ suc width / 2 ≡ high * 2 ^ width
shifted_even width high =
    let once : high * 2 ^ suc width ≡ high * 2 ^ width * 2 = rw (pow-suc 2 width) (omega arith) in
    (omega (arith, once), omega (arith, once))

-- Two fields of a word, `(high << width) | low`, are put together by a sum: their bits are apart.
pub bit_or_fields :
    (width high low : ℕ) → low < 2 ^ width → bit_or (high * 2 ^ width) low ≡ high * 2 ^ width + low
bit_or_fields zero high low one_bit =
    let none_low : low ≡ 0 = omega arith in
    rw (none_low) (or_nothing_fuel (suc (high * 2 ^ 0)) (high * 2 ^ 0) (le_refl _) ∙ omega arith)
bit_or_fields (suc width) high low inside =
    let (even, half) = shifted_even width high in
    let smaller : low / 2 < 2 ^ width = omega (arith, pow-suc 2 width) in
    let above = ap (λ x. bit_or x (low / 2)) half ∙ bit_or_fields width high (low / 2) smaller in
    bit_or_step (high * 2 ^ suc width) low ∙ omega (arith, above, even, half)

pub bit_xor_step : (a b : ℕ) → bit_xor a b ≡ bit_xor (a / 2) (b / 2) * 2 + differ (a % 2) (b % 2)
bit_xor_step a b = elim (lt_or_le 0 a) [
  | inl some_digit ↦
      rw (bit_xor-bitwise a b, bit_xor-bitwise (a / 2) (b / 2))
        (bitwise_lowest _ differ a b some_digit)
  | inr none_left ↦
      let e : a ≡ 0 = omega arith in
      rw (e, bit_xor-bitwise 0 b, bit_xor-bitwise 0 (b / 2)) (omega arith)
]

differ_bit : (x y : ℕ) → x < 2 → y < 2 → (differ x y < 2) × (differ (differ x y) y ≡ x)
differ_bit zero zero h k = (omega arith, refl)
differ_bit zero (suc zero) h k = (omega arith, refl)
differ_bit (suc zero) zero h k = (omega arith, refl)
differ_bit (suc zero) (suc zero) h k = (omega arith, refl)
differ_bit zero (suc (suc y)) h k = absurd (omega arith)
differ_bit (suc zero) (suc (suc y)) h k = absurd (omega arith)
differ_bit (suc (suc x)) y h k = absurd (omega arith)

xor_self_fuel : (n a b : ℕ) → a + b < n → bit_xor (bit_xor a b) b ≡ a
xor_self_fuel zero a b h = absurd (omega arith)
xor_self_fuel (suc n) zero zero h = refl
xor_self_fuel (suc n) (suc a) b h = ground (
  arith,
  bit_xor_step (suc a) b,
  bit_xor_step (bit_xor (suc a) b) b,
  differ_bit (suc a % 2) (b % 2),
  xor_self_fuel n (suc a / 2) (b / 2),
)
xor_self_fuel (suc n) zero (suc b) h = ground (
  arith,
  bit_xor_step 0 (suc b),
  bit_xor_step (bit_xor 0 (suc b)) (suc b),
  differ_bit 0 (suc b % 2),
  xor_self_fuel n 0 (suc b / 2),
)

-- The same word twice gives the value back.
pub bit_xor-bit_xor_self : (a b : ℕ) → bit_xor (bit_xor a b) b ≡ a
bit_xor-bit_xor_self a b = xor_self_fuel (suc (a + b)) a b (le_refl _)

-- The exclusive or of two `k`-bit words is a `k`-bit word.
pub bit_xor-lt : (k a b : ℕ) → a < 2 ^ k → b < 2 ^ k → bit_xor a b < 2 ^ k
bit_xor-lt zero zero zero h g = omega arith
bit_xor-lt zero (suc a) b h g = absurd (omega arith)
bit_xor-lt zero zero (suc b) h g = absurd (omega arith)
bit_xor-lt (suc k) a b h g = omega (
  arith,
  bit_xor_step a b,
  differ_bit (a % 2) (b % 2) (omega arith) (omega arith),
  pow-suc 2 k,
  bit_xor-lt k (a / 2) (b / 2) (omega (arith, pow-suc 2 k)) (omega (arith, pow-suc 2 k)),
)
