-- ===== src/Pow/Zeros.antt =====
-- `has_leading_zeros` of src/pow.c as a bound on the hash read as a number.
use native.Mathlib.Nat.{mul-le-mul_right, mul-le-mul, pow-suc}
use moor_pq.Base.{
  ℕ, zero, suc, ◌+◌, ◌-◌, ◌*◌, ◌/◌, ◌%◌, ◌^◌, ◌≤◌, ◌<◌, ◌≡◌, ◌↔◌, refl, Bool, true, false, not,
  ◌&&◌, List, [], ◌∷◌, length, All, ltb, ◌==◌, u8, bit_and, ◌<<<◌, arith, lt_or_le, inl, inr,
  ltb→lt, lt→ltb,
}
use moor_pq.Pow.{zero_bytes, has_leading_zeros}

-- A hash as a number, its first byte the most significant.
pub value : List ℕ → ℕ
value [] = 0
value (b ∷ hash) = b * 256 ^ length hash + value hash

abbrev IsBytes : List ℕ → Type 0
IsBytes hash = All (λ b. b < 256) hash

-- A property of all bytes, checked byte by byte.
all_below : ℕ → (ℕ → Bool) → Bool
all_below zero p = true
all_below (suc n) p = p n && all_below n p

all_below_lem : (n : ℕ) (p : ℕ → Bool) (x : ℕ) → all_below n p ≡ true → x < n → p x ≡ true
unfolding all_below
all_below_lem zero p x h lt = absurd (omega arith)
all_below_lem (suc n) p x h lt = elim (lt_or_le x n) [
  | inl less ↦ all_below_lem n p x (ground arith) less
  | inr same ↦ let e : x ≡ n = omega arith in rw e (ground arith)
]

same : Bool → Bool → Bool
same true y = y
same false y = not y

same→eq : (x y : Bool) → same x y ≡ true → x ≡ y
unfolding same
same→eq true y h = ground arith
same→eq false y h = ground arith

mask_table :
    all_below 8
      (λ r. all_below 256 (λ b. same (bit_and b (u8 (255 <<< (8 - r))) == 0) (ltb b (2 ^ (8 - r)))))
    ≡ true
unfolding all_below same
mask_table = refl

-- Masking with the `r` high bits leaves nothing of exactly the bytes below 2^(8 - r).
mask_lem :
    (r b : ℕ) → r < 8 → b < 256 → (bit_and b (u8 (255 <<< (8 - r))) == 0) ≡ ltb b (2 ^ (8 - r))
mask_lem r b h lt = same→eq _ _ (
    all_below_lem 256 (λ b. same (bit_and b (u8 (255 <<< (8 - r))) == 0) (ltb b (2 ^ (8 - r)))) b
      (all_below_lem 8
        (λ r.
          all_below 256 (λ b. same (bit_and b (u8 (255 <<< (8 - r))) == 0) (ltb b (2 ^ (8 - r)))))
        r mask_table h)
      lt)

product : (b k w : ℕ) → b < k → (b + 1) * w ≤ k * w
product b k w h = mul-le-mul_right w (omega arith)

product_over : (b k w : ℕ) → k ≤ b → k * w ≤ b * w
product_over b k w h = mul-le-mul_right w h

-- A bound on `b` that decides `P`.
bound_split : {P : Type 0} (b k k' : ℕ) → k' ≡ k → (b < k → P) → (k ≤ b → P → ⊥) → P ↔ (b < k')
bound_split b k k' e yes_case no_case = (
  λ p. elim (lt_or_le b k) [ inl less ↦ omega arith | inr over ↦ absurd (no_case over p) ],
  λ less. yes_case (omega arith),
)

-- A byte and what is below it, against its high bits.
low_bits : (r b v w : ℕ) → r < 8 → v < w → ((b * w + v) * 2 ^ r < w * 256) ↔ (b < 2 ^ (8 - r))
low_bits zero b v w h lt =
    bound_split b 256 _ refl (λ g. omega (arith, product b 256 w g))
      (λ g k. omega (arith, product_over b 256 w g))
low_bits (suc zero) b v w h lt =
    bound_split b 128 _ refl (λ g. omega (arith, product b 128 w g))
      (λ g k. omega (arith, product_over b 128 w g))
low_bits (suc (suc zero)) b v w h lt =
    bound_split b 64 _ refl (λ g. omega (arith, product b 64 w g))
      (λ g k. omega (arith, product_over b 64 w g))
low_bits (suc (suc (suc zero))) b v w h lt =
    bound_split b 32 _ refl (λ g. omega (arith, product b 32 w g))
      (λ g k. omega (arith, product_over b 32 w g))
low_bits (suc (suc (suc (suc zero)))) b v w h lt =
    bound_split b 16 _ refl (λ g. omega (arith, product b 16 w g))
      (λ g k. omega (arith, product_over b 16 w g))
low_bits (suc (suc (suc (suc (suc zero))))) b v w h lt =
    bound_split b 8 _ refl (λ g. omega (arith, product b 8 w g))
      (λ g k. omega (arith, product_over b 8 w g))
low_bits (suc (suc (suc (suc (suc (suc zero)))))) b v w h lt =
    bound_split b 4 _ refl (λ g. omega (arith, product b 4 w g))
      (λ g k. omega (arith, product_over b 4 w g))
low_bits (suc (suc (suc (suc (suc (suc (suc zero))))))) b v w h lt =
    bound_split b 2 _ refl (λ g. omega (arith, product b 2 w g))
      (λ g k. omega (arith, product_over b 2 w g))
low_bits (suc (suc (suc (suc (suc (suc (suc (suc r)))))))) b v w h lt = absurd (omega arith)

value-lt : (hash : List ℕ) → IsBytes hash → value hash < 256 ^ length hash
unfolding value
value-lt [] v = omega arith
value-lt (b ∷ hash) v =
    omega
      (arith, value-lt hash v.1, product b 256 (256 ^ length hash) v.0, pow-suc 256 (length hash))

zeros_byte :
    (b : ℕ) (hash : List ℕ) (bits : ℕ)
    → bits ≤ length hash * 8
    → has_leading_zeros (b ∷ hash) (bits + 8) ≡ (b == 0 && has_leading_zeros hash bits)
unfolding has_leading_zeros zero_bytes
zeros_byte b hash bits h =
    let quotient : (bits + 8) / 8 ≡ suc (bits / 8) = omega arith in
    let rest : (bits + 8) % 8 ≡ bits % 8 = omega arith in rw (quotient, rest) (ground arith)

zeros_bits :
    (b : ℕ) (hash : List ℕ) (bits : ℕ)
    → bits < 8
    → b < 256
    → has_leading_zeros (b ∷ hash) bits ≡ ltb b (2 ^ (8 - bits))
unfolding has_leading_zeros zero_bytes
zeros_bits b hash bits h lt =
    let quotient : bits / 8 ≡ 0 = omega arith in
    let rest : bits % 8 ≡ bits = omega arith in
    rw (quotient, rest) (ground (arith, mask_lem bits b h lt))

zeros_none : (hash : List ℕ) → has_leading_zeros hash 0 ≡ true
unfolding has_leading_zeros
zeros_none hash = refl

pow_byte : (k : ℕ) → 2 ^ (k + 8) ≡ 2 ^ k * 256
pow_byte k =
    let shifted : k + 8 ≡ suc (suc (suc (suc (suc (suc (suc (suc k))))))) = omega arith in
    rw
      (
        shifted,
        pow-suc 2 (suc (suc (suc (suc (suc (suc (suc k))))))),
        pow-suc 2 (suc (suc (suc (suc (suc (suc k)))))),
        pow-suc 2 (suc (suc (suc (suc (suc k))))),
        pow-suc 2 (suc (suc (suc (suc k)))),
        pow-suc 2 (suc (suc (suc k))),
        pow-suc 2 (suc (suc k)),
        pow-suc 2 (suc k),
        pow-suc 2 k,
      )
      (omega arith)

pow_pos : (k : ℕ) → 0 < 2 ^ k
pow_pos zero = omega arith
pow_pos (suc k) = omega (arith, pow_pos k, pow-suc 2 k)

-- A first byte that is zero, and one that is not, against eight bits and more.
head_zero : (v w k : ℕ) → ((0 * w + v) * 2 ^ (k + 8) < w * 256) ↔ (v * 2 ^ k < w)
head_zero v w k =
    let e : (0 * w + v) * 2 ^ (k + 8) ≡ v * 2 ^ k * 256 = rw (pow_byte k) (grind arith) in
    rw e (λ h. omega arith, λ h. omega arith)

head_more : (b v w k : ℕ) → w * 256 ≤ (suc b * w + v) * 2 ^ (k + 8)
head_more b v w k =
    mul-le-mul {n₁ = w} {m₁ = 256} {n₂ = suc b * w + v} {m₂ = 2 ^ (k + 8)} (grind arith)
      (omega (arith, pow_byte k, pow_pos k))

many_bits :
    (b : ℕ) (hash : List ℕ) (k bits : ℕ)
    → bits ≡ k + 8
    → IsBytes (b ∷ hash)
    → (has_leading_zeros hash k ≡ true) ↔ (value hash * 2 ^ k < 256 ^ length hash)
    → bits ≤ suc (length hash) * 8
    → (has_leading_zeros (b ∷ hash) bits ≡ true)
      ↔ (value (b ∷ hash) * 2 ^ bits < 256 ^ suc (length hash))
unfolding value
many_bits zero hash k bits e v ih h =
    let zero_head = head_zero (value hash) (256 ^ length hash) k in
    rw (e, zeros_byte 0 hash k (omega arith), pow-suc 256 (length hash))
      (λ t. zero_head.1 (ih.0 t), λ less. ih.1 (zero_head.0 less))
many_bits (suc b) hash k bits e v ih h =
    rw (e, zeros_byte (suc b) hash k (omega arith), pow-suc 256 (length hash))
      (
        λ t. absurd (ground arith),
        λ less. absurd (omega (arith, head_more b (value hash) (256 ^ length hash) k)),
      )

-- A hash is taken for a difficulty exactly when, read as a number with its first byte the most
-- significant, it is below 2^(8 n - bits) for a hash of n bytes: written without the difference.
pub has_leading_zeros_iff :
    (hash : List ℕ) (bits : ℕ)
    → All (λ b. b < 256) hash
    → bits ≤ length hash * 8
    → (has_leading_zeros hash bits ≡ true) ↔ (value hash * 2 ^ bits < 256 ^ length hash)
unfolding value
has_leading_zeros_iff [] bits v h =
    let none_left : bits ≡ 0 = omega arith in rw none_left (λ e. omega arith, λ h. zeros_none [])
has_leading_zeros_iff (b ∷ hash) bits v h = elim (lt_or_le bits 8) [
  | inl few ↦
      let low = low_bits bits b (value hash) (256 ^ length hash) few (value-lt hash v.1) in
      rw (zeros_bits b hash bits few v.0, pow-suc 256 (length hash))
        (λ e. low.1 (ltb→lt b _ e), λ less. lt→ltb b _ (low.0 less))
  | inr many ↦
      many_bits b hash (bits - 8) bits (omega arith) v
        (has_leading_zeros_iff hash (bits - 8) v.1 (omega arith)) h
]
