-- ===== src/Dht/Ring/Distance.antt =====
-- `moor_dht_distance_cmp` of src/dht.c compares distances as numbers.
use moor_pq.Base.{
  ℕ, ◌+◌, ◌*◌, ◌^◌, ◌≡◌, ◌<◌, refl, sym, ap, ap₂, List, [], ◌∷◌, length, ltb, arith, All,
  Bool-cases, inl, inr, ltb→lt, ltb→le,
}
use native.Mathlib.Nat.{pow-suc}
use moor_pq.Dht.Ring.{Sign, minus, nought, plus, dht_distance_cmp}

-- An array of bytes as a number, the most significant byte first.
pub value : List ℕ → ℕ
value [] = 0
value (x ∷ d) = x * 256 ^ length d + value d

abbrev pub Bytes : List ℕ → Type 0
Bytes d = All (λ b. b < 256) d

-- What a sign says of two numbers.
abbrev pub Compares : Sign → ℕ → ℕ → Type 0
Compares minus m n = m < n
Compares nought m n = m ≡ n
Compares plus m n = n < m

high_first : (x y k v w : ℕ) → x < y → v < k → x * k + v < y * k + w
high_first x y k v w less inside = grind arith

high_first_at : (x y k l v w : ℕ) → x < y → v < k → k ≡ l → x * k + v < y * l + w
high_first_at x y k l v w less inside e =
    omega (arith, high_first x y k v w less inside, ap (λ n. y * n) e)

same_first :
    (s : Sign) (x y k l v w : ℕ)
    → x ≡ y
    → k ≡ l
    → Compares s v w
    → Compares s (x * k + v) (y * l + w)
same_first minus x y k l v w p q h = omega (arith, ap₂ ◌*◌ p q)
same_first nought x y k l v w p q h = omega (arith, ap₂ ◌*◌ p q)
same_first plus x y k l v w p q h = omega (arith, ap₂ ◌*◌ p q)

byte_room : (x k v : ℕ) → x < 256 → v < k → x * k + v < k * 256
byte_room x k v few inside = grind arith

value-lt : (d : List ℕ) → Bytes d → value d < 256 ^ length d
unfolding value
value-lt [] all = omega arith
value-lt (x ∷ d) (few, all) =
    rw (pow-suc 256 (length d)) (byte_room x (256 ^ length d) (value d) few (value-lt d all))

-- For two distances of one length, the order of the numbers that they are.
pub dht_distance_cmp_lem :
    (d1 d2 : List ℕ)
    → length d1 ≡ length d2
    → Bytes d1
    → Bytes d2
    → Compares (dht_distance_cmp d1 d2) (value d1) (value d2)
unfolding dht_distance_cmp value
dht_distance_cmp_lem [] [] e v w = refl
dht_distance_cmp_lem [] (y ∷ d2) e v w = absurd (omega arith)
dht_distance_cmp_lem (x ∷ d1) [] e v w = absurd (omega arith)
dht_distance_cmp_lem (x ∷ d1) (y ∷ d2) e (few, v) (few', w) =
    let powers : 256 ^ length d1 ≡ 256 ^ length d2 = ap (λ n. 256 ^ n) (omega arith) in
    elim (Bool-cases (ltb x y)) [
      | inl less ↦ rw (less) (
          high_first_at x y (256 ^ length d1) (256 ^ length d2) (value d1) (value d2)
            (ltb→lt x y less) (value-lt d1 v) powers)
      | inr le ↦ elim (Bool-cases (ltb y x)) [
        | inl more ↦
            rw (le, more)
              (high_first_at y x (256 ^ length d2) (256 ^ length d1) (value d2) (value d1)
                (ltb→lt y x more) (value-lt d2 w) (sym powers))
        | inr ge ↦
            rw (le, ge)
              (same_first (dht_distance_cmp d1 d2) x y (256 ^ length d1) (256 ^ length d2)
                (value d1) (value d2) (omega (arith, ltb→le x y le, ltb→le y x ge)) powers
                (dht_distance_cmp_lem d1 d2 (omega arith) v w))
      ]
    ]
