-- ===== src/Base/Xors.antt =====
-- The laws of `^`, and `^` of two arrays of bytes.
use Prim.Native.Nat.{ℕ, zero, suc, ◌+◌, ◌*◌, ◌/◌, ◌%◌, ◌<◌, bit_xor, differ}
use mathlib.Core.Path.{◌≡◌, refl, ap, ap₂, ◌∙◌}
use mathlib.Core.List.{List, [], ◌∷◌}
use native.Mathlib.Nat.{le_refl}
use native.Mathlib.Omega.{arith}
use moor_pq.Base.Lists.{length, get_or}
use moor_pq.Base.Bits.{bit_xor_step, bit_xor-bit_xor_self}

differ_sum : (x y : ℕ) → x < 2 → y < 2 → differ x y ≡ (x + y) % 2
differ_sum zero zero h k = refl
differ_sum zero (suc zero) h k = refl
differ_sum (suc zero) zero h k = refl
differ_sum (suc zero) (suc zero) h k = refl
differ_sum zero (suc (suc y)) h k = absurd (omega arith)
differ_sum (suc zero) (suc (suc y)) h k = absurd (omega arith)
differ_sum (suc (suc x)) y h k = absurd (omega arith)

xor_digits : (a b : ℕ) → bit_xor a b ≡ bit_xor (a / 2) (b / 2) * 2 + (a % 2 + b % 2) % 2
xor_digits a b =
    bit_xor_step a b
    ∙ ap (λ d. bit_xor (a / 2) (b / 2) * 2 + d)
        (differ_sum (a % 2) (b % 2) (omega arith) (omega arith))

-- The lowest bit of an exclusive or.
pub bit_xor-low : (a b : ℕ) → bit_xor a b % 2 ≡ (a + b) % 2
bit_xor-low a b = omega (arith, xor_digits a b)

xor-half : (a b : ℕ) → bit_xor a b / 2 ≡ bit_xor (a / 2) (b / 2)
xor-half a b = omega (arith, xor_digits a b)

xor_comm_fuel : (n a b : ℕ) → a + b < n → bit_xor a b ≡ bit_xor b a
xor_comm_fuel zero a b h = absurd (omega arith)
xor_comm_fuel (suc n) zero zero h = refl
xor_comm_fuel (suc n) (suc a) b h = omega (
  arith,
  xor_digits (suc a) b,
  xor_digits b (suc a),
  xor_comm_fuel n (suc a / 2) (b / 2) (omega arith),
)
xor_comm_fuel (suc n) zero (suc b) h =
    omega (
      arith,
      xor_digits 0 (suc b),
      xor_digits (suc b) 0,
      xor_comm_fuel n 0 (suc b / 2) (omega arith),
    )

pub bit_xor_comm : (a b : ℕ) → bit_xor a b ≡ bit_xor b a
bit_xor_comm a b = xor_comm_fuel (suc (a + b)) a b (le_refl _)

xor_assoc_step :
    (a b c : ℕ)
    → bit_xor (bit_xor (a / 2) (b / 2)) (c / 2) ≡ bit_xor (a / 2) (bit_xor (b / 2) (c / 2))
    → bit_xor (bit_xor a b) c ≡ bit_xor a (bit_xor b c)
xor_assoc_step a b c halves =
    let left : bit_xor (bit_xor a b / 2) (c / 2) ≡ bit_xor (bit_xor (a / 2) (b / 2)) (c / 2) =
      ap (λ x. bit_xor x (c / 2)) (xor-half a b) in
    let right : bit_xor (a / 2) (bit_xor b c / 2) ≡ bit_xor (a / 2) (bit_xor (b / 2) (c / 2)) =
      ap (λ x. bit_xor (a / 2) x) (xor-half b c) in
    omega (
      arith,
      xor_digits (bit_xor a b) c,
      xor_digits a (bit_xor b c),
      bit_xor-low a b,
      bit_xor-low b c,
      left,
      right,
      halves,
    )

xor_assoc_fuel : (n a b c : ℕ) → a + b + c < n → bit_xor (bit_xor a b) c ≡ bit_xor a (bit_xor b c)
xor_assoc_fuel zero a b c h = absurd (omega arith)
xor_assoc_fuel (suc n) zero zero zero h = refl
xor_assoc_fuel (suc n) (suc a) b c h =
    xor_assoc_step (suc a) b c (xor_assoc_fuel n (suc a / 2) (b / 2) (c / 2) (omega arith))
xor_assoc_fuel (suc n) zero (suc b) c h =
    xor_assoc_step 0 (suc b) c (xor_assoc_fuel n (0 / 2) (suc b / 2) (c / 2) (omega arith))
xor_assoc_fuel (suc n) zero zero (suc c) h =
    xor_assoc_step 0 0 (suc c) (xor_assoc_fuel n (0 / 2) (0 / 2) (suc c / 2) (omega arith))

pub bit_xor_assoc : (a b c : ℕ) → bit_xor (bit_xor a b) c ≡ bit_xor a (bit_xor b c)
bit_xor_assoc a b c = xor_assoc_fuel (suc (a + b + c)) a b c (le_refl _)

zero_xor_fuel : (n a : ℕ) → a < n → bit_xor 0 a ≡ a
zero_xor_fuel zero a h = absurd (omega arith)
zero_xor_fuel (suc n) zero h = refl
zero_xor_fuel (suc n) (suc a) h =
    omega (arith, xor_digits 0 (suc a), zero_xor_fuel n (suc a / 2) (omega arith))

pub bit_xor-zero_left : (a : ℕ) → bit_xor 0 a ≡ a
bit_xor-zero_left a = zero_xor_fuel (suc a) a (le_refl _)

-- `for (j) out[j] = a[j] ^ b[j];`, of two arrays of one length.
abbrev pub xor_bytes : List ℕ → List ℕ → List ℕ
xor_bytes [] b = []
xor_bytes (x ∷ a) [] = []
xor_bytes (x ∷ a) (y ∷ b) = bit_xor x y ∷ xor_bytes a b

pub length-xor_bytes : (a b : List ℕ) → length a ≡ length b → length (xor_bytes a b) ≡ length a
length-xor_bytes [] b h = refl
length-xor_bytes (x ∷ a) [] h = absurd (omega (arith, h))
length-xor_bytes (x ∷ a) (y ∷ b) h = ap suc (length-xor_bytes a b (omega (arith, h)))

pub xor_bytes_comm : (a b : List ℕ) → xor_bytes a b ≡ xor_bytes b a
xor_bytes_comm [] [] = refl
xor_bytes_comm [] (y ∷ b) = refl
xor_bytes_comm (x ∷ a) [] = refl
xor_bytes_comm (x ∷ a) (y ∷ b) = ap₂ ◌∷◌ (bit_xor_comm x y) (xor_bytes_comm a b)

pub xor_bytes_assoc : (a b c : List ℕ) → xor_bytes (xor_bytes a b) c ≡ xor_bytes a (xor_bytes b c)
xor_bytes_assoc [] b c = refl
xor_bytes_assoc (x ∷ a) [] c = refl
xor_bytes_assoc (x ∷ a) (y ∷ b) [] = refl
xor_bytes_assoc (x ∷ a) (y ∷ b) (z ∷ c) = ap₂ ◌∷◌ (bit_xor_assoc x y z) (xor_bytes_assoc a b c)

-- What is added twice goes away.
pub xor_bytes_self : (a b : List ℕ) → length a ≡ length b → xor_bytes (xor_bytes a b) b ≡ a
xor_bytes_self [] b h = refl
xor_bytes_self (x ∷ a) [] h = absurd (omega (arith, h))
xor_bytes_self (x ∷ a) (y ∷ b) h =
    ap₂ ◌∷◌ (bit_xor-bit_xor_self x y) (xor_bytes_self a b (omega (arith, h)))

pub get_or-xor_bytes :
    (a b : List ℕ) (i : ℕ)
    → length a ≡ length b
    → get_or (xor_bytes a b) i 0 ≡ bit_xor (get_or a i 0) (get_or b i 0)
get_or-xor_bytes [] [] i h = refl
get_or-xor_bytes [] (y ∷ b) i h = absurd (omega (arith, h))
get_or-xor_bytes (x ∷ a) [] i h = absurd (omega (arith, h))
get_or-xor_bytes (x ∷ a) (y ∷ b) zero h = refl
get_or-xor_bytes (x ∷ a) (y ∷ b) (suc i) h = get_or-xor_bytes a b i (omega (arith, h))
