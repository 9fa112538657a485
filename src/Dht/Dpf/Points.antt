-- ===== src/Dht/Dpf/Points.antt =====
-- The keys of `moor_dpf_gen` in src/dht.c: what the two parties' `moor_dpf_eval_full` make of them
-- differs at the target, and nowhere else.
use moor_pq.Base.{
  ℕ, zero, suc, ◌+◌, ◌*◌, ◌/◌, ◌%◌, ◌^◌, ◌≡◌, ◌<◌, ◌∙◌, refl, sym, ap, ap₂, List, [], ◌∷◌, length,
  get_or, set, take, map, ltb, if◌then◌else◌, bit_xor, xor_bytes, inl, inr, arith, bit_xor-low,
  get_or-xor_bytes, length-xor_bytes, get_or-set_self, length-set,
}
use mathlib.Core.Path.{subst}
use moor_pq.Dht.Dpf.{
  Streams, Node, Cw, gen_level, gen_loop, dpf_gen, expand_node, expand_all, eval_loop, leaf_bit,
  dpf_eval_full,
}
use moor_pq.Dht.Dpf.Level.{Opposite, Apart, Forks, left, right, gen_level_lem}

-- Two lists of one length that are the same but for place `p`, where `At` holds, if they have it.
abbrev pub Differ : {A : Type 0} → (A → A → Type 0) → ℕ → List A → List A → Type 0
Differ At p [] [] = Unit {0}
Differ At p [] (y ∷ ys) = ⊥
Differ At p (x ∷ xs) [] = ⊥
Differ At zero (x ∷ xs) (y ∷ ys) = At x y × xs ≡ ys
Differ At (suc p) (x ∷ xs) (y ∷ ys) = x ≡ y × Differ At p xs ys

take-Differ :
    {A : Type 0} (At : A → A → Type 0) (n p : ℕ) (xs ys : List A)
    → Differ At p xs ys
    → Differ At p (take n xs) (take n ys)
take-Differ At zero p xs ys d = tt
take-Differ At (suc n) p [] [] d = tt
take-Differ At (suc n) p [] (y ∷ ys) d = absurd d
take-Differ At (suc n) p (x ∷ xs) [] d = absurd d
take-Differ At (suc n) zero (x ∷ xs) (y ∷ ys) d = (d.0, ap (take n) d.1)
take-Differ At (suc n) (suc p) (x ∷ xs) (y ∷ ys) d = (d.0, take-Differ At n p xs ys d.1)

map-Differ :
    {A B : Type 0} (At : A → A → Type 0) (At' : B → B → Type 0) (f g : A → B) (p : ℕ)
    (xs ys : List A)
    → f ≡ g
    → ((x y : A) → At x y → At' (f x) (g y))
    → Differ At p xs ys
    → Differ At' p (map f xs) (map g ys)
map-Differ At At' f g p [] [] e h d = tt
map-Differ At At' f g p [] (y ∷ ys) e h d = absurd d
map-Differ At At' f g p (x ∷ xs) [] e h d = absurd d
map-Differ At At' f g zero (x ∷ xs) (y ∷ ys) e h d = (h x y d.0, ap₂ map e d.1)
map-Differ At At' f g (suc p) (x ∷ xs) (y ∷ ys) e h d =
    (ap₂ (λ k z. k z) e d.0, map-Differ At At' f g p xs ys e h d.1)

length-Differ :
    {A : Type 0} (At : A → A → Type 0) (p : ℕ) (xs ys : List A)
    → Differ At p xs ys
    → length xs ≡ length ys
length-Differ At p [] [] d = refl
length-Differ At p [] (y ∷ ys) d = absurd d
length-Differ At p (x ∷ xs) [] d = absurd d
length-Differ At zero (x ∷ xs) (y ∷ ys) d = ap (λ zs. suc (length zs)) d.1
length-Differ At (suc p) (x ∷ xs) (y ∷ ys) d = ap suc (length-Differ At p xs ys d.1)

-- The place of a child.
child : ℕ → ℕ → ℕ
child zero dir = dir
child (suc p) dir = suc (suc (child p dir))

child_sum : (p dir : ℕ) → child p dir ≡ 2 * p + dir
unfolding child
child_sum zero dir = omega arith
child_sum (suc p) dir = omega (arith, child_sum p dir)

-- The two nodes at the place.
abbrev pub Are : Node → Node → Node → Node → Type 0
Are a b x y = x ≡ a × y ≡ b

expand_all-Differ :
    (g : Streams) (cw : Cw) (dir p : ℕ) (a b a' b' : Node) (xs ys : List Node)
    → Forks dir a' b' (expand_node g cw a) (expand_node g cw b)
    → Differ (Are a b) p xs ys
    → Differ (Are a' b') (child p dir) (expand_all g cw xs) (expand_all g cw ys)
unfolding child expand_all
expand_all-Differ g cw dir p a b a' b' [] [] f d = tt
expand_all-Differ g cw dir p a b a' b' [] (y ∷ ys) f d = absurd d
expand_all-Differ g cw dir p a b a' b' (x ∷ xs) [] f d = absurd d
expand_all-Differ g cw dir zero a b a' b' (x ∷ xs) (y ∷ ys) (left c e p q) d =
    let at_x = ap (expand_node g cw) d.0.0 ∙ p in
    let at_y = ap (expand_node g cw) d.0.1 ∙ q in
    rw (e) (
      (ap (λ z. z.0) at_x, ap (λ z. z.0) at_y),
      ap₂ ◌∷◌ (ap (λ z. z.1) at_x ∙ sym (ap (λ z. z.1) at_y)) (ap (expand_all g cw) d.1),
    )
expand_all-Differ g cw dir zero a b a' b' (x ∷ xs) (y ∷ ys) (right c e p q) d =
    let at_x = ap (expand_node g cw) d.0.0 ∙ p in
    let at_y = ap (expand_node g cw) d.0.1 ∙ q in
    rw (e) (
      ap (λ z. z.0) at_x ∙ sym (ap (λ z. z.0) at_y),
      ((ap (λ z. z.1) at_x, ap (λ z. z.1) at_y), ap (expand_all g cw) d.1),
    )
expand_all-Differ g cw dir (suc p) a b a' b' (x ∷ xs) (y ∷ ys) f d = (
  ap (λ z. (expand_node g cw z).0) d.0,
  (ap (λ z. (expand_node g cw z).1) d.0, expand_all-Differ g cw dir p a b a' b' xs ys f d.1),
)

-- Where the way to the target ends, from place `p` on over `k` levels.
pub way : ℕ → ℕ → ℕ → ℕ
way zero target p = p
way (suc k) target p = way k target (child p (target / 2 ^ k % 2))

way_lem : (target : ℕ) → target < 256 → way 8 target 0 ≡ target
unfolding way
way_lem target few = simp (child_sum) (omega arith)

pub eval_loop-Differ :
    (g : Streams) (n k target p : ℕ) (a b : Node) (xs ys : List Node)
    → Apart a b
    → Differ (Are a b) p xs ys
    → Apart (gen_loop g k target a b).1 (gen_loop g k target a b).2
      × Differ
          (Are (gen_loop g k target a b).1 (gen_loop g k target a b).2)
          (way k target p)
          (eval_loop g n (gen_loop g k target a b).0 xs)
          (eval_loop g n (gen_loop g k target a b).0 ys)
unfolding gen_loop eval_loop way
eval_loop-Differ g n zero target p a b xs ys v d = (v, d)
eval_loop-Differ g n (suc k) target p a b xs ys v d =
    let dir = target / 2 ^ k % 2 in
    let (v', forks) = gen_level_lem g dir a b (omega arith) v in
    let cw = (gen_level g dir a b).0 in
    let a' = (gen_level g dir a b).1 in
    let b' = (gen_level g dir a b).2 in
    let next_count : ℕ → ℕ = λ m. if ltb n (m * 2) then n else m * 2 in
    let cut =
      take-Differ (Are a' b') (next_count (length xs)) (child p dir) (expand_all g cw xs)
        (expand_all g cw ys) (expand_all-Differ g cw dir p a b a' b' xs ys forks d) in
    eval_loop-Differ g n k target (child p dir) a' b'
      (take (next_count (length xs)) (expand_all g cw xs))
      (take (next_count (length ys)) (expand_all g cw ys)) v'
      (subst
        (λ m.
          Differ (Are a' b') (child p dir) (take (next_count (length xs)) (expand_all g cw xs))
            (take (next_count m) (expand_all g cw ys)))
        (length-Differ (Are a b) p xs ys d) cut)

-- The lowest bit of a seed `o` after the correction of the leaves, which is made from `x` and `y`.
corrected_bit :
    (o x y : List ℕ)
    → length o ≡ 16
    → length x ≡ 16
    → length y ≡ 16
    → get_or (xor_bytes o (set (xor_bytes x y) 0 (bit_xor (get_or (xor_bytes x y) 0 0) 1))) 0 0 % 2
      ≡ (get_or o 0 0 + get_or x 0 0 + get_or y 0 0 + 1) % 2
corrected_bit o x y size_o size_x size_y =
    let both = xor_bytes x y in
    let size : length both ≡ 16 = length-xor_bytes x y (size_x ∙ sym size_y) ∙ size_x in
    let first = get_or both 0 0 in
    let leaf = set both 0 (bit_xor first 1) in
    let read : get_or leaf 0 0 ≡ bit_xor first 1 =
      get_or-set_self both 0 (bit_xor first 1) 0 (omega arith) in
    omega (
      arith,
      get_or-xor_bytes o leaf 0 (size_o ∙ sym (length-set both 0 (bit_xor first 1) ∙ size)),
      bit_xor-low (get_or o 0 0) (get_or leaf 0 0),
      read,
      bit_xor-low first 1,
      get_or-xor_bytes x y 0 (size_x ∙ sym size_y),
      bit_xor-low (get_or x 0 0) (get_or y 0 0),
    )

odd_sum : (x y : ℕ) → (x + y) % 2 ≡ 1 → y < 2 → Opposite (x % 2) y
odd_sum x zero odd few = inr (omega arith, refl)
odd_sum x (suc zero) odd few = inl (omega arith, refl)
odd_sum x (suc (suc y)) odd few = absurd (omega arith)

Opposite-comm : (x y : ℕ) → Opposite x y → Opposite y x
Opposite-comm x y (inl (p, q)) = inr (q, p)
Opposite-comm x y (inr (p, q)) = inl (q, p)

leaf-Opposite :
    (a b : Node)
    → Apart a b
    → Opposite
        (leaf_bit
          (set (xor_bytes a.seed b.seed) 0 (bit_xor (get_or (xor_bytes a.seed b.seed) 0 0) 1))
          a)
        (leaf_bit
          (set (xor_bytes a.seed b.seed) 0 (bit_xor (get_or (xor_bytes a.seed b.seed) 0 0) 1))
          b)
unfolding leaf_bit
leaf-Opposite a b v = elim v.bits [
  | inl (p, q) ↦
      rw (p, q)
        (odd_sum _ _ (omega (arith, corrected_bit b.seed a.seed b.seed v.size_b v.size_a v.size_b))
          (omega arith))
  | inr (p, q) ↦
      rw (p, q)
        (Opposite-comm _ _ (
          odd_sum _ _ (omega (arith, corrected_bit a.seed a.seed b.seed v.size_a v.size_a v.size_b))
            (omega arith)))
]

pub dpf_eval_full-Differ :
    (g : Streams) (seed_a seed_b : List ℕ) (target n : ℕ)
    → length seed_a ≡ 16
    → length seed_b ≡ 16
    → target < 256
    → Differ Opposite target
        (dpf_eval_full g (dpf_gen g seed_a seed_b target).0 n)
        (dpf_eval_full g (dpf_gen g seed_a seed_b target).1 n)
unfolding dpf_gen dpf_eval_full
dpf_eval_full-Differ g seed_a seed_b target n size_a size_b few =
    let a : Node = record { seed = seed_a; t = 0 } in
    let b : Node = record { seed = seed_b; t = 1 } in
    let n' = if ltb 256 n then 256 else n in
    let start : Apart a b = record { bits = inl (refl, refl); size_a = size_a; size_b = size_b } in
    let (apart, nodes) =
      eval_loop-Differ g n' 8 target 0 a b (a ∷ []) (b ∷ []) start ((refl, refl), refl) in
    let leaf = leaf-Opposite _ _ apart in
    let key_a = (dpf_gen g seed_a seed_b target).0 in
    let key_b = (dpf_gen g seed_a seed_b target).1 in
    let ends = gen_loop g 8 target a b in
    subst (λ p. Differ Opposite p (dpf_eval_full g key_a n) (dpf_eval_full g key_b n))
      (way_lem target few)
      (map-Differ (Are ends.1 ends.2) Opposite (leaf_bit key_a.cw_leaf) (leaf_bit key_b.cw_leaf)
        (way 8 target 0) (eval_loop g n' ends.0 (a ∷ [])) (eval_loop g n' ends.0 (b ∷ [])) refl
        (λ x y at.
          subst (λ z. Opposite (leaf_bit key_a.cw_leaf z) (leaf_bit key_b.cw_leaf y)) (sym at.0)
            (subst (λ z. Opposite (leaf_bit key_a.cw_leaf ends.1) (leaf_bit key_b.cw_leaf z))
              (sym at.1) leaf))
        nodes)
