-- ===== src/Dht/Dpf/Level.antt =====
-- One level of the tree of `moor_dpf_gen` and `moor_dpf_eval_full` in src/dht.c: the children on the
-- way to the target stay apart, and the others become equal.
use moor_pq.Base.{
  ℕ, zero, suc, ◌≡◌, ◌<◌, ◌∙◌, refl, sym, ap, ap₂, List, [], ◌∷◌, length, drop, zeros, bit_xor,
  xor_bytes, ◌⊎◌, inl, inr, arith, length-take, length-drop, xor_bytes_self, xor_bytes_comm,
  length-xor_bytes,
}
use moor_pq.Dht.Dpf.{Streams, Node, dpf_prg, correct, gen_level, expand_node}

-- Exactly one of two control bits is set.
abbrev pub Opposite : ℕ → ℕ → Type 0
Opposite x y = (x ≡ 0 × y ≡ 1) ⊎ (x ≡ 1 × y ≡ 0)

-- The nodes of the two parties on the way to the target.
pub record Apart (a b : Node) : Type 0 where
  pub bits : Opposite a.t b.t
  pub size_a : length a.seed ≡ 16
  pub size_b : length b.seed ≡ 16

-- A node with a seed of 16 bytes and a bit.
pub record IsNode (n : Node) : Type 0 where
  pub size : length n.seed ≡ 16
  pub bit : n.t < 2

pub dpf_prg-IsNode :
    (g : Streams) (seed : List ℕ) → IsNode (dpf_prg g seed).0 × IsNode (dpf_prg g seed).1
unfolding dpf_prg
dpf_prg-IsNode g seed =
    let key =
      g.keyed_hash 32 seed
        (109 ∷ 111 ∷ 111 ∷ 114 ∷ 45 ∷ 100 ∷ 112 ∷ 102 ∷ 45 ∷ 112 ∷ 114 ∷ 103 ∷ []) in
    let out = g.chacha20 34 (zeros 8) key in
    let long = g.length-chacha20 34 (zeros 8) key in
    (
      record { size = omega (arith, length-take 16 out, long); bit = omega arith },
      record {
        size = omega (arith, length-take 16 (drop 17 out), length-drop 17 out, long);
        bit = omega arith;
      },
    )

node_eq : (n m : Node) → n.seed ≡ m.seed → n.t ≡ m.t → n ≡ m
node_eq n m p q = ap₂ (λ s t. record { seed = s; t = t }) p q

lose_bit_a : (x y : ℕ) → x < 2 → y < 2 → bit_xor x (bit_xor (bit_xor x y) 0) ≡ y
lose_bit_a zero zero h k = refl
lose_bit_a zero (suc zero) h k = refl
lose_bit_a (suc zero) zero h k = refl
lose_bit_a (suc zero) (suc zero) h k = refl
lose_bit_a zero (suc (suc y)) h k = absurd (omega arith)
lose_bit_a (suc zero) (suc (suc y)) h k = absurd (omega arith)
lose_bit_a (suc (suc x)) y h k = absurd (omega arith)

lose_bit_b : (x y : ℕ) → x < 2 → y < 2 → bit_xor y (bit_xor (bit_xor x y) 0) ≡ x
lose_bit_b zero zero h k = refl
lose_bit_b zero (suc zero) h k = refl
lose_bit_b (suc zero) zero h k = refl
lose_bit_b (suc zero) (suc zero) h k = refl
lose_bit_b zero (suc (suc y)) h k = absurd (omega arith)
lose_bit_b (suc zero) (suc (suc y)) h k = absurd (omega arith)
lose_bit_b (suc (suc x)) y h k = absurd (omega arith)

keep_bit_a : (x y : ℕ) → x < 2 → y < 2 → Opposite (bit_xor x (bit_xor (bit_xor x y) 1)) y
keep_bit_a zero zero h k = inr (refl, refl)
keep_bit_a zero (suc zero) h k = inl (refl, refl)
keep_bit_a (suc zero) zero h k = inr (refl, refl)
keep_bit_a (suc zero) (suc zero) h k = inl (refl, refl)
keep_bit_a zero (suc (suc y)) h k = absurd (omega arith)
keep_bit_a (suc zero) (suc (suc y)) h k = absurd (omega arith)
keep_bit_a (suc (suc x)) y h k = absurd (omega arith)

keep_bit_b : (x y : ℕ) → x < 2 → y < 2 → Opposite x (bit_xor y (bit_xor (bit_xor x y) 1))
keep_bit_b zero zero h k = inl (refl, refl)
keep_bit_b zero (suc zero) h k = inl (refl, refl)
keep_bit_b (suc zero) zero h k = inr (refl, refl)
keep_bit_b (suc zero) (suc zero) h k = inr (refl, refl)
keep_bit_b zero (suc (suc y)) h k = absurd (omega arith)
keep_bit_b (suc zero) (suc (suc y)) h k = absurd (omega arith)
keep_bit_b (suc (suc x)) y h k = absurd (omega arith)

cancel_left : (y x : List ℕ) → length y ≡ length x → xor_bytes y (xor_bytes x y) ≡ x
cancel_left y x h = xor_bytes_comm y (xor_bytes x y) ∙ xor_bytes_self x y (sym h)

-- The child that is lost is one and the same for both parties.
lost :
    (x y : Node) (t_x t_y : ℕ)
    → IsNode x
    → IsNode y
    → Opposite t_x t_y
    → correct t_x (xor_bytes x.seed y.seed) (bit_xor (bit_xor x.t y.t) 0) x
      ≡ correct t_y (xor_bytes x.seed y.seed) (bit_xor (bit_xor x.t y.t) 0) y
unfolding correct
lost x y t_x t_y v w (inl (p, q)) =
    rw (p, q)
      (sym (
        node_eq _ _ (cancel_left y.seed x.seed (w.size ∙ sym v.size))
          (lose_bit_b x.t y.t v.bit w.bit)))
lost x y t_x t_y v w (inr (p, q)) =
    rw (p, q)
      (node_eq _ _
        (ap (xor_bytes x.seed) (xor_bytes_comm x.seed y.seed)
          ∙ cancel_left x.seed y.seed (v.size ∙ sym w.size))
        (lose_bit_a x.t y.t v.bit w.bit))

-- The children that are kept stay apart.
kept :
    (x y : Node) (s : List ℕ) (t_x t_y : ℕ)
    → IsNode x
    → IsNode y
    → length s ≡ 16
    → Opposite t_x t_y
    → Apart
        (correct t_x s (bit_xor (bit_xor x.t y.t) 1) x)
        (correct t_y s (bit_xor (bit_xor x.t y.t) 1) y)
unfolding correct
kept x y s t_x t_y v w size (inl (p, q)) =
    rw (p, q)
      (record {
        bits = keep_bit_b x.t y.t v.bit w.bit;
        size_a = v.size;
        size_b = length-xor_bytes y.seed s (w.size ∙ sym size) ∙ w.size;
      })
kept x y s t_x t_y v w size (inr (p, q)) =
    rw (p, q)
      (record {
        bits = keep_bit_a x.t y.t v.bit w.bit;
        size_a = length-xor_bytes x.seed s (v.size ∙ sym size) ∙ v.size;
        size_b = w.size;
      })

-- The children of two nodes: on the side of `dir` they are `a` and `b`, on the other side the same.
pub data Forks (dir : ℕ) (a b : Node) (of_a of_b : Node × Node) : Type 0 where
  left : (c : Node) → dir ≡ 0 → of_a ≡ (a, c) → of_b ≡ (b, c) → Forks dir a b of_a of_b
  right : (c : Node) → dir ≡ 1 → of_a ≡ (c, a) → of_b ≡ (c, b) → Forks dir a b of_a of_b

-- What a level of `moor_dpf_gen` makes is what the correction word makes of the nodes of both parties.
pub gen_level_lem :
    (g : Streams) (dir : ℕ) (a b : Node)
    → dir < 2
    → Apart a b
    → Apart (gen_level g dir a b).1 (gen_level g dir a b).2
      × Forks dir
          (gen_level g dir a b).1
          (gen_level g dir a b).2
          (expand_node g (gen_level g dir a b).0 a)
          (expand_node g (gen_level g dir a b).0 b)
unfolding gen_level expand_node
gen_level_lem g zero a b few v =
    let (a_l, a_r) = dpf_prg-IsNode g a.seed in
    let (b_l, b_r) = dpf_prg-IsNode g b.seed in
    let x = dpf_prg g a.seed in
    let y = dpf_prg g b.seed in
    let s = xor_bytes x.1.seed y.1.seed in
    let size : length s ≡ 16 =
      length-xor_bytes x.1.seed y.1.seed (a_r.size ∙ sym b_r.size) ∙ a_r.size in
    let same = lost x.1 y.1 a.t b.t a_r b_r v.bits in
    (
      kept x.0 y.0 s a.t b.t a_l b_l size v.bits,
      left (correct b.t s (bit_xor (bit_xor x.1.t y.1.t) 0) y.1) refl
          (ap (λ c. (correct a.t s (bit_xor (bit_xor x.0.t y.0.t) 1) x.0, c)) same) refl,
    )
gen_level_lem g (suc zero) a b few v =
    let (a_l, a_r) = dpf_prg-IsNode g a.seed in
    let (b_l, b_r) = dpf_prg-IsNode g b.seed in
    let x = dpf_prg g a.seed in
    let y = dpf_prg g b.seed in
    let s = xor_bytes x.0.seed y.0.seed in
    let size : length s ≡ 16 =
      length-xor_bytes x.0.seed y.0.seed (a_l.size ∙ sym b_l.size) ∙ a_l.size in
    let same = lost x.0 y.0 a.t b.t a_l b_l v.bits in
    (
      kept x.1 y.1 s a.t b.t a_r b_r size v.bits,
      right (correct b.t s (bit_xor (bit_xor x.0.t y.0.t) 0) y.0) refl
          (ap (λ c. (c, correct a.t s (bit_xor (bit_xor x.1.t y.1.t) 1) x.1)) same) refl,
    )
gen_level_lem g (suc (suc dir)) a b few v = absurd (omega arith)
