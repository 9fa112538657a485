-- ===== src/Dht/Dpf/Keys.antt =====
-- What `moor_dpf_gen` of src/dht.c makes are keys: every array has its size, and every bit is one;
-- and `moor_dpf_eval_full` has a bit for every slot.
use moor_pq.Base.{
  ℕ, zero, suc, ◌*◌, ◌/◌, ◌%◌, ◌^◌, ◌≡◌, ◌<◌, ◌≤◌, ◌∙◌, refl, sym, ap, min, List, [], ◌∷◌, length,
  get_or, take, ltb, ◌==◌, if◌then◌else◌, arith, All, bit_xor, bit_xor-lt, xor_bytes,
  length-xor_bytes, length-set, length-take, length-map, inl, Bool-cases, inr,
}
use moor_pq.Dht.Dpf.{
  Streams, Node, Cw, DpfKey, dpf_prg, gen_loop, gen_level, dpf_gen, expand_all, eval_loop,
  dpf_eval_full, leaf_bit,
}
use moor_pq.Dht.Dpf.Level.{dpf_prg-IsNode, Apart}
use moor_pq.Dht.Dpf.Wire.{IsCw, IsKey}
use moor_pq.Dht.Dpf.Points.{eval_loop-Differ}

xor_bit : (x y z : ℕ) → x < 2 → y < 2 → z < 2 → bit_xor (bit_xor x y) z < 2
xor_bit x y z hx hy hz = bit_xor-lt 1 (bit_xor x y) z (bit_xor-lt 1 x y hx hy) hz

gen_level-IsCw : (g : Streams) (dir : ℕ) (a b : Node) → IsCw (gen_level g dir a b).0
unfolding gen_level
gen_level-IsCw g dir a b =
    let (a_l, a_r) = dpf_prg-IsNode g a.seed in
    let (b_l, b_r) = dpf_prg-IsNode g b.seed in
    let x = dpf_prg g a.seed in
    let y = dpf_prg g b.seed in
    record {
      size = elim (Bool-cases (dir == 0)) [
        | inl to_left ↦
            rw (to_left) (length-xor_bytes x.1.seed y.1.seed (a_r.size ∙ sym b_r.size) ∙ a_r.size)
        | inr to_right ↦
            rw (to_right) (length-xor_bytes x.0.seed y.0.seed (a_l.size ∙ sym b_l.size) ∙ a_l.size)
      ];
      left_bit = xor_bit x.0.t y.0.t (if dir == 0 then 1 else 0) a_l.bit b_l.bit (ground arith);
      right_bit = xor_bit x.1.t y.1.t (if dir == 1 then 1 else 0) a_r.bit b_r.bit (ground arith);
    }

gen_loop-IsCw :
    (g : Streams) (k target : ℕ) (a b : Node)
    → length (gen_loop g k target a b).0 ≡ k × All IsCw (gen_loop g k target a b).0
unfolding gen_loop
gen_loop-IsCw g zero target a b = (refl, tt)
gen_loop-IsCw g (suc k) target a b =
    let step = gen_level g (target / 2 ^ k % 2) a b in
    let (levels, words) = gen_loop-IsCw g k target step.1 step.2 in
    (ap suc levels, (gen_level-IsCw g (target / 2 ^ k % 2) a b, words))

pub dpf_gen-IsKey :
    (g : Streams) (seed_a seed_b : List ℕ) (target : ℕ)
    → length seed_a ≡ 16
    → length seed_b ≡ 16
    → IsKey (dpf_gen g seed_a seed_b target).0 × IsKey (dpf_gen g seed_a seed_b target).1
unfolding dpf_gen
dpf_gen-IsKey g seed_a seed_b target size_a size_b =
    let a : Node = record { seed = seed_a; t = 0 } in
    let b : Node = record { seed = seed_b; t = 1 } in
    let start : Apart a b = record { bits = inl (refl, refl); size_a = size_a; size_b = size_b } in
    let (apart, _) =
      eval_loop-Differ g 1 8 target 0 a b (a ∷ []) (b ∷ []) start ((refl, refl), refl) in
    let ends = gen_loop g 8 target a b in
    let (levels, words) = gen_loop-IsCw g 8 target a b in
    let leaf = xor_bytes ends.1.seed ends.2.seed in
    let leaf_size =
      length-set leaf 0 (bit_xor (get_or leaf 0 0) 1)
      ∙ length-xor_bytes ends.1.seed ends.2.seed (apart.size_a ∙ sym apart.size_b)
      ∙ apart.size_a in
    (
      record {
        size = size_a;
        bit = omega arith;
        levels = levels;
        words = words;
        leaf_size = leaf_size;
      },
      record {
        size = size_b;
        bit = omega arith;
        levels = levels;
        words = words;
        leaf_size = leaf_size;
      },
    )

-- The nodes after `k` levels, from `m`.
doubled : ℕ → ℕ → ℕ
doubled zero m = m
doubled (suc k) m = doubled k (m * 2)

le-doubled : (k m : ℕ) → m ≤ doubled k m
unfolding doubled
le-doubled zero m = omega arith
le-doubled (suc k) m = omega (arith, le-doubled k (m * 2))

length-expand_all :
    (g : Streams) (cw : Cw) (nodes : List Node) → length (expand_all g cw nodes) ≡ length nodes * 2
unfolding expand_all
length-expand_all g cw [] = refl
length-expand_all g cw (n ∷ nodes) = omega (arith, length-expand_all g cw nodes)

clipped : (m n l : ℕ) → m ≤ n → l ≡ m → min (if ltb n m then n else m) l ≡ m
clipped m n l fits e = ground arith

length-eval_loop :
    (g : Streams) (n k : ℕ) (cws : List Cw) (nodes : List Node)
    → length cws ≡ k
    → doubled k (length nodes) ≤ n
    → length (eval_loop g n cws nodes) ≡ doubled k (length nodes)
unfolding eval_loop doubled
length-eval_loop g n zero [] nodes e fits = refl
length-eval_loop g n zero (cw ∷ cws) nodes e fits = absurd (omega arith)
length-eval_loop g n (suc k) [] nodes e fits = absurd (omega arith)
length-eval_loop g n (suc k) (cw ∷ cws) nodes e fits =
    let next_count = if ltb n (length nodes * 2) then n else length nodes * 2 in
    let next = take next_count (expand_all g cw nodes) in
    let grown : length next ≡ length nodes * 2 =
      length-take next_count (expand_all g cw nodes)
      ∙ clipped (length nodes * 2) n (length (expand_all g cw nodes))
          (omega (arith, fits, le-doubled k (length nodes * 2))) (length-expand_all g cw nodes) in
    length-eval_loop g n k cws next (omega arith) (rw (grown) fits) ∙ ap (doubled k) grown

pub length-dpf_eval_full :
    (g : Streams) (key : DpfKey) → length key.cw ≡ 8 → length (dpf_eval_full g key 256) ≡ 256
unfolding dpf_eval_full doubled
length-dpf_eval_full g key levels =
    length-map (leaf_bit key.cw_leaf) _
    ∙ length-eval_loop g 256 8 key.cw (record { seed = key.seed; t = key.t } ∷ []) levels
        (omega arith)
