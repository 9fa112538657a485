-- ===== src/Dht/Dpf.antt =====
-- src/dht.c, distributed point functions: `moor_dpf_gen` makes two keys, and `moor_dpf_eval_full`
-- expands one of them to a bit for every slot of a store.
pub mod Level
pub mod Points
pub mod Wire
pub mod Keys
use moor_pq.Base.{
  ℕ, zero, suc, ◌+◌, ◌*◌, ◌/◌, ◌%◌, ◌^◌, ◌≡◌, ◌<◌, List, [], ◌∷◌, length, get_or, set, take, drop,
  map, zeros, ltb, ◌==◌, if◌then◌else◌, bit_xor, xor_bytes,
}
use moor_pq.Sodium.{Sodium}

abbrev pub dpf_lambda : ℕ
dpf_lambda = 16

abbrev pub dpf_levels : ℕ
dpf_levels = 8

abbrev pub dpf_domain_size : ℕ
dpf_domain_size = 256

-- What the keys take from libsodium: BLAKE2b with a key, and the key stream of ChaCha20.
pub record Streams : Type 0 where
  -- `crypto_generichash_blake2b(out, n, m, |m|, key, |key|)`
  pub keyed_hash : ℕ → List ℕ → List ℕ → List ℕ
  -- `crypto_stream_chacha20(out, n, nonce, key)`
  pub chacha20 : ℕ → List ℕ → List ℕ → List ℕ
  pub length-chacha20 : (n : ℕ) (nonce key : List ℕ) → length (chacha20 n nonce key) ≡ n

-- A node of the tree: its seed and its control bit.
pub record Node : Type 0 where
  pub seed : List ℕ
  pub t : ℕ

-- `dpf_cw_t`
pub record Cw : Type 0 where
  pub s : List ℕ
  pub t_left : ℕ
  pub t_right : ℕ

-- `dpf_key_t`
pub record DpfKey : Type 0 where
  pub seed : List ℕ
  pub t : ℕ
  pub cw : List Cw
  pub cw_leaf : List ℕ

-- The text "moor-dpf-prg".
abbrev prg_label : List ℕ
prg_label = 109 ∷ 111 ∷ 111 ∷ 114 ∷ 45 ∷ 100 ∷ 112 ∷ 102 ∷ 45 ∷ 112 ∷ 114 ∷ 103 ∷ []

-- `dpf_prg`: a seed becomes a left and a right node.
pub dpf_prg : Streams → List ℕ → Node × Node
dpf_prg g seed =
    let prg_key = g.keyed_hash 32 seed prg_label in
    let prg_out = g.chacha20 (2 * dpf_lambda + 2) (zeros 8) prg_key in
    (
      record { seed = take dpf_lambda prg_out; t = get_or prg_out dpf_lambda 0 % 2 },
      record {
        seed = take dpf_lambda (drop (dpf_lambda + 1) prg_out);
        t = get_or prg_out (2 * dpf_lambda + 1) 0 % 2;
      },
    )

-- The correction of a child: done where the control bit `t` of its parent is set.
pub correct : ℕ → List ℕ → ℕ → Node → Node
correct t s bit n = if t == 0 then n else record { seed = xor_bytes n.seed s; t = bit_xor n.t bit }

-- A level of `moor_dpf_gen`: the correction word, and the nodes of both parties on the way to the
-- target, which goes to the left where `dir` is 0.
pub gen_level : Streams → ℕ → Node → Node → Cw × Node × Node
gen_level g dir a b =
    let (a_l, a_r) = dpf_prg g a.seed in
    let (b_l, b_r) = dpf_prg g b.seed in
    let keep_a = if dir == 0 then a_l else a_r in
    let lose_a = if dir == 0 then a_r else a_l in
    let keep_b = if dir == 0 then b_l else b_r in
    let lose_b = if dir == 0 then b_r else b_l in
    let s = xor_bytes lose_a.seed lose_b.seed in
    let t_left = bit_xor (bit_xor a_l.t b_l.t) (if dir == 0 then 1 else 0) in
    let t_right = bit_xor (bit_xor a_r.t b_r.t) (if dir == 1 then 1 else 0) in
    let t_keep = if dir == 0 then t_left else t_right in
    (
      record { s = s; t_left = t_left; t_right = t_right },
      correct a.t s t_keep keep_a,
      correct b.t s t_keep keep_b,
    )

-- The levels of `moor_dpf_gen`, of which `k` are left.
pub gen_loop : Streams → ℕ → ℕ → Node → Node → List Cw × Node × Node
unfolding gen_level
gen_loop g zero target a b = ([], a, b)
gen_loop g (suc k) target a b =
    let (cw, a', b') = gen_level g (target / 2 ^ k % 2) a b in
    let (rest, a'', b'') = gen_loop g k target a' b' in (cw ∷ rest, a'', b'')

-- `moor_dpf_gen`, with the two random seeds.
pub dpf_gen : Streams → List ℕ → List ℕ → ℕ → DpfKey × DpfKey
unfolding gen_loop
dpf_gen g seed_a seed_b target =
    let (cw, a, b) =
      gen_loop g dpf_levels target (record { seed = seed_a; t = 0 })
        (record { seed = seed_b; t = 1 }) in
    let leaf = xor_bytes a.seed b.seed in
    let cw_leaf = set leaf 0 (bit_xor (get_or leaf 0 0) 1) in
    (
      record { seed = seed_a; t = 0; cw = cw; cw_leaf = cw_leaf },
      record { seed = seed_b; t = 1; cw = cw; cw_leaf = cw_leaf },
    )

-- The children of a node, at the level of a correction word.
pub expand_node : Streams → Cw → Node → Node × Node
expand_node g cw n =
    let (l, r) = dpf_prg g n.seed in (correct n.t cw.s cw.t_left l, correct n.t cw.s cw.t_right r)

pub expand_all : Streams → Cw → List Node → List Node
unfolding expand_node
expand_all g cw [] = []
expand_all g cw (n ∷ nodes) = let (l, r) = expand_node g cw n in l ∷ r ∷ expand_all g cw nodes

-- The levels of `moor_dpf_eval_full`; no level has more than `n` nodes.
pub eval_loop : Streams → ℕ → List Cw → List Node → List Node
unfolding expand_all
eval_loop g n [] nodes = nodes
eval_loop g n (cw ∷ rest) nodes =
    let next_count = if ltb n (length nodes * 2) then n else length nodes * 2 in
    eval_loop g n rest (take next_count (expand_all g cw nodes))

-- The output bit of a leaf.
pub leaf_bit : List ℕ → Node → ℕ
leaf_bit cw_leaf n = get_or (if n.t == 0 then n.seed else xor_bytes n.seed cw_leaf) 0 0 % 2

-- `moor_dpf_eval_full`, for at least one slot.
pub dpf_eval_full : Streams → DpfKey → ℕ → List ℕ
unfolding eval_loop leaf_bit
dpf_eval_full g key n =
    let n' = if ltb dpf_domain_size n then dpf_domain_size else n in
    map (leaf_bit key.cw_leaf) (eval_loop g n' key.cw (record { seed = key.seed; t = key.t } ∷ []))
