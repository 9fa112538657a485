-- ===== src/Dht/Dpf/Wire.antt =====
-- src/dht.c, the keys on the wire: `moor_dpf_key_serialize` and `moor_dpf_key_deserialize`.
use moor_pq.Base.{
  ℕ, zero, suc, ◌+◌, ◌*◌, ◌%◌, ◌≡◌, ◌<◌, ◌∙◌, refl, sym, ap, Option, none, some, List, [], ◌∷◌,
  ◌++◌, length, get_or, take, drop, ltb, if◌then◌else◌, arith, All, take-append, drop-append,
  length-append, append_assoc, get_or-append,
}
use moor_pq.Dht.Dpf.{Cw, DpfKey, dpf_lambda, dpf_levels}

-- `DPF_KEY_WIRE_SIZE`
abbrev pub dpf_key_wire_size : ℕ
dpf_key_wire_size = 177

pub write_cws : List Cw → List ℕ
write_cws [] = []
write_cws (cw ∷ rest) = cw.s ++ (cw.t_left ∷ cw.t_right ∷ write_cws rest)

-- `moor_dpf_key_serialize`
unfoldable pub dpf_key_serialize : DpfKey → List ℕ
unfolding write_cws
dpf_key_serialize key = key.seed ++ (key.t ∷ (write_cws key.cw ++ key.cw_leaf))

-- The correction words of `k` levels.
pub read_cws : ℕ → List ℕ → List Cw
read_cws zero wire = []
read_cws (suc k) wire =
    record {
      s = take dpf_lambda wire;
      t_left = get_or wire dpf_lambda 0 % 2;
      t_right = get_or wire (dpf_lambda + 1) 0 % 2;
    }
    ∷ read_cws k (drop (dpf_lambda + 2) wire)

-- `moor_dpf_key_deserialize`, of `len` bytes
unfoldable pub dpf_key_deserialize : List ℕ → ℕ → Option DpfKey
dpf_key_deserialize wire len =
    if ltb len dpf_key_wire_size
    then none
    else some (record {
      seed = take dpf_lambda wire;
      t = get_or wire dpf_lambda 0 % 2;
      cw = read_cws dpf_levels (drop (dpf_lambda + 1) wire);
      cw_leaf = take dpf_lambda (drop (dpf_lambda + 1 + dpf_levels * (dpf_lambda + 2)) wire);
    })

pub record IsCw (cw : Cw) : Type 0 where
  pub size : length cw.s ≡ 16
  pub left_bit : cw.t_left < 2
  pub right_bit : cw.t_right < 2

-- The sizes of the arrays of a key, and its bits.
pub record IsKey (key : DpfKey) : Type 0 where
  pub size : length key.seed ≡ 16
  pub bit : key.t < 2
  pub levels : length key.cw ≡ 8
  pub words : All IsCw key.cw
  pub leaf_size : length key.cw_leaf ≡ 16

drop_past : (n k : ℕ) (xs ys : List ℕ) → n ≡ length xs + k → drop n (xs ++ ys) ≡ drop k ys
drop_past n k [] ys h = ap (λ m. drop m ys) (omega arith)
drop_past zero k (x ∷ xs) ys h = absurd (omega arith)
drop_past (suc n) k (x ∷ xs) ys h = drop_past n k xs ys (omega arith)

mod_bit : (x : ℕ) → x < 2 → x % 2 ≡ x
mod_bit x h = omega arith

read_cws-write_cws :
    (cws : List Cw) (rest : List ℕ)
    → All IsCw cws
    → read_cws (length cws) (write_cws cws ++ rest) ≡ cws
unfolding read_cws write_cws
read_cws-write_cws [] rest all = refl
read_cws-write_cws (cw ∷ cws) rest (v, all) =
    let tail = cw.t_left ∷ cw.t_right ∷ (write_cws cws ++ rest) in
    rw
      (
        append_assoc cw.s (cw.t_left ∷ cw.t_right ∷ write_cws cws) rest,
        take-append 16 cw.s tail (sym v.size),
        get_or-append cw.s tail 0 16 0 (omega (arith, v.size)),
        get_or-append cw.s tail 1 17 0 (omega (arith, v.size)),
        drop_past 18 2 cw.s tail (omega (arith, v.size)),
        mod_bit cw.t_left v.left_bit,
        mod_bit cw.t_right v.right_bit,
        read_cws-write_cws cws rest all,
      )
      refl

length-write_cws : (cws : List Cw) → All IsCw cws → length (write_cws cws) ≡ 18 * length cws
unfolding write_cws
length-write_cws [] all = refl
length-write_cws (cw ∷ cws) (v, all) = omega (
  arith,
  length-append cw.s (cw.t_left ∷ cw.t_right ∷ write_cws cws),
  length-write_cws cws all,
  v.size,
)

-- A key whose arrays have their sizes takes 177 bytes. Read back with whatever follows it, it is the key
-- that was written; when the length that is given is below 177, it is refused.
pub deserialize-serialize :
    (key : DpfKey) (rest : List ℕ) (len : ℕ)
    → IsKey key
    → length (dpf_key_serialize key) ≡ 177
      × dpf_key_deserialize (dpf_key_serialize key ++ rest) len
        ≡ (if ltb len 177 then none else some key)
unfolding dpf_key_serialize dpf_key_deserialize
deserialize-serialize key rest len v =
    let body = write_cws key.cw ++ key.cw_leaf in
    let tail = key.t ∷ (write_cws key.cw ++ (key.cw_leaf ++ rest)) in
    let long = length-write_cws key.cw v.words in
    let joined : (key.seed ++ (key.t ∷ body)) ++ rest ≡ key.seed ++ tail =
      append_assoc key.seed (key.t ∷ body) rest
      ∙ ap (λ ys. key.seed ++ (key.t ∷ ys)) (append_assoc (write_cws key.cw) key.cw_leaf rest) in
    let levels : read_cws 8 (write_cws key.cw ++ (key.cw_leaf ++ rest)) ≡ key.cw =
      ap (λ k. read_cws k (write_cws key.cw ++ (key.cw_leaf ++ rest))) (sym v.levels)
      ∙ read_cws-write_cws key.cw (key.cw_leaf ++ rest) v.words in
    (
      omega (
        arith,
        length-append key.seed (key.t ∷ body),
        length-append (write_cws key.cw) key.cw_leaf,
        long,
        v.size,
        v.levels,
        v.leaf_size,
      ),
      rw
          (
            joined,
            take-append 16 key.seed tail (sym v.size),
            get_or-append key.seed tail 0 16 0 (omega (arith, v.size)),
            drop_past 17 1 key.seed tail (omega (arith, v.size)),
            drop_past 161 145 key.seed tail (omega (arith, v.size)),
            drop-append 144 (write_cws key.cw) (key.cw_leaf ++ rest)
                (omega (arith, long, v.levels)),
            take-append 16 key.cw_leaf rest (sym v.leaf_size),
            mod_bit key.t v.bit,
            levels,
          )
          refl,
    )
