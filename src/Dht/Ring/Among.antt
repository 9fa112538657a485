-- ===== src/Dht/Ring/Among.antt =====
-- `moor_dht_find_responsible` of src/dht.c: what one more relay does to the best so far.
use moor_pq.Base.{
  ℕ, zero, suc, ◌≡◌, ◌<◌, ◌≤◌, ◌∙◌, refl, ap, List, [], ◌∷◌, ◌++◌, length, get_or, set, ltb, ltb→lt,
  ltb→le, arith, All, Bool-cases, inl, inr, ◌⊎◌, length-set, length-append, All-set, All-append,
  All-get_or,
}
use moor_pq.Dht.Ring.{Best, no_best, worst_from, other_best, consider}
use moor_pq.Dht.Ring.Worst.{far, is_minus-cmp, IsBest, worst_lem}

-- `b` is one of the best.
abbrev pub IsAmong : Best → List Best → Type 0
IsAmong b [] = ⊥
IsAmong b (x ∷ best) = (b ≡ x) ⊎ IsAmong b best

-- A relay that was scanned is among the best, or three are at most as far.
abbrev pub Seen : Best → List Best → Type 0
Seen b best = IsAmong b best ⊎ (length best ≡ 3 × All (λ x. far x ≤ far b) best)

IsAmong-append : (b x : Best) (best : List Best) → IsAmong b best → IsAmong b (best ++ (x ∷ []))
IsAmong-append b x [] h = absurd h
IsAmong-append b x (y ∷ best) (inl here) = inl here
IsAmong-append b x (y ∷ best) (inr later) = inr (IsAmong-append b x best later)

IsAmong-last : (x : Best) (best : List Best) → IsAmong x (best ++ (x ∷ []))
IsAmong-last x [] = inl refl
IsAmong-last x (y ∷ best) = inr (IsAmong-last x best)

IsAmong-split :
    (b x : Best) (best : List Best) → IsAmong b (best ++ (x ∷ [])) → (b ≡ x) ⊎ IsAmong b best
IsAmong-split b x [] (inl here) = inl here
IsAmong-split b x [] (inr none_left) = absurd none_left
IsAmong-split b x (y ∷ best) (inl here) = inr (inl here)
IsAmong-split b x (y ∷ best) (inr later) = elim (IsAmong-split b x best later) [
  | inl last ↦ inl last
  | inr inner ↦ inr (inr inner)
]

-- Where one is replaced, the others are kept.
IsAmong-set :
    (b x : Best) (best : List Best) (i : ℕ)
    → IsAmong b best
    → (b ≡ get_or best i no_best) ⊎ IsAmong b (set best i x)
IsAmong-set b x [] i h = absurd h
IsAmong-set b x (y ∷ best) zero (inl here) = inl here
IsAmong-set b x (y ∷ best) zero (inr later) = inr (inr later)
IsAmong-set b x (y ∷ best) (suc i) (inl here) = inr (inl here)
IsAmong-set b x (y ∷ best) (suc i) (inr later) = elim (IsAmong-set b x best i later) [
  | inl replaced ↦ inl replaced
  | inr inner ↦ inr (inr inner)
]

IsAmong-set_self :
    (x : Best) (best : List Best) (i : ℕ) → i < length best → IsAmong x (set best i x)
IsAmong-set_self x [] i h = absurd (omega arith)
IsAmong-set_self x (y ∷ best) zero h = inl refl
IsAmong-set_self x (y ∷ best) (suc i) h = inr (IsAmong-set_self x best i (omega arith))

IsAmong-unset :
    (b x : Best) (best : List Best) (i : ℕ) → IsAmong b (set best i x) → (b ≡ x) ⊎ IsAmong b best
IsAmong-unset b x [] i h = absurd h
IsAmong-unset b x (y ∷ best) zero (inl here) = inl here
IsAmong-unset b x (y ∷ best) zero (inr later) = inr (inr later)
IsAmong-unset b x (y ∷ best) (suc i) (inl here) = inr (inl here)
IsAmong-unset b x (y ∷ best) (suc i) (inr later) = elim (IsAmong-unset b x best i later) [
  | inl new ↦ inl new
  | inr inner ↦ inr (inr inner)
]

-- What a new candidate does to the best.
pub record Considered (b : Best) (best after : List Best) : Type 0 where
  pub few : length after ≤ 3
  pub distances : All IsBest after
  pub seen : Seen b after
  pub still_seen : (c : Best) → Seen c best → Seen c after
  pub from : (c : Best) → IsAmong c after → (c ≡ b) ⊎ IsAmong c best

All-raise :
    (m n : ℕ) (best : List Best) → m ≤ n → All (λ x. far x ≤ m) best → All (λ x. far x ≤ n) best
All-raise m n [] h all = tt
All-raise m n (x ∷ best) h (low, all) = (omega arith, All-raise m n best h all)

still-Seen_append :
    (c b : Best) (best : List Best) → length best < 3 → Seen c best → Seen c (best ++ (b ∷ []))
still-Seen_append c b best free (inl among) = inl (IsAmong-append c b best among)
still-Seen_append c b best free (inr (three, all)) = absurd (omega arith)

-- Where the worst is replaced by a closer one, no relay that was scanned is forgotten.
still-Seen-set :
    (c b : Best) (best : List Best) (w : ℕ)
    → w < length best
    → length best ≡ 3
    → far b < far (get_or best w no_best)
    → All (λ x. far x ≤ far (get_or best w no_best)) best
    → Seen c best
    → Seen c (set best w b)
still-Seen-set c b best w inside three less worst (inl among) =
    elim (IsAmong-set c b best w among) [
      | inr kept ↦ inl kept
      | inl replaced ↦
          let same : far c ≡ far (get_or best w no_best) = ap far replaced in
          inr (
            length-set best w b ∙ three,
            All-set (λ x. far x ≤ far c) best w b
                (All-raise (far (get_or best w no_best)) (far c) best (omega arith) worst)
                (omega arith),
          )
    ]
still-Seen-set c b best w inside three less worst (inr (_, all)) =
    let low = All-get_or (λ x. far x ≤ far c) best w no_best all inside in
    inr (length-set best w b ∙ three, All-set (λ x. far x ≤ far c) best w b all (omega arith))

pub consider_lem :
    (b : Best) (best : List Best)
    → IsBest b
    → length best ≤ 3
    → All IsBest best
    → Considered b best (consider b best)
unfolding consider
consider_lem b best v few all = elim (Bool-cases (ltb (length best) 3)) [
  | inl room ↦
      let free = ltb→lt (length best) 3 room in
      rw (room) (record {
        few = omega (arith, length-append best (b ∷ []), free);
        distances = All-append IsBest best (b ∷ []) all (v, tt);
        seen = inl (IsAmong-last b best);
        still_seen = λ c. still-Seen_append c b best free;
        from = λ c. IsAmong-split c b best;
      })
  | inr full ↦
      let three : length best ≡ 3 = omega (arith, ltb→le (length best) 3 full) in
      let (inside, worst) = worst_lem best all (omega arith) in
      let w = worst_from best 0 1 (other_best best) in
      elim (is_minus-cmp b.dist (get_or best w no_best).dist v
        (All-get_or IsBest best w no_best all inside)) [
          | inl (closer, less) ↦
              rw (full, closer)
                (record {
                  few = omega (arith, length-set best w b);
                  distances = All-set IsBest best w b all v;
                  seen = inl (IsAmong-set_self b best w inside);
                  still_seen = λ c. still-Seen-set c b best w inside three less worst;
                  from = λ c. IsAmong-unset c b best w;
                })
          | inr (not_closer, more) ↦
              rw (full, not_closer)
                (record {
                  few = few;
                  distances = all;
                  seen =
                      inr (three, All-raise (far (get_or best w no_best)) (far b) best more worst);
                  still_seen = λ c h. h;
                  from = λ c h. inr h;
                })
        ]
]
