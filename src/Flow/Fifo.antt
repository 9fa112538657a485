-- ===== src/Flow/Fifo.antt =====
-- The rings of src/circuit.c are queues: what is taken out is what was put in first.
use moor_pq.Base.{
  ℕ, zero, suc, ◌+◌, ◌-◌, ◌%◌, ◌≤◌, ◌<◌, ◌≡◌, ◌≢◌, ◌∙◌, refl, sym, ap, List, [], ◌∷◌, ◌++◌, length,
  length-set, get_or, get_or-set_self, get_or-set_ne, set, ltb, arith, Bool-cases, inl, inr,
}
use moor_pq.Flow.{Ring, tail_of, push, pop, sendme_auth_max}

-- What the C code keeps of the ring of expected digests.
pub record IsRing (r : Ring (List ℕ)) : Type 0 where
  pub places : length r.slots ≡ sendme_auth_max
  pub head_in : r.head < sendme_auth_max
  pub count_in : r.count ≤ sendme_auth_max

-- `n` digests from place `i` on, round the ring.
pub items : ℕ → ℕ → List (List ℕ) → List (List ℕ)
items zero i slots = []
items (suc n) i slots = get_or slots (i % 10) [] ∷ items n (i + 1) slots

-- The queue that a ring stands for, the oldest digest first.
abbrev pub contents : Ring (List ℕ) → List (List ℕ)
contents r = items r.count (tail_of sendme_auth_max r) r.slots

items_mod :
    (n i j : ℕ) (slots : List (List ℕ)) → i % 10 ≡ j % 10 → items n i slots ≡ items n j slots
unfolding items
items_mod zero i j slots e = refl
items_mod (suc n) i j slots e = rw (e, items_mod n (i + 1) (j + 1) slots (omega arith)) refl

items_last :
    (n i : ℕ) (slots : List (List ℕ))
    → items (suc n) i slots ≡ items n i slots ++ (get_or slots ((i + n) % 10) [] ∷ [])
unfolding items
items_last zero i slots = ap (λ k. get_or slots (k % 10) [] ∷ []) {x = i} {y = i + 0} (omega arith)
items_last (suc n) i slots =
    ap (λ xs. get_or slots (i % 10) [] ∷ xs)
      (items_last n (i + 1) slots
        ∙ ap (λ k. items n (i + 1) slots ++ (get_or slots (k % 10) [] ∷ [])) {x = i + 1 + n}
            {y = i + suc n} (omega arith))

items-set :
    (n i h : ℕ) (a : List ℕ) (slots : List (List ℕ))
    → ((k : ℕ) → k < n → (i + k) % 10 ≢ h)
    → items n i (set slots h a) ≡ items n i slots
unfolding items
items-set zero i h a slots apart = refl
items-set (suc n) i h a slots apart =
    let first : h ≢ i % 10 = λ e. apart 0 (omega arith) (omega arith) in
    rw
      (
        get_or-set_ne slots h (i % 10) a [] first,
        items-set n (i + 1) h a slots (λ k lt e. apart (suc k) (omega arith) (omega arith)),
      )
      refl

pub push-IsRing : (a : List ℕ) (r : Ring (List ℕ)) → IsRing r → IsRing (push sendme_auth_max a r)
unfolding push
push-IsRing a r v = elim (Bool-cases (ltb r.count 10)) [
  | inr full ↦ simp full v
  | inl room ↦ simp room (record {
    places = length-set r.slots r.head a ∙ v.places;
    head_in = omega arith;
    count_in = ground (arith, room);
  })
]

pub push_room :
    (a : List ℕ) (r : Ring (List ℕ))
    → r.count < sendme_auth_max
    → push sendme_auth_max a r
      ≡ record { slots = set r.slots r.head a; head = (r.head + 1) % 10; count = r.count + 1 }
unfolding push
push_room a r room = ground arith

written_last :
    (a : List ℕ) (slots : List (List ℕ)) (n i h : ℕ)
    → length slots ≡ 10
    → n < 10
    → h < 10
    → (i + n) % 10 ≡ h
    → items (suc n) i (set slots h a) ≡ items n i slots ++ (a ∷ [])
written_last a slots n i h places few inside last =
    let read : get_or (set slots h a) ((i + n) % 10) [] ≡ a =
      rw (last, get_or-set_self slots h a [] (omega arith)) refl in
    items_last n i (set slots h a)
    ∙ ap (λ x. items n i (set slots h a) ++ (x ∷ [])) read
    ∙ ap (λ xs. xs ++ (a ∷ [])) (items-set n i h a slots (λ k lt e. omega arith))

step_tail :
    (h c : ℕ) → h < 10 → c < 10 → ((h + 1) % 10 + 10 - (c + 1)) % 10 % 10 ≡ (h + 10 - c) % 10 % 10
step_tail h c inside few = omega arith

end_tail : (h c : ℕ) → h < 10 → c ≤ 10 → ((h + 10 - c) % 10 + c) % 10 ≡ h
end_tail h c inside few = omega arith

contents-push :
    (a : List ℕ) (r : Ring (List ℕ))
    → IsRing r
    → r.count < sendme_auth_max
    → contents (push sendme_auth_max a r) ≡ contents r ++ (a ∷ [])
contents-push a r v room =
    ap contents (push_room a r room)
    ∙ ap (λ n. items n (((r.head + 1) % 10 + 10 - (r.count + 1)) % 10) (set r.slots r.head a))
        (omega arith)
    ∙ items_mod (suc r.count) (((r.head + 1) % 10 + 10 - (r.count + 1)) % 10) (tail_of 10 r)
        (set r.slots r.head a) (step_tail r.head r.count v.head_in room)
    ∙ written_last a r.slots r.count (tail_of 10 r) r.head v.places room v.head_in
        (end_tail r.head r.count v.head_in v.count_in)

items_first :
    (slots : List (List ℕ)) (h n : ℕ)
    → n < 10
    → items (suc n) ((h + 10 - suc n) % 10) slots
      ≡ get_or slots ((h + 10 - suc n) % 10) [] ∷ items n ((h + 10 - n) % 10) slots
unfolding items
items_first slots h n few =
    let here : (h + 10 - suc n) % 10 % 10 ≡ (h + 10 - suc n) % 10 = omega arith in
    rw (here, items_mod n ((h + 10 - suc n) % 10 + 1) ((h + 10 - n) % 10) slots (omega arith)) refl

contents-pop :
    (r : Ring (List ℕ))
    → IsRing r
    → 0 < r.count
    → contents r ≡ get_or r.slots (tail_of sendme_auth_max r) [] ∷ contents (pop r)
contents-pop r v some_left =
    let e : r.count ≡ suc (r.count - 1) = omega arith in
    ap (λ n. items n ((r.head + 10 - n) % 10) r.slots) e
    ∙ items_first r.slots r.head (r.count - 1) (omega arith)
    ∙ ap (λ n. get_or r.slots ((r.head + 10 - n) % 10) [] ∷ contents (pop r)) (sym e)

-- A well-formed ring of expected digests is a queue: a digest that is recorded while fewer than ten
-- wait goes to its end, and taking one out, when one waits, takes the first.
pub contents-push-pop :
    (a : List ℕ) (r : Ring (List ℕ))
    → IsRing r
    → (r.count < sendme_auth_max → contents (push sendme_auth_max a r) ≡ contents r ++ (a ∷ []))
      × (0 < r.count
          → contents r ≡ get_or r.slots (tail_of sendme_auth_max r) [] ∷ contents (pop r))
contents-push-pop a r v = (contents-push a r v, contents-pop r v)
