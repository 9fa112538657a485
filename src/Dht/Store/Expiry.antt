-- ===== src/Dht/Store/Expiry.antt =====
-- `moor_dht_store_expire` of src/dht.c drops what is old, and nothing else.
use moor_pq.Base.{
  ℕ, zero, suc, ◌+◌, ◌-◌, ◌≡◌, ◌≢◌, ◌<◌, ◌≤◌, ◌∙◌, refl, sym, ap, Bool, true, false, length, get_or,
  set, ltb, ltb→lt, ltb→le, ◌==◌, arith, Bool-cases, inl, inr, length-set, get_or-set_self,
  get_or-set_ne,
}
use moor_pq.Dht.Pir.{DhtEntry}
use moor_pq.Dht.Store.{Store, blank_entry, is_old, drop_entry, expire_loop, store_expire}

-- The entries in use are in the array.
pub record IsStore (st : Store) : Type 0 where
  pub size : length st.entries ≡ 256
  pub used : st.num_entries ≤ 256

-- An entry in use.
pub Has : Store → DhtEntry → Type 0
Has st e = (i : ℕ) × i < st.num_entries × get_or st.entries i blank_entry ≡ e

drop_entry-IsStore : (i : ℕ) (st : Store) → IsStore st → IsStore (drop_entry i st)
unfolding drop_entry
drop_entry-IsStore i st v = elim (Bool-cases (ltb i (st.num_entries - 1))) [
  | inl inner ↦ rw (inner) (record {
    size = length-set _ _ _ ∙ length-set st.entries i blank_entry ∙ v.size;
    used = omega arith;
  })
  | inr last ↦
      rw (last) (record { size = length-set st.entries i blank_entry ∙ v.size; used = omega arith })
]

-- What stands in the places after an entry was dropped.
drop_entry_ne :
    (i j : ℕ) (st : Store)
    → j ≢ i
    → get_or (drop_entry i st).entries j blank_entry ≡ get_or st.entries j blank_entry
unfolding drop_entry
drop_entry_ne i j st apart = elim (Bool-cases (ltb i (st.num_entries - 1))) [
  | inl inner ↦ rw (inner) (
      get_or-set_ne (set st.entries i blank_entry) i j _ blank_entry (λ e. apart (sym e))
      ∙ get_or-set_ne st.entries i j blank_entry blank_entry (λ e. apart (sym e)))
  | inr last ↦ rw (last) (get_or-set_ne st.entries i j blank_entry blank_entry (λ e. apart (sym e)))
]

drop_entry_self :
    (i : ℕ) (st : Store)
    → IsStore st
    → i < st.num_entries - 1
    → get_or (drop_entry i st).entries i blank_entry
      ≡ get_or st.entries (st.num_entries - 1) blank_entry
unfolding drop_entry
drop_entry_self i st v inside =
    let inner : ltb i (st.num_entries - 1) ≡ true = ground arith in
    let wiped = set st.entries i blank_entry in
    rw (inner) (
      get_or-set_self wiped i (get_or wiped (st.num_entries - 1) blank_entry) blank_entry
        (omega (arith, length-set st.entries i blank_entry, v.size, v.used))
      ∙ get_or-set_ne st.entries i (st.num_entries - 1) blank_entry blank_entry (omega arith))

num_entries-drop_entry : (i : ℕ) (st : Store) → (drop_entry i st).num_entries ≡ st.num_entries - 1
unfolding drop_entry
num_entries-drop_entry i st = refl

-- Every other entry is still there, and no new one.
drop_entry-Has :
    (i : ℕ) (st : Store) (e : DhtEntry)
    → IsStore st
    → i < st.num_entries
    → e ≢ get_or st.entries i blank_entry
    → Has st e
    → Has (drop_entry i st) e
unfolding Has
drop_entry-Has i st e v inside other (j, low, at) =
    let n = num_entries-drop_entry i st in
    let apart : j ≢ i = λ same. other (sym at ∙ ap (λ k. get_or st.entries k blank_entry) same) in
    elim (Bool-cases (j == st.num_entries - 1)) [
      | inl last ↦
          let at_end : j ≡ st.num_entries - 1 = ground (arith, last) in
          (
            i,
            omega arith,
            drop_entry_self i st v (omega arith)
                ∙ ap (λ k. get_or st.entries k blank_entry) (sym at_end)
                ∙ at,
          )
      | inr inner ↦
          let before : j ≢ st.num_entries - 1 = ground (arith, inner) in
          (j, omega arith, drop_entry_ne i j st apart ∙ at)
    ]

Has-drop_entry :
    (i : ℕ) (st : Store) (e : DhtEntry)
    → IsStore st
    → i < st.num_entries
    → Has (drop_entry i st) e
    → Has st e
unfolding Has
Has-drop_entry i st e v inside (j, low, at) =
    let n = num_entries-drop_entry i st in
    elim (Bool-cases (j == i)) [
      | inl here ↦
          let same : j ≡ i = ground (arith, here) in
          (
            st.num_entries - 1,
            omega arith,
            sym (drop_entry_self i st v (omega arith))
                ∙ ap (λ k. get_or (drop_entry i st).entries k blank_entry) (sym same)
                ∙ at,
          )
      | inr there ↦
          let apart : j ≢ i = ground (arith, there) in
          (j, omega arith, sym (drop_entry_ne i j st apart) ∙ at)
    ]

old_or_young : {b : Bool} → b ≡ true → b ≡ false → ⊥
old_or_young p q = cc

-- The entries before place `i` are not old.
abbrev YoungBefore : ℕ → ℕ → Store → Type 0
YoungBefore now i st =
    (j : ℕ) → j < i → j < st.num_entries → is_old now (get_or st.entries j blank_entry) ≡ false

record Expired (now : ℕ) (st after : Store) : Type 0 where
  well_formed : IsStore after
  young : (e : DhtEntry) → Has after e → is_old now e ≡ false
  kept : (e : DhtEntry) → Has st e → is_old now e ≡ false → Has after e
  none_new : (e : DhtEntry) → Has after e → Has st e

all_passed :
    (now i : ℕ) (st : Store)
    → IsStore st
    → st.num_entries ≤ i
    → YoungBefore now i st
    → Expired now st st
unfolding Has
all_passed now i st v done before = record {
  well_formed = v;
  young = λ e (j, low, at). ap (is_old now) (sym at) ∙ before j (omega arith) low;
  kept = λ e h y. h;
  none_new = λ e h. h;
}

-- A round that drops an old entry.
drop_entry-Expired :
    (now i : ℕ) (st after : Store)
    → IsStore st
    → i < st.num_entries
    → is_old now (get_or st.entries i blank_entry) ≡ true
    → Expired now (drop_entry i st) after
    → Expired now st after
drop_entry-Expired now i st after v inside old x = record {
  well_formed = x.well_formed;
  young = x.young;
  kept = λ e h y.
      x.kept e
        (drop_entry-Has i st e v inside (λ same. old_or_young (ap (is_old now) same ∙ old) y) h) y;
  none_new = λ e h. Has-drop_entry i st e v inside (x.none_new e h);
}

YoungBefore-drop_entry :
    (now i : ℕ) (st : Store) → YoungBefore now i st → YoungBefore now i (drop_entry i st)
YoungBefore-drop_entry now i st before j low used =
    let n = num_entries-drop_entry i st in
    ap (is_old now) (drop_entry_ne i j st (omega arith)) ∙ before j low (omega arith)

YoungBefore-suc :
    (now i : ℕ) (st : Store)
    → is_old now (get_or st.entries i blank_entry) ≡ false
    → YoungBefore now i st
    → YoungBefore now (i + 1) st
YoungBefore-suc now i st young before j low used = elim (Bool-cases (j == i)) [
  | inl here ↦
      let same : j ≡ i = ground (arith, here) in
      ap (λ k. is_old now (get_or st.entries k blank_entry)) same ∙ young
  | inr there ↦ let apart : j ≢ i = ground (arith, there) in before j (omega arith) used
]

expire_loop-Expired :
    (fuel now i : ℕ) (st : Store)
    → IsStore st
    → st.num_entries < fuel + i
    → YoungBefore now i st
    → Expired now st (expire_loop fuel now i st)
unfolding expire_loop
expire_loop-Expired zero now i st v enough before = all_passed now i st v (omega arith) before
expire_loop-Expired (suc fuel) now i st v enough before = elim (Bool-cases (ltb i st.num_entries)) [
  | inr done ↦ rw (done) (all_passed now i st v (ltb→le i st.num_entries done) before)
  | inl inside ↦
      let low = ltb→lt i st.num_entries inside in
      elim (Bool-cases (is_old now (get_or st.entries i blank_entry))) [
        | inl old ↦
            let n = num_entries-drop_entry i st in
            rw (inside, old)
              (drop_entry-Expired now i st (expire_loop fuel now i (drop_entry i st)) v low old (
                expire_loop-Expired fuel now i (drop_entry i st) (drop_entry-IsStore i st v)
                  (omega arith) (YoungBefore-drop_entry now i st before)))
        | inr young ↦
            rw (inside, young)
              (expire_loop-Expired fuel now (i + 1) st v (omega arith)
                (YoungBefore-suc now i st young before))
      ]
]

-- After `moor_dht_store_expire` of a well-formed store no entry is older than two days, or from the
-- future; each entry that is neither is still in the store, and no entry is new.
pub store_expire_lem :
    (st : Store) (now : ℕ)
    → IsStore st
    → IsStore (store_expire st now)
      × ((e : DhtEntry)
          → (Has (store_expire st now) e → Has st e × is_old now e ≡ false)
            × (Has st e → is_old now e ≡ false → Has (store_expire st now) e))
unfolding store_expire
store_expire_lem st now v =
    let x =
      expire_loop-Expired (st.num_entries + 1) now 0 st v (omega arith)
        (λ j low. absurd (omega arith)) in
    (x.well_formed, λ e. (λ h. (x.none_new e h, x.young e h), λ h y. x.kept e h y))
