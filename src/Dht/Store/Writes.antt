-- ===== src/Dht/Store/Writes.antt =====
-- `moor_dht_store_get` of src/dht.c, after an entry was written or added.
use moor_pq.Base.{
  ℕ, ◌+◌, ◌≡◌, ◌≢◌, ◌<◌, ◌∙◌, refl, sym, ap, true, none, some, List, length, get_or, set, take,
  arith, Bool-cases, Option-cases, inl, inr, length-take, get_or-set_self, get_or-set_ne,
}
use moor_pq.Sodium.{Sodium}
use moor_pq.Dht.Pir.{DhtEntry}
use moor_pq.Dht.Store.{Store, blank_entry, find_address, store_get}
use moor_pq.Dht.Store.Expiry.{IsStore}
use moor_pq.Dht.Store.Search.{
  find_address-some, find_address-set, find_address-append_some, find_address-append_none, take-set,
  take-set_end, get_or-take,
}

module _ (na : Sodium) (st : Store) (v : IsStore st) where
  -- An entry that is written in its place: only its own address sees it.
  pub store_get-set :
      (a b : List ℕ) (i : ℕ) (e : DhtEntry)
      → find_address na a (take st.num_entries st.entries) ≡ some i
      → e.address_hash ≡ (get_or st.entries i blank_entry).address_hash
      → (store_get na (record st { entries = set st.entries i e }) a ≡ some e)
        × (b ≢ a → store_get na (record st { entries = set st.entries i e }) b ≡ store_get na st b)
  unfolding store_get
  store_get-set a b i e found same =
      let prefix = take st.num_entries st.entries in
      let (low, at) = find_address-some na a prefix i found in
      let inside : i < st.num_entries =
        omega (arith, low, length-take st.num_entries st.entries, v.size, v.used) in
      let written = take-set st.num_entries i st.entries e inside in
      let kept =
        same ∙ sym (ap (λ x. x.address_hash) (get_or-take st.num_entries i st.entries inside)) in
      (
        rw (written, find_address-set na a prefix i e kept, found)
            (ap some (get_or-set_self st.entries i e blank_entry (omega (arith, v.size, v.used)))),
        λ other. elim (Option-cases (find_address na b prefix)) [
          | inl nothing ↦ rw (written, find_address-set na b prefix i e kept, nothing) refl
          | inr (j, there) ↦
              let at_b = (find_address-some na b prefix j there).1 in
              rw (written, find_address-set na b prefix i e kept, there)
                (ap some (
                  get_or-set_ne st.entries i j e blank_entry (λ s. other (
                    sym at_b ∙ ap (λ k. (get_or prefix k blank_entry).address_hash) (sym s) ∙ at))))
        ],
      )

  -- An entry that is added: only its own address sees it.
  pub store_get-add :
      (a b : List ℕ) (e : DhtEntry)
      → find_address na a (take st.num_entries st.entries) ≡ none
      → e.address_hash ≡ a
      → st.num_entries < 256
      → (store_get na
            (record { entries = set st.entries st.num_entries e; num_entries = st.num_entries + 1 })
            a
          ≡ some e)
        × (b ≢ a
            → store_get na
                (record {
                  entries = set st.entries st.num_entries e;
                  num_entries = st.num_entries + 1;
                })
                b
              ≡ store_get na st b)
  unfolding store_get
  store_get-add a b e nothing same room =
      let n = st.num_entries in
      let prefix = take n st.entries in
      let size : length prefix ≡ n = omega (arith, length-take n st.entries, v.size) in
      let written = take-set_end n st.entries e (omega (arith, v.size)) in
      let its_own : na.memcmp e.address_hash a ≡ true = (na.memcmp_iff e.address_hash a).1 same in
      (
        rw (written, find_address-append_none na a prefix e nothing, its_own)
            (ap (λ k. some (get_or (set st.entries n e) k blank_entry)) size
              ∙ ap some (get_or-set_self st.entries n e blank_entry (omega (arith, v.size)))),
        λ other. elim (Option-cases (find_address na b prefix)) [
          | inl not_there ↦ elim (Bool-cases (na.memcmp e.address_hash b)) [
            | inl clash ↦ absurd (other (sym ((na.memcmp_iff e.address_hash b).0 clash) ∙ same))
            | inr apart ↦
                rw (written, find_address-append_none na b prefix e not_there, apart, not_there)
                  refl
          ]
          | inr (j, there) ↦
              let low = (find_address-some na b prefix j there).0 in
              rw (written, find_address-append_some na b prefix e j there, there)
                (ap some (get_or-set_ne st.entries n j e blank_entry (omega arith)))
        ],
      )

pub get_found :
    (na : Sodium) (st : Store) (a : List ℕ) (i : ℕ)
    → find_address na a (take st.num_entries st.entries) ≡ some i
    → store_get na st a ≡ some (get_or st.entries i blank_entry)
unfolding store_get
get_found na st a i found = rw (found) refl

pub get_nothing :
    (na : Sodium) (st : Store) (a : List ℕ)
    → find_address na a (take st.num_entries st.entries) ≡ none
    → store_get na st a ≡ none
unfolding store_get
get_nothing na st a nothing = rw (nothing) refl
