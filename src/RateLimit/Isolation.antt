-- ===== src/RateLimit/Isolation.antt =====
-- A request of one address in src/ratelimit.c spends nobody else's tokens.
use moor_pq.Base.{
  ℕ, zero, suc, ◌<◌, ◌≤◌, ◌≡◌, ◌≢◌, ◌∙◌, ap, sym, refl, false, List, [], ◌∷◌, ◌++◌, length, get_or,
  get_or-set_ne, get_or-append_left, set, take_all, leb, arith, Bool-cases, Option-cases, inl, inr,
}
use moor_pq.RateLimit.{
  Entry, Limiter, num_types, max_ips, find_entry, find_or_create, fresh_entry, refill_elapsed,
  spend, ratelimit_check, same_string,
}
use moor_pq.RateLimit.Entries.{
  find_entry_lem, find_or_create_found, find_or_create_append, same_string→eq,
}
use moor_pq.RateLimit.Grants.{
  available, available_in, available_at, available_absent, check_split, find_or_create-Found,
}

-- A search sees only the addresses.
find_entry-set_address :
    (ip : List ℕ) (es : List Entry) (i : ℕ) (e d : Entry)
    → i < length es
    → e.ip ≡ (get_or es i d).ip
    → find_entry ip (set es i e) ≡ find_entry ip es
unfolding find_entry
find_entry-set_address ip [] i e d lt same = absurd (omega arith)
find_entry-set_address ip (x ∷ es) zero e d lt same = rw same refl
find_entry-set_address ip (x ∷ es) (suc i) e d lt same =
    rw (find_entry-set_address ip es i e d (omega arith) same) refl

find_entry-append_other :
    (ip : List ℕ) (es : List Entry) (e : Entry)
    → same_string e.ip ip ≡ false
    → find_entry ip (es ++ (e ∷ [])) ≡ find_entry ip es
unfolding find_entry
find_entry-append_other ip [] e other = rw other refl
find_entry-append_other ip (x ∷ es) e other = rw (find_entry-append_other ip es e other) refl

-- What stands at `i` is another's.
available_in-set :
    (ip : List ℕ) (t : ℕ) (es : List Entry) (i : ℕ) (e d : Entry)
    → i < length es
    → e.ip ≡ (get_or es i d).ip
    → e.ip ≢ ip
    → available_in (set es i e) ip t ≡ available_in es ip t
available_in-set ip t es i e d lt same other =
    let kept = find_entry-set_address ip es i e d lt same in
    elim (Option-cases (find_entry ip es)) [
      | inl missing ↦
          rw (available_absent (set es i e) ip t (kept ∙ missing), available_absent es ip t missing)
            refl
      | inr (j, found) ↦
          let hit = find_entry_lem ip es j d found in
          let apart : i ≢ j = λ eq. other (same ∙ ap (λ k. (get_or es k d).ip) eq ∙ hit.1) in
          rw
            (
              available_at (set es i e) ip t j (kept ∙ found),
              available_at es ip t j found,
              get_or-set_ne es i j e (fresh_entry ip 0) apart,
            )
            refl
    ]

available_in-append :
    (ip : List ℕ) (t : ℕ) (es : List Entry) (e : Entry)
    → same_string e.ip ip ≡ false
    → available_in (es ++ (e ∷ [])) ip t ≡ available_in es ip t
available_in-append ip t es e other =
    let kept = find_entry-append_other ip es e other in
    elim (Option-cases (find_entry ip es)) [
      | inl missing ↦
          rw
            (
              available_absent (es ++ (e ∷ [])) ip t (kept ∙ missing),
              available_absent es ip t missing,
            )
            refl
      | inr (j, found) ↦
          let hit = find_entry_lem ip es j (fresh_entry ip 0) found in
          rw
            (
              available_at (es ++ (e ∷ [])) ip t j (kept ∙ found),
              available_at es ip t j found,
              get_or-append_left es (e ∷ []) j (fresh_entry ip 0) hit.0,
            )
            refl
    ]

spend-refill-ip : (t now : ℕ) (e : Entry) → (spend t (refill_elapsed t now e)).1.ip ≡ e.ip
unfolding spend refill_elapsed
spend-refill-ip t now e = ground arith

string_apart : (a b : List ℕ) → a ≢ b → same_string a b ≡ false
string_apart a b h = elim (Bool-cases (same_string a b)) [
  | inl same ↦ absurd (h (same_string→eq a b same))
  | inr other ↦ other
]

find_or_create_other :
    (ip other : List ℕ) (u now : ℕ) (es : List Entry)
    → ip ≢ other
    → length ip ≤ 63
    → length es < max_ips
    → available_in (find_or_create ip now es).1 other u ≡ available_in es other u
unfolding fresh_entry
find_or_create_other ip other u now es apart short room = elim (Option-cases (find_entry ip es)) [
  | inr (i, found) ↦
      let hit = find_entry_lem ip es i (fresh_entry ip now) found in
      rw (find_or_create_found ip now es i found) (
        available_in-set other u es i _ (fresh_entry ip now) hit.0 refl
          (λ eq. apart (sym hit.1 ∙ eq)))
  | inl missing ↦ rw (find_or_create_append ip now es missing room) (
      available_in-append other u es (fresh_entry ip now)
        (rw (take_all 63 ip short) (string_apart ip other apart)))
]

-- A request of one address leaves the tokens of every other address as they are, in every bucket,
-- when the table has room for one entry more.
pub ratelimit_check_other :
    (l : Limiter) (ip other : List ℕ) (t u now later : ℕ)
    → ip ≢ other
    → length ip ≤ 63
    → length l.entries < max_ips
    → available (ratelimit_check l ip t now later).1 other u ≡ available l other u
unfolding ratelimit_check
ratelimit_check_other l ip other t u now later apart short room = elim (Bool-cases l.ready) [
  | inr off ↦ simp off refl
  | inl on ↦ elim (Bool-cases (leb num_types t)) [
    | inl bad ↦ simp (on, bad) refl
    | inr good ↦
        let f = find_or_create-Found ip now l.entries short in
        let (i, es) = find_or_create ip now l.entries in
        let same = spend-refill-ip t later (get_or es i (fresh_entry ip now)) in
        rw (check_split l ip t now later on (ground arith)) (
          available_in-set other u es i _ (fresh_entry ip now) f.inside same
            (λ eq. apart (sym (f.address (fresh_entry ip now)) ∙ sym same ∙ eq))
          ∙ find_or_create_other ip other u now l.entries apart short room)
  ]
]
