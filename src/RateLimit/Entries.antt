-- ===== src/RateLimit/Entries.antt =====
-- How the table of src/ratelimit.c is searched: by address, and for the entry to evict.
use moor_pq.Base.{
  ℕ, zero, suc, ◌+◌, ◌<◌, ◌≤◌, ◌≡◌, ◌⊎◌, lt_or_le, refl, true, false, none, some, List, [], ◌∷◌,
  ◌++◌, length, get_or, set, arith, Bool-cases, Option-cases, inl, inr, ==_refl,
}
use mathlib.Core.Option
use moor_pq.RateLimit.{
  Entry, same_string, find_entry, oldest_from, oldest_entry, max_ips, fresh_entry, find_or_create,
}

pub same_string_refl : (s : List ℕ) → same_string s s ≡ true
unfolding same_string
same_string_refl [] = refl
same_string_refl (x ∷ xs) = simp (==_refl x, same_string_refl xs) refl

-- strcmp returns 0 for equal strings only.
pub same_string→eq : (a b : List ℕ) → same_string a b ≡ true → a ≡ b
unfolding same_string
same_string→eq [] [] h = refl
same_string→eq [] (y ∷ ys) h = cc
same_string→eq (x ∷ xs) [] h = cc
same_string→eq (x ∷ xs) (y ∷ ys) h = ground (arith, same_string→eq xs ys)

pub find_entry_hit :
    (ip : List ℕ) (e : Entry) (es : List Entry)
    → same_string e.ip ip ≡ true
    → find_entry ip (e ∷ es) ≡ some 0
unfolding find_entry
find_entry_hit ip e es h = ground arith

pub find_entry_skip :
    (ip : List ℕ) (e : Entry) (es : List Entry)
    → same_string e.ip ip ≡ false
    → find_entry ip (e ∷ es) ≡ Option.map suc (find_entry ip es)
unfolding find_entry
find_entry_skip ip e es h = ground arith

-- What was found is an index of the table, at which the address stands.
pub find_entry_lem :
    (ip : List ℕ) (es : List Entry) (i : ℕ) (d : Entry)
    → find_entry ip es ≡ some i
    → (i < length es) × ((get_or es i d).ip ≡ ip)
unfolding find_entry
find_entry_lem ip [] i d h = cc
find_entry_lem ip (e ∷ es) i d h = elim (Bool-cases (same_string e.ip ip)) [
  | inl hit ↦ ground (arith, same_string→eq e.ip ip)
  | inr miss ↦ elim (Option-cases (find_entry ip es)) [
    | inl none_left ↦ ground arith
    | inr (j, found) ↦ let ih = find_entry_lem ip es j d found in ground arith
  ]
]

-- A search that stops at `i` still does when an entry for the same address is written there.
pub find_entry-set :
    (ip : List ℕ) (es : List Entry) (i : ℕ) (e : Entry)
    → find_entry ip es ≡ some i
    → same_string e.ip ip ≡ true
    → find_entry ip (set es i e) ≡ some i
unfolding find_entry
find_entry-set ip [] i e h same = cc
find_entry-set ip (x ∷ es) i e h same = elim (Bool-cases (same_string x.ip ip)) [
  | inl hit ↦ let e0 : i ≡ 0 = ground arith in rw e0 (find_entry_hit ip e es same)
  | inr miss ↦ elim (Option-cases (find_entry ip es)) [
    | inl none_left ↦ ground arith
    | inr (j, found) ↦
        let ej : i ≡ suc j = ground arith in
        rw (ej, find_entry_skip ip x (set es j e) miss, find_entry-set ip es j e found same) refl
  ]
]

-- An address that is not in the table is found where its entry is written, or appended.
pub find_entry-open :
    (ip : List ℕ) (es : List Entry) (i : ℕ) (e : Entry)
    → find_entry ip es ≡ none
    → i < length es
    → same_string e.ip ip ≡ true
    → find_entry ip (set es i e) ≡ some i
unfolding find_entry
find_entry-open ip [] i e h lt same = absurd (omega arith)
find_entry-open ip (x ∷ es) zero e h lt same = find_entry_hit ip e es same
find_entry-open ip (x ∷ es) (suc j) e h lt same = elim (Bool-cases (same_string x.ip ip)) [
  | inl hit ↦ ground arith
  | inr miss ↦
      rw
        (
          find_entry_skip ip x (set es j e) miss,
          find_entry-open ip es j e (ground (arith, Option-cases (find_entry ip es))) (omega arith)
              same,
        )
        refl
]

pub find_entry-append :
    (ip : List ℕ) (es : List Entry) (e : Entry)
    → find_entry ip es ≡ none
    → same_string e.ip ip ≡ true
    → find_entry ip (es ++ (e ∷ [])) ≡ some (length es)
unfolding find_entry
find_entry-append ip [] e h same = find_entry_hit ip e [] same
find_entry-append ip (x ∷ es) e h same = elim (Bool-cases (same_string x.ip ip)) [
  | inl hit ↦ ground arith
  | inr miss ↦
      rw
        (
          find_entry_skip ip x (es ++ (e ∷ [])) miss,
          find_entry-append ip es e (ground (arith, Option-cases (find_entry ip es))) same,
        )
        refl
]

at_each :
    (v : ℕ) (e : Entry) (es : List Entry) (d : Entry)
    → v ≤ e.last_seen
    → ((j : ℕ) → j < length es → v ≤ (get_or es j d).last_seen)
    → (j : ℕ) → j < suc (length es)
    → v ≤ (get_or (e ∷ es) j d).last_seen
at_each v e es d head tail zero h = head
at_each v e es d head tail (suc j) h = tail j (omega arith)

-- The entry that `oldest_from` ends with: the one it came with, or one of the list.
oldest_from_lem :
    (es : List Entry) (i oldest seen : ℕ) (d : Entry)
    → ((oldest_from es i oldest seen ≡ oldest)
        × ((j : ℕ) → j < length es → seen ≤ (get_or es j d).last_seen))
      ⊎ ((k : ℕ) × (oldest_from es i oldest seen ≡ i + k)
          × (k < length es)
          × ((get_or es k d).last_seen < seen)
          × ((j : ℕ) → j < length es → (get_or es k d).last_seen ≤ (get_or es j d).last_seen))
unfolding oldest_from
oldest_from_lem [] i oldest seen d = inl (refl, λ j h. absurd (omega arith))
oldest_from_lem (e ∷ es) i oldest seen d = elim (lt_or_le e.last_seen seen) [
  | inl older ↦ elim (oldest_from_lem es (i + 1) i e.last_seen d) [
    | inl (r, least) ↦
        inr (0, ground arith, omega arith, older, at_each e.last_seen e es d (omega arith) least)
    | inr (k, r, lt, less, least) ↦
        inr (suc k, ground arith, omega arith, omega arith, at_each _ e es d (omega arith) least)
  ]
  | inr newer ↦ elim (oldest_from_lem es (i + 1) oldest seen d) [
    | inl (r, least) ↦ inl (ground arith, at_each seen e es d newer least)
    | inr (k, r, lt, less, least) ↦
        inr (suc k, ground arith, omega arith, less, at_each _ e es d (omega arith) least)
  ]
]

-- The entry to evict is in the table, and none was seen longer ago.
pub oldest_entry_lem :
    (es : List Entry) (d : Entry)
    → 0 < length es
    → (oldest_entry es < length es)
      × ((j : ℕ)
          → j < length es
          → (get_or es (oldest_entry es) d).last_seen ≤ (get_or es j d).last_seen)
unfolding oldest_entry
oldest_entry_lem [] d h = absurd (omega arith)
oldest_entry_lem (e ∷ es) d h = elim (oldest_from_lem es 1 0 e.last_seen d) [
  | inl (r, least) ↦ rw r (omega arith, at_each e.last_seen e es d (omega arith) least)
  | inr (k, r, lt, less, least) ↦
      let i : oldest_from es 1 0 e.last_seen ≡ suc k = omega arith in
      rw i (omega arith, at_each _ e es d (omega arith) least)
]

-- The three ways of `find_or_create`.
module _ (ip : List ℕ) (now : ℕ) (es : List Entry) where
  pub find_or_create_found :
      (i : ℕ)
      → find_entry ip es ≡ some i
      → find_or_create ip now es
        ≡ (i, set es i (record (get_or es i (fresh_entry ip now)) { last_seen = now }))
  unfolding find_or_create
  find_or_create_found i found = ground arith

  pub find_or_create_append :
      find_entry ip es ≡ none
      → length es < max_ips
      → find_or_create ip now es ≡ (length es, es ++ (fresh_entry ip now ∷ []))
  unfolding find_or_create
  find_or_create_append missing room = ground arith

  pub find_or_create_evict :
      find_entry ip es ≡ none
      → max_ips ≤ length es
      → find_or_create ip now es ≡ (oldest_entry es, set es (oldest_entry es) (fresh_entry ip now))
  unfolding find_or_create
  find_or_create_evict missing full = ground arith
