-- ===== src/Dht/Pir/Select.antt =====
-- src/dht.c, the sums of slots that two replicas make of bits that differ at one slot: what is left of
-- both is that slot.
use moor_pq.Base.{
  ℕ, zero, suc, ◌≡◌, ◌<◌, ◌∙◌, refl, sym, ap, List, [], ◌∷◌, length, get_or, ◌==◌, if◌then◌else◌,
  arith, All, Bool-cases, inl, inr, xor_bytes, xor_bytes_comm, xor_bytes_assoc, xor_bytes_self,
  length-xor_bytes,
}
use moor_pq.Dht.Dpf.Level.{Opposite}
use moor_pq.Dht.Dpf.Points.{Differ}
use moor_pq.Dht.Pir.{PirSlot, empty_slot, xor_selected}

-- A slot is added to a sum if its bit is set.
abbrev added : ℕ → PirSlot → List ℕ → List ℕ
added b s result =
    if b == 0 then result else if s.flat_len == 0 then result else xor_bytes result s.flat

abbrev pub taken : PirSlot → List ℕ → List ℕ
taken s result = if s.flat_len == 0 then result else xor_bytes result s.flat

-- A slot of `size` bytes.
abbrev pub HasSize : ℕ → PirSlot → Type 0
HasSize size s = length s.flat ≡ size

module _ (size : ℕ) where
  xor_twice :
      (x y d : List ℕ)
      → length y ≡ size
      → length d ≡ size
      → xor_bytes (xor_bytes x d) (xor_bytes y d) ≡ xor_bytes x y
  xor_twice x y d hy hd =
      xor_bytes_assoc x d (xor_bytes y d)
      ∙ ap (xor_bytes x) (xor_bytes_comm d (xor_bytes y d) ∙ xor_bytes_self y d (hy ∙ sym hd))

  xor_once : (x y d : List ℕ) → xor_bytes (xor_bytes x d) y ≡ xor_bytes (xor_bytes x y) d
  xor_once x y d =
      xor_bytes_assoc x d y ∙ ap (xor_bytes x) (xor_bytes_comm d y) ∙ sym (xor_bytes_assoc x y d)

  length-added :
      (b : ℕ) (s : PirSlot) (x : List ℕ)
      → HasSize size s
      → length x ≡ size
      → length (added b s x) ≡ size
  length-added b s x hs hx = elim (Bool-cases (b == 0)) [
    | inl off ↦ rw (off) hx
    | inr on ↦ elim (Bool-cases (s.flat_len == 0)) [
      | inl empty ↦ rw (on, empty) hx
      | inr full ↦ rw (on, full) (length-xor_bytes x s.flat (hx ∙ sym hs) ∙ hx)
    ]
  ]

  added_both :
      (b : ℕ) (s : PirSlot) (x y : List ℕ)
      → HasSize size s
      → length y ≡ size
      → xor_bytes (added b s x) (added b s y) ≡ xor_bytes x y
  added_both b s x y hs hy = elim (Bool-cases (b == 0)) [
    | inl off ↦ rw (off) refl
    | inr on ↦ elim (Bool-cases (s.flat_len == 0)) [
      | inl empty ↦ rw (on, empty) refl
      | inr full ↦ rw (on, full) (xor_twice x y s.flat hy hs)
    ]
  ]

  added_one :
      (b c : ℕ) (s : PirSlot) (x y : List ℕ)
      → Opposite b c
      → xor_bytes (added b s x) (added c s y) ≡ taken s (xor_bytes x y)
  added_one b c s x y (inl (p, q)) = elim (Bool-cases (s.flat_len == 0)) [
    | inl empty ↦ rw (p, q, empty) refl
    | inr full ↦ rw (p, q, full) (sym (xor_bytes_assoc x y s.flat))
  ]
  added_one b c s x y (inr (p, q)) = elim (Bool-cases (s.flat_len == 0)) [
    | inl empty ↦ rw (p, q, empty) refl
    | inr full ↦ rw (p, q, full) (xor_once x y s.flat)
  ]

  same_bits :
      (bits : List ℕ) (slots : List PirSlot) (x y : List ℕ)
      → All (HasSize size) slots
      → length x ≡ size
      → length y ≡ size
      → xor_bytes (xor_selected bits slots x) (xor_selected bits slots y) ≡ xor_bytes x y
  unfolding xor_selected
  same_bits [] slots x y all hx hy = refl
  same_bits (b ∷ bits) [] x y all hx hy = refl
  same_bits (b ∷ bits) (s ∷ slots) x y (hs, all) hx hy =
      same_bits bits slots (added b s x) (added b s y) all (length-added b s x hs hx)
        (length-added b s y hs hy)
      ∙ added_both b s x y hs hy

  pub xor_selected-Differ :
      (p : ℕ) (bits_a bits_b : List ℕ) (slots : List PirSlot) (x y : List ℕ)
      → Differ Opposite p bits_a bits_b
      → p < length bits_a
      → length bits_a ≡ length slots
      → All (HasSize size) slots
      → length x ≡ size
      → length y ≡ size
      → xor_bytes (xor_selected bits_a slots x) (xor_selected bits_b slots y)
        ≡ taken (get_or slots p empty_slot) (xor_bytes x y)
  unfolding xor_selected
  xor_selected-Differ p [] bits_b slots x y d inside wide all hx hy = absurd (omega arith)
  xor_selected-Differ p (b ∷ bits_a) [] slots x y d inside wide all hx hy = absurd d
  xor_selected-Differ p (b ∷ bits_a) (c ∷ bits_b) [] x y d inside wide all hx hy =
      absurd (omega arith)
  xor_selected-Differ zero (b ∷ bits_a) (c ∷ bits_b) (s ∷ slots) x y d inside wide (hs, all) hx hy =
      ap
        (λ bits.
          xor_bytes (xor_selected bits slots (added b s x))
            (xor_selected bits_b slots (added c s y)))
        d.1
      ∙ same_bits bits_b slots (added b s x) (added c s y) all (length-added b s x hs hx)
          (length-added c s y hs hy)
      ∙ added_one b c s x y d.0
  xor_selected-Differ (suc p) (b ∷ bits_a) (c ∷ bits_b) (s ∷ slots) x y d inside wide (hs, all) hx
        hy =
      xor_selected-Differ p bits_a bits_b slots (added b s x) (added c s y) d.1 (omega arith)
        (omega arith) all (length-added b s x hs hx) (length-added c s y hs hy)
      ∙ ap (taken (get_or slots p empty_slot))
          (ap (λ e. xor_bytes (added b s x) (added e s y)) (sym d.0) ∙ added_both b s x y hs hy)
