-- ===== src/Base/Arrays.antt =====
-- `memcpy` into an array, and reads of what was copied.
use Prim.Native.Nat.{ℕ, zero, suc, ◌+◌, ◌-◌, ◌≤◌, ◌<◌}
use mathlib.Core.Path.{◌≡◌, refl, ap, sym, ◌∙◌}
use mathlib.Core.List.{List, [], ◌∷◌, ◌++◌, append_assoc}
use native.Mathlib.Omega.{arith}
use moor_pq.Base.Lists.{
  length, take, drop, get_or, replicate, length-append, length-take, length-drop, take-append,
  take-append-drop, drop-append, length-replicate,
}

drop_nil {ℓ} : (A : Type ℓ) (n : ℕ) → drop {A = A} n [] ≡ []
drop_nil A zero = refl
drop_nil A (suc n) = refl

take_nil {ℓ} : (A : Type ℓ) (n : ℕ) → take {A = A} n [] ≡ []
take_nil A zero = refl
take_nil A (suc n) = refl

module _ {ℓ} {A : Type ℓ} where
  -- `memcpy(dst + off, src, length src)`
  unfoldable pub write_at : ℕ → List A → List A → List A
  write_at off src dst = take off dst ++ (src ++ drop (off + length src) dst)

  pub drop_of_le : (n : ℕ) (xs : List A) → length xs ≤ n → drop n xs ≡ []
  drop_of_le zero [] h = refl
  drop_of_le zero (x ∷ xs) h = absurd (omega arith)
  drop_of_le (suc n) [] h = refl
  drop_of_le (suc n) (x ∷ xs) h = drop_of_le n xs (omega arith)

  pub drop-drop : (m n k : ℕ) (xs : List A) → k ≡ n + m → drop m (drop n xs) ≡ drop k xs
  drop-drop m n k [] h = rw (drop_nil A n, drop_nil A m, drop_nil A k)
  drop-drop m zero k (x ∷ xs) h = ap (λ j. drop j (x ∷ xs)) (omega arith)
  drop-drop m (suc n) zero (x ∷ xs) h = absurd (omega arith)
  drop-drop m (suc n) (suc k) (x ∷ xs) h = drop-drop m n k xs (omega arith)

  pub drop-replicate : (n m k : ℕ) (a : A) → k ≡ m - n → drop n (replicate m a) ≡ replicate k a
  unfolding replicate
  drop-replicate zero m k a h = ap (λ j. replicate j a) (omega arith)
  drop-replicate (suc n) zero zero a h = refl
  drop-replicate (suc n) zero (suc k) a h = absurd (omega arith)
  drop-replicate (suc n) (suc m) k a h = drop-replicate n m k a (omega arith)

  pub take-replicate : (n m : ℕ) (a : A) → n ≤ m → take n (replicate m a) ≡ replicate n a
  unfolding replicate
  take-replicate zero m a h = refl
  take-replicate (suc n) zero a h = absurd (omega arith)
  take-replicate (suc n) (suc m) a h = rw (take-replicate n m a (omega arith))

  pub length-write_at :
      (off : ℕ) (src dst : List A)
      → off + length src ≤ length dst
      → length (write_at off src dst) ≡ length dst
  unfolding write_at
  length-write_at off src dst h = omega (
    arith,
    length-append (take off dst) (src ++ drop (off + length src) dst),
    length-append src (drop (off + length src) dst),
    length-take off dst,
    length-drop (off + length src) dst,
  )

  -- A copy that begins where a prefix ends leaves the prefix.
  pub write_at-append :
      (off : ℕ) (src xs ys : List A)
      → off ≡ length xs
      → write_at off src (xs ++ ys) ≡ xs ++ (src ++ drop (length src) ys)
  unfolding write_at
  write_at-append off src xs ys h = rw (
    take-append off xs ys h,
    ← drop-drop (length src) off (off + length src) (xs ++ ys) refl,
    drop-append off xs ys h,
  )

  pub write_at-zero : (src dst : List A) → write_at 0 src dst ≡ src ++ drop (length src) dst
  write_at-zero src dst = write_at-append 0 src [] dst refl

  pub get_or-append :
      (xs ys : List A) (i n : ℕ) (d : A) → n ≡ length xs + i → get_or (xs ++ ys) n d ≡ get_or ys i d
  get_or-append [] ys i n d h = ap (λ k. get_or ys k d) (omega arith)
  get_or-append (x ∷ xs) ys i zero d h = absurd (omega arith)
  get_or-append (x ∷ xs) ys i (suc n) d h = get_or-append xs ys i n d (omega arith)

module _ {ℓ} {A : Type ℓ} where
  pub get_or-append_left :
      (xs ys : List A) (i : ℕ) (d : A) → i < length xs → get_or (xs ++ ys) i d ≡ get_or xs i d
  get_or-append_left [] ys i d h = absurd (omega arith)
  get_or-append_left (x ∷ xs) ys zero d h = refl
  get_or-append_left (x ∷ xs) ys (suc i) d h = get_or-append_left xs ys i d (omega arith)

-- `memset(p, 0, n)`
abbrev pub zeros : ℕ → List ℕ
zeros n = replicate n 0

pub drop-zeros : (n m k : ℕ) → k ≡ m - n → drop n (zeros m) ≡ zeros k
drop-zeros n m k h = drop-replicate n m k 0 h

pub length-zeros : (n : ℕ) → length (zeros n) ≡ n
length-zeros n = length-replicate n 0

module _ {ℓ} {A : Type ℓ} where
  -- What was copied is read back.
  pub read-write_at :
      (n off : ℕ) (src dst : List A)
      → off ≤ length dst
      → n ≡ length src
      → take n (drop off (write_at off src dst)) ≡ src
  unfolding write_at
  read-write_at n off src dst h e =
      rw
        (drop-append off (take off dst) (src ++ drop (off + length src) dst)
          (omega (arith, length-take off dst)))
        (take-append n src (drop (off + length src) dst) e)

  -- The second of two copies to one place wins.
  pub write_at-write_at :
      (off : ℕ) (a b dst : List A)
      → length a ≡ length b
      → off ≤ length dst
      → write_at off b (write_at off a dst) ≡ write_at off b dst
  write_at-write_at off a b dst e h =
      let p =
        write_at-append off b (take off dst) (a ++ drop (off + length a) dst)
          (omega (arith, length-take off dst)) in
      unfold write_at in
      p
      ∙ rw (drop-append (length b) a (drop (off + length a) dst) (sym e))
          (ap (λ k. take off dst ++ (b ++ drop (off + k) dst)) e)

  write_at-suc :
      (off : ℕ) (src : List A) (x : A) (xs : List A)
      → write_at (suc off) src (x ∷ xs) ≡ x ∷ write_at off src xs
  unfolding write_at
  write_at-suc off src x xs =
      let e : suc off + length src ≡ suc (off + length src) = omega arith in rw e

  -- A copy behind a prefix.
  pub write_at-append_right :
      (off k : ℕ) (src xs ys : List A)
      → off ≡ length xs + k
      → write_at off src (xs ++ ys) ≡ xs ++ write_at k src ys
  write_at-append_right off k src [] ys e = ap (λ j. write_at j src ys) (omega arith)
  write_at-append_right zero k src (x ∷ xs) ys e = absurd (omega arith)
  write_at-append_right (suc off) k src (x ∷ xs) ys e =
      write_at-suc off src x (xs ++ ys)
      ∙ ap (◌∷◌ x) (write_at-append_right off k src xs ys (omega arith))

  -- Copying what stands there already changes nothing.
  pub write_at_self :
      (n off : ℕ) (xs : List A) → off + n ≤ length xs → write_at off (take n (drop off xs)) xs ≡ xs
  unfolding write_at
  write_at_self n off xs h =
      rw (size, ← drop-drop n off (off + n) xs refl, take-append-drop n (drop off xs))
        (take-append-drop off xs)
    where
      size : length (take n (drop off xs)) ≡ n
      size = omega (arith, length-take n (drop off xs), length-drop off xs)

module _ {ℓ} {A : Type ℓ} where
  take_split : (m n k : ℕ) (xs : List A) → k ≡ m + n → take k xs ≡ take m xs ++ take n (drop m xs)
  take_split zero n k xs h = ap (λ j. take j xs) (omega arith)
  take_split (suc m) n zero xs h = absurd (omega arith)
  take_split (suc m) n (suc k) [] h = rw (take_nil A n)
  take_split (suc m) n (suc k) (x ∷ xs) h = rw (take_split m n k xs (omega arith))

  -- A buffer that holds the first `off` items of `xs` holds the first `off + n` when the next `n`
  -- have been copied behind them.
  pub take-write_at :
      (off n k : ℕ) (buf xs : List A)
      → k ≡ off + n
      → k ≤ length xs
      → off ≤ length buf
      → take off buf ≡ take off xs
      → take k (write_at off (take n (drop off xs)) buf) ≡ take k xs
  unfolding write_at
  take-write_at off n k buf xs e h g same =
      rw
        (
          take_split off n k xs e,
          same,
          ← append_assoc (take off xs) (take n (drop off xs))
              (drop (off + length (take n (drop off xs))) buf),
        )
        (take-append k (take off xs ++ take n (drop off xs)) _ size)
    where
      size : k ≡ length (take off xs ++ take n (drop off xs))
      size = omega (
        arith,
        length-append (take off xs) (take n (drop off xs)),
        length-take off xs,
        length-take n (drop off xs),
        length-drop off xs,
      )
