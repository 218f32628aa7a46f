-- ===== src/Config/Words.antt =====
-- The words of a line: what `get_key` and `get_val` take, and when they write past their array.
use socksprox.Base.Text.{NoneStop, ◌>>=◌, store_at}
use socksprox.Base.{
  lt_cases, inl, inr, ℕ, zero, suc, ◌+◌, ◌-◌, ◌<◌, ◌≡◌, refl, ap, ◌∙◌, Bool, true, false, List, [],
  ◌∷◌, ◌++◌, append_assoc, Option, none, some, ltb, ◌==◌, length, length-append, take, drop,
  replicate, arith, if◌then◌else◌,
}
use socksprox.Config.Scan.{copy_word, is_separator, is_value_end, get_key, get_val}

-- A word in an array of `n` zeros.
abbrev pub pad : ℕ → List ℕ → List ℕ
pad n xs = xs ++ replicate (n - length xs) 0

store_at-append :
    (pre ys : List ℕ) (i y v : ℕ)
    → i ≡ length pre
    → store_at (pre ++ (y ∷ ys)) i v ≡ some (pre ++ (v ∷ ys))
store_at-append [] ys zero y v e = refl
store_at-append [] ys (suc i) y v e = absurd (omega arith)
store_at-append (x ∷ pre) ys zero y v e = absurd (omega arith)
store_at-append (x ∷ pre) ys (suc i) y v e =
    ap (λ o. o >>= λ zs. some (x ∷ zs)) (store_at-append pre ys i y v (omega arith))

store_at_end : (pre : List ℕ) (i v : ℕ) → i ≡ length pre → store_at pre i v ≡ none
store_at_end [] i v e = refl
store_at_end (x ∷ pre) zero v e = absurd (omega arith)
store_at_end (x ∷ pre) (suc i) v e =
    ap (λ o. o >>= λ zs. some (x ∷ zs)) (store_at_end pre i v (omega arith))

store_at_next :
    (pre ys : List ℕ) (i x y v : ℕ)
    → i ≡ length pre
    → store_at (pre ++ (x ∷ y ∷ ys)) (suc i) v ≡ some ((pre ++ (x ∷ [])) ++ (v ∷ ys))
store_at_next [] ys zero x y v e = refl
store_at_next [] ys (suc i) x y v e = absurd (omega arith)
store_at_next (w ∷ pre) ys zero x y v e = absurd (omega arith)
store_at_next (w ∷ pre) ys (suc i) x y v e =
    ap (λ o. o >>= λ zs. some (w ∷ zs)) (store_at_next pre ys i x y v (omega arith))

store_at_next_end :
    (pre : List ℕ) (i x v : ℕ) → i ≡ length pre → store_at (pre ++ (x ∷ [])) (suc i) v ≡ none
store_at_next_end pre i x v e =
    store_at_end (pre ++ (x ∷ [])) (suc i) v (omega (arith, length-append pre (x ∷ [])))

-- One more byte of the word; its last byte; and a last byte without a place for the terminator.
module _ (stop : ℕ → Bool) (i x y : ℕ) (c pre : List ℕ) (e : i ≡ length pre) where
  copy_word_more :
      (n : ℕ)
      → stop y ≡ false
      → copy_word stop (suc n) i (x ∷ y ∷ c) (pre ++ replicate (suc n) 0)
        ≡ copy_word stop n (suc i) (y ∷ c) ((pre ++ (x ∷ [])) ++ replicate n 0)
  unfolding copy_word
  copy_word_more n s =
      rw (store_at-append pre (replicate n 0) i 0 x e, s, append_assoc pre (x ∷ []) (replicate n 0))
        refl

  copy_word_last :
      (n : ℕ)
      → stop y ≡ true
      → copy_word stop (suc (suc n)) i (x ∷ y ∷ c) (pre ++ replicate (suc (suc n)) 0)
        ≡ some (y ∷ c, (pre ++ (x ∷ [])) ++ replicate (suc n) 0)
  unfolding copy_word
  copy_word_last n s =
      rw
        (
          store_at-append pre (replicate (suc n) 0) i 0 x e,
          s,
          store_at_next pre (replicate n 0) i x 0 0 e,
        )
        refl

  copy_word_full : stop y ≡ true → copy_word stop 1 i (x ∷ y ∷ c) (pre ++ (0 ∷ [])) ≡ none
  unfolding copy_word
  copy_word_full s = rw (store_at-append pre [] i 0 x e, s, store_at_next_end pre i x 0 e) refl

module _ (stop : ℕ → Bool) (y : ℕ) (rest : List ℕ) (ended : stop y ≡ true) where
  -- A word that leaves a place for its terminator, and `m` places more.
  copy_word-short :
      (n i x m : ℕ) (xs pre : List ℕ)
      → i ≡ length pre
      → NoneStop stop xs
      → length xs + suc (suc m) ≡ n
      → copy_word stop n i (x ∷ (xs ++ (y ∷ rest))) (pre ++ replicate n 0)
        ≡ some (y ∷ rest, (pre ++ (x ∷ xs)) ++ replicate (suc m) 0)
  copy_word-short zero i x m xs pre e h l = absurd (omega arith)
  copy_word-short (suc zero) i x m xs pre e h l = absurd (omega arith)
  copy_word-short (suc (suc n)) i x m [] pre e h l =
      copy_word_last stop i x y rest pre e n ended
      ∙ ap (λ (k : ℕ). some (y ∷ rest, (pre ++ (x ∷ [])) ++ replicate (suc k) 0)) {x = n} {y = m}
          (omega arith)
  copy_word-short (suc (suc n)) i x m (z ∷ xs) pre e h l =
      copy_word_more stop i x z (xs ++ (y ∷ rest)) pre e (suc n) h.0
      ∙ copy_word-short (suc n) (suc i) z m xs (pre ++ (x ∷ []))
          (omega (arith, e, length-append pre (x ∷ []))) h.1 (omega arith)
      ∙ ap (λ (t : List ℕ). some (y ∷ rest, t ++ replicate (suc m) 0))
          (append_assoc pre (x ∷ []) (z ∷ xs))

  -- A word that fills the array: its terminator is written behind it.
  copy_word-overflow :
      (n i x : ℕ) (xs pre : List ℕ)
      → i ≡ length pre
      → NoneStop stop xs
      → suc (length xs) ≡ n
      → copy_word stop n i (x ∷ (xs ++ (y ∷ rest))) (pre ++ replicate n 0) ≡ none
  copy_word-overflow zero i x xs pre e h l = absurd (omega arith)
  copy_word-overflow (suc zero) i x [] pre e h l = copy_word_full stop i x y rest pre e ended
  copy_word-overflow (suc zero) i x (z ∷ xs) pre e h l = absurd (omega arith)
  copy_word-overflow (suc (suc n)) i x [] pre e h l = absurd (omega arith)
  copy_word-overflow (suc (suc n)) i x (z ∷ xs) pre e h l =
      copy_word_more stop i x z (xs ++ (y ∷ rest)) pre e (suc n) h.0
      ∙ copy_word-overflow (suc n) (suc i) z xs (pre ++ (x ∷ []))
          (omega (arith, e, length-append pre (x ∷ []))) h.1 (omega arith)

  -- A longer word is cut off without a terminator.
  copy_word-cut :
      (n i x : ℕ) (xs pre : List ℕ)
      → i ≡ length pre
      → NoneStop stop xs
      → n < suc (length xs)
      → copy_word stop n i (x ∷ (xs ++ (y ∷ rest))) (pre ++ replicate n 0)
        ≡ some (drop n (x ∷ (xs ++ (y ∷ rest))), pre ++ take n (x ∷ xs))
  unfolding copy_word
  copy_word-cut zero i x xs pre e h l = refl
  copy_word-cut (suc n) i x [] pre e h l = absurd (omega arith)
  copy_word-cut (suc n) i x (z ∷ xs) pre e h l =
      copy_word_more stop i x z (xs ++ (y ∷ rest)) pre e n h.0
      ∙ copy_word-cut n (suc i) z xs (pre ++ (x ∷ []))
          (omega (arith, e, length-append pre (x ∷ []))) h.1 (omega arith)
      ∙ ap (λ (t : List ℕ). some (drop n (z ∷ (xs ++ (y ∷ rest))), t))
          (append_assoc pre (x ∷ []) (take n (z ∷ xs)))

-- What is left of the line behind a word, and the array of `n` bytes that was zero before.
unfoldable pub word_in : ℕ → List ℕ → List ℕ → Option (List ℕ × List ℕ)
word_in n word rest =
    if ltb (length word) n
    then some (rest, pad n word)
    else if length word == n
    then none
    else some (drop n (word ++ rest), take n word)

copy_word_lem :
    (stop : ℕ → Bool) (n x y : ℕ) (xs rest : List ℕ)
    → NoneStop stop xs
    → stop y ≡ true
    → copy_word stop n 0 (x ∷ (xs ++ (y ∷ rest))) (replicate n 0) ≡ word_in n (x ∷ xs) (y ∷ rest)
unfolding word_in
copy_word_lem stop n x y xs rest h s = elim (lt_cases (suc (length xs)) n) [
  | inl short ↦
      copy_word-short stop y rest s n 0 x (n - suc (suc (length xs))) xs [] refl h (omega arith)
      ∙ ap (λ (k : ℕ). some (y ∷ rest, (x ∷ xs) ++ replicate k 0))
          {x = suc (n - suc (suc (length xs)))} {y = n - suc (length xs)} (omega arith)
      ∙ ground arith
  | inr (inl full) ↦ copy_word-overflow stop y rest s n 0 x xs [] refl h full ∙ ground arith
  | inr (inr long) ↦ copy_word-cut stop y rest s n 0 x xs [] refl h long ∙ ground arith
]

-- A key from its first byte to the byte before the next separator: below 64 bytes it is stored with
-- its terminator and the line stays behind it; with 64 bytes the terminator is written out of the
-- array, which is undefined; a longer key is cut after 64 bytes, has no terminator, and the rest of
-- it stays in the line.
pub get_key_lem :
    (x y : ℕ) (xs rest : List ℕ)
    → NoneStop is_separator xs
    → is_separator y ≡ true
    → get_key (x ∷ (xs ++ (y ∷ rest))) (replicate 64 0) 64 ≡ word_in 64 (x ∷ xs) (y ∷ rest)
unfolding get_key
get_key_lem x y xs rest h s = copy_word_lem is_separator 64 x y xs rest h s

-- The same for a value, up to white space or the end of the line, and its 255 bytes.
pub get_val_lem :
    (x y : ℕ) (xs rest : List ℕ)
    → NoneStop is_value_end xs
    → is_value_end y ≡ true
    → get_val (x ∷ (xs ++ (y ∷ rest))) (replicate 255 0) 255 ≡ word_in 255 (x ∷ xs) (y ∷ rest)
unfolding get_val
get_val_lem x y xs rest h s = copy_word_lem is_value_end 255 x y xs rest h s
