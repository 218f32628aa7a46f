-- ===== src/Logger/Custom.antt =====
-- Texts of `log_custom` on the pipe: the reader takes one byte more than was written.
use socksprox.Base.Text.{NoneStop, c_string-append, memcpy}
use socksprox.Base.{
  ℕ, zero, suc, ◌+◌, ◌%◌, ◌≤◌, ◌<◌, ◌≡◌, refl, ap, ◌∙◌, List, [], ◌∷◌, ◌++◌, some, ltb-le, lt→ltb,
  ◌==◌, length, length-append, take, drop, drop_all, replicate, set, arith,
}
use socksprox.Logger.Rounds.{drain-logged, drain-skipped, drain-nil}
use socksprox.Logger.{
  custom_message, error_message, custom, logged, skipped, read_custom, read_text, read_byte,
  read_message, write_custom, waiting, drain_pipe,
}

memcpy_all :
    (xs : List ℕ) (n : ℕ)
    → length xs ≤ n
    → (dst : List ℕ) × (memcpy (replicate n 0) xs (length xs) ≡ some dst)
      × (take (length xs) dst ≡ xs)
unfolding memcpy
memcpy_all [] n h = (replicate n 0, refl, refl)
memcpy_all (x ∷ xs) zero h = absurd (omega arith)
memcpy_all (x ∷ xs) (suc n) h =
    let (dst, e, t) = memcpy_all xs n (omega arith) in
    (x ∷ dst, rw e refl, ap (λ (s : List ℕ). x ∷ s) t)

-- A text that fits is written behind its length.
custom_message_lem :
    (str : List ℕ) (file : ℕ)
    → length str ≤ 252
    → custom_message str (length str) file ≡ some (0 ∷ file ∷ length str ∷ str)
unfolding custom_message
custom_message_lem str file h =
    let (dst, e, t) = memcpy_all str 252 h in rw (ltb-le 252 (length str) h, e, t) refl

-- The text and `y` are taken, and `y` is overwritten by the terminator.
taken_text :
    (str rest : List ℕ) (y : ℕ)
    → (set (take (suc (length str)) (str ++ (y ∷ rest))) (length str) 0 ≡ str ++ (0 ∷ []))
      × (drop (suc (length str)) (str ++ (y ∷ rest)) ≡ rest)
taken_text [] rest y = (refl, refl)
taken_text (x ∷ str) rest y =
    let (e, d) = taken_text str rest y in (ap (λ (t : List ℕ). x ∷ t) e, d)

write_custom-append :
    (str : List ℕ) (file : ℕ) (rest : List ℕ)
    → NoneStop (λ c. c == 0) str
    → file < 2
    → write_custom file (str ++ (0 ∷ [])) rest ≡ logged (custom file str) rest
unfolding write_custom
write_custom-append str file rest h f =
    rw (c_string-append str [] h, write_custom, lt→ltb file 2 f) refl

module _ (str : List ℕ) (file : ℕ) (short : length str ≤ 252) where
  one_more : (length str + 1) % 256 ≡ suc (length str)
  one_more = omega arith

  read_message-alone : read_message (0 ∷ file ∷ length str ∷ str) ≡ skipped []
  unfolding read_message read_custom read_byte read_text
  read_message-alone =
      rw
        (
          one_more,
          lt→ltb (length str) (suc (length str)) (omega arith),
          drop_all (suc (length str)) str (omega arith),
        )
        refl

  read_message-followed :
      (y : ℕ) (rest : List ℕ)
      → NoneStop (λ c. c == 0) str
      → file < 2
      → read_message (0 ∷ file ∷ length str ∷ (str ++ (y ∷ rest))) ≡ logged (custom file str) rest
  unfolding read_message read_custom read_byte read_text
  read_message-followed y rest h f =
      let (e, d) = taken_text str rest y in
      rw
        (
          one_more,
          ltb-le (length (str ++ (y ∷ rest))) (suc (length str))
              (omega (arith, length-append str (y ∷ rest))),
          e,
          d,
        )
        (write_custom-append str file rest h f)

read_message-code : (code : ℕ) → 2 < code → code < 20 → read_message (code ∷ []) ≡ skipped []
unfolding read_message
read_message-code code low high = ground arith

-- A text of `log_custom` that is alone in the pipe is taken from it and not logged. Where a call of
-- `log_error` with a code above 2 follows, the text is logged and the error is lost.
pub drain_pipe-custom_message :
    (str : List ℕ) (file code : ℕ)
    → length str ≤ 252
    → NoneStop (λ c. c == 0) str
    → file < 2
    → 2 < code
    → code < 20
    → (message : List ℕ) × (custom_message str (length str) file ≡ some message)
      × (drain_pipe message [] ≡ waiting [])
      × (drain_pipe (message ++ error_message code) [] ≡ waiting (custom file str ∷ []))
unfolding error_message drain_pipe
drain_pipe-custom_message str file code short h f low high = (
  0 ∷ file ∷ length str ∷ str,
  custom_message_lem str file short,
  drain-skipped _ _ [] [] (read_message-alone str file short) ∙ drain-nil _ [],
  drain-logged _ _ (code ∷ []) (custom file str) []
        (read_message-followed str file short 1 (code ∷ []) h f)
      ∙ drain-skipped _ (code ∷ []) [] _ (read_message-code code low high)
      ∙ drain-nil _ _,
)
