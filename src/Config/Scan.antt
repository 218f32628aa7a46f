-- ===== src/Config/Scan.antt =====
-- The scanner of src/config.c. A pointer into the array `line` is the list of the bytes from there
-- to the end of the array; an access past the end of an array is undefined, `none`.
use socksprox.Base.Text.{◌>>=◌, byte_at, store_at}
use socksprox.Base.{
  ℕ, zero, suc, Bool, ◌||◌, List, [], ◌∷◌, Option, none, some, ◌==◌, if◌then◌else◌,
}

abbrev pub tab : ℕ
tab = 9

-- Between the words of a line.
abbrev pub is_blank : ℕ → Bool
is_blank c = c == 32 || c == tab

-- At the end of a key.
abbrev pub is_separator : ℕ → Bool
is_separator c = c == 32 || c == tab || c == b'='

-- At the end of a line.
abbrev pub is_line_end : ℕ → Bool
is_line_end c = c == 10 || c == 13 || c == 0

-- At the end of a value.
abbrev pub is_value_end : ℕ → Bool
is_value_end c = is_line_end c || c == 32 || c == tab

unfoldable pub skip_whitespace : List ℕ → Option (List ℕ)
skip_whitespace [] = none
skip_whitespace (x ∷ c) = let rest = skip_whitespace c in if is_blank x then rest else some (x ∷ c)

unfoldable pub line_comment : List ℕ → Option Bool
line_comment c = do x ← byte_at c; some (is_line_end x || x == b'#' || x == b';')

-- The loop that `get_key` and `get_val` share: `rounds` are left, the next byte goes to index `i`
-- of `word`. It stops behind the byte before a byte that `stop` accepts, and puts the terminator.
unfoldable pub copy_word : (ℕ → Bool) → ℕ → ℕ → List ℕ → List ℕ → Option (List ℕ × List ℕ)
copy_word stop zero i c word = some (c, word)
copy_word stop (suc rounds) i [] word = none
copy_word stop (suc rounds) i (x ∷ c) word = do
  copied ← store_at word i x
  next ← byte_at c
  let more = copy_word stop rounds (suc i) c copied in
      if stop next then (store_at copied (suc i) 0 >>= λ ended. some (c, ended)) else more

unfoldable pub get_key : List ℕ → List ℕ → ℕ → Option (List ℕ × List ℕ)
get_key c key keysz = copy_word is_separator keysz 0 c key

unfoldable pub to_value : List ℕ → Option (List ℕ)
to_value [] = none
to_value (x ∷ c) = let rest = to_value c in if is_separator x then rest else some (x ∷ c)

unfoldable pub new_line : List ℕ → Option Bool
new_line c = do x ← byte_at c; some (is_line_end x)

unfoldable pub get_val : List ℕ → List ℕ → ℕ → Option (List ℕ × List ℕ)
get_val c val valsz = copy_word is_value_end valsz 0 c val

-- From index `i` on, with `rounds` indices left.
unfoldable pub delim_from : ℕ → ℕ → ℕ → List ℕ → ℕ
delim_from delim zero i val = 0
delim_from delim (suc rounds) i [] = 0
delim_from delim (suc rounds) i (x ∷ val) =
    let rest = delim_from delim rounds (suc i) val in if x == delim then i else rest

-- The callers pass the length of the string as `valsz`, so that no index is outside.
unfoldable pub delim_ind : ℕ → List ℕ → ℕ → ℕ
delim_ind delim val valsz = delim_from delim valsz 0 val
