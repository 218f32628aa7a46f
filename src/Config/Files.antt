-- ===== src/Config/Files.antt =====
-- Whole configuration files: a file of well-formed lines is read back line by line, and the loop
-- of `parse_configs` ends on every file.
use socksprox.Base.Text.{NoneStop}
use socksprox.Base.{
  ℕ, zero, suc, ◌≤◌, ◌<◌, ◌≡◌, ◌≢◌, refl, ap, ◌∙◌, Bool, true, false, List, [], ◌∷◌, ◌++◌,
  append_assoc, Option, none, some, ◌==◌, length, length-append, drop, arith,
}
use socksprox.Config.Lines.{
  ConfigLine, comment, key_only, entry, written, StartsWith, IsConfigLine, effect, parse_line_lem,
}
use socksprox.Config.Link.{Host}
use socksprox.Config.Parse.{
  empty_configs, split_line, fgets, Outcome, out_of_fuel, parsed, proceed, parse_line, parse_lines,
  parse_file,
}
use socksprox.Config.Store.{Parser}

abbrev is_newline : ℕ → Bool
is_newline c = c == 10

-- A line and what follows its last word, up to the newline.
pub record FileLine : Type 0 where
  pub shown : ConfigLine
  pub tail : List ℕ

abbrev pub bytes_of : FileLine → List ℕ
bytes_of l = written l.shown l.tail

-- The line fits into the buffer of `fgets` with its newline and the terminator.
abbrev pub AreLines : List FileLine → Type 0
AreLines [] = Unit
AreLines (l ∷ ls) =
    IsConfigLine l.shown (l.tail ++ (10 ∷ []))
    × NoneStop (λ c. c == 10) (bytes_of l)
    × (length (bytes_of l) < 254)
    × AreLines ls

unfoldable pub print : List FileLine → List ℕ
print [] = []
print (l ∷ ls) = bytes_of l ++ (10 ∷ print ls)

module _ (host : Host) where
  -- The meaning of a file: its lines from first to last, up to one that fails.
  unfoldable pub run_lines : List FileLine → Parser → Outcome
  run_lines [] p = parsed true p
  run_lines (l ∷ ls) p = proceed (effect host l.shown p) (λ p'. run_lines ls p')

split_line-append :
    (n : ℕ) (body file : List ℕ)
    → NoneStop is_newline body
    → length body < n
    → split_line n (body ++ (10 ∷ file)) ≡ (body ++ (10 ∷ []), file)
unfolding split_line
split_line-append zero body file h l = absurd (omega arith)
split_line-append (suc n) [] file h l = refl
split_line-append (suc n) (x ∷ body) file h l =
    rw (h.0, split_line-append n body file h.1 (omega arith)) refl

-- The array behind `fgets`: the line, the terminator, and older bytes.
abbrev held : List ℕ → List ℕ → List ℕ
held line body = (body ++ (10 ∷ [])) ++ (0 ∷ drop (suc (length (body ++ (10 ∷ [])))) line)

fgets-append :
    (line body file : List ℕ)
    → NoneStop is_newline body
    → length body < 254
    → fgets line (body ++ (10 ∷ file)) ≡ some (held line body, file)
unfolding fgets
fgets-append line [] file h l = rw (split_line-append 254 [] file h l) refl
fgets-append line (x ∷ body) file h l = rw (split_line-append 254 (x ∷ body) file h l) refl

written-append :
    (l : ConfigLine) (tail more : List ℕ) → written l tail ++ more ≡ written l (tail ++ more)
unfolding written
written-append (comment indent) tail more = append_assoc indent tail more
written-append (key_only indent k ks g gs) tail more =
    rw (append_assoc indent, append_assoc ks, append_assoc gs) refl
written-append (entry indent k ks g gs v vs) tail more =
    rw (append_assoc indent, append_assoc ks, append_assoc gs, append_assoc vs) refl

StartsWith-append :
    (test : ℕ → Bool) (tail a b : List ℕ)
    → StartsWith test (tail ++ (10 ∷ a))
    → StartsWith test (tail ++ (10 ∷ b))
StartsWith-append test [] a b h = h
StartsWith-append test (x ∷ tail) a b h = h

IsConfigLine-append :
    (l : ConfigLine) (tail a b : List ℕ)
    → IsConfigLine l (tail ++ (10 ∷ a))
    → IsConfigLine l (tail ++ (10 ∷ b))
IsConfigLine-append (comment indent) tail a b h = (h.0, StartsWith-append _ tail a b h.1)
IsConfigLine-append (key_only indent k ks g gs) tail a b h = (h.0, StartsWith-append _ tail a b h.1)
IsConfigLine-append (entry indent k ks g gs v vs) tail a b h =
    (h.0, h.1, StartsWith-append _ tail a b h.2)

proceed_ap :
    (o : Option (Bool × Parser)) (f g : Parser → Outcome)
    → ((p : Parser) → f p ≡ g p)
    → proceed o f ≡ proceed o g
proceed_ap none f g h = refl
proceed_ap (some (false, p)) f g h = refl
proceed_ap (some (true, p)) f g h = h p

module _ (host : Host) where
  -- One line in the array, with the terminator and older bytes behind it.
  parse_line-bytes_of :
      (l : FileLine) (stale : List ℕ) (p : Parser)
      → IsConfigLine l.shown (l.tail ++ (10 ∷ []))
      → parse_line host ((bytes_of l ++ (10 ∷ [])) ++ (0 ∷ stale)) p ≡ effect host l.shown p
  parse_line-bytes_of l stale p h =
      ap (λ (t : List ℕ). parse_line host t p)
        (append_assoc (bytes_of l) (10 ∷ []) (0 ∷ stale)
          ∙ written-append l.shown l.tail (10 ∷ 0 ∷ stale))
      ∙ parse_line_lem host l.shown (l.tail ++ (10 ∷ 0 ∷ stale)) p
          (IsConfigLine-append l.shown l.tail [] (0 ∷ stale) h)

  parse_lines_step :
      (fuel : ℕ) (line file read rest : List ℕ) (p : Parser)
      → fgets line file ≡ some (read, rest)
      → parse_lines host (suc fuel) line file p
        ≡ proceed (parse_line host read p) (λ p'. parse_lines host fuel read rest p')
  unfolding parse_lines
  parse_lines_step fuel line file read rest p e = rw (e, parse_lines) refl

  parse_lines-print :
      (fuel : ℕ) (line : List ℕ) (ls : List FileLine) (p : Parser)
      → AreLines ls
      → length ls < fuel
      → parse_lines host fuel line (print ls) p ≡ run_lines host ls p
  unfolding parse_lines print run_lines fgets
  parse_lines-print zero line ls p h l = absurd (omega arith)
  parse_lines-print (suc fuel) line [] p h l = refl
  parse_lines-print (suc fuel) line (x ∷ ls) p h l =
      parse_lines_step fuel line _ _ (print ls) p
        (fgets-append line (bytes_of x) (print ls) h.1 h.2)
      ∙ ap (λ o. proceed o (λ p'. parse_lines host fuel (held line (bytes_of x)) (print ls) p'))
          (parse_line-bytes_of x (drop (suc (length (bytes_of x ++ (10 ∷ [])))) line) p h.0)
      ∙ proceed_ap (effect host x.shown p) _ _
          (λ p'. parse_lines-print fuel _ ls p' h.3 (omega arith))

  length-print : (ls : List FileLine) → length ls ≤ length (print ls)
  unfolding print
  length-print [] = omega arith
  length-print (l ∷ ls) = omega (arith, length-print ls, length-append (bytes_of l) (10 ∷ print ls))

  -- A file of well-formed lines that fit into the buffer is read back as those lines, whatever the
  -- buffer held before: the loop gives each key and value to `store_config` in the order of the
  -- file, passes over comments and keys without a value, and stops at the first line that fails.
  pub parse_file-print :
      (line : List ℕ) (ls : List FileLine)
      → AreLines ls
      → parse_file host line (print ls)
        ≡ run_lines host ls (record { configs = empty_configs; mallocs = 0 })
  unfolding parse_file
  parse_file-print line ls h =
      parse_lines-print (suc (length (print ls))) line ls _ h (omega (arith, length-print ls))

split_line-lt : (n x : ℕ) (file : List ℕ) → length (split_line (suc n) (x ∷ file)).1 ≤ length file
unfolding split_line
split_line-lt zero x file = ground arith
split_line-lt (suc n) x [] = ground arith
split_line-lt (suc n) x (y ∷ file) = ground (arith, split_line-lt n y file)

proceed-out_of_fuel :
    (o : Option (Bool × Parser)) (next : Parser → Outcome)
    → ((p : Parser) → next p ≢ out_of_fuel)
    → proceed o next ≢ out_of_fuel
proceed-out_of_fuel none next h = λ e. ground (arith, e)
proceed-out_of_fuel (some (false, p)) next h = λ e. ground (arith, e)
proceed-out_of_fuel (some (true, p)) next h = h p

module _ (host : Host) where
  -- More rounds than the file has bytes are enough.
  parse_lines_ends :
      (fuel : ℕ) (line file : List ℕ) (p : Parser)
      → length file < fuel
      → parse_lines host fuel line file p ≢ out_of_fuel
  unfolding parse_lines fgets
  parse_lines_ends zero line file p l = absurd (omega arith)
  parse_lines_ends (suc fuel) line [] p l = λ e. ground (arith, e)
  parse_lines_ends (suc fuel) line (x ∷ file) p l =
      proceed-out_of_fuel _ _
        (λ p'. parse_lines_ends fuel _ _ p' (omega (arith, split_line-lt 253 x file)))
