-- ===== src/Config/Lines.antt =====
-- What a line of the configuration file does: comments, keys without a value, and entries.
use socksprox.Base.Text.{NoneStop}
use socksprox.Base.{
  not, ◌&&◌, ℕ, ◌<◌, ◌≡◌, refl, ◌∙◌, Bool, true, false, ◌||◌, List, [], ◌∷◌, ◌++◌, Option, some,
  ◌==◌, length, replicate, arith,
}
use socksprox.Config.Link.{Host}
use socksprox.Config.Parse.{parse_entry, parse_line}
use socksprox.Config.Scan.{
  is_blank, is_separator, is_line_end, is_value_end, skip_whitespace, line_comment, to_value,
  new_line, get_key, get_val,
}
use socksprox.Config.Store.{Parser, store_config}
use socksprox.Config.Words.{pad, word_in, get_key_lem, get_val_lem}

abbrev pub AllAre : (ℕ → Bool) → List ℕ → Type 0
AllAre test [] = Unit
AllAre test (x ∷ xs) = (test x ≡ true) × AllAre test xs

abbrev pub is_comment : ℕ → Bool
is_comment c = is_line_end c || c == b'#' || c == b';'

-- What can stand at the start of a line: white space, a key, what separates it from the value, and
-- the value. A list that is never empty is given by its first item and the others.
pub data ConfigLine : Type 0 where
  comment : List ℕ → ConfigLine
  key_only : List ℕ → ℕ → List ℕ → ℕ → List ℕ → ConfigLine
  entry : List ℕ → ℕ → List ℕ → ℕ → List ℕ → ℕ → List ℕ → ConfigLine

-- The bytes of the line, and `rest` behind them.
unfoldable pub written : ConfigLine → List ℕ → List ℕ
written (comment indent) rest = indent ++ rest
written (key_only indent k ks g gs) rest = indent ++ (k ∷ (ks ++ (g ∷ (gs ++ rest))))
written (entry indent k ks g gs v vs) rest =
    indent ++ (k ∷ (ks ++ (g ∷ (gs ++ (v ∷ (vs ++ rest))))))

abbrev pub StartsWith : (ℕ → Bool) → List ℕ → Type 0
StartsWith test [] = ⊥
StartsWith test (x ∷ xs) = test x ≡ true

-- The key fits with its terminator, and its bytes do not end it.
abbrev pub IsKey : List ℕ → ℕ → List ℕ → ℕ → List ℕ → Type 0
IsKey indent k ks g gs =
    AllAre is_blank indent
    × (is_blank k ≡ false)
    × (is_comment k ≡ false)
    × NoneStop is_separator ks
    × (length (k ∷ ks) < 64)
    × (is_separator g ≡ true)
    × AllAre is_separator gs

abbrev pub IsValue : ℕ → List ℕ → Type 0
IsValue v vs =
    (is_separator v ≡ false)
    × (is_line_end v ≡ false)
    × NoneStop is_value_end vs
    × (length (v ∷ vs) < 255)

-- A well-formed line, and what has to follow it.
abbrev pub IsConfigLine : ConfigLine → List ℕ → Type 0
IsConfigLine (comment indent) rest =
    AllAre is_blank indent × StartsWith (λ c. not (is_blank c) && is_comment c) rest
IsConfigLine (key_only indent k ks g gs) rest =
    IsKey indent k ks g gs × StartsWith (λ c. not (is_separator c) && is_line_end c) rest
IsConfigLine (entry indent k ks g gs v vs) rest =
    IsKey indent k ks g gs × IsValue v vs × StartsWith is_value_end rest

skip_whitespace-append :
    (indent : List ℕ) (x : ℕ) (rest : List ℕ)
    → AllAre is_blank indent
    → is_blank x ≡ false
    → skip_whitespace (indent ++ (x ∷ rest)) ≡ some (x ∷ rest)
unfolding skip_whitespace
skip_whitespace-append [] x rest h e = rw e refl
skip_whitespace-append (y ∷ indent) x rest h e = rw h.0 (skip_whitespace-append indent x rest h.1 e)

to_value-append :
    (gap : List ℕ) (x : ℕ) (rest : List ℕ)
    → AllAre is_separator gap
    → is_separator x ≡ false
    → to_value (gap ++ (x ∷ rest)) ≡ some (x ∷ rest)
unfolding to_value
to_value-append [] x rest h e = rw e refl
to_value-append (y ∷ gap) x rest h e = rw h.0 (to_value-append gap x rest h.1 e)

get_key_short :
    (x y : ℕ) (xs rest : List ℕ)
    → NoneStop is_separator xs
    → is_separator y ≡ true
    → length (x ∷ xs) < 64
    → get_key (x ∷ (xs ++ (y ∷ rest))) (replicate 64 0) 64 ≡ some (y ∷ rest, pad 64 (x ∷ xs))
unfolding word_in
get_key_short x y xs rest h s l = get_key_lem x y xs rest h s ∙ ground arith

get_val_short :
    (x y : ℕ) (xs rest : List ℕ)
    → NoneStop is_value_end xs
    → is_value_end y ≡ true
    → length (x ∷ xs) < 255
    → get_val (x ∷ (xs ++ (y ∷ rest))) (replicate 255 0) 255 ≡ some (y ∷ rest, pad 255 (x ∷ xs))
unfolding word_in
get_val_short x y xs rest h s l = get_val_lem x y xs rest h s ∙ ground arith

both_of : (a b : Bool) → (not a && b) ≡ true → (a ≡ false) × (b ≡ true)
both_of a b h = ground arith

module _ (host : Host) where
  -- The meaning of a line: an entry goes to `store_config`, with key and value in their arrays.
  unfoldable pub effect : ConfigLine → Parser → Option (Bool × Parser)
  effect (comment indent) p = some (true, p)
  effect (key_only indent k ks g gs) p = some (true, p)
  effect (entry indent k ks g gs v vs) p = store_config host (pad 64 (k ∷ ks)) (pad 255 (v ∷ vs)) p

  -- A well-formed line, whatever bytes follow the end of its last word, does what it means: a
  -- comment or a key without a value leaves the configuration as it is, and `store_config` gets
  -- the key and the value of an entry.
  pub parse_line_lem :
      (l : ConfigLine) (rest : List ℕ) (p : Parser)
      → IsConfigLine l rest
      → parse_line host (written l rest) p ≡ effect l p
  unfolding parse_line parse_entry line_comment new_line written effect
  parse_line_lem (comment indent) [] p h = absurd h.1
  parse_line_lem (comment indent) (x ∷ rest) p h =
      let at = both_of (is_blank x) (is_comment x) h.1 in
      rw (skip_whitespace-append indent x rest h.0 at.0, at.1) refl
  parse_line_lem (key_only indent k ks g gs) [] p h = absurd h.1
  parse_line_lem (key_only indent k ks g gs) (x ∷ rest) p h =
      let at = both_of (is_separator x) (is_line_end x) h.1 in
      rw
        (
          skip_whitespace-append indent k (ks ++ (g ∷ (gs ++ (x ∷ rest)))) h.0.0 h.0.1,
          h.0.2,
          get_key_short k g ks (gs ++ (x ∷ rest)) h.0.3 h.0.5 h.0.4,
          to_value-append (g ∷ gs) x rest (h.0.5, h.0.6) at.0,
          at.1,
        )
        refl
  parse_line_lem (entry indent k ks g gs v vs) [] p h = absurd h.2
  parse_line_lem (entry indent k ks g gs v vs) (x ∷ rest) p h =
      rw
        (
          skip_whitespace-append indent k (ks ++ (g ∷ (gs ++ (v ∷ (vs ++ (x ∷ rest)))))) h.0.0
              h.0.1,
          h.0.2,
          get_key_short k g ks (gs ++ (v ∷ (vs ++ (x ∷ rest)))) h.0.3 h.0.5 h.0.4,
          to_value-append (g ∷ gs) v (vs ++ (x ∷ rest)) (h.0.5, h.0.6) h.1.0,
          h.1.1,
          get_val_short v x vs rest h.1.2 h.2 h.1.3,
        )
        refl
