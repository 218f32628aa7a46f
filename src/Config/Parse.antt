-- ===== src/Config/Parse.antt =====
-- `parse_configs` of src/config.c: the lines of the file, and what each does.
use socksprox.Base.Int.{pos}
use socksprox.Base.Text.{◌>>=◌}
use socksprox.Base.{
  not, ℕ, zero, suc, Bool, true, false, List, [], ◌∷◌, ◌++◌, Option, none, some, ◌==◌,
  if◌then◌else◌, length, drop, replicate,
}
use socksprox.Config.Check.{conf_error_check}
use socksprox.Config.Link.{Host}
use socksprox.Config.Scan.{skip_whitespace, line_comment, get_key, to_value, new_line, get_val}
use socksprox.Config.Store.{Parser, store_config}
use socksprox.Config.{Configs}

-- `memset(configs, 0, …)`, with the byte of padding behind `methods`.
abbrev pub empty_configs : Configs
empty_configs = record {
  listen_head = [];
  a_log = replicate 255 0;
  e_log = replicate 255 0;
  max_conns = pos 0;
  allow_domains = false;
  allow_connect = false;
  allow_bind = false;
  allow_udpassoc = false;
  methods = replicate 255 0;
  after_methods = 0;
  bind_advertise = [];
  bind_listen = [];
  udpa_advertise = [];
  udpa_listen = [];
  block_head = [];
}

-- The bytes that `fgets` takes, at most `n` and none behind a newline, and those that are left.
unfoldable pub split_line : ℕ → List ℕ → List ℕ × List ℕ
split_line zero file = ([], file)
split_line (suc n) [] = ([], [])
split_line (suc n) (x ∷ file) =
    let (taken, rest) = split_line n file in if x == 10 then (x ∷ [], file) else (x ∷ taken, rest)

-- `fgets(line, 255, file)`: the new contents of `line`, whose bytes behind the terminator stay, and
-- the file behind them. `none` is NULL, at the end of the file.
unfoldable pub fgets : List ℕ → List ℕ → Option (List ℕ × List ℕ)
fgets line [] = none
fgets line (x ∷ file) =
    let (taken, rest) = split_line 254 (x ∷ file) in
    some (taken ++ (0 ∷ drop (suc (length taken)) line), rest)

-- What a loop that can meet undefined behaviour returns; true where the file was read to its end.
pub data Outcome : Type 0 where
  out_of_fuel undefined : Outcome
  parsed : Bool → Parser → Outcome

-- The rest of the loop behind one round.
abbrev pub proceed : Option (Bool × Parser) → (Parser → Outcome) → Outcome
proceed none next = undefined
proceed (some (false, p)) next = parsed false p
proceed (some (true, p)) next = next p

module _ (host : Host) where
  -- The key and the value behind the white space at the start of a line.
  unfoldable pub parse_entry : List ℕ → Parser → Option (Bool × Parser)
  parse_entry c p = do
    (after_key, key) ← get_key c (replicate 64 0) 64
    value ← to_value after_key
    is_empty ← new_line value
    if is_empty then some (true, p) else do
      (end_of_value, val) ← get_val value (replicate 255 0) 255
      store_config host key val p

  -- One round of the loop; false where it returns 1.
  unfoldable pub parse_line : List ℕ → Parser → Option (Bool × Parser)
  parse_line line p = do
    c ← skip_whitespace line
    is_comment ← line_comment c
    if is_comment then some (true, p) else parse_entry c p

  unfoldable pub parse_lines : ℕ → List ℕ → List ℕ → Parser → Outcome
  parse_lines zero line file p = out_of_fuel
  parse_lines (suc fuel) line file p = elim (fgets line file) [
    | none ↦ parsed true p
    | some (read, rest) ↦ proceed (parse_line read p) (λ p'. parse_lines fuel read rest p')
  ]

  -- Each round takes a byte of the file at least.
  unfoldable pub parse_file : List ℕ → List ℕ → Outcome
  parse_file line file =
      parse_lines (suc (length file)) line file (record { configs = empty_configs; mallocs = 0 })

  -- `line` is what the array holds before the first line, `file` the contents of the file, `none`
  -- where it cannot be opened. The result is 0, true, or 1; `none` is undefined behaviour.
  unfoldable pub parse_configs : List ℕ → Option (List ℕ) → Option (Bool × Configs)
  parse_configs line none = some (false, empty_configs)
  parse_configs line (some file) = elim (parse_file line file) [
    | out_of_fuel ↦ none
    | undefined ↦ none
    | parsed false p ↦ some (false, p.configs)
    | parsed true p ↦ some (not (conf_error_check p.configs).ret, p.configs)
  ]
