-- ===== src/Logger/Lines.antt =====
-- The directives of the log's formats, and what is printed for an address.
use socksprox.Address.{Family}
use socksprox.Base.{
  ℕ, zero, suc, ◌<◌, ◌≡◌, refl, List, [], ◌∷◌, ◌++◌, Option, none, some, arith, length,
}
use socksprox.Logger.Text.{
  str, num, directive, print_from, printf, Time, time_args, dated_format, date_format,
  access_formats, error_strings, error_line, entry_at, get_ip_port, endpoint_args, access_line,
}

-- The arguments of `write_access` fit the format.
abbrev IsPrinted : List ℕ → Type 0
IsPrinted format =
    (a b : List ℕ) (p q : ℕ)
    → (text : List ℕ) × (printf format (str a ∷ num p ∷ str b ∷ num q ∷ []) ≡ some text)

abbrev ArePrinted : List (List ℕ) → Type 0
ArePrinted [] = Unit
ArePrinted (format ∷ formats) = IsPrinted format × ArePrinted formats

access_formats-ArePrinted : ArePrinted access_formats
unfolding printf print_from directive
access_formats-ArePrinted = (
  λ a b p q. (_, refl),
  (
    λ a b p q. (_, refl),
    (
      λ a b p q. (_, refl),
      (
        λ a b p q. (_, refl),
        (
          λ a b p q. (_, refl),
          (
            λ a b p q. (_, refl),
            (
              λ a b p q. (_, refl),
              (
                λ a b p q. (_, refl),
                (
                  λ a b p q. (_, refl),
                  (
                    λ a b p q. (_, refl),
                    (
                      λ a b p q. (_, refl),
                      (λ a b p q. (_, refl), (λ a b p q. (_, refl), (λ a b p q. (_, refl), tt))),
                    ),
                  ),
                ),
              ),
            ),
          ),
        ),
      ),
    ),
  ),
)

entry_at-ArePrinted :
    (formats : List (List ℕ)) (i : ℕ)
    → ArePrinted formats
    → i < length formats
    → (format : List ℕ) × (entry_at formats i ≡ some format) × IsPrinted format
entry_at-ArePrinted [] i h l = absurd (omega arith)
entry_at-ArePrinted (format ∷ formats) zero h l = (format, refl, h.0)
entry_at-ArePrinted (format ∷ formats) (suc i) h l = entry_at-ArePrinted formats i h.1 (omega arith)

entry_at-lt {ℓ} :
    {A : Type ℓ} (xs : List A) (i : ℕ) → i < length xs → (x : A) × (entry_at xs i ≡ some x)
entry_at-lt [] i l = absurd (omega arith)
entry_at-lt (x ∷ xs) zero l = (x, refl)
entry_at-lt (x ∷ xs) (suc i) l = entry_at-lt xs i (omega arith)

endpoint_args_lem :
    (o : Option (List ℕ × ℕ)) (port : ℕ)
    → (ip : List ℕ) × (p : ℕ) × (endpoint_args o port ≡ str ip ∷ num p ∷ [])
unfolding endpoint_args
endpoint_args_lem none port = ([], port, refl)
endpoint_args_lem (some (ip, stored)) port = (ip, stored, refl)

printf-time_args :
    (t : Time) (text : List ℕ)
    → (line : List ℕ) × (printf dated_format (time_args t ++ (str text ∷ [])) ≡ some line)
unfolding printf print_from directive
printf-time_args t text = (_, refl)

printf-date : (t : Time) → (line : List ℕ) × (printf date_format (time_args t) ≡ some line)
unfolding printf print_from directive
printf-date t = (_, refl)

-- Every code of `log_error` in include/logger.h has a text, and its line is printed.
pub error_line_defined :
    (code : ℕ) (t : Time) → code < 20 → (line : List ℕ) × (error_line code t ≡ some line)
unfolding error_line
error_line_defined code t l =
    let (text, e) = entry_at-lt error_strings code l in
    let (line, e') = printf-time_args t text in (line, rw e e')

module _ (inet_ntop : Family → List ℕ → List ℕ) where
  -- Every code of `log_access` in include/logger.h has a format, and the arguments that
  -- `write_access` passes have the types that the format asks for, whatever the two addresses are and
  -- the ports held before: the line is printed.
  pub access_line_defined :
      (code : ℕ) (client server : List ℕ) (p q : ℕ) (t : Time)
      → code < 14
      → (line : List ℕ) × (access_line inet_ntop code client server p q t ≡ some line)
  unfolding access_line
  access_line_defined code client server p q t l =
      let (format, e, prints) =
        entry_at-ArePrinted access_formats code access_formats-ArePrinted l in
      let (a, i, ea) = endpoint_args_lem (get_ip_port inet_ntop client) p in
      let (b, j, eb) = endpoint_args_lem (get_ip_port inet_ntop server) q in
      let (text, et) = prints a b i j in
      let (date, ed) = printf-date t in (date ++ text ++ (10 ∷ []), rw (ed, e, ea, eb, et) refl)
