-- ===== src/Base/Text.antt =====
-- C strings: text literals as bytes, arrays with a terminator, and the functions of string.h and
-- stdlib.h that the program calls on them.
use Prim.Native.Char.{code}
use Prim.Native.Nat.{ℕ, zero, suc, ◌+◌, ◌-◌, ◌*◌, ◌/◌, ◌%◌, ◌^◌}
use Prim.Native.String.{String}
use mathlib.Core.Bool.{Bool, true, false, ◌&&◌, ◌||◌, not}
use mathlib.Core.List.{List, [], ◌∷◌, ◌++◌}
use mathlib.Core.Path.{◌≡◌, refl}
use mathlib.Core.Option.{Option, none, some}
use socksprox.Base.Int.{ℤ, pos, negsuc}
use socksprox.Base.Tests.{ltb, ◌==◌, if◌then◌else◌}

-- An access out of an array is undefined, which `none` stands for.
infixl 5 ◌>>=◌
abbrev pub ◌>>=◌ {ℓ κ} : {A : Type ℓ} {B : Type κ} → Option A → (A → Option B) → Option B
none >>= f = none
some a >>= f = f a

-- The bytes of a literal in ASCII.
abbrev pub codes : String → List ℕ
codes String.[] = []
codes (String.◌∷◌ c s) = code c ∷ codes s

-- `*c`
abbrev pub byte_at : List ℕ → Option ℕ
byte_at [] = none
byte_at (x ∷ xs) = some x

-- `a[i] = v`
abbrev pub store_at : List ℕ → ℕ → ℕ → Option (List ℕ)
store_at [] i v = none
store_at (x ∷ xs) zero v = some (v ∷ xs)
store_at (x ∷ xs) (suc i) v = store_at xs i v >>= λ ys. some (x ∷ ys)

-- The bytes up to the terminator; without one, the reading leaves the array.
unfoldable pub c_string : List ℕ → Option (List ℕ)
c_string [] = none
c_string (x ∷ xs) =
    let rest = c_string xs in if x == 0 then some [] else (rest >>= λ s. some (x ∷ s))

-- `strcmp(a, literal) == 0`. The literals are shorter than the arrays that they are compared with,
-- so that the comparison ends inside the array.
unfoldable pub str_is : List ℕ → List ℕ → Bool
str_is [] literal = false
str_is (x ∷ xs) [] = x == 0
str_is (x ∷ xs) (y ∷ literal) = x == y && str_is xs literal

abbrev pub is_digit : ℕ → Bool
is_digit c = not (ltb c b'0') && not (ltb b'9' c)

-- The value of the leading digits.
unfoldable pub leading_digits : ℕ → List ℕ → ℕ
leading_digits n [] = n
leading_digits n (c ∷ cs) =
    let rest = leading_digits (n * 10 + (c - b'0')) cs in if is_digit c then rest else n

-- `isspace` in the locale of C.
abbrev pub is_space : ℕ → Bool
is_space c = c == 32 || (not (ltb c 9) && not (ltb 13 c))

-- The result of `atoi` as an `int`; what does not fit is undefined.
unfoldable pub as_int : Bool → ℕ → Option ℤ
as_int negative zero = some (pos 0)
as_int true (suc n) = if ltb n (2 ^ 31) then some (negsuc n) else none
as_int false (suc n) = if ltb (suc n) (2 ^ 31) then some (pos (suc n)) else none

unfoldable pub atoi_sign : List ℕ → Option ℤ
atoi_sign [] = as_int false 0
atoi_sign (c ∷ cs) =
    if c == b'-'
    then as_int true (leading_digits 0 cs)
    else if c == b'+'
    then as_int false (leading_digits 0 cs)
    else as_int false (leading_digits 0 (c ∷ cs))

-- `atoi` of a string without its terminator.
unfoldable pub atoi : List ℕ → Option ℤ
atoi [] = as_int false 0
atoi (c ∷ cs) = let rest = atoi cs in if is_space c then rest else atoi_sign (c ∷ cs)

-- `memcpy(dst, src, n)`; the arrays are those from the two pointers on.
unfoldable pub memcpy : List ℕ → List ℕ → ℕ → Option (List ℕ)
memcpy dst src zero = some dst
memcpy (d ∷ dst) (x ∷ src) (suc n) = memcpy dst src n >>= λ copied. some (x ∷ copied)
memcpy [] src (suc n) = none
memcpy (d ∷ dst) [] (suc n) = none

-- No byte of the list passes the test.
abbrev pub NoneStop : (ℕ → Bool) → List ℕ → Type 0
NoneStop stop [] = Unit
NoneStop stop (x ∷ xs) = (stop x ≡ false) × NoneStop stop xs

pub c_string-append :
    (xs rest : List ℕ) → NoneStop (λ c. c == 0) xs → c_string (xs ++ (0 ∷ rest)) ≡ some xs
unfolding c_string
c_string-append [] rest h = refl
c_string-append (x ∷ xs) rest h = rw (h.0, c_string-append xs rest h.1) refl

-- `%d` of a number that is not negative: ten digits are enough for an `int`.
unfoldable pub decimal : ℕ → ℕ → List ℕ
decimal zero n = []
decimal (suc digits) n =
    let rest = decimal digits (n / 10) in
    if ltb n 10 then (b'0' + n) ∷ [] else rest ++ ((b'0' + n % 10) ∷ [])
