-- ===== src/Firewall/Digits.antt =====
-- Arithmetic for the masks of src/firewall.c: addresses and netmasks as numbers.
use native.Mathlib.Nat.{mul-add-div_right, div-div-eq-div-mul, div-eq_of_lt}
use socksprox.Address.{be_value, ntohl, htonl}
use socksprox.Base.Bits.{pow-add}
use socksprox.Base.Bytes.{IsBytes}
use socksprox.Base.{
  ℕ, zero, suc, ◌+◌, ◌-◌, ◌*◌, ◌/◌, ◌%◌, ◌^◌, ◌≤◌, ◌<◌, ◌≡◌, refl, sym, ap, ap₂, ◌∙◌, Bool, true,
  ◌&&◌, List, [], ◌∷◌, arith, length, ◌==◌, ==_iff,
}
use socksprox.Firewall.{shift_left32}

-- A Boolean test at all numbers below a bound.
holds_below : ℕ → (ℕ → Bool) → Bool
holds_below zero test = true
holds_below (suc n) test = test n && holds_below n test

holds_below_lem :
    (n : ℕ) (test : ℕ → Bool) (x : ℕ) → holds_below n test ≡ true → x < n → test x ≡ true
unfolding holds_below
holds_below_lem zero test x h lt = absurd (omega arith)
holds_below_lem (suc n) test x h lt = ground (arith, holds_below_lem n test x)

shift_table :
    (u : ℕ)
    → holds_below 32 (λ k. shift_left32 u (2 ^ 32 - 1) k == (2 ^ (32 - k) - 1) * 2 ^ k) ≡ true
unfolding holds_below shift_left32
shift_table u = refl

-- The netmask of a prefix of `32 - k` digits, but not of the empty prefix, is ones above zeros.
pub shift_left32_ones :
    (u k : ℕ) → k < 32 → shift_left32 u (2 ^ 32 - 1) k ≡ (2 ^ (32 - k) - 1) * 2 ^ k
shift_left32_ones u k h = (==_iff _ _).0 (holds_below_lem 32 _ k (shift_table u) h)

byte_table : holds_below 9 (λ b. 255 * 2 ^ (8 - b) % 256 == (2 ^ b - 1) * 2 ^ (8 - b)) ≡ true
unfolding holds_below
byte_table = refl

pub byte_mask : (b : ℕ) → b ≤ 8 → 255 * 2 ^ (8 - b) % 256 ≡ (2 ^ b - 1) * 2 ^ (8 - b)
byte_mask b h = (==_iff _ _).0 (holds_below_lem 9 _ b byte_table (omega arith))

quotient_table : holds_below 9 (λ b. 2 ^ b * 2 ^ (8 - b) == 256) ≡ true
unfolding holds_below
quotient_table = refl

pub quotient_lt : (x d c : ℕ) → x < c * d → x / d < c
quotient_lt x d c h = grind arith

pub byte_quotient : (x b : ℕ) → x < 256 → b ≤ 8 → x / 2 ^ (8 - b) < 2 ^ b
byte_quotient x b hx hb = quotient_lt x (2 ^ (8 - b)) (2 ^ b) (rw whole hx)
  where
    whole : 2 ^ b * 2 ^ (8 - b) ≡ 256
    whole = (==_iff _ _).0 (holds_below_lem 9 _ b quotient_table (omega arith))

power_byte : (n : ℕ) → 2 ^ (8 * suc n) ≡ 256 * 2 ^ (8 * n)
power_byte n = ap (λ (t : ℕ). 2 ^ t) (omega arith) ∙ pow-add 2 8 (8 * n)

pub be_value_lt : (xs : List ℕ) → IsBytes xs → be_value xs < 2 ^ (8 * length xs)
be_value_lt [] h = omega arith
be_value_lt (x ∷ xs) h = rw power_byte (top (2 ^ (8 * length xs)) (be_value_lt xs h.1))
  where
    top : (p : ℕ) → be_value xs < p → x * p + be_value xs < 256 * p
    top p below = grind (arith, h.0)

split_eq : (p x y v w : ℕ) → v < p → w < p → x * p + v ≡ y * p + w → (x ≡ y) × (v ≡ w)
split_eq p x y v w hv hw e = (top, omega (arith, ap (λ (t : ℕ). t * p) top))
  where
    quotient : (z r : ℕ) → r < p → (z * p + r) / p ≡ z
    quotient z r h = mul-add-div_right (omega arith) z r ∙ omega (arith, div-eq_of_lt h)

    top : x ≡ y
    top = sym (quotient x v hv) ∙ ap (λ (t : ℕ). t / p) e ∙ quotient y w hw

-- Byte lists of one length are determined by their numbers.
pub be_value_injective :
    (xs ys : List ℕ)
    → length xs ≡ length ys
    → IsBytes xs
    → IsBytes ys
    → be_value xs ≡ be_value ys
    → xs ≡ ys
be_value_injective [] [] l hx hy e = refl
be_value_injective [] (y ∷ ys) l hx hy e = absurd (omega arith)
be_value_injective (x ∷ xs) [] l hx hy e = absurd (omega arith)
be_value_injective (x ∷ xs) (y ∷ ys) l hx hy e =
    let (top, low) =
      split_eq (2 ^ (8 * length xs)) x y (be_value xs) (be_value ys) (be_value_lt xs hx.1)
        (rw same (be_value_lt ys hy.1))
        (e ∙ ap (λ (k : ℕ). y * 2 ^ (8 * k) + be_value ys) (sym same)) in
    ap₂ ◌∷◌ top (be_value_injective xs ys same hx.1 hy.1 low)
  where
    same : length xs ≡ length ys
    same = omega arith

pub ntohl-be_value : (addr : List ℕ) → length addr ≡ 4 → ntohl addr ≡ be_value addr
unfolding ntohl
ntohl-be_value (a ∷ b ∷ c ∷ d ∷ []) l = omega arith
ntohl-be_value [] l = absurd (omega arith)
ntohl-be_value (a ∷ []) l = absurd (omega arith)
ntohl-be_value (a ∷ b ∷ []) l = absurd (omega arith)
ntohl-be_value (a ∷ b ∷ c ∷ []) l = absurd (omega arith)
ntohl-be_value (a ∷ b ∷ c ∷ d ∷ e ∷ xs) l = absurd (omega arith)

pub htonl-be_value : (n : ℕ) → n < 2 ^ 32 → be_value (htonl n) ≡ n
unfolding htonl
htonl-be_value n h = omega arith

pub htonl-IsBytes : (n : ℕ) → (length (htonl n) ≡ 4) × IsBytes (htonl n)
unfolding htonl
htonl-IsBytes n = omega arith

pub low_digits : (x v e d p : ℕ) → 0 < d → p ≡ e * d → (x * p + v) / d * d ≡ x * p + v / d * d
low_digits x v e d p hd hp =
    ap (λ (t : ℕ). t / d * d) {x = x * p + v} {y = x * e * d + v}
      (omega (arith, ap (λ (t : ℕ). x * t) hp))
    ∙ ap (λ (t : ℕ). t * d) (mul-add-div_right hd (x * e) v)
    ∙ omega (arith, ap (λ (t : ℕ). x * t) hp)

pub high_digits : (x v c p : ℕ) → v < p → (x * p + v) / (p * c) * (p * c) ≡ x / c * c * p
high_digits x v c p hv =
    ap (λ (t : ℕ). t * (p * c))
      (sym (div-div-eq-div-mul (x * p + v) p c)
        ∙ ap (λ (t : ℕ). t / c) (mul-add-div_right (omega arith) x v ∙ quotient))
    ∙ omega arith
  where
    quotient : x + v / p ≡ x
    quotient = omega (arith, div-eq_of_lt hv)
