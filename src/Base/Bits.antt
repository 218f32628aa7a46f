-- ===== src/Base/Bits.antt =====
-- `&` with a mask of ones above zeros, as arithmetic. The native operation is a recursion on
-- binary digits that counts down from its first argument.
use Prim.Native.Nat.{
  ℕ, zero, suc, ◌+◌, ◌*◌, ◌-◌, ◌/◌, ◌%◌, ◌^◌, ◌≤◌, ◌<◌, min, bit_and, digits, bit_and-bitwise,
}
use mathlib.Core.Path.{◌≡◌, refl, ap, ap₂, ◌∙◌, sym}
use native.Mathlib.Nat.{pow-zero, pow-suc, one-le-pow, div-add-mod', mod-lt}
use native.Mathlib.Omega.{arith}

abbrev ands : ℕ → ℕ → ℕ → ℕ
ands = digits (λ _. zero) min

ands_zero : (n b : ℕ) → ands n 0 b ≡ 0
ands_zero zero b = refl
ands_zero (suc n) b = refl

-- Any count that is not too small gives the same digits.
ands_enough : (a k l b : ℕ) → a ≤ k → a ≤ l → ands k a b ≡ ands l a b
ands_enough zero k l b hk hl = ands_zero k b ∙ sym (ands_zero l b)
ands_enough (suc a) zero l b hk hl = absurd (omega arith)
ands_enough (suc a) (suc k) zero b hk hl = absurd (omega arith)
ands_enough (suc a) (suc k) (suc l) b hk hl =
    ap (λ (t : ℕ). t * 2 + min (suc a % 2) (b % 2))
      (ands_enough (suc a / 2) k l (b / 2) (omega arith) (omega arith))

-- The lowest digit, and the others.
pub bit_and_step : (a b : ℕ) → bit_and a b ≡ bit_and (a / 2) (b / 2) * 2 + min (a % 2) (b % 2)
bit_and_step a b =
    bit_and-bitwise a b
    ∙ digits_step a b
    ∙ ap (λ (t : ℕ). t * 2 + min (a % 2) (b % 2)) (sym (bit_and-bitwise (a / 2) (b / 2)))
  where
    digits_step : (x y : ℕ) → ands x x y ≡ ands (x / 2) (x / 2) (y / 2) * 2 + min (x % 2) (y % 2)
    digits_step zero y = omega (arith, ands_zero (0 / 2) (y / 2))
    digits_step (suc x) y =
        ap (λ (t : ℕ). t * 2 + min (suc x % 2) (y % 2))
          (ands_enough (suc x / 2) x (suc x / 2) (y / 2) (omega arith) (omega arith))

pub bit_and-zero_left : (b : ℕ) → bit_and 0 b ≡ 0
bit_and-zero_left b = bit_and-bitwise 0 b

-- A mask of `j` ones keeps a number of `j` digits.
pub bit_and_ones : (j q : ℕ) → q < 2 ^ j → bit_and q (2 ^ j - 1) ≡ q
bit_and_ones zero q h = rw (zero_of q h) (bit_and-zero_left (2 ^ 0 - 1))
  where
    zero_of : (n : ℕ) → n < 1 → n ≡ 0
    zero_of n h = omega arith
bit_and_ones (suc j) q h =
    bit_and_step q (2 ^ suc j - 1)
    ∙ ap₂ (λ (a b : ℕ). bit_and (q / 2) a * 2 + min (q % 2) b) half odd
    ∙ omega (arith, bit_and_ones j (q / 2) (omega (arith, double)))
  where
    double : 2 ^ suc j ≡ 2 ^ j * 2
    double = pow-suc 2 j

    half : (2 ^ suc j - 1) / 2 ≡ 2 ^ j - 1
    half = omega (arith, double, one-le-pow j 2)

    odd : (2 ^ suc j - 1) % 2 ≡ 1
    odd = omega (arith, double, one-le-pow j 2)

-- Zeros at the low end of the mask clear the low digits.
pub bit_and_shifted :
    (k q r p : ℕ) → r < 2 ^ k → bit_and (q * 2 ^ k + r) (p * 2 ^ k) ≡ bit_and q p * 2 ^ k
bit_and_shifted zero q r p h =
    ap₂ bit_and {x = q * 2 ^ 0 + r} {y = q} {u = p * 2 ^ 0} {v = p} (omega arith) (omega arith)
    ∙ omega arith
bit_and_shifted (suc k) q r p h =
    bit_and_step (q * 2 ^ suc k + r) (p * 2 ^ suc k)
    ∙ ap₂ (λ (a b : ℕ). bit_and a b * 2 + min ((q * 2 ^ suc k + r) % 2) (p * 2 ^ suc k % 2))
        {x = (q * 2 ^ suc k + r) / 2} {y = q * 2 ^ k + r / 2} {u = p * 2 ^ suc k / 2}
        {v = p * 2 ^ k} (omega (arith, ap (λ (t : ℕ). q * t) double))
        (omega (arith, ap (λ (t : ℕ). p * t) double))
    ∙ omega (
      arith,
      bit_and_shifted k q (r / 2) p (omega (arith, double)),
      ap (λ (t : ℕ). p * t) double,
      ap (λ (t : ℕ). bit_and q p * t) double,
    )
  where
    double : 2 ^ suc k ≡ 2 ^ k * 2
    double = pow-suc 2 k

-- A mask of `j` ones above `k` zeros, on a number of `j + k` digits, clears the low `k`.
pub bit_and_prefix :
    (j k a : ℕ) → a / 2 ^ k < 2 ^ j → bit_and a ((2 ^ j - 1) * 2 ^ k) ≡ a / 2 ^ k * 2 ^ k
bit_and_prefix j k a h =
    ap (λ (t : ℕ). bit_and t ((2 ^ j - 1) * 2 ^ k)) (sym (div-add-mod' a (2 ^ k)))
    ∙ bit_and_shifted k (a / 2 ^ k) (a % 2 ^ k) (2 ^ j - 1)
        (mod-lt a (one-le-pow k 2 (omega arith)))
    ∙ ap (λ (t : ℕ). t * 2 ^ k) (bit_and_ones j (a / 2 ^ k) h)

pub pow-add : (b m n : ℕ) → b ^ (m + n) ≡ b ^ m * b ^ n
pow-add b m zero =
    ap (λ (t : ℕ). b ^ t) {x = m + 0} {y = m} (omega arith)
    ∙ omega (arith, ap (λ (t : ℕ). b ^ m * t) (pow-zero b))
pow-add b m (suc n) =
    ap (λ (t : ℕ). b ^ t) {x = m + suc n} {y = suc (m + n)} (omega arith)
    ∙ pow-suc b (m + n)
    ∙ omega (arith, ap (λ (t : ℕ). t * b) (pow-add b m n), ap (λ (t : ℕ). b ^ m * t) (pow-suc b n))

bit_and-le_below : (n a b : ℕ) → a ≤ n → bit_and a b ≤ a
bit_and-le_below n zero b h = omega (arith, bit_and-zero_left b)
bit_and-le_below zero (suc a) b h = absurd (omega arith)
bit_and-le_below (suc n) (suc a) b h =
    omega (arith, bit_and_step (suc a) b, bit_and-le_below n (suc a / 2) (b / 2) (omega arith))

pub bit_and-le : (a b : ℕ) → bit_and a b ≤ a
bit_and-le a b = bit_and-le_below a a b (omega arith)
