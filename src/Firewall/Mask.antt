-- ===== src/Firewall/Mask.antt =====
-- What the masks of src/firewall.c do to an address, read as a number: they clear its low digits.
use native.Mathlib.Nat.{one-le-pow}
use socksprox.Address.{be_value, ntohl}
use socksprox.Base.Bits.{bit_and_prefix, bit_and_ones, bit_and-le, pow-add}
use socksprox.Base.Bytes.{IsBytes}
use socksprox.Base.{
  ℕ, zero, suc, ◌+◌, ◌-◌, ◌*◌, ◌/◌, ◌^◌, ◌≤◌, ◌<◌, ◌≡◌, refl, sym, ap, ◌∙◌, List, [], ◌∷◌, arith,
  length, length-replicate, bit_and, replicate, ltb, Bool-cases, inl, inr, ltb→lt, ltb→le,
}
use socksprox.Firewall.Digits.{
  be_value_lt, ntohl-be_value, htonl-be_value, htonl-IsBytes, quotient_lt, byte_quotient, byte_mask,
  low_digits, high_digits,
}
use socksprox.Firewall.{mask_bytes, mask_sin, mask_sin6}

-- `mask_sin` with ones above `k` zeros clears the low `k` digits.
pub mask_sin-value :
    (addr : List ℕ) (k : ℕ)
    → length addr ≡ 4
    → IsBytes addr
    → k ≤ 32
    → be_value (mask_sin addr ((2 ^ (32 - k) - 1) * 2 ^ k)) ≡ be_value addr / 2 ^ k * 2 ^ k
unfolding mask_sin
mask_sin-value addr k l h hk =
    htonl-be_value _ (omega (arith, bit_and-le (ntohl addr) ((2 ^ (32 - k) - 1) * 2 ^ k), small))
    ∙ bit_and_prefix (32 - k) k (ntohl addr) (quotient_lt _ _ _ (rw (← whole) small'))
    ∙ ap (λ (t : ℕ). t / 2 ^ k * 2 ^ k) (ntohl-be_value addr l)
  where
    small : ntohl addr < 2 ^ 32
    small = rw (ntohl-be_value addr l) (rw l at (be_value_lt addr h))

    whole : 2 ^ 32 ≡ 2 ^ (32 - k) * 2 ^ k
    whole = ap (λ (t : ℕ). 2 ^ t) {x = 32} {y = 32 - k + k} (omega arith) ∙ pow-add 2 (32 - k) k

    small' : ntohl addr < 2 ^ 32
    small' = small

pub mask_sin-IsBytes :
    (addr : List ℕ) (m : ℕ) → (length (mask_sin addr m) ≡ 4) × IsBytes (mask_sin addr m)
unfolding mask_sin
mask_sin-IsBytes addr m = htonl-IsBytes (bit_and (ntohl addr) m)

pub length-mask_bytes : (n b : ℕ) → length (mask_bytes n b) ≡ n
unfolding mask_bytes
length-mask_bytes zero b = refl
length-mask_bytes (suc n) b =
    ground (arith, length-mask_bytes n (b - 8), length-replicate {A = ℕ} n 0)

pub mask_sin6-IsBytes :
    (xs m : List ℕ)
    → length xs ≡ length m
    → IsBytes xs
    → (length (mask_sin6 xs m) ≡ length xs) × IsBytes (mask_sin6 xs m)
unfolding mask_sin6
mask_sin6-IsBytes [] m l h = omega arith
mask_sin6-IsBytes (x ∷ xs) [] l h = absurd (omega arith)
mask_sin6-IsBytes (x ∷ xs) (m ∷ ms) l h =
    let (len, bytes) = mask_sin6-IsBytes xs ms (omega arith) h.1 in
    (ap suc len, (omega (arith, bit_and-le x m), bytes))

bit_and-zero : (x : ℕ) → x < 256 → bit_and x 0 ≡ 0
bit_and-zero x h = bit_and_prefix 0 8 x (omega arith) ∙ omega arith

mask_sin6-zeros : (xs : List ℕ) (n : ℕ) → IsBytes xs → be_value (mask_sin6 xs (replicate n 0)) ≡ 0
unfolding mask_sin6
mask_sin6-zeros [] n h = refl
mask_sin6-zeros (x ∷ xs) zero h = refl
mask_sin6-zeros (x ∷ xs) (suc n) h = omega (
  arith,
  bit_and-zero x h.0,
  ap (λ (t : ℕ). t * 2 ^ (8 * length (mask_sin6 xs (replicate n 0)))) (bit_and-zero x h.0),
  mask_sin6-zeros xs n h.1,
)

-- `mask_sin6` with the mask of `firewall_iton` clears all but the `b` leading digits.
pub mask_sin6-value :
    (n b : ℕ) (xs : List ℕ)
    → length xs ≡ n
    → IsBytes xs
    → b ≤ 8 * n
    → be_value (mask_sin6 xs (mask_bytes n b)) ≡ be_value xs / 2 ^ (8 * n - b) * 2 ^ (8 * n - b)
unfolding mask_sin6 mask_bytes
mask_sin6-value zero b [] l h hb = omega arith
mask_sin6-value zero b (x ∷ xs) l h hb = absurd (omega arith)
mask_sin6-value (suc n) b [] l h hb = absurd (omega arith)
mask_sin6-value (suc n) b (x ∷ xs) l h hb = elim (Bool-cases (ltb 8 b)) [
  | inl long ↦
      rw
        (
          long,
          bit_and_ones 8 x h.0,
          (mask_sin6-IsBytes xs (mask_bytes n (b - 8)) (len ∙ sym (length-mask_bytes n (b - 8)))
              h.1).0,
          mask_sin6-value n (b - 8) xs len h.1 (omega arith),
        )
        (sym (
            low_digits x (be_value xs) (2 ^ (b - 8)) (2 ^ (8 * n - (b - 8))) (2 ^ (8 * length xs))
              (one-le-pow _ 2 (omega arith))
              (ap (λ (t : ℕ). 2 ^ t) (omega (arith, ltb→lt 8 b long))
                ∙ pow-add 2 (b - 8) (8 * n - (b - 8))))
          ∙ ap (λ (k : ℕ). be_value (x ∷ xs) / 2 ^ k * 2 ^ k) (omega (arith, ltb→lt 8 b long)))
  | inr short ↦
      rw
        (
          short,
          byte_mask b (ltb→le 8 b short),
          bit_and_prefix b (8 - b) x (byte_quotient x b h.0 (ltb→le 8 b short)),
          (mask_sin6-IsBytes xs (replicate n 0) (len ∙ sym (length-replicate n 0)) h.1).0,
          mask_sin6-zeros xs n h.1,
        )
        (omega (arith)
          ∙ sym
              (high_digits x (be_value xs) (2 ^ (8 - b)) (2 ^ (8 * length xs)) (be_value_lt xs h.1))
          ∙ ap (λ (t : ℕ). be_value (x ∷ xs) / t * t)
              (sym (pow-add 2 (8 * length xs) (8 - b))
                ∙ ap (λ (t : ℕ). 2 ^ t) (omega (arith, ltb→le 8 b short))))
]
  where
    len : length xs ≡ n
    len = omega arith
