-- ===== src/Socks/Errors.antt =====
-- The reply codes for the errors of a connection.
use socksprox.Base.{
  ℕ, ◌+◌, ◌<◌, suc, zero, Bool, true, false, not, ◌&&◌, ◌≡◌, refl, arith, ◌==◌, bit_and,
}
use native.Mathlib.Decide.{dec_lt}
use socksprox.Conn.{Os}
use socksprox.Socks.Remote.{rep_nunrech, connect_rep}

-- Linux's ENETUNREACH.
abbrev linux_enetunreach : ℕ
linux_enetunreach = 101

-- The `n` error numbers from 96 on have a bit in common with ENETUNREACH.
abbrev common_bits : ℕ → Bool
common_bits zero = true
common_bits (suc n) =
    let rest = common_bits n in not (bit_and (96 + n) linux_enetunreach == 0) && rest

common_bits-at :
    (n k : ℕ) → common_bits n ≡ true → k < n → (bit_and (96 + k) linux_enetunreach == 0) ≡ false
common_bits-at zero k all h = absurd (omega arith)
common_bits-at (suc n) k all h = elim (dec_lt k n) [
  | yes below ↦ common_bits-at n k (ground arith) below
  | no top ↦ at_top (omega arith)
]
  where
    at_top : k ≡ n → (bit_and (96 + k) linux_enetunreach == 0) ≡ false
    at_top e = rw e (ground arith)

-- On Linux, where ENETUNREACH is 101: every error of a connection from 96 to 127, that of an
-- unreachable host, a timeout and a refused connection among them, is reported as an unreachable
-- network.
pub connect_rep-nunrech :
    (os : Os) (k : ℕ)
    → os.enetunreach ≡ linux_enetunreach
    → k < 32
    → connect_rep os (96 + k) ≡ rep_nunrech
unfolding connect_rep
connect_rep-nunrech os k hn h = rw (hn, common_bits-at 32 k refl h) refl
