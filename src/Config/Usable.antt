-- ===== src/Config/Usable.antt =====
-- Which configurations `conf_error_check` accepts.
use socksprox.Base.Int.{ℤ, pos, negsuc}
use socksprox.Base.{
  ℕ, zero, suc, ◌≤◌, ◌<◌, ◌≡◌, ◌≢◌, ◌↔◌, ◌⊎◌, refl, Bool, true, false, ◌&&◌, not, List, [], ◌∷◌,
  ◌==◌, get_or, take, arith, if◌then◌else◌,
}
use socksprox.Config.Check.{
  Complaint, Verdict, complain, is_null, is_below_one, sum, check_bind, check_udpassoc,
  conf_error_check,
}
use socksprox.Config.{Configs}

abbrev pub IsPositive : ℤ → Type 0
IsPositive (pos n) = 1 ≤ n
IsPositive (negsuc n) = ⊥

-- An authentication method is marked in the array.
abbrev pub OffersMethod : List ℕ → Type 0
OffersMethod methods = (i : ℕ) × (i < 255) × (get_or methods i 0 ≢ 0)

abbrev pub AllowsCommand : Configs → Type 0
AllowsCommand c = ((c.allow_connect ≡ true) ⊎ (c.allow_bind ≡ true)) ⊎ (c.allow_udpassoc ≡ true)

-- All that the server needs to start.
pub record IsUsable (c : Configs) : Type 0 where
  pub has_listen : c.listen_head ≢ []
  pub has_access_log : get_or c.a_log 0 0 ≢ 0
  pub has_error_log : get_or c.e_log 0 0 ≢ 0
  pub has_max_conns : IsPositive c.max_conns
  pub has_command : AllowsCommand c
  pub has_bind : c.allow_bind ≡ true → (c.bind_advertise ≢ []) × (c.bind_listen ≢ [])
  pub has_udpa : c.allow_udpassoc ≡ true → (c.udpa_advertise ≢ []) × (c.udpa_listen ≢ [])
  pub has_method : OffersMethod c.methods

complain_iff :
    (b : Bool) (what : Complaint) (v : Verdict)
    → ((complain b what v).ret ≡ false) ↔ ((b ≡ false) × (v.ret ≡ false))
unfolding complain
complain_iff true what v = ground arith
complain_iff false what v = ground arith

is_null_iff {ℓ} : {A : Type ℓ} (xs : List A) → (is_null xs ≡ false) ↔ (xs ≢ [])
is_null_iff [] = ground arith
is_null_iff (x ∷ xs) = ground arith

is_below_one_iff : (n : ℤ) → (is_below_one n ≡ false) ↔ IsPositive n
is_below_one_iff (pos zero) = ground arith
is_below_one_iff (pos (suc n)) = ground arith
is_below_one_iff (negsuc n) = ground arith

sum_pos : (n : ℕ) (xs : List ℕ) → sum (take n xs) ≢ 0 → (i : ℕ) × (i < n) × (get_or xs i 0 ≢ 0)
sum_pos zero xs h = absurd (h refl)
sum_pos (suc n) [] h = absurd (h refl)
sum_pos (suc n) (zero ∷ xs) h =
    let (i, l, e) = sum_pos n xs (λ s. h (omega (arith, s))) in (suc i, omega arith, e)
sum_pos (suc n) (suc x ∷ xs) h = (0, omega arith, λ e. omega (arith, e))

pos_sum : (n i : ℕ) (xs : List ℕ) → i < n → get_or xs i 0 ≢ 0 → sum (take n xs) ≢ 0
pos_sum zero i xs l h = absurd (omega arith)
pos_sum (suc n) i [] l h = λ e. h refl
pos_sum (suc n) zero (x ∷ xs) l h = λ e. h (omega (arith, e))
pos_sum (suc n) (suc i) (x ∷ xs) l h = λ e. pos_sum n i xs (omega arith) h (omega (arith, e))

sum_iff : (xs : List ℕ) → ((sum (take 255 xs) == 0) ≡ false) ↔ OffersMethod xs
sum_iff xs = (
  (λ h. sum_pos 255 xs (ground arith)),
  (λ h. let positive = pos_sum 255 h.0 xs h.1 h.2 in ground arith),
)

command_iff :
    (c : Configs)
    → ((not c.allow_connect && not c.allow_bind && not c.allow_udpassoc) ≡ false) ↔ AllowsCommand c
command_iff c = ground arith

-- The two addresses that a command needs where it is allowed.
needs_iff {ℓ} :
    {A : Type ℓ} (on : Bool) (xs ys : List A) (a b : Complaint) (v : Verdict)
    → ((if on then complain (is_null ys) b (complain (is_null xs) a v) else v).ret ≡ false)
      ↔ ((on ≡ true → (xs ≢ []) × (ys ≢ [])) × (v.ret ≡ false))
needs_iff false xs ys a b v = ground arith
needs_iff true xs ys a b v = ground (
  arith,
  is_null_iff xs,
  is_null_iff ys,
  complain_iff (is_null ys) b (complain (is_null xs) a v),
  complain_iff (is_null xs) a v,
)

-- `conf_error_check` returns 0 exactly for a configuration that has an address to listen on, both
-- log files, at least one connection, an allowed command, both addresses of BIND and of UDP
-- ASSOCIATE where that command is allowed, and an authentication method.
pub conf_error_check_iff : (c : Configs) → ((conf_error_check c).ret ≡ false) ↔ IsUsable c
unfolding conf_error_check check_bind check_udpassoc
conf_error_check_iff c = (accepted, usable)
  where
    accepted : (conf_error_check c).ret ≡ false → IsUsable c
    accepted h =
        let m = (complain_iff _ _ _).0 h in
        let u = (needs_iff c.allow_udpassoc c.udpa_advertise c.udpa_listen _ _ _).0 m.1 in
        let b = (needs_iff c.allow_bind c.bind_advertise c.bind_listen _ _ _).0 u.1 in
        let s = (complain_iff _ _ _).0 b.1 in
        let n = (complain_iff _ _ _).0 s.1 in
        let e = (complain_iff _ _ _).0 n.1 in
        let a = (complain_iff _ _ _).0 e.1 in
        let l = (complain_iff _ _ _).0 a.1 in
        record {
          has_listen = (is_null_iff c.listen_head).0 l.0;
          has_access_log = ground (arith, a.0);
          has_error_log = ground (arith, e.0);
          has_max_conns = (is_below_one_iff c.max_conns).0 n.0;
          has_command = (command_iff c).0 s.0;
          has_bind = b.0;
          has_udpa = u.0;
          has_method = (sum_iff c.methods).0 m.0;
        }

    usable : IsUsable c → (conf_error_check c).ret ≡ false
    usable h = (complain_iff _ _ _).1 (
      (sum_iff c.methods).1 h.has_method,
      (needs_iff c.allow_udpassoc c.udpa_advertise c.udpa_listen _ _ _).1 (
        h.has_udpa,
        (needs_iff c.allow_bind c.bind_advertise c.bind_listen _ _ _).1 (
          h.has_bind,
          (complain_iff _ _ _).1 (
            (command_iff c).1 h.has_command,
            (complain_iff _ _ _).1 (
              (is_below_one_iff c.max_conns).1 h.has_max_conns,
              (complain_iff _ _ _).1 (
                ground (arith, h.has_error_log),
                (complain_iff _ _ _).1 (
                  ground (arith, h.has_access_log),
                  (complain_iff _ _ _).1 ((is_null_iff c.listen_head).1 h.has_listen, refl),
                ),
              ),
            ),
          ),
        ),
      ),
    )
