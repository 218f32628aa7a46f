-- ===== src/Config/Check.antt =====
-- `conf_error_check` of src/config.c.
use socksprox.Base.Int.{ℤ, pos, negsuc}
use socksprox.Base.{
  ℕ, zero, suc, ◌+◌, Bool, true, false, ◌&&◌, not, List, [], ◌∷◌, ◌++◌, ◌==◌, if◌then◌else◌, get_or,
  take,
}
use socksprox.Config.{Configs}

-- The messages, by what is missing.
pub data Complaint : Type 0 where
  no_listen no_access_log no_error_log bad_max_conns no_command : Complaint
  no_bind_advertise no_bind_listen no_udpa_advertise no_udpa_listen no_method : Complaint

-- `ret`, true for 1, and what was printed.
pub record Verdict : Type 0 where
  pub ret : Bool
  pub printed : List Complaint

-- `if(…){ ret = 1; dprintf(…); }`
unfoldable pub complain : Bool → Complaint → Verdict → Verdict
complain false what v = v
complain true what v = record { ret = true; printed = v.printed ++ (what ∷ []) }

abbrev pub is_null {ℓ} : {A : Type ℓ} → List A → Bool
is_null [] = true
is_null (x ∷ xs) = false

abbrev pub is_below_one : ℤ → Bool
is_below_one (pos zero) = true
is_below_one (pos (suc n)) = false
is_below_one (negsuc n) = true

-- `nmethods`; 255 bytes do not overflow it.
abbrev pub sum : List ℕ → ℕ
sum [] = 0
sum (x ∷ xs) = x + sum xs

unfoldable pub check_bind : Configs → Verdict → Verdict
check_bind c v =
    if c.allow_bind
    then complain (is_null c.bind_listen) no_bind_listen
        (complain (is_null c.bind_advertise) no_bind_advertise v)
    else v

unfoldable pub check_udpassoc : Configs → Verdict → Verdict
check_udpassoc c v =
    if c.allow_udpassoc
    then complain (is_null c.udpa_listen) no_udpa_listen
        (complain (is_null c.udpa_advertise) no_udpa_advertise v)
    else v

unfoldable pub conf_error_check : Configs → Verdict
conf_error_check c =
    let v0 : Verdict = record { ret = false; printed = [] } in
    let v1 : Verdict = complain (is_null c.listen_head) no_listen v0 in
    let v2 : Verdict = complain (get_or c.a_log 0 0 == 0) no_access_log v1 in
    let v3 : Verdict = complain (get_or c.e_log 0 0 == 0) no_error_log v2 in
    let v4 : Verdict = complain (is_below_one c.max_conns) bad_max_conns v3 in
    let silent : Bool = not c.allow_connect && not c.allow_bind && not c.allow_udpassoc in
    let v5 : Verdict = complain silent no_command v4 in
    complain (sum (take 255 c.methods) == 0) no_method (check_udpassoc c (check_bind c v5))
