-- ===== src/Socks/Request.antt =====
-- `waitingcommand` of src/socks.c: the SOCKS request; and `resolve` of src/resolver.c, which takes
-- over a request with a domain name.
use socksprox.Address.{Sockaddr, inet, inet6}
use socksprox.Base.Int.{ℤ, pos, negsuc, eq_ℤ}
use socksprox.Base.{
  ℕ, zero, ◌+◌, Bool, not, ◌&&◌, List, ◌∷◌, ◌++◌, Option, none, some, get_or, take, drop, slice,
  replicate, ltb, ◌==◌, if◌then◌else◌,
}
use socksprox.Config.{Configs}
use socksprox.Conn.Epoll.{l_mallocerror}
use socksprox.Conn.Monad.{
  M, ◌>>=◌, on_option, ◌>>◌, pure, undefined, load, set_state, load_self, load_info, modify_info,
  peek_server_out, issue_only, log_access, log_error, malloc,
}
use socksprox.Conn.{State, Side, Call, Events, Os}
use socksprox.Firewall.{firewall}
use socksprox.Net.{atyp_ipv4, atyp_domn, atyp_ipv6, rep_success, rep_genfail, rep_badatyp}
use socksprox.Socks.Handshake.{a_versionfail, is_for, receive}
use socksprox.Socks.Reply.{
  vercheck, handshake_err, reply_with_err, fail_with, init_command, rep_ruleset,
}

abbrev pub a_firewalldrop : ℕ
a_firewalldrop = 0x06

-- A byte of the request; the array is 300 zeros that the bytes are copied into.
abbrev pub req_at : List ℕ → ℕ → ℕ
req_at req i = get_or req i 0

-- `req[first .. first + n)`
abbrev pub req_slice : List ℕ → ℕ → ℕ → List ℕ
req_slice req first n = slice (req ++ replicate 300 0) first n

-- The length of the request by its address type, `none` where that is unknown.
unfoldable pub request_length : List ℕ → Option ℕ
request_length req =
    if req_at req 3 == atyp_ipv4
    then some (6 + 4)
    else if req_at req 3 == atyp_domn
    then some (6 + req_at req 4)
    else if req_at req 3 == atyp_ipv6
    then some (6 + 16)
    else none

-- The address that `waitingcommand` builds for the two types with an address.
unfoldable pub request_sockaddr : List ℕ → Sockaddr
request_sockaddr req =
    if req_at req 3 == atyp_ipv4
    then inet (req_slice req 8 2) (req_slice req 4 4)
    else inet6 (req_slice req 20 2) (req_slice req 4 16)

-- `info->rep != 0xFF && info->rep != REP_SUCCESS`
abbrev pub has_failed : ℕ → Bool
has_failed rep = not (rep == 0xFF) && not (rep == rep_success)

module _ (os : Os) where
  -- `input` is a `char *`: a length of 128 or more is negative there. The message is `&shared`, a
  -- byte of the stack that nothing has written, then the input from its first byte on. The copy
  -- runs one byte past the end of `msg`: what is written to the pipe is without that byte, if the
  -- program goes on.
  unfoldable pub resolve : List ℕ → M (Unit {0})
  resolve input = do
    set_state State.async_dns
    if ltb (get_or input 0 0) 128
        then (if os.overrun_goes_on
            then issue_only (
                Call.resolve
                  (os.shared_pointer ++ (os.stack_byte ∷ take (get_or input 0 0 + 2) input)))
            else undefined)
        else undefined

  -- `init_command` and the test of `info->rep` behind it.
  unfoldable pub command_and_check : Side → Configs → M (Unit {0})
  command_and_check who configs = do
    init_command os who configs
    info ← load_info
    if has_failed info.rep then reply_with_err os who else pure tt

  -- The case of a request that waited for the resolver.
  unfoldable pub resolved_command : Side → Configs → ℤ → M (Unit {0})
  resolved_command who configs (pos zero) = command_and_check who configs
  resolved_command who configs other = do
    fail_with os who rep_genfail
    command_and_check who configs

  -- The firewall, then the command.
  unfoldable pub guarded_command : Side → Configs → M (Unit {0})
  guarded_command who configs = do
    info ← load_info
    if firewall info.cmd info.sa info.ai configs.block_head
        then (do log_access a_firewalldrop; fail_with os who rep_ruleset)
        else command_and_check who configs

  -- A request of known length, from the test for its last byte on.
  unfoldable pub take_request : Side → Configs → List ℕ → M (Unit {0})
  take_request who configs req = do
    modify_info (λ i. record i { cmd = req_at req 1; atyp = req_at req 3 })
    if vercheck (req_at req 0)
        then (do log_access a_versionfail; handshake_err who)
        else if req_at req 3 == atyp_domn
        then (do set_state State.async_dns; resolve (drop 4 (req ++ replicate 300 0)))
        else (do
          got ← malloc os
          if not got then log_error l_mallocerror else (do
            modify_info (λ i. record i { sa = some (request_sockaddr req) })
            guarded_command who configs))

  -- The request as far as it has come.
  unfoldable pub parse_request : Side → Configs → M (Unit {0})
  parse_request who configs = do
    (peeked, req) ← peek_server_out 300
    if ltb peeked 5
        then pure tt
        else if req_at req 3 == atyp_domn && not configs.allow_domains
        then fail_with os who rep_badatyp
        else on_option (request_length req) (fail_with os who rep_badatyp)
            λ total_len. if ltb peeked total_len then pure tt else take_request who configs req

  unfoldable pub waitingcommand : Side → Configs → Events → M (Unit {0})
  waitingcommand who configs ev = do
    sh ← load
    self ← load_self who
    if is_for ev.epollin self sh.client_fd
        then (do
          info ← load_info
          if not (eq_ℤ info.resolver_ret (negsuc 0))
              then resolved_command who configs info.resolver_ret
              else receive os who (parse_request who configs))
        else pure tt
