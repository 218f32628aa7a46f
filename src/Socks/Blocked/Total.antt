-- ===== src/Socks/Blocked/Total.antt =====
-- The run of `parse_request` on a request that the firewall refuses is defined.
use socksprox.Address.{Sockaddr, IsAddress}
use socksprox.Base.{ℕ, true, false, not, ◌≡◌, refl, ap, sym, take, List, [], ◌∷◌, some, ◌==◌}
use socksprox.Config.{Configs}
use socksprox.Conn.Alive.Calls.{safe_rules}
use socksprox.Conn.Alive.Steps.{
  Ended-modify_info, Ended-malloc, Ended-peek, Ended-if, Ended-on_option, result_of,
}
use socksprox.Conn.Alive.{alive, Ends, Ended, ends_rules}
use socksprox.Conn.Epoll.{l_mallocerror}
use socksprox.Conn.Live.{with_info}
use socksprox.Conn.Monad.{◌>>=◌, ◌>>◌, modify_info, log_access, log_error}
use socksprox.Conn.Quiet.{outbound}
use socksprox.Conn.{Side, Info, Call, Os, World}
use socksprox.Firewall.Decision.{exempt}
use socksprox.Firewall.Rules.{Rule, AreRules, blocked_by, link_rules}
use socksprox.Net.{atyp_domn}
use socksprox.Ring.Bounds.{IsValid}
use socksprox.Ring.Refine.{contents, peek_ringbuff_lem}
use socksprox.Socks.Blocked.{
  refuse, guarded_command_blocked, firewall_refuses, command, parse_request-refuses,
}
use socksprox.Socks.Defined.{Ends-handshake_err, Ends-fail_with}
use socksprox.Socks.Handshake.{a_versionfail}
use socksprox.Socks.Reply.{vercheck, handshake_err, fail_with}
use socksprox.Socks.Request.{req_at, request_sockaddr, guarded_command, take_request, parse_request}

module _ (os : Os) (who : Side) where
  Ends-refuse : Ends who (refuse os who)
  Ends-refuse = search (ends_rules, safe_rules, Ends-fail_with) depth 15

  Ends-bad_version : Ends who (do log_access a_versionfail; handshake_err who)
  Ends-bad_version = search (ends_rules, safe_rules, Ends-handshake_err os) depth 15

  Ends-log_error : Ends who (log_error l_mallocerror)
  Ends-log_error = search (ends_rules, safe_rules)

  Ended-fail_with : (rep : ℕ) (w : World) → alive who w ≡ true → Ended (fail_with os who rep w)
  Ended-fail_with rep w h = (Ends-fail_with os who rep).at w h

  Ended-from_address :
      (u : ℕ) (rules : List Rule) (configs : Configs) (cmd : ℕ) (sa : Sockaddr) (w : World)
      → alive who w ≡ true
      → AreRules rules
      → link_rules u rules [] ≡ some configs.block_head
      → IsAddress sa
      → blocked_by rules sa ≡ true
      → exempt cmd sa ≡ false
      → ((i : Info) → w.shared.info ≡ some i → i.cmd ≡ cmd)
      → Ended (
          (modify_info (λ i. record i { sa = some sa }) >>= (λ u. guarded_command os who configs))
            w)
  Ended-from_address u rules configs cmd sa w h hr hs ha hb he hc =
      Ended-modify_info who _ _ w h λ i hl hi h2.
        rw
          (guarded_command_blocked os who configs (with_info w (record i { sa = some sa })) _ hl
            refl (rw (hc i hi) (firewall_refuses os u rules configs cmd sa i.ai hr hs ha hb he)))
          (Ends-refuse.at _ h2)

  Ended-take_request :
      (u : ℕ) (rules : List Rule) (configs : Configs) (req : List ℕ) (w : World)
      → alive who w ≡ true
      → AreRules rules
      → link_rules u rules [] ≡ some configs.block_head
      → IsAddress (request_sockaddr req)
      → blocked_by rules (request_sockaddr req) ≡ true
      → exempt (req_at req 1) (request_sockaddr req) ≡ false
      → (req_at req 3 == atyp_domn) ≡ false
      → Ended (take_request os who configs req w)
  unfolding take_request
  Ended-take_request u rules configs req w h hr hs ha hb he hd = rw hd (
      Ended-modify_info who _ _ w h λ i hl hi h1.
        let w1 = with_info w (record i { cmd = req_at req 1; atyp = req_at req 3 }) in
        Ended-if (vercheck (req_at req 0)) _ _ w1 (Ends-bad_version.at w1 h1) (
          Ended-malloc who os _ w1 h1 λ got h2.
            Ended-if (not got) _ _ (record w1 { calls = Call.malloc ∷ w1.calls })
              (Ends-log_error.at _ h2)
              (Ended-from_address u rules configs (req_at req 1) (request_sockaddr req) _ h2 hr hs
                ha hb he (λ j e. ap (command os) (sym e)))))

  Ended-parse_request :
      (u : ℕ) (rules : List Rule) (configs : Configs) (w : World)
      → alive who w ≡ true
      → AreRules rules
      → link_rules u rules [] ≡ some configs.block_head
      → IsValid w.shared.server_out
      → IsAddress (request_sockaddr (take 300 (contents w.shared.server_out)))
      → blocked_by rules (request_sockaddr (take 300 (contents w.shared.server_out))) ≡ true
      → exempt
          (req_at (take 300 (contents w.shared.server_out)) 1)
          (request_sockaddr (take 300 (contents w.shared.server_out)))
        ≡ false
      → (req_at (take 300 (contents w.shared.server_out)) 3 == atyp_domn) ≡ false
      → Ended (parse_request os who configs w)
  unfolding parse_request
  Ended-parse_request u rules configs w h hr hs v ha hb he hd =
      let taken =
        Ended-take_request u rules configs (take 300 (contents w.shared.server_out)) w h hr hs ha hb
          he hd in
      Ended-peek who 300 _ w h
        (rw (peek_ringbuff_lem 300 v, hd) (search (Ended-if, Ended-on_option, Ended-fail_with)))

  -- A request with an address, as it lies in a valid input buffer of a connection whose structures
  -- are allocated: where some rule covers the address, and the command is not UDP ASSOCIATE for the
  -- unspecified address, `parse_request` returns, and it has opened no socket and made no connect,
  -- bind or listen call.
  pub parse_request_refused :
      (u : ℕ) (rules : List Rule) (configs : Configs) (w : World)
      → alive who w ≡ true
      → AreRules rules
      → link_rules u rules [] ≡ some configs.block_head
      → IsValid w.shared.server_out
      → IsAddress (request_sockaddr (take 300 (contents w.shared.server_out)))
      → blocked_by rules (request_sockaddr (take 300 (contents w.shared.server_out))) ≡ true
      → exempt
          (req_at (take 300 (contents w.shared.server_out)) 1)
          (request_sockaddr (take 300 (contents w.shared.server_out)))
        ≡ false
      → (req_at (take 300 (contents w.shared.server_out)) 3 == atyp_domn) ≡ false
      → (w' : World) × (parse_request os who configs w ≡ some (tt, w'))
        × (outbound w'.calls ≡ outbound w.calls)
  parse_request_refused u rules configs w h hr hs v ha hb he hd =
      let done =
        result_of (parse_request os who configs w)
          (Ended-parse_request u rules configs w h hr hs v ha hb he hd) in
      (
        done.0,
        done.1,
        parse_request-refuses os who u rules configs w done.0 hr hs v ha hb he hd done.1,
      )
