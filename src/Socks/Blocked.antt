-- ===== src/Socks/Blocked.antt =====
-- A request that the firewall refuses opens no connection.
pub mod Total
use socksprox.Address.{Sockaddr, AddrInfo, IsAddress}
use socksprox.Base.{
  ℕ, Bool, true, false, not, ◌≡◌, refl, ap, sym, take, List, [], ◌∷◌, Option, none, some, arith,
  ◌==◌,
}
use socksprox.Config.{Configs}
use socksprox.Conn.Epoll.{l_mallocerror}
use socksprox.Conn.Live.{with_info, bind_some, load_info_live}
use socksprox.Conn.Monad.{M, ◌>>=◌, ◌>>◌, load_info, modify_info, log_access, log_error}
use socksprox.Conn.Quiet.{
  outbound, Silent, Quiet, quiet_rules, Silent-if, Silent-malloc, Silent-peek, Silent-on_option,
  Silent-modify_info,
}
use socksprox.Conn.{State, Side, Info, Call, Os, World}
use socksprox.Firewall.Decision.{firewall-link_rules, exempt}
use socksprox.Firewall.Rules.{Rule, AreRules, blocked_by, link_rules}
use socksprox.Firewall.{firewall}
use socksprox.Net.{atyp_domn}
use socksprox.Ring.Bounds.{IsValid}
use socksprox.Ring.Refine.{contents, peek_ringbuff_lem}
use socksprox.Socks.Handshake.{a_versionfail}
use socksprox.Socks.Reply.{vercheck, rep_ruleset, handshake_err, reply_with_err, fail_with}
use socksprox.Socks.Request.{
  a_firewalldrop, req_at, request_sockaddr, guarded_command, take_request, parse_request,
}

module _ (os : Os) where
  Quiet-handshake_err : (who : Side) → Quiet (handshake_err who)
  unfolding handshake_err
  Quiet-handshake_err who = search quiet_rules depth 15

  Quiet-reply_with_err : (who : Side) → Quiet (reply_with_err os who)
  unfolding reply_with_err
  Quiet-reply_with_err who = search (quiet_rules, Quiet-handshake_err) depth 20

  Quiet-fail_with : (who : Side) (rep : ℕ) → Quiet (fail_with os who rep)
  unfolding fail_with
  Quiet-fail_with who rep = search (quiet_rules, Quiet-reply_with_err)

  Silent-fail_with :
      (who : Side) (rep : ℕ) (w : World) → Silent (outbound w.calls) (fail_with os who rep w)
  Silent-fail_with who rep w = (Quiet-fail_with who rep).at w

  abbrev pub refuse : Side → M (Unit {0})
  refuse who = do log_access a_firewalldrop; fail_with os who rep_ruleset

  Quiet-refuse : (who : Side) → Quiet (refuse who)
  Quiet-refuse who = search (quiet_rules, Quiet-fail_with)

  pub guarded_command_blocked :
      (who : Side) (configs : Configs) (w : World) (i : Info)
      → w.shared_live ≡ true
      → w.shared.info ≡ some i
      → firewall i.cmd i.sa i.ai configs.block_head ≡ true
      → guarded_command os who configs w ≡ refuse who w
  unfolding guarded_command ◌>>=◌
  guarded_command_blocked who configs w i hl hi hf =
      rw (bind_some load_info _ (load_info_live w i hl hi), hf) refl

  -- The refusal's state is that of an error reply, or the connection is closed.
  abbrev pub refused_state : State → Bool
  refused_state State.sending_reply = true
  refused_state State.closed = true
  refused_state _ = false

  Silent-guarded_command :
      (who : Side) (configs : Configs) (w : World) (i : Info)
      → w.shared_live ≡ true
      → w.shared.info ≡ some i
      → firewall i.cmd i.sa i.ai configs.block_head ≡ true
      → Silent (outbound w.calls) (guarded_command os who configs w)
  Silent-guarded_command who configs w i hl hi hf =
      rw (guarded_command_blocked who configs w i hl hi hf) ((Quiet-refuse who).at w)

  -- The rules of the configuration refuse the request.
  pub firewall_refuses :
      (u : ℕ) (rules : List Rule) (configs : Configs) (cmd : ℕ) (sa : Sockaddr) (ai : List AddrInfo)
      → AreRules rules
      → link_rules u rules [] ≡ some configs.block_head
      → IsAddress sa
      → blocked_by rules sa ≡ true
      → exempt cmd sa ≡ false
      → firewall cmd (some sa) ai configs.block_head ≡ true
  firewall_refuses u rules configs cmd sa ai hr hs ha hb he =
      let decided = firewall-link_rules u rules cmd sa ai hr ha in
      ground (arith, decided.1, decided.2, hs, hb, he)

  Quiet-bad_version : (who : Side) → Quiet (do log_access a_versionfail; handshake_err who)
  Quiet-bad_version who = search (quiet_rules, Quiet-handshake_err)

  Quiet-log_error : Quiet (log_error l_mallocerror)
  unfolding log_error
  Quiet-log_error = search quiet_rules

  abbrev pub command : Option Info → ℕ
  command none = 0
  command (some i) = i.cmd

  -- The end of `take_request`, once the address has its place.
  Silent-from_address :
      (who : Side) (u : ℕ) (rules : List Rule) (configs : Configs) (cmd : ℕ) (sa : Sockaddr)
      (w : World)
      → AreRules rules
      → link_rules u rules [] ≡ some configs.block_head
      → IsAddress sa
      → blocked_by rules sa ≡ true
      → exempt cmd sa ≡ false
      → ((i : Info) → w.shared.info ≡ some i → i.cmd ≡ cmd)
      → Silent (outbound w.calls) (
          (modify_info (λ i. record i { sa = some sa }) >>= (λ u. guarded_command os who configs))
            w)
  Silent-from_address who u rules configs cmd sa w hr hs ha hb he hc =
      Silent-modify_info _ _ w λ i hl hi.
        Silent-guarded_command who configs (with_info w (record i { sa = some sa })) _ hl refl
          (rw (hc i hi) (firewall_refuses u rules configs cmd sa i.ai hr hs ha hb he))

  Silent-take_request :
      (who : Side) (u : ℕ) (rules : List Rule) (configs : Configs) (req : List ℕ) (w : World)
      → AreRules rules
      → link_rules u rules [] ≡ some configs.block_head
      → IsAddress (request_sockaddr req)
      → blocked_by rules (request_sockaddr req) ≡ true
      → exempt (req_at req 1) (request_sockaddr req) ≡ false
      → (req_at req 3 == atyp_domn) ≡ false
      → Silent (outbound w.calls) (take_request os who configs req w)
  unfolding take_request
  Silent-take_request who u rules configs req w hr hs ha hb he hd = rw hd (
      Silent-modify_info _ _ w λ i hl hi.
        let w1 = with_info w (record i { cmd = req_at req 1; atyp = req_at req 3 }) in
        Silent-if _ (vercheck (req_at req 0)) _ _ w1 ((Quiet-bad_version who).at w1) (
          Silent-malloc os _ w1 λ got.
            Silent-if _ (not got) _ _ (record w1 { calls = Call.malloc ∷ w1.calls })
              (Quiet-log_error.at _)
              (Silent-from_address who u rules configs (req_at req 1) (request_sockaddr req) _ hr hs
                ha hb he (λ j e. ap command (sym e)))))

  Silent-parse_request :
      (who : Side) (u : ℕ) (rules : List Rule) (configs : Configs) (w : World)
      → AreRules rules
      → link_rules u rules [] ≡ some configs.block_head
      → IsValid w.shared.server_out
      → IsAddress (request_sockaddr (take 300 (contents w.shared.server_out)))
      → blocked_by rules (request_sockaddr (take 300 (contents w.shared.server_out))) ≡ true
      → exempt
          (req_at (take 300 (contents w.shared.server_out)) 1)
          (request_sockaddr (take 300 (contents w.shared.server_out)))
        ≡ false
      → (req_at (take 300 (contents w.shared.server_out)) 3 == atyp_domn) ≡ false
      → Silent (outbound w.calls) (parse_request os who configs w)
  unfolding parse_request
  Silent-parse_request who u rules configs w hr hs v ha hb he hd =
      let taken = Silent-take_request who u rules configs req w hr hs ha hb he hd in
      Silent-peek 300 _ w
        (rw (peek_ringbuff_lem 300 v, hd) (search (Silent-if, Silent-on_option, Silent-fail_with)))
    where
      req : List ℕ
      req = take 300 (contents w.shared.server_out)

  -- A request with an address, as it lies in the input buffer: where some rule covers the address
  -- and the command is not UDP ASSOCIATE for the unspecified address, no run of `parse_request`
  -- opens a socket, or calls connect, bind or listen.
  pub parse_request-refuses :
      (who : Side) (u : ℕ) (rules : List Rule) (configs : Configs) (w w' : World)
      → AreRules rules
      → link_rules u rules [] ≡ some configs.block_head
      → IsValid w.shared.server_out
      → IsAddress (request_sockaddr (take 300 (contents w.shared.server_out)))
      → blocked_by rules (request_sockaddr (take 300 (contents w.shared.server_out))) ≡ true
      → exempt
          (req_at (take 300 (contents w.shared.server_out)) 1)
          (request_sockaddr (take 300 (contents w.shared.server_out)))
        ≡ false
      → (req_at (take 300 (contents w.shared.server_out)) 3 == atyp_domn) ≡ false
      → parse_request os who configs w ≡ some (tt, w')
      → outbound w'.calls ≡ outbound w.calls
  parse_request-refuses who u rules configs w w' hr hs v ha hb he hd run =
      rw run at (Silent-parse_request who u rules configs w hr hs v ha hb he hd)
