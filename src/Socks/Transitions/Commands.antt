-- ===== src/Socks/Transitions/Commands.antt =====
-- The rules of `Keeps` for the replies, the negotiation of the method and the request.
use socksprox.Base.Int.{ℤ, pos, negsuc}
use socksprox.Base.{ℕ, zero, suc, Bool, true, ◌≡◌, List}
use socksprox.Config.{Configs}
use socksprox.Conn.Keeps.Calls.{keeps_rules}
use socksprox.Conn.Keeps.{Keeps, Keeps-bind}
use socksprox.Conn.Monad.{M}
use socksprox.Conn.{State, Side, Events, Os}
use socksprox.Net.Keeps.{Keeps-init_connect, Keeps-init_bind, Keeps-init_udpa}
use socksprox.Socks.Handshake.{
  answer_methods, parse_methods, receive, waitingmethods, enter_method, send_pending, sendingmethod,
}
use socksprox.Socks.Reply.{handshake_err, reply_with_err, fail_with, run_command, init_command}
use socksprox.Socks.Request.{
  resolve, command_and_check, resolved_command, guarded_command, take_request, parse_request,
  waitingcommand,
}

module _ {ok : State → Bool} (can_close : ok State.closed ≡ true) where
  pub Keeps-handshake_err : (who : Side) → Keeps ok (handshake_err who)
  unfolding handshake_err
  Keeps-handshake_err who = search keeps_rules depth 15

  pub Keeps-receive :
      (os : Os) (who : Side) (rest : M (Unit {0})) → Keeps ok rest → Keeps ok (receive os who rest)
  unfolding receive
  Keeps-receive os who rest kr = search (keeps_rules, Keeps-handshake_err) depth 20

  pub Keeps-send_pending :
      (os : Os) (who : Side) (size : ℕ) (done : M (Unit {0}))
      → Keeps ok done
      → Keeps ok (send_pending os who size done)
  unfolding send_pending
  Keeps-send_pending os who size done kd = search (keeps_rules, Keeps-handshake_err) depth 20

module _ {ok : State → Bool} (can_close : ok State.closed ≡ true)
    (can_send : ok State.sending_method ≡ true) (os : Os) where
  Keeps-answer_methods :
      (who : Side) (configs : Configs) (version nmethods : ℕ)
      → Keeps ok (answer_methods os who configs version nmethods)
  unfolding answer_methods
  Keeps-answer_methods who configs version nmethods =
      search (keeps_rules, Keeps-handshake_err {ok = ok} can_close) depth 20

  Keeps-parse_methods : (who : Side) (configs : Configs) → Keeps ok (parse_methods os who configs)
  unfolding parse_methods
  Keeps-parse_methods who configs = search (keeps_rules, Keeps-answer_methods) depth 20

  pub Keeps-waitingmethods :
      (who : Side) (configs : Configs) (ev : Events) → Keeps ok (waitingmethods os who configs ev)
  unfolding waitingmethods
  Keeps-waitingmethods who configs ev =
      search (keeps_rules, Keeps-receive {ok = ok} can_close, Keeps-parse_methods) depth 20

module _ {ok : State → Bool} (can_close : ok State.closed ≡ true)
    (can_wait : ok State.waiting_command ≡ true) (os : Os) where
  Keeps-enter_method : (who : Side) (method : ℕ) → Keeps ok (enter_method os who method)
  unfolding enter_method
  Keeps-enter_method who method =
      search (keeps_rules, Keeps-handshake_err {ok = ok} can_close) depth 20

  pub Keeps-sendingmethod : (who : Side) (ev : Events) → Keeps ok (sendingmethod os who ev)
  unfolding sendingmethod
  Keeps-sendingmethod who ev =
      search (keeps_rules, Keeps-send_pending {ok = ok} can_close, Keeps-enter_method) depth 20

module _ {ok : State → Bool} (can_close : ok State.closed ≡ true)
    (can_reply : ok State.sending_reply ≡ true) (os : Os) where
  pub Keeps-reply_with_err : (who : Side) → Keeps ok (reply_with_err os who)
  unfolding reply_with_err
  Keeps-reply_with_err who = search (keeps_rules, Keeps-handshake_err {ok = ok} can_close) depth 20

  pub Keeps-fail_with : (who : Side) (rep : ℕ) → Keeps ok (fail_with os who rep)
  unfolding fail_with
  Keeps-fail_with who rep = search (keeps_rules, Keeps-reply_with_err)

module _ {ok : State → Bool} (can_close : ok State.closed ≡ true)
    (can_reply : ok State.sending_reply ≡ true) (can_connect : ok State.connecting ≡ true)
    (os : Os) where
  Keeps-run_command :
      (who : Side) (code : ℕ) (allowed : Bool) (start : M (Unit {0}))
      → Keeps ok start
      → Keeps ok (run_command os who code allowed start)
  unfolding run_command
  Keeps-run_command who code allowed start ks =
      search (keeps_rules, Keeps-fail_with {ok = ok} can_close can_reply os) depth 15

  pub Keeps-init_command : (who : Side) (configs : Configs) → Keeps ok (init_command os who configs)
  unfolding init_command
  Keeps-init_command who configs =
      search
        (
          keeps_rules,
          Keeps-run_command,
          Keeps-fail_with {ok = ok} can_close can_reply os,
          Keeps-init_connect {ok = ok} can_connect,
          Keeps-init_bind {ok = ok} can_reply os,
          Keeps-init_udpa {ok = ok} can_reply os,
        )
        depth 20

module _ {ok : State → Bool} (can_close : ok State.closed ≡ true)
    (can_reply : ok State.sending_reply ≡ true) (can_connect : ok State.connecting ≡ true)
    (can_resolve : ok State.async_dns ≡ true) (os : Os) where
  Keeps-resolve : (input : List ℕ) → Keeps ok (resolve os input)
  unfolding resolve
  Keeps-resolve input = search keeps_rules depth 15

  Keeps-command_and_check :
      (who : Side) (configs : Configs) → Keeps ok (command_and_check os who configs)
  unfolding command_and_check
  Keeps-command_and_check who configs =
      search
        (
          keeps_rules,
          Keeps-init_command {ok = ok} can_close can_reply can_connect os,
          Keeps-reply_with_err {ok = ok} can_close can_reply os,
        )
        depth 15

  Keeps-resolved_command :
      (who : Side) (configs : Configs) (ret : ℤ) → Keeps ok (resolved_command os who configs ret)
  unfolding resolved_command
  Keeps-resolved_command who configs (pos zero) = Keeps-command_and_check who configs
  Keeps-resolved_command who configs (pos (suc n)) =
      Keeps-bind _ _ (Keeps-fail_with can_close can_reply os who _)
        λ u. Keeps-command_and_check who configs
  Keeps-resolved_command who configs (negsuc n) =
      Keeps-bind _ _ (Keeps-fail_with can_close can_reply os who _)
        λ u. Keeps-command_and_check who configs

  Keeps-guarded_command :
      (who : Side) (configs : Configs) → Keeps ok (guarded_command os who configs)
  unfolding guarded_command
  Keeps-guarded_command who configs =
      search
        (keeps_rules, Keeps-command_and_check, Keeps-fail_with {ok = ok} can_close can_reply os)
        depth 15

  Keeps-take_request :
      (who : Side) (configs : Configs) (req : List ℕ) → Keeps ok (take_request os who configs req)
  unfolding take_request
  Keeps-take_request who configs req =
      search
        (keeps_rules, Keeps-resolve, Keeps-guarded_command, Keeps-handshake_err {ok = ok} can_close)
        depth 20

  Keeps-parse_request : (who : Side) (configs : Configs) → Keeps ok (parse_request os who configs)
  unfolding parse_request
  Keeps-parse_request who configs =
      search (keeps_rules, Keeps-take_request, Keeps-fail_with {ok = ok} can_close can_reply os)
        depth 20

  pub Keeps-waitingcommand :
      (who : Side) (configs : Configs) (ev : Events) → Keeps ok (waitingcommand os who configs ev)
  unfolding waitingcommand
  Keeps-waitingcommand who configs ev =
      search
        (
          keeps_rules,
          Keeps-parse_request,
          Keeps-resolved_command,
          Keeps-receive {ok = ok} can_close,
        )
        depth 20
