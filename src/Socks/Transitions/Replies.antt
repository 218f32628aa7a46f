-- ===== src/Socks/Transitions/Replies.antt =====
-- The rules of `Keeps` for the states from the connection to the host on.
use socksprox.Address.{Sockaddr, inet, inet6, other}
use socksprox.Base.{ℕ, zero, suc, Bool, true, ◌≡◌, List, Option, none, some, arith}
use socksprox.Conn.Keeps.Calls.{keeps_rules}
use socksprox.Conn.Keeps.{Keeps, Keeps-bind, Keeps-modify, Keeps-set_state}
use socksprox.Conn.Monad.{M, modify, load, ◌>>=◌}
use socksprox.Conn.{State, Fd, Side, client, server, Shared, Events, Os}
use socksprox.Net.Keeps.{Keeps-queue_reply, Keeps-send_traffic, Keeps-read_traffic}
use socksprox.Socks.Established.{
  bind_replied, reply_sent, sendingreply, after_sending, after_reading, full, half_close, closed,
}
use socksprox.Socks.Remote.{
  set_server_addr, announce, next_address, connection_made, connection_error, connecting,
  bind_reply, bind_reply_for, replace_fd, take_peer, check_peer, bindlistening,
}
use socksprox.Socks.Reply.{fail_with}
use socksprox.Socks.Transitions.Commands.{Keeps-handshake_err, Keeps-send_pending, Keeps-fail_with}

module _ {ok : State → Bool} where
  Keeps-set_server_addr : (ss : Sockaddr) → Keeps ok (modify (set_server_addr ss))
  Keeps-set_server_addr ss = Keeps-modify _ (λ sh h. record {
    state_in = h.state_in;
    client_valid = h.client_valid;
    server_valid = h.server_valid;
  })

  Keeps-replace_fd : (who : Side) (fd : Fd) → Keeps ok (replace_fd who fd)
  unfolding replace_fd
  Keeps-replace_fd client fd = record { at = λ w h. ground arith }
  Keeps-replace_fd server fd = record { at = λ w h. ground arith }

  pub Keeps-closed : (who : Side) → Keeps ok (closed who)
  unfolding closed
  Keeps-closed who = search keeps_rules depth 15

module _ {ok : State → Bool} (can_close : ok State.closed ≡ true)
    (can_reply : ok State.sending_reply ≡ true) (os : Os) where
  failing : (who : Side) (rep : ℕ) → Keeps ok (fail_with os who rep)
  failing = Keeps-fail_with can_close can_reply os

  Keeps-announce : (who : Side) (self : Fd) → Keeps ok (announce os who self)
  unfolding announce
  Keeps-announce who self = search (keeps_rules, failing) depth 20

  Keeps-next_address :
      (who : Side) (self : Fd) (error : ℕ) → Keeps ok (next_address os who self error)
  unfolding next_address
  Keeps-next_address who self error = search (keeps_rules, failing) depth 20

  Keeps-connection_made :
      (who : Side) (self : Fd) (ss : Sockaddr) → Keeps ok (connection_made os who self ss)
  unfolding connection_made
  Keeps-connection_made who self (inet port addr) =
      search
        (keeps_rules, Keeps-set_server_addr {ok = ok}, Keeps-queue_reply {ok = ok}, Keeps-announce)
        depth 20
  Keeps-connection_made who self (inet6 port addr) =
      search
        (keeps_rules, Keeps-set_server_addr {ok = ok}, Keeps-queue_reply {ok = ok}, Keeps-announce)
        depth 20
  Keeps-connection_made who self (other f) =
      search (keeps_rules, Keeps-set_server_addr {ok = ok}, Keeps-next_address) depth 20

  Keeps-connection_error :
      (who : Side) (self : Fd) (error : ℕ) → Keeps ok (connection_error os who self error)
  unfolding connection_error
  Keeps-connection_error who self zero =
      search (keeps_rules, Keeps-connection_made, failing) depth 20
  Keeps-connection_error who self (suc e) = Keeps-next_address who self (suc e)

  pub Keeps-connecting : (who : Side) (ev : Events) → Keeps ok (connecting os who ev)
  unfolding connecting
  Keeps-connecting who ev = search (keeps_rules, Keeps-connection_error, failing) depth 20

module _ {ok : State → Bool} (can_close : ok State.closed ≡ true)
    (can_reply : ok State.sending_reply ≡ true) (can_reply_2 : ok State.sending_reply_2 ≡ true)
    (os : Os) where
  Keeps-bind_reply :
      (who : Side) (atyp : ℕ) (addr port : List ℕ) → Keeps ok (bind_reply os who atyp addr port)
  unfolding bind_reply
  Keeps-bind_reply who atyp addr port =
      search (keeps_rules, Keeps-queue_reply {ok = ok}, failing {ok = ok} can_close can_reply os)
        depth 20

  Keeps-bind_reply_for : (who : Side) (ss : Sockaddr) → Keeps ok (bind_reply_for os who ss)
  unfolding bind_reply_for
  Keeps-bind_reply_for who (inet port addr) = Keeps-bind_reply who _ addr port
  Keeps-bind_reply_for who (inet6 port addr) = Keeps-bind_reply who _ addr port
  Keeps-bind_reply_for who (other f) =
      search (keeps_rules, failing {ok = ok} can_close can_reply os) depth 20

  Keeps-take_peer :
      (who : Side) (self new_fd : Fd) (ss : Sockaddr) → Keeps ok (take_peer os who self new_fd ss)
  unfolding take_peer
  Keeps-take_peer who self new_fd ss =
      search
        (
          keeps_rules,
          Keeps-replace_fd {ok = ok},
          Keeps-bind_reply_for,
          failing {ok = ok} can_close can_reply os,
        )
        depth 20

  Keeps-check_peer :
      (who : Side) (self new_fd : Fd) (ss : Sockaddr) → Keeps ok (check_peer os who self new_fd ss)
  unfolding check_peer
  Keeps-check_peer who self new_fd ss =
      search
        (
          keeps_rules,
          Keeps-set_server_addr {ok = ok},
          Keeps-take_peer,
          failing {ok = ok} can_close can_reply os,
        )
        depth 20

  pub Keeps-bindlistening : (who : Side) (ev : Events) → Keeps ok (bindlistening os who ev)
  unfolding bindlistening
  Keeps-bindlistening who ev =
      search (keeps_rules, Keeps-check_peer, failing {ok = ok} can_close can_reply os) depth 20

-- `load` gives a state among the given ones.
module _ {ok : State → Bool} where
  Keeps-load_state :
      (f : Shared → M (Unit {0}))
      → ((sh : Shared) → ok sh.state ≡ true → Keeps ok (f sh))
      → Keeps ok (load >>= f)
  unfolding ◌>>=◌ load
  Keeps-load_state f kf = record { at = λ w h. ground (arith, (kf w.shared h.state_in).at w h) }

module _ {ok : State → Bool} (can_close : ok State.closed ≡ true) (can_fill : ok State.full ≡ true)
    (can_relay : ok State.full_udpa ≡ true)
    (can_listen : ok State.sending_reply ≡ true → ok State.bind_listening ≡ true) (os : Os) where
  Keeps-bind_replied : (s : State) → ok s ≡ true → Keeps ok (bind_replied s)
  unfolding bind_replied
  Keeps-bind_replied State.sending_reply e = search (keeps_rules, can_listen e)
  Keeps-bind_replied State.sending_reply_2 e = search keeps_rules depth 15
  Keeps-bind_replied State.no_state e = search keeps_rules
  Keeps-bind_replied State.waiting_methods e = search keeps_rules
  Keeps-bind_replied State.sending_method e = search keeps_rules
  Keeps-bind_replied State.authenticating e = search keeps_rules
  Keeps-bind_replied State.waiting_command e = search keeps_rules
  Keeps-bind_replied State.async_dns e = search keeps_rules
  Keeps-bind_replied State.connecting e = search keeps_rules
  Keeps-bind_replied State.bind_listening e = search keeps_rules
  Keeps-bind_replied State.full e = search keeps_rules
  Keeps-bind_replied State.full_udpa e = search keeps_rules
  Keeps-bind_replied State.half_close e = search keeps_rules
  Keeps-bind_replied State.closed e = search keeps_rules

  Keeps-reply_sent : (who : Side) → Keeps ok (reply_sent who)
  unfolding reply_sent
  Keeps-reply_sent who = Keeps-bind _ _ (search keeps_rules) λ info. Keeps-load_state _ λ sh e.
      search (keeps_rules, Keeps-handshake_err {ok = ok} can_close, Keeps-bind_replied) depth 20

  pub Keeps-sendingreply : (who : Side) (ev : Events) → Keeps ok (sendingreply os who ev)
  unfolding sendingreply
  Keeps-sendingreply who ev =
      search (keeps_rules, Keeps-send_pending {ok = ok} can_close os, Keeps-reply_sent) depth 20

module _ {ok : State → Bool} (can_close : ok State.closed ≡ true)
    (can_halve : ok State.half_close ≡ true) (os : Os) where
  Keeps-after_sending :
      (who : Side) (self : Fd) (left : Option ℕ) → Keeps ok (after_sending os who self left)
  unfolding after_sending
  Keeps-after_sending who self none = search keeps_rules
  Keeps-after_sending who self (some zero) = search keeps_rules depth 15
  Keeps-after_sending who self (some (suc n)) = search keeps_rules

  Keeps-after_reading : (ret : Option ℕ) → Keeps ok (after_reading ret)
  unfolding after_reading
  Keeps-after_reading none = search keeps_rules
  Keeps-after_reading (some n) = search keeps_rules

  pub Keeps-full : (who : Side) (ev : Events) → Keeps ok (full os who ev)
  unfolding full
  Keeps-full who ev =
      search
        (
          keeps_rules,
          Keeps-after_sending,
          Keeps-after_reading,
          Keeps-send_traffic {ok = ok} os,
          Keeps-read_traffic {ok = ok} os,
        )
        depth 20

pub Keeps-half_close : {ok : State → Bool} → ok State.closed ≡ true → Keeps ok half_close
unfolding half_close
Keeps-half_close {ok} can_close = Keeps-set_state State.closed can_close
