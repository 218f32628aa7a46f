-- ===== src/Socks/Defined.antt =====
-- The handlers read no memory that is freed or NULL, in every state but the one of the request.
use socksprox.Address.{Sockaddr, inet, inet6, other}
use socksprox.Base.{ℕ, zero, suc, List, arith}
use socksprox.Config.{Configs}
use socksprox.Conn.Alive.{Safe, Ends, ends_rules}
use socksprox.Conn.Alive.Calls.{safe_rules}
use socksprox.Conn.Monad.{M, modify}
use socksprox.Conn.{State, Fd, Side, client, server, Events, Os}
use socksprox.Net.{queue_reply}
use socksprox.Socks.Established.{bind_replied, reply_sent, sendingreply, half_close, closed}
use socksprox.Socks.Handshake.{
  answer_methods, parse_methods, receive, waitingmethods, enter_method, send_pending, sendingmethod,
}
use socksprox.Socks.Remote.{
  set_server_addr, announce, next_address, connection_made, connection_error, connecting,
  bind_reply, bind_reply_for, replace_fd, take_peer, check_peer, bindlistening,
}
use socksprox.Socks.Reply.{handshake_err, reply_with_err, fail_with}

module _ (os : Os) (who : Side) where
  pub Ends-handshake_err : Ends who (handshake_err who)
  unfolding handshake_err
  Ends-handshake_err = search (ends_rules, safe_rules) depth 20

  Ends-reply_with_err : Ends who (reply_with_err os who)
  unfolding reply_with_err
  Ends-reply_with_err = let e = Ends-handshake_err in search (ends_rules, safe_rules) depth 20

  pub Ends-fail_with : (rep : ℕ) → Ends who (fail_with os who rep)
  unfolding fail_with
  Ends-fail_with rep = let e = Ends-reply_with_err in search (ends_rules, safe_rules) depth 20

  Ends-answer_methods :
      (configs : Configs) (version nmethods : ℕ)
      → Ends who (answer_methods os who configs version nmethods)
  unfolding answer_methods
  Ends-answer_methods configs version nmethods =
      let e = Ends-handshake_err in search (ends_rules, safe_rules) depth 20

  Ends-parse_methods : (configs : Configs) → Ends who (parse_methods os who configs)
  unfolding parse_methods
  Ends-parse_methods configs = search (ends_rules, safe_rules, Ends-answer_methods) depth 20

  Ends-receive : (rest : M (Unit {0})) → Ends who rest → Ends who (receive os who rest)
  unfolding receive
  Ends-receive rest er = let e = Ends-handshake_err in search (ends_rules, safe_rules) depth 20

  pub Ends-waitingmethods :
      (configs : Configs) (ev : Events) → Ends who (waitingmethods os who configs ev)
  unfolding waitingmethods
  Ends-waitingmethods configs ev =
      search (ends_rules, safe_rules, Ends-receive, Ends-parse_methods) depth 20

  Ends-enter_method : (method : ℕ) → Ends who (enter_method os who method)
  unfolding enter_method
  Ends-enter_method method = let e = Ends-handshake_err in search (ends_rules, safe_rules) depth 20

  Ends-send_pending :
      (size : ℕ) (done : M (Unit {0})) → Ends who done → Ends who (send_pending os who size done)
  unfolding send_pending
  Ends-send_pending size done ed =
      let e = Ends-handshake_err in search (ends_rules, safe_rules) depth 20

  pub Ends-sendingmethod : (ev : Events) → Ends who (sendingmethod os who ev)
  unfolding sendingmethod
  Ends-sendingmethod ev =
      search (ends_rules, safe_rules, Ends-send_pending, Ends-enter_method) depth 20

  Safe-bind_replied : (s : State) → Safe who (bind_replied s)
  unfolding bind_replied
  Safe-bind_replied State.no_state = search safe_rules depth 15
  Safe-bind_replied State.waiting_methods = search safe_rules depth 15
  Safe-bind_replied State.sending_method = search safe_rules depth 15
  Safe-bind_replied State.authenticating = search safe_rules depth 15
  Safe-bind_replied State.waiting_command = search safe_rules depth 15
  Safe-bind_replied State.async_dns = search safe_rules depth 15
  Safe-bind_replied State.sending_reply = search safe_rules depth 15
  Safe-bind_replied State.sending_reply_2 = search safe_rules depth 15
  Safe-bind_replied State.connecting = search safe_rules depth 15
  Safe-bind_replied State.bind_listening = search safe_rules depth 15
  Safe-bind_replied State.full = search safe_rules depth 15
  Safe-bind_replied State.full_udpa = search safe_rules depth 15
  Safe-bind_replied State.half_close = search safe_rules depth 15
  Safe-bind_replied State.closed = search safe_rules depth 15

  Ends-reply_sent : Ends who (reply_sent who)
  unfolding reply_sent
  Ends-reply_sent =
      let e = Ends-handshake_err in search (ends_rules, safe_rules, Safe-bind_replied) depth 20

  pub Ends-sendingreply : (ev : Events) → Ends who (sendingreply os who ev)
  unfolding sendingreply
  Ends-sendingreply ev =
      let e = Ends-reply_sent in search (ends_rules, safe_rules, Ends-send_pending) depth 20

  Safe-queue_reply : (rep atyp : ℕ) (addr port : List ℕ) → Safe who (queue_reply rep atyp addr port)
  unfolding queue_reply
  Safe-queue_reply rep atyp addr port = search safe_rules depth 15

  Safe-set_server_addr : (ss : Sockaddr) → Safe who (modify (set_server_addr ss))
  unfolding modify
  Safe-set_server_addr ss = record { at = λ w h. ground arith }

  Ends-announce : (self : Fd) → Ends who (announce os who self)
  unfolding announce
  Ends-announce self = search (ends_rules, safe_rules, Ends-fail_with) depth 20

  Ends-next_address : (self : Fd) (error : ℕ) → Ends who (next_address os who self error)
  unfolding next_address
  Ends-next_address self error = search (ends_rules, safe_rules, Ends-fail_with) depth 20

  Ends-connection_made : (self : Fd) (ss : Sockaddr) → Ends who (connection_made os who self ss)
  unfolding connection_made
  Ends-connection_made self (inet port addr) =
      search (ends_rules, safe_rules, Safe-set_server_addr, Safe-queue_reply, Ends-announce) depth
        20
  Ends-connection_made self (inet6 port addr) =
      search (ends_rules, safe_rules, Safe-set_server_addr, Safe-queue_reply, Ends-announce) depth
        20
  Ends-connection_made self (other f) =
      search (ends_rules, safe_rules, Safe-set_server_addr, Ends-next_address) depth 20

  Ends-connection_error : (self : Fd) (error : ℕ) → Ends who (connection_error os who self error)
  unfolding connection_error
  Ends-connection_error self zero =
      search (ends_rules, safe_rules, Ends-connection_made, Ends-fail_with) depth 20
  Ends-connection_error self (suc e) = Ends-next_address self (suc e)

  pub Ends-connecting : (ev : Events) → Ends who (connecting os who ev)
  unfolding connecting
  Ends-connecting ev =
      search (ends_rules, safe_rules, Ends-connection_error, Ends-fail_with) depth 20

  Ends-bind_reply : (atyp : ℕ) (addr port : List ℕ) → Ends who (bind_reply os who atyp addr port)
  unfolding bind_reply
  Ends-bind_reply atyp addr port =
      search (ends_rules, safe_rules, Safe-queue_reply, Ends-fail_with) depth 20

  Ends-bind_reply_for : (ss : Sockaddr) → Ends who (bind_reply_for os who ss)
  unfolding bind_reply_for
  Ends-bind_reply_for (inet port addr) = Ends-bind_reply _ addr port
  Ends-bind_reply_for (inet6 port addr) = Ends-bind_reply _ addr port
  Ends-bind_reply_for (other f) = search (ends_rules, safe_rules, Ends-fail_with) depth 20

Safe-replace_fd : (who : Side) (fd : Fd) → Safe who (replace_fd who fd)
unfolding replace_fd
Safe-replace_fd client fd = record { at = λ w h. ground arith }
Safe-replace_fd server fd = record { at = λ w h. ground arith }

module _ (os : Os) (who : Side) where
  Ends-take_peer : (self new_fd : Fd) (ss : Sockaddr) → Ends who (take_peer os who self new_fd ss)
  unfolding take_peer
  Ends-take_peer self new_fd ss =
      search (ends_rules, safe_rules, Safe-replace_fd, Ends-bind_reply_for, Ends-fail_with) depth 20

  Ends-check_peer : (self new_fd : Fd) (ss : Sockaddr) → Ends who (check_peer os who self new_fd ss)
  unfolding check_peer
  Ends-check_peer self new_fd ss =
      search (ends_rules, safe_rules, Safe-set_server_addr os, Ends-take_peer, Ends-fail_with) depth
        20

  pub Ends-bindlistening : (ev : Events) → Ends who (bindlistening os who ev)
  unfolding bindlistening
  Ends-bindlistening ev = search (ends_rules, safe_rules, Ends-check_peer, Ends-fail_with) depth 20

  pub Ends-closed : Ends who (closed who)
  unfolding closed
  Ends-closed = search (ends_rules, safe_rules) depth 20

  pub Ends-half_close : Ends who half_close
  unfolding half_close
  Ends-half_close = search (ends_rules, safe_rules)
