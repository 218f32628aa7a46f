-- ===== src/Net/Keeps.antt =====
-- The rules of `Keeps` for the functions of src/net.c.
use socksprox.Address.{
  Family, af_inet, af_inet6, Sockaddr, inet, inet6, other, AddrInfo, SockaddrNode,
}
use socksprox.Base.{ℕ, Bool, true, ◌≡◌, List, [], ◌∷◌, Option, none, some, arith}
use socksprox.Config.{Configs}
use socksprox.Conn.Keeps.Calls.{keeps_rules}
use socksprox.Conn.Keeps.{Keeps, Keeps-modify}
use socksprox.Conn.Monad.{M, modify}
use socksprox.Conn.{State, Fd, Side, client, server, Os}
use socksprox.Net.Traffic.{
  raise, peek_out, consume_out, write_out, send_side, send_traffic, read_side, read_traffic,
}
use socksprox.Net.{
  attach_server, queue_reply, await_connection, start_connection, connect_target, init_connect,
  advertise, await_reply, close_with, bind_socket, bind_family, init_bind, udpa_socket, udpa_family,
  init_udpa,
}

module _ {ok : State → Bool} where
  Keeps-attach_server : (sfd : Fd) → Keeps ok (attach_server sfd)
  unfolding attach_server
  Keeps-attach_server sfd = record { at = λ w h. ground arith }

  pub Keeps-queue_reply :
      (rep atyp : ℕ) (addr port : List ℕ) → Keeps ok (queue_reply rep atyp addr port)
  unfolding queue_reply
  Keeps-queue_reply rep atyp addr port = search keeps_rules depth 15

  Keeps-close_with : (sfd : Fd) (rep : ℕ) → Keeps ok (close_with sfd rep)
  unfolding close_with
  Keeps-close_with sfd rep = search keeps_rules depth 15

module _ {ok : State → Bool} (can_connect : ok State.connecting ≡ true) (os : Os) where
  Keeps-await_connection : (sfd : Fd) → Keeps ok (await_connection os sfd)
  unfolding await_connection
  Keeps-await_connection sfd = search (keeps_rules, Keeps-attach_server {ok = ok}) depth 20

  Keeps-start_connection :
      (af : Family) (addr : Sockaddr) (after : M (Unit {0}))
      → Keeps ok after
      → Keeps ok (start_connection os af addr after)
  unfolding start_connection
  Keeps-start_connection af addr after ka = search (keeps_rules, Keeps-await_connection) depth 20

  Keeps-connect_target :
      (sa : Option Sockaddr) (ai : List AddrInfo) → Keeps ok (connect_target os sa ai)
  unfolding connect_target
  Keeps-connect_target none [] = search keeps_rules
  Keeps-connect_target none (a ∷ more) = search (keeps_rules, Keeps-start_connection)
  Keeps-connect_target (some (inet port addr)) ai = search (keeps_rules, Keeps-start_connection)
  Keeps-connect_target (some (inet6 port addr)) ai = search (keeps_rules, Keeps-start_connection)
  Keeps-connect_target (some (other f)) ai = Keeps-await_connection none

  pub Keeps-init_connect : Keeps ok (init_connect os)
  unfolding init_connect
  Keeps-init_connect = search (keeps_rules, Keeps-connect_target)

module _ {ok : State → Bool} (can_reply : ok State.sending_reply ≡ true) (os : Os) where
  Keeps-advertise :
      (af : Family) (addr port addr6 port6 : List ℕ)
      → Keeps ok (advertise os af addr port addr6 port6)
  unfolding advertise
  Keeps-advertise af_inet addr port addr6 port6 =
      search (keeps_rules, Keeps-queue_reply {ok = ok}) depth 15
  Keeps-advertise af_inet6 addr port addr6 port6 =
      search (keeps_rules, Keeps-queue_reply {ok = ok}) depth 15
  Keeps-advertise (Family.af_other f) addr port addr6 port6 = search keeps_rules depth 15

  Keeps-await_reply : (sfd : Fd) (told : Bool) → Keeps ok (await_reply os sfd told)
  unfolding await_reply
  Keeps-await_reply sfd told = search keeps_rules depth 15

  Keeps-bind_socket :
      (af : Family) (sfd : Fd) (l a : SockaddrNode) → Keeps ok (bind_socket os af sfd l a)
  unfolding bind_socket
  Keeps-bind_socket af sfd l a =
      search
        (
          keeps_rules,
          Keeps-attach_server {ok = ok},
          Keeps-close_with {ok = ok},
          Keeps-advertise,
          Keeps-await_reply,
        )
        depth 25

  Keeps-bind_family : (af : Family) (configs : Configs) → Keeps ok (bind_family os af configs)
  unfolding bind_family
  Keeps-bind_family af configs =
      search (keeps_rules, Keeps-close_with {ok = ok}, Keeps-bind_socket) depth 20

  pub Keeps-init_bind : (configs : Configs) → Keeps ok (init_bind os configs)
  unfolding init_bind
  Keeps-init_bind configs = search (keeps_rules, Keeps-bind_family) depth 15

  Keeps-udpa_socket :
      (af : Family) (sfd : Fd) (l a : SockaddrNode) → Keeps ok (udpa_socket os af sfd l a)
  unfolding udpa_socket
  Keeps-udpa_socket af sfd l a =
      search
        (
          keeps_rules,
          Keeps-attach_server {ok = ok},
          Keeps-close_with {ok = ok},
          Keeps-advertise,
          Keeps-await_reply,
        )
        depth 25

  Keeps-udpa_family : (af : Family) (configs : Configs) → Keeps ok (udpa_family os af configs)
  unfolding udpa_family
  Keeps-udpa_family af configs =
      search (keeps_rules, Keeps-close_with {ok = ok}, Keeps-udpa_socket) depth 20

  pub Keeps-init_udpa : (configs : Configs) → Keeps ok (init_udpa os configs)
  unfolding init_udpa
  Keeps-init_udpa configs = search (keeps_rules, Keeps-udpa_family) depth 15

module _ {ok : State → Bool} (os : Os) where
  Keeps-raise : (who : Side) (flag : ℕ) → Keeps ok (modify (raise who flag))
  Keeps-raise client flag = Keeps-modify _ (λ sh h. record {
    state_in = h.state_in;
    client_valid = h.client_valid;
    server_valid = h.server_valid;
  })
  Keeps-raise server flag = Keeps-modify _ (λ sh h. record {
    state_in = h.state_in;
    client_valid = h.client_valid;
    server_valid = h.server_valid;
  })

  Keeps-peek_out : (who : Side) (n : ℕ) → Keeps ok (peek_out who n)
  unfolding peek_out
  Keeps-peek_out client n = search keeps_rules
  Keeps-peek_out server n = search keeps_rules

  Keeps-consume_out : (who : Side) (n : ℕ) → Keeps ok (consume_out who n)
  unfolding consume_out
  Keeps-consume_out client n = search keeps_rules
  Keeps-consume_out server n = search keeps_rules

  Keeps-write_out : (who : Side) (xs : List ℕ) → Keeps ok (write_out who xs)
  unfolding write_out
  Keeps-write_out client xs = search keeps_rules
  Keeps-write_out server xs = search keeps_rules

  Keeps-send_side : (fd : Fd) (who : Side) → Keeps ok (send_side os fd who)
  unfolding send_side
  Keeps-send_side fd who =
      search (keeps_rules, Keeps-raise, Keeps-peek_out, Keeps-consume_out) depth 20

  pub Keeps-send_traffic : (fd : Fd) → Keeps ok (send_traffic os fd)
  unfolding send_traffic
  Keeps-send_traffic fd = search (keeps_rules, Keeps-send_side) depth 15

  Keeps-read_side : (fd : Fd) (who : Side) → Keeps ok (read_side os fd who)
  unfolding read_side
  Keeps-read_side fd who = search (keeps_rules, Keeps-raise, Keeps-write_out) depth 20

  pub Keeps-read_traffic : (fd : Fd) → Keeps ok (read_traffic os fd)
  unfolding read_traffic
  Keeps-read_traffic fd = search (keeps_rules, Keeps-read_side) depth 15
