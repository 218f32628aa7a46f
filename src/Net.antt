-- ===== src/Net.antt =====
-- src/net.c: the commands' sockets, and the traffic of an established connection.
pub mod Accept
pub mod Accepted
pub mod Traffic
pub mod Keeps
pub mod Forward
pub mod Sending
pub mod Defined
use socksprox.Address.{
  Family, af_inet, af_inet6, same_family, Sockaddr, inet, inet6, other, sa_family, AddrInfo,
  ai_family, SockaddrNode,
}
use socksprox.Base.{
  ℕ, Bool, true, false, not, List, [], ◌∷◌, ◌++◌, Option, none, some, slice, if◌then◌else◌,
}
use socksprox.Config.{Configs}
use socksprox.Conn.Epoll.{
  l_mallocerror, pointer_of, ep_add_new_client, ep_connecting, ep_waiting_send,
}
use socksprox.Conn.Monad.{
  M, ◌>>=◌, on_option, on_refused, ◌>>◌, pure, load, modify, set_state, load_info, modify_info,
  set_rep, write_client_out, consume_server_out, log_error, close_fd, fd_nonblocking, socket,
  datagram_socket, connect, bind, listen, getsockname, malloc,
}
use socksprox.Conn.{
  State, Fd, Side, client, server, Info, Shared, Outcome, connected, in_progress, refused, Os,
  World,
}

abbrev pub outbuffsize : ℕ
outbuffsize = 4096

abbrev pub socks5_version : ℕ
socks5_version = 0x05

abbrev pub socks5_resv : ℕ
socks5_resv = 0x00

abbrev pub atyp_ipv4 : ℕ
atyp_ipv4 = 0x01

abbrev pub atyp_domn : ℕ
atyp_domn = 0x03

abbrev pub atyp_ipv6 : ℕ
atyp_ipv6 = 0x04

abbrev pub rep_success : ℕ
rep_success = 0x00

abbrev pub rep_genfail : ℕ
rep_genfail = 0x01

abbrev pub rep_badatyp : ℕ
rep_badatyp = 0x08

-- `data = malloc(…)` with its fields, and the pointers to it in `shared`.
unfoldable pub attach_server : Fd → M (Unit {0})
attach_server sfd w =
    if w.shared_live
    then some (
      tt,
      record w {
        shared = record w.shared { server_data = true; server_fd = sfd };
        server_self = sfd;
        server_live = true;
      },
    )
    else none

-- The port of an address that is read as `struct sockaddr_in` or `sockaddr_in6`. A third family
-- does not occur: the name of a socket has the socket's family.
abbrev pub port_of : Sockaddr → List ℕ
port_of (inet port addr) = port
port_of (inet6 port addr) = port
port_of (other f) = []

abbrev pub addr_of : Sockaddr → List ℕ
addr_of (inet port addr) = addr
addr_of (inet6 port addr) = addr
addr_of (other f) = []

-- The first three bytes of a reply, then type, address and port, each by a call of its own. The
-- results of the calls are not looked at.
unfoldable pub queue_reply : ℕ → ℕ → List ℕ → List ℕ → M (Unit {0})
queue_reply rep atyp addr port = do
  _ ← write_client_out (socks5_version ∷ rep ∷ socks5_resv ∷ [])
  _ ← write_client_out (atyp ∷ [])
  _ ← write_client_out addr
  _ ← write_client_out port
  pure tt

-- The first address of a family in a list of addresses to listen on or to advertise.
unfoldable pub find_family : Family → List SockaddrNode → Option SockaddrNode
find_family af [] = none
find_family af (node ∷ next) =
    let rest = find_family af next in if same_family (sa_family node.sa) af then some node else rest

unfoldable pub close_with : Fd → ℕ → M (Unit {0})
close_with sfd rep = do set_rep rep; close_fd sfd

module _ (os : Os) where
  -- The end of `init_connect`, from the allocation of the server's `Data` on.
  unfoldable pub await_connection : Fd → M (Unit {0})
  await_connection sfd = do
    got ← malloc os
    if not got then (do log_error l_mallocerror; set_rep rep_genfail) else (do
      attach_server sfd
      _ ← consume_server_out outbuffsize
      ok ← ep_connecting os sfd (some server)
      if not ok then set_rep rep_genfail else set_state State.connecting)

  -- A socket of the family, and the start of its connection; `after` runs before the rest.
  unfoldable pub start_connection : Family → Sockaddr → M (Unit {0}) → M (Unit {0})
  start_connection af addr after = do
    sfd ← socket os af
    on_option sfd (set_rep rep_genfail) λ n. do
      fd_nonblocking (some n)
      result ← connect os (some n) addr
      on_refused result (set_rep rep_genfail) (do after; await_connection (some n))

  unfoldable pub connect_target : Option Sockaddr → List AddrInfo → M (Unit {0})
  connect_target none [] = set_rep rep_genfail
  connect_target none (a ∷ more) =
      start_connection (ai_family a) a.ai_addr (modify_info (λ i. record i { ai_index = 0 }))
  connect_target (some (inet port addr)) ai = start_connection af_inet (inet port addr) (pure tt)
  connect_target (some (inet6 port addr)) ai = start_connection af_inet6 (inet6 port addr) (pure tt)
  connect_target (some (other f)) ai = await_connection none

  unfoldable pub init_connect : M (Unit {0})
  init_connect = do info ← load_info; connect_target info.sa info.ai

  -- The reply's address type goes with the family of the request.
  unfoldable pub advertise : Family → List ℕ → List ℕ → List ℕ → List ℕ → M Bool
  advertise af_inet addr port addr6 port6 = do
    queue_reply rep_success atyp_ipv4 addr port
    sh ← load
    ep_waiting_send os sh.client_fd (pointer_of client sh)
  advertise af_inet6 addr port addr6 port6 = do
    queue_reply rep_success atyp_ipv6 addr6 port6
    sh ← load
    ep_waiting_send os sh.client_fd (pointer_of client sh)
  advertise (Family.af_other f) addr port addr6 port6 = do
    _ ← write_client_out (socks5_version ∷ rep_success ∷ socks5_resv ∷ [])
    pure true

  -- The end of `init_bind` and of `init_udpa`.
  unfoldable pub await_reply : Fd → Bool → M (Unit {0})
  await_reply sfd told = if not told then set_rep rep_genfail else (do
    _ ← consume_server_out outbuffsize
    ok ← ep_add_new_client os sfd (some server)
    if not ok
        then (do set_rep rep_genfail; set_state State.sending_reply)
        else set_state State.sending_reply)

  unfoldable pub bind_socket : Family → Fd → SockaddrNode → SockaddrNode → M (Unit {0})
  bind_socket af sfd listen_addr advertise_addr = do
    bound ← bind os sfd listen_addr.sa
    if not bound then close_with sfd rep_genfail else (do
      listening ← listen os sfd
      if not listening then close_with sfd rep_genfail else (do
        got ← malloc os
        if not got then (do log_error l_mallocerror; close_with sfd rep_genfail) else (do
          attach_server sfd
          name ← getsockname os sfd
          on_option name (close_with sfd rep_genfail) λ ss. do
            set_rep rep_success
            told ←
                advertise af (addr_of advertise_addr.sa) (port_of ss) (addr_of advertise_addr.sa)
                  (port_of ss)
            await_reply sfd told)))

  unfoldable pub bind_family : Family → Configs → M (Unit {0})
  bind_family af configs = do
    sfd ← socket os af
    on_option sfd (set_rep rep_genfail) λ n. do
      fd_nonblocking (some n)
      on_option (find_family af configs.bind_listen) (close_with (some n) rep_badatyp)
          λ listen_addr.
            on_option (find_family af configs.bind_advertise) (close_with (some n) rep_badatyp)
              λ advertise_addr. bind_socket af (some n) listen_addr advertise_addr

  unfoldable pub udpa_socket : Family → Fd → SockaddrNode → SockaddrNode → M (Unit {0})
  udpa_socket af sfd listen_addr advertise_addr = do
    bound ← bind os sfd listen_addr.sa
    if not bound then close_with sfd rep_genfail else (do
      got ← malloc os
      if not got then (do log_error l_mallocerror; close_with sfd rep_genfail) else (do
        attach_server sfd
        set_rep rep_success
        told ←
            advertise af (slice advertise_addr.raw 4 4) (slice advertise_addr.raw 2 2)
              (slice advertise_addr.raw 8 16) (slice advertise_addr.raw 2 2)
        await_reply sfd told))

  -- The address that is sent is read from the list's node itself, `(struct sockaddr_in *)
  -- advertise_addr`, and not from the address that the node points to.
  unfoldable pub udpa_family : Family → Configs → M (Unit {0})
  udpa_family af configs = do
    sfd ← datagram_socket os af
    on_option sfd (set_rep rep_genfail) λ n.
        on_option (find_family af configs.udpa_listen) (close_with (some n) rep_badatyp)
          λ listen_addr.
            on_option (find_family af configs.udpa_advertise) (close_with (some n) rep_badatyp)
              λ advertise_addr. udpa_socket af (some n) listen_addr advertise_addr

  -- The family of the request's address, `none` where there is no address.
  abbrev pub request_family : Option Sockaddr → List AddrInfo → Option Family
  request_family (some sa) ai = some (sa_family sa)
  request_family none (a ∷ more) = some (ai_family a)
  request_family none [] = none

  unfoldable pub init_bind : Configs → M (Unit {0})
  init_bind configs = do
    info ← load_info
    on_option (request_family info.sa info.ai) (set_rep rep_genfail) λ af. bind_family af configs

  unfoldable pub init_udpa : Configs → M (Unit {0})
  init_udpa configs = do
    info ← load_info
    on_option (request_family info.sa info.ai) (set_rep rep_genfail) λ af. udpa_family af configs
