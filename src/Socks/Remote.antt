-- ===== src/Socks/Remote.antt =====
-- `connecting` and `bindlistening` of src/socks.c: the connection to the requested host, and the
-- connection from it.
use socksprox.Address.{af_other, same_family, Sockaddr, inet, inet6, other, AddrInfo}
use socksprox.Base.Bytes.{equal_bytes}
use socksprox.Base.{
  ℕ, zero, suc, ◌+◌, Bool, true, false, not, ◌&&◌, List, [], ◌∷◌, Option, none, some, bit_and, ◌==◌,
  if◌then◌else◌,
}
use socksprox.Conn.Epoll.{
  pointer_of, ep_add_new_client, ep_waiting_send, ep_done_sending, ep_delete_fd,
}
use socksprox.Conn.Monad.{
  M, ◌>>=◌, on_option, ◌>>◌, pure, load, modify, set_state, load_self, load_info, modify_info,
  set_rep, write_client_out, log_error, close_fd, connect, accept, getsockname, getsockopt,
}
use socksprox.Conn.{State, Fd, Side, client, server, Shared, Events, Os}
use socksprox.Net.{
  socks5_version, socks5_resv, atyp_ipv4, atyp_ipv6, rep_success, rep_genfail, queue_reply,
}
use socksprox.Socks.Handshake.{is_for}
use socksprox.Socks.Reply.{fail_with, rep_ruleset}

abbrev pub rep_nunrech : ℕ
rep_nunrech = 0x03

abbrev pub rep_hunrech : ℕ
rep_hunrech = 0x04

abbrev pub rep_refused : ℕ
rep_refused = 0x05

abbrev pub rep_ttlexpr : ℕ
rep_ttlexpr = 0x06

abbrev pub l_getsockoptfail : ℕ
l_getsockoptfail = 0x12

abbrev pub l_getsocknamefail : ℕ
l_getsocknamefail = 0x13

-- The loop to the entry of index `i`.
abbrev pub nth_address : List AddrInfo → ℕ → Option AddrInfo
nth_address [] i = none
nth_address (a ∷ more) zero = some a
nth_address (a ∷ more) (suc i) = nth_address more i

-- `info->ai && info->ai->ai_next`
abbrev pub has_next : List AddrInfo → Bool
has_next (a ∷ b ∷ more) = true
has_next _ = false

-- `memcpy(access->server, &ss, …)`
abbrev pub set_server_addr : Sockaddr → Shared → Shared
set_server_addr ss sh = record sh { server_addr = some ss }

-- The address and the port of the one are those of the other.
abbrev pub same_endpoint : Sockaddr → Sockaddr → Bool
same_endpoint (inet port addr) (inet port' addr') = equal_bytes port port' && equal_bytes addr addr'
same_endpoint (inet6 port addr) (inet6 port' addr') =
    equal_bytes port port' && equal_bytes addr addr'
same_endpoint (other f) (other g) = same_family (af_other f) (af_other g)
same_endpoint _ _ = false

-- The address that the client asked for, or the first that its domain name resolved to.
abbrev pub requested : Option Sockaddr → List AddrInfo → Option Sockaddr
requested (some sa) ai = some sa
requested none (a ∷ more) = some a.ai_addr
requested none [] = none

-- `data->self_fd = new_fd; shared->server_fd = new_fd;`
unfoldable pub replace_fd : Side → Fd → M (Unit {0})
replace_fd client fd w =
    if w.client_live && w.shared_live
    then some (tt, record w { client_self = fd; shared = record w.shared { server_fd = fd } })
    else none
replace_fd server fd w =
    if w.server_live && w.shared_live
    then some (tt, record w { server_self = fd; shared = record w.shared { server_fd = fd } })
    else none

module _ (os : Os) where
  -- The reply code of an error of the connection: bits in common with an error number count.
  unfoldable pub connect_rep : ℕ → ℕ
  connect_rep error =
      if not (bit_and error os.enetunreach == 0)
      then rep_nunrech
      else if not (bit_and error os.ehostunreach == 0)
      then rep_hunrech
      else if not (bit_and error os.etimedout == 0)
      then rep_ttlexpr
      else if not (bit_and error os.econnrefused == 0)
      then rep_refused
      else rep_genfail

  -- The two registrations behind a success reply.
  unfoldable pub announce : Side → Fd → M (Unit {0})
  announce who self = do
    sh ← load
    waiting ← ep_waiting_send os sh.client_fd (pointer_of client sh)
    if not waiting then fail_with os who rep_genfail else (do
      done ← ep_done_sending os self (some who)
      if not done then fail_with os who rep_genfail else pure tt)

  -- The next address of the list, or the reply for the error.
  unfoldable pub next_address : Side → Fd → ℕ → M (Unit {0})
  next_address who self error = do
    info ← load_info
    if has_next info.ai
        then (do
          modify_info (λ i. record i { ai_index = i.ai_index + 1 })
          on_option (nth_address info.ai (info.ai_index + 1)) (fail_with os who (connect_rep error))
              λ a. do _ ← connect os self a.ai_addr; pure tt)
        else fail_with os who (connect_rep error)

  -- A name of a third family falls through to the code for errors.
  unfoldable pub connection_made : Side → Fd → Sockaddr → M (Unit {0})
  connection_made who self (inet port addr) = do
    modify (set_server_addr (inet port addr))
    set_state State.sending_reply
    queue_reply rep_success atyp_ipv4 addr port
    announce who self
  connection_made who self (inet6 port addr) = do
    modify (set_server_addr (inet6 port addr))
    set_state State.sending_reply
    queue_reply rep_success atyp_ipv6 addr port
    announce who self
  connection_made who self (other f) = do
    modify (set_server_addr (other f))
    _ ← write_client_out (socks5_version ∷ rep_success ∷ socks5_resv ∷ [])
    set_state State.sending_reply
    next_address who self 0

  unfoldable pub connection_error : Side → Fd → ℕ → M (Unit {0})
  connection_error who self (suc e) = next_address who self (suc e)
  connection_error who self zero = do
    set_rep rep_success
    name ← getsockname os self
    on_option name (do log_error l_getsocknamefail; fail_with os who rep_genfail)
        λ ss. connection_made who self ss

  unfoldable pub connecting : Side → Events → M (Unit {0})
  connecting who ev = do
    sh ← load
    self ← load_self who
    if is_for ev.epollout self sh.server_fd
        then (do
          result ← getsockopt os self
          on_option result (do log_error l_getsockoptfail; fail_with os who rep_genfail)
              λ error. connection_error who self error)
        else pure tt

  -- The second reply of `bind`, sent for the peer `ss`.
  unfoldable pub bind_reply : Side → ℕ → List ℕ → List ℕ → M (Unit {0})
  bind_reply who atyp addr port = do
    queue_reply rep_success atyp addr port
    sh ← load
    ok ← ep_waiting_send os sh.client_fd (pointer_of client sh)
    if not ok then fail_with os who rep_genfail else set_state State.sending_reply_2

  unfoldable pub bind_reply_for : Side → Sockaddr → M (Unit {0})
  bind_reply_for who (inet port addr) = bind_reply who atyp_ipv4 addr port
  bind_reply_for who (inet6 port addr) = bind_reply who atyp_ipv6 addr port
  bind_reply_for who (other f) = do
    _ ← write_client_out (socks5_version ∷ rep_success ∷ socks5_resv ∷ [])
    fail_with os who rep_genfail

  -- The listener is closed, and the peer's connection takes its place.
  unfoldable pub take_peer : Side → Fd → Fd → Sockaddr → M (Unit {0})
  take_peer who self new_fd ss = do
    close_fd self
    ep_delete_fd self
    replace_fd who new_fd
    ok ← ep_add_new_client os new_fd (some who)
    if not ok then fail_with os who rep_genfail else (do set_rep rep_success; bind_reply_for who ss)

  unfoldable pub check_peer : Side → Fd → Fd → Sockaddr → M (Unit {0})
  check_peer who self new_fd ss = do
    modify (set_server_addr ss)
    info ← load_info
    on_option (requested info.sa info.ai) (fail_with os who rep_genfail) λ req_addr.
        if same_endpoint req_addr ss
        then take_peer who self new_fd ss
        else fail_with os who rep_ruleset

  unfoldable pub bindlistening : Side → Events → M (Unit {0})
  bindlistening who ev = do
    sh ← load
    self ← load_self who
    if is_for ev.epollin self sh.server_fd
        then (do
          result ← accept os self
          on_option result (fail_with os who rep_genfail)
              λ peer. check_peer who self (some peer.0) peer.1)
        else pure tt
