-- ===== src/Conn/Keeps/Calls.antt =====
-- The rules of `Keeps` for the logs, the calls of the system, the `ep_` functions and `free_data`.
use socksprox.Address.{Family, Sockaddr}
use socksprox.Base.{ℕ, Bool, refl, List, Option, arith}
use socksprox.Conn.Epoll.{
  ep_add_new_client, ep_connecting, ep_waiting_send, ep_done_sending, ep_delete_fd, clear_pointers,
  free_side, free_shared, free_data,
}
use socksprox.Conn.Keeps.{Inv, Keeps, Keeps-bind, Keeps-modify, keeps_core}
use socksprox.Conn.Monad.{
  modify, log_access, log_error, close_fd, fd_nonblocking, recv, send, epoll_ctl, socket,
  datagram_socket, connect, bind, listen, accept, getsockname, getsockopt, malloc,
}
use socksprox.Conn.{State, Fd, Side, client, server, Call, Os}

module _ {ok : State → Bool} where
  pub Keeps-log_access : (code : ℕ) → Keeps ok (log_access code)
  unfolding log_access
  Keeps-log_access code = search keeps_core

  pub Keeps-log_error : (code : ℕ) → Keeps ok (log_error code)
  unfolding log_error
  Keeps-log_error code = search keeps_core

  pub Keeps-close_fd : (fd : Fd) → Keeps ok (close_fd fd)
  unfolding close_fd
  Keeps-close_fd fd = search keeps_core

  pub Keeps-fd_nonblocking : (fd : Fd) → Keeps ok (fd_nonblocking fd)
  unfolding fd_nonblocking
  Keeps-fd_nonblocking fd = search keeps_core

  pub Keeps-ep_delete_fd : (fd : Fd) → Keeps ok (ep_delete_fd fd)
  unfolding ep_delete_fd
  Keeps-ep_delete_fd fd = search keeps_core

  Keeps-clear : (fd : Fd) → Keeps ok (modify (clear_pointers fd))
  Keeps-clear fd =
      Keeps-modify _
        (λ sh h. record { state_in = h.state_in; client_valid = refl; server_valid = refl })

  Keeps-free_shared : Keeps ok free_shared
  unfolding free_shared
  Keeps-free_shared = record { at = λ w h. ground arith }

  Keeps-free_side : (who : Side) → Keeps ok (free_side who)
  unfolding free_side
  Keeps-free_side client = record { at = λ w h. ground arith }
  Keeps-free_side server = record { at = λ w h. ground arith }

  pub Keeps-free_data : (who : Side) → Keeps ok (free_data who)
  unfolding free_data
  Keeps-free_data who = search (keeps_core, Keeps-clear, Keeps-free_shared, Keeps-free_side)

module _ {ok : State → Bool} (os : Os) where
  pub Keeps-recv : (fd : Fd) (n : ℕ) → Keeps ok (recv os fd n)
  unfolding recv
  Keeps-recv fd n = search keeps_core

  pub Keeps-send : (fd : Fd) (xs : List ℕ) → Keeps ok (send os fd xs)
  unfolding send
  Keeps-send fd xs = search keeps_core

  pub Keeps-epoll_ctl : (c : Call) → Keeps ok (epoll_ctl os c)
  unfolding epoll_ctl
  Keeps-epoll_ctl c = search keeps_core

  pub Keeps-socket : (af : Family) → Keeps ok (socket os af)
  unfolding socket
  Keeps-socket af = search keeps_core

  pub Keeps-datagram_socket : (af : Family) → Keeps ok (datagram_socket os af)
  unfolding datagram_socket
  Keeps-datagram_socket af = search keeps_core

  pub Keeps-connect : (fd : Fd) (sa : Sockaddr) → Keeps ok (connect os fd sa)
  unfolding connect
  Keeps-connect fd sa = search keeps_core

  pub Keeps-bind_call : (fd : Fd) (sa : Sockaddr) → Keeps ok (bind os fd sa)
  unfolding bind
  Keeps-bind_call fd sa = search keeps_core

  pub Keeps-listen : (fd : Fd) → Keeps ok (listen os fd)
  unfolding listen
  Keeps-listen fd = search keeps_core

  pub Keeps-accept : (fd : Fd) → Keeps ok (accept os fd)
  unfolding accept
  Keeps-accept fd = search keeps_core

  pub Keeps-getsockname : (fd : Fd) → Keeps ok (getsockname os fd)
  unfolding getsockname
  Keeps-getsockname fd = search keeps_core

  pub Keeps-getsockopt : (fd : Fd) → Keeps ok (getsockopt os fd)
  unfolding getsockopt
  Keeps-getsockopt fd = search keeps_core

  pub Keeps-malloc : Keeps ok (malloc os)
  unfolding malloc
  Keeps-malloc = search keeps_core

  pub Keeps-ep_add_new_client : (fd : Fd) (p : Option Side) → Keeps ok (ep_add_new_client os fd p)
  unfolding ep_add_new_client
  Keeps-ep_add_new_client fd p = search (keeps_core, Keeps-epoll_ctl, Keeps-log_error)

  pub Keeps-ep_connecting : (fd : Fd) (p : Option Side) → Keeps ok (ep_connecting os fd p)
  unfolding ep_connecting
  Keeps-ep_connecting fd p = search (keeps_core, Keeps-epoll_ctl, Keeps-log_error)

  pub Keeps-ep_waiting_send : (fd : Fd) (p : Option Side) → Keeps ok (ep_waiting_send os fd p)
  unfolding ep_waiting_send
  Keeps-ep_waiting_send fd p = search (keeps_core, Keeps-epoll_ctl, Keeps-log_error)

  pub Keeps-ep_done_sending : (fd : Fd) (p : Option Side) → Keeps ok (ep_done_sending os fd p)
  unfolding ep_done_sending
  Keeps-ep_done_sending fd p = search (keeps_core, Keeps-epoll_ctl, Keeps-log_error)

pub ruleset keeps_rules = (
  keeps_core, Keeps-log_access, Keeps-log_error, Keeps-close_fd, Keeps-fd_nonblocking,
  Keeps-ep_delete_fd, Keeps-free_data, Keeps-recv, Keeps-send, Keeps-socket, Keeps-datagram_socket,
  Keeps-connect, Keeps-bind_call, Keeps-listen, Keeps-accept, Keeps-getsockname, Keeps-getsockopt,
  Keeps-malloc, Keeps-ep_add_new_client, Keeps-ep_connecting, Keeps-ep_waiting_send,
  Keeps-ep_done_sending,
)
