-- ===== src/Conn/Alive/Calls.antt =====
-- The rules of `Safe` for the calls of the system and the `ep_` functions.
use socksprox.Address.{Sockaddr}
use socksprox.Base.{ℕ, List, Option}
use socksprox.Conn.Alive.Free.{Ends-free_data}
use socksprox.Conn.Alive.{Safe, alive_rules}
use socksprox.Conn.Epoll.{ep_add_new_client, ep_waiting_send, ep_done_sending}
use socksprox.Conn.Monad.{recv, send, epoll_ctl, connect, accept, getsockname, getsockopt}
use socksprox.Conn.{Fd, Side, Os}

module _ {who : Side} (os : Os) where
  pub Safe-recv : (fd : Fd) (n : ℕ) → Safe who (recv os fd n)
  unfolding recv
  Safe-recv fd n = search alive_rules

  pub Safe-send : (fd : Fd) (xs : List ℕ) → Safe who (send os fd xs)
  unfolding send
  Safe-send fd xs = search alive_rules

  pub Safe-connect : (fd : Fd) (sa : Sockaddr) → Safe who (connect os fd sa)
  unfolding connect
  Safe-connect fd sa = search alive_rules

  pub Safe-accept : (fd : Fd) → Safe who (accept os fd)
  unfolding accept
  Safe-accept fd = search alive_rules

  pub Safe-getsockname : (fd : Fd) → Safe who (getsockname os fd)
  unfolding getsockname
  Safe-getsockname fd = search alive_rules

  pub Safe-getsockopt : (fd : Fd) → Safe who (getsockopt os fd)
  unfolding getsockopt
  Safe-getsockopt fd = search alive_rules

  pub Safe-ep_add_new_client : (fd : Fd) (p : Option Side) → Safe who (ep_add_new_client os fd p)
  unfolding ep_add_new_client epoll_ctl
  Safe-ep_add_new_client fd p = search alive_rules

  pub Safe-ep_waiting_send : (fd : Fd) (p : Option Side) → Safe who (ep_waiting_send os fd p)
  unfolding ep_waiting_send epoll_ctl
  Safe-ep_waiting_send fd p = search alive_rules

  pub Safe-ep_done_sending : (fd : Fd) (p : Option Side) → Safe who (ep_done_sending os fd p)
  unfolding ep_done_sending epoll_ctl
  Safe-ep_done_sending fd p = search alive_rules

pub ruleset safe_rules = (
  alive_rules, Ends-free_data, Safe-recv, Safe-send, Safe-connect, Safe-accept, Safe-getsockname,
  Safe-getsockopt, Safe-ep_add_new_client, Safe-ep_waiting_send, Safe-ep_done_sending,
)
