-- ===== src/Socks/Established.antt =====
-- `sendingreply`, `full`, `full_udpa`, `half_close` and `closed` of src/socks.c.
use socksprox.Base.{ℕ, zero, suc, not, Option, none, some, ◌==◌, if◌then◌else◌}
use socksprox.Conn.Epoll.{pointer_of, ep_waiting_send, ep_done_sending, ep_delete_fd, free_data}
use socksprox.Conn.Monad.{
  M, ◌>>=◌, ◌>>◌, pure, load, set_state, load_self, load_info, set_rep, log_access, close_fd,
}
use socksprox.Conn.{State, Fd, same_fd, Side, client, server, Events, Os}
use socksprox.Firewall.{cmd_udpa}
use socksprox.Net.Traffic.{send_traffic, read_traffic}
use socksprox.Net.{rep_success}
use socksprox.Socks.Handshake.{is_for, send_pending}
use socksprox.Socks.Reply.{cmd_conn, cmd_bind, handshake_err}

abbrev pub a_connected : ℕ
a_connected = 0x0B

abbrev pub a_bindconnected : ℕ
a_bindconnected = 0x0C

-- `case CMD_BIND`: the first reply is followed by waiting for the peer, the second by the traffic.
unfoldable pub bind_replied : State → M (Unit {0})
bind_replied State.sending_reply = do set_rep 0xFF; set_state State.bind_listening
bind_replied State.sending_reply_2 = do log_access a_bindconnected; set_state State.full
bind_replied _ = pure tt

-- Once the reply is sent.
unfoldable pub reply_sent : Side → M (Unit {0})
reply_sent who = do
  info ← load_info
  sh ← load
  if not (info.rep == rep_success)
      then handshake_err who
      else if info.cmd == cmd_conn
      then (do log_access a_connected; set_state State.full)
      else if info.cmd == cmd_bind
      then bind_replied sh.state
      else if info.cmd == cmd_udpa
      then set_state State.full_udpa
      else pure tt

-- `close(data->self_fd)`, then the registration and the memory.
unfoldable pub closed : Side → M (Unit {0})
closed who = do self ← load_self who; close_fd self; ep_delete_fd self; free_data who

unfoldable pub half_close : M (Unit {0})
half_close = set_state State.closed

-- What follows `read_traffic`.
unfoldable pub after_reading : Option ℕ → M (Unit {0})
after_reading none = set_state State.half_close
after_reading (some n) = pure tt

module _ (os : Os) where
  unfoldable pub sendingreply : Side → Events → M (Unit {0})
  sendingreply who ev = do
    sh ← load
    self ← load_self who
    if is_for ev.epollout self sh.client_fd
        then send_pending os who 300 (reply_sent who)
        else pure tt

  -- What follows `send_traffic`, whose result is given.
  unfoldable pub after_sending : Side → Fd → Option ℕ → M (Unit {0})
  after_sending who self none = set_state State.half_close
  after_sending who self (some (suc left)) = pure tt
  after_sending who self (some zero) = do
    ok ← ep_done_sending os self (some who)
    if not ok then set_state State.closed else pure tt

  unfoldable pub full : Side → Events → M (Unit {0})
  full who ev = do
    self ← load_self who
    if ev.epollout
        then (do ret ← send_traffic os self; after_sending who self ret)
        else if ev.epollin
        then (do
          ret ← read_traffic os self
          after_reading ret
          sh ← load
          _ ←
              (if same_fd self sh.client_fd
                then ep_waiting_send os sh.server_fd (pointer_of server sh)
                else ep_waiting_send os sh.client_fd (pointer_of client sh))
          pure tt)
        else pure tt
