-- ===== src/Socks/Reply.antt =====
-- `vercheck`, `handshake_err`, `reply_with_err` and `init_command` of src/socks.c.
use socksprox.Base.{ℕ, Bool, not, ◌||◌, List, [], ◌∷◌, ltb, ◌==◌, if◌then◌else◌}
use socksprox.Config.{Configs}
use socksprox.Conn.Epoll.{pointer_of, ep_waiting_send, ep_delete_fd, free_data}
use socksprox.Conn.Monad.{
  M, ◌>>=◌, ◌>>◌, load, set_state, load_self, load_info, set_rep, write_client_out, log_access,
  close_fd,
}
use socksprox.Conn.{State, Side, client, Os}
use socksprox.Firewall.{cmd_udpa}
use socksprox.Net.{
  socks5_version, socks5_resv, atyp_ipv4, rep_genfail, init_connect, init_bind, init_udpa,
}

abbrev pub cmd_conn : ℕ
cmd_conn = 0x01

abbrev pub cmd_bind : ℕ
cmd_bind = 0x02

abbrev pub rep_ruleset : ℕ
rep_ruleset = 0x02

abbrev pub rep_badcomm : ℕ
rep_badcomm = 0x07

-- The access codes of include/logger.h.
abbrev pub a_closehandshake : ℕ
a_closehandshake = 0x01

abbrev pub a_commconn : ℕ
a_commconn = 0x03

abbrev pub a_commbind : ℕ
a_commbind = 0x04

abbrev pub a_commudpa : ℕ
a_commudpa = 0x05

-- True for the result 1, a version that is refused.
unfoldable pub vercheck : ℕ → Bool
vercheck ver = not (ver == socks5_version)

unfoldable pub handshake_err : Side → M (Unit {0})
handshake_err who = do
  log_access a_closehandshake
  set_state State.closed
  self ← load_self who
  ep_delete_fd self
  close_fd self
  free_data who

-- The code that `reply_with_err` sends for `info->rep`.
abbrev pub error_code : ℕ → ℕ
error_code rep = if ltb rep 0x01 || ltb 0x08 rep then rep_genfail else rep

-- The ten bytes of an error reply.
abbrev pub error_reply : ℕ → List ℕ
error_reply rep = socks5_version ∷ rep ∷ socks5_resv ∷ atyp_ipv4 ∷ 0 ∷ 0 ∷ 0 ∷ 0 ∷ 0 ∷ 0 ∷ []

module _ (os : Os) where
  unfoldable pub reply_with_err : Side → M (Unit {0})
  reply_with_err who = do
    info ← load_info
    set_rep (error_code info.rep)
    n ← write_client_out (error_reply (error_code info.rep))
    if not (n == 10) then handshake_err who else (do
      sh ← load
      ok ← ep_waiting_send os sh.client_fd (pointer_of client sh)
      if not ok then handshake_err who else set_state State.sending_reply)

  -- `info->rep = rep; reply_with_err(epoll_fd, data);`
  unfoldable pub fail_with : Side → ℕ → M (Unit {0})
  fail_with who rep = do set_rep rep; reply_with_err who

  -- A case of the `switch` of `init_command`: the log entry, the test of the flag, the start.
  unfoldable pub run_command : Side → ℕ → Bool → M (Unit {0}) → M (Unit {0})
  run_command who code allowed start = do
    log_access code
    if not allowed then fail_with who rep_badcomm else start

  unfoldable pub init_command : Side → Configs → M (Unit {0})
  init_command who configs = do
    info ← load_info
    if info.cmd == cmd_conn
        then run_command who a_commconn configs.allow_connect (init_connect os)
        else if info.cmd == cmd_bind
        then run_command who a_commbind configs.allow_bind (init_bind os configs)
        else if info.cmd == cmd_udpa
        then run_command who a_commudpa configs.allow_udpassoc (init_udpa os configs)
        else fail_with who rep_badcomm
