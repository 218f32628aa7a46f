-- ===== src/Conn/Epoll.antt =====
-- The `ep_` functions and `free_data` of src/epoll_data.c, and the codes of include/logger.h that
-- the handlers log.
use socksprox.Base.{ℕ, Bool, true, false, ◌||◌, [], Option, none, some, if◌then◌else◌}
use socksprox.Conn.Monad.{M, ◌>>=◌, ◌>>◌, pure, modify, load_self, issue_only, log_error, epoll_ctl}
use socksprox.Conn.{Fd, same_fd, Side, client, server, Shared, reading, writing, both, Call, Os}

abbrev pub l_mallocerror : ℕ
l_mallocerror = 0x09

abbrev pub l_epollerroradd : ℕ
l_epollerroradd = 0x0A

abbrev pub l_epollerrormod : ℕ
l_epollerrormod = 0x0B

abbrev pub l_nullcheckfail : ℕ
l_nullcheckfail = 0x11

-- The pointer `shared->client_data` or `shared->server_data`, as it is registered with epoll.
abbrev pub pointer_of : Side → Shared → Option Side
pointer_of client sh = if sh.client_data then some client else none
pointer_of server sh = if sh.server_data then some server else none

module _ (os : Os) where
  -- True for the result 0, false for -1.
  unfoldable pub ep_add_new_client : Fd → Option Side → M Bool
  ep_add_new_client fd data_ptr = do
    ok ← epoll_ctl os (Call.epoll_add fd reading data_ptr)
    if ok then pure true else (do log_error l_epollerroradd; pure false)

  unfoldable pub ep_connecting : Fd → Option Side → M Bool
  ep_connecting fd data_ptr = do
    ok ← epoll_ctl os (Call.epoll_add fd writing data_ptr)
    if ok then pure true else (do log_error l_epollerroradd; pure false)

  unfoldable pub ep_waiting_send : Fd → Option Side → M Bool
  ep_waiting_send fd data_ptr = do
    ok ← epoll_ctl os (Call.epoll_mod fd both data_ptr)
    if ok then pure true else (do log_error l_epollerrormod; pure false)

  unfoldable pub ep_done_sending : Fd → Option Side → M Bool
  ep_done_sending fd data_ptr = do
    ok ← epoll_ctl os (Call.epoll_mod fd reading data_ptr)
    if ok then pure true else (do log_error l_epollerrormod; pure false)

-- The result of `epoll_ctl` is not looked at.
unfoldable pub ep_delete_fd : Fd → M (Unit {0})
ep_delete_fd fd = issue_only (Call.epoll_del fd)

-- `free(data)`
unfoldable pub free_side : Side → M (Unit {0})
free_side client w = if w.client_live then some (tt, record w { client_live = false }) else none
free_side server w = if w.server_live then some (tt, record w { server_live = false }) else none

-- Both buffers are NULL; of the two pointers those whose descriptor is the same are cleared.
abbrev pub clear_pointers : Fd → Shared → Shared
clear_pointers self sh = record sh {
  info = none;
  buffers = false;
  client_out = record sh.client_out { buff = [] };
  server_out = record sh.server_out { buff = [] };
  client_data = if same_fd self sh.client_fd then false else sh.client_data;
  server_data = if same_fd self sh.server_fd then false else sh.server_data;
}

-- `free(data->shared)` where no pointer to it is left.
unfoldable pub free_shared : M (Unit {0})
free_shared w =
    if w.shared_live
    then some (tt, record w { shared_live = w.shared.client_data || w.shared.server_data })
    else none

unfoldable pub free_data : Side → M (Unit {0})
free_data who = do self ← load_self who; modify (clear_pointers self); free_shared; free_side who
