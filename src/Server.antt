-- ===== src/Server.antt =====
-- The server around the connections: the listeners of src/net.c, `main` of src/socksprox.c up to
-- its loop, and the loop.
pub mod Listen
pub mod Start
pub mod Loop
pub mod Own
pub mod Projected
pub mod Listened
pub mod Started
use socksprox.Address.{Family, Sockaddr}
use socksprox.Base.{ℕ, Bool, List}

-- The calls before the loop. `join` is `log_sig_join`.
pub data StartCall : Type 0 where
  make_pipe start_thread malloc create_epoll join : StartCall
  socket : Family → StartCall
  set_v6only : ℕ → StartCall
  bind : ℕ → Sockaddr → StartCall
  nonblocking listen epoll_add : ℕ → StartCall
  epoll_add_resolver : StartCall
  log_error : ℕ → StartCall

-- The answer to the call that is made after so many earlier ones: whether it succeeds, and the
-- descriptor of `socket`.
pub record Machine : Type 0 where
  pub ok : ℕ → Bool
  pub fd : ℕ → ℕ

-- The calls so far, the latest first.
abbrev pub Calls : Type 0
Calls = List StartCall
