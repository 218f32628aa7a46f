-- ===== src/Server/Start.antt =====
-- `main` of src/socksprox.c up to its loop, with `init_logger` of src/logger.c, `init_resolver` of
-- src/resolver.c and `ep_add_resolver` of src/epoll_data.c.
use socksprox.Base.Int.{pos, eq_ℤ}
use socksprox.Base.{Bool, true, false, not, ◌∷◌, Option, none, some, ℕ, length, if◌then◌else◌}
use socksprox.Config.{Configs}
use socksprox.Conn.Epoll.{l_mallocerror}
use socksprox.Server.Listen.{init_listeners}
use socksprox.Server.{
  Machine, Calls, make_pipe, start_thread, malloc, create_epoll, join, epoll_add_resolver,
  log_error,
}

abbrev pub l_spstartup : ℕ
l_spstartup = 0x00

abbrev pub l_loggersetup : ℕ
l_loggersetup = 0x01

abbrev pub l_epollcreate : ℕ
l_epollcreate = 0x02

abbrev pub l_epollerror : ℕ
l_epollerror = 0x03

abbrev pub l_listeninit : ℕ
l_listeninit = 0x04

abbrev pub l_listenerror : ℕ
l_listenerror = 0x05

abbrev pub l_resolverstart : ℕ
l_resolverstart = 0x06

abbrev pub l_resolvererror : ℕ
l_resolvererror = 0x07

abbrev pub l_noresolver : ℕ
l_noresolver = 0x08

-- The resolver's result, and what `allow_domains` is then.
unfoldable pub resolver_started : Bool × Calls → Option Bool × Calls
resolver_started (true, c) = (some true, log_error l_resolverstart ∷ c)
resolver_started (false, c) = (some false, log_error l_noresolver ∷ log_error l_resolvererror ∷ c)

module _ (m : Machine) where
  -- True for the result 0.
  unfoldable pub init_logger : Calls → Bool × Calls
  init_logger c =
      let piped : Calls = make_pipe ∷ c in
      if not (m.ok (length c)) then (false, piped) else (m.ok (length piped), start_thread ∷ piped)

  unfoldable pub ep_add_resolver : Calls → Bool × Calls
  ep_add_resolver c =
      let allocated : Calls = malloc ∷ c in
      if not (m.ok (length c))
      then (false, log_error l_mallocerror ∷ allocated)
      else (m.ok (length allocated), epoll_add_resolver ∷ allocated)

  -- The thread, once the pipe is registered.
  unfoldable pub start_resolver : Bool × Calls → Bool × Calls
  start_resolver (false, c) = (false, c)
  start_resolver (true, c) = (m.ok (length c), start_thread ∷ c)

  unfoldable pub init_resolver : Calls → Bool × Calls
  init_resolver c =
      let piped : Calls = make_pipe ∷ c in
      let piped_twice : Calls = make_pipe ∷ piped in
      if not (m.ok (length c))
      then (false, piped)
      else if not (m.ok (length piped))
      then (false, piped_twice)
      else start_resolver (ep_add_resolver piped_twice)

  -- `log_error(…); log_sig_join(…); return 1`
  abbrev stop : ℕ → Calls → Option Bool × Calls
  stop code c = (none, join ∷ log_error code ∷ c)

  unfoldable pub start_names : Configs → Calls → Option Bool × Calls
  start_names configs c =
      if configs.allow_domains
      then resolver_started (init_resolver c)
      else (some false, log_error l_noresolver ∷ c)

  unfoldable pub start_listeners : Configs → Calls → Option Bool × Calls
  start_listeners configs c =
      let (ret, after) = init_listeners m configs.listen_head c in
      if not (eq_ℤ ret (pos 0))
      then stop l_listenerror after
      else start_names configs (log_error l_listeninit ∷ after)

  -- From `malloc` of the events on.
  unfoldable pub start_epoll : Configs → Calls → Option Bool × Calls
  start_epoll configs c =
      let created : Calls = create_epoll ∷ malloc ∷ c in
      if not (m.ok (length c))
      then stop l_mallocerror created
      else if not (m.ok (length (malloc ∷ c)))
      then stop l_epollerror created
      else start_listeners configs (log_error l_epollcreate ∷ created)

  unfoldable pub start_logged : Configs → Bool × Calls → Option Bool × Calls
  start_logged configs (false, c) = (none, c)
  start_logged configs (true, c) =
      start_epoll configs (log_error l_loggersetup ∷ log_error l_spstartup ∷ c)

  -- `parsed` says whether `parse_configs` returned 0. The result is `allow_domains` when the loop
  -- starts, or `none` where `main` returns 1.
  unfoldable pub start : Bool → Configs → Calls → Option Bool × Calls
  start parsed configs c = if not parsed then (none, c) else start_logged configs (init_logger c)
