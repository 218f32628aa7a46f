-- ===== src/Server/Listen.antt =====
-- `v6flag` and `init_listeners` of src/net.c, `ep_add_listener` of src/epoll_data.c.
use socksprox.Address.{Family, af_inet, af_inet6, af_other, SockaddrNode, sa_family}
use socksprox.Base.Int.{ℤ, pos, negsuc, eq_ℤ}
use socksprox.Base.{ℕ, Bool, true, false, List, [], ◌∷◌, length}
use socksprox.Conn.Epoll.{l_mallocerror, l_epollerroradd}
use socksprox.Server.{
  Machine, Calls, malloc, socket, set_v6only, bind, nonblocking, listen, epoll_add, log_error,
}

abbrev pub l_bindlistener : ℕ
l_bindlistener = 0x0D

-- The part of a function behind a call that can fail: `failed` is what it returns then.
unfoldable pub unless_failed : Bool → ℤ × Calls → ℤ × Calls → ℤ × Calls
unless_failed true failed next = next
unless_failed false failed next = failed

module _ (m : Machine) where
  unfoldable pub ep_add_listener : ℕ → Calls → ℤ × Calls
  ep_add_listener fd c =
      let allocated : Calls = malloc ∷ c in
      let added : Calls = epoll_add fd ∷ allocated in
      unless_failed (m.ok (length c)) (negsuc 0, log_error l_mallocerror ∷ allocated)
        (unless_failed (m.ok (length allocated)) (negsuc 0, log_error l_epollerroradd ∷ added)
          (pos 0, added))

  -- From `bind` on. The result of `listen` is not looked at.
  unfoldable pub bind_listener : ℕ → SockaddrNode → Calls → ℤ × Calls
  bind_listener fd current c =
      let bound : Calls = bind fd current.sa ∷ c in
      unless_failed (m.ok (length c)) (negsuc 0, bound)
        (ep_add_listener fd (listen fd ∷ nonblocking fd ∷ log_error l_bindlistener ∷ bound))

  unfoldable pub v6flag : ℕ → SockaddrNode → Family → Calls → ℤ × Calls
  v6flag fd current af_inet6 c =
      let set : Calls = set_v6only fd ∷ c in
      unless_failed (m.ok (length c)) (negsuc 0, set) (bind_listener fd current set)
  v6flag fd current af_inet c = bind_listener fd current c
  v6flag fd current (af_other f) c = bind_listener fd current c

  -- One round of the loop. A socket that is not used stays open.
  unfoldable pub listen_round : SockaddrNode → Calls → ℤ × Calls
  listen_round current c =
      let opened : Calls = socket (sa_family current.sa) ∷ c in
      unless_failed (m.ok (length c)) (pos 1, opened)
        (v6flag (m.fd (length c)) current (sa_family current.sa) opened)

  unfoldable pub listen_rounds : List SockaddrNode → Calls → ℤ × Calls
  listen_rounds [] c = (pos 0, c)
  listen_rounds (current ∷ next) c =
      let (ret, after) = listen_round current c in
      unless_failed (eq_ℤ ret (pos 0)) (ret, after) (listen_rounds next after)

  unfoldable pub init_listeners : List SockaddrNode → Calls → ℤ × Calls
  init_listeners [] c = (negsuc 0, c)
  init_listeners (current ∷ next) c = listen_rounds (current ∷ next) c
