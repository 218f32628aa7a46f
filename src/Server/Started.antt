-- ===== src/Server/Started.antt =====
-- How `main` starts, and how it ends when it cannot.
use socksprox.Base.Int.{pos, eq_ℤ}
use socksprox.Base.{
  Bool, true, false, ◌&&◌, ◌≡◌, ◌≢◌, refl, ap, ◌∙◌, [], ◌∷◌, Option, none, some, length, ◌⊎◌,
  Bool-cases, inl, inr, arith,
}
use socksprox.Config.{Configs}
use socksprox.Server.Listened.{AllRegistered, init_listeners-listened}
use socksprox.Server.Listen.{init_listeners}
use socksprox.Server.Start.{
  l_spstartup, l_loggersetup, l_epollcreate, l_listeninit, init_logger, init_resolver,
  resolver_started, start_names, start_listeners, start_epoll, start_logged, start,
}
use socksprox.Server.{Machine, Calls, join, malloc, create_epoll, log_error}

abbrev pub ends_joined : Calls → Bool
ends_joined (join ∷ c) = true
ends_joined _ = false

module _ (m : Machine) (configs : Configs) where
  -- The calls up to `malloc`, up to `init_listeners` and up to `init_resolver`, where `c` are those
  -- up to the start of the logger.
  abbrev pub up_to_malloc : Calls → Calls
  up_to_malloc c = log_error l_loggersetup ∷ log_error l_spstartup ∷ c

  abbrev pub up_to_listeners : Calls → Calls
  up_to_listeners c = log_error l_epollcreate ∷ create_epoll ∷ malloc ∷ up_to_malloc c

  abbrev pub up_to_resolver : Calls → Calls
  up_to_resolver c =
      log_error l_listeninit ∷ (init_listeners m configs.listen_head (up_to_listeners c)).1

  -- `malloc` and `epoll_create1` succeed and `init_listeners` returns 0.
  abbrev pub can_start : Calls → Bool
  can_start c =
      m.ok (length (up_to_malloc c))
      && m.ok (length (malloc ∷ up_to_malloc c))
      && eq_ℤ (init_listeners m configs.listen_head (up_to_listeners c)).0 (pos 0)

  -- `configs->allow_domains` in the loop.
  abbrev pub takes_names : Calls → Bool
  takes_names c = configs.allow_domains && (init_resolver m (up_to_resolver c)).0

  -- Either the loop starts, or `main` returns 1 after the logger's thread has ended.
  abbrev pub Orderly : Calls → Option Bool × Calls → Type 0
  Orderly c r =
      ((can_start c ≡ true)
        × (r.0 ≡ some (takes_names c))
        × (configs.listen_head ≢ [])
        × AllRegistered m configs.listen_head (up_to_listeners c))
      ⊎ ((can_start c ≡ false) × (r.0 ≡ none) × (ends_joined r.1 ≡ true))

  resolver_started-result : (r : Bool × Calls) → (resolver_started r).0 ≡ some r.0
  unfolding resolver_started
  resolver_started-result (true, c) = refl
  resolver_started-result (false, c) = refl

  start_names-result :
      (c : Calls)
      → (start_names m configs c).0 ≡ some (configs.allow_domains && (init_resolver m c).0)
  unfolding start_names
  start_names-result c = elim (Bool-cases configs.allow_domains) [
    | inl on ↦ simp on (resolver_started-result (init_resolver m c))
    | inr off ↦ simp off refl
  ]

  start_listeners-zero :
      (c : Calls)
      → eq_ℤ (init_listeners m configs.listen_head c).0 (pos 0) ≡ true
      → start_listeners m configs c
        ≡ start_names m configs
            (log_error l_listeninit ∷ (init_listeners m configs.listen_head c).1)
  unfolding start_listeners
  start_listeners-zero c e = rw e refl

  start_listeners-nonzero :
      (c : Calls)
      → eq_ℤ (init_listeners m configs.listen_head c).0 (pos 0) ≡ false
      → ((start_listeners m configs c).0 ≡ none)
        × (ends_joined (start_listeners m configs c).1 ≡ true)
  unfolding start_listeners
  start_listeners-nonzero c e = rw e (refl, refl)

  Orderly-start_epoll : (c : Calls) → Orderly c (start_epoll m configs (up_to_malloc c))
  unfolding start_epoll
  Orderly-start_epoll c = elim (Bool-cases (m.ok (length (up_to_malloc c)))) [
    | inr e ↦ inr (rw e refl, rw e refl, rw e refl)
    | inl e1 ↦ elim (Bool-cases (m.ok (length (malloc ∷ up_to_malloc c)))) [
      | inr e ↦ inr (rw (e1, e) refl, rw (e1, e) refl, rw (e1, e) refl)
      | inl e2 ↦
          elim (Bool-cases
            (eq_ℤ (init_listeners m configs.listen_head (up_to_listeners c)).0 (pos 0))) [
              | inl zero ↦
                  let done =
                    init_listeners-listened m configs.listen_head (up_to_listeners c) zero in
                  inl (
                    rw (e1, e2, zero) refl,
                    rw (e1, e2)
                        (ap (λ r. r.0) (start_listeners-zero (up_to_listeners c) zero)
                          ∙ start_names-result (up_to_resolver c)),
                    done.0,
                    done.2,
                  )
              | inr nonzero ↦
                  let stopped = start_listeners-nonzero (up_to_listeners c) nonzero in
                  inr (rw (e1, e2, nonzero) refl, rw (e1, e2) stopped.0, rw (e1, e2) stopped.1)
            ]
    ]
  ]

  Orderly-start_logged : (r : Bool × Calls) → r.0 ≡ true → Orderly r.1 (start_logged m configs r)
  unfolding start_logged
  Orderly-start_logged (true, c) h = Orderly-start_epoll c
  Orderly-start_logged (false, c) h = absurd (ground arith)

  -- Once the configuration is read and the logger runs, there are two cases. If `malloc` and
  -- `epoll_create1` succeed and `init_listeners` returns 0, the loop starts, with names exactly if
  -- the configuration allows them and `init_resolver` succeeds; there is an address, and every
  -- address has its socket bound and registered. Otherwise `main` returns 1, and the last thing it
  -- does is to wait for the logger's thread.
  pub start-Orderly :
      (c : Calls)
      → (init_logger m c).0 ≡ true
      → Orderly (init_logger m c).1 (start m true configs c)
  unfolding start
  start-Orderly c h = Orderly-start_logged (init_logger m c) h
