-- ===== src/Server/Listened.antt =====
-- What `init_listeners` has done when it returns 0.
use socksprox.Address.{Family, af_inet, af_inet6, af_other, SockaddrNode, sa_family}
use socksprox.Base.Int.{ℤ, pos, eq_ℤ}
use socksprox.Base.{
  ℕ, suc, ◌≡◌, ◌≢◌, refl, Bool, true, false, List, [], ◌∷◌, length, Bool-cases, inl, inr, arith,
}
use socksprox.Server.Listen.{
  l_bindlistener, unless_failed, ep_add_listener, bind_listener, v6flag, listen_round,
  listen_rounds, init_listeners,
}
use socksprox.Server.{
  Machine, Calls, malloc, socket, set_v6only, bind, nonblocking, listen, epoll_add, log_error,
}

-- IPv6 sockets are restricted to IPv6.
abbrev pub restricted : Family → ℕ → Calls → Calls
restricted af_inet6 fd c = set_v6only fd ∷ c
restricted af_inet fd c = c
restricted (af_other f) fd c = c

-- The calls up to `bind`, and up to `listen`, for one address.
abbrev ready : ℕ → SockaddrNode → Calls → Calls
ready fd node c = restricted (sa_family node.sa) fd (socket (sa_family node.sa) ∷ c)

abbrev listening : ℕ → SockaddrNode → Calls → Calls
listening fd node c =
    listen fd ∷ nonblocking fd ∷ log_error l_bindlistener ∷ bind fd node.sa ∷ ready fd node c

-- One address after the other: a socket, `bind`, `listen`, and the registration with epoll.
abbrev pub listened : Machine → List SockaddrNode → Calls → Calls
listened m [] c = c
listened m (node ∷ nodes) c =
    let fd : ℕ = m.fd (length c) in listened m nodes (epoll_add fd ∷ malloc ∷ listening fd node c)

abbrev pub Restricted : Machine → Family → Calls → Type 0
Restricted m af_inet6 c = m.ok (length c) ≡ true
Restricted m af_inet c = Unit
Restricted m (af_other f) c = Unit

-- `bind` after `n` calls succeeded, and so did `malloc` and `epoll_ctl` behind it.
abbrev pub Registered : Machine → ℕ → Type 0
Registered m n =
    (m.ok n ≡ true)
    × (m.ok (suc (suc (suc (suc n)))) ≡ true)
    × (m.ok (suc (suc (suc (suc (suc n))))) ≡ true)

-- For each address `socket`, the restriction to IPv6, `bind`, `malloc` and `epoll_ctl` succeeded.
abbrev pub AllRegistered : Machine → List SockaddrNode → Calls → Type 0
AllRegistered m [] c = Unit
AllRegistered m (node ∷ nodes) c =
    let fd : ℕ = m.fd (length c) in
    ((m.ok (length c) ≡ true)
      × (Restricted m (sa_family node.sa) (socket (sa_family node.sa) ∷ c)
          × Registered m (length (ready fd node c))))
    × AllRegistered m nodes (epoll_add fd ∷ malloc ∷ listening fd node c)

-- The result is 0, after these calls and with this known of them, or not 0.
record Done (done : Calls) (P : Type 0) (r : ℤ × Calls) : Type 0 where
  ends : eq_ℤ r.0 (pos 0) ≡ true → (r.1 ≡ done) × P

Done-unless :
    (b : Bool) (failed next : ℤ × Calls) (done : Calls) (P : Type 0)
    → eq_ℤ failed.0 (pos 0) ≡ false
    → Done done P next
    → Done done ((b ≡ true) × P) (unless_failed b failed next)
unfolding unless_failed
Done-unless true failed next done P e h = record {
  ends = λ z. ((h.ends z).0, (refl, (h.ends z).1));
}
Done-unless false failed next done P e h = record { ends = λ z. absurd (ground arith) }

Done-map : (done : Calls) (P Q : Type 0) (r : ℤ × Calls) → (P → Q) → Done done P r → Done done Q r
Done-map done P Q r f h = record { ends = λ z. ((h.ends z).0, f (h.ends z).1) }

module _ (m : Machine) where
  Done-bind_listener :
      (fd : ℕ) (node : SockaddrNode) (c : Calls)
      → Done
          (epoll_add fd
            ∷ malloc
            ∷ listen fd
            ∷ nonblocking fd
            ∷ log_error l_bindlistener
            ∷ bind fd node.sa
            ∷ c)
          (Registered m (length c))
          (bind_listener m fd node c)
  unfolding bind_listener ep_add_listener
  Done-bind_listener fd node c =
      Done-map _ _ _ _ (λ p. (p.0, p.1.0, p.1.1.0))
        (Done-unless _ _ _ _ _ refl (
          Done-unless _ _ _ _ _ refl
            (Done-unless _ _ _ _ Unit refl (record { ends = λ h. (refl, tt) }))))

  Done-v6flag :
      (fd : ℕ) (node : SockaddrNode) (af : Family) (c : Calls)
      → Done
          (epoll_add fd
            ∷ malloc
            ∷ listen fd
            ∷ nonblocking fd
            ∷ log_error l_bindlistener
            ∷ bind fd node.sa
            ∷ restricted af fd c)
          (Restricted m af c × Registered m (length (restricted af fd c)))
          (v6flag m fd node af c)
  unfolding v6flag
  Done-v6flag fd node af_inet c = Done-map _ _ _ _ (λ p. (tt, p)) (Done-bind_listener fd node c)
  Done-v6flag fd node af_inet6 c =
      Done-unless _ _ _ _ _ refl (Done-bind_listener fd node (set_v6only fd ∷ c))
  Done-v6flag fd node (af_other f) c =
      Done-map _ _ _ _ (λ p. (tt, p)) (Done-bind_listener fd node c)

  Done-listen_round :
      (node : SockaddrNode) (c : Calls)
      → Done (listened m (node ∷ []) c) (AllRegistered m (node ∷ []) c) (listen_round m node c)
  unfolding listen_round
  Done-listen_round node c =
      Done-map _ _ _ _ (λ p. (p, tt))
        (Done-unless _ _ _ _ _ refl (Done-v6flag (m.fd (length c)) node (sa_family node.sa) _))

  Done-next :
      (r : ℤ × Calls) (done : Calls) (P : Type 0) (nodes : List SockaddrNode)
      → Done done P r
      → ((c : Calls)
          → Done (listened m nodes c) (AllRegistered m nodes c) (listen_rounds m nodes c))
      → Done
          (listened m nodes done)
          (P × AllRegistered m nodes done)
          (unless_failed (eq_ℤ r.0 (pos 0)) r (listen_rounds m nodes r.1))
  unfolding unless_failed
  Done-next r done P nodes h k = elim (Bool-cases (eq_ℤ r.0 (pos 0))) [
    | inl zero ↦
        rw zero (rw (h.ends zero).0 (Done-map _ _ _ _ (λ q. ((h.ends zero).1, q)) (k done)))
    | inr nonzero ↦ rw nonzero (record { ends = λ z. absurd (ground (arith, z)) })
  ]

  Done-listen_rounds :
      (nodes : List SockaddrNode) (c : Calls)
      → Done (listened m nodes c) (AllRegistered m nodes c) (listen_rounds m nodes c)
  unfolding listen_rounds
  Done-listen_rounds [] c = record { ends = λ h. (refl, tt) }
  Done-listen_rounds (node ∷ nodes) c =
      Done-map _ _ _ _ (λ p. (p.0.0, p.1))
        (Done-next (listen_round m node c) _ _ nodes (Done-listen_round node c)
          (Done-listen_rounds nodes))

  -- If `init_listeners` returns 0, then there is an address, and for each address in the list, in
  -- order and with no other calls, `socket`, the restriction to IPv6 if it is one, `bind`, `malloc`
  -- and `epoll_ctl` were called and succeeded; `listen` was called, with whatever result.
  pub init_listeners-listened :
      (nodes : List SockaddrNode) (c : Calls)
      → eq_ℤ (init_listeners m nodes c).0 (pos 0) ≡ true
      → (nodes ≢ []) × ((init_listeners m nodes c).1 ≡ listened m nodes c) × AllRegistered m nodes c
  unfolding init_listeners
  init_listeners-listened [] c h = absurd (ground arith)
  init_listeners-listened (node ∷ nodes) c h =
      let done = (Done-listen_rounds (node ∷ nodes) c).ends h in
      ((λ e. ground (arith, e)), done.0, done.1)
