-- ===== src/Server/Projected.antt =====
-- The loop as seen by one connection: however the events of all connections are mixed, it goes
-- through its own events, in order.
use mathlib.Core.Path.{subst}
use socksprox.Base.Text.{◌>>=◌}
use socksprox.Base.{
  refl, arith, Bool-cases, inl, inr, ℕ, zero, suc, Bool, true, false, ◌||◌, ◌≡◌, List, [], ◌∷◌,
  ◌++◌, Option, none, some, if◌then◌else◌, ◌∙◌,
}
use socksprox.Config.{Configs}
use socksprox.Conn.Live.{bind_some}
use socksprox.Conn.Monad.{M, ◌>>◌, pure}
use socksprox.Conn.{Os, World}
use socksprox.Server.Own.{same_index, own, run_own}
use socksprox.Net.Accept.{Accepted}
use socksprox.Resolver.{answer, resolve_ret}
use socksprox.Server.Loop.{
  Connection, Server, LoopEvent, wait_error, null_event, listener_event, peer_event, resolver_event,
  Arrival, acted, on_connection, joined, arrived, with_connections, accept_event, handle_event,
  go_on, run_loop,
}
use socksprox.Socks.Dispatch.{socks5}

abbrev pub connection_at : List Connection → ℕ → Option Connection
connection_at [] j = none
connection_at (c ∷ cs) zero = some c
connection_at (c ∷ cs) (suc j) = connection_at cs j

-- The connection after the action, in the list.
abbrev Moved : ℕ → Connection → M (Unit {0}) → List Connection → Type 0
Moved j c m cs =
    (w : World) × (m c.world ≡ some (tt, w)) × (connection_at cs j ≡ some (record c { world = w }))

abbrev Moves : ℕ → Connection → M (Unit {0}) → Option (List Connection) → Type 0
Moves j c m none = Unit
Moves j c m (some cs) = Moved j c m cs

abbrev MovesOn : ℕ → Connection → M (Unit {0}) → Option (Bool × Server) → Type 0
MovesOn j c m none = Unit
MovesOn j c m (some (false, s)) = Unit
MovesOn j c m (some (true, s)) = Moved j c m s.connections

Moves-acted :
    (c : Connection) (cs : List Connection) (m : M (Unit {0}))
    → (r : Option (Unit {0} × World)) → m c.world ≡ r
    → Moves zero c m (acted c cs r)
Moves-acted c cs m none e = tt
Moves-acted c cs m (some (u, w)) e = (w, e, refl)

Moves-first :
    (c d : Connection) (cs : List Connection) (j : ℕ) (r : Option (Unit {0} × World))
    → connection_at cs j ≡ some c
    → Moves (suc j) c (pure tt) (acted d cs r)
Moves-first c d cs j none e = tt
Moves-first c d cs j (some (u, w)) e = (c.world, refl, e)

Moves-behind :
    (c d : Connection) (m : M (Unit {0})) (j : ℕ) (o : Option (List Connection))
    → Moves j c m o
    → Moves (suc j) c m (o >>= λ ds. some (d ∷ ds))
Moves-behind c d m j none h = tt
Moves-behind c d m j (some ds) h = h

Moves-head :
    (c : Connection) (o : Option (List Connection))
    → Moves zero c (pure tt) (o >>= λ ds. some (c ∷ ds))
Moves-head c none = tt
Moves-head c (some ds) = (c.world, refl, refl)

Moves-on_connection :
    (cs : List Connection) (i j : ℕ) (act : Os → M (Unit {0})) (c : Connection)
    → connection_at cs j ≡ some c
    → Moves j c (if same_index i j then act c.os else pure tt) (on_connection cs i act)
Moves-on_connection [] i j act c e = absurd (ground (arith, e))
Moves-on_connection (d ∷ cs) zero zero act c e =
    let same : d ≡ c = ground (arith, e) in
    subst (λ (t : Connection). Moves zero t (act t.os) (acted d cs (act d.os d.world))) same
      (Moves-acted d cs (act d.os) (act d.os d.world) refl)
Moves-on_connection (d ∷ cs) zero (suc j) act c e = Moves-first c d cs j (act d.os d.world) e
Moves-on_connection (d ∷ cs) (suc i) zero act c e =
    let same : d ≡ c = ground (arith, e) in
    subst
      (λ (t : Connection). Moves zero t (pure tt) (on_connection cs i act >>= λ ds. some (d ∷ ds)))
      same (Moves-head d (on_connection cs i act))
Moves-on_connection (d ∷ cs) (suc i) (suc j) act c e =
    Moves-behind c d (if same_index i j then act c.os else pure tt) j (on_connection cs i act)
      (Moves-on_connection cs i j act c e)

at_append :
    (cs ds : List Connection) (j : ℕ) (c : Connection)
    → connection_at cs j ≡ some c
    → connection_at (cs ++ ds) j ≡ some c
at_append [] ds j c e = absurd (ground (arith, e))
at_append (d ∷ cs) ds zero c e = e
at_append (d ∷ cs) ds (suc j) c e = at_append cs ds j c e

MovesOn-with_connections :
    (s : Server) (j : ℕ) (c : Connection) (m : M (Unit {0})) (o : Option (List Connection))
    → Moves j c m o
    → MovesOn j c m (with_connections s o)
MovesOn-with_connections s j c m none h = tt
MovesOn-with_connections s j c m (some cs) h = h

MovesOn-joined :
    (os : Os) (s : Server) (j : ℕ) (c : Connection) (o : Option World)
    → connection_at s.connections j ≡ some c
    → Moved j c (pure tt) (joined os s o).connections
MovesOn-joined os s j c none e = (c.world, refl, e)
MovesOn-joined os s j c (some w) e = (c.world, refl, at_append s.connections _ j c e)

MovesOn-arrived :
    (os : Os) (s : Server) (j : ℕ) (c : Connection) (r : Option Accepted)
    → connection_at s.connections j ≡ some c
    → MovesOn j c (pure tt) (arrived os s r >>= λ t. some (true, t))
MovesOn-arrived os s j c none e = tt
MovesOn-arrived os s j c (some r) e = MovesOn-joined os s j c r.world e

module _ (configs : Configs) (arrivals : ℕ → Arrival) where
  MovesOn-handle_event :
      (event : LoopEvent) (s : Server) (j : ℕ) (c : Connection)
      → connection_at s.connections j ≡ some c
      → MovesOn j c (own configs event j c.os) (handle_event configs arrivals event s)
  unfolding handle_event accept_event answer resolve_ret
  MovesOn-handle_event wait_error s j c e = tt
  MovesOn-handle_event null_event s j c e = (c.world, refl, e)
  MovesOn-handle_event (listener_event fd ev) s j c e = elim (Bool-cases (ev.epollin)) [
    | inl reads ↦ simp reads (MovesOn-arrived _ (record s { attempts = suc s.attempts }) j c _ e)
    | inr other_event ↦ simp other_event tt
  ]
  MovesOn-handle_event (peer_event i who ev) s j c e =
      elim (Bool-cases (ev.epollin || ev.epollout)) [
        | inl ready ↦ rw ready (
            MovesOn-with_connections s j c
              (if same_index i j then socks5 c.os who configs ev else pure tt)
              (on_connection s.connections i (λ os. socks5 os who configs ev))
              (Moves-on_connection s.connections i j (λ os. socks5 os who configs ev) c e))
        | inr other_event ↦ rw other_event (idle (same_index i j))
      ]
    where
      idle : (b : Bool) → Moved j c (if b then pure tt else pure tt) s.connections
      idle true = (c.world, refl, e)
      idle false = (c.world, refl, e)
  MovesOn-handle_event (resolver_event i gai_ret res) s j c e =
      let act = λ (os : Os). answer res >> resolve_ret os configs gai_ret in
      MovesOn-with_connections s j c (if same_index i j then act c.os else pure tt)
        (on_connection s.connections i act) (Moves-on_connection s.connections i j act c e)

  MovesOn-go_on :
      (events : List LoopEvent) (m rest : M (Unit {0})) (j : ℕ) (c : Connection)
      (o : Option (Bool × Server)) (next : Server → Option (Bool × Server))
      → MovesOn j c m o
      → ((t : Server) (d : Connection)
          → d.os ≡ c.os
          → connection_at t.connections j ≡ some d
          → MovesOn j d rest (next t))
      → MovesOn j c (m >> rest) (go_on o next)
  MovesOn-go_on events m rest j c none next h k = tt
  MovesOn-go_on events m rest j c (some (false, s)) next h k = tt
  MovesOn-go_on events m rest j c (some (true, s)) next h k =
      later (next s) (k s (record c { world = h.0 }) refl h.2)
    where
      later :
          (o : Option (Bool × Server))
          → MovesOn j (record c { world = h.0 }) rest o
          → MovesOn j c (m >> rest) o
      later none l = tt
      later (some (false, t)) l = tt
      later (some (true, t)) l = (l.0, bind_some m _ h.1 ∙ l.1, l.2)

  MovesOn-run_loop :
      (events : List LoopEvent) (s : Server) (j : ℕ) (c : Connection)
      → connection_at s.connections j ≡ some c
      → MovesOn j c (run_own configs events j c.os) (run_loop configs arrivals events s)
  unfolding run_loop run_own
  MovesOn-run_loop [] s j c e = (c.world, refl, e)
  MovesOn-run_loop (event ∷ events) s j c e =
      MovesOn-go_on events (own configs event j c.os) (run_own configs events j c.os) j c
        (handle_event configs arrivals event s) (λ t. run_loop configs arrivals events t)
        (MovesOn-handle_event event s j c e)
        (λ t d o f.
          subst
            (λ (os : Os).
              MovesOn j d (run_own configs events j os) (run_loop configs arrivals events t))
            o (MovesOn-run_loop events t j d f))

  -- Where the loop goes on after its events, a connection that was there before them has gone
  -- through those events that name it, in order: for input or output its side's handlers ran, for
  -- an answer of the resolver the answer was stored, the state was set to that of the request, and
  -- the client's handlers ran. No event of another connection, and no new one, changed it.
  pub run_loop-run_own :
      (events : List LoopEvent) (s s' : Server) (j : ℕ) (c : Connection)
      → connection_at s.connections j ≡ some c
      → run_loop configs arrivals events s ≡ some (true, s')
      → (w : World) × (run_own configs events j c.os c.world ≡ some (tt, w))
        × (connection_at s'.connections j ≡ some (record c { world = w }))
  run_loop-run_own events s s' j c e run = rw run at (MovesOn-run_loop events s j c e)
