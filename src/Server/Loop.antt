-- ===== src/Server/Loop.antt =====
-- The loop of `main` in src/socksprox.c: each event of `epoll_wait` goes to the listener, to the
-- connection, or to the resolver.
use socksprox.Address.{AddrInfo}
use socksprox.Base.Int.{ℤ}
use socksprox.Base.Text.{◌>>=◌}
use socksprox.Base.{
  ℕ, zero, suc, Bool, true, false, ◌||◌, List, [], ◌∷◌, ◌++◌, Option, none, some, if◌then◌else◌,
}
use socksprox.Config.{Configs}
use socksprox.Conn.Monad.{M, ◌>>◌}
use socksprox.Conn.{Fd, Side, Events, Os, World}
use socksprox.Net.Accept.{Block, Accepted, accept_new_client}
use socksprox.Net.Accepted.{no_pointers}
use socksprox.Resolver.{answer, resolve_ret}
use socksprox.Server.Start.{l_listenerror}
use socksprox.Socks.Dispatch.{socks5}

abbrev pub l_epollwaiterror : ℕ
l_epollwaiterror = 0x0E

abbrev pub l_epolldatanull : ℕ
l_epolldatanull = 0x0F

abbrev pub l_newclientfail : ℕ
l_newclientfail = 0x10

-- A connection, and what the system answers to its calls.
pub record Connection : Type 0 where
  pub os : Os
  pub world : World

-- The connections so far, also those that were closed, the number of calls of `accept_new_client`,
-- and the codes given to `log_error` by the loop, the latest first.
pub record Server : Type 0 where
  pub connections : List Connection
  pub attempts : ℕ
  pub logged : List ℕ

-- `epoll_wait` fails, or an event's pointer leads to nothing, a listener, a side of a connection, or the resolver,
-- with the connection and the answer that its thread has written. The events themselves matter for
-- the first three only.
pub data LoopEvent : Type 0 where
  wait_error null_event : LoopEvent
  listener_event : Fd → Events → LoopEvent
  peer_event : ℕ → Side → Events → LoopEvent
  resolver_event : ℕ → ℤ → List AddrInfo → LoopEvent

-- The answers of the system to one call of `accept_new_client` and to the connection that comes of
-- it, and what the memory of its buffers holds.
pub record Arrival : Type 0 where
  pub os : Os
  pub storage : Block → List ℕ

abbrev pub log_code : ℕ → Server → Server
log_code code s = record s { logged = code ∷ s.logged }

-- An action on the connection with the number; a pointer that is none is undefined.
abbrev pub acted :
    Connection → List Connection → Option (Unit {0} × World) → Option (List Connection)
acted c cs none = none
acted c cs (some (u, w)) = some (record c { world = w } ∷ cs)

abbrev pub on_connection : List Connection → ℕ → (Os → M (Unit {0})) → Option (List Connection)
on_connection [] i act = none
on_connection (c ∷ cs) zero act = acted c cs (act c.os c.world)
on_connection (c ∷ cs) (suc i) act = on_connection cs i act >>= λ ds. some (c ∷ ds)

-- The result of `accept_new_client`.
abbrev pub joined : Os → Server → Option World → Server
joined os s none = log_code l_newclientfail s
joined os s (some w) = record s {
  connections = s.connections ++ (record { os = os; world = w } ∷ []);
}

abbrev pub arrived : Os → Server → Option Accepted → Option Server
arrived os s none = none
arrived os s (some r) = some (joined os s r.world)

abbrev pub with_connections : Server → Option (List Connection) → Option (Bool × Server)
with_connections s none = none
with_connections s (some cs) = some (true, record s { connections = cs })

-- The rest of the loop behind one event.
abbrev pub go_on :
    Option (Bool × Server) → (Server → Option (Bool × Server)) → Option (Bool × Server)
go_on none next = none
go_on (some (false, s)) next = some (false, s)
go_on (some (true, s)) next = next s

module _ (configs : Configs) (arrivals : ℕ → Arrival) where
  unfoldable pub accept_event : Fd → Server → Option Server
  accept_event fd s =
      let arrival : Arrival = arrivals s.attempts in
      arrived arrival.os (record s { attempts = suc s.attempts })
        (accept_new_client arrival.os arrival.storage fd
          (record { pointers = no_pointers; calls = [] }))

  -- One event; false where `main` returns, once the logger has ended.
  unfoldable pub handle_event : LoopEvent → Server → Option (Bool × Server)
  handle_event wait_error s = some (false, log_code l_epollwaiterror s)
  handle_event null_event s = some (true, log_code l_epolldatanull s)
  handle_event (listener_event fd ev) s =
      if ev.epollin
      then (accept_event fd s >>= λ t. some (true, t))
      else some (false, log_code l_listenerror s)
  handle_event (peer_event i who ev) s =
      if ev.epollin || ev.epollout
      then with_connections s (on_connection s.connections i (λ os. socks5 os who configs ev))
      else some (true, s)
  handle_event (resolver_event i gai_ret res) s =
      with_connections s
        (on_connection s.connections i (λ os. answer res >> resolve_ret os configs gai_ret))

  -- The events of one or more calls of `epoll_wait`, in order.
  unfoldable pub run_loop : List LoopEvent → Server → Option (Bool × Server)
  run_loop [] s = some (true, s)
  run_loop (event ∷ events) s = go_on (handle_event event s) (λ t. run_loop events t)
