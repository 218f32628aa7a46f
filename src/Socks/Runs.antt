-- ===== src/Socks/Runs.antt =====
-- Sequences of events on a connection: the states on the way are a path through the state machine.
use socksprox.Base.{true, ◌≡◌, List, [], ◌∷◌, Option, none, some}
use socksprox.Config.{Configs}
use socksprox.Conn.Keeps.{ValidOrFreed, Inv, Holds}
use socksprox.Conn.Monad.{M, ◌>>=◌, ◌>>◌, pure}
use socksprox.Conn.{State, Side, Events, Os, World}
use socksprox.Socks.Dispatch.{socks5}
use socksprox.Socks.Transitions.{may_follow, may_follow_refl, Holds-socks5}

-- The events of a connection in order, each by `socks5`.
unfoldable pub run_events : Os → Configs → List (Side × Events) → M (Unit {0})
run_events os configs [] = pure tt
run_events os configs ((who, ev) ∷ more) = do socks5 os who configs ev; run_events os configs more

-- A path of edges between two states.
pub data Reaches : State → State → Type 0 where
  here : (s : State) → Reaches s s
  then_follow : (s t u : State) → may_follow s t ≡ true → Reaches t u → Reaches s u

-- What a run from a state leaves behind, if it is defined.
abbrev Follows : State → Option (Unit {0} × World) → Type 0
Follows s none = Unit
Follows s (some (u, w)) =
    Reaches s w.shared.state
    × ValidOrFreed w.shared.buffers w.shared.client_out
    × ValidOrFreed w.shared.buffers w.shared.server_out

Follows-extend :
    (s t : State) (r : Option (Unit {0} × World))
    → may_follow s t ≡ true
    → Follows t r
    → Follows s r
Follows-extend s t none e f = tt
Follows-extend s t (some (u, w)) e f = (then_follow s t w.shared.state e f.0, f.1, f.2)

Follows-bind :
    (s : State) (r : Option (Unit {0} × World)) (rest : M (Unit {0}))
    → Holds (may_follow s) r
    → ((w : World)
        → ValidOrFreed w.shared.buffers w.shared.client_out
        → ValidOrFreed w.shared.buffers w.shared.server_out
        → Follows w.shared.state (rest w))
    → Follows s (elim r [ none ↦ none | some (u, w) ↦ rest w ])
Follows-bind s none rest h k = tt
Follows-bind s (some (u, w)) rest h k =
    Follows-extend s w.shared.state (rest w) h.state_in (k w h.client_valid h.server_valid)

module _ (os : Os) (configs : Configs) where
  Follows-run_events :
      (events : List (Side × Events)) (w : World)
      → ValidOrFreed w.shared.buffers w.shared.client_out
      → ValidOrFreed w.shared.buffers w.shared.server_out
      → Follows w.shared.state (run_events os configs events w)
  unfolding run_events ◌>>=◌
  Follows-run_events [] w vc vs = (here w.shared.state, vc, vs)
  Follows-run_events ((who, ev) ∷ more) w vc vs =
      let start : Inv (may_follow w.shared.state) w.shared = record {
        state_in = may_follow_refl w.shared.state;
        client_valid = vc;
        server_valid = vs;
      } in
      Follows-bind w.shared.state (socks5 os who configs ev w) (run_events os configs more)
        (Holds-socks5 os who configs ev w start) (Follows-run_events more)

  -- Any sequence of events that the handlers of a connection take, whatever the system answers:
  -- from a world whose buffers are valid or freed, the states before and after it are joined by a path
  -- through the state machine, and each buffer is valid afterwards or, once freed, NULL.
  pub run_events-Reaches :
      (events : List (Side × Events)) (w w' : World)
      → ValidOrFreed w.shared.buffers w.shared.client_out
      → ValidOrFreed w.shared.buffers w.shared.server_out
      → run_events os configs events w ≡ some (tt, w')
      → Reaches w.shared.state w'.shared.state
        × ValidOrFreed w'.shared.buffers w'.shared.client_out
        × ValidOrFreed w'.shared.buffers w'.shared.server_out
  run_events-Reaches events w w' vc vs e = rw e at (Follows-run_events events w vc vs)
