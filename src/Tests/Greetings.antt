-- ===== src/Tests/Greetings.antt =====
-- A greeting with two methods, and the first bytes of the request behind it.
use socksprox.Base.Int.{negsuc}
use socksprox.Base.{◌≡◌, refl, [], ◌∷◌, none, some, arith}
use socksprox.Conn.{both, reading, State, client, Info, Call, Os, World}
use socksprox.Ring.Refine.{contents}
use socksprox.Socks.Greeting.{waiting_world}
use socksprox.Socks.Handshake.{select_method}
use socksprox.Socks.Negotiated.{greeting_events, run_events-negotiated}
use socksprox.Socks.Runs.{run_events}
use socksprox.Tests.Worlds.{os, configs}
use socksprox.Tests.{empty_ring, empty_ring-IsValid}

abbrev greeting_os : Os
greeting_os = record os { recv_bytes = λ t. 5 ∷ 2 ∷ 2 ∷ 0 ∷ 5 ∷ 1 ∷ [] }

abbrev new_info : Info
new_info = record {
  method = 0;
  rep = 255;
  cmd = 0;
  atyp = 0;
  resolver_ret = negsuc 0;
  ai_index = 0;
  ai = [];
  sa = none;
}

selected : select_method configs (2 ∷ 0 ∷ []) ≡ 0
unfolding select_method
selected = refl

run_events-negotiated_example :
    (w' : World) × (run_events greeting_os configs greeting_events
        (waiting_world 4 empty_ring empty_ring new_info [])
      ≡ some (tt, w'))
    × (w'.shared.state ≡ State.waiting_command)
    × (contents w'.shared.client_out ≡ [])
    × (contents w'.shared.server_out ≡ 5 ∷ 1 ∷ [])
    × (w'.calls
        ≡ Call.log_access 7
          ∷ Call.epoll_mod (some 4) reading (some client)
          ∷ Call.send (some 4) (5 ∷ 0 ∷ [])
          ∷ Call.epoll_mod (some 4) both (some client)
          ∷ Call.recv (some 4) 32
          ∷ [])
run_events-negotiated_example =
    run_events-negotiated greeting_os configs 4 empty_ring empty_ring new_info [] 5
      (2 ∷ 2 ∷ 0 ∷ 5 ∷ 1 ∷ []) (2 ∷ 0 ∷ []) (5 ∷ 1 ∷ []) 2 empty_ring-IsValid empty_ring-IsValid
      refl (omega arith) refl refl (omega arith) selected refl refl (omega arith) refl
