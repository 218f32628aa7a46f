-- ===== src/Tests/Servers.antt =====
-- The server around the connections at concrete inputs.
use socksprox.Address.{Sockaddr, SockaddrNode}
use socksprox.Base.Bytes.{equal_bytes}
use socksprox.Base.{
  ℕ, Bool, true, ◌≡◌, ◌≢◌, refl, List, [], ◌∷◌, Option, none, some, if◌then◌else◌, take, ltb, arith,
  replicate,
}
use socksprox.Conn.Epoll.{ep_waiting_send}
use socksprox.Conn.Monad.{
  ◌>>=◌, has_shared, load, load_self, load_info, modify, modify_info, set_state, set_rep, issue,
  issue_only, recv, send, epoll_ctl, log_access, log_error, write_client_out, write_server_out,
  peek_client_out, peek_server_out, consume_client_out, consume_server_out,
}
use socksprox.Ring.{copy_at, two_copies, write_ringbuff, two_reads, peek_ringbuff, consume_ringbuff}
use socksprox.Socks.Handshake.{
  waitingmethods, receive, parse_methods, answer_methods, select_method,
}
use socksprox.Socks.Reply.{vercheck}
use socksprox.Conn.{State, Call, client, Os, World}
use socksprox.Socks.Request.{resolve}
use socksprox.Net.Accept.{
  Block, alloc, register_client, accept_buffers, accept_access, accept_info, accept_shared,
  accept_data, accept_answer, accept_new_client,
}
use socksprox.Net.Accepted.{Accounts, no_pointers, accept_new_client-Accounts}
use socksprox.Net.{outbuffsize}
use socksprox.Resolver.Misread.{read_at, resolve-take_lookup}
use socksprox.Resolver.{retry, take_lookup}
use socksprox.Server.Listen.{
  init_listeners, listen_rounds, listen_round, v6flag, bind_listener, ep_add_listener,
  unless_failed,
}
use socksprox.Server.Listened.{listened, AllRegistered, init_listeners-listened}
use socksprox.Server.Loop.{
  Connection, Server, LoopEvent, listener_event, peer_event, run_loop, handle_event, accept_event,
  Arrival,
}
use socksprox.Server.Own.{run_own}
use socksprox.Server.Projected.{connection_at, run_loop-run_own}
use socksprox.Server.Start.{init_logger, start}
use socksprox.Server.Started.{Orderly, start-Orderly}
use socksprox.Server.{Machine}
use socksprox.Socks.Dispatch.{handle, socks5}
use socksprox.Tests.Rules.{inside}
use socksprox.Tests.Worlds.{start_world, os, configs, world_in, event}
use socksprox.Tests.{empty_ring}

abbrev zeros : Block → List ℕ
zeros b = replicate outbuffsize 0

-- A client with descriptor 7.
abbrev arriving : Os
arriving = record os {
  accepted = λ n. some (7, inside);
  malloc_ok = λ n. true;
  epoll_ok = λ n. true;
}

accept_new_client-Accounts_example :
    Accounts
      (accept_new_client arriving zeros (some 3) (record { pointers = no_pointers; calls = [] }))
accept_new_client-Accounts_example =
    accept_new_client-Accounts arriving zeros (λ b. refl) (some 3) []

-- The name "abc" and the port 80; the byte that nothing has written is 2.
abbrev asking : Os
asking = record os { stack_byte = 2; shared_pointer = replicate 8 1 }

resolve-take_lookup_example :
    (w' : World) × (msg : List ℕ) × (resolve asking
        (3 ∷ 97 ∷ 98 ∷ 99 ∷ 0 ∷ 80 ∷ [])
        (world_in State.waiting_command empty_ring)
      ≡ some (tt, w'))
    × (w'.calls ≡ Call.resolve msg ∷ [])
    × (take_lookup msg ≡ (
        if ltb 3 2
        then retry []
        else read_at (replicate 8 1) (take 5 (3 ∷ 97 ∷ 98 ∷ 99 ∷ 0 ∷ 80 ∷ [])) 2))
unfolding equal_bytes
resolve-take_lookup_example =
    resolve-take_lookup asking (3 ∷ 97 ∷ 98 ∷ 99 ∷ 0 ∷ 80 ∷ [])
      (world_in State.waiting_command empty_ring) refl refl (ground arith) refl (omega arith)
      (omega arith) (ground arith)

abbrev machine : Machine
machine = record { ok = λ n. true; fd = λ n. n }

abbrev two_addresses : List SockaddrNode
two_addresses =
    record { sa = inside; raw = [] }
    ∷ record { sa = Sockaddr.inet6 (4 ∷ 56 ∷ []) (replicate 16 0); raw = [] }
    ∷ []

init_listeners-listened_example :
    (two_addresses ≢ [])
    × ((init_listeners machine two_addresses []).1 ≡ listened machine two_addresses [])
    × AllRegistered machine two_addresses []
unfolding init_listeners listen_rounds listen_round v6flag bind_listener ep_add_listener
    unless_failed
init_listeners-listened_example = init_listeners-listened machine two_addresses [] refl

start-Orderly_example :
    Orderly machine configs (init_logger machine []).1 (start machine true configs [])
unfolding init_logger
start-Orderly_example = start-Orderly machine configs [] refl

abbrev new_connection : Connection
new_connection = record { os = os; world = start_world }

-- Two clients that have just been accepted.
abbrev two_clients : Server
two_clients = record {
  connections = new_connection ∷ new_connection ∷ [];
  attempts = 2;
  logged = [];
}

abbrev arrivals : ℕ → Arrival
arrivals n = record { os = arriving; storage = zeros }

abbrev loop_events : List LoopEvent
loop_events =
    peer_event 0 client event ∷ listener_event (some 3) event ∷ peer_event 1 client event ∷ []

abbrev server_of : Option (Bool × Server) → Server
server_of none = two_clients
server_of (some (b, s)) = s

loop_events-run :
    run_loop configs arrivals loop_events two_clients
    ≡ some (true, server_of (run_loop configs arrivals loop_events two_clients))
unfolding run_loop handle_event accept_event accept_new_client accept_answer accept_data
    accept_shared accept_info accept_access accept_buffers register_client alloc ◌>>=◌ socks5
    has_shared handle load load_self load_info modify modify_info set_state set_rep issue issue_only
    recv send epoll_ctl log_access log_error waitingmethods receive parse_methods answer_methods
    select_method vercheck write_client_out write_server_out peek_client_out peek_server_out
    consume_client_out consume_server_out write_ringbuff two_copies copy_at peek_ringbuff two_reads
    consume_ringbuff ep_waiting_send
loop_events-run = refl

run_loop-run_own_example :
    (w : World) × (run_own configs loop_events 1 os start_world ≡ some (tt, w))
    × (connection_at (server_of (run_loop configs arrivals loop_events two_clients)).connections 1
        ≡ some (record new_connection { world = w }))
run_loop-run_own_example =
    run_loop-run_own configs arrivals loop_events two_clients
      (server_of (run_loop configs arrivals loop_events two_clients)) 1 new_connection refl
      loop_events-run
