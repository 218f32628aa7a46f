-- ===== src/Tests/Connections.antt =====
-- The handlers at concrete inputs.
use socksprox.Address.{ntohl, htonl}
use socksprox.Base.{true, ◌≡◌, ◌⊎◌, refl, length, [], ◌∷◌, some, arith, replicate}
use socksprox.Conn.Epoll.{ep_waiting_send, ep_done_sending}
use socksprox.Conn.Monad.{
  ◌>>=◌, has_shared, load, load_self, load_info, modify, modify_info, set_state, set_rep, issue,
  issue_only, recv, send, epoll_ctl, log_access, log_error, close_fd, write_client_out,
  write_server_out, peek_client_out, peek_server_out, consume_client_out, consume_server_out,
}
use socksprox.Conn.Keeps.{ValidOrFreed}
use socksprox.Conn.Quiet.{outbound}
use socksprox.Conn.{Call, server, State, client, World}
use socksprox.Firewall.Rules.{link_rules}
use socksprox.Firewall.{
  firewall_iton, shift_left32, mask_bytes, mask_sin, mask_sin6, mask_network, link_blocks,
}
use socksprox.Net.Forward.{enqueued, read_traffic-enqueued}
use socksprox.Net.Sending.{send_traffic-sent}
use socksprox.Net.Traffic.{read_traffic, send_traffic}
use socksprox.Ring.Bounds.{IsValid}
use socksprox.Ring.Refine.{contents}
use socksprox.Ring.{
  Ringbuff, copy_at, two_copies, write_ringbuff, two_reads, peek_ringbuff, consume_ringbuff,
}
use socksprox.Socks.Blocked.Total.{parse_request_refused}
use socksprox.Socks.Dispatch.{handle, socks5}
use socksprox.Socks.Errors.{connect_rep-nunrech}
use socksprox.Socks.Handshake.{
  waitingmethods, receive, parse_methods, answer_methods, select_method, sendingmethod,
  send_pending, enter_method,
}
use socksprox.Socks.Methods.{AreRefused, Accepted, select_method-first}
use socksprox.Socks.Remote.{connect_rep}
use socksprox.Socks.Reply.{vercheck}
use socksprox.Socks.Request.{request_sockaddr, parse_request}
use socksprox.Socks.Runs.{run_events, Reaches, run_events-Reaches}
use socksprox.Socks.Total.{socks5_total}
use socksprox.Socks.Transitions.{may_follow, socks5-may_follow}
use socksprox.Tests.Rules.{private_rules, private_rules-AreRules, inside-IsAddress}
use socksprox.Tests.Worlds.{
  os, blocks, configs, shared_in, world_in, world_of, event, two_events, start_world,
}
use socksprox.Tests.{empty_ring, empty_ring-IsValid, two_bytes, two_bytes-IsValid}

two_events-run :
    run_events os configs two_events start_world
    ≡ some (tt, world_of (run_events os configs two_events start_world))
unfolding ◌>>=◌ run_events socks5 has_shared handle load load_self load_info modify modify_info
    set_state set_rep issue issue_only recv send epoll_ctl log_access log_error close_fd
    waitingmethods receive parse_methods answer_methods select_method vercheck sendingmethod
    send_pending enter_method write_client_out write_server_out peek_client_out peek_server_out
    consume_client_out consume_server_out write_ringbuff two_copies copy_at peek_ringbuff two_reads
    consume_ringbuff ep_waiting_send ep_done_sending
two_events-run = refl

run_events-Reaches_example :
    Reaches State.waiting_methods
      (world_of (run_events os configs two_events start_world)).shared.state
    × ValidOrFreed
        (world_of (run_events os configs two_events start_world)).shared.buffers
        (world_of (run_events os configs two_events start_world)).shared.client_out
    × ValidOrFreed
        (world_of (run_events os configs two_events start_world)).shared.buffers
        (world_of (run_events os configs two_events start_world)).shared.server_out
run_events-Reaches_example =
    run_events-Reaches os configs two_events start_world
      (world_of (run_events os configs two_events start_world)) empty_ring-IsValid
      empty_ring-IsValid two_events-run

-- The two events take a new client to the state in which its request is awaited.
two_events-state :
    (world_of (run_events os configs two_events start_world)).shared.state ≡ State.waiting_command
unfolding ◌>>=◌ run_events socks5 has_shared handle load load_self load_info modify modify_info
    set_state set_rep issue issue_only recv send epoll_ctl log_access log_error close_fd
    waitingmethods receive parse_methods answer_methods select_method vercheck sendingmethod
    send_pending enter_method write_client_out write_server_out peek_client_out peek_server_out
    consume_client_out consume_server_out write_ringbuff two_copies copy_at peek_ringbuff two_reads
    consume_ringbuff ep_waiting_send ep_done_sending
two_events-state = refl

methods-run :
    socks5 os client configs event start_world
    ≡ some (tt, world_of (socks5 os client configs event start_world))
unfolding ◌>>=◌ run_events socks5 has_shared handle load load_self load_info modify modify_info
    set_state set_rep issue issue_only recv send epoll_ctl log_access log_error close_fd
    waitingmethods receive parse_methods answer_methods select_method vercheck sendingmethod
    send_pending enter_method write_client_out write_server_out peek_client_out peek_server_out
    consume_client_out consume_server_out write_ringbuff two_copies copy_at peek_ringbuff two_reads
    consume_ringbuff ep_waiting_send ep_done_sending
methods-run = refl

socks5_total_example :
    (w' : World) × (socks5 os client configs event start_world ≡ some (tt, w'))
    × (may_follow State.waiting_methods w'.shared.state ≡ true)
    × ValidOrFreed w'.shared.buffers w'.shared.client_out
    × ValidOrFreed w'.shared.buffers w'.shared.server_out
socks5_total_example =
    socks5_total os client configs event start_world refl refl empty_ring-IsValid empty_ring-IsValid

socks5-may_follow_example :
    (may_follow State.waiting_methods
        (world_of (socks5 os client configs event start_world)).shared.state
      ≡ true)
    × ValidOrFreed
        (world_of (socks5 os client configs event start_world)).shared.buffers
        (world_of (socks5 os client configs event start_world)).shared.client_out
    × ValidOrFreed
        (world_of (socks5 os client configs event start_world)).shared.buffers
        (world_of (socks5 os client configs event start_world)).shared.server_out
socks5-may_follow_example =
    socks5-may_follow os client configs event start_world
      (world_of (socks5 os client configs event start_world)) empty_ring-IsValid empty_ring-IsValid
      methods-run

-- CONNECT to 10.1.2.3, port 80.
abbrev request : Ringbuff
request = record {
  buff = 5 ∷ 1 ∷ 0 ∷ 1 ∷ 10 ∷ 1 ∷ 2 ∷ 3 ∷ 0 ∷ 80 ∷ replicate 22 0;
  readhead = 0;
  writehead = 10;
  capacity = 32;
  used = 10;
}

request-IsValid : IsValid request
request-IsValid = record {
  storage = refl;
  positive = omega arith;
  small = omega arith;
  readhead_in = omega arith;
  used_in = omega arith;
  heads = refl;
}

abbrev asked : World
asked = world_in State.waiting_command request

blocks-stored : link_rules 0 private_rules [] ≡ some blocks
unfolding link_rules link_blocks firewall_iton mask_network mask_bytes mask_sin6 shift_left32
    mask_sin htonl ntohl
blocks-stored = refl

parse_request_refused_example :
    (w' : World) × (parse_request os client configs asked ≡ some (tt, w')) × (outbound w'.calls ≡ 0)
unfolding request_sockaddr
parse_request_refused_example =
    parse_request_refused os client 0 private_rules configs asked refl private_rules-AreRules
      blocks-stored request-IsValid inside-IsAddress refl refl refl

abbrev sending : World
sending = record (world_in State.full two_bytes) {
  shared = record (shared_in State.full two_bytes) { server_fd = some 9 };
}

read_traffic-enqueued_example :
    (w' : World) × (read_traffic os (some 4) sending ≡ some (some 3, w'))
    × (contents w'.shared.server_out ≡ enqueued two_bytes (5 ∷ 1 ∷ 0 ∷ []))
    × (w'.shared.client_out ≡ empty_ring)
read_traffic-enqueued_example =
    read_traffic-enqueued os (some 4) client sending 5 (1 ∷ 0 ∷ []) refl refl refl two_bytes-IsValid
      refl

send_traffic-sent_example :
    (w' : World) × (send_traffic os (some 9) sending
      ≡ some (some (length (contents w'.shared.server_out)), w'))
    × (w'.calls ≡ Call.send (some 9) (7 ∷ 9 ∷ []) ∷ [])
    × (contents w'.shared.server_out ≡ [])
    × (w'.shared.client_out ≡ empty_ring)
send_traffic-sent_example =
    send_traffic-sent os (some 9) server sending 2 refl refl refl two_bytes-IsValid refl

select_method-first_example :
    Accepted configs (2 ∷ 0 ∷ [])
    ⊎ (AreRefused configs (2 ∷ 0 ∷ []) × (select_method configs (2 ∷ 0 ∷ []) ≡ 255))
select_method-first_example = select_method-first configs (2 ∷ 0 ∷ [])

-- ECONNREFUSED
connect_rep-nunrech_example : connect_rep os 111 ≡ 3
connect_rep-nunrech_example = connect_rep-nunrech os 15 refl (omega arith)
