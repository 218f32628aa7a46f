-- ===== src/Tests/Worlds.antt =====
-- A system, a configuration and the memory of a connection, for the tests of the handlers.
use socksprox.Address.{Sockaddr, inet}
use socksprox.Base.Int.{negsuc}
use socksprox.Base.{true, false, List, [], ◌∷◌, Option, none, some, replicate}
use socksprox.Config.{Configs}
use socksprox.Conn.{State, Side, client, Shared, refused, Events, Os, World}
use socksprox.Firewall.{Blockaddr}
use socksprox.Ring.{Ringbuff}
use socksprox.Tests.{empty_ring}

-- A client that offers the method 0, and a system that refuses connections.
abbrev pub os : Os
os = record {
  recv_bytes = λ t. 5 ∷ 1 ∷ 0 ∷ [];
  send_room = λ t. some 2;
  epoll_ok = λ t. true;
  socket_fd = λ t. some 9;
  connect_outcome = λ t. refused;
  bind_ok = λ t. true;
  listen_ok = λ t. true;
  accepted = λ t. none;
  socket_name = λ t. none;
  socket_error = λ t. none;
  malloc_ok = λ t. true;
  shared_pointer = replicate 8 0;
  stack_byte = 0;
  overrun_goes_on = true;
  enetunreach = 101;
  ehostunreach = 113;
  etimedout = 110;
  econnrefused = 111;
}

-- The entries that `private_rules` are stored as.
abbrev pub blocks : List Blockaddr
blocks =
    record {
      netmask = record { inet_mask = 0; inet6_mask = 254 ∷ replicate 15 0 };
      sa = Sockaddr.inet6 (0 ∷ 0 ∷ []) (252 ∷ replicate 15 0);
    }
    ∷ record {
      netmask = record { inet_mask = 4278190080; inet6_mask = replicate 16 0 };
      sa = inet (0 ∷ 0 ∷ []) (10 ∷ 0 ∷ 0 ∷ 0 ∷ []);
    }
    ∷ []

abbrev pub configs : Configs
configs = record {
  listen_head = [];
  a_log = [];
  e_log = [];
  max_conns = negsuc 0;
  allow_domains = true;
  allow_connect = true;
  allow_bind = false;
  allow_udpassoc = false;
  methods = 1 ∷ replicate 254 0;
  after_methods = 0;
  bind_advertise = [];
  bind_listen = [];
  udpa_advertise = [];
  udpa_listen = [];
  block_head = blocks;
}

abbrev pub shared_in : State → Ringbuff → Shared
shared_in s input = record {
  state = s;
  client_fd = some 4;
  server_fd = none;
  client_out = empty_ring;
  server_out = input;
  client_data = true;
  server_data = false;
  client_flags = 0;
  server_flags = 0;
  server_addr = none;
  info = some (record {
    method = 0;
    rep = 255;
    cmd = 0;
    atyp = 0;
    resolver_ret = negsuc 0;
    ai_index = 0;
    ai = [];
    sa = none;
  });
  buffers = true;
}

abbrev pub world_in : State → Ringbuff → World
world_in s input = record {
  shared = shared_in s input;
  shared_set = true;
  shared_live = true;
  client_self = some 4;
  server_self = none;
  client_live = true;
  server_live = false;
  calls = [];
}

abbrev pub world_of : Option (Unit {0} × World) → World
world_of none = world_in State.no_state empty_ring
world_of (some (u, w)) = w

abbrev pub event : Events
event = record { epollin = true; epollout = true }

abbrev pub two_events : List (Side × Events)
two_events = (client, event) ∷ (client, event) ∷ []

abbrev pub start_world : World
start_world = world_in State.waiting_methods empty_ring
