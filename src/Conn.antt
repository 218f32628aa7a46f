-- ===== src/Conn.antt =====
-- A client's connection: the structures of include/epoll_data.h, the calls that the program makes
-- on the system, and the monad in which the handlers run.
pub mod Monad
pub mod Epoll
pub mod Live
pub mod Keeps
pub mod Quiet
pub mod Alive
use socksprox.Address.{Family, Sockaddr, AddrInfo}
use socksprox.Base.Int.{ℤ}
use socksprox.Base.{ℕ, Bool, true, false, List, Option, none, some, ◌==◌}
use socksprox.Ring.{Ringbuff}

-- STATE_NO_STATE to STATE_CLOSED.
pub data State : Type 0 where
  no_state waiting_methods sending_method authenticating waiting_command async_dns : State
  sending_reply sending_reply_2 connecting bind_listening full full_udpa half_close closed : State

-- A file descriptor; `none` is -1.
abbrev pub Fd : Type 0
Fd = Option ℕ

abbrev pub same_fd : Fd → Fd → Bool
same_fd none none = true
same_fd (some a) (some b) = a == b
same_fd _ _ = false

-- Which of the two `struct Data` of a connection an event carries.
pub data Side : Type 0 where
  client server : Side

-- `ai` is the list that the resolver returned, `[]` for NULL; `sa` is the address of the request.
pub record Info : Type 0 where
  pub method : ℕ
  pub rep : ℕ
  pub cmd : ℕ
  pub atyp : ℕ
  pub resolver_ret : ℤ
  pub ai_index : ℕ
  pub ai : List AddrInfo
  pub sa : Option Sockaddr

-- `struct Shared`. `client_data` and `server_data` say whether the pointers are not NULL; `info` is
-- `none` for NULL; `buffers` says whether the two buffers' storage is allocated, and their `buff` is
-- `[]` for NULL; `server_addr` is
-- `access->server`. The pointer `ptr` is always NULL and is left out.
pub record Shared : Type 0 where
  pub state : State
  pub client_fd : Fd
  pub server_fd : Fd
  pub client_out : Ringbuff
  pub server_out : Ringbuff
  pub client_data : Bool
  pub server_data : Bool
  pub client_flags : ℕ
  pub server_flags : ℕ
  pub server_addr : Option Sockaddr
  pub info : Option Info
  pub buffers : Bool

-- The events that a descriptor is registered for: EPOLLIN, EPOLLOUT, or both.
pub data Interest : Type 0 where
  reading writing both : Interest

-- The calls that leave the program, with their arguments. The pointer that an epoll call registers
-- is a `Side`, or `none` for NULL.
pub data Call : Type 0 where
  recv : Fd → ℕ → Call
  send : Fd → List ℕ → Call
  epoll_add epoll_mod : Fd → Interest → Option Side → Call
  epoll_del : Fd → Call
  close_fd : Fd → Call
  socket : Family → Call
  datagram_socket : Family → Call
  nonblocking : Fd → Call
  connect : Fd → Sockaddr → Call
  bind : Fd → Sockaddr → Call
  listen : Fd → Call
  accept : Fd → Call
  getsockname : Fd → Call
  getsockopt : Fd → Call
  shutdown_read shutdown_write : Fd → Call
  malloc : Call
  resolve : List ℕ → Call
  log_access : ℕ → Call
  log_error : ℕ → Call

-- How `connect` ends: at once, later (EAGAIN or EINPROGRESS), or with another error.
pub data Outcome : Type 0 where
  connected in_progress refused : Outcome

-- What the system answers: each function gives the answer to the call that is made after so many
-- earlier ones. `recv` gives the bytes at hand, `[]` where the result is 0 or -1, and `send` the
-- number of bytes that the socket takes, `none` for -1; true means success. `overrun_goes_on` says
-- whether the program goes on once a byte behind an array of the stack is overwritten.
pub record Os : Type 0 where
  pub recv_bytes : ℕ → List ℕ
  pub send_room : ℕ → Option ℕ
  pub epoll_ok : ℕ → Bool
  pub socket_fd : ℕ → Fd
  pub connect_outcome : ℕ → Outcome
  pub bind_ok : ℕ → Bool
  pub listen_ok : ℕ → Bool
  pub accepted : ℕ → Option (ℕ × Sockaddr)
  pub socket_name : ℕ → Option Sockaddr
  pub socket_error : ℕ → Option ℕ
  pub malloc_ok : ℕ → Bool
  pub shared_pointer : List ℕ
  pub stack_byte : ℕ
  pub overrun_goes_on : Bool
  pub enetunreach : ℕ
  pub ehostunreach : ℕ
  pub etimedout : ℕ
  pub econnrefused : ℕ

-- The memory of one connection, and the calls made so far, the latest first. `client_self` and
-- `server_self` are the fields `self_fd` of the two `struct Data`, and `shared_set` says whether
-- their fields `shared`, which are copies of one pointer, are not NULL; the other flags say what is
-- allocated.
pub record World : Type 0 where
  pub shared : Shared
  pub shared_set : Bool
  pub shared_live : Bool
  pub client_self : Fd
  pub server_self : Fd
  pub client_live : Bool
  pub server_live : Bool
  pub calls : List Call

-- The bits of `event->events` that the handlers test.
pub record Events : Type 0 where
  pub epollin : Bool
  pub epollout : Bool
