-- ===== src/Net/Accept.antt =====
-- `accept_new_client` of src/net.c: the structures of a new connection, and what is given back
-- where one of them cannot be had.
use socksprox.Address.{Sockaddr}
use socksprox.Base.Int.{negsuc}
use socksprox.Base.{
  ℕ, Bool, true, false, ◌||◌, List, [], ◌∷◌, ◌++◌, Option, none, some, if◌then◌else◌, length,
}
use socksprox.Conn.Epoll.{l_mallocerror, l_epollerroradd}
use socksprox.Conn.{State, Fd, client, Info, Shared, reading, Call, Os, World}
use socksprox.Net.{outbuffsize}
use socksprox.Ring.{Ringbuff}

abbrev pub a_acceptnewclient : ℕ
a_acceptnewclient = 0x00

-- The allocations of `accept_new_client`.
pub data Block : Type 0 where
  data_block shared_block info_block access_block ss_client ss_server : Block
  client_buff server_buff : Block

-- A pointer: NULL, to memory that is allocated, or to memory that was freed.
pub data Pointer : Type 0 where
  null live dead : Pointer

pub record Pointers : Type 0 where
  pub data_ptr : Pointer
  pub shared_ptr : Pointer
  pub info_ptr : Pointer
  pub access_ptr : Pointer
  pub ss_client_ptr : Pointer
  pub ss_server_ptr : Pointer
  pub client_buff_ptr : Pointer
  pub server_buff_ptr : Pointer

abbrev pub at : Block → Pointers → Pointer
at data_block p = p.data_ptr
at shared_block p = p.shared_ptr
at info_block p = p.info_ptr
at access_block p = p.access_ptr
at ss_client p = p.ss_client_ptr
at ss_server p = p.ss_server_ptr
at client_buff p = p.client_buff_ptr
at server_buff p = p.server_buff_ptr

abbrev pub put : Block → Pointer → Pointers → Pointers
put data_block v p = record p { data_ptr = v }
put shared_block v p = record p { shared_ptr = v }
put info_block v p = record p { info_ptr = v }
put access_block v p = record p { access_ptr = v }
put ss_client v p = record p { ss_client_ptr = v }
put ss_server v p = record p { ss_server_ptr = v }
put client_buff v p = record p { client_buff_ptr = v }
put server_buff v p = record p { server_buff_ptr = v }

-- The pointers and the calls so far, the latest call first.
pub record Accepting : Type 0 where
  pub pointers : Pointers
  pub calls : List Call

-- The new connection, if there is one; none is the result -1.
pub record Accepted : Type 0 where
  pub world : Option World
  pub final : Accepting

abbrev pub is_null : Pointer → Bool
is_null null = true
is_null live = false
is_null dead = false

abbrev pub issue : Call → Accepting → Accepting
issue c s = record s { calls = c ∷ s.calls }

-- `free` of NULL does nothing; a second `free` is undefined.
abbrev pub free : Pointer → Option Pointer
free null = some null
free live = some dead
free dead = none

unfoldable pub free_all : List Block → Pointers → Option Pointers
free_all [] p = some p
free_all (b ∷ bs) p = elim (free (at b p)) [ none ↦ none | some v ↦ free_all bs (put b v p) ]

-- `close(new_fd)`, the calls of `free`, and what is logged before `return -1`.
unfoldable pub give_up : Fd → List Block → List Call → Accepting → Option Accepted
give_up new_fd blocks logged s = elim (free_all blocks s.pointers) [
  | none ↦ none
  | some p ↦ some (record {
    world = none;
    final = record { pointers = p; calls = logged ++ (Call.close_fd new_fd ∷ s.calls) };
  })
]

-- The rings and `info` as `accept_new_client` sets them.
abbrev pub new_ring : List ℕ → Ringbuff
new_ring buff = record {
  buff = buff;
  readhead = 0;
  writehead = 0;
  capacity = outbuffsize;
  used = 0;
}

abbrev pub new_info : Info
new_info = record {
  method = 0xFF;
  rep = 0xFF;
  cmd = 0xFF;
  atyp = 0xFF;
  resolver_ret = negsuc 0;
  ai_index = 0;
  ai = [];
  sa = none;
}

abbrev pub new_shared : Fd → (Block → List ℕ) → Shared
new_shared new_fd storage = record {
  state = State.waiting_methods;
  client_fd = new_fd;
  server_fd = none;
  client_out = new_ring (storage client_buff);
  server_out = new_ring (storage server_buff);
  client_data = true;
  server_data = false;
  client_flags = 0;
  server_flags = 0;
  server_addr = none;
  info = some new_info;
  buffers = true;
}

abbrev pub new_world : Fd → (Block → List ℕ) → List Call → World
new_world new_fd storage calls = record {
  shared = new_shared new_fd storage;
  shared_set = true;
  shared_live = true;
  client_self = new_fd;
  server_self = none;
  client_live = true;
  server_live = false;
  calls = calls;
}

-- `storage` is what the allocated buffers hold.
module _ (os : Os) (storage : Block → List ℕ) where
  unfoldable pub alloc : Block → Accepting → Accepting
  alloc b s =
      let v : Pointer = if os.malloc_ok (length s.calls) then live else null in
      record { pointers = put b v s.pointers; calls = Call.malloc ∷ s.calls }

  -- From the registration with epoll on.
  unfoldable pub register_client : Fd → Accepting → Option Accepted
  register_client new_fd s =
      let s' : Accepting = issue (Call.epoll_add new_fd reading (some client)) s in
      if os.epoll_ok (length s.calls)
      then some (record {
        world = some (new_world new_fd storage (Call.log_access a_acceptnewclient ∷ s'.calls));
        final = issue (Call.log_access a_acceptnewclient) s';
      })
      else give_up new_fd
          (data_block ∷ client_buff ∷ server_buff ∷ shared_block ∷ info_block ∷ access_block
            ∷ ss_client ∷ ss_server ∷ [])
          [] (issue (Call.log_error l_epollerroradd) s')

  -- The two buffers.
  unfoldable pub accept_buffers : Fd → Accepting → Option Accepted
  accept_buffers new_fd s =
      let s' : Accepting = alloc server_buff (alloc client_buff s) in
      if is_null s'.pointers.client_buff_ptr || is_null s'.pointers.server_buff_ptr
      then give_up new_fd
          (client_buff ∷ server_buff ∷ shared_block ∷ data_block ∷ info_block ∷ access_block
            ∷ ss_client ∷ ss_server ∷ [])
          (Call.log_error l_mallocerror ∷ []) s'
      else register_client new_fd s'

  -- The record for the log and the two addresses.
  unfoldable pub accept_access : Fd → Accepting → Option Accepted
  accept_access new_fd s =
      let s' : Accepting = alloc ss_server (alloc ss_client (alloc access_block s)) in
      let p : Pointers = s'.pointers in
      if is_null p.access_ptr || is_null p.ss_client_ptr || is_null p.ss_server_ptr
      then give_up new_fd
          (data_block ∷ shared_block ∷ info_block ∷ access_block ∷ ss_client ∷ ss_server ∷ [])
          (Call.log_error l_mallocerror ∷ []) s'
      else accept_buffers new_fd s'

  unfoldable pub accept_info : Fd → Accepting → Option Accepted
  accept_info new_fd s =
      let s' : Accepting = alloc info_block s in
      if is_null s'.pointers.info_ptr
      then give_up new_fd (data_block ∷ shared_block ∷ []) (Call.log_error l_mallocerror ∷ []) s'
      else accept_access new_fd s'

  unfoldable pub accept_shared : Fd → Accepting → Option Accepted
  accept_shared new_fd s =
      let s' : Accepting = alloc shared_block s in
      if is_null s'.pointers.shared_ptr
      then give_up new_fd (data_block ∷ []) (Call.log_error l_mallocerror ∷ []) s'
      else accept_info new_fd s'

  unfoldable pub accept_data : Fd → Accepting → Option Accepted
  accept_data new_fd s =
      let s' : Accepting = alloc data_block s in
      if is_null s'.pointers.data_ptr
      then give_up new_fd [] (Call.log_error l_mallocerror ∷ []) s'
      else accept_shared new_fd s'

  -- The result of `accept`: -1, or a descriptor and the address of the client.
  unfoldable pub accept_answer : Fd → Option (ℕ × Sockaddr) → Accepting → Option Accepted
  accept_answer fd none s = some (record { world = none; final = issue (Call.accept fd) s })
  accept_answer fd (some (new_fd, ss)) s =
      accept_data (some new_fd) (issue (Call.nonblocking (some new_fd)) (issue (Call.accept fd) s))

  -- `pointers` of `s` are those before the function, which are not read.
  unfoldable pub accept_new_client : Fd → Accepting → Option Accepted
  accept_new_client fd s = accept_answer fd (os.accepted (length s.calls)) s
