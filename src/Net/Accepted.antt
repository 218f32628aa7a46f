-- ===== src/Net/Accepted.antt =====
-- What `accept_new_client` leaves behind: a connection that the handlers can take, or nothing.
use socksprox.Address.{Sockaddr}
use socksprox.Base.{
  ℕ, ◌≡◌, ◌≢◌, refl, sym, true, List, ◌∷◌, Option, none, some, length, Bool-cases, inl, inr, arith,
}
use socksprox.Conn.Alive.{alive}
use socksprox.Conn.{State, Fd, client, Call, Os, World}
use socksprox.Net.Accept.{
  Block, client_buff, server_buff, Pointer, null, live, Pointers, Accepted, free_all, give_up,
  new_ring, new_world, alloc, register_client, accept_buffers, accept_access, accept_info,
  accept_shared, accept_data, accept_answer, accept_new_client,
}
use socksprox.Net.{outbuffsize}
use socksprox.Ring.Bounds.{IsValid}

abbrev pub AllPointers : (Pointer → Type 0) → Pointers → Type 0
AllPointers P p =
    P p.data_ptr
    × P p.shared_ptr
    × P p.info_ptr
    × P p.access_ptr
    × P p.ss_client_ptr
    × P p.ss_server_ptr
    × P p.client_buff_ptr
    × P p.server_buff_ptr

-- A connection at its start: its structures are allocated and its buffers are valid.
pub record IsNew (w : World) : Type 0 where
  pub waits : w.shared.state ≡ State.waiting_methods
  pub allocated : alive client w ≡ true
  pub client_valid : IsValid w.shared.client_out
  pub server_valid : IsValid w.shared.server_out

-- With a new connection all memory is held; without one, none is.
abbrev pub Kept : Option World → Pointers → Type 0
Kept none p = AllPointers (λ v. v ≢ live) p
Kept (some w) p = AllPointers (λ v. v ≡ live) p × IsNew w

-- The run is defined, and accounts for its memory.
abbrev pub Accounts : Option Accepted → Type 0
Accounts none = ⊥
Accounts (some r) = Kept r.world r.final.pointers

abbrev pub no_pointers : Pointers
no_pointers = record {
  data_ptr = null;
  shared_ptr = null;
  info_ptr = null;
  access_ptr = null;
  ss_client_ptr = null;
  ss_server_ptr = null;
  client_buff_ptr = null;
  server_buff_ptr = null;
}

abbrev data_live : Pointers
data_live = record no_pointers { data_ptr = live }

abbrev shared_live : Pointers
shared_live = record data_live { shared_ptr = live }

abbrev info_live : Pointers
info_live = record shared_live { info_ptr = live }

abbrev access_live : Pointers
access_live = record info_live { access_ptr = live; ss_client_ptr = live; ss_server_ptr = live }

abbrev all_live : Pointers
all_live = record access_live { client_buff_ptr = live; server_buff_ptr = live }

module _ (os : Os) (storage : Block → List ℕ)
    (sized : (b : Block) → length (storage b) ≡ outbuffsize) where
  new_ring-IsValid : (b : Block) → IsValid (new_ring (storage b))
  new_ring-IsValid b = record {
    storage = sym (sized b);
    positive = omega arith;
    small = omega arith;
    readhead_in = omega arith;
    used_in = omega arith;
    heads = refl;
  }

  new_world-IsNew : (fd : Fd) (calls : List Call) → IsNew (new_world fd storage calls)
  new_world-IsNew fd calls = record {
    waits = refl;
    allocated = refl;
    client_valid = new_ring-IsValid client_buff;
    server_valid = new_ring-IsValid server_buff;
  }

  -- All is allocated: only the registration can fail.
  register_client-Accounts :
      (fd : Fd) (calls : List Call)
      → Accounts (register_client os storage fd (record { pointers = all_live; calls = calls }))
  unfolding register_client give_up free_all
  register_client-Accounts fd calls = elim (Bool-cases (os.epoll_ok (length calls))) [
    | inl e ↦ rw e ((refl, refl, refl, refl, refl, refl, refl, refl), new_world-IsNew fd _)
    | inr e ↦ rw e (ground arith)
  ]

  -- The earlier stages: an allocation fails, or the next stage follows.
  accept_buffers-Accounts :
      (fd : Fd) (calls : List Call)
      → Accounts (accept_buffers os storage fd (record { pointers = access_live; calls = calls }))
  unfolding accept_buffers alloc give_up free_all
  accept_buffers-Accounts fd calls =
      let next = register_client-Accounts fd (Call.malloc ∷ Call.malloc ∷ calls) in ground arith

  accept_access-Accounts :
      (fd : Fd) (calls : List Call)
      → Accounts (accept_access os storage fd (record { pointers = info_live; calls = calls }))
  unfolding accept_access alloc give_up free_all
  accept_access-Accounts fd calls =
      let next = accept_buffers-Accounts fd (Call.malloc ∷ Call.malloc ∷ Call.malloc ∷ calls) in
      ground arith

  accept_info-Accounts :
      (fd : Fd) (calls : List Call)
      → Accounts (accept_info os storage fd (record { pointers = shared_live; calls = calls }))
  unfolding accept_info alloc give_up free_all
  accept_info-Accounts fd calls =
      let next = accept_access-Accounts fd (Call.malloc ∷ calls) in ground arith

  accept_shared-Accounts :
      (fd : Fd) (calls : List Call)
      → Accounts (accept_shared os storage fd (record { pointers = data_live; calls = calls }))
  unfolding accept_shared alloc give_up free_all
  accept_shared-Accounts fd calls =
      let next = accept_info-Accounts fd (Call.malloc ∷ calls) in ground arith

  accept_data-Accounts :
      (fd : Fd) (calls : List Call)
      → Accounts (accept_data os storage fd (record { pointers = no_pointers; calls = calls }))
  unfolding accept_data alloc give_up free_all
  accept_data-Accounts fd calls =
      let next = accept_shared-Accounts fd (Call.malloc ∷ calls) in ground arith

  -- Whatever the system answers, `accept_new_client` frees nothing twice; without a new connection
  -- it holds no memory when it returns, and with one it holds all eight allocations, the connection
  -- waits for the methods, its structures are allocated and its buffers valid.
  pub accept_new_client-Accounts :
      (fd : Fd) (calls : List Call)
      → Accounts
          (accept_new_client os storage fd (record { pointers = no_pointers; calls = calls }))
  unfolding accept_new_client accept_answer
  accept_new_client-Accounts fd calls = answered (os.accepted (length calls))
    where
      answered :
          (o : Option (ℕ × Sockaddr))
          → Accounts
              (accept_answer os storage fd o (record { pointers = no_pointers; calls = calls }))
      answered none = ground arith
      answered (some (new_fd, ss)) = accept_data-Accounts (some new_fd) _
