-- ===== src/Conn/Monad.antt =====
-- State with failure: `none` is undefined behaviour, an access to memory that is freed or NULL.
-- Below the monad stand the accesses to the structures and the calls of the system.
use socksprox.Address.{Family, Sockaddr}
use socksprox.Base.{
  ℕ, Bool, ◌&&◌, List, [], ◌∷◌, Option, none, some, length, take, min, if◌then◌else◌,
}
use socksprox.Conn.{
  State, Fd, Side, client, server, Info, Shared, Call, Outcome, connected, in_progress, refused, Os,
  World,
}
use socksprox.Ring.{write_ringbuff, peek_ringbuff, consume_ringbuff}

abbrev pub M : Type 0 → Type 0
M A = World → Option (A × World)

abbrev pub pure : {A : Type 0} → A → M A
pure a w = some (a, w)

infixl 5 ◌>>=◌ ◌>>◌
unfoldable pub ◌>>=◌ : {A B : Type 0} → M A → (A → M B) → M B
◌>>=◌ m f w = elim (m w) [ none ↦ none | some (a, w') ↦ f a w' ]

abbrev pub ◌>>◌ : {B : Type 0} → M (Unit {0}) → M B → M B
m >> k = m >>= λ _. k

-- The branches on a result. Each waits for the result, as a test does.
abbrev pub on_option : {A B : Type 0} → Option A → M B → (A → M B) → M B
on_option none m f = m
on_option (some a) m f = f a

-- On bytes received: none, or some.
abbrev pub on_bytes : {B : Type 0} → List ℕ → M B → (List ℕ → M B) → M B
on_bytes [] m f = m
on_bytes (x ∷ xs) m f = f (x ∷ xs)

abbrev pub on_refused : {B : Type 0} → Outcome → M B → M B → M B
on_refused refused m n = m
on_refused connected m n = n
on_refused in_progress m n = n

abbrev pub undefined : {A : Type 0} → M A
undefined w = none

-- `data->shared`, or that it is not NULL, where `data` is allocated
unfoldable pub has_shared : M Bool
has_shared w = some (w.shared_set, w)

-- `*shared`
unfoldable pub load : M Shared
load w = if w.shared_live then some (w.shared, w) else none

unfoldable pub modify : (Shared → Shared) → M (Unit {0})
modify f w = if w.shared_live then some (tt, record w { shared = f w.shared }) else none

unfoldable pub set_state : State → M (Unit {0})
set_state s = modify (λ sh. record sh { state = s })

-- `data->self_fd`
unfoldable pub load_self : Side → M Fd
load_self client w = if w.client_live then some (w.client_self, w) else none
load_self server w = if w.server_live then some (w.server_self, w) else none

-- `*shared->info`
info_at : World → Option Info → Option (Info × World)
info_at w none = none
info_at w (some i) = some (i, w)

unfoldable pub load_info : M Info
unfolding info_at
load_info w = if w.shared_live then info_at w w.shared.info else none

unfoldable pub modify_info : (Info → Info) → M (Unit {0})
modify_info f = load_info >>= λ i. modify (λ sh. record sh { info = some (f i) })

unfoldable pub set_rep : ℕ → M (Unit {0})
set_rep r = modify_info (λ i. record i { rep = r })

-- The ring functions on the buffers of the connection.
unfoldable pub write_client_out : List ℕ → M ℕ
write_client_out xs w =
    if w.shared_live && w.shared.buffers
    then (let (n, r) = write_ringbuff w.shared.client_out xs in
        some (n, record w { shared = record w.shared { client_out = r } }))
    else none

unfoldable pub write_server_out : List ℕ → M ℕ
write_server_out xs w =
    if w.shared_live && w.shared.buffers
    then (let (n, r) = write_ringbuff w.shared.server_out xs in
        some (n, record w { shared = record w.shared { server_out = r } }))
    else none

unfoldable pub consume_client_out : ℕ → M ℕ
consume_client_out k w =
    if w.shared_live && w.shared.buffers
    then (let (n, r) = consume_ringbuff w.shared.client_out k in
        some (n, record w { shared = record w.shared { client_out = r } }))
    else none

unfoldable pub consume_server_out : ℕ → M ℕ
consume_server_out k w =
    if w.shared_live && w.shared.buffers
    then (let (n, r) = consume_ringbuff w.shared.server_out k in
        some (n, record w { shared = record w.shared { server_out = r } }))
    else none

unfoldable pub peek_client_out : ℕ → M (ℕ × List ℕ)
peek_client_out k w =
    if w.shared_live && w.shared.buffers
    then some (peek_ringbuff w.shared.client_out k, w)
    else none

unfoldable pub peek_server_out : ℕ → M (ℕ × List ℕ)
peek_server_out k w =
    if w.shared_live && w.shared.buffers
    then some (peek_ringbuff w.shared.server_out k, w)
    else none

-- A call that leaves the program; the result is the number of earlier calls.
unfoldable pub issue : Call → M ℕ
issue c w = some (length w.calls, record w { calls = c ∷ w.calls })

unfoldable pub issue_only : Call → M (Unit {0})
issue_only c w = some (tt, record w { calls = c ∷ w.calls })

-- `log_access(shared->access, code)`
unfoldable pub log_access : ℕ → M (Unit {0})
log_access code = load >>= λ _. issue_only (Call.log_access code)

unfoldable pub log_error : ℕ → M (Unit {0})
log_error code = issue_only (Call.log_error code)

unfoldable pub close_fd : Fd → M (Unit {0})
close_fd fd = issue_only (Call.close_fd fd)

unfoldable pub fd_nonblocking : Fd → M (Unit {0})
fd_nonblocking fd = issue_only (Call.nonblocking fd)

-- The answers of the system.
module _ (os : Os) where
  unfoldable pub recv : Fd → ℕ → M (List ℕ)
  recv fd n = do t ← issue (Call.recv fd n); pure (take n (os.recv_bytes t))

  unfoldable pub send : Fd → List ℕ → M (Option ℕ)
  send fd xs = do
    t ← issue (Call.send fd xs)
    pure (elim (os.send_room t) [ none ↦ none | some k ↦ some (min k (length xs)) ])

  unfoldable pub epoll_ctl : Call → M Bool
  epoll_ctl c = do t ← issue c; pure (os.epoll_ok t)

  unfoldable pub socket : Family → M Fd
  socket af = do t ← issue (Call.socket af); pure (os.socket_fd t)

  unfoldable pub datagram_socket : Family → M Fd
  datagram_socket af = do t ← issue (Call.datagram_socket af); pure (os.socket_fd t)

  unfoldable pub connect : Fd → Sockaddr → M Outcome
  connect fd sa = do t ← issue (Call.connect fd sa); pure (os.connect_outcome t)

  unfoldable pub bind : Fd → Sockaddr → M Bool
  bind fd sa = do t ← issue (Call.bind fd sa); pure (os.bind_ok t)

  unfoldable pub listen : Fd → M Bool
  listen fd = do t ← issue (Call.listen fd); pure (os.listen_ok t)

  unfoldable pub accept : Fd → M (Option (ℕ × Sockaddr))
  accept fd = do t ← issue (Call.accept fd); pure (os.accepted t)

  unfoldable pub getsockname : Fd → M (Option Sockaddr)
  getsockname fd = do t ← issue (Call.getsockname fd); pure (os.socket_name t)

  unfoldable pub getsockopt : Fd → M (Option ℕ)
  getsockopt fd = do t ← issue (Call.getsockopt fd); pure (os.socket_error t)

  unfoldable pub malloc : M Bool
  malloc = do t ← issue Call.malloc; pure (os.malloc_ok t)
