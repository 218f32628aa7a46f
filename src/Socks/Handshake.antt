-- ===== src/Socks/Handshake.antt =====
-- `waitingmethods` and `sendingmethod` of src/socks.c: the negotiation of the method.
use socksprox.Base.{
  ℕ, ◌+◌, Bool, false, not, List, [], ◌∷◌, ◌++◌, some, length, get_or, take, replicate, ltb, ◌==◌,
  if◌then◌else◌, sub_size,
}
use socksprox.Config.{Configs}
use socksprox.Conn.Epoll.{ep_waiting_send, ep_done_sending}
use socksprox.Conn.Monad.{
  M, ◌>>=◌, on_option, on_bytes, ◌>>◌, pure, load, set_state, load_self, load_info, modify_info,
  write_client_out, write_server_out, consume_client_out, consume_server_out, peek_client_out,
  peek_server_out, log_access, recv, send,
}
use socksprox.Conn.{State, Fd, same_fd, Side, Events, Os}
use socksprox.Net.{socks5_version}
use socksprox.Socks.Reply.{vercheck, handshake_err}

abbrev pub meth_noauth : ℕ
meth_noauth = 0x00

abbrev pub meth_gssapi : ℕ
meth_gssapi = 0x01

abbrev pub meth_userpw : ℕ
meth_userpw = 0x02

abbrev pub meth_nometh : ℕ
meth_nometh = 0xFF

abbrev pub a_versionfail : ℕ
a_versionfail = 0x02

abbrev pub a_methnoauth : ℕ
a_methnoauth = 0x07

abbrev pub a_methuserpass : ℕ
a_methuserpass = 0x08

abbrev pub a_methgssapi : ℕ
a_methgssapi = 0x09

abbrev pub a_methnometh : ℕ
a_methnometh = 0x0A

-- An array of `n` zeros that the bytes are copied into.
abbrev pub zero_filled : ℕ → List ℕ → List ℕ
zero_filled n xs = take n (xs ++ replicate n 0)

-- `configs->methods[m]`. The array has 255 entries, and the source reads it for 255 too: that read
-- is out of its bounds, inside `struct Configs`. Its result is `after_methods`, whatever it is.
abbrev pub method_entry : Configs → ℕ → ℕ
method_entry configs m = get_or configs.methods m configs.after_methods

-- The loop over the client's methods: the first whose entry is 1, or 0xFF.
unfoldable pub select_method : Configs → List ℕ → ℕ
select_method configs [] = meth_nometh
select_method configs (m ∷ methods) =
    let rest = select_method configs methods in if method_entry configs m == 1 then m else rest

-- The handler's first test: the event is for input, or output, on the client's descriptor.
abbrev pub is_for : Bool → Fd → Fd → Bool
is_for wanted self fd = if wanted then same_fd self fd else false

module _ (os : Os) where
  -- From the check of the version on.
  unfoldable pub answer_methods : Side → Configs → ℕ → ℕ → M (Unit {0})
  answer_methods who configs version nmethods = do
    _ ← consume_server_out 2
    if vercheck version then (do log_access a_versionfail; handshake_err who) else (do
      (len_methods, bytes) ← peek_server_out nmethods
      let selected = select_method configs (zero_filled nmethods bytes)
      _ ← consume_server_out len_methods
      _ ← write_client_out (socks5_version ∷ selected ∷ [])
      set_state State.sending_method
      modify_info (λ i. record i { method = selected })
      self ← load_self who
      ok ← ep_waiting_send os self (some who)
      if not ok then handshake_err who else pure tt)

  -- The message is read once its first two bytes and as many methods as they say are there.
  unfoldable pub parse_methods : Side → Configs → M (Unit {0})
  parse_methods who configs = do
    sh ← load
    if ltb sh.server_out.used 2 then pure tt else (do
      (n, first_two) ← peek_server_out 2
      if ltb sh.server_out.used (2 + get_or first_two 1 0)
          then pure tt
          else answer_methods who configs (get_or first_two 0 0) (get_or first_two 1 0))

  -- `recv` into the free part of the buffer, and the two early exits; `rest` is what follows.
  unfoldable pub receive : Side → M (Unit {0}) → M (Unit {0})
  receive who rest = do
    sh ← load
    self ← load_self who
    buffer ← recv os self (sub_size sh.server_out.capacity sh.server_out.used)
    on_bytes buffer (handshake_err who)
        λ xs. do n ← write_server_out xs; if not (n == length xs) then handshake_err who else rest

  unfoldable pub waitingmethods : Side → Configs → Events → M (Unit {0})
  waitingmethods who configs ev = do
    sh ← load
    self ← load_self who
    if is_for ev.epollin self sh.client_fd then receive who (parse_methods who configs) else pure tt

  -- The `switch` over the method once the reply is sent.
  unfoldable pub enter_method : Side → ℕ → M (Unit {0})
  enter_method who method =
      if method == meth_noauth
      then (do log_access a_methnoauth; set_state State.waiting_command)
      else if method == meth_userpw
      then (do log_access a_methuserpass; handshake_err who)
      else if method == meth_gssapi
      then (do log_access a_methgssapi; handshake_err who)
      else if method == meth_nometh
      then (do log_access a_methnometh; handshake_err who)
      else handshake_err who

  -- Sending from `client_out`, at most `size` bytes; `done` follows once all that was peeked is
  -- sent and the descriptor waits for input again.
  unfoldable pub send_pending : Side → ℕ → M (Unit {0}) → M (Unit {0})
  send_pending who size done = do
    (peeked, reply) ← peek_client_out size
    self ← load_self who
    sent ← send os self reply
    on_option sent (handshake_err who) λ k.
        if ltb k peeked then (do _ ← consume_client_out k; pure tt) else (do
          _ ← consume_client_out peeked
          ok ← ep_done_sending os self (some who)
          if not ok then handshake_err who else done)

  unfoldable pub sendingmethod : Side → Events → M (Unit {0})
  sendingmethod who ev = do
    sh ← load
    self ← load_self who
    if is_for ev.epollout self sh.client_fd
        then send_pending who 2 (do info ← load_info; enter_method who info.method)
        else pure tt
