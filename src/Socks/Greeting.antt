-- ===== src/Socks/Greeting.antt =====
-- The client's greeting, up to the reply that waits to be sent.
use socksprox.Base.{
  ℕ, suc, ◌+◌, ◌≤◌, ◌≡◌, refl, sym, ap, ◌∙◌, true, false, List, [], ◌∷◌, ◌++◌, none, some, length,
  length-append, take, take_all, take-append, drop, drop-append, replicate, min, sub_size, ltb,
  ltb-le, ◌==◌, ==_iff, if◌then◌else◌, ap₂, inl, inr, arith,
}
use socksprox.Config.{Configs}
use socksprox.Conn.Epoll.{ep_waiting_send, ep_done_sending}
use socksprox.Conn.Monad.{
  ◌>>=◌, has_shared, load, load_self, load_info, modify, modify_info, set_state, issue, issue_only,
  recv, epoll_ctl, write_client_out, write_server_out, peek_server_out, consume_server_out, send,
  log_access, peek_client_out, consume_client_out,
}
use socksprox.Conn.{both, reading, State, client, Info, Call, Os, World}
use socksprox.Ring.Bounds.{IsValid, no_wrap, write_ringbuff-IsValid, consume_ringbuff-IsValid}
use socksprox.Ring.Refine.{
  contents, length-contents, write_ringbuff_lem, peek_ringbuff_lem, consume_ringbuff_lem,
}
use socksprox.Ring.{Ringbuff, write_ringbuff, peek_ringbuff, consume_ringbuff}
use socksprox.Socks.Dispatch.{socks5, handle}
use socksprox.Socks.Handshake.{
  a_methnoauth, sendingmethod, send_pending, enter_method, zero_filled, select_method,
  answer_methods, parse_methods, receive, waitingmethods,
}
use socksprox.Socks.Reply.{vercheck}

-- A connection that waits for the methods, with what has come so far in `server_out`.
abbrev pub waiting_world : ℕ → Ringbuff → Ringbuff → Info → List Call → World
waiting_world fd server_out client_out i calls = record {
  shared = record {
    state = State.waiting_methods;
    client_fd = some fd;
    server_fd = none;
    client_out = client_out;
    server_out = server_out;
    client_data = true;
    server_data = false;
    client_flags = 0;
    server_flags = 0;
    server_addr = none;
    info = some i;
    buffers = true;
  };
  shared_set = true;
  shared_live = true;
  client_self = some fd;
  server_self = none;
  client_live = true;
  server_live = false;
  calls = calls;
}

-- The bytes that fit are behind the others.
contents-write :
    (r : Ringbuff) (xs : List ℕ)
    → IsValid r
    → r.used + length xs ≤ r.capacity
    → ((write_ringbuff r xs).0 ≡ length xs) × (contents (write_ringbuff r xs).1 ≡ contents r ++ xs)
contents-write r xs v fits = elim (write_ringbuff_lem {r = r} xs v) [
  | inl done ↦ (done.1, done.2)
  | inr full ↦ absurd (omega (arith, full.0))
]

pub used-contents : (r : Ringbuff) (xs : List ℕ) → contents r ≡ xs → r.used ≡ length xs
used-contents r xs h = sym (length-contents r) ∙ ap length h

same_number : (n : ℕ) → (n == n) ≡ true
same_number n = (==_iff n n).1 refl

module _ (os : Os) (configs : Configs) (fd : ℕ) (so co : Ringbuff) (i : Info)
    (calls : List Call) where
  -- The buffer behind each step.
  abbrev received : List ℕ → Ringbuff
  received xs = (write_ringbuff so xs).1

  abbrev behind_two : List ℕ → Ringbuff
  behind_two xs = (consume_ringbuff (received xs) 2).1

  greeted :
      (x n len : ℕ) (xs methods : List ℕ)
      → os.recv_bytes (length calls) ≡ x ∷ xs
      → take (sub_size so.capacity so.used) (x ∷ xs) ≡ x ∷ xs
      → ((write_ringbuff so (x ∷ xs)).0 == length (x ∷ xs)) ≡ true
      → ltb (received (x ∷ xs)).used 2 ≡ false
      → peek_ringbuff (received (x ∷ xs)) 2 ≡ (2, 5 ∷ n ∷ [])
      → ltb (received (x ∷ xs)).used (2 + n) ≡ false
      → peek_ringbuff (behind_two (x ∷ xs)) n ≡ (len, methods)
      → zero_filled n methods ≡ methods
      → os.epoll_ok (suc (length calls)) ≡ true
      → socks5 os client configs
          (record { epollin = true; epollout = false })
          (waiting_world fd so co i calls)
        ≡ some (
          tt,
          record (waiting_world fd so co i calls) {
            shared = record (waiting_world fd so co i calls).shared {
              state = State.sending_method;
              server_out = (consume_ringbuff (behind_two (x ∷ xs)) len).1;
              client_out = (write_ringbuff co (5 ∷ select_method configs methods ∷ [])).1;
              info = some (record i { method = select_method configs methods });
            };
            calls =
                Call.epoll_mod (some fd) both (some client)
                ∷ Call.recv (some fd) (sub_size so.capacity so.used)
                ∷ calls;
          },
        )
  unfolding ◌>>=◌ socks5 has_shared handle load load_self load_info modify modify_info set_state
      issue issue_only recv epoll_ctl waitingmethods receive parse_methods answer_methods vercheck
      write_client_out write_server_out peek_server_out consume_server_out ep_waiting_send
  greeted x n len xs methods e0 e1 e2 e3 e4 e5 e6 e7 e8 =
      rw (same_number fd, e0, e1, e2, e3, e4, e5, e6, e7) (rw (e8, if◌then◌else◌, ◌>>=◌) refl)

-- What is peeked is what the buffer starts with.
pub peek-start :
    (r : Ringbuff) (xs ys : List ℕ)
    → IsValid r
    → contents r ≡ xs ++ ys
    → peek_ringbuff r (length xs) ≡ (length xs, xs)
peek-start r xs ys v h =
    peek_ringbuff_lem {r = r} (length xs) v
    ∙ ap₂ (λ k bytes. (k, bytes))
        (ground (arith, used-contents r (xs ++ ys) h, length-append xs ys))
        (ap (take (length xs)) h ∙ take-append (length xs) xs ys refl)

-- What is consumed is gone, and the rest stays.
pub consume-start :
    (r : Ringbuff) (xs ys : List ℕ)
    → IsValid r
    → contents r ≡ xs ++ ys
    → contents (consume_ringbuff r (length xs)).1 ≡ ys
consume-start r xs ys v h =
    (consume_ringbuff_lem {r = r} (length xs) v).1
    ∙ ap (drop (length xs)) h
    ∙ drop-append (length xs) xs ys refl

-- A connection whose reply to the greeting waits to be sent.
abbrev pub sending_world : ℕ → Ringbuff → Ringbuff → Info → List Call → World
sending_world fd server_out client_out i calls =
    record (waiting_world fd server_out client_out i calls) {
      shared = record (waiting_world fd server_out client_out i calls).shared {
        state = State.sending_method;
      };
    }

-- The greeting, once its last bytes are received, is answered: the state, the selected method
-- and the two buffers.
pub greeting-answered :
    (os : Os) (configs : Configs) (fd : ℕ) (so co : Ringbuff) (i : Info) (calls : List Call) (x : ℕ)
    (xs methods extra : List ℕ)
    → IsValid so
    → IsValid co
    → os.recv_bytes (length calls) ≡ x ∷ xs
    → so.used + length (x ∷ xs) ≤ so.capacity
    → contents so ++ x ∷ xs ≡ 5 ∷ length methods ∷ methods ++ extra
    → co.used + 2 ≤ co.capacity
    → os.epoll_ok (suc (length calls)) ≡ true
    → (so' co' : Ringbuff) × (socks5 os client configs
          (record { epollin = true; epollout = false })
          (waiting_world fd so co i calls)
        ≡ some (
          tt,
          sending_world fd so' co'
              (record i { method = select_method configs methods })
              (Call.epoll_mod (some fd) both (some client)
                ∷ Call.recv (some fd) (sub_size so.capacity so.used)
                ∷ calls),
        ))
      × IsValid co'
      × (contents co' ≡ contents co ++ 5 ∷ select_method configs methods ∷ [])
      × (contents so' ≡ extra)
greeting-answered os configs fd so co i calls x xs methods extra vs vc got fits all room ok =
    let rb = (write_ringbuff so (x ∷ xs)).1 in
    let n = length methods in
    let vr = write_ringbuff-IsValid so (x ∷ xs) vs in
    let written = contents-write so (x ∷ xs) vs fits in
    let held = written.1 ∙ all in
    let used = used-contents rb (5 ∷ n ∷ methods ++ extra) held in
    let b2 = (consume_ringbuff rb 2).1 in
    let v2 = consume_ringbuff-IsValid rb 2 vr in
    let held2 = consume-start rb (5 ∷ n ∷ []) (methods ++ extra) vr held in
    let run =
      greeted os configs fd so co i calls x n n xs methods got
        (take_all _ (x ∷ xs) (omega (arith, (no_wrap vs).0)))
        (ap (λ k. k == length (x ∷ xs)) written.0 ∙ same_number (length (x ∷ xs)))
        (ltb-le rb.used 2 (omega (arith, used)))
        (peek-start rb (5 ∷ n ∷ []) (methods ++ extra) vr held)
        (ltb-le rb.used (2 + n) (omega (arith, used, length-append methods extra)))
        (peek-start b2 methods extra v2 held2) (take-append n methods (replicate n 0) refl) ok in
    (
      _,
      _,
      run,
      write_ringbuff-IsValid co (5 ∷ select_method configs methods ∷ []) vc,
      (contents-write co (5 ∷ select_method configs methods ∷ []) vc room).1,
      consume-start b2 methods extra v2 held2,
    )

-- The reply is sent whole, and its method is 0.
pub reply_sent :
    (os : Os) (configs : Configs) (fd : ℕ) (so co : Ringbuff) (i : Info) (calls : List Call)
    (reply : List ℕ) (k : ℕ)
    → peek_ringbuff co 2 ≡ (2, reply)
    → os.send_room (length calls) ≡ some k
    → ltb (min k (length reply)) 2 ≡ false
    → os.epoll_ok (suc (length calls)) ≡ true
    → i.method ≡ 0
    → socks5 os client configs
        (record { epollin = false; epollout = true })
        (sending_world fd so co i calls)
      ≡ some (
        tt,
        record (sending_world fd so co i calls) {
          shared = record (sending_world fd so co i calls).shared {
            state = State.waiting_command;
            client_out = (consume_ringbuff co 2).1;
          };
          calls =
              Call.log_access a_methnoauth
              ∷ Call.epoll_mod (some fd) reading (some client)
              ∷ Call.send (some fd) reply
              ∷ calls;
        },
      )
unfolding ◌>>=◌ socks5 has_shared handle load load_self load_info modify set_state issue log_access
    send issue_only epoll_ctl sendingmethod send_pending enter_method peek_client_out
    consume_client_out ep_done_sending
reply_sent os configs fd so co i calls reply k e0 e1 e2 e3 e4 =
    rw (same_number fd, e0, e1, e0, e2) (rw (e3, if◌then◌else◌, ◌>>=◌) (rw e4 refl))
