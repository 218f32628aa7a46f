-- ===== src/Socks/Negotiated.antt =====
-- The negotiation of a method as the two events that the client's side of it takes.
use socksprox.Base.{
  ℕ, suc, ◌+◌, ◌≤◌, ◌≡◌, refl, ap, ◌∙◌, true, false, List, [], ◌∷◌, ◌++◌, some, length, min,
  sub_size, ltb-le, arith,
}
use socksprox.Config.{Configs}
use socksprox.Conn.Monad.{◌>>=◌}
use socksprox.Conn.{both, reading, State, Side, client, Info, Call, Events, Os, World}
use socksprox.Ring.Bounds.{IsValid}
use socksprox.Ring.Refine.{contents}
use socksprox.Ring.{Ringbuff}
use socksprox.Socks.Dispatch.{socks5}
use socksprox.Socks.Greeting.{
  waiting_world, used-contents, peek-start, consume-start, greeting-answered, reply_sent,
}
use socksprox.Socks.Handshake.{meth_noauth, a_methnoauth, select_method}
use socksprox.Socks.Runs.{run_events}

-- Input from the client, and then room for output to it.
abbrev pub greeting_events : List (Side × Events)
greeting_events =
    (client, record { epollin = true; epollout = false })
    ∷ (client, record { epollin = false; epollout = true })
    ∷ []

run_events-two :
    (os : Os) (configs : Configs) (s1 s2 : Side) (ev1 ev2 : Events) (w w1 w2 : World)
    → socks5 os s1 configs ev1 w ≡ some (tt, w1)
    → socks5 os s2 configs ev2 w1 ≡ some (tt, w2)
    → run_events os configs ((s1, ev1) ∷ (s2, ev2) ∷ []) w ≡ some (tt, w2)
unfolding run_events ◌>>=◌
run_events-two os configs s1 s2 ev1 ev2 w w1 w2 first second =
    rw (first, ◌>>=◌) (rw (second, ◌>>=◌) refl)

-- The bytes of a client in `waiting_methods`, those of earlier events and those of this one, fit
-- into the buffer and start with a whole greeting of version 5, the first of its methods that has
-- the entry 1 is 0, nothing waits to be sent, `epoll_ctl` succeeds and `send` takes two bytes or
-- more. Then the two events are handled, the client is sent 5 and 0, its state is that in which
-- the request is awaited, and the bytes behind the greeting stay in the buffer.
pub run_events-negotiated :
    (os : Os) (configs : Configs) (fd : ℕ) (so co : Ringbuff) (i : Info) (calls : List Call) (x : ℕ)
    (xs methods extra : List ℕ) (k : ℕ)
    → IsValid so
    → IsValid co
    → os.recv_bytes (length calls) ≡ x ∷ xs
    → so.used + length (x ∷ xs) ≤ so.capacity
    → contents so ++ x ∷ xs ≡ 5 ∷ length methods ∷ methods ++ extra
    → contents co ≡ []
    → 2 ≤ co.capacity
    → select_method configs methods ≡ meth_noauth
    → os.epoll_ok (suc (length calls)) ≡ true
    → os.send_room (suc (suc (length calls))) ≡ some k
    → 2 ≤ k
    → os.epoll_ok (suc (suc (suc (length calls)))) ≡ true
    → (w' : World) × (run_events os configs greeting_events (waiting_world fd so co i calls)
        ≡ some (tt, w'))
      × (w'.shared.state ≡ State.waiting_command)
      × (contents w'.shared.client_out ≡ [])
      × (contents w'.shared.server_out ≡ extra)
      × (w'.calls
          ≡ Call.log_access a_methnoauth
            ∷ Call.epoll_mod (some fd) reading (some client)
            ∷ Call.send (some fd) (5 ∷ meth_noauth ∷ [])
            ∷ Call.epoll_mod (some fd) both (some client)
            ∷ Call.recv (some fd) (sub_size so.capacity so.used)
            ∷ calls)
run_events-negotiated os configs fd so co i calls x xs methods extra k vs vc got fits all empty room
      chosen ok1 sent two ok2 =
    let empty_used = used-contents co [] empty in
    let (so', co', run, v, held, rest) =
      greeting-answered os configs fd so co i calls x xs methods extra vs vc got fits all
        (omega (arith, empty_used)) ok1 in
    let reply = 5 ∷ select_method configs methods ∷ [] in
    let whole = held ∙ ap (λ bytes. bytes ++ reply) empty in
    let run2 =
      reply_sent os configs fd so' co' _ _ reply k (peek-start co' reply [] v whole) sent
        (ltb-le (min k 2) 2 (omega arith)) ok2 chosen in
    (
      _,
      run_events-two os configs _ _ _ _ _ _ _ run run2,
      refl,
      consume-start co' reply [] v whole,
      rest,
      rw chosen refl,
    )
