-- ===== src/Net/Sending.antt =====
-- What `send_traffic` does to the bytes that wait for a side.
use socksprox.Base.{
  ℕ, true, ◌≡◌, refl, sym, ap, ◌∙◌, List, ◌∷◌, some, arith, length, drop, min, take_all,
}
use socksprox.Conn.Live.{load_live, bind_some}
use socksprox.Conn.Monad.{
  ◌>>=◌, load, consume_client_out, consume_server_out, peek_client_out, peek_server_out, issue,
  send,
}
use socksprox.Conn.{Fd, Side, client, server, Shared, Call, Os, World}
use socksprox.Net.Forward.{out_of}
use socksprox.Net.Traffic.{owner, peer, used_out, peek_out, consume_out, send_side, send_traffic}
use socksprox.Ring.Bounds.{IsValid}
use socksprox.Ring.Refine.{contents, peek_ringbuff_lem, consume_ringbuff_lem, length-contents}
use socksprox.Ring.{Ringbuff, peek_ringbuff, consume_ringbuff}

-- The buffer of a side is replaced.
abbrev with_out : Side → Ringbuff → World → World
with_out client r w = record w { shared = record w.shared { client_out = r } }
with_out server r w = record w { shared = record w.shared { server_out = r } }

peek_all : (r : Ringbuff) → IsValid r → peek_ringbuff r r.used ≡ (r.used, contents r)
peek_all r v =
    rw (peek_ringbuff_lem r.used v, take_all r.used (contents r) (omega (arith, length-contents r)))
      (ground arith)

peek_out_copy :
    (who : Side) (n : ℕ) (w : World)
    → w.shared_live ≡ true
    → w.shared.buffers ≡ true
    → peek_out who n w ≡ some (peek_ringbuff (out_of who w.shared) n, w)
unfolding peek_out peek_client_out peek_server_out
peek_out_copy client n w hl hb = ground arith
peek_out_copy server n w hl hb = ground arith

used_out-out_of : (who : Side) (sh : Shared) → used_out who sh ≡ (out_of who sh).used
used_out-out_of client sh = refl
used_out-out_of server sh = refl

peek_out_live :
    (who : Side) (w : World)
    → w.shared_live ≡ true
    → w.shared.buffers ≡ true
    → IsValid (out_of who w.shared)
    → peek_out who (used_out who w.shared) w
      ≡ some (((out_of who w.shared).used, contents (out_of who w.shared)), w)
peek_out_live who w hl hb v = rw (used_out-out_of who w.shared) (
    peek_out_copy who (out_of who w.shared).used w hl hb
    ∙ ap (λ p. some (p, w)) (peek_all (out_of who w.shared) v))

consume_out_live :
    (who : Side) (k : ℕ) (w : World)
    → w.shared_live ≡ true
    → w.shared.buffers ≡ true
    → consume_out who k w
      ≡ some (
        (consume_ringbuff (out_of who w.shared) k).0,
        with_out who (consume_ringbuff (out_of who w.shared) k).1 w,
      )
unfolding consume_out consume_client_out consume_server_out
consume_out_live client k w hl hb = ground arith
consume_out_live server k w hl hb = ground arith

send_live :
    (os : Os) (fd : Fd) (xs : List ℕ) (w : World) (room : ℕ)
    → os.send_room (length w.calls) ≡ some room
    → send os fd xs w
      ≡ some (some (min room (length xs)), record w { calls = Call.send fd xs ∷ w.calls })
unfolding send issue ◌>>=◌
send_live os fd xs w room e = rw e refl

out_of-with_out : (who : Side) (r : Ringbuff) (w : World) → out_of who (with_out who r w).shared ≡ r
out_of-with_out client r w = refl
out_of-with_out server r w = refl

out_of-peer-with_out :
    (who : Side) (r : Ringbuff) (w : World)
    → out_of (peer who) (with_out who r w).shared ≡ out_of (peer who) w.shared
out_of-peer-with_out client r w = refl
out_of-peer-with_out server r w = refl

live-with_out :
    (who : Side) (r : Ringbuff) (w : World)
    → ((with_out who r w).shared_live ≡ w.shared_live) × ((with_out who r w).calls ≡ w.calls)
live-with_out client r w = (refl, refl)
live-with_out server r w = (refl, refl)

-- The memory after `k` of the waiting bytes are sent.
abbrev after_send : Fd → Side → ℕ → World → World
after_send fd who k w =
    with_out who (consume_ringbuff (out_of who w.shared) k).1
      (record w { calls = Call.send fd (contents (out_of who w.shared)) ∷ w.calls })

send_side-run :
    (os : Os) (fd : Fd) (who : Side) (w : World) (room : ℕ)
    → w.shared_live ≡ true
    → w.shared.buffers ≡ true
    → IsValid (out_of who w.shared)
    → os.send_room (length w.calls) ≡ some room
    → send_side os fd who w
      ≡ some (
        some (
            used_out who
              (after_send fd who (min room (length (contents (out_of who w.shared)))) w).shared),
        after_send fd who (min room (length (contents (out_of who w.shared)))) w,
      )
unfolding send_side
send_side-run os fd who w room hl hb v e =
    bind_some load _ (load_live w hl)
    ∙ bind_some (peek_out who _) _ (peek_out_live who w hl hb v)
    ∙ bind_some (send os fd _) _ (send_live os fd (contents (out_of who w.shared)) w room e)
    ∙ bind_some (consume_out who _) _ (consume_out_live who _ _ hl hb)
    ∙ bind_some load _ (load_live _ ((live-with_out who _ _).0 ∙ hl))

-- `send_traffic` on the descriptor of a side with a valid buffer, where the system takes `room`
-- bytes: all waiting bytes are handed to it in one call; those that it takes, the oldest, leave the
-- buffer, and their successors stay in order. The result is the number of bytes that still wait,
-- and the other buffer stays as it is.
pub send_traffic-sent :
    (os : Os) (fd : Fd) (who : Side) (w : World) (room : ℕ)
    → w.shared_live ≡ true
    → w.shared.buffers ≡ true
    → owner fd w.shared ≡ some who
    → IsValid (out_of who w.shared)
    → os.send_room (length w.calls) ≡ some room
    → (w' : World) × (send_traffic os fd w
        ≡ some (some (length (contents (out_of who w'.shared))), w'))
      × (w'.calls ≡ Call.send fd (contents (out_of who w.shared)) ∷ w.calls)
      × (contents (out_of who w'.shared)
          ≡ drop
              (min room (length (contents (out_of who w.shared))))
              (contents (out_of who w.shared)))
      × (out_of (peer who) w'.shared ≡ out_of (peer who) w.shared)
unfolding send_traffic
send_traffic-sent os fd who w room hl hb ho v e = (
  w1,
  bind_some load _ (load_live w hl)
      ∙ rw ho (
          send_side-run os fd who w room hl hb v e
          ∙ ap (λ n. some (some n, w1))
              (used_out-out_of who w1.shared ∙ sym (length-contents (out_of who w1.shared)))),
  (live-with_out who _ _).1,
  ap contents (out_of-with_out who _ _) ∙ (consume_ringbuff_lem _ v).1,
  out_of-peer-with_out who _ _,
)
  where
    w1 : World
    w1 = after_send fd who (min room (length (contents (out_of who w.shared)))) w
