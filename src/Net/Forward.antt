-- ===== src/Net/Forward.antt =====
-- What `read_traffic` and `send_traffic` do to the bytes that wait for each side.
use socksprox.Base.{
  ℕ, ◌+◌, true, ◌≡◌, refl, List, ◌∷◌, ◌++◌, some, length, take, ltb, if◌then◌else◌, lt→ltb, ltb-le,
  inl, inr,
}
use socksprox.Conn.Live.{load_live, bind_some}
use socksprox.Conn.Monad.{◌>>=◌, load, write_client_out, write_server_out, issue, recv}
use socksprox.Conn.{Fd, Side, client, server, Shared, Os, World}
use socksprox.Net.Traffic.{owner, peer, write_out, read_side, read_traffic}
use socksprox.Ring.Bounds.{IsValid}
use socksprox.Ring.Refine.{contents, write_ringbuff_lem}
use socksprox.Ring.{Ringbuff, write_ringbuff}

-- The buffer of the bytes to be sent to a side.
abbrev pub out_of : Side → Shared → Ringbuff
out_of client sh = sh.client_out
out_of server sh = sh.server_out

-- The bytes that wait for a side after `xs` was given to its buffer.
abbrev pub enqueued : Ringbuff → List ℕ → List ℕ
enqueued r xs = if ltb r.capacity (r.used + length xs) then contents r else contents r ++ xs

write_ringbuff-enqueued :
    {r : Ringbuff} (xs : List ℕ) → IsValid r → contents (write_ringbuff r xs).1 ≡ enqueued r xs
write_ringbuff-enqueued {r} xs v = elim (write_ringbuff_lem xs v) [
  | inl (fits, n, e) ↦ rw (ltb-le r.capacity (r.used + length xs) fits) e
  | inr (over, e) ↦ rw (lt→ltb r.capacity (r.used + length xs) over, e) refl
]

read_side-enqueued :
    (os : Os) (fd : Fd) (who : Side) (w : World) (x : ℕ) (xs : List ℕ)
    → w.shared_live ≡ true
    → w.shared.buffers ≡ true
    → IsValid (out_of (peer who) w.shared)
    → take 1024 (os.recv_bytes (length w.calls)) ≡ x ∷ xs
    → (w' : World) × (read_side os fd who w ≡ some (some (length (x ∷ xs)), w'))
      × (contents (out_of (peer who) w'.shared) ≡ enqueued (out_of (peer who) w.shared) (x ∷ xs))
      × (out_of who w'.shared ≡ out_of who w.shared)
unfolding read_side recv issue write_out write_server_out write_client_out ◌>>=◌
read_side-enqueued os fd client w x xs hl hb v e =
    rw (e, hl, hb) (_, refl, write_ringbuff-enqueued (x ∷ xs) v, refl)
read_side-enqueued os fd server w x xs hl hb v e =
    rw (e, hl, hb) (_, refl, write_ringbuff-enqueued (x ∷ xs) v, refl)

-- `read_traffic` on the descriptor of a side, whose peer's buffer is valid, with input at hand:
-- of the input, at most 1024 bytes are read. All of them go behind the bytes that wait for the
-- peer where they fit, and none of them where they do not; in both cases the result is their
-- number, and the other buffer stays as it is.
pub read_traffic-enqueued :
    (os : Os) (fd : Fd) (who : Side) (w : World) (x : ℕ) (xs : List ℕ)
    → w.shared_live ≡ true
    → w.shared.buffers ≡ true
    → owner fd w.shared ≡ some who
    → IsValid (out_of (peer who) w.shared)
    → take 1024 (os.recv_bytes (length w.calls)) ≡ x ∷ xs
    → (w' : World) × (read_traffic os fd w ≡ some (some (length (x ∷ xs)), w'))
      × (contents (out_of (peer who) w'.shared) ≡ enqueued (out_of (peer who) w.shared) (x ∷ xs))
      × (out_of who w'.shared ≡ out_of who w.shared)
unfolding read_traffic
read_traffic-enqueued os fd who w x xs hl hb ho v e =
    rw (bind_some load _ (load_live w hl), ho) (read_side-enqueued os fd who w x xs hl hb v e)
