-- ===== src/Ring/Trace.antt =====
-- Sequences of calls of the three ring functions, against a bounded first-in first-out queue.
use socksprox.Base.{
  ℕ, ◌+◌, ◌≡◌, refl, ap, ◌∙◌, List, [], ◌∷◌, ◌++◌, arith, length, take, drop, min, ltb,
  if◌then◌else◌,
}
use socksprox.Ring.Bounds.{
  IsValid, write_ringbuff-IsValid, consume_ringbuff-IsValid, capacity-write_ringbuff,
}
use socksprox.Ring.Refine.{
  contents, length-contents, write_ringbuff_lem, peek_ringbuff_lem, consume_ringbuff_lem,
}
use socksprox.Ring.{Ringbuff, write_ringbuff, peek_ringbuff, consume_ringbuff}

pub data Op : Type 0 where
  write : List ℕ → Op
  peek : ℕ → Op
  consume : ℕ → Op

-- What a call returns, with the bytes that `peek` copies out.
abbrev pub Reply : Type 0
Reply = ℕ × List ℕ

-- A queue of at most `bound` bytes.
module _ (bound : ℕ) where
  unfoldable pub queue_step : List ℕ → Op → Reply × List ℕ
  queue_step q (write xs) =
      if ltb bound (length q + length xs) then ((0, []), q) else ((length xs, []), q ++ xs)
  queue_step q (peek n) = ((min n (length q), take n q), q)
  queue_step q (consume n) = ((min n (length q), []), drop n q)

  unfoldable pub queue_run : List ℕ → List Op → List Reply
  queue_run q [] = []
  queue_run q (op ∷ ops) = let (reply, q') = queue_step q op in reply ∷ queue_run q' ops

unfoldable pub ring_step : Ringbuff → Op → Reply × Ringbuff
ring_step r (write xs) = let (n, r') = write_ringbuff r xs in ((n, []), r')
ring_step r (peek n) = (peek_ringbuff r n, r)
ring_step r (consume n) = let (k, r') = consume_ringbuff r n in ((k, []), r')

unfoldable pub ring_run : Ringbuff → List Op → List Reply
ring_run r [] = []
ring_run r (op ∷ ops) = let (reply, r') = ring_step r op in reply ∷ ring_run r' ops

capacity-consume : (r : Ringbuff) (n : ℕ) → (consume_ringbuff r n).1.capacity ≡ r.capacity
unfolding consume_ringbuff
capacity-consume r n = ground arith

step-IsValid : (r : Ringbuff) (op : Op) → IsValid r → IsValid (ring_step r op).1
unfolding ring_step
step-IsValid r (write xs) v = write_ringbuff-IsValid r xs v
step-IsValid r (peek n) v = v
step-IsValid r (consume n) v = consume_ringbuff-IsValid r n v

step-capacity : (r : Ringbuff) (op : Op) → (ring_step r op).1.capacity ≡ r.capacity
unfolding ring_step
step-capacity r (write xs) = capacity-write_ringbuff r xs
step-capacity r (peek n) = refl
step-capacity r (consume n) = capacity-consume r n

-- One call on a ring answers and acts as the same call on the queue of its bytes.
step_refines :
    (r : Ringbuff) (op : Op)
    → IsValid r
    → ((ring_step r op).0, contents (ring_step r op).1) ≡ queue_step r.capacity (contents r) op
unfolding ring_step queue_step
step_refines r (write xs) v = ground (arith, write_ringbuff_lem xs v, length-contents r)
step_refines r (peek n) v = ground (arith, peek_ringbuff_lem n v, length-contents r)
step_refines r (consume n) v = ground (arith, consume_ringbuff_lem n v, length-contents r)

-- From a valid ring buffer, any sequence of calls returns what the queue that is bounded by its
-- capacity returns, if it starts with the same bytes.
pub ring_run-queue_run :
    (r : Ringbuff) (ops : List Op)
    → IsValid r
    → ring_run r ops ≡ queue_run r.capacity (contents r) ops
unfolding ring_run queue_run
ring_run-queue_run r [] v = refl
ring_run-queue_run r (op ∷ ops) v =
    ap (◌∷◌ (ring_step r op).0) (ring_run-queue_run (ring_step r op).1 ops (step-IsValid r op v))
    ∙ ap (λ c. (ring_step r op).0 ∷ queue_run c (contents (ring_step r op).1) ops)
        (step-capacity r op)
    ∙ ap (λ p. p.0 ∷ queue_run r.capacity p.1 ops) (step_refines r op v)
