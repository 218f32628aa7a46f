-- ===== src/Tests/Buffers.antt =====
-- The ring buffers at concrete inputs.
use socksprox.Base.{ℕ, ◌+◌, ◌≤◌, ◌<◌, ◌≡◌, ◌⊎◌, List, [], ◌∷◌, ◌++◌}
use socksprox.Ring.Bounds.{IsValid, write_ringbuff-IsValid, consume_ringbuff-IsValid}
use socksprox.Ring.Refine.{contents, write_ringbuff_lem, peek_ringbuff_lem, consume_ringbuff_lem}
use socksprox.Ring.Trace.{Op, write, peek, consume, queue_run, ring_run, ring_run-queue_run}
use socksprox.Ring.{write_ringbuff, peek_ringbuff, consume_ringbuff}
use socksprox.Tests.{two_bytes, two_bytes-IsValid}

abbrev three : List ℕ
three = 1 ∷ 2 ∷ 3 ∷ []

abbrev calls : List Op
calls = write three ∷ peek 4 ∷ consume 2 ∷ write (4 ∷ 5 ∷ 6 ∷ 7 ∷ 8 ∷ 9 ∷ []) ∷ peek 9 ∷ []

ring_run-queue_run_example : ring_run two_bytes calls ≡ queue_run 8 (7 ∷ 9 ∷ []) calls
ring_run-queue_run_example = ring_run-queue_run two_bytes calls two_bytes-IsValid

write_ringbuff_lem_example :
    ((2 + 3 ≤ 8)
      × ((write_ringbuff two_bytes three).0 ≡ 3)
      × (contents (write_ringbuff two_bytes three).1 ≡ contents two_bytes ++ three))
    ⊎ ((8 < 2 + 3) × (write_ringbuff two_bytes three ≡ (0, two_bytes)))
write_ringbuff_lem_example = write_ringbuff_lem three two_bytes-IsValid

peek_ringbuff_lem_example : peek_ringbuff two_bytes 1 ≡ (1, 7 ∷ [])
peek_ringbuff_lem_example = peek_ringbuff_lem 1 two_bytes-IsValid

consume_ringbuff_lem_example :
    ((consume_ringbuff two_bytes 1).0 ≡ 1) × (contents (consume_ringbuff two_bytes 1).1 ≡ 9 ∷ [])
consume_ringbuff_lem_example = consume_ringbuff_lem 1 two_bytes-IsValid

write_ringbuff-IsValid_example : IsValid (write_ringbuff two_bytes three).1
write_ringbuff-IsValid_example = write_ringbuff-IsValid two_bytes three two_bytes-IsValid

consume_ringbuff-IsValid_example : IsValid (consume_ringbuff two_bytes 1).1
consume_ringbuff-IsValid_example = consume_ringbuff-IsValid two_bytes 1 two_bytes-IsValid
