-- ===== src/Ring.antt =====
-- The ring buffers of src/epoll_data.c (`write_ringbuff`, `peek_ringbuff`, `consume_ringbuff`) and
-- `struct Ringbuff` of include/epoll_data.h. A function that updates the buffer returns it beside
-- its result; `peek_ringbuff` returns the bytes that it copies out.
pub mod Bounds
mod Window
pub mod Refine
pub mod Trace
use socksprox.Base.{
  ℕ, ◌+◌, ◌%◌, Bool, List, [], ◌∷◌, ltb, ◌==◌, if◌then◌else◌, add_size, sub_size, set, take, drop,
  slice, ◌++◌, length, suc,
}

pub record Ringbuff : Type 0 where
  pub buff : List ℕ
  pub readhead : ℕ
  pub writehead : ℕ
  pub capacity : ℕ
  pub used : ℕ

-- `memcpy(dst + off, src, length of src)`. Bytes past the end of `dst` are not written: the
-- lemmas of Ring/Bounds exclude that.
unfoldable pub copy_at : List ℕ → ℕ → List ℕ → List ℕ
copy_at dst off [] = dst
copy_at dst off (x ∷ xs) = copy_at (set dst off x) (suc off) xs

-- How many bytes are copied before the end of the storage.
abbrev pub first_part : ℕ → ℕ → ℕ
first_part room n = if ltb n room then n else room

-- The two `memcpy` calls of `write_ringbuff`; the list is `src[0..srclen)`.
unfoldable pub two_copies : Ringbuff → List ℕ → List ℕ
two_copies dst src =
    let srclen = length src in
    let first_write = first_part (sub_size dst.capacity dst.writehead) srclen in
    let second_write = sub_size srclen first_write in
    let start = copy_at dst.buff dst.writehead (take first_write src) in
    if ltb 0 second_write then copy_at start 0 (take second_write (drop first_write src)) else start

unfoldable pub write_ringbuff : Ringbuff → List ℕ → ℕ × Ringbuff
write_ringbuff dst src =
    let srclen = length src in
    let free = sub_size dst.capacity dst.used in
    if ltb free srclen then (0, dst) else (
      srclen,
      record dst {
        buff = two_copies dst src;
        writehead = add_size dst.writehead srclen % dst.capacity;
        used = add_size dst.used srclen;
      },
    )

-- The two `memcpy` calls of `peek_ringbuff`, for `n` bytes in all.
unfoldable pub two_reads : Ringbuff → ℕ → List ℕ
two_reads src n =
    let first_read = first_part (sub_size src.capacity src.readhead) n in
    let second_read = sub_size n first_read in
    let start = slice src.buff src.readhead first_read in
    if ltb 0 second_read then start ++ slice src.buff 0 second_read else start

unfoldable pub peek_ringbuff : Ringbuff → ℕ → ℕ × List ℕ
peek_ringbuff src dstlen =
    let n = if ltb src.used dstlen then src.used else dstlen in
    if src.used == 0 then (0, []) else (n, two_reads src n)

unfoldable pub consume_ringbuff : Ringbuff → ℕ → ℕ × Ringbuff
consume_ringbuff src consume =
    let n = if ltb src.used consume then src.used else consume in
    if src.used == 0 then (0, src) else (
      n,
      record src { readhead = add_size src.readhead n % src.capacity; used = sub_size src.used n },
    )
