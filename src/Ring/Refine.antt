-- ===== src/Ring/Refine.antt =====
-- A valid ring buffer behaves as the bounded queue of the bytes that it holds.
use native.Mathlib.Nat.{mod-mod, add-mod_left}
use native.Mathlib.Decide.{dec_lt}
use socksprox.Base.{
  ℕ, ◌+◌, ◌-◌, ◌%◌, ◌≤◌, ◌<◌, ◌≡◌, refl, ◌∙◌, ap, ap₂, sym, List, [], ◌++◌, arith, length, take,
  drop, slice, min, ltb, ltb-le, ltb→le, ltb→lt, lt→ltb, Bool-cases, inl, inr, ◌⊎◌, length-take,
  length-drop, take-append-drop, take_all, drop_all, take-append, drop-append, sub_size, add_size,
  append-nil, false,
}
use socksprox.Ring.Bounds.{IsValid, no_wrap, writehead_in}
use socksprox.Ring.Window.{
  read_from, put_all, length-read_from, read_from_mod, put_all_mod, put_all-append,
  read_from-append, copy_at-put_all, slice-read_from, read_from-put_all,
}
use socksprox.Ring.{
  Ringbuff, copy_at, two_copies, two_reads, write_ringbuff, peek_ringbuff, consume_ringbuff,
}

-- The bytes in a ring buffer, oldest first.
abbrev pub contents : Ringbuff → List ℕ
contents r = read_from r.buff r.capacity r.readhead r.used

pub length-contents : (r : Ringbuff) → length (contents r) ≡ r.used
length-contents r = length-read_from r.buff r.capacity r.readhead r.used

take-drop_all : (k : ℕ) (xs : List ℕ) → take (length xs - k) (drop k xs) ≡ drop k xs
take-drop_all k xs = take_all (length xs - k) (drop k xs) (omega (arith, length-drop k xs))

split_put_all :
    (buf : List ℕ) (capacity wh : ℕ) (src : List ℕ)
    → wh < capacity
    → capacity - wh ≤ length src
    → length src ≤ capacity
    → copy_at (copy_at buf wh (take (capacity - wh) src)) 0 (drop (capacity - wh) src)
      ≡ put_all buf capacity wh src
split_put_all buf capacity wh src hw hk hs =
    ap (λ b. copy_at b 0 ys) (copy_at-put_all buf capacity wh xs (omega (arith, len_xs)))
    ∙ copy_at-put_all (put_all buf capacity wh xs) capacity 0 ys
        (omega (arith, length-drop (capacity - wh) src))
    ∙ put_all_mod (put_all buf capacity wh xs) capacity 0 (wh + length xs) ys (
        ap (λ (t : ℕ). t % capacity) {x = 0} {y = 0} refl
        ∙ sym (add-mod_left capacity 0)
        ∙ ap (λ (t : ℕ). t % capacity) (omega (arith, len_xs)))
    ∙ sym (put_all-append buf capacity wh xs ys)
    ∙ ap (put_all buf capacity wh) (take-append-drop (capacity - wh) src)
  where
    xs : List ℕ
    xs = take (capacity - wh) src

    ys : List ℕ
    ys = drop (capacity - wh) src

    len_xs : length xs ≡ capacity - wh
    len_xs = omega (arith, length-take (capacity - wh) src)

-- Where the storage has room for all of `src`, the two copies write it byte after byte, going
-- round the end.
two_copies-put_all :
    {r : Ringbuff} (src : List ℕ)
    → IsValid r
    → length src ≤ r.capacity
    → two_copies r src ≡ put_all r.buff r.capacity r.writehead src
unfolding two_copies copy_at
two_copies-put_all {r} src v h = elim (Bool-cases (ltb (length src) room)) [
  | inl fits ↦
      rw
        (
          (no_wrap v).1,
          fits,
          ltb-le 0 (sub_size (length src) (length src)) (omega arith),
          take_all (length src) src (omega arith),
        )
        (copy_at-put_all r.buff r.capacity r.writehead src
          (omega (arith, ltb→lt _ _ fits, writehead_in v)))
  | inr splits ↦
      rw ((no_wrap v).1, splits, second splits, take-drop_all room src)
        (elim (Bool-cases (ltb 0 (length src - room))) [
          | inl more ↦ rw more (split splits)
          | inr done ↦ rw done (
              ap (copy_at (copy_at r.buff r.writehead (take room src)) 0)
                (sym (drop_all room src (omega (arith, ltb→le _ _ done))))
              ∙ split splits)
        ])
]
  where
    room : ℕ
    room = r.capacity - r.writehead

    second : ltb (length src) room ≡ false → sub_size (length src) room ≡ length src - room
    second e = omega (arith, ltb→le _ _ e, v.small)

    split :
        ltb (length src) room ≡ false
        → copy_at (copy_at r.buff r.writehead (take room src)) 0 (drop room src)
          ≡ put_all r.buff r.capacity r.writehead src
    split e = split_put_all r.buff r.capacity r.writehead src (writehead_in v) (ltb→le _ _ e) h

split_read_from :
    (buf : List ℕ) (capacity rh n : ℕ)
    → capacity ≡ length buf
    → rh < capacity
    → capacity - rh ≤ n
    → n ≤ capacity
    → slice buf rh (capacity - rh) ++ slice buf 0 (n - (capacity - rh))
      ≡ read_from buf capacity rh n
split_read_from buf capacity rh n e hr hk hn =
    ap₂ ◌++◌ (slice-read_from buf capacity rh (capacity - rh) (omega arith) e) (
      slice-read_from buf capacity 0 rest (omega arith) e
      ∙ read_from_mod buf capacity 0 (rh + (capacity - rh)) rest
          (sym (add-mod_left capacity 0) ∙ ap (λ (t : ℕ). t % capacity) (omega arith)))
    ∙ sym (read_from-append buf capacity rh (capacity - rh) rest)
    ∙ ap (read_from buf capacity rh) (omega arith)
  where
    rest : ℕ
    rest = n - (capacity - rh)

two_reads-read_from :
    {r : Ringbuff} (n : ℕ)
    → IsValid r
    → n ≤ r.used
    → two_reads r n ≡ read_from r.buff r.capacity r.readhead n
unfolding two_reads
two_reads-read_from {r} n v h = elim (Bool-cases (ltb n room)) [
  | inl fits ↦
      rw ((no_wrap v).2, fits, ltb-le 0 (sub_size n n) (omega arith))
        (slice-read_from r.buff r.capacity r.readhead n (omega (arith, ltb→lt _ _ fits)) v.storage)
  | inr splits ↦
      rw ((no_wrap v).2, splits, second splits)
        (elim (Bool-cases (ltb 0 (n - room))) [
          | inl more ↦ rw more (split splits)
          | inr done ↦ rw done (
              sym (append-nil (slice r.buff r.readhead room))
              ∙ ap (λ k. slice r.buff r.readhead room ++ slice r.buff 0 k) {x = 0} {y = n - room}
                  (omega (arith, ltb→le _ _ done))
              ∙ split splits)
        ])
]
  where
    room : ℕ
    room = r.capacity - r.readhead

    second : ltb n room ≡ false → sub_size n room ≡ n - room
    second e = omega (arith, ltb→le _ _ e, v.small)

    split :
        ltb n room ≡ false
        → slice r.buff r.readhead room ++ slice r.buff 0 (n - room)
          ≡ read_from r.buff r.capacity r.readhead n
    split e =
        split_read_from r.buff r.capacity r.readhead n v.storage v.readhead_in (ltb→le _ _ e)
          (omega arith)

contents-split :
    (r : Ringbuff) (n : ℕ)
    → n ≤ r.used
    → contents r
      ≡ read_from r.buff r.capacity r.readhead n
        ++ read_from r.buff r.capacity (r.readhead + n) (r.used - n)
contents-split r n h =
    ap (read_from r.buff r.capacity r.readhead) (omega arith)
    ∙ read_from-append r.buff r.capacity r.readhead n (r.used - n)

read-take :
    (r : Ringbuff) (n : ℕ)
    → n ≤ r.used
    → read_from r.buff r.capacity r.readhead n ≡ take n (contents r)
read-take r n h = sym (
    ap (take n) (contents-split r n h)
    ∙ take-append n _ _ (sym (length-read_from r.buff r.capacity r.readhead n)))

read-drop :
    (r : Ringbuff) (n : ℕ)
    → n ≤ r.used
    → read_from r.buff r.capacity ((r.readhead + n) % r.capacity) (r.used - n) ≡ drop n (contents r)
read-drop r n h = sym (
    ap (drop n) (contents-split r n h)
    ∙ drop-append n _ _ (sym (length-read_from r.buff r.capacity r.readhead n))
    ∙ sym (
        read_from_mod r.buff r.capacity ((r.readhead + n) % r.capacity) (r.readhead + n)
          (r.used - n) (mod-mod (r.readhead + n) r.capacity)))

written :
    {r : Ringbuff} (src : List ℕ)
    → IsValid r
    → r.used + length src ≤ r.capacity
    → read_from (two_copies r src) r.capacity r.readhead (r.used + length src) ≡ contents r ++ src
written {r} src v h =
    ap (λ b. read_from b r.capacity r.readhead (r.used + length src))
      (two_copies-put_all src v (omega arith)
        ∙ put_all_mod r.buff r.capacity r.writehead (r.readhead + r.used) src
            (ap (λ (t : ℕ). t % r.capacity) v.heads ∙ mod-mod (r.readhead + r.used) r.capacity))
    ∙ read_from-put_all r.buff r.capacity r.readhead r.used src v.storage v.readhead_in h

take_few : (r : Ringbuff) (n : ℕ) → r.used ≤ n → take n (contents r) ≡ take r.used (contents r)
take_few r n h =
    take_all n (contents r) (omega (arith, length-contents r))
    ∙ sym (take_all r.used (contents r) (omega (arith, length-contents r)))

take_empty : (r : Ringbuff) (n : ℕ) → r.used ≡ 0 → take n (contents r) ≡ []
take_empty r n e = take_few r n (omega arith) ∙ ap (λ k. take k (contents r)) e

-- `write_ringbuff` is all or nothing: where the free space holds `src` it appends exactly `src`
-- and returns its length, and else it returns 0 and leaves the buffer as it was.
pub write_ringbuff_lem :
    {r : Ringbuff} (src : List ℕ)
    → IsValid r
    → ((r.used + length src ≤ r.capacity)
        × ((write_ringbuff r src).0 ≡ length src)
        × (contents (write_ringbuff r src).1 ≡ contents r ++ src))
      ⊎ ((r.capacity < r.used + length src) × (write_ringbuff r src ≡ (0, r)))
unfolding write_ringbuff
write_ringbuff_lem {r} src v = elim (dec_lt r.capacity (r.used + length src)) [
  | yes over ↦ inr (over, rw (lt→ltb (sub_size r.capacity r.used) (length src) (omega arith)))
  | no fits ↦
      rw (ltb-le (sub_size r.capacity r.used) (length src) (omega arith))
        (inl (omega arith, refl, rw (total (omega arith)) (written src v (omega arith))))
]
  where
    total : r.used + length src ≤ r.capacity → add_size r.used (length src) ≡ r.used + length src
    total fits = omega arith

-- `peek_ringbuff` copies out the oldest `dstlen` bytes, or all if there are fewer, and returns
-- their number.
pub peek_ringbuff_lem :
    {r : Ringbuff} (dstlen : ℕ)
    → IsValid r
    → peek_ringbuff r dstlen ≡ (min dstlen r.used, take dstlen (contents r))
unfolding peek_ringbuff
peek_ringbuff_lem {r} dstlen v = elim (dec_lt r.used dstlen) [
  | yes few ↦ ground (
    arith,
    two_reads-read_from r.used v,
    read-take r r.used,
    take_few r dstlen,
    take_empty r dstlen,
  )
  | no many ↦ ground (arith, two_reads-read_from dstlen v, read-take r dstlen, take_empty r dstlen)
]

-- `consume_ringbuff` drops the oldest `consume` bytes, or all if there are fewer, and returns
-- their number.
pub consume_ringbuff_lem :
    {r : Ringbuff} (consume : ℕ)
    → IsValid r
    → ((consume_ringbuff r consume).0 ≡ min consume r.used)
      × (contents (consume_ringbuff r consume).1 ≡ drop consume (contents r))
unfolding consume_ringbuff
consume_ringbuff_lem {r} consume v = elim (dec_lt r.used consume) [
  | yes few ↦ ground (
    arith,
    read-drop r r.used,
    drop_all consume (contents r),
    drop_all r.used (contents r),
    length-contents r,
  )
  | no many ↦ ground (arith, read-drop r consume, drop_all consume (contents r), length-contents r)
]
