-- ===== src/Ring/Bounds.antt =====
-- The representation invariant of `struct Ringbuff`, and what it excludes: wrap-around of the
-- `size_t` arithmetic and accesses outside the storage.
use socksprox.Base.{
  ℕ, suc, ◌+◌, ◌-◌, ◌%◌, ◌^◌, ◌≤◌, ◌<◌, ◌≡◌, refl, ◌∙◌, ap, List, [], ◌∷◌, arith, length,
  length-set, set, take, drop, sub_size,
}
use native.Mathlib.Nat.{mod-add-mod, mod-lt}
use socksprox.Ring.{Ringbuff, copy_at, first_part, two_copies, write_ringbuff, consume_ringbuff}

pub record IsValid (r : Ringbuff) : Type 0 where
  pub storage : r.capacity ≡ length r.buff
  pub positive : 0 < r.capacity
  pub small : r.capacity < 2 ^ 63
  pub readhead_in : r.readhead < r.capacity
  pub used_in : r.used ≤ r.capacity
  pub heads : r.writehead ≡ (r.readhead + r.used) % r.capacity

pub length-copy_at :
    (dst : List ℕ) (off : ℕ) (xs : List ℕ) → length (copy_at dst off xs) ≡ length dst
unfolding copy_at
length-copy_at dst off [] = refl
length-copy_at dst off (x ∷ xs) = length-copy_at (set dst off x) (suc off) xs ∙ length-set dst off x

pub writehead_in : {r : Ringbuff} → IsValid r → r.writehead < r.capacity
writehead_in {r} v = omega (arith, v.heads, mod-lt (r.readhead + r.used) v.positive)

-- No copy leaves its array, and no `size_t` difference of the three functions wraps.
pub no_wrap :
    {r : Ringbuff}
    → IsValid r
    → (sub_size r.capacity r.used ≡ r.capacity - r.used)
      × (sub_size r.capacity r.writehead ≡ r.capacity - r.writehead)
      × (sub_size r.capacity r.readhead ≡ r.capacity - r.readhead)
no_wrap v = omega (arith, writehead_in v)

heads_add :
    {r : Ringbuff} (n : ℕ)
    → IsValid r
    → (r.writehead + n) % r.capacity ≡ (r.readhead + (r.used + n)) % r.capacity
heads_add {r} n v = rw (v.heads, mod-add-mod) (ap (λ (t : ℕ). t % r.capacity) (omega arith))

heads_sub :
    {r : Ringbuff} (n : ℕ)
    → IsValid r
    → n ≤ r.used
    → r.writehead ≡ ((r.readhead + n) % r.capacity + (r.used - n)) % r.capacity
heads_sub {r} n v h = v.heads ∙ rw mod-add-mod (ap (λ (t : ℕ). t % r.capacity) (omega arith))

length-two_copies : (r : Ringbuff) (src : List ℕ) → length (two_copies r src) ≡ length r.buff
unfolding two_copies
length-two_copies r src = ground (
  arith,
  length-copy_at r.buff wh (take n src),
  length-copy_at start 0 (take (sub_size m n) (drop n src)),
)
  where
    wh : ℕ
    wh = r.writehead

    m : ℕ
    m = length src

    n : ℕ
    n = first_part (sub_size r.capacity wh) m

    start : List ℕ
    start = copy_at r.buff wh (take n src)

pub length-write_ringbuff :
    (r : Ringbuff) (src : List ℕ) → length (write_ringbuff r src).1.buff ≡ length r.buff
unfolding write_ringbuff
length-write_ringbuff r src = ground (arith, length-two_copies r src)

pub capacity-write_ringbuff :
    (r : Ringbuff) (src : List ℕ) → (write_ringbuff r src).1.capacity ≡ r.capacity
unfolding write_ringbuff
capacity-write_ringbuff r src = ground arith

write_used :
    (r : Ringbuff) (src : List ℕ)
    → IsValid r
    → ((write_ringbuff r src).1.used ≤ r.capacity)
      × ((write_ringbuff r src).1.readhead ≡ r.readhead)
      × ((write_ringbuff r src).1.writehead
          ≡ (r.readhead + (write_ringbuff r src).1.used) % r.capacity)
unfolding write_ringbuff
write_used r src v = ground (arith, no_wrap v, heads_add (length src) v, writehead_in v)

-- `write_ringbuff` keeps the invariant.
pub write_ringbuff-IsValid :
    (r : Ringbuff) (src : List ℕ) → IsValid r → IsValid (write_ringbuff r src).1
write_ringbuff-IsValid r src v =
    ground (arith, write_used r src v, capacity-write_ringbuff r src, length-write_ringbuff r src)

-- `consume_ringbuff` keeps the invariant.
pub consume_ringbuff-IsValid : (r : Ringbuff) (n : ℕ) → IsValid r → IsValid (consume_ringbuff r n).1
unfolding consume_ringbuff
consume_ringbuff-IsValid r n v = ground (
  arith,
  heads_sub n v,
  heads_sub r.used v,
  mod-lt (r.readhead + n) v.positive,
  mod-lt (r.readhead + r.used) v.positive,
)
