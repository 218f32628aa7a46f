-- ===== src/Ring/Window.antt =====
-- The bytes that a ring holds, as a list, and what copying into the storage does to it.
use native.Mathlib.Nat.{mod-add-mod, mod-eq_of_lt, mod-eq-sub-mod, mod-lt}
use native.Mathlib.Decide.{dec_lt}
use socksprox.Base.{
  ℕ, zero, suc, ◌+◌, ◌-◌, ◌%◌, ◌≤◌, ◌<◌, ◌≡◌, ◌≢◌, refl, ◌∙◌, ap, ap₂, sym, List, [], ◌∷◌, ◌++◌,
  arith, length, get_or, set, slice, length-set, get_or-set_self, get_or-set_ne, slice-suc,
  append-nil, append_assoc,
}
use socksprox.Ring.{copy_at}

-- The `n` bytes from position `pos` on; positions are taken modulo the capacity.
abbrev pub read_from : List ℕ → ℕ → ℕ → ℕ → List ℕ
read_from buf capacity pos zero = []
read_from buf capacity pos (suc n) =
    get_or buf (pos % capacity) 0 ∷ read_from buf capacity (suc pos) n

-- One byte after the other, round the end of the storage.
abbrev pub put_all : List ℕ → ℕ → ℕ → List ℕ → List ℕ
put_all buf capacity pos [] = buf
put_all buf capacity pos (x ∷ xs) = put_all (set buf (pos % capacity) x) capacity (suc pos) xs

pub length-read_from :
    (buf : List ℕ) (capacity pos n : ℕ) → length (read_from buf capacity pos n) ≡ n
length-read_from buf capacity pos zero = refl
length-read_from buf capacity pos (suc n) = ap suc (length-read_from buf capacity (suc pos) n)

suc-mod : (p q capacity : ℕ) → p % capacity ≡ q % capacity → suc p % capacity ≡ suc q % capacity
suc-mod p q capacity e = omega (
  arith,
  mod-add-mod p capacity 1,
  mod-add-mod q capacity 1,
  ap (λ (t : ℕ). (t + 1) % capacity) e,
  ap (λ (t : ℕ). t % capacity) (sym_add p),
  ap (λ (t : ℕ). t % capacity) (sym_add q),
)
  where
    sym_add : (n : ℕ) → n + 1 ≡ suc n
    sym_add n = omega arith

pub read_from_mod :
    (buf : List ℕ) (capacity p q n : ℕ)
    → p % capacity ≡ q % capacity
    → read_from buf capacity p n ≡ read_from buf capacity q n
read_from_mod buf capacity p q zero e = refl
read_from_mod buf capacity p q (suc n) e =
    ap₂ ◌∷◌ (ap (λ t. get_or buf t 0) e)
      (read_from_mod buf capacity (suc p) (suc q) n (suc-mod p q capacity e))

pub put_all_mod :
    (buf : List ℕ) (capacity p q : ℕ) (xs : List ℕ)
    → p % capacity ≡ q % capacity
    → put_all buf capacity p xs ≡ put_all buf capacity q xs
put_all_mod buf capacity p q [] e = refl
put_all_mod buf capacity p q (x ∷ xs) e =
    ap (λ t. put_all (set buf t x) capacity (suc p) xs) e
    ∙ put_all_mod (set buf (q % capacity) x) capacity (suc p) (suc q) xs (suc-mod p q capacity e)

pub put_all-append :
    (buf : List ℕ) (capacity pos : ℕ) (xs ys : List ℕ)
    → put_all buf capacity pos (xs ++ ys)
      ≡ put_all (put_all buf capacity pos xs) capacity (pos + length xs) ys
put_all-append buf capacity pos [] ys = ap (λ t. put_all buf capacity t ys) (omega arith)
put_all-append buf capacity pos (x ∷ xs) ys =
    put_all-append (set buf (pos % capacity) x) capacity (suc pos) xs ys
    ∙ ap (λ t. put_all (put_all (set buf (pos % capacity) x) capacity (suc pos) xs) capacity t ys)
        (omega arith)

pub read_from-append :
    (buf : List ℕ) (capacity pos m n : ℕ)
    → read_from buf capacity pos (m + n)
      ≡ read_from buf capacity pos m ++ read_from buf capacity (pos + m) n
read_from-append buf capacity pos zero n =
    ap₂ (λ p k. read_from buf capacity p k) {x = pos} {y = pos + 0} (omega arith) (omega arith)
read_from-append buf capacity pos (suc m) n =
    ap (read_from buf capacity pos) {y = suc (m + n)} (omega arith)
    ∙ ap (λ t. get_or buf (pos % capacity) 0 ∷ t)
        (read_from-append buf capacity (suc pos) m n
          ∙ ap (λ k. read_from buf capacity (suc pos) m ++ read_from buf capacity k n)
              (omega arith))

-- Copying without passing the end of the storage is writing byte after byte.
pub copy_at-put_all :
    (buf : List ℕ) (capacity off : ℕ) (xs : List ℕ)
    → off + length xs ≤ capacity
    → copy_at buf off xs ≡ put_all buf capacity off xs
unfolding copy_at
copy_at-put_all buf capacity off [] h = refl
copy_at-put_all buf capacity off (x ∷ xs) h =
    copy_at-put_all (set buf off x) capacity (suc off) xs (omega arith)
    ∙ ap (λ t. put_all (set buf t x) capacity (suc off) xs) (sym (mod-eq_of_lt (omega arith)))

-- Reading a stretch that does not pass the end of the storage is a slice.
pub slice-read_from :
    (buf : List ℕ) (capacity off n : ℕ)
    → off + n ≤ capacity
    → capacity ≡ length buf
    → slice buf off n ≡ read_from buf capacity off n
slice-read_from buf capacity off zero h e = refl
slice-read_from buf capacity off (suc n) h e =
    slice-suc buf off n 0 (omega arith)
    ∙ ap₂ ◌∷◌ (ap (λ t. get_or buf t 0) (sym (mod-eq_of_lt (omega arith))))
        (slice-read_from buf capacity (suc off) n (omega arith) e)

-- Two positions less than a round apart are different.
round_ne :
    (capacity rd i n : ℕ)
    → rd < capacity
    → i < n
    → n < capacity
    → (rd + n) % capacity ≢ (rd + i) % capacity
round_ne capacity rd i n hr hi hn = elim (dec_lt (rd + n) capacity) [
  | yes p ↦ omega (arith, mod-eq_of_lt p, mod-eq_of_lt {n = rd + i} {m = capacity} (omega arith))
  | no p ↦ elim (dec_lt (rd + i) capacity) [
    | yes q ↦ omega (arith, wrapped (rd + n) (omega arith) (omega arith), mod-eq_of_lt q)
    | no q ↦ omega (
      arith,
      wrapped (rd + n) (omega arith) (omega arith),
      wrapped (rd + i) (omega arith) (omega arith),
    )
  ]
]
  where
    wrapped : (k : ℕ) → capacity ≤ k → k < capacity + capacity → k % capacity ≡ k - capacity
    wrapped k lo hi =
        mod-eq-sub-mod lo ∙ mod-eq_of_lt {n = k - capacity} {m = capacity} (omega arith)

read_from-set_ne :
    (buf : List ℕ) (capacity rd j k n p x : ℕ)
    → rd < capacity
    → j + n ≤ k
    → k < capacity
    → p ≡ rd + j
    → read_from (set buf ((rd + k) % capacity) x) capacity p n ≡ read_from buf capacity p n
read_from-set_ne buf capacity rd j k zero p x hr h hk e = refl
read_from-set_ne buf capacity rd j k (suc n) p x hr h hk e =
    ap₂ ◌∷◌
      (get_or-set_ne buf ((rd + k) % capacity) (p % capacity) x 0
        (rw e (round_ne capacity rd j k hr (omega arith) hk)))
      (read_from-set_ne buf capacity rd (suc j) k n (suc p) x hr (omega arith) hk (omega arith))

read_from-set_end :
    (buf : List ℕ) (capacity rd n x : ℕ)
    → capacity ≡ length buf
    → rd < capacity
    → n < capacity
    → read_from (set buf ((rd + n) % capacity) x) capacity rd (n + 1)
      ≡ read_from buf capacity rd n ++ (x ∷ [])
read_from-set_end buf capacity rd n x e hr hn =
    read_from-append (set buf ((rd + n) % capacity) x) capacity rd n 1
    ∙ ap₂ ◌++◌ (read_from-set_ne buf capacity rd 0 n n rd x hr (omega arith) hn (omega arith)) (
        ap (λ t. t ∷ [])
          (get_or-set_self buf ((rd + n) % capacity) x 0
            (omega (arith, mod-lt (rd + n) {m = capacity} (omega arith)))))

-- Writing at the end of a window extends it by what is written.
pub read_from-put_all :
    (buf : List ℕ) (capacity rd n : ℕ) (xs : List ℕ)
    → capacity ≡ length buf
    → rd < capacity
    → n + length xs ≤ capacity
    → read_from (put_all buf capacity (rd + n) xs) capacity rd (n + length xs)
      ≡ read_from buf capacity rd n ++ xs
read_from-put_all buf capacity rd n [] e hr h =
    ap (read_from buf capacity rd) (omega arith) ∙ sym (append-nil (read_from buf capacity rd n))
read_from-put_all buf capacity rd n (x ∷ xs) e hr h =
    ap₂ (λ p k. read_from (put_all next capacity p xs) capacity rd k) {x = suc (rd + n)}
      {y = rd + (n + 1)} {u = n + suc (length xs)} {v = n + 1 + length xs} (omega arith)
      (omega arith)
    ∙ read_from-put_all next capacity rd (n + 1) xs
        (e ∙ sym (length-set buf ((rd + n) % capacity) x)) hr (omega arith)
    ∙ ap (λ t. t ++ xs) (read_from-set_end buf capacity rd n x e hr (omega arith))
    ∙ append_assoc (read_from buf capacity rd n) (x ∷ []) xs
  where
    next : List ℕ
    next = set buf ((rd + n) % capacity) x
