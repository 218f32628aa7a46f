-- ===== src/Resolver/Misread.antt =====
-- What the thread reads of the message that `resolve` writes.
use socksprox.Base.Bytes.{equal_bytes}
use socksprox.Base.Text.{NoneStop, c_string, c_string-append, decimal}
use socksprox.Base.{
  ℕ, zero, suc, ◌+◌, ◌-◌, ◌*◌, ◌≤◌, ◌<◌, ◌≡◌, refl, sym, ap, ◌∙◌, Bool, false, List, [], ◌∷◌, ◌++◌,
  some, ltb, ltb-le, lt→ltb, true, ◌==◌, if◌then◌else◌, length, length-append, length-take,
  length-drop, take, take-append, drop, drop-append, replicate, get_or, arith,
}
use mathlib.Core.Path.{subst}
use socksprox.Conn.Monad.{◌>>=◌, modify, set_state, issue_only}
use socksprox.Conn.{State, Call, Os, World}
use socksprox.Socks.Request.{resolve}
use socksprox.Resolver.{Taken, retry, lookup, take_port, take_name, take_lookup}

NoneStop-take :
    (stop : ℕ → Bool) (s n : ℕ) (xs : List ℕ)
    → s ≤ n
    → NoneStop stop (take n xs)
    → NoneStop stop (take s xs)
NoneStop-take stop zero n xs l h = tt
NoneStop-take stop (suc s) zero xs l h = absurd (omega arith)
NoneStop-take stop (suc s) (suc n) [] l h = tt
NoneStop-take stop (suc s) (suc n) (x ∷ xs) l h = (h.0, NoneStop-take stop s n xs (omega arith) h.1)

take-nil : (n : ℕ) → take {A = ℕ} n [] ≡ []
take-nil zero = refl
take-nil (suc n) = refl

take-take_more : (n k : ℕ) (xs : List ℕ) → take n (take (n + k) xs) ≡ take n xs
take-take_more zero k xs = refl
take-take_more (suc n) k [] = ap (take (suc n)) (take-nil (suc n + k))
take-take_more (suc n) k (x ∷ xs) =
    ap (λ (t : ℕ). take (suc n) (take t (x ∷ xs))) {x = suc n + k} {y = suc (n + k)} (omega arith)
    ∙ ap (λ (t : List ℕ). x ∷ t) (take-take_more n k xs)

-- The name's array holds a text without zeros that is short enough.
c_string_name :
    (name : List ℕ)
    → NoneStop (λ c. c == 0) name
    → length name < 256
    → c_string (name ++ replicate (256 - length name) 0) ≡ some name
c_string_name name h l =
    ap (λ (k : ℕ). c_string (name ++ replicate k 0)) {x = 256 - length name}
      {y = suc (256 - suc (length name))} (omega arith)
    ∙ c_string-append name _ h

-- The first `s` bytes for the name, and the next two for the port.
abbrev pub read_at : List ℕ → List ℕ → ℕ → Taken
read_at pointer body s =
    lookup pointer (take s body)
      (decimal 10 (get_or (drop s body) 0 0 * 256 + get_or (drop s body) 1 0))
      (drop 2 (drop s body))

module _ (pointer body : List ℕ) (n s : ℕ) (size : length body ≡ n + 2) (short : n < 128)
    (no_nul : NoneStop (λ c. c == 0) (take n body)) where
  take_name-fits : s ≤ n → take_name pointer (s ∷ body) ≡ read_at pointer body s
  unfolding take_name take_port
  take_name-fits l =
      rw (ltb-le (length body) s (omega (arith, size)), not_max)
        (rw (ltb-le (length (drop s body)) 2 (omega (arith, size, length-drop s body))) (
          rw
            (c_string_name (take s body) (NoneStop-take _ s n body l no_nul)
              (omega (arith, length-take s body)))
            refl))
    where
      not_max : (s == 255) ≡ false
      not_max = ground arith

  take_name-long : n < s → take_name pointer (s ∷ body) ≡ retry []
  unfolding take_name take_port
  take_name-long l = ground (arith, size, length-drop s body)

take_lookup-message :
    (pointer input : List ℕ) (n s : ℕ)
    → length pointer ≡ 8
    → equal_bytes pointer (replicate 8 0) ≡ false
    → n < 128
    → n + 2 ≤ length input
    → NoneStop (λ c. c == 0) (take n (take (n + 2) input))
    → take_lookup (pointer ++ (s ∷ take (n + 2) input))
      ≡ (if ltb n s then retry [] else read_at pointer (take (n + 2) input) s)
unfolding take_lookup
take_lookup-message pointer input n s size not_null short long no_nul =
    rw
      (
        ltb-le (length (pointer ++ (s ∷ body))) 8
            (omega (arith, size, length-append pointer (s ∷ body))),
        take-append 8 pointer (s ∷ body) (sym size),
        drop-append 8 pointer (s ∷ body) (sym size),
        not_null,
      )
      taken
  where
    body : List ℕ
    body = take (n + 2) input

    body_size : length body ≡ n + 2
    body_size = omega (arith, length-take (n + 2) input)

    taken : take_name pointer (s ∷ body) ≡ (if ltb n s then retry [] else read_at pointer body s)
    taken = ground (
      arith,
      take_name-fits pointer body n s body_size short no_nul,
      take_name-long pointer body n s body_size short no_nul,
    )

-- `resolve` on a request whose name has `n` bytes, at most 127: the input starts with the length,
-- `n` + 2 bytes of it are there, and `stack_byte` is the byte that nothing has written. If the
-- connection is allocated, the pointer to it is 8 bytes and not NULL, the name has no zeros and the
-- program goes on after the overrun, one message is written. The thread takes `stack_byte` for the length:
-- up to `n` it looks up the first bytes of the input, the length among them, and leaves the rest
-- in the pipe; above `n` it drops the message, and the request is never answered.
pub resolve-take_lookup :
    (os : Os) (input : List ℕ) (w : World)
    → os.overrun_goes_on ≡ true
    → w.shared_live ≡ true
    → length os.shared_pointer ≡ 8
    → equal_bytes os.shared_pointer (replicate 8 0) ≡ false
    → get_or input 0 0 < 128
    → get_or input 0 0 + 2 ≤ length input
    → NoneStop (λ c. c == 0) (take (get_or input 0 0) input)
    → (w' : World) × (msg : List ℕ) × (resolve os input w ≡ some (tt, w'))
      × (w'.calls ≡ Call.resolve msg ∷ w.calls)
      × (take_lookup msg ≡ (
          if ltb (get_or input 0 0) os.stack_byte
          then retry []
          else read_at os.shared_pointer (take (get_or input 0 0 + 2) input) os.stack_byte))
unfolding resolve set_state modify issue_only ◌>>=◌
resolve-take_lookup os input w goes_on live size not_null short long no_nul = (
  record w {
    shared = record w.shared { state = State.async_dns };
    calls = Call.resolve msg ∷ w.calls;
  },
  msg,
  rw (live, ◌>>=◌) (rw (lt→ltb n 128 short, goes_on, if◌then◌else◌) refl),
  refl,
  take_lookup-message os.shared_pointer input n os.stack_byte size not_null short long
      (subst (NoneStop (λ c. c == 0)) (sym (take-take_more n 2 input)) no_nul),
)
  where
    n : ℕ
    n = get_or input 0 0

    msg : List ℕ
    msg = os.shared_pointer ++ (os.stack_byte ∷ take (n + 2) input)
