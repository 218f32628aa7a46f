-- ===== src/Config/Strings.antt =====
-- The string functions of the configuration parser on texts that are short enough.
use socksprox.Address.{AddrInfo}
use socksprox.Base.Text.{NoneStop, c_string-append, ◌>>=◌, c_string, memcpy}
use socksprox.Base.{
  ℕ, zero, suc, ◌+◌, ◌-◌, ◌<◌, ◌≡◌, refl, ap, ◌∙◌, true, false, List, [], ◌∷◌, ◌++◌, none, some,
  ◌==◌, ltb, length, replicate, arith,
}
use socksprox.Config.Link.{Host, addr_only_gai}
use socksprox.Config.Scan.{delim_from}
use socksprox.Config.Words.{pad}

-- The text is shorter than the array, so that a zero follows it.
pub pad_short :
    (n : ℕ) (xs : List ℕ) → length xs < n → pad n xs ≡ xs ++ (0 ∷ replicate (n - suc (length xs)) 0)
pad_short n xs l =
    ap (λ (k : ℕ). xs ++ replicate k 0) {x = n - length xs} {y = suc (n - suc (length xs))}
      (omega arith)

pub c_string-pad :
    (n : ℕ) (xs : List ℕ)
    → NoneStop (λ c. c == 0) xs
    → length xs < n
    → c_string (pad n xs) ≡ some xs
c_string-pad n xs h l = ap c_string (pad_short n xs l) ∙ c_string-append xs _ h

pub delim_from-append :
    (d n i : ℕ) (xs rest : List ℕ)
    → NoneStop (λ c. c == d) xs
    → length xs < n
    → delim_from d n i (xs ++ (d ∷ rest)) ≡ i + length xs
unfolding delim_from
delim_from-append d zero i xs rest h l = absurd (omega arith)
delim_from-append d (suc n) i [] rest h l = ground arith
delim_from-append d (suc n) i (x ∷ xs) rest h l =
    rw h.0 (delim_from-append d n (suc i) xs rest h.1 (omega arith) ∙ omega arith)

memcpy-append :
    (xs rest : List ℕ) (k m : ℕ)
    → k ≡ length xs + m
    → memcpy (replicate k 0) (xs ++ rest) (length xs) ≡ some (xs ++ replicate m 0)
unfolding memcpy
memcpy-append [] rest k m e = ap (λ (t : ℕ). some (replicate t 0)) {x = k} {y = m} (omega arith)
memcpy-append (x ∷ xs) rest zero m e = absurd (omega arith)
memcpy-append (x ∷ xs) rest (suc k) m e =
    ap (λ o. o >>= λ copied. some (x ∷ copied)) (memcpy-append xs rest k m (omega arith))

module _ (host : Host) (malloc_ok : (n : ℕ) → host.malloc_ok n ≡ true) where
  -- A text that fits into `addr` with its terminator is what `getaddrinfo` is asked for.
  pub addr_only_gai-append :
      (xs rest : List ℕ) (mallocs : ℕ) (res : List AddrInfo)
      → NoneStop (λ c. c == 0) xs
      → length xs < 39
      → host.getaddrinfo xs none none ≡ some res
      → addr_only_gai host (xs ++ rest) (length xs) mallocs ≡ some (res, suc mallocs)
  unfolding addr_only_gai
  addr_only_gai-append xs rest mallocs res h l e =
      rw
        (
          fits,
          memcpy-append xs rest 39 (suc (39 - suc (length xs))) (omega arith),
          malloc_ok mallocs,
          c_string-append xs (replicate (39 - suc (length xs)) 0) h,
          e,
        )
        refl
    where
      fits : ltb 39 (length xs) ≡ false
      fits = ground arith
