-- ===== src/Address.antt =====
-- Socket addresses: `struct sockaddr` with the two families that the program reads, and the lists
-- of them in include/config.h and in the results of `getaddrinfo`.
use socksprox.Base.{ℕ, ◌+◌, ◌*◌, ◌/◌, ◌%◌, ◌^◌, Bool, true, false, List, [], ◌∷◌, ◌==◌, length, ◌≡◌}
use socksprox.Base.Bytes.{IsBytes}

-- AF_INET, AF_INET6, and every other value.
pub data Family : Type 0 where
  af_inet af_inet6 : Family
  af_other : ℕ → Family

abbrev pub same_family : Family → Family → Bool
same_family af_inet af_inet = true
same_family af_inet6 af_inet6 = true
same_family (af_other a) (af_other b) = a == b
same_family _ _ = false

-- `sin_port` and `sin_addr`, or `sin6_port` and `sin6_addr`, byte by byte as they lie in memory:
-- in network byte order.
pub data Sockaddr : Type 0 where
  inet : List ℕ → List ℕ → Sockaddr
  inet6 : List ℕ → List ℕ → Sockaddr
  other : ℕ → Sockaddr

abbrev pub sa_family : Sockaddr → Family
sa_family (inet port addr) = af_inet
sa_family (inet6 port addr) = af_inet6
sa_family (other f) = af_other f

-- One entry of the list that `getaddrinfo` returns; the list itself is a `List`. `ai_family` is
-- documented to be the family of `ai_addr`.
pub record AddrInfo : Type 0 where
  pub ai_addr : Sockaddr

abbrev pub ai_family : AddrInfo → Family
ai_family ai = sa_family ai.ai_addr

-- `Sockaddr_ll` without `next`: the list is a `List`. `raw` are the bytes of the node itself
-- (`next`, `addrlen`, padding, `sa`), which `init_udpa` reads.
pub record SockaddrNode : Type 0 where
  pub sa : Sockaddr
  pub raw : List ℕ

-- `ntohl` of the four bytes of an address, and the bytes of `htonl`.
unfoldable pub ntohl : List ℕ → ℕ
ntohl (a ∷ b ∷ c ∷ d ∷ []) = a * 2 ^ 24 + b * 2 ^ 16 + c * 2 ^ 8 + d
ntohl _ = 0

unfoldable pub htonl : ℕ → List ℕ
htonl n = (n / 2 ^ 24 % 256) ∷ (n / 2 ^ 16 % 256) ∷ (n / 2 ^ 8 % 256) ∷ (n % 256) ∷ []

-- An address as a number: its first byte counts most.
abbrev pub be_value : List ℕ → ℕ
be_value [] = 0
be_value (x ∷ xs) = x * 2 ^ (8 * length xs) + be_value xs

-- The addresses that the family's structure can hold.
abbrev pub IsAddress : Sockaddr → Type 0
IsAddress (inet port addr) = (length addr ≡ 4) × IsBytes addr
IsAddress (inet6 port addr) = (length addr ≡ 16) × IsBytes addr
IsAddress (other f) = ⊥
