-- ===== src/Config/Link.antt =====
-- Addresses of the configuration: `addr_only_gai`, `link_addrs_from_gai` and `link_addr` of
-- src/config.c, and their uses in `store_config`.
use socksprox.Address.{AddrInfo, SockaddrNode}
use socksprox.Base.Text.{◌>>=◌, c_string, memcpy}
use socksprox.Base.{
  ℕ, suc, ◌+◌, ◌-◌, Bool, true, false, ◌&&◌, not, List, [], ◌∷◌, Option, none, some, ltb,
  if◌then◌else◌, length, drop, replicate,
}
use socksprox.Config.Scan.{delim_ind}

-- The fields of `hints` that `link_addr` sets; `link_addr` alone passes some.
pub record Hints : Type 0 where
  pub hint_family : ℕ
  pub hint_socktype : ℕ
  pub hint_protocol : ℕ

-- What the C library and the machine answer. `getaddrinfo` takes the strings of `node` and
-- `service`, `none` for NULL, and gives the list, or `none` where its result is not 0. `malloc_ok`
-- and `node_bytes`, the bytes of a node that is stored, are by the number of the allocation.
pub record Host : Type 0 where
  pub getaddrinfo : List ℕ → Option (List ℕ) → Option Hints → Option (List AddrInfo)
  pub malloc_ok : ℕ → Bool
  pub node_bytes : ℕ → List ℕ
  pub undefined_shift : ℕ

-- A list of addresses, and the number of allocations so far.
pub record Linked : Type 0 where
  pub head : List SockaddrNode
  pub mallocs : ℕ

-- `AF_UNSPEC` is 0 and `SOCK_STREAM` is 1.
abbrev pub stream_hints : Hints
stream_hints = record { hint_family = 0; hint_socktype = 1; hint_protocol = 0 }

module _ (host : Host) where
  -- A name without a place for its terminator is read past the end of `addr`. `[]` is NULL; the
  -- second part is the number of allocations.
  unfoldable pub addr_only_gai : List ℕ → ℕ → ℕ → Option (List AddrInfo × ℕ)
  addr_only_gai val valsz mallocs = if ltb 39 valsz then some ([], mallocs) else do
    addr ← memcpy (replicate 39 0) val valsz
    if not (host.malloc_ok mallocs) then some ([], suc mallocs) else do
      name ← c_string addr
      elim (host.getaddrinfo name none none) [
        | none ↦ some ([], suc mallocs)
        | some res ↦ some (res, suc mallocs)
      ]

  -- The loop over the entries of `getaddrinfo`, with its two allocations in each round. True for
  -- the result 0; what was linked before a failure stays linked.
  unfoldable pub link_nodes : List AddrInfo → Linked → Bool × Linked
  link_nodes [] l = (true, l)
  link_nodes (ai ∷ more) l =
      if not (host.malloc_ok l.mallocs && host.malloc_ok (suc l.mallocs))
      then (false, record l { mallocs = l.mallocs + 2 })
      else link_nodes more (record {
        head = record { sa = ai.ai_addr; raw = host.node_bytes l.mallocs } ∷ l.head;
        mallocs = l.mallocs + 2;
      })

  unfoldable pub link_addrs_from_gai : List AddrInfo → Linked → Bool × Linked
  link_addrs_from_gai [] l = (false, l)
  link_addrs_from_gai (ai ∷ more) l = link_nodes (ai ∷ more) l

  -- `addr` and `port` have 39 and 6 bytes, which the two copies can exceed.
  unfoldable pub link_addr : List ℕ → ℕ → Linked → Option (Bool × Linked)
  link_addr addrport addrportsz l = do
    let delimind : ℕ = delim_ind b'_' addrport addrportsz
    addr ← memcpy (replicate 39 0) addrport delimind
    port ← memcpy (replicate 6 0) (drop (suc delimind) addrport) (addrportsz - delimind)
    node ← c_string addr
    service ← c_string port
    elim (host.getaddrinfo node (some service) (some stream_hints)) [
      | none ↦ some (false, l)
      | some result ↦ some (link_nodes result l)
    ]

  -- An `…-address` key: the addresses of the value before those in the list.
  unfoldable pub link_value : List ℕ → Linked → Option (Bool × Linked)
  link_value val l = do
    text ← c_string val
    (ai, mallocs) ← addr_only_gai val (length text) l.mallocs
    some (link_addrs_from_gai ai (record l { mallocs = mallocs }))

  unfoldable pub link_listen : List ℕ → Linked → Option (Bool × Linked)
  link_listen val l = do text ← c_string val; link_addr val (length text) l
