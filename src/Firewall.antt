-- ===== src/Firewall.antt =====
-- src/firewall.c, and `link_blocks` of src/config.c, which stores the rules.
pub mod Digits
pub mod Mask
pub mod Rules
pub mod Decision
pub mod Overlong
use socksprox.Address.{
  Family, af_inet, af_inet6, af_other, Sockaddr, inet, inet6, other, AddrInfo, ai_family, ntohl,
  htonl,
}
use socksprox.Base.Bytes.{equal_bytes}
use socksprox.Base.Int.{ℤ, pos, negsuc}
use socksprox.Base.{
  ℕ, zero, suc, ◌+◌, ◌-◌, ◌*◌, ◌%◌, ◌^◌, Bool, true, false, ◌&&◌, ◌||◌, not, List, [], ◌∷◌, Option,
  none, some, ltb, ◌==◌, if◌then◌else◌, bit_and, replicate,
}

-- `union Netmask`. The member that is read is always the one that was written, or both are zero.
pub record Netmask : Type 0 where
  pub inet_mask : ℕ
  pub inet6_mask : List ℕ

-- `Blockaddr_ll` without `next`: the list is a `List`.
pub record Blockaddr : Type 0 where
  pub netmask : Netmask
  pub sa : Sockaddr

-- `memset(new_node, 0, …)`
abbrev pub no_mask : Netmask
no_mask = record { inet_mask = 0; inet6_mask = replicate 16 0 }

-- The loop of `firewall_iton` from one of the 16 entries on; the entries after the `break` keep
-- the zeros of `memset`.
unfoldable pub mask_bytes : ℕ → ℕ → List ℕ
mask_bytes zero bits_left = []
mask_bytes (suc entries) bits_left =
    let rest = mask_bytes entries (bits_left - 8) in
    if ltb 8 bits_left then 255 ∷ rest else (255 * 2 ^ (8 - bits_left) % 256) ∷ replicate entries 0

-- C leaves `netmask << 32` undefined; `undefined_shift` is what it gives.
module _ (undefined_shift : ℕ) where
  unfoldable pub shift_left32 : ℕ → ℕ → ℕ
  shift_left32 x k = if ltb k 32 then x * 2 ^ k % 2 ^ 32 else undefined_shift

  -- The new value of `*dst` with the result 0, or `none` for -1, where `*dst` stays.
  unfoldable pub firewall_iton : Netmask → Family → ℤ → Option Netmask
  firewall_iton dst af (negsuc m) = none
  firewall_iton dst af_inet (pos m) =
      if ltb 32 m
      then none
      else some (record dst { inet_mask = shift_left32 (2 ^ 32 - 1) (32 - m) })
  firewall_iton dst af_inet6 (pos m) =
      if ltb 128 m then none else some (record dst { inet6_mask = mask_bytes 16 m })
  firewall_iton dst (af_other f) (pos m) = none

-- `*dst = htonl(ntohl(*dst) & *netmask)`
unfoldable pub mask_sin : List ℕ → ℕ → List ℕ
mask_sin dst netmask = htonl (bit_and (ntohl dst) netmask)

-- `dst[i] & netmask[i]` for the 16 entries.
unfoldable pub mask_sin6 : List ℕ → List ℕ → List ℕ
mask_sin6 (x ∷ dst) (m ∷ netmask) = bit_and x m ∷ mask_sin6 dst netmask
mask_sin6 dst netmask = []

-- The entry's test in the loop of `check_sin`; an entry of another family is passed over.
unfoldable pub matches_sin : List ℕ → Netmask → Sockaddr → Bool
matches_sin addr m (inet port net) = equal_bytes (mask_sin addr m.inet_mask) net
matches_sin addr m (inet6 port net) = false
matches_sin addr m (other f) = false

unfoldable pub check_sin : List ℕ → List Blockaddr → Bool
check_sin addr [] = false
check_sin addr (current ∷ next) =
    if matches_sin addr current.netmask current.sa then true else check_sin addr next

unfoldable pub matches_sin6 : List ℕ → Netmask → Sockaddr → Bool
matches_sin6 addr m (inet port net) = false
matches_sin6 addr m (inet6 port net) = equal_bytes (mask_sin6 addr m.inet6_mask) net
matches_sin6 addr m (other f) = false

unfoldable pub check_sin6 : List ℕ → List Blockaddr → Bool
check_sin6 addr [] = false
check_sin6 addr (current ∷ next) =
    if matches_sin6 addr current.netmask current.sa then true else check_sin6 addr next

-- The calls that `check_ai` and `firewall` make for one address.
unfoldable pub check_sockaddr : Sockaddr → Bool → List Blockaddr → Bool
check_sockaddr (inet port addr) default block_head = check_sin addr block_head
check_sockaddr (inet6 port addr) default block_head = check_sin6 addr block_head
check_sockaddr (other f) default block_head = default

unfoldable pub check_ai : List AddrInfo → List Blockaddr → Bool
check_ai [] block_head = false
check_ai (current ∷ next) block_head =
    if check_sockaddr current.ai_addr false block_head then true else check_ai next block_head

abbrev pub cmd_udpa : ℕ
cmd_udpa = 3

-- All bytes are 0.
unfoldable pub is_unspec : Sockaddr → Bool
is_unspec (inet port addr) = equal_bytes addr (replicate 4 0)
is_unspec (inet6 port addr) = equal_bytes addr (replicate 16 0)
is_unspec (other f) = false

-- `cmd`, `sa` (`none` is NULL) and `ai` (`[]` is NULL) are the fields of `Info` that are read.
unfoldable pub udpa_unspec : ℕ → Option Sockaddr → Bool
udpa_unspec cmd none = false
udpa_unspec cmd (some sa) = if cmd == cmd_udpa then is_unspec sa else false

-- True for the result 1, "blocked".
unfoldable pub firewall : ℕ → Option Sockaddr → List AddrInfo → List Blockaddr → Bool
firewall cmd none [] block_head = true
firewall cmd none (ai ∷ more) block_head = check_ai (ai ∷ more) block_head
firewall cmd (some sa) ai block_head =
    if udpa_unspec cmd (some sa) then false else check_sockaddr sa true block_head

-- `mask_sin` or `mask_sin6`, applied in place to the network of a new rule.
unfoldable pub mask_network : Netmask → Sockaddr → Sockaddr
mask_network m (inet port addr) = inet port (mask_sin addr m.inet_mask)
mask_network m (inet6 port addr) = inet6 port (mask_sin6 addr m.inet6_mask)
mask_network m (other f) = other f

-- `link_blocks` with its two allocations, `none` for the result -1. The result of `firewall_iton`
-- is not looked at: where that fails the netmask keeps its zeros.
unfoldable pub link_blocks : ℕ → Bool → List AddrInfo → ℤ → List Blockaddr → Option (List Blockaddr)
link_blocks undefined_shift malloc_ok [] mask head = none
link_blocks undefined_shift malloc_ok (ai ∷ more) mask head =
    if not malloc_ok
    then none
    else let netmask : Netmask = elim (firewall_iton undefined_shift no_mask (ai_family ai) mask) [
      | none ↦ no_mask
      | some m ↦ m
    ] in
      some (record { netmask = netmask; sa = mask_network netmask ai.ai_addr } ∷ head)
