-- ===== src/Firewall/Overlong.antt =====
-- `link_blocks` of src/config.c where `firewall_iton` refuses the mask: the entry is stored with a
-- netmask of zeros.
use socksprox.Address.{inet, AddrInfo, IsAddress, af_inet, ntohl, htonl}
use socksprox.Base.Bits.{bit_and_prefix}
use socksprox.Base.Bytes.{IsBytes, equal_bytes, equal_bytes_iff}
use socksprox.Base.Int.{ℤ}
use socksprox.Base.{
  ℕ, ◌<◌, ◌^◌, ◌≡◌, sym, ap, ◌∙◌, true, not, List, ◌∷◌, none, some, arith, length, ◌&&◌, Bool,
}
use socksprox.Firewall.Decision.{exempt, firewall-check}
use socksprox.Firewall.Digits.{ntohl-be_value, be_value_lt}
use socksprox.Firewall.{
  Blockaddr, no_mask, firewall_iton, mask_sin, matches_sin, check_sin, check_sockaddr, mask_network,
  link_blocks, firewall,
}

mask_sin-zero : (addr : List ℕ) → length addr ≡ 4 → IsBytes addr → mask_sin addr 0 ≡ htonl 0
unfolding mask_sin
mask_sin-zero addr l h =
    ap htonl (bit_and_prefix 0 32 (ntohl addr) (omega (arith, small)) ∙ omega (arith, small))
  where
    small : ntohl addr < 2 ^ 32
    small = rw (ntohl-be_value addr l) (rw l at (be_value_lt addr h))

and_true : (b : Bool) → (b && true) ≡ b
and_true b = ground arith

matches_all :
    (net addr : List ℕ)
    → (length net ≡ 4) × IsBytes net
    → (length addr ≡ 4) × IsBytes addr
    → equal_bytes (mask_sin addr 0) (mask_sin net 0) ≡ true
matches_all net addr hn ha =
    (equal_bytes_iff _ _).1 (mask_sin-zero addr ha.0 ha.1 ∙ sym (mask_sin-zero net hn.0 hn.1))

-- A `block` entry whose IPv4 mask `firewall_iton` refuses, such as one above 32 or below 0, is
-- stored all the same, and from then on every request for an IPv4 address is refused, unless it
-- is UDP ASSOCIATE to the address of zeros.
pub link_blocks_overlong :
    (u : ℕ) (port net : List ℕ) (more : List AddrInfo) (mask : ℤ) (head : List Blockaddr) (cmd : ℕ)
    (port' addr : List ℕ) (ai : List AddrInfo)
    → firewall_iton u no_mask af_inet mask ≡ none
    → IsAddress (inet port net)
    → IsAddress (inet port' addr)
    → (longer : List Blockaddr) × (link_blocks u true
          (record { ai_addr = inet port net } ∷ more)
          mask
          head
        ≡ some longer)
      × (firewall cmd (some (inet port' addr)) ai longer ≡ not (exempt cmd (inet port' addr)))
unfolding link_blocks mask_network check_sockaddr check_sin matches_sin
link_blocks_overlong u port net more mask head cmd port' addr ai e hn ha = (
  record { netmask = no_mask; sa = inet port (mask_sin net 0) } ∷ head,
  rw e,
  firewall-check cmd (inet port' addr) ai _
      ∙ rw (matches_all net addr hn ha) (and_true (not (exempt cmd (inet port' addr)))),
)
