-- ===== src/Config.antt =====
-- `struct Configs` of include/config.h; the children are src/config.c.
pub mod Scan
pub mod Settings
pub mod Link
pub mod Words
pub mod Store
pub mod Check
pub mod Parse
pub mod Lines
pub mod Files
pub mod Strings
pub mod Blocks
pub mod Blocked
pub mod Release
pub mod Usable
use socksprox.Address.{SockaddrNode}
use socksprox.Base.Int.{ℤ}
use socksprox.Base.{ℕ, Bool, List}
use socksprox.Firewall.{Blockaddr}

-- The lists are linked lists in the source. `methods` has 255 entries, and `after_methods` is the
-- byte behind them, which an index of 255 reads. The flags are 0 or 1.
pub record Configs : Type 0 where
  pub listen_head : List SockaddrNode
  pub a_log : List ℕ
  pub e_log : List ℕ
  pub max_conns : ℤ
  pub allow_domains : Bool
  pub allow_connect : Bool
  pub allow_bind : Bool
  pub allow_udpassoc : Bool
  pub methods : List ℕ
  pub after_methods : ℕ
  pub bind_advertise : List SockaddrNode
  pub bind_listen : List SockaddrNode
  pub udpa_advertise : List SockaddrNode
  pub udpa_listen : List SockaddrNode
  pub block_head : List Blockaddr
