-- ===== src/Config/Settings.antt =====
-- The keys of `store_config` of src/config.c, the fields they set, and the values that are words.
use socksprox.Address.{SockaddrNode}
use socksprox.Base.Int.{ℤ}
use socksprox.Base.Text.{codes, str_is}
use socksprox.Base.{ℕ, Bool, List, [], ◌∷◌, Option, none, some, if◌then◌else◌, set}
use socksprox.Config.{Configs}
use socksprox.Firewall.{Blockaddr}

unfoldable pub yes_check : List ℕ → Bool
yes_check val = str_is val (codes "yes")

-- `none` is -1.
unfoldable pub method_parse : List ℕ → Option ℕ
method_parse val =
    if str_is val (codes "no-auth")
    then some 0x00
    else if str_is val (codes "gssapi")
    then some 0x01
    else if str_is val (codes "username-password")
    then some 0x02
    else none

abbrev pub set_blocks : List Blockaddr → Configs → Configs
set_blocks longer configs = record configs { block_head = longer }

-- The flags, and the lists of addresses, that a key sets.
pub data Flag : Type 0 where
  allow_domains allow_connect allow_bind allow_udp_associate : Flag

pub data AddressList : Type 0 where
  listen bind_advertise bind_listen udp_advertise udp_listen : AddressList

abbrev pub set_a_log : List ℕ → Configs → Configs
set_a_log path configs = record configs { a_log = path }

abbrev pub set_e_log : List ℕ → Configs → Configs
set_e_log path configs = record configs { e_log = path }

abbrev pub set_max_conns : ℤ → Configs → Configs
set_max_conns n configs = record configs { max_conns = n }

abbrev pub set_flag : Flag → Bool → Configs → Configs
set_flag allow_domains b configs = record configs { allow_domains = b }
set_flag allow_connect b configs = record configs { allow_connect = b }
set_flag allow_bind b configs = record configs { allow_bind = b }
set_flag allow_udp_associate b configs = record configs { allow_udpassoc = b }

abbrev pub list_of : AddressList → Configs → List SockaddrNode
list_of listen configs = configs.listen_head
list_of bind_advertise configs = configs.bind_advertise
list_of bind_listen configs = configs.bind_listen
list_of udp_advertise configs = configs.udpa_advertise
list_of udp_listen configs = configs.udpa_listen

abbrev pub set_list : AddressList → List SockaddrNode → Configs → Configs
set_list listen head configs = record configs { listen_head = head }
set_list bind_advertise head configs = record configs { bind_advertise = head }
set_list bind_listen head configs = record configs { bind_listen = head }
set_list udp_advertise head configs = record configs { udpa_advertise = head }
set_list udp_listen head configs = record configs { udpa_listen = head }

-- `if(meth != -1) configs->methods[meth] = 1`
abbrev pub add_method : Option ℕ → Configs → Configs
add_method none configs = configs
add_method (some meth) configs = record configs { methods = set configs.methods meth 1 }

-- The branches of `store_config`, and the keys in the order of its comparisons.
pub data Setting : Type 0 where
  access_log error_log max_connections method block : Setting
  flag : Flag → Setting
  addresses : AddressList → Setting

abbrev pub setting_names : List (List ℕ × Setting)
setting_names =
    (codes "access-log", access_log)
    ∷ (codes "error-log", error_log)
    ∷ (codes "max-connections", max_connections)
    ∷ (codes "allow-domains", flag allow_domains)
    ∷ (codes "allow-connect", flag allow_connect)
    ∷ (codes "allow-bind", flag allow_bind)
    ∷ (codes "allow-udp-associate", flag allow_udp_associate)
    ∷ (codes "method", method)
    ∷ (codes "bind-advertise-address", addresses bind_advertise)
    ∷ (codes "bind-listen-address", addresses bind_listen)
    ∷ (codes "udp-advertise-address", addresses udp_advertise)
    ∷ (codes "udp-listen-address", addresses udp_listen)
    ∷ (codes "listen", addresses listen)
    ∷ (codes "block", block)
    ∷ []

-- The first key in the list that is equal.
unfoldable pub find_setting : List ℕ → List (List ℕ × Setting) → Option Setting
find_setting key [] = none
find_setting key ((name, s) ∷ names) =
    let rest = find_setting key names in if str_is key name then some s else rest
