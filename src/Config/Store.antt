-- ===== src/Config/Store.antt =====
-- `store_config` of src/config.c.
use socksprox.Address.{AddrInfo}
use socksprox.Base.Text.{◌>>=◌, c_string, atoi}
use socksprox.Base.{
  ℕ, suc, ◌+◌, Bool, true, false, ◌&&◌, List, [], ◌∷◌, Option, none, some, length, take, drop,
}
use socksprox.Config.Link.{Host, Linked, addr_only_gai, link_value, link_listen}
use socksprox.Config.Scan.{delim_ind}
use socksprox.Config.Settings.{
  yes_check, method_parse, set_a_log, set_e_log, set_blocks, set_max_conns, set_flag, AddressList,
  listen, list_of, set_list, add_method, Setting, access_log, error_log, max_connections, method,
  block, flag, addresses, setting_names, find_setting,
}
use socksprox.Config.{Configs}
use socksprox.Firewall.{Blockaddr, link_blocks}

-- The configuration, and the number of allocations so far.
pub record Parser : Type 0 where
  pub configs : Configs
  pub mallocs : ℕ

-- The result of `link_blocks`.
abbrev pub blocks_linked : Option (List Blockaddr) → Parser → Bool × Parser
blocks_linked none p = (false, p)
blocks_linked (some longer) p = (true, record p { configs = set_blocks longer p.configs })

module _ (host : Host) where
  -- The `block` key behind `addr_only_gai`; the rule's length stands at `digits`.
  unfoldable pub store_rule : List ℕ → List AddrInfo → Parser → Option (Bool × Parser)
  store_rule digits [] p = some (false, p)
  store_rule digits (ai ∷ more) p = do
    text ← c_string digits
    mask ← atoi text
    let ok : Bool = host.malloc_ok p.mallocs && host.malloc_ok (suc p.mallocs)
    some (
        blocks_linked (link_blocks host.undefined_shift ok (ai ∷ more) mask p.configs.block_head)
          (record p { mallocs = p.mallocs + 2 }))

  unfoldable pub store_block : List ℕ → Parser → Option (Bool × Parser)
  store_block val p = do
    text ← c_string val
    let delimind : ℕ = delim_ind b'/' val (length text)
    (ai, mallocs) ← addr_only_gai host val delimind p.mallocs
    store_rule (drop (suc delimind) val) ai (record p { mallocs = mallocs })

  unfoldable pub store_number : List ℕ → Parser → Option (Bool × Parser)
  store_number val p = do
    text ← c_string val
    number ← atoi text
    some (true, record p { configs = set_max_conns number p.configs })

  -- One of the five lists of addresses.
  unfoldable pub store_addresses :
      AddressList → Option (Bool × Linked) → Parser → Option (Bool × Parser)
  store_addresses field linked p = do
    (ok, l) ← linked
    some (ok, record { configs = set_list field l.head p.configs; mallocs = l.mallocs })

  -- The branch of `store_config` for a key; true for the result 0.
  unfoldable pub store : Setting → List ℕ → Parser → Option (Bool × Parser)
  store access_log val p = some (true, record p { configs = set_a_log (take 255 val) p.configs })
  store error_log val p = some (true, record p { configs = set_e_log (take 255 val) p.configs })
  store max_connections val p = store_number val p
  store (flag f) val p = some (true, record p { configs = set_flag f (yes_check val) p.configs })
  store method val p = some (true, record p { configs = add_method (method_parse val) p.configs })
  store (addresses listen) val p =
      store_addresses listen
        (link_listen host val (record { head = p.configs.listen_head; mallocs = p.mallocs })) p
  store (addresses field) val p =
      store_addresses field
        (link_value host val (record { head = list_of field p.configs; mallocs = p.mallocs })) p
  store block val p = store_block val p

  unfoldable pub store_config : List ℕ → List ℕ → Parser → Option (Bool × Parser)
  store_config key val p = elim (find_setting key setting_names) [
    | none ↦ some (true, p)
    | some s ↦ store s val p
  ]
