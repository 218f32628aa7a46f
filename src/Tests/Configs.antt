-- ===== src/Tests/Configs.antt =====
-- The configuration parser at concrete inputs.
use socksprox.Address.{AddrInfo, inet}
use socksprox.Base.Bytes.{equal_bytes}
use socksprox.Base.Text.{codes, str_is, atoi, atoi_sign, leading_digits, as_int}
use socksprox.Base.{
  ◌≡◌, ◌↔◌, refl, true, false, List, [], ◌∷◌, none, some, if◌then◌else◌, replicate, arith,
}
use socksprox.Config.Blocked.{lines_of, parse_file-firewall}
use socksprox.Config.Blocks.{BlockLine, IsBlockLine}
use socksprox.Config.Check.{conf_error_check}
use socksprox.Config.Files.{FileLine, print, run_lines, parse_file-print}
use socksprox.Config.Lines.{ConfigLine, entry, comment, written, effect, parse_line_lem}
use socksprox.Config.Link.{Host}
use socksprox.Config.Parse.{empty_configs, parsed, parse_line, parse_file}
use socksprox.Config.Release.{free_configs, none_freed, cleared, nodes_of, free_configs-twice}
use socksprox.Config.Scan.{get_key, get_val}
use socksprox.Config.Settings.{yes_check, find_setting, set_flag, allow_bind}
use socksprox.Config.Store.{Parser, store, store_config}
use socksprox.Config.Usable.{IsUsable, conf_error_check_iff}
use socksprox.Config.Words.{word_in, get_key_lem, get_val_lem}
use socksprox.Config.{Configs}
use socksprox.Firewall.{firewall}
use socksprox.Tests.Rules.{inside, inside-IsAddress}

-- Knows the network 10.0.0.0 only.
-- One entry for each type of socket.
abbrev same_network : AddrInfo
same_network = record { ai_addr = inet (0 ∷ 0 ∷ []) (10 ∷ 0 ∷ 0 ∷ 0 ∷ []) }

abbrev host : Host
host = record {
  getaddrinfo = λ node service hints.
      if equal_bytes node (codes "10.0.0.0")
      then some (same_network ∷ same_network ∷ same_network ∷ [])
      else none;
  malloc_ok = λ n. true;
  node_bytes = λ n. replicate 24 0;
  undefined_shift = 0;
}

abbrev start : Parser
start = record { configs = empty_configs; mallocs = 0 }

-- "allow-bind = yes # bind"
abbrev allow_line : ConfigLine
allow_line = entry (32 ∷ []) b'a' (codes "llow-bind") 32 (codes "= ") b'y' (codes "es")

get_key_lem_example :
    get_key (codes "listen = x") (replicate 64 0) 64 ≡ word_in 64 (codes "listen") (codes " = x")
get_key_lem_example = get_key_lem b'l' 32 (codes "isten") (codes "= x") (ground arith) refl

get_val_lem_example :
    get_val (codes "yes # bind") (replicate 255 0) 255 ≡ word_in 255 (codes "yes") (codes " # bind")
get_val_lem_example = get_val_lem b'y' 32 (codes "es") (codes "# bind") (ground arith) refl

parse_line_lem_example :
    parse_line host (written allow_line (codes " # bind")) start ≡ effect host allow_line start
parse_line_lem_example = parse_line_lem host allow_line (codes " # bind") start (ground arith)

abbrev file : List FileLine
file =
    record { shown = comment []; tail = codes "# socksprox" }
    ∷ record { shown = allow_line; tail = codes " # bind" }
    ∷ record { shown = comment []; tail = [] }
    ∷ []

parse_file-print_example :
    parse_file host (replicate 255 7) (print file) ≡ run_lines host file start
unfolding written
parse_file-print_example = parse_file-print host (replicate 255 7) file (ground arith)

-- The run itself, against the configuration that the file describes.
parsed_file :
    run_lines host file start
    ≡ parsed true (record { configs = set_flag allow_bind true empty_configs; mallocs = 0 })
unfolding run_lines effect store_config find_setting str_is store yes_check
parsed_file = refl

conf_error_check_iff_example :
    ((conf_error_check empty_configs).ret ≡ false) ↔ IsUsable empty_configs
conf_error_check_iff_example = conf_error_check_iff empty_configs

abbrev private_line : BlockLine
private_line = record {
  indent = [];
  gap = (32, codes "= ");
  address = (b'1', codes "0.0.0.0");
  digits = codes "8";
  tail = [];
  rule = record { network = inet (0 ∷ 0 ∷ []) (10 ∷ 0 ∷ 0 ∷ 0 ∷ []); prefix = 8 };
}

private_line-IsBlockLine : IsBlockLine host private_line
unfolding equal_bytes atoi atoi_sign leading_digits as_int
private_line-IsBlockLine = record {
  more = same_network ∷ same_network ∷ [];
  address_no_slash = ground arith;
  address_no_nul = ground arith;
  digits_no_nul = ground arith;
  address_fits = omega arith;
  value_fits = omega arith;
  resolves = refl;
  counts = refl;
}

parse_file-firewall_example :
    (p : Parser) × (parse_file host (replicate 255 7) (print (lines_of (private_line ∷ [])))
      ≡ parsed true p)
    × (firewall 1 (some inside) [] p.configs.block_head ≡ true)
unfolding written
parse_file-firewall_example =
    parse_file-firewall host (λ n. refl) (replicate 255 7) (private_line ∷ []) 1 inside []
      (ground arith) (private_line-IsBlockLine, tt) (ground arith) inside-IsAddress

abbrev two_lists : Configs
two_lists = record empty_configs {
  listen_head = record { sa = inside; raw = [] } ∷ record { sa = inside; raw = [] } ∷ [];
  udpa_listen = record { sa = inside; raw = [] } ∷ [];
}

free_configs-twice_example :
    (free_configs two_lists none_freed ≡ (cleared two_lists, nodes_of two_lists))
    × (free_configs (free_configs two_lists none_freed).0 none_freed
        ≡ (cleared two_lists, none_freed))
free_configs-twice_example = free_configs-twice two_lists
