-- ===== src/Config/Blocked.antt =====
-- From the text of a configuration file to the decision of the firewall.
use socksprox.Address.{Sockaddr, AddrInfo, IsAddress}
use socksprox.Base.Int.{pos}
use socksprox.Base.Text.{str_is}
use socksprox.Base.{
  ℕ, suc, ◌+◌, ◌≡◌, refl, ap, ◌∙◌, true, not, ◌&&◌, List, [], ◌∷◌, Option, none, some, arith,
}
use socksprox.Config.Blocks.{BlockLine, IsBlockLine, line_of, store_block-pad}
use socksprox.Config.Files.{FileLine, AreLines, print, run_lines, parse_file-print}
use socksprox.Config.Lines.{effect}
use socksprox.Config.Link.{Host}
use socksprox.Config.Parse.{empty_configs, parsed, proceed, parse_file}
use socksprox.Config.Settings.{set_blocks, find_setting}
use socksprox.Config.Store.{Parser, store, store_config}
use socksprox.Firewall.Decision.{exempt, firewall-link_rules}
use socksprox.Firewall.Rules.{Rule, AreRules, blocked_by, link_rules}
use socksprox.Firewall.{Blockaddr, link_blocks, firewall}

abbrev pub lines_of : List BlockLine → List FileLine
lines_of [] = []
lines_of (b ∷ bs) = line_of b ∷ lines_of bs

abbrev pub rules_of : List BlockLine → List Rule
rules_of [] = []
rules_of (b ∷ bs) = b.rule ∷ rules_of bs

abbrev pub AreBlockLines : Host → List BlockLine → Type 0
AreBlockLines host [] = Unit
AreBlockLines host (b ∷ bs) = IsBlockLine host b × AreBlockLines host bs

-- `link_rules` stores the first rule and goes on.
link_rules_step :
    (u : ℕ) (r : Rule) (rules : List Rule) (head result : List Blockaddr)
    → link_rules u (r ∷ rules) head ≡ some result
    → (longer : List Blockaddr) × (link_blocks u true
          (record { ai_addr = r.network } ∷ [])
          (pos r.prefix)
          head
        ≡ some longer)
      × (link_rules u rules longer ≡ some result)
unfolding link_rules
link_rules_step u r rules head result h = from_some _ (link_rules u rules) result h
  where
    from_some :
        (o : Option (List Blockaddr)) (f : List Blockaddr → Option (List Blockaddr))
        (result : List Blockaddr)
        → elim o [ none ↦ none | some longer ↦ f longer ] ≡ some result
        → (longer : List Blockaddr) × (o ≡ some longer) × (f longer ≡ some result)
    from_some none f result h = absurd (ground (arith, h))
    from_some (some longer) f result h = (longer, refl, h)

module _ (host : Host) (malloc_ok : (n : ℕ) → host.malloc_ok n ≡ true) where
  effect-block :
      (b : BlockLine) (p : Parser) (longer : List Blockaddr)
      → IsBlockLine host b
      → link_blocks host.undefined_shift true
          (record { ai_addr = b.rule.network } ∷ [])
          (pos b.rule.prefix)
          p.configs.block_head
        ≡ some longer
      → effect host (line_of b).shown p
        ≡ some (true, record { configs = set_blocks longer p.configs; mallocs = suc p.mallocs + 2 })
  unfolding effect store_config find_setting str_is store
  effect-block b p longer h l = store_block-pad host malloc_ok b p longer h l

  run_lines-blocks :
      (bs : List BlockLine) (p : Parser) (result : List Blockaddr)
      → AreBlockLines host bs
      → link_rules host.undefined_shift (rules_of bs) p.configs.block_head ≡ some result
      → (n : ℕ) × (run_lines host (lines_of bs) p
          ≡ parsed true (record { configs = set_blocks result p.configs; mallocs = n }))
  unfolding run_lines link_rules
  run_lines-blocks [] p result h l =
      let same : p.configs.block_head ≡ result = ground (arith, l) in
      (
        p.mallocs,
        ap
            (λ (t : List Blockaddr).
              parsed true (record { configs = set_blocks t p.configs; mallocs = p.mallocs }))
            same,
      )
  run_lines-blocks (b ∷ bs) p result h l =
      let (longer, first, others) =
        link_rules_step host.undefined_shift b.rule (rules_of bs) p.configs.block_head result l in
      let (n, e) =
        run_lines-blocks bs
          (record { configs = set_blocks longer p.configs; mallocs = suc p.mallocs + 2 }) result h.1
          others in
      (
        n,
        ap (λ o. proceed o (λ p'. run_lines host (lines_of bs) p'))
              (effect-block b p longer h.0 first)
            ∙ e,
      )

  -- A configuration file of `block = address/digits` lines that fit, with addresses for
  -- which the first entry of `getaddrinfo` is the rule's network and digits that `atoi` reads as prefixes of 1 to 32 for IPv4 or 0 to 128
  -- for IPv6, is parsed to its end if no allocation fails, and the firewall then refuses exactly the
  -- addresses that some line covers, unless the command is UDP ASSOCIATE and the address is all
  -- zeros.
  pub parse_file-firewall :
      (line : List ℕ) (bs : List BlockLine) (cmd : ℕ) (sa : Sockaddr) (ai : List AddrInfo)
      → AreLines (lines_of bs)
      → AreBlockLines host bs
      → AreRules (rules_of bs)
      → IsAddress sa
      → (p : Parser) × (parse_file host line (print (lines_of bs)) ≡ parsed true p)
        × (firewall cmd (some sa) ai p.configs.block_head
            ≡ (not (exempt cmd sa) && blocked_by (rules_of bs) sa))
  parse_file-firewall line bs cmd sa ai fit written rules address =
      let (head, linked, decides) =
        firewall-link_rules host.undefined_shift (rules_of bs) cmd sa ai rules address in
      let (n, e) =
        run_lines-blocks bs (record { configs = empty_configs; mallocs = 0 }) head written linked in
      (_, parse_file-print host line (lines_of bs) fit ∙ e, decides)
