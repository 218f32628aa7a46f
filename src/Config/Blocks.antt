-- ===== src/Config/Blocks.antt =====
-- The `block` lines of a configuration file, up to what the firewall decides.
use socksprox.Address.{AddrInfo}
use socksprox.Base.Int.{pos}
use socksprox.Base.Text.{NoneStop, c_string-append, codes, atoi}
use socksprox.Base.{
  ℕ, suc, ◌+◌, ◌-◌, ◌<◌, ◌≡◌, refl, ap, ◌∙◌, Bool, true, false, List, [], ◌∷◌, ◌++◌, append_assoc,
  none, some, ◌==◌, length, length-append, drop, replicate, arith,
}
use socksprox.Config.Files.{FileLine}
use socksprox.Config.Lines.{entry}
use socksprox.Config.Link.{Host, addr_only_gai}
use socksprox.Config.Scan.{delim_from, delim_ind}
use socksprox.Config.Settings.{set_blocks}
use socksprox.Config.Store.{Parser, blocks_linked, store_rule, store_block}
use socksprox.Config.Strings.{pad_short, delim_from-append, addr_only_gai-append}
use socksprox.Config.Words.{pad}
use socksprox.Firewall.Rules.{Rule}
use socksprox.Firewall.{Blockaddr, link_blocks}

-- A line `block = address/digits` and the rule that it stands for. The address and the gap are
-- given by their first byte and the others.
pub record BlockLine : Type 0 where
  pub indent : List ℕ
  pub gap : ℕ × List ℕ
  pub address : ℕ × List ℕ
  pub digits : List ℕ
  pub tail : List ℕ
  pub rule : Rule

abbrev pub address_text : BlockLine → List ℕ
address_text b = b.address.0 ∷ b.address.1

abbrev pub line_of : BlockLine → FileLine
line_of b = record {
  shown =
      entry b.indent b'b' (codes "lock") b.gap.0 b.gap.1 b.address.0
        (b.address.1 ++ (b'/' ∷ b.digits));
  tail = b.tail;
}

-- The texts fit into their arrays without a zero or a second slash, and mean the rule to
-- `getaddrinfo` and `atoi`. The list of `getaddrinfo` may have more entries, as it has one for each
-- type of socket; `link_blocks` looks at the first.
pub record IsBlockLine (host : Host) (b : BlockLine) : Type 0 where
  pub more : List AddrInfo
  pub address_no_slash : NoneStop (λ c. c == b'/') (address_text b)
  pub address_no_nul : NoneStop (λ c. c == 0) (address_text b)
  pub digits_no_nul : NoneStop (λ c. c == 0) b.digits
  pub address_fits : length (address_text b) < 39
  pub value_fits : length (address_text b ++ (b'/' ∷ b.digits)) < 255
  pub resolves :
      host.getaddrinfo (address_text b) none none
      ≡ some (record { ai_addr = b.rule.network } ∷ more)
  pub counts : atoi b.digits ≡ some (pos b.rule.prefix)

drop-after : (xs : List ℕ) (y : ℕ) (ys : List ℕ) → drop (suc (length xs)) (xs ++ (y ∷ ys)) ≡ ys
drop-after [] y ys = refl
drop-after (x ∷ xs) y ys = drop-after xs y ys

NoneStop-append :
    (stop : ℕ → Bool) (xs : List ℕ) (y : ℕ) (ys : List ℕ)
    → NoneStop stop xs
    → stop y ≡ false
    → NoneStop stop ys
    → NoneStop stop (xs ++ (y ∷ ys))
NoneStop-append stop [] y ys hx h hy = (h, hy)
NoneStop-append stop (x ∷ xs) y ys hx h hy = (hx.0, NoneStop-append stop xs y ys hx.1 h hy)

module _ (host : Host) (malloc_ok : (n : ℕ) → host.malloc_ok n ≡ true) where
  store_rule-append :
      (digits rest : List ℕ) (r : Rule) (more : List AddrInfo) (p : Parser)
      (longer : List Blockaddr)
      → NoneStop (λ c. c == 0) digits
      → atoi digits ≡ some (pos r.prefix)
      → link_blocks host.undefined_shift true
          (record { ai_addr = r.network } ∷ [])
          (pos r.prefix)
          p.configs.block_head
        ≡ some longer
      → store_rule host (digits ++ (0 ∷ rest)) (record { ai_addr = r.network } ∷ more) p
        ≡ some (true, record { configs = set_blocks longer p.configs; mallocs = p.mallocs + 2 })
  unfolding store_rule link_blocks
  store_rule-append digits rest r more p longer h e l =
      rw (c_string-append digits rest h, e, malloc_ok p.mallocs, malloc_ok (suc p.mallocs))
        (ap (λ o. some (blocks_linked o (record p { mallocs = p.mallocs + 2 }))) l)

  pub store_block-pad :
      (b : BlockLine) (p : Parser) (longer : List Blockaddr)
      → IsBlockLine host b
      → link_blocks host.undefined_shift true
          (record { ai_addr = b.rule.network } ∷ [])
          (pos b.rule.prefix)
          p.configs.block_head
        ≡ some longer
      → store_block host (pad 255 (address_text b ++ (b'/' ∷ b.digits))) p
        ≡ some (true, record { configs = set_blocks longer p.configs; mallocs = suc p.mallocs + 2 })
  unfolding store_block delim_ind
  store_block-pad b p longer h l =
      rw (shape, c_string-append val zeros val_no_nul, slash, address, digits)
        (store_rule-append b.digits zeros b.rule h.more (record p { mallocs = suc p.mallocs })
          longer h.digits_no_nul h.counts l)
    where
      val : List ℕ
      val = address_text b ++ (b'/' ∷ b.digits)

      zeros : List ℕ
      zeros = replicate (255 - suc (length val)) 0

      shape : pad 255 val ≡ val ++ (0 ∷ zeros)
      shape = pad_short 255 val h.value_fits

      val_no_nul : NoneStop (λ c. c == 0) val
      val_no_nul =
          NoneStop-append _ (address_text b) b'/' b.digits h.address_no_nul refl h.digits_no_nul

      split : val ++ (0 ∷ zeros) ≡ address_text b ++ (b'/' ∷ (b.digits ++ (0 ∷ zeros)))
      split = append_assoc (address_text b) (b'/' ∷ b.digits) (0 ∷ zeros)

      slash : delim_from b'/' (length val) 0 (val ++ (0 ∷ zeros)) ≡ length (address_text b)
      slash =
          ap (delim_from b'/' (length val) 0) split
          ∙ delim_from-append b'/' (length val) 0 (address_text b) _ h.address_no_slash
              (omega (arith, length-append (address_text b) (b'/' ∷ b.digits)))
          ∙ omega arith

      address :
          addr_only_gai host (val ++ (0 ∷ zeros)) (length (address_text b)) p.mallocs
          ≡ some (record { ai_addr = b.rule.network } ∷ h.more, suc p.mallocs)
      address =
          ap (λ (t : List ℕ). addr_only_gai host t (length (address_text b)) p.mallocs) split
          ∙ addr_only_gai-append host malloc_ok (address_text b) _ p.mallocs _ h.address_no_nul
              h.address_fits h.resolves

      digits : drop (suc (length (address_text b))) (val ++ (0 ∷ zeros)) ≡ b.digits ++ (0 ∷ zeros)
      digits = ap (drop (suc (length (address_text b)))) split ∙ drop-after (address_text b) _ _
