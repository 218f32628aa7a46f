-- ===== src/Firewall/Decision.antt =====
-- The decision of `firewall` under the rules of the configuration.
use socksprox.Address.{Sockaddr, inet, inet6, other, AddrInfo, IsAddress}
use socksprox.Base.Int.{pos}
use socksprox.Base.{
  ℕ, ◌-◌, ◌*◌, ◌^◌, ◌≡◌, refl, ap, ◌∙◌, Bool, true, false, ◌||◌, ◌&&◌, not, List, [], ◌∷◌, none,
  some, arith, ltb-le, ◌==◌,
}
use socksprox.Firewall.Digits.{shift_left32_ones}
use socksprox.Firewall.Rules.{
  Rule, covers, blocked_by, IsPrefix, AreRules, link_rules, matches_sin_lem, matches_sin6_lem,
}
use socksprox.Firewall.{
  Netmask, Blockaddr, no_mask, mask_bytes, firewall_iton, matches_sin, check_sin, matches_sin6,
  check_sin6, check_sockaddr, check_ai, mask_network, link_blocks, udpa_unspec, is_unspec, firewall,
  cmd_udpa,
}

-- The rule's entry in `block_head`.
entry : ℕ → Sockaddr → ℕ → Blockaddr
entry u (inet port net) prefix =
    let m : Netmask = record no_mask {
      inet_mask = (2 ^ (32 - (32 - prefix)) - 1) * 2 ^ (32 - prefix);
    } in
    record { netmask = m; sa = mask_network m (inet port net) }
entry u (inet6 port net) prefix =
    let m : Netmask = record no_mask { inet6_mask = mask_bytes 16 prefix } in
    record { netmask = m; sa = mask_network m (inet6 port net) }
entry u (other f) prefix = record { netmask = no_mask; sa = other f }

link_blocks-entry :
    (u : ℕ) (net : Sockaddr) (prefix : ℕ) (head : List Blockaddr)
    → IsPrefix net prefix
    → link_blocks u true (record { ai_addr = net } ∷ []) (pos prefix) head
      ≡ some (entry u net prefix ∷ head)
unfolding link_blocks entry firewall_iton
link_blocks-entry u (inet port net) prefix head h =
    rw (ltb-le 32 prefix h.1, shift_left32_ones u (32 - prefix) (omega arith))
link_blocks-entry u (inet6 port net) prefix head h = rw (ltb-le 128 prefix h)
link_blocks-entry u (other f) prefix head h = absurd h

check_entry :
    (u : ℕ) (net addr : Sockaddr) (prefix : ℕ) (head : List Blockaddr) (default : Bool)
    → IsAddress net
    → IsPrefix net prefix
    → IsAddress addr
    → check_sockaddr addr default (entry u net prefix ∷ head)
      ≡ (covers net prefix addr || check_sockaddr addr default head)
unfolding check_sockaddr check_sin check_sin6 entry matches_sin matches_sin6 mask_network
check_entry u (inet port net) (inet port' addr) prefix head default hn hp ha =
    rw (matches_sin_lem addr net prefix ha hn hp) (ground arith)
check_entry u (inet6 port net) (inet6 port' addr) prefix head default hn hp ha =
    rw (matches_sin6_lem addr net prefix ha hn hp) (ground arith)
check_entry u (inet port net) (inet6 port' addr) prefix head default hn hp ha = refl
check_entry u (inet6 port net) (inet port' addr) prefix head default hn hp ha = refl
check_entry u (other f) addr prefix head default hn hp ha = absurd hn
check_entry u (inet port net) (other f) prefix head default hn hp ha = absurd ha
check_entry u (inet6 port net) (other f) prefix head default hn hp ha = absurd ha

swap_or : (a b c : Bool) → (b || (a || c)) ≡ ((a || b) || c)
swap_or a b c = ground arith

-- Valid rules are all stored, and the stored list blocks what they cover and what was blocked.
record Stored (u : ℕ) (rules : List Rule) (head : List Blockaddr) : Type 0 where
  result : List Blockaddr
  stored : link_rules u rules head ≡ some result
  decides :
      (addr : Sockaddr) (default : Bool)
      → IsAddress addr
      → check_sockaddr addr default result
        ≡ (blocked_by rules addr || check_sockaddr addr default head)

Stored-cons :
    (u : ℕ) (r : Rule) (rules : List Rule) (head : List Blockaddr)
    → IsAddress r.network
    → IsPrefix r.network r.prefix
    → Stored u rules (entry u r.network r.prefix ∷ head)
    → Stored u (r ∷ rules) head
unfolding link_rules
Stored-cons u r rules head hn hp rest = record {
  result = rest.result;
  stored = rw (link_blocks-entry u r.network r.prefix head hp, link_rules) rest.stored;
  decides = λ addr default ha.
      rest.decides addr default ha
      ∙ ap (λ b. blocked_by rules addr || b)
          (check_entry u r.network addr r.prefix head default hn hp ha)
      ∙ swap_or (covers r.network r.prefix addr) (blocked_by rules addr)
          (check_sockaddr addr default head);
}

link_rules-Stored :
    (u : ℕ) (rules : List Rule) (head : List Blockaddr) → AreRules rules → Stored u rules head
unfolding link_rules
link_rules-Stored u [] head h = record {
  result = head;
  stored = refl;
  decides = λ addr default ha. refl;
}
link_rules-Stored u (r ∷ rules) head h =
    Stored-cons u r rules head h.0 h.1
      (link_rules-Stored u rules (entry u r.network r.prefix ∷ head) h.2)

check_empty :
    (addr : Sockaddr) (default : Bool) → IsAddress addr → check_sockaddr addr default [] ≡ false
unfolding check_sockaddr check_sin check_sin6
check_empty (inet port addr) default h = refl
check_empty (inet6 port addr) default h = refl
check_empty (other f) default h = absurd h

or_false : (b : Bool) → (b || false) ≡ b
or_false b = ground arith

-- The addresses that UDP ASSOCIATE may name whatever the rules say.
abbrev pub exempt : ℕ → Sockaddr → Bool
exempt cmd sa = cmd == cmd_udpa && is_unspec sa

pub firewall-check :
    (cmd : ℕ) (sa : Sockaddr) (ai : List AddrInfo) (head : List Blockaddr)
    → firewall cmd (some sa) ai head ≡ (not (exempt cmd sa) && check_sockaddr sa true head)
unfolding firewall udpa_unspec
firewall-check cmd sa ai head = ground arith

decides-all :
    {u : ℕ} {rules : List Rule} (s : Stored u rules []) (sa : Sockaddr) (default : Bool)
    → IsAddress sa
    → check_sockaddr sa default s.result ≡ blocked_by rules sa
decides-all {u} {rules} s sa default ha =
    s.decides sa default ha
    ∙ ap (λ b. blocked_by rules sa || b) (check_empty sa default ha)
    ∙ or_false (blocked_by rules sa)

-- Rules with addresses of their family's length and prefixes of 1 to 32 digits for IPv4, of 0 to
-- 128 for IPv6, are all stored. Then `firewall` refuses the address of a request exactly if some
-- rule's network agrees with it in the digits of that rule's prefix, unless the command is UDP
-- ASSOCIATE and the address is all zeros.
pub firewall-link_rules :
    (u : ℕ) (rules : List Rule) (cmd : ℕ) (sa : Sockaddr) (ai : List AddrInfo)
    → AreRules rules
    → IsAddress sa
    → (head : List Blockaddr) × (link_rules u rules [] ≡ some head)
      × (firewall cmd (some sa) ai head ≡ (not (exempt cmd sa) && blocked_by rules sa))
firewall-link_rules u rules cmd sa ai h ha =
    let s = link_rules-Stored u rules [] h in
    (
      s.result,
      s.stored,
      firewall-check cmd sa ai s.result
          ∙ ap (λ b. not (exempt cmd sa) && b) (decides-all s sa true ha),
    )

-- Some address of the list is covered by a rule.
abbrev pub any_blocked : List Rule → List AddrInfo → Bool
any_blocked rules [] = false
any_blocked rules (ai ∷ more) = blocked_by rules ai.ai_addr || any_blocked rules more

abbrev pub AreAddresses : List AddrInfo → Type 0
AreAddresses [] = Unit
AreAddresses (ai ∷ more) = IsAddress ai.ai_addr × AreAddresses more

check_ai-any_blocked :
    {u : ℕ} {rules : List Rule} (s : Stored u rules []) (ai : List AddrInfo)
    → AreAddresses ai
    → check_ai ai s.result ≡ any_blocked rules ai
unfolding check_ai
check_ai-any_blocked s [] h = refl
check_ai-any_blocked s (a ∷ more) h =
    ground (arith, decides-all s a.ai_addr false h.0, check_ai-any_blocked s more h.1)

-- Where a domain name was resolved to a list of addresses, `firewall` refuses it exactly if some
-- address of the list is covered by a rule.
pub firewall_resolved :
    (u : ℕ) (rules : List Rule) (cmd : ℕ) (ai : AddrInfo) (more : List AddrInfo)
    → AreRules rules
    → AreAddresses (ai ∷ more)
    → (head : List Blockaddr) × (link_rules u rules [] ≡ some head)
      × (firewall cmd none (ai ∷ more) head ≡ any_blocked rules (ai ∷ more))
unfolding firewall
firewall_resolved u rules cmd ai more h ha =
    let s = link_rules-Stored u rules [] h in
    (s.result, s.stored, check_ai-any_blocked s (ai ∷ more) ha)
