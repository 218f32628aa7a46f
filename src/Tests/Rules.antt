-- ===== src/Tests/Rules.antt =====
-- The firewall at concrete inputs.
use socksprox.Address.{Sockaddr, inet, inet6, AddrInfo, IsAddress}
use socksprox.Base.Int.{pos}
use socksprox.Base.{true, ◌≡◌, refl, List, [], ◌∷◌, none, some, arith, replicate}
use socksprox.Firewall.Decision.{firewall-link_rules, firewall_resolved, AreAddresses}
use socksprox.Firewall.Overlong.{link_blocks_overlong}
use socksprox.Firewall.Rules.{Rule, AreRules, link_rules}
use socksprox.Firewall.{Blockaddr, firewall_iton, link_blocks, firewall}

-- 10.0.0.0/8 and fc00::/7
abbrev pub private_rules : List Rule
private_rules =
    record { network = inet (0 ∷ 0 ∷ []) (10 ∷ 0 ∷ 0 ∷ 0 ∷ []); prefix = 8 }
    ∷ record { network = inet6 (0 ∷ 0 ∷ []) (252 ∷ replicate 15 0); prefix = 7 }
    ∷ []

pub private_rules-AreRules : AreRules private_rules
private_rules-AreRules = ground arith

-- 10.1.2.3, port 80
abbrev pub inside : Sockaddr
inside = inet (0 ∷ 80 ∷ []) (10 ∷ 1 ∷ 2 ∷ 3 ∷ [])

pub inside-IsAddress : IsAddress inside
inside-IsAddress = ground arith

firewall-link_rules_example :
    (head : List Blockaddr) × (link_rules 0 private_rules [] ≡ some head)
    × (firewall 1 (some inside) [] head ≡ true)
firewall-link_rules_example =
    firewall-link_rules 0 private_rules 1 inside [] private_rules-AreRules inside-IsAddress

-- 11.0.0.1, then 10.1.2.3
abbrev resolved : List AddrInfo
resolved =
    record { ai_addr = inet (0 ∷ 80 ∷ []) (11 ∷ 0 ∷ 0 ∷ 1 ∷ []) } ∷ record { ai_addr = inside } ∷ []

resolved-AreAddresses : AreAddresses resolved
resolved-AreAddresses = ground arith

firewall_resolved_example :
    (head : List Blockaddr) × (link_rules 0 private_rules [] ≡ some head)
    × (firewall 1 none resolved head ≡ true)
firewall_resolved_example =
    firewall_resolved 0 private_rules 1
      (record { ai_addr = inet (0 ∷ 80 ∷ []) (11 ∷ 0 ∷ 0 ∷ 1 ∷ []) })
      (record { ai_addr = inside } ∷ []) private_rules-AreRules resolved-AreAddresses

link_blocks_overlong_example :
    (longer : List Blockaddr) × (link_blocks 0 true (record { ai_addr = inside } ∷ []) (pos 33) []
      ≡ some longer)
    × (firewall 1 (some inside) [] longer ≡ true)
unfolding firewall_iton
link_blocks_overlong_example =
    link_blocks_overlong 0 (0 ∷ 80 ∷ []) (10 ∷ 1 ∷ 2 ∷ 3 ∷ []) [] (pos 33) [] 1 (0 ∷ 80 ∷ [])
      (10 ∷ 1 ∷ 2 ∷ 3 ∷ []) [] refl inside-IsAddress inside-IsAddress
