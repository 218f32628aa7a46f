-- ===== src/Firewall/Rules.antt =====
-- The rules of the configuration: what `link_blocks` stores for `block = network/prefix`, and which
-- addresses `firewall` then refuses.
use native.Mathlib.Nat.{one-le-pow, mul-div_cancel}
use socksprox.Address.{Sockaddr, inet, inet6, other, be_value, IsAddress}
use socksprox.Base.Bytes.{equal_bytes, equal_bytes_iff, IsBytes}
use socksprox.Base.Int.{pos}
use socksprox.Base.{
  ℕ, ◌-◌, ◌*◌, ◌/◌, ◌^◌, ◌≤◌, ◌<◌, ◌≡◌, ◌↔◌, refl, sym, ap, ◌∙◌, Bool, true, false, ◌||◌, List, [],
  ◌∷◌, Option, none, some, arith, length, ◌==◌, ==_iff,
}
use socksprox.Firewall.Digits.{be_value_injective}
use socksprox.Firewall.Mask.{
  mask_sin-value, mask_sin-IsBytes, mask_sin6-value, mask_sin6-IsBytes, length-mask_bytes,
}
use socksprox.Firewall.{Blockaddr, mask_bytes, mask_sin, mask_sin6, link_blocks}

pub record Rule : Type 0 where
  pub network : Sockaddr
  pub prefix : ℕ

-- The network and the address agree in the `prefix` leading digits.
abbrev pub covers : Sockaddr → ℕ → Sockaddr → Bool
covers (inet _ net) prefix (inet _ addr) =
    be_value addr / 2 ^ (32 - prefix) == be_value net / 2 ^ (32 - prefix)
covers (inet6 _ net) prefix (inet6 _ addr) =
    be_value addr / 2 ^ (128 - prefix) == be_value net / 2 ^ (128 - prefix)
covers _ prefix _ = false

abbrev pub blocked_by : List Rule → Sockaddr → Bool
blocked_by [] addr = false
blocked_by (r ∷ rules) addr = covers r.network r.prefix addr || blocked_by rules addr

-- A prefix of 0 for IPv4 is left out: the code shifts by 32 there.
abbrev pub IsPrefix : Sockaddr → ℕ → Type 0
IsPrefix (inet _ _) prefix = (1 ≤ prefix) × (prefix ≤ 32)
IsPrefix (inet6 _ _) prefix = prefix ≤ 128
IsPrefix (other _) prefix = ⊥

abbrev pub AreRules : List Rule → Type 0
AreRules [] = Unit
AreRules (r ∷ rules) = IsAddress r.network × IsPrefix r.network r.prefix × AreRules rules

-- `link_blocks` for one rule after the other, on results of `getaddrinfo` with one address each.
unfoldable pub link_rules : ℕ → List Rule → List Blockaddr → Option (List Blockaddr)
link_rules u [] head = some head
link_rules u (r ∷ rules) head =
    elim (link_blocks u true (record { ai_addr = r.network } ∷ []) (pos r.prefix) head) [
      | none ↦ none
      | some longer ↦ link_rules u rules longer
    ]

same_test : (b c : Bool) {P : Type 0} → (b ≡ true) ↔ P → (c ≡ true) ↔ P → b ≡ c
same_test true true p q = refl
same_test true false p q = sym (q.1 (p.0 refl))
same_test false true p q = p.1 (q.0 refl)
same_test false false p q = refl

cancel_pow : (a b k : ℕ) → a * 2 ^ k ≡ b * 2 ^ k → a ≡ b
cancel_pow a b k e =
    sym (mul-div_cancel a positive) ∙ ap (λ (t : ℕ). t / 2 ^ k) e ∙ mul-div_cancel b positive
  where
    positive : 0 < 2 ^ k
    positive = one-le-pow k 2 (omega arith)

-- Two masked addresses are the same bytes exactly if the addresses agree above the low digits.
masked_iff :
    (xs ys : List ℕ) (v w k : ℕ)
    → length xs ≡ length ys
    → IsBytes xs
    → IsBytes ys
    → be_value xs ≡ v / 2 ^ k * 2 ^ k
    → be_value ys ≡ w / 2 ^ k * 2 ^ k
    → equal_bytes xs ys ≡ (v / 2 ^ k == w / 2 ^ k)
masked_iff xs ys v w k l hx hy ex ey =
    same_test (equal_bytes xs ys) (v / 2 ^ k == w / 2 ^ k) (equal_bytes_iff xs ys) (
      (λ t.
          be_value_injective xs ys l hx hy
            (ex ∙ ap (λ (q : ℕ). q * 2 ^ k) ((==_iff _ _).0 t) ∙ sym ey)),
      (λ e. (==_iff _ _).1 (cancel_pow _ _ k (sym ex ∙ ap be_value e ∙ ey))),
    )

pub matches_sin_lem :
    (addr net : List ℕ) (prefix : ℕ)
    → (length addr ≡ 4) × IsBytes addr
    → (length net ≡ 4) × IsBytes net
    → (1 ≤ prefix) × (prefix ≤ 32)
    → equal_bytes
        (mask_sin addr ((2 ^ (32 - (32 - prefix)) - 1) * 2 ^ (32 - prefix)))
        (mask_sin net ((2 ^ (32 - (32 - prefix)) - 1) * 2 ^ (32 - prefix)))
      ≡ (be_value addr / 2 ^ (32 - prefix) == be_value net / 2 ^ (32 - prefix))
matches_sin_lem addr net prefix ha hn hp =
    masked_iff (mask_sin addr mask) (mask_sin net mask) (be_value addr) (be_value net) (32 - prefix)
      (left.0 ∙ sym right.0) left.1 right.1
      (mask_sin-value addr (32 - prefix) ha.0 ha.1 (omega arith))
      (mask_sin-value net (32 - prefix) hn.0 hn.1 (omega arith))
  where
    mask : ℕ
    mask = (2 ^ (32 - (32 - prefix)) - 1) * 2 ^ (32 - prefix)

    left : (length (mask_sin addr mask) ≡ 4) × IsBytes (mask_sin addr mask)
    left = mask_sin-IsBytes addr mask

    right : (length (mask_sin net mask) ≡ 4) × IsBytes (mask_sin net mask)
    right = mask_sin-IsBytes net mask

pub matches_sin6_lem :
    (addr net : List ℕ) (prefix : ℕ)
    → (length addr ≡ 16) × IsBytes addr
    → (length net ≡ 16) × IsBytes net
    → prefix ≤ 128
    → equal_bytes (mask_sin6 addr (mask_bytes 16 prefix)) (mask_sin6 net (mask_bytes 16 prefix))
      ≡ (be_value addr / 2 ^ (128 - prefix) == be_value net / 2 ^ (128 - prefix))
matches_sin6_lem addr net prefix ha hn hp =
    masked_iff (mask_sin6 addr mask) (mask_sin6 net mask) (be_value addr) (be_value net)
      (128 - prefix) (left.0 ∙ ha.0 ∙ sym (right.0 ∙ hn.0)) left.1 right.1
      (mask_sin6-value 16 prefix addr ha.0 ha.1 hp) (mask_sin6-value 16 prefix net hn.0 hn.1 hp)
  where
    mask : List ℕ
    mask = mask_bytes 16 prefix

    left : (length (mask_sin6 addr mask) ≡ length addr) × IsBytes (mask_sin6 addr mask)
    left = mask_sin6-IsBytes addr mask (ha.0 ∙ sym (length-mask_bytes 16 prefix)) ha.1

    right : (length (mask_sin6 net mask) ≡ length net) × IsBytes (mask_sin6 net mask)
    right = mask_sin6-IsBytes net mask (hn.0 ∙ sym (length-mask_bytes 16 prefix)) hn.1
