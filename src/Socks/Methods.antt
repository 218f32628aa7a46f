-- ===== src/Socks/Methods.antt =====
-- Which method the negotiation selects.
use socksprox.Base.{
  ℕ, true, false, ◌≡◌, refl, ap, sym, ◌∙◌, ◌⊎◌, inl, inr, List, [], ◌∷◌, ◌++◌, ◌==◌, ==_iff,
  Bool-cases,
}
use socksprox.Config.{Configs}
use socksprox.Socks.Handshake.{meth_nometh, method_entry, select_method}

-- No method of the list has the entry 1 in the configuration.
abbrev pub AreRefused : Configs → List ℕ → Type 0
AreRefused configs [] = Unit
AreRefused configs (m ∷ methods) =
    ((method_entry configs m == 1) ≡ false) × AreRefused configs methods

-- The selected method has the entry 1, and those before it in the client's list have not.
pub record Accepted (configs : Configs) (methods : List ℕ) : Type 0 where
  pub before : List ℕ
  pub after : List ℕ
  pub place : methods ≡ before ++ select_method configs methods ∷ after
  pub refused_before : AreRefused configs before
  pub allowed : method_entry configs (select_method configs methods) ≡ 1

select_method-head :
    (configs : Configs) (m : ℕ) (methods : List ℕ)
    → (method_entry configs m == 1) ≡ true
    → select_method configs (m ∷ methods) ≡ m
unfolding select_method
select_method-head configs m methods h = rw h refl

select_method-tail :
    (configs : Configs) (m : ℕ) (methods : List ℕ)
    → (method_entry configs m == 1) ≡ false
    → select_method configs (m ∷ methods) ≡ select_method configs methods
unfolding select_method
select_method-tail configs m methods h = rw h refl

Accepted-head :
    (configs : Configs) (m : ℕ) (methods : List ℕ)
    → (method_entry configs m == 1) ≡ true
    → Accepted configs (m ∷ methods)
Accepted-head configs m methods h = record {
  before = [];
  after = methods;
  place = ap (λ s. s ∷ methods) (sym (select_method-head configs m methods h));
  refused_before = tt;
  allowed = rw (select_method-head configs m methods h) ((==_iff _ 1).0 h);
}

Accepted-tail :
    (configs : Configs) (m : ℕ) (methods : List ℕ)
    → (method_entry configs m == 1) ≡ false
    → Accepted configs methods
    → Accepted configs (m ∷ methods)
Accepted-tail configs m methods h a = record {
  before = m ∷ a.before;
  after = a.after;
  place = rw (select_method-tail configs m methods h) (ap (λ xs. m ∷ xs) a.place);
  refused_before = (h, a.refused_before);
  allowed = rw (select_method-tail configs m methods h) a.allowed;
}

-- The selected method is the first in the client's list that has the entry 1 in the configuration;
-- it is 0xFF, and no method has the entry 1, otherwise.
pub select_method-first :
    (configs : Configs) (methods : List ℕ)
    → Accepted configs methods
      ⊎ (AreRefused configs methods × (select_method configs methods ≡ meth_nometh))
unfolding select_method
select_method-first configs [] = inr (tt, refl)
select_method-first configs (m ∷ methods) = elim (Bool-cases (method_entry configs m == 1)) [
  | inl allowed ↦ inl (Accepted-head configs m methods allowed)
  | inr refused ↦ elim (select_method-first configs methods) [
    | inl later ↦ inl (Accepted-tail configs m methods refused later)
    | inr none_later ↦
        inr ((refused, none_later.0), select_method-tail configs m methods refused ∙ none_later.1)
  ]
]
