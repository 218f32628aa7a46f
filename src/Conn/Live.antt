-- ===== src/Conn/Live.antt =====
-- The accesses to memory that is allocated.
use socksprox.Base.{true, false, ◌≡◌, refl, ap, ◌∙◌, some, none, arith}
use socksprox.Conn.Monad.{M, ◌>>=◌, load, load_info, modify, modify_info}
use socksprox.Conn.{Info, World}

pub load_live : (w : World) → w.shared_live ≡ true → load w ≡ some (w.shared, w)
unfolding load
load_live w h = ground arith

pub load_info_live :
    (w : World) (i : Info)
    → w.shared_live ≡ true
    → w.shared.info ≡ some i
    → load_info w ≡ some (i, w)
unfolding load_info
load_info_live w i hl hi = simp (hl, hi) refl

pub bind_some :
    {A B : Type 0} (m : M A) (f : A → M B) {w w' : World} {a : A}
    → m w ≡ some (a, w')
    → (m >>= f) w ≡ f a w'
unfolding ◌>>=◌
bind_some m f e = ap (λ r. elim r [ none ↦ none | some (a, w) ↦ f a w ]) e

pub bind_none : {A B : Type 0} (m : M A) (f : A → M B) {w : World} → m w ≡ none → (m >>= f) w ≡ none
unfolding ◌>>=◌
bind_none m f e = ap (λ r. elim r [ none ↦ none | some (a, w) ↦ f a w ]) e

-- `*shared->info = i`
abbrev pub with_info : World → Info → World
with_info w i = record w { shared = record w.shared { info = some i } }

pub modify_info_live :
    (f : Info → Info) (w : World) (i : Info)
    → w.shared_live ≡ true
    → w.shared.info ≡ some i
    → modify_info f w ≡ some (tt, with_info w (f i))
unfolding modify_info modify
modify_info_live f w i hl hi = bind_some load_info _ (load_info_live w i hl hi) ∙ simp hl refl

pub modify_info_freed :
    (f : Info → Info) (w : World) → w.shared_live ≡ false → modify_info f w ≡ none
unfolding modify_info load_info
modify_info_freed f w h = bind_none load_info _ (simp h refl)

pub modify_info-none : (f : Info → Info) (w : World) → w.shared.info ≡ none → modify_info f w ≡ none
unfolding modify_info load_info
modify_info-none f w h = bind_none load_info _ (ground arith)
