-- ===== src/Logger/Rounds.antt =====
-- One round of the loop of `logger_th`, by what is read.
use socksprox.Base.{ℕ, suc, ◌≡◌, refl, List, [], ◌∷◌, ◌++◌}
use socksprox.Logger.{Entry, skipped, logged, read_message, waiting, drain}

pub drain-logged :
    (fuel : ℕ) (pipe rest : List ℕ) (e : Entry) (out : List Entry)
    → read_message pipe ≡ logged e rest
    → drain (suc fuel) pipe out ≡ drain fuel rest (out ++ (e ∷ []))
unfolding drain
drain-logged fuel pipe rest e out h = rw (h, drain) refl

pub drain-skipped :
    (fuel : ℕ) (pipe rest : List ℕ) (out : List Entry)
    → read_message pipe ≡ skipped rest
    → drain (suc fuel) pipe out ≡ drain fuel rest out
unfolding drain
drain-skipped fuel pipe rest out h = rw (h, drain) refl

pub drain-nil : (fuel : ℕ) (out : List Entry) → drain (suc fuel) [] out ≡ waiting out
unfolding drain read_message
drain-nil fuel out = refl
