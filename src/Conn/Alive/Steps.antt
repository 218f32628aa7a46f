-- ===== src/Conn/Alive/Steps.antt =====
-- Steps of a run on memory that is allocated.
use socksprox.Base.{
  ℕ, Bool, true, false, ◌≡◌, refl, List, ◌∷◌, Option, none, some, length, arith, Option-cases, inl,
  inr, if◌then◌else◌,
}
use socksprox.Conn.Alive.Free.{step_Ended}
use socksprox.Conn.Alive.{alive, Ended}
use socksprox.Conn.Live.{with_info, modify_info_live}
use socksprox.Conn.Monad.{M, ◌>>=◌, on_option, modify_info, malloc, issue, peek_server_out}
use socksprox.Conn.{Side, client, server, Info, Call, Os, World}
use socksprox.Ring.{peek_ringbuff}

peek_live :
    (n : ℕ) (w : World)
    → w.shared_live ≡ true
    → w.shared.buffers ≡ true
    → peek_server_out n w ≡ some (peek_ringbuff w.shared.server_out n, w)
unfolding peek_server_out
peek_live n w live there = ground arith

module _ (who : Side) where
  alive-with_info : (w : World) (i : Info) → alive who w ≡ true → alive who (with_info w i) ≡ true
  alive-with_info w i h = side who h
    where
      side : (s : Side) → alive s w ≡ true → alive s (with_info w i) ≡ true
      side client e = ground arith
      side server e = ground arith

  alive-calls :
      (w : World) (calls : List Call)
      → alive who w ≡ true
      → alive who (record w { calls = calls }) ≡ true
  alive-calls w calls h = side who h
    where
      side : (s : Side) → alive s w ≡ true → alive s (record w { calls = calls }) ≡ true
      side client e = e
      side server e = e

  -- What follows a change of `*shared->info`.
  pub Ended-modify_info :
      (f : Info → Info) (rest : Unit {0} → M (Unit {0})) (w : World)
      → alive who w ≡ true
      → ((i : Info)
          → w.shared_live ≡ true
          → w.shared.info ≡ some i
          → alive who (with_info w (f i)) ≡ true
          → Ended (rest tt (with_info w (f i))))
      → Ended ((modify_info f >>= rest) w)
  Ended-modify_info f rest w h k = elim (Option-cases w.shared.info) [
    | inl gone ↦ absurd (ground arith)
    | inr (i, here) ↦
        step_Ended (modify_info f) rest w tt _ (modify_info_live f w i (ground arith) here)
          (k i (ground arith) here (alive-with_info w (f i) h))
  ]

  pub Ended-malloc :
      (os : Os) (rest : Bool → M (Unit {0})) (w : World)
      → alive who w ≡ true
      → ((got : Bool)
          → alive who (record w { calls = Call.malloc ∷ w.calls }) ≡ true
          → Ended (rest got (record w { calls = Call.malloc ∷ w.calls })))
      → Ended ((malloc os >>= rest) w)
  unfolding malloc issue ◌>>=◌
  Ended-malloc os rest w h k =
      k (os.malloc_ok (length w.calls)) (alive-calls w (Call.malloc ∷ w.calls) h)

  pub Ended-peek :
      (n : ℕ) (rest : ℕ × List ℕ → M (Unit {0})) (w : World)
      → alive who w ≡ true
      → Ended (rest (peek_ringbuff w.shared.server_out n) w)
      → Ended ((peek_server_out n >>= rest) w)
  Ended-peek n rest w h k =
      step_Ended (peek_server_out n) rest w _ w (peek_live n w (ground arith) (ground arith)) k

pub Ended-if :
    (b : Bool) (m n : M (Unit {0})) (w : World)
    → Ended (m w)
    → Ended (n w)
    → Ended ((if b then m else n) w)
Ended-if true m n w em en = em
Ended-if false m n w em en = en

pub Ended-on_option :
    {A : Type 0} (o : Option A) (m : M (Unit {0})) (f : A → M (Unit {0})) (w : World)
    → Ended (m w)
    → ((a : A) → Ended (f a w))
    → Ended (on_option o m f w)
Ended-on_option none m f w em ef = em
Ended-on_option (some a) m f w em ef = ef a

pub result_of : (r : Option (Unit {0} × World)) → Ended r → (w' : World) × (r ≡ some (tt, w'))
result_of none h = absurd h
result_of (some (u, w')) h = (w', refl)
