-- ===== src/Conn/Alive/Free.antt =====
-- `free_data` is defined where the structures are allocated.
use socksprox.Base.{true, ◌||◌, ◌≡◌, some, arith}
use socksprox.Conn.Alive.{side_live, Ended, Ends}
use socksprox.Conn.Epoll.{free_side, free_shared, free_data}
use socksprox.Conn.Live.{bind_some}
use socksprox.Conn.Monad.{M, ◌>>=◌, modify, load_self}
use socksprox.Conn.{Side, client, server, Shared, World}

-- A step of a run that is defined, and what follows it.
pub step_Ended :
    {A B : Type 0} (m : M A) (f : A → M B) (w : World) (a : A) (w' : World)
    → m w ≡ some (a, w')
    → Ended (f a w')
    → Ended ((m >>= f) w)
step_Ended m f w a w' e ends = rw (bind_some m f e) ends

load_self_live : (w : World) → w.client_live ≡ true → load_self client w ≡ some (w.client_self, w)
unfolding load_self
load_self_live w h = ground arith

load_server_self : (w : World) → w.server_live ≡ true → load_self server w ≡ some (w.server_self, w)
unfolding load_self
load_server_self w h = ground arith

modify_live :
    (f : Shared → Shared) (w : World)
    → w.shared_live ≡ true
    → modify f w ≡ some (tt, record w { shared = f w.shared })
unfolding modify
modify_live f w h = ground arith

free_shared_live :
    (w : World)
    → w.shared_live ≡ true
    → free_shared w
      ≡ some (tt, record w { shared_live = w.shared.client_data || w.shared.server_data })
unfolding free_shared
free_shared_live w h = ground arith

free_side-Ended : (who : Side) (w : World) → side_live who w ≡ true → Ended (free_side who w)
unfolding free_side
free_side-Ended client w h = rw h tt
free_side-Ended server w h = rw h tt

Ended-free_data :
    (who : Side) (w : World)
    → side_live who w ≡ true
    → w.shared_live ≡ true
    → Ended (free_data who w)
unfolding free_data
Ended-free_data client w hl hs = step_Ended _ _ w _ w (load_self_live w hl) (
    step_Ended _ _ w tt _ (modify_live _ w hs)
      (step_Ended free_shared _ _ tt _ (free_shared_live _ hs) (free_side-Ended client _ hl)))
Ended-free_data server w hl hs = step_Ended _ _ w _ w (load_server_self w hl) (
    step_Ended _ _ w tt _ (modify_live _ w hs)
      (step_Ended free_shared _ _ tt _ (free_shared_live _ hs) (free_side-Ended server _ hl)))

pub Ends-free_data : (who : Side) → Ends who (free_data who)
Ends-free_data who = record { at = λ w h. Ended-free_data who w (ground arith) (ground arith) }
