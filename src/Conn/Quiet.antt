-- ===== src/Conn/Quiet.antt =====
-- Actions that make no call towards another host: no socket, and none of connect, bind and listen.
use socksprox.Base.{
  ℕ, suc, Bool, true, false, ◌≡◌, refl, ◌∙◌, List, [], ◌∷◌, Option, none, some, length, arith,
  Bool-cases, Option-cases, inl, inr, if◌then◌else◌,
}
use socksprox.Conn.Epoll.{ep_waiting_send, ep_delete_fd, free_side, free_shared, free_data}
use socksprox.Conn.Live.{
  bind_some, bind_none, with_info, modify_info-none, modify_info_freed, modify_info_live,
}
use socksprox.Conn.Monad.{
  M, ◌>>=◌, pure, load, modify, set_state, load_self, load_info, modify_info, set_rep,
  write_client_out, on_option, peek_server_out, issue, issue_only, malloc, log_access, log_error,
  close_fd, epoll_ctl,
}
use socksprox.Conn.{State, Fd, Side, client, server, Info, Shared, Call, Os, World}
use socksprox.Ring.{peek_ringbuff}

abbrev pub is_outbound : Call → Bool
is_outbound (Call.socket af) = true
is_outbound (Call.datagram_socket af) = true
is_outbound (Call.connect fd sa) = true
is_outbound (Call.bind fd sa) = true
is_outbound (Call.listen fd) = true
is_outbound _ = false

-- How many calls towards another host a list of calls has.
abbrev pub outbound : List Call → ℕ
outbound [] = 0
outbound (c ∷ more) = let n = outbound more in if is_outbound c then suc n else n

abbrev pub Silent : {A : Type 0} → ℕ → Option (A × World) → Type 0
Silent n none = Unit
Silent n (some (a, w)) = outbound w.calls ≡ n

pub record Quiet {A : Type 0} (m : M A) : Type 0 where
  pub at : (w : World) → Silent (outbound w.calls) (m w)

module _ {A : Type 0} where
  pub Quiet-pure : (a : A) → Quiet (pure a)
  Quiet-pure a = record { at = λ w. refl }

  pub Quiet-if : (b : Bool) (m n : M A) → Quiet m → Quiet n → Quiet (if b then m else n)
  Quiet-if true m n qm qn = qm
  Quiet-if false m n qm qn = qn

module _ {A B : Type 0} where
  then_Silent :
      (k : ℕ) (r : Option (A × World)) (f : A → M B)
      → Silent k r
      → ((a : A) → Quiet (f a))
      → Silent k (elim r [ none ↦ none | some (a, w) ↦ f a w ])
  then_Silent k none f h qf = tt
  then_Silent k (some (a, w)) f h qf = moved (f a w) h ((qf a).at w)
    where
      moved : {i j : ℕ} (r : Option (B × World)) → i ≡ j → Silent i r → Silent j r
      moved none e s = tt
      moved (some (b, w)) e s = s ∙ e

  pub Quiet-bind : (m : M A) (f : A → M B) → Quiet m → ((a : A) → Quiet (f a)) → Quiet (m >>= f)
  unfolding ◌>>=◌
  Quiet-bind m f qm qf = record { at = λ w. then_Silent (outbound w.calls) (m w) f (qm.at w) qf }

pub Quiet-load : Quiet load
unfolding load
Quiet-load = record { at = λ w. ground arith }

pub Quiet-load_self : (who : Side) → Quiet (load_self who)
unfolding load_self
Quiet-load_self client = record { at = λ w. ground arith }
Quiet-load_self server = record { at = λ w. ground arith }

pub Quiet-modify : (f : Shared → Shared) → Quiet (modify f)
unfolding modify
Quiet-modify f = record { at = λ w. ground arith }

pub Quiet-load_info : Quiet load_info
unfolding load_info
Quiet-load_info = record { at = λ w. ground arith }

pub Quiet-write_client_out : (xs : List ℕ) → Quiet (write_client_out xs)
unfolding write_client_out
Quiet-write_client_out xs = record { at = λ w. ground arith }

pub Quiet-issue : (c : Call) → is_outbound c ≡ false → Quiet (issue c)
unfolding issue
Quiet-issue c h = record { at = λ w. rw h refl }

pub Quiet-issue_only : (c : Call) → is_outbound c ≡ false → Quiet (issue_only c)
unfolding issue_only
Quiet-issue_only c h = record { at = λ w. rw h refl }

pub ruleset quiet_core = (
  Quiet-pure, Quiet-if, Quiet-bind, Quiet-load, Quiet-load_self, Quiet-modify, Quiet-load_info,
  Quiet-write_client_out, Quiet-issue, Quiet-issue_only,
)

pub Quiet-set_state : (s : State) → Quiet (set_state s)
unfolding set_state
Quiet-set_state s = search quiet_core

pub Quiet-set_rep : (r : ℕ) → Quiet (set_rep r)
unfolding set_rep modify_info
Quiet-set_rep r = search quiet_core

pub Quiet-log_access : (code : ℕ) → Quiet (log_access code)
unfolding log_access
Quiet-log_access code = search quiet_core

pub Quiet-close_fd : (fd : Fd) → Quiet (close_fd fd)
unfolding close_fd
Quiet-close_fd fd = search quiet_core

pub Quiet-ep_delete_fd : (fd : Fd) → Quiet (ep_delete_fd fd)
unfolding ep_delete_fd
Quiet-ep_delete_fd fd = search quiet_core

Quiet-free_shared : Quiet free_shared
unfolding free_shared
Quiet-free_shared = record { at = λ w. ground arith }

Quiet-free_side : (who : Side) → Quiet (free_side who)
unfolding free_side
Quiet-free_side client = record { at = λ w. ground arith }
Quiet-free_side server = record { at = λ w. ground arith }

pub Quiet-free_data : (who : Side) → Quiet (free_data who)
unfolding free_data
Quiet-free_data who = search (quiet_core, Quiet-free_shared, Quiet-free_side)

pub Quiet-ep_waiting_send : (os : Os) (fd : Fd) (p : Option Side) → Quiet (ep_waiting_send os fd p)
unfolding ep_waiting_send epoll_ctl log_error
Quiet-ep_waiting_send os fd p = search quiet_core depth 15

pub ruleset quiet_rules = (
  quiet_core, Quiet-set_state, Quiet-set_rep, Quiet-log_access, Quiet-close_fd, Quiet-ep_delete_fd,
  Quiet-free_data, Quiet-ep_waiting_send,
)

-- What follows a change of `*shared->info` runs with the structures allocated.
pub Silent-modify_info :
    (f : Info → Info) (rest : Unit {0} → M (Unit {0})) (w : World)
    → ((i : Info)
        → w.shared_live ≡ true
        → w.shared.info ≡ some i
        → Silent (outbound w.calls) (rest tt (with_info w (f i))))
    → Silent (outbound w.calls) ((modify_info f >>= rest) w)
Silent-modify_info f rest w k = elim (Bool-cases w.shared_live) [
  | inl live ↦ elim (Option-cases w.shared.info) [
    | inl gone ↦ rw (bind_none (modify_info f) rest (modify_info-none f w gone)) tt
    | inr (i, here) ↦
        rw (bind_some (modify_info f) rest (modify_info_live f w i live here)) (k i live here)
  ]
  | inr freed ↦ rw (bind_none (modify_info f) rest (modify_info_freed f w freed)) tt
]

pub Silent-if :
    (k : ℕ) (b : Bool) (m n : M (Unit {0})) (w : World)
    → Silent k (m w)
    → Silent k (n w)
    → Silent k ((if b then m else n) w)
Silent-if k true m n w sm sn = sm
Silent-if k false m n w sm sn = sn

pub Silent-malloc :
    (os : Os) (rest : Bool → M (Unit {0})) (w : World)
    → ((got : Bool)
        → Silent (outbound w.calls) (rest got (record w { calls = Call.malloc ∷ w.calls })))
    → Silent (outbound w.calls) ((malloc os >>= rest) w)
unfolding malloc issue ◌>>=◌
Silent-malloc os rest w k = k (os.malloc_ok (length w.calls))

-- What follows a peek at the input sees a copy of the oldest bytes.
pub Silent-peek :
    (n : ℕ) (rest : ℕ × List ℕ → M (Unit {0})) (w : World)
    → Silent (outbound w.calls) (rest (peek_ringbuff w.shared.server_out n) w)
    → Silent (outbound w.calls) ((peek_server_out n >>= rest) w)
unfolding peek_server_out ◌>>=◌
Silent-peek n rest w s = ground arith

pub Silent-on_option :
    {A : Type 0} (k : ℕ) (o : Option A) (m : M (Unit {0})) (f : A → M (Unit {0})) (w : World)
    → Silent k (m w)
    → ((a : A) → Silent k (f a w))
    → Silent k (on_option o m f w)
Silent-on_option k none m f w sm sf = sm
Silent-on_option k (some a) m f w sm sf = sf a
