-- ===== src/Conn/Alive.antt =====
-- Freedom from undefined behaviour: actions that meet no memory that is freed or NULL, and leave the
-- connection allocated (`Safe`) or end in any way (`Ends`).
pub mod Free
pub mod Steps
pub mod Calls
use socksprox.Base.{
  ℕ, Bool, true, false, ◌&&◌, ◌||◌, ◌≡◌, refl, List, [], ◌∷◌, Option, none, some, arith,
  if◌then◌else◌,
}
use socksprox.Conn.Epoll.{
  ep_add_new_client, ep_waiting_send, ep_done_sending, ep_delete_fd, clear_pointers, free_side,
  free_shared, free_data,
}
use socksprox.Conn.Live.{bind_some}
use socksprox.Conn.Monad.{
  M, ◌>>=◌, pure, on_option, on_bytes, load, modify, set_state, load_self, load_info, modify_info,
  set_rep, write_client_out, write_server_out, consume_client_out, consume_server_out,
  peek_client_out, peek_server_out, issue, issue_only, log_access, log_error, close_fd, recv, send,
  epoll_ctl, connect, accept, getsockname, getsockopt,
}
use socksprox.Conn.{State, Fd, Side, client, server, Info, Shared, Call, Os, World}
use socksprox.Address.{Sockaddr}

abbrev pub side_live : Side → World → Bool
side_live client w = w.client_live
side_live server w = w.server_live

abbrev pub is_there : Option Info → Bool
is_there none = false
is_there (some i) = true

-- The structures that an event for `who` refers to are allocated.
abbrev pub alive : Side → World → Bool
alive who w = side_live who w && w.shared_live && w.shared.buffers && is_there w.shared.info

abbrev pub Fine : {A : Type 0} → Side → Option (A × World) → Type 0
Fine who none = ⊥
Fine who (some (a, w)) = alive who w ≡ true

-- The run is defined.
abbrev pub Ended : {A : Type 0} → Option (A × World) → Type 0
Ended none = ⊥
Ended (some (a, w)) = Unit

pub record Safe {A : Type 0} (who : Side) (m : M A) : Type 0 where
  pub at : (w : World) → alive who w ≡ true → Fine who (m w)

pub record Ends {A : Type 0} (who : Side) (m : M A) : Type 0 where
  pub at : (w : World) → alive who w ≡ true → Ended (m w)

Ended-Fine : {A : Type 0} (who : Side) (r : Option (A × World)) → Fine who r → Ended r
Ended-Fine who none h = h
Ended-Fine who (some (a, w)) h = tt

module _ {who : Side} {A : Type 0} where
  pub Safe-pure : (a : A) → Safe who (pure a)
  Safe-pure a = record { at = λ w h. h }

  pub Safe-if : (b : Bool) (m n : M A) → Safe who m → Safe who n → Safe who (if b then m else n)
  Safe-if true m n km kn = km
  Safe-if false m n km kn = kn

  pub Ends-if : (b : Bool) (m n : M A) → Ends who m → Ends who n → Ends who (if b then m else n)
  Ends-if true m n km kn = km
  Ends-if false m n km kn = kn

  pub Ends-on_bytes :
      (xs : List ℕ) (m : M A) (f : List ℕ → M A)
      → Ends who m
      → ((ys : List ℕ) → Ends who (f ys))
      → Ends who (on_bytes xs m f)
  Ends-on_bytes [] m f km kf = km
  Ends-on_bytes (x ∷ xs) m f km kf = kf (x ∷ xs)

  pub Safe-on_bytes :
      (xs : List ℕ) (m : M A) (f : List ℕ → M A)
      → Safe who m
      → ((ys : List ℕ) → Safe who (f ys))
      → Safe who (on_bytes xs m f)
  Safe-on_bytes [] m f km kf = km
  Safe-on_bytes (x ∷ xs) m f km kf = kf (x ∷ xs)

  pub Ends-Safe : (m : M A) → Safe who m → Ends who m
  Ends-Safe m s = record { at = λ w h. Ended-Fine who (m w) (s.at w h) }

module _ {who : Side} {A B : Type 0} where
  pub Ends-on_option :
      (o : Option A) (m : M B) (f : A → M B)
      → Ends who m
      → ((a : A) → Ends who (f a))
      → Ends who (on_option o m f)
  Ends-on_option none m f km kf = km
  Ends-on_option (some a) m f km kf = kf a

  pub Safe-on_option :
      (o : Option A) (m : M B) (f : A → M B)
      → Safe who m
      → ((a : A) → Safe who (f a))
      → Safe who (on_option o m f)
  Safe-on_option none m f km kf = km
  Safe-on_option (some a) m f km kf = kf a

  then_Fine :
      (r : Option (A × World)) (f : A → M B)
      → Fine who r
      → ((a : A) → Safe who (f a))
      → Fine who (elim r [ none ↦ none | some (a, w) ↦ f a w ])
  then_Fine none f h kf = h
  then_Fine (some (a, w)) f h kf = (kf a).at w h

  then_Ended :
      (r : Option (A × World)) (f : A → M B)
      → Fine who r
      → ((a : A) → Ends who (f a))
      → Ended (elim r [ none ↦ none | some (a, w) ↦ f a w ])
  then_Ended none f h kf = h
  then_Ended (some (a, w)) f h kf = (kf a).at w h

  pub Safe-bind :
      (m : M A) (f : A → M B) → Safe who m → ((a : A) → Safe who (f a)) → Safe who (m >>= f)
  unfolding ◌>>=◌
  Safe-bind m f km kf = record { at = λ w h. then_Fine (m w) f (km.at w h) kf }

  pub Ends-bind :
      (m : M A) (f : A → M B) → Safe who m → ((a : A) → Ends who (f a)) → Ends who (m >>= f)
  unfolding ◌>>=◌
  Ends-bind m f km kf = record { at = λ w h. then_Ended (m w) f (km.at w h) kf }

module _ {who : Side} where
  pub Safe-load : Safe who load
  unfolding load
  Safe-load = record { at = λ w h. ground arith }

  pub Safe-load_info : Safe who load_info
  unfolding load_info
  Safe-load_info = record { at = λ w h. ground arith }

  pub Safe-modify_info : (f : Info → Info) → Safe who (modify_info f)
  unfolding ◌>>=◌ modify_info load_info modify
  Safe-modify_info f = record { at = λ w h. ground arith }

  pub Safe-set_state : (s : State) → Safe who (set_state s)
  unfolding set_state modify
  Safe-set_state s = record { at = λ w h. ground arith }

  pub Safe-set_rep : (r : ℕ) → Safe who (set_rep r)
  unfolding ◌>>=◌ set_rep modify_info load_info modify
  Safe-set_rep r = record { at = λ w h. ground arith }

  pub Safe-write_client_out : (xs : List ℕ) → Safe who (write_client_out xs)
  unfolding write_client_out
  Safe-write_client_out xs = record { at = λ w h. ground arith }

  pub Safe-consume_client_out : (n : ℕ) → Safe who (consume_client_out n)
  unfolding consume_client_out
  Safe-consume_client_out n = record { at = λ w h. ground arith }

  pub Safe-peek_client_out : (n : ℕ) → Safe who (peek_client_out n)
  unfolding peek_client_out
  Safe-peek_client_out n = record { at = λ w h. ground arith }

  pub Safe-write_server_out : (xs : List ℕ) → Safe who (write_server_out xs)
  unfolding write_server_out
  Safe-write_server_out xs = record { at = λ w h. ground arith }

  pub Safe-consume_server_out : (n : ℕ) → Safe who (consume_server_out n)
  unfolding consume_server_out
  Safe-consume_server_out n = record { at = λ w h. ground arith }

  pub Safe-peek_server_out : (n : ℕ) → Safe who (peek_server_out n)
  unfolding peek_server_out
  Safe-peek_server_out n = record { at = λ w h. ground arith }

  pub Safe-issue : (c : Call) → Safe who (issue c)
  unfolding issue
  Safe-issue c = record { at = λ w h. ground arith }

  pub Safe-issue_only : (c : Call) → Safe who (issue_only c)
  unfolding issue_only
  Safe-issue_only c = record { at = λ w h. ground arith }

  pub Safe-log_access : (code : ℕ) → Safe who (log_access code)
  unfolding ◌>>=◌ log_access load issue_only
  Safe-log_access code = record { at = λ w h. ground arith }

  pub Safe-log_error : (code : ℕ) → Safe who (log_error code)
  unfolding log_error issue_only
  Safe-log_error code = record { at = λ w h. ground arith }

  pub Safe-close_fd : (fd : Fd) → Safe who (close_fd fd)
  unfolding close_fd issue_only
  Safe-close_fd fd = record { at = λ w h. ground arith }

  pub Safe-ep_delete_fd : (fd : Fd) → Safe who (ep_delete_fd fd)
  unfolding ep_delete_fd issue_only
  Safe-ep_delete_fd fd = record { at = λ w h. ground arith }

pub Safe-load_self : (who : Side) → Safe who (load_self who)
unfolding load_self
Safe-load_self client = record { at = λ w h. ground arith }
Safe-load_self server = record { at = λ w h. ground arith }

pub ruleset alive_rules = (
  Safe-pure, Safe-if, Safe-on_option, Safe-bind, Safe-load, Safe-load_info, Safe-modify_info,
  Safe-set_state, Safe-set_rep, Safe-write_client_out, Safe-write_server_out,
  Safe-consume_client_out, Safe-consume_server_out, Safe-peek_client_out, Safe-peek_server_out,
  Safe-issue, Safe-issue_only, Safe-log_access, Safe-log_error, Safe-close_fd, Safe-ep_delete_fd,
  Safe-load_self,
)

pub ruleset ends_rules = (Ends-if, Ends-on_bytes, Ends-on_option, Ends-bind, Ends-Safe)
