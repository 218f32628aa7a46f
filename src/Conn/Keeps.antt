-- ===== src/Conn/Keeps.antt =====
-- An invariant of actions: the state stays among given ones, and each buffer is valid or freed. There is
-- a rule for each way to build an action, and for each access and call.
pub mod Calls
use socksprox.Base.{
  ℕ, Bool, true, false, ◌≡◌, refl, List, [], ◌∷◌, Option, none, some, arith, if◌then◌else◌, ◌&&◌,
  Bool-cases, inl, inr,
}
use socksprox.Conn.Epoll.{
  ep_add_new_client, ep_connecting, ep_waiting_send, ep_done_sending, ep_delete_fd, free_side,
  free_shared, free_data,
}
use socksprox.Conn.Monad.{
  M, ◌>>=◌, ◌>>◌, pure, undefined, on_option, on_bytes, on_refused, load, modify, set_state,
  has_shared, load_self, load_info, modify_info, set_rep, write_client_out, write_server_out,
  consume_client_out, consume_server_out, peek_client_out, peek_server_out, issue, issue_only,
  log_access, log_error, close_fd, fd_nonblocking, recv, send, epoll_ctl, socket, datagram_socket,
  connect, bind, listen, accept, getsockname, getsockopt, malloc,
}
use socksprox.Conn.{
  State, Fd, Side, client, server, Info, Shared, Call, Outcome, connected, in_progress, refused, Os,
  World,
}
use socksprox.Ring.{Ringbuff, write_ringbuff, consume_ringbuff}
use socksprox.Ring.Bounds.{IsValid, write_ringbuff-IsValid, consume_ringbuff-IsValid}

-- A buffer that is allocated is valid, and one that is freed is NULL.
abbrev pub ValidOrFreed : Bool → Ringbuff → Type 0
ValidOrFreed true r = IsValid r
ValidOrFreed false r = r.buff ≡ []

-- A change of an allocated buffer that keeps it valid.
changed_valid :
    (b : Bool) (r : Ringbuff) (f : Ringbuff → Ringbuff)
    → b ≡ true
    → (IsValid r → IsValid (f r))
    → ValidOrFreed b r
    → ValidOrFreed b (f r)
changed_valid true r f e k v = k v
changed_valid false r f e k v = absurd (ground (arith, e))

pub record Inv (ok : State → Bool) (sh : Shared) : Type 0 where
  pub state_in : ok sh.state ≡ true
  pub client_valid : ValidOrFreed sh.buffers sh.client_out
  pub server_valid : ValidOrFreed sh.buffers sh.server_out

-- What a run leaves behind, if it is defined.
abbrev pub Holds : {A : Type 0} → (State → Bool) → Option (A × World) → Type 0
Holds ok none = Unit
Holds ok (some (a, w)) = Inv ok w.shared

pub record Keeps {A : Type 0} (ok : State → Bool) (m : M A) : Type 0 where
  pub at : (w : World) → Inv ok w.shared → Holds ok (m w)

module _ {ok : State → Bool} {A : Type 0} where
  pub Keeps-pure : (a : A) → Keeps ok (pure a)
  Keeps-pure a = record { at = λ w h. h }

  pub Keeps-undefined : Keeps ok (undefined {A = A})
  Keeps-undefined = record { at = λ w h. tt }

  pub Keeps-if : (b : Bool) (m n : M A) → Keeps ok m → Keeps ok n → Keeps ok (if b then m else n)
  Keeps-if true m n km kn = km
  Keeps-if false m n km kn = kn

  pub Keeps-on_bytes :
      (xs : List ℕ) (m : M A) (f : List ℕ → M A)
      → Keeps ok m
      → ((ys : List ℕ) → Keeps ok (f ys))
      → Keeps ok (on_bytes xs m f)
  Keeps-on_bytes [] m f km kf = km
  Keeps-on_bytes (x ∷ xs) m f km kf = kf (x ∷ xs)

  pub Keeps-on_refused :
      (o : Outcome) (m n : M A) → Keeps ok m → Keeps ok n → Keeps ok (on_refused o m n)
  Keeps-on_refused refused m n km kn = km
  Keeps-on_refused connected m n km kn = kn
  Keeps-on_refused in_progress m n km kn = kn

module _ {ok : State → Bool} {A B : Type 0} where
  pub Keeps-on_option :
      (o : Option A) (m : M B) (f : A → M B)
      → Keeps ok m
      → ((a : A) → Keeps ok (f a))
      → Keeps ok (on_option o m f)
  Keeps-on_option none m f km kf = km
  Keeps-on_option (some a) m f km kf = kf a

  then_Holds :
      (r : Option (A × World)) (f : A → M B)
      → Holds ok r
      → ((a : A) → Keeps ok (f a))
      → Holds ok (elim r [ none ↦ none | some (a, w) ↦ f a w ])
  then_Holds none f h kf = tt
  then_Holds (some (a, w)) f h kf = (kf a).at w h

  pub Keeps-bind :
      (m : M A) (f : A → M B) → Keeps ok m → ((a : A) → Keeps ok (f a)) → Keeps ok (m >>= f)
  unfolding ◌>>=◌
  Keeps-bind m f km kf = record { at = λ w h. then_Holds (m w) f (km.at w h) kf }

module _ {ok : State → Bool} where
  pub Keeps-load : Keeps ok load
  unfolding load
  Keeps-load = record { at = λ w h. ground arith }

  pub Keeps-has_shared : Keeps ok has_shared
  unfolding has_shared
  Keeps-has_shared = record { at = λ w h. h }

  pub Keeps-load_self : (who : Side) → Keeps ok (load_self who)
  unfolding load_self
  Keeps-load_self client = record { at = λ w h. ground arith }
  Keeps-load_self server = record { at = λ w h. ground arith }

  pub Keeps-modify :
      (f : Shared → Shared) → ((sh : Shared) → Inv ok sh → Inv ok (f sh)) → Keeps ok (modify f)
  unfolding modify
  Keeps-modify f kf = record { at = λ w h. ground (arith, kf w.shared h) }

  pub Keeps-set_state : (s : State) → ok s ≡ true → Keeps ok (set_state s)
  unfolding set_state
  Keeps-set_state s e = Keeps-modify _ (λ sh h. record {
    state_in = e;
    client_valid = h.client_valid;
    server_valid = h.server_valid;
  })

  pub Keeps-load_info : Keeps ok load_info
  unfolding load_info
  Keeps-load_info = record { at = λ w h. ground arith }

  pub Keeps-modify_info : (f : Info → Info) → Keeps ok (modify_info f)
  unfolding modify_info
  Keeps-modify_info f = Keeps-bind _ _ Keeps-load_info (λ i. Keeps-modify _ (λ sh h. record {
    state_in = h.state_in;
    client_valid = h.client_valid;
    server_valid = h.server_valid;
  }))

  pub Keeps-set_rep : (r : ℕ) → Keeps ok (set_rep r)
  unfolding set_rep
  Keeps-set_rep r = Keeps-modify_info _

  pub Keeps-write_client_out : (xs : List ℕ) → Keeps ok (write_client_out xs)
  unfolding write_client_out
  Keeps-write_client_out xs = record {
    at = λ w h. elim (Bool-cases (w.shared_live && w.shared.buffers)) [
      | inl there ↦ rw there (record {
        state_in = h.state_in;
        server_valid = h.server_valid;
        client_valid =
            changed_valid _ w.shared.client_out (λ r. (write_ringbuff r xs).1) (ground arith)
              (λ v. write_ringbuff-IsValid w.shared.client_out xs v) h.client_valid;
      })
      | inr gone ↦ rw gone tt
    ];
  }

  pub Keeps-write_server_out : (xs : List ℕ) → Keeps ok (write_server_out xs)
  unfolding write_server_out
  Keeps-write_server_out xs = record {
    at = λ w h. elim (Bool-cases (w.shared_live && w.shared.buffers)) [
      | inl there ↦ rw there (record {
        state_in = h.state_in;
        client_valid = h.client_valid;
        server_valid =
            changed_valid _ w.shared.server_out (λ r. (write_ringbuff r xs).1) (ground arith)
              (λ v. write_ringbuff-IsValid w.shared.server_out xs v) h.server_valid;
      })
      | inr gone ↦ rw gone tt
    ];
  }

  pub Keeps-consume_client_out : (n : ℕ) → Keeps ok (consume_client_out n)
  unfolding consume_client_out
  Keeps-consume_client_out n = record {
    at = λ w h. elim (Bool-cases (w.shared_live && w.shared.buffers)) [
      | inl there ↦ rw there (record {
        state_in = h.state_in;
        server_valid = h.server_valid;
        client_valid =
            changed_valid _ w.shared.client_out (λ r. (consume_ringbuff r n).1) (ground arith)
              (λ v. consume_ringbuff-IsValid w.shared.client_out n v) h.client_valid;
      })
      | inr gone ↦ rw gone tt
    ];
  }

  pub Keeps-consume_server_out : (n : ℕ) → Keeps ok (consume_server_out n)
  unfolding consume_server_out
  Keeps-consume_server_out n = record {
    at = λ w h. elim (Bool-cases (w.shared_live && w.shared.buffers)) [
      | inl there ↦ rw there (record {
        state_in = h.state_in;
        client_valid = h.client_valid;
        server_valid =
            changed_valid _ w.shared.server_out (λ r. (consume_ringbuff r n).1) (ground arith)
              (λ v. consume_ringbuff-IsValid w.shared.server_out n v) h.server_valid;
      })
      | inr gone ↦ rw gone tt
    ];
  }

  pub Keeps-peek_client_out : (n : ℕ) → Keeps ok (peek_client_out n)
  unfolding peek_client_out
  Keeps-peek_client_out n = record { at = λ w h. ground arith }

  pub Keeps-peek_server_out : (n : ℕ) → Keeps ok (peek_server_out n)
  unfolding peek_server_out
  Keeps-peek_server_out n = record { at = λ w h. ground arith }

  pub Keeps-issue : (c : Call) → Keeps ok (issue c)
  unfolding issue
  Keeps-issue c = record { at = λ w h. h }

  pub Keeps-issue_only : (c : Call) → Keeps ok (issue_only c)
  unfolding issue_only
  Keeps-issue_only c = record { at = λ w h. h }

  pub ruleset keeps_core = (
    Keeps-pure, Keeps-undefined, Keeps-if, Keeps-on_bytes, Keeps-on_refused, Keeps-on_option,
    Keeps-bind, Keeps-load, Keeps-load_self, Keeps-has_shared, Keeps-set_state, Keeps-load_info,
    Keeps-modify_info, Keeps-set_rep, Keeps-write_client_out, Keeps-write_server_out,
    Keeps-consume_client_out, Keeps-consume_server_out, Keeps-peek_client_out,
    Keeps-peek_server_out, Keeps-issue, Keeps-issue_only,
  )
