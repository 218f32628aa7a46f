-- ===== src/Socks/Transitions.antt =====
-- Which state an event can lead to, and that no handler leaves an allocated buffer invalid; then whole
-- sequences of events.
pub mod Commands
pub mod Replies
use socksprox.Base.{ℕ, Bool, true, false, ◌≡◌, refl, List, [], ◌∷◌, Option, none, some, arith}
use socksprox.Config.{Configs}
use socksprox.Conn.Keeps.Calls.{keeps_rules}
use socksprox.Conn.Keeps.{ValidOrFreed, Inv, Holds, Keeps, Keeps-pure, Keeps-load_self}
use socksprox.Conn.Monad.{M, ◌>>=◌, ◌>>◌, pure, load, load_self, has_shared, log_error, issue_only}
use socksprox.Conn.{State, Fd, Side, Shared, Events, Os, World}
use socksprox.Socks.Dispatch.{handle, socks5}
use socksprox.Socks.Transitions.Commands.{
  Keeps-waitingmethods, Keeps-sendingmethod, Keeps-waitingcommand,
}
use socksprox.Socks.Transitions.Replies.{
  Keeps-closed, Keeps-connecting, Keeps-bindlistening, Keeps-sendingreply, Keeps-full,
  Keeps-half_close,
}

-- The edges of the state machine, and the loop at every state.
abbrev pub may_follow : State → State → Bool
may_follow State.no_state State.no_state = true
may_follow State.waiting_methods State.waiting_methods = true
may_follow State.waiting_methods State.sending_method = true
may_follow State.waiting_methods State.closed = true
may_follow State.sending_method State.sending_method = true
may_follow State.sending_method State.waiting_command = true
may_follow State.sending_method State.closed = true
may_follow State.authenticating State.authenticating = true
may_follow State.waiting_command State.waiting_command = true
may_follow State.waiting_command State.async_dns = true
may_follow State.waiting_command State.connecting = true
may_follow State.waiting_command State.sending_reply = true
may_follow State.waiting_command State.closed = true
may_follow State.async_dns State.async_dns = true
may_follow State.connecting State.connecting = true
may_follow State.connecting State.sending_reply = true
may_follow State.connecting State.closed = true
may_follow State.bind_listening State.bind_listening = true
may_follow State.bind_listening State.sending_reply = true
may_follow State.bind_listening State.sending_reply_2 = true
may_follow State.bind_listening State.closed = true
may_follow State.sending_reply State.sending_reply = true
may_follow State.sending_reply State.bind_listening = true
may_follow State.sending_reply State.full = true
may_follow State.sending_reply State.full_udpa = true
may_follow State.sending_reply State.closed = true
may_follow State.sending_reply_2 State.sending_reply_2 = true
may_follow State.sending_reply_2 State.full = true
may_follow State.sending_reply_2 State.full_udpa = true
may_follow State.sending_reply_2 State.closed = true
may_follow State.full State.full = true
may_follow State.full State.half_close = true
may_follow State.full State.closed = true
may_follow State.full_udpa State.full_udpa = true
may_follow State.half_close State.half_close = true
may_follow State.half_close State.closed = true
may_follow State.closed State.closed = true
may_follow _ _ = false

pub may_follow_refl : (s : State) → may_follow s s ≡ true
may_follow_refl State.no_state = refl
may_follow_refl State.waiting_methods = refl
may_follow_refl State.sending_method = refl
may_follow_refl State.authenticating = refl
may_follow_refl State.waiting_command = refl
may_follow_refl State.async_dns = refl
may_follow_refl State.sending_reply = refl
may_follow_refl State.sending_reply_2 = refl
may_follow_refl State.connecting = refl
may_follow_refl State.bind_listening = refl
may_follow_refl State.full = refl
may_follow_refl State.full_udpa = refl
may_follow_refl State.half_close = refl
may_follow_refl State.closed = refl

module _ (os : Os) where
  Keeps-handle :
      (s : State) (who : Side) (configs : Configs) (ev : Events)
      → Keeps (may_follow s) (handle os s who configs ev)
  unfolding handle
  Keeps-handle State.no_state who configs ev = Keeps-pure tt
  Keeps-handle State.waiting_methods who configs ev =
      Keeps-waitingmethods refl refl os who configs ev
  Keeps-handle State.sending_method who configs ev = Keeps-sendingmethod refl refl os who ev
  Keeps-handle State.authenticating who configs ev = Keeps-pure tt
  Keeps-handle State.waiting_command who configs ev =
      Keeps-waitingcommand refl refl refl refl os who configs ev
  Keeps-handle State.async_dns who configs ev = Keeps-pure tt
  Keeps-handle State.sending_reply who configs ev =
      Keeps-sendingreply refl refl refl (λ e. refl) os who ev
  Keeps-handle State.sending_reply_2 who configs ev =
      Keeps-sendingreply refl refl refl (λ e. e) os who ev
  Keeps-handle State.connecting who configs ev = Keeps-connecting refl refl os who ev
  Keeps-handle State.bind_listening who configs ev = Keeps-bindlistening refl refl refl os who ev
  Keeps-handle State.full who configs ev = Keeps-full refl refl os who ev
  Keeps-handle State.full_udpa who configs ev = Keeps-pure tt
  Keeps-handle State.half_close who configs ev = Keeps-half_close refl
  Keeps-handle State.closed who configs ev = Keeps-closed who

  pub Holds-socks5 :
      (who : Side) (configs : Configs) (ev : Events) (w : World)
      → Inv (may_follow w.shared.state) w.shared
      → Holds (may_follow w.shared.state) (socks5 os who configs ev w)
  unfolding socks5 ◌>>=◌ load load_self has_shared log_error issue_only
  Holds-socks5 Side.client configs ev w h =
      ground (arith, (Keeps-handle w.shared.state Side.client configs ev).at w h)
  Holds-socks5 Side.server configs ev w h =
      ground (arith, (Keeps-handle w.shared.state Side.server configs ev).at w h)

  -- One event of a connection whose buffers are valid or freed: if `socks5` meets no undefined behaviour, the
  -- state stays or follows an edge of the state machine, and each buffer is valid afterwards or, once
  -- freed, NULL.
  pub socks5-may_follow :
      (who : Side) (configs : Configs) (ev : Events) (w w' : World)
      → ValidOrFreed w.shared.buffers w.shared.client_out
      → ValidOrFreed w.shared.buffers w.shared.server_out
      → socks5 os who configs ev w ≡ some (tt, w')
      → (may_follow w.shared.state w'.shared.state ≡ true)
        × ValidOrFreed w'.shared.buffers w'.shared.client_out
        × ValidOrFreed w'.shared.buffers w'.shared.server_out
  socks5-may_follow who configs ev w w' vc vs e =
      let start : Inv (may_follow w.shared.state) w.shared = record {
        state_in = may_follow_refl w.shared.state;
        client_valid = vc;
        server_valid = vs;
      } in
      let end = rw e at (Holds-socks5 who configs ev w start) in
      (end.state_in, end.client_valid, end.server_valid)
