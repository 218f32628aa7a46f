-- ===== src/Socks/Total.antt =====
-- One event: the handler's run is defined, except while the request is awaited.
use socksprox.Base.{ℕ, zero, suc, Bool, true, false, ◌≡◌, Option, none, some, arith, refl, not}
use socksprox.Config.{Configs}
use socksprox.Conn.Alive.Calls.{safe_rules}
use socksprox.Conn.Alive.Steps.{result_of, Ended-if}
use socksprox.Conn.Alive.{alive, Safe, Safe-pure, Ends, Ended, Ends-Safe, ends_rules}
use socksprox.Conn.Live.{bind_some, load_live}
use socksprox.Conn.Monad.{load, load_self, has_shared, log_error, issue_only}
use socksprox.Conn.Keeps.{ValidOrFreed}
use socksprox.Conn.{State, Fd, Side, client, server, Events, Os, World}
use socksprox.Net.Defined.{Safe-send_traffic, Safe-read_traffic}
use socksprox.Socks.Defined.{
  Ends-waitingmethods, Ends-sendingmethod, Ends-sendingreply, Ends-connecting, Ends-bindlistening,
  Ends-closed, Ends-half_close,
}
use socksprox.Socks.Dispatch.{handle, socks5}
use socksprox.Socks.Established.{after_sending, after_reading, full}
use socksprox.Socks.Transitions.{may_follow, socks5-may_follow}

module _ (os : Os) (who : Side) where
  Safe-after_sending : (self : Fd) (left : Option ℕ) → Safe who (after_sending os who self left)
  unfolding after_sending
  Safe-after_sending self none = search safe_rules
  Safe-after_sending self (some zero) = search safe_rules depth 15
  Safe-after_sending self (some (suc n)) = search safe_rules

  Safe-after_reading : (ret : Option ℕ) → Safe who (after_reading ret)
  unfolding after_reading
  Safe-after_reading none = search safe_rules
  Safe-after_reading (some n) = search safe_rules

  Ends-full : (ev : Events) → Ends who (full os who ev)
  unfolding full
  Ends-full ev =
      search
        (
          ends_rules,
          safe_rules,
          Safe-after_sending,
          Safe-after_reading,
          Safe-send_traffic {who = who} os,
          Safe-read_traffic {who = who} os,
        )
        depth 20

-- STATE_WAITING_COMMAND
abbrev pub awaits_request : State → Bool
awaits_request State.waiting_command = true
awaits_request _ = false

module _ (os : Os) (who : Side) (configs : Configs) (ev : Events) where
  Ends-handle : (s : State) → awaits_request s ≡ false → Ends who (handle os s who configs ev)
  unfolding handle
  Ends-handle State.no_state e = Ends-Safe _ (Safe-pure tt)
  Ends-handle State.waiting_methods e = Ends-waitingmethods os who configs ev
  Ends-handle State.sending_method e = Ends-sendingmethod os who ev
  Ends-handle State.authenticating e = Ends-Safe _ (Safe-pure tt)
  Ends-handle State.waiting_command e = absurd (ground arith)
  Ends-handle State.async_dns e = Ends-Safe _ (Safe-pure tt)
  Ends-handle State.sending_reply e = Ends-sendingreply os who ev
  Ends-handle State.sending_reply_2 e = Ends-sendingreply os who ev
  Ends-handle State.connecting e = Ends-connecting os who ev
  Ends-handle State.bind_listening e = Ends-bindlistening os who ev
  Ends-handle State.full e = Ends-full os who ev
  Ends-handle State.full_udpa e = Ends-Safe _ (Safe-pure tt)
  Ends-handle State.half_close e = Ends-half_close os who
  Ends-handle State.closed e = Ends-closed os who

pub self_live :
    (who : Side) (w : World) → alive who w ≡ true → (fd : Fd) × (load_self who w ≡ some (fd, w))
unfolding load_self
self_live client w h = (w.client_self, ground arith)
self_live server w h = (w.server_self, ground arith)

refl_shared : (w : World) → has_shared w ≡ some (w.shared_set, w)
unfolding has_shared
refl_shared w = refl

module _ (os : Os) (who : Side) (configs : Configs) (ev : Events) where
  Ended-socks5 :
      (w : World)
      → alive who w ≡ true
      → awaits_request w.shared.state ≡ false
      → Ended (socks5 os who configs ev w)
  unfolding socks5 log_error issue_only
  Ended-socks5 w h e =
      let self = self_live who w h in
      rw (bind_some (load_self who) _ self.1, bind_some has_shared _ (refl_shared w))
        (Ended-if (not w.shared_set) _ _ w tt (
          rw (bind_some load _ (load_live w (ground arith)))
            ((Ends-handle os who configs ev w.shared.state e).at w h)))

  -- An event for a side of a connection whose structures are allocated and whose buffers are valid,
  -- in any state but STATE_WAITING_COMMAND: `socks5` returns, without an access to memory that is
  -- freed or NULL; the state stays or follows an edge of the state machine, and each buffer is
  -- valid or, once freed, NULL.
  pub socks5_total :
      (w : World)
      → alive who w ≡ true
      → awaits_request w.shared.state ≡ false
      → ValidOrFreed w.shared.buffers w.shared.client_out
      → ValidOrFreed w.shared.buffers w.shared.server_out
      → (w' : World) × (socks5 os who configs ev w ≡ some (tt, w'))
        × (may_follow w.shared.state w'.shared.state ≡ true)
        × ValidOrFreed w'.shared.buffers w'.shared.client_out
        × ValidOrFreed w'.shared.buffers w'.shared.server_out
  socks5_total w h e vc vs =
      let done = result_of (socks5 os who configs ev w) (Ended-socks5 w h e) in
      let after = socks5-may_follow os who configs ev w done.0 vc vs done.1 in
      (done.0, done.1, after.0, after.1, after.2)
