-- ===== src/Socks/Dispatch.antt =====
-- `socks5` of src/socks.c. The result of a handler goes back to the event loop, which does not look
-- at it: it is left out.
use socksprox.Config.{Configs}
use socksprox.Conn.Monad.{M, ◌>>=◌, pure, load, load_self, has_shared, log_error}
use socksprox.Conn.Epoll.{l_nullcheckfail}
use socksprox.Base.{not, if◌then◌else◌}
use socksprox.Conn.{State, Side, Events, Os}
use socksprox.Socks.Established.{sendingreply, full, half_close, closed}
use socksprox.Socks.Handshake.{waitingmethods, sendingmethod}
use socksprox.Socks.Remote.{connecting, bindlistening}
use socksprox.Socks.Request.{waitingcommand}

module _ (os : Os) where
  unfoldable pub handle : State → Side → Configs → Events → M (Unit {0})
  handle State.no_state who configs ev = pure tt
  handle State.waiting_methods who configs ev = waitingmethods os who configs ev
  handle State.sending_method who configs ev = sendingmethod os who ev
  handle State.authenticating who configs ev = pure tt
  handle State.waiting_command who configs ev = waitingcommand os who configs ev
  handle State.async_dns who configs ev = pure tt
  handle State.sending_reply who configs ev = sendingreply os who ev
  handle State.sending_reply_2 who configs ev = sendingreply os who ev
  handle State.connecting who configs ev = connecting os who ev
  handle State.bind_listening who configs ev = bindlistening os who ev
  handle State.full who configs ev = full os who ev
  handle State.full_udpa who configs ev = pure tt
  handle State.half_close who configs ev = half_close
  handle State.closed who configs ev = closed who

  unfoldable pub socks5 : Side → Configs → Events → M (Unit {0})
  socks5 who configs ev = do
    self ← load_self who
    there ← has_shared
    if not there then log_error l_nullcheckfail else (do sh ← load; handle sh.state who configs ev)
