-- ===== src/Server/Own.antt =====
-- What the events of the loop mean for one connection: those that name it, in order.
use socksprox.Address.{AddrInfo}
use socksprox.Base.Int.{ℤ}
use socksprox.Base.{ℕ, zero, suc, Bool, true, false, ◌||◌, List, [], ◌∷◌, if◌then◌else◌}
use socksprox.Config.{Configs}
use socksprox.Conn.Monad.{M, ◌>>=◌, ◌>>◌, pure, undefined, load, modify_info, set_state}
use socksprox.Conn.{State, client, Os}
use socksprox.Server.Loop.{
  LoopEvent, wait_error, null_event, listener_event, peer_event, resolver_event,
}
use socksprox.Socks.Dispatch.{socks5}

abbrev pub same_index : ℕ → ℕ → Bool
same_index zero zero = true
same_index zero (suc j) = false
same_index (suc i) zero = false
same_index (suc i) (suc j) = same_index i j

-- The resolver's answer: it is stored, the request is taken up again, and the client's side has an
-- event for input.
abbrev pub resumed : Configs → ℤ → List AddrInfo → Os → M (Unit {0})
resumed configs gai_ret res os = do
  modify_info (λ i. record i { ai = res })
  modify_info (λ i. record i { resolver_ret = gai_ret })
  set_state State.waiting_command
  sh ← load
  if sh.client_data
      then socks5 os client configs (record { epollin = true; epollout = false })
      else undefined

-- What an event of the loop means for the connection with the number `j`.
abbrev pub own : Configs → LoopEvent → ℕ → Os → M (Unit {0})
own configs (peer_event i who ev) j os =
    if same_index i j
    then (if ev.epollin || ev.epollout then socks5 os who configs ev else pure tt)
    else pure tt
own configs (resolver_event i gai_ret res) j os =
    if same_index i j then resumed configs gai_ret res os else pure tt
own configs wait_error j os = pure tt
own configs null_event j os = pure tt
own configs (listener_event fd ev) j os = pure tt

unfoldable pub run_own : Configs → List LoopEvent → ℕ → Os → M (Unit {0})
run_own configs [] j os = pure tt
run_own configs (event ∷ events) j os = own configs event j os >> run_own configs events j os
