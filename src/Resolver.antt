-- ===== src/Resolver.antt =====
-- src/resolver.c: the thread's reading of the messages of `resolve`, its answer, and `resolve_ret`.
-- `resolve` itself is in Socks/Request.
pub mod Misread
use socksprox.Base.Int.{ℤ}
use socksprox.Base.Text.{c_string, decimal}
use socksprox.Base.{
  ℕ, ◌+◌, ◌-◌, ◌*◌, List, [], ◌∷◌, ◌++◌, Option, none, some, true, false, ltb, ◌==◌, if◌then◌else◌,
  length, take, drop, replicate, get_or,
}
use socksprox.Base.Bytes.{equal_bytes}
use socksprox.Address.{AddrInfo}
use socksprox.Config.{Configs}
use socksprox.Conn.Monad.{M, ◌>>=◌, ◌>>◌, undefined, load, modify_info, set_state}
use socksprox.Conn.{State, Side, client, Events, Os}
use socksprox.Socks.Dispatch.{socks5}

-- One message as `resolver_th` takes it from the pipe: too short, so that the loop starts again;
-- the NULL that ends the thread; an access out of `name`; or a pointer, a name and a port for
-- `getaddrinfo`; with what is left in the pipe.
pub data Taken : Type 0 where
  retry : List ℕ → Taken
  exited undefined_access : Taken
  lookup : List ℕ → List ℕ → List ℕ → List ℕ → Taken

-- The port: two bytes in network order, printed with `%d`.
unfoldable pub take_port : List ℕ → List ℕ → List ℕ → Taken
take_port pointer name pipe =
    if ltb (length pipe) 2
    then retry []
    else elim (c_string (name ++ replicate (256 - length name) 0)) [
      | none ↦ undefined_access
      | some host ↦
          lookup pointer host (decimal 10 (get_or pipe 0 0 * 256 + get_or pipe 1 0)) (drop 2 pipe)
    ]

-- The length and the name. The terminator goes to index `r_len + 1` of 256.
unfoldable pub take_name : List ℕ → List ℕ → Taken
take_name pointer [] = retry []
take_name pointer (name_len ∷ pipe) =
    if ltb (length pipe) name_len
    then retry []
    else if name_len == 255
    then undefined_access
    else take_port pointer (take name_len pipe) (drop name_len pipe)

unfoldable pub take_lookup : List ℕ → Taken
take_lookup pipe =
    if ltb (length pipe) 8
    then retry []
    else if equal_bytes (take 8 pipe) (replicate 8 0)
    then exited
    else take_name (take 8 pipe) (drop 8 pipe)

-- `shared->info->ai = res`, by the thread.
unfoldable pub answer : List AddrInfo → M (Unit {0})
answer res = modify_info (λ i. record i { ai = res })

-- `resolve_ret` for the result of `getaddrinfo`, which the thread wrote with the pointer to the
-- connection.
unfoldable pub resolve_ret : Os → Configs → ℤ → M (Unit {0})
resolve_ret os configs gai_ret = do
  modify_info (λ i. record i { resolver_ret = gai_ret })
  set_state State.waiting_command
  sh ← load
  if sh.client_data
      then socks5 os client configs (record { epollin = true; epollout = false })
      else undefined
