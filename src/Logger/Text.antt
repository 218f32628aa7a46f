-- ===== src/Logger/Text.antt =====
-- The lines of the log files: the texts of src/logger.c, `fprintf`, and the `write_` functions.
use socksprox.Base.Text.{◌>>=◌, codes, decimal}
use socksprox.Address.{Family, af_inet, af_inet6}
use socksprox.Base.{
  Bool, true, false, take, ℕ, zero, suc, ◌+◌, ◌*◌, List, [], ◌∷◌, ◌++◌, Option, none, some, ◌==◌,
  if◌then◌else◌, get_or,
}

abbrev pub error_strings : List (List ℕ)
error_strings =
    codes "INFO|SPSTARTUP-Socksprox started and parsed configs"
    ∷ codes "INFO|LOGGERSETUP-Start and set up logging"
    ∷ codes "INFO|EPOLLCREATE-Created the epoll instance"
    ∷ codes "EMERG|EPOLLERROR-There was a fatal error in the epoll instance"
    ∷ codes "INFO|LISTENINIT-Listeners are bound and waiting for connections"
    ∷ codes "EMERG|LISTENERROR-Could not setup listeners"
    ∷ codes "INFO|RESOLVERSTART-Started the async DNS resolver"
    ∷ codes "WARN|RESOLVERERROR-Failed to start the async dns resolver"
    ∷ codes "INFO|NORESOLVER-Not starting resolver, not domain names allowed"
    ∷ codes "EMERG|MALLOCERROR-Memory allocation operation failed"
    ∷ codes "WARN|EPOLLERRORADD-Error adding fd to epoll"
    ∷ codes "WARN|EPOLLERRORMOD-Error modifying fd in epoll"
    ∷ codes "WARN|EPOLLERRORDEL-Error deleting fd from epoll"
    ∷ codes "INFO|BINDLISTENER-Bound listener from config file"
    ∷ codes "EMERG|EPOLLWAITERROR-There was an error waiting for epoll to return"
    ∷ codes "WARN|EPOLLDATANULL-Epoll returned a null pointer"
    ∷ codes "WARN|NEWCLIENTERROR-There was an error accepting a new client"
    ∷ codes "WARN|NULLCHECKFAIL-Found NULL where data was expected"
    ∷ codes "WARN|GETSOCKOPTFAIL-Error returned by getsockopt"
    ∷ codes "WARN|GETSOCKNAMEFAIL-Error returned by getsockname"
    ∷ []

abbrev pub access_formats : List (List ℕ)
access_formats =
    codes "[%s]:%d-->socksprox|A new client connected to socksprox"
    ∷ codes "[%s]:%d--!socksprox|Connection closing during socks handshake"
    ∷ codes "[%s]:%d--!socksprox|Client sent invalid version during handshake"
    ∷ codes "[%s]:%d-->socksprox|Client requested command 'connect'"
    ∷ codes "[%s]:%d-->socksprox|Client requested command 'bind'"
    ∷ codes "[%s]:%d-->socksprox|Client requested command 'udp associate'"
    ∷ codes "[%s]:%d--!socksprox|Client requst blocked by firewall"
    ∷ codes "[%s]:%d-->socksprox|Method negotiated to 'no authentication'"
    ∷ codes "[%s]:%d-->socksprox|Method negotiated to 'username/password'"
    ∷ codes "[%s]:%d-->socksprox|Method negotiated to 'gssapi'"
    ∷ codes "[%s]:%d--!socksprox|No method could be negotiated"
    ∷ codes "[%s]:%d-->socksprox-->[%s]:%d|Successful proxy connection made"
    ∷ codes "[%s]:%d-->socksprox<--[%s]:%d|Peer connected to proxied listener"
    ∷ codes "[%s]:%d-->socksprox<->[%s]:%d|UDP relay port established"
    ∷ []

-- `a[i]`
abbrev pub entry_at {ℓ} : {A : Type ℓ} → List A → ℕ → Option A
entry_at [] i = none
entry_at (x ∷ xs) zero = some x
entry_at (x ∷ xs) (suc i) = entry_at xs i

-- What `%s` and `%d` take.
pub data Arg : Type 0 where
  str : List ℕ → Arg
  num : ℕ → Arg

-- One argument, as its directive wants it.
unfoldable pub directive : ℕ → Arg → Option (List ℕ)
directive d (str s) = if d == b's' then some s else none
directive d (num n) = if d == b'd' then some (decimal 10 n) else none

-- `fprintf`; true behind a `%`. A directive without an argument of its type is undefined;
-- arguments that no directive takes are passed over.
unfoldable pub print_from : Bool → List ℕ → List Arg → Option (List ℕ)
print_from false [] args = some []
print_from true [] args = none
print_from false (c ∷ format) args =
    if c == b'%'
    then print_from true format args
    else (print_from false format args >>= λ rest. some (c ∷ rest))
print_from true (d ∷ format) [] = none
print_from true (d ∷ format) (arg ∷ args) = do
  text ← directive d arg
  rest ← print_from false format args
  some (text ++ rest)

unfoldable pub printf : List ℕ → List Arg → Option (List ℕ)
printf format args = print_from false format args

-- `struct tm`
pub record Time : Type 0 where
  pub tm_year : ℕ
  pub tm_mon : ℕ
  pub tm_mday : ℕ
  pub tm_hour : ℕ
  pub tm_min : ℕ
  pub tm_sec : ℕ

abbrev pub time_args : Time → List Arg
time_args t =
    num (t.tm_year + 1900)
    ∷ num (t.tm_mon + 1)
    ∷ num t.tm_mday
    ∷ num t.tm_hour
    ∷ num t.tm_min
    ∷ num t.tm_sec
    ∷ []

abbrev pub date_format : List ℕ
date_format = codes "%d-%d-%d_%d:%d:%d-"

abbrev pub dated_format : List ℕ
dated_format = date_format ++ (codes "%s" ++ (10 ∷ []))

-- The line of `write_custom`.
unfoldable pub custom_line : List ℕ → Time → Option (List ℕ)
custom_line text t = printf dated_format (time_args t ++ (str text ∷ []))

-- The line of `write_error`; a code without a text is read out of the array.
unfoldable pub error_line : ℕ → Time → Option (List ℕ)
error_line code t = do
  text ← entry_at error_strings code
  printf dated_format (time_args t ++ (str text ∷ []))

-- The arguments for an address; `port` is what the variable held before.
unfoldable pub endpoint_args : Option (List ℕ × ℕ) → ℕ → List Arg
endpoint_args none port = str [] ∷ num port ∷ []
endpoint_args (some (ip, stored)) port = str ip ∷ num stored ∷ []

module _ (inet_ntop : Family → List ℕ → List ℕ) where
  -- `get_ip_port` on the bytes of a `struct sockaddr_storage` of a little-endian machine: the text
  -- and the port, or `none` where neither is stored. `inet_ntop` gets the 4 or 16 bytes from the
  -- start of the structure, and the port is as it lies in memory. `inet_ntop` makes the text.
  unfoldable pub get_ip_port : List ℕ → Option (List ℕ × ℕ)
  get_ip_port src =
      let family : ℕ = get_or src 0 0 + 256 * get_or src 1 0 in
      let port : ℕ = get_or src 2 0 + 256 * get_or src 3 0 in
      if family == 2
      then some (inet_ntop af_inet (take 4 src), port)
      else if family == 10
      then some (inet_ntop af_inet6 (take 16 src), port)
      else none

  -- The line of `write_access`. `client_port` and `server_port` are not initialised.
  unfoldable pub access_line : ℕ → List ℕ → List ℕ → ℕ → ℕ → Time → Option (List ℕ)
  access_line code client server client_port server_port t = do
    date ← printf date_format (time_args t)
    format ← entry_at access_formats code
    line ← printf format (
        endpoint_args (get_ip_port client) client_port
        ++ endpoint_args (get_ip_port server) server_port)
    some (date ++ line ++ (10 ∷ []))
