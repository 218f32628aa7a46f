-- ===== src/Net/Traffic.antt =====
-- `send_traffic` and `read_traffic` of src/net.c: the traffic of an established connection.
use socksprox.Base.{ℕ, List, Option, none, some, bit_or, length, if◌then◌else◌}
use socksprox.Conn.Monad.{
  M, ◌>>=◌, on_option, on_bytes, ◌>>◌, pure, load, modify, write_client_out, write_server_out,
  consume_client_out, consume_server_out, peek_client_out, peek_server_out, issue_only, recv, send,
}
use socksprox.Conn.{Fd, same_fd, Side, client, server, Shared, Call, Os}

abbrev pub flag_read_closed : ℕ
flag_read_closed = 0x01

abbrev pub flag_write_closed : ℕ
flag_write_closed = 0x02

abbrev pub flag_flushing : ℕ
flag_flushing = 0x04

-- Whose descriptor `fd` is, `none` for neither's; the client's is looked at first.
abbrev pub owner : Fd → Shared → Option Side
owner fd sh =
    if same_fd fd sh.client_fd
    then some client
    else if same_fd fd sh.server_fd
    then some server
    else none

-- `*flags |= flag`
abbrev pub raise : Side → ℕ → Shared → Shared
raise client flag sh = record sh { client_flags = bit_or sh.client_flags flag }
raise server flag sh = record sh { server_flags = bit_or sh.server_flags flag }

abbrev pub peer : Side → Side
peer client = server
peer server = client

-- The buffer of bytes to be sent to a side.
abbrev pub used_out : Side → Shared → ℕ
used_out client sh = sh.client_out.used
used_out server sh = sh.server_out.used

unfoldable pub peek_out : Side → ℕ → M (ℕ × List ℕ)
peek_out client = peek_client_out
peek_out server = peek_server_out

unfoldable pub consume_out : Side → ℕ → M ℕ
consume_out client = consume_client_out
consume_out server = consume_server_out

unfoldable pub write_out : Side → List ℕ → M ℕ
write_out client = write_client_out
write_out server = write_server_out

module _ (os : Os) where
  -- The result is `outbuff->used`, or `none` for -1.
  unfoldable pub send_side : Fd → Side → M (Option ℕ)
  send_side fd who = do
    sh ← load
    (n, buffer) ← peek_out who (used_out who sh)
    ret ← send os fd buffer
    let close_side = (do
      modify (raise who flag_write_closed)
      issue_only (Call.shutdown_write fd)
      pure none)
    on_option ret close_side
        λ k. do _ ← consume_out who k; after ← load; pure (some (used_out who after))

  unfoldable pub send_traffic : Fd → M (Option ℕ)
  send_traffic fd = do sh ← load; on_option (owner fd sh) (pure none) λ who. send_side fd who

  -- The bytes that `who` sent go to the buffer of the other side. The result of `write_ringbuff`
  -- is not looked at.
  unfoldable pub read_side : Fd → Side → M (Option ℕ)
  read_side fd who = do
    buffer ← recv os fd 1024
    let close_side = (do
      modify (raise who flag_read_closed)
      modify (raise (peer who) flag_flushing)
      issue_only (Call.shutdown_read fd)
      pure none)
    on_bytes buffer close_side λ xs. do _ ← write_out (peer who) xs; pure (some (length xs))

  unfoldable pub read_traffic : Fd → M (Option ℕ)
  read_traffic fd = do sh ← load; on_option (owner fd sh) (pure none) λ who. read_side fd who
