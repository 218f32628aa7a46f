-- ===== src/Net/Defined.antt =====
-- The traffic functions read no memory that is freed or NULL.
use socksprox.Base.{ℕ, List, arith}
use socksprox.Conn.Alive.Calls.{safe_rules}
use socksprox.Conn.Alive.{Safe, Safe-on_bytes}
use socksprox.Conn.Monad.{modify}
use socksprox.Conn.{Fd, Side, client, server, Os}
use socksprox.Net.Traffic.{
  raise, peek_out, consume_out, write_out, send_side, send_traffic, read_side, read_traffic,
}

module _ {who : Side} where
  Safe-raise : (side : Side) (flag : ℕ) → Safe who (modify (raise side flag))
  unfolding modify
  Safe-raise client flag = record { at = λ w h. ground arith }
  Safe-raise server flag = record { at = λ w h. ground arith }

  Safe-peek_out : (side : Side) (n : ℕ) → Safe who (peek_out side n)
  unfolding peek_out
  Safe-peek_out client n = search safe_rules
  Safe-peek_out server n = search safe_rules

  Safe-consume_out : (side : Side) (n : ℕ) → Safe who (consume_out side n)
  unfolding consume_out
  Safe-consume_out client n = search safe_rules
  Safe-consume_out server n = search safe_rules

  Safe-write_out : (side : Side) (xs : List ℕ) → Safe who (write_out side xs)
  unfolding write_out
  Safe-write_out client xs = search safe_rules
  Safe-write_out server xs = search safe_rules

module _ {who : Side} (os : Os) where
  Safe-send_side : (fd : Fd) (side : Side) → Safe who (send_side os fd side)
  unfolding send_side
  Safe-send_side fd side =
      search
        (
          safe_rules,
          Safe-raise {who = who},
          Safe-peek_out {who = who},
          Safe-consume_out {who = who},
        )
        depth 20

  pub Safe-send_traffic : (fd : Fd) → Safe who (send_traffic os fd)
  unfolding send_traffic
  Safe-send_traffic fd = search (safe_rules, Safe-send_side) depth 15

  Safe-read_side : (fd : Fd) (side : Side) → Safe who (read_side os fd side)
  unfolding read_side
  Safe-read_side fd side =
      search (safe_rules, Safe-on_bytes, Safe-raise {who = who}, Safe-write_out {who = who}) depth
        20

  pub Safe-read_traffic : (fd : Fd) → Safe who (read_traffic os fd)
  unfolding read_traffic
  Safe-read_traffic fd = search (safe_rules, Safe-read_side) depth 15
