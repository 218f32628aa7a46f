-- ===== src/Tests.antt =====
-- The properties at concrete inputs: data for the tests, and one module of tests for each part.
mod Buffers
mod Rules
mod Configs
mod Logs
mod Servers
mod Worlds
mod Connections
mod Greetings
use socksprox.Base.{
  ℕ, ◌+◌, ◌<◌, Bool, true, false, ◌≡◌, refl, List, [], ◌∷◌, Option, none, some, arith, replicate,
}
use socksprox.Ring.Bounds.{IsValid}
use socksprox.Ring.{Ringbuff}

-- Eight bytes of storage, with the bytes 7 and 9 at its end.
abbrev pub two_bytes : Ringbuff
two_bytes = record {
  buff = 0 ∷ 0 ∷ 0 ∷ 0 ∷ 0 ∷ 0 ∷ 7 ∷ 9 ∷ [];
  readhead = 6;
  writehead = 0;
  capacity = 8;
  used = 2;
}

abbrev pub two_bytes-IsValid : IsValid two_bytes
two_bytes-IsValid = record {
  storage = refl;
  positive = omega arith;
  small = omega arith;
  readhead_in = omega arith;
  used_in = omega arith;
  heads = refl;
}

abbrev pub empty_ring : Ringbuff
empty_ring = record { buff = replicate 32 0; readhead = 0; writehead = 0; capacity = 32; used = 0 }

abbrev pub empty_ring-IsValid : IsValid empty_ring
empty_ring-IsValid = record {
  storage = refl;
  positive = omega arith;
  small = omega arith;
  readhead_in = omega arith;
  used_in = omega arith;
  heads = refl;
}
