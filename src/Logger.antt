-- ===== src/Logger.antt =====
-- src/logger.c: the messages that the program writes to the pipe, and the thread that reads them.
pub mod Rounds
pub mod RoundTrip
pub mod Custom
pub mod Text
pub mod Lines
use socksprox.Base.Text.{c_string, memcpy}
use socksprox.Base.{
  ℕ, zero, suc, ◌+◌, ◌-◌, ◌%◌, Bool, true, false, List, [], ◌∷◌, ◌++◌, Option, none, some, ltb,
  ◌==◌, if◌then◌else◌, length, take, drop, replicate, set,
}

abbrev pub log_type_custom : ℕ
log_type_custom = 0x00

abbrev pub log_type_error : ℕ
log_type_error = 0x01

abbrev pub log_type_access : ℕ
log_type_access = 0x02

abbrev pub log_type_join : ℕ
log_type_join = 0xFF

-- `log_error`
unfoldable pub error_message : ℕ → List ℕ
error_message code = log_type_error ∷ code ∷ []

-- `log_access`; the addresses are the 128 bytes of a `struct sockaddr_storage` each.
unfoldable pub access_message : List ℕ → List ℕ → ℕ → List ℕ
access_message client server code = log_type_access ∷ code ∷ (take 128 client ++ take 128 server)

-- `log_custom`. A text of more than 252 bytes is not written; `none` where the text is shorter than
-- `strsz`, which the copy reads past.
unfoldable pub custom_message : List ℕ → ℕ → ℕ → Option (List ℕ)
custom_message str strsz file =
    if ltb 252 strsz then some [] else elim (memcpy (replicate 252 0) str strsz) [
      | none ↦ none
      | some text ↦ some (log_type_custom ∷ file ∷ strsz ∷ take strsz text)
    ]

-- `log_sig_join`
unfoldable pub join_message : List ℕ
join_message = log_type_join ∷ []

-- What is written to the log files: `write_custom`, `write_error` and `write_access` without the
-- time.
pub data Entry : Type 0 where
  custom : ℕ → List ℕ → Entry
  error : ℕ → Entry
  access : ℕ → List ℕ → List ℕ → Entry

-- One round of the inner loop of `logger_th`: the pipe is empty, the thread ends, an array is read
-- out of bounds, nothing is logged, or an entry is; with what is left in the pipe.
pub data Round : Type 0 where
  empty exited undefined : Round
  skipped : List ℕ → Round
  logged : Entry → List ℕ → Round

-- `error_strings` has 20 entries, `access_formats` 14, `log_files` 2.
unfoldable pub write_error : ℕ → List ℕ → Round
write_error code pipe = if ltb code 20 then logged (error code) pipe else undefined

unfoldable pub write_access : ℕ → List ℕ → List ℕ → List ℕ → Round
write_access code client server pipe =
    if ltb code 14 then logged (access code client server) pipe else undefined

unfoldable pub write_custom : ℕ → List ℕ → List ℕ → Round
write_custom file str pipe = elim (c_string str) [
  | none ↦ undefined
  | some text ↦ if ltb file 2 then logged (custom file text) pipe else undefined
]

-- A `read` of one byte. From an empty pipe it returns -1, which the unsigned comparison with
-- `sizeof` takes for enough, and the variable keeps its value.
unfoldable pub read_byte : ℕ → List ℕ → ℕ × List ℕ
read_byte old [] = (old, [])
read_byte old (x ∷ pipe) = (x, pipe)

-- A `read` into a structure of 128 zeros, whose result is not looked at.
unfoldable pub read_storage : List ℕ → List ℕ × List ℕ
read_storage pipe =
    let taken : List ℕ = take 128 pipe in (taken ++ replicate (128 - length taken) 0, drop 128 pipe)

unfoldable pub read_error : List ℕ → Round
read_error pipe = let (code, rest) = read_byte 0xFF pipe in write_error code rest

unfoldable pub read_access : List ℕ → Round
read_access pipe =
    let (code, rest) = read_byte 0 pipe in
    let (client, rest') = read_storage rest in
    let (server, rest'') = read_storage rest' in write_access code client server rest''

-- The text of `strsz` bytes, the last of which becomes the terminator. Where fewer are left they
-- are taken all the same. An array of no bytes is undefined.
unfoldable pub read_text : ℕ → ℕ → List ℕ → Round
read_text file zero pipe = undefined
read_text file (suc n) pipe =
    if ltb (length pipe) (suc n)
    then skipped (drop (suc n) pipe)
    else write_custom file (set (take (suc n) pipe) n 0) (drop (suc n) pipe)

-- `strsz` is a byte, so that `strsz += 1` wraps.
unfoldable pub read_custom : List ℕ → Round
read_custom pipe =
    let (file, rest) = read_byte 0 pipe in
    let (strsz, rest') = read_byte 0 rest in read_text file ((strsz + 1) % 256) rest'

unfoldable pub read_message : List ℕ → Round
read_message [] = empty
read_message (log_type ∷ pipe) =
    if log_type == log_type_custom
    then read_custom pipe
    else if log_type == log_type_error
    then read_error pipe
    else if log_type == log_type_access
    then read_access pipe
    else if log_type == log_type_join
    then exited
    else skipped pipe

-- The inner loop: the thread waits for more, has ended, or met undefined behaviour; with all
-- entries so far.
pub data Drained : Type 0 where
  out_of_fuel broken : Drained
  waiting finished : List Entry → Drained

unfoldable pub drain : ℕ → List ℕ → List Entry → Drained
drain zero pipe out = out_of_fuel
drain (suc fuel) pipe out = elim (read_message pipe) [
  | empty ↦ waiting out
  | exited ↦ finished out
  | undefined ↦ broken
  | skipped rest ↦ drain fuel rest out
  | logged e rest ↦ drain fuel rest (out ++ (e ∷ []))
]

-- Each round takes a byte at least.
unfoldable pub drain_pipe : List ℕ → List Entry → Drained
drain_pipe pipe out = drain (suc (length pipe)) pipe out
