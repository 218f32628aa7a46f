-- ===== src/Logger/RoundTrip.antt =====
-- What the logger writes is what the program sent.
use socksprox.Base.{
  ℕ, zero, suc, ◌≤◌, ◌<◌, ◌≡◌, refl, sym, ap, ◌∙◌, List, [], ◌∷◌, ◌++◌, append-nil, append_assoc,
  lt→ltb, length, length-append, take, take_all, take-append, drop-append, arith,
}
use socksprox.Logger.Rounds.{drain-logged}
use socksprox.Logger.{
  error_message, access_message, Entry, error, access, logged, write_error, write_access, read_byte,
  read_storage, read_error, read_access, read_message, Drained, out_of_fuel, broken, waiting,
  finished, drain, drain_pipe,
}

-- A call of `log_error`, or of `log_access` with its client, its server and its code.
pub data Message : Type 0 where
  error_of : ℕ → Message
  access_of : List ℕ → List ℕ → ℕ → Message

-- A code that has a text, and addresses of the size of their structure.
abbrev pub IsMessage : Message → Type 0
IsMessage (error_of code) = code < 20
IsMessage (access_of client server code) =
    (length client ≡ 128) × (length server ≡ 128) × (code < 14)

abbrev pub encode : Message → List ℕ
encode (error_of code) = error_message code
encode (access_of client server code) = access_message client server code

abbrev pub entry_of : Message → Entry
entry_of (error_of code) = error code
entry_of (access_of client server code) = access code client server

read_storage-append : (xs rest : List ℕ) → length xs ≡ 128 → read_storage (xs ++ rest) ≡ (xs, rest)
unfolding read_storage
read_storage-append xs rest h =
    rw (take-append 128 xs rest (sym h), drop-append 128 xs rest (sym h), h) (rw append-nil refl)

-- A message at the front of the pipe is taken whole.
read_message-encode :
    (m : Message) (rest : List ℕ)
    → IsMessage m
    → read_message (encode m ++ rest) ≡ logged (entry_of m) rest
unfolding read_message read_error read_access read_byte write_error write_access error_message
    access_message
read_message-encode (error_of code) rest h = rw (lt→ltb code 20 h) refl
read_message-encode (access_of client server code) rest h =
    rw
      (
        take_all 128 client (omega (arith, h.0)),
        take_all 128 server (omega (arith, h.1)),
        append_assoc client server rest,
        read_storage-append client (server ++ rest) h.0,
        read_storage-append server rest h.1,
        lt→ltb code 14 h.2,
      )
      refl

abbrev pub AreMessages : List Message → Type 0
AreMessages [] = Unit
AreMessages (m ∷ ms) = IsMessage m × AreMessages ms

abbrev pub encode_all : List Message → List ℕ
encode_all [] = []
encode_all (m ∷ ms) = encode m ++ encode_all ms

abbrev pub entries : List Message → List Entry
entries [] = []
entries (m ∷ ms) = entry_of m ∷ entries ms

drain-encode_all :
    (fuel : ℕ) (ms : List Message) (out : List Entry)
    → AreMessages ms
    → length ms < fuel
    → drain fuel (encode_all ms) out ≡ waiting (out ++ entries ms)
unfolding drain read_message
drain-encode_all zero ms out h l = absurd (omega arith)
drain-encode_all (suc fuel) [] out h l = rw append-nil refl
drain-encode_all (suc fuel) (m ∷ ms) out h l =
    drain-logged fuel (encode m ++ encode_all ms) _ _ out
      (read_message-encode m (encode_all ms) h.0)
    ∙ drain-encode_all fuel ms (out ++ (entry_of m ∷ [])) h.1 (omega arith)
    ∙ ap waiting (append_assoc out (entry_of m ∷ []) (entries ms))

length-encode_all : (ms : List Message) → length ms ≤ length (encode_all ms)
unfolding error_message access_message
length-encode_all [] = omega arith
length-encode_all (error_of code ∷ ms) = omega (arith, length-encode_all ms)
length-encode_all (access_of client server code ∷ ms) = omega (
  arith,
  length-encode_all ms,
  length-append (take 128 client ++ take 128 server) (encode_all ms),
)

drain_pipe-encode_all :
    (ms : List Message) (out : List Entry)
    → AreMessages ms
    → drain_pipe (encode_all ms) out ≡ waiting (out ++ entries ms)
unfolding drain_pipe
drain_pipe-encode_all ms out h = drain-encode_all _ ms out h (omega (arith, length-encode_all ms))

-- The program writes a message, which the pipe takes whole, or the thread wakes up.
pub data Step : Type 0 where
  write : Message → Step
  wake : Step

unfoldable pub run_logger : List Step → List ℕ → List Entry → Drained
run_logger [] pipe out = drain_pipe pipe out
run_logger (write m ∷ steps) pipe out = run_logger steps (pipe ++ encode m) out
run_logger (wake ∷ steps) pipe out = elim (drain_pipe pipe out) [
  | out_of_fuel ↦ out_of_fuel
  | broken ↦ broken
  | waiting out' ↦ run_logger steps [] out'
  | finished out' ↦ finished out'
]

abbrev pub sent : List Step → List Message
sent [] = []
sent (write m ∷ steps) = m ∷ sent steps
sent (wake ∷ steps) = sent steps

encode_all-append :
    (ms : List Message) (m : Message) → encode_all (ms ++ (m ∷ [])) ≡ encode_all ms ++ encode m
encode_all-append [] m = append-nil (encode m)
encode_all-append (x ∷ ms) m =
    ap (λ (t : List ℕ). encode x ++ t) (encode_all-append ms m)
    ∙ sym (append_assoc (encode x) (encode_all ms) (encode m))

entries-append : (ms ns : List Message) → entries (ms ++ ns) ≡ entries ms ++ entries ns
entries-append [] ns = refl
entries-append (m ∷ ms) ns = ap (λ (t : List Entry). entry_of m ∷ t) (entries-append ms ns)

AreMessages-append :
    (ms : List Message) (m : Message) → AreMessages ms → IsMessage m → AreMessages (ms ++ (m ∷ []))
AreMessages-append [] m h hm = (hm, tt)
AreMessages-append (x ∷ ms) m h hm = (h.0, AreMessages-append ms m h.1 hm)

-- Some messages wait in the pipe, and more follow.
run_logger-encode_all :
    (steps : List Step) (ms : List Message) (out : List Entry)
    → AreMessages ms
    → AreMessages (sent steps)
    → run_logger steps (encode_all ms) out ≡ waiting (out ++ entries (ms ++ sent steps))
unfolding run_logger
run_logger-encode_all [] ms out h hs = drain_pipe-encode_all ms out h ∙ rw (append-nil ms) refl
run_logger-encode_all (write m ∷ steps) ms out h hs =
    ap (λ (t : List ℕ). run_logger steps t out) (sym (encode_all-append ms m))
    ∙ run_logger-encode_all steps (ms ++ (m ∷ [])) out (AreMessages-append ms m h hs.0) hs.1
    ∙ ap (λ (t : List Message). waiting (out ++ entries t)) (append_assoc ms (m ∷ []) (sent steps))
run_logger-encode_all (wake ∷ steps) ms out h hs =
    rw (drain_pipe-encode_all ms out h, run_logger)
      (run_logger-encode_all steps [] (out ++ entries ms) tt hs
        ∙ ap waiting (
            append_assoc out (entries ms) (entries (sent steps))
            ∙ ap (λ (t : List Entry). out ++ t) (sym (entries-append ms (sent steps)))))

-- Whenever the thread of the logger wakes up between the calls of `log_error` and `log_access`, the
-- log holds one entry for each call, in order, with the code and the addresses of the call, if the
-- codes have a text and the pipe takes each message.
pub run_logger-sent :
    (steps : List Step)
    → AreMessages (sent steps)
    → run_logger steps [] [] ≡ waiting (entries (sent steps))
run_logger-sent steps h = run_logger-encode_all steps [] [] tt h
