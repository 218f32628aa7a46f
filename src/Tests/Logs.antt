-- ===== src/Tests/Logs.antt =====
-- The logger at concrete inputs.
use socksprox.Base.Text.{codes}
use socksprox.Base.{ℕ, ◌≡◌, List, [], ◌∷◌, ◌++◌, some, arith, replicate}
use socksprox.Logger.Custom.{drain_pipe-custom_message}
use socksprox.Logger.Lines.{error_line_defined, access_line_defined}
use socksprox.Logger.RoundTrip.{
  error_of, access_of, Step, write, wake, sent, entries, run_logger, run_logger-sent,
}
use socksprox.Logger.Text.{Time, error_line, access_line}
use socksprox.Logger.{custom, waiting, custom_message, error_message, drain_pipe}

-- 10.1.2.3, port 80
abbrev storage : List ℕ
storage = 2 ∷ 0 ∷ 0 ∷ 80 ∷ 10 ∷ 1 ∷ 2 ∷ 3 ∷ replicate 120 0

abbrev steps : List Step
steps =
    write (error_of 2)
    ∷ wake
    ∷ wake
    ∷ write (access_of storage (replicate 128 0) 0)
    ∷ write (error_of 16)
    ∷ []

run_logger-sent_example : run_logger steps [] [] ≡ waiting (entries (sent steps))
run_logger-sent_example = run_logger-sent steps (ground arith)

drain_pipe-custom_message_example :
    (message : List ℕ) × (custom_message (codes "abc") 3 1 ≡ some message)
    × (drain_pipe message [] ≡ waiting [])
    × (drain_pipe (message ++ error_message 9) [] ≡ waiting (custom 1 (codes "abc") ∷ []))
drain_pipe-custom_message_example =
    drain_pipe-custom_message (codes "abc") 1 9 (ground arith) (ground arith) (ground arith)
      (ground arith) (ground arith)

abbrev now : Time
now = record { tm_year = 124; tm_mon = 0; tm_mday = 2; tm_hour = 3; tm_min = 4; tm_sec = 5 }

error_line_defined_example : (line : List ℕ) × (error_line 19 now ≡ some line)
error_line_defined_example = error_line_defined 19 now (omega arith)

access_line_defined_example :
    (line : List ℕ) × (access_line (λ af xs. xs) 11 storage (replicate 128 0) 7 7 now ≡ some line)
access_line_defined_example =
    access_line_defined (λ af xs. xs) 11 storage (replicate 128 0) 7 7 now (omega arith)
