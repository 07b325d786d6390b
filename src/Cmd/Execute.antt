-- ===== src/Cmd/Execute.antt =====
-- cmd/root.go and main.go: the end of the process after the command that cobra has run.
use netbootd.Prelude.{ℕ, Option, none, some, Bytes}
use netbootd.Config.Logging.{Logs, Logging, init_zero_log}

-- main returns, or the process exits with a code after it has printed an error, or it panics.
pub data Exit : Type 0 where
  returned panicked : Exit
  exited : Bytes → ℕ → Exit

abbrev exit_with : Bytes → Option Logging → Exit
exit_with e none = panicked
exit_with e (some s) = exited e 1

-- Execute, for the error of the root command's Execute.
unfoldable pub execute : Logs → Logging → Option Bytes → Exit
execute logs s none = returned
execute logs s (some e) = exit_with e (init_zero_log logs s)
