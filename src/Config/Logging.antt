-- ===== src/Config/Logging.antt =====
-- config/zerolog.go: the writer that InitZeroLog gives to the logger. The calls of the package journal
-- and the flags are parameters.
use netbootd.Prelude.{
  ◌≡◌, refl, ap, sym, ◌∙◌, Bool, true, not, ◌||◌, Option, none, some, Result, ok, err,
  if◌then◌else◌, Bool-cases, inl, inr,
}

-- Standard error as JSON, or as the console writer with or without color.
pub data Output : Type 0 where
  json : Output
  console : Bool → Output

pub data Writer : Type 0 where
  to_output : Output → Writer
  to_journal : Writer
  to_both : Output → Writer

-- zerologInitDone, and the writer of log.Logger if one was set.
pub record Logging : Type 0 where
  pub init_done : Bool
  pub writer : Option Writer

-- The flags, and journal.StderrIsJournalStream and journal.Enabled.
pub record Logs : Type 0 where
  pub journal_disabled : Bool
  pub no_color : Bool
  pub json_logger : Bool
  pub stderr_is_journal : Result Bool
  pub journal_enabled : Bool

abbrev pub output : Logs → Output
output logs = if not logs.json_logger then console logs.no_color else json

unfoldable pub choose_writer : Logs → Bool → Writer
choose_writer logs on_journal =
    if logs.journal_disabled || not logs.journal_enabled
    then to_output (output logs)
    else if on_journal
    then to_journal
    else to_both (output logs)

abbrev initialised : Logs → Result Bool → Option Logging
initialised logs (err e) = none
initialised logs (ok on_journal) =
    some (record { init_done = true; writer = some (choose_writer logs on_journal) })

-- InitZeroLog; none is a panic.
unfoldable pub init_zero_log : Logs → Logging → Option Logging
init_zero_log logs s = if not s.init_done then initialised logs logs.stderr_is_journal else some s

initialised-done :
    (logs : Logs) (r : Result Bool) (s' : Logging)
    → initialised logs r ≡ some s'
    → s'.init_done ≡ true
initialised-done logs (err e) s' h = absurd (cc)
initialised-done logs (ok on_journal) s' h =
    let same : record { init_done = true; writer = some (choose_writer logs on_journal) } ≡ s' =
      cc in
    ap (λ (t : Logging). t.init_done) (sym same)

init_zero_log-done :
    (logs : Logs) (s s' : Logging) → init_zero_log logs s ≡ some s' → s'.init_done ≡ true
unfolding init_zero_log
init_zero_log-done logs s s' h = elim (Bool-cases s.init_done) [
  | inl e ↦ let same : s ≡ s' = cc (rw e at h) in ap (λ (t : Logging). t.init_done) (sym same) ∙ e
  | inr e ↦ initialised-done logs logs.stderr_is_journal s' (rw e at h)
]

-- After a call that returns, every later call leaves the logger as it is and returns, even if the
-- flags and the journal have changed since.
pub init_zero_log_once :
    (logs later : Logs) (s s' : Logging)
    → init_zero_log logs s ≡ some s'
    → init_zero_log later s' ≡ some s'
unfolding init_zero_log
init_zero_log_once logs later s s' h = rw (init_zero_log-done logs s s' h) refl
