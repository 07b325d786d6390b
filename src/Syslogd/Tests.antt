-- ===== src/Syslogd/Tests.antt =====
-- A parsed message on which the theorems of this folder are applied.
use netbootd.Prelude.{◌≡◌, none, map, List, [], ◌∷◌, ◌++◌, Bytes, bytes}
use netbootd.Syslogd.Defs.{Value, text, other, or_unknown, syslog_handle_log}
use netbootd.Syslogd.Entries.{fields_of, last_text, syslog_handle_log-eq}
use mathlib.Core.List.{Perm}
use netbootd.Syslogd.Serving.{
  after_boot, handled, logged, entry_for, HasBooted, Run, begin, boot, offer, receive, Run_logged,
}

abbrev before : List (Bytes × Value)
before = (bytes "priority", other (bytes "6")) ∷ (bytes "hostname", text (bytes "a")) ∷ []

abbrev after : List (Bytes × Value)
after = (bytes "tag", text (bytes "dracut")) ∷ []

abbrev parts : List (Bytes × Value)
parts = before ++ (bytes "content", text (bytes "booting")) ∷ after

syslog_handle_log-eq_example :
    syslog_handle_log parts
    ≡ record { fields = fields_of parts; msg = or_unknown (last_text [] parts) }
syslog_handle_log-eq_example = syslog_handle_log-eq parts

served : Run (parts ∷ []) (parts ∷ []) (record { phase = handled [] parts; waiting = [] })
unfolding after_boot
served = receive [] [] parts (boot none (offer parts begin))

Run_logged_example :
    (logged (handled [] parts) ≡ map entry_for (parts ∷ []))
    × Perm (parts ∷ []) (parts ∷ [])
    × HasBooted (handled [] parts)
Run_logged_example = Run_logged served
