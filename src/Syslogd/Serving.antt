-- ===== src/Syslogd/Serving.antt =====
-- syslogd/server.go in a running process: NewServer's channel, on which the goroutines of the syslog
-- library wait with what they have parsed, and the loop of Serve.
use netbootd.Prelude.{◌≡◌, refl, Option, none, some, List, [], ◌∷◌, ◌++◌, map, Bytes}
use mathlib.Core.List.{append_assoc, map-append, Perm, perm_middle}
use mathlib.Core.List.Perm
use netbootd.Syslogd.Defs.{Value, Entry, syslog_handle_log, or_unknown}
use netbootd.Syslogd.Entries.{fields_of, last_text, syslog_handle_log-eq}

abbrev pub LogParts : Type 0
LogParts = List (Bytes × Value)

-- Serve before its call of Boot, in its loop, and after it has returned; with what has been logged.
pub data Phase : Type 0 where
  booting : Phase
  looping : List Entry → Phase
  returned : Option Bytes → List Entry → Phase

-- `waiting` are the parts of the goroutines that are blocked on the channel, which has no buffer.
pub record Service : Type 0 where
  pub phase : Phase
  pub waiting : List LogParts

abbrev pub new_service : Service
new_service = record { phase = booting; waiting = [] }

abbrev pub logged : Phase → List Entry
logged booting = []
logged (looping log) = log
logged (returned e log) = log

-- The error of Boot is returned.
unfoldable pub after_boot : Option Bytes → Phase
after_boot none = looping []
after_boot (some e) = returned (some e) []

-- A round of the loop.
unfoldable pub handled : List Entry → LogParts → Phase
handled log parts = looping (log ++ syslog_handle_log parts ∷ [])

-- What a service can come to, with all parts that a goroutine has brought to the channel, and those that
-- the loop has received, in this order.
pub data Run : List LogParts → List LogParts → Service → Type 0 where
  begin : Run [] [] new_service
  boot :
      {offers taken : List LogParts} {waiting : List LogParts} (e : Option Bytes)
      → Run offers taken (record { phase = booting; waiting = waiting })
      → Run offers taken (record { phase = after_boot e; waiting = waiting })
  offer :
      {offers taken : List LogParts} {s : Service} (parts : LogParts)
      → Run offers taken s
      → Run (parts ∷ offers) taken (record s { waiting = parts ∷ s.waiting })
  receive :
      {offers taken : List LogParts} {log : List Entry} (before after : List LogParts)
      (parts : LogParts)
      → Run offers taken (record { phase = looping log; waiting = before ++ parts ∷ after })
      → Run offers
          (taken ++ parts ∷ [])
          (record { phase = handled log parts; waiting = before ++ after })
  close :
      {offers taken : List LogParts} {log : List Entry} {waiting : List LogParts}
      → Run offers taken (record { phase = looping log; waiting = waiting })
      → Run offers taken (record { phase = returned none log; waiting = waiting })

-- The entry for a message, from its parts alone.
abbrev pub entry_for : LogParts → Entry
entry_for parts = record { fields = fields_of parts; msg = or_unknown (last_text [] parts) }

-- Nothing is logged if Boot fails.
abbrev pub HasBooted : Phase → Type 0
HasBooted booting = Unit
HasBooted (looping log) = Unit
HasBooted (returned none log) = Unit
HasBooted (returned (some e) log) = log ≡ []

record Holds (offers taken : List LogParts) (s : Service) : Type 0 where
  entries : logged s.phase ≡ map entry_for taken
  all_there : Perm (taken ++ s.waiting) offers
  booted : HasBooted s.phase

after_boot-Holds :
    (e : Option Bytes) {offers taken waiting : List LogParts}
    → Holds offers taken (record { phase = booting; waiting = waiting })
    → Holds offers taken (record { phase = after_boot e; waiting = waiting })
unfolding after_boot
after_boot-Holds none h = record { entries = h.entries; all_there = h.all_there; booted = tt }
after_boot-Holds (some e) h = record { entries = h.entries; all_there = h.all_there; booted = refl }

received_all :
    (taken before after offers : List LogParts) (parts : LogParts)
    → Perm (taken ++ (before ++ parts ∷ after)) offers
    → Perm ((taken ++ parts ∷ []) ++ (before ++ after)) offers
received_all taken before after offers parts h =
    rw (append_assoc taken (parts ∷ []) (before ++ after))
      (Perm.trans (Perm.append_left taken (Perm.symm (perm_middle before after))) h)

Run-Holds : {offers taken : List LogParts} {s : Service} → Run offers taken s → Holds offers taken s
unfolding handled
Run-Holds begin = record { entries = refl; all_there = Perm.refl []; booted = tt }
Run-Holds (boot e run) = after_boot-Holds e (Run-Holds run)
Run-Holds (offer {offers} {taken} {s} parts run) =
    let h = Run-Holds run in
    record {
      entries = h.entries;
      all_there = Perm.trans (perm_middle taken s.waiting) (Perm.cons parts h.all_there);
      booted = h.booted;
    }
Run-Holds (receive {offers} {taken} {log} before after parts run) =
    let h = Run-Holds run in
    record {
      entries = simp (h.entries, map-append, syslog_handle_log-eq);
      all_there = received_all taken before after offers parts h.all_there;
      booted = tt;
    }
Run-Holds (close run) =
    let h = Run-Holds run in record { entries = h.entries; all_there = h.all_there; booted = tt }

-- However the goroutines of the syslog library and the loop of Serve interleave: what is logged is, in
-- the order in which it was received, an entry for each of the messages that were received; these and
-- the ones that still wait are the messages brought to the channel, each as often; and nothing is
-- logged when Boot fails.
pub Run_logged :
    {offers taken : List LogParts} {s : Service}
    → Run offers taken s
    → (logged s.phase ≡ map entry_for taken) × Perm (taken ++ s.waiting) offers × HasBooted s.phase
Run_logged run = let h = Run-Holds run in (h.entries, h.all_there, h.booted)
