-- ===== src/Syslogd/Defs.antt =====
-- syslogd/handler.go and syslogd/server.go. The syslog library parses a message into parts, a map of
-- Go; a part of a text type other than string is `other`.
use netbootd.Prelude.{
  Option, none, some, List, [], ◌∷◌, ◌++◌, Bytes, bytes, str_eq, not, ◌&&◌, if◌then◌else◌,
}

pub data Value : Type 0 where
  text other : Bytes → Value

-- What is logged: the fields of the event in the order in which they were added, and its message.
pub record Entry : Type 0 where
  pub fields : List (Bytes × Value)
  pub msg : Bytes

abbrev text_of : Value → Option Bytes
text_of (text m) = some m
text_of (other v) = none

-- isMsg
unfoldable pub is_msg : Bytes → Value → Option Bytes
is_msg key value =
    if not (str_eq key (bytes "content")) && not (str_eq key (bytes "message"))
    then none
    else text_of value

abbrev pub with_part : Entry → Bytes → Value → Option Bytes → Entry
with_part e key value (some m) = record e { msg = m }
with_part e key value none = record e { fields = e.fields ++ (bytes "syslog." ++ key, value) ∷ [] }

-- The loop over the parts, in the order in which Go ranges over them.
unfoldable pub add_parts : Entry → List (Bytes × Value) → Entry
add_parts e [] = e
add_parts e ((key, value) ∷ parts) = add_parts (with_part e key value (is_msg key value)) parts

abbrev pub or_unknown : Bytes → Bytes
or_unknown m = if str_eq m [] then bytes "UNKNOWN" else m

-- syslogHandleLog
unfoldable pub syslog_handle_log : List (Bytes × Value) → Entry
unfolding add_parts
syslog_handle_log parts =
    let e = add_parts (record { fields = []; msg = [] }) parts in
    record e { msg = or_unknown e.msg }

abbrev default_addr : Bytes
default_addr = bytes "0.0.0.0:514"

-- ListenUDP and ListenTCP, over those of the syslog library.
unfoldable pub listen : (Bytes → Option Bytes) → Bytes → Option Bytes
listen library addr = library (if str_eq addr [] then default_addr else addr)
