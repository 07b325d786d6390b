-- ===== src/Syslogd/Entries.antt =====
-- What syslogHandleLog of syslogd/handler.go logs, whatever the order of the parts.
use netbootd.Prelude.{
  ◌≡◌, refl, ap, ◌∙◌, arith, Option, none, some, List, [], ◌∷◌, ◌++◌, Bytes, bytes, str_eq_iff, ◌≢◌,
}
use mathlib.Core.List.{append_assoc, append-nil}
use netbootd.Syslogd.Defs.{
  Value, Entry, is_msg, with_part, add_parts, or_unknown, syslog_handle_log,
}

abbrev kept : Bytes → Value → Option Bytes → List (Bytes × Value) → List (Bytes × Value)
kept key value none rest = (bytes "syslog." ++ key, value) ∷ rest
kept key value (some m) rest = rest

abbrev text_or : Bytes → Option Bytes → Bytes
text_or msg none = msg
text_or msg (some m) = m

-- The parts that are no message, as fields.
abbrev pub fields_of : List (Bytes × Value) → List (Bytes × Value)
fields_of [] = []
fields_of ((key, value) ∷ parts) = kept key value (is_msg key value) (fields_of parts)

-- The text of the last message among the parts.
abbrev pub last_text : Bytes → List (Bytes × Value) → Bytes
last_text msg [] = msg
last_text msg ((key, value) ∷ parts) = last_text (text_or msg (is_msg key value)) parts

abbrev summary : Entry → List (Bytes × Value) → Entry
summary e parts = record { fields = e.fields ++ fields_of parts; msg = last_text e.msg parts }

with_part-summary :
    (e : Entry) (key : Bytes) (value : Value) (o : Option Bytes) (parts : List (Bytes × Value))
    → summary (with_part e key value o) parts ≡ record {
      fields = e.fields ++ kept key value o (fields_of parts);
      msg = last_text (text_or e.msg o) parts;
    }
with_part-summary e key value none parts = simp (append_assoc)
with_part-summary e key value (some m) parts = refl

add_parts-eq : (e : Entry) (parts : List (Bytes × Value)) → add_parts e parts ≡ summary e parts
unfolding add_parts
add_parts-eq e [] = simp (append-nil)
add_parts-eq e ((key, value) ∷ parts) =
    add_parts-eq (with_part e key value (is_msg key value)) parts
    ∙ with_part-summary e key value (is_msg key value) parts

-- syslogHandleLog logs, as fields, the parts that are no message, in the order of the parts, and as
-- the message the text of the last part that is one; without a text the message is UNKNOWN.
pub syslog_handle_log-eq :
    (parts : List (Bytes × Value))
    → syslog_handle_log parts
      ≡ record { fields = fields_of parts; msg = or_unknown (last_text [] parts) }
unfolding syslog_handle_log
syslog_handle_log-eq parts =
    ap (λ (e : Entry). record { fields = e.fields; msg = or_unknown e.msg })
      (add_parts-eq (record { fields = []; msg = [] }) parts)

abbrev pub HasNoMessage : List (Bytes × Value) → Type 0
HasNoMessage [] = Unit
HasNoMessage ((key, value) ∷ parts) = (is_msg key value ≡ none) × HasNoMessage parts

last_text-none :
    (msg : Bytes) (parts : List (Bytes × Value)) → HasNoMessage parts → last_text msg parts ≡ msg
last_text-none msg [] h = refl
last_text-none msg ((key, value) ∷ parts) (h, rest) = rw h (last_text-none msg parts rest)

last_text-one :
    (msg key m : Bytes) (value : Value) (before after : List (Bytes × Value))
    → is_msg key value ≡ some m
    → HasNoMessage after
    → last_text msg (before ++ (key, value) ∷ after) ≡ m
last_text-one msg key m value [] after e h = rw (last_text, e) (last_text-none m after h)
last_text-one msg key m value ((k, v) ∷ before) after e h =
    last_text-one (text_or msg (is_msg k v)) key m value before after e h

-- If Go ranges over a part that is a message with a text that is not empty, and over no other message
-- after it, then the message of the entry is that text.
pub syslog_handle_log_msg :
    (key m : Bytes) (value : Value) (before after : List (Bytes × Value))
    → is_msg key value ≡ some m
    → m ≢ []
    → HasNoMessage after
    → (syslog_handle_log (before ++ (key, value) ∷ after)).msg ≡ m
syslog_handle_log_msg key m value before after e ne h =
    ap (λ (x : Entry). x.msg) (syslog_handle_log-eq (before ++ (key, value) ∷ after))
    ∙ rw (last_text-one [] key m value before after e h) (ground (arith, str_eq_iff m []))
