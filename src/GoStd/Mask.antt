-- ===== src/GoStd/Mask.antt =====
-- Go's `net.IPMask.String`: the mask as lower-case hex with no punctuation.
use netbootd.Prelude.{◌/◌, ◌%◌, [], ◌∷◌, Bytes, bytes}
use netbootd.GoStd.Mac.{hex_digit}

unfoldable pub hex_string : Bytes → Bytes
hex_string [] = []
hex_string (b ∷ mask) = hex_digit (b / 16) ∷ hex_digit (b % 16) ∷ hex_string mask

abbrev or_nil : Bytes → Bytes
or_nil [] = bytes "<nil>"
or_nil (d ∷ digits) = d ∷ digits

-- IPMask.String
unfoldable pub mask_string : Bytes → Bytes
unfolding hex_string
mask_string mask = or_nil (hex_string mask)
