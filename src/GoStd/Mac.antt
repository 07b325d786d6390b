-- ===== src/GoStd/Mac.antt =====
-- Go's `net.HardwareAddr` and `net.ParseMAC`: six, eight or twenty bytes, written as pairs of hex
-- digits between ':' or '-', or as groups of four between '.'.
pub mod Laws
use netbootd.Prelude.{
  ℕ, zero, suc, ◌+◌, ◌-◌, ◌*◌, ◌/◌, ◌%◌, ◌≡◌, refl, Bool, true, false, ◌&&◌, ◌||◌, Option, none,
  some, List, [], ◌∷◌, ◌++◌, Bytes, bytes, length, ltb, leb, ◌==◌, if◌then◌else◌,
}
use mathlib.Core.Option

-- A digit of "0123456789abcdef"
unfoldable pub hex_digit : ℕ → ℕ
hex_digit n = if ltb n 10 then b'0' + n else b'a' + (n - 10)

unfoldable pub hex_value : ℕ → Option ℕ
hex_value c =
    if leb b'0' c && leb c b'9'
    then some (c - b'0')
    else if leb b'a' c && leb c b'f'
    then some (c - b'a' + 10)
    else if leb b'A' c && leb c b'F'
    then some (c - b'A' + 10)
    else none

-- HardwareAddr.String: the bytes as lower-case hex, with ':' between them
unfoldable pub mac_string : Bytes → Bytes
unfolding hex_digit
mac_string [] = []
mac_string (b ∷ []) = hex_digit (b / 16) ∷ hex_digit (b % 16) ∷ []
mac_string (b ∷ c ∷ bs) = hex_digit (b / 16) ∷ hex_digit (b % 16) ∷ b':' ∷ mac_string (c ∷ bs)

infixl 5 ◌>>=◌
abbrev ◌>>=◌ : {A B : Type 0} → Option A → (A → Option B) → Option B
none >>= k = none
some a >>= k = k a

-- xtoi2: two hex digits
unfoldable pub hex_pair : ℕ → ℕ → Option ℕ
unfolding hex_value
hex_pair a b = do hi ← hex_value a; lo ← hex_value b; some (hi * 16 + lo)

-- The loop over pairs, each but the last with the separator behind it.
unfoldable pub parse_pairs : ℕ → Bytes → Option Bytes
unfolding hex_pair
parse_pairs sep (a ∷ b ∷ []) = do x ← hex_pair a b; some (x ∷ [])
parse_pairs sep (a ∷ b ∷ c ∷ s) = do
  x ← hex_pair a b
  xs ← parse_pairs sep s
  if c == sep then some (x ∷ xs) else none
parse_pairs sep _ = none

-- The loop over groups of two pairs.
unfoldable pub parse_groups : Bytes → Option Bytes
unfolding hex_pair
parse_groups (a ∷ b ∷ c ∷ d ∷ []) = do x ← hex_pair a b; y ← hex_pair c d; some (x ∷ y ∷ [])
parse_groups (a ∷ b ∷ c ∷ d ∷ e ∷ s) = do
  x ← hex_pair a b
  y ← hex_pair c d
  xs ← parse_groups s
  if e == b'.' then some (x ∷ y ∷ xs) else none
parse_groups _ = none

abbrev pub mac_size : ℕ → Bool
mac_size n = n == 6 || n == 8 || n == 20

abbrev sized : Bool → Option Bytes → Option Bytes
sized true r = r
sized false r = none

-- The format is told by the third byte, or else by the fifth.
unfoldable pub parse_mac_by : Bytes → Option Bytes
parse_mac_by (a ∷ b ∷ c ∷ d ∷ e ∷ s) =
    let whole = a ∷ b ∷ c ∷ d ∷ e ∷ s in
    let n = length whole + 1 in
    if c == b':' || c == b'-'
    then sized (n % 3 == 0 && mac_size (n / 3)) (parse_pairs c whole)
    else if e == b'.'
    then sized (n % 5 == 0 && mac_size (2 * n / 5)) (parse_groups whole)
    else none
parse_mac_by _ = none

-- net.ParseMAC; `none` is the error
unfoldable pub parse_mac : Bytes → Option Bytes
parse_mac s = if ltb (length s) 14 then none else parse_mac_by s

mac_tests :
    (parse_mac (bytes "00:15:5d:BD:be:13") ≡ some (0 ∷ 0x15 ∷ 0x5d ∷ 0xbd ∷ 0xbe ∷ 0x13 ∷ []))
    × (parse_mac (bytes "0015.5dbd.be13") ≡ some (0 ∷ 0x15 ∷ 0x5d ∷ 0xbd ∷ 0xbe ∷ 0x13 ∷ []))
    × (parse_mac (bytes "00:15:5d-bd:be:13") ≡ none)
    × (mac_string (0 ∷ 0x15 ∷ 0x5d ∷ []) ≡ bytes "00:15:5d")
unfolding parse_mac parse_mac_by parse_pairs parse_groups mac_string
mac_tests = (refl, refl, refl, refl)
