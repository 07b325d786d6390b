-- ===== src/GoStd/Strings.antt =====
-- Go's package `strings`, as manifest/schema.go, store/store.go, dhcpd/handler.go and api/server.go
-- call it.
pub mod Laws
use netbootd.Prelude.{
  ℕ, zero, suc, ◌-◌, Bool, true, false, ◌&&◌, ◌||◌, List, [], ◌∷◌, Bytes, length, leb, str_eq, ◌==◌,
  if◌then◌else◌,
}

abbrev pub slash : ℕ
slash = b'/'

unfoldable pub drop : ℕ → Bytes → Bytes
drop zero s = s
drop (suc n) [] = []
drop (suc n) (c ∷ s) = drop n s

-- strings.TrimLeft(s, cutset), with a cutset of one byte
unfoldable pub trim_left : Bytes → ℕ → Bytes
trim_left [] cut = []
trim_left (c ∷ s) cut = let rest = trim_left s cut in if c == cut then rest else c ∷ s

unfoldable pub has_prefix : Bytes → Bytes → Bool
has_prefix s [] = true
has_prefix [] (p ∷ ps) = false
has_prefix (c ∷ s) (p ∷ ps) = c == p && has_prefix s ps

unfoldable pub has_suffix : Bytes → Bytes → Bool
unfolding drop str_eq
has_suffix s suffix =
    leb (length suffix) (length s) && str_eq (drop (length s - length suffix) s) suffix

unfoldable pub trim_prefix : Bytes → Bytes → Bytes
unfolding drop has_prefix
trim_prefix s prefix = if has_prefix s prefix then drop (length prefix) s else s

unfoldable pub contains : Bytes → Bytes → Bool
unfolding has_prefix
contains [] substr = has_prefix [] substr
contains (c ∷ s) substr = has_prefix (c ∷ s) substr || contains s substr
