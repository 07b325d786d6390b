-- ===== src/GoStd/Ip.antt =====
-- Go's `net.IP`: nil, or the bytes of an address. The program compares, normalises and classifies
-- addresses; an address of another length than 4 or 16 is carried and never normalised.
use netbootd.Prelude.{
  ◌≡◌, refl, Bool, true, false, ◌&&◌, ◌||◌, Option, none, some, [], ◌∷◌, ◌++◌, arith, Bytes, length,
  ltb, leb, str_eq, ◌==◌, if◌then◌else◌,
}
use netbootd.GoStd.Strings.{drop, has_prefix}

abbrev pub Ip : Type 0
Ip = Option Bytes

-- string(ip), with string(nil) = ""
abbrev pub octets : Ip → Bytes
octets none = []
octets (some b) = b

abbrev pub v4_in_v6_prefix : Bytes
v4_in_v6_prefix = 0 ∷ 0 ∷ 0 ∷ 0 ∷ 0 ∷ 0 ∷ 0 ∷ 0 ∷ 0 ∷ 0 ∷ 255 ∷ 255 ∷ []

abbrev pub ipv4_zero : Ip
ipv4_zero = some (v4_in_v6_prefix ++ 0 ∷ 0 ∷ 0 ∷ 0 ∷ [])

abbrev pub ipv4_bcast : Ip
ipv4_bcast = some (v4_in_v6_prefix ++ 255 ∷ 255 ∷ 255 ∷ 255 ∷ [])

abbrev pub ipv6_unspecified : Ip
ipv6_unspecified = some (0 ∷ 0 ∷ 0 ∷ 0 ∷ 0 ∷ 0 ∷ 0 ∷ 0 ∷ 0 ∷ 0 ∷ 0 ∷ 0 ∷ 0 ∷ 0 ∷ 0 ∷ 0 ∷ [])

abbrev pub ipv6_loopback : Ip
ipv6_loopback = some (0 ∷ 0 ∷ 0 ∷ 0 ∷ 0 ∷ 0 ∷ 0 ∷ 0 ∷ 0 ∷ 0 ∷ 0 ∷ 0 ∷ 0 ∷ 0 ∷ 0 ∷ 1 ∷ [])

unfoldable pub to4_bytes : Bytes → Ip
unfolding has_prefix drop
to4_bytes b =
    if length b == 4
    then some b
    else if length b == 16 && has_prefix b v4_in_v6_prefix
    then some (drop 12 b)
    else none

unfoldable pub to4 : Ip → Ip
unfolding to4_bytes
to4 none = none
to4 (some b) = to4_bytes b

unfoldable pub to16_bytes : Bytes → Ip
to16_bytes b =
    if length b == 4 then some (v4_in_v6_prefix ++ b) else if length b == 16 then some b else none

unfoldable pub to16 : Ip → Ip
unfolding to16_bytes
to16 none = none
to16 (some b) = to16_bytes b

-- ip.Equal(x): a 4-byte address equals its 16-byte form
unfoldable pub equal : Ip → Ip → Bool
unfolding has_prefix drop str_eq
equal ip x =
    let a = octets ip in
    let b = octets x in
    if length a == length b
    then str_eq a b
    else if length a == 4 && length b == 16
    then has_prefix b v4_in_v6_prefix && str_eq a (drop 12 b)
    else if length a == 16 && length b == 4
    then has_prefix a v4_in_v6_prefix && str_eq (drop 12 a) b
    else false

unfoldable pub is_unspecified : Ip → Bool
unfolding equal
is_unspecified ip = equal ip ipv4_zero || equal ip ipv6_unspecified

abbrev starts_127 : Ip → Ip → Bool
starts_127 ip none = false
starts_127 ip (some []) = false
starts_127 ip (some (b ∷ _)) = b == 127

abbrev is_some : Ip → Bool
is_some none = false
is_some (some _) = true

unfoldable pub is_loopback : Ip → Bool
unfolding to4 equal
is_loopback ip = if is_some (to4 ip) then starts_127 ip (to4 ip) else equal ip ipv6_loopback

-- 169.254.0.0/16
abbrev v4_link_local : Ip → Bool
v4_link_local (some (a ∷ b ∷ _)) = a == 169 && b == 254
v4_link_local _ = false

-- fe80::/10: the second byte masked by 0xc0 is 0x80
abbrev v6_link_local : Bytes → Bool
v6_link_local (a ∷ b ∷ rest) = length rest == 14 && a == 254 && leb 128 b && ltb b 192
v6_link_local _ = false

unfoldable pub is_link_local_unicast : Ip → Bool
unfolding to4
is_link_local_unicast ip =
    if is_some (to4 ip) then v4_link_local (to4 ip) else v6_link_local (octets ip)

-- 224.0.0.0/4: the first byte masked by 0xf0 is 0xe0
abbrev v4_multicast : Ip → Bool
v4_multicast (some (a ∷ _)) = leb 224 a && ltb a 240
v4_multicast _ = false

-- ff00::/8
abbrev v6_multicast : Bytes → Bool
v6_multicast (a ∷ rest) = length rest == 15 && a == 255
v6_multicast [] = false

unfoldable pub is_multicast : Ip → Bool
unfolding to4
is_multicast ip = if is_some (to4 ip) then v4_multicast (to4 ip) else v6_multicast (octets ip)

-- The 16-byte form of a 4-byte address goes back to it.
pub to4-to16 : (b : Bytes) → length b ≡ 4 → to4 (to16 (some b)) ≡ some b
unfolding to4 to16
to4-to16 b h = rw h (ground arith)

pub to16_idem : (ip : Ip) → to16 (to16 ip) ≡ to16 ip
unfolding to16
to16_idem none = refl
to16_idem (some b) = ground arith
