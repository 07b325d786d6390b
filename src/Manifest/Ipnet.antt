-- ===== src/Manifest/Ipnet.antt =====
-- manifest/ipnet.go: the text form of an address with its network. `ip_string` is net.IP's String, and
-- `parse_cidr` is net.ParseCIDR.
use netbootd.Prelude.{
  ℕ, ◌≤◌, ◌<◌, ◌/◌, ◌≡◌, ◌≢◌, refl, arith, none, [], ◌∷◌, ◌++◌, Bytes, All, Result, ok, err, some,
  ◌∙◌,
}
use mathlib.Core.Path.{subst}
use netbootd.GoStd.Ip.{Ip}
use netbootd.GoStd.Mac.{hex_digit}
use netbootd.GoStd.Mask.{mask_string}
use netbootd.Manifest.Defs.{IpWithNet}

unfoldable pub string : (Ip → Bytes) → IpWithNet → Bytes
string ip_string n = ip_string n.ip ++ b'/' ∷ mask_string n.mask

-- IPWithNet.MarshalText
unfoldable pub marshal_text : (Ip → Bytes) → IpWithNet → Result Bytes
unfolding string
marshal_text ip_string n = ok (string ip_string n)

-- IPWithNet.UnmarshalText
unfoldable pub unmarshal_text : (Bytes → Result IpWithNet) → Bytes → Result IpWithNet
unmarshal_text parse_cidr [] = ok (record { ip = none; mask = [] })
unmarshal_text parse_cidr (c ∷ text) = parse_cidr (c ∷ text)

-- IPWithNet.Netmask
unfoldable pub netmask : (Ip → Bytes) → IpWithNet → Bytes
netmask ip_string n = ip_string (some n.mask)

abbrev pub IsDigit : ℕ → Type 0
IsDigit c = (48 ≤ c) × (c < 58)

-- What ParseCIDR is documented to read: an address, a slash and a prefix length, a decimal number.
abbrev pub ReadsPrefixLengths : (Bytes → Result IpWithNet) → Type 0
ReadsPrefixLengths parse_cidr =
    (address length : Bytes) (n : IpWithNet)
    → parse_cidr (address ++ b'/' ∷ length) ≡ ok n
    → All IsDigit length

hex_digit-letter : (b : ℕ) → 160 ≤ b → ¬ IsDigit (hex_digit (b / 16))
unfolding hex_digit
hex_digit-letter b h k = ground arith

module _ (ip_string : Ip → Bytes) (parse_cidr : Bytes → Result IpWithNet) where
  refused : (r : Result IpWithNet) → ((n : IpWithNet) → r ≢ ok n) → (e : Bytes) × (r ≡ err e)
  refused (ok n) h = absurd (h n refl)
  refused (err e) h = (e, refl)

  unmarshal_text_slash :
      (address length : Bytes)
      → unmarshal_text parse_cidr (address ++ b'/' ∷ length) ≡ parse_cidr (address ++ b'/' ∷ length)
  unfolding unmarshal_text
  unmarshal_text_slash [] length = refl
  unmarshal_text_slash (c ∷ address) length = refl

  parse_cidr_hex :
      (ip : Ip) (b : ℕ) (mask : Bytes)
      → ReadsPrefixLengths parse_cidr
      → 160 ≤ b
      → (e : Bytes) × (parse_cidr (string ip_string (record { ip = ip; mask = b ∷ mask })) ≡ err e)
  unfolding string mask_string
  parse_cidr_hex ip b mask reads h =
      refused _ (λ n q. hex_digit-letter b h (reads (ip_string ip) (mask_string (b ∷ mask)) n q).0)

  -- What MarshalText makes of an address with a mask whose first byte is at least 160, as that of
  -- each prefix length from 2, UnmarshalText refuses, if ParseCIDR reads nothing but decimal digits
  -- behind the slash: the mask is written in hexadecimal.
  pub unmarshal_text-refuses-marshal_text :
      (ip : Ip) (b : ℕ) (mask text : Bytes)
      → ReadsPrefixLengths parse_cidr
      → 160 ≤ b
      → marshal_text ip_string (record { ip = ip; mask = b ∷ mask }) ≡ ok text
      → (e : Bytes) × (unmarshal_text parse_cidr text ≡ err e)
  unfolding marshal_text string
  unmarshal_text-refuses-marshal_text ip b mask text reads h m =
      let same : string ip_string (record { ip = ip; mask = b ∷ mask }) ≡ text = cc in
      let (e, q) = parse_cidr_hex ip b mask reads h in
      subst (λ t. (e : Bytes) × (unmarshal_text parse_cidr t ≡ err e)) same
        (e, unmarshal_text_slash (ip_string ip) (mask_string (b ∷ mask)) ∙ q)
