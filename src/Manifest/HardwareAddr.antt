-- ===== src/Manifest/HardwareAddr.antt =====
-- manifest/mac.go: hardware addresses as text, in manifests and as keys of the store. A nil address
-- is the empty one, which is written alike.
use netbootd.Prelude.{Option-cases, inl, inr}
use netbootd.Prelude.{
  ◌≡◌, refl, true, ◌⊎◌, none, some, [], ◌∷◌, arith, Bytes, bytes, length, Result, ok, err,
}
use netbootd.GoStd.Mac.{mac_string, parse_mac, mac_size}
use netbootd.GoStd.Mac.Laws.{AreBytes, parse_mac_shape, parse_mac_nil, parse_mac-mac_string}

abbrev pub HardwareAddr : Type 0
HardwareAddr = Bytes

-- HardwareAddr.String
unfoldable pub string : HardwareAddr → Bytes
string a = mac_string a

-- ParseMAC
unfoldable pub parse : Bytes → Result HardwareAddr
parse s = elim (parse_mac s) [ none ↦ err (bytes "invalid MAC address") | some hw ↦ ok hw ]

-- HardwareAddr.MarshalText
unfoldable pub marshal_text : HardwareAddr → Result Bytes
unfolding string
marshal_text a = ok (string a)

-- HardwareAddr.UnmarshalText: the address that is stored, or the error
unfoldable pub unmarshal_text : Bytes → Result HardwareAddr
unmarshal_text [] = ok []
unmarshal_text (c ∷ text) = parse (c ∷ text)

unmarshal_written :
    (a : HardwareAddr)
    → AreBytes a
    → mac_size (length a) ≡ true
    → unmarshal_text (mac_string a) ≡ ok a
unfolding unmarshal_text parse
unmarshal_written a h size = ground (arith, parse_mac-mac_string a h size, parse_mac_nil)

-- An address of six, eight or twenty bytes is written and read back unchanged.
pub unmarshal_text-marshal_text :
    (a : HardwareAddr)
    → AreBytes a
    → mac_size (length a) ≡ true
    → (text : Bytes) × (marshal_text a ≡ ok text) × (unmarshal_text text ≡ ok a)
unfolding marshal_text
unmarshal_text-marshal_text a h size = (mac_string a, refl, unmarshal_written a h size)

-- What is read has such a size, or the text is empty and so is the address.
pub unmarshal_text_size :
    (text : Bytes) (a : HardwareAddr)
    → unmarshal_text text ≡ ok a
    → (a ≡ []) ⊎ (mac_size (length a) ≡ true)
unfolding unmarshal_text parse
unmarshal_text_size [] a h = inl (ground arith)
unmarshal_text_size (c ∷ text) a h = elim (Option-cases (parse_mac (c ∷ text))) [
  | inl e ↦ absurd (ground arith)
  | inr (m, e) ↦
      let same : m ≡ a = ground arith in inr (rw same at (parse_mac_shape (c ∷ text) m e).0)
]
