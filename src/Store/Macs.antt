-- ===== src/Store/Macs.antt =====
-- The loops over hardware addresses of store/store.go, as one write and one deletion per key.
use netbootd.Prelude.{
  ◌≡◌, refl, inl, inr, Bool, true, false, ◌||◌, none, some, List, [], ◌∷◌, arith, Bytes, In, str_eq,
  str_eq_iff, if◌then◌else◌, GoMap, get, put, delete, get-put, get-delete,
}
use netbootd.Manifest.HardwareAddr.{HardwareAddr, string}
use netbootd.Store.Defs.{Ptr, put_macs, delete_macs}

-- Whether a key is that of one of the addresses.
abbrev pub has_key : Bytes → List HardwareAddr → Bool
has_key k [] = false
has_key k (mac ∷ macs) = str_eq (string mac) k || has_key k macs

pub get-put_macs :
    (macs : List HardwareAddr) (p : Ptr) (m : GoMap Ptr) (k : Bytes)
    → get (put_macs macs p m) k ≡ (if has_key k macs then some p else get m k)
unfolding put_macs
get-put_macs [] p m k = refl
get-put_macs (mac ∷ macs) p m k =
    ground (arith, get-put_macs macs p (put m (string mac) p) k, get-put m (string mac) k p)

pub get-delete_macs :
    (macs : List HardwareAddr) (m : GoMap Ptr) (k : Bytes)
    → get (delete_macs macs m) k ≡ (if has_key k macs then none else get m k)
unfolding delete_macs
get-delete_macs [] m k = refl
get-delete_macs (mac ∷ macs) m k =
    ground (arith, get-delete_macs macs (delete m (string mac)) k, get-delete m (string mac) k)

pub has_key_of_In :
    (mac : HardwareAddr) (macs : List HardwareAddr) → In mac macs → has_key (string mac) macs ≡ true
has_key_of_In mac [] i = absurd i
has_key_of_In mac (a ∷ macs) (inl e) = ground (arith, str_eq_iff (string a) (string mac))
has_key_of_In mac (a ∷ macs) (inr i) = ground (arith, has_key_of_In mac macs i)
