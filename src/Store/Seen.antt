-- ===== src/Store/Seen.antt =====
-- What the three lookups of store/store.go give, as manifests, and after one is put.
use netbootd.Prelude.{
  ◌<◌, ◌≡◌, refl, Bool, true, false, Option, none, some, List, [], ◌∷◌, arith, Bytes, str_eq,
  if◌then◌else◌, get-put,
}
use mathlib.Core.Option
use netbootd.GoStd.Ip.{Ip}
use netbootd.Manifest.Defs.{Manifest}
use netbootd.Manifest.HardwareAddr.{HardwareAddr, string}
use netbootd.Store.Defs.{Store, Ptr, ip_key, update, put_indexed, find, find_by_ip, find_by_mac}
use netbootd.Store.Macs.{has_key, get-put_macs}
use netbootd.Store.Invariant.{IsWellFormed}

-- The manifest that a lookup gives.
abbrev pub seen : Store → Option Ptr → Option Manifest
seen s o = Option.map s.heap.cell o

abbrev pub has_address : Manifest → Bool
has_address m = elim m.ipv4.ip [ none ↦ false | some _ ↦ true ]

-- The last manifest of a list that passes a test, or `old` if none does.
abbrev pub last_where : (Manifest → Bool) → List Manifest → Option Manifest → Option Manifest
last_where test [] old = old
last_where test (m ∷ ms) old = last_where test ms (if test m then some m else old)

abbrev pub with_id : Bytes → Manifest → Bool
with_id id m = str_eq m.id id

abbrev pub with_ip : Ip → Manifest → Bool
with_ip ip m = str_eq (ip_key m.ipv4.ip) (ip_key ip)

abbrev pub with_mac : HardwareAddr → Manifest → Bool
with_mac mac m = has_key (string mac) m.mac

-- The three lookups of a store, as manifests.
pub record Sees (s : Store) (ids : Bytes → Option Manifest) (ips : Ip → Option Manifest)
    (macs : HardwareAddr → Option Manifest) : Type 0 where
  pub by_id : (id : Bytes) → seen s (find s id) ≡ ids id
  pub by_ip : (ip : Ip) → seen s (find_by_ip s ip) ≡ ips ip
  pub by_mac : (mac : HardwareAddr) → seen s (find_by_mac s mac) ≡ macs mac

-- A pointer to the new manifest or an older one, after the new one has been allocated.
map-update :
    (cell : Ptr → Manifest) (next : Ptr) (m : Manifest) (b : Bool) (o : Option Ptr)
    → ((p : Ptr) → o ≡ some p → p < next)
    → Option.map (update cell next m) (if b then some next else o)
      ≡ (if b then some m else Option.map cell o)
map-update cell next m true o old = ground arith
map-update cell next m false none old = refl
map-update cell next m false (some p) old = ground (arith, old p refl)

module _ (s : Store) (m : Manifest) (w : IsWellFormed s) where
  pub seen-put_indexed :
      Sees
        (put_indexed s m)
        (λ id. if with_id id m then some m else seen s (find s id))
        (λ ip. if with_ip ip m then some m else seen s (find_by_ip s ip))
        (λ mac. if with_mac mac m then some m else seen s (find_by_mac s mac))
  unfolding put_indexed find find_by_ip find_by_mac
  seen-put_indexed = record {
    by_id = λ id.
        rw (get-put s.manifests m.id id s.heap.next)
          (map-update s.heap.cell s.heap.next m _ _ (λ p e. (w.ids id p e).0));
    by_ip = λ ip.
        rw (get-put s.ip (ip_key m.ipv4.ip) (ip_key ip) s.heap.next)
          (map-update s.heap.cell s.heap.next m _ _ (λ p e. (w.ips (ip_key ip) p e).0));
    by_mac = λ mac.
        rw (get-put_macs m.mac s.heap.next s.mac (string mac))
          (map-update s.heap.cell s.heap.next m _ _ (λ p e. (w.macs (string mac) p e).0));
  }
