-- ===== src/Store/Put.antt =====
-- What Store.PutManifest of store/store.go does on each branch, and what it leaves alone.
use netbootd.Prelude.{
  ◌≡◌, ◌≢◌, refl, ap, ◌⊎◌, inl, inr, false, none, some, [], arith, Bytes, In, str_eq, str_eq_iff,
  get-put_self, get-put_ne, bytes, Option-cases, Bool-cases,
}
use netbootd.GoStd.Ip.{Ip}
use netbootd.Manifest.Defs.{Manifest}
use netbootd.Manifest.HardwareAddr.{HardwareAddr, string}
use netbootd.Store.Defs.{
  Store, Ptr, ip_key, put_indexed, put_manifest, find, find_by_ip, find_by_mac,
}
use netbootd.Store.Macs.{has_key, get-put_macs, has_key_of_In}

-- What PutManifest asks of a manifest.
abbrev pub IsStorable : Manifest → Type 0
IsStorable m = (m.ipv4.ip ≢ none) × (m.id ≢ [])

pub put_manifest_of_IsStorable :
    (s : Store) (m : Manifest) → IsStorable m → put_manifest s m ≡ (none, put_indexed s m)
unfolding put_manifest
put_manifest_of_IsStorable s m h = ground (arith, str_eq_iff m.id [])

-- PutManifest has two outcomes. A manifest with an IPv4 address and an ID is stored without an
-- error, and any other is refused with an error that leaves the store as it was.
pub put_manifest_outcomes :
    (s : Store) (m : Manifest)
    → (IsStorable m × (put_manifest s m ≡ (none, put_indexed s m)))
      ⊎ ((¬ IsStorable m) × ((e : Bytes) × (put_manifest s m ≡ (some e, s))))
unfolding put_manifest
put_manifest_outcomes s m = elim (Option-cases m.ipv4.ip) [
  | inl nil ↦ inr ((λ h. h.0 nil), (bytes "no IPv4 address provided", rw nil refl))
  | inr (a, ip) ↦ elim (Bool-cases (str_eq m.id [])) [
    | inl empty ↦ inr (
      (λ h. h.1 ((str_eq_iff m.id []).0 empty)),
      (bytes "ID cannot be null", rw (ip, empty) refl),
    )
    | inr full ↦
        let h : IsStorable m = (ground arith, ground (arith, str_eq_iff m.id [])) in
        inl (h, put_manifest_of_IsStorable s m h)
  ]
]

module _ (s : Store) (m : Manifest) (storable : IsStorable m) where
  pub stored : (put_manifest s m).1 ≡ put_indexed s m
  stored = ap (λ r. r.1) (put_manifest_of_IsStorable s m storable)

  -- After PutManifest of a manifest with an address and an ID, the lookups by that ID, by that
  -- address and by each of its hardware addresses give one pointer, and it points to the manifest.
  pub find-put_manifest :
      (find (put_manifest s m).1 m.id ≡ some s.heap.next)
      × (find_by_ip (put_manifest s m).1 m.ipv4.ip ≡ some s.heap.next)
      × ((mac : HardwareAddr)
          → In mac m.mac
          → find_by_mac (put_manifest s m).1 mac ≡ some s.heap.next)
      × ((put_manifest s m).1.heap.cell s.heap.next ≡ m)
  unfolding find find_by_ip find_by_mac put_indexed
  find-put_manifest = rw stored (
    get-put_self s.manifests m.id s.heap.next,
    get-put_self s.ip (ip_key m.ipv4.ip) s.heap.next,
    (λ mac i.
        ground
          (arith, get-put_macs m.mac s.heap.next s.mac (string mac), has_key_of_In mac m.mac i)),
    ground arith,
  )

  -- The other lookups are what they were: by another ID, by an address with another key, and by a
  -- hardware address that is not written like one of the manifest's. No older manifest changes.
  pub find-put_manifest_ne :
      ((id : Bytes) → id ≢ m.id → find (put_manifest s m).1 id ≡ find s id)
      × ((ip : Ip)
          → ip_key ip ≢ ip_key m.ipv4.ip
          → find_by_ip (put_manifest s m).1 ip ≡ find_by_ip s ip)
      × ((mac : HardwareAddr)
          → has_key (string mac) m.mac ≡ false
          → find_by_mac (put_manifest s m).1 mac ≡ find_by_mac s mac)
      × ((p : Ptr) → p ≢ s.heap.next → (put_manifest s m).1.heap.cell p ≡ s.heap.cell p)
  unfolding find find_by_ip find_by_mac put_indexed
  find-put_manifest_ne = rw stored (
    (λ id ne. get-put_ne s.manifests m.id id s.heap.next ne),
    (λ ip ne. get-put_ne s.ip (ip_key m.ipv4.ip) (ip_key ip) s.heap.next ne),
    (λ mac ne. ground (arith, get-put_macs m.mac s.heap.next s.mac (string mac))),
    (λ p ne. ground arith),
  )
