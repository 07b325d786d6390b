-- ===== src/Store/Shared.antt =====
-- Two manifests with one address in store/store.go: what ForgetManifest of the one does to the other.
use netbootd.Prelude.{◌≡◌, ◌≢◌, refl, ap, sym, ◌∙◌, suc, none, some, arith}
use netbootd.Manifest.Defs.{Manifest}
use netbootd.Store.Defs.{
  Store, ip_key, put_indexed, put_manifest, forget_manifest, find, find_by_ip,
}
use netbootd.Store.Put.{
  IsStorable, put_manifest_of_IsStorable, find-put_manifest, find-put_manifest_ne,
}
use netbootd.Store.Invariant.{IsWellFormed, put_manifest-IsWellFormed}
use netbootd.Store.Forgotten.{find-forget_manifest, find_by-forget_manifest}

module _ (s : Store) (m m' : Manifest) (storable : IsStorable m) (storable' : IsStorable m')
    (other : m'.id ≢ m.id) (shared : ip_key m'.ipv4.ip ≡ ip_key m.ipv4.ip) where
  abbrev one : Store
  one = (put_manifest s m).1

  abbrev both : Store
  both = (put_manifest one m').1

  next_of_one : one.heap.next ≡ suc s.heap.next
  unfolding put_indexed
  next_of_one = ap (λ r. r.1.heap.next) (put_manifest_of_IsStorable s m storable)

  first_found : (find both m.id ≡ some s.heap.next) × (both.heap.cell s.heap.next ≡ m)
  first_found =
      let (found, _, _, cell) = find-put_manifest s m storable in
      let (ids, _, _, cells) = find-put_manifest_ne one m' storable' in
      (
        ids m.id (λ e. other (sym e)) ∙ found,
        cells s.heap.next (λ e. omega (arith, e, next_of_one)) ∙ cell,
      )

  address_forgotten : find_by_ip (forget_manifest both m.id).1 m.ipv4.ip ≡ none
  address_forgotten =
      let (found, cell) = first_found in
      ap (λ (n : Manifest). find_by_ip (forget_manifest both m.id).1 n.ipv4.ip) (sym cell)
      ∙ (find_by-forget_manifest both m.id s.heap.next found).0

  same_address :
      find_by_ip (forget_manifest both m.id).1 m'.ipv4.ip
      ≡ find_by_ip (forget_manifest both m.id).1 m.ipv4.ip
  unfolding find_by_ip
  same_address = rw shared refl

  -- Where two manifests with different IDs have the same address, ForgetManifest of the first one takes
  -- the address from the second one, which was put later: it stays under its ID, and the lookup by its
  -- address finds nothing.
  pub find_by_ip_shared :
      IsWellFormed s
      → let s' = (forget_manifest both m.id).1 in
        (find s' m'.id ≡ some one.heap.next) × (find_by_ip s' m'.ipv4.ip ≡ none)
  find_by_ip_shared w =
      let w2 = put_manifest-IsWellFormed one m' (put_manifest-IsWellFormed s m w) in
      (
        (find-forget_manifest both m.id w2).1 m'.id other ∙ (find-put_manifest one m' storable').0,
        same_address ∙ address_forgotten,
      )
