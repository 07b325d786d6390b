-- ===== src/Store/Forgotten.antt =====
-- Lookups after Store.ForgetManifest of store/store.go.
use netbootd.Prelude.{
  ◌≡◌, ◌≢◌, refl, ap, inl, inr, none, some, arith, Bytes, In, get-delete_self, get-delete_ne,
}
use netbootd.Manifest.Defs.{Manifest}
use netbootd.Manifest.HardwareAddr.{HardwareAddr, string}
use mathlib.Core.Path.{subst}
use netbootd.Prelude.{suc, put, sym, ◌∙◌, get-put_self, get-put_ne}
use netbootd.Store.Defs.{
  Store, Ptr, ip_key, forget_found, forget_manifest, put_indexed, put_manifest, find, find_by_ip,
  find_by_mac,
}
use netbootd.Store.Macs.{get-delete_macs, has_key_of_In}
use netbootd.Store.Invariant.{IsWellFormed}
use netbootd.Store.Forget.{forget_manifest_outcomes}
use netbootd.Store.Put.{IsStorable, put_manifest_of_IsStorable}

module _ (s : Store) (m : Manifest) where
  find-forget_found :
      (find (forget_found s m) m.id ≡ none)
      × ((j : Bytes) → j ≢ m.id → find (forget_found s m) j ≡ find s j)
  unfolding find forget_found
  find-forget_found =
      (get-delete_self s.manifests m.id, λ j ne. get-delete_ne s.manifests m.id j ne)

  find_by-forget_found :
      (find_by_ip (forget_found s m) m.ipv4.ip ≡ none)
      × ((mac : HardwareAddr) → In mac m.mac → find_by_mac (forget_found s m) mac ≡ none)
  unfolding find_by_ip find_by_mac forget_found
  find_by-forget_found = (
    get-delete_self s.ip (ip_key m.ipv4.ip),
    λ mac i. ground (arith, get-delete_macs m.mac s.mac (string mac), has_key_of_In mac m.mac i),
  )

-- In a store whose entries have the keys of their manifests, after ForgetManifest the ID finds
-- nothing, and every other ID finds what it found before.
pub find-forget_manifest :
    (s : Store) (id : Bytes)
    → IsWellFormed s
    → (find (forget_manifest s id).1 id ≡ none)
      × ((j : Bytes) → j ≢ id → find (forget_manifest s id).1 j ≡ find s j)
unfolding find
find-forget_manifest s id w = elim (forget_manifest_outcomes s id) [
  | inl (e, q) ↦ rw q (e, λ j ne. refl)
  | inr (p, e, q) ↦ rw (q, ← (w.ids id p e).1) (unfold find in find-forget_found s (s.heap.cell p))
]

-- When the ID has a manifest, then after ForgetManifest neither the manifest's address nor any of
-- its hardware addresses finds anything.
pub find_by-forget_manifest :
    (s : Store) (id : Bytes) (p : Ptr)
    → find s id ≡ some p
    → (find_by_ip (forget_manifest s id).1 (s.heap.cell p).ipv4.ip ≡ none)
      × ((mac : HardwareAddr)
          → In mac (s.heap.cell p).mac
          → find_by_mac (forget_manifest s id).1 mac ≡ none)
find_by-forget_manifest s id p h = elim (forget_manifest_outcomes s id) [
  | inl (e, q) ↦ absurd (ground arith)
  | inr (p', e, q) ↦
      let same : p' ≡ p = ground arith in rw (q, same) (find_by-forget_found s (s.heap.cell p))
]

forget_manifest_of_find :
    (s : Store) (id : Bytes) (p : Ptr)
    → find s id ≡ some p
    → forget_manifest s id ≡ (none, forget_found s (s.heap.cell p))
forget_manifest_of_find s id p h = elim (forget_manifest_outcomes s id) [
  | inl (e, q) ↦ absurd (ground arith)
  | inr (p', e, q) ↦
      let same : p' ≡ p = ground arith in
      subst (λ r. forget_manifest s id ≡ (none, forget_found s (s.heap.cell r))) same q
]

module _ (s : Store) (m m' : Manifest) (same : m.id ≡ m'.id) where
  twice : Store
  twice = put_indexed (put_indexed s m) m'

  find-twice : find twice m'.id ≡ some (suc s.heap.next)
  unfolding twice put_indexed find
  find-twice = get-put_self (put s.manifests m.id s.heap.next) m'.id (suc s.heap.next)

  cell_twice : twice.heap.cell (suc s.heap.next) ≡ m'
  unfolding twice put_indexed
  cell_twice = ground arith

  forget_twice : (forget_manifest twice m.id).1 ≡ forget_found twice m'
  forget_twice =
      ap (λ r. r.1)
        (forget_manifest_of_find twice m.id (suc s.heap.next)
          (subst (λ k. find twice k ≡ some (suc s.heap.next)) (sym same) find-twice))
      ∙ ap (forget_found twice) cell_twice

  stale :
      ip_key m.ipv4.ip ≢ ip_key m'.ipv4.ip
      → (find (forget_found twice m') m.id ≡ none)
        × (find_by_ip (forget_found twice m') m.ipv4.ip ≡ some s.heap.next)
        × ((forget_found twice m').heap.cell s.heap.next ≡ m)
  unfolding twice put_indexed forget_found find find_by_ip
  stale ne = (
    rw same (get-delete_self _ m'.id),
    get-delete_ne _ (ip_key m'.ipv4.ip) (ip_key m.ipv4.ip) ne
        ∙ get-put_ne _ (ip_key m'.ipv4.ip) (ip_key m.ipv4.ip) (suc s.heap.next) ne
        ∙ get-put_self s.ip (ip_key m.ipv4.ip) s.heap.next,
    ground arith,
  )

-- A manifest that is replaced under its ID by one with another address stays reachable: PutManifest
-- of `m` and of `m'` with the same ID and another address, then ForgetManifest of that ID, leave
-- no manifest under the ID, and the lookup by the address of `m` gives `m`.
pub find_by_ip_stale :
    (s : Store) (m m' : Manifest)
    → IsStorable m
    → IsStorable m'
    → m.id ≡ m'.id
    → ip_key m.ipv4.ip ≢ ip_key m'.ipv4.ip
    → let s' = (forget_manifest (put_manifest (put_manifest s m).1 m').1 m.id).1 in
      (find s' m.id ≡ none)
      × (find_by_ip s' m.ipv4.ip ≡ some s.heap.next)
      × (s'.heap.cell s.heap.next ≡ m)
unfolding twice
find_by_ip_stale s m m' h h' same ne =
    rw
      (
        put_manifest_of_IsStorable s m h,
        put_manifest_of_IsStorable (put_indexed s m) m' h',
        forget_twice s m m' same,
      )
      (stale s m m' same ne)
