-- ===== src/Store/Race.antt =====
-- The gap between the two locks of ForgetManifest in store/store.go.
use netbootd.Prelude.{
  ℕ, ◌<◌, ◌≡◌, ◌≢◌, ap, sym, ◌∙◌, arith, none, some, Bytes, get-delete_self, get-delete_ne,
  get-put_self,
}
use netbootd.Manifest.Defs.{Manifest}
use netbootd.Store.Defs.{Store, Ptr, ip_key, put_indexed, forget_found, find, find_by_ip}
use netbootd.Store.Put.{IsStorable, put_manifest_of_IsStorable}
use netbootd.Store.Invariant.{IsWellFormed}
use netbootd.Store.Steps.{System, Step, look, forget, Reach, here, next, IsSound}

-- What the second part of ForgetManifest leaves of a manifest put in between.
module _ (s : Store) (p : Ptr) (m : Manifest) (lt : p < s.heap.next)
    (same : m.id ≡ (s.heap.cell p).id) where
  cell_between : (put_indexed s m).heap.cell p ≡ s.heap.cell p
  unfolding put_indexed
  cell_between = ground arith

  forgotten_between :
      ip_key m.ipv4.ip ≢ ip_key (s.heap.cell p).ipv4.ip
      → (find (forget_found (put_indexed s m) (s.heap.cell p)) m.id ≡ none)
        × ((find_by_ip (forget_found (put_indexed s m) (s.heap.cell p)) m.ipv4.ip
              ≡ some s.heap.next)
            × ((forget_found (put_indexed s m) (s.heap.cell p)).heap.cell s.heap.next ≡ m))
  unfolding find find_by_ip forget_found put_indexed
  forgotten_between ne = (
    rw same (get-delete_self _ (s.heap.cell p).id),
    (
      get-delete_ne _ (ip_key (s.heap.cell p).ipv4.ip) (ip_key m.ipv4.ip) ne
          ∙ get-put_self s.ip (ip_key m.ipv4.ip) s.heap.next,
      ground arith,
    ),
  )

found_id :
    (s : Store) (id : Bytes) (p : Ptr)
    → IsWellFormed s
    → find s id ≡ some p
    → (p < s.heap.next) × ((s.heap.cell p).id ≡ id)
unfolding find
found_id s id p w found = w.ids id p found

-- A DELETE of an ID can drop a manifest that is put under that ID, with another address, while the
-- DELETE waits for its second lock: some interleaving leaves no manifest under the ID, and the lookup
-- by the new address gives the new manifest.
pub forget_race :
    (x : System) (i : ℕ) (p : Ptr) (m : Manifest)
    → IsSound x
    → find x.store m.id ≡ some p
    → IsStorable m
    → ip_key m.ipv4.ip ≢ ip_key (x.store.heap.cell p).ipv4.ip
    → (y : System) × (Reach x y
        × ((find y.store m.id ≡ none)
            × ((find_by_ip y.store m.ipv4.ip ≡ some x.store.heap.next)
                × (y.store.heap.cell x.store.heap.next ≡ m))))
forget_race x i p m sound found storable ne =
    let s = x.store in
    let (lt, same) = found_id s m.id p sound.well_formed found in
    let stored = ap (λ r. r.1) (put_manifest_of_IsStorable s m storable) in
    (
      _,
      (
        next (next (next here (look i m.id p found)) (Step.put m)) (forget i p (ground arith)),
        rw (stored, cell_between s p m lt (sym same)) (forgotten_between s p m lt (sym same) ne),
      ),
    )
