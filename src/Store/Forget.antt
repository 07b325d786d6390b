-- ===== src/Store/Forget.antt =====
-- What Store.ForgetManifest of store/store.go does.
use netbootd.Prelude.{◌≡◌, refl, ◌⊎◌, inl, inr, none, some, arith, Bytes, get, Option-cases}
use netbootd.Store.Defs.{Store, Ptr, forget_found, forget_manifest, find}

-- ForgetManifest never fails. It changes nothing if no manifest has the ID, and else takes out what
-- the manifest found names.
pub forget_manifest_outcomes :
    (s : Store) (id : Bytes)
    → ((find s id ≡ none) × (forget_manifest s id ≡ (none, s)))
      ⊎ ((p : Ptr) × (find s id ≡ some p)
          × (forget_manifest s id ≡ (none, forget_found s (s.heap.cell p))))
unfolding find forget_manifest
forget_manifest_outcomes s id = elim (Option-cases (get s.manifests id)) [
  | inl e ↦ inl (e, rw e refl)
  | inr (p, e) ↦ inr (p, e, ground arith)
]
