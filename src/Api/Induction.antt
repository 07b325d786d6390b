-- ===== src/Api/Induction.antt =====
-- What PutManifest, ForgetManifest and an assignment to Suspended keep of the store, the handlers of
-- api/server.go keep.
use netbootd.Prelude.{
  ◌≡◌, refl, Bool, true, false, ◌⊎◌, Option, none, some, List, [], ◌∷◌, Bytes, Result, ok, err,
  arith, Bool-cases, inl, inr, str_eq, bytes,
}
use netbootd.Manifest.Defs.{Manifest}
use netbootd.Manifest.Io.{manifest_from_yaml, manifest_from_json}
use netbootd.Store.Defs.{Store, Ptr, put_manifest, forget_manifest, set_suspended}
use netbootd.Api.Defs.{
  Env, Request, Response, SelfManifest, missing, at, is_authorized, set_boot, malformed, stored,
  get_manifest, get_manifests, put_manifest_handler, delete_manifest, suspend_boot, unsuspend_boot,
  Route, manifest_get, manifests_get, manifest_put, manifest_delete, self_suspend, self_unsuspend,
  self_get, handle, serve,
}
use netbootd.Api.Access.{self_get-same}

pub get_manifest-same : (env : Env) (r : Request) (s : Store) → (get_manifest env r s).1 ≡ s
unfolding get_manifest
get_manifest-same env r s = ground arith

pub get_manifests-same : (env : Env) (r : Request) (s : Store) → (get_manifests env r s).1 ≡ s
unfolding get_manifests
get_manifests-same env r s = ground arith

-- A manifest that a PUT reads from some body.
abbrev pub IsPut : Env → Manifest → Type 0
IsPut env m =
    (b : Bytes) × ((manifest_from_json env.json.unmarshal b env.root_path ≡ ok m)
      ⊎ (manifest_from_yaml env.yaml.unmarshal b env.root_path ≡ ok m))

module _ (env : Env) (Q : Store → Type 0)
    (put : (s : Store) (m : Manifest) → IsPut env m → Q s → Q (put_manifest s m).1)
    (forget : (s : Store) (id : Bytes) → Q s → Q (forget_manifest s id).1)
    (suspend : (s : Store) (p : Ptr) (b : Bool) → Q s → Q (set_suspended s p b)) where
  -- A handler's result whose store has the property.
  record Keeps (x : Response × Store) : Type 0 where
    kept : Q x.1

  stored_keeps : (r : Option Bytes × Store) → Q r.1 → Q (stored r).1
  stored_keeps (none, s) h = h
  stored_keeps (some e, s) h = h

  malformed-Keeps :
      (failure : Bytes) (r : Result Manifest) (s : Store)
      → ((m : Manifest) → r ≡ ok m → IsPut env m)
      → Q s
      → Keeps (malformed failure r (λ m. stored (put_manifest s m)) s)
  malformed-Keeps failure (ok m) s is h = record {
    kept = stored_keeps (put_manifest s m) (put s m (is m refl) h);
  }
  malformed-Keeps failure (err e) s is h = record { kept = h }

  put_manifest_handler-Keeps :
      (r : Request) (s : Store) → Q s → Keeps (put_manifest_handler env r s)
  unfolding put_manifest_handler
  put_manifest_handler-Keeps r s h = elim (Bool-cases (is_authorized env r)) [
    | inl a ↦ elim (Bool-cases (str_eq r.content_type (bytes "application/json"))) [
      | inl c ↦
          rw (a, c)
            (malformed-Keeps (bytes "error loading manifest from json: ") _ s
              (λ m e. (r.body, inl e)) h)
      | inr c ↦
          rw (a, c)
            (malformed-Keeps (bytes "error loading manifest from yaml: ") _ s
              (λ m e. (r.body, inr e)) h)
    ]
    | inr a ↦ rw a (record { kept = h })
  ]

  delete_manifest-Keeps : (r : Request) (s : Store) → Q s → Keeps (delete_manifest env r s)
  unfolding delete_manifest
  delete_manifest-Keeps r s h = elim (Bool-cases (is_authorized env r)) [
    | inl a ↦ rw a (record { kept = forget s r.id h })
    | inr a ↦ rw a (record { kept = h })
  ]

  set_boot_keeps : (b : Bool) (m : SelfManifest) (s : Store) → Q s → Q (set_boot b m s).1
  unfolding set_boot
  set_boot_keeps b (missing response) s h = h
  set_boot_keeps b (at p) s h = suspend s p b h

  pub handle_induction :
      (route : Route) (r : Request) (s : Store) → Q s → Q (handle route env r s).1
  unfolding handle suspend_boot unsuspend_boot
  handle_induction manifest_get r s h = rw (get_manifest-same env r s) h
  handle_induction manifests_get r s h = rw (get_manifests-same env r s) h
  handle_induction manifest_put r s h = (put_manifest_handler-Keeps r s h).kept
  handle_induction manifest_delete r s h = (delete_manifest-Keeps r s h).kept
  handle_induction self_suspend r s h = set_boot_keeps true _ s h
  handle_induction self_unsuspend r s h = set_boot_keeps false _ s h
  handle_induction self_get r s h = rw (self_get-same env r s) h

  pub serve_induction : (s : Store) (calls : List (Route × Request)) → Q s → Q (serve env s calls)
  unfolding serve
  serve_induction s [] h = h
  serve_induction s ((route, r) ∷ calls) h =
      serve_induction (handle route env r s).1 calls (handle_induction route r s h)
