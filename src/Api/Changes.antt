-- ===== src/Api/Changes.antt =====
-- Which requests to api/server.go can change what the lookups of the store give.
use netbootd.Prelude.{
  ◌≡◌, ◌≢◌, refl, ap, ◌∙◌, ◌⊎◌, inl, inr, Bool, true, false, List, [], ◌∷◌, arith, Bytes, bytes,
  ◌==◌, Bool-cases, In, All,
}
use netbootd.Manifest.Defs.{Manifest}
use netbootd.Store.Defs.{Store, Ptr, set_suspended}
use netbootd.Api.Defs.{
  Env, Request, Route, SelfManifest, missing, at, set_boot, suspend_boot, unsuspend_boot,
  manifest_get, manifests_get, manifest_put, manifest_delete, self_suspend, self_unsuspend,
  self_get, handle,
}
use netbootd.Api.Access.{IsOwnBoot, handle_anonymous, self_get-same}
use netbootd.Api.Induction.{get_manifest-same, get_manifests-same}
use netbootd.Api.Router.{
  Registered, registered, Dispatched, found, unrouted, Mux, MatchesMethods, Call, serve_dispatched,
  serve_call, serve_calls,
}

-- The two stores differ at most in `suspended` of their manifests.
pub record IsBootOnly (s s' : Store) : Type 0 where
  pub manifests : s'.manifests ≡ s.manifests
  pub ip : s'.ip ≡ s.ip
  pub mac : s'.mac ≡ s.mac
  pub next : s'.heap.next ≡ s.heap.next
  pub cell : (p : Ptr) → (b : Bool) × (s'.heap.cell p ≡ record (s.heap.cell p) { suspended = b })

IsBootOnly-same : (s : Store) → IsBootOnly s s
IsBootOnly-same s = record {
  manifests = refl;
  ip = refl;
  mac = refl;
  next = refl;
  cell = λ p. ((s.heap.cell p).suspended, refl);
}

IsBootOnly-trans : (s t u : Store) → IsBootOnly s t → IsBootOnly t u → IsBootOnly s u
IsBootOnly-trans s t u h k = record {
  manifests = k.manifests ∙ h.manifests;
  ip = k.ip ∙ h.ip;
  mac = k.mac ∙ h.mac;
  next = k.next ∙ h.next;
  cell = λ p.
      let (b, e) = h.cell p in
      let (c, q) = k.cell p in (c, q ∙ ap (λ (m : Manifest). record m { suspended = c }) e);
}

IsOwnBoot-IsBootOnly :
    (env : Env) (r : Request) (s s' : Store) → IsOwnBoot env r s s' → IsBootOnly s s'
IsOwnBoot-IsBootOnly env r s s' h = record {
  manifests = h.manifests;
  ip = h.ip;
  mac = h.mac;
  next = h.next;
  cell = λ p. elim (h.cell p) [
    | inl same ↦ ((s.heap.cell p).suspended, same)
    | inr (_, changed) ↦ changed
  ];
}

set_suspended-IsBootOnly : (s : Store) (p : Ptr) (b : Bool) → IsBootOnly s (set_suspended s p b)
unfolding set_suspended
set_suspended-IsBootOnly s p b = record {
  manifests = refl;
  ip = refl;
  mac = refl;
  next = refl;
  cell = λ q. elim (Bool-cases (p == q)) [
    | inl e ↦ (b, ground arith)
    | inr e ↦ ((s.heap.cell q).suspended, ground arith)
  ];
}

set_boot-IsBootOnly : (b : Bool) (m : SelfManifest) (s : Store) → IsBootOnly s (set_boot b m s).1
unfolding set_boot
set_boot-IsBootOnly b (missing response) s = IsBootOnly-same s
set_boot-IsBootOnly b (at p) s = set_suspended-IsBootOnly s p b

-- Without the header, or by another method than PUT and DELETE.
abbrev pub IsHarmless : Env → Call → Type 0
IsHarmless env call =
    (call.request.authorization ≢ env.authorization)
    ⊎ ((call.method ≢ bytes "PUT") × (call.method ≢ bytes "DELETE"))

abbrev is_reading : Route → Bool
is_reading manifest_put = false
is_reading manifest_delete = false
is_reading _ = true

-- Every registered route but those of PUT and DELETE is one of the others.
registered-is_reading :
    (f : Registered) (method : Bytes)
    → In f registered
    → In method f.methods
    → (method ≢ bytes "PUT") × (method ≢ bytes "DELETE")
    → is_reading f.route ≡ true
registered-is_reading f method (inl e) j h = rw e refl
registered-is_reading f method (inr (inl e)) j h = rw e refl
registered-is_reading f method (inr (inr (inl e))) j h =
    absurd (elim (rw e at j) [ inl q ↦ h.0 q | inr q ↦ q ])
registered-is_reading f method (inr (inr (inr (inl e)))) j h =
    absurd (elim (rw e at j) [ inl q ↦ h.1 q | inr q ↦ q ])
registered-is_reading f method (inr (inr (inr (inr (inl e))))) j h = rw e refl
registered-is_reading f method (inr (inr (inr (inr (inr (inl e)))))) j h = rw e refl
registered-is_reading f method (inr (inr (inr (inr (inr (inr (inl e))))))) j h = rw e refl
registered-is_reading f method (inr (inr (inr (inr (inr (inr (inr e))))))) j h = absurd e

handle_reading :
    (route : Route) (env : Env) (r : Request) (s : Store)
    → is_reading route ≡ true
    → IsBootOnly s (handle route env r s).1
unfolding handle suspend_boot unsuspend_boot
handle_reading manifest_get env r s h = rw (get_manifest-same env r s) (IsBootOnly-same s)
handle_reading manifests_get env r s h = rw (get_manifests-same env r s) (IsBootOnly-same s)
handle_reading manifest_put env r s h = absurd (cc)
handle_reading manifest_delete env r s h = absurd (cc)
handle_reading self_suspend env r s h = set_boot-IsBootOnly true _ s
handle_reading self_unsuspend env r s h = set_boot-IsBootOnly false _ s
handle_reading self_get env r s h = rw (self_get-same env r s) (IsBootOnly-same s)

module _ (mux : Mux) (env : Env) (matches : MatchesMethods mux) where
  serve_dispatched-IsBootOnly :
      (d : Dispatched) (call : Call) (s : Store)
      → mux registered call.path call.method ≡ d
      → IsHarmless env call
      → IsBootOnly s (serve_dispatched env d call.request s).1
  unfolding serve_dispatched
  serve_dispatched-IsBootOnly (unrouted response) call s e h = IsBootOnly-same s
  serve_dispatched-IsBootOnly (found f id) call s e (inl anonymous) =
      let r = record call.request { id = id } in
      IsOwnBoot-IsBootOnly env r s _ (handle_anonymous f.route env r s anonymous)
  serve_dispatched-IsBootOnly (found f id) call s e (inr other) =
      let (i, j) = matches registered call.path call.method f id e in
      handle_reading f.route env (record call.request { id = id }) s
        (registered-is_reading f call.method i j other)

  -- Whatever sequence of requests the API serves, of which none is a PUT or a DELETE with the
  -- configured Authorization header: no lookup of the store changes, and no manifest but in its
  -- Suspended, if mux finds only registered routes, and only for their methods.
  pub serve_calls_harmless :
      (calls : List Call) (s : Store)
      → All (IsHarmless env) calls
      → IsBootOnly s (serve_calls mux env calls s)
  unfolding serve_calls serve_call
  serve_calls_harmless [] s h = IsBootOnly-same s
  serve_calls_harmless (call ∷ calls) s (first, others) =
      IsBootOnly-trans s _ _
        (serve_dispatched-IsBootOnly (mux registered call.path call.method) call s refl first)
        (serve_calls_harmless calls _ others)
