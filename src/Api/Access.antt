-- ===== src/Api/Access.antt =====
-- What a request without the configured Authorization header can do in api/server.go.
use netbootd.Prelude.{
  ◌≡◌, ◌≢◌, refl, ap, sym, ◌∙◌, ◌⊎◌, inl, inr, Bool, true, false, Option, none, some, arith, Bytes,
  bytes, str_eq_iff, str_eq_refl, ◌==◌, Bool-cases, Result,
}
use netbootd.GoStd.Ip.{Ip}
use netbootd.Store.Defs.{Store, Ptr, find_by_ip, set_suspended}
use netbootd.Api.Defs.{
  Env, Request, reply, forbidden, is_authorized, host_of, refused, address, self_address,
  SelfManifest, missing, at, at_ip, at_pointer, self_manifest_of, self_manifest_at, set_boot,
  encoded, whole_store, get_manifest, get_manifests, put_manifest_handler, delete_manifest,
  suspend_boot, unsuspend_boot, self_manifest, self_reply, Route, manifest_get, manifests_get,
  manifest_put, manifest_delete, self_suspend, self_unsuspend, self_get, handle,
}

-- The routes of /api/manifests.
abbrev pub is_privileged : Route → Bool
is_privileged self_suspend = false
is_privileged self_unsuspend = false
is_privileged self_get = false
is_privileged _ = true

denied :
    (env : Env) (r : Request) → r.authorization ≢ env.authorization → is_authorized env r ≡ false
denied env r h = ground (arith, str_eq_iff env.authorization r.authorization)

-- Without the configured Authorization header every route of /api/manifests answers 403 and leaves
-- the store as it is.
pub handle_unauthorised :
    (route : Route) (env : Env) (r : Request) (s : Store)
    → is_privileged route ≡ true
    → r.authorization ≢ env.authorization
    → handle route env r s ≡ (forbidden, s)
unfolding handle get_manifest get_manifests put_manifest_handler delete_manifest
handle_unauthorised manifest_get env r s p h = rw (denied env r h) refl
handle_unauthorised manifests_get env r s p h = rw (denied env r h) refl
handle_unauthorised manifest_put env r s p h = rw (denied env r h) refl
handle_unauthorised manifest_delete env r s p h = rw (denied env r h) refl
handle_unauthorised self_suspend env r s p h = cc
handle_unauthorised self_unsuspend env r s p h = cc
handle_unauthorised self_get env r s p h = cc

-- The store after differs from the store before at most in `suspended` of the manifest that has the
-- address of the requester's connection.
pub record IsOwnBoot (env : Env) (r : Request) (s s' : Store) : Type 0 where
  pub config : s'.config ≡ s.config
  pub global_hints : s'.global_hints ≡ s.global_hints
  pub manifests : s'.manifests ≡ s.manifests
  pub ip : s'.ip ≡ s.ip
  pub mac : s'.mac ≡ s.mac
  pub next : s'.heap.next ≡ s.heap.next
  pub cell :
      (p : Ptr)
      → (s'.heap.cell p ≡ s.heap.cell p)
        ⊎ ((find_by_ip s (env.parse_ip (host_of (env.split_host_port r.remote_addr))) ≡ some p)
            × ((b : Bool) × (s'.heap.cell p ≡ record (s.heap.cell p) { suspended = b })))

IsOwnBoot-same : (env : Env) (r : Request) (s : Store) → IsOwnBoot env r s s
IsOwnBoot-same env r s = record {
  config = refl;
  global_hints = refl;
  manifests = refl;
  ip = refl;
  mac = refl;
  next = refl;
  cell = λ p. inl refl;
}

-- Without the header, the /api/self routes act for the address of the connection or refuse.
self_address_anonymous :
    (env : Env) (r : Request)
    → r.authorization ≢ env.authorization
    → (self_address env r ≡ refused forbidden)
      ⊎ (self_address env r ≡ address (host_of (env.split_host_port r.remote_addr)))
unfolding self_address
self_address_anonymous env r h = ground (arith, denied env r h)

at_pointer-eq-at : (o : Option Ptr) (p : Ptr) → at_pointer o ≡ at p → o ≡ some p
at_pointer-eq-at none p h = cc
at_pointer-eq-at (some q) p h = cc

pub at_ip-eq-at :
    (ip : Ip) (ip_str : Bytes) (s : Store) (p : Ptr)
    → at_ip ip ip_str s ≡ at p
    → find_by_ip s ip ≡ some p
at_ip-eq-at none ip_str s p h = cc
at_ip-eq-at (some b) ip_str s p h = at_pointer-eq-at (find_by_ip s (some b)) p h

self_manifest_at_anonymous :
    (env : Env) (r : Request) (s : Store) (p : Ptr)
    → r.authorization ≢ env.authorization
    → self_manifest_at env r s ≡ at p
    → find_by_ip s (env.parse_ip (host_of (env.split_host_port r.remote_addr))) ≡ some p
unfolding self_manifest_at
self_manifest_at_anonymous env r s p h e = elim (self_address_anonymous env r h) [
  | inl q ↦ absurd (cc (ap (λ a. self_manifest_of env a s) q))
  | inr q ↦ at_ip-eq-at _ _ s p (sym (ap (λ a. self_manifest_of env a s) q) ∙ e)
]

set_suspended-IsOwnBoot :
    (env : Env) (r : Request) (s : Store) (p : Ptr) (b : Bool)
    → find_by_ip s (env.parse_ip (host_of (env.split_host_port r.remote_addr))) ≡ some p
    → IsOwnBoot env r s (set_suspended s p b)
unfolding set_suspended
set_suspended-IsOwnBoot env r s p b h = record {
  config = refl;
  global_hints = refl;
  manifests = refl;
  ip = refl;
  mac = refl;
  next = refl;
  cell = λ q. elim (Bool-cases (p == q)) [
    | inl e ↦ inr (ground arith, (b, ground arith))
    | inr e ↦ inl (ground arith)
  ];
}

set_boot-IsOwnBoot :
    (env : Env) (r : Request) (s : Store) (b : Bool) (m : SelfManifest)
    → self_manifest_at env r s ≡ m
    → r.authorization ≢ env.authorization
    → IsOwnBoot env r s (set_boot b m s).1
unfolding set_boot
set_boot-IsOwnBoot env r s b (missing response) e h = IsOwnBoot-same env r s
set_boot-IsOwnBoot env r s b (at p) e h =
    set_suspended-IsOwnBoot env r s p b (self_manifest_at_anonymous env r s p h e)

self_reply-same :
    (env : Env) (r : Request) (m : SelfManifest) (s : Store) → (self_reply env r m s).1 ≡ s
unfolding self_reply
self_reply-same env r (missing response) s = refl
self_reply-same env r (at p) s = refl

pub self_get-same : (env : Env) (r : Request) (s : Store) → (handle self_get env r s).1 ≡ s
unfolding handle self_manifest
self_get-same env r s = self_reply-same env r (self_manifest_at env r s) s

-- Whatever the route, a request without the configured Authorization header changes nothing in the
-- store but, at most, `suspended` of the manifest at the address of its connection: a spoofed
-- address has no effect.
pub handle_anonymous :
    (route : Route) (env : Env) (r : Request) (s : Store)
    → r.authorization ≢ env.authorization
    → IsOwnBoot env r s (handle route env r s).1
handle_anonymous self_suspend env r s h =
    unfold handle suspend_boot in set_boot-IsOwnBoot env r s true _ refl h
handle_anonymous self_unsuspend env r s h =
    unfold handle unsuspend_boot in set_boot-IsOwnBoot env r s false _ refl h
handle_anonymous self_get env r s h = rw (self_get-same env r s) (IsOwnBoot-same env r s)
handle_anonymous manifest_get env r s h =
    rw (handle_unauthorised manifest_get env r s refl h) (IsOwnBoot-same env r s)
handle_anonymous manifests_get env r s h =
    rw (handle_unauthorised manifests_get env r s refl h) (IsOwnBoot-same env r s)
handle_anonymous manifest_put env r s h =
    rw (handle_unauthorised manifest_put env r s refl h) (IsOwnBoot-same env r s)
handle_anonymous manifest_delete env r s h =
    rw (handle_unauthorised manifest_delete env r s refl h) (IsOwnBoot-same env r s)

encoded_elsewhere :
    (r : Request) (f g : Bytes) (json yaml : Result Bytes) (content_type b : Bytes)
    → encoded r f json yaml ≡ reply 200 content_type b
    → encoded r g json yaml ≡ reply 200 content_type b
unfolding encoded
encoded_elsewhere r f g json yaml content_type b h = ground arith

whole_store_of_get_manifests :
    (env : Env) (r : Request) (s : Store) (content_type b : Bytes)
    → get_manifests env (record r { authorization = env.authorization }) s
      ≡ (reply 200 content_type b, s)
    → whole_store env r (bytes "error marshalling manifests: ") s ≡ reply 200 content_type b
unfolding get_manifests encoded
whole_store_of_get_manifests env r s content_type b h =
    ap (λ q. q.0) (rw (str_eq_refl env.authorization) at h)

-- GET /api/self/manifest hands the whole store to any host that has a manifest: what GET
-- /api/manifests answers with the header, this route answers without it.
pub self_manifest_leaks :
    (env : Env) (r : Request) (s : Store) (p : Ptr) (content_type b : Bytes)
    → self_manifest_at env r s ≡ at p
    → get_manifests env (record r { authorization = env.authorization }) s
      ≡ (reply 200 content_type b, s)
    → self_manifest env r s ≡ (reply 200 content_type b, s)
unfolding self_manifest
self_manifest_leaks env r s p content_type b found h =
    ap (λ m. self_reply env r m s) found
    ∙ ap (λ q. (q, s))
        (encoded_elsewhere r _ (bytes "error marshalling manifest: ") _ _ content_type b
          (whole_store_of_get_manifests env r s content_type b h))
