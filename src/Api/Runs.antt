-- ===== src/Api/Runs.antt =====
-- The handlers of api/server.go, and the loading of a directory, as steps on the store.
use netbootd.Prelude.{
  ◌<◌, ◌≡◌, refl, inl, inr, arith, Bool, true, false, Option, none, some, Bytes, bytes, Result, ok,
  err, ℕ, Bool-cases, str_eq,
}
use netbootd.GoStd.Ip.{Ip}
use netbootd.Manifest.Defs.{Manifest}
use netbootd.Store.Defs.{Store, Ptr, find_by_ip, put_manifest, forget_manifest}
use netbootd.Store.Forget.{forget_manifest_outcomes}
use netbootd.Store.Steps.{System, assign, put, look, forget, suspend, Reach, here, next, IsSound}
use netbootd.Store.Invariant.{IsWellFormed}
use netbootd.Api.Defs.{
  Env, Request, SelfAddress, refused, address, SelfManifest, missing, at, is_authorized,
  self_address, self_manifest_of, self_manifest_at, set_boot, malformed, stored,
  put_manifest_handler, delete_manifest, suspend_boot, unsuspend_boot, Route, manifest_get,
  manifests_get, manifest_put, manifest_delete, self_suspend, self_unsuspend, self_get, handle,
}
use netbootd.Api.Access.{self_get-same, at_ip-eq-at}
use netbootd.Api.Induction.{get_manifest-same, get_manifests-same}

-- A run of steps that ends in a store.
abbrev pub Runs : System → Store → Type 0
Runs x s = (y : System) × (Reach x y × (y.store ≡ s))

Runs-same : (x : System) → Runs x x.store
Runs-same x = (x, (here, refl))

pub put_manifest-Runs : (x : System) (m : Manifest) → Runs x (put_manifest x.store m).1
put_manifest-Runs x m = (_, (next here (put m), refl))

assign_self : (f : ℕ → Option Ptr) (i : ℕ) (v : Option Ptr) → assign f i v i ≡ v
assign_self f i v = ground arith

-- ForgetManifest with no other goroutine between its two locks.
forget_manifest-Runs : (x : System) (id : Bytes) → Runs x (forget_manifest x.store id).1
forget_manifest-Runs x id = elim (forget_manifest_outcomes x.store id) [
  | inl (_, e) ↦ rw e (Runs-same x)
  | inr (p, found, e) ↦ rw e (
    _,
    (next (next here (look 0 id p found)) (forget 0 p (assign_self x.waiting 0 (some p))), refl),
  )
]

found_allocated :
    (s : Store) (ip : Ip) (p : Ptr) → IsWellFormed s → find_by_ip s ip ≡ some p → p < s.heap.next
unfolding find_by_ip
found_allocated s ip p w h = (w.ips _ p h).0

self_manifest_of_allocated :
    (env : Env) (a : SelfAddress) (s : Store) (p : Ptr)
    → IsWellFormed s
    → self_manifest_of env a s ≡ at p
    → p < s.heap.next
unfolding self_manifest_of
self_manifest_of_allocated env (refused response) s p w h = absurd (cc)
self_manifest_of_allocated env (address ip_str) s p w h =
    found_allocated s (env.parse_ip ip_str) p w (at_ip-eq-at (env.parse_ip ip_str) ip_str s p h)

set_boot-Runs :
    (b : Bool) (m : SelfManifest) (x : System)
    → ((p : Ptr) → m ≡ at p → p < x.store.heap.next)
    → Runs x (set_boot b m x.store).1
unfolding set_boot
set_boot-Runs b (missing response) x h = Runs-same x
set_boot-Runs b (at p) x h = (_, (next here (suspend p b (h p refl)), refl))

self_manifest_at_allocated :
    (env : Env) (r : Request) (x : System) (p : Ptr)
    → IsSound x
    → self_manifest_at env r x.store ≡ at p
    → p < x.store.heap.next
unfolding self_manifest_at
self_manifest_at_allocated env r x p sound h =
    self_manifest_of_allocated env (self_address env r) x.store p sound.well_formed h

stored-same : (r : Option Bytes × Store) → (stored r).1 ≡ r.1
stored-same (none, s) = refl
stored-same (some e, s) = refl

malformed-Runs :
    (failure : Bytes) (r : Result Manifest) (x : System)
    → Runs x (malformed failure r (λ m. stored (put_manifest x.store m)) x.store).1
malformed-Runs failure (ok m) x = rw (stored-same (put_manifest x.store m)) (put_manifest-Runs x m)
malformed-Runs failure (err e) x = Runs-same x

put_manifest_handler-Runs :
    (env : Env) (r : Request) (x : System) → Runs x (put_manifest_handler env r x.store).1
unfolding put_manifest_handler
put_manifest_handler-Runs env r x = elim (Bool-cases (is_authorized env r)) [
  | inl a ↦ elim (Bool-cases (str_eq r.content_type (bytes "application/json"))) [
    | inl c ↦ rw (a, c) (malformed-Runs (bytes "error loading manifest from json: ") _ x)
    | inr c ↦ rw (a, c) (malformed-Runs (bytes "error loading manifest from yaml: ") _ x)
  ]
  | inr a ↦ rw a (Runs-same x)
]

delete_manifest-Runs :
    (env : Env) (r : Request) (x : System) → Runs x (delete_manifest env r x.store).1
unfolding delete_manifest
delete_manifest-Runs env r x = elim (Bool-cases (is_authorized env r)) [
  | inl a ↦ rw a (forget_manifest-Runs x r.id)
  | inr a ↦ rw a (Runs-same x)
]

-- Each API request, whatever its route, does to the store what some sequence of steps does.
pub handle-Runs :
    (route : Route) (env : Env) (r : Request) (x : System)
    → IsSound x
    → Runs x (handle route env r x.store).1
unfolding handle suspend_boot unsuspend_boot
handle-Runs manifest_get env r x sound = rw get_manifest-same (Runs-same x)
handle-Runs manifests_get env r x sound = rw get_manifests-same (Runs-same x)
handle-Runs manifest_put env r x sound = put_manifest_handler-Runs env r x
handle-Runs manifest_delete env r x sound = delete_manifest-Runs env r x
handle-Runs self_suspend env r x sound =
    set_boot-Runs true _ x (λ p. self_manifest_at_allocated env r x p sound)
handle-Runs self_unsuspend env r x sound =
    set_boot-Runs false _ x (λ p. self_manifest_at_allocated env r x p sound)
handle-Runs self_get env r x sound = rw (self_get-same env r x.store) (Runs-same x)
