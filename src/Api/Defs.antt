-- ===== src/Api/Defs.antt =====
-- api/server.go: the handlers that NewServer registers, one function each, from a request and the
-- store to the response and the store. gorilla/mux chooses the route, and is not modelled: a route
-- is a constructor of `Route`, and `{id}` is a field of the request. The YAML and JSON packages,
-- net.SplitHostPort and net.ParseIP are parameters, the fields of `Env`.
use netbootd.Prelude.{
  ℕ, Bool, true, false, not, Option, none, some, List, [], ◌∷◌, ◌++◌, map, Bytes, bytes, str_eq,
  if◌then◌else◌, Result, ok, err,
}
use netbootd.GoStd.Strings.{contains}
use netbootd.GoStd.Ip.{Ip}
use netbootd.Manifest.Defs.{Manifest}
use netbootd.Manifest.Io.{manifest_from_yaml, manifest_from_json}
use netbootd.Store.Defs.{
  Store, Ptr, find, find_by_ip, get_all, put_manifest, forget_manifest, set_suspended,
}

-- An encoding package: yaml.v2 or encoding/json.
pub record Codec : Type 0 where
  pub marshal : Manifest → Result Bytes
  pub marshal_all : List (Bytes × Manifest) → Result Bytes
  pub unmarshal : Bytes → Result Manifest

-- What the handlers close over, and the library functions that they call.
pub record Env : Type 0 where
  pub authorization : Bytes
  pub root_path : Bytes
  pub yaml : Codec
  pub json : Codec
  pub split_host_port : Bytes → Result (Bytes × Bytes)
  pub parse_ip : Bytes → Ip

-- A missing header is the empty string, as r.Header.Get has it; `query` holds the values of each
-- key of the URL's query, and none for a missing key.
pub record Request : Type 0 where
  pub authorization : Bytes
  pub accept : Bytes
  pub content_type : Bytes
  pub id : Bytes
  pub query : Bytes → List Bytes
  pub remote_addr : Bytes
  pub body : Bytes

-- http.Error, or a status with a content type and a body.
pub data Response : Type 0 where
  error : Bytes → ℕ → Response
  reply : ℕ → Bytes → Bytes → Response

abbrev pub forbidden : Response
forbidden = error (bytes "Forbidden") 403

abbrev pub not_found : Response
not_found = error (bytes "not found") 404

-- queryFirst
unfoldable pub query_first : Request → Bytes → Bytes
query_first r k = elim (r.query k) [ [] ↦ [] | key ∷ _ ↦ key ]

abbrev pub is_authorized : Env → Request → Bool
is_authorized env r = str_eq env.authorization r.authorization

abbrev pub marshalled : Bytes → Bytes → Result Bytes → Response
marshalled failure content_type (ok b) = reply 200 content_type b
marshalled failure content_type (err e) = error (failure ++ e) 500

-- The end of the three GET handlers: the encoding follows the Accept header.
unfoldable pub encoded : Request → Bytes → Result Bytes → Result Bytes → Response
encoded r failure json yaml =
    if contains r.accept (bytes "application/json")
    then marshalled failure (bytes "applications/json") json
    else marshalled failure (bytes "text/yaml") yaml

-- The manifests that the map of GetAll points to, by ID.
unfoldable pub all_manifests : Store → List (Bytes × Manifest)
all_manifests s = map (λ e. (e.0, s.heap.cell e.1)) (get_all s).entries

-- GET /api/manifests/{id}
unfoldable pub get_manifest : Env → Request → Store → Response × Store
get_manifest env r s = if not (is_authorized env r) then (forbidden, s) else elim (find s r.id) [
  | none ↦ (not_found, s)
  | some p ↦
      let m = s.heap.cell p in
      (
        encoded r (bytes "error marshalling manifest: ") (env.json.marshal m) (env.yaml.marshal m),
        s,
      )
]

abbrev pub whole_store : Env → Request → Bytes → Store → Response
whole_store env r failure s =
    encoded r failure (env.json.marshal_all (all_manifests s))
      (env.yaml.marshal_all (all_manifests s))

-- GET /api/manifests
unfoldable pub get_manifests : Env → Request → Store → Response × Store
get_manifests env r s =
    if not (is_authorized env r)
    then (forbidden, s)
    else (whole_store env r (bytes "error marshalling manifests: ") s, s)

-- The manifest in the body of a PUT, or the response to a malformed one.
abbrev pub malformed :
    Bytes → Result Manifest → (Manifest → Response × Store) → Store → Response × Store
malformed failure (ok m) k s = k m
malformed failure (err e) k s = (error (failure ++ e) 400, s)

abbrev pub stored : Option Bytes × Store → Response × Store
stored (none, s) = (reply 201 [] [], s)
stored (some e, s) = (error (bytes "error storing manifest: " ++ e) 400, s)

-- PUT /api/manifests/{id}
unfoldable pub put_manifest_handler : Env → Request → Store → Response × Store
put_manifest_handler env r s =
    if not (is_authorized env r)
    then (forbidden, s)
    else if str_eq r.content_type (bytes "application/json")
    then malformed (bytes "error loading manifest from json: ")
        (manifest_from_json env.json.unmarshal r.body env.root_path)
        (λ m. stored (put_manifest s m)) s
    else malformed (bytes "error loading manifest from yaml: ")
        (manifest_from_yaml env.yaml.unmarshal r.body env.root_path)
        (λ m. stored (put_manifest s m)) s

-- DELETE /api/manifests/{id}
unfoldable pub delete_manifest : Env → Request → Store → Response × Store
delete_manifest env r s =
    if not (is_authorized env r)
    then (forbidden, s)
    else (reply 204 [] [], (forget_manifest s r.id).1)

-- The first lines of the /api/self handlers: the address that they act for, or the refusal.
pub data SelfAddress : Type 0 where
  refused : Response → SelfAddress
  address : Bytes → SelfAddress

abbrev pub host_of : Result (Bytes × Bytes) → Bytes
host_of (ok (host, port)) = host
host_of (err e) = []

unfoldable pub self_address : Env → Request → SelfAddress
self_address env r =
    if not (str_eq (query_first r (bytes "spoof")) [])
    then (if not (is_authorized env r)
        then refused forbidden
        else address (query_first r (bytes "spoof")))
    else address (host_of (env.split_host_port r.remote_addr))

-- Their next lines: the manifest at that address, or the refusal.
pub data SelfManifest : Type 0 where
  missing : Response → SelfManifest
  at : Ptr → SelfManifest

abbrev pub at_pointer : Option Ptr → SelfManifest
at_pointer none = missing not_found
at_pointer (some p) = at p

abbrev pub at_ip : Ip → Bytes → Store → SelfManifest
at_ip none ip_str s =
    missing (error (bytes "could not determine host's ip: invalid ip: " ++ ip_str) 500)
at_ip (some b) ip_str s = at_pointer (find_by_ip s (some b))

unfoldable pub self_manifest_of : Env → SelfAddress → Store → SelfManifest
self_manifest_of env (refused response) s = missing response
self_manifest_of env (address ip_str) s = at_ip (env.parse_ip ip_str) ip_str s

unfoldable pub self_manifest_at : Env → Request → Store → SelfManifest
unfolding self_manifest_of
self_manifest_at env r s = self_manifest_of env (self_address env r) s

unfoldable pub set_boot : Bool → SelfManifest → Store → Response × Store
set_boot b (missing response) s = (response, s)
set_boot b (at p) s = (reply 200 [] [], set_suspended s p b)

-- GET or POST /api/self/suspend-boot
unfoldable pub suspend_boot : Env → Request → Store → Response × Store
unfolding set_boot
suspend_boot env r s = set_boot true (self_manifest_at env r s) s

-- GET or POST /api/self/unsuspend-boot
unfoldable pub unsuspend_boot : Env → Request → Store → Response × Store
unfolding set_boot
unsuspend_boot env r s = set_boot false (self_manifest_at env r s) s

unfoldable pub self_reply : Env → Request → SelfManifest → Store → Response × Store
self_reply env r (missing response) s = (response, s)
self_reply env r (at p) s = (whole_store env r (bytes "error marshalling manifest: ") s, s)

-- GET /api/self/manifest: the body is that of the whole store
unfoldable pub self_manifest : Env → Request → Store → Response × Store
unfolding self_reply
self_manifest env r s = self_reply env r (self_manifest_at env r s) s

-- The routes of NewServer.
pub data Route : Type 0 where
  manifest_get manifests_get manifest_put manifest_delete : Route
  self_suspend self_unsuspend self_get : Route

unfoldable pub handle : Route → Env → Request → Store → Response × Store
handle manifest_get = get_manifest
handle manifests_get = get_manifests
handle manifest_put = put_manifest_handler
handle manifest_delete = delete_manifest
handle self_suspend = suspend_boot
handle self_unsuspend = unsuspend_boot
handle self_get = self_manifest

-- The store after a sequence of requests.
unfoldable pub serve : Env → Store → List (Route × Request) → Store
serve env s [] = s
serve env s ((route, r) ∷ calls) = serve env (handle route env r s).1 calls
