-- ===== src/Api/Effects.antt =====
-- What the requests of api/server.go do, as later requests and the boot services see it.
use netbootd.Prelude.{
  ◌≡◌, ◌≢◌, refl, ap, ◌∙◌, true, none, some, [], arith, Bytes, bytes, ok, str_eq_iff, str_eq_refl,
}
use netbootd.GoStd.Ip.{Ip}
use netbootd.Manifest.Defs.{Manifest}
use netbootd.Manifest.HardwareAddr.{HardwareAddr}
use netbootd.Manifest.Io.{manifest_from_yaml}
use netbootd.Store.Defs.{
  Store, Ptr, put_indexed, forget_manifest, find, find_by_ip, find_by_mac, set_suspended,
}
use netbootd.Store.Invariant.{IsWellFormed}
use netbootd.Store.Put.{IsStorable, put_manifest_of_IsStorable, find-put_manifest}
use netbootd.Store.Forgotten.{find-forget_manifest}
use netbootd.Api.Defs.{
  Env, Request, reply, not_found, is_authorized, encoded, at, self_manifest_at, get_manifest,
  put_manifest_handler, delete_manifest, suspend_boot,
}

allowed :
    (env : Env) (r : Request) → r.authorization ≡ env.authorization → is_authorized env r ≡ true
allowed env r h = rw h (str_eq_refl env.authorization)

put_handler_stores :
    (env : Env) (r : Request) (s : Store) (m : Manifest)
    → r.authorization ≡ env.authorization
    → r.content_type ≢ bytes "application/json"
    → manifest_from_yaml env.yaml.unmarshal r.body env.root_path ≡ ok m
    → IsStorable m
    → put_manifest_handler env r s ≡ (reply 201 [] [], put_indexed s m)
unfolding put_manifest_handler
put_handler_stores env r s m auth yaml decoded h = ground (
  arith,
  allowed env r auth,
  str_eq_iff r.content_type (bytes "application/json"),
  put_manifest_of_IsStorable s m h,
)

get_manifest_of_find :
    (env : Env) (r : Request) (s : Store) (p : Ptr)
    → r.authorization ≡ env.authorization
    → find s r.id ≡ some p
    → get_manifest env r s ≡ (
      encoded r
          (bytes "error marshalling manifest: ")
          (env.json.marshal (s.heap.cell p))
          (env.yaml.marshal (s.heap.cell p)),
      s,
    )
unfolding get_manifest
get_manifest_of_find env r s p auth found = rw (allowed env r auth, found) refl

-- An authorised PUT whose body decodes, as YAML, to a valid manifest with an address and an ID
-- answers 201. An authorised GET of that ID then answers with the encoding of that manifest.
pub get_manifest-put_manifest_handler :
    (env : Env) (r r' : Request) (s : Store) (m : Manifest)
    → r.authorization ≡ env.authorization
    → r'.authorization ≡ env.authorization
    → r.content_type ≢ bytes "application/json"
    → manifest_from_yaml env.yaml.unmarshal r.body env.root_path ≡ ok m
    → IsStorable m
    → r'.id ≡ m.id
    → let s' = (put_manifest_handler env r s).1 in
      (put_manifest_handler env r s ≡ (reply 201 [] [], s'))
      × (get_manifest env r' s' ≡ (
        encoded r' (bytes "error marshalling manifest: ") (env.json.marshal m) (env.yaml.marshal m),
        s',
      ))
get_manifest-put_manifest_handler env r r' s m auth auth' yaml decoded h id =
    let put = put_handler_stores env r s m auth yaml decoded h in
    let (found, _, _, cell) = find-put_manifest s m h in
    let found' : find (put_indexed s m) r'.id ≡ some s.heap.next =
      rw id (rw (put_manifest_of_IsStorable s m h) at found) in
    let cell' : (put_indexed s m).heap.cell s.heap.next ≡ m =
      rw (put_manifest_of_IsStorable s m h) at cell in
    rw put (
      refl,
      get_manifest_of_find env r' (put_indexed s m) s.heap.next auth' found'
          ∙ ap
              (λ (n : Manifest). (
                encoded r' (bytes "error marshalling manifest: ") (env.json.marshal n)
                    (env.yaml.marshal n),
                put_indexed s m,
              ))
              cell',
    )

get_manifest_of_none :
    (env : Env) (r : Request) (s : Store)
    → r.authorization ≡ env.authorization
    → find s r.id ≡ none
    → get_manifest env r s ≡ (not_found, s)
unfolding get_manifest
get_manifest_of_none env r s auth found = rw (allowed env r auth, found) refl

delete_authorised :
    (env : Env) (r : Request) (s : Store)
    → r.authorization ≡ env.authorization
    → delete_manifest env r s ≡ (reply 204 [] [], (forget_manifest s r.id).1)
unfolding delete_manifest
delete_authorised env r s auth = rw (allowed env r auth) refl

-- An authorised DELETE always answers 204, and an authorised GET of its ID then answers 404, in a
-- store whose entries have the keys of their manifests.
pub get_manifest-delete_manifest :
    (env : Env) (r r' : Request) (s : Store)
    → IsWellFormed s
    → r.authorization ≡ env.authorization
    → r'.authorization ≡ env.authorization
    → r'.id ≡ r.id
    → let s' = (delete_manifest env r s).1 in
      (delete_manifest env r s ≡ (reply 204 [] [], s')) × (get_manifest env r' s' ≡ (not_found, s'))
get_manifest-delete_manifest env r r' s w auth auth' id = rw (delete_authorised env r s auth) (
  refl,
  get_manifest_of_none env r' (forget_manifest s r.id).1 auth'
      (rw id (find-forget_manifest s r.id w).0),
)

-- suspend-boot, when it finds the requester's manifest, sets `suspended` of that one manifest, for
-- every lookup that leads to it: by ID, by address or by any of its hardware addresses. The lookups
-- themselves and all other manifests stay as they were.
pub suspend_boot_shared :
    (env : Env) (r : Request) (s : Store) (p : Ptr)
    → self_manifest_at env r s ≡ at p
    → let s' = (suspend_boot env r s).1 in
      (s'.heap.cell p ≡ record (s.heap.cell p) { suspended = true })
      × ((q : Ptr) → q ≢ p → s'.heap.cell q ≡ s.heap.cell q)
      × ((id : Bytes) → find s' id ≡ find s id)
      × ((ip : Ip) → find_by_ip s' ip ≡ find_by_ip s ip)
      × ((mac : HardwareAddr) → find_by_mac s' mac ≡ find_by_mac s mac)
unfolding suspend_boot set_suspended find find_by_ip find_by_mac
suspend_boot_shared env r s p h =
    rw h (ground arith, (λ q ne. ground arith), (λ id. refl), (λ ip. refl), (λ mac. refl))
