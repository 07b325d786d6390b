-- ===== src/Api/Table.antt =====
-- What api/server.go promises of /api/manifests/{id}: a table from IDs to manifests, with no pointers
-- and no other index. `answer_table` answers a request from such a table alone.
use netbootd.Prelude.{
  Option, none, some, List, [], ◌∷◌, ◌++◌, Bytes, bytes, str_eq, if◌then◌else◌, Result, ok, err,
}
use mathlib.Core.Option
use netbootd.Manifest.Defs.{Manifest}
use netbootd.Manifest.Io.{manifest_from_yaml, manifest_from_json}
use netbootd.Store.Defs.{Store, find}
use netbootd.Api.Defs.{
  Env, Request, Response, error, reply, forbidden, not_found, is_authorized, encoded, Route,
  manifest_get, manifest_put, manifest_delete, handle,
}

abbrev pub Table : Type 0
Table = Bytes → Option Manifest

abbrev pub insert : Table → Manifest → Table
insert t m j = if str_eq m.id j then some m else t j

abbrev pub remove : Table → Bytes → Table
remove t id j = if str_eq id j then none else t j

-- The manifests of a store by ID.
abbrev pub contents : Store → Table
contents s id = Option.map s.heap.cell (find s id)

pub data Method : Type 0 where
  get_method put_method delete_method : Method

abbrev pub route_of : Method → Route
route_of get_method = manifest_get
route_of put_method = manifest_put
route_of delete_method = manifest_delete

abbrev pub shown : Env → Request → Option Manifest → Response
shown env r none = not_found
shown env r (some m) =
    encoded r (bytes "error marshalling manifest: ") (env.json.marshal m) (env.yaml.marshal m)

abbrev refused : Bytes → Response
refused reason = error (bytes "error storing manifest: " ++ reason) 400

-- A manifest without an address or an ID is refused, and any other goes under its own ID.
abbrev pub admit : Manifest → Table → Response × Table
admit m t = elim m.ipv4.ip [
  | none ↦ (refused (bytes "no IPv4 address provided"), t)
  | some _ ↦
      if str_eq m.id []
      then (refused (bytes "ID cannot be null"), t)
      else (reply 201 [] [], insert t m)
]

abbrev pub admitted : Bytes → Result Manifest → Table → Response × Table
admitted failure (ok m) t = admit m t
admitted failure (err e) t = (error (failure ++ e) 400, t)

abbrev pub answered : Method → Env → Request → Table → Response × Table
answered get_method env r t = (shown env r (t r.id), t)
answered put_method env r t =
    if str_eq r.content_type (bytes "application/json")
    then admitted (bytes "error loading manifest from json: ")
        (manifest_from_json env.json.unmarshal r.body env.root_path) t
    else admitted (bytes "error loading manifest from yaml: ")
        (manifest_from_yaml env.yaml.unmarshal r.body env.root_path) t
answered delete_method env r t = (reply 204 [] [], remove t r.id)

-- The answer to a request, and the table after it.
unfoldable pub answer_table : Method → Env → Request → Table → Response × Table
answer_table method env r t =
    if is_authorized env r then answered method env r t else (forbidden, t)

-- The answers to a sequence of requests, from a table and from a store.
unfoldable pub table_answers : Env → Table → List (Method × Request) → List Response
table_answers env t [] = []
table_answers env t ((method, r) ∷ calls) =
    (answer_table method env r t).0 ∷ table_answers env (answer_table method env r t).1 calls

unfoldable pub store_answers : Env → Store → List (Method × Request) → List Response
store_answers env s [] = []
store_answers env s ((method, r) ∷ calls) =
    (handle (route_of method) env r s).0
    ∷ store_answers env (handle (route_of method) env r s).1 calls
