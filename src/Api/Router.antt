-- ===== src/Api/Router.antt =====
-- api/server.go: the routes that NewServer registers with gorilla/mux, which is a parameter, and what
-- it does with a request. The logging middleware is left out.
use netbootd.Prelude.{◌≡◌, Option, none, some, List, [], ◌∷◌, Bytes, bytes, In}
use netbootd.Store.Defs.{Store}
use netbootd.Api.Defs.{
  Env, Request, Response, Route, manifest_get, manifests_get, manifest_put, manifest_delete,
  self_suspend, self_unsuspend, self_get, handle,
}

-- A call of HandleFunc and the Methods of its route.
pub record Registered : Type 0 where
  pub path : Bytes
  pub methods : List Bytes
  pub route : Route

abbrev at_path : Bytes → List Bytes → Route → Registered
at_path path methods route = record { path = path; methods = methods; route = route }

-- The paths and methods of the calls of HandleFunc in NewServer, in order; the handlers are in Defs.
abbrev pub registered : List Registered
registered =
    at_path (bytes "/api/manifests/{id}") (bytes "GET" ∷ []) manifest_get
    ∷ at_path (bytes "/api/manifests") (bytes "GET" ∷ []) manifests_get
    ∷ at_path (bytes "/api/manifests/{id}") (bytes "PUT" ∷ []) manifest_put
    ∷ at_path (bytes "/api/manifests/{id}") (bytes "DELETE" ∷ []) manifest_delete
    ∷ at_path (bytes "/api/self/suspend-boot") (bytes "GET" ∷ (bytes "POST" ∷ [])) self_suspend
    ∷ at_path (bytes "/api/self/unsuspend-boot") (bytes "GET" ∷ (bytes "POST" ∷ [])) self_unsuspend
    ∷ at_path (bytes "/api/self/manifest") (bytes "GET" ∷ []) self_get
    ∷ []

-- The route that mux finds for a request, with the value of the path's variable, or its own answer.
pub data Dispatched : Type 0 where
  found : Registered → Bytes → Dispatched
  unrouted : Response → Dispatched

-- mux, from the registered routes, and the path and the method of a request.
abbrev pub Mux : Type 0
Mux = List Registered → Bytes → Bytes → Dispatched

-- mux finds none but registered routes, and only for their methods.
abbrev pub MatchesMethods : Mux → Type 0
MatchesMethods mux =
    (routes : List Registered) (path method : Bytes) (found_route : Registered) (id : Bytes)
    → mux routes path method ≡ found found_route id
    → In found_route routes × In method found_route.methods

-- A request as the server reads it; its `id` is not known before mux has matched the path.
pub record Call : Type 0 where
  pub path : Bytes
  pub method : Bytes
  pub request : Request

-- The response and its Server header: a middleware sets it, and mux runs that for its matches only.
pub record Answer : Type 0 where
  pub server : Option Bytes
  pub response : Response

unfoldable pub serve_dispatched : Env → Dispatched → Request → Store → Answer × Store
serve_dispatched env (found f id) r s =
    let (response, s') = handle f.route env (record r { id = id }) s in
    (record { server = some (bytes "netbootd"); response = response }, s')
serve_dispatched env (unrouted response) r s = (record { server = none; response = response }, s)

-- What the handler of the http.Server does with a request.
unfoldable pub serve_call : Mux → Env → Call → Store → Answer × Store
serve_call mux env call s =
    serve_dispatched env (mux registered call.path call.method) call.request s

-- The store after a sequence of requests.
unfoldable pub serve_calls : Mux → Env → List Call → Store → Store
serve_calls mux env [] s = s
serve_calls mux env (call ∷ calls) s = serve_calls mux env calls (serve_call mux env call s).1
