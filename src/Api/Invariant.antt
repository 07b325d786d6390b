-- ===== src/Api/Invariant.antt =====
-- The handlers of api/server.go keep the store's invariant.
use netbootd.Prelude.{List}
use netbootd.Store.Defs.{Store}
use netbootd.Store.Invariant.{
  IsWellFormed, put_manifest-IsWellFormed, forget_manifest-IsWellFormed, set_suspended-IsWellFormed,
}
use netbootd.Api.Defs.{Env, Request, Route, handle, serve}
use netbootd.Api.Induction.{handle_induction, serve_induction}

pub handle-IsWellFormed :
    (route : Route) (env : Env) (r : Request) (s : Store)
    → IsWellFormed s
    → IsWellFormed (handle route env r s).1
handle-IsWellFormed route env =
    handle_induction env IsWellFormed (λ s m is. put_manifest-IsWellFormed s m)
      forget_manifest-IsWellFormed set_suspended-IsWellFormed route

-- After any sequence of API requests, authorised or not, every entry of the store's maps points to
-- an allocated manifest that has the entry's key, if that held before.
pub serve-IsWellFormed :
    (env : Env) (s : Store) (calls : List (Route × Request))
    → IsWellFormed s
    → IsWellFormed (serve env s calls)
serve-IsWellFormed env s calls =
    serve_induction env IsWellFormed (λ s m is. put_manifest-IsWellFormed s m)
      forget_manifest-IsWellFormed set_suspended-IsWellFormed s calls
