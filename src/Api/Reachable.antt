-- ===== src/Api/Reachable.antt =====
-- The stores of a running server: a directory loaded at the start, the hints, and then API requests
-- are steps of the interleaving semantics.
use netbootd.Prelude.{◌≡◌, refl, ap, List, [], ◌∷◌, Bytes, Result, ok}
use mathlib.Core.Path.{subst}
use netbootd.Manifest.Defs.{Manifest}
use netbootd.Manifest.Io.{manifest_from_yaml}
use netbootd.Store.Defs.{
  Config, GlobalHints, Store, Ptr, DirEntry, new_store, put_manifest, load_items,
}
use netbootd.Store.Load.{load_items_induction}
use netbootd.Store.Steps.{System, Reach, hint, here, next, start, Reach-IsSound}
use netbootd.Api.Defs.{Env, Request, Route, handle, serve}
use netbootd.Api.Runs.{Runs, put_manifest-Runs, handle-Runs}

Reach-trans : {x y z : System} → Reach x y → Reach y z → Reach x z
Reach-trans r here = r
Reach-trans r (next q st) = next (Reach-trans r q) st

module _ (cfg : Config) (c : Ptr → Manifest) where
  -- A store that some interleaving of requests reaches from an empty store.
  abbrev pub IsReachable : Store → Type 0
  IsReachable s = (x : System) × (Reach (start cfg c) x × (x.store ≡ s))

  pub new_store-IsReachable : IsReachable (new_store cfg c)
  new_store-IsReachable = (start cfg c, (here, refl))

  extended : (x : System) (s : Store) → Reach (start cfg c) x → Runs x s → IsReachable s
  extended x s r (y, (q, e)) = (y, (Reach-trans r q, e))

  put_manifest-IsReachable :
      (unmarshal : Bytes → Result Manifest) (root_path : Bytes)
      → (s : Store) (b : Bytes) (m : Manifest) → manifest_from_yaml unmarshal b root_path ≡ ok m
      → IsReachable s
      → IsReachable (put_manifest s m).1
  put_manifest-IsReachable unmarshal root_path s b m e (x, (r, q)) =
      subst (λ t. IsReachable (put_manifest t m).1) q
        (extended x (put_manifest x.store m).1 r (put_manifest-Runs x m))

  handle-IsReachable :
      (route : Route) (env : Env) (r : Request) (s : Store)
      → IsReachable s
      → IsReachable (handle route env r s).1
  handle-IsReachable route env r s (x, (reach, q)) =
      subst (λ t. IsReachable (handle route env r t).1) q
        (extended x (handle route env r x.store).1 reach
          (handle-Runs route env r x (Reach-IsSound cfg c reach)))

  pub serve-IsReachable :
      (env : Env) (s : Store) (calls : List (Route × Request))
      → IsReachable s
      → IsReachable (serve env s calls)
  unfolding serve
  serve-IsReachable env s [] h = h
  serve-IsReachable env s ((route, r) ∷ calls) h =
      serve-IsReachable env (handle route env r s).1 calls (handle-IsReachable route env r s h)

  pub load_items-IsReachable :
      (unmarshal : Bytes → Result Manifest) (read_file : Bytes → Result Bytes)
      (path root_path : Bytes) (items : List DirEntry)
      → IsReachable (load_items unmarshal read_file (new_store cfg c) path root_path items)
  load_items-IsReachable unmarshal read_file path root_path items =
      load_items_induction unmarshal read_file root_path IsReachable
        (put_manifest-IsReachable unmarshal root_path) (new_store cfg c) path items
        new_store-IsReachable

  pub hint-IsReachable :
      (s : Store) (h : GlobalHints) → IsReachable s → IsReachable (record s { global_hints = h })
  hint-IsReachable s h (x, (r, q)) =
      (_, (next r (hint h), ap (λ (t : Store). record t { global_hints = h }) q))
