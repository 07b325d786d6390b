-- ===== src/Cmd/Served.antt =====
-- The store that cmd/server.go hands to the services, and what API requests make of it.
use netbootd.Prelude.{List, str_eq, [], Bool-cases, inl, inr}
use mathlib.Core.Path.{subst}
use netbootd.Store.Defs.{Config, load_from_directory}
use netbootd.Store.Invariant.{IsWellFormed}
use netbootd.Store.Steps.{Reach-IsSound}
use netbootd.Api.Defs.{Env, Request, Route, serve}
use netbootd.Api.Reachable.{
  IsReachable, new_store-IsReachable, load_items-IsReachable, hint-IsReachable, serve-IsReachable,
}
use netbootd.Cmd.Startup.{Settings, Machine, loaded, served_store}

module _ (cfg : Settings) (machine : Machine) where
  loaded-IsReachable :
      IsReachable (record { persistence_directory = [] }) machine.unallocated (loaded cfg machine).1
  unfolding loaded load_from_directory
  loaded-IsReachable = elim (Bool-cases (str_eq cfg.manifest_path [])) [
    | inl e ↦
        rw e (new_store-IsReachable (record { persistence_directory = [] }) machine.unallocated)
    | inr e ↦ rw e (
        load_items-IsReachable (record { persistence_directory = [] }) machine.unallocated
          machine.unmarshal machine.read_file cfg.manifest_path cfg.root_path
          (machine.read_dir cfg.manifest_path).0)
  ]

  -- The store that the server command hands to the services, whatever the files hold, and what any API
  -- requests make of it, is well-formed: every entry of its three maps points to an allocated manifest
  -- that has the entry's key.
  pub serve-served_store-IsWellFormed :
      (env : Env) (calls : List (Route × Request))
      → IsWellFormed (serve env (served_store cfg machine) calls)
  unfolding served_store
  serve-served_store-IsWellFormed env calls =
      let no_directory : Config = record { persistence_directory = [] } in
      let (x, (reach, same)) =
        serve-IsReachable no_directory machine.unallocated env (served_store cfg machine) calls
          (hint-IsReachable no_directory machine.unallocated _ _ loaded-IsReachable) in
      subst IsWellFormed same (Reach-IsSound no_directory machine.unallocated reach).well_formed
