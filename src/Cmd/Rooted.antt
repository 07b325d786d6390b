-- ===== src/Cmd/Rooted.antt =====
-- The directories of the mounts that cmd/server.go serves: the store is filled by the API and from the
-- files under the same root path with which the boot services resolve a directory.
use netbootd.Prelude.{
  ◌<◌, ◌≡◌, ◌≢◌, ◌⊎◌, refl, inl, inr, arith, Bool, true, some, List, [], Bytes, str_eq, ◌==◌,
  Bool-cases, All, All-In, In,
}
use netbootd.GoStd.Filepath.{is_abs}
use netbootd.GoStd.Ip.{Ip}
use netbootd.Manifest.Defs.{Mount, Manifest}
use netbootd.Manifest.HostPath.{host_path_prefix}
use netbootd.Manifest.Io.{manifest_from_yaml, manifest_from_json}
use netbootd.Manifest.Io.Validate.{manifest_from_yaml_abs}
use netbootd.Store.Defs.{
  Store, Ptr, new_store, put_indexed, put_manifest, forget_found, forget_manifest, set_suspended,
  load_items, DirEntry, load_from_directory, find_by_ip,
}
use netbootd.Store.Put.{put_manifest_outcomes}
use netbootd.Store.Forget.{forget_manifest_outcomes}
use netbootd.Store.Invariant.{IsWellFormed, new_store-IsWellFormed, load_items-IsWellFormed}
use netbootd.Store.Load.{load_items_induction}
use netbootd.Api.Defs.{Env, Request, Route, serve}
use netbootd.Api.Induction.{IsPut, serve_induction}
use netbootd.Api.Invariant.{serve-IsWellFormed}
use netbootd.Tftpd.Server as Tftp
use netbootd.Httpd.Server as Http
use netbootd.Cmd.Startup.{Settings, Machine, loaded, served_store, api_env}

-- The directory of each mount that has one is resolved to an absolute path.
abbrev pub HasRoots : Bytes → Manifest → Type 0
HasRoots root_path m =
    All (λ mount. mount.local_dir ≢ [] → is_abs (host_path_prefix mount root_path) ≡ true) m.mounts

record AreRooted (root_path : Bytes) (s : Store) : Type 0 where
  cells : (p : Ptr) → p < s.heap.next → HasRoots root_path (s.heap.cell p)

module _ (root_path : Bytes) where
  put_indexed-AreRooted :
      (s : Store) (m : Manifest)
      → HasRoots root_path m
      → AreRooted root_path s
      → AreRooted root_path (put_indexed s m)
  unfolding put_indexed
  put_indexed-AreRooted s m r h = record {
    cells = λ p lt. elim (Bool-cases (s.heap.next == p)) [
      | inl e ↦ rw e r
      | inr e ↦ rw e (h.cells p (ground arith))
    ];
  }

  put_manifest-AreRooted :
      (s : Store) (m : Manifest)
      → HasRoots root_path m
      → AreRooted root_path s
      → AreRooted root_path (put_manifest s m).1
  put_manifest-AreRooted s m r h = elim (put_manifest_outcomes s m) [
    | inl (_, e) ↦ rw e (put_indexed-AreRooted s m r h)
    | inr (_, (_, e)) ↦ rw e h
  ]

  forget_manifest-AreRooted :
      (s : Store) (id : Bytes)
      → AreRooted root_path s
      → AreRooted root_path (forget_manifest s id).1
  unfolding forget_found
  forget_manifest-AreRooted s id h = elim (forget_manifest_outcomes s id) [
    | inl (_, e) ↦ rw e h
    | inr (p, _, e) ↦ rw e (record { cells = h.cells })
  ]

  set_suspended-AreRooted :
      (s : Store) (p : Ptr) (b : Bool)
      → AreRooted root_path s
      → AreRooted root_path (set_suspended s p b)
  unfolding set_suspended
  set_suspended-AreRooted s p b h = record {
    cells = λ q lt. elim (Bool-cases (p == q)) [
      | inl e ↦ let same : q ≡ p = ground arith in rw e (h.cells p (rw same at lt))
      | inr e ↦ rw e (h.cells q lt)
    ];
  }

  IsPut-HasRoots :
      (env : Env) (m : Manifest)
      → env.root_path ≡ root_path
      → (root_path ≡ []) ⊎ (is_abs root_path ≡ true)
      → IsPut env m
      → HasRoots root_path m
  unfolding manifest_from_json manifest_from_yaml
  IsPut-HasRoots env m e root (b, inl json) =
      manifest_from_yaml_abs env.json.unmarshal b root_path m (rw e at json) root
  IsPut-HasRoots env m e root (b, inr yaml) =
      manifest_from_yaml_abs env.yaml.unmarshal b root_path m (rw e at yaml) root

module _ (cfg : Settings) (machine : Machine) where
  abbrev empty : Store
  empty = new_store (record { persistence_directory = [] }) machine.unallocated

  empty-AreRooted : AreRooted cfg.root_path empty
  unfolding new_store
  empty-AreRooted = record { cells = λ p lt. absurd (omega arith) }

  -- What the empty store has and the loading keeps, the loaded store has.
  loaded_has :
      (Q : Store → Type 0)
      → Q empty
      → ((items : List DirEntry)
          → Q (
              load_items machine.unmarshal machine.read_file empty cfg.manifest_path cfg.root_path
                items))
      → Q (loaded cfg machine).1
  unfolding loaded load_from_directory
  loaded_has Q none_yet all = elim (Bool-cases (str_eq cfg.manifest_path [])) [
    | inl e ↦ rw e none_yet
    | inr e ↦ rw e (all (machine.read_dir cfg.manifest_path).0)
  ]

  served_store-IsWellFormed : IsWellFormed (served_store cfg machine)
  unfolding served_store
  served_store-IsWellFormed =
      let w : IsWellFormed (loaded cfg machine).1 =
        loaded_has IsWellFormed
          (new_store-IsWellFormed (record { persistence_directory = [] }) machine.unallocated)
          (λ items.
            load_items-IsWellFormed machine.unmarshal machine.read_file empty cfg.manifest_path
              cfg.root_path items
              (new_store-IsWellFormed (record { persistence_directory = [] })
                machine.unallocated)) in
      record { ids = w.ids; ips = w.ips; macs = w.macs }

  module _ (root : (cfg.root_path ≡ []) ⊎ (is_abs cfg.root_path ≡ true)) where
    served_store-AreRooted : AreRooted cfg.root_path (served_store cfg machine)
    unfolding served_store
    served_store-AreRooted =
        let h : AreRooted cfg.root_path (loaded cfg machine).1 =
          loaded_has (AreRooted cfg.root_path) empty-AreRooted (λ items.
            load_items_induction machine.unmarshal machine.read_file cfg.root_path
              (AreRooted cfg.root_path)
              (λ s b m e.
                put_manifest-AreRooted cfg.root_path s m
                  (manifest_from_yaml_abs machine.unmarshal b cfg.root_path m e root))
              empty cfg.manifest_path items empty-AreRooted) in
        record { cells = h.cells }

    -- Whatever the files hold, and whatever requests the API then serves, one at a time: each mount
    -- with a localDir of a manifest that is found by an address has a directory that TFTP and HTTP, with
    -- the root path that they are started with, resolve to an absolute path, if the root path is empty
    -- or absolute.
    pub served_mounts_rooted :
        (env : Env) (calls : List (Route × Request)) (ip : Ip) (p : Ptr) (mount : Mount)
        → let s = serve (api_env cfg env) (served_store cfg machine) calls in
          find_by_ip s ip ≡ some p
          → In mount (s.heap.cell p).mounts
          → mount.local_dir ≢ []
          → (is_abs (host_path_prefix mount (Tftp.new_server cfg.root_path).root_path) ≡ true)
            × (is_abs (host_path_prefix mount (Http.new_server cfg.root_path).root_path) ≡ true)
    unfolding api_env find_by_ip Tftp.new_server Http.new_server
    served_mounts_rooted env calls ip p mount found member given =
        let e = api_env cfg env in
        let s = serve e (served_store cfg machine) calls in
        let w : IsWellFormed s = serve-IsWellFormed e _ calls served_store-IsWellFormed in
        let h : AreRooted cfg.root_path s =
          serve_induction e (AreRooted cfg.root_path)
            (λ t m is.
              put_manifest-AreRooted cfg.root_path t m
                (IsPut-HasRoots cfg.root_path e m refl root is))
            (forget_manifest-AreRooted cfg.root_path) (set_suspended-AreRooted cfg.root_path)
            (served_store cfg machine) calls served_store-AreRooted in
        let absolute : is_abs (host_path_prefix mount cfg.root_path) ≡ true =
          All-In _ (s.heap.cell p).mounts (h.cells p (w.ips _ p found).0) member given in
        (absolute, absolute)
