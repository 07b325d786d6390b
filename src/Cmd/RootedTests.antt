-- ===== src/Cmd/RootedTests.antt =====
-- A manifest with a mount whose directory is relative to the root path.
use netbootd.Prelude.{
  ◌≡◌, refl, true, some, [], ◌∷◌, bytes, str_eq, In, inl, inr, ok, get, put, arith,
}
use netbootd.GoStd.Strings.{has_suffix}
use netbootd.GoStd.Filepath.{is_abs}
use netbootd.GoStd.Ip.{to16}
use netbootd.Manifest.Defs.{Mount}
use netbootd.Manifest.HostPath.{host_path_prefix}
use netbootd.Api.Defs.{
  self_suspend, serve, handle, suspend_boot, self_manifest_at, self_address, query_first, set_boot,
}
use netbootd.Store.Defs.{
  find_by_ip, load_from_directory, put_manifest, new_store, set_suspended, load_items,
}
use netbootd.Manifest.Io.{manifest_from_yaml, validate}
use netbootd.Tftpd.Server as Tftp
use netbootd.Httpd.Server as Http
use netbootd.Cmd.Startup.{Settings, Machine, loaded, served_store, api_env}
use netbootd.Cmd.Sample.{stored, env, request, with_files, with_manifests}
use netbootd.Cmd.Rooted.{served_mounts_rooted}

abbrev relative : Mount
relative = record {
  path = bytes "/";
  path_is_prefix = true;
  proxy = [];
  append_suffix = true;
  content = [];
  local_dir = bytes "boot";
}

abbrev with_mount : Machine
with_mount = record with_files { unmarshal = λ _. ok (record stored { mounts = relative ∷ [] }) }

abbrev rooted : Settings
rooted = record with_manifests { root_path = bytes "/srv" }

found_mount :
    find_by_ip
      (serve (api_env rooted env) (served_store rooted with_mount) ((self_suspend, request) ∷ []))
      stored.ipv4.ip
    ≡ some 0
unfolding serve api_env served_store str_eq find_by_ip get handle suspend_boot self_manifest_at
    self_address query_first loaded load_from_directory has_suffix manifest_from_yaml validate
    is_abs put_manifest new_store put to16 set_suspended load_items set_boot
found_mount = refl

is_mounted :
    In relative
      ((serve
          (api_env rooted env)
          (served_store rooted with_mount)
          ((self_suspend, request) ∷ [])).heap.cell
        0).mounts
unfolding serve api_env served_store str_eq find_by_ip get handle suspend_boot self_manifest_at
    self_address query_first loaded load_from_directory has_suffix manifest_from_yaml validate
    is_abs put_manifest new_store put to16 set_suspended load_items set_boot
is_mounted = inl refl

served_mounts_rooted_example :
    (is_abs (host_path_prefix relative (Tftp.new_server (bytes "/srv")).root_path) ≡ true)
    × (is_abs (host_path_prefix relative (Http.new_server (bytes "/srv")).root_path) ≡ true)
unfolding is_abs
served_mounts_rooted_example =
    served_mounts_rooted rooted with_mount (inr refl) env ((self_suspend, request) ∷ [])
      stored.ipv4.ip 0 relative found_mount is_mounted (ground arith)
