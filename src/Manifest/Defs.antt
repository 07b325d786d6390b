-- ===== src/Manifest/Defs.antt =====
-- manifest/schema.go: the manifest of a host, its mounts, and the choice of a mount for a path.
use netbootd.Prelude.{
  ℕ, Bool, true, false, not, ◌&&◌, ◌||◌, List, [], ◌∷◌, ◌++◌, Bytes, bytes, length, ltb, str_eq,
  if◌then◌else◌, GoMap, Result, ok, err,
}
use netbootd.GoStd.Strings.{slash, trim_left, has_prefix}
use netbootd.GoStd.Ip.{Ip}
use netbootd.Manifest.Vars.{Value}

pub record Mount : Type 0 where
  pub path : Bytes
  pub path_is_prefix : Bool
  pub proxy : Bytes
  pub append_suffix : Bool
  pub content : Bytes
  pub local_dir : Bytes

-- An address with its network; the network's own address is not read by the program.
pub record IpWithNet : Type 0 where
  pub ip : Ip
  pub mask : Bytes

-- `lease_duration` is the bit pattern of the int64.
pub record Manifest : Type 0 where
  pub id : Bytes
  pub ipv4 : IpWithNet
  pub hostname : Bytes
  pub domain : Bytes
  pub lease_duration : ℕ
  pub mac : List Bytes
  pub dns : List Ip
  pub router : List Ip
  pub ntp : List Ip
  pub ipxe : Bool
  pub boot_filename : Bytes
  pub mounts : List Mount
  pub suspended : Bool
  pub vars : GoMap Value

abbrev pub zero_mount : Mount
zero_mount = record {
  path = [];
  path_is_prefix = false;
  proxy = [];
  append_suffix = false;
  content = [];
  local_dir = [];
}

-- The first test of the loop of GetMount: an exact mount at the path.
unfoldable pub is_exact : Bytes → Mount → Bool
is_exact path mount =
    let mount_path = trim_left mount.path slash in
    not mount.path_is_prefix && str_eq mount_path path

-- The first two conditions of its second test: a prefix mount above the path.
unfoldable pub is_above : Bytes → Mount → Bool
is_above path mount =
    let mount_path = trim_left mount.path slash in
    mount.path_is_prefix && (str_eq mount_path [] || has_prefix path mount_path)

-- The loop of GetMount, with its variables `bestMount` and `found`, and the lines behind it.
unfoldable pub get_mount_from : Bytes → List Mount → Mount → Bool → Result Mount
get_mount_from path [] best found =
    if found then ok best else err (bytes "no mount matches path: " ++ path)
get_mount_from path (mount ∷ mounts) best found =
    let better = is_above path mount && (ltb (length best.path) (length mount.path) || not found) in
    let rest =
      get_mount_from path mounts (if better then mount else best)
        (if better then true else found) in
    if is_exact path mount then ok mount else rest

-- Manifest.GetMount
unfoldable pub get_mount : Manifest → Bytes → Result Mount
get_mount m path = get_mount_from (trim_left path slash) m.mounts zero_mount false
