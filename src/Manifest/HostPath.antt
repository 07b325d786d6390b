-- ===== src/Manifest/HostPath.antt =====
-- manifest/schema.go: where a mount with a `localDir` finds a file on the host, and the test that
-- the handlers of tftpd and httpd make of that path before they open it.
pub mod Containment
use netbootd.Prelude.{Bool, Bytes, if◌then◌else◌}
use netbootd.GoStd.Strings.{trim_prefix, has_prefix}
use netbootd.GoStd.Filepath.{is_abs, join}
use netbootd.Manifest.Defs.{Mount}

-- Mount.hostPathPrefix
unfoldable pub host_path_prefix : Mount → Bytes → Bytes
host_path_prefix m root_path =
    if is_abs m.local_dir then m.local_dir else join root_path m.local_dir

-- Mount.HostPath
unfoldable pub host_path : Mount → Bytes → Bytes → Bytes
host_path m root_path request_path =
    let path = if m.append_suffix then trim_prefix request_path m.path else m.path in
    join (host_path_prefix m root_path) path

-- Mount.ValidateHostPath
unfoldable pub validate_host_path : Mount → Bytes → Bytes → Bool
validate_host_path m root_path host = has_prefix host (host_path_prefix m root_path)
