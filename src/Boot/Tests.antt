-- ===== src/Boot/Tests.antt =====
-- A machine with two mounts, on which the theorems of this folder are applied.
use netbootd.Prelude.{
  ◌≡◌, refl, true, false, some, none, [], ◌∷◌, Bytes, bytes, make, str_eq, ok, err,
}
use netbootd.GoStd.Ip.{Ip}
use netbootd.GoStd.Strings.{trim_left}
use netbootd.Manifest.Defs.{Mount, Manifest, get_mount, get_mount_from, is_exact, is_above}
use netbootd.Store.Defs.{Store, new_store, put_manifest}
use netbootd.Store.Put.{IsStorable}
use netbootd.Tftpd.Defs as Tftp
use netbootd.Tftpd.Defs.{ReadRequest, returned, proxy_url, tftp_read_handler}
use netbootd.Httpd.Defs as Http
use netbootd.Httpd.Defs.{HttpRequest, served, serve_http, parse_ip_from_host_port, parse_local_ip}
use netbootd.GoStd.Filepath.{join}
use netbootd.Manifest.HostPath.{host_path_prefix, host_path}
use netbootd.Boot.Suffix.{suffix-slash}
use netbootd.Boot.Mounted.{IsTftpRequest, IsHttpRequest, exclusive_mount_differs}

abbrev client : Ip
client = some (192 ∷ 168 ∷ 17 ∷ 101 ∷ [])

abbrev script : Mount
script = record {
  path = bytes "/install";
  path_is_prefix = false;
  proxy = [];
  append_suffix = false;
  content = bytes "#!ipxe";
  local_dir = [];
}

abbrev both : Mount
both = record {
  path = bytes "/both";
  path_is_prefix = false;
  proxy = bytes "http://x/both";
  append_suffix = false;
  content = bytes "#!ipxe";
  local_dir = [];
}

abbrev machine : Manifest
machine = record {
  id = bytes "a";
  ipv4 = record { ip = client; mask = 255 ∷ 255 ∷ 255 ∷ 0 ∷ [] };
  hostname = [];
  domain = [];
  lease_duration = 0;
  mac = [];
  dns = [];
  router = [];
  ntp = [];
  ipxe = true;
  boot_filename = [];
  mounts = script ∷ both ∷ [];
  suspended = false;
  vars = make;
}

abbrev empty : Store
empty = new_store (record { persistence_directory = [] }) (λ _. machine)

storable : IsStorable machine
storable = (cc, cc)

-- Nothing is bundled, a template is executed to itself, and every upstream answers "vmlinuz".
abbrev tftp : Tftp.Services
tftp = record {
  root_path = [];
  open_static = λ _. err (bytes "file does not exist");
  new_request = λ _. none;
  send = λ _ _. ok (record {
    status_code = 200;
    status = bytes "200 OK";
    content_length = none;
    body = bytes "vmlinuz";
  });
  parse_template = λ text. ok (λ _. ok text);
  open_file = λ _. err [];
  read_from = λ _. none;
  ip_string = λ _. [];
  decimal = λ _. [];
  host_port = λ _ _. [];
}

abbrev http : Http.Services
http = record {
  root_path = [];
  split_host_port = λ _. ok (bytes "192.168.17.101", bytes "4000");
  parse_ip = λ _. client;
  open_static = λ _. err (bytes "file does not exist");
  parse_template = λ text. ok (λ _. ok text);
  parse_url = λ _. err [];
  open_file = λ _. err [];
  ip_string = λ _. [];
  host_port = λ _ _. [];
}

abbrev reads : Bytes → ReadRequest
reads name = record { filename = name; remote_ip = client; remote_port = 1069; local_ip = none }

abbrev gets : Bytes → HttpRequest
gets path = record {
  remote_addr = bytes "192.168.17.101:4000";
  local_addr = some (bytes "192.168.17.1:80");
  query = λ _. [];
  path = path;
  host = bytes "192.168.17.1";
}

chosen_both : get_mount machine (bytes "both") ≡ ok both
unfolding get_mount get_mount_from is_exact is_above str_eq trim_left
chosen_both = refl

chosen_both_slash : get_mount machine (bytes "/both") ≡ ok both
unfolding get_mount get_mount_from is_exact is_above str_eq trim_left
chosen_both_slash = refl

over_tftp :
    (name : Bytes) (mount : Mount)
    → get_mount machine name ≡ ok mount
    → IsTftpRequest machine tftp (reads name) mount
over_tftp name mount e = record {
  from = refl;
  unbundled = (bytes "file does not exist", refl);
  chosen = e;
}

over_http :
    (path : Bytes) (mount : Mount)
    → get_mount machine path ≡ ok mount
    → IsHttpRequest machine http (gets path) mount
unfolding parse_ip_from_host_port parse_local_ip
over_http path mount e = record {
  raddr = client;
  laddr = client;
  remote = refl;
  local = refl;
  plain = refl;
  from = refl;
  unbundled = (bytes "file does not exist", refl);
  chosen = e;
}

exclusive_mount_differs_example :
    (tftp_read_handler tftp (put_manifest empty machine).1 (reads (bytes "both"))
      ≡ returned none (record { size = none; contents = some (bytes "vmlinuz") }))
    × (serve_http http (put_manifest empty machine).1 (gets (bytes "/both"))
        ≡ served (bytes "/both") (bytes "#!ipxe"))
exclusive_mount_differs_example =
    exclusive_mount_differs empty machine storable tftp (reads (bytes "both")) http
      (gets (bytes "/both")) both (over_tftp (bytes "both") both chosen_both)
      (over_http (bytes "/both") both chosen_both_slash)
      (record {
        status_code = 200;
        status = bytes "200 OK";
        content_length = none;
        body = bytes "vmlinuz";
      })
      (bytes "#!ipxe") (cc) (cc) refl refl refl refl

abbrev files : Mount
files = record {
  path = bytes "/subdir";
  path_is_prefix = true;
  proxy = bytes "http://x";
  append_suffix = true;
  content = [];
  local_dir = bytes "/tftpboot";
}

suffix-slash_example :
    (get_mount machine (bytes "/subdir/f") ≡ get_mount machine (bytes "subdir/f"))
    × (host_path files [] (bytes "/subdir/f") ≡ join (host_path_prefix files []) (bytes "/f"))
    × (host_path files [] (bytes "subdir/f") ≡ join (host_path_prefix files []) (bytes "subdir/f"))
    × (proxy_url tftp files (reads (bytes "/subdir/f")) ≡ bytes "http://x/f")
    × (proxy_url tftp files (reads (bytes "subdir/f")) ≡ bytes "http://xsubdir/f")
suffix-slash_example =
    suffix-slash tftp machine files (reads []) b's' (bytes "ubdir") (bytes "/f") refl refl (cc) []
