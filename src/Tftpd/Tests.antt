-- ===== src/Tftpd/Tests.antt =====
-- Read requests on which the theorems of this folder are applied.
use netbootd.Prelude.{
  ◌≡◌, ◌⊎◌, refl, true, false, none, some, [], ◌∷◌, Bytes, bytes, make, str_eq, if◌then◌else◌, ok,
  err, get, put,
}
use netbootd.GoStd.Files.{StaticFile}
use netbootd.GoStd.Ip.{Ip, to16}
use netbootd.GoStd.Strings.{trim_left}
use netbootd.Manifest.Defs.{Mount, Manifest, get_mount, get_mount_from, is_exact, is_above}
use netbootd.Store.Defs.{Store, new_store, put_indexed, find_by_ip}
use netbootd.Tftpd.Defs.{
  Services, Transfer, panicked, returned, ReadRequest, relay, serve_requested, serve_proxy,
  proxy_url, serve_mount, serve_static, read_for, tftp_read_handler,
}
use netbootd.Tftpd.Outcomes.{IsStatic, IsMounted}
use netbootd.Tftpd.Reads.{tftp_read_handler_source}

abbrev client : Ip
client = some (192 ∷ 168 ∷ 17 ∷ 101 ∷ [])

abbrev upstream : Mount
upstream = record {
  path = bytes "kernel";
  path_is_prefix = false;
  proxy = bytes "http://x/kernel";
  append_suffix = false;
  content = [];
  local_dir = [];
}

abbrev machine : Manifest
machine = record {
  id = bytes "a";
  ipv4 = record { ip = client; mask = 255 ∷ 255 ∷ 255 ∷ 0 ∷ [] };
  hostname = [];
  domain = [];
  lease_duration = 0;
  mac = [];
  dns = [];
  router = [];
  ntp = [];
  ipxe = true;
  boot_filename = [];
  mounts = upstream ∷ [];
  suspended = false;
  vars = make;
}

abbrev store : Store
store = put_indexed (new_store (record { persistence_directory = [] }) (λ _. machine)) machine

-- The bundled files are a directory ".", and every upstream answers "vmlinuz".
abbrev services : Services
services = record {
  root_path = [];
  open_static = λ name.
      if str_eq name (bytes ".")
      then ok (record { name = bytes "."; is_read_seeker = false; contents = [] })
      else err (bytes "file does not exist");
  new_request = λ _. none;
  send = λ _ _. ok (record {
    status_code = 200;
    status = bytes "200 OK";
    content_length = some 7;
    body = bytes "vmlinuz";
  });
  parse_template = λ _. err [];
  open_file = λ _. err [];
  read_from = λ _. none;
  ip_string = λ _. [];
  decimal = λ _. [];
  host_port = λ _ _. [];
}

abbrev asks : Bytes → ReadRequest
asks name = record { filename = name; remote_ip = client; remote_port = 1069; local_ip = none }

abbrev kernel : Transfer
kernel = record { size = some 7; contents = some (bytes "vmlinuz") }

sends_kernel : tftp_read_handler services store (asks (bytes "kernel")) ≡ returned none kernel
unfolding tftp_read_handler read_for serve_static serve_mount serve_proxy serve_requested relay
    proxy_url find_by_ip put_indexed new_store get put to16 str_eq make get_mount get_mount_from
    is_exact is_above trim_left
sends_kernel = refl

opens_directory : tftp_read_handler services store (asks (bytes ".")) ≡ panicked
unfolding tftp_read_handler read_for serve_static find_by_ip put_indexed new_store get put to16
    str_eq make
opens_directory = refl

tftp_read_handler_source_example :
    ((f : StaticFile) × (IsStatic services store (asks (bytes "kernel")) f
        × (f.contents ≡ bytes "vmlinuz")))
    ⊎ IsMounted services store (asks (bytes "kernel")) (bytes "vmlinuz")
tftp_read_handler_source_example =
    tftp_read_handler_source services store (asks (bytes "kernel")) none kernel (bytes "vmlinuz")
      sends_kernel refl
