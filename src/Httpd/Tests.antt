-- ===== src/Httpd/Tests.antt =====
-- HTTP requests on which the theorems of this folder are applied.
use netbootd.Prelude.{
  ◌≡◌, ◌⊎◌, refl, true, false, some, [], ◌∷◌, Bytes, bytes, make, str_eq, ok, err, get, put,
}
use netbootd.GoStd.Files.{StaticFile}
use netbootd.GoStd.Ip.{Ip, to16}
use netbootd.GoStd.Strings.{trim_left, trim_prefix, has_prefix}
use netbootd.GoStd.Filepath.{join, clean, is_abs, elements, keep, clean_step, render, backtrack}
use netbootd.Manifest.Defs.{Mount, Manifest, get_mount, get_mount_from, is_exact, is_above}
use netbootd.Manifest.HostPath.{host_path, host_path_prefix, validate_host_path}
use netbootd.Store.Defs.{Store, new_store, put_indexed, find_by_ip}
use netbootd.Httpd.Defs.{
  Services, HttpRequest, panicked, served, parse_ip_from_host_port, parse_local_ip, serve_opened,
  serve_file, serve_local_dir, serve_mount, serve_static, serve_for, serve_spoofed, serve_between,
  serve_http,
}
use netbootd.Httpd.Sources.{IsStatic, IsChosen, IsFrom}
use netbootd.Httpd.Answers.{serve_http_source}

abbrev client : Ip
client = some (192 ∷ 168 ∷ 17 ∷ 101 ∷ [])

abbrev files : Mount
files = record {
  path = bytes "/f";
  path_is_prefix = true;
  proxy = [];
  append_suffix = true;
  content = [];
  local_dir = bytes "/srv";
}

abbrev machine : Manifest
machine = record {
  id = bytes "a";
  ipv4 = record { ip = client; mask = 255 ∷ 255 ∷ 255 ∷ 0 ∷ [] };
  hostname = [];
  domain = [];
  lease_duration = 0;
  mac = [];
  dns = [];
  router = [];
  ntp = [];
  ipxe = false;
  boot_filename = [];
  mounts = files ∷ [];
  suspended = false;
  vars = make;
}

abbrev store : Store
store = put_indexed (new_store (record { persistence_directory = [] }) (λ _. machine)) machine

-- Every address parses as that of `machine`, and every file holds "x".
abbrev services : Services
services = record {
  root_path = [];
  split_host_port = λ _. ok (bytes "192.168.17.101", bytes "4000");
  parse_ip = λ _. client;
  open_static = λ _. err (bytes "file does not exist");
  parse_template = λ _. err [];
  parse_url = λ _. err [];
  open_file = λ _. ok (record { size = ok 1; contents = bytes "x" });
  ip_string = λ _. [];
  host_port = λ _ _. [];
}

abbrev asks : Bytes → HttpRequest
asks path = record {
  remote_addr = bytes "192.168.17.101:4000";
  local_addr = some (bytes "192.168.17.1:8080");
  query = λ _. [];
  path = path;
  host = bytes "192.168.17.1:8080";
}

serves_file : serve_http services store (asks (bytes "/f/x")) ≡ served (bytes "/f/x") (bytes "x")
unfolding serve_http serve_between serve_spoofed serve_for serve_static serve_mount serve_local_dir
    serve_file serve_opened parse_ip_from_host_port parse_local_ip find_by_ip put_indexed new_store
    get put to16 str_eq make get_mount get_mount_from is_exact is_above trim_left trim_prefix
    has_prefix host_path host_path_prefix validate_host_path join clean is_abs elements keep
    clean_step render backtrack
serves_file = refl

refuses_parent : serve_http services store (asks (bytes "/f/../x")) ≡ panicked
unfolding serve_http serve_between serve_spoofed serve_for serve_static serve_mount serve_local_dir
    parse_ip_from_host_port parse_local_ip find_by_ip put_indexed new_store get put to16 str_eq make
    get_mount get_mount_from is_exact is_above trim_left trim_prefix has_prefix host_path
    host_path_prefix validate_host_path join clean is_abs elements keep clean_step render backtrack
refuses_parent = refl

serve_http_source_example :
    ((f : StaticFile) × (IsStatic services store (asks (bytes "/f/x")) f
        × (f.contents ≡ bytes "x")))
    ⊎ ((mount : Mount) × (IsChosen services store (asks (bytes "/f/x")) mount
          × IsFrom services store (asks (bytes "/f/x")) mount (bytes "x")))
serve_http_source_example =
    serve_http_source services store (asks (bytes "/f/x")) (bytes "/f/x") (bytes "x") serves_file
