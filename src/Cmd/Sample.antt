-- ===== src/Cmd/Sample.antt =====
-- Settings and machines on which the theorems of this folder are applied.
use netbootd.Prelude.{true, false, none, some, [], ◌∷◌, ◌++◌, bytes, String, err, ok, make}
use netbootd.Manifest.Defs.{Manifest}
use netbootd.Cmd.Startup.{Settings, Machine}
use netbootd.Api.Defs.{Codec, Env, Request}

abbrev pub blank : Manifest
blank = record {
  id = [];
  ipv4 = record { ip = none; mask = [] };
  hostname = [];
  domain = [];
  lease_duration = 0;
  mac = [];
  dns = [];
  router = [];
  ntp = [];
  ipxe = false;
  boot_filename = [];
  mounts = [];
  suspended = false;
  vars = make;
}

abbrev pub settings : String → Settings
settings address = record {
  trace = false;
  debug = true;
  address = bytes address;
  interface = [];
  http_port = 8080;
  syslog_port = 514;
  syslog_port_text = bytes "514";
  api_port = 8081;
  tls_cert = [];
  tls_key = [];
  authorization = some (bytes "secret");
  manifest_path = [];
  root_path = [];
}

-- Every socket can be bound, and no text is an IP address.
abbrev pub machine : Machine
machine = record {
  unmarshal = λ _. err (bytes "no YAML");
  read_file = λ _. err (bytes "no file");
  read_dir = λ _. ([], none);
  unallocated = λ _. blank;
  parse_ip = λ _. none;
  join_host_port = λ host port. host ++ b':' ∷ port;
  listen_udp = λ _ _. none;
  listen_tcp = λ _ _. none;
  syslog_listen_udp = λ _. none;
  syslog_listen_tcp = λ _. none;
}

abbrev pub stored : Manifest
stored = record blank {
  id = bytes "a";
  ipv4 = record { ip = some (10 ∷ 0 ∷ 0 ∷ 1 ∷ []); mask = [] };
}

abbrev pub codec : Codec
codec = record {
  marshal = λ _. ok (bytes "x");
  marshal_all = λ _. ok (bytes "x");
  unmarshal = λ _. ok stored;
}

abbrev pub env : Env
env = record {
  authorization = bytes "secret";
  root_path = [];
  yaml = codec;
  json = codec;
  split_host_port = λ _. ok (bytes "10.0.0.1", bytes "4000");
  parse_ip = λ _. some (10 ∷ 0 ∷ 0 ∷ 1 ∷ []);
}

abbrev pub request : Request
request = record {
  authorization = bytes "secret";
  accept = [];
  content_type = [];
  id = bytes "a";
  query = λ _. [];
  remote_addr = bytes "10.0.0.1:4000";
  body = [];
}

-- A directory with one manifest.
abbrev pub with_files : Machine
with_files = record machine {
  unmarshal = codec.unmarshal;
  read_file = λ _. ok [];
  read_dir = λ _. (record { name = bytes "a.yml"; is_regular = true } ∷ [], none);
}

abbrev pub with_manifests : Settings
with_manifests = record (settings "") { manifest_path = bytes "/etc/netbootd" }
