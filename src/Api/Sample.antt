-- ===== src/Api/Sample.antt =====
-- The manifest and the requests on which the theorems of this folder are applied.
use netbootd.Prelude.{true, false, some, [], ◌∷◌, bytes, make, String, ok}
use netbootd.Manifest.Defs.{Manifest}
use netbootd.Store.Defs.{Store, new_store}
use netbootd.Api.Defs.{Codec, Env, Request}

abbrev pub machine : Manifest
machine = record {
  id = bytes "a";
  ipv4 = record { ip = some (192 ∷ 168 ∷ 17 ∷ 101 ∷ []); mask = 255 ∷ 255 ∷ 255 ∷ 0 ∷ [] };
  hostname = [];
  domain = [];
  lease_duration = 0;
  mac = (0 ∷ 21 ∷ 93 ∷ 189 ∷ 190 ∷ 21 ∷ []) ∷ [];
  dns = [];
  router = [];
  ntp = [];
  ipxe = true;
  boot_filename = bytes "install.ipxe";
  mounts = [];
  suspended = false;
  vars = make;
}

-- Every text decodes to `machine`, and every value is encoded as "x".
abbrev pub codec : Codec
codec = record {
  marshal = λ _. ok (bytes "x");
  marshal_all = λ _. ok (bytes "x");
  unmarshal = λ _. ok machine;
}

-- Every address parses as that of `machine`.
abbrev pub env : Env
env = record {
  authorization = bytes "secret";
  root_path = [];
  yaml = codec;
  json = codec;
  split_host_port = λ _. ok (bytes "192.168.17.101", bytes "4000");
  parse_ip = λ _. some (192 ∷ 168 ∷ 17 ∷ 101 ∷ []);
}

abbrev pub request : String → Request
request authorization = record {
  authorization = bytes authorization;
  accept = [];
  content_type = [];
  id = bytes "a";
  query = λ _. [];
  remote_addr = bytes "192.168.17.101:4000";
  body = [];
}

abbrev pub empty : Store
empty = new_store (record { persistence_directory = [] }) (λ _. machine)
