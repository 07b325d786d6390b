-- ===== src/Boot/WebTests.antt =====
-- A request over HTTP that spoofs the address of a suspended machine.
use netbootd.Prelude.{
  ◌≡◌, ◌<◌, get, put, refl, arith, true, false, some, [], ◌∷◌, bytes, ok, err, inr, str_eq,
  if◌then◌else◌,
}
use netbootd.GoStd.Strings.{trim_left}
use netbootd.Manifest.Defs.{Mount, Manifest, get_mount, get_mount_from, is_exact, is_above}
use netbootd.Store.Defs.{Config, new_store, put_manifest, set_suspended, find}
use netbootd.Store.Seen.{seen}
use netbootd.Store.Steps.{System, Step, here, start, Reach-IsSound}
use netbootd.Store.Durable.{stay, more}
use netbootd.Dhcpd.Sample.{machine}
use netbootd.Httpd.Defs.{
  Services, HttpRequest, served, parse_ip_from_host_port, parse_local_ip, serve_http,
}
use netbootd.Boot.Web.{spoofed, scripted, mounted, web_boot}

abbrev script : Mount
script = record {
  path = bytes "install.ipxe";
  path_is_prefix = false;
  proxy = [];
  append_suffix = false;
  content = bytes "#!ipxe";
  local_dir = [];
}

abbrev scripted_machine : Manifest
scripted_machine = record machine { mounts = script ∷ [] }

-- A connection from 10.0.0.9; every other address is that of the machine.
abbrev http : Services
http = record {
  root_path = [];
  split_host_port = λ host_port. ok (host_port, []);
  parse_ip = λ host.
      if str_eq host (bytes "10.0.0.9")
      then some (10 ∷ 0 ∷ 0 ∷ 9 ∷ [])
      else some (192 ∷ 168 ∷ 17 ∷ 101 ∷ []);
  open_static = λ _. err (bytes "file does not exist");
  parse_template = λ text. ok (λ _. ok text);
  parse_url = λ _. err [];
  open_file = λ _. err [];
  ip_string = λ _. [];
  host_port = λ _ _. [];
}

abbrev request : HttpRequest
request = record {
  remote_addr = bytes "10.0.0.9";
  local_addr = some (bytes "10.0.0.9");
  query = λ key. if str_eq key (bytes "spoof") then bytes "192.168.17.101" ∷ [] else [];
  path = bytes "/install.ipxe";
  host = bytes "netbootd";
}

abbrev cfg : Config
cfg = record { persistence_directory = [] }

abbrev before : System
before = start cfg (λ _. scripted_machine)

abbrev stored : System
stored = record before { store = (put_manifest before.store scripted_machine).1 }

abbrev suspended : System
suspended = record stored { store = set_suspended stored.store 0 true }

was_put : 0 < stored.store.heap.next
unfolding new_store put_manifest str_eq
was_put = omega arith

seen_suspended :
    seen suspended.store (find suspended.store (bytes "a"))
    ≡ some (record scripted_machine { suspended = true })
unfolding new_store put_manifest str_eq set_suspended find get put
seen_suspended = refl

remote : parse_ip_from_host_port http request.remote_addr ≡ ok (some (10 ∷ 0 ∷ 0 ∷ 9 ∷ []))
unfolding parse_ip_from_host_port str_eq
remote = refl

local : parse_local_ip http request.local_addr ≡ ok (some (10 ∷ 0 ∷ 0 ∷ 9 ∷ []))
unfolding parse_local_ip parse_ip_from_host_port str_eq
local = refl

chosen : get_mount (record scripted_machine { suspended = true }) request.path ≡ ok script
unfolding get_mount get_mount_from is_exact is_above trim_left str_eq
chosen = refl

web_boot_example :
    (serve_http http suspended.store request ≡ served (bytes "install.ipxe") (bytes "#!ipxe"))
    × (record scripted_machine { suspended = true } ≡ record scripted_machine { suspended = true })
unfolding str_eq
web_boot_example =
    web_boot http scripted_machine request (some (10 ∷ 0 ∷ 0 ∷ 9 ∷ [])) (some (10 ∷ 0 ∷ 0 ∷ 9 ∷ []))
      (Reach-IsSound cfg (λ _. scripted_machine) here) (cc, cc) (λ i p h. absurd (cc))
      (more stay (Step.suspend 0 true was_put) tt) seen_suspended remote local
      (spoofed (bytes "192.168.17.101") [] (192 ∷ 168 ∷ 17 ∷ 101 ∷ []) refl (cc) refl refl)
      (mounted script (inr (bytes "file does not exist", refl)) chosen
        (scripted (bytes "#!ipxe") (cc) refl))
