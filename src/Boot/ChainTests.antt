-- ===== src/Boot/ChainTests.antt =====
-- A machine that boots from a bundled file, and calls suspend-boot between its two requests.
use netbootd.Prelude.{
  ◌≡◌, ◌<◌, get, put, refl, ap, arith, true, false, some, ◌∷◌, none, [], bytes, ok, err, inl, List,
  str_eq,
}
use netbootd.GoStd.Ip.{to4}
use netbootd.GoStd.Strings.{trim_left}
use netbootd.Manifest.Defs.{Mount, Manifest, get_mount, get_mount_from, is_exact, is_above}
use netbootd.Store.Defs.{Config, new_store, put_manifest, set_suspended, find}
use netbootd.Store.Put.{IsStorable, find-put_manifest}
use netbootd.Store.Seen.{seen}
use netbootd.Store.Steps.{System, Step, here, start, Reach-IsSound}
use netbootd.Store.Durable.{stay, more}
use netbootd.Dhcpd.Packet.{DhcpOption, opt_boot_file_name, is_writable}
use netbootd.Dhcpd.Defs.{Sent, sent, boot_file, handle_msg4, string_slices_equal}
use netbootd.Dhcpd.Sample.{machine, discover, fresh, lib, server_ip, host, located, ours, typed}
use netbootd.Tftpd.Defs.{Services, Upstream, ReadRequest, returned, transferred, tftp_read_handler}
use netbootd.Boot.Fetches.{Fetches, bundled, proxied, mounted}
use netbootd.Boot.Chain.{IsBootRequest, network_boot}

abbrev tftp : Services
tftp = record {
  root_path = [];
  open_static = λ _.
      ok (record {
        name = bytes "undionly.kpxe";
        is_read_seeker = true;
        contents = bytes "undionly";
      });
  new_request = λ _. none;
  send = λ _ _. err [];
  parse_template = λ text. ok (λ _. ok text);
  open_file = λ _. err [];
  read_from = λ _. none;
  ip_string = λ _. [];
  decimal = λ _. [];
  host_port = λ _ _. [];
}

abbrev request : ReadRequest
request = record {
  filename = bytes "undionly.kpxe";
  remote_ip = machine.ipv4.ip;
  remote_port = 1069;
  local_ip = server_ip;
}

abbrev cfg : Config
cfg = record { persistence_directory = [] }

abbrev before : System
before = start cfg (λ _. machine)

abbrev stored : System
stored = record before { store = (put_manifest before.store machine).1 }

abbrev suspended : System
suspended = record stored { store = set_suspended stored.store 0 true }

storable : IsStorable machine
storable = (cc, cc)

writable : is_writable machine.ipv4.ip ≡ true
unfolding is_writable to4
writable = refl

was_put : 0 < stored.store.heap.next
unfolding new_store put_manifest str_eq
was_put = omega arith

boots : IsBootRequest lib host machine [] discover
boots = record {
  fresh = fresh;
  type = 2;
  local = server_ip;
  owned = inl refl;
  are_bytes = omega arith;
  short = omega arith;
  parsed = refl;
  is_request = refl;
  built = refl;
  typed = typed;
  located = located;
  is_ours = ours;
  asks = refl;
}

boot_name : request.filename ≡ boot_file machine discover
unfolding boot_file string_slices_equal
boot_name = refl

seen_put : seen stored.store (find stored.store (bytes "a")) ≡ some machine
seen_put =
    let (by_id, _, _, cell) = find-put_manifest before.store machine storable in
    rw by_id (ap some cell)

seen_suspended :
    seen suspended.store (find suspended.store (bytes "a"))
    ≡ some (record machine { suspended = true })
unfolding new_store put_manifest str_eq set_suspended find get put
seen_suspended = refl

network_boot_example :
    (x : Sent (List DhcpOption)) × (handle_msg4 lib host stored.store [] ≡ sent x)
    × (x.reply.your_ip_addr ≡ machine.ipv4.ip)
    × (lib.get x.reply.options 67 ≡ some (opt_boot_file_name (bytes "undionly.kpxe")))
    × (tftp_read_handler tftp suspended.store request
        ≡ returned none (record { size = none; contents = some (bytes "undionly") }))
network_boot_example =
    network_boot lib host machine [] discover boots tftp request
      (Reach-IsSound cfg (λ _. machine) here) storable writable (λ i p h. absurd (cc)) stay
      (more stay (Step.suspend 0 true was_put) tt) seen_put refl boot_name refl seen_suspended
      (bundled
        (record {
          name = bytes "undionly.kpxe";
          is_read_seeker = true;
          contents = bytes "undionly";
        })
        refl refl refl)

abbrev upstream : Upstream
upstream = record {
  status_code = 200;
  status = bytes "200 OK";
  content_length = none;
  body = bytes "grub";
}

abbrev relaying : Services
relaying = record tftp { send = λ _ _. ok upstream }

abbrev relayed : Mount
relayed = record {
  path = bytes "undionly.kpxe";
  path_is_prefix = false;
  proxy = bytes "http://upstream/grub";
  append_suffix = false;
  content = [];
  local_dir = [];
}

abbrev plain : Manifest
plain = record machine { ipxe = false; mounts = relayed ∷ [] }

chosen : get_mount plain request.filename ≡ ok relayed
unfolding get_mount get_mount_from is_exact is_above trim_left str_eq
chosen = refl

relayed-Fetches :
    Fetches relaying stored.store plain request (transferred relaying none (bytes "grub"))
relayed-Fetches = mounted relayed (inl refl) chosen (proxied upstream (cc) refl refl refl)
