-- ===== src/Cmd/ProcessTests.antt =====
-- A request over TFTP for the directory of the bundled files.
use netbootd.Prelude.{
  ◌≡◌, ◌↔◌, refl, false, none, some, List, [], ◌∷◌, bytes, err, ok, if◌then◌else◌, str_eq, make,
  get, put,
}
use netbootd.GoStd.Ip.{to16, is_multicast}
use netbootd.Store.Defs.{Config, new_store, put_manifest, put_indexed, find_by_ip}
use netbootd.Store.Steps.{System, Step, start}
use netbootd.Dhcpd.Sample.{machine, lib, host, chaddr}
use netbootd.Dhcpd.Server.{Server, Sockets, bind, with_interface}
use netbootd.Tftpd.Defs as Tftp
use netbootd.Tftpd.Defs.{tftp_read_handler}
use netbootd.Httpd.Defs as Http
use netbootd.Cmd.Process.{
  ProcessEvent, bound, fetched, Process, down, Run, begin, store_step, serve, fetch, after_bind,
  after_fetch,
}
use netbootd.Cmd.Faults.{HasFault, process_down_iff}

abbrev tftp : Tftp.Services
tftp = record {
  root_path = [];
  open_static = λ name.
      if str_eq name (bytes ".")
      then ok (record { name = bytes "."; is_read_seeker = false; contents = [] })
      else err (bytes "file does not exist");
  new_request = λ _. none;
  send = λ _ _. err [];
  parse_template = λ _. err [];
  open_file = λ _. err [];
  read_from = λ _. none;
  ip_string = λ _. [];
  decimal = λ _. [];
  host_port = λ _ _. [];
}

abbrev http : Http.Services
http = record {
  root_path = [];
  split_host_port = λ _. err [];
  parse_ip = λ _. none;
  open_static = λ _. err [];
  parse_template = λ _. err [];
  parse_url = λ _. err [];
  open_file = λ _. err [];
  ip_string = λ _. [];
  host_port = λ _ _. [];
}

abbrev request : Tftp.ReadRequest
request = record {
  filename = bytes ".";
  remote_ip = machine.ipv4.ip;
  remote_port = 1069;
  local_ip = none;
}

abbrev cfg : Config
cfg = record { persistence_directory = [] }

abbrev stored : System
stored = record (start cfg (λ _. machine)) {
  store = (put_manifest (start cfg (λ _. machine)).store machine).1;
}

opens_directory : tftp_read_handler tftp stored.store request ≡ Tftp.panicked
unfolding tftp_read_handler Tftp.read_for Tftp.serve_static find_by_ip put_manifest put_indexed
    new_store get put to16 str_eq make
opens_directory = refl

abbrev sockets : Sockets
sockets = record {
  listen = λ _ _. none;
  interface_by_name = λ _. err [];
  set_control_message = none;
  join_group = λ _. none;
}

abbrev created : Server
created = record { address = none; zone = []; interface_index = 0; interface_name = [] }

binds : bind sockets created ≡ ok created
unfolding bind with_interface is_multicast str_eq
binds = refl

abbrev process : Process
process = record { system = stored; dhcp = some created; waiting = []; encoding = 0 }

abbrev events : List ProcessEvent
events = fetched stored.store request ∷ bound ∷ []

-- DHCP serves, the manifest is put, and then the directory is asked for.
run : Run lib host sockets created false tftp http cfg (λ _. machine) events down
unfolding after_fetch after_bind
run =
    let begun : Run lib host sockets created false tftp http cfg (λ _. machine) [] _ = begin in
    let serving = rw binds at (serve begun refl) in
    let after : Run lib host sockets created false tftp http cfg (λ _. machine) events
        (after_fetch false process (tftp_read_handler tftp stored.store request)) =
      fetch request (store_step serving (Step.put machine)) in
    rw opens_directory at after

process_down_iff_example :
    (down ≡ down) ↔ HasFault lib host sockets created false tftp http cfg (λ _. machine) events
process_down_iff_example =
    process_down_iff lib host sockets created false tftp http cfg (λ _. machine) chaddr run
