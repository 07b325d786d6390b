-- ===== src/Dhcpd/Sample.antt =====
-- A packet library, a host and a client for the tests of this folder.
use netbootd.Prelude.{
  arith, ap, ℕ, ◌≡◌, ◌↔◌, ◌⊎◌, ◌&&◌, refl, ◌∙◌, true, false, Option, none, some, List, [], ◌∷◌,
  Bytes, bytes, make, ◌==◌, if◌then◌else◌, ok, str_eq, get, put,
}
use netbootd.GoStd.Ip.{Ip, to16, to4, is_loopback, equal, is_unspecified}
use netbootd.GoStd.Mac.{mac_string}
use netbootd.Manifest.Defs.{Manifest}
use netbootd.Manifest.HardwareAddr
use netbootd.Store.Defs.{Store, new_store, put_indexed, put_macs, find_by_mac}
use netbootd.Manifest.HardwareAddr.{unmarshal_text}
use netbootd.Dhcpd.Arp.{linux_64, inject_arp_fd, set_each, copy, int8, arp_req}
use netbootd.Dhcpd.Host.{ip_net, NetInterface, Host, local_ip, first_ipv4, get_ipv4_for_interface}
use netbootd.Dhcpd.Packet.{
  Request, Reply, Dhcpv4, DhcpOption, code_of, opt_message_type, is_writable,
}
use netbootd.Dhcpd.Defs.{
  Sent, sent, reply_type, is_for_other_server, boot_file, fill_options, choose_peer, choose_woob,
  respond, UdpAddr, inject, arp_device, written, sent_to, fill_reply, update_if, handle_msg4,
  string_slices_equal,
}
use netbootd.Dhcpd.Crash.{ReadsChaddr}
use netbootd.Dhcpd.Server.{Server}
use netbootd.Dhcpd.Answer.{Answer, reply_of, handle_msg4_of_Answer}

abbrev pub client : Bytes
client = 0 ∷ 21 ∷ 93 ∷ 189 ∷ 190 ∷ 21 ∷ []

abbrev pub machine : Manifest
machine = record {
  id = bytes "a";
  ipv4 = record { ip = some (192 ∷ 168 ∷ 17 ∷ 101 ∷ []); mask = 255 ∷ 255 ∷ 255 ∷ 0 ∷ [] };
  hostname = [];
  domain = [];
  lease_duration = 3600;
  mac = client ∷ [];
  dns = [];
  router = [];
  ntp = [];
  ipxe = true;
  boot_filename = bytes "install.ipxe";
  mounts = [];
  suspended = false;
  vars = make;
}

abbrev pub store : Store
store = put_indexed (new_store (record { persistence_directory = [] }) (λ _. machine)) machine

abbrev pub discover : Request
discover = record {
  op_code = 1;
  message_type = 1;
  client_hw_addr = client;
  server_ip_addr = none;
  gateway_ip_addr = some (0 ∷ 0 ∷ 0 ∷ 0 ∷ []);
  client_ip_addr = some (0 ∷ 0 ∷ 0 ∷ 0 ∷ []);
  is_broadcast = false;
  is_option_requested = λ code. code == 67;
  user_class = [];
  client_arch = [];
  class_identifier = [];
}

abbrev pub fresh : Reply (List DhcpOption)
fresh = record { server_ip_addr = none; your_ip_addr = none; options = [] }

abbrev pub get_option : List DhcpOption → ℕ → Option DhcpOption
get_option [] code = none
get_option (x ∷ o) code = if code_of x == code then some x else get_option o code

abbrev pub type_in : Option DhcpOption → ℕ
type_in (some (opt_message_type t)) = t
type_in _ = 0

abbrev pub bytes_of : Reply (List DhcpOption) → Option Bytes
bytes_of r = if is_writable r.server_ip_addr && is_writable r.your_ip_addr then some [] else none

pub bytes_of_panics_iff :
    (r : Reply (List DhcpOption))
    → (bytes_of r ≡ none)
      ↔ ((is_writable r.server_ip_addr ≡ false) ⊎ (is_writable r.your_ip_addr ≡ false))
bytes_of_panics_iff r = ground arith

-- Every datagram is a Discover of the client.
abbrev pub lib : Dhcpv4
lib = record {
  Options = List DhcpOption;
  from_bytes = λ _. ok discover;
  new_reply_from_request = λ _. ok fresh;
  update = λ o x. x ∷ o;
  get = get_option;
  get-update = λ o x code. refl;
  message_type = λ o. type_in (get_option o 53);
  message_type_lem = λ o t h. rw h refl;
  to_bytes = bytes_of;
  to_bytes_panics_iff = bytes_of_panics_iff;
}

abbrev pub server_ip : Ip
server_ip = some (192 ∷ 168 ∷ 17 ∷ 1 ∷ [])

abbrev pub netif : NetInterface
netif = record {
  name = bytes "eth0";
  addrs = ok (ip_net (some (127 ∷ 0 ∷ 0 ∷ 1 ∷ [])) ∷ (ip_net server_ip ∷ []));
}

abbrev pub host : Host
host = record {
  interface_index = 2;
  interface_name = bytes "eth0";
  oob = none;
  interface_by_index = λ _. ok netif;
  syscall_conn = none;
  control_runs = true;
  platform = linux_64;
  ioctl = λ _. none;
  ip_string = λ _. [];
}

pub located : local_ip host ≡ ok server_ip
unfolding local_ip get_ipv4_for_interface first_ipv4 is_loopback to4
located = refl

pub known : find_by_mac store client ≡ some 0
unfolding find_by_mac put_indexed new_store put_macs HardwareAddr.string mac_string get put make
    str_eq to16
known = refl

pub ours : is_for_other_server discover server_ip ≡ false
unfolding is_for_other_server
ours = refl

pub typed : reply_type 1 ≡ some 2
unfolding reply_type
typed = refl

abbrev pub answer : Answer lib host store []
answer = record {
  req = discover;
  fresh = fresh;
  type = 2;
  local = server_ip;
  at = 0;
  parsed = refl;
  is_request = refl;
  built = refl;
  typed = typed;
  located = located;
  known = known;
  is_ours = ours;
}

abbrev pub destination : UdpAddr
destination = record { ip = machine.ipv4.ip; port = 68 }

pub chosen : choose_peer lib host discover (reply_of lib host store [] answer) ≡ some destination
unfolding choose_peer inject arp_device inject_arp_fd is_unspecified equal to4 fill_reply
    fill_options update_if string_slices_equal boot_file str_eq set_each copy int8 arp_req
    put_indexed new_store
chosen = refl

pub whole : lib.to_bytes (reply_of lib host store [] answer) ≡ some []
unfolding fill_reply put_indexed new_store is_writable to4
whole = refl

abbrev pub offer : Sent (List DhcpOption)
offer = record {
  reply = reply_of lib host store [] answer;
  packet = [];
  woob = choose_woob lib host destination;
  peer = destination;
}

pub sends : handle_msg4 lib host store [] ≡ sent offer
unfolding respond
sends =
    handle_msg4_of_Answer lib host store [] answer
    ∙ ap (sent_to lib host (reply_of lib host store [] answer)) chosen
    ∙ ap (written lib host (reply_of lib host store [] answer) destination) whole

same_request : (r : Request) → ok discover ≡ ok r → discover ≡ r
same_request r h = cc

-- The packet library's one request has an address of six bytes.
pub chaddr : ReadsChaddr lib
chaddr buf req h = rw⁻¹ (ap (λ (r : Request). r.client_hw_addr) (same_request req h)) (omega arith)

abbrev pub service : Server
service = record {
  address = none;
  zone = bytes "eth0";
  interface_index = 2;
  interface_name = bytes "eth0";
}
