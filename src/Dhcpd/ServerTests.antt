-- ===== src/Dhcpd/ServerTests.antt =====
-- A server on one interface, on which the theorem of Dhcpd/Bound is applied.
use netbootd.Prelude.{ℕ, ◌≡◌, ◌≢◌, ◌⊎◌, refl, true, some, none, [], ◌∷◌, Bytes, bytes, ok, str_eq}
use netbootd.GoStd.Ip.{Ip, is_multicast, to4}
use netbootd.Dhcpd.Arp.{linux_64}
use netbootd.Dhcpd.Host.{NetInterface, ip_net, Host, get_ipv4_for_interface, index_or, local_ip}
use netbootd.Dhcpd.Server.{Server, Sockets, new_server, with_interface, bind, Datagram, host_for}
use netbootd.Dhcpd.Bound.{bind_local_ip}

abbrev address : Ip
address = some (192 ∷ 168 ∷ 17 ∷ 1 ∷ [])

abbrev sockets : Sockets
sockets = record {
  listen = λ _ _. none;
  interface_by_name = λ name. ok (2, name);
  set_control_message = none;
  join_group = λ _. none;
}

abbrev eth0 : NetInterface
eth0 = record { name = bytes "eth0"; addrs = ok (ip_net address ∷ []) }

abbrev host : Host
host = record {
  interface_index = 0;
  interface_name = [];
  oob = none;
  interface_by_index = λ _. ok eth0;
  syscall_conn = none;
  control_runs = true;
  platform = linux_64;
  ioctl = λ _. none;
  ip_string = λ _. [];
}

abbrev server : Server
server = record { address = address; zone = bytes "eth0"; interface_index = 0; interface_name = [] }

abbrev bound : Server
bound = record server { interface_index = 2; interface_name = bytes "eth0" }

abbrev datagram : Datagram
datagram = record { buf = []; oob = some 3; peer = record { ip = none; port = 68 } }

created : new_server (λ _. address) (bytes "192.168.17.1") (bytes "eth0") ≡ ok server
unfolding new_server str_eq
created = refl

binds : bind sockets server ≡ ok bound
unfolding bind with_interface str_eq is_multicast to4
binds = refl

bind_local_ip_example :
    ((bytes "eth0" ≡ [])
      × (local_ip (host_for bound host datagram)
          ≡ get_ipv4_for_interface host (index_or 0 (some 3))))
    ⊎ ((ifi : ℕ × Bytes) × ((sockets.interface_by_name (bytes "eth0") ≡ ok ifi)
          × (ifi.0 ≢ 0
              → local_ip (host_for bound host datagram) ≡ get_ipv4_for_interface host ifi.0)))
bind_local_ip_example =
    bind_local_ip sockets (λ _. address) (bytes "192.168.17.1") (bytes "eth0") server bound host
      datagram created binds
