-- ===== src/Dhcpd/Server.antt =====
-- dhcpd/server.go: NewServer, what Serve does before its loop, and one round of the loop.
use netbootd.Prelude.{
  ℕ, Option, none, some, [], ◌++◌, Bytes, bytes, str_eq, if◌then◌else◌, Result, ok, err, ◌>>=◌,
  with_error,
}
use netbootd.GoStd.Ip.{Ip, is_multicast}
use netbootd.Store.Defs.{Store}
use netbootd.Dhcpd.Host.{Host}
use netbootd.Dhcpd.Packet.{Dhcpv4}
use netbootd.Dhcpd.Defs.{UdpAddr, Outcome, handle_msg4}

-- `address` and `zone` are the fields of server.address, whose port is 67; the interface has index 0
-- and no name until Serve sets it.
pub record Server : Type 0 where
  pub address : Ip
  pub zone : Bytes
  pub interface_index : ℕ
  pub interface_name : Bytes

abbrev pub server_at : Ip → Bytes → Server
server_at ip ifname = record {
  address = ip;
  zone = ifname;
  interface_index = 0;
  interface_name = [];
}

abbrev parsed : Bytes → Bytes → Ip → Result Server
parsed addr ifname none = err (bytes "invalid ip: " ++ addr)
parsed addr ifname (some ip) = ok (server_at (some ip) ifname)

-- NewServer
unfoldable pub new_server : (Bytes → Ip) → Bytes → Bytes → Result Server
new_server parse_ip addr ifname =
    if str_eq addr [] then ok (server_at none ifname) else parsed addr ifname (parse_ip addr)

-- The system calls of Serve, with their errors; `interface_by_name` gives an index and a name.
pub record Sockets : Type 0 where
  pub listen : Bytes → Ip → Option Bytes
  pub interface_by_name : Bytes → Result (ℕ × Bytes)
  pub set_control_message : Option Bytes
  pub join_group : Ip → Option Bytes

abbrev pub on_interface : Server → ℕ × Bytes → Server
on_interface server (index, name) = record server { interface_index = index; interface_name = name }

-- The interface that Serve is bound to, or the flag that asks for one with each datagram.
unfoldable pub with_interface : Sockets → Server → Result Server
with_interface sockets server =
    if str_eq server.zone []
    then with_error sockets.set_control_message server
    else (sockets.interface_by_name server.zone >>= λ ifi. ok (on_interface server ifi))

-- Serve up to its loop; an error is one of its calls of Fatal, which end the process.
unfoldable pub bind : Sockets → Server → Result Server
bind sockets server =
    with_error (sockets.listen server.zone server.address) server >>= λ (s : Server).
    with_interface sockets s >>= λ (s : Server).
    if is_multicast s.address then with_error (sockets.join_group s.address) s else ok s

-- The peer that ReadFrom returns.
pub data Peer : Type 0 where
  udp_peer : UdpAddr → Peer
  other_peer no_peer : Peer

-- What ReadFrom returns; the loop only logs the error.
pub record Read : Type 0 where
  pub buf : Bytes
  pub oob : Option ℕ
  pub peer : Peer
  pub failure : Option Bytes

pub record Datagram : Type 0 where
  pub buf : Bytes
  pub oob : Option ℕ
  pub peer : UdpAddr

-- The arguments of HandleMsg4 in a round of the loop; none is the panic of the type assertion.
unfoldable pub received : Read → Option Datagram
received r = elim r.peer [
  | udp_peer a ↦ some (record { buf = r.buf; oob = r.oob; peer = a })
  | other_peer ↦ none
  | no_peer ↦ none
]

-- The machine as HandleMsg4 sees it for a datagram.
abbrev pub host_for : Server → Host → Datagram → Host
host_for server host d = record host {
  interface_index = server.interface_index;
  interface_name = server.interface_name;
  oob = d.oob;
}

-- The goroutine that answers a datagram.
unfoldable pub answer_datagram :
    (lib : Dhcpv4) → Host → Server → Store → Datagram → Outcome lib.Options
answer_datagram lib host server s d = handle_msg4 lib (host_for server host d) s d.buf
