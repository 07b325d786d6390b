-- ===== src/Dhcpd/Host.antt =====
-- dhcpd/handler.go: getIpv4ForInterface, and what the handler reads of the machine that it runs on.
use netbootd.Prelude.{
  ℕ, Bool, Option, none, some, List, [], ◌∷◌, Bytes, bytes, ◌==◌, if◌then◌else◌, Result, ok, err,
}
use netbootd.GoStd.Ip.{Ip, to4, is_loopback}
use netbootd.Dhcpd.Arp.{Platform, ArpReq}

-- An address of an interface: a *net.IPNet, or another net.Addr.
pub data Addr : Type 0 where
  ip_net : Ip → Addr
  other_addr : Addr

pub record NetInterface : Type 0 where
  pub name : Bytes
  pub addrs : Result (List Addr)

-- The server's interface (index 0 and no name if it is bound to none), the interface that the
-- datagram came in on, and the calls to the system. `syscall_conn` is the error of SyscallConn,
-- `control_runs` whether Control calls its function, `ioctl` the errno of SIOCSARP.
pub record Host : Type 0 where
  pub interface_index : ℕ
  pub interface_name : Bytes
  pub oob : Option ℕ
  pub interface_by_index : ℕ → Result NetInterface
  pub syscall_conn : Option Bytes
  pub control_runs : Bool
  pub platform : Platform
  pub ioctl : ArpReq → Option Bytes
  pub ip_string : Ip → Bytes

abbrev pub four : Ip → Result Ip → Result Ip
four none rest = rest
four (some b) rest = ok (some b)

-- The loop of getIpv4ForInterface
unfoldable pub first_ipv4 : List Addr → Result Ip
first_ipv4 [] = err (bytes "no IP found")
first_ipv4 (other_addr ∷ addresses) = first_ipv4 addresses
first_ipv4 (ip_net ip ∷ addresses) =
    let rest = first_ipv4 addresses in if is_loopback ip then rest else four (to4 ip) rest

abbrev pub addresses_of : Result NetInterface → Result Ip
addresses_of (err e) = err e
addresses_of (ok netif) = elim netif.addrs [ err e ↦ err e | ok addresses ↦ first_ipv4 addresses ]

-- getIpv4ForInterface
unfoldable pub get_ipv4_for_interface : Host → ℕ → Result Ip
get_ipv4_for_interface host i = addresses_of (host.interface_by_index i)

abbrev pub index_or : ℕ → Option ℕ → ℕ
index_or i none = i
index_or i (some j) = j

unfoldable pub local_ip : Host → Result Ip
local_ip host =
    get_ipv4_for_interface host
      (if host.interface_index == 0 then index_or 0 host.oob else host.interface_index)
