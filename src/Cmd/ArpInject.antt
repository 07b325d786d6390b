-- ===== src/Cmd/ArpInject.antt =====
-- cmd/arpinject.go: the arpinject command. net.ParseIP and the kernel calls are parameters.
use netbootd.Prelude.{ℕ, ◌≡◌, ◌≢◌, refl, Option, none, some, [], Bytes, bytes}
use netbootd.GoStd.Ip.{Ip}
use netbootd.GoStd.Mac.{parse_mac}
use netbootd.Dhcpd.Arp.{
  Platform, linux_64, linux_other, not_linux, ArpReq, atf_com, Injection, zeroes, copy, set_each,
  arp_req, inject_arp_fd, inject_arp, errno_of,
}

-- A Fatal, or the call of InjectArp and whether an error of ParseMAC was logged before it.
pub data Injected : Type 0 where
  invalid_ip : Injected
  called : Option Bytes → Injection → Injected

pub record Kernel : Type 0 where
  pub platform : Platform
  pub parse_ip : Bytes → Ip
  pub socket : Option Bytes
  pub ioctl : ArpReq → Option Bytes

abbrev with_mac : Kernel → Ip → Bytes → Option Bytes → Injected
with_mac kernel ip device (some mac) =
    called none (inject_arp kernel.platform kernel.socket kernel.ioctl ip mac atf_com device)
with_mac kernel ip device none =
    called (some (bytes "cannot parse mac"))
      (inject_arp kernel.platform kernel.socket kernel.ioctl ip [] atf_com device)

abbrev with_ip : Kernel → Bytes → Bytes → Ip → Injected
with_ip kernel mac device none = invalid_ip
with_ip kernel mac device (some ip) = with_mac kernel (some ip) device (parse_mac mac)

-- arpInjectCmd, for its three flags
unfoldable pub arp_inject : Kernel → Bytes → Bytes → Bytes → Injected
arp_inject kernel ip mac device = with_ip kernel mac device (kernel.parse_ip ip)

inject_arp-nil :
    (platform : Platform) (ioctl : ArpReq → Option Bytes) (ip : Ip) (flags : ℕ) (device : Bytes)
    → platform ≢ not_linux
    → inject_arp platform none ioctl ip [] flags device
      ≡ errno_of (ioctl (arp_req ip zeroes flags device))
unfolding inject_arp inject_arp_fd set_each copy
inject_arp-nil linux_64 ioctl ip flags device ne = refl
inject_arp-nil linux_other ioctl ip flags device ne = refl
inject_arp-nil not_linux ioctl ip flags device ne = absurd (ne refl)

-- With a hardware address that cannot be parsed the command still asks the kernel, on Linux, for
-- an entry: the one with the hardware address that is all zeroes.
pub arp_inject_unparsed :
    (kernel : Kernel) (ip mac device a : Bytes)
    → kernel.parse_ip ip ≡ some a
    → parse_mac mac ≡ none
    → kernel.platform ≢ not_linux
    → kernel.socket ≡ none
    → arp_inject kernel ip mac device
      ≡ called
          (some (bytes "cannot parse mac"))
          (errno_of (kernel.ioctl (arp_req (some a) zeroes atf_com device)))
unfolding arp_inject
arp_inject_unparsed kernel ip mac device a valid unparsed linux opened =
    rw
      (
        valid,
        unparsed,
        opened,
        inject_arp-nil kernel.platform kernel.ioctl (some a) atf_com device linux,
      )
      refl
