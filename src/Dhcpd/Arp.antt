-- ===== src/Dhcpd/Arp.antt =====
-- dhcpd/arp: the request that InjectArpFd lays out for the system call SIOCSARP, as each of the
-- three build variants of the package does it.
pub mod Layout
use netbootd.Prelude.{
  ℕ, ◌-◌, Option, none, some, List, [], ◌∷◌, map, Bytes, bytes, ltb, if◌then◌else◌, Result, ok, err,
}
use netbootd.GoStd.Ip.{Ip, to4, octets}

-- The build that is running: arp_linux_64.go, arp_linux.go or arp_notlinux.go.
pub data Platform : Type 0 where
  linux_64 linux_other not_linux : Platform

-- An int8: `pos n` is n and `negsuc n` is -(n + 1).
pub data ℤ : Type 0 where
  pos : ℕ → ℤ
  negsuc : ℕ → ℤ

-- int8(b), for a byte
unfoldable pub int8 : ℕ → ℤ
int8 b = if ltb b 128 then pos b else negsuc (255 - b)

-- arpReq; the elements of `ha_data` are int8 on linux_64, and bytes elsewhere.
pub record ArpReq : Type 0 where
  pub pa_family : ℕ
  pub pa_addr : Bytes
  pub ha_data : List ℤ
  pub flags : ℕ
  pub dev : Bytes

abbrev pub af_inet : ℕ
af_inet = 2

abbrev pub atf_com : ℕ
atf_com = 0x02

abbrev pub zeroes : List ℤ
zeroes =
    pos 0
    ∷ pos 0
    ∷ pos 0
    ∷ pos 0
    ∷ pos 0
    ∷ pos 0
    ∷ pos 0
    ∷ pos 0
    ∷ pos 0
    ∷ pos 0
    ∷ pos 0
    ∷ pos 0
    ∷ pos 0
    ∷ pos 0
    ∷ []

abbrev pub zero_name : Bytes
zero_name = 0 ∷ 0 ∷ 0 ∷ 0 ∷ 0 ∷ 0 ∷ 0 ∷ 0 ∷ 0 ∷ 0 ∷ 0 ∷ 0 ∷ 0 ∷ 0 ∷ 0 ∷ 0 ∷ []

-- copy(dst[:], src)
unfoldable pub copy {ℓ} : {A : Type ℓ} → List A → List A → List A
copy [] src = []
copy (d ∷ dst) [] = d ∷ dst
copy (d ∷ dst) (x ∷ src) = x ∷ copy dst src

abbrev and_then : ℤ → Option (List ℤ) → Option (List ℤ)
and_then x none = none
and_then x (some l) = some (x ∷ l)

-- The loop of arp_linux_64.go over the address; `none` is the panic of an index out of range.
unfoldable pub set_each : List ℤ → Bytes → Option (List ℤ)
set_each dst [] = some dst
set_each [] (b ∷ mac) = none
set_each (d ∷ dst) (b ∷ mac) = and_then (int8 b) (set_each dst mac)

pub data Injection : Type 0 where
  panicked injected : Injection
  failed : Bytes → Injection

unfoldable pub arp_req : Ip → List ℤ → ℕ → Bytes → ArpReq
arp_req ip data_elements flags dev = record {
  pa_family = af_inet;
  pa_addr = copy (0 ∷ 0 ∷ 0 ∷ 0 ∷ []) (octets (to4 ip));
  ha_data = data_elements;
  flags = flags;
  dev = copy zero_name dev;
}

abbrev pub errno_of : Option Bytes → Injection
errno_of none = injected
errno_of (some errno) = failed errno

-- The rest of arp_linux_64.go's function, after its loop.
abbrev pub sent_to : (ArpReq → Option Bytes) → Ip → ℕ → Bytes → Option (List ℤ) → Injection
sent_to ioctl ip flags dev none = panicked
sent_to ioctl ip flags dev (some d) = errno_of (ioctl (arp_req ip d flags dev))

-- InjectArpFd; `ioctl` is the errno of the system call on the descriptor.
unfoldable pub inject_arp_fd :
    Platform → (ArpReq → Option Bytes) → Ip → Bytes → ℕ → Bytes → Injection
inject_arp_fd linux_64 ioctl ip mac flags dev = sent_to ioctl ip flags dev (set_each zeroes mac)
inject_arp_fd linux_other ioctl ip mac flags dev =
    errno_of (ioctl (arp_req ip (copy zeroes (map pos mac)) flags dev))
inject_arp_fd not_linux ioctl ip mac flags dev = failed (bytes "not implemented")

-- InjectArp; `socket` is the error of the socket that it opens, or none.
unfoldable pub inject_arp :
    Platform → Option Bytes → (ArpReq → Option Bytes) → Ip → Bytes → ℕ → Bytes → Injection
inject_arp not_linux socket ioctl ip mac flags dev = failed (bytes "not implemented")
inject_arp platform (some e) ioctl ip mac flags dev = failed e
inject_arp platform none ioctl ip mac flags dev = inject_arp_fd platform ioctl ip mac flags dev
