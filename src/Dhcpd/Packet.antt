-- ===== src/Dhcpd/Packet.antt =====
-- What dhcpd/handler.go uses of github.com/insomniacslk/dhcp/dhcpv4, as an interface: a request as
-- the values that its methods return, an option as the call that builds it, and the options of a
-- reply with Update, Get and MessageType. The laws are those of a map from codes to values, and when
-- ToBytes panics.
use netbootd.Prelude.{
  ℕ, ◌≡◌, ◌↔◌, ◌⊎◌, Bool, true, false, Option, none, some, List, Bytes, Result, ◌==◌, if◌then◌else◌,
}
use netbootd.GoStd.Ip.{Ip, to4}

-- The codes of RFC 2131 and RFC 2132.
abbrev pub opcode_boot_request : ℕ
opcode_boot_request = 1

abbrev pub message_type_discover : ℕ
message_type_discover = 1

abbrev pub message_type_offer : ℕ
message_type_offer = 2

abbrev pub message_type_request : ℕ
message_type_request = 3

abbrev pub message_type_ack : ℕ
message_type_ack = 5

abbrev pub message_type_nak : ℕ
message_type_nak = 6

abbrev pub message_type_release : ℕ
message_type_release = 7

abbrev pub option_router : ℕ
option_router = 3

abbrev pub option_domain_name_server : ℕ
option_domain_name_server = 6

abbrev pub option_host_name : ℕ
option_host_name = 12

abbrev pub option_boot_file_size : ℕ
option_boot_file_size = 13

abbrev pub option_ntp_servers : ℕ
option_ntp_servers = 42

abbrev pub option_dhcp_message_type : ℕ
option_dhcp_message_type = 53

abbrev pub option_tftp_server_name : ℕ
option_tftp_server_name = 66

abbrev pub option_bootfile_name : ℕ
option_bootfile_name = 67

abbrev pub server_port : ℕ
server_port = 67

abbrev pub client_port : ℕ
client_port = 68

pub record Request : Type 0 where
  pub op_code : ℕ
  pub message_type : ℕ
  pub client_hw_addr : Bytes
  pub server_ip_addr : Ip
  pub gateway_ip_addr : Ip
  pub client_ip_addr : Ip
  pub is_broadcast : Bool
  pub is_option_requested : ℕ → Bool
  pub user_class : List Bytes
  pub client_arch : List ℕ
  pub class_identifier : Bytes

-- The functions OptMessageType and so on, and an option written out with its code.
pub data DhcpOption : Type 0 where
  opt_message_type : ℕ → DhcpOption
  opt_server_identifier : Ip → DhcpOption
  opt_subnet_mask : Bytes → DhcpOption
  opt_ip_address_lease_time : ℕ → DhcpOption
  opt_host_name : Bytes → DhcpOption
  opt_dns : List Ip → DhcpOption
  opt_router : List Ip → DhcpOption
  opt_ntp_servers : List Ip → DhcpOption
  opt_tftp_server_name : Bytes → DhcpOption
  opt_boot_file_name : Bytes → DhcpOption
  opt_generic : ℕ → ℕ → DhcpOption

abbrev pub code_of : DhcpOption → ℕ
code_of (opt_message_type t) = 53
code_of (opt_server_identifier ip) = 54
code_of (opt_subnet_mask mask) = 1
code_of (opt_ip_address_lease_time d) = 51
code_of (opt_host_name name) = 12
code_of (opt_dns ips) = 6
code_of (opt_router ips) = 3
code_of (opt_ntp_servers ips) = 42
code_of (opt_tftp_server_name name) = 66
code_of (opt_boot_file_name name) = 67
code_of (opt_generic code value) = code

-- nil, which is written as 0.0.0.0, or an address with a form of four bytes
unfoldable pub is_writable : Ip → Bool
is_writable none = true
is_writable (some b) = elim (to4 (some b)) [ none ↦ false | some _ ↦ true ]

pub record Reply (Options : Type 0) : Type 0 where
  pub server_ip_addr : Ip
  pub your_ip_addr : Ip
  pub options : Options

-- `to_bytes` is none where ToBytes panics: it cuts four bytes off To4 of an address that is not nil. The
-- other addresses of a reply are those of the request, which have four bytes.
pub record Dhcpv4 : Type 1 where
  pub Options : Type 0
  pub from_bytes : Bytes → Result Request
  pub new_reply_from_request : Request → Result (Reply Options)
  pub update : Options → DhcpOption → Options
  pub get : Options → ℕ → Option DhcpOption
  pub get-update :
      (o : Options) (x : DhcpOption) (code : ℕ)
      → get (update o x) code ≡ (if code_of x == code then some x else get o code)
  pub message_type : Options → ℕ
  pub message_type_lem :
      (o : Options) (t : ℕ) → get o 53 ≡ some (opt_message_type t) → message_type o ≡ t
  pub to_bytes : Reply Options → Option Bytes
  pub to_bytes_panics_iff :
      (r : Reply Options)
      → (to_bytes r ≡ none)
        ↔ ((is_writable r.server_ip_addr ≡ false) ⊎ (is_writable r.your_ip_addr ≡ false))
