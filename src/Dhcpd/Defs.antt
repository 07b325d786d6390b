-- ===== src/Dhcpd/Defs.antt =====
-- dhcpd/handler.go: HandleMsg4, from a datagram and the store to the reply that is written and its
-- destination, to nothing or to a panic. The network interfaces, the raw connection and the system
-- call are parameters, the fields of `Host`. An error of WriteTo is only logged.
use netbootd.Prelude.{
  ℕ, Bool, true, false, not, ◌&&◌, ◌||◌, Option, none, some, List, [], ◌∷◌, Bytes, bytes, str_eq,
  ltb, suc, ◌==◌, if◌then◌else◌, Result, ok, err,
}
use netbootd.GoStd.Strings.{contains}
use netbootd.GoStd.Ip.{Ip, equal, is_unspecified, is_link_local_unicast, ipv4_zero, ipv4_bcast}
use netbootd.Manifest.Defs.{Manifest}
use netbootd.Store.Defs.{Store, Ptr, find_by_mac}
use netbootd.Dhcpd.Arp.{Injection, panicked, injected, failed, inject_arp_fd, atf_com}
use netbootd.Dhcpd.Host.{NetInterface, Host, local_ip}
use netbootd.Dhcpd.Packet.{
  Request, DhcpOption, opt_message_type, opt_server_identifier, opt_subnet_mask,
  opt_ip_address_lease_time, opt_host_name, opt_dns, opt_router, opt_ntp_servers,
  opt_tftp_server_name, opt_boot_file_name, opt_generic, Reply, Dhcpv4, opcode_boot_request,
  message_type_discover, message_type_offer, message_type_request, message_type_ack,
  message_type_nak, option_router, option_domain_name_server, option_host_name,
  option_boot_file_size, option_ntp_servers, option_tftp_server_name, option_bootfile_name,
  server_port, client_port,
}

pub record UdpAddr : Type 0 where
  pub ip : Ip
  pub port : ℕ

-- What WriteTo is called with: the bytes of the reply, the interface and the destination.
pub record Sent (Options : Type 0) : Type 0 where
  pub reply : Reply Options
  pub packet : Bytes
  pub woob : Option ℕ
  pub peer : UdpAddr

pub data Outcome (Options : Type 0) : Type 0 where
  dropped crashed : Outcome Options
  sent : Sent Options → Outcome Options

-- The loop of stringSlicesEqual, where `b` has the entries from `i` on.
unfoldable pub slices_equal_from : List Bytes → List Bytes → Bool
slices_equal_from [] b = true
slices_equal_from (v ∷ a) [] = false
slices_equal_from (v ∷ a) (w ∷ b) = if not (str_eq v w) then false else slices_equal_from a b

abbrev count : List Bytes → ℕ
count [] = 0
count (x ∷ xs) = suc (count xs)

-- stringSlicesEqual
unfoldable pub string_slices_equal : List Bytes → List Bytes → Bool
unfolding slices_equal_from
string_slices_equal a b = if not (count a == count b) then false else slices_equal_from a b

-- The switch on the message type: the type of the reply.
unfoldable pub reply_type : ℕ → Option ℕ
reply_type mt =
    if mt == message_type_discover
    then some message_type_offer
    else if mt == message_type_request
    then some message_type_ack
    else none

abbrev pub is_ipxe : Request → Bool
is_ipxe req = string_slices_equal req.user_class (bytes "iPXE" ∷ [])

abbrev is_present : Ip → Bool
is_present none = false
is_present (some _) = true

-- The test that drops a request for another server.
unfoldable pub is_for_other_server : Request → Ip → Bool
is_for_other_server req local =
    is_present req.server_ip_addr
    && (not (equal req.server_ip_addr ipv4_zero) && not (equal req.server_ip_addr local))

abbrev is_uefi : List ℕ → Bool
is_uefi [] = false
is_uefi (arch ∷ _) = ltb 0 arch

-- The boot file of a manifest for a request.
unfoldable pub boot_file : Manifest → Request → Bytes
boot_file m req =
    if is_ipxe req || not m.ipxe
    then m.boot_filename
    else if is_uefi req.client_arch
    then (if contains req.class_identifier (bytes "PXEClient:Arch:00011")
        then bytes "ipxe_arm64.efi"
        else bytes "ipxe.efi")
    else bytes "undionly.kpxe"

-- `bootFileSize` is declared and never set.
abbrev boot_file_size : ℕ
boot_file_size = 0

module _ (lib : Dhcpv4) where
  open lib use {Options, update}

  unfoldable pub update_if : Bool → DhcpOption → Options → Options
  update_if true x o = update o x
  update_if false x o = o

  -- The updates of the reply's options, in order, for the manifest of the client.
  unfoldable pub fill_options : Host → Manifest → Request → Ip → Options → Options
  fill_options host m req local o =
      let asks = req.is_option_requested in
      let o = update o (opt_server_identifier local) in
      let o = update o (opt_subnet_mask m.ipv4.mask) in
      let o =
        update_if (req.op_code == opcode_boot_request && not (m.lease_duration == 0))
          (opt_ip_address_lease_time m.lease_duration) o in
      let o = update_if (asks option_host_name) (opt_host_name m.hostname) o in
      let o = update_if (asks option_domain_name_server) (opt_dns m.dns) o in
      let o = update_if (asks option_router) (opt_router m.router) o in
      let o = update_if (asks option_ntp_servers) (opt_ntp_servers m.ntp) o in
      let o =
        update_if (asks option_tftp_server_name && not m.suspended)
          (opt_tftp_server_name (host.ip_string local)) o in
      let o =
        update_if (asks option_bootfile_name && not m.suspended)
          (opt_boot_file_name (boot_file m req)) o in
      let o =
        update_if (asks option_boot_file_size && ltb 0 boot_file_size)
          (opt_generic option_boot_file_size boot_file_size) o in
      update_if (is_ipxe req) (opt_generic 176 1) o

  unfoldable pub fill_reply : Host → Manifest → Request → Ip → Reply Options → Reply Options
  fill_reply host m req local resp = record {
    server_ip_addr = local;
    your_ip_addr = m.ipv4.ip;
    options = fill_options host m req local resp.options;
  }

  abbrev name_of : Result NetInterface → Bytes
  name_of (ok netif) = netif.name
  name_of (err e) = []

  unfoldable pub arp_device : Host → Bytes
  arp_device host =
      if str_eq host.interface_name []
      then elim host.oob [
        | none ↦ []
        | some i ↦ if i == 0 then [] else name_of (host.interface_by_index i)
      ]
      else host.interface_name

  abbrev no_error : Option Bytes → Bool
  no_error none = true
  no_error (some e) = false

  -- The call of InjectArpFd for an address that the client does not have yet, and the tests around
  -- it: `failed` is also the outcome where it is not called.
  unfoldable pub inject : Host → Request → Ip → Injection
  inject host req your_ip =
      if not (str_eq (arp_device host) []) && no_error host.syscall_conn
      then (if host.control_runs
          then inject_arp_fd host.platform host.ioctl your_ip req.client_hw_addr atf_com
              (arp_device host)
          else injected)
      else failed []

  abbrev pub peer_for : Reply Options → Injection → Option UdpAddr
  peer_for resp panicked = none
  peer_for resp injected = some (record { ip = resp.your_ip_addr; port = client_port })
  peer_for resp (failed e) = some (record { ip = ipv4_bcast; port = client_port })

  -- The destination of a reply; none is a panic.
  unfoldable pub choose_peer : Host → Request → Reply Options → Option UdpAddr
  choose_peer host req resp =
      if not (is_unspecified req.gateway_ip_addr)
      then some (record { ip = req.gateway_ip_addr; port = server_port })
      else if lib.message_type resp.options == message_type_nak
      then some (record { ip = ipv4_bcast; port = client_port })
      else if not (is_unspecified req.client_ip_addr)
      then some (record { ip = req.client_ip_addr; port = client_port })
      else if req.is_broadcast
      then some (record { ip = ipv4_bcast; port = client_port })
      else peer_for resp (inject host req resp.your_ip_addr)

  abbrev nonzero : Option ℕ → Option ℕ
  nonzero none = none
  nonzero (some i) = if i == 0 then none else some i

  -- The interface that a broadcast or link-local reply is bound to.
  unfoldable pub choose_woob : Host → UdpAddr → Option ℕ
  choose_woob host peer =
      if equal peer.ip ipv4_bcast || is_link_local_unicast peer.ip
      then (if not (host.interface_index == 0) then some host.interface_index else nonzero host.oob)
      else none

  -- The call of WriteTo, after ToBytes.
  abbrev pub written : Host → Reply Options → UdpAddr → Option Bytes → Outcome Options
  written host resp peer none = crashed
  written host resp peer (some b) =
      sent (record { reply = resp; packet = b; woob = choose_woob host peer; peer = peer })

  abbrev pub sent_to : Host → Reply Options → Option UdpAddr → Outcome Options
  sent_to host resp none = crashed
  sent_to host resp (some peer) = written host resp peer (lib.to_bytes resp)

  unfoldable pub respond : Host → Request → Reply Options → Outcome Options
  respond host req resp = sent_to host resp (choose_peer host req resp)

  unfoldable pub answer_known :
      Host → Store → Request → Ip → Reply Options → Option Ptr → Outcome Options
  answer_known host s req local resp none = dropped
  answer_known host s req local resp (some p) =
      if is_for_other_server req local
      then dropped
      else respond host req (fill_reply host (s.heap.cell p) req local resp)

  unfoldable pub answer_local : Host → Store → Request → Reply Options → Result Ip → Outcome Options
  answer_local host s req resp (err e) = dropped
  answer_local host s req resp (ok local) =
      answer_known host s req local resp (find_by_mac s req.client_hw_addr)

  unfoldable pub answer_typed : Host → Store → Request → Reply Options → Option ℕ → Outcome Options
  answer_typed host s req resp none = dropped
  answer_typed host s req resp (some t) =
      answer_local host s req (record resp { options = update resp.options (opt_message_type t) })
        (local_ip host)

  unfoldable pub answer_new : Host → Store → Request → Result (Reply Options) → Outcome Options
  answer_new host s req (err e) = dropped
  answer_new host s req (ok resp) = answer_typed host s req resp (reply_type req.message_type)

  unfoldable pub answer_request : Host → Store → Request → Outcome Options
  answer_request host s req =
      if not (req.op_code == opcode_boot_request)
      then dropped
      else answer_new host s req (lib.new_reply_from_request req)

  unfoldable pub answer_parsed : Host → Store → Result Request → Outcome Options
  answer_parsed host s (err e) = dropped
  answer_parsed host s (ok req) = answer_request host s req

  -- Server.HandleMsg4
  unfoldable pub handle_msg4 : Host → Store → Bytes → Outcome Options
  handle_msg4 host s buf = answer_parsed host s (lib.from_bytes buf)
