-- ===== src/Dhcpd/Tests.antt =====
-- Datagrams on which the theorems about dhcpd/handler.go are applied.
use netbootd.Prelude.{
  true, ap, ℕ, ◌≡◌, ◌↔◌, ◌⊎◌, refl, ◌∙◌, false, none, some, List, [], ◌∷◌, bytes, make,
  if◌then◌else◌, ok, str_eq, get, put,
}
use netbootd.GoStd.Ip.{to16, to4, equal, is_unspecified}
use netbootd.Store.Defs.{Store, Ptr, new_store, put_indexed, find_by_ip, find_by_mac, set_suspended}
use netbootd.Api.Defs
use netbootd.Api.Defs.{Env, Codec, self_manifest_at, self_address, query_first, at, suspend_boot}
use netbootd.Api.Effects.{suspend_boot_shared}
use netbootd.Dhcpd.Arp.{inject_arp_fd, set_each, copy, int8, arp_req}
use netbootd.Dhcpd.Host.{local_ip}
use netbootd.Dhcpd.Packet.{
  Request, DhcpOption, opt_server_identifier, opt_subnet_mask, opt_ip_address_lease_time,
  opt_boot_file_name, opt_generic, is_writable,
}
use netbootd.Dhcpd.Defs.{
  Sent, sent, crashed, is_ipxe, boot_file, fill_options, choose_peer, choose_woob, respond, inject,
  arp_device, written, sent_to, fill_reply, update_if, handle_msg4, string_slices_equal,
}
use netbootd.Dhcpd.Options.{is_set, get-fill_options}
use netbootd.Dhcpd.Answer.{Answer, reply_of, handle_msg4_of_Answer}
use netbootd.Dhcpd.Sent.{handle_msg4_reply}
use netbootd.Dhcpd.Crash.{Overruns}
use netbootd.Dhcpd.Exact.{Answerable, address_of, handle_msg4_sent_iff, handle_msg4_crashed_iff}
use netbootd.Dhcpd.Kept.{IsLike, suspend_boot_still_sent}
use netbootd.Dhcpd.Suspended.{suspend_boot_reply}
use netbootd.Dhcpd.Sample.{
  client, machine, store, discover, fresh, get_option, lib, server_ip, host, located, known, ours,
  typed, destination, offer, sends, chaddr,
}

handle_msg4_sent_iff_example :
    ((x : Sent (List DhcpOption)) × (handle_msg4 lib host store [] ≡ sent x)) ↔ (
      (a : Answerable lib host store []) × (¬ Overruns lib host a.req)
      × (is_writable (address_of lib host store a.at) ≡ true))
handle_msg4_sent_iff_example = handle_msg4_sent_iff lib host store [] chaddr

handle_msg4_crashed_iff_example : (handle_msg4 lib host store [] ≡ crashed) ↔ (
    (a : Answerable lib host store []) × (Overruns lib host a.req
      ⊎ (is_writable (address_of lib host store a.at) ≡ false)))
handle_msg4_crashed_iff_example = handle_msg4_crashed_iff lib host store [] chaddr

handle_msg4_reply_example :
    (req : Request) × ((p : Ptr) × ((lib.from_bytes [] ≡ ok req)
        × (find_by_mac store req.client_hw_addr ≡ some p)
        × (offer.reply.your_ip_addr ≡ (store.heap.cell p).ipv4.ip)
        × (local_ip host ≡ ok offer.reply.server_ip_addr)
        × (((req.message_type ≡ 1) × (lib.message_type offer.reply.options ≡ 2))
            ⊎ ((req.message_type ≡ 3) × (lib.message_type offer.reply.options ≡ 5)))))
handle_msg4_reply_example = handle_msg4_reply lib host store [] offer sends

abbrev codec : Codec
codec = record { marshal = λ _. ok []; marshal_all = λ _. ok []; unmarshal = λ _. ok machine }

abbrev env : Env
env = record {
  authorization = bytes "secret";
  root_path = [];
  yaml = codec;
  json = codec;
  split_host_port = λ _. ok (bytes "192.168.17.101", bytes "4000");
  parse_ip = λ _. some (192 ∷ 168 ∷ 17 ∷ 101 ∷ []);
}

abbrev request : Defs.Request
request = record {
  authorization = [];
  accept = [];
  content_type = [];
  id = [];
  query = λ _. [];
  remote_addr = [];
  body = [];
}

found : self_manifest_at env request store ≡ at 0
unfolding self_manifest_at self_address query_first find_by_ip put_indexed new_store get put to16
    str_eq make
found = refl

get-fill_options_example :
    let read = get_option (fill_options lib host machine discover server_ip []) in
    ((code : ℕ) → is_set code ≡ false → read code ≡ get_option [] code)
    × ((read 1 ≡ some (opt_subnet_mask machine.ipv4.mask))
        × (read 54 ≡ some (opt_server_identifier server_ip))
        × (read 51 ≡ some (opt_ip_address_lease_time machine.lease_duration))
        × (read 12 ≡ none)
        × (read 6 ≡ none)
        × (read 3 ≡ none)
        × (read 42 ≡ none)
        × (read 66 ≡ none)
        × (read 67 ≡ some (opt_boot_file_name (boot_file machine discover)))
        × (read 176 ≡ (if is_ipxe discover then some (opt_generic 176 1) else none))
        × (read 13 ≡ none))
get-fill_options_example = get-fill_options lib host machine discover server_ip [] refl

abbrev suspended : Store
suspended = (suspend_boot env request store).1

known_suspended : find_by_mac suspended client ≡ some 0
known_suspended = (suspend_boot_shared env request store 0 found).4 client ∙ known

abbrev answer_suspended : Answer lib host suspended []
answer_suspended = record {
  req = discover;
  fresh = fresh;
  type = 2;
  local = server_ip;
  at = 0;
  parsed = refl;
  is_request = refl;
  built = refl;
  typed = typed;
  located = located;
  known = known_suspended;
  is_ours = ours;
}

chosen_suspended :
    choose_peer lib host discover (reply_of lib host suspended [] answer_suspended)
    ≡ some destination
unfolding choose_peer inject arp_device inject_arp_fd is_unspecified equal to4 fill_reply
    fill_options update_if string_slices_equal boot_file str_eq set_each copy int8 arp_req
    put_indexed new_store suspend_boot self_manifest_at self_address query_first find_by_ip get put
    to16 make set_suspended
chosen_suspended = refl

whole_suspended : lib.to_bytes (reply_of lib host suspended [] answer_suspended) ≡ some []
unfolding fill_reply put_indexed new_store is_writable to4 suspend_boot self_manifest_at
    self_address query_first find_by_ip get put to16 str_eq make set_suspended
whole_suspended = refl

abbrev offer_suspended : Sent (List DhcpOption)
offer_suspended = record {
  reply = reply_of lib host suspended [] answer_suspended;
  packet = [];
  woob = choose_woob lib host destination;
  peer = destination;
}

sends_suspended : handle_msg4 lib host suspended [] ≡ sent offer_suspended
unfolding respond
sends_suspended =
    handle_msg4_of_Answer lib host suspended [] answer_suspended
    ∙ ap (sent_to lib host (reply_of lib host suspended [] answer_suspended)) chosen_suspended
    ∙ ap (written lib host (reply_of lib host suspended [] answer_suspended) destination)
        whole_suspended

suspend_boot_reply_example :
    (get_option offer_suspended.reply.options 66 ≡ none)
    × (get_option offer_suspended.reply.options 67 ≡ none)
suspend_boot_reply_example =
    suspend_boot_reply lib host env request store 0 [] discover fresh offer_suspended found refl
      refl known sends_suspended

suspend_boot_still_sent_example :
    (y : Sent (List DhcpOption)) × ((handle_msg4 lib host (suspend_boot env request store).1 []
        ≡ sent y)
      × IsLike lib host offer y)
suspend_boot_still_sent_example =
    suspend_boot_still_sent lib host env request store 0 [] offer found sends
