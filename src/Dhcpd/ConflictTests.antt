-- ===== src/Dhcpd/ConflictTests.antt =====
-- Three manifests on which DHCP gives one address to two machines.
use netbootd.Prelude.{
  true, ◌≡◌, ◌≢◌, refl, arith, false, some, List, [], ◌∷◌, Bytes, bytes, str_eq, str_eq_iff,
  if◌then◌else◌, ok, inl,
}
use netbootd.GoStd.Mac.{mac_string}
use netbootd.GoStd.Ip.{to16, to4}
use netbootd.Manifest.Defs.{Manifest}
use netbootd.Manifest.HardwareAddr
use netbootd.Manifest.HardwareAddr.{string}
use netbootd.Store.Defs.{Store, find, find_by_ip, ip_key, put_manifest}
use netbootd.Store.Macs.{has_key}
use netbootd.Store.Seen.{seen}
use netbootd.Dhcpd.Packet.{Request, Dhcpv4, DhcpOption, is_writable}
use netbootd.Dhcpd.Defs.{Sent, sent, is_for_other_server, handle_msg4}
use netbootd.Dhcpd.Asking.{IsAsking}
use netbootd.Dhcpd.Conflict.{stale_address_conflict}
use netbootd.Dhcpd.Sample.{
  client, machine, store, discover, fresh, lib, server_ip, host, located, typed,
}

abbrev newcomer : Bytes
newcomer = 0 ∷ 21 ∷ 93 ∷ 189 ∷ 190 ∷ 23 ∷ []

-- The machine has a new network card and address.
abbrev replaced : Manifest
replaced = record machine {
  ipv4 = record { ip = some (192 ∷ 168 ∷ 17 ∷ 102 ∷ []); mask = 255 ∷ 255 ∷ 255 ∷ 0 ∷ [] };
  mac = (0 ∷ 21 ∷ 93 ∷ 189 ∷ 190 ∷ 22 ∷ []) ∷ [];
}

-- Another machine has its old address.
abbrev next_machine : Manifest
next_machine = record machine { id = bytes "b"; mac = newcomer ∷ [] }

abbrev from_newcomer : Request
from_newcomer = record discover { client_hw_addr = newcomer }

abbrev three_put : Store
three_put = (put_manifest (put_manifest (put_manifest store machine).1 replaced).1 next_machine).1

-- The datagram "b" is a Discover of the other machine.
abbrev two_clients : Dhcpv4
two_clients = record lib {
  from_bytes = λ buf. if str_eq buf (bytes "b") then ok from_newcomer else ok discover;
}

ours : is_for_other_server discover server_ip ≡ false
unfolding is_for_other_server
ours = refl

ours' : is_for_other_server from_newcomer server_ip ≡ false
unfolding is_for_other_server
ours' = refl

asks : IsAsking two_clients host [] discover
unfolding str_eq
asks = record {
  fresh = fresh;
  type = 2;
  local = server_ip;
  are_bytes = omega arith;
  short = omega arith;
  parsed = refl;
  is_request = refl;
  built = refl;
  typed = typed;
  located = located;
  is_ours = ours;
}

asks' : IsAsking two_clients host (bytes "b") from_newcomer
unfolding str_eq
asks' = record {
  fresh = fresh;
  type = 2;
  local = server_ip;
  are_bytes = omega arith;
  short = omega arith;
  parsed = refl;
  is_request = refl;
  built = refl;
  typed = typed;
  located = located;
  is_ours = ours';
}

next_writable : is_writable next_machine.ipv4.ip ≡ true
unfolding is_writable to4
next_writable = refl

differ : (x y : Bytes) → str_eq x y ≡ false → x ≢ y
differ x y apart e = cc (apart, (str_eq_iff x y).1 e)

other_ip : ip_key replaced.ipv4.ip ≢ ip_key next_machine.ipv4.ip
unfolding to16 str_eq
other_ip = differ (ip_key replaced.ipv4.ip) (ip_key next_machine.ipv4.ip) refl

other_id : machine.id ≢ next_machine.id
unfolding str_eq
other_id = differ machine.id next_machine.id refl

not_replaced : has_key (string client) replaced.mac ≡ false
unfolding HardwareAddr.string mac_string str_eq
not_replaced = refl

not_next : has_key (string client) next_machine.mac ≡ false
unfolding HardwareAddr.string mac_string str_eq
not_next = refl

stale_address_conflict_example :
    ((seen three_put (find three_put (bytes "a")) ≡ some replaced)
      × (seen three_put (find_by_ip three_put replaced.ipv4.ip) ≡ some replaced))
    × ((seen three_put (find three_put (bytes "b")) ≡ some next_machine)
        × (seen three_put (find_by_ip three_put next_machine.ipv4.ip) ≡ some next_machine))
    × ((x : Sent (List DhcpOption)) × (handle_msg4 two_clients host three_put [] ≡ sent x)
        × (x.reply.your_ip_addr ≡ next_machine.ipv4.ip))
    × ((x : Sent (List DhcpOption)) × (handle_msg4 two_clients host three_put (bytes "b") ≡ sent x)
        × (x.reply.your_ip_addr ≡ next_machine.ipv4.ip))
stale_address_conflict_example =
    stale_address_conflict store machine replaced next_machine (cc, cc) (cc, cc) (cc, cc) refl
      other_id two_clients host [] (bytes "b") discover from_newcomer refl next_writable other_ip
      asks asks' (inl refl) not_replaced not_next (inl refl)
