-- ===== src/Dhcpd/Stored.antt =====
-- A manifest put into the store, as dhcpd/handler.go then answers its machine.
use netbootd.Prelude.{ℕ, ◌≤◌, ◌≡◌, ap, ◌∙◌, true, false, some, Bytes, ◌==◌, In, length, ok, ==_iff}
use netbootd.GoStd.Ip.{Ip}
use netbootd.Manifest.Defs.{Manifest}
use netbootd.Store.Defs.{Store, put_manifest}
use netbootd.Store.Put.{IsStorable, find-put_manifest}
use netbootd.Dhcpd.Host.{Host, local_ip}
use netbootd.Dhcpd.Packet.{Request, Reply, Dhcpv4, is_writable}
use netbootd.Dhcpd.Defs.{Sent, sent, reply_type, is_for_other_server, handle_msg4}
use netbootd.GoStd.Mac.Laws.{AreBytes}
use netbootd.Dhcpd.Asking.{IsAsking, handle_msg4_found}

-- After PutManifest of a manifest with an IPv4 address and an ID, a Discover or a Request of one of its
-- hardware addresses, of 14 bytes at most, for this server or for any, is answered with that IP
-- address, if a reply can be built and the server has an IPv4 address.
pub handle_msg4-put_manifest :
    (lib : Dhcpv4) (host : Host) (s : Store) (m : Manifest) (buf : Bytes) (req : Request)
    (fresh : Reply lib.Options) (type : ℕ) (local : Ip)
    → IsStorable m
    → is_writable m.ipv4.ip ≡ true
    → In req.client_hw_addr m.mac
    → AreBytes req.client_hw_addr
    → length req.client_hw_addr ≤ 14
    → lib.from_bytes buf ≡ ok req
    → (req.op_code == 1) ≡ true
    → lib.new_reply_from_request req ≡ ok fresh
    → reply_type req.message_type ≡ some type
    → local_ip host ≡ ok local
    → is_for_other_server req local ≡ false
    → (x : Sent lib.Options) × ((handle_msg4 lib host (put_manifest s m).1 buf ≡ sent x)
        × (x.reply.your_ip_addr ≡ m.ipv4.ip))
handle_msg4-put_manifest lib host s m buf req fresh type local storable writable i are_bytes short
      parsed op built typed located ours =
    let (_, _, by_mac, cell) = find-put_manifest s m storable in
    let asks : IsAsking lib host buf req = record {
      fresh = fresh;
      type = type;
      local = local;
      are_bytes = are_bytes;
      short = short;
      parsed = parsed;
      is_request = (==_iff req.op_code 1).0 op;
      built = built;
      typed = typed;
      located = located;
      is_ours = ours;
    } in
    let (x, handled, given) =
      handle_msg4_found lib host buf req (put_manifest s m).1 s.heap.next asks
        (by_mac req.client_hw_addr i)
        (ap (λ (n : Manifest). is_writable n.ipv4.ip) cell ∙ writable) in
    (x, (handled, given ∙ ap (λ (n : Manifest). n.ipv4.ip) cell))
