-- ===== src/Dhcpd/Conflict.antt =====
-- Two machines that dhcpd/handler.go gives one address, from a store of store/store.go in which no two
-- manifests have one.
use netbootd.Prelude.{true, ◌+◌, ◌≡◌, ◌≢◌, ap, sym, ◌∙◌, arith, false, some, Bytes, In}
use netbootd.Manifest.Defs.{Manifest}
use netbootd.Manifest.HardwareAddr.{HardwareAddr, string}
use netbootd.Store.Defs.{Store, ip_key, put_indexed, put_manifest, find, find_by_ip, find_by_mac}
use netbootd.Store.Macs.{has_key}
use netbootd.Store.Put.{IsStorable, stored, find-put_manifest, find-put_manifest_ne}
use netbootd.Store.Seen.{seen}
use netbootd.Dhcpd.Host.{Host}
use netbootd.Dhcpd.Packet.{Request, Dhcpv4, is_writable}
use netbootd.Dhcpd.Defs.{Sent, sent, handle_msg4}
use netbootd.Dhcpd.Asking.{IsAsking, handle_msg4_found}

next-put_manifest :
    (s : Store) (m : Manifest) → IsStorable m → (put_manifest s m).1.heap.next ≡ s.heap.next + 1
unfolding put_indexed
next-put_manifest s m storable = rw (stored s m storable) (omega arith)

-- The second of three manifests replaces the first one under its ID, and the third one has the first
-- one's address.
module _ (s : Store) (a a' b : Manifest) (storable : IsStorable a) (storable' : IsStorable a')
    (storable_b : IsStorable b) (same_id : a'.id ≡ a.id) (other_id : a.id ≢ b.id) where
  abbrev first : Store
  first = (put_manifest s a).1

  abbrev second : Store
  second = (put_manifest first a').1

  abbrev third : Store
  third = (put_manifest second b).1

  -- The second manifest is found by its ID, and by its address where the third one has another.
  finds_second :
      ip_key a'.ipv4.ip ≢ ip_key b.ipv4.ip
      → (seen third (find third a.id) ≡ some a')
        × (seen third (find_by_ip third a'.ipv4.ip) ≡ some a')
  finds_second other_ip =
      let (by_id, by_ip, _, cell) = find-put_manifest first a' storable' in
      let (ids, ips, _, cells) = find-put_manifest_ne second b storable_b in
      let apart : first.heap.next ≢ second.heap.next =
        λ e. absurd (omega (arith, next-put_manifest first a' storable')) in
      let kept = ap some (cells first.heap.next apart ∙ cell) in
      (
        rw (ids a.id other_id, ap (find second) (sym same_id) ∙ by_id) kept,
        rw (ips a'.ipv4.ip other_ip, by_ip) kept,
      )

  finds_third :
      (seen third (find third b.id) ≡ some b) × (seen third (find_by_ip third b.ipv4.ip) ≡ some b)
  finds_third =
      let (by_id, by_ip, _, cell) = find-put_manifest second b storable_b in
      (rw by_id (ap some cell), rw by_ip (ap some cell))

  -- A hardware address of the first manifest alone still leads to it.
  stale_mac :
      (mac : HardwareAddr)
      → In mac a.mac
      → has_key (string mac) a'.mac ≡ false
      → has_key (string mac) b.mac ≡ false
      → (find_by_mac third mac ≡ some s.heap.next) × (third.heap.cell s.heap.next ≡ a)
  stale_mac mac listed not_second not_third =
      let (_, _, by_mac, cell) = find-put_manifest s a storable in
      let (_, _, macs, cells) = find-put_manifest_ne first a' storable' in
      let (_, _, macs', cells') = find-put_manifest_ne second b storable_b in
      let apart : s.heap.next ≢ first.heap.next =
        λ e. absurd (omega (arith, next-put_manifest s a storable)) in
      let apart' : s.heap.next ≢ second.heap.next = λ e.
        absurd
          (omega (arith, next-put_manifest s a storable, next-put_manifest first a' storable')) in
      (
        macs' mac not_third ∙ macs mac not_second ∙ by_mac mac listed,
        cells' s.heap.next apart' ∙ cells s.heap.next apart ∙ cell,
      )

  -- After three manifests with an address and an ID are put, of which the second replaces the
  -- first under its ID, with another address than the third, and the third has another ID and the
  -- first one's address, an IPv4 address: the IDs and the addresses lead to the second and to the
  -- third manifest; but DHCP gives the third one's address to two machines: to one that asks from
  -- a hardware address of the first manifest that neither of the other two has, and to one that
  -- asks from a hardware address of the third. To ask is to send a Discover or a Request, for
  -- this server or for any, from a hardware address of at most 14 bytes, to which a reply can be
  -- built.
  pub stale_address_conflict :
      (lib : Dhcpv4) (host : Host) (buf buf' : Bytes) (req req' : Request)
      → b.ipv4.ip ≡ a.ipv4.ip
      → is_writable b.ipv4.ip ≡ true
      → ip_key a'.ipv4.ip ≢ ip_key b.ipv4.ip
      → IsAsking lib host buf req
      → IsAsking lib host buf' req'
      → In req.client_hw_addr a.mac
      → has_key (string req.client_hw_addr) a'.mac ≡ false
      → has_key (string req.client_hw_addr) b.mac ≡ false
      → In req'.client_hw_addr b.mac
      → ((seen third (find third a.id) ≡ some a')
          × (seen third (find_by_ip third a'.ipv4.ip) ≡ some a'))
        × ((seen third (find third b.id) ≡ some b)
            × (seen third (find_by_ip third b.ipv4.ip) ≡ some b))
        × ((x : Sent lib.Options) × (handle_msg4 lib host third buf ≡ sent x)
            × (x.reply.your_ip_addr ≡ b.ipv4.ip))
        × ((x : Sent lib.Options) × (handle_msg4 lib host third buf' ≡ sent x)
            × (x.reply.your_ip_addr ≡ b.ipv4.ip))
  stale_address_conflict lib host buf buf' req req' same_ip writable apart asks asks' listed
        not_second not_third listed' =
      let (known, cell) = stale_mac req.client_hw_addr listed not_second not_third in
      let (x, handled, given) = handle_msg4_found lib host buf req third s.heap.next asks known (
        ap (λ (m : Manifest). is_writable m.ipv4.ip) cell
        ∙ ap is_writable (sym same_ip)
        ∙ writable) in
      let (_, _, by_mac, cell') = find-put_manifest second b storable_b in
      let (x', handled', given') =
        handle_msg4_found lib host buf' req' third second.heap.next asks'
          (by_mac req'.client_hw_addr listed')
          (ap (λ (m : Manifest). is_writable m.ipv4.ip) cell' ∙ writable) in
      (
        finds_second apart,
        finds_third,
        (x, handled, given ∙ ap (λ (m : Manifest). m.ipv4.ip) cell ∙ sym same_ip),
        (x', handled', given' ∙ ap (λ (m : Manifest). m.ipv4.ip) cell'),
      )
