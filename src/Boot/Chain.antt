-- ===== src/Boot/Chain.antt =====
-- The network boot of one machine, while other requests change the store: dhcpd/handler.go answers its
-- DHCP request, and later tftpd/handler.go its request for the boot file that the answer names.
use netbootd.Prelude.{
  ℕ, ◌≤◌, ◌≡◌, refl, ap, ◌∙◌, Bool, true, false, Option, some, Bytes, length, In, ok,
}
use netbootd.GoStd.Ip.{Ip}
use netbootd.GoStd.Mac.Laws.{AreBytes}
use netbootd.Manifest.Defs.{Manifest}
use netbootd.Store.Defs.{Store, Ptr, ip_key, put_manifest, find, find_by_mac}
use netbootd.Store.Put.{IsStorable}
use netbootd.Store.Seen.{seen}
use netbootd.Store.Steps.{System, IsSound}
use netbootd.Store.Durable.{AreSparing, Sparing, Sparing-append, find-put_manifest_kept}
use netbootd.Dhcpd.Host.{Host, local_ip}
use netbootd.Dhcpd.Packet.{Request, Reply, Dhcpv4, opt_boot_file_name, is_writable}
use netbootd.Dhcpd.Defs.{
  Sent, sent, reply_type, is_for_other_server, boot_file, fill_reply, respond, handle_msg4,
}
use netbootd.Dhcpd.Writable.{local_ip_writable}
use netbootd.Dhcpd.Crash.{respond_sent, Overruns_short}
use netbootd.Dhcpd.Answer.{Answer, reply_of, handle_msg4_of_Answer}
use netbootd.Dhcpd.Options.{get-fill_options}
use netbootd.Tftpd.Defs.{Services, ReadRequest, Outcome, tftp_read_handler}
use netbootd.Boot.Mounted.{find_by_ip_key}
use netbootd.Boot.Fetches.{Fetches, read_for_fetched}

-- A Discover or a Request from one of the manifest's hardware addresses that asks for the boot file,
-- for this server or for any, and the reply that can be built.
pub record IsBootRequest (lib : Dhcpv4) (host : Host) (m : Manifest) (buf : Bytes) (req : Request)
    : Type 0 where
  pub fresh : Reply lib.Options
  pub type : ℕ
  pub local : Ip
  pub owned : In req.client_hw_addr m.mac
  pub are_bytes : AreBytes req.client_hw_addr
  pub short : length req.client_hw_addr ≤ 14
  pub parsed : lib.from_bytes buf ≡ ok req
  pub is_request : req.op_code ≡ 1
  pub built : lib.new_reply_from_request req ≡ ok fresh
  pub typed : reply_type req.message_type ≡ some type
  pub located : local_ip host ≡ ok local
  pub is_ours : is_for_other_server req local ≡ false
  pub asks : req.is_option_requested 67 ≡ true

pub seen_value :
    (s : Store) (o : Option Ptr) (p : Ptr) (n : Manifest)
    → o ≡ some p
    → seen s o ≡ some n
    → s.heap.cell p ≡ n
seen_value s o p n e h = cc (rw e at h)

module _ (lib : Dhcpv4) (host : Host) (m : Manifest) (buf : Bytes) (req : Request)
    (boot : IsBootRequest lib host m buf req) where
  -- The answer to the DHCP request, from a store in which the hardware address leads to `m`.
  answered :
      (s : Store) (p : Ptr)
      → find_by_mac s req.client_hw_addr ≡ some p
      → s.heap.cell p ≡ record m { suspended = false }
      → is_writable m.ipv4.ip ≡ true
      → (x : Sent lib.Options) × (handle_msg4 lib host s buf ≡ sent x)
        × (x.reply.your_ip_addr ≡ m.ipv4.ip)
        × (lib.get x.reply.options 67 ≡ some (opt_boot_file_name (boot_file m req)))
  unfolding respond fill_reply boot_file
  answered s p known cell writable =
      let a : Answer lib host s buf = record {
        req = req;
        fresh = boot.fresh;
        type = boot.type;
        local = boot.local;
        at = p;
        parsed = boot.parsed;
        is_request = rw boot.is_request refl;
        built = boot.built;
        typed = boot.typed;
        located = boot.located;
        known = known;
        is_ours = boot.is_ours;
      } in
      let resp = reply_of lib host s buf a in
      let (x, answer, same) =
        respond_sent lib host req boot.are_bytes resp
          (Overruns_short lib host req boot.are_bytes boot.short)
          (local_ip_writable host boot.local boot.located)
          (ap (λ (n : Manifest). is_writable n.ipv4.ip) cell ∙ writable) in
      (
        x,
        handle_msg4_of_Answer lib host s buf a ∙ answer,
        ap (λ (r : Reply lib.Options). r.your_ip_addr) same ∙ ap (λ (n : Manifest). n.ipv4.ip) cell,
        ap (λ (r : Reply lib.Options). lib.get r.options 67) same
            ∙ (get-fill_options lib host (s.heap.cell p) req boot.local _ boot.is_request).1.8
            ∙ rw (boot.asks, cell) refl,
      )

  current :
      (n : Manifest) (b : Bool)
      → n ≡ record m { suspended = n.suspended }
      → n.suspended ≡ b
      → n ≡ record m { suspended = b }
  current n b shape e = shape ∙ ap (λ s. record m { suspended = s }) e

  -- After PutManifest of a manifest with an IPv4 address and an ID, a machine that asks from one of its
  -- hardware addresses for a boot file is given, while the manifest is not suspended, the
  -- manifest's address and the name of a boot file; and when it asks from that address for this
  -- file over TFTP it is given the bundled file of that name, or what the manifest's mount for it
  -- gives: the upstream's answer with status 200, the executed template, or a file whose path
  -- passes ValidateHostPath, where there is one. This holds whatever other requests are served in
  -- between, as long as none of them puts, or begins to forget, a manifest with one of its keys,
  -- and no ForgetManifest of such a one was under way.
  pub network_boot :
      (tftp : Services) (r : ReadRequest) {x y z : System} {n n' : Manifest} {answer : Outcome}
      → IsSound x
      → IsStorable m
      → is_writable m.ipv4.ip ≡ true
      → AreSparing m x
      → Sparing m (record x { store = (put_manifest x.store m).1 }) y
      → Sparing m y z
      → seen y.store (find y.store m.id) ≡ some n
      → n.suspended ≡ false
      → r.filename ≡ boot_file m req
      → ip_key r.remote_ip ≡ ip_key m.ipv4.ip
      → seen z.store (find z.store m.id) ≡ some n'
      → Fetches tftp z.store n' r answer
      → (sent_reply : Sent lib.Options) × (handle_msg4 lib host y.store buf ≡ sent sent_reply)
        × (sent_reply.reply.your_ip_addr ≡ m.ipv4.ip)
        × (lib.get sent_reply.reply.options 67 ≡ some (opt_boot_file_name r.filename))
        × (tftp_read_handler tftp z.store r ≡ answer)
  unfolding tftp_read_handler
  network_boot tftp r {x} {y} {z} {n} {n'} sound storable writable sparing run run' now active named
        from later fetches =
      let (p, by_id, _, by_mac, value) = find-put_manifest_kept m sound storable sparing run in
      let (q, by_id', by_ip', _, _) =
        find-put_manifest_kept m sound storable sparing (Sparing-append run run') in
      let at = seen_value y.store _ p n by_id now in
      let at' = seen_value z.store _ q n' by_id' later in
      let (reply, handled, yours, file) =
        answered y.store p (by_mac req.client_hw_addr boot.owned)
          (at ∙ current n false (rw at at value) active) writable in
      (
        reply,
        handled,
        yours,
        rw named file,
        rw (find_by_ip_key z.store r.remote_ip m.ipv4.ip from, by_ip')
            (read_for_fetched tftp z.store r q n' at' fetches),
      )
