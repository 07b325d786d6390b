-- ===== src/Dhcpd/Kept.antt =====
-- What a DHCP client is still given while its booting is suspended: dhcpd/handler.go after
-- suspend-boot of api/server.go.
use netbootd.Prelude.{
  ℕ, ◌≡◌, refl, ap, sym, ◌∙◌, inl, inr, arith, Bool, true, false, Bytes, ◌==◌, Bool-cases,
  Option-cases, some,
}
use mathlib.Core.Path.{subst}
use netbootd.GoStd.Ip.{Ip}
use netbootd.Manifest.Defs.{Manifest}
use netbootd.Store.Defs.{Store, Ptr, find_by_mac}
use netbootd.Api.Defs
use netbootd.Api.Defs.{Env, self_manifest_at, at, suspend_boot}
use netbootd.Api.Effects.{suspend_boot_shared}
use netbootd.Dhcpd.Host.{Host}
use netbootd.Dhcpd.Packet.{Request, DhcpOption, Reply, Dhcpv4, opt_message_type}
use netbootd.Dhcpd.Defs.{
  Sent, sent, fill_options, fill_reply, choose_peer, choose_woob, written, sent_to, respond,
  handle_msg4, update_if,
}
use netbootd.Dhcpd.Options.{get-update_if, get-update_if-ne}
use netbootd.Dhcpd.Answer.{Answer, reply_of, handle_msg4_of_Answer}
use netbootd.Dhcpd.Sent.{handle_msg4-IsSent, reply_message_type}

module _ (lib : Dhcpv4) (host : Host) where
  open lib use {Options, update, get, get-update}

  update_if_same :
      (b : Bool) (x : DhcpOption) (o o' : Options) (code : ℕ)
      → get o' code ≡ get o code
      → get (update_if lib b x o') code ≡ get (update_if lib b x o) code
  update_if_same b x o o' code e =
      get-update_if lib b x o' code ∙ rw e (sym (get-update_if lib b x o code))

  -- Whether a manifest is suspended decides the options 66 and 67 only.
  fill_options_suspended :
      (m : Manifest) (b : Bool) (req : Request) (local : Ip) (o : Options) (code : ℕ)
      → (66 == code) ≡ false
      → (67 == code) ≡ false
      → get (fill_options lib host (record m { suspended = b }) req local o) code
        ≡ get (fill_options lib host m req local o) code
  unfolding fill_options
  fill_options_suspended m b req local o code e f = update_if_same _ _ _ _ code (
      update_if_same _ _ _ _ code (
        get-update_if-ne lib _ _ _ code f
        ∙ get-update_if-ne lib _ _ _ code e
        ∙ sym (get-update_if-ne lib _ _ _ code f ∙ get-update_if-ne lib _ _ _ code e)))

  choose_peer_same :
      (req : Request) (resp resp' : Reply Options)
      → lib.message_type resp'.options ≡ lib.message_type resp.options
      → resp'.your_ip_addr ≡ resp.your_ip_addr
      → choose_peer lib host req resp' ≡ choose_peer lib host req resp
  unfolding choose_peer
  choose_peer_same req resp resp' e q = rw (e, q) refl

  -- ToBytes does not panic for a reply with the addresses of another for which it does not.
  to_bytes_same :
      (resp resp' : Reply Options) (b : Bytes)
      → resp'.server_ip_addr ≡ resp.server_ip_addr
      → resp'.your_ip_addr ≡ resp.your_ip_addr
      → lib.to_bytes resp ≡ some b
      → (b' : Bytes) × (lib.to_bytes resp' ≡ some b')
  to_bytes_same resp resp' b server yours whole = elim (Option-cases (lib.to_bytes resp')) [
    | inr (b', whole') ↦ (b', whole')
    | inl panics ↦ absurd (
        cc (
          whole,
          (lib.to_bytes_panics_iff resp).1
              (rw (server, yours) at ((lib.to_bytes_panics_iff resp').0 panics)),
        ))
  ]

  -- What a reply has in common with another: all but the options 66 and 67.
  pub record IsLike (x y : Sent Options) : Type 0 where
    pub your_ip_addr : y.reply.your_ip_addr ≡ x.reply.your_ip_addr
    pub server_ip_addr : y.reply.server_ip_addr ≡ x.reply.server_ip_addr
    pub peer : y.peer ≡ x.peer
    pub options :
        (code : ℕ)
        → (66 == code) ≡ false
        → (67 == code) ≡ false
        → get y.reply.options code ≡ get x.reply.options code

  -- Two stores that differ at most in which manifests are suspended.
  module _ (s s' : Store) (buf : Bytes)
      (by_mac : (mac : Bytes) → find_by_mac s' mac ≡ find_by_mac s mac)
      (cells : (q : Ptr)
        → (b : Bool) × (s'.heap.cell q ≡ record (s.heap.cell q) { suspended = b })) where
    moved : Answer lib host s buf → Answer lib host s' buf
    moved a = record {
      req = a.req;
      fresh = a.fresh;
      type = a.type;
      local = a.local;
      at = a.at;
      parsed = a.parsed;
      is_request = a.is_request;
      built = a.built;
      typed = a.typed;
      located = a.located;
      known = by_mac a.req.client_hw_addr ∙ a.known;
      is_ours = a.is_ours;
    }

    moved_ip :
        (a : Answer lib host s buf)
        → (reply_of lib host s' buf (moved a)).your_ip_addr
          ≡ (reply_of lib host s buf a).your_ip_addr
    unfolding fill_reply moved
    moved_ip a = ap (λ (m : Manifest). m.ipv4.ip) (cells a.at).1

    moved_options :
        (a : Answer lib host s buf) (code : ℕ)
        → (66 == code) ≡ false
        → (67 == code) ≡ false
        → get (reply_of lib host s' buf (moved a)).options code
          ≡ get (reply_of lib host s buf a).options code
    unfolding fill_reply moved
    moved_options a code e f =
        let o = update a.fresh.options (opt_message_type a.type) in
        ap (λ m. get (fill_options lib host m a.req a.local o) code) (cells a.at).1
        ∙ fill_options_suspended (s.heap.cell a.at) (cells a.at).0 a.req a.local o code e f

    moved_server :
        (a : Answer lib host s buf)
        → (reply_of lib host s' buf (moved a)).server_ip_addr
          ≡ (reply_of lib host s buf a).server_ip_addr
    unfolding fill_reply moved
    moved_server a = refl

    still_sent :
        (x : Sent Options)
        → handle_msg4 lib host s buf ≡ sent x
        → (y : Sent Options) × ((handle_msg4 lib host s' buf ≡ sent y) × IsLike x y)
    unfolding respond moved
    still_sent x h =
        let i = handle_msg4-IsSent lib host s buf x h in
        let a = i.answer in
        let reply = reply_of lib host s' buf (moved a) in
        let type =
          reply_message_type lib host s' buf (moved a)
          ∙ sym (reply_message_type lib host s buf a) in
        let peer =
          choose_peer_same a.req (reply_of lib host s buf a) reply type (moved_ip a) ∙ i.peer in
        let (packet, whole) =
          to_bytes_same (reply_of lib host s buf a) reply x.packet (moved_server a) (moved_ip a)
            i.packet in
        (
          record {
            reply = reply;
            packet = packet;
            woob = choose_woob lib host x.peer;
            peer = x.peer;
          },
          (
            handle_msg4_of_Answer lib host s' buf (moved a)
                ∙ ap (sent_to lib host reply) peer
                ∙ ap (written lib host reply x.peer) whole,
            record {
              your_ip_addr = moved_ip a ∙ ap (λ (r : Reply Options). r.your_ip_addr) (sym i.reply);
              server_ip_addr =
                  moved_server a ∙ ap (λ (r : Reply Options). r.server_ip_addr) (sym i.reply);
              peer = refl;
              options = λ code e f.
                  moved_options a code e f
                  ∙ ap (λ (r : Reply Options). get r.options code) (sym i.reply);
            },
          ),
        )

  -- A host that has called suspend-boot is still answered by DHCP whenever it was before: with the same
  -- address, by the same server, to the same destination, and with the same options but at most for the
  -- TFTP server (66) and the boot file (67).
  pub suspend_boot_still_sent :
      (env : Env) (r : Defs.Request) (s : Store) (p : Ptr) (buf : Bytes) (x : Sent Options)
      → self_manifest_at env r s ≡ at p
      → handle_msg4 lib host s buf ≡ sent x
      → (y : Sent Options) × ((handle_msg4 lib host (suspend_boot env r s).1 buf ≡ sent y)
          × IsLike x y)
  suspend_boot_still_sent env r s p buf x found h =
      let (cell, others, _, _, by_mac) = suspend_boot_shared env r s p found in
      still_sent s (suspend_boot env r s).1 buf by_mac
        (λ q. elim (Bool-cases (q == p)) [
          | inl e ↦
              let same : q ≡ p = ground arith in
              (
                true,
                subst
                    (λ k.
                      (suspend_boot env r s).1.heap.cell k
                      ≡ record (s.heap.cell k) { suspended = true })
                    (sym same) cell,
              )
          | inr e ↦ ((s.heap.cell q).suspended, others q (ground arith))
        ])
        x h
