-- ===== src/Dhcpd/Sent.antt =====
-- What HandleMsg4 sends, and where to.
use netbootd.Prelude.{
  Option, Option-cases, none, Bool, true, false, ◌==◌, ℕ, ◌≡◌, refl, ap, sym, ◌∙◌, ◌⊎◌, inl, inr,
  arith, not, ◌&&◌, some, Bytes, if◌then◌else◌, ok,
}
use netbootd.GoStd.Ip.{is_unspecified, ipv4_bcast}
use netbootd.Store.Defs.{Store, Ptr, find_by_mac}
use netbootd.Dhcpd.Arp.{Injection, injected}
use netbootd.Dhcpd.Host.{Host, local_ip}
use netbootd.Dhcpd.Packet.{
  Request, Reply, Dhcpv4, opt_message_type, message_type_discover, message_type_offer,
  message_type_request, message_type_ack,
}
use netbootd.Dhcpd.Defs.{
  UdpAddr, Sent, sent, reply_type, fill_reply, choose_peer, inject, sent_to, respond, handle_msg4,
}
use netbootd.Dhcpd.Options.{get-fill_options}
use netbootd.Dhcpd.Answer.{Answer, reply_of, handle_msg4_of_Answer, Answer_of_handle_msg4}

abbrev pub is_injected : Injection → Bool
is_injected injected = true
is_injected _ = false

pub reply_type-cases :
    (mt t : ℕ)
    → reply_type mt ≡ some t
    → ((mt ≡ message_type_discover) × (t ≡ message_type_offer))
      ⊎ ((mt ≡ message_type_request) × (t ≡ message_type_ack))
unfolding reply_type
reply_type-cases mt t h = ground arith

module _ (lib : Dhcpv4) (host : Host) (s : Store) where
  open lib use {Options, update, get, get-update}

  sent_of_Answer :
      (buf : Bytes) (x : Sent Options) (a : Answer lib host s buf)
      → handle_msg4 lib host s buf ≡ sent x
      → sent x ≡ respond lib host a.req (reply_of lib host s buf a)
  sent_of_Answer buf x a h = sym h ∙ handle_msg4_of_Answer lib host s buf a

  pub sent-inj : (x y : Sent Options) → sent x ≡ sent y → x ≡ y
  sent-inj x y h = cc

  -- The destination behind a reply that was sent.
  peer_of_sent_to :
      (resp : Reply Options) (o : Option UdpAddr) (x : Sent Options)
      → sent x ≡ sent_to lib host resp o
      → (x.reply ≡ resp) × (o ≡ some x.peer) × (lib.to_bytes resp ≡ some x.packet)
  peer_of_sent_to resp none x h = absurd (cc)
  peer_of_sent_to resp (some peer) x h = elim (Option-cases (lib.to_bytes resp)) [
    | inl panics ↦ absurd (cc (rw panics at h))
    | inr (b, whole) ↦
        let e = sent-inj x _ (rw whole at h) in
        (
          ap (λ y. y.reply) e,
          ap (λ (y : Sent Options). some y.peer) (sym e),
          whole ∙ ap (λ (y : Sent Options). some y.packet) (sym e),
        )
  ]

  pub reply_message_type :
      (buf : Bytes) (a : Answer lib host s buf)
      → lib.message_type (reply_of lib host s buf a).options ≡ a.type
  unfolding fill_reply
  reply_message_type buf a = lib.message_type_lem _ a.type (
      (get-fill_options lib host (s.heap.cell a.at) a.req a.local
          (update a.fresh.options (opt_message_type a.type)) (ground (arith, a.is_request))).0
        53 refl
      ∙ get-update a.fresh.options (opt_message_type a.type) 53)

  answer_of_sent :
      (buf : Bytes) (x : Sent Options) → handle_msg4 lib host s buf ≡ sent x → Answer lib host s buf
  answer_of_sent buf x h = Answer_of_handle_msg4 lib host s buf (λ k. cc)

  -- The answer behind a reply that is sent, and the destination that was chosen for it.
  pub record IsSent (buf : Bytes) (x : Sent Options) : Type 0 where
    pub answer : Answer lib host s buf
    pub reply : x.reply ≡ reply_of lib host s buf answer
    pub peer : choose_peer lib host answer.req (reply_of lib host s buf answer) ≡ some x.peer
    pub packet : lib.to_bytes (reply_of lib host s buf answer) ≡ some x.packet

  pub handle_msg4-IsSent :
      (buf : Bytes) (x : Sent Options) → handle_msg4 lib host s buf ≡ sent x → IsSent buf x
  unfolding respond
  handle_msg4-IsSent buf x h =
      let a = answer_of_sent buf x h in
      let (same, chosen, whole) =
        peer_of_sent_to (reply_of lib host s buf a) _ x (sent_of_Answer buf x a h) in
      record { answer = a; reply = same; peer = chosen; packet = whole }

  -- A reply that is sent gives the client the address of the manifest that its hardware address has
  -- in the store, and the server's address; it is an Offer to a Discover or an Ack to a Request.
  pub handle_msg4_reply :
      (buf : Bytes) (x : Sent Options)
      → handle_msg4 lib host s buf ≡ sent x
      → (req : Request) × ((p : Ptr) × ((lib.from_bytes buf ≡ ok req)
            × (find_by_mac s req.client_hw_addr ≡ some p)
            × (x.reply.your_ip_addr ≡ (s.heap.cell p).ipv4.ip)
            × (local_ip host ≡ ok x.reply.server_ip_addr)
            × (((req.message_type ≡ message_type_discover)
                  × (lib.message_type x.reply.options ≡ message_type_offer))
                ⊎ ((req.message_type ≡ message_type_request)
                    × (lib.message_type x.reply.options ≡ message_type_ack)))))
  unfolding respond fill_reply
  handle_msg4_reply buf x h =
      let i = handle_msg4-IsSent buf x h in
      let a = i.answer in
      let t = reply_message_type buf a in
      (
        a.req,
        (
          a.at,
          (
            a.parsed,
            a.known,
            ap (λ (y : Reply Options). y.your_ip_addr) i.reply,
            a.located ∙ ap (λ (y : Reply Options). ok y.server_ip_addr) (sym i.reply),
            elim (reply_type-cases a.req.message_type a.type a.typed) [
              | inl (mt, ty) ↦
                  inl (mt, ap (λ (y : Reply Options). lib.message_type y.options) i.reply ∙ t ∙ ty)
              | inr (mt, ty) ↦
                  inr (mt, ap (λ (y : Reply Options). lib.message_type y.options) i.reply ∙ t ∙ ty)
            ],
          ),
        ),
      )

  pub reply_of_type :
      (buf : Bytes) (a : Answer lib host s buf)
      → (lib.message_type (reply_of lib host s buf a).options == 6) ≡ false
  reply_of_type buf a =
      ground (arith, reply_message_type buf a, reply_type-cases a.req.message_type a.type a.typed)

  choose_peer_lem :
      (req : Request) (resp : Reply Options) (peer : UdpAddr)
      → (lib.message_type resp.options == 6) ≡ false
      → choose_peer lib host req resp ≡ some peer
      → peer ≡ (
          if not (is_unspecified req.gateway_ip_addr)
          then record { ip = req.gateway_ip_addr; port = 67 }
          else if not (is_unspecified req.client_ip_addr)
          then record { ip = req.client_ip_addr; port = 68 }
          else if not req.is_broadcast && is_injected (inject lib host req resp.your_ip_addr)
          then record { ip = resp.your_ip_addr; port = 68 }
          else record { ip = ipv4_bcast; port = 68 })
  unfolding choose_peer
  choose_peer_lem req resp peer type h = ground arith

  -- The destination of a reply that is sent: the relay's port 67 if the request came by a relay, or
  -- else port 68 of the client's address if it has one, of the offered address if the client does
  -- not ask for broadcast and can be entered into the ARP table, and of 255.255.255.255 in all other
  -- cases. The branch for a Nak is never taken.
  pub handle_msg4_peer :
      (buf : Bytes) (x : Sent Options)
      → handle_msg4 lib host s buf ≡ sent x
      → (req : Request) × ((lib.from_bytes buf ≡ ok req)
          × (x.peer ≡ (
              if not (is_unspecified req.gateway_ip_addr)
              then record { ip = req.gateway_ip_addr; port = 67 }
              else if not (is_unspecified req.client_ip_addr)
              then record { ip = req.client_ip_addr; port = 68 }
              else if not req.is_broadcast && is_injected (inject lib host req x.reply.your_ip_addr)
              then record { ip = x.reply.your_ip_addr; port = 68 }
              else record { ip = ipv4_bcast; port = 68 })))
  handle_msg4_peer buf x h =
      let i = handle_msg4-IsSent buf x h in
      let a = i.answer in
      (a.req, (a.parsed, rw i.reply (choose_peer_lem a.req _ x.peer (reply_of_type buf a) i.peer)))
