-- ===== src/Dhcpd/Exact.antt =====
-- When HandleMsg4 sends a reply, and when it panics instead.
use netbootd.Prelude.{
  ℕ, ◌≡◌, ◌↔◌, ◌⊎◌, refl, sym, ◌∙◌, inl, inr, arith, true, false, none, some, Bytes, Bool-cases,
  Option-cases, ok, ==_iff,
}
use netbootd.GoStd.Ip.{Ip, equal, ipv4_zero}
use netbootd.Store.Defs.{Store, Ptr, find_by_mac}
use netbootd.Dhcpd.Host.{Host, local_ip}
use netbootd.Dhcpd.Packet.{Request, Reply, Dhcpv4, is_writable}
use netbootd.Dhcpd.Defs.{
  Sent, crashed, sent, reply_type, is_for_other_server, fill_reply, handle_msg4,
}
use netbootd.Dhcpd.Writable.{local_ip_writable}
use netbootd.Dhcpd.Crash.{ReadsChaddr, Overruns, respond_crashed_iff, respond_sent}
use netbootd.Dhcpd.Answer.{Answer, reply_of, handle_msg4_of_Answer, Answer_of_handle_msg4}
use netbootd.Dhcpd.Sent.{reply_type-cases, reply_of_type}

-- The request names no server, or this one.
abbrev pub IsForUs : Request → Ip → Type 0
IsForUs req local =
    (req.server_ip_addr ≡ none)
    ⊎ (equal req.server_ip_addr ipv4_zero ≡ true)
    ⊎ (equal req.server_ip_addr local ≡ true)

is_for_us : (req : Request) (local : Ip) → is_for_other_server req local ≡ false → IsForUs req local
unfolding is_for_other_server
is_for_us req local h = elim (Option-cases req.server_ip_addr) [
  | inl e ↦ inl e
  | inr (b, e) ↦ elim (Bool-cases (equal req.server_ip_addr ipv4_zero)) [
    | inl z ↦ inr (inl z)
    | inr z ↦ elim (Bool-cases (equal req.server_ip_addr local)) [
      | inl l ↦ inr (inr l)
      | inr l ↦ absurd (cc (rw (z, l, e) at h))
    ]
  ]
]

of_IsForUs :
    (req : Request) (local : Ip) → IsForUs req local → is_for_other_server req local ≡ false
unfolding is_for_other_server
of_IsForUs req local (inl e) = rw e refl
of_IsForUs req local (inr (inl z)) = elim (Option-cases req.server_ip_addr) [
  | inl e ↦ rw e refl
  | inr (b, e) ↦ rw (z, e) refl
]
of_IsForUs req local (inr (inr l)) = elim (Option-cases req.server_ip_addr) [
  | inl e ↦ rw e refl
  | inr (b, e) ↦ ground arith
]

module _ (lib : Dhcpv4) (host : Host) (s : Store) where
  -- A datagram that parses as a Discover or a Request, of the operation BOOTREQUEST, for this server or
  -- for any, for which a fresh reply can be built, while the server has an IPv4 address on its
  -- interface and the client's hardware address has a manifest.
  pub record Answerable (buf : Bytes) : Type 0 where
    pub req : Request
    pub fresh : Reply lib.Options
    pub local : Ip
    pub at : Ptr
    pub parsed : lib.from_bytes buf ≡ ok req
    pub is_request : req.op_code ≡ 1
    pub asks : (req.message_type ≡ 1) ⊎ (req.message_type ≡ 3)
    pub built : lib.new_reply_from_request req ≡ ok fresh
    pub located : local_ip host ≡ ok local
    pub known : find_by_mac s req.client_hw_addr ≡ some at
    pub for_us : IsForUs req local

  typed_of : (t : ℕ) → (t ≡ 1) ⊎ (t ≡ 3) → (type : ℕ) × (reply_type t ≡ some type)
  unfolding reply_type
  typed_of t (inl discover) = (2, rw discover refl)
  typed_of t (inr request) = (5, rw request refl)

  asks_of : (t type : ℕ) → reply_type t ≡ some type → (t ≡ 1) ⊎ (t ≡ 3)
  asks_of t type typed = elim (reply_type-cases t type typed) [
    | inl (discover, _) ↦ inl discover
    | inr (request, _) ↦ inr request
  ]

  answer_of : (buf : Bytes) → Answerable buf → Answer lib host s buf
  answer_of buf a =
      let (type, typed) = typed_of a.req.message_type a.asks in
      record {
        req = a.req;
        fresh = a.fresh;
        type = type;
        local = a.local;
        at = a.at;
        parsed = a.parsed;
        is_request = (==_iff a.req.op_code 1).1 a.is_request;
        built = a.built;
        typed = typed;
        located = a.located;
        known = a.known;
        is_ours = of_IsForUs a.req a.local a.for_us;
      }

  answerable_of : (buf : Bytes) → Answer lib host s buf → Answerable buf
  answerable_of buf a = record {
    req = a.req;
    fresh = a.fresh;
    local = a.local;
    at = a.at;
    parsed = a.parsed;
    is_request = (==_iff a.req.op_code 1).0 a.is_request;
    asks = asks_of a.req.message_type a.type a.typed;
    built = a.built;
    located = a.located;
    known = a.known;
    for_us = is_for_us a.req a.local a.is_ours;
  }

  abbrev pub address_of : Ptr → Ip
  address_of p = (s.heap.cell p).ipv4.ip

  -- An answer panics exactly when it overruns the ARP entry or the manifest's address cannot be written.
  answer_crashed_iff :
      (buf : Bytes) (a : Answer lib host s buf)
      → ReadsChaddr lib
      → (handle_msg4 lib host s buf ≡ crashed)
        ↔ (Overruns lib host a.req ⊎ (is_writable (address_of a.at) ≡ false))
  unfolding fill_reply
  answer_crashed_iff buf a chaddr =
      let (to, from) =
        respond_crashed_iff lib host a.req (chaddr buf a.req a.parsed) (reply_of lib host s buf a)
          (reply_of_type lib host s buf a) (local_ip_writable host a.local a.located) in
      let handled = handle_msg4_of_Answer lib host s buf a in
      (λ e. to (sym handled ∙ e), λ cause. handled ∙ from cause)

  writable : (ip : Ip) → ¬ (is_writable ip ≡ false) → is_writable ip ≡ true
  writable ip ne = elim (Bool-cases (is_writable ip)) [ inl e ↦ e | inr e ↦ absurd (ne e) ]

  -- HandleMsg4 panics exactly when the datagram is one to answer -- it parses as a Discover or a Request
  -- for this server or for any, a fresh reply can be built, the server has an IPv4 address on the
  -- interface and the client's hardware address has a manifest -- and either the client is to be entered
  -- into the ARP table, on 64-bit Linux, with a hardware address of more than 14 bytes, or the address of
  -- the manifest is neither nil nor an IPv4 address; if the packet library reads the bytes of the
  -- client's address.
  pub handle_msg4_crashed_iff :
      (buf : Bytes)
      → ReadsChaddr lib
      → (handle_msg4 lib host s buf ≡ crashed) ↔ (
          (a : Answerable buf) × (Overruns lib host a.req
            ⊎ (is_writable (address_of a.at) ≡ false)))
  unfolding answerable_of answer_of
  handle_msg4_crashed_iff buf chaddr = (
    λ e.
        let a = Answer_of_handle_msg4 lib host s buf (λ k. cc) in
        (answerable_of buf a, (answer_crashed_iff buf a chaddr).0 e),
    λ (a, cause). (answer_crashed_iff buf (answer_of buf a) chaddr).1 cause,
  )

  -- HandleMsg4 sends a reply exactly when the datagram is one to answer -- it parses as a Discover or a
  -- Request for this server or for any, a fresh reply can be built, the server has an IPv4 address on the
  -- interface and the client's hardware address has a manifest -- and the client is not to be entered
  -- into the ARP table, on 64-bit Linux, with a hardware address of more than 14 bytes, and the address
  -- of the manifest is nil or an IPv4 address; if the packet library reads the bytes of the client's
  -- address.
  pub handle_msg4_sent_iff :
      (buf : Bytes)
      → ReadsChaddr lib
      → ((x : Sent lib.Options) × (handle_msg4 lib host s buf ≡ sent x)) ↔ (
          (a : Answerable buf) × (¬ Overruns lib host a.req)
          × (is_writable (address_of a.at) ≡ true))
  unfolding fill_reply answerable_of answer_of
  handle_msg4_sent_iff buf chaddr = (
    λ (x, e).
        let a = Answer_of_handle_msg4 lib host s buf (λ k. cc) in
        let crashed_if = (answer_crashed_iff buf a chaddr).1 in
        (
          answerable_of buf a,
          λ o. cc (e, crashed_if (inl o)),
          writable (address_of a.at) (λ bad. cc (e, crashed_if (inr bad))),
        ),
    λ (a, fine, yours).
        let a' = answer_of buf a in
        let (x, answered, _) =
          respond_sent lib host a.req (chaddr buf a.req a.parsed) (reply_of lib host s buf a') fine
            (local_ip_writable host a.local a.located) yours in
        (x, handle_msg4_of_Answer lib host s buf a' ∙ answered),
  )
