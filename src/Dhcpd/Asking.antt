-- ===== src/Dhcpd/Asking.antt =====
-- A request that dhcpd/handler.go answers as soon as the store knows its hardware address.
use netbootd.Prelude.{true, ℕ, ◌≤◌, ◌≡◌, refl, ap, ◌∙◌, false, some, Bytes, length, ok}
use netbootd.GoStd.Ip.{Ip}
use netbootd.GoStd.Mac.Laws.{AreBytes}
use netbootd.Store.Defs.{Store, Ptr, find_by_mac}
use netbootd.Dhcpd.Host.{Host, local_ip}
use netbootd.Dhcpd.Packet.{Request, Reply, Dhcpv4, is_writable}
use netbootd.Dhcpd.Defs.{
  Sent, sent, reply_type, is_for_other_server, fill_reply, respond, handle_msg4,
}
use netbootd.Dhcpd.Writable.{local_ip_writable}
use netbootd.Dhcpd.Crash.{respond_sent, Overruns_short}
use netbootd.Dhcpd.Answer.{Answer, reply_of, handle_msg4_of_Answer}

-- A Discover or a Request from a hardware address of 14 bytes at most, for this server or for any, and
-- the reply that can be built.
pub record IsAsking (lib : Dhcpv4) (host : Host) (buf : Bytes) (req : Request) : Type 0 where
  pub fresh : Reply lib.Options
  pub type : ℕ
  pub local : Ip
  pub are_bytes : AreBytes req.client_hw_addr
  pub short : length req.client_hw_addr ≤ 14
  pub parsed : lib.from_bytes buf ≡ ok req
  pub is_request : req.op_code ≡ 1
  pub built : lib.new_reply_from_request req ≡ ok fresh
  pub typed : reply_type req.message_type ≡ some type
  pub located : local_ip host ≡ ok local
  pub is_ours : is_for_other_server req local ≡ false

-- Who asks from a hardware address that the store knows is given the address of its manifest, if that is
-- an IPv4 address.
pub handle_msg4_found :
    (lib : Dhcpv4) (host : Host) (buf : Bytes) (req : Request) (s : Store) (p : Ptr)
    → IsAsking lib host buf req
    → find_by_mac s req.client_hw_addr ≡ some p
    → is_writable (s.heap.cell p).ipv4.ip ≡ true
    → (x : Sent lib.Options) × (handle_msg4 lib host s buf ≡ sent x)
      × (x.reply.your_ip_addr ≡ (s.heap.cell p).ipv4.ip)
unfolding respond fill_reply
handle_msg4_found lib host buf req s p asks known writable =
    let a : Answer lib host s buf = record {
      req = req;
      fresh = asks.fresh;
      type = asks.type;
      local = asks.local;
      at = p;
      parsed = asks.parsed;
      is_request = rw asks.is_request refl;
      built = asks.built;
      typed = asks.typed;
      located = asks.located;
      known = known;
      is_ours = asks.is_ours;
    } in
    let resp = reply_of lib host s buf a in
    let (x, answered, same) =
      respond_sent lib host req asks.are_bytes resp
        (Overruns_short lib host req asks.are_bytes asks.short)
        (local_ip_writable host asks.local asks.located) writable in
    (
      x,
      handle_msg4_of_Answer lib host s buf a ∙ answered,
      ap (λ (r : Reply lib.Options). r.your_ip_addr) same,
    )
