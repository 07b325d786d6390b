-- ===== src/Dhcpd/Answer.antt =====
-- When HandleMsg4 answers a datagram, and with what.
use netbootd.Prelude.{
  ℕ, ◌≡◌, ◌≢◌, refl, inl, inr, true, false, Option, none, some, Bytes, ◌==◌, Bool-cases, Result, ok,
  err,
}
use netbootd.GoStd.Ip.{Ip}
use netbootd.Store.Defs.{Store, Ptr, find_by_mac}
use netbootd.Dhcpd.Host.{Host, local_ip}
use netbootd.Dhcpd.Packet.{Request, Reply, Dhcpv4, opt_message_type}
use netbootd.Dhcpd.Defs.{
  dropped, reply_type, is_for_other_server, fill_reply, respond, answer_known, answer_local,
  answer_typed, answer_new, answer_request, answer_parsed, handle_msg4,
}

module _ (lib : Dhcpv4) (host : Host) (s : Store) where
  open lib use {Options, update, get, get-update}

  -- The request, fresh reply, reply type, local address and manifest behind an answer.
  pub record Answer (buf : Bytes) : Type 0 where
    pub req : Request
    pub fresh : Reply Options
    pub type : ℕ
    pub local : Ip
    pub at : Ptr
    pub parsed : lib.from_bytes buf ≡ ok req
    pub is_request : (req.op_code == 1) ≡ true
    pub built : lib.new_reply_from_request req ≡ ok fresh
    pub typed : reply_type req.message_type ≡ some type
    pub located : local_ip host ≡ ok local
    pub known : find_by_mac s req.client_hw_addr ≡ some at
    pub is_ours : is_for_other_server req local ≡ false

  abbrev pub reply_of : (buf : Bytes) → Answer buf → Reply Options
  reply_of buf a =
      fill_reply lib host (s.heap.cell a.at) a.req a.local
        (record a.fresh { options = update a.fresh.options (opt_message_type a.type) })

  pub handle_msg4_of_Answer :
      (buf : Bytes) (a : Answer buf)
      → handle_msg4 lib host s buf ≡ respond lib host a.req (reply_of buf a)
  unfolding handle_msg4 answer_parsed answer_request answer_new answer_typed answer_local
      answer_known
  handle_msg4_of_Answer buf a =
      rw (a.parsed, a.is_request, a.built, a.typed, a.located, a.known, a.is_ours) refl

  -- The other direction, one function of the handler at a time, from the inside.
  answer_known-Answer :
      (buf : Bytes) (req : Request) (fresh : Reply Options) (type : ℕ) (local : Ip) (o : Option Ptr)
      → lib.from_bytes buf ≡ ok req
      → (req.op_code == 1) ≡ true
      → lib.new_reply_from_request req ≡ ok fresh
      → reply_type req.message_type ≡ some type
      → local_ip host ≡ ok local
      → find_by_mac s req.client_hw_addr ≡ o
      → answer_known lib host s req local
          (record fresh { options = update fresh.options (opt_message_type type) })
          o
        ≢ dropped
      → Answer buf
  unfolding answer_known
  answer_known-Answer buf req fresh type local none e f g h i j k = absurd (k refl)
  answer_known-Answer buf req fresh type local (some p) e f g h i j k =
      elim (Bool-cases (is_for_other_server req local)) [
        | inl other ↦ absurd ((rw other at k) refl)
        | inr ours ↦ record {
          req = req;
          fresh = fresh;
          type = type;
          local = local;
          at = p;
          parsed = e;
          is_request = f;
          built = g;
          typed = h;
          located = i;
          known = j;
          is_ours = ours;
        }
      ]

  answer_local-Answer :
      (buf : Bytes) (req : Request) (fresh : Reply Options) (type : ℕ) (r : Result Ip)
      → lib.from_bytes buf ≡ ok req
      → (req.op_code == 1) ≡ true
      → lib.new_reply_from_request req ≡ ok fresh
      → reply_type req.message_type ≡ some type
      → local_ip host ≡ r
      → answer_local lib host s req
          (record fresh { options = update fresh.options (opt_message_type type) })
          r
        ≢ dropped
      → Answer buf
  unfolding answer_local
  answer_local-Answer buf req fresh type (err _) e f g h i k = absurd (k refl)
  answer_local-Answer buf req fresh type (ok local) e f g h i k =
      answer_known-Answer buf req fresh type local (find_by_mac s req.client_hw_addr) e f g h i refl
        k

  answer_typed-Answer :
      (buf : Bytes) (req : Request) (fresh : Reply Options) (o : Option ℕ)
      → lib.from_bytes buf ≡ ok req
      → (req.op_code == 1) ≡ true
      → lib.new_reply_from_request req ≡ ok fresh
      → reply_type req.message_type ≡ o
      → answer_typed lib host s req fresh o ≢ dropped
      → Answer buf
  unfolding answer_typed
  answer_typed-Answer buf req fresh none e f g h k = absurd (k refl)
  answer_typed-Answer buf req fresh (some type) e f g h k =
      answer_local-Answer buf req fresh type (local_ip host) e f g h refl k

  answer_new-Answer :
      (buf : Bytes) (req : Request) (r : Result (Reply Options))
      → lib.from_bytes buf ≡ ok req
      → (req.op_code == 1) ≡ true
      → lib.new_reply_from_request req ≡ r
      → answer_new lib host s req r ≢ dropped
      → Answer buf
  unfolding answer_new
  answer_new-Answer buf req (err _) e f g k = absurd (k refl)
  answer_new-Answer buf req (ok fresh) e f g k =
      answer_typed-Answer buf req fresh (reply_type req.message_type) e f g refl k

  answer_parsed-Answer :
      (buf : Bytes) (r : Result Request)
      → lib.from_bytes buf ≡ r
      → answer_parsed lib host s r ≢ dropped
      → Answer buf
  unfolding answer_parsed answer_request
  answer_parsed-Answer buf (err _) e k = absurd (k refl)
  answer_parsed-Answer buf (ok req) e k = elim (Bool-cases (req.op_code == 1)) [
    | inl f ↦ answer_new-Answer buf req (lib.new_reply_from_request req) e f refl (rw f at k)
    | inr f ↦ absurd ((rw f at k) refl)
  ]

  pub Answer_of_handle_msg4 : (buf : Bytes) → handle_msg4 lib host s buf ≢ dropped → Answer buf
  unfolding handle_msg4
  Answer_of_handle_msg4 buf h = answer_parsed-Answer buf (lib.from_bytes buf) refl h
