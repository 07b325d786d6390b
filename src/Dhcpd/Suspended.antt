-- ===== src/Dhcpd/Suspended.antt =====
-- Booting suspended by api/server.go, as dhcpd/handler.go then answers.
use netbootd.Prelude.{◌≡◌, ap, sym, ◌∙◌, arith, true, some, Bytes, ok}
use netbootd.Manifest.Defs.{Manifest}
use netbootd.Store.Defs.{Store, Ptr, find_by_mac}
use netbootd.Api.Defs
use netbootd.Api.Defs.{Env, self_manifest_at, at, suspend_boot}
use netbootd.Api.Effects.{suspend_boot_shared}
use netbootd.Dhcpd.Host.{Host}
use netbootd.Dhcpd.Packet.{Request, Reply, Dhcpv4, opt_message_type}
use netbootd.Dhcpd.Defs.{Sent, sent, fill_reply, handle_msg4}
use netbootd.Dhcpd.Options.{get-fill_options}
use netbootd.Dhcpd.Answer.{Answer, reply_of}
use netbootd.Dhcpd.Sent.{handle_msg4-IsSent}

module _ (lib : Dhcpv4) (host : Host) where
  open lib use {Options, update, get, get-update}

  ok-inj : {A : Type 0} (a b : A) → ok a ≡ ok b → a ≡ b
  ok-inj a b h = cc

  some-inj : (p q : Ptr) → some p ≡ some q → p ≡ q
  some-inj p q h = cc

  -- An answer for a suspended manifest has the options 66 and 67 of the fresh reply.
  reply_of_suspended :
      (s : Store) (buf : Bytes) (a : Answer lib host s buf)
      → (s.heap.cell a.at).suspended ≡ true
      → (get (reply_of lib host s buf a).options 66 ≡ get a.fresh.options 66)
        × (get (reply_of lib host s buf a).options 67 ≡ get a.fresh.options 67)
  unfolding fill_reply
  reply_of_suspended s buf a h =
      let (_, (_, _, _, _, _, _, _, tftp, boot, _, _)) =
        get-fill_options lib host (s.heap.cell a.at) a.req a.local
          (update a.fresh.options (opt_message_type a.type)) (ground (arith, a.is_request)) in
      (
        ground (arith, tftp, get-update a.fresh.options (opt_message_type a.type) 66),
        ground (arith, boot, get-update a.fresh.options (opt_message_type a.type) 67),
      )

  -- After a host has called suspend-boot, a reply to any hardware address that leads to the host's
  -- manifest has, for the TFTP server (66) and the boot file (67), what the fresh reply has.
  pub suspend_boot_reply :
      (env : Env) (r : Defs.Request) (s : Store) (p : Ptr) (buf : Bytes) (req : Request)
      (fresh : Reply Options) (x : Sent Options)
      → self_manifest_at env r s ≡ at p
      → lib.from_bytes buf ≡ ok req
      → lib.new_reply_from_request req ≡ ok fresh
      → find_by_mac s req.client_hw_addr ≡ some p
      → handle_msg4 lib host (suspend_boot env r s).1 buf ≡ sent x
      → (get x.reply.options 66 ≡ get fresh.options 66)
        × (get x.reply.options 67 ≡ get fresh.options 67)
  suspend_boot_reply env r s p buf req fresh x found parsed built known h =
      let s' = (suspend_boot env r s).1 in
      let (cell, _, _, _, by_mac) = suspend_boot_shared env r s p found in
      let i = handle_msg4-IsSent lib host s' buf x h in
      let a = i.answer in
      let same : a.req ≡ req = ok-inj a.req req (sym a.parsed ∙ parsed) in
      let same_fresh : a.fresh ≡ fresh =
        ok-inj a.fresh fresh (sym a.built ∙ ap lib.new_reply_from_request same ∙ built) in
      let here : a.at ≡ p = some-inj a.at p (
        sym a.known
        ∙ ap (λ (q : Request). find_by_mac s' q.client_hw_addr) same
        ∙ by_mac req.client_hw_addr
        ∙ known) in
      let suspended : (s'.heap.cell a.at).suspended ≡ true =
        ap (λ q. (s'.heap.cell q).suspended) here ∙ ap (λ (m : Manifest). m.suspended) cell in
      let (tftp, boot) = reply_of_suspended s' buf a suspended in
      let options : x.reply.options ≡ (reply_of lib host s' buf a).options =
        ap (λ (y : Reply Options). y.options) i.reply in
      (
        ap (λ o. get o 66) options ∙ tftp ∙ ap (λ (y : Reply Options). get y.options 66) same_fresh,
        ap (λ o. get o 67) options ∙ boot ∙ ap (λ (y : Reply Options). get y.options 67) same_fresh,
      )
