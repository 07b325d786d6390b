-- ===== src/Dhcpd/Crash.antt =====
-- When HandleMsg4 panics for a request that it answers: InjectArpFd overruns the array of its request,
-- or ToBytes has an address to write that is no IPv4 address.
use netbootd.Prelude.{
  ℕ, ◌<◌, ◌≤◌, ◌≡◌, ◌≢◌, ◌↔◌, ◌⊎◌, refl, inl, inr, arith, true, false, none, [], Bytes,
  Option-cases, Bool-cases, length, ok, ◌==◌, str_eq, str_eq_iff,
}
use netbootd.GoStd.Ip.{Ip, is_unspecified}
use netbootd.GoStd.Mac.Laws.{AreBytes}
use netbootd.Dhcpd.Arp.{
  Platform, linux_64, linux_other, not_linux, Injection, panicked, injected, failed, inject_arp_fd,
}
use netbootd.Dhcpd.Arp.Layout.{errno_of-ne-panicked, inject_arp_fd_panics_iff}
use netbootd.Dhcpd.Host.{Host}
use netbootd.Dhcpd.Packet.{Request, Reply, Dhcpv4, is_writable}
use netbootd.Dhcpd.Defs.{
  Sent, sent, crashed, arp_device, peer_for, inject, choose_peer, choose_woob, respond,
}

-- What a packet library says of the client's hardware address: it is made of bytes.
abbrev pub ReadsChaddr : Dhcpv4 → Type 0
ReadsChaddr lib =
    (buf : Bytes) (req : Request) → lib.from_bytes buf ≡ ok req → AreBytes req.client_hw_addr

module _ (lib : Dhcpv4) (host : Host) (req : Request) where
  -- The client is to be entered into the ARP table, on 64-bit Linux, and its address is longer than the
  -- 14 bytes of the entry.
  pub record Overruns : Type 0 where
    pub no_relay : is_unspecified req.gateway_ip_addr ≡ true
    pub no_address : is_unspecified req.client_ip_addr ≡ true
    pub no_broadcast : req.is_broadcast ≡ false
    pub device : arp_device lib host ≢ []
    pub connection : host.syscall_conn ≡ none
    pub runs : host.control_runs ≡ true
    pub platform : host.platform ≡ linux_64
    pub long : 14 < length req.client_hw_addr

  module _ (h : AreBytes req.client_hw_addr) where
    overrun_fd :
        (platform : Platform) (ip : Ip) (flags : ℕ) (dev : Bytes)
        → inject_arp_fd platform host.ioctl ip req.client_hw_addr flags dev ≡ panicked
        → (platform ≡ linux_64) × (14 < length req.client_hw_addr)
    unfolding inject_arp_fd
    overrun_fd linux_64 ip flags dev e =
        (refl, (inject_arp_fd_panics_iff host.ioctl ip req.client_hw_addr flags dev h).0 e)
    overrun_fd linux_other ip flags dev e = absurd (errno_of-ne-panicked _ e)
    overrun_fd not_linux ip flags dev e = absurd (cc)

    inject_panics :
        (ip : Ip)
        → inject lib host req ip ≡ panicked
        → (arp_device lib host ≢ [])
          × (host.syscall_conn ≡ none)
          × (host.control_runs ≡ true)
          × (host.platform ≡ linux_64)
          × (14 < length req.client_hw_addr)
    unfolding inject arp_device
    inject_panics ip e =
        let dev = arp_device lib host in
        elim (Bool-cases (str_eq dev [])) [
          | inl empty ↦ absurd (cc (rw empty at e))
          | inr full ↦ elim (Option-cases host.syscall_conn) [
            | inr (error, failing) ↦ absurd (cc (rw (full, failing) at e))
            | inl opened ↦ elim (Bool-cases host.control_runs) [
              | inr idle ↦ absurd (cc (rw (full, opened, idle) at e))
              | inl runs ↦
                  let (platform, long) =
                    overrun_fd host.platform ip 2 dev (rw (full, opened, runs) at e) in
                  (λ none_named. ground (arith, str_eq_iff dev []), opened, runs, platform, long)
            ]
          ]
        ]

    peer_for-none :
        (resp : Reply lib.Options) (i : Injection) → peer_for lib resp i ≡ none → i ≡ panicked
    peer_for-none resp panicked e = refl
    peer_for-none resp injected e = absurd (cc)
    peer_for-none resp (failed error) e = absurd (cc)

    choose_peer-none : (resp : Reply lib.Options) → choose_peer lib host req resp ≡ none → Overruns
    unfolding choose_peer inject
    choose_peer-none resp e =
        let ip = resp.your_ip_addr in
        elim (Bool-cases (is_unspecified req.gateway_ip_addr)) [
          | inr relay ↦ absurd (cc (rw relay at e))
          | inl no_relay ↦ elim (Bool-cases (lib.message_type resp.options == 6)) [
            | inl nak ↦ absurd (cc (rw (no_relay, nak) at e))
            | inr other ↦ elim (Bool-cases (is_unspecified req.client_ip_addr)) [
              | inr address ↦ absurd (cc (rw (no_relay, other, address) at e))
              | inl no_address ↦ elim (Bool-cases req.is_broadcast) [
                | inl broadcast ↦ absurd (cc (rw (no_relay, other, no_address, broadcast) at e))
                | inr no_broadcast ↦
                    let (device, connection, runs, platform, long) = inject_panics ip (
                      peer_for-none resp (inject lib host req ip)
                        (rw (no_relay, other, no_address, no_broadcast) at e)) in
                    record {
                      no_relay = no_relay;
                      no_address = no_address;
                      no_broadcast = no_broadcast;
                      device = device;
                      connection = connection;
                      runs = runs;
                      platform = platform;
                      long = long;
                    }
              ]
            ]
          ]
        ]

    -- The other direction, for a reply that is no Nak.
    overrun_inject : (ip : Ip) → Overruns → inject lib host req ip ≡ panicked
    unfolding inject arp_device
    overrun_inject ip o = elim (Bool-cases (str_eq (arp_device lib host) [])) [
      | inl empty ↦ absurd (o.device ((str_eq_iff (arp_device lib host) []).0 empty))
      | inr full ↦
          rw (full, o.connection, o.runs, o.platform)
            ((inject_arp_fd_panics_iff host.ioctl ip req.client_hw_addr 2 (arp_device lib host) h).1
              o.long)
    ]

    choose_peer_of_Overruns :
        (resp : Reply lib.Options)
        → (lib.message_type resp.options == 6) ≡ false
        → Overruns
        → choose_peer lib host req resp ≡ none
    unfolding choose_peer inject
    choose_peer_of_Overruns resp other o =
        rw (o.no_relay, other, o.no_address, o.no_broadcast, overrun_inject resp.your_ip_addr o)
          refl

    -- The handler's answer panics exactly when the ARP entry is overrun, or when one of the addresses
    -- cannot be written.
    pub respond_crashed_iff :
        (resp : Reply lib.Options)
        → (lib.message_type resp.options == 6) ≡ false
        → is_writable resp.server_ip_addr ≡ true
        → (respond lib host req resp ≡ crashed)
          ↔ (Overruns ⊎ (is_writable resp.your_ip_addr ≡ false))
    unfolding respond
    respond_crashed_iff resp other server = (
      λ e. elim (Option-cases (choose_peer lib host req resp)) [
        | inl lost ↦ inl (choose_peer-none resp lost)
        | inr (peer, found) ↦ elim (Option-cases (lib.to_bytes resp)) [
          | inr (b, whole) ↦ absurd (cc (rw (found, whole) at e))
          | inl panics ↦ elim ((lib.to_bytes_panics_iff resp).0 panics) [
            | inl bad ↦ absurd (cc (server, bad))
            | inr bad ↦ inr bad
          ]
        ]
      ],
      λ cause. elim cause [
        | inl overruns ↦ rw (choose_peer_of_Overruns resp other overruns) refl
        | inr bad ↦ elim (Option-cases (choose_peer lib host req resp)) [
          | inl lost ↦ rw lost refl
          | inr (peer, found) ↦ rw (found, (lib.to_bytes_panics_iff resp).1 (inr bad)) refl
        ]
      ],
    )

    -- An answer that does not panic sends the reply.
    pub respond_sent :
        (resp : Reply lib.Options)
        → ¬ Overruns
        → is_writable resp.server_ip_addr ≡ true
        → is_writable resp.your_ip_addr ≡ true
        → (x : Sent lib.Options) × (respond lib host req resp ≡ sent x) × (x.reply ≡ resp)
    unfolding respond
    respond_sent resp fine server yours = elim (Option-cases (choose_peer lib host req resp)) [
      | inl lost ↦ absurd (fine (choose_peer-none resp lost))
      | inr (peer, found) ↦ elim (Option-cases (lib.to_bytes resp)) [
        | inl panics ↦ absurd (elim ((lib.to_bytes_panics_iff resp).0 panics) [
          | inl bad ↦ cc (server, bad)
          | inr bad ↦ cc (yours, bad)
        ])
        | inr (b, whole) ↦ (
          record { reply = resp; packet = b; woob = choose_woob lib host peer; peer = peer },
          rw (found, whole) refl,
          refl,
        )
      ]
    ]

    pub Overruns_short : length req.client_hw_addr ≤ 14 → ¬ Overruns
    Overruns_short short o = omega (arith, o.long)
