-- ===== src/Cmd/Faults.antt =====
-- What brings the process of cmd/server.go down, by what its goroutines have done.
use netbootd.Prelude.{
  ℕ, Bytes, Option, sym, ◌∙◌, Bool, true, false, ◌≡◌, refl, inl, inr, ◌⊎◌, ◌↔◌, List, [], ◌∷◌,
  if◌then◌else◌, Result, ok, err,
}
use netbootd.Manifest.Defs.{Manifest}
use netbootd.Store.Defs.{Config, Store, Ptr}
use netbootd.Dhcpd.Packet.{Dhcpv4, is_writable}
use netbootd.Dhcpd.Host.{Host}
use netbootd.Dhcpd.Defs.{Outcome, dropped, crashed, sent}
use netbootd.Dhcpd.Crash.{ReadsChaddr, Overruns}
use netbootd.Dhcpd.Exact.{Answerable, address_of, handle_msg4_crashed_iff}
use netbootd.Dhcpd.Server.{
  Server, Sockets, bind, Peer, udp_peer, other_peer, no_peer, Read, received, host_for,
  answer_datagram,
}
use netbootd.Dhcpd.Binding.{CannotBind, bind_err_iff}
use netbootd.Tftpd.Defs as Tftp
use netbootd.Tftpd.Defs.{tftp_read_handler}
use netbootd.Tftpd.Reads.{OpensDirectory, tftp_read_handler_panics_iff}
use netbootd.Httpd.Defs as Http
use netbootd.Httpd.Defs.{serve_http}
use netbootd.Cmd.Process.{
  ProcessEvent, bound, clashed, read, answered, fetched, browsed, Process, Serving, up, down,
  is_udp, after_bind, after_read, after_answer, after_fetch, after_browse, Run, begin, store_step,
  serve, receive, answer, fetch, browse, encode, encoded, clash,
}

module _ (lib : Dhcpv4) (host : Host) (sockets : Sockets) (created : Server) (recovers : Bool)
    (tftp : Tftp.Services) (http : Http.Services) (cfg : Config) (c : Ptr → Manifest) where
  -- The datagram is one to answer, and the client's entry overruns the ARP request or the address of its
  -- manifest is neither nil nor an IPv4 address.
  abbrev pub Crashes : Store → Host → Bytes → Type 0
  Crashes s machine buf =
      (a : Answerable lib machine s buf) × (Overruns lib machine a.req
        ⊎ (is_writable (address_of lib machine s a.at) ≡ false))

  -- A system call of DHCP's Serve that fails, a read without a UDP peer, an answer that crashes, a request
  -- for a bundled directory over TFTP that is not recovered, and a write to the map that is encoded.
  abbrev pub IsFault : ProcessEvent → Type 0
  IsFault bound = CannotBind sockets created
  IsFault clashed = Unit {0}
  IsFault (read r) = is_udp r.peer ≡ false
  IsFault (answered s machine buf) = Crashes s machine buf
  IsFault (fetched s r) = (recovers ≡ false) × OpensDirectory tftp s r
  IsFault (browsed r) = ⊥

  abbrev pub HasFault : List ProcessEvent → Type 0
  HasFault [] = ⊥
  HasFault (e ∷ es) = IsFault e ⊎ HasFault es

  abbrev Holds : List ProcessEvent → Serving → Type 0
  Holds es (up x) = ¬ HasFault es
  Holds es down = HasFault es

  -- An event that is no fault.
  kept :
      (e : ProcessEvent) (es : List ProcessEvent)
      → ¬ IsFault e
      → ¬ HasFault es
      → ¬ HasFault (e ∷ es)
  kept e es fine before l = elim l [ inl now ↦ fine now | inr earlier ↦ before earlier ]

  after_bind-Holds :
      (es : List ProcessEvent) (x : Process) (r : Result Server)
      → bind sockets created ≡ r
      → ¬ HasFault es
      → Holds (bound ∷ es) (after_bind x r)
  unfolding after_bind
  after_bind-Holds es x (ok server) is h =
      kept bound es
        (λ cannot. let (e, fails) = (bind_err_iff sockets created).1 cannot in cc (is, fails)) h
  after_bind-Holds es x (err e) is h = inl ((bind_err_iff sockets created).0 (e, is))

  after_read-Holds :
      (es : List ProcessEvent) (x : Process) (buf : Bytes) (oob : Option ℕ) (peer : Peer)
      (failure : Option Bytes)
      → ¬ HasFault es
      → let r : Read = record { buf = buf; oob = oob; peer = peer; failure = failure } in
        Holds (read r ∷ es) (after_read x (received r))
  unfolding after_read received
  after_read-Holds es x buf oob (udp_peer a) failure h =
      let r : Read = record { buf = buf; oob = oob; peer = udp_peer a; failure = failure } in
      kept (read r) es (λ lost. cc (lost)) h
  after_read-Holds es x buf oob other_peer failure h = inl refl
  after_read-Holds es x buf oob no_peer failure h = inl refl

  after_answer-Holds :
      (es : List ProcessEvent) (e : ProcessEvent) (x : Process) (o : Outcome lib.Options)
      → (o ≡ crashed) ↔ IsFault e
      → ¬ HasFault es
      → Holds (e ∷ es) (after_answer x o)
  unfolding after_answer
  after_answer-Holds es e x dropped exact h = kept e es (λ fault. cc (exact.1 fault)) h
  after_answer-Holds es e x crashed exact h = inl (exact.0 refl)
  after_answer-Holds es e x (sent reply) exact h = kept e es (λ fault. cc (exact.1 fault)) h

  after_panic-Holds :
      (es : List ProcessEvent) (x : Process) (r : Tftp.ReadRequest) (b : Bool)
      → b ≡ recovers
      → OpensDirectory tftp x.system.store r
      → ¬ HasFault es
      → Holds (fetched x.system.store r ∷ es) (if b then up x else down)
  after_panic-Holds es x r true same opens h =
      kept (fetched x.system.store r) es (λ fault. cc (same ∙ fault.0)) h
  after_panic-Holds es x r false same opens h = inl (sym same, opens)

  after_fetch-Holds :
      (es : List ProcessEvent) (x : Process) (r : Tftp.ReadRequest) (o : Tftp.Outcome)
      → tftp_read_handler tftp x.system.store r ≡ o
      → ¬ HasFault es
      → Holds (fetched x.system.store r ∷ es) (after_fetch recovers x o)
  unfolding after_fetch
  after_fetch-Holds es x r Tftp.panicked is h =
      after_panic-Holds es x r recovers refl
        ((tftp_read_handler_panics_iff tftp x.system.store r).0 is) h
  after_fetch-Holds es x r (Tftp.returned e t) is h =
      kept (fetched x.system.store r) es
        (λ fault. cc ((tftp_read_handler_panics_iff tftp x.system.store r).1 fault.1, is)) h

  Run-Holds :
      ReadsChaddr lib
      → {es : List ProcessEvent} {s : Serving}
      → Run lib host sockets created recovers tftp http cfg c es s
      → Holds es s
  unfolding answer_datagram after_browse
  Run-Holds chaddr begin = λ h. h
  Run-Holds chaddr (store_step run step) = Run-Holds chaddr run
  Run-Holds chaddr (serve {es} {x} run fresh) = after_bind-Holds es x _ refl (Run-Holds chaddr run)
  Run-Holds chaddr (receive {es} {x} server r run serving) =
      after_read-Holds es x r.buf r.oob r.peer r.failure (Run-Holds chaddr run)
  Run-Holds chaddr (answer {es} {x} server before after d run serving waits) =
      after_answer-Holds es (answered x.system.store (host_for server host d) d.buf) _ _
        (handle_msg4_crashed_iff lib (host_for server host d) x.system.store d.buf chaddr)
        (Run-Holds chaddr run)
  Run-Holds chaddr (fetch {es} {x} r run) = after_fetch-Holds es x r _ refl (Run-Holds chaddr run)
  Run-Holds chaddr (browse {es} {x} r run) =
      kept (browsed r) es (λ fault. fault) (Run-Holds chaddr run)
  Run-Holds chaddr (encode run) = Run-Holds chaddr run
  Run-Holds chaddr (encoded n run some_left) = Run-Holds chaddr run
  Run-Holds chaddr (clash step run writes busy) = inl tt

  down_iff : (es : List ProcessEvent) (s : Serving) → Holds es s → (s ≡ down) ↔ HasFault es
  down_iff es (up x) h = ((λ e. absurd (cc)), (λ l. absurd (h l)))
  down_iff es down h = ((λ _. h), (λ _. refl))

  -- However the loop and the goroutines of DHCP, the requests over TFTP and HTTP, the API's
  -- encodings of all manifests and the steps on the store interleave, once the services are
  -- started: a panic, a Fatal of DHCP's Serve or an error of Go's runtime has ended the process
  -- exactly when a system call of Serve before its loop has failed, its loop has read without a
  -- UDP peer, a datagram was to be answered for which the ARP request is overrun or the
  -- manifest's address is neither nil nor an IPv4 address, a request over TFTP, from the address
  -- of a manifest with iPXE, has named a bundled directory, such as '.', and the TFTP library
  -- does not recover panics, or the runtime has found a write to the map of manifests while an
  -- API request encoded it; if the packet library reads bytes as client addresses, and net/http
  -- recovers the panics of its handlers.
  pub process_down_iff :
      {es : List ProcessEvent} {s : Serving}
      → ReadsChaddr lib
      → Run lib host sockets created recovers tftp http cfg c es s
      → (s ≡ down) ↔ HasFault es
  process_down_iff {es} {s} chaddr run = down_iff es s (Run-Holds chaddr run)
