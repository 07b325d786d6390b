-- ===== src/Cmd/Process.antt =====
-- The running process of cmd/server.go, from the start of its services: the loop of the DHCP service, its
-- goroutines and those of TFTP and HTTP, the API's requests for all manifests, and whatever requests do
-- to the store, in any order. A panic of a goroutine ends the process, and so do a Fatal of DHCP's Serve
-- and the error of Go's runtime for a map that is written while it is read; net/http recovers the panics
-- of its handlers, and for the TFTP library that is a parameter.
use netbootd.Prelude.{
  ℕ, suc, Bytes, Option, none, some, Bool, true, false, ◌≡◌, ◌≢◌, List, [], ◌∷◌, ◌++◌,
  if◌then◌else◌, Result, ok, err,
}
use netbootd.Manifest.Defs.{Manifest}
use netbootd.Store.Defs.{Config, Store, Ptr}
use netbootd.Store.Put.{IsStorable}
use netbootd.Store.Steps.{System, Step, start}
use netbootd.Dhcpd.Packet.{Dhcpv4}
use netbootd.Dhcpd.Host.{Host}
use netbootd.Dhcpd.Defs.{Outcome, dropped, crashed, sent}
use netbootd.Dhcpd.Server.{
  Server, Sockets, bind, Peer, udp_peer, other_peer, no_peer, Read, Datagram, received, host_for,
  answer_datagram,
}
use netbootd.Tftpd.Defs as Tftp
use netbootd.Tftpd.Defs.{tftp_read_handler}
use netbootd.Httpd.Defs as Http
use netbootd.Httpd.Defs.{serve_http}

-- DHCP's Serve up to its loop; a read of the loop; a datagram answered from the store; a request that
-- TFTP has served from the store, and one that HTTP has; and a write that Go's runtime has found.
pub data ProcessEvent : Type 0 where
  bound clashed : ProcessEvent
  read : Read → ProcessEvent
  answered : Store → Host → Bytes → ProcessEvent
  fetched : Store → Tftp.ReadRequest → ProcessEvent
  browsed : Http.HttpRequest → ProcessEvent

-- The store, the DHCP server once Serve has bound it, the datagrams that wait for their goroutine, and
-- how many goroutines of the API encode the map that GetAll returned to them.
pub record Process : Type 0 where
  pub system : System
  pub dhcp : Option Server
  pub waiting : List Datagram
  pub encoding : ℕ

pub data Serving : Type 0 where
  up : Process → Serving
  down : Serving

abbrev pub is_udp : Peer → Bool
is_udp (udp_peer a) = true
is_udp other_peer = false
is_udp no_peer = false

-- After Serve up to its loop: an error is a Fatal.
unfoldable pub after_bind : Process → Result Server → Serving
after_bind x (ok server) = up (record x { dhcp = some server })
after_bind x (err e) = down

-- After a round of the loop: a goroutine for the datagram is started at once.
unfoldable pub after_read : Process → Option Datagram → Serving
after_read x none = down
after_read x (some d) = up (record x { waiting = d ∷ x.waiting })

-- After a goroutine has answered.
unfoldable pub after_answer : {O : Type 0} → Process → Outcome O → Serving
after_answer x crashed = down
after_answer x dropped = up x
after_answer x (sent reply) = up x

-- After a goroutine of the TFTP library has called the handler.
unfoldable pub after_fetch : Bool → Process → Tftp.Outcome → Serving
after_fetch recovers x Tftp.panicked = if recovers then up x else down
after_fetch recovers x (Tftp.returned e t) = up x

-- After a goroutine of net/http has called the handler: its panic is logged.
unfoldable pub after_browse : Process → Http.Answer → Serving
after_browse x answer = up x

-- The step writes the map of manifests by ID.
abbrev pub Writes : {x y : System} → Step x y → Type 0
Writes (Step.put m) = IsStorable m
Writes (Step.look i id p found) = ⊥
Writes (Step.forget i p h) = Unit {0}
Writes (Step.suspend p b lt) = ⊥
Writes (Step.hint h) = ⊥

module _ (lib : Dhcpv4) (host : Host) (sockets : Sockets) (created : Server) (recovers : Bool)
    (tftp : Tftp.Services) (http : Http.Services) (cfg : Config) (c : Ptr → Manifest) where
  -- What a process that started with an empty store can come to, with what it has done.
  pub data Run : List ProcessEvent → Serving → Type 0 where
    begin : Run [] (up (record { system = start cfg c; dhcp = none; waiting = []; encoding = 0 }))
    store_step :
        {es : List ProcessEvent} {x : Process} {y : System}
        → Run es (up x)
        → Step x.system y
        → Run es (up (record x { system = y }))
    serve :
        {es : List ProcessEvent} {x : Process}
        → Run es (up x)
        → x.dhcp ≡ none
        → Run (bound ∷ es) (after_bind x (bind sockets created))
    receive :
        {es : List ProcessEvent} {x : Process} (server : Server) (r : Read)
        → Run es (up x)
        → x.dhcp ≡ some server
        → Run (read r ∷ es) (after_read x (received r))
    answer :
        {es : List ProcessEvent} {x : Process} (server : Server) (before after : List Datagram)
        (d : Datagram)
        → Run es (up x)
        → x.dhcp ≡ some server
        → x.waiting ≡ before ++ d ∷ after
        → Run (answered x.system.store (host_for server host d) d.buf ∷ es) (
            after_answer
              (record x { waiting = before ++ after })
              (answer_datagram lib host server x.system.store d))
    fetch :
        {es : List ProcessEvent} {x : Process} (r : Tftp.ReadRequest)
        → Run es (up x)
        → Run
            (fetched x.system.store r ∷ es)
            (after_fetch recovers x (tftp_read_handler tftp x.system.store r))
    browse :
        {es : List ProcessEvent} {x : Process} (r : Http.HttpRequest)
        → Run es (up x)
        → Run (browsed r ∷ es) (after_browse x (serve_http http x.system.store r))
    encode :
        {es : List ProcessEvent} {x : Process}
        → Run es (up x)
        → Run es (up (record x { encoding = suc x.encoding }))
    encoded :
        {es : List ProcessEvent} {x : Process} (n : ℕ)
        → Run es (up x)
        → x.encoding ≡ suc n
        → Run es (up (record x { encoding = n }))
    clash :
        {es : List ProcessEvent} {x : Process} {y : System} (step : Step x.system y)
        → Run es (up x)
        → Writes step
        → x.encoding ≢ 0
        → Run (clashed ∷ es) down
