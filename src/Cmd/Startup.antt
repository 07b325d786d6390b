-- ===== src/Cmd/Startup.antt =====
-- cmd/server.go: what the server command does, as the list of its actions up to the wait for a
-- signal. viper's settings, the system calls and net are parameters. The goroutines that it starts
-- are events, and so is a call that can be seen from outside; a Fatal ends the process. The Fatal
-- of DHCP's goroutine is in Notified. The call of InitZeroLog, which comes first, is in
-- Config/Logging; NewStore and the constructors of the services other than DHCP return no error, so
-- the tests of their errors are left out.
use netbootd.Prelude.{
  ℕ, Bool, true, false, not, ◌&&◌, Option, none, some, List, [], ◌∷◌, ◌++◌, Bytes, bytes, str_eq,
  if◌then◌else◌, Result, ok, err,
}
use netbootd.GoStd.Ip.{Ip}
use netbootd.Manifest.Defs.{Manifest}
use netbootd.Store.Defs.{Store, Ptr, DirEntry, new_store, load_from_directory}
use netbootd.Dhcpd.Server.{Server, new_server}
use netbootd.Tftpd.Server as Tftp
use netbootd.Httpd.Server as Http
use netbootd.Api.Defs.{Env}
use netbootd.Syslogd.Defs.{listen}

-- What viper returns for the keys of the flags, of the configuration and of the environment;
-- `authorization` is none if the key is not set.
pub record Settings : Type 0 where
  pub trace : Bool
  pub debug : Bool
  pub address : Bytes
  pub interface : Bytes
  pub http_port : ℕ
  pub syslog_port : ℕ
  pub syslog_port_text : Bytes
  pub api_port : ℕ
  pub tls_cert : Bytes
  pub tls_key : Bytes
  pub authorization : Option Bytes
  pub manifest_path : Bytes
  pub root_path : Bytes

-- The system and the libraries, each call with its error.
pub record Machine : Type 0 where
  pub unmarshal : Bytes → Result Manifest
  pub read_file : Bytes → Result Bytes
  pub read_dir : Bytes → List DirEntry × Option Bytes
  pub unallocated : Ptr → Manifest
  pub parse_ip : Bytes → Ip
  pub join_host_port : Bytes → Bytes → Bytes
  pub listen_udp : Ip → ℕ → Option Bytes
  pub listen_tcp : Ip → ℕ → Option Bytes
  pub syslog_listen_udp : Bytes → Option Bytes
  pub syslog_listen_tcp : Bytes → Option Bytes

pub data Level : Type 0 where
  trace_level debug_level info_level : Level

pub data Event : Type 0 where
  level_set : Level → Event
  dhcp_serving : Server → Event
  tftp_serving : Tftp.Server → Ip → ℕ → Event
  http_serving : Http.Server → Ip → ℕ → Event
  api_serving api_serving_tls : Ip → ℕ → Event
  syslog_serving : Bytes → Event
  warned_open notified_ready : Event

-- A call whose error is Fatal, with the message, or an event.
pub data Action : Type 0 where
  attempt : Bytes → Option Bytes → Action
  emit : Event → Action

-- The events, and the message of the Fatal that ended the process, if one did.
unfoldable pub run : List Action → List Event × Option Bytes
run [] = ([], none)
run (attempt message (some e) ∷ actions) = ([], some message)
run (attempt message none ∷ actions) = run actions
run (emit event ∷ actions) = let rest = run actions in (event ∷ rest.0, rest.1)

unfoldable pub level : Settings → Level
level cfg = if cfg.trace then trace_level else if cfg.debug then debug_level else info_level

-- The store and the error of loading the manifests, if a path is set.
unfoldable pub loaded : Settings → Machine → Option Bytes × Store
loaded cfg machine =
    let s = new_store (record { persistence_directory = [] }) machine.unallocated in
    if not (str_eq cfg.manifest_path [])
    then load_from_directory machine.unmarshal machine.read_file s cfg.manifest_path cfg.root_path
        (machine.read_dir cfg.manifest_path)
    else (none, s)

-- The store that the services are started with.
unfoldable pub served_store : Settings → Machine → Store
served_store cfg machine = record (loaded cfg machine).1 {
  global_hints = record {
    http_port = cfg.http_port;
    syslog_port = cfg.syslog_port;
    api_port = cfg.api_port;
  };
}

abbrev served : Result Server → List Action
served (ok server) = emit (dhcp_serving server) ∷ []
served (err e) = attempt (bytes "Failed to create DHCP server") (some e) ∷ []

unfoldable pub dhcp_actions : Settings → Machine → List Action
dhcp_actions cfg machine = served (new_server machine.parse_ip cfg.address cfg.interface)

-- addressIP
unfoldable pub address_ip : Settings → Machine → Ip
address_ip cfg machine = if not (str_eq cfg.address []) then machine.parse_ip cfg.address else none

abbrev pub invalid : Bytes → Ip → Option Bytes
invalid addr none = some addr
invalid addr (some ip) = none

unfoldable pub address_actions : Settings → Machine → List Action
address_actions cfg machine =
    if not (str_eq cfg.address [])
    then attempt (bytes "Invalid address") (invalid cfg.address (machine.parse_ip cfg.address)) ∷ []
    else []

unfoldable pub boot_actions : Settings → Machine → List Action
boot_actions cfg machine =
    let ip = address_ip cfg machine in
    attempt (bytes "Failed to bind TFTP server") (machine.listen_udp ip 69)
    ∷ emit (tftp_serving (Tftp.new_server cfg.root_path) ip 69)
    ∷ attempt (bytes "Failed to bind HTTP API server") (machine.listen_tcp ip cfg.http_port)
    ∷ emit (http_serving (Http.new_server cfg.root_path) ip cfg.http_port)
    ∷ []

abbrev pub syslog_addr : Settings → Machine → Bytes
syslog_addr cfg machine = machine.join_host_port cfg.address cfg.syslog_port_text

unfoldable pub syslog_actions : Settings → Machine → List Action
syslog_actions cfg machine =
    let addr = syslog_addr cfg machine in
    attempt (bytes "Failed to bind UDP Syslog server") (listen machine.syslog_listen_udp addr)
    ∷ attempt (bytes "Failed to bind TCP Syslog server") (listen machine.syslog_listen_tcp addr)
    ∷ emit (syslog_serving addr)
    ∷ []

abbrev pub uses_tls : Settings → Bool
uses_tls cfg = not (str_eq cfg.tls_cert []) && not (str_eq cfg.tls_key [])

abbrev is_set : Option Bytes → Bool
is_set none = false
is_set (some _) = true

-- What the API's NewServer is given: viper.GetString of a key that is not set is empty.
unfoldable pub api_env : Settings → Env → Env
api_env cfg env = record env {
  authorization = elim cfg.authorization [ none ↦ [] | some text ↦ text ];
  root_path = cfg.root_path;
}

-- The API service: two goroutines serve its one listener, unless it uses TLS.
unfoldable pub api_serves : Settings → Machine → List Action
api_serves cfg machine =
    let ip = address_ip cfg machine in
    if uses_tls cfg
    then emit (api_serving_tls ip cfg.api_port) ∷ []
    else emit (api_serving ip cfg.api_port) ∷ emit (api_serving ip cfg.api_port) ∷ []

unfoldable pub api_warning : Settings → List Action
api_warning cfg = if not (is_set cfg.authorization) then emit warned_open ∷ [] else []

unfoldable pub api_actions : Settings → Machine → List Action
api_actions cfg machine =
    attempt (bytes "Failed to bind API server")
        (machine.listen_tcp (address_ip cfg machine) cfg.api_port)
      ∷ api_serves cfg machine
    ++ api_warning cfg

unfoldable pub service_actions : Settings → Machine → List Action
service_actions cfg machine =
    boot_actions cfg machine ++ syslog_actions cfg machine ++ api_actions cfg machine

-- The command up to the notification of systemd.
unfoldable pub before_ready : Settings → Machine → List Action
before_ready cfg machine =
    emit (level_set (level cfg))
      ∷ attempt (bytes "Failed to load manifests") (loaded cfg machine).0
      ∷ dhcp_actions cfg machine
    ++ address_actions cfg machine
    ++ service_actions cfg machine

-- The command up to the wait for a signal.
unfoldable pub startup : Settings → Machine → List Action
startup cfg machine = before_ready cfg machine ++ emit notified_ready ∷ []
