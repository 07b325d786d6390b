-- ===== src/Cmd/Services.antt =====
-- Which services a start of cmd/server.go leaves running, and in which order it starts them.
use netbootd.Prelude.{
  ◌≡◌, refl, ap, ◌∙◌, false, none, some, List, [], ◌∷◌, ◌++◌, str_eq, Bool-cases, Option-cases, inl,
  inr, ok, Bytes, bytes, str_eq_iff,
}
use netbootd.Dhcpd.Server.{Server, new_server}
use netbootd.Tftpd.Server as Tftp
use netbootd.Httpd.Server as Http
use netbootd.Cmd.Startup.{
  Settings, Machine, Event, level_set, dhcp_serving, tftp_serving, http_serving, syslog_serving,
  api_serving, notified_ready, Action, attempt, emit, run, level, loaded, dhcp_actions, address_ip,
  address_actions, boot_actions, syslog_addr, syslog_actions, uses_tls, api_serves, api_warning,
  service_actions, api_actions, before_ready, startup,
}
use netbootd.Cmd.Ready.{Passes, HasAddress, CanStart, before_ready_iff}

abbrev pub events : List Action → List Event
events [] = []
events (attempt message o ∷ actions) = events actions
events (emit event ∷ actions) = event ∷ events actions

run_of_Passes : (a b : List Action) → Passes a → run (a ++ b) ≡ (events a ++ (run b).0, (run b).1)
unfolding run
run_of_Passes [] b h = refl
run_of_Passes (attempt message none ∷ a) b h = run_of_Passes a b h.1
run_of_Passes (attempt message (some e) ∷ a) b h = absurd (cc (h.0))
run_of_Passes (emit event ∷ a) b h = rw (run_of_Passes a b h) refl

events-append : (a b : List Action) → events (a ++ b) ≡ events a ++ events b
events-append [] b = refl
events-append (attempt message o ∷ a) b = events-append a b
events-append (emit event ∷ a) b = ap (λ l. event ∷ l) (events-append a b)

module _ (cfg : Settings) (machine : Machine) where
  address_events : events (address_actions cfg machine) ≡ []
  unfolding address_actions
  address_events = elim (Bool-cases (str_eq cfg.address [])) [
    | inl e ↦ rw e refl
    | inr e ↦ rw e refl
  ]

  dhcp_events :
      (server : Server)
      → new_server machine.parse_ip cfg.address cfg.interface ≡ ok server
      → events (dhcp_actions cfg machine) ≡ dhcp_serving server ∷ []
  unfolding dhcp_actions
  dhcp_events server e = rw e refl

  service_events :
      uses_tls cfg ≡ false
      → events (service_actions cfg machine)
        ≡ tftp_serving (Tftp.new_server cfg.root_path) (address_ip cfg machine) 69
          ∷ http_serving (Http.new_server cfg.root_path) (address_ip cfg machine) cfg.http_port
          ∷ syslog_serving (syslog_addr cfg machine)
          ∷ api_serving (address_ip cfg machine) cfg.api_port
          ∷ api_serving (address_ip cfg machine) cfg.api_port
          ∷ events (api_warning cfg)
  unfolding service_actions boot_actions syslog_actions api_actions api_serves
  service_events u = rw u refl

  -- A start that finds everything in order and uses no TLS starts DHCP, TFTP on port 69, HTTP and
  -- syslog, in this order, and then two goroutines that serve the one listener of the API, before it
  -- notifies systemd; no Fatal ends it.
  pub startup_services :
      (server : Server)
      → new_server machine.parse_ip cfg.address cfg.interface ≡ ok server
      → CanStart cfg machine
      → uses_tls cfg ≡ false
      → run (startup cfg machine) ≡ (
        level_set (level cfg)
              ∷ dhcp_serving server
              ∷ tftp_serving (Tftp.new_server cfg.root_path) (address_ip cfg machine) 69
              ∷ http_serving (Http.new_server cfg.root_path) (address_ip cfg machine) cfg.http_port
              ∷ syslog_serving (syslog_addr cfg machine)
              ∷ api_serving (address_ip cfg machine) cfg.api_port
              ∷ api_serving (address_ip cfg machine) cfg.api_port
              ∷ events (api_warning cfg)
            ++ notified_ready ∷ [],
        none,
      )
  unfolding startup before_ready run
  startup_services server dhcp can u =
      run_of_Passes (before_ready cfg machine) (emit notified_ready ∷ [])
        ((before_ready_iff cfg machine).1 can)
      ∙ rw
          (
            events-append (dhcp_actions cfg machine ++ address_actions cfg machine)
                (service_actions cfg machine),
            events-append (dhcp_actions cfg machine) (address_actions cfg machine),
            dhcp_events server dhcp,
            address_events,
            service_events u,
          )
          refl

  set_address : ¬ HasAddress cfg machine → str_eq cfg.address [] ≡ false
  set_address h = elim (Bool-cases (str_eq cfg.address [])) [
    | inl e ↦ absurd (h (inl ((str_eq_iff cfg.address []).0 e)))
    | inr e ↦ e
  ]

  failed_dhcp :
      ¬ HasAddress cfg machine
      → (e : Bytes) × (dhcp_actions cfg machine
          ≡ attempt (bytes "Failed to create DHCP server") (some e) ∷ [])
  unfolding dhcp_actions new_server
  failed_dhcp h = elim (Option-cases (machine.parse_ip cfg.address)) [
    | inl n ↦ (bytes "invalid ip: " ++ cfg.address, rw (set_address h, n) refl)
    | inr (ip, n) ↦ absurd (h (inr (λ q. cc)))
  ]

  -- An address that is no IP address ends the command before anything listens: NewServer of the DHCP
  -- service refuses it, and the later check of the same address is never reached.
  pub startup_invalid :
      (loaded cfg machine).0 ≡ none
      → ¬ HasAddress cfg machine
      → run (startup cfg machine)
        ≡ (level_set (level cfg) ∷ [], some (bytes "Failed to create DHCP server"))
  unfolding startup before_ready run
  startup_invalid load h = rw (load, (failed_dhcp h).1) refl
