-- ===== src/Cmd/Tests.antt =====
-- The theorems of this folder at the settings and machines of Sample.
use netbootd.Prelude.{◌≡◌, refl, inl, false, none, [], ◌∷◌, ◌++◌, bytes, ok, err, str_eq}
use netbootd.Dhcpd.Server.{Server, Sockets, new_server}
use netbootd.Syslogd.Defs.{listen}
use netbootd.Tftpd.Server as Tftp
use netbootd.Httpd.Server as Http
use netbootd.Cmd.Startup.{
  level_set, dhcp_serving, tftp_serving, http_serving, syslog_serving, api_serving, notified_ready,
  run, level, loaded, address_ip, uses_tls, api_warning, served_store, startup,
}
use netbootd.Cmd.Sample.{settings, machine, env, request, with_files, with_manifests}
use netbootd.Api.Defs.{manifest_delete, self_suspend, serve}
use netbootd.Store.Invariant.{IsWellFormed}
use netbootd.Cmd.Served.{serve-served_store-IsWellFormed}
use netbootd.Cmd.Ready.{CanStart}
use netbootd.Cmd.Services.{events, startup_services}

can_start : CanStart (settings "") machine
unfolding loaded listen str_eq
can_start = (refl, (inl refl, (refl, refl, refl, refl, refl)))

abbrev sockets : Sockets
sockets = record {
  listen = λ _ _. none;
  interface_by_name = λ _. err [];
  set_control_message = none;
  join_group = λ _. none;
}

abbrev dhcp_server : Server
dhcp_server = record { address = none; zone = []; interface_index = 0; interface_name = [] }

dhcp_created : new_server machine.parse_ip [] [] ≡ ok dhcp_server
unfolding new_server str_eq
dhcp_created = refl

no_tls : uses_tls (settings "") ≡ false
unfolding str_eq
no_tls = refl

startup_services_example : run (startup (settings "") machine) ≡ (
  level_set (level (settings ""))
        ∷ dhcp_serving dhcp_server
        ∷ tftp_serving (Tftp.new_server []) (address_ip (settings "") machine) 69
        ∷ http_serving (Http.new_server []) (address_ip (settings "") machine) 8080
        ∷ syslog_serving (bytes ":514")
        ∷ api_serving (address_ip (settings "") machine) 8081
        ∷ api_serving (address_ip (settings "") machine) 8081
        ∷ events (api_warning (settings ""))
      ++ notified_ready ∷ [],
  none,
)
startup_services_example =
    startup_services (settings "") machine dhcp_server dhcp_created can_start no_tls

serve-served_store-IsWellFormed_example : IsWellFormed (
    serve env
      (served_store with_manifests with_files)
      ((manifest_delete, request) ∷ (self_suspend, request) ∷ []))
serve-served_store-IsWellFormed_example =
    serve-served_store-IsWellFormed with_manifests with_files env
      ((manifest_delete, request) ∷ (self_suspend, request) ∷ [])
