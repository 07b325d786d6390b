-- ===== src/Cmd/Notified.antt =====
-- The server command of cmd/server.go beside the goroutine that serves DHCP, whose Fatal ends the process
-- at any moment after it is started.
use netbootd.Prelude.{◌≡◌, List, [], ◌∷◌, ◌++◌, Bytes, In, ok, err}
use netbootd.Dhcpd.Server.{Server, Sockets, new_server, bind}
use netbootd.Dhcpd.Binding.{CannotBind}
use netbootd.Cmd.Startup.{
  Settings, Machine, Event, dhcp_serving, notified_ready, run, startup, Action, address_actions,
  service_actions, emit,
}

module _ (cfg : Settings) (machine : Machine) (sockets : Sockets) where
  -- The events of a run of the command: all that it does up to the wait for a signal or to a Fatal of its
  -- own, or what it has done when the goroutine of DHCP, once started, ends the process.
  pub data Output : List Event → Type 0 where
    whole : Output (run (startup cfg machine)).0
    cut_off :
        (before after : List Event) (server : Server) (e : Bytes)
        → (run (startup cfg machine)).0 ≡ before ++ after
        → In (dhcp_serving server) before
        → new_server machine.parse_ip cfg.address cfg.interface ≡ ok server
        → bind sockets server ≡ err e
        → Output before

  abbrev later : List Action
  later = (address_actions cfg machine ++ service_actions cfg machine) ++ emit notified_ready ∷ []

  -- DHCP's Serve comes to its loop.
  abbrev pub CanServe : Type 0
  CanServe =
      (server : Server)
      → new_server machine.parse_ip cfg.address cfg.interface ≡ ok server
      → ¬ CannotBind sockets server
