-- ===== src/Cmd/Ready.antt =====
-- When cmd/server.go gets as far as to notify systemd, and with which services.
use netbootd.Prelude.{
  ◌≡◌, ◌≢◌, ◌↔◌, ◌⊎◌, inl, inr, refl, sym, arith, true, false, none, some, List, [], ◌∷◌, ◌++◌,
  str_eq, str_eq_iff, In, Bool-cases, Option-cases,
}
use netbootd.Dhcpd.Server.{new_server}
use netbootd.Syslogd.Defs.{listen}
use netbootd.Cmd.Startup.{
  Settings, Machine, notified_ready, Action, attempt, emit, run, loaded, dhcp_actions, address_ip,
  address_actions, boot_actions, syslog_addr, syslog_actions, uses_tls, api_serves, api_warning,
  service_actions, api_actions, before_ready, startup,
}

abbrev pub Passes : List Action → Type 0
Passes [] = Unit
Passes (attempt message o ∷ actions) = (o ≡ none) × Passes actions
Passes (emit event ∷ actions) = Passes actions

-- The actions do not notify systemd.
abbrev IsQuiet : List Action → Type 0
IsQuiet [] = Unit
IsQuiet (attempt message o ∷ actions) = IsQuiet actions
IsQuiet (emit event ∷ actions) = (event ≢ notified_ready) × IsQuiet actions

Passes-append : (a b : List Action) → Passes (a ++ b) ↔ (Passes a × Passes b)
Passes-append [] b = ((λ h. (tt, h)), (λ h. h.1))
Passes-append (attempt message o ∷ a) b =
    let (to, from) = Passes-append a b in
    ((λ h. ((h.0, (to h.1).0), (to h.1).1)), (λ h. (h.0.0, from (h.0.1, h.1))))
Passes-append (emit event ∷ a) b = Passes-append a b

IsQuiet-append : (a b : List Action) → IsQuiet a → IsQuiet b → IsQuiet (a ++ b)
IsQuiet-append [] b h k = k
IsQuiet-append (attempt message o ∷ a) b h k = IsQuiet-append a b h k
IsQuiet-append (emit event ∷ a) b h k = (h.0, IsQuiet-append a b h.1 k)

run_ready_iff :
    (a : List Action)
    → IsQuiet a
    → In notified_ready (run (a ++ emit notified_ready ∷ [])).0 ↔ Passes a
unfolding run
run_ready_iff [] q = ((λ _. tt), (λ _. inl refl))
run_ready_iff (attempt message none ∷ a) q =
    let (to, from) = run_ready_iff a q in ((λ h. (refl, to h)), (λ h. from h.1))
run_ready_iff (attempt message (some e) ∷ a) q = ((λ h. absurd h), (λ h. absurd (cc (h.0))))
run_ready_iff (emit event ∷ a) q =
    let (to, from) = run_ready_iff a q.1 in
    ((λ h. elim h [ inl same ↦ absurd (q.0 (sym same)) | inr i ↦ to i ]), (λ h. inr (from h)))

module _ (cfg : Settings) (machine : Machine) where
  -- No address is set, or it is an IP address.
  abbrev pub HasAddress : Type 0
  HasAddress = (cfg.address ≡ []) ⊎ (machine.parse_ip cfg.address ≢ none)

  is_address : str_eq cfg.address [] ≡ true → HasAddress
  is_address e = inl ((str_eq_iff cfg.address []).0 e)

  is_no_address : str_eq cfg.address [] ≡ false → machine.parse_ip cfg.address ≡ none → ¬ HasAddress
  is_no_address e n (inl empty) = ground (arith, str_eq_iff cfg.address [])
  is_no_address e n (inr valid) = valid n

  dhcp_actions_iff : Passes (dhcp_actions cfg machine) ↔ HasAddress
  unfolding dhcp_actions new_server
  dhcp_actions_iff = elim (Bool-cases (str_eq cfg.address [])) [
    | inl e ↦ (λ _. is_address e, λ _. rw e tt)
    | inr e ↦ elim (Option-cases (machine.parse_ip cfg.address)) [
      | inl n ↦ (λ h. absurd (cc ((rw (e, n) at h).0)), λ h. absurd (is_no_address e n h))
      | inr (ip, n) ↦ (λ _. inr (λ q. cc), λ _. rw (e, n) tt)
    ]
  ]

  address_actions_iff : Passes (address_actions cfg machine) ↔ HasAddress
  unfolding address_actions
  address_actions_iff = elim (Bool-cases (str_eq cfg.address [])) [
    | inl e ↦ (λ _. is_address e, λ _. rw e tt)
    | inr e ↦ elim (Option-cases (machine.parse_ip cfg.address)) [
      | inl n ↦ (λ h. absurd (cc ((rw (e, n) at h).0)), λ h. absurd (is_no_address e n h))
      | inr (ip, n) ↦ (λ _. inr (λ q. cc), λ _. rw (e, n) (refl, tt))
    ]
  ]

  abbrev api_events : List Action
  api_events = api_serves cfg machine ++ api_warning cfg

  api_events_pass : Passes api_events × IsQuiet api_events
  unfolding api_serves api_warning
  api_events_pass = elim (Bool-cases (uses_tls cfg)) [
    | inl u ↦ elim (Option-cases cfg.authorization) [
      | inl a ↦ rw (u, a) (tt, (λ e. cc, (λ e. cc, tt)))
      | inr (v, a) ↦ rw (u, a) (tt, (λ e. cc, tt))
    ]
    | inr u ↦ elim (Option-cases cfg.authorization) [
      | inl a ↦ rw (u, a) (tt, (λ e. cc, (λ e. cc, (λ e. cc, tt))))
      | inr (v, a) ↦ rw (u, a) (tt, (λ e. cc, (λ e. cc, tt)))
    ]
  ]

  -- The sockets of the services can be bound.
  abbrev pub CanBind : Type 0
  CanBind =
      let ip = address_ip cfg machine in
      let addr = syslog_addr cfg machine in
      (machine.listen_udp ip 69 ≡ none)
      × (machine.listen_tcp ip cfg.http_port ≡ none)
      × (listen machine.syslog_listen_udp addr ≡ none)
      × (listen machine.syslog_listen_tcp addr ≡ none)
      × (machine.listen_tcp ip cfg.api_port ≡ none)

  service_actions_iff : Passes (service_actions cfg machine) ↔ CanBind
  unfolding service_actions boot_actions syslog_actions api_actions
  service_actions_iff = (
    λ (tftp, (http, (udp, (tcp, (api, _))))). (tftp, http, udp, tcp, api),
    λ (tftp, http, udp, tcp, api). (tftp, (http, (udp, (tcp, (api, api_events_pass.0))))),
  )

  -- The manifests are read, the address is valid, and each socket can be bound.
  abbrev pub CanStart : Type 0
  CanStart = ((loaded cfg machine).0 ≡ none) × (HasAddress × CanBind)

  pub before_ready_iff : Passes (before_ready cfg machine) ↔ CanStart
  unfolding before_ready
  before_ready_iff = (
    λ h.
        let (h1, services) =
          (Passes-append (dhcp_actions cfg machine ++ address_actions cfg machine)
              (service_actions cfg machine)).0
            h.1 in
        let (dhcp, _) =
          (Passes-append (dhcp_actions cfg machine) (address_actions cfg machine)).0 h1 in
        (h.0, (dhcp_actions_iff.0 dhcp, service_actions_iff.0 services)),
    λ (load, (address, services)).
        let h1 =
          (Passes-append (dhcp_actions cfg machine) (address_actions cfg machine)).1
            (dhcp_actions_iff.1 address, address_actions_iff.1 address) in
        (
          load,
          (Passes-append (dhcp_actions cfg machine ++ address_actions cfg machine)
                (service_actions cfg machine)).1
              (h1, service_actions_iff.1 services),
        ),
  )

  dhcp_actions-IsQuiet : IsQuiet (dhcp_actions cfg machine)
  unfolding dhcp_actions new_server
  dhcp_actions-IsQuiet = elim (Bool-cases (str_eq cfg.address [])) [
    | inl e ↦ rw e (λ q. cc, tt)
    | inr e ↦ elim (Option-cases (machine.parse_ip cfg.address)) [
      | inl n ↦ rw (e, n) tt
      | inr (ip, n) ↦ rw (e, n) (λ q. cc, tt)
    ]
  ]

  address_actions-IsQuiet : IsQuiet (address_actions cfg machine)
  unfolding address_actions
  address_actions-IsQuiet = elim (Bool-cases (str_eq cfg.address [])) [
    | inl e ↦ rw e tt
    | inr e ↦ rw e tt
  ]

  service_actions-IsQuiet : IsQuiet (service_actions cfg machine)
  unfolding service_actions boot_actions syslog_actions api_actions
  service_actions-IsQuiet = (λ e. cc, (λ e. cc, (λ e. cc, api_events_pass.1)))

  before_ready-IsQuiet : IsQuiet (before_ready cfg machine)
  unfolding before_ready
  before_ready-IsQuiet = (
    λ e. cc,
    IsQuiet-append (dhcp_actions cfg machine ++ address_actions cfg machine)
        (service_actions cfg machine)
        (IsQuiet-append (dhcp_actions cfg machine) (address_actions cfg machine)
          dhcp_actions-IsQuiet address_actions-IsQuiet)
        service_actions-IsQuiet,
  )

  -- systemd is notified exactly when the manifests are read without an error, the address is an IP
  -- address or none is set, and the sockets of TFTP, HTTP, both of syslog and that of the API are bound.
  pub startup_ready_iff : In notified_ready (run (startup cfg machine)).0 ↔ CanStart
  unfolding startup
  startup_ready_iff =
      let (to, from) = run_ready_iff (before_ready cfg machine) before_ready-IsQuiet in
      (λ h. before_ready_iff.0 (to h), λ h. from (before_ready_iff.1 h))
