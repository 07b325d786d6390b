-- ===== src/Cmd/Flags.antt =====
-- The flags of cmd/root.go, cmd/server.go and cmd/arpinject.go, their binding to keys of viper, and
-- the settings that the server command reads. What Flags().Lookup of cobra and pflag gives, and
-- viper's answers, are parameters.
use netbootd.Prelude.{false, Option, some, List, [], ◌∷◌, Bytes, bytes, String}
use mathlib.Core.Option
use netbootd.Config.Viper.{
  Value, bool, number, text, Flag, Viper, new_viper, bind_p_flag, init_config, Inputs, Casts,
}
use netbootd.Cmd.Startup.{Settings}

abbrev flag : String → String → Value → Flag
flag name shorthand initial = record {
  name = bytes name;
  shorthand = bytes shorthand;
  initial = initial;
}

abbrev key : String → String → Bytes × Bytes
key k name = (bytes k, bytes name)

-- The persistent flags of the root command, and the keys that they are bound to.
abbrev pub root_flags : List Flag
root_flags =
    flag "debug" "d" (bool false)
    ∷ flag "trace" "" (bool false)
    ∷ flag "disable-journal-logger" "" (bool false)
    ∷ flag "no-color" "" (bool false)
    ∷ flag "enable-json-logger" "" (bool false)
    ∷ []

abbrev pub root_bindings : List (Bytes × Bytes)
root_bindings =
    key "debug" "debug"
    ∷ key "trace" "trace"
    ∷ key "disable-journal-logger" "disable-journal-logger"
    ∷ key "no-color" "no-color"
    ∷ key "enable-json-logger" "enable-json-logger"
    ∷ []

-- The flags of the server command.
abbrev pub server_flags : List Flag
server_flags =
    flag "address" "a" (text [])
    ∷ flag "http-port" "p" (number 8080)
    ∷ flag "syslog-port" "s" (number 514)
    ∷ flag "api-port" "r" (number 8081)
    ∷ flag "api-tls-cert" "" (text [])
    ∷ flag "api-tls-key" "" (text [])
    ∷ flag "interface" "i" (text [])
    ∷ flag "manifests" "m" (text [])
    ∷ flag "root" "" (text [])
    ∷ []

abbrev pub server_bindings : List (Bytes × Bytes)
server_bindings =
    key "address" "address"
    ∷ key "http.port" "http-port"
    ∷ key "syslog.port" "syslog-port"
    ∷ key "api.port" "api-port"
    ∷ key "api.TLSCertificatePath" "api-tls-cert"
    ∷ key "api.TLSPrivateKeyPath" "api-tls-key"
    ∷ key "interface" "interface"
    ∷ key "manifestPath" "manifests"
    ∷ key "rootPath" "root"
    ∷ []

-- The flags of the arpinject command, which are bound to no key.
abbrev pub arp_inject_flags : List Flag
arp_inject_flags =
    flag "ip" "i" (text []) ∷ flag "mac" "m" (text []) ∷ flag "device" "d" (text []) ∷ []

-- Flags().Lookup of a command with its own and its persistent flags, before a command line is parsed.
abbrev pub Lookup : Type 0
Lookup = List Flag → List Flag → Bytes → Option Flag

-- viper.BindPFlag of each flag, in order.
unfoldable pub bind_flags : (Bytes → Option Flag) → List (Bytes × Bytes) → Viper → Viper
bind_flags find [] v = v
bind_flags find ((k, name) ∷ bindings) v = bind_flags find bindings (bind_p_flag k (find name) v)

-- The functions init of cmd/root.go and of cmd/server.go, and InitConfig, which cobra calls before
-- it runs a command.
unfoldable pub configured : Lookup → Viper
configured lookup =
    let v = bind_flags (lookup [] root_flags) root_bindings new_viper in
    let v = bind_flags (lookup server_flags []) server_bindings v in init_config v

-- What the server command reads.
unfoldable pub settings :
    Lookup → (Viper → Inputs → Bytes → Option Value) → Casts → Inputs → Settings
settings lookup viper_get casts i =
    let get = λ (k : String). viper_get (configured lookup) i (bytes k) in
    record {
      trace = casts.to_bool (get "trace");
      debug = casts.to_bool (get "debug");
      address = casts.to_text (get "address");
      interface = casts.to_text (get "interface");
      http_port = casts.to_number (get "http.port");
      syslog_port = casts.to_number (get "syslog.port");
      syslog_port_text = casts.to_text (get "syslog.port");
      api_port = casts.to_number (get "api.port");
      tls_cert = casts.to_text (get "api.TLSCertificatePath");
      tls_key = casts.to_text (get "api.TLSPrivateKeyPath");
      authorization = Option.map (λ x. casts.to_text (some x)) (get "api.authorization");
      manifest_path = casts.to_text (get "manifestPath");
      root_path = casts.to_text (get "rootPath");
    }
