-- ===== src/Config/Viper.antt =====
-- config/viper.go and the calls of viper in the package cmd: what the program tells viper, as a value,
-- and viper's answer to a key as a parameter with the order of precedence that it documents.
use netbootd.Prelude.{
  ℕ, ◌≡◌, Bool, true, false, Option, none, some, List, [], ◌∷◌, Bytes, bytes, str_eq, if◌then◌else◌,
}
use netbootd.Config.Logging.{Logs, Logging, init_zero_log}

-- The value of a flag or of a key.
pub data Value : Type 0 where
  bool : Bool → Value
  number : ℕ → Value
  text : Bytes → Value

-- A flag as BoolVarP, IntVarP or StringVarP defines it.
pub record Flag : Type 0 where
  pub name : Bytes
  pub shorthand : Bytes
  pub initial : Value

-- What viper has been told: the flags bound to keys, the defaults, and where to look.
pub record Viper : Type 0 where
  pub bound : List (Bytes × Flag)
  pub defaults : List (Bytes × Value)
  pub env_prefix : Bytes
  pub automatic_env : Bool
  pub config_name : Bytes
  pub config_type : Bytes
  pub config_paths : List Bytes

abbrev pub new_viper : Viper
new_viper = record {
  bound = [];
  defaults = [];
  env_prefix = [];
  automatic_env = false;
  config_name = [];
  config_type = [];
  config_paths = [];
}

-- viper.BindPFlag: the error for a flag that Lookup has not found is dropped.
unfoldable pub bind_p_flag : Bytes → Option Flag → Viper → Viper
bind_p_flag key none v = v
bind_p_flag key (some f) v = record v { bound = (key, f) ∷ v.bound }

-- InitConfig, up to the reading of the file.
unfoldable pub init_config : Viper → Viper
init_config v = record v {
  config_name = bytes "netbootd";
  config_type = bytes "yaml";
  config_paths =
      bytes "/etc/netbootd/" ∷ (bytes "$HOME/.config/netbootd/" ∷ (bytes "." ∷ v.config_paths));
  defaults = (bytes "store.path", text (bytes "/var/lib/netbootd")) ∷ v.defaults;
  env_prefix = bytes "netbootd";
  automatic_env = true;
}

-- The end of InitConfig: an error of ReadInConfig is logged, by a logger that is initialised first;
-- none is a panic.
unfoldable pub read_in_config : Logs → Logging → Option Bytes → Option Logging
read_in_config logs s none = some s
read_in_config logs s (some e) = init_zero_log logs s

-- The flags given on the command line, by name, and what the environment and the file have for a key.
pub record Inputs : Type 0 where
  pub command_line : Bytes → Option Value
  pub env : Bytes → Option Value
  pub file : Bytes → Option Value

module _ {A : Type 0} where
  abbrev pub assoc : Bytes → List (Bytes × A) → Option A
  assoc key [] = none
  assoc key ((k, a) ∷ l) = if str_eq k key then some a else assoc key l

  abbrev pub or_else : Option A → Option A → Option A
  or_else none rest = rest
  or_else (some x) rest = some x

abbrev pub given : Inputs → Option Flag → Option Value
given i none = none
given i (some f) = i.command_line f.name

abbrev pub initial_of : Option Flag → Option Value
initial_of none = none
initial_of (some f) = some f.initial

-- The documented precedence: a flag that was given, the environment, the file, a default, and the
-- initial value of a flag.
abbrev pub HasPrecedence : (Viper → Inputs → Bytes → Option Value) → Type 0
HasPrecedence viper_get =
    (v : Viper) (i : Inputs) (key : Bytes)
    → v.automatic_env ≡ true
    → viper_get v i key
      ≡ or_else (given i (assoc key v.bound)) (
          or_else (i.env key) (
            or_else (i.file key) (or_else (assoc key v.defaults) (initial_of (assoc key v.bound)))))

-- The conversions behind GetBool, GetInt and GetString, of a value or of none.
pub record Casts : Type 0 where
  pub to_bool : Option Value → Bool
  pub to_number : Option Value → ℕ
  pub to_text : Option Value → Bytes
  pub to_bool-bool : (b : Bool) → to_bool (some (bool b)) ≡ b
  pub to_bool-none : to_bool none ≡ false
