-- ===== src/Cmd/Levels.antt =====
-- Which flags of cmd/root.go and cmd/server.go have an effect on what viper answers.
use netbootd.Prelude.{
  ◌≡◌, ◌↔◌, refl, ap, ◌∙◌, inl, inr, Bool, true, Option, none, some, List, [], ◌∷◌, Bytes, bytes,
  str_eq, if◌then◌else◌, In, All, All-In, arith, Option-cases,
}
use netbootd.Config.Viper.{
  Value, bool, Flag, Viper, new_viper, bind_p_flag, init_config, Inputs, Casts, assoc, or_else,
  HasPrecedence,
}
use netbootd.Cmd.Startup.{trace_level, debug_level, info_level, level}
use netbootd.Cmd.Flags.{
  root_flags, root_bindings, server_flags, server_bindings, Lookup, bind_flags, configured,
  settings,
}

-- The flag that the last binding of a key has found.
abbrev last_bound : (Bytes → Option Flag) → List (Bytes × Bytes) → Bytes → Option Flag
last_bound find [] key = none
last_bound find ((k, name) ∷ bindings) key =
    or_else (last_bound find bindings key) (if str_eq k key then find name else none)

or_else_assoc : (a b c : Option Flag) → or_else a (or_else b c) ≡ or_else (or_else a b) c
or_else_assoc none b c = refl
or_else_assoc (some f) b c = refl

or_else-none : (o : Option Flag) → or_else o none ≡ o
or_else-none none = refl
or_else-none (some f) = refl

assoc-bind_p_flag :
    (key k : Bytes) (o : Option Flag) (v : Viper)
    → assoc key (bind_p_flag k o v).bound
      ≡ or_else (if str_eq k key then o else none) (assoc key v.bound)
unfolding bind_p_flag
assoc-bind_p_flag key k none v = ground arith
assoc-bind_p_flag key k (some f) v = ground arith

assoc-bind_flags :
    (key : Bytes) (find : Bytes → Option Flag) (bindings : List (Bytes × Bytes)) (v : Viper)
    → assoc key (bind_flags find bindings v).bound
      ≡ or_else (last_bound find bindings key) (assoc key v.bound)
unfolding bind_flags
assoc-bind_flags key find [] v = refl
assoc-bind_flags key find ((k, name) ∷ bindings) v =
    assoc-bind_flags key find bindings (bind_p_flag k (find name) v)
    ∙ ap (λ o. or_else (last_bound find bindings key) o) (assoc-bind_p_flag key k (find name) v)
    ∙ or_else_assoc (last_bound find bindings key) (if str_eq k key then find name else none)
        (assoc key v.bound)

-- pflag finds the flags of the set that it looks in, by their names.
abbrev pub first_named : List Flag → Bytes → Option Flag
first_named [] name = none
first_named (f ∷ flags) name = if str_eq f.name name then some f else first_named flags name

pub record FindsOwn (lookup : Lookup) : Type 0 where
  pub own :
      (flags persistent : List Flag) (name : Bytes) (f : Flag)
      → first_named flags name ≡ some f
      → lookup flags persistent name ≡ some f
  pub named :
      (flags persistent : List Flag) (name : Bytes) (f : Flag)
      → lookup flags persistent name ≡ some f
      → f.name ≡ name

defaults-bind_p_flag :
    (k : Bytes) (o : Option Flag) (v : Viper) → (bind_p_flag k o v).defaults ≡ v.defaults
unfolding bind_p_flag
defaults-bind_p_flag k none v = refl
defaults-bind_p_flag k (some f) v = refl

defaults-bind_flags :
    (find : Bytes → Option Flag) (bindings : List (Bytes × Bytes)) (v : Viper)
    → (bind_flags find bindings v).defaults ≡ v.defaults
unfolding bind_flags
defaults-bind_flags find [] v = refl
defaults-bind_flags find ((k, name) ∷ bindings) v =
    defaults-bind_flags find bindings (bind_p_flag k (find name) v)
    ∙ defaults-bind_p_flag k (find name) v

no_trace : (debug : Bool) → ((if debug then debug_level else info_level) ≡ trace_level) → ⊥
no_trace debug h = ground arith

module _ (lookup : Lookup) (finds : FindsOwn lookup)
    (viper_get : Viper → Inputs → Bytes → Option Value) (precedence : HasPrecedence viper_get)
    (i : Inputs) where
  bound-configured :
      (key : Bytes)
      → assoc key (configured lookup).bound
        ≡ or_else
            (last_bound (lookup server_flags []) server_bindings key)
            (or_else (last_bound (lookup [] root_flags) root_bindings key) none)
  unfolding configured init_config
  bound-configured key =
      assoc-bind_flags key (lookup server_flags []) server_bindings _
      ∙ ap (λ o. or_else (last_bound (lookup server_flags []) server_bindings key) o)
          (assoc-bind_flags key (lookup [] root_flags) root_bindings new_viper)

  trace_bound :
      assoc (bytes "trace") (configured lookup).bound ≡ lookup [] root_flags (bytes "trace")
  unfolding str_eq
  trace_bound = bound-configured (bytes "trace") ∙ or_else-none _ ∙ or_else-none _

  -- What viper gives for a key that is bound to a flag which was given on the command line.
  given_value :
      (key name : Bytes) (f : Flag) (x : Value)
      → assoc key (configured lookup).bound ≡ some f
      → f.name ≡ name
      → i.command_line name ≡ some x
      → viper_get (configured lookup) i key ≡ some x
  unfolding configured init_config
  given_value key name f x bound named on_line =
      precedence (configured lookup) i key refl ∙ rw (bound, named, on_line) refl

  -- Each flag of the server command is bound to its key, and found by its name.
  IsBound : Bytes × Bytes → Type 0
  IsBound (key, name) =
      (f : Flag) × (first_named server_flags name ≡ some f)
      × ((find : Bytes → Option Flag)
          → find name ≡ some f
          → last_bound find server_bindings key ≡ some f)

  server_flags-IsBound : All IsBound server_bindings
  unfolding IsBound str_eq
  server_flags-IsBound = (
    (_, refl, λ find e. rw e refl),
    (
      (_, refl, λ find e. rw e refl),
      (
        (_, refl, λ find e. rw e refl),
        (
          (_, refl, λ find e. rw e refl),
          (
            (_, refl, λ find e. rw e refl),
            (
              (_, refl, λ find e. rw e refl),
              (
                (_, refl, λ find e. rw e refl),
                ((_, refl, λ find e. rw e refl), ((_, refl, λ find e. rw e refl), tt)),
              ),
            ),
          ),
        ),
      ),
    ),
  )

  -- A value that is given on the command line for a flag of the server command is what viper gives
  -- for the flag's key, whatever the environment and the file have for it.
  pub server_flag_given :
      (key name : Bytes) (x : Value)
      → In (key, name) server_bindings
      → i.command_line name ≡ some x
      → viper_get (configured lookup) i key ≡ some x
  unfolding IsBound
  server_flag_given key name x bound on_line =
      let (f, first, last) = All-In IsBound server_bindings server_flags-IsBound bound in
      let found = finds.own server_flags [] name f first in
      given_value key name f x
        (bound-configured key ∙ rw (last (lookup server_flags []) found) refl)
        (finds.named server_flags [] name f found) on_line

  automatic : (configured lookup).automatic_env ≡ true
  unfolding configured init_config
  automatic = refl

  trace_default : assoc (bytes "trace") (configured lookup).defaults ≡ none
  unfolding configured init_config str_eq
  trace_default =
      ap (λ d. assoc (bytes "trace") d)
        (defaults-bind_flags (lookup server_flags []) server_bindings _
          ∙ defaults-bind_flags (lookup [] root_flags) root_bindings new_viper)

  value_missing :
      lookup [] root_flags (bytes "trace") ≡ none
      → i.env (bytes "trace") ≡ none
      → i.file (bytes "trace") ≡ none
      → viper_get (configured lookup) i (bytes "trace") ≡ none
  value_missing missing env file =
      precedence (configured lookup) i (bytes "trace") automatic
      ∙ rw (trace_bound ∙ missing, env, file, trace_default) refl

  -- With --trace on the command line, and nothing about it in the environment and in the file, the
  -- level of logging is that of --trace exactly when Flags().Lookup of the root command finds the
  -- persistent flag when it is bound.
  pub trace_level_iff :
      (casts : Casts)
      → i.command_line (bytes "trace") ≡ some (bool true)
      → i.env (bytes "trace") ≡ none
      → i.file (bytes "trace") ≡ none
      → (level (settings lookup viper_get casts i) ≡ trace_level)
        ↔ ((f : Flag) × (lookup [] root_flags (bytes "trace") ≡ some f))
  unfolding level settings
  trace_level_iff casts on_line env file =
      elim (Option-cases (lookup [] root_flags (bytes "trace"))) [
        | inl missing ↦ (
          (λ h. absurd (no_trace _ (rw (value_missing missing env file, casts.to_bool-none) at h))),
          (λ found. absurd (cc (found.1))),
        )
        | inr (f, found) ↦
            let value =
              given_value (bytes "trace") (bytes "trace") f (bool true) (trace_bound ∙ found)
                (finds.named [] root_flags (bytes "trace") f found) on_line in
            ((λ _. (f, found)), (λ _. rw (value, casts.to_bool-bool true) refl))
      ]
