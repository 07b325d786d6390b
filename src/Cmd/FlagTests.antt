-- ===== src/Cmd/FlagTests.antt =====
-- A set of flags in which Lookup finds a command's own flags only, and --trace on the command line.
use netbootd.Prelude.{
  ◌≡◌, ◌↔◌, refl, true, false, Option, none, some, List, [], ◌∷◌, Bytes, bytes, str_eq, str_eq_iff,
  if◌then◌else◌, Bool-cases, inl, inr,
}
use netbootd.Config.Viper.{
  Value, bool, number, text, Flag, Viper, init_config, bind_p_flag, Inputs, Casts, assoc, or_else,
  given, initial_of, HasPrecedence,
}
use netbootd.Cmd.Startup.{trace_level, info_level, level}
use netbootd.Cmd.Flags.{root_flags, Lookup, settings, configured, bind_flags}
use netbootd.Cmd.Levels.{first_named, FindsOwn, trace_level_iff}

abbrev own_only : Lookup
own_only flags persistent name = first_named flags name

some-inj : (f g : Flag) → some f ≡ some g → f ≡ g
some-inj f g h = cc

name-first_named :
    (flags : List Flag) (name : Bytes) (f : Flag) → first_named flags name ≡ some f → f.name ≡ name
name-first_named [] name f h = absurd (cc)
name-first_named (g ∷ flags) name f h = elim (Bool-cases (str_eq g.name name)) [
  | inl e ↦ let same : g ≡ f = some-inj g f (rw e at h) in rw same at ((str_eq_iff g.name name).0 e)
  | inr e ↦ name-first_named flags name f (rw e at h)
]

finds : FindsOwn own_only
finds = record {
  own = λ flags persistent name f h. h;
  named = λ flags persistent name f h. name-first_named flags name f h;
}

abbrev viper_get : Viper → Inputs → Bytes → Option Value
viper_get v i key = or_else (given i (assoc key v.bound)) (
    or_else (i.env key)
      (or_else (i.file key) (or_else (assoc key v.defaults) (initial_of (assoc key v.bound)))))

precedence : HasPrecedence viper_get
precedence v i key automatic = refl

abbrev casts : Casts
casts = record {
  to_bool = λ o. elim o [
    | some x ↦ elim x [ bool b ↦ b | number n ↦ false | text t ↦ false ]
    | none ↦ false
  ];
  to_number = λ o. 0;
  to_text = λ o. [];
  to_bool-bool = λ b. refl;
  to_bool-none = refl;
}

abbrev traced : Inputs
traced = record {
  command_line = λ name. if str_eq name (bytes "trace") then some (bool true) else none;
  env = λ key. none;
  file = λ key. none;
}

trace_level_iff_example :
    (level (settings own_only viper_get casts traced) ≡ trace_level)
    ↔ ((f : Flag) × (own_only [] root_flags (bytes "trace") ≡ some f))
unfolding str_eq
trace_level_iff_example =
    trace_level_iff own_only finds viper_get precedence traced casts refl refl refl

-- With that set of flags, --trace leaves the level at info.
trace_ignored : level (settings own_only viper_get casts traced) ≡ info_level
unfolding level settings configured str_eq bind_flags init_config bind_p_flag
trace_ignored = refl
