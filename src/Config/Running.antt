-- ===== src/Config/Running.antt =====
-- The running configuration of config/config.go, and Read, GetConfig and Watch of config/viper.go. What
-- viper.Unmarshal does to a configuration, and when viper sees the file change, are parameters.
use netbootd.Prelude.{
  ◌≡◌, refl, ap, ◌∙◌, sym, Bool, true, Option, none, some, List, [], ◌∷◌, ◌++◌, Bytes,
  if◌then◌else◌,
}
use mathlib.Core.List.{append-nil, append_assoc}

pub record Api : Type 0 where
  pub authorization : Bytes
  pub tls_private_key_path : Bytes
  pub tls_certificate_path : Bytes

pub record Config : Type 0 where
  pub api : Api

-- The variable `config`, whether viper watches the file, and what the callback has logged, if there
-- is one: the paths, in their order.
pub record Running : Type 0 where
  pub config : Config
  pub watched : Bool
  pub logged : Option (List Bytes)

-- Read: the error of viper.Unmarshal, with what it has set.
unfoldable pub read : (Config → Config × Option Bytes) → Running → Running × Option Bytes
read unmarshal s = (record s { config = (unmarshal s.config).0 }, (unmarshal s.config).1)

unfoldable pub get_config : Running → Config
get_config s = s.config

-- Watch, for the first time.
unfoldable pub watch : Running → Running
watch s = record s { watched = true; logged = some [] }

-- The callback of OnConfigChange, where one is set.
abbrev on_config_change : Option (List Bytes) → Bytes → Option (List Bytes)
on_config_change none path = none
on_config_change (some log) path = some (log ++ path ∷ [])

-- The file at the path changes.
unfoldable pub change : Running → Bytes → Running
change s path = if s.watched then record s { logged = on_config_change s.logged path } else s

abbrev pub changes : Running → List Bytes → Running
changes s [] = s
changes s (path ∷ paths) = changes (change s path) paths

changes_of_watched :
    (paths : List Bytes) (s : Running) (log : List Bytes)
    → s.watched ≡ true
    → s.logged ≡ some log
    → (get_config (changes s paths) ≡ get_config s)
      × ((changes s paths).logged ≡ some (log ++ paths))
unfolding change get_config
changes_of_watched [] s log on is = (refl, is ∙ ap some (sym (append-nil log)))
changes_of_watched (path ∷ paths) s log on is =
    let (same, logged) =
      changes_of_watched paths (change s path) (log ++ path ∷ []) (rw on refl) (rw (on, is) refl) in
    (same ∙ rw on refl, logged ∙ ap some (append_assoc log (path ∷ []) paths))

-- After Watch each change of the file is logged, and none reaches GetConfig: that gives what the last
-- Read has set.
pub get_config-changes :
    (unmarshal : Config → Config × Option Bytes) (paths : List Bytes) (s : Running)
    → let after = changes (watch (read unmarshal s).0) paths in
      (get_config after ≡ (unmarshal (get_config s)).0) × (after.logged ≡ some paths)
unfolding read watch get_config
get_config-changes unmarshal paths s =
    changes_of_watched paths (watch (read unmarshal s).0) [] refl refl
