-- ===== src/Manifest/Io/Validate.antt =====
-- What a manifest that passes Validate of manifest/io.go is good for.
use mathlib.Core.Path.{subst}
use netbootd.Prelude.{Option-cases, err}
use netbootd.Prelude.{
  ◌≡◌, ◌≢◌, refl, ◌↔◌, ◌⊎◌, inl, inr, true, false, none, List, [], ◌∷◌, arith, Bytes, All,
  str_eq_iff, Result, ok, with_error, ◌>>=◌,
}
use netbootd.GoStd.Filepath.{is_abs}
use netbootd.GoStd.Filepath.Prefix.{join-is_abs}
use netbootd.Manifest.Defs.{Mount, Manifest}
use netbootd.Manifest.HostPath.{host_path_prefix}
use netbootd.Manifest.Io.{is_unrooted, validate_mounts, validate, manifest_from_yaml}

-- A mount whose directory can be resolved, if it has one.
abbrev pub IsRooted : Bytes → Mount → Type 0
IsRooted root_path mount =
    (mount.local_dir ≡ []) ⊎ ((is_abs mount.local_dir ≡ true) ⊎ (root_path ≢ []))

IsRooted-iff :
    (root_path : Bytes) (mount : Mount)
    → (is_unrooted root_path mount ≡ false) ↔ IsRooted root_path mount
unfolding is_unrooted
IsRooted-iff root_path mount =
    ground (arith, str_eq_iff mount.local_dir [], str_eq_iff root_path [])

validate_mounts_iff :
    (root_path : Bytes) (mounts : List Mount)
    → (validate_mounts root_path mounts ≡ none) ↔ All (IsRooted root_path) mounts
unfolding validate_mounts
validate_mounts_iff root_path [] = ((λ _. tt), λ _. refl)
validate_mounts_iff root_path (m ∷ mounts) =
    ground (arith, IsRooted-iff root_path m, validate_mounts_iff root_path mounts)

-- Validate passes a manifest exactly when each of its mounts has no `localDir`, or an absolute
-- one, or is read under a root path.
pub validate_iff :
    (m : Manifest) (root_path : Bytes)
    → (validate m root_path ≡ none) ↔ All (IsRooted root_path) m.mounts
unfolding validate
validate_iff m root_path = validate_mounts_iff root_path m.mounts

All-map :
    {A : Type 0} (P Q : A → Type 0) (xs : List A) → ((x : A) → P x → Q x) → All P xs → All Q xs
All-map P Q [] f h = tt
All-map P Q (x ∷ xs) f h = (f x h.0, All-map P Q xs f h.1)

host_path_prefix_abs :
    (root_path : Bytes) (mount : Mount)
    → (root_path ≡ []) ⊎ (is_abs root_path ≡ true)
    → IsRooted root_path mount
    → mount.local_dir ≢ []
    → is_abs (host_path_prefix mount root_path) ≡ true
unfolding host_path_prefix
host_path_prefix_abs root_path mount root rooted dir =
    ground (arith, join-is_abs root_path mount.local_dir)

with_error-ok :
    (m m' : Manifest) (root_path : Bytes)
    → with_error (validate m root_path) m ≡ ok m'
    → All (IsRooted root_path) m'.mounts
with_error-ok m m' root_path h = elim (Option-cases (validate m root_path)) [
  | inl e ↦
      let same : m ≡ m' = ground arith in
      subst (λ n. All (IsRooted root_path) n.mounts) same ((validate_iff m root_path).0 e)
  | inr (e, q) ↦ absurd (ground arith)
]

-- A manifest that is read under no root path, or under an absolute one, resolves the directory of
-- each of its mounts with a `localDir` to an absolute path.
pub manifest_from_yaml_abs :
    (unmarshal : Bytes → Result Manifest) (content root_path : Bytes) (m : Manifest)
    → manifest_from_yaml unmarshal content root_path ≡ ok m
    → (root_path ≡ []) ⊎ (is_abs root_path ≡ true)
    → All
        (λ mount. mount.local_dir ≢ [] → is_abs (host_path_prefix mount root_path) ≡ true)
        m.mounts
unfolding manifest_from_yaml
manifest_from_yaml_abs unmarshal content root_path m h root =
    All-map (IsRooted root_path) _ m.mounts (λ mount. host_path_prefix_abs root_path mount root)
      (from (unmarshal content) h)
  where
    from :
        (r : Result Manifest)
        → (r >>= λ n. with_error (validate n root_path) n) ≡ ok m
        → All (IsRooted root_path) m.mounts
    from (ok n) e = with_error-ok n m root_path e
    from (err e') e = cc
