-- ===== src/Manifest/Io.antt =====
-- manifest/io.go: reading a manifest and validating its mounts. The YAML and JSON decoders are
-- parameters: from the text to the manifest that they fill in, or an error.
pub mod Validate
use netbootd.Prelude.{
  Bool, true, false, not, ◌&&◌, Option, none, some, List, [], ◌∷◌, Bytes, bytes, str_eq,
  if◌then◌else◌, Result, ok, err, ◌>>=◌, with_error,
}
use netbootd.GoStd.Filepath.{is_abs}
use netbootd.Manifest.Defs.{Mount, Manifest}

-- The two tests of Validate: a mount on the host's files whose directory cannot be resolved.
unfoldable pub is_unrooted : Bytes → Mount → Bool
is_unrooted root_path mount =
    not (str_eq mount.local_dir []) && (not (is_abs mount.local_dir) && str_eq root_path [])

-- The loop of Manifest.Validate
unfoldable pub validate_mounts : Bytes → List Mount → Option Bytes
unfolding is_unrooted
validate_mounts root_path [] = none
validate_mounts root_path (mount ∷ mounts) =
    if is_unrooted root_path mount
    then some (bytes "localDir needs to be absolute path when rootPath is not set")
    else validate_mounts root_path mounts

-- Manifest.Validate
unfoldable pub validate : Manifest → Bytes → Option Bytes
unfolding validate_mounts
validate m root_path = validate_mounts root_path m.mounts

-- ManifestFromYaml and ManifestFromJson
module _ (unmarshal : Bytes → Result Manifest) where
  unfoldable pub manifest_from_yaml : Bytes → Bytes → Result Manifest
  manifest_from_yaml content root_path = do
    m ← unmarshal content
    with_error (validate m root_path) m

  unfoldable pub manifest_from_json : Bytes → Bytes → Result Manifest
  manifest_from_json content root_path = do
    m ← unmarshal content
    with_error (validate m root_path) m
