-- ===== src/Boot/Suffix.antt =====
-- manifest/schema.go and tftpd/handler.go: the suffix that a prefix mount appends, for a request with
-- and one without the leading slash.
use netbootd.Prelude.{ℕ, ◌≡◌, ◌≢◌, refl, arith, true, ◌∷◌, ◌++◌, Bytes}
use netbootd.GoStd.Strings.{slash, trim_prefix, has_prefix}
use netbootd.GoStd.Strings.Laws.{trim_prefix-append}
use netbootd.GoStd.Filepath.{join}
use netbootd.Manifest.Defs.{Mount, Manifest, get_mount}
use netbootd.Manifest.GetMount.{get_mount-slash}
use netbootd.Manifest.HostPath.{host_path_prefix, host_path}
use netbootd.Tftpd.Defs.{Services, ReadRequest, proxy_url}

trim_prefix_ne : (c : ℕ) (s p : Bytes) → c ≢ slash → trim_prefix (c ∷ s) (slash ∷ p) ≡ c ∷ s
unfolding trim_prefix has_prefix
trim_prefix_ne c s p ne = ground arith

-- A mount that appends the suffix, with a path that begins with one slash.
module _ (tftp : Services) (m : Manifest) (mount : Mount) (r : ReadRequest) (c : ℕ)
    (name rest : Bytes) (append : mount.append_suffix ≡ true) (path : mount.path ≡ slash ∷ c ∷ name)
    (ne : c ≢ slash) where
  abbrev with_slash : ReadRequest
  with_slash = record r { filename = slash ∷ c ∷ (name ++ rest) }

  abbrev without_slash : ReadRequest
  without_slash = record r { filename = c ∷ (name ++ rest) }

  trimmed : trim_prefix (slash ∷ c ∷ (name ++ rest)) mount.path ≡ rest
  trimmed = rw path (trim_prefix-append (slash ∷ c ∷ name) rest)

  untrimmed : trim_prefix (c ∷ (name ++ rest)) mount.path ≡ c ∷ (name ++ rest)
  untrimmed = rw path (trim_prefix_ne c (name ++ rest) (c ∷ name) ne)

  -- For a mount at '/<name>' that appends the suffix, the requests '/<name><rest>' and '<name><rest>'
  -- choose the same mount of a manifest, but lead to different places: with the slash the path on the
  -- host is <rest> below the directory and the URL the proxy's with <rest>, and without the slash both
  -- have all of <name><rest> there.
  pub suffix-slash :
      (root_path : Bytes)
      → (get_mount m with_slash.filename ≡ get_mount m without_slash.filename)
        × (host_path mount root_path with_slash.filename
            ≡ join (host_path_prefix mount root_path) rest)
        × (host_path mount root_path without_slash.filename
            ≡ join (host_path_prefix mount root_path) (c ∷ (name ++ rest)))
        × (proxy_url tftp mount with_slash ≡ mount.proxy ++ rest)
        × (proxy_url tftp mount without_slash ≡ mount.proxy ++ c ∷ (name ++ rest))
  unfolding host_path proxy_url
  suffix-slash root_path = (
    get_mount-slash m (c ∷ (name ++ rest)),
    rw (append, trimmed) refl,
    rw (append, untrimmed) refl,
    rw (append, trimmed) refl,
    rw (append, untrimmed) refl,
  )
