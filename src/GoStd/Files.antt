-- ===== src/GoStd/Files.antt =====
-- Opened files: of an embed.FS, and of the host.
use netbootd.Prelude.{ℕ, Bool, Bytes, Result}

-- A file of an embed.FS, such as static.Files; a directory of it does not implement
-- io.ReadSeeker. `name` is the one of its Stat.
pub record StaticFile : Type 0 where
  pub name : Bytes
  pub is_read_seeker : Bool
  pub contents : Bytes

-- A file of the host, after os.Open.
pub record HostFile : Type 0 where
  pub size : Result ℕ
  pub contents : Bytes
