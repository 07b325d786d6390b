-- ===== src/Manifest.antt =====
-- The package manifest: Defs holds the types and Manifest.GetMount of manifest/schema.go, HostPath
-- the paths of its mounts on the host, GetMount the proofs about the choice of a mount,
-- Content the context of the templates, Proxy Mount.ProxyDirector, Io is manifest/io.go, HardwareAddr
-- manifest/mac.go and Ipnet manifest/ipnet.go.
pub mod Vars
pub mod Defs
pub mod Content
pub mod HostPath
pub mod Proxy
pub mod GetMount
pub mod Io
pub mod HardwareAddr
pub mod Ipnet
mod Tests
unfoldable pub use Defs.*
