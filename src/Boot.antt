-- ===== src/Boot.antt =====
-- The boot services of dhcpd/handler.go, tftpd/handler.go and httpd/handler.go together, on the store
-- of store/store.go: what the last two give to a machine whose manifest has been stored (Mounted), how
-- the leading slash of a request matters (Suffix), a boot by DHCP and then TFTP (Chain, Fetches),
-- and what HTTP gives (Web), both with other requests in between.
pub mod Mounted
pub mod Suffix
pub mod Fetches
pub mod Chain
pub mod Web
mod Tests
mod ChainTests
mod WebTests
