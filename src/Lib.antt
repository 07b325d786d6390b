-- ===== src/Lib.antt =====
-- netbootd, a server for network boot: a store of manifests, one for each machine, and the services
-- that read it. This library models the services' own logic, translated from the Go source.
--
-- The parts and their files:
-- - Prelude: what all modules share. Byte strings are lists of numbers, Go's maps with string keys
--   are `GoMap` (Prelude/Maps), and a value with an error is `Result` (Prelude/Results).
-- - GoStd: the functions of Go's standard library that the logic rests on, from their
--   documentation: strings, path/filepath on Unix, net.IP, net.HardwareAddr, opened files.
-- - Manifest: manifest/schema.go (Defs has the types and GetMount, HostPath the paths on the host and
--   ValidateHostPath, Proxy ProxyDirector, Content the context of a template), manifest/io.go (Io),
--   manifest/mac.go (HardwareAddr) and manifest/ipnet.go (Ipnet).
-- - Store: store/store.go and store/persistence.go. The state is the record `Store`: three maps from
--   keys to pointers, and the heap of manifests that they point to, since the services and the API
--   share the manifests and suspend-boot changes one in place. A method returns the new state.
--   Store/Steps has the interleavings of concurrent requests: a step for each time that a lock is
--   held, and for the two assignments that hold none.
-- - Api: api/server.go, one function for each handler, from a request and the store to the response
--   and the store; `handle` takes a route, and `serve` a sequence of requests. Api/Router has the
--   routes and their methods. Api/Table is the abstract view of /api/manifests/{id}: a table of
--   manifests without pointers. Api/SharedError has PUT and GET /api/self/manifest
--   as steps on the error that all requests share; elsewhere each handler has an error of its own.
-- - Dhcpd: dhcpd/handler.go. `handle_msg4` takes a datagram and the store to `dropped`, to a panic or
--   to the reply, its destination and its interface; each early return is a function of its own.
--   Dhcpd/Arp is dhcpd/arp, the request of the system call that fills the ARP table, and
--   Dhcpd/Server is dhcpd/server.go; Cmd/Process has the runs of its loop. Dhcpd/Uint8 is dhcpd/types.go.
-- - Tftpd, Httpd: tftpd/handler.go and httpd/handler.go, from a request and the store to what the
--   client is sent, to an error, or to a panic; the children Server are tftpd/server.go and
--   httpd/server.go.
-- - Boot: the boot services together, on a store into which a manifest has been put; Boot/Chain is
--   DHCP and then TFTP, and Boot/Web is HTTP, with other requests in between.
-- - Syslogd: syslogd/handler.go and syslogd/server.go; Serving has the runs of the loop of Serve.
-- - Cmd: cmd/server.go, as the list of its actions (Startup) that a Fatal cuts off (`run`),
--   cmd/arpinject.go (ArpInject), the flags of all commands (Flags), and Execute of cmd/root.go.
--   Notified has the runs that a Fatal of DHCP's goroutine cuts off, and Process the runs of the
--   whole process, from its goroutines' steps to a panic, a Fatal or an error of Go's runtime.
-- - Config: config/zerolog.go (Logging), InitConfig of config/viper.go (Viper), and the rest of that
--   file with config/config.go (Running).
--
-- The parts meet in the store. The API, and the directory that is read at the start, put manifests
-- into it; DHCP finds a manifest by the client's hardware address, TFTP and HTTP by its address, and
-- all of them use the mounts and options of the manifest that they find.
--
-- Parameters. Code that is not of this repository is an argument of the definitions: the YAML and
-- JSON packages, net.SplitHostPort, net.ParseIP, net.ParseCIDR and url.Parse, text/template, the HTTP
-- client, the embedded and the host's files, the network interfaces and the system calls, mux, cobra,
-- viper and the buffers of uio. The DHCP packet library is the interface Dhcpd/Packet, whose laws are
-- those of a map from option codes to values, and that ToBytes panics for an address that is neither
-- nil nor an IPv4 address.
--
-- No function runs on fuel: each loop of the source but two ranges over a list, and is structural
-- recursion; the loops of Serve in dhcpd/server.go and syslogd/server.go are the relations `Run` of
-- Cmd/Process and of Syslogd/Serving.
-- Integers are natural numbers, but for the int8 of Dhcpd/Arp; none of the modelled code does
-- arithmetic that can overflow. A handler or a goroutine of a service reads the store in one step.
--
-- Not modelled: what is logged by the other services, the sockets, gorilla/mux, which chooses the
-- route, cobra's parsing of the command line, viper's sources of values, and the bytes of the bundled
-- files.
pub mod Api
pub mod Boot
pub mod Cmd
pub mod Config
pub mod Dhcpd
pub mod GoStd
pub mod Httpd
pub mod Manifest
pub mod Prelude
pub mod Store
pub mod Syslogd
pub mod Tftpd
