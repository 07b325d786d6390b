-- ===== src/Tftpd/Server.antt =====
-- tftpd/server.go: the server that NewServer makes, and the handlers that Serve gives to the TFTP
-- library.
use netbootd.Prelude.{Bool, true, false, Bytes}
use netbootd.Store.Defs.{Store}
use netbootd.Tftpd.Defs.{Services, ReadRequest, Outcome, tftp_read_handler}

-- `has_client` tells whether the pointer to the HTTP client is set.
pub record Server : Type 0 where
  pub root_path : Bytes
  pub has_client : Bool

-- NewServer; it returns no error.
unfoldable pub new_server : Bytes → Server
new_server root_path = record { root_path = root_path; has_client = true }

-- The handler of reads, and whether there is one of writes.
pub record Handlers : Type 0 where
  pub read : Store → ReadRequest → Outcome
  pub takes_writes : Bool

-- Serve, for the library calls of the handler.
unfoldable pub handlers : Services → Server → Handlers
handlers services server = record {
  read = tftp_read_handler (record services { root_path = server.root_path });
  takes_writes = false;
}
