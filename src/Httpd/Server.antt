-- ===== src/Httpd/Server.antt =====
-- httpd/server.go: the server that NewServer makes, with the limits of its http.Server, and the
-- handler that it serves.
use netbootd.Prelude.{ℕ, Bool, false, Bytes}
use netbootd.Store.Defs.{Store}
use netbootd.Httpd.Defs.{Services, HttpRequest, Answer, serve_http}

-- `has_client` tells whether the pointer to the HTTP client is set; the timeouts are in seconds.
pub record Server : Type 0 where
  pub root_path : Bytes
  pub has_client : Bool
  pub read_timeout : ℕ
  pub idle_timeout : ℕ
  pub max_header_bytes : ℕ

-- NewServer; it returns no error.
unfoldable pub new_server : Bytes → Server
new_server root_path = record {
  root_path = root_path;
  has_client = false;
  read_timeout = 10;
  idle_timeout = 10;
  max_header_bytes = 1048576;
}

-- The handler of the http.Server, for the library calls that it makes.
unfoldable pub handler : Services → Server → Store → HttpRequest → Answer
handler services server = serve_http (record services { root_path = server.root_path })
