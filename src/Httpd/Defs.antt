-- ===== src/Httpd/Defs.antt =====
-- httpd/handler.go: Handler.ServeHTTP, from a request to what it answers with.
use netbootd.Prelude.{
  ℕ, not, Option, none, some, List, [], ◌∷◌, ◌++◌, Bytes, bytes, str_eq, if◌then◌else◌, Result, ok,
  err,
}
use netbootd.GoStd.Strings.{trim_left, slash}
use netbootd.GoStd.Ip.{Ip}
use netbootd.GoStd.Files.{StaticFile, HostFile}
use netbootd.Manifest.Defs.{Mount, Manifest, get_mount}
use netbootd.Manifest.HostPath.{host_path, validate_host_path}
use netbootd.Manifest.Content.{ContentContext}
use netbootd.Manifest.Proxy.{Url, Proxied, proxy_director}
use netbootd.Store.Defs.{Store, Ptr, find_by_ip}

-- What the handler calls: net.SplitHostPort, net.ParseIP, static.Files.Open, the parser of
-- text/template, whose result executes, url.Parse and os.Open. `host_port` is net.JoinHostPort of
-- an address and a port.
pub record Services : Type 0 where
  pub root_path : Bytes
  pub split_host_port : Bytes → Result (Bytes × Bytes)
  pub parse_ip : Bytes → Ip
  pub open_static : Bytes → Result StaticFile
  pub parse_template : Bytes → Result (ContentContext → Result Bytes)
  pub parse_url : Bytes → Result Url
  pub open_file : Bytes → Result HostFile
  pub ip_string : Ip → Bytes
  pub host_port : Ip → ℕ → Bytes

-- `local_addr` is the address in the request's context, none if it is no net.Addr; `query` holds
-- the values of each key of the URL's query, and none for a missing key.
pub record HttpRequest : Type 0 where
  pub remote_addr : Bytes
  pub local_addr : Option Bytes
  pub query : Bytes → List Bytes
  pub path : Bytes
  pub host : Bytes

-- http.Error, http.ServeContent of a name and bytes, or a reverse proxy with a director.
pub data Answer : Type 0 where
  panicked : Answer
  http_error : Bytes → ℕ → Answer
  served : Bytes → Bytes → Answer
  proxied : (Proxied → Proxied) → Answer

module _ (services : Services) where
  abbrev parsed_ip : Bytes → Ip → Result Ip
  parsed_ip host none = err (host ++ bytes ": unable to parse ip")
  parsed_ip host (some b) = ok (some b)

  abbrev parsed_host : Result (Bytes × Bytes) → Result Ip
  parsed_host (err e) = err e
  parsed_host (ok (host, port)) = parsed_ip host (services.parse_ip host)

  -- parseIPFromHostPort
  unfoldable pub parse_ip_from_host_port : Bytes → Result Ip
  parse_ip_from_host_port host_port = parsed_host (services.split_host_port host_port)

  -- parseLocalIP; a net.Addr that was found is not nil.
  unfoldable pub parse_local_ip : Option Bytes → Result Ip
  parse_local_ip none = err (bytes "local address not found in request context")
  parse_local_ip (some lip) = parse_ip_from_host_port lip

  unfoldable pub content_context : Store → Manifest → HttpRequest → Ip → Ip → ContentContext
  content_context s m r raddr laddr = record {
    local_ip = laddr;
    remote_ip = raddr;
    http_base_url = record { scheme = bytes "http"; host = r.host };
    api_base_url = record {
      scheme = bytes "http";
      host = services.host_port laddr s.global_hints.api_port;
    };
    syslog_host = services.host_port laddr s.global_hints.syslog_port;
    manifest = m;
  }

  abbrev pub rendered : Result (ContentContext → Result Bytes) → ContentContext → Result Bytes
  rendered (err e) context = err e
  rendered (ok execute) context = execute context

  abbrev pub served_as : Bytes → Result Bytes → Answer
  served_as name (err e) = http_error e 500
  served_as name (ok b) = served name b

  unfoldable pub serve_content : Mount → ContentContext → Answer
  serve_content mount context =
      served_as mount.path (rendered (services.parse_template mount.content) context)

  abbrev pub directed : Result (Proxied → Proxied) → Answer
  directed (err e) = http_error e 500
  directed (ok director) = proxied director

  unfoldable pub serve_opened : Bytes → Result ℕ → Bytes → Answer
  serve_opened name (err e) b = http_error e 500
  serve_opened name (ok size) b = served name b

  unfoldable pub serve_file : Bytes → Result HostFile → Answer
  serve_file name (err e) = http_error e 500
  serve_file name (ok f) = serve_opened name f.size f.contents

  -- On a rejected path the handler calls err.Error() while `err` is nil, from GetMount.
  unfoldable pub serve_local_dir : Mount → HttpRequest → Answer
  serve_local_dir mount r =
      let path = host_path mount services.root_path r.path in
      if not (validate_host_path mount services.root_path path)
      then panicked
      else serve_file r.path (services.open_file path)

  unfoldable pub serve_mount : HttpRequest → ContentContext → Result Mount → Answer
  serve_mount r context (err e) = http_error (bytes "404 page not found") 404
  serve_mount r context (ok mount) =
      if not (str_eq mount.content [])
      then serve_content mount context
      else if not (str_eq mount.proxy [])
      then directed (proxy_director services.parse_url mount)
      else if not (str_eq mount.local_dir [])
      then serve_local_dir mount r
      else http_error (bytes "empty mount") 500

  unfoldable pub serve_static : Result StaticFile → Answer → Answer
  serve_static (err e) otherwise = otherwise
  serve_static (ok f) otherwise = if f.is_read_seeker then served f.name f.contents else panicked

  unfoldable pub serve_for : Store → HttpRequest → Ip → Ip → Option Ptr → Answer
  serve_for s r raddr laddr none =
      http_error (bytes "no manifest for client: " ++ services.ip_string raddr) 404
  serve_for s r raddr laddr (some p) =
      let m = s.heap.cell p in
      let mounted = serve_mount r (content_context s m r raddr laddr) (get_mount m r.path) in
      if m.ipxe
      then serve_static (services.open_static (trim_left r.path slash)) mounted
      else mounted

  abbrev pub at_ip : Store → HttpRequest → Ip → Ip → Bytes → Ip → Answer
  at_ip s r raddr laddr spoof none =
      http_error (bytes "unable to determine host address: invalid ip: " ++ spoof) 400
  at_ip s r raddr laddr spoof (some b) = serve_for s r raddr laddr (find_by_ip s (some b))

  -- The address whose manifest is served: that of the query, if there is one.
  unfoldable pub serve_spoofed : Store → HttpRequest → Ip → Ip → List Bytes → Answer
  serve_spoofed s r raddr laddr [] = serve_for s r raddr laddr (find_by_ip s raddr)
  serve_spoofed s r raddr laddr (spoof ∷ _) =
      if str_eq spoof []
      then serve_for s r raddr laddr (find_by_ip s raddr)
      else at_ip s r raddr laddr spoof (services.parse_ip spoof)

  unfoldable pub serve_between : Store → HttpRequest → Result Ip → Result Ip → Answer
  serve_between s r (err e) local =
      http_error (bytes "unable to determine remote address: " ++ e) 500
  serve_between s r (ok raddr) (err e) =
      http_error (bytes "unable to determine local address: " ++ e) 500
  serve_between s r (ok raddr) (ok laddr) = serve_spoofed s r raddr laddr (r.query (bytes "spoof"))

  -- Handler.ServeHTTP
  unfoldable pub serve_http : Store → HttpRequest → Answer
  serve_http s r =
      serve_between s r (parse_ip_from_host_port r.remote_addr) (parse_local_ip r.local_addr)
