-- ===== src/Tftpd/Defs.antt =====
-- tftpd/handler.go: tftpReadHandler, from a file name and a client's address to the error that it
-- returns and what it hands to the transfer.
use netbootd.Prelude.{
  ℕ, length, not, Option, none, some, List, [], ◌∷◌, ◌++◌, Bytes, bytes, str_eq, ◌==◌,
  if◌then◌else◌, Result, ok, err,
}
use netbootd.GoStd.Strings.{trim_prefix}
use netbootd.GoStd.Files.{StaticFile, HostFile}
use netbootd.GoStd.Ip.{Ip}
use netbootd.Manifest.Defs.{Mount, Manifest, get_mount}
use netbootd.Manifest.HostPath.{host_path, validate_host_path}
use netbootd.Manifest.Content.{ContentContext}
use netbootd.Store.Defs.{Store, Ptr, find_by_ip}

-- An answer to the proxied request; a negative ContentLength is none.
pub record Upstream : Type 0 where
  pub status_code : ℕ
  pub status : Bytes
  pub content_length : Option ℕ
  pub body : Bytes

-- What the handler calls: static.Files.Open, http.NewRequest (its error for a URL), httpClient.Do,
-- the parser of text/template, whose result executes, os.Open, and ReadFrom of the transfer (its
-- error). `host_port` is net.JoinHostPort of an address and a port.
pub record Services : Type 0 where
  pub root_path : Bytes
  pub open_static : Bytes → Result StaticFile
  pub new_request : Bytes → Option Bytes
  pub send : Bytes → List (Bytes × Bytes) → Result Upstream
  pub parse_template : Bytes → Result (ContentContext → Result Bytes)
  pub open_file : Bytes → Result HostFile
  pub read_from : Bytes → Option Bytes
  pub ip_string : Ip → Bytes
  pub decimal : ℕ → Bytes
  pub host_port : Ip → ℕ → Bytes

-- The size that SetSize was told, and the bytes that ReadFrom was given.
pub record Transfer : Type 0 where
  pub size : Option ℕ
  pub contents : Option Bytes

pub data Outcome : Type 0 where
  panicked : Outcome
  returned : Option Bytes → Transfer → Outcome

-- The parameters of a request.
pub record ReadRequest : Type 0 where
  pub filename : Bytes
  pub remote_ip : Ip
  pub remote_port : ℕ
  pub local_ip : Ip

abbrev pub failed : Bytes → Outcome
failed e = returned (some e) (record { size = none; contents = none })

module _ (services : Services) where
  abbrev pub transferred : Option ℕ → Bytes → Outcome
  transferred size b = returned (services.read_from b) (record { size = size; contents = some b })

  unfoldable pub proxy_url : Mount → ReadRequest → Bytes
  proxy_url mount r =
      if mount.append_suffix then mount.proxy ++ trim_prefix r.filename mount.path else mount.proxy

  abbrev pub proxy_headers : ReadRequest → List (Bytes × Bytes)
  proxy_headers r =
      (bytes "X-Forwarded-For", services.ip_string r.remote_ip)
      ∷ ((bytes "X-TFTP-Port", services.decimal r.remote_port)
          ∷ ((bytes "X-TFTP-File", r.filename) ∷ []))

  unfoldable pub relay : Result Upstream → Outcome
  relay (err e) = failed e
  relay (ok resp) =
      if resp.status_code == 404
      then failed (bytes "file not found")
      else if not (resp.status_code == 200)
      then failed (bytes "HTTP request error: " ++ resp.status)
      else transferred resp.content_length resp.body

  unfoldable pub serve_requested : Option Bytes → Mount → ReadRequest → Outcome
  serve_requested (some e) mount r = failed e
  serve_requested none mount r = relay (services.send (proxy_url mount r) (proxy_headers r))

  unfoldable pub serve_proxy : Mount → ReadRequest → Outcome
  serve_proxy mount r = serve_requested (services.new_request (proxy_url mount r)) mount r

  unfoldable pub content_context : Store → Manifest → ReadRequest → ContentContext
  content_context s m r = record {
    local_ip = r.local_ip;
    remote_ip = r.remote_ip;
    http_base_url = record {
      scheme = bytes "http";
      host = services.host_port r.local_ip s.global_hints.http_port;
    };
    api_base_url = record {
      scheme = bytes "http";
      host = services.host_port r.local_ip s.global_hints.api_port;
    };
    syslog_host = services.host_port r.local_ip s.global_hints.syslog_port;
    manifest = m;
  }

  abbrev pub rendered : Result (ContentContext → Result Bytes) → ContentContext → Result Bytes
  rendered (err e) context = err e
  rendered (ok execute) context = execute context

  abbrev pub sized : Result Bytes → Outcome
  sized (err e) = failed e
  sized (ok b) = transferred (some (length b)) b

  unfoldable pub serve_content : Store → Manifest → Mount → ReadRequest → Outcome
  serve_content s m mount r =
      sized (rendered (services.parse_template mount.content) (content_context s m r))

  unfoldable pub serve_opened : Result ℕ → Bytes → Outcome
  serve_opened (err e) b = failed e
  serve_opened (ok size) b = transferred (some size) b

  unfoldable pub serve_file : Result HostFile → Outcome
  serve_file (err e) = failed e
  serve_file (ok f) = serve_opened f.size f.contents

  unfoldable pub serve_local_dir : Mount → ReadRequest → Outcome
  serve_local_dir mount r =
      let path = host_path mount services.root_path r.filename in
      if not (validate_host_path mount services.root_path path)
      then failed (bytes "requested path is invalid")
      else serve_file (services.open_file path)

  unfoldable pub serve_mount : Store → Manifest → ReadRequest → Result Mount → Outcome
  serve_mount s m r (err e) = failed e
  serve_mount s m r (ok mount) =
      if not (str_eq mount.proxy [])
      then serve_proxy mount r
      else if not (str_eq mount.content [])
      then serve_content s m mount r
      else if not (str_eq mount.local_dir [])
      then serve_local_dir mount r
      else failed (bytes "empty mount")

  -- A bundled file is sent whole, and the error of its transfer is only logged.
  unfoldable pub serve_static : Result StaticFile → Outcome → Outcome
  serve_static (err e) otherwise = otherwise
  serve_static (ok f) otherwise =
      if f.is_read_seeker
      then returned none (record { size = none; contents = some f.contents })
      else panicked

  unfoldable pub read_for : Store → ReadRequest → Option Ptr → Outcome
  read_for s r none = failed (bytes "no manifest for client: " ++ services.ip_string r.remote_ip)
  read_for s r (some p) =
      let m = s.heap.cell p in
      let mounted = serve_mount s m r (get_mount m r.filename) in
      if m.ipxe then serve_static (services.open_static r.filename) mounted else mounted

  -- Server.tftpReadHandler
  unfoldable pub tftp_read_handler : Store → ReadRequest → Outcome
  tftp_read_handler s r = read_for s r (find_by_ip s r.remote_ip)
