-- ===== src/Boot/Web.antt =====
-- A request over HTTP, of httpd/handler.go, for a manifest that PutManifest has stored, while other
-- requests change the store.
use netbootd.Prelude.{
  ℕ, ◌≡◌, ◌≢◌, refl, ◌∙◌, ◌⊎◌, inl, inr, true, false, some, List, [], ◌∷◌, Bytes, bytes, str_eq_iff,
  ok, err,
}
use netbootd.GoStd.Strings.{trim_left, slash}
use netbootd.GoStd.Files.{StaticFile, HostFile}
use netbootd.GoStd.Ip.{Ip}
use netbootd.Manifest.Defs.{Mount, Manifest, get_mount}
use netbootd.Manifest.HostPath.{host_path, validate_host_path}
use netbootd.Manifest.Proxy.{Url, direct, proxy_director}
use netbootd.Store.Defs.{Store, Ptr, ip_key, put_manifest, find, find_by_ip}
use netbootd.Store.Put.{IsStorable}
use netbootd.Store.Seen.{seen}
use netbootd.Store.Steps.{System, IsSound}
use netbootd.Store.Durable.{AreSparing, Sparing, find-put_manifest_kept}
use netbootd.Httpd.Defs.{
  Services, HttpRequest, Answer, served, proxied, rendered, content_context,
  parse_ip_from_host_port, parse_local_ip, serve_mount, serve_content, serve_local_dir, serve_file,
  serve_opened, serve_static, serve_for, serve_spoofed, serve_between, serve_http,
}
use netbootd.Boot.Mounted.{find_by_ip_key, either_way, is_unset}
use netbootd.Boot.Fetches.{if_false}
use netbootd.Boot.Chain.{seen_value}

-- Whose manifest a request from `raddr` asks for: its own, or that of the address in its query.
pub data AsksFor (http : Services) (q : HttpRequest) (raddr ip : Ip) : Type 0 where
  own : q.query (bytes "spoof") ≡ [] → ip_key raddr ≡ ip_key ip → AsksFor http q raddr ip
  spoofed :
      (spoof : Bytes) (more : List Bytes) (b : Bytes)
      → q.query (bytes "spoof") ≡ spoof ∷ more
      → spoof ≢ []
      → http.parse_ip spoof ≡ some b
      → ip_key (some b) ≡ ip_key ip
      → AsksFor http q raddr ip

serve_spoofed_found :
    (http : Services) (s : Store) (q : HttpRequest) (raddr laddr ip : Ip) (p : Ptr)
    → AsksFor http q raddr ip
    → find_by_ip s ip ≡ some p
    → serve_spoofed http s q raddr laddr (q.query (bytes "spoof"))
      ≡ serve_for http s q raddr laddr (some p)
unfolding serve_spoofed
serve_spoofed_found http s q raddr laddr ip p (own plain from) found =
    rw (plain, find_by_ip_key s raddr ip from, found) refl
serve_spoofed_found http s q raddr laddr ip p (spoofed spoof more b asked set parsed from) found =
    rw (asked, is_unset spoof set, parsed, find_by_ip_key s (some b) ip from, found) refl

module _ (http : Services) (s : Store) (m : Manifest) (q : HttpRequest) (raddr laddr : Ip) where
  -- What a mount gives over HTTP: the template, executed for the address of the request, a reverse
  -- proxy, or a file of the host whose path passes the test.
  pub data Gives (mount : Mount) : Answer → Type 0 where
    scripted :
        (b : Bytes)
        → mount.content ≢ []
        → rendered http (http.parse_template mount.content) (content_context http s m q raddr laddr)
          ≡ ok b
        → Gives mount (served mount.path b)
    relayed :
        (target : Url)
        → mount.content ≡ []
        → mount.proxy ≢ []
        → http.parse_url mount.proxy ≡ ok target
        → Gives mount (proxied (direct mount target))
    filed :
        (f : HostFile) (size : ℕ)
        → mount.content ≡ []
        → mount.proxy ≡ []
        → mount.local_dir ≢ []
        → validate_host_path mount http.root_path (host_path mount http.root_path q.path) ≡ true
        → http.open_file (host_path mount http.root_path q.path) ≡ ok f
        → f.size ≡ ok size
        → Gives mount (served q.path f.contents)

  -- What a request comes to for the manifest: a bundled file, or what its mount gives.
  pub data Serves : Answer → Type 0 where
    bundled :
        (f : StaticFile)
        → m.ipxe ≡ true
        → http.open_static (trim_left q.path slash) ≡ ok f
        → f.is_read_seeker ≡ true
        → Serves (served f.name f.contents)
    mounted :
        (mount : Mount) {answer : Answer}
        → (m.ipxe ≡ false) ⊎ ((e : Bytes) × (http.open_static (trim_left q.path slash) ≡ err e))
        → get_mount m q.path ≡ ok mount
        → Gives mount answer
        → Serves answer

  serve_mount_given :
      (mount : Mount) {answer : Answer}
      → Gives mount answer
      → serve_mount http q (content_context http s m q raddr laddr) (ok mount) ≡ answer
  unfolding serve_mount serve_content serve_local_dir serve_file serve_opened proxy_director
  serve_mount_given mount (scripted b content done) = rw (is_unset mount.content content, done) refl
  serve_mount_given mount (relayed target no_content proxy parsed) =
      rw ((str_eq_iff mount.content []).1 no_content, is_unset mount.proxy proxy, parsed) refl
  serve_mount_given mount (filed f size no_content no_proxy dir valid opened measured) =
      rw
        (
          (str_eq_iff mount.content []).1 no_content,
          (str_eq_iff mount.proxy []).1 no_proxy,
          is_unset mount.local_dir dir,
          valid,
          opened,
          measured,
        )
        refl

  serve_for_found :
      (p : Ptr) {answer : Answer}
      → s.heap.cell p ≡ m
      → Serves answer
      → serve_for http s q raddr laddr (some p) ≡ answer
  unfolding serve_for serve_static
  serve_for_found p cell (bundled f ipxe opened seeks) = rw (cell, ipxe, opened, seeks) refl
  serve_for_found p cell (mounted mount (inl plain) chosen gives) =
      rw (cell, chosen) (if_false m.ipxe _ _ plain ∙ serve_mount_given mount gives)
  serve_for_found p cell (mounted mount (inr (e, missing)) chosen gives) =
      rw (cell, missing, chosen) (either_way m.ipxe _ ∙ serve_mount_given mount gives)

-- After PutManifest of a manifest with an address and an ID, a request over HTTP from that address, or
-- from any address with that one in the query's spoof, is given the bundled file of that name, or what
-- the manifest's mount for it gives: the executed template, for the address that the request comes
-- from, a reverse proxy for the upstream, or a file whose path passes ValidateHostPath. The manifest is
-- as it was put, but for Suspended. This holds whatever other requests are served in between, as long
-- as none of them puts, or begins to forget, a manifest with one of its keys, and no ForgetManifest of
-- such a one was under way.
pub web_boot :
    (http : Services) (m : Manifest) (q : HttpRequest) (raddr laddr : Ip) {x y : System}
    {n : Manifest} {answer : Answer}
    → IsSound x
    → IsStorable m
    → AreSparing m x
    → Sparing m (record x { store = (put_manifest x.store m).1 }) y
    → seen y.store (find y.store m.id) ≡ some n
    → parse_ip_from_host_port http q.remote_addr ≡ ok raddr
    → parse_local_ip http q.local_addr ≡ ok laddr
    → AsksFor http q raddr m.ipv4.ip
    → Serves http y.store n q raddr laddr answer
    → (serve_http http y.store q ≡ answer) × (n ≡ record m { suspended = n.suspended })
unfolding serve_http serve_between
web_boot http m q raddr laddr {x} {y} {n} sound storable sparing run now remote local asks serves =
    let (p, by_id, by_ip, _, value) = find-put_manifest_kept m sound storable sparing run in
    let at = seen_value y.store _ p n by_id now in
    (
      rw (remote, local, serve_spoofed_found http y.store q raddr laddr m.ipv4.ip p asks by_ip)
          (serve_for_found http y.store n q raddr laddr p at serves),
      rw at at value,
    )
