-- ===== src/Boot/Fetches.antt =====
-- What a request over TFTP, of tftpd/handler.go, comes to for a manifest, by what it is given.
use netbootd.Prelude.{
  ℕ, ◌≡◌, ◌≢◌, refl, ◌∙◌, ◌⊎◌, inl, inr, Bool, true, false, none, some, [], Bytes, length,
  str_eq_iff, ok, err, if◌then◌else◌,
}
use netbootd.GoStd.Files.{StaticFile, HostFile}
use netbootd.Manifest.Defs.{Mount, Manifest, get_mount}
use netbootd.Manifest.HostPath.{host_path, validate_host_path}
use netbootd.Store.Defs.{Store, Ptr}
use netbootd.Tftpd.Defs.{
  Upstream, Services, ReadRequest, Outcome, returned, transferred, rendered, content_context,
  proxy_url, proxy_headers, read_for, serve_mount, serve_static, serve_content, serve_proxy,
  serve_requested, relay, serve_local_dir, serve_file, serve_opened,
}
use netbootd.Boot.Mounted.{either_way, is_unset}

-- What a mount gives over TFTP: the upstream's answer with status 200, the executed template, or a
-- file of the host whose path passes the test.
pub data Gives (tftp : Services) (s : Store) (m : Manifest) (r : ReadRequest) (mount : Mount)
    : Outcome → Type 0 where
  proxied :
      (resp : Upstream)
      → mount.proxy ≢ []
      → tftp.new_request (proxy_url tftp mount r) ≡ none
      → tftp.send (proxy_url tftp mount r) (proxy_headers tftp r) ≡ ok resp
      → resp.status_code ≡ 200
      → Gives tftp s m r mount (transferred tftp resp.content_length resp.body)
  scripted :
      (b : Bytes)
      → mount.proxy ≡ []
      → mount.content ≢ []
      → rendered tftp (tftp.parse_template mount.content) (content_context tftp s m r) ≡ ok b
      → Gives tftp s m r mount (transferred tftp (some (length b)) b)
  filed :
      (f : HostFile) (size : ℕ)
      → mount.proxy ≡ []
      → mount.content ≡ []
      → mount.local_dir ≢ []
      → validate_host_path mount tftp.root_path (host_path mount tftp.root_path r.filename) ≡ true
      → tftp.open_file (host_path mount tftp.root_path r.filename) ≡ ok f
      → f.size ≡ ok size
      → Gives tftp s m r mount (transferred tftp (some size) f.contents)

-- What a request over TFTP comes to for the manifest: a bundled file, or what its mount gives.
pub data Fetches (tftp : Services) (s : Store) (m : Manifest) (r : ReadRequest)
    : Outcome → Type 0 where
  bundled :
      (f : StaticFile)
      → m.ipxe ≡ true
      → tftp.open_static r.filename ≡ ok f
      → f.is_read_seeker ≡ true
      → Fetches tftp s m r (returned none (record { size = none; contents = some f.contents }))
  mounted :
      (mount : Mount) {answer : Outcome}
      → (m.ipxe ≡ false) ⊎ ((e : Bytes) × (tftp.open_static r.filename ≡ err e))
      → get_mount m r.filename ≡ ok mount
      → Gives tftp s m r mount answer
      → Fetches tftp s m r answer

pub if_false {ℓ} : {A : Type ℓ} (b : Bool) (x y : A) → b ≡ false → (if b then x else y) ≡ y
if_false b x y e = rw e refl

serve_mount_given :
    (tftp : Services) (s : Store) (m : Manifest) (r : ReadRequest) (mount : Mount)
    {answer : Outcome}
    → Gives tftp s m r mount answer
    → serve_mount tftp s m r (ok mount) ≡ answer
unfolding serve_mount serve_proxy serve_requested relay serve_content serve_local_dir serve_file
    serve_opened
serve_mount_given tftp s m r mount (proxied resp proxy request answered status) =
    rw (is_unset mount.proxy proxy, request, answered, status) refl
serve_mount_given tftp s m r mount (scripted b no_proxy content done) =
    rw ((str_eq_iff mount.proxy []).1 no_proxy, is_unset mount.content content, done) refl
serve_mount_given tftp s m r mount (filed f size no_proxy no_content dir valid opened measured) =
    rw
      (
        (str_eq_iff mount.proxy []).1 no_proxy,
        (str_eq_iff mount.content []).1 no_content,
        is_unset mount.local_dir dir,
        valid,
        opened,
        measured,
      )
      refl

pub read_for_fetched :
    (tftp : Services) (s : Store) (r : ReadRequest) (p : Ptr) (m : Manifest) {answer : Outcome}
    → s.heap.cell p ≡ m
    → Fetches tftp s m r answer
    → read_for tftp s r (some p) ≡ answer
unfolding read_for serve_static
read_for_fetched tftp s r p m cell (bundled f ipxe opened seeks) =
    rw (cell, ipxe, opened, seeks) refl
read_for_fetched tftp s r p m cell (mounted mount (inl plain) chosen gives) =
    rw (cell, chosen) (if_false m.ipxe _ _ plain ∙ serve_mount_given tftp s m r mount gives)
read_for_fetched tftp s r p m cell (mounted mount (inr (e, missing)) chosen gives) =
    rw (cell, missing, chosen) (either_way m.ipxe _ ∙ serve_mount_given tftp s m r mount gives)
