-- ===== src/Boot/Mounted.antt =====
-- What the two boot services give, from one mount, to the machine whose manifest PutManifest stored.
use netbootd.Prelude.{
  ◌≡◌, ◌≢◌, refl, ◌∙◌, arith, Bool, true, false, none, some, [], Bytes, bytes, str_eq, str_eq_iff,
  if◌then◌else◌, ok, err,
}
use netbootd.GoStd.Strings.{trim_left, slash}
use netbootd.GoStd.Ip.{Ip}
use netbootd.Manifest.Defs.{Mount, Manifest, get_mount}
use netbootd.Manifest.Content.{ContentContext}
use netbootd.Store.Defs.{Store, ip_key, put_manifest, find_by_ip}
use netbootd.Store.Put.{IsStorable, find-put_manifest}
use netbootd.Tftpd.Defs as Tftp
use netbootd.Tftpd.Defs.{
  Upstream, ReadRequest, returned, relay, tftp_read_handler, serve_requested, serve_proxy,
  proxy_url, proxy_headers, read_for,
}
use netbootd.Httpd.Defs as Http
use netbootd.Httpd.Defs.{
  HttpRequest, served, parse_ip_from_host_port, parse_local_ip, serve_http, serve_for,
  serve_between, serve_spoofed,
}

pub find_by_ip_key : (s : Store) (a b : Ip) → ip_key a ≡ ip_key b → find_by_ip s a ≡ find_by_ip s b
unfolding find_by_ip
find_by_ip_key s a b e = rw e refl

pub either_way {ℓ} : {A : Type ℓ} (b : Bool) (x : A) → (if b then x else x) ≡ x
either_way true x = refl
either_way false x = refl

pub is_unset : (b : Bytes) → b ≢ [] → str_eq b [] ≡ false
is_unset b ne = ground (arith, str_eq_iff b [])

-- A read request from a manifest's address, for a name that is not bundled, and the mount for it.
pub record IsTftpRequest (m : Manifest) (tftp : Tftp.Services) (r : ReadRequest) (mount : Mount)
    : Type 0 where
  pub from : ip_key r.remote_ip ≡ ip_key m.ipv4.ip
  pub unbundled : (e : Bytes) × (tftp.open_static r.filename ≡ err e)
  pub chosen : get_mount m r.filename ≡ ok mount

-- The same of a request over HTTP, which asks for no other address's manifest.
pub record IsHttpRequest (m : Manifest) (http : Http.Services) (q : HttpRequest) (mount : Mount)
    : Type 0 where
  pub raddr : Ip
  pub laddr : Ip
  pub remote : parse_ip_from_host_port http q.remote_addr ≡ ok raddr
  pub local : parse_local_ip http q.local_addr ≡ ok laddr
  pub plain : q.query (bytes "spoof") ≡ []
  pub from : ip_key raddr ≡ ip_key m.ipv4.ip
  pub unbundled : (e : Bytes) × (http.open_static (trim_left q.path slash) ≡ err e)
  pub chosen : get_mount m q.path ≡ ok mount

module _ (s : Store) (m : Manifest) (storable : IsStorable m) where
  abbrev after_put : Store
  after_put = (put_manifest s m).1

  found_after_put :
      (ip : Ip)
      → ip_key ip ≡ ip_key m.ipv4.ip
      → (find_by_ip after_put ip ≡ some s.heap.next) × (after_put.heap.cell s.heap.next ≡ m)
  found_after_put ip e =
      let (_, found, _, cell) = find-put_manifest s m storable in
      (find_by_ip_key after_put ip m.ipv4.ip e ∙ found, cell)

  module _ (tftp : Tftp.Services) (r : ReadRequest) (http : Http.Services) (q : HttpRequest)
      (mount : Mount) (t : IsTftpRequest m tftp r mount) (h : IsHttpRequest m http q mount) where
    abbrev http_context : ContentContext
    http_context = Http.content_context http after_put m q h.raddr h.laddr

    tftp_mount : tftp_read_handler tftp after_put r ≡ Tftp.serve_mount tftp after_put m r (ok mount)
    unfolding tftp_read_handler read_for Tftp.serve_static
    tftp_mount =
        let (found, cell) = found_after_put r.remote_ip t.from in
        rw (found, cell, t.chosen, t.unbundled.1) (either_way m.ipxe _)

    http_mount : serve_http http after_put q ≡ Http.serve_mount http q http_context (ok mount)
    unfolding serve_http serve_between serve_spoofed serve_for Http.serve_static
    http_mount =
        let (found, cell) = found_after_put h.raddr h.from in
        rw (h.remote, h.local, h.plain, found, cell, h.chosen, h.unbundled.1) (either_way m.ipxe _)

    -- After PutManifest of a manifest with an address and an ID, for a mount with both a proxy and
    -- a content the two services differ: where the upstream answers with status 200 and the
    -- template can be executed, a machine at that address is given the upstream's answer over TFTP
    -- and the template over HTTP.
    pub exclusive_mount_differs :
        (resp : Upstream) (b : Bytes)
        → mount.proxy ≢ []
        → mount.content ≢ []
        → tftp.new_request (proxy_url tftp mount r) ≡ none
        → tftp.send (proxy_url tftp mount r) (proxy_headers tftp r) ≡ ok resp
        → resp.status_code ≡ 200
        → Http.rendered http (http.parse_template mount.content) http_context ≡ ok b
        → (tftp_read_handler tftp after_put r
            ≡ returned
                (tftp.read_from resp.body)
                (record { size = resp.content_length; contents = some resp.body }))
          × (serve_http http after_put q ≡ served mount.path b)
    unfolding Tftp.serve_mount Http.serve_mount Http.serve_content serve_proxy serve_requested relay
    exclusive_mount_differs resp b proxy content request sent status e =
        rw
          (
            tftp_mount,
            http_mount,
            is_unset mount.proxy proxy,
            is_unset mount.content content,
            request,
            sent,
            status,
            e,
          )
          (refl, refl)
