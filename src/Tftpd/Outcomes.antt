-- ===== src/Tftpd/Outcomes.antt =====
-- The cases of what tftpReadHandler comes to: an error, a bundled file, or the bytes of a mount.
use netbootd.Prelude.{
  ℕ, ◌≡◌, refl, inl, inr, true, Option, none, some, [], Bytes, str_eq, ◌==◌, Bool-cases, Result, ok,
  err,
}
use netbootd.GoStd.Files.{StaticFile, HostFile}
use netbootd.Manifest.Defs.{Mount, Manifest, get_mount}
use netbootd.Manifest.HostPath.{host_path, validate_host_path}
use netbootd.Store.Defs.{Store, Ptr, find_by_ip}
use netbootd.Tftpd.Defs.{
  Upstream, Services, Outcome, ReadRequest, failed, relay, serve_requested, serve_proxy, proxy_url,
  proxy_headers, content_context, rendered, sized, serve_content, serve_opened, serve_file,
  serve_local_dir, serve_mount, serve_static, read_for, tftp_read_handler, transferred,
}

module _ (services : Services) (s : Store) (r : ReadRequest) where
  -- The bytes that the chosen mount of a manifest gives: an upstream's answer with status 200, the
  -- executed template, or a file of the host whose path passed the test.
  pub data IsFrom (m : Manifest) (mount : Mount) (b : Bytes) : Type 0 where
    upstream :
        (resp : Upstream)
        → services.send (proxy_url services mount r) (proxy_headers services r) ≡ ok resp
        → (resp.status_code == 200) ≡ true
        → resp.body ≡ b
        → IsFrom m mount b
    template :
        rendered services (services.parse_template mount.content) (content_context services s m r)
          ≡ ok b
        → IsFrom m mount b
    file :
        (f : HostFile)
        → validate_host_path mount services.root_path
            (host_path mount services.root_path r.filename)
          ≡ true
        → services.open_file (host_path mount services.root_path r.filename) ≡ ok f
        → f.contents ≡ b
        → IsFrom m mount b

  pub record IsMounted (b : Bytes) : Type 0 where
    pub at : Ptr
    pub mount : Mount
    pub found : find_by_ip s r.remote_ip ≡ some at
    pub chosen : get_mount (s.heap.cell at) r.filename ≡ ok mount
    pub from : IsFrom (s.heap.cell at) mount b

  pub record IsStatic (f : StaticFile) : Type 0 where
    pub at : Ptr
    pub found : find_by_ip s r.remote_ip ≡ some at
    pub ipxe : (s.heap.cell at).ipxe ≡ true
    pub opened : services.open_static r.filename ≡ ok f

  -- What holds of a failure, of a bundled file and of the bytes of a mount holds of the outcome.
  module _ (P : Outcome → Type 0) (on_failed : (e : Bytes) → P (failed e))
      (on_static : (f : StaticFile)
        → IsStatic f
        → (otherwise : Outcome) → P (serve_static services (ok f) otherwise))
      (on_sent : (size : Option ℕ) (b : Bytes)
        → IsMounted b
        → P (transferred services size b)) where
    module _ (p : Ptr) (mount : Mount) (found : find_by_ip s r.remote_ip ≡ some p)
        (chosen : get_mount (s.heap.cell p) r.filename ≡ ok mount) where
      on_from :
          (size : Option ℕ) (b : Bytes)
          → IsFrom (s.heap.cell p) mount b
          → P (transferred services size b)
      on_from size b from =
          on_sent size b
            (record { at = p; mount = mount; found = found; chosen = chosen; from = from })

      on_relay :
          (u : Result Upstream)
          → services.send (proxy_url services mount r) (proxy_headers services r) ≡ u
          → P (relay services u)
      unfolding relay
      on_relay (err e) h = on_failed e
      on_relay (ok resp) h = elim (Bool-cases (resp.status_code == 404)) [
        | inl a ↦ rw a (on_failed _)
        | inr a ↦ elim (Bool-cases (resp.status_code == 200)) [
          | inl b ↦ rw (a, b) (on_from _ _ (upstream resp h b refl))
          | inr b ↦ rw (a, b) (on_failed _)
        ]
      ]

      on_requested : (o : Option Bytes) → P (serve_requested services o mount r)
      unfolding serve_requested
      on_requested (some e) = on_failed e
      on_requested none = on_relay _ refl

      on_sized :
          (b : Result Bytes)
          → rendered services
              (services.parse_template mount.content)
              (content_context services s (s.heap.cell p) r)
            ≡ b
          → P (sized services b)
      on_sized (err e) h = on_failed e
      on_sized (ok b) h = on_from _ b (template h)

      on_opened :
          (f : HostFile) (size : Result ℕ)
          → IsFrom (s.heap.cell p) mount f.contents
          → P (serve_opened services size f.contents)
      unfolding serve_opened
      on_opened f (err e) from = on_failed e
      on_opened f (ok size) from = on_from _ _ from

      on_file :
          (f : Result HostFile)
          → validate_host_path mount services.root_path
              (host_path mount services.root_path r.filename)
            ≡ true
          → services.open_file (host_path mount services.root_path r.filename) ≡ f
          → P (serve_file services f)
      unfolding serve_file
      on_file (err e) valid h = on_failed e
      on_file (ok f) valid h = on_opened f f.size (file f valid h refl)

      on_local_dir : P (serve_local_dir services mount r)
      unfolding serve_local_dir
      on_local_dir =
          elim (Bool-cases (
            validate_host_path mount services.root_path
              (host_path mount services.root_path r.filename))) [
                | inl valid ↦ rw valid (on_file _ valid refl)
                | inr invalid ↦ rw invalid (on_failed _)
              ]

      on_mount : P (serve_mount services s (s.heap.cell p) r (ok mount))
      unfolding serve_mount serve_proxy serve_content
      on_mount = elim (Bool-cases (str_eq mount.proxy [])) [
        | inr a ↦ rw a (on_requested _)
        | inl a ↦ elim (Bool-cases (str_eq mount.content [])) [
          | inr b ↦ rw (a, b) (on_sized _ refl)
          | inl b ↦ elim (Bool-cases (str_eq mount.local_dir [])) [
            | inr c ↦ rw (a, b, c) on_local_dir
            | inl c ↦ rw (a, b, c) (on_failed _)
          ]
        ]
      ]

    on_chosen :
        (p : Ptr) (mount : Result Mount)
        → find_by_ip s r.remote_ip ≡ some p
        → get_mount (s.heap.cell p) r.filename ≡ mount
        → P (serve_mount services s (s.heap.cell p) r mount)
    unfolding serve_mount
    on_chosen p (err e) found chosen = on_failed e
    on_chosen p (ok mount) found chosen = on_mount p mount found chosen

    on_bundled :
        (p : Ptr) (f : Result StaticFile) (otherwise : Outcome)
        → find_by_ip s r.remote_ip ≡ some p
        → (s.heap.cell p).ipxe ≡ true
        → services.open_static r.filename ≡ f
        → P otherwise
        → P (serve_static services f otherwise)
    unfolding serve_static
    on_bundled p (err e) otherwise found ipxe opened h = h
    on_bundled p (ok f) otherwise found ipxe opened h =
        on_static f (record { at = p; found = found; ipxe = ipxe; opened = opened }) otherwise

    on_found : (o : Option Ptr) → find_by_ip s r.remote_ip ≡ o → P (read_for services s r o)
    unfolding read_for
    on_found none found = on_failed _
    on_found (some p) found = elim (Bool-cases (s.heap.cell p).ipxe) [
      | inl ipxe ↦ simp ipxe (on_bundled p _ _ found ipxe refl (on_chosen p _ found refl))
      | inr plain ↦ simp plain (on_chosen p _ found refl)
    ]

    pub on_outcome : P (tftp_read_handler services s r)
    unfolding tftp_read_handler
    on_outcome = on_found _ refl
