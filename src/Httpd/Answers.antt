-- ===== src/Httpd/Answers.antt =====
-- What ServeHTTP serves, and when it panics.
use netbootd.Prelude.{
  ◌≡◌, refl, ◌⊎◌, inl, inr, false, some, [], Bytes, bytes, str_eq, Bool-cases, ok,
}
use netbootd.GoStd.Files.{StaticFile}
use netbootd.GoStd.Ip.{Ip}
use netbootd.Manifest.Defs.{Mount, get_mount}
use netbootd.Manifest.HostPath.{host_path, validate_host_path}
use netbootd.Store.Defs.{Store, Ptr, find_by_ip}
use netbootd.Httpd.Defs.{
  Services, HttpRequest, panicked, served, parse_ip_from_host_port, parse_local_ip, serve_local_dir,
  serve_mount, serve_static, serve_for, serve_spoofed, serve_between, serve_http,
}
use netbootd.Httpd.Sources.{IsStatic, IsChosen, IsFrom}
use netbootd.Httpd.Serves.{on_answer}

module _ (services : Services) (s : Store) (r : HttpRequest) where
  IsFrom-same :
      (mount : Mount) (b c : Bytes)
      → b ≡ c
      → IsFrom services s r mount b
      → IsFrom services s r mount c
  IsFrom-same mount b c e from = rw⁻¹ e from

  -- What ServeHTTP serves itself is a bundled file, if the manifest at the connection's address or
  -- the spoofed one lets it serve iPXE, or comes from the mount that GetMount chooses in that
  -- manifest: the executed template, or a file of the host whose path passed ValidateHostPath.
  pub serve_http_source :
      (name b : Bytes)
      → serve_http services s r ≡ served name b
      → ((f : StaticFile) × (IsStatic services s r f × (f.contents ≡ b)))
        ⊎ ((mount : Mount) × (IsChosen services s r mount × IsFrom services s r mount b))
  unfolding serve_static
  serve_http_source name b h =
      on_answer services s r
        (λ o.
          (name b : Bytes)
          → o ≡ served name b
          → ((f : StaticFile) × (IsStatic services s r f × (f.contents ≡ b)))
            ⊎ ((mount : Mount) × (IsChosen services s r mount × IsFrom services s r mount b)))
        (λ e status name b h. absurd (cc))
        (λ f static otherwise name b h. elim (Bool-cases f.is_read_seeker) [
          | inl a ↦ inl (f, (static, cc (rw a at h)))
          | inr a ↦ absurd (cc (rw a at h))
        ])
        (λ name' b' mount chosen from name b h.
          inr (mount, (chosen, IsFrom-same mount b' b (cc) from)))
        (λ mount d chosen e name b h. absurd (cc)) (λ mount chosen refused name b h. absurd (cc))
        name b h

  -- Where the chosen mount of a manifest without iPXE has only a directory, and the path in it is
  -- refused, ServeHTTP panics.
  pub serve_http_refused :
      (raddr laddr : Ip) (p : Ptr) (mount : Mount)
      → parse_ip_from_host_port services r.remote_addr ≡ ok raddr
      → parse_local_ip services r.local_addr ≡ ok laddr
      → r.query (bytes "spoof") ≡ []
      → find_by_ip s raddr ≡ some p
      → (s.heap.cell p).ipxe ≡ false
      → get_mount (s.heap.cell p) r.path ≡ ok mount
      → mount.content ≡ []
      → mount.proxy ≡ []
      → str_eq mount.local_dir [] ≡ false
      → validate_host_path mount services.root_path (host_path mount services.root_path r.path)
        ≡ false
      → serve_http services s r ≡ panicked
  unfolding serve_http serve_between serve_spoofed serve_for serve_mount serve_local_dir str_eq
  serve_http_refused raddr laddr p mount a b c d e f g h i j =
      simp (a, b, c, d, e, f, g, h, i, j) refl
