-- ===== src/Httpd/Serves.antt =====
-- The cases of what ServeHTTP answers with.
use netbootd.Prelude.{
  ℕ, ◌≡◌, refl, inl, inr, true, Option, none, some, List, [], ◌∷◌, Bytes, bytes, str_eq, Bool-cases,
  Result, ok, err,
}
use netbootd.GoStd.Files.{StaticFile, HostFile}
use netbootd.GoStd.Strings.{trim_left, slash}
use netbootd.GoStd.Ip.{Ip}
use netbootd.Manifest.Defs.{Mount, Manifest, get_mount}
use netbootd.Manifest.HostPath.{host_path, validate_host_path}
use netbootd.Manifest.Content.{ContentContext}
use netbootd.Manifest.Proxy.{Proxied, proxy_director}
use netbootd.Store.Defs.{Store, Ptr, find_by_ip}
use netbootd.Httpd.Defs.{
  Services, HttpRequest, Answer, panicked, http_error, served, proxied, parse_ip_from_host_port,
  rendered, served_as, serve_content, directed, serve_opened, serve_file, serve_local_dir,
  serve_mount, serve_static, serve_for, at_ip, serve_spoofed, serve_between, serve_http,
}
use netbootd.Httpd.Sources.{
  IsAddress, own, spoofed, IsAnswered, IsStatic, IsChosen, IsFrom, template, file, IsRefused,
}

module _ (services : Services) (s : Store) (r : HttpRequest) where
  -- What holds of an error, of a bundled file, of the bytes of a mount, of a proxy and of a refused
  -- path holds of the answer.
  module _ (P : Answer → Type 0) (on_error : (e : Bytes) (status : ℕ) → P (http_error e status))
      (on_static : (f : StaticFile)
        → IsStatic services s r f
        → (otherwise : Answer) → P (serve_static services (ok f) otherwise))
      (on_served : (name b : Bytes) (mount : Mount)
        → IsChosen services s r mount
        → IsFrom services s r mount b
        → P (served name b))
      (on_proxied : (mount : Mount) (d : Proxied → Proxied)
        → IsChosen services s r mount
        → proxy_director services.parse_url mount ≡ ok d
        → P (proxied d))
      (on_refused : (mount : Mount)
        → IsChosen services s r mount
        → IsRefused services s r mount
        → P panicked) where
    module _ (mount : Mount) (chosen : IsChosen services s r mount) where
      on_content :
          (context : ContentContext) (b : Result Bytes)
          → rendered services (services.parse_template mount.content) context ≡ b
          → P (served_as services mount.path b)
      on_content context (err e) h = on_error e 500
      on_content context (ok b) h = on_served _ b mount chosen (template context h)

      on_directed :
          (d : Result (Proxied → Proxied))
          → proxy_director services.parse_url mount ≡ d
          → P (directed services d)
      on_directed (err e) h = on_error e 500
      on_directed (ok d) h = on_proxied mount d chosen h

      on_opened :
          (f : HostFile) (size : Result ℕ)
          → IsFrom services s r mount f.contents
          → P (serve_opened services r.path size f.contents)
      unfolding serve_opened
      on_opened f (err e) from = on_error e 500
      on_opened f (ok size) from = on_served _ _ mount chosen from

      on_file :
          (f : Result HostFile)
          → validate_host_path mount services.root_path (host_path mount services.root_path r.path)
            ≡ true
          → services.open_file (host_path mount services.root_path r.path) ≡ f
          → P (serve_file services r.path f)
      unfolding serve_file
      on_file (err e) valid h = on_error e 500
      on_file (ok f) valid h = on_opened f f.size (file f valid h refl)

      on_local_dir :
          str_eq mount.content [] ≡ true
          → str_eq mount.proxy [] ≡ true
          → P (serve_local_dir services mount r)
      unfolding serve_local_dir
      on_local_dir a b =
          elim (Bool-cases (
            validate_host_path mount services.root_path
              (host_path mount services.root_path r.path))) [
                | inl valid ↦ rw valid (on_file _ valid refl)
                | inr refused ↦ rw refused (
                    on_refused mount chosen
                      (record { no_content = a; no_proxy = b; refused = refused }))
              ]

      on_mount : (context : ContentContext) → P (serve_mount services r context (ok mount))
      unfolding serve_mount serve_content
      on_mount context = elim (Bool-cases (str_eq mount.content [])) [
        | inr a ↦ rw a (on_content context _ refl)
        | inl a ↦ elim (Bool-cases (str_eq mount.proxy [])) [
          | inr b ↦ rw (a, b) (on_directed _ refl)
          | inl b ↦ elim (Bool-cases (str_eq mount.local_dir [])) [
            | inr c ↦ rw (a, b, c) (on_local_dir a b)
            | inl c ↦ rw (a, b, c) (on_error _ _)
          ]
        ]
      ]

    on_chosen :
        (m : Manifest) (mount : Result Mount) (context : ContentContext)
        → IsAnswered services s r m
        → get_mount m r.path ≡ mount
        → P (serve_mount services r context mount)
    unfolding serve_mount
    on_chosen m (err e) context answered h = on_error _ _
    on_chosen m (ok mount) context answered h =
        on_mount mount (record { manifest = m; answered = answered; chosen = h }) context

    on_bundled :
        (m : Manifest) (f : Result StaticFile) (otherwise : Answer)
        → IsAnswered services s r m
        → m.ipxe ≡ true
        → services.open_static (trim_left r.path slash) ≡ f
        → P otherwise
        → P (serve_static services f otherwise)
    unfolding serve_static
    on_bundled m (err e) otherwise answered ipxe opened h = h
    on_bundled m (ok f) otherwise answered ipxe opened h =
        on_static f (record { manifest = m; answered = answered; ipxe = ipxe; opened = opened })
          otherwise

    on_found :
        (raddr laddr ip : Ip) (o : Option Ptr)
        → IsAddress services s r ip
        → find_by_ip s ip ≡ o
        → P (serve_for services s r raddr laddr o)
    unfolding serve_for
    on_found raddr laddr ip none address found = on_error _ _
    on_found raddr laddr ip (some p) address found =
        let answered : IsAnswered services s r (s.heap.cell p) = record {
          ip = ip;
          at = p;
          address = address;
          found = found;
          same = refl;
        } in
        elim (Bool-cases (s.heap.cell p).ipxe) [
          | inl ipxe ↦
              simp ipxe
                (on_bundled (s.heap.cell p) _ _ answered ipxe refl (on_chosen _ _ _ answered refl))
          | inr plain ↦ simp plain (on_chosen _ _ _ answered refl)
        ]

    on_at_ip :
        (raddr laddr : Ip) (spoof : Bytes) (rest : List Bytes) (ip : Ip)
        → r.query (bytes "spoof") ≡ spoof ∷ rest
        → services.parse_ip spoof ≡ ip
        → P (at_ip services s r raddr laddr spoof ip)
    on_at_ip raddr laddr spoof rest none asked h = on_error _ _
    on_at_ip raddr laddr spoof rest (some b) asked h =
        on_found raddr laddr (some b) _ (spoofed spoof rest asked h) refl

    on_spoofed :
        (raddr laddr : Ip) (values : List Bytes)
        → parse_ip_from_host_port services r.remote_addr ≡ ok raddr
        → r.query (bytes "spoof") ≡ values
        → P (serve_spoofed services s r raddr laddr values)
    unfolding serve_spoofed
    on_spoofed raddr laddr [] parsed asked = on_found raddr laddr raddr _ (own parsed) refl
    on_spoofed raddr laddr (spoof ∷ rest) parsed asked = elim (Bool-cases (str_eq spoof [])) [
      | inl e ↦ rw e (on_found raddr laddr raddr _ (own parsed) refl)
      | inr e ↦ rw e (on_at_ip raddr laddr spoof rest _ asked refl)
    ]

    on_between :
        (remote local : Result Ip)
        → parse_ip_from_host_port services r.remote_addr ≡ remote
        → P (serve_between services s r remote local)
    unfolding serve_between
    on_between (err e) local h = on_error _ _
    on_between (ok raddr) (err e) h = on_error _ _
    on_between (ok raddr) (ok laddr) h = on_spoofed raddr laddr _ h refl

    pub on_answer : P (serve_http services s r)
    unfolding serve_http
    on_answer = on_between _ _ refl
