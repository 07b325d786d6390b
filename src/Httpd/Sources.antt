-- ===== src/Httpd/Sources.antt =====
-- Where what ServeHTTP serves comes from.
use netbootd.Prelude.{◌≡◌, true, false, some, List, [], ◌∷◌, Bytes, bytes, str_eq, ok}
use netbootd.GoStd.Files.{StaticFile, HostFile}
use netbootd.GoStd.Strings.{trim_left, slash}
use netbootd.GoStd.Ip.{Ip}
use netbootd.Manifest.Defs.{Mount, Manifest, get_mount}
use netbootd.Manifest.HostPath.{host_path, validate_host_path}
use netbootd.Manifest.Content.{ContentContext}
use netbootd.Store.Defs.{Store, Ptr, find_by_ip}
use netbootd.Httpd.Defs.{Services, HttpRequest, parse_ip_from_host_port, rendered}

module _ (services : Services) (s : Store) (r : HttpRequest) where
  -- The address whose manifest is served: that of the connection, or the spoofed one.
  pub data IsAddress (ip : Ip) : Type 0 where
    own : parse_ip_from_host_port services r.remote_addr ≡ ok ip → IsAddress ip
    spoofed :
        (spoof : Bytes) (rest : List Bytes)
        → r.query (bytes "spoof") ≡ spoof ∷ rest
        → services.parse_ip spoof ≡ ip
        → IsAddress ip

  -- The manifest in whose name the request is answered.
  pub record IsAnswered (m : Manifest) : Type 0 where
    pub ip : Ip
    pub at : Ptr
    pub address : IsAddress ip
    pub found : find_by_ip s ip ≡ some at
    pub same : s.heap.cell at ≡ m

  pub record IsStatic (f : StaticFile) : Type 0 where
    pub manifest : Manifest
    pub answered : IsAnswered manifest
    pub ipxe : manifest.ipxe ≡ true
    pub opened : services.open_static (trim_left r.path slash) ≡ ok f

  pub record IsChosen (mount : Mount) : Type 0 where
    pub manifest : Manifest
    pub answered : IsAnswered manifest
    pub chosen : get_mount manifest r.path ≡ ok mount

  pub data IsFrom (mount : Mount) (b : Bytes) : Type 0 where
    template :
        (context : ContentContext)
        → rendered services (services.parse_template mount.content) context ≡ ok b
        → IsFrom mount b
    file :
        (f : HostFile)
        → validate_host_path mount services.root_path (host_path mount services.root_path r.path)
          ≡ true
        → services.open_file (host_path mount services.root_path r.path) ≡ ok f
        → f.contents ≡ b
        → IsFrom mount b

  -- The mount has a directory only, and the test refuses the path in it.
  pub record IsRefused (mount : Mount) : Type 0 where
    pub no_content : str_eq mount.content [] ≡ true
    pub no_proxy : str_eq mount.proxy [] ≡ true
    pub refused :
        validate_host_path mount services.root_path (host_path mount services.root_path r.path)
        ≡ false
