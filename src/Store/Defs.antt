-- ===== src/Store/Defs.antt =====
-- store/store.go and store/persistence.go. The three maps of the store hold pointers to manifests,
-- and an API handler writes through such a pointer, so the manifests stand on a heap: a pointer is
-- the number of an allocation. Go's pointers are nil (`none`) or point to a value, so a read is
-- total. The mutex makes each operation atomic, but for ForgetManifest, which locks twice.
use netbootd.Prelude.{
  ℕ, suc, Bool, true, false, not, ◌&&◌, ◌||◌, Option, none, some, List, [], ◌∷◌, Bytes, bytes,
  str_eq, ◌==◌, if◌then◌else◌, GoMap, make, get, put, delete, Result, ok, err,
}
use netbootd.GoStd.Strings.{has_suffix}
use netbootd.GoStd.Filepath.{join}
use netbootd.GoStd.Ip.{Ip, octets, to16}
use netbootd.Manifest.Defs.{Manifest}
use netbootd.Manifest.HardwareAddr.{HardwareAddr, string}
use netbootd.Manifest.Io.{manifest_from_yaml}

pub record Config : Type 0 where
  pub persistence_directory : Bytes

pub record GlobalHints : Type 0 where
  pub http_port : ℕ
  pub api_port : ℕ
  pub syslog_port : ℕ

abbrev pub Ptr : Type 0
Ptr = ℕ

-- The allocations so far, and what each pointer points to.
pub record Heap : Type 0 where
  pub next : Ptr
  pub cell : Ptr → Manifest

pub record Store : Type 0 where
  pub config : Config
  pub manifests : GoMap Ptr
  pub ip : GoMap Ptr
  pub mac : GoMap Ptr
  pub global_hints : GlobalHints
  pub heap : Heap

abbrev pub update : (Ptr → Manifest) → Ptr → Manifest → Ptr → Manifest
update cell p m q = if p == q then m else cell q

-- &m of a fresh copy
abbrev pub alloc : Heap → Manifest → Heap
alloc h m = record { next = suc h.next; cell = update h.cell h.next m }

-- The keys of the maps: string(ip.To16()) and mac.String().
abbrev pub ip_key : Ip → Bytes
ip_key ip = octets (to16 ip)

-- NewStore; what a pointer not yet allocated would point to is never read.
unfoldable pub new_store : Config → (Ptr → Manifest) → Store
new_store cfg unallocated = record {
  config = cfg;
  manifests = make;
  ip = make;
  mac = make;
  global_hints = record { http_port = 0; api_port = 0; syslog_port = 0 };
  heap = record { next = 0; cell = unallocated };
}

-- store/persistence.go: neither function does anything yet.
unfoldable pub put_persistent_manifest : Store → Manifest → Option Bytes
put_persistent_manifest s m = none

unfoldable pub forget_persistent_manifest : Store → Bytes → Option Bytes
forget_persistent_manifest s id = none

-- The loops of PutManifest and of ForgetManifest over the hardware addresses.
unfoldable pub put_macs : List HardwareAddr → Ptr → GoMap Ptr → GoMap Ptr
put_macs [] p m = m
put_macs (mac ∷ macs) p m = put_macs macs p (put m (string mac) p)

unfoldable pub delete_macs : List HardwareAddr → GoMap Ptr → GoMap Ptr
delete_macs [] m = m
delete_macs (mac ∷ macs) m = delete_macs macs (delete m (string mac))

abbrev is_nil : Ip → Bool
is_nil none = true
is_nil (some _) = false

-- What PutManifest does under the lock.
unfoldable pub put_indexed : Store → Manifest → Store
put_indexed s m =
    let p = s.heap.next in
    record s {
      heap = alloc s.heap m;
      manifests = put s.manifests m.id p;
      ip = put s.ip (ip_key m.ipv4.ip) p;
      mac = put_macs m.mac p s.mac;
    }

-- Store.PutManifest
unfoldable pub put_manifest : Store → Manifest → Option Bytes × Store
unfolding put_indexed put_persistent_manifest
put_manifest s m =
    if is_nil m.ipv4.ip
    then (some (bytes "no IPv4 address provided"), s)
    else if str_eq m.id []
    then (some (bytes "ID cannot be null"), s)
    else if not (str_eq s.config.persistence_directory [])
    then (put_persistent_manifest s m, put_indexed s m)
    else (none, put_indexed s m)

-- What ForgetManifest does under its second lock, for the manifest that it found.
unfoldable pub forget_found : Store → Manifest → Store
forget_found s m = record s {
  manifests = delete s.manifests m.id;
  ip = delete s.ip (ip_key m.ipv4.ip);
  mac = delete_macs m.mac s.mac;
}

forget_by : Option Ptr → Store → Bytes → Option Bytes × Store
forget_by none s id = (none, s)
forget_by (some p) s id =
    let s' = forget_found s (s.heap.cell p) in
    if not (str_eq s.config.persistence_directory [])
    then (forget_persistent_manifest s' id, s')
    else (none, s')

-- Store.ForgetManifest
unfoldable pub forget_manifest : Store → Bytes → Option Bytes × Store
unfolding forget_by forget_found forget_persistent_manifest
forget_manifest s id = forget_by (get s.manifests id) s id

-- Store.Find, Store.FindByIP, Store.FindByMAC
unfoldable pub find : Store → Bytes → Option Ptr
find s id = get s.manifests id

unfoldable pub find_by_ip : Store → Ip → Option Ptr
find_by_ip s ip = get s.ip (ip_key ip)

unfoldable pub find_by_mac : Store → HardwareAddr → Option Ptr
find_by_mac s mac = get s.mac (string mac)

-- Store.GetAll: the map itself
unfoldable pub get_all : Store → GoMap Ptr
get_all s = s.manifests

-- m.Suspended = b, for a manifest that a lookup returned
unfoldable pub set_suspended : Store → Ptr → Bool → Store
set_suspended s p b = record s {
  heap = record s.heap { cell = update s.heap.cell p (record (s.heap.cell p) { suspended = b }) };
}

-- A directory entry as os.ReadDir gives it.
pub record DirEntry : Type 0 where
  pub name : Bytes
  pub is_regular : Bool

module _ (unmarshal : Bytes → Result Manifest) (read_file : Bytes → Result Bytes) where
  unfoldable pub load_contents : Store → Bytes → Result Bytes → Store
  load_contents s root_path (err e) = s
  load_contents s root_path (ok b) = elim (manifest_from_yaml unmarshal b root_path) [
    | err e ↦ s
    | ok m ↦ (put_manifest s m).1
  ]

  -- One round of the loop of LoadFromDirectory: every failure leaves the item out.
  unfoldable pub load_item : Store → Bytes → Bytes → DirEntry → Store
  unfolding load_contents
  load_item s path root_path item =
      if not item.is_regular
        || (not (has_suffix item.name (bytes ".yml")) && not (has_suffix item.name (bytes ".yaml")))
      then s
      else load_contents s root_path (read_file (join path item.name))

  unfoldable pub load_items : Store → Bytes → Bytes → List DirEntry → Store
  unfolding load_item
  load_items s path root_path [] = s
  load_items s path root_path (item ∷ items) =
      load_items (load_item s path root_path item) path root_path items

  -- Store.LoadFromDirectory: os.ReadDir gives the items and perhaps an error, which is returned.
  unfoldable pub load_from_directory :
      Store → Bytes → Bytes → List DirEntry × Option Bytes → Option Bytes × Store
  unfolding load_items
  load_from_directory s path root_path (items, e) = (e, load_items s path root_path items)
