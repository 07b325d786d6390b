-- ===== src/Store/Invariant.antt =====
-- The invariant of the store of store/store.go: every entry of its three maps points to an
-- allocated manifest that has the entry's key.
use netbootd.Prelude.{
  ◌<◌, ◌≡◌, inl, inr, Bool, true, some, List, arith, Bytes, str_eq_iff, get, get-put, get-delete,
  get-make, Result,
}
use netbootd.Manifest.Defs.{Manifest}
use netbootd.Store.Defs.{
  Config, Store, Ptr, DirEntry, ip_key, new_store, put_indexed, put_manifest, forget_found,
  forget_manifest, set_suspended, load_item, load_items,
}
use netbootd.Store.Macs.{has_key, get-put_macs, get-delete_macs}
use netbootd.Store.Put.{put_manifest_outcomes}
use netbootd.Store.Forget.{forget_manifest_outcomes}
use netbootd.Store.Load.{load_item_keeps, load_items_induction}

pub record IsWellFormed (s : Store) : Type 0 where
  pub ids :
      (k : Bytes) (p : Ptr)
      → get s.manifests k ≡ some p
      → (p < s.heap.next) × ((s.heap.cell p).id ≡ k)
  pub ips :
      (k : Bytes) (p : Ptr)
      → get s.ip k ≡ some p
      → (p < s.heap.next) × (ip_key (s.heap.cell p).ipv4.ip ≡ k)
  pub macs :
      (k : Bytes) (p : Ptr)
      → get s.mac k ≡ some p
      → (p < s.heap.next) × (has_key k (s.heap.cell p).mac ≡ true)

pub new_store-IsWellFormed : (cfg : Config) (c : Ptr → Manifest) → IsWellFormed (new_store cfg c)
unfolding new_store
new_store-IsWellFormed cfg c = record {
  ids = λ k p h. ground (arith, get-make {V = Ptr} k);
  ips = λ k p h. ground (arith, get-make {V = Ptr} k);
  macs = λ k p h. ground (arith, get-make {V = Ptr} k);
}

put_indexed-IsWellFormed :
    (s : Store) (m : Manifest) → IsWellFormed s → IsWellFormed (put_indexed s m)
unfolding put_indexed
put_indexed-IsWellFormed s m w = record {
  ids =
      λ k p h. ground (arith, get-put s.manifests m.id k s.heap.next, str_eq_iff m.id k, w.ids k p);
  ips = λ k p h. ground (
    arith,
    get-put s.ip (ip_key m.ipv4.ip) k s.heap.next,
    str_eq_iff (ip_key m.ipv4.ip) k,
    w.ips k p,
  );
  macs = λ k p h. ground (arith, get-put_macs m.mac s.heap.next s.mac k, w.macs k p);
}

pub forget_found-IsWellFormed :
    (s : Store) (m : Manifest) → IsWellFormed s → IsWellFormed (forget_found s m)
unfolding forget_found
forget_found-IsWellFormed s m w = record {
  ids = λ k p h. ground (arith, get-delete s.manifests m.id k, w.ids k p);
  ips = λ k p h. ground (arith, get-delete s.ip (ip_key m.ipv4.ip) k, w.ips k p);
  macs = λ k p h. ground (arith, get-delete_macs m.mac s.mac k, w.macs k p);
}

-- A manifest that PutManifest stores, or refuses, leaves every entry pointing to its own manifest.
pub put_manifest-IsWellFormed :
    (s : Store) (m : Manifest) → IsWellFormed s → IsWellFormed (put_manifest s m).1
put_manifest-IsWellFormed s m w = elim (put_manifest_outcomes s m) [
  | inl (_, e) ↦ rw e (put_indexed-IsWellFormed s m w)
  | inr (_, (e, q)) ↦ rw q w
]

pub forget_manifest-IsWellFormed :
    (s : Store) (id : Bytes) → IsWellFormed s → IsWellFormed (forget_manifest s id).1
forget_manifest-IsWellFormed s id w = elim (forget_manifest_outcomes s id) [
  | inl (_, e) ↦ rw e w
  | inr (p, _, e) ↦ rw e (forget_found-IsWellFormed s (s.heap.cell p) w)
]

pub set_suspended-IsWellFormed :
    (s : Store) (p : Ptr) (b : Bool) → IsWellFormed s → IsWellFormed (set_suspended s p b)
unfolding set_suspended
set_suspended-IsWellFormed s p b w = record {
  ids = λ k q h. ground (arith, w.ids k q);
  ips = λ k q h. ground (arith, w.ips k q);
  macs = λ k q h. ground (arith, w.macs k q);
}

pub load_item-IsWellFormed :
    (unmarshal : Bytes → Result Manifest) (read_file : Bytes → Result Bytes) (s : Store)
    (path root_path : Bytes) (item : DirEntry)
    → IsWellFormed s
    → IsWellFormed (load_item unmarshal read_file s path root_path item)
load_item-IsWellFormed unmarshal read_file s path root_path item =
    load_item_keeps unmarshal read_file root_path IsWellFormed
      (λ s b m e. put_manifest-IsWellFormed s m) s path item

-- Whatever the files of a directory hold, loading them keeps the store well formed.
pub load_items-IsWellFormed :
    (unmarshal : Bytes → Result Manifest) (read_file : Bytes → Result Bytes) (s : Store)
    (path root_path : Bytes) (items : List DirEntry)
    → IsWellFormed s
    → IsWellFormed (load_items unmarshal read_file s path root_path items)
load_items-IsWellFormed unmarshal read_file s path root_path items =
    load_items_induction unmarshal read_file root_path IsWellFormed
      (λ s b m e. put_manifest-IsWellFormed s m) s path items
