-- ===== src/Store/Loaded.antt =====
-- Store.LoadFromDirectory of store/store.go: what the three lookups give after it.
use netbootd.Prelude.{
  ◌≡◌, refl, inl, inr, Bool, true, false, not, ◌&&◌, ◌||◌, Option, none, some, List, [], ◌∷◌, arith,
  Bytes, bytes, str_eq, str_eq_iff, if◌then◌else◌, Option-cases, Bool-cases, Result, ok, err,
}
use netbootd.GoStd.Strings.{has_suffix}
use netbootd.GoStd.Filepath.{join}
use netbootd.GoStd.Ip.{Ip}
use netbootd.Manifest.Defs.{Manifest}
use netbootd.Manifest.HardwareAddr.{HardwareAddr}
use netbootd.Manifest.Io.{manifest_from_yaml}
use netbootd.Store.Defs.{
  Store, DirEntry, put_indexed, put_manifest, load_contents, load_item, load_items,
  load_from_directory, find, find_by_ip, find_by_mac,
}
use netbootd.Store.Put.{IsStorable, put_manifest_outcomes}
use netbootd.Store.Invariant.{IsWellFormed, load_item-IsWellFormed}
use netbootd.Store.Seen.{
  seen, has_address, last_where, with_id, with_ip, with_mac, Sees, seen-put_indexed,
}

abbrev pub is_yaml : Bytes → Bool
is_yaml name = has_suffix name (bytes ".yml") || has_suffix name (bytes ".yaml")

-- A manifest with an address and an ID.
abbrev pub admitted : Result Manifest → Option Manifest
admitted (err e) = none
admitted (ok m) = if has_address m && not (str_eq m.id []) then some m else none

abbrev put_some : Store → Option Manifest → Store
put_some s none = s
put_some s (some m) = put_indexed s m

admitted_storable : (m : Manifest) → IsStorable m → admitted (ok m) ≡ some m
admitted_storable m h = elim (Option-cases m.ipv4.ip) [
  | inl nil ↦ absurd (h.0 nil)
  | inr (a, ip) ↦ rw ip (ground (arith, h, str_eq_iff m.id []))
]

admitted_refused : (m : Manifest) → ¬ IsStorable m → admitted (ok m) ≡ none
admitted_refused m h = elim (Option-cases m.ipv4.ip) [
  | inl nil ↦ rw nil refl
  | inr (a, ip) ↦ elim (Bool-cases (str_eq m.id [])) [
    | inl empty ↦ rw (ip, empty) refl
    | inr full ↦ absurd (h (ground arith, ground (arith, str_eq_iff m.id [])))
  ]
]

load_admitted :
    (s : Store) (r : Result Manifest)
    → (elim r as (λ _. Store) [ err e ↦ s | ok m ↦ (put_manifest s m).1 ]) ≡ put_some s (admitted r)
load_admitted s (err e) = refl
load_admitted s (ok m) = elim (put_manifest_outcomes s m) [
  | inl (h, e) ↦ rw (e, admitted_storable m h) refl
  | inr (h, (_, e)) ↦ rw (e, admitted_refused m h) refl
]

skip_unless :
    (regular yml yaml : Bool) (s t : Store) (o : Option Manifest)
    → t ≡ put_some s o
    → (if not regular || (not yml && not yaml) then s else t)
      ≡ put_some s (if regular && (yml || yaml) then o else none)
skip_unless false yml yaml s t o e = refl
skip_unless true false false s t o e = refl
skip_unless true false true s t o e = e
skip_unless true true yaml s t o e = e

module _ (unmarshal : Bytes → Result Manifest) (read_file : Bytes → Result Bytes)
    (path root_path : Bytes) where
  abbrev pub decoded : Result Bytes → Option Manifest
  decoded (err e) = none
  decoded (ok b) = admitted (manifest_from_yaml unmarshal b root_path)

  -- The manifest of an item of the directory: of a regular file with one of the two suffixes that
  -- can be read and decoded, if the manifest validates and has an address and an ID.
  abbrev pub manifest_of : DirEntry → Option Manifest
  manifest_of item =
      if item.is_regular && is_yaml item.name
      then decoded (read_file (join path item.name))
      else none

  abbrev pub prepend : Option Manifest → List Manifest → List Manifest
  prepend none ms = ms
  prepend (some m) ms = m ∷ ms

  abbrev pub manifests_of : List DirEntry → List Manifest
  manifests_of [] = []
  manifests_of (item ∷ items) = prepend (manifest_of item) (manifests_of items)

  load_contents-eq :
      (s : Store) (r : Result Bytes)
      → load_contents unmarshal read_file s root_path r ≡ put_some s (decoded r)
  unfolding load_contents
  load_contents-eq s (err e) = refl
  load_contents-eq s (ok b) = load_admitted s (manifest_from_yaml unmarshal b root_path)

  load_item-eq :
      (s : Store) (item : DirEntry)
      → load_item unmarshal read_file s path root_path item ≡ put_some s (manifest_of item)
  unfolding load_item
  load_item-eq s item =
      skip_unless item.is_regular (has_suffix item.name (bytes ".yml"))
        (has_suffix item.name (bytes ".yaml")) s _ _ (load_contents-eq s _)

  -- What one round of the loop leaves, and what the rounds after it make of that.
  abbrev Loads : Store → List DirEntry → Store → Type 0
  Loads s items s' =
      Sees s' (λ id. last_where (with_id id) (manifests_of items) (seen s (find s id)))
        (λ ip. last_where (with_ip ip) (manifests_of items) (seen s (find_by_ip s ip)))
        (λ mac. last_where (with_mac mac) (manifests_of items) (seen s (find_by_mac s mac)))

  load_round :
      (s : Store) (item : DirEntry) (items : List DirEntry) (s' : Store) (o : Option Manifest)
      → manifest_of item ≡ o
      → IsWellFormed s
      → Loads (put_some s o) items s'
      → Loads s (item ∷ items) s'
  load_round s item items s' none e w h = record {
    by_id = λ id. rw e (h.by_id id);
    by_ip = λ ip. rw e (h.by_ip ip);
    by_mac = λ mac. rw e (h.by_mac mac);
  }
  load_round s item items s' (some m) e w h =
      let v = seen-put_indexed s m w in
      record {
        by_id = λ id. rw e (rw (v.by_id id) at (h.by_id id));
        by_ip = λ ip. rw e (rw (v.by_ip ip) at (h.by_ip ip));
        by_mac = λ mac. rw e (rw (v.by_mac mac) at (h.by_mac mac));
      }

  put_some-IsWellFormed :
      (s : Store) (item : DirEntry) → IsWellFormed s → IsWellFormed (put_some s (manifest_of item))
  put_some-IsWellFormed s item w =
      rw (← load_item-eq s item)
        (load_item-IsWellFormed unmarshal read_file s path root_path item w)

  load_items-Loads :
      (s : Store) (items : List DirEntry)
      → IsWellFormed s
      → Loads s items (load_items unmarshal read_file s path root_path items)
  unfolding load_items
  load_items-Loads s [] w = record { by_id = λ id. refl; by_ip = λ ip. refl; by_mac = λ mac. refl }
  load_items-Loads s (item ∷ items) w = rw (load_item-eq s item) (
      load_round s item items _ (manifest_of item) refl w
        (load_items-Loads (put_some s (manifest_of item)) items (put_some-IsWellFormed s item w)))

  -- LoadFromDirectory returns the error of reading the directory, and each of the three lookups
  -- gives afterwards the last manifest with its key among those of the directory's items: the
  -- regular files called .yml or .yaml that can be read and decoded to a manifest that validates and
  -- has an address and an ID. Where no item has the key, the lookup gives what it gave before.
  pub find_by-load_from_directory :
      (s : Store) (items : List DirEntry) (e : Option Bytes)
      → IsWellFormed s
      → let r = load_from_directory unmarshal read_file s path root_path (items, e) in
        let ms = manifests_of items in
        (r.0 ≡ e)
        × ((id : Bytes) → seen r.1 (find r.1 id) ≡ last_where (with_id id) ms (seen s (find s id)))
        × ((ip : Ip)
            → seen r.1 (find_by_ip r.1 ip) ≡ last_where (with_ip ip) ms (seen s (find_by_ip s ip)))
        × ((mac : HardwareAddr)
            → seen r.1 (find_by_mac r.1 mac)
              ≡ last_where (with_mac mac) ms (seen s (find_by_mac s mac)))
  unfolding load_from_directory
  find_by-load_from_directory s items e w =
      let h = load_items-Loads s items w in (refl, h.by_id, h.by_ip, h.by_mac)
