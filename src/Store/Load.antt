-- ===== src/Store/Load.antt =====
-- Store.LoadFromDirectory of store/store.go does nothing to the store but PutManifest.
use netbootd.Prelude.{
  ◌≡◌, refl, List, [], ◌∷◌, Bytes, Result, ok, err, if◌then◌else◌, Bool, true, false,
}
use netbootd.Manifest.Defs.{Manifest}
use netbootd.Manifest.Io.{manifest_from_yaml}
use netbootd.Store.Defs.{Store, DirEntry, put_manifest, load_contents, load_item, load_items}

module _ (unmarshal : Bytes → Result Manifest) (read_file : Bytes → Result Bytes)
    (root_path : Bytes) (P : Store → Type 0)
    (keeps : (s : Store) (b : Bytes) (m : Manifest)
      → manifest_from_yaml unmarshal b root_path ≡ ok m
      → P s
      → P (put_manifest s m).1) where
  load_read :
      (s : Store) (b : Bytes) (r : Result Manifest)
      → manifest_from_yaml unmarshal b root_path ≡ r
      → P s
      → P (elim r [ err e ↦ s | ok m ↦ (put_manifest s m).1 ])
  load_read s b (ok m) e h = keeps s b m e h
  load_read s b (err _) e h = h

  load_contents_keeps :
      (s : Store) (r : Result Bytes) → P s → P (load_contents unmarshal read_file s root_path r)
  unfolding load_contents
  load_contents_keeps s (err e) h = h
  load_contents_keeps s (ok b) h = load_read s b (manifest_from_yaml unmarshal b root_path) refl h

  if_keeps : (b : Bool) (s t : Store) → P s → P t → P (if b then s else t)
  if_keeps true s t hs ht = hs
  if_keeps false s t hs ht = ht

  pub load_item_keeps :
      (s : Store) (path : Bytes) (item : DirEntry)
      → P s
      → P (load_item unmarshal read_file s path root_path item)
  unfolding load_item
  load_item_keeps s path item h = if_keeps _ s _ h (load_contents_keeps s _ h)

  -- What PutManifest of a manifest that was read keeps, LoadFromDirectory keeps, whatever the files
  -- hold.
  pub load_items_induction :
      (s : Store) (path : Bytes) (items : List DirEntry)
      → P s
      → P (load_items unmarshal read_file s path root_path items)
  unfolding load_items
  load_items_induction s path [] h = h
  load_items_induction s path (item ∷ items) h =
      load_items_induction (load_item unmarshal read_file s path root_path item) path items
        (load_item_keeps s path item h)
