-- ===== src/Store/Entries.antt =====
-- The map of IDs of store/store.go has one entry for each ID, whatever has been done to the store.
use netbootd.Prelude.{inl, inr, HasOneEach, make-HasOneEach, delete-HasOneEach, put-HasOneEach}
use netbootd.Manifest.Defs.{Manifest}
use netbootd.Store.Defs.{
  Config, Store, Ptr, new_store, put_indexed, put_manifest, forget_found, set_suspended,
}
use netbootd.Store.Put.{put_manifest_outcomes}
use netbootd.Store.Steps.{System, Step, put, look, forget, suspend, hint, Reach, here, next, start}

put_manifest-HasOneEach :
    (s : Store) (m : Manifest) → HasOneEach s.manifests → HasOneEach (put_manifest s m).1.manifests
unfolding put_indexed
put_manifest-HasOneEach s m h = elim (put_manifest_outcomes s m) [
  | inl (_, e) ↦ rw e (put-HasOneEach s.manifests m.id s.heap.next h)
  | inr (_, (e, q)) ↦ rw q h
]

Step-HasOneEach :
    {x y : System} → Step x y → HasOneEach x.store.manifests → HasOneEach y.store.manifests
unfolding forget_found set_suspended
Step-HasOneEach {x} (put m) h = put_manifest-HasOneEach x.store m h
Step-HasOneEach {x} (look i id p found) h = h
Step-HasOneEach {x} (forget i p w) h =
    delete-HasOneEach x.store.manifests (x.store.heap.cell p).id h
Step-HasOneEach {x} (suspend p b lt) h = h
Step-HasOneEach {x} (hint hints) h = h

from_start :
    {x y : System} → HasOneEach x.store.manifests → Reach x y → HasOneEach y.store.manifests
from_start h here = h
from_start h (next r st) = Step-HasOneEach st (from_start h r)

pub Reach-HasOneEach :
    (cfg : Config) (c : Ptr → Manifest) {x : System}
    → Reach (start cfg c) x
    → HasOneEach x.store.manifests
unfolding new_store
Reach-HasOneEach cfg c r = from_start (make-HasOneEach Ptr) r
