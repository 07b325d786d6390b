-- ===== src/Store/Steps.antt =====
-- store/store.go under concurrent requests: each step is what one goroutine does to the store under
-- one hold of the lock. ForgetManifest holds it twice, and another goroutine may run in between.
use netbootd.Prelude.{
  ℕ, ◌≤◌, ◌<◌, ◌≡◌, inl, inr, arith, Bool, Option, none, some, Bytes, Bool-cases, ◌==◌,
  if◌then◌else◌,
}
use netbootd.Manifest.Defs.{Manifest}
use netbootd.Store.Defs.{
  Config, GlobalHints, Store, Ptr, new_store, put_indexed, put_manifest, forget_found,
  set_suspended, find,
}
use netbootd.Store.Put.{put_manifest_outcomes}
use netbootd.Store.Invariant.{
  IsWellFormed, new_store-IsWellFormed, put_manifest-IsWellFormed, forget_found-IsWellFormed,
  set_suspended-IsWellFormed,
}

-- `waiting i` is the pointer that goroutine `i` has read in ForgetManifest, before it takes the lock
-- for writing.
pub record System : Type 0 where
  pub store : Store
  pub waiting : ℕ → Option Ptr

abbrev pub assign : (ℕ → Option Ptr) → ℕ → Option Ptr → ℕ → Option Ptr
assign f i v j = if i == j then v else f j

-- PutManifest of any manifest; the two parts of ForgetManifest; and two assignments that
-- take no lock: to `Suspended`, through any pointer that a lookup has returned, and to the hints, as
-- cmd/server.go makes it when it starts.
pub data Step (x : System) : System → Type 0 where
  put : (m : Manifest) → Step x (record x { store = (put_manifest x.store m).1 })
  look :
      (i : ℕ) (id : Bytes) (p : Ptr)
      → find x.store id ≡ some p
      → Step x (record x { waiting = assign x.waiting i (some p) })
  forget :
      (i : ℕ) (p : Ptr)
      → x.waiting i ≡ some p
      → Step x (record {
        store = forget_found x.store (x.store.heap.cell p);
        waiting = assign x.waiting i none;
      })
  suspend :
      (p : Ptr) (b : Bool)
      → p < x.store.heap.next
      → Step x (record x { store = set_suspended x.store p b })
  hint : (h : GlobalHints) → Step x (record x { store = record x.store { global_hints = h } })

pub data Reach (x : System) : System → Type 0 where
  here : Reach x x
  next : {y z : System} → Reach x y → Step y z → Reach x z

abbrev pub start : Config → (Ptr → Manifest) → System
start cfg unallocated = record { store = new_store cfg unallocated; waiting = λ _. none }

pub record IsSound (x : System) : Type 0 where
  pub well_formed : IsWellFormed x.store
  pub allocated : (i : ℕ) (p : Ptr) → x.waiting i ≡ some p → p < x.store.heap.next

start-IsSound : (cfg : Config) (c : Ptr → Manifest) → IsSound (start cfg c)
unfolding new_store
start-IsSound cfg c = record {
  well_formed = new_store-IsWellFormed cfg c;
  allocated = λ i p h. absurd (cc);
}

pub next-put_manifest : (s : Store) (m : Manifest) → s.heap.next ≤ (put_manifest s m).1.heap.next
unfolding put_indexed
next-put_manifest s m = elim (put_manifest_outcomes s m) [
  | inl (_, e) ↦ rw e (omega arith)
  | inr (_, (e, q)) ↦ rw q (omega arith)
]

pub some-inj : (p q : Ptr) → some p ≡ some q → p ≡ q
some-inj p q h = cc

pub Step-IsSound : {x y : System} → Step x y → IsSound x → IsSound y
unfolding find forget_found set_suspended
Step-IsSound {x} (put m) w = record {
  well_formed = put_manifest-IsWellFormed x.store m w.well_formed;
  allocated = λ i p h. omega (arith, w.allocated i p h, next-put_manifest x.store m);
}
Step-IsSound {x} (look i id p found) w = record {
  well_formed = w.well_formed;
  allocated = λ j q h. elim (Bool-cases (i == j)) [
    | inl e ↦
        let same : p ≡ q = some-inj p q (rw e at h) in rw same at (w.well_formed.ids id p found).0
    | inr e ↦ w.allocated j q (rw e at h)
  ];
}
Step-IsSound {x} (forget i p h) w = record {
  well_formed = forget_found-IsWellFormed x.store (x.store.heap.cell p) w.well_formed;
  allocated = λ j q k. elim (Bool-cases (i == j)) [
    | inl e ↦ absurd (cc (rw e at k))
    | inr e ↦ w.allocated j q (rw e at k)
  ];
}
Step-IsSound {x} (suspend p b lt) w = record {
  well_formed = set_suspended-IsWellFormed x.store p b w.well_formed;
  allocated = w.allocated;
}
Step-IsSound {x} (hint h) w = record {
  well_formed = record {
    ids = w.well_formed.ids;
    ips = w.well_formed.ips;
    macs = w.well_formed.macs;
  };
  allocated = w.allocated;
}

pub Reach-IsSound_from : {x y : System} → IsSound x → Reach x y → IsSound y
Reach-IsSound_from w here = w
Reach-IsSound_from w (next r st) = Step-IsSound st (Reach-IsSound_from w r)

-- However the requests of concurrent clients interleave, in a store that started empty every entry
-- of the three maps points to an allocated manifest with the entry's key, and no ForgetManifest holds
-- a dangling pointer.
pub Reach-IsSound :
    (cfg : Config) (c : Ptr → Manifest) {x : System} → Reach (start cfg c) x → IsSound x
Reach-IsSound cfg c r = Reach-IsSound_from (start-IsSound cfg c) r
