-- ===== src/Api/Listing.antt =====
-- GET /api/manifests of api/server.go against GET /api/manifests/{id}.
use netbootd.Prelude.{
  ◌≡◌, ◌↔◌, ap, sym, inl, inr, some, List, [], ◌∷◌, Bytes, In, map, get, get_iff, Option-cases,
}
use mathlib.Core.Path.{subst}
use netbootd.Manifest.Defs.{Manifest}
use netbootd.Store.Defs.{Config, Ptr, find, get_all}
use netbootd.Store.Steps.{System, Reach, start}
use netbootd.Store.Entries.{Reach-HasOneEach}
use netbootd.Api.Defs.{all_manifests}
use netbootd.Api.Table.{contents}

module _ (cell : Ptr → Manifest) where
  id_eq :
      {id j : Bytes} {m n : Manifest} {p : Ptr}
      → ◌≡◌ {A = Bytes × Manifest} (id, m) (j, n)
      → ◌≡◌ {A = Bytes × Ptr} (id, p) (j, p)
  id_eq {p = p} e = ap (λ x. (x.0, p)) e

  listed_to :
      (l : List (Bytes × Ptr)) (id : Bytes) (m : Manifest)
      → In {A = Bytes × Manifest} (id, m) (map (λ e. (e.0, cell e.1)) l)
      → (p : Ptr) × (In {A = Bytes × Ptr} (id, p) l × (cell p ≡ m))
  listed_to [] id m i = absurd i
  listed_to ((j, p) ∷ l) id m (inl e) = (p, (inl (id_eq e), sym (ap (λ x. x.1) e)))
  listed_to ((j, p) ∷ l) id m (inr i) =
      let (q, (there, same)) = listed_to l id m i in (q, (inr there, same))

  listed_from :
      (l : List (Bytes × Ptr)) (id : Bytes) (p : Ptr)
      → In {A = Bytes × Ptr} (id, p) l
      → In {A = Bytes × Manifest} (id, cell p) (map (λ e. (e.0, cell e.1)) l)
  listed_from [] id p i = absurd i
  listed_from ((j, q) ∷ l) id p (inl e) = inl (ap (λ x. (x.0, cell x.1)) e)
  listed_from ((j, q) ∷ l) id p (inr i) = inr (listed_from l id p i)

-- However the requests of concurrent clients have interleaved, GET /api/manifests has an ID with a
-- manifest exactly when GET /api/manifests/{id} shows that manifest for the ID.
pub In-all_manifests_iff :
    (cfg : Config) (c : Ptr → Manifest) {x : System} (id : Bytes) (m : Manifest)
    → Reach (start cfg c) x
    → In {A = Bytes × Manifest} (id, m) (all_manifests x.store) ↔ (contents x.store id ≡ some m)
unfolding all_manifests get_all find
In-all_manifests_iff cfg c {x} id m r = (
  λ i.
      let (p, (there, same)) = listed_to x.store.heap.cell x.store.manifests.entries id m i in
      rw ((get_iff x.store.manifests id p (Reach-HasOneEach cfg c r)).1 there) (ap some same),
  λ e. elim (Option-cases (get x.store.manifests id)) [
    | inl none_there ↦ absurd (cc (rw none_there at e))
    | inr (p, there) ↦
        let same : x.store.heap.cell p ≡ m = cc (rw there at e) in
        subst (λ n. In {A = Bytes × Manifest} (id, n) (all_manifests x.store)) same
          (listed_from x.store.heap.cell x.store.manifests.entries id p
            ((get_iff x.store.manifests id p (Reach-HasOneEach cfg c r)).0 there))
  ],
)
