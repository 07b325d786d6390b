-- ===== src/Store/Durable.antt =====
-- What a PutManifest of store/store.go has stored, under the concurrent requests that come after it.
use netbootd.Prelude.{
  ℕ, ◌<◌, ◌≡◌, ◌≢◌, refl, ap, ◌∙◌, inl, inr, arith, Bool, false, some, In, ◌==◌, Bool-cases,
  get-delete_ne,
}
use netbootd.Manifest.Defs.{Manifest}
use netbootd.Manifest.HardwareAddr.{HardwareAddr, string}
use netbootd.Store.Defs.{
  Store, Ptr, ip_key, update, put_indexed, put_manifest, forget_found, set_suspended, find,
  find_by_ip, find_by_mac,
}
use netbootd.Store.Macs.{has_key, get-delete_macs}
use netbootd.Store.Put.{
  IsStorable, stored, find-put_manifest, find-put_manifest_ne, put_manifest_outcomes,
}
use netbootd.Store.Steps.{System, Step, IsSound, Step-IsSound, next-put_manifest, some-inj}

-- Two manifests with no key in common.
pub record AreApart (m n : Manifest) : Type 0 where
  pub ids : m.id ≢ n.id
  pub ips : ip_key m.ipv4.ip ≢ ip_key n.ipv4.ip
  pub macs : (mac : HardwareAddr) → In mac m.mac → has_key (string mac) n.mac ≡ false

-- A step that neither puts a manifest with a key of `m` nor begins to forget one.
abbrev pub Spares : Manifest → {x y : System} → Step x y → Type 0
Spares m (Step.put n) = AreApart m n
Spares m {x} (Step.look i id p found) = AreApart m (x.store.heap.cell p)
Spares m (Step.forget i p h) = Unit {0}
Spares m (Step.suspend p b lt) = Unit {0}
Spares m (Step.hint h) = Unit {0}

-- The runs of such steps.
pub data Sparing (m : Manifest) (x : System) : System → Type 0 where
  stay : Sparing m x x
  more : {y z : System} → Sparing m x y → (st : Step y z) → Spares m st → Sparing m x z

pub Sparing-append : {m : Manifest} {x y z : System} → Sparing m x y → Sparing m y z → Sparing m x z
Sparing-append run stay = run
Sparing-append run (more run' st spares) = more (Sparing-append run run') st spares

-- No ForgetManifest waits with a manifest that has a key of `m`.
abbrev pub AreSparing : Manifest → System → Type 0
AreSparing m x = (i : ℕ) (p : Ptr) → x.waiting i ≡ some p → AreApart m (x.store.heap.cell p)

-- The lookups by all keys of `m` give one pointer, to `m` but for its Suspended.
pub record IsKept (m : Manifest) (s : Store) (p : Ptr) : Type 0 where
  pub allocated : p < s.heap.next
  pub by_id : find s m.id ≡ some p
  pub by_ip : find_by_ip s m.ipv4.ip ≡ some p
  pub by_mac : (mac : HardwareAddr) → In mac m.mac → find_by_mac s mac ≡ some p
  pub value : s.heap.cell p ≡ record m { suspended = (s.heap.cell p).suspended }

module _ (m : Manifest) where
  forget_found-IsKept :
      (s : Store) (n : Manifest) (p : Ptr)
      → AreApart m n
      → IsKept m s p
      → IsKept m (forget_found s n) p
  unfolding forget_found find find_by_ip find_by_mac
  forget_found-IsKept s n p apart k = record {
    allocated = k.allocated;
    by_id = get-delete_ne s.manifests n.id m.id apart.ids ∙ k.by_id;
    by_ip = get-delete_ne s.ip (ip_key n.ipv4.ip) (ip_key m.ipv4.ip) apart.ips ∙ k.by_ip;
    by_mac =
        λ mac i. get-delete_macs n.mac s.mac (string mac) ∙ rw (apart.macs mac i) (k.by_mac mac i);
    value = k.value;
  }

  put_manifest-IsKept :
      (s : Store) (n : Manifest) (p : Ptr)
      → AreApart m n
      → IsKept m s p
      → IsKept m (put_manifest s n).1 p
  put_manifest-IsKept s n p apart k = elim (put_manifest_outcomes s n) [
    | inl (storable, _) ↦
        let (ids, ips, macs, cells) = find-put_manifest_ne s n storable in
        let same = cells p (omega (arith, k.allocated)) in
        record {
          allocated = omega (arith, k.allocated, next-put_manifest s n);
          by_id = ids m.id apart.ids ∙ k.by_id;
          by_ip = ips m.ipv4.ip apart.ips ∙ k.by_ip;
          by_mac = λ mac i. macs mac (apart.macs mac i) ∙ k.by_mac mac i;
          value = rw same k.value;
        }
    | inr (_, (_, e)) ↦ rw e k
  ]

  -- A write to Suspended, at the pointer of the manifest or at another.
  suspended_value :
      (cell : Ptr → Manifest) (q p : Ptr) (b : Bool)
      → cell p ≡ record m { suspended = (cell p).suspended }
      → let n = update cell q (record (cell q) { suspended = b }) p in
        n ≡ record m { suspended = n.suspended }
  suspended_value cell q p b e = elim (Bool-cases (q == p)) [
    | inl same ↦
        let here : q ≡ p = ground arith in
        rw (same, here) (ap (λ (t : Manifest). record t { suspended = b }) e)
    | inr other ↦ rw other e
  ]

  suspended_apart :
      (cell : Ptr → Manifest) (q p : Ptr) (b : Bool)
      → AreApart m (cell p)
      → AreApart m (update cell q (record (cell q) { suspended = b }) p)
  suspended_apart cell q p b apart = elim (Bool-cases (q == p)) [
    | inl same ↦
        let here : q ≡ p = ground arith in
        rw (same, here) (record { ids = apart.ids; ips = apart.ips; macs = apart.macs })
    | inr other ↦ rw other apart
  ]

  set_suspended-IsKept :
      (s : Store) (q p : Ptr) (b : Bool) → IsKept m s p → IsKept m (set_suspended s q b) p
  unfolding set_suspended find find_by_ip find_by_mac
  set_suspended-IsKept s q p b k = record {
    allocated = k.allocated;
    by_id = k.by_id;
    by_ip = k.by_ip;
    by_mac = k.by_mac;
    value = suspended_value s.heap.cell q p b k.value;
  }

  cell-put_manifest :
      (s : Store) (n : Manifest) (p : Ptr)
      → p < s.heap.next
      → (put_manifest s n).1.heap.cell p ≡ s.heap.cell p
  cell-put_manifest s n p lt = elim (put_manifest_outcomes s n) [
    | inl (storable, _) ↦
        let (_, _, _, cells) = find-put_manifest_ne s n storable in cells p (omega (arith, lt))
    | inr (_, (_, e)) ↦ rw e refl
  ]

  Step-AreSparing :
      {x y : System} (st : Step x y) → IsSound x → Spares m st → AreSparing m x → AreSparing m y
  unfolding forget_found set_suspended
  Step-AreSparing {x} (Step.put n) w apart h =
      λ i p e. rw (cell-put_manifest x.store n p (w.allocated i p e)) (h i p e)
  Step-AreSparing {x} (Step.look i id p found) w apart h = λ j q e. elim (Bool-cases (i == j)) [
    | inl same ↦ let at : p ≡ q = some-inj p q (rw same at e) in rw (← at) apart
    | inr other ↦ h j q (rw other at e)
  ]
  Step-AreSparing {x} (Step.forget i p f) w apart h = λ j q e. elim (Bool-cases (i == j)) [
    | inl same ↦ absurd (cc (rw same at e))
    | inr other ↦ h j q (rw other at e)
  ]
  Step-AreSparing {x} (Step.suspend p b lt) w apart h =
      λ j q e. suspended_apart x.store.heap.cell p q b (h j q e)
  Step-AreSparing {x} (Step.hint g) w apart h = h

  Step-IsKept :
      {x y : System} {p : Ptr} (st : Step x y)
      → Spares m st
      → AreSparing m x
      → IsKept m x.store p
      → IsKept m y.store p
  unfolding find find_by_ip find_by_mac
  Step-IsKept {x} {p} (Step.put n) apart h k = put_manifest-IsKept x.store n p apart k
  Step-IsKept {x} (Step.look i id q found) apart h k = k
  Step-IsKept {x} {p} (Step.forget i q f) apart h k =
      forget_found-IsKept x.store (x.store.heap.cell q) p (h i q f) k
  Step-IsKept {x} {p} (Step.suspend q b lt) apart h k = set_suspended-IsKept x.store q p b k
  Step-IsKept (Step.hint g) apart h k = record {
    allocated = k.allocated;
    by_id = k.by_id;
    by_ip = k.by_ip;
    by_mac = k.by_mac;
    value = k.value;
  }

  Sparing-IsKept :
      {x y : System} {p : Ptr}
      → Sparing m x y
      → IsSound x
      → AreSparing m x
      → IsKept m x.store p
      → IsSound y × AreSparing m y × IsKept m y.store p
  Sparing-IsKept stay w h k = (w, h, k)
  Sparing-IsKept (more run st apart) w h k =
      let (w', h', k') = Sparing-IsKept run w h k in
      (Step-IsSound st w', Step-AreSparing st w' apart h', Step-IsKept st apart h' k')

  put_manifest-IsKept_self : (s : Store) → IsStorable m → IsKept m (put_manifest s m).1 s.heap.next
  unfolding put_indexed
  put_manifest-IsKept_self s storable =
      let (by_id, by_ip, by_mac, cell) = find-put_manifest s m storable in
      record {
        allocated = rw (stored s m storable) (omega arith);
        by_id = by_id;
        by_ip = by_ip;
        by_mac = by_mac;
        value = rw cell refl;
      }

  -- Once PutManifest has stored a manifest with an address and an ID, the lookups by its ID, by its
  -- address and by its hardware addresses keep giving one pointer, to that manifest changed at most
  -- in Suspended, however the requests after it interleave: as long as none of them puts, or begins
  -- to forget, a manifest with one of its keys, and no ForgetManifest of such a one was under way.
  pub find-put_manifest_kept :
      {x y : System}
      → IsSound x
      → IsStorable m
      → AreSparing m x
      → Sparing m (record x { store = (put_manifest x.store m).1 }) y
      → (p : Ptr) × (find y.store m.id ≡ some p)
        × (find_by_ip y.store m.ipv4.ip ≡ some p)
        × ((mac : HardwareAddr) → In mac m.mac → find_by_mac y.store mac ≡ some p)
        × (y.store.heap.cell p ≡ record m { suspended = (y.store.heap.cell p).suspended })
  find-put_manifest_kept {x} w storable sparing run =
      let st = Step.put m in
      let still : AreSparing m (record x { store = (put_manifest x.store m).1 }) =
        λ i p e. rw (cell-put_manifest x.store m p (w.allocated i p e)) (sparing i p e) in
      let (_, _, k) =
        Sparing-IsKept run (Step-IsSound st w) still (put_manifest-IsKept_self x.store storable) in
      (x.store.heap.next, k.by_id, k.by_ip, k.by_mac, k.value)
