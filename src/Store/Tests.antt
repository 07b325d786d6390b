-- ===== src/Store/Tests.antt =====
-- The theorems of this folder at the manifests of Sample.
use netbootd.Prelude.{◌≡◌, ◌≢◌, refl, sym, ◌⊎◌, false, none, some, [], arith, Bytes, bytes, In}
use netbootd.GoStd.Ip.{Ip, to16}
use netbootd.Manifest.Defs.{Manifest}
use netbootd.Manifest.HardwareAddr.{HardwareAddr, string}
use netbootd.Store.Defs.{
  Store, Ptr, ip_key, new_store, put_indexed, put_manifest, forget_found, forget_manifest, find,
  find_by_ip, find_by_mac,
}
use netbootd.Store.Sample.{machine, old, moved, empty, old-IsStorable, empty-IsWellFormed}
use netbootd.Store.Steps.{System, Step, Reach, here, next, start, IsSound, Reach-IsSound}
use netbootd.Store.Shared.{find_by_ip_shared}
use netbootd.Store.Race.{forget_race}
use netbootd.Store.Macs.{has_key}
use netbootd.Store.Put.{IsStorable, put_manifest_outcomes, find-put_manifest, find-put_manifest_ne}
use netbootd.Store.Forget.{forget_manifest_outcomes}
use netbootd.Store.Forgotten.{find_by-forget_manifest, find_by_ip_stale}
use netbootd.Store.Invariant.{IsWellFormed, put_manifest-IsWellFormed}

put_manifest_outcomes_example :
    (IsStorable old × (put_manifest empty old ≡ (none, put_indexed empty old)))
    ⊎ ((¬ IsStorable old) × ((e : Bytes) × (put_manifest empty old ≡ (some e, empty))))
put_manifest_outcomes_example = put_manifest_outcomes empty old

find-put_manifest_example :
    (find (put_manifest empty old).1 (bytes "a") ≡ some empty.heap.next)
    × (find_by_ip (put_manifest empty old).1 old.ipv4.ip ≡ some empty.heap.next)
    × ((mac : HardwareAddr)
        → In mac old.mac
        → find_by_mac (put_manifest empty old).1 mac ≡ some empty.heap.next)
    × ((put_manifest empty old).1.heap.cell empty.heap.next ≡ old)
find-put_manifest_example = find-put_manifest empty old (cc, cc)

find-put_manifest_ne_example :
    ((id : Bytes) → id ≢ old.id → find (put_manifest empty old).1 id ≡ find empty id)
    × ((ip : Ip)
        → ip_key ip ≢ ip_key old.ipv4.ip
        → find_by_ip (put_manifest empty old).1 ip ≡ find_by_ip empty ip)
    × ((mac : HardwareAddr)
        → has_key (string mac) old.mac ≡ false
        → find_by_mac (put_manifest empty old).1 mac ≡ find_by_mac empty mac)
    × ((p : Ptr) → p ≢ empty.heap.next → (put_manifest empty old).1.heap.cell p ≡ empty.heap.cell p)
find-put_manifest_ne_example = find-put_manifest_ne empty old (cc, cc)

abbrev one : Store
one = (put_manifest empty old).1

one-IsWellFormed : IsWellFormed one
one-IsWellFormed = put_manifest-IsWellFormed empty old empty-IsWellFormed

forget_manifest_outcomes_example :
    ((find one (bytes "b") ≡ none) × (forget_manifest one (bytes "b") ≡ (none, one)))
    ⊎ ((p : Ptr) × (find one (bytes "b") ≡ some p)
        × (forget_manifest one (bytes "b") ≡ (none, forget_found one (one.heap.cell p))))
forget_manifest_outcomes_example = forget_manifest_outcomes one (bytes "b")

find_by-forget_manifest_example :
    (find_by_ip (forget_manifest one (bytes "a")).1 (one.heap.cell empty.heap.next).ipv4.ip ≡ none)
    × ((mac : HardwareAddr)
        → In mac (one.heap.cell empty.heap.next).mac
        → find_by_mac (forget_manifest one (bytes "a")).1 mac ≡ none)
find_by-forget_manifest_example =
    find_by-forget_manifest one (bytes "a") empty.heap.next (find-put_manifest empty old (cc, cc)).0

other_key : ip_key old.ipv4.ip ≢ ip_key moved.ipv4.ip
other_key = unfold to16 in ground arith

find_by_ip_stale_example :
    (find (forget_manifest (put_manifest one moved).1 (bytes "a")).1 (bytes "a") ≡ none)
    × (find_by_ip (forget_manifest (put_manifest one moved).1 (bytes "a")).1 old.ipv4.ip
        ≡ some empty.heap.next)
    × ((forget_manifest (put_manifest one moved).1 (bytes "a")).1.heap.cell empty.heap.next ≡ old)
find_by_ip_stale_example = find_by_ip_stale empty old moved (cc, cc) (cc, cc) refl other_key

abbrev system : System
system = record { store = (put_manifest empty old).1; waiting = λ _. none }

reached : Reach (start (record { persistence_directory = [] }) (λ _. old)) system
reached = next here (Step.put old)

Reach-IsSound_example : IsSound system
Reach-IsSound_example = Reach-IsSound (record { persistence_directory = [] }) (λ _. old) reached

found_old : find system.store (bytes "a") ≡ some 0
unfolding new_store
found_old = (find-put_manifest empty old old-IsStorable).0

other_address : ip_key moved.ipv4.ip ≢ ip_key (system.store.heap.cell 0).ipv4.ip
unfolding new_store to16
other_address =
    let (_, _, _, cell) = find-put_manifest empty old old-IsStorable in
    rw cell (λ e. other_key (sym e))

forget_race_example :
    (y : System) × (Reach system y
      × ((find y.store (bytes "a") ≡ none)
          × ((find_by_ip y.store moved.ipv4.ip ≡ some system.store.heap.next)
              × (y.store.heap.cell system.store.heap.next ≡ moved))))
forget_race_example =
    forget_race system 0 0 moved
      (Reach-IsSound (record { persistence_directory = [] }) (λ _. old) reached) found_old (cc, cc)
      other_address

abbrev neighbour : Manifest
neighbour = machine "b" 101

other_id : neighbour.id ≢ old.id
other_id = ground arith

find_by_ip_shared_example :
    (find (forget_manifest (put_manifest one neighbour).1 (bytes "a")).1 (bytes "b")
      ≡ some one.heap.next)
    × (find_by_ip (forget_manifest (put_manifest one neighbour).1 (bytes "a")).1 neighbour.ipv4.ip
        ≡ none)
find_by_ip_shared_example =
    find_by_ip_shared empty old neighbour (cc, cc) (cc, cc) other_id refl empty-IsWellFormed
