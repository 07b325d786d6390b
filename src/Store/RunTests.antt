-- ===== src/Store/RunTests.antt =====
-- A directory with three items, and a run of steps, on which two of the theorems are applied.
use netbootd.Prelude.{
  ◌≡◌, ◌≢◌, refl, true, false, none, some, [], ◌∷◌, List, arith, Bytes, bytes, In, ok, str_eq, ◌<◌,
  inl, inr, Result,
}
use netbootd.GoStd.Ip.{Ip, to16}
use netbootd.Manifest.Defs.{Manifest}
use netbootd.GoStd.Mac.{mac_string}
use netbootd.Manifest.HardwareAddr.{HardwareAddr, string}
use netbootd.Store.Defs.{
  Config, Ptr, DirEntry, ip_key, new_store, put_manifest, set_suspended, load_from_directory, find,
  find_by_ip, find_by_mac,
}
use netbootd.Store.Macs.{has_key}
use netbootd.Store.Steps.{System, Step, here, start, Reach-IsSound}
use netbootd.Store.Sample.{old, moved, empty, old-IsStorable, empty-IsWellFormed}
use netbootd.Store.Seen.{seen, last_where, with_id, with_ip, with_mac}
use netbootd.Store.Loaded.{manifests_of, find_by-load_from_directory}
use netbootd.Store.Durable.{AreApart, Sparing, stay, more, find-put_manifest_kept}

-- Two files hold manifests of the same ID, and the third is not read.
abbrev items : List DirEntry
items =
    record { name = bytes "a.yml"; is_regular = true }
    ∷ record { name = bytes "notes.txt"; is_regular = true }
    ∷ record { name = bytes "b.yaml"; is_regular = true }
    ∷ []

abbrev read_file : Bytes → Result Bytes
read_file path = ok path

abbrev unmarshal : Bytes → Result Manifest
unmarshal b = ok old

find_by-load_from_directory_example :
    let r =
      load_from_directory unmarshal read_file empty (bytes "/etc/netbootd") [] (items, none) in
    let ms = manifests_of unmarshal read_file (bytes "/etc/netbootd") [] items in
    (r.0 ≡ none)
    × ((id : Bytes)
        → seen r.1 (find r.1 id) ≡ last_where (with_id id) ms (seen empty (find empty id)))
    × ((ip : Ip)
        → seen r.1 (find_by_ip r.1 ip)
          ≡ last_where (with_ip ip) ms (seen empty (find_by_ip empty ip)))
    × ((mac : HardwareAddr)
        → seen r.1 (find_by_mac r.1 mac)
          ≡ last_where (with_mac mac) ms (seen empty (find_by_mac empty mac)))
find_by-load_from_directory_example =
    find_by-load_from_directory unmarshal read_file (bytes "/etc/netbootd") [] empty items none
      empty-IsWellFormed

abbrev cfg : Config
cfg = record { persistence_directory = [] }

abbrev before : System
before = start cfg (λ _. old)

abbrev other : Manifest
other = record moved { id = bytes "b" }

other_ip : ip_key old.ipv4.ip ≢ ip_key other.ipv4.ip
other_ip = unfold to16 in ground arith

other_mac : has_key (string (0 ∷ 21 ∷ 93 ∷ 189 ∷ 190 ∷ 101 ∷ [])) other.mac ≡ false
unfolding string mac_string str_eq
other_mac = refl

apart : AreApart old other
apart = record {
  ids = ground arith;
  ips = other_ip;
  macs = λ mac i. elim i [ inl e ↦ rw e other_mac | inr e ↦ absurd e ];
}

abbrev put_old : System
put_old = record before { store = (put_manifest before.store old).1 }

abbrev put_other : System
put_other = record put_old { store = (put_manifest put_old.store other).1 }

abbrev after : System
after = record put_other { store = set_suspended put_other.store 0 true }

was_put : 0 < put_other.store.heap.next
unfolding new_store put_manifest str_eq
was_put = omega arith

run : Sparing old put_old after
run = more (more stay (Step.put other) apart) (Step.suspend 0 true was_put) tt

find-put_manifest_kept_example :
    (p : Ptr) × (find after.store (bytes "a") ≡ some p)
    × (find_by_ip after.store old.ipv4.ip ≡ some p)
    × ((mac : HardwareAddr) → In mac old.mac → find_by_mac after.store mac ≡ some p)
    × (after.store.heap.cell p ≡ record old { suspended = (after.store.heap.cell p).suspended })
find-put_manifest_kept_example =
    find-put_manifest_kept old (Reach-IsSound cfg (λ _. old) here) old-IsStorable
      (λ i p h. absurd (cc)) run
