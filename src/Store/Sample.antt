-- ===== src/Store/Sample.antt =====
-- The manifests and the stores on which the theorems of this folder are applied.
use netbootd.Prelude.{ℕ, true, false, some, [], ◌∷◌, bytes, make, String}
use netbootd.Manifest.Defs.{Manifest}
use netbootd.Store.Defs.{Store, new_store}
use netbootd.Store.Put.{IsStorable}
use netbootd.Store.Invariant.{IsWellFormed, new_store-IsWellFormed}

abbrev pub machine : String → ℕ → Manifest
machine id host = record {
  id = bytes id;
  ipv4 = record { ip = some (192 ∷ 168 ∷ 17 ∷ host ∷ []); mask = 255 ∷ 255 ∷ 255 ∷ 0 ∷ [] };
  hostname = [];
  domain = [];
  lease_duration = 0;
  mac = (0 ∷ 21 ∷ 93 ∷ 189 ∷ 190 ∷ host ∷ []) ∷ [];
  dns = [];
  router = [];
  ntp = [];
  ipxe = true;
  boot_filename = bytes "install.ipxe";
  mounts = [];
  suspended = false;
  vars = make;
}

abbrev pub old : Manifest
old = machine "a" 101

abbrev pub moved : Manifest
moved = machine "a" 102

abbrev pub empty : Store
empty = new_store (record { persistence_directory = [] }) (λ _. old)

pub old-IsStorable : IsStorable old
old-IsStorable = (cc, cc)

pub empty-IsWellFormed : IsWellFormed empty
empty-IsWellFormed = new_store-IsWellFormed (record { persistence_directory = [] }) (λ _. old)
