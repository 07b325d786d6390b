-- ===== src/Manifest/GetMount.antt =====
-- What Manifest.GetMount of manifest/schema.go chooses.
use netbootd.Prelude.{
  ◌≤◌, ◌≡◌, ◌≢◌, refl, ◌↔◌, ◌⊎◌, inl, inr, Bool, true, false, not, ◌&&◌, ◌||◌, ltb, if◌then◌else◌,
  List, [], ◌∷◌, ◌++◌, arith, Bytes, bytes, length, In, All, Bool-cases, ok, err,
}
use netbootd.GoStd.Strings.{slash, trim_left}
use netbootd.Manifest.Defs.{
  Mount, Manifest, zero_mount, is_exact, is_above, get_mount_from, get_mount,
}

-- A mount that serves the path, as a prefix or exactly.
abbrev pub serves : Bytes → Mount → Bool
serves path m = is_exact path m || is_above path m

-- With no exact mount, the best prefix mount: none that is above the path has a longer path.
pub record IsLongest (path : Bytes) (mounts : List Mount) (m : Mount) : Type 0 where
  pub above : is_above path m ≡ true
  pub no_exact : All (λ n. is_exact path n ≡ false) mounts
  pub longest : All (λ n. is_above path n ≡ true → length n.path ≤ length m.path) mounts

-- What the loop returns from its variables: an exact mount, or else the longest mount above the
-- path, which is the best so far or one of the list.
record Found (path : Bytes) (mounts : List Mount) (best : Mount) (found : Bool) (m : Mount)
    : Type 0 where
  origin : (In m mounts × (is_above path m ≡ true)) ⊎ ((m ≡ best) × (found ≡ true))
  no_exact : All (λ n. is_exact path n ≡ false) mounts
  longest : All (λ n. is_above path n ≡ true → length n.path ≤ length m.path) mounts
  beats : found ≡ true → length best.path ≤ length m.path

Found-cons :
    (path : Bytes) (n : Mount) (mounts : List Mount) (best : Mount) (found : Bool) (m : Mount)
    → is_exact path n ≡ false
    → (let better = is_above path n && (ltb (length best.path) (length n.path) || not found) in
        Found path mounts (if better then n else best) (if better then true else found) m)
    → Found path (n ∷ mounts) best found m
Found-cons path n mounts best found m e f = record {
  origin = ground (arith, f.origin);
  no_exact = (e, f.no_exact);
  longest = (λ a. ground (arith, f.beats), f.longest);
  beats = λ q. ground (arith, f.beats);
}

from_ok :
    (path : Bytes) (mounts : List Mount) (best : Mount) (found : Bool) (m : Mount)
    → get_mount_from path mounts best found ≡ ok m
    → (In m mounts × (is_exact path m ≡ true)) ⊎ Found path mounts best found m
unfolding get_mount_from
from_ok path [] best found m h =
    inr (record { origin = ground arith; no_exact = tt; longest = tt; beats = λ q. ground arith })
from_ok path (n ∷ mounts) best found m h = elim (Bool-cases (is_exact path n)) [
  | inl e ↦ inl (ground arith)
  | inr e ↦ elim (from_ok path mounts _ _ m (rw (e, get_mount_from) at h)) [
    | inl (i, x) ↦ inl (inr i, x)
    | inr f ↦ inr (Found-cons path n mounts best found m e f)
  ]
]

-- Once found, the loop ends with a mount.
from_found :
    (path : Bytes) (mounts : List Mount) (best : Mount) (e : Bytes)
    → get_mount_from path mounts best true ≢ err e
unfolding get_mount_from
from_found path [] best e = cc
from_found path (n ∷ mounts) best e =
    ground (arith, from_found path mounts best e, from_found path mounts n e)

from_err :
    (path : Bytes) (mounts : List Mount) (best : Mount) (e : Bytes)
    → get_mount_from path mounts best false ≡ err e
    → All (λ n. serves path n ≡ false) mounts
unfolding get_mount_from
from_err path [] best e h = tt
from_err path (n ∷ mounts) best e h =
    ground (arith, from_err path mounts best e, from_found path mounts n e)

from_none :
    (path : Bytes) (mounts : List Mount) (best : Mount)
    → All (λ n. serves path n ≡ false) mounts
    → get_mount_from path mounts best false ≡ err (bytes "no mount matches path: " ++ path)
unfolding get_mount_from
from_none path [] best h = refl
from_none path (n ∷ mounts) best h = ground (arith, from_none path mounts best)

from_exact :
    (path : Bytes) (before after : List Mount) (m best : Mount) (found : Bool)
    → All (λ n. is_exact path n ≡ false) before
    → is_exact path m ≡ true
    → get_mount_from path (before ++ m ∷ after) best found ≡ ok m
unfolding get_mount_from
from_exact path [] after m best found h e = rw e
from_exact path (n ∷ before) after m best found h e =
    rw h.0 (from_exact path before after m _ _ h.1 e)

-- A mount that GetMount returns is one of the manifest's. It is an exact mount at the path, or
-- else no mount is exact, it is a prefix mount above the path, and no prefix mount above the path
-- has a longer `Path`. The path is taken without its leading slashes.
pub get_mount_sound :
    (man : Manifest) (path : Bytes) (m : Mount)
    → get_mount man path ≡ ok m
    → In m man.mounts
      × ((is_exact (trim_left path slash) m ≡ true) ⊎ IsLongest (trim_left path slash) man.mounts m)
unfolding get_mount
get_mount_sound man path m h = elim (from_ok (trim_left path slash) man.mounts _ false m h) [
  | inl (i, e) ↦ (i, inl e)
  | inr f ↦ elim f.origin [
    | inl (i, a) ↦ (i, inr (record { above = a; no_exact = f.no_exact; longest = f.longest }))
    | inr (_, q) ↦ absurd (ground arith)
  ]
]

-- GetMount fails exactly when no mount is exact at the path or a prefix above it, and its error
-- then names the path without its leading slashes.
pub get_mount_fails_iff :
    (man : Manifest) (path : Bytes)
    → (get_mount man path ≡ err (bytes "no mount matches path: " ++ trim_left path slash))
      ↔ All (λ n. serves (trim_left path slash) n ≡ false) man.mounts
unfolding get_mount
get_mount_fails_iff man path =
    (λ h. from_err _ man.mounts zero_mount _ h, from_none _ man.mounts zero_mount)

-- The first exact mount wins over every prefix mount, wherever those stand in the list.
pub get_mount_first_exact :
    (man : Manifest) (path : Bytes) (before after : List Mount) (m : Mount)
    → man.mounts ≡ before ++ m ∷ after
    → All (λ n. is_exact (trim_left path slash) n ≡ false) before
    → is_exact (trim_left path slash) m ≡ true
    → get_mount man path ≡ ok m
unfolding get_mount
get_mount_first_exact man path before after m split h e =
    rw split (from_exact _ before after m _ _ h e)

-- A slash in front of the path changes nothing.
pub get_mount-slash :
    (man : Manifest) (path : Bytes) → get_mount man (slash ∷ path) ≡ get_mount man path
unfolding get_mount trim_left
get_mount-slash man path = refl
