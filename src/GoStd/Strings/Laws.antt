-- ===== src/GoStd/Strings/Laws.antt =====
-- Laws of prefixes and of trimming.
use netbootd.Prelude.{ℕ, ◌≡◌, refl, ◌≢◌, true, [], ◌∷◌, ◌++◌, arith, Bytes, length}
use netbootd.GoStd.Strings.{drop, trim_left, has_prefix, trim_prefix}

pub has_prefix-append : (p s : Bytes) → has_prefix (p ++ s) p ≡ true
unfolding has_prefix
has_prefix-append [] s = refl
has_prefix-append (c ∷ p) s = ground (arith, has_prefix-append p s)

-- A string with a prefix is that prefix and a rest.
pub split_of_has_prefix : (s p : Bytes) → has_prefix s p ≡ true → (rest : Bytes) × (s ≡ p ++ rest)
unfolding has_prefix
split_of_has_prefix s [] h = (s, refl)
split_of_has_prefix [] (c ∷ p) h = absurd (ground arith)
split_of_has_prefix (d ∷ s) (c ∷ p) h =
    let (rest, e) = split_of_has_prefix s p (ground arith) in (rest, ground arith)

pub drop-append : (p s : Bytes) → drop (length p) (p ++ s) ≡ s
unfolding drop
drop-append [] s = refl
drop-append (c ∷ p) s = drop-append p s

pub trim_prefix-append : (p s : Bytes) → trim_prefix (p ++ s) p ≡ s
unfolding trim_prefix
trim_prefix-append p s = ground (arith, has_prefix-append p s, drop-append p s)

pub trim_left_of_ne : (c : ℕ) (s : Bytes) (cut : ℕ) → c ≢ cut → trim_left (c ∷ s) cut ≡ c ∷ s
unfolding trim_left
trim_left_of_ne c s cut h = ground arith

-- What is trimmed off is a block of the cut byte, and trimming twice is trimming once.
pub trim_left_idem : (s : Bytes) (cut : ℕ) → trim_left (trim_left s cut) cut ≡ trim_left s cut
unfolding trim_left
trim_left_idem [] cut = refl
trim_left_idem (c ∷ s) cut = ground (arith, trim_left_idem s cut)
