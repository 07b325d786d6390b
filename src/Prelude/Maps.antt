-- ===== src/Prelude/Maps.antt =====
-- Go's `map[string]V`: an association list behind three operations. The program only ranges over a
-- map to print it, so the order of the entries is not the model's concern.
use mathlib.Core.Path.{◌≡◌, refl, sym, ap, ◌∙◌}
use mathlib.Core.Logic.{◌≢◌, ◌↔◌, inl, inr}
use mathlib.Core.Option.{Option, none, some}
use mathlib.Core.List.{List, [], ◌∷◌}
use native.Mathlib.Omega.{arith}
use netbootd.Prelude.Tests.{Bool-cases, if◌then◌else◌}
use netbootd.Prelude.Lists.{Bytes, In, str_eq, str_eq_iff, str_eq_refl}

pub record GoMap {ℓ} (V : Type ℓ) : Type ℓ where
  pub entries : List (Bytes × V)

module _ {ℓ} {V : Type ℓ} where
  lookup : Bytes → List (Bytes × V) → Option V
  lookup k [] = none
  lookup k ((j, v) ∷ l) = if str_eq j k then some v else lookup k l

  without : Bytes → List (Bytes × V) → List (Bytes × V)
  without k [] = []
  without k ((j, v) ∷ l) = let rest = without k l in if str_eq j k then rest else (j, v) ∷ rest

  lookup-without :
      (k j : Bytes) (l : List (Bytes × V))
      → lookup j (without k l) ≡ (if str_eq k j then none else lookup j l)
  unfolding lookup without
  lookup-without k j [] = ground arith
  lookup-without k j ((i, v) ∷ l) =
      ground (arith, lookup-without k j l, str_eq_iff i k, str_eq_iff i j, str_eq_iff k j)

  -- m[k], with the zero value (here `none`) on a missing key
  unfoldable pub get : GoMap V → Bytes → Option V
  unfolding lookup str_eq
  get m k = lookup k m.entries

  -- delete(m, k)
  unfoldable pub delete : GoMap V → Bytes → GoMap V
  unfolding without str_eq
  delete m k = record { entries = without k m.entries }

  -- m[k] = v
  unfoldable pub put : GoMap V → Bytes → V → GoMap V
  unfolding without str_eq
  put m k v = record { entries = (k, v) ∷ without k m.entries }

  pub get-delete :
      (m : GoMap V) (k j : Bytes) → get (delete m k) j ≡ (if str_eq k j then none else get m j)
  unfolding get delete
  get-delete m k j = lookup-without k j m.entries

  pub get-put :
      (m : GoMap V) (k j : Bytes) (v : V)
      → get (put m k v) j ≡ (if str_eq k j then some v else get m j)
  unfolding get put lookup
  get-put m k j v = ground (arith, lookup-without k j m.entries)

  pub get-put_self : (m : GoMap V) (k : Bytes) (v : V) → get (put m k v) k ≡ some v
  get-put_self m k v = get-put m k k v ∙ rw (str_eq_refl k) refl

  pub get-put_ne : (m : GoMap V) (k j : Bytes) (v : V) → j ≢ k → get (put m k v) j ≡ get m j
  get-put_ne m k j v h = ground (arith, get-put m k j v, str_eq_iff k j)

  pub get-delete_self : (m : GoMap V) (k : Bytes) → get (delete m k) k ≡ none
  get-delete_self m k = get-delete m k k ∙ rw (str_eq_refl k) refl

  pub get-delete_ne : (m : GoMap V) (k j : Bytes) → j ≢ k → get (delete m k) j ≡ get m j
  get-delete_ne m k j h = ground (arith, get-delete m k j, str_eq_iff k j)

  -- make(map[string]V)
  unfoldable pub make : GoMap V
  make = record { entries = [] }

pub get-make {ℓ} : {V : Type ℓ} (k : Bytes) → get (make {V = V}) k ≡ none
unfolding get make
get-make k = refl

module _ {V : Type 0} where
  IsKeyed : List (Bytes × V) → Type 0
  IsKeyed [] = Unit
  IsKeyed ((k, v) ∷ l) = (lookup k l ≡ none) × IsKeyed l

  without-IsKeyed : (k : Bytes) (l : List (Bytes × V)) → IsKeyed l → IsKeyed (without k l)
  unfolding IsKeyed without
  without-IsKeyed k [] h = tt
  without-IsKeyed k ((j, v) ∷ l) (fresh, h) = elim (Bool-cases (str_eq j k)) [
    | inl e ↦ rw e (without-IsKeyed k l h)
    | inr e ↦ rw e (ground (arith, lookup-without k j l), without-IsKeyed k l h)
  ]

  pair_eq : {k j : Bytes} {v w : V} → k ≡ j → v ≡ w → ◌≡◌ {A = Bytes × V} (k, v) (j, w)
  pair_eq e q = cc

  some_inj : {v w : V} → some v ≡ some w → v ≡ w
  some_inj h = cc

  lookup_iff :
      (l : List (Bytes × V)) (k : Bytes) (v : V) → IsKeyed l → (lookup k l ≡ some v) ↔ In (k, v) l
  unfolding IsKeyed lookup
  lookup_iff [] k v h = (λ q. cc, λ i. absurd i)
  lookup_iff ((j, w) ∷ l) k v (fresh, h) =
      let (to, from) = lookup_iff l k v h in
      elim (Bool-cases (str_eq j k)) [
        | inl e ↦
            let same : j ≡ k = (str_eq_iff j k).0 e in
            rw e (
              λ q. inl (pair_eq (sym same) (sym (some_inj q))),
              λ i. elim i [
                | inl q ↦ ap some (sym (ap (λ x. x.1) q))
                | inr r ↦ absurd (cc (from r, fresh, same))
              ],
            )
        | inr e ↦ rw e (
          λ q. inr (to q),
          λ i. elim i [
            | inl q ↦ absurd (ground (arith, ap (λ x. x.0) q, str_eq_iff j k))
            | inr r ↦ from r
          ],
        )
      ]

  -- Each key has one entry.
  pub HasOneEach : GoMap V → Type 0
  unfolding IsKeyed
  HasOneEach m = IsKeyed m.entries

  pub delete-HasOneEach : (m : GoMap V) (k : Bytes) → HasOneEach m → HasOneEach (delete m k)
  unfolding HasOneEach delete
  delete-HasOneEach m k h = without-IsKeyed k m.entries h

  pub put-HasOneEach : (m : GoMap V) (k : Bytes) (v : V) → HasOneEach m → HasOneEach (put m k v)
  unfolding HasOneEach put get delete
  put-HasOneEach m k v h = (get-delete_self m k, without-IsKeyed k m.entries h)

  pub get_iff :
      (m : GoMap V) (k : Bytes) (v : V) → HasOneEach m → (get m k ≡ some v) ↔ In (k, v) m.entries
  unfolding HasOneEach get
  get_iff m k v h = lookup_iff m.entries k v h

pub make-HasOneEach : (V : Type 0) → HasOneEach (make {V = V})
unfolding HasOneEach make
make-HasOneEach V = tt

pub ruleset map_laws = (get-make, get-delete, get-put)
