-- ===== src/Api/Interleaved.antt =====
-- The handlers of api/server.go with the shared `err`, for any number of calls whose steps
-- interleave in any way.
use netbootd.Prelude.{
  sym, ap, ℕ, ◌+◌, ◌-◌, ◌≤◌, ◌≡◌, ◌≢◌, refl, ◌∙◌, ◌⊎◌, inl, inr, true, false, List, [], ◌∷◌, Bytes,
  ◌==◌, if◌then◌else◌, Bool-cases, In, All, arith,
}
use netbootd.Manifest.Defs.{Manifest}
use netbootd.Store.Defs.{Store}
use netbootd.Api.Defs.{Env, Response, is_authorized, self_manifest_at}
use netbootd.Api.SharedError.{
  Progress, received, decoded, accepted, stored, asked, listed, answered, Process, advance_from,
  run_schedule,
}
use netbootd.Api.Alone.{set_progress_self}
use netbootd.Api.Turns.{steps_left, Call, Serves, advance_from-Serves, advance_from-other}
use netbootd.Api.Calls.{
  Starts, AnswersCall, IsAuthorizedPut, put_for, put_each, Starts-Serves, Starts-steps_left,
  accepted-Serves, is_answered, list_all-store,
}

==-cases : (i j : ℕ) → (((i == j) ≡ true) × (i ≡ j)) ⊎ (((i == j) ≡ false) × (i ≢ j))
==-cases i j = ground arith

fewer_left : (a b c d t : ℕ) → a ≤ b - t → b ≤ c - d → a ≤ c - (d + t)
fewer_left a b c d t = omega arith

none_left : (a b t : ℕ) → b ≤ 4 → a ≤ b - t → 4 ≤ t → a ≤ 0
none_left a b t = omega arith

-- How often the schedule names the goroutine.
abbrev pub turns : ℕ → List ℕ → ℕ
turns i [] = 0
turns i (j ∷ schedule) = (if j == i then 1 else 0) + turns i schedule

abbrev pub AreDistinct : List ℕ → Type 0
AreDistinct [] = Unit
AreDistinct (i ∷ is) = ¬ In i is × AreDistinct is

module _ (env : Env) (partial : Bytes → Manifest) where
  module _ (calls : ℕ → Call) (start : Store) where
    -- The store has what the calls `is` have put, one after the other.
    record HasPut (x : Process) (is : List ℕ) : Type 0 where
      began : (i : ℕ) → Serves env partial (calls i) (x.goroutines i)
      store_is : x.store ≡ put_each env partial calls is start
      distinct : AreDistinct is
      authorized : All (λ i. IsAuthorizedPut env partial (calls i)) is
      done : (i : ℕ) → In i is → steps_left (x.goroutines i) ≤ 1

    advance_from-Serves_all :
        (x : Process) (i : ℕ)
        → ((j : ℕ) → Serves env partial (calls j) (x.goroutines j))
        → (j : ℕ)
        → Serves env partial
            (calls j)
            ((advance_from env partial x i (x.goroutines i)).goroutines j)
          × (steps_left ((advance_from env partial x i (x.goroutines i)).goroutines j)
              ≤ steps_left (x.goroutines j) - (if i == j then 1 else 0))
    advance_from-Serves_all x i began j = elim (==-cases i j) [
      | inl (test, same) ↦ rw (test, same) (advance_from-Serves env partial x j (calls j) (began j))
      | inr (test, others) ↦
          rw (test, advance_from-other env partial x i j (x.goroutines i) others)
            (began j, omega arith)
    ]

    module _ (x : Process) (i : ℕ) (is : List ℕ) (inv : HasPut x is) where
      next : Process
      next = advance_from env partial x i (x.goroutines i)

      next-done : (j : ℕ) → In j is → steps_left (next.goroutines j) ≤ 1
      unfolding next
      next-done j put =
          let (_, fewer) = advance_from-Serves_all x i inv.began j in
          let before = inv.done j put in omega arith

      -- The step does not touch the store.
      unmoved : next.store ≡ x.store → HasPut next is
      unfolding next
      unmoved same = record {
        began = λ j. (advance_from-Serves_all x i inv.began j).0;
        store_is = same ∙ inv.store_is;
        distinct = inv.distinct;
        authorized = inv.authorized;
        done = next-done;
      }

      -- The step is the call of PutManifest.
      entered : (m : Manifest) → x.goroutines i ≡ accepted m → HasPut next (i ∷ is)
      unfolding next advance_from
      entered m at =
          let (authorized, puts_it) =
            accepted-Serves env partial (calls i) x.store m (rw at at (inv.began i)) in
          record {
            began = λ j. (advance_from-Serves_all x i inv.began j).0;
            store_is = rw at (sym puts_it ∙ ap (put_for env partial (calls i)) inv.store_is);
            distinct = ((λ put. let few = rw at at (inv.done i put) in omega arith), inv.distinct);
            authorized = (authorized, inv.authorized);
            done = λ j put. elim put [
              | inl this ↦ rw (this, at, set_progress_self x.goroutines i stored) (omega arith)
              | inr earlier ↦ next-done j earlier
            ];
          }

      next-HasPut : (p : Progress) → x.goroutines i ≡ p → (js : List ℕ) × HasPut next js
      unfolding next advance_from
      next-HasPut (received r) at = (
        is,
        unmoved (elim (Bool-cases (is_authorized env r)) [
          | inl authorized ↦ rw (at, authorized) refl
          | inr refused ↦ rw (at, refused) refl
        ]),
      )
      next-HasPut (decoded r m) at = (is, unmoved (rw at refl))
      next-HasPut (accepted m) at = (i ∷ is, entered m at)
      next-HasPut stored at = (is, unmoved (rw at refl))
      next-HasPut (asked r) at =
          (is, unmoved (rw at (list_all-store env partial x i r (self_manifest_at env r x.store))))
      next-HasPut (listed response) at = (is, unmoved (rw at refl))
      next-HasPut (answered response) at = (is, unmoved (rw at refl))

    run_schedule-HasPut :
        (schedule : List ℕ) (x : Process) (is : List ℕ)
        → HasPut x is
        → (js : List ℕ) × HasPut (run_schedule env partial schedule x) js
    unfolding run_schedule next
    run_schedule-HasPut [] x is inv = (is, inv)
    run_schedule-HasPut (i ∷ schedule) x is inv =
        let (js, later) = next-HasPut x i is inv (x.goroutines i) refl in
        run_schedule-HasPut schedule _ js later

    -- Each turn of a goroutine brings it nearer to its answer.
    run_schedule-steps_left :
        (schedule : List ℕ) (x : Process) (i : ℕ)
        → ((j : ℕ) → Serves env partial (calls j) (x.goroutines j))
        → steps_left ((run_schedule env partial schedule x).goroutines i)
          ≤ steps_left (x.goroutines i) - turns i schedule
    unfolding run_schedule
    run_schedule-steps_left [] x i began = omega arith
    run_schedule-steps_left (j ∷ schedule) x i began =
        fewer_left _ _ _ _ (turns i schedule)
          (run_schedule-steps_left schedule _ i (λ k. (advance_from-Serves_all x j began k).0))
          (advance_from-Serves_all x j began i).1

  -- While any number of PUTs and of GETs of /api/self/manifest are served, however their steps
  -- interleave: a goroutine that has taken four steps has answered, a PUT with 403 exactly when it
  -- is without the configured header, and otherwise with 201 or 400; and the store is what
  -- PutManifest makes of it, called one after the other for what the bodies of different PUTs with
  -- that header decode to, if nothing else changes it.
  pub calls_answered :
      (calls : ℕ → Call) (schedule : List ℕ) (x : Process)
      → ((i : ℕ) → Starts env partial (calls i) (x.goroutines i))
      → let y = run_schedule env partial schedule x in
        ((i : ℕ)
          → 4 ≤ turns i schedule
          → (response : Response) × (y.goroutines i ≡ answered response)
            × AnswersCall env partial (calls i) response)
        × ((is : List ℕ) × AreDistinct is
            × All (λ i. IsAuthorizedPut env partial (calls i)) is
            × (y.store ≡ put_each env partial calls is x.store))
  calls_answered calls schedule x starts =
      let begun : (i : ℕ) → Serves env partial (calls i) (x.goroutines i) =
        λ i. Starts-Serves env partial (calls i) (x.goroutines i) (starts i) in
      let (is, inv) = run_schedule-HasPut calls x.store schedule x [] (record {
        began = begun;
        store_is = refl;
        distinct = tt;
        authorized = tt;
        done = λ i put. absurd put;
      }) in
      (
        λ i enough. is_answered env partial (calls i) _ (inv.began i) (
            none_left _ _ _ (Starts-steps_left env partial (calls i) (x.goroutines i) (starts i))
              (run_schedule-steps_left calls x.store schedule x i begun) enough),
        (is, inv.distinct, inv.authorized, inv.store_is),
      )
