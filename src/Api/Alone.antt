-- ===== src/Api/Alone.antt =====
-- The PUT handler of api/server.go with the shared `err`: what its goroutine comes to when it is left
-- alone.
use netbootd.Prelude.{
  ℕ, zero, suc, ◌≡◌, ◌≢◌, refl, true, false, Option, none, some, List, [], ◌∷◌, ◌++◌, Bytes, bytes,
  Bool-cases, inl, inr, arith, Result, ok, err, with_error, ◌>>=◌, Option-cases,
}
use netbootd.Manifest.Defs.{Manifest}
use netbootd.Manifest.Io.{validate, manifest_from_yaml, manifest_from_json}
use netbootd.Store.Defs.{Store, put_manifest, put_indexed}
use netbootd.Store.Put.{IsStorable, put_manifest_of_IsStorable}
use netbootd.Api.Defs.{
  Env, Request, Response, error, reply, forbidden, is_authorized, put_manifest_handler, malformed,
  stored,
}
use netbootd.Api.SharedError.{
  Progress, received, decoded, accepted, answered, Process, set_progress, malformed_text, is_json,
  validated, decode, advance_from, run_schedule,
}

pub set_progress_self : (f : ℕ → Progress) (i : ℕ) (p : Progress) → set_progress f i p i ≡ p
set_progress_self f i p = ground arith

pub set_progress_ne :
    (f : ℕ → Progress) (i j : ℕ) (p : Progress) → i ≢ j → set_progress f i p j ≡ f j
set_progress_ne f i j p ne = ground arith

module _ (env : Env) (partial : Bytes → Manifest) where
  -- A goroutine that has answered does no more.
  run_answered :
      (i : ℕ) (n : List ℕ) (x : Process) (response : Response)
      → x.goroutines i ≡ answered response
      → run_schedule env partial (i ∷ n) x ≡ run_schedule env partial n x
  unfolding run_schedule advance_from
  run_answered i n x response e = rw e refl

  pub run_step :
      (i : ℕ) (n : List ℕ) (x : Process) (p : Progress)
      → x.goroutines i ≡ p
      → run_schedule env partial (i ∷ n) x
        ≡ run_schedule env partial n (advance_from env partial x i p)
  unfolding run_schedule
  run_step i n x p e = rw e refl

  -- Goroutine `i` has given the response, and the store is `r.1`.
  unfoldable pub Gives : ℕ → List ℕ → Process → Response × Store → Type 0
  Gives i schedule x r =
      ((run_schedule env partial schedule x).goroutines i ≡ answered r.0)
      × ((run_schedule env partial schedule x).store ≡ r.1)

  abbrev times : ℕ → ℕ → List ℕ
  times zero i = []
  times (suc n) i = i ∷ times n i

  answered-Gives :
      (i n : ℕ) (x : Process) (response : Response)
      → x.goroutines i ≡ answered response
      → Gives i (times n i) x (response, x.store)
  unfolding Gives run_schedule
  answered-Gives i zero x response e = (e, refl)
  answered-Gives i (suc n) x response e =
      rw (run_answered i (times n i) x response e) (answered-Gives i n x response e)

  step-Gives :
      (i n : ℕ) (x : Process) (p : Progress) (r : Response × Store)
      → x.goroutines i ≡ p
      → Gives i (times n i) (advance_from env partial x i p) r
      → Gives i (times (suc n) i) x r
  unfolding Gives
  step-Gives i n x p r e h = rw (run_step i (times n i) x p e) h

  stored-Gives :
      (i n : ℕ) (x : Process) (e : Option Bytes)
      → x.goroutines i ≡ Progress.stored
      → x.failure ≡ e
      → Gives i (times (suc n) i) x (stored (e, x.store))
  unfolding advance_from
  stored-Gives i n x none at none_yet =
      step-Gives i n x Progress.stored _ at
        (answered-Gives i n _ (reply 201 [] []) (rw none_yet (set_progress_self x.goroutines i _)))
  stored-Gives i n x (some e) at failed = step-Gives i n x Progress.stored _ at (
      answered-Gives i n _ (error (bytes "error storing manifest: " ++ e) 400)
        (rw failed (set_progress_self x.goroutines i _)))

  accepted-Gives :
      (i n : ℕ) (x : Process) (m : Manifest)
      → x.goroutines i ≡ accepted m
      → Gives i (times (suc (suc n)) i) x (stored (put_manifest x.store m))
  unfolding advance_from
  accepted-Gives i n x m at = step-Gives i (suc n) x (accepted m) _ at (
      stored-Gives i n _ (put_manifest x.store m).0
        (set_progress_self x.goroutines i Progress.stored) refl)

  -- What follows the decoding, from what it gave.
  abbrev concluded : Request → Manifest × Option Bytes → Store → Response × Store
  concluded r (m, none) s = stored (put_manifest s m)
  concluded r (m, some e) s = (error (malformed_text r ++ e) 400, s)

  pub malformed-Gives :
      (i n : ℕ) (x : Process) (r : Request) (m : Manifest) (e : Bytes)
      → x.goroutines i ≡ decoded r m
      → x.failure ≡ some e
      → Gives i (times (suc n) i) x (error (malformed_text r ++ e) 400, x.store)
  unfolding advance_from
  malformed-Gives i n x r m e at failed = step-Gives i n x (decoded r m) _ at (
      answered-Gives i n _ (error (malformed_text r ++ e) 400)
        (rw failed (set_progress_self x.goroutines i _)))

  decoded-Gives :
      (i : ℕ) (x : Process) (r : Request) (m : Manifest) (e : Option Bytes)
      → x.goroutines i ≡ decoded r m
      → x.failure ≡ e
      → Gives i (times 3 i) x (concluded r (m, e) x.store)
  unfolding advance_from
  decoded-Gives i x r m none at fine =
      step-Gives i 2 x (decoded r m) _ at
        (accepted-Gives i 0 _ m (rw fine (set_progress_self x.goroutines i (accepted m))))
  decoded-Gives i x r m (some e) at failed = malformed-Gives i 2 x r m e at failed

  -- A decoded manifest is stored if `err` is nil when it is tested.
  pub unrefused-Gives :
      (i : ℕ) (x : Process) (r : Request) (m : Manifest)
      → IsStorable m
      → x.goroutines i ≡ decoded r m
      → x.failure ≡ none
      → Gives i (times 3 i) x (reply 201 [] [], put_indexed x.store m)
  unrefused-Gives i x r m storable at fine =
      rw (put_manifest_of_IsStorable x.store m storable) at (decoded-Gives i x r m none at fine)

  concluded-validated :
      (r : Request) (s : Store) (result : Result Manifest)
      → concluded r (validated (partial r.body) env.root_path result) s
        ≡ malformed
            (malformed_text r)
            (result >>= λ (m : Manifest). with_error (validate m env.root_path) m)
            (λ m. stored (put_manifest s m))
            s
  concluded-validated r s (err e) = refl
  concluded-validated r s (ok m) = elim (Option-cases (validate m env.root_path)) [
    | inl fine ↦ rw fine refl
    | inr (e, failed) ↦ rw failed refl
  ]

  pub concluded-eq :
      (r : Request) (s : Store)
      → is_authorized env r ≡ true
      → concluded r (decode env partial r) s ≡ put_manifest_handler env r s
  unfolding decode put_manifest_handler manifest_from_yaml manifest_from_json
  concluded-eq r s authorized = elim (Bool-cases (is_json r)) [
    | inl json ↦
        rw (authorized, json) (rw json at (concluded-validated r s (env.json.unmarshal r.body)))
    | inr yaml ↦
        rw (authorized, yaml) (rw yaml at (concluded-validated r s (env.yaml.unmarshal r.body)))
  ]

  unauthorized :
      (r : Request) (s : Store)
      → is_authorized env r ≡ false
      → put_manifest_handler env r s ≡ (forbidden, s)
  unfolding put_manifest_handler
  unauthorized r s refused = rw refused refl

  -- A PUT during whose steps no other request takes one is answered, and changes the store, as the
  -- handler with an `err` of its own does.
  pub run_alone :
      (i : ℕ) (x : Process) (r : Request)
      → x.goroutines i ≡ received r
      → let y = run_schedule env partial (i ∷ i ∷ i ∷ i ∷ []) x in
        (y.goroutines i ≡ answered (put_manifest_handler env r x.store).0)
        × (y.store ≡ (put_manifest_handler env r x.store).1)
  unfolding Gives advance_from
  run_alone i x r at = elim (Bool-cases (is_authorized env r)) [
    | inl authorized ↦ rw (← concluded-eq r x.store authorized) (
        step-Gives i 3 x (received r) _ at (
          rw authorized (
            decoded-Gives i _ r (decode env partial r).0 (decode env partial r).1
              (set_progress_self x.goroutines i _) refl)))
    | inr refused ↦ rw (unauthorized r x.store refused) (
        step-Gives i 3 x (received r) _ at
          (rw refused (answered-Gives i 3 _ forbidden (set_progress_self x.goroutines i _))))
  ]
