-- ===== src/Api/Calls.antt =====
-- The calls of Api/Turns: what they start from, what they put, and how they are answered.
use netbootd.Prelude.{ℕ, ◌≤◌, ◌≡◌, refl, true, List, [], ◌∷◌, Bytes, arith}
use netbootd.Manifest.Defs.{Manifest}
use netbootd.Store.Defs.{Store, put_manifest}
use netbootd.Api.Defs.{Env, Request, Response, is_authorized, SelfManifest, missing}
use netbootd.Api.SharedError.{
  Progress, received, decoded, accepted, stored, asked, listed, answered, Process, decode, list_all,
}
use netbootd.Api.Turns.{steps_left, Answers, Call, puts, asks, Serves}

module _ (env : Env) (partial : Bytes → Manifest) where
  -- Where the goroutine of a call starts.
  abbrev pub Starts : Call → Progress → Type 0
  Starts (puts r) p = p ≡ received r
  Starts (asks r) p = p ≡ asked r

  -- What a call is answered with: a PUT with one of its answers.
  abbrev pub AnswersCall : Call → Response → Type 0
  AnswersCall (puts r) response = Answers env partial r response
  AnswersCall (asks r) response = Unit

  abbrev pub IsAuthorizedPut : Call → Type 0
  IsAuthorizedPut (puts r) = is_authorized env r ≡ true
  IsAuthorizedPut (asks r) = ⊥

  abbrev pub put_for : Call → Store → Store
  put_for (puts r) s = (put_manifest s (decode env partial r).0).1
  put_for (asks r) s = s

  -- PutManifest for each of the PUTs, for the last one first in the list.
  abbrev pub put_each : (ℕ → Call) → List ℕ → Store → Store
  put_each calls [] s = s
  put_each calls (i ∷ is) s = put_for (calls i) (put_each calls is s)

  pub Starts-Serves : (call : Call) (p : Progress) → Starts call p → Serves env partial call p
  Starts-Serves (puts r) p start = rw start refl
  Starts-Serves (asks r) p start = rw start tt

  pub Starts-steps_left : (call : Call) (p : Progress) → Starts call p → steps_left p ≤ 4
  Starts-steps_left (puts r) p start = rw start (omega arith)
  Starts-steps_left (asks r) p start = rw start (omega arith)

  -- The call whose goroutine is about to put a manifest.
  pub accepted-Serves :
      (call : Call) (s : Store) (m : Manifest)
      → Serves env partial call (accepted m)
      → IsAuthorizedPut call × (put_for call s ≡ (put_manifest s m).1)
  accepted-Serves (puts r) s m (authorized, is_decoded) = (authorized, rw is_decoded refl)
  accepted-Serves (asks r) s m h = absurd h

  pub is_answered :
      (call : Call) (p : Progress)
      → Serves env partial call p
      → steps_left p ≤ 0
      → (response : Response) × (p ≡ answered response) × AnswersCall call response
  is_answered (puts r) (answered response) h none_left = (response, refl, h)
  is_answered (asks r) (answered response) h none_left = (response, refl, tt)
  is_answered call (received r) h none_left = absurd (omega arith)
  is_answered call (decoded r m) h none_left = absurd (omega arith)
  is_answered call (accepted m) h none_left = absurd (omega arith)
  is_answered call stored h none_left = absurd (omega arith)
  is_answered call (asked r) h none_left = absurd (omega arith)
  is_answered call (listed response) h none_left = absurd (omega arith)

  pub list_all-store :
      (x : Process) (i : ℕ) (r : Request) (found : SelfManifest)
      → (list_all env partial x i r found).store ≡ x.store
  list_all-store x i r (missing response) = refl
  list_all-store x i r (SelfManifest.at p) = refl
