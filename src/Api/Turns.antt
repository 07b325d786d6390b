-- ===== src/Api/Turns.antt =====
-- The PUT handler of api/server.go with the shared `err`: where a goroutine can be, and how many steps
-- it has left, whatever the others do.
use netbootd.Prelude.{
  ℕ, ◌-◌, ◌≤◌, ◌≡◌, ◌≢◌, refl, ◌⊎◌, inl, inr, true, false, Option, none, some, [], ◌++◌, Bytes,
  Bool-cases, arith,
}
use netbootd.Manifest.Defs.{Manifest}
use netbootd.Api.Defs.{
  Env, Request, Response, error, reply, forbidden, is_authorized, SelfManifest, missing,
  self_manifest_at,
}
use netbootd.Api.SharedError.{
  Progress, received, decoded, accepted, stored, asked, listed, answered, Process, set_progress,
  malformed_text, tested, tested_by, decode, list_all, advance_from,
}
use netbootd.Api.Alone.{set_progress_self, set_progress_ne}

-- How many steps a goroutine has left at most.
abbrev pub steps_left : Progress → ℕ
steps_left (received r) = 4
steps_left (decoded r m) = 3
steps_left (accepted m) = 2
steps_left stored = 1
steps_left (asked r) = 2
steps_left (listed response) = 1
steps_left (answered response) = 0

-- A PUT, or a GET of /api/self/manifest.
pub data Call : Type 0 where
  puts : Request → Call
  asks : Request → Call

-- Where the goroutine that serves a GET can be.
abbrev Lists : Progress → Type 0
Lists (asked r) = Unit
Lists (listed response) = Unit
Lists (answered response) = Unit
Lists _ = ⊥

module _ (env : Env) (partial : Bytes → Manifest) where
  -- What a PUT can be answered with.
  abbrev pub Answers : Request → Response → Type 0
  Answers r response =
      ((is_authorized env r ≡ false) × (response ≡ forbidden))
      ⊎ ((is_authorized env r ≡ true)
          × ((response ≡ reply 201 [] []) ⊎ ((e : Bytes) × (response ≡ error e 400))))

  -- Where the goroutine that serves the request can be.
  abbrev pub Began : Request → Progress → Type 0
  Began r (received q) = q ≡ r
  Began r (decoded q m) = (is_authorized env r ≡ true) × (m ≡ (decode env partial r).0)
  Began r (accepted m) = (is_authorized env r ≡ true) × (m ≡ (decode env partial r).0)
  Began r stored = is_authorized env r ≡ true
  Began r (asked q) = ⊥
  Began r (listed response) = ⊥
  Began r (answered response) = Answers r response

  tested-Began :
      (r : Request) (e : Option Bytes) (text : Bytes) (next : Progress)
      → is_authorized env r ≡ true
      → Began r next
      → Began r (tested e text next)
  tested-Began r none text next authorized h = h
  tested-Began r (some e) text next authorized h = inr (authorized, inr (text ++ e, refl))

  tested-steps_left :
      (e : Option Bytes) (text : Bytes) (next : Progress)
      → steps_left (tested e text next) ≤ steps_left next
  tested-steps_left none text next = omega arith
  tested-steps_left (some e) text next = omega arith

  -- The progress of a goroutine, after its step from `p`.
  unfoldable pub Advanced : Request → Progress → Progress → Type 0
  Advanced r p p' = Began r p' × (steps_left p' ≤ steps_left p - 1)

  set_progress-Advanced :
      (f : ℕ → Progress) (i : ℕ) (r : Request) (p p' : Progress)
      → Advanced r p p'
      → Advanced r p (set_progress f i p' i)
  set_progress-Advanced f i r p p' h = rw (set_progress_self f i p') h

  received-Advanced :
      (x : Process) (i : ℕ) (r : Request)
      → Advanced r (received r) ((advance_from env partial x i (received r)).goroutines i)
  unfolding advance_from Advanced
  received-Advanced x i r = elim (Bool-cases (is_authorized env r)) [
    | inl authorized ↦ rw authorized (
        set_progress-Advanced x.goroutines i r (received r) (decoded r (decode env partial r).0)
          ((authorized, refl), omega arith))
    | inr refused ↦ rw refused (
        set_progress-Advanced x.goroutines i r (received r) (answered forbidden)
          (inl (refused, refl), omega arith))
  ]

  advance_from-Advanced :
      (x : Process) (i : ℕ) (r : Request) (p : Progress)
      → x.goroutines i ≡ p
      → Began r p
      → Advanced r p ((advance_from env partial x i p).goroutines i)
  unfolding advance_from Advanced
  advance_from-Advanced x i r (received q) at same = rw same (received-Advanced x i r)
  advance_from-Advanced x i r (decoded q m) at (authorized, is) =
      set_progress-Advanced x.goroutines i r (decoded q m) _ (
        tested-Began r x.failure (malformed_text q) (accepted m) authorized (authorized, is),
        tested-steps_left x.failure (malformed_text q) (accepted m),
      )
  advance_from-Advanced x i r (accepted m) at (authorized, is) =
      set_progress-Advanced x.goroutines i r (accepted m) stored (authorized, omega arith)
  advance_from-Advanced x i r stored at authorized =
      set_progress-Advanced x.goroutines i r stored _ (
        tested-Began r x.failure _ (answered (reply 201 [] [])) authorized
            (inr (authorized, inl refl)),
        tested-steps_left x.failure _ (answered (reply 201 [] [])),
      )
  advance_from-Advanced x i r (asked q) at h = absurd h
  advance_from-Advanced x i r (listed response) at h = absurd h
  advance_from-Advanced x i r (answered response) at h = rw at (h, omega arith)

  list_all-other :
      (x : Process) (i j : ℕ) (r : Request) (found : SelfManifest)
      → i ≢ j
      → (list_all env partial x i r found).goroutines j ≡ x.goroutines j
  list_all-other x i j r (missing response) others = set_progress_ne x.goroutines i j _ others
  list_all-other x i j r (SelfManifest.at p) others = set_progress_ne x.goroutines i j _ others

  pub advance_from-other :
      (x : Process) (i j : ℕ) (p : Progress)
      → i ≢ j
      → (advance_from env partial x i p).goroutines j ≡ x.goroutines j
  unfolding advance_from
  advance_from-other x i j (received r) others = elim (Bool-cases (is_authorized env r)) [
    | inl authorized ↦ rw authorized (set_progress_ne x.goroutines i j _ others)
    | inr refused ↦ rw refused (set_progress_ne x.goroutines i j _ others)
  ]
  advance_from-other x i j (decoded r m) others = set_progress_ne x.goroutines i j _ others
  advance_from-other x i j (accepted m) others = set_progress_ne x.goroutines i j _ others
  advance_from-other x i j stored others = set_progress_ne x.goroutines i j _ others
  advance_from-other x i j (asked r) others =
      list_all-other x i j r (self_manifest_at env r x.store) others
  advance_from-other x i j (listed response) others = set_progress_ne x.goroutines i j _ others
  advance_from-other x i j (answered response) others = refl

  -- Where the goroutine that serves the call can be.
  abbrev pub Serves : Call → Progress → Type 0
  Serves (puts r) p = Began r p
  Serves (asks r) p = Lists p

  tested_by-Lists :
      (status : ℕ) (e : Option Bytes) (text : Bytes) (response : Response)
      → Lists (tested_by status e text (answered response))
        × (steps_left (tested_by status e text (answered response)) ≤ 0)
  tested_by-Lists status none text response = (tt, omega arith)
  tested_by-Lists status (some e) text response = (tt, omega arith)

  list_all-Lists :
      (x : Process) (i : ℕ) (r : Request) (found : SelfManifest)
      → Lists ((list_all env partial x i r found).goroutines i)
        × (steps_left ((list_all env partial x i r found).goroutines i) ≤ 1)
  list_all-Lists x i r (missing response) =
      rw (set_progress_self x.goroutines i (answered response)) (tt, omega arith)
  list_all-Lists x i r (SelfManifest.at p) =
      rw (set_progress_self x.goroutines i (listed _)) (tt, omega arith)

  advance_from-Lists :
      (x : Process) (i : ℕ) (p : Progress)
      → x.goroutines i ≡ p
      → Lists p
      → Lists ((advance_from env partial x i p).goroutines i)
        × (steps_left ((advance_from env partial x i p).goroutines i) ≤ steps_left p - 1)
  unfolding advance_from
  advance_from-Lists x i (asked r) at h = list_all-Lists x i r (self_manifest_at env r x.store)
  advance_from-Lists x i (listed response) at h =
      rw (set_progress_self x.goroutines i _) (tested_by-Lists 500 x.failure _ response)
  advance_from-Lists x i (answered response) at h = rw at (tt, omega arith)
  advance_from-Lists x i (received r) at h = absurd h
  advance_from-Lists x i (decoded r m) at h = absurd h
  advance_from-Lists x i (accepted m) at h = absurd h
  advance_from-Lists x i stored at h = absurd h

  pub advance_from-Serves :
      (x : Process) (i : ℕ) (call : Call)
      → Serves call (x.goroutines i)
      → Serves call ((advance_from env partial x i (x.goroutines i)).goroutines i)
        × (steps_left ((advance_from env partial x i (x.goroutines i)).goroutines i)
            ≤ steps_left (x.goroutines i) - 1)
  unfolding Advanced
  advance_from-Serves x i (puts r) h = advance_from-Advanced x i r (x.goroutines i) refl h
  advance_from-Serves x i (asks r) h = advance_from-Lists x i (x.goroutines i) refl h
