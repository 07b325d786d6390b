-- ===== src/Api/SharedError.antt =====
-- api/server.go: the handlers of NewServer assign their errors to its result `err`, one variable for
-- all requests. This file has the handlers of PUT and of GET /api/self/manifest as the steps in which
-- their goroutines read and write it.
use netbootd.Prelude.{
  ℕ, Bool, Option, none, some, List, [], ◌∷◌, ◌++◌, Bytes, bytes, str_eq, ◌==◌, not, if◌then◌else◌,
  Result, ok, err,
}
use netbootd.Manifest.Defs.{Manifest}
use netbootd.Manifest.Io.{validate}
use netbootd.Store.Defs.{Store, put_manifest}
use netbootd.GoStd.Strings.{contains}
use netbootd.Api.Defs.{
  Codec, Env, Request, Response, error, reply, forbidden, is_authorized, all_manifests,
  SelfManifest, missing, at, self_manifest_at,
}

-- Where a goroutine is. For a PUT: before the manifest is decoded, and before each of the two tests of
-- `err` and the call between them. For a GET: before the manifests are marshalled, and before the test
-- of `err`, with the response that follows if it is nil. And done.
pub data Progress : Type 0 where
  received : Request → Progress
  decoded : Request → Manifest → Progress
  accepted : Manifest → Progress
  stored : Progress
  asked : Request → Progress
  listed : Response → Progress
  answered : Response → Progress

pub record Process : Type 0 where
  pub store : Store
  pub failure : Option Bytes
  pub goroutines : ℕ → Progress

abbrev pub set_progress : (ℕ → Progress) → ℕ → Progress → ℕ → Progress
set_progress f i p j = if i == j then p else f j

abbrev pub is_json : Request → Bool
is_json r = str_eq r.content_type (bytes "application/json")

abbrev codec_for : Env → Request → Codec
codec_for env r = if is_json r then env.json else env.yaml

abbrev pub malformed_text : Request → Bytes
malformed_text r =
    if is_json r
    then bytes "error loading manifest from json: "
    else bytes "error loading manifest from yaml: "

-- ManifestFromYaml and ManifestFromJson return the manifest with the error; `partial` is what a
-- decoder leaves of a text that it refuses.
abbrev pub validated : Manifest → Bytes → Result Manifest → Manifest × Option Bytes
validated partial root_path (ok m) = (m, validate m root_path)
validated partial root_path (err e) = (partial, some e)

unfoldable pub decode : Env → (Bytes → Manifest) → Request → Manifest × Option Bytes
decode env partial r = validated (partial r.body) env.root_path ((codec_for env r).unmarshal r.body)

-- `if err != nil`
abbrev pub tested_by : ℕ → Option Bytes → Bytes → Progress → Progress
tested_by status none text next = next
tested_by status (some e) text next = answered (error (text ++ e) status)

abbrev pub tested : Option Bytes → Bytes → Progress → Progress
tested = tested_by 400

-- json.Marshal and yaml.Marshal return nil with an error.
abbrev pub with_bytes : Result Bytes → Bytes × Option Bytes
with_bytes (ok b) = (b, none)
with_bytes (err e) = ([], some e)

abbrev pub accepts_json : Request → Bool
accepts_json r = contains r.accept (bytes "application/json")

-- What is marshalled for GET /api/self/manifest, with the type and the error.
unfoldable pub marshalled_all : Env → Request → Store → Bytes × (Bytes × Option Bytes)
marshalled_all env r s =
    if accepts_json r
    then (bytes "applications/json", with_bytes (env.json.marshal_all (all_manifests s)))
    else (bytes "text/yaml", with_bytes (env.yaml.marshal_all (all_manifests s)))

module _ (env : Env) (partial : Bytes → Manifest) where
  abbrev set_decoded : Process → ℕ → Request → Manifest × Option Bytes → Process
  set_decoded x i r (m, e) = record x {
    failure = e;
    goroutines = set_progress x.goroutines i (decoded r m);
  }

  abbrev set_stored : Process → ℕ → Option Bytes × Store → Process
  set_stored x i (e, s) = record {
    store = s;
    failure = e;
    goroutines = set_progress x.goroutines i stored;
  }

  abbrev set_listed : Process → ℕ → Bytes × (Bytes × Option Bytes) → Process
  set_listed x i (type, (b, e)) = record x {
    failure = e;
    goroutines = set_progress x.goroutines i (listed (reply 200 type b));
  }

  abbrev pub list_all : Process → ℕ → Request → SelfManifest → Process
  list_all x i r (missing response) = record x {
    goroutines = set_progress x.goroutines i (answered response);
  }
  list_all x i r (at p) = set_listed x i (marshalled_all env r x.store)

  -- The next step of goroutine `i`, which is at `p`.
  unfoldable pub advance_from : Process → ℕ → Progress → Process
  advance_from x i (received r) =
      if not (is_authorized env r)
      then record x { goroutines = set_progress x.goroutines i (answered forbidden) }
      else set_decoded x i r (decode env partial r)
  advance_from x i (decoded r m) = record x {
    goroutines = set_progress x.goroutines i (tested x.failure (malformed_text r) (accepted m));
  }
  advance_from x i (accepted m) = set_stored x i (put_manifest x.store m)
  advance_from x i stored = record x {
    goroutines =
        set_progress x.goroutines i
          (tested x.failure (bytes "error storing manifest: ") (answered (reply 201 [] [])));
  }
  advance_from x i (asked r) = list_all x i r (self_manifest_at env r x.store)
  advance_from x i (listed response) = record x {
    goroutines =
        set_progress x.goroutines i
          (tested_by 500 x.failure (bytes "error marshalling manifest: ") (answered response));
  }
  advance_from x i (answered response) = x

  -- The steps of a schedule, each of the goroutine that it names.
  unfoldable pub run_schedule : List ℕ → Process → Process
  run_schedule [] x = x
  run_schedule (i ∷ schedule) x = run_schedule schedule (advance_from x i (x.goroutines i))
