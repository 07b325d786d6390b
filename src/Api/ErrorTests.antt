-- ===== src/Api/ErrorTests.antt =====
-- A PUT whose body has a mount with a relative directory, with another PUT or a GET that shares its
-- error.
use netbootd.Prelude.{
  get, put, make, ℕ, ◌≤◌, ◌≡◌, refl, inl, inr, Bool-cases, List, All, true, false, none, some, [],
  ◌∷◌, ◌++◌, Bytes, bytes, str_eq, ok, arith, if◌then◌else◌, ◌==◌,
}
use netbootd.GoStd.Filepath.{is_abs}
use netbootd.Manifest.Defs.{Mount, Manifest}
use netbootd.Manifest.Io.{validate}
use netbootd.GoStd.Strings.{contains}
use netbootd.GoStd.Ip.{to16}
use netbootd.Store.Defs.{put_indexed, new_store, find_by_ip}
use netbootd.Api.Defs.{
  Env, Request, Response, error, reply, put_manifest_handler, at, self_manifest, self_manifest_at,
  self_address, query_first,
}
use netbootd.Api.Sample.{machine, codec, env, request, empty}
use netbootd.Api.SharedError.{
  Process, received, asked, answered, malformed_text, decode, marshalled_all, run_schedule,
}
use netbootd.Api.Alone.{run_alone}
use netbootd.Api.Turns.{Call, puts, asks}
use netbootd.Api.Calls.{AnswersCall, IsAuthorizedPut, put_each}
use netbootd.Api.Interleaved.{turns, AreDistinct, calls_answered}
use netbootd.Api.ListRace.{self_manifest_error_race}
use netbootd.Api.ErrorRace.{put_manifest_error_race}

abbrev relative : Mount
relative = record {
  path = bytes "/";
  path_is_prefix = true;
  proxy = [];
  append_suffix = false;
  content = [];
  local_dir = bytes "srv";
}

abbrev invalid : Manifest
invalid = record machine { mounts = relative ∷ [] }

abbrev decoding : Env
decoding = record env {
  yaml = record codec {
    unmarshal = λ b. if str_eq b (bytes "bad") then ok invalid else ok machine;
  };
}

abbrev bad : Request
bad = record (request "secret") { body = bytes "bad" }

abbrev good : Request
good = request "secret"

abbrev partial : Bytes → Manifest
partial b = machine

abbrev server : Process
server = record {
  store = empty;
  failure = none;
  goroutines = λ i. if i == 0 then received bad else received good;
}

abbrev complaint : Bytes
complaint = bytes "localDir needs to be absolute path when rootPath is not set"

bad_decoded : decode decoding partial bad ≡ (invalid, some complaint)
unfolding decode str_eq validate is_abs
bad_decoded = refl

good_decoded : decode decoding partial good ≡ (machine, none)
unfolding decode str_eq validate
good_decoded = refl

put_manifest_error_race_example :
    (put_manifest_handler decoding bad empty ≡ (error (malformed_text bad ++ complaint) 400, empty))
    × ((let y = run_schedule decoding partial (0 ∷ 1 ∷ 0 ∷ 0 ∷ 0 ∷ []) server in
          (y.goroutines 0 ≡ answered (reply 201 [] [])) × (y.store ≡ put_indexed empty invalid))
        × (let z = run_schedule decoding partial (1 ∷ 0 ∷ 1 ∷ []) server in
            (z.goroutines 1 ≡ answered (error (malformed_text good ++ complaint) 400))
            × (z.store ≡ empty)))
unfolding str_eq
put_manifest_error_race_example =
    put_manifest_error_race decoding partial 0 1 server bad good invalid machine complaint
      (omega arith) refl refl refl refl bad_decoded good_decoded (cc, cc)

run_alone_example :
    let y = run_schedule decoding partial (1 ∷ 1 ∷ 1 ∷ 1 ∷ []) server in
    (y.goroutines 1 ≡ answered (put_manifest_handler decoding good empty).0)
    × (y.store ≡ (put_manifest_handler decoding good empty).1)
run_alone_example = run_alone decoding partial 1 server good refl

abbrev asking : Process
asking = record {
  store = put_indexed empty machine;
  failure = none;
  goroutines = λ i. if i == 0 then received bad else asked (request "");
}

found : self_manifest_at decoding (request "") asking.store ≡ at 0
unfolding self_manifest_at self_address query_first find_by_ip put_indexed new_store get put to16
    str_eq make
found = refl

marshals :
    marshalled_all decoding (request "") asking.store ≡ (bytes "text/yaml", (bytes "x", none))
unfolding marshalled_all contains str_eq
marshals = refl

self_manifest_error_race_example :
    (put_manifest_handler decoding bad asking.store
      ≡ (error (malformed_text bad ++ complaint) 400, asking.store))
    × ((self_manifest decoding (request "") asking.store).0
        ≡ reply 200 (bytes "text/yaml") (bytes "x"))
    × ((let y = run_schedule decoding partial (0 ∷ 1 ∷ 0 ∷ 0 ∷ 0 ∷ []) asking in
          (y.goroutines 0 ≡ answered (reply 201 [] []))
          × (y.store ≡ put_indexed asking.store invalid))
        × ((run_schedule decoding partial (1 ∷ 0 ∷ 1 ∷ []) asking).goroutines 1
            ≡ answered (error (bytes "error marshalling manifest: " ++ complaint) 500)))
unfolding str_eq
self_manifest_error_race_example =
    self_manifest_error_race decoding partial 0 1 asking bad (request "") invalid complaint
      (bytes "text/yaml") (bytes "x") 0 (omega arith) refl refl refl bad_decoded found marshals
      (cc, cc)

abbrev calls : ℕ → Call
calls i = if i == 0 then puts bad else asks (request "")

calls_answered_example :
    let y = run_schedule decoding partial (0 ∷ 1 ∷ 0 ∷ 1 ∷ 0 ∷ 0 ∷ []) asking in
    ((i : ℕ)
      → 4 ≤ turns i (0 ∷ 1 ∷ 0 ∷ 1 ∷ 0 ∷ 0 ∷ [])
      → (response : Response) × (y.goroutines i ≡ answered response)
        × AnswersCall decoding partial (calls i) response)
    × ((is : List ℕ) × AreDistinct is
        × All (λ i. IsAuthorizedPut decoding partial (calls i)) is
        × (y.store ≡ put_each decoding partial calls is asking.store))
calls_answered_example =
    calls_answered decoding partial calls (0 ∷ 1 ∷ 0 ∷ 1 ∷ 0 ∷ 0 ∷ []) asking
      (λ i. elim (Bool-cases (i == 0)) [ inl z ↦ rw z refl | inr s ↦ rw s refl ])
