-- ===== src/Api/ListRace.antt =====
-- GET /api/self/manifest of api/server.go with the shared `err`: alone, and against a PUT.
use netbootd.Prelude.{
  Result, ok, err, ap, inl, inr, Bool-cases, ℕ, ◌≡◌, ◌≢◌, refl, ◌∙◌, sym, true, Option, none, some,
  List, [], ◌∷◌, ◌++◌, Bytes, bytes,
}
use netbootd.Manifest.Defs.{Manifest}
use netbootd.Store.Defs.{Store, Ptr, put_indexed}
use netbootd.Store.Put.{IsStorable}
use netbootd.Api.Defs.{
  Env, Request, Response, error, reply, is_authorized, put_manifest_handler, SelfManifest,
  self_manifest, self_manifest_at, self_reply, encoded, marshalled,
}
use netbootd.Api.SharedError.{
  received, asked, listed, decoded, answered, Process, set_progress, malformed_text, decode,
  with_bytes, accepts_json, marshalled_all, advance_from, run_schedule,
}
use netbootd.Api.Alone.{
  set_progress_self, set_progress_ne, Gives, run_step, unrefused-Gives, concluded-eq,
}
use netbootd.Api.ErrorRace.{after_decoding, decoding}

module _ (env : Env) (partial : Bytes → Manifest) where
  -- What the GET answers, from what is marshalled.
  abbrev listed_reply : Bytes × (Bytes × Option Bytes) → Response
  listed_reply (type, (b, none)) = reply 200 type b
  listed_reply (type, (b, some e)) = error (bytes "error marshalling manifest: " ++ e) 500

  marshalled-with_bytes :
      (type : Bytes) (result : Result Bytes)
      → marshalled (bytes "error marshalling manifest: ") type result
        ≡ listed_reply (type, with_bytes result)
  marshalled-with_bytes type (ok b) = refl
  marshalled-with_bytes type (err e) = refl

  self_manifest-at :
      (r : Request) (s : Store) (p : Ptr)
      → self_manifest_at env r s ≡ SelfManifest.at p
      → self_manifest env r s ≡ (listed_reply (marshalled_all env r s), s)
  unfolding self_manifest self_reply encoded marshalled_all
  self_manifest-at r s p found = elim (Bool-cases (accepts_json r)) [
    | inl json ↦ rw (found, json, marshalled-with_bytes) refl
    | inr yaml ↦ rw (found, yaml, marshalled-with_bytes) refl
  ]

  after_listing : Process → ℕ → Bytes × (Bytes × Option Bytes) → Process
  after_listing x j (type, (b, e)) = record x {
    failure = e;
    goroutines = set_progress x.goroutines j (listed (reply 200 type b));
  }

  listing :
      (j : ℕ) (n : List ℕ) (x : Process) (r : Request) (p : Ptr)
      (all : Bytes × (Bytes × Option Bytes))
      → x.goroutines j ≡ asked r
      → self_manifest_at env r x.store ≡ SelfManifest.at p
      → marshalled_all env r x.store ≡ all
      → run_schedule env partial (j ∷ n) x ≡ run_schedule env partial n (after_listing x j all)
  unfolding advance_from after_listing
  listing j n x r p all at found is = run_step env partial j n x (asked r) at ∙ rw (found, is) refl

  -- The last step of a GET.
  conclude :
      (j : ℕ) (x : Process) (type b : Bytes) (e : Option Bytes)
      → x.goroutines j ≡ listed (reply 200 type b)
      → x.failure ≡ e
      → (run_schedule env partial (j ∷ []) x).goroutines j ≡ answered (listed_reply (type, (b, e)))
  unfolding advance_from run_schedule
  conclude j x type b none at fine = rw (at, fine) (set_progress_self x.goroutines j _)
  conclude j x type b (some e) at failed = rw (at, failed) (set_progress_self x.goroutines j _)

  -- A GET during whose steps no other request takes one is answered as the handler with an `err` of
  -- its own does.
  pub self_manifest_alone :
      (j : ℕ) (x : Process) (r : Request) (p : Ptr)
      → x.goroutines j ≡ asked r
      → self_manifest_at env r x.store ≡ SelfManifest.at p
      → (run_schedule env partial (j ∷ j ∷ []) x).goroutines j
        ≡ answered (self_manifest env r x.store).0
  unfolding after_listing
  self_manifest_alone j x r p at found =
      let (type, (b, e)) = marshalled_all env r x.store in
      rw (listing j (j ∷ []) x r p _ at found refl, self_manifest-at r x.store p found)
        (conclude j _ type b e (set_progress_self x.goroutines j _) refl)

  module _ (i j : ℕ) (x : Process) (r r' : Request) (m : Manifest) (e type b : Bytes) (p : Ptr)
      (others : i ≢ j) (at : x.goroutines i ≡ received r) (at' : x.goroutines j ≡ asked r')
      (authorized : is_authorized env r ≡ true) (invalid : decode env partial r ≡ (m, some e))
      (found : self_manifest_at env r' x.store ≡ SelfManifest.at p)
      (marshals : marshalled_all env r' x.store ≡ (type, (b, none))) where
    -- While a PUT and a GET of /api/self/manifest are served, of which the PUT is refused when it is
    -- alone, because its body does not decode to a manifest that validates, and the GET, which needs no
    -- header, finds its manifest and marshals without an error: some interleaving answers 201 to the
    -- PUT and stores what its body was decoded to, if that has an address and an ID, and another
    -- answers 500 to the GET, with the error of the PUT.
    pub self_manifest_error_race :
        IsStorable m
        → (put_manifest_handler env r x.store ≡ (error (malformed_text r ++ e) 400, x.store))
          × ((self_manifest env r' x.store).0 ≡ reply 200 type b)
          × ((let y = run_schedule env partial (i ∷ j ∷ i ∷ i ∷ i ∷ []) x in
                (y.goroutines i ≡ answered (reply 201 [] [])) × (y.store ≡ put_indexed x.store m))
              × ((run_schedule env partial (j ∷ i ∷ j ∷ []) x).goroutines j
                  ≡ answered (error (bytes "error marshalling manifest: " ++ e) 500)))
    unfolding Gives after_decoding after_listing
    self_manifest_error_race storable = (
      sym (concluded-eq env partial r x.store authorized) ∙ rw invalid refl,
      ap (λ c. c.0) (self_manifest-at r' x.store p found) ∙ rw marshals refl,
      (
        rw
            (
              decoding env partial i _ x r m (some e) at authorized invalid,
              listing j _ (after_decoding env partial x i r m (some e)) r' p (type, (b, none))
                  (set_progress_ne x.goroutines i j _ others ∙ at') found marshals,
            )
            (unrefused-Gives env partial i _ r m storable
              (set_progress_ne (set_progress x.goroutines i (decoded r m)) j i _
                  (λ q. others (sym q))
                ∙ set_progress_self x.goroutines i (decoded r m))
              refl),
        rw
            (
              listing j _ x r' p (type, (b, none)) at' found marshals,
              decoding env partial i _ (after_listing x j (type, (b, none))) r m (some e)
                  (set_progress_ne x.goroutines j i _ (λ q. others (sym q)) ∙ at) authorized
                  invalid,
            )
            (conclude j _ type b (some e)
              (set_progress_ne (set_progress x.goroutines j (listed (reply 200 type b))) i j _
                  others
                ∙ set_progress_self x.goroutines j _)
              refl),
      ),
    )
