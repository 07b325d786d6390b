-- ===== src/Api/ErrorRace.antt =====
-- The PUT handler of api/server.go with the shared `err`, against another request.
use netbootd.Prelude.{
  ℕ, ◌≡◌, ◌≢◌, refl, ◌∙◌, sym, true, Option, none, some, List, [], ◌∷◌, ◌++◌, Bytes,
}
use netbootd.Manifest.Defs.{Manifest}
use netbootd.Store.Defs.{put_indexed}
use netbootd.Store.Put.{IsStorable}
use netbootd.Api.Defs.{Env, Request, error, reply, is_authorized, put_manifest_handler}
use netbootd.Api.SharedError.{
  received, decoded, answered, Process, set_progress, malformed_text, decode, advance_from,
  run_schedule,
}
use netbootd.Api.Alone.{
  set_progress_self, set_progress_ne, Gives, run_step, unrefused-Gives, malformed-Gives,
  concluded-eq,
}

module _ (env : Env) (partial : Bytes → Manifest) where
  -- What a decoding leaves.
  unfoldable pub after_decoding : Process → ℕ → Request → Manifest → Option Bytes → Process
  after_decoding x i r m e = record x {
    failure = e;
    goroutines = set_progress x.goroutines i (decoded r m);
  }

  pub decoding :
      (i : ℕ) (n : List ℕ) (x : Process) (r : Request) (m : Manifest) (e : Option Bytes)
      → x.goroutines i ≡ received r
      → is_authorized env r ≡ true
      → decode env partial r ≡ (m, e)
      → run_schedule env partial (i ∷ n) x ≡ run_schedule env partial n (after_decoding x i r m e)
  unfolding advance_from after_decoding
  decoding i n x r m e at authorized is =
      run_step env partial i n x (received r) at ∙ rw (authorized, is) refl

  both_decoded :
      (i j : ℕ) (n : List ℕ) (x : Process) (r r' : Request) (m m' : Manifest) (e e' : Option Bytes)
      → i ≢ j
      → x.goroutines i ≡ received r
      → x.goroutines j ≡ received r'
      → is_authorized env r ≡ true
      → is_authorized env r' ≡ true
      → decode env partial r ≡ (m, e)
      → decode env partial r' ≡ (m', e')
      → run_schedule env partial (i ∷ j ∷ n) x
        ≡ run_schedule env partial n (after_decoding (after_decoding x i r m e) j r' m' e')
  unfolding after_decoding
  both_decoded i j n x r r' m m' e e' others at at' authorized authorized' is is' =
      decoding i (j ∷ n) x r m e at authorized is
      ∙ decoding j n (after_decoding x i r m e) r' m' e'
          (set_progress_ne x.goroutines i j _ others ∙ at') authorized' is'

  -- The goroutine that decoded first still has its own manifest.
  still_decoded :
      (i j : ℕ) (x : Process) (r r' : Request) (m m' : Manifest) (e e' : Option Bytes)
      → i ≢ j
      → (after_decoding (after_decoding x i r m e) j r' m' e').goroutines i ≡ decoded r m
  unfolding after_decoding
  still_decoded i j x r r' m m' e e' others =
      set_progress_ne (set_progress x.goroutines i (decoded r m)) j i (decoded r' m')
        (λ q. others (sym q))
      ∙ set_progress_self x.goroutines i (decoded r m)

  module _ (i j : ℕ) (x : Process) (r r' : Request) (m m' : Manifest) (e : Bytes) (others : i ≢ j)
      (at : x.goroutines i ≡ received r) (at' : x.goroutines j ≡ received r')
      (authorized : is_authorized env r ≡ true) (authorized' : is_authorized env r' ≡ true)
      (invalid : decode env partial r ≡ (m, some e))
      (valid : decode env partial r' ≡ (m', none)) where
    -- While two PUTs are served, one of which is refused when it is alone, because its body does not
    -- decode to a manifest that validates, and the other of which has a valid body: some interleaving
    -- answers 201 to the first and stores what its body was decoded to, if that has an address and an
    -- ID, and another answers 400 to the second one, with the error of the first, and stores nothing.
    pub put_manifest_error_race :
        IsStorable m
        → (put_manifest_handler env r x.store ≡ (error (malformed_text r ++ e) 400, x.store))
          × ((let y = run_schedule env partial (i ∷ j ∷ i ∷ i ∷ i ∷ []) x in
                (y.goroutines i ≡ answered (reply 201 [] [])) × (y.store ≡ put_indexed x.store m))
              × (let z = run_schedule env partial (j ∷ i ∷ j ∷ []) x in
                  (z.goroutines j ≡ answered (error (malformed_text r' ++ e) 400))
                  × (z.store ≡ x.store)))
    unfolding Gives after_decoding
    put_manifest_error_race storable = (
      sym (concluded-eq env partial r x.store authorized) ∙ rw invalid refl,
      (
        rw
            (both_decoded i j _ x r r' m m' (some e) none others at at' authorized authorized'
              invalid valid)
            (unrefused-Gives env partial i _ r m storable
              (still_decoded i j x r r' m m' (some e) none others) refl),
        rw
            (both_decoded j i _ x r' r m' m none (some e) (λ q. others (sym q)) at' at authorized'
              authorized valid invalid)
            (malformed-Gives env partial j 0 _ r' m' e
              (still_decoded j i x r' r m' m none (some e) (λ q. others (sym q))) refl),
      ),
    )
