-- ===== src/Api/RouterTests.antt =====
-- A router that knows paths without variables, and a host that calls suspend-boot.
use netbootd.Prelude.{
  ◌≡◌, inl, inr, Bool, true, false, ◌&&◌, ◌||◌, List, [], ◌∷◌, arith, Bytes, bytes, str_eq,
  str_eq_iff, if◌then◌else◌, Bool-cases, In,
}
use netbootd.Api.Defs.{error}
use netbootd.Api.Sample.{env, request, empty}
use netbootd.Api.Router.{Registered, found, unrouted, Mux, MatchesMethods, Call, serve_calls}
use netbootd.Api.Changes.{IsBootOnly, serve_calls_harmless}

has_method : Bytes → List Bytes → Bool
has_method m [] = false
has_method m (n ∷ ms) = str_eq m n || has_method m ms

has_method-In : (m : Bytes) (ms : List Bytes) → has_method m ms ≡ true → In m ms
unfolding has_method
has_method-In m [] h = absurd (cc)
has_method-In m (n ∷ ms) h = elim (Bool-cases (str_eq m n)) [
  | inl e ↦ inl ((str_eq_iff m n).0 e)
  | inr e ↦ inr (has_method-In m ms (rw e at h))
]

dispatch : Mux
dispatch [] path method = unrouted (error (bytes "404 page not found") 404)
dispatch (f ∷ routes) path method =
    let rest = dispatch routes path method in
    if str_eq f.path path && has_method method f.methods then found f [] else rest

found-inj : (f g : Registered) (a b : Bytes) → found f a ≡ found g b → g ≡ f
found-inj f g a b h = cc

dispatch-MatchesMethods : MatchesMethods dispatch
unfolding dispatch
dispatch-MatchesMethods [] path method g id e = absurd (cc)
dispatch-MatchesMethods (f ∷ routes) path method g id e =
    elim (Bool-cases (str_eq f.path path && has_method method f.methods)) [
      | inl hit ↦
          let same : g ≡ f = found-inj f g [] id (rw hit at e) in
          (inl same, rw same (has_method-In method f.methods (ground arith)))
      | inr miss ↦
          let (i, j) = dispatch-MatchesMethods routes path method g id (rw miss at e) in (inr i, j)
    ]

abbrev suspends : Call
suspends = record {
  path = bytes "/api/self/suspend-boot";
  method = bytes "POST";
  request = request "secret";
}

-- A DELETE without the header.
abbrev deletes : Call
deletes = record {
  path = bytes "/api/manifests/{id}";
  method = bytes "DELETE";
  request = request "guess";
}

serve_calls_harmless_example :
    IsBootOnly empty (serve_calls dispatch env (suspends ∷ (deletes ∷ [])) empty)
serve_calls_harmless_example =
    serve_calls_harmless dispatch env dispatch-MatchesMethods (suspends ∷ (deletes ∷ [])) empty
      (inr (ground arith, ground arith), (inl (ground arith), tt))
