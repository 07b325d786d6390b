-- ===== src/Api/Refines.antt =====
-- The handlers of /api/manifests/{id} in api/server.go, over the maps and pointers of store/store.go,
-- answer as a plain table of manifests does.
use netbootd.Prelude.{
  ◌≡◌, ◌≢◌, refl, ap, sym, ◌∙◌, inl, inr, arith, true, false, none, some, List, [], ◌∷◌, Bytes,
  bytes, Result, ok, err, Bool-cases, Option-cases, str_eq, str_eq_iff, if◌then◌else◌,
}
use mathlib.Core.Path.{subst}
use netbootd.Manifest.Defs.{Manifest}
use netbootd.Store.Defs.{Store, Ptr, find, put_manifest, forget_manifest, forget_found}
use netbootd.Store.Invariant.{IsWellFormed}
use netbootd.Store.Put.{
  IsStorable, put_manifest_of_IsStorable, find-put_manifest, find-put_manifest_ne,
}
use netbootd.Store.Forget.{forget_manifest_outcomes}
use netbootd.Store.Forgotten.{find-forget_manifest}
use netbootd.Api.Defs.{
  Env, Request, Response, reply, forbidden, is_authorized, malformed, stored, handle, get_manifest,
  put_manifest_handler, delete_manifest,
}
use netbootd.Api.Invariant.{handle-IsWellFormed}
use netbootd.Api.Table.{
  Table, insert, remove, contents, Method, get_method, put_method, delete_method, route_of, shown,
  admit, admitted, answered, answer_table, table_answers, store_answers,
}

-- A table has what the store's map of IDs leads to.
abbrev pub Shows : Store → Table → Type 0
Shows s t = (id : Bytes) → contents s id ≡ t id

-- An answer of the handlers and one of the table agree, and so do what they leave.
abbrev Agree : Response × Store → Response × Table → Type 0
Agree x y = (x.0 ≡ y.0) × Shows x.1 y.1

contents_of_find :
    (s : Store) (id : Bytes) (p : Ptr) → find s id ≡ some p → contents s id ≡ some (s.heap.cell p)
contents_of_find s id p e = rw e refl

-- No entry of a well-formed store points to the next cell.
found_old :
    (s : Store) (id : Bytes) (p : Ptr) → IsWellFormed s → find s id ≡ some p → p ≢ s.heap.next
unfolding find
found_old s id p w e same = omega (arith, (w.ids id p e).0)

forget_manifest-cells : (s : Store) (j : Bytes) → (forget_manifest s j).1.heap.cell ≡ s.heap.cell
unfolding forget_found
forget_manifest-cells s j = elim (forget_manifest_outcomes s j) [
  | inl (_, e) ↦ rw e refl
  | inr (p, _, e) ↦ rw e refl
]

module _ (s : Store) (w : IsWellFormed s) where
  contents-put_manifest :
      (m : Manifest)
      → IsStorable m
      → (id : Bytes) → contents (put_manifest s m).1 id ≡ insert (contents s) m id
  contents-put_manifest m h id = elim (Bool-cases (str_eq m.id id)) [
    | inl e ↦
        let same : m.id ≡ id = (str_eq_iff m.id id).0 e in
        let (found, _, _, cell) = find-put_manifest s m h in
        rw e (
          subst (λ k. contents (put_manifest s m).1 k ≡ some m) same
            (contents_of_find (put_manifest s m).1 m.id s.heap.next found ∙ ap some cell))
    | inr e ↦
        let ne : id ≢ m.id = ground (arith, str_eq_iff m.id id) in
        let (found, _, _, cell) = find-put_manifest_ne s m h in
        elim (Option-cases (find s id)) [
          | inl missing ↦ rw (e, found id ne, missing) refl
          | inr (p, at) ↦ rw (e, found id ne, at) (ap some (cell p (found_old s id p w at)))
        ]
  ]

  contents-forget_manifest :
      (j id : Bytes) → contents (forget_manifest s j).1 id ≡ remove (contents s) j id
  contents-forget_manifest j id =
      let (gone, others) = find-forget_manifest s j w in
      elim (Bool-cases (str_eq j id)) [
        | inl e ↦
            let same : j ≡ id = (str_eq_iff j id).0 e in
            rw e (subst (λ k. contents (forget_manifest s j).1 k ≡ none) same (rw gone refl))
        | inr e ↦
            let ne : id ≢ j = ground (arith, str_eq_iff j id) in
            rw (e, others id ne, forget_manifest-cells s j) refl
      ]

insert-Shows :
    (s : Store) (t : Table) (m : Manifest)
    → IsWellFormed s
    → Shows s t
    → IsStorable m
    → Shows (put_manifest s m).1 (insert t m)
insert-Shows s t m w h storable id =
    contents-put_manifest s w m storable id ∙ ap (λ x. if str_eq m.id id then some m else x) (h id)

remove-Shows :
    (s : Store) (t : Table) (j : Bytes)
    → IsWellFormed s
    → Shows s t
    → Shows (forget_manifest s j).1 (remove t j)
remove-Shows s t j w h id =
    contents-forget_manifest s w j id ∙ ap (λ x. if str_eq j id then none else x) (h id)

stored-Agree :
    (s : Store) (t : Table) (m : Manifest) (a : Bytes)
    → IsWellFormed s
    → Shows s t
    → IsStorable m
    → m.ipv4.ip ≡ some a
    → str_eq m.id [] ≡ false
    → Agree (stored (put_manifest s m)) (admit m t)
stored-Agree s t m a w h storable ip full =
    let e = put_manifest_of_IsStorable s m storable in
    let shows = insert-Shows s t m w h storable in
    let admits : admit m t ≡ (reply 201 [] [], insert t m) = ground arith in
    rw (e, admits) (refl, rw e at shows)

admit-Agree :
    (s : Store) (t : Table) (m : Manifest)
    → IsWellFormed s
    → Shows s t
    → Agree (stored (put_manifest s m)) (admit m t)
unfolding put_manifest
admit-Agree s t m w h = elim (Option-cases m.ipv4.ip) [
  | inl nil ↦ rw nil (refl, h)
  | inr (a, ip) ↦ elim (Bool-cases (str_eq m.id [])) [
    | inl empty ↦ rw (ip, empty) (refl, h)
    | inr full ↦
        let storable : IsStorable m = (ground arith, ground (arith, str_eq_iff m.id [])) in
        stored-Agree s t m a w h storable ip full
  ]
]

admitted-Agree :
    (failure : Bytes) (r : Result Manifest) (s : Store) (t : Table)
    → IsWellFormed s
    → Shows s t
    → Agree (malformed failure r (λ m. stored (put_manifest s m)) s) (admitted failure r t)
admitted-Agree failure (ok m) s t w h = admit-Agree s t m w h
admitted-Agree failure (err e) s t w h = (refl, h)

shown-eq :
    (env : Env) (r : Request) (s : Store) (t : Table)
    → Shows s t
    → is_authorized env r ≡ true
    → get_manifest env r s ≡ (shown env r (t r.id), s)
unfolding get_manifest
shown-eq env r s t h a = elim (Option-cases (find s r.id)) [
  | inl missing ↦ rw (a, sym (h r.id), missing) refl
  | inr (p, at) ↦ rw (a, sym (h r.id), at) refl
]

denied-eq :
    (method : Method) (env : Env) (r : Request) (s : Store)
    → is_authorized env r ≡ false
    → handle (route_of method) env r s ≡ (forbidden, s)
unfolding handle get_manifest put_manifest_handler delete_manifest
denied-eq get_method env r s a = rw a refl
denied-eq put_method env r s a = rw a refl
denied-eq delete_method env r s a = rw a refl

put_handler-Agree :
    (env : Env) (r : Request) (s : Store) (t : Table)
    → IsWellFormed s
    → Shows s t
    → is_authorized env r ≡ true
    → Agree (put_manifest_handler env r s) (answered put_method env r t)
unfolding put_manifest_handler
put_handler-Agree env r s t w h a =
    elim (Bool-cases (str_eq r.content_type (bytes "application/json"))) [
      | inl c ↦ rw (a, c) (admitted-Agree (bytes "error loading manifest from json: ") _ s t w h)
      | inr c ↦ rw (a, c) (admitted-Agree (bytes "error loading manifest from yaml: ") _ s t w h)
    ]

allowed-Agree :
    (method : Method) (env : Env) (r : Request) (s : Store) (t : Table)
    → IsWellFormed s
    → Shows s t
    → is_authorized env r ≡ true
    → Agree (handle (route_of method) env r s) (answered method env r t)
unfolding handle delete_manifest
allowed-Agree get_method env r s t w h a = rw (shown-eq env r s t h a) (refl, h)
allowed-Agree put_method env r s t w h a = put_handler-Agree env r s t w h a
allowed-Agree delete_method env r s t w h a = rw a (refl, remove-Shows s t r.id w h)

-- Each request.
handle-Agree :
    (method : Method) (env : Env) (r : Request) (s : Store) (t : Table)
    → IsWellFormed s
    → Shows s t
    → Agree (handle (route_of method) env r s) (answer_table method env r t)
unfolding answer_table
handle-Agree method env r s t w h = elim (Bool-cases (is_authorized env r)) [
  | inl a ↦ rw a (allowed-Agree method env r s t w h a)
  | inr a ↦ rw (a, denied-eq method env r s a) (refl, h)
]

from_shown :
    (env : Env) (s : Store) (t : Table) (calls : List (Method × Request))
    → IsWellFormed s
    → Shows s t
    → store_answers env s calls ≡ table_answers env t calls
unfolding store_answers table_answers
from_shown env s t [] w h = refl
from_shown env s t ((method, r) ∷ calls) w h =
    let (same, shows) = handle-Agree method env r s t w h in
    let rest =
      from_shown env (handle (route_of method) env r s).1 (answer_table method env r t).1 calls
        (handle-IsWellFormed (route_of method) env r s w) shows in
    rw (same, rest) refl

-- A well-formed store answers any sequence of requests to /api/manifests/{id} as the table of its
-- manifests by ID does, whatever the other two maps and older manifests hold: the answers are the
-- same, one by one.
pub store_answers-eq-table_answers :
    (env : Env) (s : Store) (calls : List (Method × Request))
    → IsWellFormed s
    → store_answers env s calls ≡ table_answers env (contents s) calls
store_answers-eq-table_answers env s calls w = from_shown env s (contents s) calls w (λ _. refl)
