-- ===== src/Manifest/HostPath/Containment.antt =====
-- How far Mount.ValidateHostPath of manifest/schema.go keeps a request inside the directory.
use mathlib.Core.List.{
  reverse, reverse-cons, reverse-append, reverse-reverse, append_assoc, append-nil,
}
use mathlib.Core.Path.{subst, ap₂}
use netbootd.Prelude.{
  ◌≡◌, ◌≢◌, refl, sym, ap, ◌∙◌, true, inl, inr, ◌⊎◌, List, [], ◌∷◌, ◌++◌, arith, Bytes, bytes, All,
  str_eq_iff, str_eq_refl, if◌then◌else◌,
}
use netbootd.GoStd.Strings.{trim_prefix, has_prefix}
use netbootd.GoStd.Strings.Laws.{has_prefix-append, trim_prefix-append}
use netbootd.GoStd.Filepath.{dotdot, elements, clean_step, keep, render, join}
use netbootd.GoStd.Filepath.Laws.{
  IsPlain, clean_step_of_IsPlain, elements_of_NoSlash, elements-append,
}
use netbootd.GoStd.Filepath.Prefix.{
  elements-slash, beneath, has_prefix-render, join-render, join-All,
}
use netbootd.Manifest.Defs.{Mount}
use netbootd.Manifest.HostPath.{host_path_prefix, host_path, validate_host_path}

-- The part of a request that HostPath joins to the directory.
abbrev pub joined : Mount → Bytes → Bytes
joined m request_path = if m.append_suffix then trim_prefix request_path m.path else m.path

module _ (m : Mount) (root_path request_path : Bytes) (ps : List Bytes)
    (clean_dir : host_path_prefix m root_path ≡ render true ps) (plain : All IsPlain ps) where
  host_path-eq-render :
      (kept : List Bytes)
      → keep true (reverse ps) (elements (joined m request_path)) ≡ kept
      → host_path m root_path request_path ≡ render true (reverse kept)
  unfolding host_path
  host_path-eq-render kept e =
      ap (λ d. join d (joined m request_path)) clean_dir
      ∙ join-render ps (joined m request_path) plain
      ∙ ap (λ k. render true (reverse k)) e

  -- The host path and its test, from the elements that the loop of Clean keeps.
  host_path_at :
      (kept : List Bytes)
      → keep true (reverse ps) (elements (joined m request_path)) ≡ kept
      → (host_path m root_path request_path ≡ render true (reverse kept))
        × (validate_host_path m root_path (host_path m root_path request_path)
            ≡ beneath ps (reverse kept))
  unfolding validate_host_path
  host_path_at kept e = (
    host_path-eq-render kept e,
    ap₂ has_prefix (host_path-eq-render kept e) clean_dir
        ∙ has_prefix-render ps (reverse kept) plain
            (subst (λ k. All IsPlain (reverse k)) e (join-All ps (joined m request_path) plain)),
  )

  -- For a mount over the cleaned absolute directory "/p₁/…/pₙ", whatever the request: the host path
  -- is cleaned and absolute, and none of its elements is empty, "." or "..". It passes the test
  -- exactly when its first elements are p₁ … pₙ₋₁ and the next one begins with pₙ.
  pub validate_host_path_exact :
      (qs : List Bytes) × (host_path m root_path request_path ≡ render true qs)
      × All IsPlain qs
      × (validate_host_path m root_path (host_path m root_path request_path) ≡ beneath ps qs)
  validate_host_path_exact =
      let kept : List Bytes = keep true (reverse ps) (elements (joined m request_path)) in
      let (path, tested) = host_path_at kept refl in
      (reverse kept, path, join-All ps (joined m request_path) plain, tested)

-- A request without ".."

clean_step_down :
    (kept : List Bytes) (part : Bytes)
    → part ≢ dotdot
    → (clean_step true kept part ≡ kept) ⊎ (clean_step true kept part ≡ part ∷ kept)
unfolding clean_step
clean_step_down kept part h = ground (arith, str_eq_iff part dotdot)

keep_down :
    (kept parts : List Bytes)
    → All (λ part. part ≢ dotdot) parts
    → (ext : List Bytes) × (keep true kept parts ≡ ext ++ kept)
unfolding keep
keep_down kept [] h = ([], refl)
keep_down kept (part ∷ parts) h =
    let (ext, e) = keep_down (clean_step true kept part) parts h.1 in
    elim (clean_step_down kept part h.0) [
      | inl same ↦ (ext, e ∙ ap (λ k. ext ++ k) same)
      | inr more ↦
          (ext ++ part ∷ [], e ∙ ap (λ k. ext ++ k) more ∙ sym (append_assoc ext (part ∷ []) kept))
    ]

beneath-append : (ps ext : List Bytes) → beneath ps (ps ++ ext) ≡ true
unfolding beneath
beneath-append [] ext = refl
beneath-append (p ∷ []) ext = rw (append-nil p) at (has_prefix-append p [])
beneath-append (p ∷ p' ∷ ps) ext = rw (str_eq_refl p, beneath-append (p' ∷ ps) ext) refl

beneath-concat :
    (ps : List Bytes) (p q : Bytes) → beneath (ps ++ p ∷ []) (ps ++ q ∷ []) ≡ has_prefix q p
unfolding beneath
beneath-concat [] p q = refl
beneath-concat (r ∷ []) p q = rw (str_eq_refl r) refl
beneath-concat (r ∷ r' ∷ ps) p q = rw (str_eq_refl r) (beneath-concat (r' ∷ ps) p q)

module _ (m : Mount) (root_path request_path : Bytes) (ps : List Bytes)
    (clean_dir : host_path_prefix m root_path ≡ render true ps) (plain : All IsPlain ps) where
  -- For a mount over the cleaned absolute directory "/p₁/…/pₙ", a request whose joined part has no
  -- element ".." leads to a path below the directory, and passes the test.
  pub validate_host_path_down :
      All (λ part. part ≢ dotdot) (elements (joined m request_path))
      → (ext : List Bytes) × (host_path m root_path request_path ≡ render true (ps ++ ext))
        × (validate_host_path m root_path (host_path m root_path request_path) ≡ true)
  validate_host_path_down h =
      let (ext, e) = keep_down (reverse ps) (elements (joined m request_path)) h in
      let (path, tested) = host_path_at m root_path request_path ps clean_dir plain _ e in
      let back : reverse (ext ++ reverse ps) ≡ ps ++ reverse ext =
        rw (reverse-append, reverse-reverse) refl in
      (
        reverse ext,
        path ∙ ap (render true) back,
        tested ∙ ap (beneath ps) back ∙ beneath-append ps (reverse ext),
      )

-- The elements of "/../x", taken from a directory, step over to the sibling x.
keep_sibling :
    (p x : Bytes) (kept : List Bytes)
    → IsPlain p
    → IsPlain x
    → keep true (p ∷ kept) ([] ∷ dotdot ∷ x ∷ []) ≡ x ∷ kept
unfolding keep
keep_sibling p x kept hp hx =
    ap (λ k. clean_step true k x) (up p kept hp) ∙ clean_step_of_IsPlain kept x hx
  where
    up : (p : Bytes) (kept : List Bytes) → IsPlain p → clean_step true (p ∷ kept) dotdot ≡ kept
    up p kept hp = ground (arith, str_eq_iff p dotdot)

elements-dotdot : elements dotdot ≡ dotdot ∷ []
unfolding elements
elements-dotdot = refl

last-IsPlain : {p : Bytes} (rs : List Bytes) → All IsPlain (rs ++ p ∷ []) → IsPlain p
last-IsPlain [] h = h.0
last-IsPlain (r ∷ rs) h = last-IsPlain rs h.1

joined_sibling :
    (m : Mount) (x : Bytes)
    → m.append_suffix ≡ true
    → IsPlain x
    → elements (joined m (m.path ++ (bytes "/../" ++ x))) ≡ [] ∷ dotdot ∷ x ∷ []
joined_sibling m x suffix plain =
    ap elements (rw suffix (trim_prefix-append m.path (bytes "/../" ++ x)))
    ∙ elements-slash (bytes "../" ++ x)
    ∙ ap (◌∷◌ [])
        (elements-append dotdot x ∙ ap₂ ◌++◌ elements-dotdot (elements_of_NoSlash x plain.0))

-- The test does not keep a request inside the directory: beside "/…/p" it lets through every
-- directory whose name begins with p. For a mount that appends the suffix, over the cleaned
-- absolute directory "/r₁/…/rₙ/p", the request "<mount path>/../<p><more>" passes the test and
-- leads to "/r₁/…/rₙ/<p><more>", where "<p><more>" is a plain element.
pub validate_host_path_escape :
    (m : Mount) (root_path : Bytes) (rs : List Bytes) (p more : Bytes)
    → m.append_suffix ≡ true
    → host_path_prefix m root_path ≡ render true (rs ++ p ∷ [])
    → All IsPlain (rs ++ p ∷ [])
    → IsPlain (p ++ more)
    → let request = m.path ++ (bytes "/../" ++ (p ++ more)) in
      (host_path m root_path request ≡ render true (rs ++ (p ++ more) ∷ []))
      × (validate_host_path m root_path (host_path m root_path request) ≡ true)
validate_host_path_escape m root_path rs p more suffix clean_dir plain plain' =
    let (path, tested) =
      host_path_at m root_path (m.path ++ (bytes "/../" ++ (p ++ more))) (rs ++ p ∷ []) clean_dir
        plain ((p ++ more) ∷ reverse rs)
        (rw (joined_sibling m (p ++ more) suffix plain', reverse-append)
          (keep_sibling p (p ++ more) (reverse rs) (last-IsPlain rs plain) plain')) in
    let back : reverse ((p ++ more) ∷ reverse rs) ≡ rs ++ (p ++ more) ∷ [] =
      rw (reverse-cons, reverse-reverse) refl in
    (
      path ∙ ap (render true) back,
      tested
          ∙ ap (beneath (rs ++ p ∷ [])) back
          ∙ beneath-concat rs p (p ++ more)
          ∙ has_prefix-append p more,
    )
