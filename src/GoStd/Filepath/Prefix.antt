-- ===== src/GoStd/Filepath/Prefix.antt =====
-- A string test for a prefix, made on two cleaned absolute paths, as a test of their elements.
use mathlib.Core.List.{reverse, reverse-cons, append-nil}
use netbootd.Prelude.{
  ◌≡◌, refl, ap, ◌∙◌, Bool, true, false, ◌&&◌, List, [], ◌∷◌, ◌++◌, arith, Bytes, All, str_eq,
}
use netbootd.GoStd.Strings.{slash, has_prefix}
use netbootd.GoStd.Filepath.{elements, keep, join_slash, is_abs, render, clean, join}
use netbootd.GoStd.Filepath.Laws.{
  NoSlash, IsPlain, elements-append, elements-join_slash, elements-NoSlash, keep-All, keep-append,
  keep_of_All,
}

-- Every element of the first list but its last is the one at that place of the second, and its
-- last is a prefix of the one at its place.
unfoldable pub beneath : List Bytes → List Bytes → Bool
unfolding has_prefix str_eq
beneath [] qs = true
beneath (p ∷ ps) [] = false
beneath (p ∷ []) (q ∷ qs) = has_prefix q p
beneath (p ∷ p' ∷ ps) (q ∷ qs) = str_eq q p && beneath (p' ∷ ps) qs

has_prefix-append_slash :
    (q r p : Bytes) → NoSlash p → has_prefix (q ++ slash ∷ r) p ≡ has_prefix q p
unfolding has_prefix
has_prefix-append_slash q r [] h = refl
has_prefix-append_slash [] r (c ∷ p) h = ground arith
has_prefix-append_slash (d ∷ q) r (c ∷ p) h = rw (has_prefix-append_slash q r p h.1)

has_prefix_both :
    (q r p t : Bytes)
    → NoSlash q
    → NoSlash p
    → has_prefix (q ++ slash ∷ r) (p ++ slash ∷ t) ≡ (str_eq q p && has_prefix r t)
unfolding has_prefix str_eq
has_prefix_both [] r [] t hq hp = refl
has_prefix_both [] r (c ∷ p) t hq hp = ground arith
has_prefix_both (d ∷ q) r [] t hq hp = ground arith
has_prefix_both (d ∷ q) r (c ∷ p) t hq hp = ground (arith, has_prefix_both q r p t hq.1 hp.1)

has_prefix_short : (q p t : Bytes) → NoSlash q → has_prefix q (p ++ slash ∷ t) ≡ false
unfolding has_prefix
has_prefix_short [] [] t h = refl
has_prefix_short [] (c ∷ p) t h = refl
has_prefix_short (d ∷ q) [] t h = ground arith
has_prefix_short (d ∷ q) (c ∷ p) t h = ground (arith, has_prefix_short q p t h.1)

has_prefix-join_slash :
    (p : Bytes) (ps qs : List Bytes)
    → All IsPlain (p ∷ ps)
    → All IsPlain qs
    → has_prefix (join_slash qs) (join_slash (p ∷ ps)) ≡ beneath (p ∷ ps) qs
unfolding join_slash beneath
has_prefix-join_slash [] ps qs hp hq = absurd (hp.0.1 refl)
has_prefix-join_slash (c ∷ p) [] [] hp hq = refl
has_prefix-join_slash (c ∷ p) (p' ∷ ps) [] hp hq = refl
has_prefix-join_slash (c ∷ p) [] (q ∷ []) hp hq = refl
has_prefix-join_slash (c ∷ p) [] (q ∷ q' ∷ qs) hp hq =
    has_prefix-append_slash q (join_slash (q' ∷ qs)) (c ∷ p) hp.0.0
has_prefix-join_slash (c ∷ p) (p' ∷ ps) (q ∷ []) hp hq =
    ground (arith, has_prefix_short q (c ∷ p) (join_slash (p' ∷ ps)) hq.0.0)
has_prefix-join_slash (c ∷ p) (p' ∷ ps) (q ∷ q' ∷ qs) hp hq =
    has_prefix_both q (join_slash (q' ∷ qs)) (c ∷ p) (join_slash (p' ∷ ps)) hq.0.0 hp.0.0
    ∙ ap (λ b. str_eq q (c ∷ p) && b) (has_prefix-join_slash p' ps (q' ∷ qs) hp.1 hq.1)

pub has_prefix-render :
    (ps qs : List Bytes)
    → All IsPlain ps
    → All IsPlain qs
    → has_prefix (render true qs) (render true ps) ≡ beneath ps qs
unfolding render has_prefix beneath
has_prefix-render [] qs hp hq = refl
has_prefix-render (p ∷ ps) qs hp hq = has_prefix-join_slash p ps qs hp hq

pub All-reverse : (P : Bytes → Type 0) (xs : List Bytes) → All P xs → All P (reverse xs)
All-reverse P [] h = tt
All-reverse P (x ∷ xs) h = rw reverse-cons (All-concat (reverse xs) (All-reverse P xs h.1) h.0)
  where
    All-concat : (ys : List Bytes) {y : Bytes} → All P ys → P y → All P (ys ++ y ∷ [])
    All-concat [] k q = (q, tt)
    All-concat (z ∷ ys) k q = (k.0, All-concat ys k.1 q)

clean-eq-render :
    (s : Bytes) → clean (slash ∷ s) ≡ render true (reverse (keep true [] (elements (slash ∷ s))))
unfolding clean
clean-eq-render s = refl

-- A cleaned absolute path is its plain elements behind slashes.
pub clean_of_abs :
    (s : Bytes) → (qs : List Bytes) × (clean (slash ∷ s) ≡ render true qs) × All IsPlain qs
clean_of_abs s = (
  reverse (keep true [] (elements (slash ∷ s))),
  clean-eq-render s,
  All-reverse IsPlain _ (keep-All [] (elements (slash ∷ s)) tt (elements-NoSlash (slash ∷ s))),
)

All-plain : (ps : List Bytes) → All IsPlain ps → All NoSlash ps
All-plain [] h = tt
All-plain (p ∷ ps) h = (h.0.0, All-plain ps h.1)

pub elements-slash : (s : Bytes) → elements (slash ∷ s) ≡ [] ∷ elements s
unfolding elements
elements-slash s = refl

keep_empty : (kept parts : List Bytes) → keep true kept ([] ∷ parts) ≡ keep true kept parts
unfolding keep
keep_empty kept parts = refl

keep-elements-render :
    (ps : List Bytes) → All IsPlain ps → keep true [] (elements (render true ps)) ≡ reverse ps
unfolding render
keep-elements-render [] h = unfold keep elements in refl
keep-elements-render (p ∷ ps) h =
    rw (elements-slash (join_slash (p ∷ ps)), elements-join_slash p ps (All-plain (p ∷ ps) h))
      (keep_empty [] (p ∷ ps) ∙ keep_of_All [] (p ∷ ps) h ∙ append-nil _)

join_of_abs :
    (s path : Bytes)
    → join (slash ∷ s) path
      ≡ render true (reverse (keep true [] (elements ((slash ∷ s) ++ slash ∷ path))))
unfolding join
join_of_abs s path = refl

join_abs_keep :
    (s path : Bytes)
    → join (slash ∷ s) path
      ≡ render true (reverse (keep true (keep true [] (elements (slash ∷ s))) (elements path)))
join_abs_keep s path =
    join_of_abs s path
    ∙ rw (elements-append (slash ∷ s) path, keep-append [] _ (elements path)) refl

render-eq-slash : (ps : List Bytes) → render true ps ≡ slash ∷ join_slash ps
unfolding render
render-eq-slash ps = refl

-- Joining a path to a cleaned absolute directory: its elements are taken one by one from there.
pub join-render :
    (ps : List Bytes) (path : Bytes)
    → All IsPlain ps
    → join (render true ps) path ≡ render true (reverse (keep true (reverse ps) (elements path)))
join-render ps path h =
    ap (λ d. join d path) (render-eq-slash ps)
    ∙ join_abs_keep (join_slash ps) path
    ∙ rw (← render-eq-slash ps, keep-elements-render ps h) refl

-- The elements of such a path are plain.
pub join-All :
    (ps : List Bytes) (path : Bytes)
    → All IsPlain ps
    → All IsPlain (reverse (keep true (reverse ps) (elements path)))
join-All ps path h =
    All-reverse IsPlain _
      (keep-All (reverse ps) (elements path) (All-reverse IsPlain ps h) (elements-NoSlash path))

is_abs-render : (qs : List Bytes) → is_abs (render true qs) ≡ true
unfolding is_abs render
is_abs-render qs = refl

-- What is joined to an absolute directory is absolute.
pub join-is_abs : (dir path : Bytes) → is_abs dir ≡ true → is_abs (join dir path) ≡ true
unfolding is_abs
join-is_abs [] path h = absurd (ground arith)
join-is_abs (c ∷ dir) path h =
    let e : c ≡ slash = ground arith in rw (e, join_of_abs dir path) (is_abs-render _)
