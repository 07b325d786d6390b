-- ===== src/GoStd/Filepath.antt =====
-- Go's package `path/filepath` on Unix. `clean` is stated over the path's elements: the elements
-- "" and "." are dropped, ".." takes back the element before it, and at the root nothing.
use netbootd.Prelude.{
  ◌≡◌, refl, Bool, true, false, ◌||◌, List, [], ◌∷◌, ◌++◌, Bytes, bytes, str_eq, ◌==◌,
  if◌then◌else◌,
}
use mathlib.Core.List.{reverse}
use netbootd.GoStd.Strings.{slash, has_prefix}
pub mod Laws
pub mod Prefix

unfoldable pub is_abs : Bytes → Bool
unfolding has_prefix
is_abs path = has_prefix path (slash ∷ [])

abbrev pub dot : Bytes
dot = bytes "."

abbrev pub dotdot : Bytes
dotdot = bytes ".."

abbrev push_first : Bytes → List Bytes → List Bytes
push_first w [] = w ∷ []
push_first w (v ∷ vs) = (w ++ v) ∷ vs

-- The elements between the slashes.
unfoldable pub elements : Bytes → List Bytes
elements [] = [] ∷ []
elements (c ∷ s) =
    let rest = elements s in if c == slash then [] ∷ rest else push_first (c ∷ []) rest

-- ".." over the elements kept so far, the last one first
unfoldable pub backtrack : Bool → List Bytes → List Bytes
unfolding str_eq
backtrack true [] = []
backtrack false [] = dotdot ∷ []
backtrack rooted (top ∷ rest) = if str_eq top dotdot then dotdot ∷ top ∷ rest else rest

unfoldable pub clean_step : Bool → List Bytes → Bytes → List Bytes
unfolding str_eq backtrack
clean_step rooted kept part =
    if str_eq part [] || str_eq part dot
    then kept
    else if str_eq part dotdot
    then backtrack rooted kept
    else part ∷ kept

-- The loop over the elements.
unfoldable pub keep : Bool → List Bytes → List Bytes → List Bytes
unfolding clean_step
keep rooted kept [] = kept
keep rooted kept (part ∷ parts) = keep rooted (clean_step rooted kept part) parts

-- strings.Join(parts, "/")
unfoldable pub join_slash : List Bytes → Bytes
join_slash [] = []
join_slash (p ∷ []) = p
join_slash (p ∷ q ∷ ps) = p ++ slash ∷ join_slash (q ∷ ps)

unfoldable pub render : Bool → List Bytes → Bytes
unfolding join_slash
render true parts = slash ∷ join_slash parts
render false [] = dot
render false (p ∷ ps) = join_slash (p ∷ ps)

unfoldable pub clean : Bytes → Bytes
unfolding is_abs elements keep render
clean path = render (is_abs path) (reverse (keep (is_abs path) [] (elements path)))

-- filepath.Join of two elements: leading empty ones are left out.
unfoldable pub join : Bytes → Bytes → Bytes
unfolding clean
join [] [] = []
join [] (c ∷ b) = clean (c ∷ b)
join (c ∷ a) b = clean ((c ∷ a) ++ slash ∷ b)

clean_tests :
    (clean (bytes "/srv/../etc//./x") ≡ bytes "/etc/x")
    × (clean (bytes "a/../../b") ≡ bytes "../b")
    × (clean [] ≡ bytes ".")
    × (clean (bytes "/..") ≡ bytes "/")
unfolding clean
clean_tests = (refl, refl, refl, refl)
