-- ===== src/GoStd/Filepath/Laws.antt =====
-- Cleaned absolute paths: their elements are plain, and the string test for a prefix of one is a
-- test of its elements.
use mathlib.Core.List.{reverse, reverse-cons, append_assoc}
use netbootd.Prelude.{
  ℕ, ◌≡◌, ◌≢◌, refl, ap, ◌∙◌, true, List, [], ◌∷◌, ◌++◌, arith, Bytes, All, str_eq_iff,
}
use netbootd.GoStd.Strings.{slash}
use netbootd.GoStd.Filepath.{
  dot, dotdot, push_first, elements, backtrack, clean_step, keep, join_slash,
}

abbrev pub NoSlash : Bytes → Type 0
NoSlash [] = Unit
NoSlash (c ∷ s) = (c ≢ slash) × NoSlash s

-- An element that names an entry of a directory.
abbrev pub IsPlain : Bytes → Type 0
IsPlain part = NoSlash part × (part ≢ []) × (part ≢ dot) × (part ≢ dotdot)

-- The elements

push_first-ne-nil : (w : Bytes) (xs : List Bytes) → push_first w xs ≢ []
push_first-ne-nil w [] = cc
push_first-ne-nil w (x ∷ xs) = cc

push_first-append :
    (w : Bytes) (xs ys : List Bytes) → xs ≢ [] → push_first w (xs ++ ys) ≡ push_first w xs ++ ys
push_first-append w [] ys h = absurd (h refl)
push_first-append w (x ∷ xs) ys h = refl

push_first-NoSlash :
    (c : ℕ) (xs : List Bytes) → c ≢ slash → All NoSlash xs → All NoSlash (push_first (c ∷ []) xs)
push_first-NoSlash c [] h k = ((h, tt), tt)
push_first-NoSlash c (x ∷ xs) h k = ((h, k.0), k.1)

elements-ne-nil : (s : Bytes) → elements s ≢ []
unfolding elements
elements-ne-nil [] = cc
elements-ne-nil (c ∷ s) = ground (arith, push_first-ne-nil (c ∷ []) (elements s))

pub elements-NoSlash : (s : Bytes) → All NoSlash (elements s)
unfolding elements
elements-NoSlash [] = (tt, tt)
elements-NoSlash (c ∷ s) = ground (arith, elements-NoSlash s, push_first-NoSlash c (elements s))

pub elements-append : (a b : Bytes) → elements (a ++ slash ∷ b) ≡ elements a ++ elements b
unfolding elements
elements-append [] b = refl
elements-append (c ∷ a) b = ground (
  arith,
  elements-append a b,
  push_first-append (c ∷ []) (elements a) (elements b),
  elements-ne-nil a,
)

pub elements_of_NoSlash : (s : Bytes) → NoSlash s → elements s ≡ s ∷ []
unfolding elements
elements_of_NoSlash [] h = refl
elements_of_NoSlash (c ∷ s) h = ground (arith, elements_of_NoSlash s h.1)

pub elements-join_slash :
    (p : Bytes) (ps : List Bytes) → All NoSlash (p ∷ ps) → elements (join_slash (p ∷ ps)) ≡ p ∷ ps
unfolding join_slash
elements-join_slash p [] h = elements_of_NoSlash p h.0
elements-join_slash p (q ∷ ps) h =
    elements-append p (join_slash (q ∷ ps))
    ∙ rw (elements_of_NoSlash p h.0, elements-join_slash q ps h.1) refl

-- The loop

pub clean_step_of_IsPlain :
    (kept : List Bytes) (part : Bytes) → IsPlain part → clean_step true kept part ≡ part ∷ kept
unfolding clean_step
clean_step_of_IsPlain kept part h =
    ground (arith, str_eq_iff part [], str_eq_iff part dot, str_eq_iff part dotdot)

backtrack-All : (kept : List Bytes) → All IsPlain kept → All IsPlain (backtrack true kept)
unfolding backtrack
backtrack-All [] h = tt
backtrack-All (top ∷ rest) h = ground (arith, str_eq_iff top dotdot)

clean_step-All :
    (kept : List Bytes) (part : Bytes)
    → All IsPlain kept
    → NoSlash part
    → All IsPlain (clean_step true kept part)
unfolding clean_step
clean_step-All kept part h k =
    ground
      (arith, backtrack-All kept, str_eq_iff part [], str_eq_iff part dot, str_eq_iff part dotdot)

pub keep-All :
    (kept parts : List Bytes)
    → All IsPlain kept
    → All NoSlash parts
    → All IsPlain (keep true kept parts)
unfolding keep
keep-All kept [] h k = h
keep-All kept (part ∷ parts) h k =
    keep-All (clean_step true kept part) parts (clean_step-All kept part h k.0) k.1

pub keep-append :
    (kept xs ys : List Bytes) → keep true kept (xs ++ ys) ≡ keep true (keep true kept xs) ys
unfolding keep
keep-append kept [] ys = refl
keep-append kept (x ∷ xs) ys = keep-append (clean_step true kept x) xs ys

pub keep_of_All :
    (kept parts : List Bytes) → All IsPlain parts → keep true kept parts ≡ reverse parts ++ kept
unfolding keep
keep_of_All kept [] h = refl
keep_of_All kept (part ∷ parts) h =
    ap (λ k. keep true k parts) (clean_step_of_IsPlain kept part h.0)
    ∙ keep_of_All (part ∷ kept) parts h.1
    ∙ simp (reverse-cons, append_assoc)
