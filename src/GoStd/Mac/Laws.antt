-- ===== src/GoStd/Mac/Laws.antt =====
-- Writing a hardware address and reading it back.
use netbootd.Prelude.{
  Option-cases, Bool-cases, inl, inr, none, false, ltb, Bool, ◌&&◌, ◌||◌, ◌==◌, Option,
}
use netbootd.Prelude.{
  ℕ, ◌+◌, ◌*◌, ◌/◌, ◌%◌, ◌≤◌, ◌<◌, ◌≡◌, refl, sym, ap, ◌∙◌, true, some, [], ◌∷◌, arith, Bytes,
  length,
}
use netbootd.GoStd.Mac.{
  hex_digit, hex_value, hex_pair, mac_string, parse_pairs, parse_groups, parse_mac_by, parse_mac,
  mac_size, sized,
}

-- Every number is a byte.
abbrev pub AreBytes : Bytes → Type 0
AreBytes [] = Unit
AreBytes (b ∷ bs) = (b < 256) × AreBytes bs

hex_value-hex_digit : (n : ℕ) → n < 16 → hex_value (hex_digit n) ≡ some n
unfolding hex_value hex_digit
hex_value-hex_digit n h = ground arith

hex_pair-hex_digit : (b : ℕ) → b < 256 → hex_pair (hex_digit (b / 16)) (hex_digit (b % 16)) ≡ some b
unfolding hex_pair
hex_pair-hex_digit b h = ground (arith, hex_value-hex_digit (b / 16), hex_value-hex_digit (b % 16))

pub parse_pairs-mac_string :
    (b : ℕ) (bs : Bytes)
    → AreBytes (b ∷ bs)
    → parse_pairs b':' (mac_string (b ∷ bs)) ≡ some (b ∷ bs)
unfolding parse_pairs mac_string
parse_pairs-mac_string b [] h = rw (hex_pair-hex_digit b h.0)
parse_pairs-mac_string b (c ∷ bs) h = rw (hex_pair-hex_digit b h.0, parse_pairs-mac_string c bs h.1)

pub length-mac_string :
    (b : ℕ) (bs : Bytes) → length (mac_string (b ∷ bs)) + 1 ≡ 3 * length (b ∷ bs)
unfolding mac_string
length-mac_string b [] = omega arith
length-mac_string b (c ∷ bs) = omega (arith, length-mac_string c bs)

mac_string-nil : mac_string [] ≡ []
unfolding mac_string
mac_string-nil = refl

-- Two addresses that are written alike are one.
pub mac_string_injective :
    (a b : Bytes) → AreBytes a → AreBytes b → mac_string a ≡ mac_string b → a ≡ b
mac_string_injective [] [] ha hb e = refl
mac_string_injective [] (y ∷ b) ha hb e =
    absurd (omega (arith, ap length (sym mac_string-nil ∙ e), length-mac_string y b))
mac_string_injective (x ∷ a) [] ha hb e =
    absurd (omega (arith, ap length (e ∙ mac_string-nil), length-mac_string x a))
mac_string_injective (x ∷ a) (y ∷ b) ha hb e =
    cc (parse_pairs-mac_string x a ha, parse_pairs-mac_string y b hb, e)

parse_mac_of_long : (s : Bytes) → 14 ≤ length s → parse_mac s ≡ parse_mac_by s
unfolding parse_mac
parse_mac_of_long s h = ground arith

parse_mac_by_colons :
    (a b d e : ℕ) (s : Bytes) (n : ℕ)
    → length s + 6 ≡ 3 * n
    → mac_size n ≡ true
    → parse_mac_by (a ∷ b ∷ b':' ∷ d ∷ e ∷ s) ≡ parse_pairs b':' (a ∷ b ∷ b':' ∷ d ∷ e ∷ s)
unfolding parse_mac_by
parse_mac_by_colons a b d e s n h size =
    let len : length (a ∷ b ∷ b':' ∷ d ∷ e ∷ s) + 1 ≡ 3 * n = omega arith in
    let third : 3 * n / 3 ≡ n = omega arith in
    let whole : (3 * n) % 3 ≡ 0 = omega arith in rw (len, third, whole, size) refl

parse_mac_by-mac_string :
    (a b c : ℕ) (m : Bytes)
    → mac_size (length (a ∷ b ∷ c ∷ m)) ≡ true
    → parse_mac_by (mac_string (a ∷ b ∷ c ∷ m)) ≡ parse_pairs b':' (mac_string (a ∷ b ∷ c ∷ m))
unfolding mac_string
parse_mac_by-mac_string a b c m size =
    parse_mac_by_colons _ _ _ _ _ (length (a ∷ b ∷ c ∷ m))
      (omega (arith, length-mac_string a (b ∷ c ∷ m))) size

-- What is written as an address of a proper size is read back.
pub parse_mac-mac_string :
    (m : Bytes) → AreBytes m → mac_size (length m) ≡ true → parse_mac (mac_string m) ≡ some m
parse_mac-mac_string (a ∷ b ∷ c ∷ m) h size =
    let long : length (mac_string (a ∷ b ∷ c ∷ m)) + 1 ≡ 3 * length (a ∷ b ∷ c ∷ m) =
      length-mac_string a (b ∷ c ∷ m) in
    parse_mac_of_long (mac_string (a ∷ b ∷ c ∷ m)) (ground arith)
    ∙ parse_mac_by-mac_string a b c m size
    ∙ parse_pairs-mac_string a (b ∷ c ∷ m) h
parse_mac-mac_string m h size = cc

-- What is read

hex_value-lt : (c v : ℕ) → hex_value c ≡ some v → v < 16
unfolding hex_value
hex_value-lt c v h = ground arith

hex_pair-lt : (a b v : ℕ) → hex_pair a b ≡ some v → v < 256
unfolding hex_pair
hex_pair-lt a b v h = elim (Option-cases (hex_value a)) [
  | inl e ↦ absurd (ground arith)
  | inr (x, e) ↦ elim (Option-cases (hex_value b)) [
    | inl f ↦ absurd (ground arith)
    | inr (y, f) ↦ ground (arith, hex_value-lt a x e, hex_value-lt b y f)
  ]
]

parse_pairs_shape :
    (sep : ℕ) (s xs : Bytes)
    → parse_pairs sep s ≡ some xs
    → (length s + 1 ≡ 3 * length xs) × AreBytes xs
unfolding parse_pairs
parse_pairs_shape sep (a ∷ b ∷ []) xs h = elim (Option-cases (hex_pair a b)) [
  | inl e ↦ absurd (ground arith)
  | inr (x, e) ↦ ground (arith, hex_pair-lt a b x e)
]
parse_pairs_shape sep (a ∷ b ∷ c ∷ s) xs h = elim (Option-cases (hex_pair a b)) [
  | inl e ↦ absurd (ground arith)
  | inr (x, e) ↦ elim (Option-cases (parse_pairs sep s)) [
    | inl f ↦ absurd (ground arith)
    | inr (ys, f) ↦ ground (arith, hex_pair-lt a b x e, parse_pairs_shape sep s ys f)
  ]
]
parse_pairs_shape sep s xs h = absurd (ground arith)

parse_groups_shape :
    (s xs : Bytes) → parse_groups s ≡ some xs → (2 * length s + 2 ≡ 5 * length xs) × AreBytes xs
unfolding parse_groups
parse_groups_shape (a ∷ b ∷ c ∷ d ∷ []) xs h = elim (Option-cases (hex_pair a b)) [
  | inl e ↦ absurd (ground arith)
  | inr (x, e) ↦ elim (Option-cases (hex_pair c d)) [
    | inl f ↦ absurd (ground arith)
    | inr (y, f) ↦ ground (arith, hex_pair-lt a b x e, hex_pair-lt c d y f)
  ]
]
parse_groups_shape (a ∷ b ∷ c ∷ d ∷ e ∷ s) xs h = elim (Option-cases (hex_pair a b)) [
  | inl ea ↦ absurd (ground arith)
  | inr (x, ea) ↦ elim (Option-cases (hex_pair c d)) [
    | inl ec ↦ absurd (ground arith)
    | inr (y, ec) ↦ elim (Option-cases (parse_groups s)) [
      | inl f ↦ absurd (ground arith)
      | inr (ys, f) ↦
          ground (arith, hex_pair-lt a b x ea, hex_pair-lt c d y ec, parse_groups_shape s ys f)
    ]
  ]
]
parse_groups_shape s xs h = absurd (ground arith)

sized-eq-some :
    (b : Bool) (r : Option Bytes) {m : Bytes} → sized b r ≡ some m → (b ≡ true) × (r ≡ some m)
sized-eq-some true r h = (refl, h)
sized-eq-some false r h = cc

and_right : (a b : Bool) → (a && b) ≡ true → b ≡ true
and_right true b h = h
and_right false b h = cc

pairs_sized :
    (c : ℕ) (s m : Bytes)
    → sized ((length s + 1) % 3 == 0 && mac_size ((length s + 1) / 3)) (parse_pairs c s) ≡ some m
    → (mac_size (length m) ≡ true) × AreBytes m
pairs_sized c s m h =
    let (tests, read) = sized-eq-some _ (parse_pairs c s) h in
    let (len, bytes) = parse_pairs_shape c s m read in
    let third : (length s + 1) / 3 ≡ length m = omega arith in
    (rw third at (and_right _ (mac_size ((length s + 1) / 3)) tests), bytes)

groups_sized :
    (s m : Bytes)
    → sized ((length s + 1) % 5 == 0 && mac_size (2 * (length s + 1) / 5)) (parse_groups s) ≡ some m
    → (mac_size (length m) ≡ true) × AreBytes m
groups_sized s m h =
    let (tests, read) = sized-eq-some _ (parse_groups s) h in
    let (len, bytes) = parse_groups_shape s m read in
    let fifth : 2 * (length s + 1) / 5 ≡ length m = omega arith in
    (rw fifth at (and_right _ (mac_size (2 * (length s + 1) / 5)) tests), bytes)

parse_mac_by_shape :
    (s m : Bytes) → parse_mac_by s ≡ some m → (mac_size (length m) ≡ true) × AreBytes m
unfolding parse_mac_by
parse_mac_by_shape (a ∷ b ∷ c ∷ d ∷ e ∷ s) m h = elim (Bool-cases (c == b':' || c == b'-')) [
  | inl t ↦ pairs_sized c (a ∷ b ∷ c ∷ d ∷ e ∷ s) m (rw t at h)
  | inr t ↦ elim (Bool-cases (e == b'.')) [
    | inl u ↦ groups_sized (a ∷ b ∷ c ∷ d ∷ e ∷ s) m (rw (t, u) at h)
    | inr u ↦ absurd (ground arith)
  ]
]
parse_mac_by_shape s m h = absurd (ground arith)

-- An address that is read is six, eight or twenty bytes.
pub parse_mac_shape :
    (s m : Bytes) → parse_mac s ≡ some m → (mac_size (length m) ≡ true) × AreBytes m
unfolding parse_mac
parse_mac_shape s m h = elim (Bool-cases (ltb (length s) 14)) [
  | inl e ↦ absurd (ground arith)
  | inr e ↦ parse_mac_by_shape s m (rw e at h)
]

pub parse_mac_nil : parse_mac [] ≡ none
unfolding parse_mac
parse_mac_nil = refl
