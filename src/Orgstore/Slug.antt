-- ===== src/Orgstore/Slug.antt =====
-- orgstore.go: the shape of a slug.
use limit_plane.Prelude.{
  leb, ◌==◌, if◌then◌else◌, Bool-cases, ℕ, ◌≡◌, refl, ap, ◌∙◌, inl, inr, Bool, true, false, not,
  ◌&&◌, ◌||◌, [], ◌∷◌, ◌++◌, arith,
}
use limit_plane.Wshub.{Bytes}
use limit_plane.Orgstore.{fold_name, trim_left, cut_after, trim_right, slug}

-- A letter or digit.
unfoldable pub is_plain : ℕ → Bool
is_plain c = (leb b'a' c && leb c b'z') || (leb b'0' c && leb c b'9')

-- Letters and digits, with single dashes between them: `dash` says that the byte before was no letter.
unfoldable pub is_tidy : Bool → Bytes → Bool
is_tidy dash [] = true
is_tidy dash (c ∷ cs) =
    let plain = is_tidy false cs in
    let dashed = is_tidy true cs in if is_plain c then plain else (c == b'-') && not dash && dashed

-- Not at an end, and not twice.
unfoldable pub ends_plain : Bytes → Bool
ends_plain [] = true
ends_plain (c ∷ []) = is_plain c
ends_plain (c ∷ d ∷ ds) = ends_plain (d ∷ ds)

fold_name-tidy : (dash : Bool) (cs : Bytes) → is_tidy dash (fold_name dash cs) ≡ true
unfolding fold_name is_tidy is_plain
fold_name-tidy dash [] = refl
fold_name-tidy true (c ∷ cs) = ground (arith, fold_name-tidy false cs, fold_name-tidy true cs)
fold_name-tidy false (c ∷ cs) = ground (arith, fold_name-tidy false cs, fold_name-tidy true cs)

is_tidy-weaker : (cs : Bytes) → is_tidy true cs ≡ true → is_tidy false cs ≡ true
unfolding is_tidy
is_tidy-weaker [] h = refl
is_tidy-weaker (c ∷ cs) h = ground (arith, h)

-- Without the dashes in front, no letter before is needed.
trim_left-tidy : (cs : Bytes) → is_tidy false cs ≡ true → is_tidy true (trim_left cs) ≡ true
unfolding trim_left is_tidy is_plain
trim_left-tidy [] h = refl
trim_left-tidy (c ∷ cs) h = ground (arith, h, trim_left-tidy cs, is_tidy-weaker cs)

cut_after-tidy :
    (dash : Bool) (c : ℕ) (rest : Bytes)
    → is_tidy dash (c ∷ rest) ≡ true
    → ends_plain rest ≡ true
    → (is_tidy dash (cut_after c rest) ≡ true) × (ends_plain (cut_after c rest) ≡ true)
unfolding cut_after is_tidy ends_plain is_plain
cut_after-tidy dash c [] h e = ground (arith, h)
cut_after-tidy dash c (d ∷ ds) h e = (h, e)

-- Without the dashes behind, it stays tidy and ends in a letter or digit.
trim_right-tidy :
    (dash : Bool) (cs : Bytes)
    → is_tidy dash cs ≡ true
    → (is_tidy dash (trim_right cs) ≡ true) × (ends_plain (trim_right cs) ≡ true)
unfolding trim_right is_tidy ends_plain
trim_right-tidy dash [] h = (refl, refl)
trim_right-tidy dash (c ∷ cs) h = elim (Bool-cases (is_plain c)) [
  | inl e ↦
      let (tidy, ends) = trim_right-tidy false cs (rw e at h) in
      cut_after-tidy dash c (trim_right cs) (ground (arith, e, tidy)) ends
  | inr e ↦
      let (tidy, ends) = trim_right-tidy true cs (ground (arith, e, h)) in
      cut_after-tidy dash c (trim_right cs) (ground (arith, e, tidy, h)) ends
]

-- What is tidy is not changed.
fold_name_tidy : (dash : Bool) (cs : Bytes) → is_tidy dash cs ≡ true → fold_name dash cs ≡ cs
unfolding fold_name is_tidy is_plain
fold_name_tidy dash [] h = refl
fold_name_tidy true (c ∷ cs) h = ground (arith, h, fold_name_tidy false cs)
fold_name_tidy false (c ∷ cs) h = ground (arith, h, fold_name_tidy false cs, fold_name_tidy true cs)

trim_left_tidy : (cs : Bytes) → is_tidy true cs ≡ true → trim_left cs ≡ cs
unfolding trim_left is_tidy is_plain
trim_left_tidy [] h = refl
trim_left_tidy (c ∷ cs) h = ground (arith, h)

trim_right_plain : (cs : Bytes) → ends_plain cs ≡ true → trim_right cs ≡ cs
unfolding trim_right cut_after ends_plain is_plain
trim_right_plain [] h = refl
trim_right_plain (c ∷ []) h = ground (arith, h)
trim_right_plain (c ∷ d ∷ ds) h = ap (cut_after c) (trim_right_plain (d ∷ ds) h)

abbrev pub org_prefix : Bytes
org_prefix = b'o' ∷ b'r' ∷ b'g' ∷ b'_' ∷ []

-- Whatever the name, its slug is "org_" and a body of letters and digits with single dashes between them,
-- none at an end; and the body as a name has the same slug.
pub slug-tidy :
    (lower : Bytes)
    → (body : Bytes) × (slug lower ≡ org_prefix ++ body)
      × (is_tidy true body ≡ true)
      × (ends_plain body ≡ true)
      × (slug body ≡ slug lower)
unfolding slug
slug-tidy lower =
    let folded = fold_name-tidy false lower in
    let inner = trim_left (fold_name false lower) in
    let (tidy, ends) = trim_right-tidy true inner (trim_left-tidy _ folded) in
    let body = trim_right inner in
    let same : trim_right (trim_left (fold_name false body)) ≡ body =
      ap (λ xs. trim_right (trim_left xs)) (fold_name_tidy false body (is_tidy-weaker body tidy))
      ∙ ap trim_right (trim_left_tidy body tidy)
      ∙ trim_right_plain body ends in
    (body, refl, tidy, ends, ap (λ xs. org_prefix ++ xs) same)
