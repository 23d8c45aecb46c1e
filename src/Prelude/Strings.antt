-- ===== src/Prelude/Strings.antt =====
-- Bytes as Go's `strings` package takes them apart.
use Prim.Native.Nat.{ℕ}
use mathlib.Core.Path.{◌≡◌, refl}
use mathlib.Core.Bool.{Bool, true, false, ◌&&◌}
use mathlib.Core.List.{List, [], ◌∷◌, ◌++◌}
use mathlib.Core.Option.{Option, none, some}
use native.Mathlib.Omega.{arith}
use limit_plane.Prelude.Tests.{◌==◌, if◌then◌else◌}
use limit_plane.Prelude.Lists.{All}

abbrev Bytes : Type 0
Bytes = List ℕ

-- `strings.Split` at a byte, and `strings.Cut`.
unfoldable pub join_first : ℕ → List Bytes → List Bytes
join_first c [] = (c ∷ []) ∷ []
join_first c (part ∷ parts) = (c ∷ part) ∷ parts

unfoldable pub split_at : ℕ → Bytes → List Bytes
unfolding join_first
split_at sep [] = [] ∷ []
split_at sep (c ∷ cs) =
    let rest = split_at sep cs in if c == sep then [] ∷ rest else join_first c rest

unfoldable pub cut_at : ℕ → Bytes → Option (Bytes × Bytes)
cut_at sep [] = none
cut_at sep (c ∷ cs) =
    let rest = cut_at sep cs in
    if c == sep then some ([], cs) else elim rest [ none ↦ none | some p ↦ some (c ∷ p.0, p.1) ]

unfoldable pub bytes_eq : Bytes → Bytes → Bool
bytes_eq [] [] = true
bytes_eq [] (y ∷ ys) = false
bytes_eq (x ∷ xs) [] = false
bytes_eq (x ∷ xs) (y ∷ ys) = (x == y) && bytes_eq xs ys

pub bytes_eq_refl : (xs : Bytes) → bytes_eq xs xs ≡ true
unfolding bytes_eq
bytes_eq_refl [] = refl
bytes_eq_refl (x ∷ xs) = ground (arith, bytes_eq_refl xs)

-- No byte is this one.
abbrev pub Lacks : ℕ → Bytes → Type 0
Lacks sep xs = All (λ c. (c == sep) ≡ false) xs

pub split_at_last : (sep : ℕ) (xs : Bytes) → Lacks sep xs → split_at sep xs ≡ xs ∷ []
unfolding split_at join_first
split_at_last sep [] h = refl
split_at_last sep (c ∷ cs) h = rw (h.0, split_at_last sep cs h.1) refl

pub split_at_first :
    (sep : ℕ) (xs ys : Bytes) → Lacks sep xs → split_at sep (xs ++ sep ∷ ys) ≡ xs ∷ split_at sep ys
unfolding split_at join_first
split_at_first sep [] ys h = ground arith
split_at_first sep (c ∷ cs) ys h = rw (h.0, split_at_first sep cs ys h.1) refl
