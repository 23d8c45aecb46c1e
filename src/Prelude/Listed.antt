-- ===== src/Prelude/Listed.antt =====
-- Maps beside the order in which their keys came, as the bounded tables of the code keep them.
use Prim.Native.Nat.{◌+◌, ◌≤◌}
use Prim.Native.String.{String}
use mathlib.Core.Path.{◌≡◌, refl, sym, ap, ◌∙◌}
use mathlib.Core.Logic.{◌≢◌, inl, inr}
use mathlib.Core.Bool.{Bool, true, false, ◌||◌}
use mathlib.Core.List.{List, [], ◌∷◌, ◌++◌}
use mathlib.Core.Option.{none, some}
use native.Mathlib.Omega.{arith}
use text.Mathlib.Text.{◌==◌ as str_eq}
use text.Mathlib.TextEquality.{eq_iff}
use text.Mathlib.TextPositions.{eq_refl}
use limit_plane.Prelude.Tests.{Option-cases, Bool-cases}
use limit_plane.Prelude.Lists.{length}
use limit_plane.Prelude.Assoc.{
  Assoc, lookup, insert, delete, contains, lookup-insert, lookup-delete, lookup_of_contains, Unique,
  delete-Unique, delete_absent, length-delete,
}

unfoldable pub seen : String → List String → Bool
seen k [] = false
seen k (x ∷ xs) = str_eq x k || seen k xs

pub seen-append : (k : String) (xs ys : List String) → seen k (xs ++ ys) ≡ (seen k xs || seen k ys)
unfolding seen
seen-append k [] ys = refl
seen-append k (x ∷ xs) ys = ground (arith, seen-append k xs ys)

module _ {ℓ} {V : Type ℓ} where
  none≢some : (x : V) → none ≢ some x
  none≢some x q = ground arith

  -- Every key of the map is in the order.
  abbrev pub Listed : Assoc V → List String → Type ℓ
  Listed m order = (k : String) (x : V) → lookup k m ≡ some x → seen k order ≡ true

  -- A new key at the end.
  pub append-Listed :
      (t : String) (y : V) (m : Assoc V) (order : List String)
      → Listed m order
      → Listed (insert t y m) (order ++ t ∷ [])
  unfolding seen
  append-Listed t y m order s k x e = elim (Bool-cases (str_eq t k)) [
    | inl g ↦ ground (arith, g, seen-append k order (t ∷ []))
    | inr g ↦
        ground (arith, s k x (rw (lookup-insert t k y m, g) at e), seen-append k order (t ∷ []))
  ]

  -- The oldest key gives way.
  pub delete-Listed :
      (oldest : String) (rest : List String) (m : Assoc V)
      → Listed m (oldest ∷ rest)
      → Listed (delete oldest m) rest
  unfolding seen
  delete-Listed oldest rest m s k x e = elim (Bool-cases (str_eq oldest k)) [
    | inl g ↦ absurd (none≢some x (rw (lookup-delete oldest k m, g) at e))
    | inr g ↦ ground (arith, s k x (rw (lookup-delete oldest k m, g) at e), g)
  ]

  -- A key that is there gets a new value.
  pub update-Listed :
      (t : String) (y : V) (m : Assoc V) (order : List String)
      → contains t m ≡ true
      → Listed m order
      → Listed (insert t y m) order
  update-Listed t y m order h s k x e =
      let (z, f) = lookup_of_contains t m h in
      elim (Bool-cases (str_eq t k)) [
        | inl g ↦ ap (λ (j : String). seen j order) (sym ((eq_iff t k).0 g)) ∙ s t z f
        | inr g ↦ s k x (rw (lookup-insert t k y m, g) at e)
      ]

  length-delete-ge : (k : String) (m : Assoc V) → Unique m → length m ≤ length (delete k m) + 1
  unfolding contains
  length-delete-ge k m u = elim (Option-cases (lookup k m)) [
    | inl e ↦ omega (arith, ap length (delete_absent k m e))
    | inr (v, e) ↦ omega (arith, length-delete k m u (rw (e, contains) refl))
  ]

  -- A map whose keys stand once has no more entries than the order that lists them.
  pub length-Listed :
      (m : Assoc V) (order : List String) → Unique m → Listed m order → length m ≤ length order
  unfolding seen lookup
  length-Listed [] [] u s = omega arith
  length-Listed ((k, v) ∷ m) [] u s = absurd (false≢true (s k v (rw (eq_refl k) refl)))
    where
      false≢true : false ≢ true
      false≢true q = ground arith
  length-Listed m (oldest ∷ rest) u s = omega (
    arith,
    length-delete-ge oldest m u,
    length-Listed (delete oldest m) rest (delete-Unique oldest m u) (delete-Listed oldest rest m s),
  )
