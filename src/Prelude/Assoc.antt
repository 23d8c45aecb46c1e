-- ===== src/Prelude/Assoc.antt =====
-- A Go map with string keys, as an association list: `m[k]`, `m[k] = v`, `delete(m, k)`.
use Prim.Native.Nat.{◌+◌, ◌≤◌, ◌<◌}
use Prim.Native.String.{String}
use mathlib.Core.Path.{◌≡◌, refl, sym, ap}
use mathlib.Core.Logic.{inl, inr}
use mathlib.Core.Bool.{Bool, true, false}
use mathlib.Core.List.{List, [], ◌∷◌}
use mathlib.Core.Option.{Option, none, some}
use native.Mathlib.Omega.{arith}
use text.Mathlib.Text.{◌==◌ as str_eq}
use text.Mathlib.TextEquality.{eq_iff}
use text.Mathlib.TextPositions.{eq_refl}
use limit_plane.Prelude.Tests.{if◌then◌else◌, Option-cases, Bool-cases, ne_false}
use limit_plane.Prelude.Lists.{length}

-- The entries of the map.
abbrev pub Assoc {κ} : Type κ → Type κ
Assoc X = List (String × X)

module _ {ℓ} {V : Type ℓ} where
  unfoldable pub delete : String → Assoc V → Assoc V
  delete key [] = []
  delete key ((name, x) ∷ entries) =
      let others = delete key entries in if str_eq name key then others else (name, x) ∷ others

  unfoldable pub insert : String → V → Assoc V → Assoc V
  insert key new [] = (key, new) ∷ []
  insert key new ((name, x) ∷ entries) =
      let others = insert key new entries in
      if str_eq name key then (key, new) ∷ entries else (name, x) ∷ others

  unfoldable pub lookup : String → Assoc V → Option V
  lookup key [] = none
  lookup key ((name, x) ∷ entries) =
      let others = lookup key entries in if str_eq name key then some x else others

  unfoldable pub contains : String → Assoc V → Bool
  unfolding lookup
  contains key m = elim (lookup key m) [ none ↦ false | some x ↦ true ]

  pub lookup-delete :
      (gone key : String) (m : Assoc V)
      → lookup key (delete gone m) ≡ (if str_eq gone key then none else lookup key m)
  unfolding delete lookup
  lookup-delete gone key [] = ground arith
  lookup-delete gone key ((name, x) ∷ entries) =
      ground
        (arith, lookup-delete gone key entries, eq_iff gone key, eq_iff name gone, eq_iff name key)

  pub lookup-insert :
      (set key : String) (new : V) (m : Assoc V)
      → lookup key (insert set new m) ≡ (if str_eq set key then some new else lookup key m)
  unfolding insert lookup
  lookup-insert set key new [] = refl
  lookup-insert set key new ((name, x) ∷ entries) =
      ground
        (arith, lookup-insert set key new entries, eq_iff set key, eq_iff name set, eq_iff name key)

  pub lookup-insert_self : (k : String) (v : V) (m : Assoc V) → lookup k (insert k v m) ≡ some v
  lookup-insert_self k v m = simp (lookup-insert, eq_refl)

  pub lookup-delete_self : (k : String) (m : Assoc V) → lookup k (delete k m) ≡ none
  lookup-delete_self k m = simp (lookup-delete, eq_refl)

  pub lookup-insert_ne :
      (k j : String) (v : V) (m : Assoc V)
      → str_eq k j ≡ false
      → lookup j (insert k v m) ≡ lookup j m
  lookup-insert_ne k j v m h = rw (lookup-insert k j v m, h)

  pub lookup-delete_ne :
      (k j : String) (m : Assoc V) → str_eq k j ≡ false → lookup j (delete k m) ≡ lookup j m
  lookup-delete_ne k j m h = rw (lookup-delete k j m, h)

  pub length-insert-le : (k : String) (v : V) (m : Assoc V) → length (insert k v m) ≤ length m + 1
  unfolding insert
  length-insert-le k v [] = omega arith
  length-insert-le k v ((j, w) ∷ m) = ground (arith, length-insert-le k v m)

  pub length-delete-le : (k : String) (m : Assoc V) → length (delete k m) ≤ length m
  unfolding delete
  length-delete-le k [] = omega arith
  length-delete-le k ((j, w) ∷ m) = ground (arith, length-delete-le k m)

  pub lookup_of_contains :
      (k : String) (m : Assoc V) → contains k m ≡ true → (v : V) × (lookup k m ≡ some v)
  unfolding contains
  lookup_of_contains k m h = elim (Option-cases (lookup k m)) [
    | inl e ↦ cc (rw (e, contains) at h)
    | inr (v, e) ↦ (v, e)
  ]

  pub length-insert-pos : (k : String) (v : V) (m : Assoc V) → 0 < length (insert k v m)
  unfolding insert
  length-insert-pos k v [] = omega arith
  length-insert-pos k v ((j, w) ∷ m) = ground arith

  -- Every key stands once.
  abbrev pub Unique : Assoc V → Type ℓ
  Unique [] = Unit
  Unique ((k, v) ∷ m) = (lookup k m ≡ none) × Unique m

  pub insert-Unique : (k : String) (v : V) (m : Assoc V) → Unique m → Unique (insert k v m)
  unfolding insert
  insert-Unique k v [] u = (unfold lookup in refl, tt)
  insert-Unique k v ((j, w) ∷ m) u = elim (Bool-cases (str_eq j k)) [
    | inl e ↦ rw (e, insert) (rw (sym ((eq_iff j k).0 e)) u.0, u.1)
    | inr e ↦
        rw (e, insert)
          (
            rw (lookup-insert k j v m, ne_false k j (λ q. cc ((eq_iff j k).1 (sym q)))) u.0,
            insert-Unique k v m u.1,
          )
  ]

  pub delete_absent : (k : String) (m : Assoc V) → lookup k m ≡ none → delete k m ≡ m
  unfolding delete lookup
  delete_absent k [] h = refl
  delete_absent k ((j, w) ∷ m) h = ground (arith, delete_absent k m)

  pub delete-Unique : (k : String) (m : Assoc V) → Unique m → Unique (delete k m)
  unfolding delete
  delete-Unique k [] u = tt
  delete-Unique k ((j, w) ∷ m) u = elim (Bool-cases (str_eq j k)) [
    | inl e ↦ rw (e, delete) (delete-Unique k m u.1)
    | inr e ↦
        rw (e, delete)
          (
            rw (lookup-delete k j m, ne_false k j (λ q. cc ((eq_iff j k).1 (sym q)))) u.0,
            delete-Unique k m u.1,
          )
  ]

  pub length-delete :
      (k : String) (m : Assoc V)
      → Unique m
      → contains k m ≡ true
      → length (delete k m) + 1 ≡ length m
  unfolding delete contains lookup
  length-delete k [] u h = cc
  length-delete k ((j, w) ∷ m) u h = elim (Bool-cases (str_eq j k)) [
    | inl e ↦
        rw (e, delete) (omega (arith, ap length (delete_absent k m (rw ((eq_iff j k).0 e) at u.0))))
    | inr e ↦ rw (e, delete) (omega (arith, length-delete k m u.1 (rw (e, contains, lookup) at h)))
  ]
