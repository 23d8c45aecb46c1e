-- ===== src/Audit/History.antt =====
-- audit.go: what is read after any number of events.
use mathlib.Core.List.{reverse, append-nil, append_assoc, reverse-append}
use limit_plane.Prelude.{
  ltb, leb, if◌then◌else◌, Bool-cases, ltb→lt, leb→le, leb-false, pos_part, leb_ℤ, eqb_ℤ, ℤ, pos,
  length, take, take_all, drop, length-drop, drop-drop_append, drop-append_left, ℕ, suc, ◌-◌, ◌≤◌,
  ◌<◌, ◌≡◌, refl, sym, ap, ◌∙◌, inl, inr, ◌||◌, some, List, [], ◌∷◌, ◌++◌, arith,
}
use limit_plane.Audit.{new, stamped, write, append_event, recent, Event, Log}
use limit_plane.Audit.Ring.{
  pages, length-pages, new-IsRing, write-IsRing, latest, latest_all, latest_tail, latest_at,
  pages-new, length-snoc, pages-write, recent-pages, IsRing,
}

-- The events of a history; one with no time gets that of the clock.
unfoldable pub append_all : Log → List (ℤ × Event) → Log
append_all l [] = l
append_all l ((now, e) ∷ es) = append_all (append_event l now e).1 es

unfoldable pub stamp_all : List (ℤ × Event) → List Event
stamp_all [] = []
stamp_all ((now, e) ∷ es) =
    record e { at = if eqb_ℤ e.at (pos 0) then now else e.at } ∷ stamp_all es

stamped_lem :
    (now : ℤ) (e : Event)
    → stamped now e ≡ record e { at = if eqb_ℤ e.at (pos 0) then now else e.at }
unfolding stamped
stamped_lem now e = ground arith

stamps : List (ℤ × Event) → List Event
stamps [] = []
stamps ((now, e) ∷ es) = stamped now e ∷ stamps es

stamps-stamp_all : (es : List (ℤ × Event)) → stamps es ≡ stamp_all es
unfolding stamps stamp_all
stamps-stamp_all [] = refl
stamps-stamp_all ((now, e) ∷ es) = rw (stamped_lem now e) (rw (stamps-stamp_all es) refl)

latest-latest :
    (n : ℕ) (xs : List Event) (e : Event)
    → 0 < n
    → latest n (latest n xs ++ e ∷ []) ≡ latest n (xs ++ e ∷ [])
unfolding latest
latest-latest n xs e h = elim (Bool-cases (leb (length xs) n)) [
  | inl f ↦ ap (λ (ys : List Event). latest n (ys ++ e ∷ [])) (latest_all n xs (leb→le _ _ f))
  | inr f ↦ shifted (leb-false _ _ f)
]
  where
    shifted : n < length xs → latest n (latest n xs ++ e ∷ []) ≡ latest n (xs ++ e ∷ [])
    shifted g =
        let k = length xs - n in
        latest_tail n (drop k xs ++ e ∷ [])
          (omega (arith, length-snoc (drop k xs) e, length-drop k xs))
        ∙ drop-drop_append xs (e ∷ []) k (omega arith)
        ∙ sym (
            latest_at (suc k) n (xs ++ e ∷ []) (omega (arith, length-snoc xs e))
            ∙ drop-append_left (suc k) xs (e ∷ []) (omega arith))

max-write : (l : Log) (e : Event) → (write l e).max ≡ l.max
unfolding write
max-write l e = ground arith

append_all-pages :
    (l : Log) (hist : List Event) (es : List (ℤ × Event))
    → IsRing l
    → pages l ≡ latest l.max hist
    → IsRing (append_all l es)
      × ((append_all l es).max ≡ l.max)
      × (pages (append_all l es) ≡ latest l.max (hist ++ stamps es))
unfolding append_all stamps append_event
append_all-pages l hist [] r e = (r, refl, rw (append-nil hist) e)
append_all-pages l hist ((now, x) ∷ es) r e =
    let y = stamped now x in
    let e' : pages (write l y) ≡ latest (write l y).max (hist ++ y ∷ []) =
      pages-write l y r
      ∙ ap (λ (ys : List Event). latest l.max (ys ++ y ∷ [])) e
      ∙ latest-latest l.max hist y r.sized
      ∙ sym (ap (λ (n : ℕ). latest n (hist ++ y ∷ [])) (max-write l y)) in
    let (r', m, q) = append_all-pages (write l y) (hist ++ y ∷ []) es (write-IsRing l y r) e' in
    (
      r',
      m ∙ max-write l y,
      q
          ∙ ap (λ (n : ℕ). latest n ((hist ++ y ∷ []) ++ stamps es)) (max-write l y)
          ∙ ap (latest l.max) (append_assoc hist (y ∷ []) (stamps es)),
    )

-- The size of a ring that is made with `max`, and what a reader who asks for `n` events gets of those
-- that are kept.
unfoldable pub size : ℤ → ℕ
size max = if leb_ℤ max (pos 0) then 1000 else pos_part max

unfoldable pub wanted : ℤ → List Event → List Event
wanted n xs = if leb_ℤ n (pos 0) then xs else take (pos_part n) xs

length-reverse : (xs : List Event) → length (reverse xs) ≡ length xs
length-reverse [] = refl
length-reverse (x ∷ xs) =
    ap length (reverse-append (x ∷ []) xs) ∙ length-snoc (reverse xs) x ∙ ap suc (length-reverse xs)

taken-wanted :
    (n : ℤ) (k : ℕ) (xs : List Event)
    → length xs ≡ k
    → take (if leb_ℤ n (pos 0) || ltb k (pos_part n) then k else pos_part n) (reverse xs)
      ≡ wanted n (reverse xs)
unfolding wanted
taken-wanted n k xs h = elim (Bool-cases (leb_ℤ n (pos 0))) [
  | inl e ↦ rw e (take_all (reverse xs) k (omega (arith, h, length-reverse xs)))
  | inr e ↦ elim (Bool-cases (ltb k (pos_part n))) [
    | inl f ↦
        rw (e, f)
          (whole (omega (arith, h, length-reverse xs))
            (omega (arith, h, length-reverse xs, ltb→lt k (pos_part n) f)))
    | inr f ↦ rw (e, f) refl
  ]
]
  where
    whole :
        length (reverse xs) ≤ k
        → length (reverse xs) ≤ pos_part n
        → take k (reverse xs) ≡ take (pos_part n) (reverse xs)
    whole a b = take_all (reverse xs) k a ∙ sym (take_all (reverse xs) (pos_part n) b)

-- After any events, a new ring reads out the last of them, newest first and without reading out of
-- bounds: of the last `max` events, or the last thousand where `max` is not positive, the `n` that came
-- last, or all where `n` is not positive or there are fewer.
pub recent-append_all :
    (max n : ℤ) (es : List (ℤ × Event))
    → recent (append_all (new max) es) n
      ≡ some (wanted n (reverse (latest (size max) (stamp_all es))))
unfolding size new
recent-append_all max n es =
    let (r, m, q) = append_all-pages (new max) [] es (new-IsRing max) (pages-new max) in
    let l = append_all (new max) es in
    recent-pages l n r
    ∙ ap some (taken-wanted n l.count (pages l) (length-pages l r))
    ∙ ap (λ (xs : List Event). some (wanted n (reverse xs)))
        (q ∙ ap (latest (new max).max) (stamps-stamp_all es))
