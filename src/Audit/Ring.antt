-- ===== src/Audit/Ring.antt =====
-- audit.go: the ring holds the latest events, and reads them newest first.
use mathlib.Core.List.{reverse, append_assoc, append-nil, reverse-append}
use mathlib.Core.Option
use native.Mathlib.Nat.{mod-eq_of_lt, mod-eq-sub-mod}
use limit_plane.Prelude.{
  ltb, ◌==◌, if◌then◌else◌, Bool-cases, ltb→lt, ltb-false, ==→eq, pos_part, leb_ℤ, ℤ, pos, length,
  get_elem?, set, take, drop, length-append, length-drop, length-set, get_elem?-lt, drop-set,
  take-set, drop-drop_append, drop_all, take_all, length-take, take-suc, get_elem?-append_left,
  get_elem?-append_right, get_elem?-drop, get_elem?-take, ℕ, zero, suc, ◌+◌, ◌-◌, ◌%◌, ◌≤◌, ◌<◌,
  ◌≡◌, refl, sym, ap, ◌∙◌, ◌⊎◌, inl, inr, true, false, ◌||◌, some, List, [], ◌∷◌, ◌++◌, arith,
}
use limit_plane.Audit.{new, write, walk, recent, Event, Log}

-- The events that the ring holds, oldest first.
unfoldable pub pages : Log → List Event
pages l = drop l.start l.buf ++ take l.start l.buf

pub record IsRing (l : Log) : Type 0 where
  pub sized : 0 < l.max
  pub filled : length l.buf ≡ l.count
  pub bounded : l.count ≤ l.max
  pub rotated : (l.start ≡ 0) ⊎ ((l.count ≡ l.max) × (l.start < l.max))

pub new-IsRing : (max : ℤ) → IsRing (new max)
unfolding new
new-IsRing max = ground arith

pub write-IsRing : (l : Log) (e : Event) → IsRing l → IsRing (write l e)
unfolding write
write-IsRing l e r = ground (arith, length-set l.buf l.start e, length-append l.buf (e ∷ []))

-- The last `n` of a list.
unfoldable pub latest : ℕ → List Event → List Event
latest n xs = drop (length xs - n) xs

pub length-pages : (l : Log) → IsRing l → length (pages l) ≡ l.count
unfolding pages
length-pages l r = omega (
  arith,
  length-append (drop l.start l.buf) (take l.start l.buf),
  length-drop l.start l.buf,
  length-take l.start l.buf,
  r,
)

pub latest_all : (n : ℕ) (xs : List Event) → length xs ≤ n → latest n xs ≡ xs
unfolding latest
latest_all n xs h = let e : length xs - n ≡ 0 = omega arith in rw e refl

pub latest_tail : (n : ℕ) (xs : List Event) → length xs ≡ suc n → latest n xs ≡ drop 1 xs
unfolding latest
latest_tail n xs h = let e : length xs - n ≡ 1 = omega arith in rw e refl

pub latest_at : (k n : ℕ) (xs : List Event) → length xs ≡ k + n → latest n xs ≡ drop k xs
unfolding latest
latest_at k n xs h = let e : length xs - n ≡ k = omega arith in rw e refl

pub pages-new : (max : ℤ) → pages (new max) ≡ latest (new max).max []
unfolding new pages latest
pages-new max = sym (nil_drop ((new max).max))
  where
    nil_drop : (n : ℕ) → drop {A = Event} (0 - n) [] ≡ []
    nil_drop n = let e : 0 - n ≡ 0 = omega arith in rw e refl

pub length-snoc : (xs : List Event) (e : Event) → length (xs ++ e ∷ []) ≡ suc (length xs)
length-snoc xs e = omega (arith, length-append xs (e ∷ []))

-- A write into a ring that is not full.
pages-append :
    (l : Log) (e : Event)
    → IsRing l
    → ltb l.count l.max ≡ true
    → pages (write l e) ≡ latest l.max (pages l ++ e ∷ [])
unfolding pages write
pages-append l e r h =
    let z : l.start ≡ 0 = omega (arith, r, ltb→lt l.count l.max h) in
    rw (h, write)
      (rw (z, append-nil (l.buf ++ e ∷ []), append-nil l.buf)
        (sym (
          latest_all l.max (l.buf ++ e ∷ [])
            (omega (arith, length-snoc l.buf e, r, ltb→lt l.count l.max h)))))

-- A write over the oldest page, at the place `i` of a buffer.
overwrite :
    (xs : List Event) (i : ℕ) (e : Event)
    → i < length xs
    → drop (suc i) (set xs i e) ++ take (suc i) (set xs i e)
      ≡ drop 1 ((drop i xs ++ take i xs) ++ e ∷ [])
overwrite xs i e h =
    rw
      (
        append_assoc (drop i xs) (take i xs) (e ∷ []),
        drop-drop_append xs (take i xs ++ e ∷ []) i h,
        drop-set xs i e,
        take-set xs i e h,
      )
      refl

-- The head of a full buffer that has moved past its end is back at the start.
rolled :
    (xs : List Event) (i m : ℕ)
    → length xs ≡ m
    → drop (if i + 1 == m then 0 else i + 1) xs ++ take (if i + 1 == m then 0 else i + 1) xs
      ≡ drop (suc i) xs ++ take (suc i) xs
rolled xs i m h = elim (Bool-cases (i + 1 == m)) [
  | inl e ↦
      let full : length xs ≤ suc i = omega (arith, h, ==→eq (i + 1) m e) in
      rw e (rw (drop_all xs (suc i) full, take_all xs (suc i) full, append-nil xs) refl)
  | inr e ↦ let next : i + 1 ≡ suc i = omega arith in rw e (rw next refl)
]

pages-overwrite :
    (l : Log) (e : Event)
    → IsRing l
    → ltb l.count l.max ≡ false
    → pages (write l e) ≡ latest l.max (pages l ++ e ∷ [])
unfolding pages write
pages-overwrite l e r h =
    let full : l.count ≡ l.max = omega (arith, r, ltb-false l.count l.max h) in
    let inside : l.start < length l.buf = omega (arith, r, full) in
    rw (h, write)
      (rolled (set l.buf l.start e) l.start l.max (length-set l.buf l.start e ∙ r.filled ∙ full)
        ∙ overwrite l.buf l.start e inside
        ∙ sym (
            latest_tail l.max (pages l ++ e ∷ [])
              (length-snoc (pages l) e ∙ ap suc (length-pages l r ∙ full))))

-- A write adds the event as the newest, and drops the oldest only when the ring is full.
pub pages-write :
    (l : Log) (e : Event) → IsRing l → pages (write l e) ≡ latest l.max (pages l ++ e ∷ [])
pages-write l e r = elim (Bool-cases (ltb l.count l.max)) [
  | inl h ↦ pages-append l e r h
  | inr h ↦ pages-overwrite l e r h
]

-- Reading.
page_at :
    (l : Log) (i : ℕ)
    → IsRing l
    → i < l.count
    → get_elem? l.buf ((l.start + i) % length l.buf) ≡ get_elem? (pages l) i
unfolding pages
page_at l i r h = elim (Bool-cases (ltb i (length (drop l.start l.buf)))) [
  | inl e ↦
      let near : i < length (drop l.start l.buf) = ltb→lt _ _ e in
      let index : (l.start + i) % length l.buf ≡ l.start + i =
        mod-eq_of_lt (omega (arith, near, length-drop l.start l.buf)) in
      rw index (
        sym (
          get_elem?-append_left (drop l.start l.buf) (take l.start l.buf) i near
          ∙ get_elem?-drop l.buf l.start i))
  | inr e ↦ wrapped (ltb-false _ _ e)
]
  where
    wrapped :
        length (drop l.start l.buf) ≤ i
        → get_elem? l.buf ((l.start + i) % length l.buf) ≡ get_elem? (pages l) i
    wrapped far =
        let back = i - length (drop l.start l.buf) in
        let cut : l.start + i - length l.buf ≡ back =
          omega (arith, far, length-drop l.start l.buf, r) in
        let index : (l.start + i) % length l.buf ≡ back =
          mod-eq-sub-mod (omega (arith, far, length-drop l.start l.buf, r))
          ∙ ap (λ (k : ℕ). k % length l.buf) cut
          ∙ mod-eq_of_lt (omega (arith, far, length-drop l.start l.buf, r, h)) in
        rw index (
          sym (
            get_elem?-append_right (drop l.start l.buf) (take l.start l.buf) i back
              (omega (arith, far))
            ∙ get_elem?-take l.buf l.start back
                (omega (arith, far, length-drop l.start l.buf, r, h))))

walk_step :
    (buf : List Event) (n idx : ℕ) (e : Event)
    → get_elem? buf (idx % length buf) ≡ some e
    → walk buf (suc n) idx ≡ Option.map (◌∷◌ e) (walk buf n (idx - 1))
unfolding walk
walk_step buf n idx e h = rw (h, walk) refl

walk-reverse :
    (l : Log) (n m : ℕ)
    → IsRing l
    → n ≤ m
    → m ≤ l.count
    → walk l.buf n (l.start + m - 1) ≡ some (take n (reverse (take m (pages l))))
unfolding walk
walk-reverse l zero m r h k = refl
walk-reverse l (suc n) zero r h k = absurd (omega arith)
walk-reverse l (suc n) (suc m) r h k =
    let (x, e) = get_elem?-lt (pages l) m (omega (arith, length-pages l r)) in
    let index : l.start + suc m - 1 ≡ l.start + m = omega arith in
    rw
      (
        index,
        walk_step l.buf n (l.start + m) x (page_at l m r (omega arith) ∙ e),
        walk-reverse l n m r (omega arith) (omega arith),
      )
      (rw (take-suc (pages l) m x e, reverse-append (take m (pages l)) (x ∷ [])) refl)

-- Reading the latest `n` events of a ring (all of them, where `n` is not positive or more than it
-- holds) gives them newest first, and never reads out of bounds.
pub recent-pages :
    (l : Log) (n : ℤ)
    → IsRing l
    → recent l n
      ≡ some (
          take
            (if leb_ℤ n (pos 0) || ltb l.count (pos_part n) then l.count else pos_part n)
            (reverse (pages l)))
unfolding recent
recent-pages l n r =
    walk-reverse l (if leb_ℤ n (pos 0) || ltb l.count (pos_part n) then l.count else pos_part n)
      l.count r (ground arith) (omega arith)
    ∙ ap
        (λ (xs : List Event). some (
          take (if leb_ℤ n (pos 0) || ltb l.count (pos_part n) then l.count else pos_part n)
            (reverse xs)))
        (take_all (pages l) l.count (omega (arith, length-pages l r)))
