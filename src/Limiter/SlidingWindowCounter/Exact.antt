-- ===== src/Limiter/SlidingWindowCounter/Exact.antt =====
-- windows.go: the two blocks of the sliding window counter against the checks that it has admitted.
use limit_plane.Prelude.{
  if◌then◌else◌, Bool-cases, ◌+ℤ◌, ◌-ℤ◌, ◌*ℤ◌, ◌≤ℤ◌, ◌<ℤ◌, eqb_ℤ, -ℤ_parts, eq_of_parts, int_laws,
  ℤ, pos, suc, ◌*◌, ◌≡◌, refl, sym, ap, inl, inr, Bool, true, false, Option, none, some, List, [],
  ◌∷◌, arith,
}
use limit_plane.Limiter.{unit, one, WindowArgs}
use limit_plane.Limiter.SlidingWindowCounter.Weighed.{
  in_block, exact, decide_blocks, decide_box-decide_blocks,
}
use limit_plane.Limiter.SlidingWindowCounter.{
  carried, current_entry, decide_box, check_box, SlidingBox,
}

-- One key's checks, each with its block, its time and its question, and the blocks of those admitted.
unfoldable pub run_boxes :
    Option SlidingBox × List ℤ → List (ℤ × ℤ × WindowArgs) → Option SlidingBox × List ℤ
run_boxes s [] = s
run_boxes (o, history) ((box, now, a) ∷ ops) =
    let r = check_box box o now a in
    run_boxes (some r.1, if r.0.allowed then box ∷ history else history) ops

-- The blocks of the checks are in order, from one on.
unfoldable pub Ascending : ℤ → List (ℤ × ℤ × WindowArgs) → Type 0
Ascending box [] = Unit
Ascending box ((b, now, a) ∷ ops) = (box ≤ℤ b) × Ascending b ops

unfoldable pub last_box : ℤ → List (ℤ × ℤ × WindowArgs) → ℤ
last_box box [] = box
last_box box ((b, now, a) ∷ ops) = last_box b ops

-- The entry is the exact one of the last block, and no admitted check is in a later block.
Holds : Option SlidingBox → ℤ → List ℤ → Type 0
Holds none box history = history ≡ []
Holds (some e) box history = (e ≡ exact box history) × ((b : ℤ) → box <ℤ b → in_block b history ≡ 0)

eqb_ℤ→≡ : (a b : ℤ) → eqb_ℤ a b ≡ true → a ≡ b
eqb_ℤ→≡ a b h = eq_of_parts a b (ground arith)

eqb_ℤ-refl : (a : ℤ) → eqb_ℤ a a ≡ true
eqb_ℤ-refl a = ground arith

below : (a b : ℤ) → a ≤ℤ b → eqb_ℤ a b ≡ false → a <ℤ b
below a b h e = ground arith

moved :
    (box box' : ℤ) (history : List ℤ)
    → box ≤ℤ box'
    → ((b : ℤ) → box <ℤ b → in_block b history ≡ 0)
    → current_entry (some (exact box history)) box' ≡ exact box' history
unfolding current_entry carried
moved box box' history h later = elim (Bool-cases (eqb_ℤ box box')) [
  | inl e ↦ rw (e, current_entry) (ap (λ (b : ℤ). exact b history) (eqb_ℤ→≡ box box' e))
  | inr e ↦ elim (Bool-cases (eqb_ℤ box (box' -ℤ pos 1))) [
    | inl f ↦
        let last : in_block box' history ≡ 0 = later box' (below box box' h e) in
        let before : in_block (box' -ℤ pos 1) history ≡ in_block box history =
          ap (λ (b : ℤ). in_block b history) (sym (eqb_ℤ→≡ box (box' -ℤ pos 1) f)) in
        rw (e, current_entry) (rw (f, last, before) refl)
    | inr f ↦
        let last : in_block box' history ≡ 0 = later box' (below box box' h e) in
        let before : in_block (box' -ℤ pos 1) history ≡ 0 =
          later (box' -ℤ pos 1)
            (below box (box' -ℤ pos 1) (omega (int_laws, below box box' h e)) f) in
        rw (e, current_entry) (rw (f, last, before) refl)
  ]
]

current_entry-exact :
    (o : Option SlidingBox) (box box' : ℤ) (history : List ℤ)
    → box ≤ℤ box'
    → Holds o box history
    → current_entry o box' ≡ exact box' history
unfolding Holds current_entry in_block
current_entry-exact none box box' history h p = rw (p, in_block) refl
current_entry-exact (some e) box box' history h p = rw p.0 (moved box box' history h p.1)

-- No admitted check is later than the last block.
Holds-later :
    (o : Option SlidingBox) (box : ℤ) (history : List ℤ)
    → Holds o box history
    → (b : ℤ) → box <ℤ b
    → in_block b history ≡ 0
unfolding Holds in_block
Holds-later none box history p b h = rw p refl
Holds-later (some e) box history p b h = p.1 b h

eqb_ℤ-before : (a : ℤ) → eqb_ℤ a (a -ℤ pos 1) ≡ false
eqb_ℤ-before a = ground (arith, -ℤ_parts a (pos 1))

-- An admitted check is one more in its block, and none in another.
in_block-admitted :
    (box : ℤ) (history : List ℤ)
    → (in_block box (box ∷ history) ≡ suc (in_block box history))
      × (in_block (box -ℤ pos 1) (box ∷ history) ≡ in_block (box -ℤ pos 1) history)
unfolding in_block
in_block-admitted box history = (rw (eqb_ℤ-refl box) refl, rw (eqb_ℤ-before box) refl)

admitted-exact :
    (x : Bool) (box : ℤ) (history : List ℤ)
    → (if x
        then record (exact box history) { current_box = (exact box history).current_box +ℤ one }
        else exact box history)
      ≡ exact box (if x then box ∷ history else history)
admitted-exact false box history = refl
admitted-exact true box history =
    let grown : pos (in_block box history * unit) +ℤ one ≡ pos (suc (in_block box history) * unit) =
      eq_of_parts (pos (in_block box history * unit) +ℤ one)
        (pos (suc (in_block box history) * unit)) (omega int_laws) in
    rw ((in_block-admitted box history).0, (in_block-admitted box history).1, grown) refl

admitted-later :
    (x : Bool) (box b : ℤ) (history : List ℤ)
    → in_block b history ≡ 0
    → box <ℤ b
    → in_block b (if x then box ∷ history else history) ≡ 0
unfolding in_block
admitted-later false box b history h l = h
admitted-later true box b history h l = ground arith

check_box-Holds :
    (o : Option SlidingBox) (box box' now : ℤ) (a : WindowArgs) (history : List ℤ)
    → box ≤ℤ box'
    → Holds o box history
    → Holds
        (some (check_box box' o now a).1)
        box'
        (if (check_box box' o now a).0.allowed then box' ∷ history else history)
unfolding check_box Holds decide_box
check_box-Holds o box box' now a history h p =
    let x = (check_box box' o now a).0.allowed in
    (
      rw (current_entry-exact o box box' history h p) (admitted-exact _ box' history),
      λ b l. admitted-later x box' b history (Holds-later o box history p b (omega arith)) l,
    )

run_boxes-Holds :
    (box : ℤ) (o : Option SlidingBox) (history : List ℤ) (ops : List (ℤ × ℤ × WindowArgs))
    → Ascending box ops
    → Holds o box history
    → Holds (run_boxes (o, history) ops).0 (last_box box ops) (run_boxes (o, history) ops).1
unfolding run_boxes Ascending last_box
run_boxes-Holds box o history [] al p = p
run_boxes-Holds box o history ((b, now, a) ∷ ops) al p =
    run_boxes-Holds b (some (check_box b o now a).1)
      (if (check_box b o now a).0.allowed then b ∷ history else history) ops al.1
      (check_box-Holds o box b now a history al.0 p)

-- Take checks of one key in the order of their blocks, from no entry. The next check, in the last block
-- or a later one, is decided on the numbers of the admitted checks in its own block and in the one just
-- before, over the whole history: it is let through just if the first number, and the second in proportion
-- to what of that block is less than a window's length ago, are together below the limit.
pub check_box-exact :
    (box box' now : ℤ) (a : WindowArgs) (ops : List (ℤ × ℤ × WindowArgs))
    → Ascending box ops
    → last_box box ops ≤ℤ box'
    → (check_box box' (run_boxes (none, []) ops).0 now a).0
      ≡ decide_blocks
          (in_block box' (run_boxes (none, []) ops).1)
          (in_block (box' -ℤ pos 1) (run_boxes (none, []) ops).1)
          (now -ℤ box' *ℤ a.window_ms)
          a
unfolding check_box
check_box-exact box box' now a ops al h =
    rw
      (current_entry-exact (run_boxes (none, []) ops).0 (last_box box ops) box'
        (run_boxes (none, []) ops).1 h (run_boxes-Holds box none [] ops al (unfold Holds in refl)))
      (decide_box-decide_blocks box' (now -ℤ box' *ℤ a.window_ms) (run_boxes (none, []) ops).1 a)
