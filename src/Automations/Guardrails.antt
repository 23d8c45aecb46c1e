-- ===== src/Automations/Guardrails.antt =====
-- automations.go: what a review can do to a client's ban.
use limit_plane.Prelude.{
  Bool-cases, Option-cases, ◌+ℤ◌, ◌-ℤ◌, ◌≤ℤ◌, ◌<ℤ◌, ltb_ℤ, leb_ℤ, eqb_ℤ, leb_ℤ→≤ℤ, leb_ℤ-false,
  ltb_ℤ-false, int_laws, ℤ, pos, String, ◌≡◌, refl, sym, ◌⊎◌, inl, inr, Bool, true, false, ◌&&◌,
  ◌||◌, Option, none, some, List, [], ◌∷◌, ℕ, suc, arith, str_eq, eq_iff,
}
use limit_plane.Prelude.Assoc.{Assoc, lookup, insert, lookup-insert, lookup-delete}
use limit_plane.Automations.{act, left_of, ban_remaining_ms, is_live, Automations}
use limit_plane.Automations.Review.{
  suspects_of, vetted, sentence_ms, carry_out, carry_out_all, judge, run_ai_review,
  sentence_ms_bounds, quiet, all_quiet, Candidate, Sentence,
}

-- A candidate that is blocked heavily.
abbrev pub eligible : String → List Candidate → Bool
eligible t [] = false
eligible t (c ∷ cs) = (str_eq c.tenant_id t && leb_ℤ (pos 3) c.blocked) || eligible t cs

-- A ban after the review, against the ban before it: the same, or lapsed and gone, or, for a client
-- with the leave `L` and no live ban, a new one of one to sixty minutes.
abbrev pub Fair : Type 0 → ℤ → Option ℤ → Option ℤ → Type 0
Fair L now o o' =
    (o' ≡ o)
    ⊎ ((o' ≡ none) × (is_live o now ≡ false))
    ⊎ (L
        × (is_live o now ≡ false)
        × (u : ℤ) × (o' ≡ some u)
        × (now +ℤ pos 60_000 ≤ℤ u)
        × (u ≤ℤ now +ℤ pos 3_600_000))

live_later : (now u : ℤ) → now +ℤ pos 60_000 ≤ℤ u → is_live (some u) now ≡ true
unfolding is_live
live_later now u h = ≤ℤ→ltb (omega int_laws)
  where
    ≤ℤ→ltb : now <ℤ u → ltb_ℤ now u ≡ true
    ≤ℤ→ltb h = ground arith

Fair-trans :
    {L : Type 0} (now : ℤ) (a b c : Option ℤ) → Fair L now a b → Fair L now b c → Fair L now a c
unfolding is_live
Fair-trans now a b c p (inl e) = rw e p
Fair-trans now a b c (inl e) (inr (inl (f, m))) = inr (inl (f, rw e at m))
Fair-trans now a b c (inl e) (inr (inr (g, m, u, f, lo, hi))) =
    inr (inr (g, rw e at m, u, f, lo, hi))
Fair-trans now a b c (inr (inl (e, l))) (inr (inl (f, m))) = inr (inl (f, l))
Fair-trans now a b c (inr (inl (e, l))) (inr (inr (g, m, u, f, lo, hi))) =
    inr (inr (g, l, u, f, lo, hi))
Fair-trans now a b c (inr (inr (g, l, u, e, lo, hi))) (inr (inl (f, m))) =
    absurd (contra (live_later now u lo) (rw e at m))
  where
    contra : {x : Bool} → x ≡ true → x ≡ false → ⊥
    contra p q = cc
Fair-trans now a b c (inr (inr (g, l, u, e, lo, hi))) (inr (inr (g', m, u', f, lo', hi'))) =
    absurd (contra (live_later now u lo) (rw e at m))
  where
    contra : {x : Bool} → x ≡ true → x ≡ false → ⊥
    contra p q = cc

lapsed : (now u : ℤ) → leb_ℤ (u -ℤ now) (pos 0) ≡ true → is_live (some u) now ≡ false
unfolding is_live
lapsed now u h = over (omega (int_laws, leb_ℤ→≤ℤ (u -ℤ now) (pos 0) h))
  where
    over : u ≤ℤ now → ltb_ℤ now u ≡ false
    over h = ground arith

-- Asking for a ban only removes one that has lapsed.
left_of-Fair :
    (L : Type 0) (now : ℤ) (k t : String) (bans : Assoc ℤ)
    → Fair L now (lookup t bans) (lookup t (left_of (lookup k bans) now k bans).1)
unfolding left_of
left_of-Fair L now k t bans = elim (Option-cases (lookup k bans)) [
  | inl e ↦ inl (rw (e, left_of) refl)
  | inr (u, e) ↦ elim (Bool-cases (leb_ℤ (u -ℤ now) (pos 0))) [
    | inl f ↦ reaped u e f (Bool-cases (str_eq k t))
    | inr f ↦ inl (rw (e, left_of) (rw f refl))
  ]
]
  where
    reaped :
        (u : ℤ)
        → lookup k bans ≡ some u
        → leb_ℤ (u -ℤ now) (pos 0) ≡ true
        → (str_eq k t ≡ true) ⊎ (str_eq k t ≡ false)
        → Fair L now (lookup t bans) (lookup t (left_of (lookup k bans) now k bans).1)
    reaped u e f (inl g) = inr (
        inl (
          rw (e, left_of) (rw (f, lookup-delete k t bans, g) refl),
          rw (sym ((eq_iff k t).0 g), e) (lapsed now u f),
        ))
    reaped u e f (inr g) = inl (rw (e, left_of) (rw (f, lookup-delete k t bans, g) refl))

ban_remaining-Fair :
    (L : Type 0) (now : ℤ) (k t : String) (s : Automations)
    → Fair L now (lookup t s.bans) (lookup t (ban_remaining_ms now k s).1.bans)
unfolding ban_remaining_ms
ban_remaining-Fair L now k t s = left_of-Fair L now k t s.bans

-- Where nothing is left of a ban, it is not live.
ban_remaining-is_live :
    (now : ℤ) (k : String) (s : Automations)
    → (ban_remaining_ms now k s).0 ≤ℤ pos 0
    → is_live (lookup k s.bans) now ≡ false
unfolding ban_remaining_ms left_of is_live
ban_remaining-is_live now k s h = elim (Option-cases (lookup k s.bans)) [
  | inl e ↦ rw e refl
  | inr (u, e) ↦ elim (Bool-cases (leb_ℤ (u -ℤ now) (pos 0))) [
    | inl f ↦ rw e (lapsed now u f)
    | inr f ↦ absurd (
        omega (
          arith,
          leb_ℤ-false (u -ℤ now) (pos 0) f,
          rw f at (rw (e, ban_remaining_ms, left_of) at h),
        ))
  ]
]

suspects-Fair :
    (L : Type 0) (now : ℤ) (i : ℕ) (cs : List Candidate) (t : String) (s : Automations)
    → Fair L now (lookup t s.bans) (lookup t (suspects_of (λ j. quiet now) i cs s).1.bans)
unfolding suspects_of
suspects-Fair L now i [] t s = inl refl
suspects-Fair L now i (c ∷ cs) t s = elim (Bool-cases (leb_ℤ (pos 3) c.blocked)) [
  | inl e ↦
      let s' = (ban_remaining_ms now c.tenant_id s).1 in
      let p =
        Fair-trans now (lookup t s.bans) (lookup t s'.bans)
          (lookup t (suspects_of (λ j. quiet now) (suc i) cs s').1.bans)
          (ban_remaining-Fair L now c.tenant_id t s) (suspects-Fair L now (suc i) cs t s') in
      elim (Bool-cases (eqb_ℤ (ban_remaining_ms now c.tenant_id s).0 (pos 0))) [
        | inl f ↦ rw (e, suspects_of) (rw f p)
        | inr f ↦ rw (e, suspects_of) (rw f p)
      ]
  | inr e ↦ rw (e, suspects_of) (suspects-Fair L now (suc i) cs t s)
]

vetted-eligible :
    (now : ℤ) (i : ℕ) (cs : List Candidate) (t : String) (s : Automations)
    → vetted t (suspects_of (λ j. quiet now) i cs s).0 ≡ true
    → eligible t cs ≡ true
unfolding suspects_of vetted
vetted-eligible now i [] t s h = cc
vetted-eligible now i (c ∷ cs) t s h = ground (
  arith,
  h,
  vetted-eligible now (suc i) cs t s,
  vetted-eligible now (suc i) cs t (ban_remaining_ms now c.tenant_id s).1,
)

-- One sentence.
abbrev MayBan : List Candidate → String → Type 0
MayBan suspects t = vetted t suspects ≡ true

carry_out-Fair :
    (now : ℤ) (suspects : List Candidate) (b : Sentence) (t : String) (s : Automations)
    → Fair
        (MayBan suspects t)
        now
        (lookup t s.bans)
        (lookup t (carry_out (all_quiet now) suspects b s).2.bans)
unfolding carry_out act
carry_out-Fair now suspects b t s =
    let left = (ban_remaining_ms now b.tenant_id s).0 in
    let s' = (ban_remaining_ms now b.tenant_id s).1 in
    let reap = ban_remaining-Fair (MayBan suspects t) now b.tenant_id t s in
    elim (Bool-cases (str_eq b.tenant_id "")) [
      | inl e ↦ rw (e, carry_out) (inl refl)
      | inr e ↦ elim (Bool-cases (ltb_ℤ (pos 0) left)) [
        | inl f ↦ rw (e, carry_out) (rw f reap)
        | inr f ↦ elim (Bool-cases (vetted b.tenant_id suspects)) [
          | inl g ↦
              rw (e, carry_out) (rw (f, g) (banned f g (Bool-cases (str_eq b.tenant_id t)) reap))
          | inr g ↦ rw (e, carry_out) (rw (f, g) reap)
        ]
      ]
    ]
  where
    banned :
        ltb_ℤ (pos 0) (ban_remaining_ms now b.tenant_id s).0 ≡ false
        → vetted b.tenant_id suspects ≡ true
        → (str_eq b.tenant_id t ≡ true) ⊎ (str_eq b.tenant_id t ≡ false)
        → Fair
            (MayBan suspects t)
            now
            (lookup t s.bans)
            (lookup t (ban_remaining_ms now b.tenant_id s).1.bans)
        → Fair (MayBan suspects t) now (lookup t s.bans) (
            lookup t (
              insert b.tenant_id
                (now +ℤ sentence_ms b.minutes)
                (ban_remaining_ms now b.tenant_id s).1.bans))
    banned f g (inl e) reap =
        let same = (eq_iff b.tenant_id t).0 e in
        inr (
          inr (
            rw same at g,
            rw same at (
                ban_remaining-is_live now b.tenant_id s
                  (ltb_ℤ-false (pos 0) (ban_remaining_ms now b.tenant_id s).0 f)),
            now +ℤ sentence_ms b.minutes,
            rw
                (
                  lookup-insert b.tenant_id t (now +ℤ sentence_ms b.minutes)
                      (ban_remaining_ms now b.tenant_id s).1.bans,
                  e,
                )
                refl,
            omega (int_laws, sentence_ms_bounds b.minutes),
            omega (int_laws, sentence_ms_bounds b.minutes),
          ))
    banned f g (inr e) reap =
        rw
          (
            lookup-insert b.tenant_id t (now +ℤ sentence_ms b.minutes)
                (ban_remaining_ms now b.tenant_id s).1.bans,
            e,
          )
          reap

carry_out_all-Fair :
    (now : ℤ) (i : ℕ) (suspects : List Candidate) (bs : List Sentence) (t : String)
    (s : Automations)
    → Fair
        (MayBan suspects t)
        now
        (lookup t s.bans)
        (lookup t (carry_out_all (λ j. all_quiet now) i suspects bs s).2.bans)
unfolding carry_out_all
carry_out_all-Fair now i suspects [] t s = inl refl
carry_out_all-Fair now i suspects (b ∷ bs) t s =
    let s' = (carry_out (all_quiet now) suspects b s).2 in
    Fair-trans now (lookup t s.bans) (lookup t s'.bans)
      (lookup t (carry_out_all (λ j. all_quiet now) (suc i) suspects bs s').2.bans)
      (carry_out-Fair now suspects b t s) (carry_out_all-Fair now (suc i) suspects bs t s')

Fair-weaken : {L M : Type 0} (now : ℤ) (a b : Option ℤ) → (L → M) → Fair L now a b → Fair M now a b
Fair-weaken now a b f (inl e) = inl e
Fair-weaken now a b f (inr (inl q)) = inr (inl q)
Fair-weaken now a b f (inr (inr (g, l, u, e, lo, hi))) = inr (inr (f g, l, u, e, lo, hi))

judge-Fair :
    (L : Type 0) (now : ℤ) (suspects : List Candidate) (answer : Option (List Sentence))
    (t : String) (s : Automations)
    → (MayBan suspects t → L)
    → Fair L now (lookup t s.bans) (lookup t (judge (λ j. all_quiet now) suspects answer s).2.bans)
unfolding judge
judge-Fair L now [] answer t s f = inl refl
judge-Fair L now (c ∷ cs) none t s f = inl refl
judge-Fair L now (c ∷ cs) (some bs) t s f =
    Fair-weaken now (lookup t s.bans)
      (lookup t (carry_out_all (λ j. all_quiet now) 0 (c ∷ cs) bs s).2.bans) f
      (carry_out_all-Fair now 0 (c ∷ cs) bs t s)

-- Whatever the model answers, a review at one time of the clock that no other call interrupts leaves each
-- client's ban as it was, or removes it once it has lapsed, or bans a candidate that was blocked three
-- times or more and was not banned, for one minute at least and sixty at most.
pub run_ai_review-Fair :
    (api_key : String) (cs : List Candidate) (answer : Option (List Sentence)) (now : ℤ)
    (s : Automations) (t : String)
    → Fair (eligible t cs ≡ true) now (lookup t s.bans) (
        lookup t
          (run_ai_review api_key (some cs) answer (λ j. quiet now) (λ j. all_quiet now) s).2.bans)
unfolding run_ai_review
run_ai_review-Fair api_key cs answer now s t = elim (Bool-cases (str_eq api_key "")) [
  | inl e ↦ rw (e, run_ai_review) (inl refl)
  | inr e ↦
      let suspects = (suspects_of (λ j. quiet now) 0 cs s).0 in
      let s' = (suspects_of (λ j. quiet now) 0 cs s).1 in
      rw (e, run_ai_review)
        (Fair-trans now (lookup t s.bans) (lookup t s'.bans)
          (lookup t (judge (λ j. all_quiet now) suspects answer s').2.bans)
          (suspects-Fair (eligible t cs ≡ true) now 0 cs t s)
          (judge-Fair (eligible t cs ≡ true) now suspects answer t s'
            (vetted-eligible now 0 cs t s)))
]
