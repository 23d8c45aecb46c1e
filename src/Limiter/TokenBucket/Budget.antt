-- ===== src/Limiter/TokenBucket/Budget.antt =====
-- tokenbucket.go: what a key can spend, whatever checks and sweeps are interleaved.
use mathlib.Core.Path.{subst₂}
use limit_plane.Prelude.{
  if◌then◌else◌, Bool-cases, ◌+ℤ◌, ◌-ℤ◌, ◌*ℤ◌, ◌≤ℤ◌, ltb_ℤ, leb_ℤ, leb_ℤ→≤ℤ, *ℤ_telescope,
  *ℤ_nonneg, int_laws, bound_laws, ℤ, pos, length, All, ℕ, ◌<◌, String, ◌≡◌, refl, inl, inr, true,
  Option, none, some, List, [], ◌∷◌, arith, str_eq,
}
use limit_plane.Limiter.{cost_or_one}
use limit_plane.Limiter.TokenBucket.{
  new_jar, refilled, affords, spend, check_jar, keeps, new_token_bucket_sharded, Bucket,
  TokenBucketArgs, TokenBucket,
}
use limit_plane.Limiter.TokenBucket.Jars.{
  paid, swept, step_jar, charge, jar, step, step_total, step-step_jar, Op, checks, sweeps,
}
use limit_plane.Limiter.TokenBucket.Shards.{new_has_shard, jar-new}

abbrev op_time : Op → ℤ
op_time (checks now a) = now
op_time (sweeps now idle_for) = now

-- The checks of the key `k` ask for one capacity and one rate.
abbrev pub OnPolicy : String → ℤ → ℕ → Op → Type 0
OnPolicy k cap rate (checks now a) =
    str_eq a.key k ≡ true → (a.capacity ≡ cap) × (a.refill_rate_per_ms ≡ pos rate)
OnPolicy k cap rate (sweeps now idle_for) = Unit {0}

module _ (k : String) (cap : ℤ) (rate : ℕ) (start : ℤ) where
  -- What the key has spent by `now`, against the jar that it holds then.
  abbrev Within : ℤ → ℤ → Option Bucket → Type 0
  Within now spent none = (start ≤ℤ now) × (spent ≤ℤ (now -ℤ start) *ℤ pos rate)
  Within now spent (some b) =
      (start ≤ℤ b.last_refill)
      × (b.last_refill ≤ℤ now)
      × (pos 0 ≤ℤ b.tokens)
      × (b.capacity ≡ cap)
      × (b.refill ≡ pos rate)
      × (spent +ℤ b.tokens ≤ℤ cap +ℤ (b.last_refill -ℤ start) *ℤ pos rate)

  grows : (a b : ℤ) → a ≤ℤ b → (a -ℤ start) *ℤ pos rate ≤ℤ (b -ℤ start) *ℤ pos rate
  grows a b h =
      omega (int_laws, *ℤ_telescope start a b rate, *ℤ_nonneg (b -ℤ a) rate (omega int_laws))

  module _ (cap_nonneg : pos 0 ≤ℤ cap) where
    refilled-Within :
        (b : Bucket) (before now spent : ℤ) (a : TokenBucketArgs)
        → (a.capacity ≡ cap) × (a.refill_rate_per_ms ≡ pos rate)
        → before ≤ℤ now
        → Within before spent (some b)
        → Within now spent (some (refilled b now a))
    unfolding refilled
    refilled-Within b before now spent a (ec, er) h w = (
      omega int_laws,
      omega int_laws,
      rw (ec, er)
          (omega
            (bound_laws, cap_nonneg, w, *ℤ_nonneg (now -ℤ b.last_refill) rate (omega int_laws))),
      ec,
      er,
      rw (ec, er)
          (omega (
            bound_laws,
            w,
            cap_nonneg,
            *ℤ_telescope start b.last_refill now rate,
            grows b.last_refill now (omega int_laws),
          )),
    )

    new_jar-Within :
        (before now spent : ℤ) (a : TokenBucketArgs)
        → (a.capacity ≡ cap) × (a.refill_rate_per_ms ≡ pos rate)
        → before ≤ℤ now
        → Within before spent none
        → Within now spent (some (new_jar now a))
    unfolding new_jar
    new_jar-Within before now spent a (ec, er) h w = (
      omega int_laws,
      omega int_laws,
      rw ec cap_nonneg,
      ec,
      er,
      rw ec (omega (int_laws, w, grows before now h)),
    )

    spend-Within :
        (b : Bucket) (now spent c : ℤ)
        → Within now spent (some b)
        → Within now (spent +ℤ (if affords b c then c else pos 0)) (some (spend b c))
    unfolding affords spend
    spend-Within b now spent c h = elim (Bool-cases (leb_ℤ c b.tokens)) [
      | inl e ↦
          rw (e, spend)
            (h.0, h.1, omega (int_laws, leb_ℤ→≤ℤ c b.tokens e), h.3, h.4, omega int_laws)
      | inr e ↦ rw (e, spend) (h.0, h.1, h.2, h.3, h.4, omega int_laws)
    ]

    check_jar-Within :
        (o : Option Bucket) (before now spent : ℤ) (a : TokenBucketArgs)
        → (a.capacity ≡ cap) × (a.refill_rate_per_ms ≡ pos rate)
        → before ≤ℤ now
        → Within before spent o
        → Within now (spent +ℤ paid (check_jar o now a).0 a) (some (check_jar o now a).1)
    unfolding check_jar paid
    check_jar-Within none before now spent a pol h w =
        spend-Within (refilled (new_jar now a) now a) now spent (cost_or_one a.cost) (
          refilled-Within (new_jar now a) now now spent a pol (omega arith)
            (new_jar-Within before now spent a pol h w))
    check_jar-Within (some b) before now spent a pol h w =
        spend-Within (refilled b now a) now spent (cost_or_one a.cost)
          (refilled-Within b before now spent a pol h w)

    later-Within :
        (o : Option Bucket) (before now spent : ℤ)
        → before ≤ℤ now
        → Within before spent o
        → Within now (spent +ℤ pos 0) o
    later-Within none before now spent h w =
        (omega int_laws, omega (int_laws, w, grows before now h))
    later-Within (some b) before now spent h w =
        (w.0, omega (int_laws, w), w.2, w.3, w.4, omega (int_laws, w))

    -- A jar that would be full by now owes nothing more than a new one.
    dropped :
        (b : Bucket) (before now spent : ℤ)
        → before ≤ℤ now
        → Within before spent (some b)
        → leb_ℤ b.capacity (b.tokens +ℤ (now -ℤ b.last_refill) *ℤ b.refill) ≡ true
        → spent +ℤ pos 0 ≤ℤ (now -ℤ start) *ℤ pos rate
    dropped b before now spent h w f =
        let g : cap ≤ℤ b.tokens +ℤ (now -ℤ b.last_refill) *ℤ pos rate =
          subst₂ (λ c r. c ≤ℤ b.tokens +ℤ (now -ℤ b.last_refill) *ℤ r) w.3 w.4
            (leb_ℤ→≤ℤ b.capacity (b.tokens +ℤ (now -ℤ b.last_refill) *ℤ b.refill) f) in
        omega (int_laws, g, w, *ℤ_telescope start b.last_refill now rate)

    swept-Within :
        (o : Option Bucket) (before now cutoff spent : ℤ)
        → before ≤ℤ now
        → Within before spent o
        → Within now (spent +ℤ pos 0) (swept now cutoff o)
    unfolding swept keeps
    swept-Within none before now cutoff spent h w = later-Within none before now spent h w
    swept-Within (some b) before now cutoff spent h w =
        elim (Bool-cases (ltb_ℤ cutoff b.last_refill)) [
          | inl e ↦ rw (e, swept, keeps) (later-Within (some b) before now spent h w)
          | inr e ↦
              elim (Bool-cases
                (leb_ℤ b.capacity (b.tokens +ℤ (now -ℤ b.last_refill) *ℤ b.refill))) [
                  | inl f ↦
                      rw (e, f, swept, keeps) (omega int_laws, dropped b before now spent h w f)
                  | inr f ↦ rw (e, f, swept, keeps) (later-Within (some b) before now spent h w)
                ]
        ]

    -- One call, seen from the jar of the key.
    step_jar-Within :
        (o : Option Bucket) (before spent : ℤ) (op : Op)
        → OnPolicy k cap rate op
        → before ≤ℤ op_time op
        → Within before spent o
        → Within (op_time op) (spent +ℤ (step_jar k o op).0) (step_jar k o op).1
    unfolding step_jar
    step_jar-Within o before spent (checks now a) pol h w = elim (Bool-cases (str_eq a.key k)) [
      | inl e ↦ rw (e, step_jar) (check_jar-Within o before now spent a (pol e) h w)
      | inr e ↦ rw (e, step_jar) (later-Within o before now spent h w)
    ]
    step_jar-Within o before spent (sweeps now idle_for) pol h w =
        swept-Within o before now (now -ℤ idle_for) spent h w

-- The calls come in the order of their times.
abbrev pub Timed : ℤ → List Op → Type 0
Timed now [] = Unit
Timed now (op ∷ ops) = (now ≤ℤ op_time op) × Timed (op_time op) ops

abbrev pub end_time : ℤ → List Op → ℤ
end_time now [] = now
end_time now (op ∷ ops) = end_time (op_time op) ops

module _ (hash : String → ℕ) (k : String) where
  -- What the key has spent after a sequence of calls, with the table that they leave.
  unfoldable pub run : ℤ → TokenBucket → List Op → Option (ℤ × TokenBucket)
  run spent t [] = some (spent, t)
  run spent t (op ∷ ops) = elim (step hash t op) [
    | none ↦ none
    | some (d, t') ↦ run (spent +ℤ charge k op d) t' ops
  ]

  module _ (cap : ℤ) (rate : ℕ) (start : ℤ) (cap_nonneg : pos 0 ≤ℤ cap) where
    run-Within :
        (spent now : ℤ) (t : TokenBucket) (ops : List Op)
        → 0 < length t.shards
        → All (OnPolicy k cap rate) ops
        → Timed now ops
        → Within k cap rate start now spent (jar hash t k)
        → (total : ℤ) × (t' : TokenBucket) × (run spent t ops ≡ some (total, t'))
          × Within k cap rate start (end_time now ops) total (jar hash t' k)
    unfolding run
    run-Within spent now t [] h pol timed w = (spent, t, refl, w)
    run-Within spent now t (op ∷ ops) h pol timed w =
        let (d, t', e, len) = step_total hash t op h in
        let (je, ce) = step-step_jar hash t t' op d k h e in
        let w' : Within k cap rate start (op_time op) (spent +ℤ charge k op d) (jar hash t' k) =
          rw (je, ce)
            (step_jar-Within k cap rate start cap_nonneg (jar hash t k) now spent op pol.0 timed.0
              w) in
        let (total, t'', r, v) =
          run-Within (spent +ℤ charge k op d) (op_time op) t' ops (omega (arith, len)) pol.1 timed.1
            w' in
        (total, t'', rw (e, run) r, v)

    Within-bound :
        (o : Option Bucket) (now spent : ℤ)
        → Within k cap rate start now spent o
        → spent ≤ℤ cap +ℤ (now -ℤ start) *ℤ pos rate
    Within-bound none now spent w = omega (int_laws, w, cap_nonneg)
    Within-bound (some b) now spent w =
        omega (int_laws, w, grows k cap rate start b.last_refill now (omega (arith, w)))

    -- A new table with at least one processor answers every sequence of checks and sweeps in the
    -- order of time, and whatever the interleaving the checks of one key, which ask for one
    -- capacity and one rate, take no more tokens than the capacity and what the rate gives between
    -- the start and the last call.
    pub spent-le-budget :
        (procs asked : ℕ) (ops : List Op)
        → 0 < procs
        → All (OnPolicy k cap rate) ops
        → Timed start ops
        → (total : ℤ) × (t' : TokenBucket) × (run (pos 0) (new_token_bucket_sharded procs asked) ops
            ≡ some (total, t'))
          × (total ≤ℤ cap +ℤ (end_time start ops -ℤ start) *ℤ pos rate)
    spent-le-budget procs asked ops h pol timed =
        let fresh : Within k cap rate start start (pos 0)
            (jar hash (new_token_bucket_sharded procs asked) k) =
          rw (jar-new hash procs asked k)
            (omega arith, *ℤ_nonneg (start -ℤ start) rate (omega int_laws)) in
        let (total, t', e, w) =
          run-Within (pos 0) start (new_token_bucket_sharded procs asked) ops
            (new_has_shard procs asked h) pol timed fresh in
        (total, t', e, Within-bound (jar hash t' k) (end_time start ops) total w)
