-- ===== src/Automations/Review.antt =====
-- automations.go: the AI reviewer's guardrails. What the model answers (the HTTP call and its JSON)
-- is the argument `answer`, `none` for every failure of that call. RunAIReview takes the lock anew for each
-- look at the ban list, each ban and each entry of the action log, and reads the clock each time. So each of
-- these is a turn: its time, and what the other callers have done to the state since the one before.
use limit_plane.Prelude.{
  if◌then◌else◌, ◌+ℤ◌, ◌*ℤ◌, ◌≤ℤ◌, ltb_ℤ, leb_ℤ, eqb_ℤ, quot_ℤ, min_ℤ, max_ℤ, ℤ, pos, negsuc, ℕ,
  suc, String, Bool, true, false, ◌||◌, Option, none, some, List, [], ◌∷◌, ◌++◌, arith, str_eq,
}
use limit_plane.Prelude.Assoc.{insert}
use limit_plane.Automations.{act, ban_remaining_ms, Action, Automations, ai_ban}

pub record Candidate : Type 0 where
  pub tenant_id : String
  pub blocked : ℤ
  pub ok : ℤ

-- Minutes are a float64 in the answer: millionths of a minute.
pub record Sentence : Type 0 where
  pub tenant_id : String
  pub minutes : ℤ
  pub reason : String

pub record ReviewResult : Type 0 where
  pub ran : Bool
  pub banned : List String
  pub error : Bool

pub record Turn : Type 0 where
  pub at : ℤ
  pub others : Automations → Automations

-- The turns of one sentence: the look at the ban, the ban, the entry of the log.
pub record Turns : Type 0 where
  pub look : Turn
  pub sentence : Turn
  pub log : Turn

-- A turn that no other caller came before.
abbrev pub quiet : ℤ → Turn
quiet now = record { at = now; others = λ s. s }

abbrev pub all_quiet : ℤ → Turns
all_quiet now = record { look = quiet now; sentence = quiet now; log = quiet now }

-- A client that is blocked three times, and is not banned, is eligible. The looks are numbered by the
-- candidates.
unfoldable pub suspects_of :
    (ℕ → Turn) → ℕ → List Candidate → Automations → List Candidate × Automations
suspects_of looks i [] s = ([], s)
suspects_of looks i (c ∷ cs) s =
    let (left, s') = ban_remaining_ms (looks i).at c.tenant_id ((looks i).others s) in
    let (skipped, s₁) = suspects_of looks (suc i) cs s in
    let (more, s₂) = suspects_of looks (suc i) cs s' in
    if leb_ℤ (pos 3) c.blocked
    then (if eqb_ℤ left (pos 0) then (c ∷ more, s₂) else (more, s₂))
    else (skipped, s₁)

unfoldable pub vetted : String → List Candidate → Bool
vetted tenant_id [] = false
vetted tenant_id (c ∷ cs) = str_eq c.tenant_id tenant_id || vetted tenant_id cs

-- The sentence in milliseconds: between one minute and sixty, in whole minutes.
unfoldable pub sentence_ms : ℤ → ℤ
sentence_ms minutes =
    let clamped = min_ℤ (max_ℤ minutes (pos 1_000_000)) (pos 60_000_000) in
    let chosen = if eqb_ℤ clamped (pos 0) then pos 5_000_000 else clamped in
    quot_ℤ chosen 1_000_000 *ℤ pos 60_000

-- One sentence of the answer: whom it banned, if anyone.
unfoldable pub carry_out :
    Turns → List Candidate → Sentence → Automations → Option String × List Action × Automations
carry_out t suspects b s =
    let (left, s') = ban_remaining_ms t.look.at b.tenant_id (t.look.others s) in
    let ms = sentence_ms b.minutes in
    let s₁ = t.sentence.others s' in
    let s₂ : Automations = record s₁ { bans = insert b.tenant_id (t.sentence.at +ℤ ms) s₁.bans } in
    let (acts, s₃) = act t.log.at ai_ban b.tenant_id ms (t.log.others s₂) in
    if str_eq b.tenant_id ""
    then (none, [], s)
    else if ltb_ℤ (pos 0) left
    then (none, [], s')
    else if vetted b.tenant_id suspects
    then (some b.tenant_id, acts, s₃)
    else (none, [], s')

named : Option String → List String → List String
named none xs = xs
named (some x) xs = x ∷ xs

unfoldable pub carry_out_all :
    (ℕ → Turns)
    → ℕ
    → List Candidate
    → List Sentence
    → Automations
    → List String × List Action × Automations
unfolding named
carry_out_all turns i suspects [] s = ([], [], s)
carry_out_all turns i suspects (b ∷ bs) s =
    let (who, acts, s') = carry_out (turns i) suspects b s in
    let (ids, more, s₂) = carry_out_all turns (suc i) suspects bs s' in
    (named who ids, acts ++ more, s₂)

unfoldable pub judge :
    (ℕ → Turns)
    → List Candidate
    → Option (List Sentence)
    → Automations
    → ReviewResult × List Action × Automations
judge turns [] answer s = (record { ran = true; banned = []; error = false }, [], s)
judge turns (c ∷ cs) none s = (record { ran = true; banned = []; error = true }, [], s)
judge turns (c ∷ cs) (some bs) s =
    let (ids, acts, s') = carry_out_all turns 0 (c ∷ cs) bs s in
    (record { ran = true; banned = ids; error = false }, acts, s')

-- With no key, or no source of candidates, the review does not run.
unfoldable pub run_ai_review :
    String
    → Option (List Candidate)
    → Option (List Sentence)
    → (ℕ → Turn)
    → (ℕ → Turns)
    → Automations
    → ReviewResult × List Action × Automations
unfolding judge
run_ai_review api_key none answer looks turns s =
    (record { ran = false; banned = []; error = false }, [], s)
run_ai_review api_key (some cs) answer looks turns s =
    if str_eq api_key ""
    then (record { ran = false; banned = []; error = false }, [], s)
    else (let (suspects, s') = suspects_of looks 0 cs s in judge turns suspects answer s')

-- A sentence is at least one minute and at most sixty, whatever the model asks for.
pub sentence_ms_bounds :
    (minutes : ℤ) → (pos 60_000 ≤ℤ sentence_ms minutes) × (sentence_ms minutes ≤ℤ pos 3_600_000)
unfolding sentence_ms quot_ℤ ◌*ℤ◌ min_ℤ max_ℤ
sentence_ms_bounds (pos n) = ground arith
sentence_ms_bounds (negsuc n) = ground arith
