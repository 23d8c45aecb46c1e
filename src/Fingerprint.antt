-- ===== src/Fingerprint.antt =====
-- internal/fingerprint/fingerprint.go: the behavioural lanes. The thresholds on means, ratios and on
-- the coefficient of variation are compared by cross-multiplication, and the latter by squares, so no
-- division, square root or rounding is left. The reported confidence and features are not modelled.
pub mod Bounds
pub mod Examples
use limit_plane.Prelude.{
  ltb, if◌then◌else◌, pos_part, ◌+ℤ◌, ◌-ℤ◌, ◌*ℤ◌, ltb_ℤ, leb_ℤ, max_ℤ, ℤ, pos, length, drop, ℕ, suc,
  ◌+◌, ◌-◌, ◌*◌, String, Bool, false, not, ◌&&◌, ◌||◌, Option, none, some, List, [], ◌∷◌, ◌++◌,
  str_eq,
}
use limit_plane.Prelude.Assoc.{Assoc, lookup, insert, delete, contains}
use limit_plane.Audit.{Event}

pub data Label : Type 0 where
  human ai_agent crawler retry_bug warming : Label

-- Multipliers in tenths.
pub record Lane : Type 0 where
  pub label : Label
  pub burst_mult : ℕ
  pub refill_mult : ℕ

unfoldable pub lanes : Label → Lane
lanes human = record { label = human; burst_mult = 13; refill_mult = 10 }
lanes ai_agent = record { label = ai_agent; burst_mult = 8; refill_mult = 12 }
lanes crawler = record { label = crawler; burst_mult = 5; refill_mult = 6 }
lanes retry_bug = record { label = retry_bug; burst_mult = 5; refill_mult = 5 }
lanes warming = record { label = warming; burst_mult = 10; refill_mult = 10 }

pub record Observation : Type 0 where
  pub at : ℤ
  pub route : String
  pub allowed : Bool

pub record Client : Type 0 where
  pub events : List Observation
  pub label : Label

pub record Fingerprints : Type 0 where
  pub window : ℕ
  pub clients : Assoc Client
  pub order : List String

unfoldable pub new : ℤ → Fingerprints
new window = record {
  window = if leb_ℤ window (pos 0) then 30 else pos_part window;
  clients = [];
  order = [];
}

-- The gap to the event before, a millisecond at least.
gap : ℤ → ℤ → ℕ
gap before at = pos_part (max_ℤ (at -ℤ before) (pos 1))

gap_sum : ℤ → List Observation → ℕ
unfolding gap
gap_sum before [] = 0
gap_sum before (e ∷ es) = gap before e.at + gap_sum e.at es

gap_square_sum : ℤ → List Observation → ℕ
unfolding gap
gap_square_sum before [] = 0
gap_square_sum before (e ∷ es) = gap before e.at * gap before e.at + gap_square_sum e.at es

seen : String → List Observation → Bool
seen route [] = false
seen route (e ∷ es) = str_eq e.route route || seen route es

unique_routes : List Observation → ℕ
unfolding seen
unique_routes [] = 0
unique_routes (e ∷ es) = let rest = unique_routes es in if seen e.route es then rest else suc rest

blocked_count : List Observation → ℕ
blocked_count [] = 0
blocked_count (e ∷ es) = let rest = blocked_count es in if e.allowed then rest else suc rest

-- The gaps right after a block: their sum, which is not clamped, and their number.
post_block : Observation → List Observation → ℤ × ℕ
post_block before [] = (pos 0, 0)
post_block before (e ∷ es) =
    let (sum, count) = post_block e es in
    if before.allowed then (sum, count) else (e.at -ℤ before.at +ℤ sum, count + 1)

-- The label of a window that has the first event `e`, from its features.
judge : Observation → List Observation → Label
unfolding gap_sum gap_square_sum unique_routes blocked_count post_block
judge e es =
    let n = suc (length es) in
    let m = length es in
    let sum = gap_sum e.at es in
    let squares = m * gap_square_sum e.at es in
    let uniq = unique_routes (e ∷ es) in
    let blocked = blocked_count (e ∷ es) in
    let (post_gaps, post_count) = post_block e es in
    let backs_off = ltb 0 post_count && ltb_ℤ (pos (2 * sum * post_count)) (post_gaps *ℤ pos m) in
    if ltb (4 * n) (10 * blocked) && ltb (400 * squares) (449 * (sum * sum)) && not backs_off
    then retry_bug
    else if ltb (7 * n) (10 * uniq) && ltb (25 * squares) (34 * (sum * sum)) && ltb sum (5000 * m)
    then crawler
    else if ltb (25 * squares) (29 * (sum * sum)) && ltb sum (10000 * m)
    then ai_agent
    else human

unfoldable pub classify : List Observation → Label
unfolding judge
classify [] = warming
classify (e ∷ es) = if ltb (suc (length es)) 6 then warming else judge e es

-- The oldest client gives way.
evicted : List String → Assoc Client → Fingerprints → Fingerprints
evicted [] clients f = record f { clients = clients; order = [] }
evicted (oldest ∷ rest) clients f = record f { clients = delete oldest clients; order = rest }

-- A client that is tracked, or a new one with the oldest evicted past the cap.
tracked : Option Client → String → Fingerprints → Client × Fingerprints
unfolding evicted
tracked (some c) t f = (c, f)
tracked none t f =
    let c : Client = record { events = []; label = warming } in
    let order = f.order ++ t ∷ [] in
    let clients = insert t c f.clients in
    (
      c,
      if ltb 1000 (length order)
          then evicted order clients f
          else record f { clients = clients; order = order },
    )

-- The client with one more event, the latest `window` of them kept, and its label.
extended : ℕ → Client → Observation → Client
unfolding classify
extended window c o =
    let events = c.events ++ o ∷ [] in
    let events' = drop (length events - window) events in
    record { events = events'; label = classify events' }

-- A client that was evicted is not stored again.
unfoldable pub observe : String → Observation → Fingerprints → Fingerprints
unfolding tracked extended
observe t o f =
    let (c, f') = tracked (lookup t f.clients) t f in
    if contains t f'.clients
    then record f' { clients = insert t (extended f'.window c o) f'.clients }
    else f'

pub observe_event : Event → Fingerprints → Fingerprints
observe_event e f =
    observe e.tenant_id (record { at = e.at; route = e.route; allowed = e.allowed }) f

label_of : Option Client → Label
label_of none = warming
label_of (some c) = c.label

unfoldable pub lane_for : String → Fingerprints → Lane
unfolding label_of
lane_for t f = lanes (label_of (lookup t f.clients))
