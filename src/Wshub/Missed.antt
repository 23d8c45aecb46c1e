-- ===== src/Wshub/Missed.antt =====
-- wshub.go: the hub as a whole: what a closed hub has left, and what a dashboard gets of the broadcasts.
use limit_plane.Prelude.{
  ◌==◌, Bool-cases, Option-cases, if_cases, length, get_elem?, keep_if, All, All-append, All-map,
  All-set, All-get_elem?, ℕ, ◌≡◌, refl, ap, inl, inr, true, false, ◌||◌, Option, none, some, List,
  [], ◌∷◌, arith,
}
use limit_plane.Wshub.Connection.{
  close_going_away, shutting_down, enqueue_control, close, graceful_close, step, Conn, Event,
}
use limit_plane.Wshub.Ending.{step-listed}
use limit_plane.Wshub.Hubs.{
  new, register, count, on_listed, broadcast_payload, close_hub, is_own, turn_of, step_hub, run_hub,
  Hub, HubEvent, registered, shut_hub, broadcasted, turn,
}

abbrev pub IsShut : Hub → Type 0
IsShut h = h.is_closed ≡ true → All (λ c. c.listed ≡ false) h.conns

-- No socket is listed, or one is.
keep_if_none : (cs : List Conn) → All (λ c. c.listed ≡ false) cs → keep_if (λ c. c.listed) cs ≡ []
keep_if_none [] hs = refl
keep_if_none (c ∷ cs) hs = rw (hs.0) (keep_if_none cs hs.1)

pub count_zero :
    (cs : List Conn) → length (keep_if (λ c. c.listed) cs) ≡ 0 → All (λ c. c.listed ≡ false) cs
count_zero [] h = tt
count_zero (c ∷ cs) h = elim (Bool-cases c.listed) [
  | inl e ↦ absurd (omega (arith, rw e at h))
  | inr e ↦ (e, count_zero cs (rw e at h))
]

-- The registry does not take a socket back.
step-unlisted :
    (send_buffer : ℕ) (c : Conn) (e : Event)
    → c.listed ≡ false
    → (step send_buffer e c).listed ≡ false
step-unlisted n c e h = elim (Bool-cases (step n e c).listed) [
  | inl yes' ↦ absurd (cc (h, (step-listed n c e yes').0))
  | inr no' ↦ no'
]

shut_down-unlisted :
    (c : Conn)
    → (on_listed
        (λ d. graceful_close close_going_away shutting_down (record d { listed = false }))
        c).listed
      ≡ false
unfolding graceful_close close enqueue_control
shut_down-unlisted c = ground arith

turn_of-IsShut :
    (o : Option Conn) (i : ℕ) (e : Event) (h : Hub)
    → get_elem? h.conns i ≡ o
    → IsShut h
    → IsShut (turn_of o i e h)
unfolding turn_of
turn_of-IsShut none i e h at_i shut = shut
turn_of-IsShut (some c) i e h at_i shut =
    if_cases IsShut (is_own e) _ _
      (λ _ closed.
        let all = shut closed in
        All-set _ h.conns i _
          (step-unlisted h.send_buffer c e (All-get_elem? _ h.conns i c all at_i)) all)
      (λ _. shut)

pub step_hub-IsShut : (e : HubEvent) (h : Hub) → IsShut h → IsShut (step_hub e h)
unfolding step_hub register close_hub broadcast_payload close
step_hub-IsShut registered h shut =
    λ closed. All-append _ h.conns _ (shut closed) (rw closed (refl, tt))
step_hub-IsShut shut_hub h shut =
    if_cases IsShut h.is_closed _ _ (λ _. shut) (λ _ _. All-map _ _ h.conns shut_down-unlisted)
step_hub-IsShut (broadcasted none) h shut =
    if_cases IsShut (h.is_closed || count h == 0) _ _ (λ _. shut) (λ _. shut)
step_hub-IsShut (broadcasted (some p)) h shut =
    if_cases IsShut (h.is_closed || count h == 0) _ _ (λ _. shut)
      (λ alive closed. absurd (ground (arith, alive, closed)))
step_hub-IsShut (turn i e) h shut = turn_of-IsShut (get_elem? h.conns i) i e h refl shut

pub run_hub-IsShut : (es : List HubEvent) (h : Hub) → IsShut h → IsShut (run_hub es h)
unfolding run_hub
run_hub-IsShut [] h shut = shut
run_hub-IsShut (e ∷ es) h shut = run_hub-IsShut es (step_hub e h) (step_hub-IsShut e h shut)

pub new-IsShut : IsShut new
unfolding new
new-IsShut closed = tt

step_hub-closed : (e : HubEvent) (h : Hub) → h.is_closed ≡ true → (step_hub e h).is_closed ≡ true
unfolding step_hub register close_hub broadcast_payload turn_of
step_hub-closed registered h closed = closed
step_hub-closed shut_hub h closed = ground (arith, closed)
step_hub-closed (broadcasted payload) h closed = ground (arith, closed)
step_hub-closed (turn i e) h closed = elim (Option-cases (get_elem? h.conns i)) [
  | inl e' ↦ rw e' closed
  | inr (c, e') ↦ rw e' (ground (arith, closed))
]

run_hub-closed :
    (es : List HubEvent) (h : Hub) → h.is_closed ≡ true → (run_hub es h).is_closed ≡ true
unfolding run_hub
run_hub-closed [] h closed = closed
run_hub-closed (e ∷ es) h closed = run_hub-closed es (step_hub e h) (step_hub-closed e h closed)

-- Once the hub of some run is closed, no dashboard is connected, and none is after any events that
-- follow: an upgrade that slips past the first check is torn down when it registers.
pub closed_hub_empty :
    (es later : List HubEvent)
    → (run_hub es new).is_closed ≡ true
    → count (run_hub later (run_hub es new)) ≡ 0
unfolding count
closed_hub_empty es later closed =
    let h = run_hub es new in
    let shut = run_hub-IsShut later h (run_hub-IsShut es new new-IsShut) in
    ap length (keep_if_none _ (shut (run_hub-closed later h closed)))
