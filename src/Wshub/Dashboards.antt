-- ===== src/Wshub/Dashboards.antt =====
-- wshub.go: what a registered dashboard gets of the hub's broadcasts.
use mathlib.Core.List.{append_assoc, append-nil}
use limit_plane.Prelude.{
  ◌==◌, if◌then◌else◌, Bool-cases, ==→eq, if_cases, length, get_elem?, set, get_elem?-set_self,
  get_elem?-set_ne, get_elem?-append_right, All-get_elem?, get_elem?-map, ℕ, zero, suc, ◌≡◌, refl,
  sym, ap, ◌∙◌, inl, inr, Bool, true, false, ◌||◌, Option, none, some, List, [], ◌∷◌, ◌++◌, arith,
}
use limit_plane.Wshub.{Bytes, encode_text_frame, hung_up}
use limit_plane.Wshub.Connection.{
  close_going_away, shutting_down, fresh, enqueue_control, close, graceful_close, on_error, step,
  run, Conn, Event, broadcast, received, failed_read, control_turn, data_turn, shut_down, timed_out,
  saw_done,
}
use limit_plane.Wshub.Ending.{step-listed, listed_missed_nothing}
use limit_plane.Wshub.Hubs.{
  new, register, count, broadcast_payload, close_hub, is_own, turn_of, step_hub, run_hub, Hub,
  HubEvent, registered, shut_hub, broadcasted, turn,
}
use limit_plane.Wshub.Missed.{IsShut, count_zero, step_hub-IsShut, run_hub-IsShut, new-IsShut}
use limit_plane.Wshub.Promises.{offered_by, offered, texts}

-- The frames of the broadcasts that could be marshalled.
unfoldable pub frame_of : HubEvent → List Bytes
frame_of registered = []
frame_of shut_hub = []
frame_of (broadcasted none) = []
frame_of (broadcasted (some payload)) = encode_text_frame payload ∷ []
frame_of (turn i e) = []

unfoldable pub frames_of : List HubEvent → List Bytes
frames_of [] = []
frames_of (e ∷ es) = frame_of e ++ frames_of es

-- The socket went through some events of its own, and if it is still listed, the broadcasts among them
-- offered these frames.
IsServed : ℕ → List Bytes → Conn → Type 0
IsServed send_buffer frames c =
    (es : List Event) × (c ≡ run send_buffer es fresh) × (c.listed ≡ true → offered es ≡ frames)

run-append :
    (send_buffer : ℕ) (es : List Event) (e : Event) (c : Conn)
    → run send_buffer (es ++ e ∷ []) c ≡ step send_buffer e (run send_buffer es c)
unfolding run
run-append n [] e c = refl
run-append n (x ∷ es) e c = run-append n es e (step n x c)

offered-append : (es : List Event) (e : Event) → offered (es ++ e ∷ []) ≡ offered es ++ offered_by e
unfolding offered
offered-append [] e = append-nil (offered_by e)
offered-append (x ∷ es) e =
    ap (λ xs. offered_by x ++ xs) (offered-append es e)
    ∙ sym (append_assoc (offered_by x) (offered es) (offered_by e))

module _ (n : ℕ) (frames : List Bytes) (c : Conn) (served : IsServed n frames c) where
  unlisted-IsServed : (frames' : List Bytes) → c.listed ≡ false → IsServed n frames' c
  unfolding IsServed
  unlisted-IsServed frames' h = let (es, same, _) = served in (es, same, λ h'. absurd cc)

  idle-IsServed : IsServed n (frames ++ []) c
  idle-IsServed = rw (append-nil frames) served

  -- One event of its own more.
  step-IsServed :
      (e : Event) (frames' : List Bytes)
      → offered_by e ≡ frames'
      → IsServed n (frames ++ frames') (step n e c)
  unfolding IsServed
  step-IsServed e frames' h =
      let (es, same, all) = served in
      (
        es ++ e ∷ [],
        ap (step n e) same ∙ sym (run-append n es e fresh),
        λ listed. offered-append es e ∙ cc (h, all (step-listed n c e listed).0),
      )

get_elem?-append_some :
    (xs ys : List Conn) (i : ℕ) (c : Conn)
    → get_elem? xs i ≡ some c
    → get_elem? (xs ++ ys) i ≡ some c
get_elem?-append_some [] ys i c e = cc
get_elem?-append_some (x ∷ xs) ys zero c e = e
get_elem?-append_some (x ∷ xs) ys (suc i) c e = get_elem?-append_some xs ys i c e

-- A socket at a place of the hub.
IsAt : ℕ → ℕ → List Bytes → Hub → Type 0
IsAt n i frames h =
    (h.send_buffer ≡ n) × (c : Conn) × (get_elem? h.conns i ≡ some c) × IsServed n frames c

own-offered : (e : Event) → is_own e ≡ true → offered_by e ≡ []
unfolding is_own offered_by
own-offered (broadcast payload) h = absurd cc
own-offered (received f) h = refl
own-offered (failed_read e) h = refl
own-offered (control_turn ok) h = refl
own-offered (data_turn ok) h = refl
own-offered shut_down h = refl
own-offered timed_out h = refl
own-offered saw_done h = refl

shut_down-step :
    (n : ℕ) (c : Conn)
    → graceful_close close_going_away shutting_down (record c { listed = false })
      ≡ step n shut_down c
unfolding step graceful_close close enqueue_control
shut_down-step n c = ground arith

module _ (n i : ℕ) (frames : List Bytes) (h : Hub) (sb : h.send_buffer ≡ n) (c : Conn)
    (at_i : get_elem? h.conns i ≡ some c) (served : IsServed n frames c) where
  same-IsAt : IsAt n i (frames ++ []) h
  unfolding IsAt
  same-IsAt = (sb, c, at_i, idle-IsServed n frames c served)

  registered-IsAt : IsAt n i (frames ++ []) (register h)
  unfolding IsAt register
  registered-IsAt =
      (sb, c, get_elem?-append_some h.conns _ i c at_i, idle-IsServed n frames c served)

  shut-IsAt : IsAt n i (frames ++ []) (close_hub h)
  unfolding IsAt close_hub offered_by
  shut-IsAt =
      if_cases (IsAt n i (frames ++ [])) h.is_closed _ _ (λ _. same-IsAt)
        (λ _. (
          sb,
          _,
          get_elem?-map _ h.conns i c at_i,
          if_cases (IsServed n (frames ++ [])) c.listed _ _
              (λ _. rw (shut_down-step n c) (step-IsServed n frames c served shut_down [] refl))
              (λ _. idle-IsServed n frames c served),
        ))

  -- A hub that sends nothing lists nobody.
  idle_unlisted : IsShut h → (h.is_closed || count h == 0) ≡ true → c.listed ≡ false
  unfolding count
  idle_unlisted shut idle = elim (Bool-cases h.is_closed) [
    | inl closed ↦ All-get_elem? _ h.conns i c (shut closed) at_i
    | inr other ↦
        All-get_elem? _ h.conns i c (count_zero h.conns (ground (arith, other, idle))) at_i
  ]

  broadcasted-IsAt :
      (payload : Bytes)
      → IsShut h
      → IsAt n i (frames ++ encode_text_frame payload ∷ []) (broadcast_payload (some payload) h)
  unfolding IsAt broadcast_payload step offered_by
  broadcasted-IsAt payload shut =
      if_cases (IsAt n i (frames ++ encode_text_frame payload ∷ [])) (h.is_closed || count h == 0) _
        _ (λ idle. (sb, c, at_i, unlisted-IsServed n frames c served _ (idle_unlisted shut idle)))
        (λ _. (
          sb,
          _,
          get_elem?-map _ h.conns i c at_i,
          if_cases (IsServed n _) c.listed _ _
              (λ _. rw sb (
                step-IsServed n frames c served (broadcast payload) (encode_text_frame payload ∷ [])
                  refl))
              (unlisted-IsServed n frames c served _),
        ))

  -- A turn of this socket, and of another.
  own_turn-IsAt :
      (e : Event)
      → is_own e ≡ true
      → IsAt n i (frames ++ []) (record h { conns = set h.conns i (step h.send_buffer e c) })
  unfolding IsAt
  own_turn-IsAt e own = (
    sb,
    step h.send_buffer e c,
    get_elem?-set_self h.conns i _ c at_i,
    rw sb (step-IsServed n frames c served e [] (own-offered e own)),
  )

  other_turn-IsAt :
      (j : ℕ) (d : Conn)
      → (i == j) ≡ false
      → IsAt n i (frames ++ []) (record h { conns = set h.conns j d })
  unfolding IsAt
  other_turn-IsAt j d ne = (
    sb,
    c,
    get_elem?-set_ne h.conns j i d (λ e. absurd (ground (arith, e, ne))) ∙ at_i,
    idle-IsServed n frames c served,
  )

  turn_of-IsAt :
      (j : ℕ) (e : Event) (o : Option Conn)
      → get_elem? h.conns j ≡ o
      → IsAt n i (frames ++ []) (turn_of o j e h)
  unfolding turn_of
  turn_of-IsAt j e none at_j = same-IsAt
  turn_of-IsAt j e (some d) at_j =
      if_cases (IsAt n i (frames ++ [])) (is_own e) _ _
        (λ own. elim (Bool-cases (i == j)) [
          | inl eq ↦
              let same : i ≡ j = ==→eq i j eq in
              let same_conn : c ≡ d = cc in rw (sym same, sym same_conn) (own_turn-IsAt e own)
          | inr ne ↦ other_turn-IsAt j _ ne
        ])
        (λ _. same-IsAt)

step_hub-IsAt :
    (n i : ℕ) (frames : List Bytes) (e : HubEvent) (h : Hub)
    → IsShut h
    → IsAt n i frames h
    → IsAt n i (frames ++ frame_of e) (step_hub e h)
unfolding IsAt step_hub frame_of broadcast_payload
step_hub-IsAt n i frames registered h shut (sb, c, at_i, served) =
    registered-IsAt n i frames h sb c at_i served
step_hub-IsAt n i frames shut_hub h shut (sb, c, at_i, served) =
    shut-IsAt n i frames h sb c at_i served
step_hub-IsAt n i frames (broadcasted none) h shut (sb, c, at_i, served) =
    if_cases (IsAt n i (frames ++ [])) (h.is_closed || count h == 0) _ _
      (λ _. same-IsAt n i frames h sb c at_i served) (λ _. same-IsAt n i frames h sb c at_i served)
step_hub-IsAt n i frames (broadcasted (some payload)) h shut (sb, c, at_i, served) =
    broadcasted-IsAt n i frames h sb c at_i served payload shut
step_hub-IsAt n i frames (turn j e) h shut (sb, c, at_i, served) =
    turn_of-IsAt n i frames h sb c at_i served j e (get_elem? h.conns j) refl

run_hub-IsAt :
    (n i : ℕ) (frames : List Bytes) (es : List HubEvent) (h : Hub)
    → IsShut h
    → IsAt n i frames h
    → IsAt n i (frames ++ frames_of es) (run_hub es h)
unfolding run_hub frames_of
run_hub-IsAt n i frames [] h shut at_i = rw (append-nil frames) at_i
run_hub-IsAt n i frames (e ∷ es) h shut at_i =
    rw⁻¹ (append_assoc frames (frame_of e) (frames_of es)) (
      run_hub-IsAt n i (frames ++ frame_of e) es (step_hub e h) (step_hub-IsShut e h shut)
        (step_hub-IsAt n i frames e h shut at_i))

fresh-IsServed : (n : ℕ) (b : Bool) → IsServed n [] (if b then close fresh else fresh)
unfolding IsServed run step on_error offered offered_by close
fresh-IsServed n true = (failed_read hung_up ∷ [], refl, λ h. refl)
fresh-IsServed n false = ([], refl, λ h. refl)

register-IsShut : (h : Hub) → IsShut h → IsShut (register h)
unfolding step_hub
register-IsShut h shut = step_hub-IsShut registered h shut

register-IsAt : (h : Hub) → IsAt h.send_buffer (length h.conns) [] (register h)
unfolding IsAt register
register-IsAt h = (
  refl,
  _,
  get_elem?-append_right h.conns _ (length h.conns) 0 (omega arith),
  fresh-IsServed h.send_buffer h.is_closed,
)

-- A dashboard that registers after some events of a new hub, and that is still listed after some more,
-- has missed no broadcast: the texts on its wire, and behind them its send buffer, are the frames of the
-- broadcasts since it registered, in order. (Broadcasts come one at a time.)
pub dashboard_missed_nothing :
    (before after' : List HubEvent) (c : Conn)
    → get_elem?
        (run_hub after' (register (run_hub before new))).conns
        (length (run_hub before new).conns)
      ≡ some c
    → c.listed ≡ true
    → texts c.wire ++ c.send ≡ frames_of after'
unfolding IsAt IsServed
dashboard_missed_nothing before after' c at_i listed =
    let h = run_hub before new in
    let n = h.send_buffer in
    let i = length h.conns in
    let shut = run_hub-IsShut before new new-IsShut in
    let (_, d, at_i', served) =
      run_hub-IsAt n i [] after' (register h) (register-IsShut h shut) (register-IsAt h) in
    let (es, same, all) = served in
    let same_conn : d ≡ c = cc in
    let same_run : run n es fresh ≡ c = sym same ∙ same_conn in
    rw same_run at (listed_missed_nothing n es (rw same_run listed)) ∙ all (rw same_conn listed)
