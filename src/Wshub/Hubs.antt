-- ===== src/Wshub/Hubs.antt =====
-- wshub.go: the hub, which is the sockets that it ever registered, each with its place in the registry.
-- A broadcast is one step here, so broadcasts come one at a time; the turns of the sockets' own goroutines
-- come between them in any order. The request's parts, SHA-1 and base64 are parameters.
use limit_plane.Prelude.{
  ◌==◌, if◌then◌else◌, length, get_elem?, set, keep_if, ℕ, String, Bool, true, false, not, ◌||◌,
  Option, none, some, List, [], ◌∷◌, ◌++◌, map, str_append, str_eq,
}
use limit_plane.Wshub.{Bytes, encode_text_frame}
use limit_plane.Wshub.Connection.{
  default_send_buffer, close_going_away, shutting_down, fresh, close, graceful_close, offer, step,
  Conn, Event, broadcast, received, failed_read, control_turn, data_turn, shut_down, timed_out,
  saw_done,
}

abbrev pub magic_guid : String
magic_guid = "258EAFA5-E914-47DA-95CA-C5AB0DC85B11"

unfoldable pub compute_accept : (sha1_base64 : String → String) → String → String
compute_accept sha1_base64 key = sha1_base64 (str_append key magic_guid)

-- What a request for an upgrade brings: the two headers are as they came.
pub record Upgrade : Type 0 where
  pub is_authorized : Bool
  pub key : String
  pub version : String
  pub can_hijack : Bool
  pub hijacked : Bool

-- The status of the refusal, if there is one.
unfoldable pub refuse_upgrade : (trim : String → String) → Bool → Upgrade → Option ℕ
refuse_upgrade trim is_closed r =
    if not r.is_authorized
    then some 401
    else if str_eq (trim r.key) ""
    then some 400
    else if not (str_eq (trim r.version) "13")
    then some 400
    else if is_closed
    then some 503
    else if not r.can_hijack
    then some 500
    else if not r.hijacked
    then some 500
    else none

pub record Hub : Type 0 where
  pub send_buffer : ℕ
  pub is_closed : Bool
  pub conns : List Conn

unfoldable pub new : Hub
new = record { send_buffer = default_send_buffer; is_closed = false; conns = [] }

unfoldable pub register : Hub → Hub
register h = record h { conns = h.conns ++ (if h.is_closed then close fresh else fresh) ∷ [] }

unfoldable pub count : Hub → ℕ
count h = length (keep_if (λ c. c.listed) h.conns)

abbrev pub on_listed : (Conn → Conn) → Conn → Conn
on_listed f c = if c.listed then f c else c

-- `none` is data that cannot be marshalled.
unfoldable pub broadcast_payload : Option Bytes → Hub → Hub
unfolding count
broadcast_payload payload h = if h.is_closed || count h == 0 then h else elim payload [
  | none ↦ h
  | some p ↦ record h {
    conns = map (on_listed (offer h.send_buffer (encode_text_frame p))) h.conns;
  }
]

unfoldable pub close_hub : Hub → Hub
close_hub h = if h.is_closed then h else record h {
  is_closed = true;
  conns =
      map
        (on_listed
          (λ c. graceful_close close_going_away shutting_down (record c { listed = false })))
        h.conns;
}

-- The turns that a socket's goroutines and its timer take.
unfoldable pub is_own : Event → Bool
is_own (broadcast payload) = false
is_own (received f) = true
is_own (failed_read e) = true
is_own (control_turn ok) = true
is_own (data_turn ok) = true
is_own shut_down = false
is_own timed_out = true
is_own saw_done = true

unfoldable pub turn_of : Option Conn → ℕ → Event → Hub → Hub
turn_of none i e h = h
turn_of (some c) i e h =
    if is_own e then record h { conns = set h.conns i (step h.send_buffer e c) } else h

pub data HubEvent : Type 0 where
  registered shut_hub : HubEvent
  broadcasted : Option Bytes → HubEvent
  turn : ℕ → Event → HubEvent

unfoldable pub step_hub : HubEvent → Hub → Hub
unfolding turn_of register broadcast_payload close_hub
step_hub registered h = register h
step_hub shut_hub h = close_hub h
step_hub (broadcasted payload) h = broadcast_payload payload h
step_hub (turn i e) h = turn_of (get_elem? h.conns i) i e h

unfoldable pub run_hub : List HubEvent → Hub → Hub
run_hub [] h = h
run_hub (e ∷ es) h = run_hub es (step_hub e h)
