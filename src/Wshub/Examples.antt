-- ===== src/Wshub/Examples.antt =====
-- wshub.go: the theorems at concrete frames, streams and runs, and tests of the definitions.
use Prim.Native.Nat.{bit_and}
use limit_plane.Prelude.{
  ◌==◌, if◌then◌else◌, length, get_elem?, ℕ, zero, suc, ◌+◌, ◌≤◌, ◌≡◌, refl, Bool, true, not, ◌&&◌,
  none, some, List, [], ◌∷◌, ◌++◌, arith,
}
use limit_plane.Wshub.{
  Bytes, op_ping, op_pong, put_uint16, encode_text_frame, encode_control_frame, encode_close_frame,
  has_bits, is_control, known_opcode, parsed, ◌>>=◌, read_full, read_length, check_frame, key_at,
  mask_from, read_frame, Frame, IsAllowed,
}
use limit_plane.Wshub.Connection.{
  fresh, enqueue, enqueue_control, close, graceful_close, offer, is_close, write_frame,
  control_turn_on, write_control, data_turn_on, write_data, on_frame, read_loop, step, run, Conn,
  Event, broadcast, received, control_turn, data_turn,
}
use limit_plane.Wshub.RoundTrip.{client_frame, read_frame-client_frame}
use limit_plane.Wshub.Reading.{read_frame-IsAllowed}
use limit_plane.Wshub.Replies.{read_server, pong_echoes_ping}
use limit_plane.Wshub.ReadLoop.{IsEnding, read_loop-IsEnding}
use limit_plane.Wshub.Delivery.{run-IsSound}
use limit_plane.Wshub.Ending.{nothing_after_close}
use limit_plane.Wshub.Hubs.{
  new, register, count, broadcast_payload, is_own, turn_of, step_hub, run_hub, HubEvent, registered,
  broadcasted, turn,
}
use limit_plane.Wshub.Dashboards.{frames_of, dashboard_missed_nothing}
use limit_plane.Wshub.Promises.{accepted, texts, has_close, IsSound}

abbrev ping : Frame
ping = record { fin = true; opcode = op_ping; payload = 1 ∷ 2 ∷ 3 ∷ 4 ∷ 5 ∷ [] }

abbrev key : Bytes
key = 17 ∷ 34 ∷ 51 ∷ 68 ∷ []

abbrev ping_bytes : Bytes
ping_bytes = 0x89 ∷ 0x85 ∷ 17 ∷ 34 ∷ 51 ∷ 68 ∷ 16 ∷ 32 ∷ 48 ∷ 64 ∷ 20 ∷ []

ping-IsAllowed : IsAllowed ping
unfolding known_opcode is_control
ping-IsAllowed = record { known = refl; short = λ _. (omega arith, refl); bounded = omega arith }

read_frame-client_frame_example :
    read_frame (client_frame ping key ++ 7 ∷ []) ≡ parsed ping (7 ∷ [])
read_frame-client_frame_example =
    read_frame-client_frame ping key (7 ∷ []) ping-IsAllowed
      (omega arith, (omega arith, (omega arith, (omega arith, (omega arith, tt))))) refl
      (omega arith, (omega arith, (omega arith, (omega arith, tt))))

ping_read : read_frame (ping_bytes ++ 7 ∷ []) ≡ parsed ping (7 ∷ [])
unfolding read_frame read_length read_full check_frame known_opcode is_control mask_from key_at
    ◌>>=◌
ping_read = refl

read_frame-IsAllowed_example : IsAllowed ping × (6 + 5 + 1 ≤ 12)
read_frame-IsAllowed_example = read_frame-IsAllowed (ping_bytes ++ 7 ∷ []) ping (7 ∷ []) ping_read

pong_echoes_ping_example :
    (pong : Bytes) × (read_loop 3 (ping_bytes ++ 7 ∷ []) fresh
      ≡ read_loop 2 (7 ∷ []) (record fresh { control = pong ∷ [] }))
    × (read_server (pong ++ 9 ∷ [])
        ≡ parsed (record { fin = true; opcode = op_pong; payload = ping.payload }) (9 ∷ []))
pong_echoes_ping_example =
    pong_echoes_ping 2 (ping_bytes ++ 7 ∷ []) (7 ∷ []) (9 ∷ []) ping fresh ping_read refl
      (omega arith)

-- A ping, and then a frame that is cut off.
read_loop-IsEnding_example :
    (c' : Conn) × (read_loop 13 (ping_bytes ++ 0x81 ∷ []) fresh ≡ some c') × IsEnding c'
read_loop-IsEnding_example = read_loop-IsEnding 13 (ping_bytes ++ 0x81 ∷ []) fresh (omega arith)

-- A buffer of one frame: the second broadcast finds it full, the third comes after the Close frame.
abbrev slow_client : List Event
slow_client =
    broadcast (1 ∷ [])
    ∷ data_turn true
    ∷ received ping
    ∷ broadcast (2 ∷ [])
    ∷ broadcast (3 ∷ [])
    ∷ control_turn true
    ∷ control_turn true
    ∷ []

run-IsSound_example : IsSound 1 (accepted 1 slow_client fresh) (run 1 slow_client fresh)
run-IsSound_example = run-IsSound 1 slow_client

slow_client_closed : has_close (run 1 slow_client fresh).wire ≡ true
unfolding has_close is_close run step offer enqueue graceful_close enqueue_control close on_frame
    write_control write_data write_frame encode_text_frame encode_close_frame encode_control_frame
    put_uint16 control_turn_on data_turn_on
slow_client_closed = refl

nothing_after_close_example :
    (run 1 (data_turn true ∷ []) (run 1 slow_client fresh)).wire ≡ (run 1 slow_client fresh).wire
nothing_after_close_example =
    nothing_after_close 1 slow_client (data_turn true ∷ []) slow_client_closed

abbrev hub_events : List HubEvent
hub_events =
    broadcasted (some (1 ∷ []))
    ∷ turn 1 (data_turn true)
    ∷ broadcasted none
    ∷ registered
    ∷ broadcasted (some (2 ∷ []))
    ∷ []

abbrev second : Conn
second = record fresh { send = (0x81 ∷ 1 ∷ 2 ∷ []) ∷ []; wire = (0x81 ∷ 1 ∷ 1 ∷ []) ∷ [] }

second_there :
    get_elem?
      (run_hub hub_events (register (run_hub (registered ∷ []) new))).conns
      (length (run_hub (registered ∷ []) new).conns)
    ≡ some second
unfolding run_hub step_hub register new turn_of broadcast_payload count is_own step offer enqueue
    graceful_close enqueue_control close write_data write_frame encode_text_frame data_turn_on
second_there = refl

dashboard_missed_nothing_example : texts second.wire ++ second.send ≡ frames_of hub_events
dashboard_missed_nothing_example =
    dashboard_missed_nothing (registered ∷ []) hub_events second second_there refl

-- The bits that a quotient and a remainder pick, against the mask, for the bytes below a number.
agrees : ℕ → ℕ → ℕ → ℕ → Bool
agrees zero low width mask = true
agrees (suc b) low width mask =
    let rest = agrees b low width mask in
    let masked = not (bit_and b mask == 0) in
    (if has_bits b low width then masked else not masked) && rest

masks_agree :
    (agrees 256 0x80 2 0x80 ≡ true)
    × (agrees 256 0x10 8 0x70 ≡ true)
    × (agrees 256 0x8 2 0x8 ≡ true)
unfolding agrees
masks_agree = (refl, refl, refl)
