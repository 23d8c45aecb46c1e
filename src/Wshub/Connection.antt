-- ===== src/Wshub/Connection.antt =====
-- wshub.go: one dashboard's socket: its two channels, the frames written to it, and what the goroutines
-- do to it, one event at a time. Several broadcasters, the reader, the writer and the timer take their
-- turns in any order; a write either fails or puts the whole frame on the wire.
use limit_plane.Prelude.{
  ltb, ◌==◌, if◌then◌else◌, length, ℕ, zero, suc, ◌%◌, Bool, true, false, not, ◌||◌, Option, none,
  some, List, [], ◌∷◌, ◌++◌,
}
use limit_plane.Wshub.{
  Bytes, op_close, op_ping, op_pong, encode_text_frame, encode_control_frame, encode_close_frame,
  parsed, refused, read_frame, ReadError, Parsed, Frame, hung_up, reserved_bits, unmasked,
  control_too_long, fragmented_control, too_large, unknown_opcode, broken,
}

abbrev pub default_send_buffer : ℕ
default_send_buffer = 64

abbrev pub control_buffer : ℕ
control_buffer = 4

abbrev pub close_normal : ℕ
close_normal = 1000

abbrev pub close_going_away : ℕ
close_going_away = 1001

abbrev pub close_protocol_error : ℕ
close_protocol_error = 1002

abbrev pub close_message_too_big : ℕ
close_message_too_big = 1009

abbrev pub close_try_again_later : ℕ
close_try_again_later = 1013

-- The reasons, which are in ASCII.
abbrev pub too_slow : Bytes
too_slow =
    b'c' ∷ b'l' ∷ b'i' ∷ b'e' ∷ b'n' ∷ b't' ∷ b' ' ∷ b't' ∷ b'o' ∷ b'o' ∷ b' ' ∷ b's' ∷ b'l' ∷ b'o'
    ∷ b'w' ∷ []

abbrev pub shutting_down : Bytes
shutting_down =
    b's' ∷ b'e' ∷ b'r' ∷ b'v' ∷ b'e' ∷ b'r' ∷ b' ' ∷ b's' ∷ b'h' ∷ b'u' ∷ b't' ∷ b't' ∷ b'i' ∷ b'n'
    ∷ b'g' ∷ b' ' ∷ b'd' ∷ b'o' ∷ b'w' ∷ b'n' ∷ []

abbrev pub frame_too_large : Bytes
frame_too_large =
    b'f' ∷ b'r' ∷ b'a' ∷ b'm' ∷ b'e' ∷ b' ' ∷ b't' ∷ b'o' ∷ b'o' ∷ b' ' ∷ b'l' ∷ b'a' ∷ b'r' ∷ b'g'
    ∷ b'e' ∷ []

abbrev pub malformed_frame : Bytes
malformed_frame =
    b'm' ∷ b'a' ∷ b'l' ∷ b'f' ∷ b'o' ∷ b'r' ∷ b'm' ∷ b'e' ∷ b'd' ∷ b' ' ∷ b'f' ∷ b'r' ∷ b'a' ∷ b'm'
    ∷ b'e' ∷ []

-- `listed` is the hub's registry, `closing` a pending timer, `wire` the frames written, oldest first.
pub record Conn : Type 0 where
  pub send : List Bytes
  pub control : List Bytes
  pub done : Bool
  pub listed : Bool
  pub closing : Bool
  pub wire : List Bytes

-- A socket that the hub has just taken.
abbrev pub fresh : Conn
fresh = record { send = []; control = []; done = false; listed = true; closing = false; wire = [] }

unfoldable pub enqueue : ℕ → Bytes → Conn → Bool × Conn
enqueue send_buffer frame c =
    if ltb (length c.send) send_buffer
    then (true, record c { send = c.send ++ frame ∷ [] })
    else (false, c)

-- Best effort: nothing is put into a full buffer.
unfoldable pub enqueue_control : Bytes → Conn → Conn
enqueue_control frame c =
    if ltb (length c.control) control_buffer
    then record c { control = c.control ++ frame ∷ [] }
    else c

unfoldable pub close : Conn → Conn
close c = record c { done = true; listed = false }

unfoldable pub graceful_close : ℕ → Bytes → Conn → Conn
unfolding enqueue_control close
graceful_close code' reason c =
    if c.done
    then close c
    else enqueue_control (encode_close_frame code' reason)
        (record c { listed = false; closing = true })

-- What `Broadcast` does to one of its targets.
unfoldable pub offer : ℕ → Bytes → Conn → Conn
unfolding enqueue graceful_close
offer send_buffer frame c =
    let (taken, c') = enqueue send_buffer frame c in
    if taken then c' else graceful_close close_try_again_later too_slow c'

-- `frame[0] & 0x0f == opClose`.
unfoldable pub is_close : Bytes → Bool
is_close [] = false
is_close (b ∷ bs) = b % 0x10 == op_close

-- Whether the network takes the frame is `ok`; a socket that is torn down takes none.
unfoldable pub write_frame : Bool → Bytes → Conn → Bool × Conn
write_frame ok frame c =
    if c.done || not ok then (false, c) else (true, record c { wire = c.wire ++ frame ∷ [] })

-- The writer's turn with a control frame, and with a data frame, in front of what it leaves behind.
unfoldable pub control_turn_on : Bool → Conn → List Bytes → Conn
control_turn_on ok c [] = c
control_turn_on ok c (frame ∷ frames) =
    let (written, c') = write_frame ok frame (record c { control = frames }) in
    if not written || is_close frame then close c' else c'

unfoldable pub write_control : Bool → Conn → Conn
unfolding control_turn_on write_frame close
write_control ok c = control_turn_on ok c c.control

unfoldable pub data_turn_on : Bool → Conn → List Bytes → Conn
data_turn_on ok c [] = c
data_turn_on ok c (frame ∷ frames) =
    let (written, c') = write_frame ok frame (record c { send = frames }) in
    if not written then close c' else c'

unfoldable pub write_data : Bool → Conn → Conn
unfolding data_turn_on write_frame close
write_data ok c = data_turn_on ok c c.send

-- The reader's turn: what a failure of the read does, and what a frame does; the frame may end the loop.
unfoldable pub on_error : ReadError → Conn → Conn
unfolding close graceful_close
on_error hung_up c = close c
on_error too_large c = graceful_close close_message_too_big frame_too_large c
on_error reserved_bits c = graceful_close close_protocol_error malformed_frame c
on_error unmasked c = graceful_close close_protocol_error malformed_frame c
on_error control_too_long c = graceful_close close_protocol_error malformed_frame c
on_error fragmented_control c = graceful_close close_protocol_error malformed_frame c
on_error unknown_opcode c = graceful_close close_protocol_error malformed_frame c
on_error broken c = graceful_close close_protocol_error malformed_frame c

unfoldable pub on_frame : Frame → Conn → Conn
unfolding enqueue_control graceful_close
on_frame f c =
    if f.opcode == op_close
    then graceful_close close_normal [] c
    else if f.opcode == op_ping
    then enqueue_control (encode_control_frame op_pong f.payload) c
    else c

-- What a read does, and then the loop's next turn, unless the peer said Close.
unfoldable pub after_read : (Bytes → Conn → Option Conn) → Conn → Parsed Frame → Option Conn
after_read next c (refused e) = some (on_error e c)
after_read next c (parsed f rest) =
    let later = next rest (on_frame f c) in
    if f.opcode == op_close then some (on_frame f c) else later

-- The reader on a stream, alone: `none` when the fuel is gone.
unfoldable pub read_loop : ℕ → Bytes → Conn → Option Conn
unfolding after_read
read_loop zero bs c = none
read_loop (suc fuel) bs c = after_read (read_loop fuel) c (read_frame bs)

pub data Event : Type 0 where
  broadcast : Bytes → Event
  received : Frame → Event
  failed_read : ReadError → Event
  control_turn data_turn : Bool → Event
  shut_down timed_out saw_done : Event

-- A timer fires only where one was set, and the writer sees `done` only where it is closed.
unfoldable pub step : ℕ → Event → Conn → Conn
unfolding offer on_error on_frame write_control write_data graceful_close close
step send_buffer (broadcast payload) c = offer send_buffer (encode_text_frame payload) c
step send_buffer (received f) c = on_frame f c
step send_buffer (failed_read e) c = on_error e c
step send_buffer (control_turn ok) c = write_control ok c
step send_buffer (data_turn ok) c = write_data ok c
step send_buffer shut_down c = graceful_close close_going_away shutting_down c
step send_buffer timed_out c = if c.closing then close c else c
step send_buffer saw_done c = if c.done then close c else c

unfoldable pub run : ℕ → List Event → Conn → Conn
run send_buffer [] c = c
run send_buffer (e ∷ es) c = run send_buffer es (step send_buffer e c)
