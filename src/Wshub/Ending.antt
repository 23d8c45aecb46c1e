-- ===== src/Wshub/Ending.antt =====
-- wshub.go: what ends a connection, and what a connection that has not ended has missed.
use limit_plane.Prelude.{ℕ, ◌≡◌, refl, ◌∙◌, Bool, true, false, List, [], ◌∷◌, ◌++◌, arith}
use limit_plane.Wshub.{
  Bytes, ReadError, hung_up, reserved_bits, unmasked, control_too_long, fragmented_control,
  too_large, unknown_opcode, broken,
}
use limit_plane.Wshub.Connection.{
  fresh, enqueue, enqueue_control, close, graceful_close, offer, write_frame, control_turn_on,
  write_control, data_turn_on, write_data, on_error, on_frame, step, run, Conn, Event, broadcast,
  received, failed_read, control_turn, data_turn, shut_down, timed_out, saw_done,
}
use limit_plane.Wshub.Delivery.{run-IsSound}
use limit_plane.Wshub.Promises.{offered_by, offered, taken_by, accepted, texts, has_close}

-- Torn down, with this on the wire.
abbrev pub IsOver : List Bytes → Conn → Type 0
IsOver wire c = (c.done ≡ true) × (c.wire ≡ wire)

module _ (wire : List Bytes) (c : Conn) (over : IsOver wire c) where
  graceful_close-IsOver : (code : ℕ) (reason : Bytes) → IsOver wire (graceful_close code reason c)
  unfolding graceful_close close enqueue_control
  graceful_close-IsOver code reason = ground (arith, over.0, over.1)

  enqueue_control-IsOver : (frame : Bytes) → IsOver wire (enqueue_control frame c)
  unfolding enqueue_control
  enqueue_control-IsOver frame = ground (arith, over.0, over.1)

  data_turn_on-IsOver : (ok : Bool) (q : List Bytes) → IsOver wire (data_turn_on ok c q)
  unfolding data_turn_on write_frame close
  data_turn_on-IsOver ok [] = over
  data_turn_on-IsOver ok (frame ∷ frames) = ground (arith, over.0, over.1)

  control_turn_on-IsOver : (ok : Bool) (q : List Bytes) → IsOver wire (control_turn_on ok c q)
  unfolding control_turn_on write_frame close
  control_turn_on-IsOver ok [] = over
  control_turn_on-IsOver ok (frame ∷ frames) = ground (arith, over.0, over.1)

  on_error-IsOver : (e : ReadError) → IsOver wire (on_error e c)
  unfolding on_error close
  on_error-IsOver hung_up = ground (arith, over.0, over.1)
  on_error-IsOver too_large = graceful_close-IsOver _ _
  on_error-IsOver reserved_bits = graceful_close-IsOver _ _
  on_error-IsOver unmasked = graceful_close-IsOver _ _
  on_error-IsOver control_too_long = graceful_close-IsOver _ _
  on_error-IsOver fragmented_control = graceful_close-IsOver _ _
  on_error-IsOver unknown_opcode = graceful_close-IsOver _ _
  on_error-IsOver broken = graceful_close-IsOver _ _

  -- What is over stays over.
  step-IsOver : (send_buffer : ℕ) (e : Event) → IsOver wire (step send_buffer e c)
  unfolding step offer enqueue on_frame write_control write_data close graceful_close
      enqueue_control
  step-IsOver n (broadcast payload) = ground (arith, over.0, over.1)
  step-IsOver n (received f) = ground (arith, over.0, over.1)
  step-IsOver n (failed_read e) = on_error-IsOver e
  step-IsOver n (control_turn ok) = control_turn_on-IsOver ok c.control
  step-IsOver n (data_turn ok) = data_turn_on-IsOver ok c.send
  step-IsOver n shut_down = ground (arith, over.0, over.1)
  step-IsOver n timed_out = ground (arith, over.0, over.1)
  step-IsOver n saw_done = ground (arith, over.0, over.1)

run-IsOver :
    (send_buffer : ℕ) (wire : List Bytes) (es : List Event) (c : Conn)
    → IsOver wire c
    → IsOver wire (run send_buffer es c)
unfolding run
run-IsOver n wire [] c over = over
run-IsOver n wire (e ∷ es) c over = run-IsOver n wire es (step n e c) (step-IsOver wire c over n e)

-- Once a new socket's writer has written a Close frame, nothing more is written, whatever happens then.
pub nothing_after_close :
    (send_buffer : ℕ) (es later : List Event)
    → has_close (run send_buffer es fresh).wire ≡ true
    → (run send_buffer later (run send_buffer es fresh)).wire ≡ (run send_buffer es fresh).wire
nothing_after_close n es later h =
    let c = run n es fresh in
    let s = run-IsSound n es in (run-IsOver n c.wire later c (s.close_last h, refl)).1

module _ (send_buffer : ℕ) (c : Conn) where
  on_error-listed : (e : ReadError) → (on_error e c).listed ≡ true → c.listed ≡ true
  unfolding on_error close graceful_close enqueue_control
  on_error-listed hung_up h = ground (arith, h)
  on_error-listed too_large h = ground (arith, h)
  on_error-listed reserved_bits h = ground (arith, h)
  on_error-listed unmasked h = ground (arith, h)
  on_error-listed control_too_long h = ground (arith, h)
  on_error-listed fragmented_control h = ground (arith, h)
  on_error-listed unknown_opcode h = ground (arith, h)
  on_error-listed broken h = ground (arith, h)

  data_turn_on-listed :
      (ok : Bool) (q : List Bytes) → (data_turn_on ok c q).listed ≡ true → c.listed ≡ true
  unfolding data_turn_on write_frame close
  data_turn_on-listed ok [] h = h
  data_turn_on-listed ok (frame ∷ frames) h = ground (arith, h)

  control_turn_on-listed :
      (ok : Bool) (q : List Bytes) → (control_turn_on ok c q).listed ≡ true → c.listed ≡ true
  unfolding control_turn_on write_frame close
  control_turn_on-listed ok [] h = h
  control_turn_on-listed ok (frame ∷ frames) h = ground (arith, h)

  -- A socket is listed after an event only if it was, and took what was offered.
  pub step-listed :
      (e : Event)
      → (step send_buffer e c).listed ≡ true
      → (c.listed ≡ true) × (taken_by send_buffer e c ≡ offered_by e)
  unfolding step offer enqueue taken_by offered_by graceful_close close enqueue_control on_frame
      write_control write_data
  step-listed (broadcast payload) h = ground (arith, h)
  step-listed (received f) h = ground (arith, h)
  step-listed (failed_read e) h = (on_error-listed e h, refl)
  step-listed (control_turn ok) h = (control_turn_on-listed ok c.control h, refl)
  step-listed (data_turn ok) h = (data_turn_on-listed ok c.send h, refl)
  step-listed shut_down h = ground (arith, h)
  step-listed timed_out h = ground (arith, h)
  step-listed saw_done h = ground (arith, h)

pub run-listed :
    (send_buffer : ℕ) (es : List Event) (c : Conn)
    → (run send_buffer es c).listed ≡ true
    → (c.listed ≡ true) × (accepted send_buffer es c ≡ offered es)
unfolding run accepted offered
run-listed n [] c h = (h, refl)
run-listed n (e ∷ es) c h =
    let (before, rest) = run-listed n es (step n e c) h in
    let (listed, taken) = step-listed n c e before in (listed, cc (rest, taken))

-- A new socket that is still listed after a run has missed nothing: the texts written to it, and behind
-- them the frames that wait for its writer, are the frames of all the broadcasts of the run, in order.
pub listed_missed_nothing :
    (send_buffer : ℕ) (es : List Event)
    → (run send_buffer es fresh).listed ≡ true
    → texts (run send_buffer es fresh).wire ++ (run send_buffer es fresh).send ≡ offered es
listed_missed_nothing n es h =
    let c = run n es fresh in
    let s = run-IsSound n es in
    let (lost, same, left) = s.delivered in
    let up : c.done ≡ false = ground (arith, h, s.done_unlisted) in
    let waiting : lost ≡ c.send = left up in rw waiting at same ∙ (run-listed n es fresh h).1
