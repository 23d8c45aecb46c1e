-- ===== src/Wshub/Delivery.antt =====
-- wshub.go: what reaches a dashboard, over any run.
use mathlib.Core.List.{append_assoc, append-nil}
use limit_plane.Prelude.{◌==◌, if_cases, ℕ, refl, List, [], ◌∷◌, ◌++◌, arith}
use limit_plane.Wshub.{
  Bytes, op_close, op_ping, ReadError, Frame, hung_up, reserved_bits, unmasked, control_too_long,
  fragmented_control, too_large, unknown_opcode, broken,
}
use limit_plane.Wshub.Connection.{
  close_going_away, shutting_down, fresh, write_control, write_data, on_error, on_frame, step, run,
  Conn, Event, broadcast, received, failed_read, control_turn, data_turn, shut_down, timed_out,
  saw_done,
}
use limit_plane.Wshub.Writes.{data_turn_on-IsSound, control_turn_on-IsSound}
use limit_plane.Wshub.Promises.{
  offered_by, taken_by, accepted, has_close, is_text-encode_control_frame, enqueue_control-IsSound,
  close-IsSound, graceful_close-IsSound, offer-IsSound, IsSound,
}

on_error-IsSound :
    (send_buffer : ℕ) (taken : List Bytes) (c : Conn) (e : ReadError)
    → IsSound send_buffer taken c
    → IsSound send_buffer taken (on_error e c)
unfolding on_error
on_error-IsSound n taken c hung_up s = close-IsSound n taken c s
on_error-IsSound n taken c too_large s = graceful_close-IsSound n taken c _ _ s
on_error-IsSound n taken c reserved_bits s = graceful_close-IsSound n taken c _ _ s
on_error-IsSound n taken c unmasked s = graceful_close-IsSound n taken c _ _ s
on_error-IsSound n taken c control_too_long s = graceful_close-IsSound n taken c _ _ s
on_error-IsSound n taken c fragmented_control s = graceful_close-IsSound n taken c _ _ s
on_error-IsSound n taken c unknown_opcode s = graceful_close-IsSound n taken c _ _ s
on_error-IsSound n taken c broken s = graceful_close-IsSound n taken c _ _ s

on_frame-IsSound :
    (send_buffer : ℕ) (taken : List Bytes) (c : Conn) (f : Frame)
    → IsSound send_buffer taken c
    → IsSound send_buffer taken (on_frame f c)
unfolding on_frame
on_frame-IsSound n taken c f s =
    if_cases (IsSound n taken) (f.opcode == op_close) _ _
      (λ _. graceful_close-IsSound n taken c _ _ s)
      (λ _.
        if_cases (IsSound n taken) (f.opcode == op_ping) _ _
          (λ _. enqueue_control-IsSound n taken c s _ (is_text-encode_control_frame f.payload).1)
          (λ _. s))

-- Every event but a broadcast leaves the history as it was.
step-IsSound :
    (send_buffer : ℕ) (taken : List Bytes) (c : Conn) (e : Event)
    → IsSound send_buffer taken c
    → IsSound send_buffer (taken ++ taken_by send_buffer e c) (step send_buffer e c)
unfolding step taken_by offered_by write_control write_data
step-IsSound n taken c (broadcast payload) s = offer-IsSound n taken c payload s
step-IsSound n taken c (received f) s = rw (append-nil taken) (on_frame-IsSound n taken c f s)
step-IsSound n taken c (failed_read e) s = rw (append-nil taken) (on_error-IsSound n taken c e s)
step-IsSound n taken c (control_turn ok) s =
    rw (append-nil taken) (control_turn_on-IsSound n taken c ok c.control refl s)
step-IsSound n taken c (data_turn ok) s =
    rw (append-nil taken) (data_turn_on-IsSound n taken c ok c.send refl s)
step-IsSound n taken c shut_down s =
    rw (append-nil taken) (graceful_close-IsSound n taken c close_going_away shutting_down s)
step-IsSound n taken c timed_out s =
    rw (append-nil taken)
      (if_cases (IsSound n taken) c.closing _ _ (λ _. close-IsSound n taken c s) (λ _. s))
step-IsSound n taken c saw_done s =
    rw (append-nil taken)
      (if_cases (IsSound n taken) c.done _ _ (λ _. close-IsSound n taken c s) (λ _. s))

run-IsSound_from :
    (send_buffer : ℕ) (taken : List Bytes) (es : List Event) (c : Conn)
    → IsSound send_buffer taken c
    → IsSound send_buffer (taken ++ accepted send_buffer es c) (run send_buffer es c)
unfolding accepted run
run-IsSound_from n taken [] c s = rw (append-nil taken) s
run-IsSound_from n taken (e ∷ es) c s =
    rw⁻¹ (append_assoc taken (taken_by n e c) (accepted n es (step n e c)))
      (run-IsSound_from n (taken ++ taken_by n e c) es (step n e c) (step-IsSound n taken c e s))

-- After any run of a new socket, whatever the goroutines' order: the buffers keep within their bounds, a
-- socket that is torn down is not listed, a written Close frame means that it is torn down, and the
-- texts on the wire are the first of the frames that the send buffer took, in their order and whole; and
-- until it is torn down, the others wait in the buffer.
pub run-IsSound :
    (send_buffer : ℕ) (es : List Event)
    → IsSound send_buffer (accepted send_buffer es fresh) (run send_buffer es fresh)
unfolding has_close
run-IsSound n es = run-IsSound_from n [] es fresh (record {
  send_bounded = omega arith;
  control_bounded = omega arith;
  done_unlisted = λ h. absurd cc;
  send_texts = tt;
  control_texts = tt;
  close_last = λ h. absurd cc;
  delivered = ([], refl, λ _. refl);
})
