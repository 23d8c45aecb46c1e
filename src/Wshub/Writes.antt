-- ===== src/Wshub/Writes.antt =====
-- wshub.go: the writer's turns keep what a socket promises.
use limit_plane.Prelude.{
  Bool-cases, if_cases, length, All, ℕ, ◌≤◌, ◌≡◌, refl, sym, ap, ◌∙◌, inl, inr, Bool, true, false,
  not, ◌||◌, List, [], ◌∷◌, ◌++◌, arith,
}
use limit_plane.Wshub.{Bytes}
use limit_plane.Wshub.Connection.{
  control_buffer, close, is_close, write_frame, control_turn_on, data_turn_on, Conn,
}
use limit_plane.Wshub.Promises.{
  is_text, texts, has_close-append, is_close-is_text, texts-append, texts-append_other, torn,
  IsSound,
}

-- A turn of the writer, on a buffer that has a frame in front.
module _ (send_buffer : ℕ) (taken : List Bytes) (c : Conn) (s : IsSound send_buffer taken c)
    (frame : Bytes) (frames : List Bytes) where
  wrote_data-IsSound :
      c.send ≡ frame ∷ frames
      → c.done ≡ false
      → IsSound send_buffer taken (record c { send = frames; wire = c.wire ++ frame ∷ [] })
  wrote_data-IsSound front alive =
      let (is, are) : All (λ x. is_text x ≡ true) (frame ∷ frames) = rw front at s.send_texts in
      let (lost, same, left) = s.delivered in
      record {
        send_bounded = omega (arith, ap length front, s.send_bounded);
        control_bounded = s.control_bounded;
        done_unlisted = s.done_unlisted;
        send_texts = are;
        control_texts = s.control_texts;
        close_last = λ h.
            ground
              (arith, h, s.close_last, has_close-append c.wire frame, is_close-is_text frame is);
        delivered = (
          frames,
          texts-append c.wire frames frame is
              ∙ ap (λ xs. texts c.wire ++ xs) (sym (left alive ∙ front))
              ∙ same,
          λ _. refl,
        );
      }

  failed_data-IsSound :
      c.send ≡ frame ∷ frames → IsSound send_buffer taken (close (record c { send = frames }))
  failed_data-IsSound front =
      let (is, are) : All (λ x. is_text x ≡ true) (frame ∷ frames) = rw front at s.send_texts in
      torn send_buffer taken c s frames c.control (omega (arith, ap length front, s.send_bounded))
        s.control_bounded are s.control_texts

  module _ (front : c.control ≡ frame ∷ frames) where
    rest_texts : (is_text frame ≡ false) × All (λ x. is_text x ≡ false) frames
    rest_texts = rw front at s.control_texts

    rest_short : length frames ≤ control_buffer
    rest_short = omega (arith, ap length front, s.control_bounded)

    failed_control-IsSound : IsSound send_buffer taken (close (record c { control = frames }))
    failed_control-IsSound =
        torn send_buffer taken c s c.send frames s.send_bounded rest_short s.send_texts rest_texts.1

    wrote_control-IsSound :
        is_close frame ≡ false
        → IsSound send_buffer taken (record c { control = frames; wire = c.wire ++ frame ∷ [] })
    wrote_control-IsSound other =
        let (lost, same, left) = s.delivered in
        let same_texts = texts-append_other c.wire frame rest_texts.0 in
        record {
          send_bounded = s.send_bounded;
          control_bounded = rest_short;
          done_unlisted = s.done_unlisted;
          send_texts = s.send_texts;
          control_texts = rest_texts.1;
          close_last = λ h. s.close_last (ground (arith, h, other, has_close-append c.wire frame));
          delivered = (lost, rw same_texts same, left);
        }

    wrote_close-IsSound :
        IsSound send_buffer taken
          (close (record c { control = frames; wire = c.wire ++ frame ∷ [] }))
    unfolding close
    wrote_close-IsSound =
        let (lost, same, left) = s.delivered in
        let same_texts = texts-append_other c.wire frame rest_texts.0 in
        record {
          send_bounded = s.send_bounded;
          control_bounded = rest_short;
          done_unlisted = λ _. refl;
          send_texts = s.send_texts;
          control_texts = rest_texts.1;
          close_last = λ _. refl;
          delivered = (lost, rw same_texts same, λ h. absurd cc);
        }

pub data_turn_on-IsSound :
    (send_buffer : ℕ) (taken : List Bytes) (c : Conn) (ok : Bool) (q : List Bytes)
    → c.send ≡ q
    → IsSound send_buffer taken c
    → IsSound send_buffer taken (data_turn_on ok c q)
unfolding data_turn_on write_frame
data_turn_on-IsSound n taken c ok [] e s = s
data_turn_on-IsSound n taken c ok (frame ∷ frames) e s = elim (Bool-cases (c.done || not ok)) [
  | inl failed ↦ rw failed (failed_data-IsSound n taken c s frame frames e)
  | inr put ↦ rw put (wrote_data-IsSound n taken c s frame frames e (ground (arith, put)))
]

pub control_turn_on-IsSound :
    (send_buffer : ℕ) (taken : List Bytes) (c : Conn) (ok : Bool) (q : List Bytes)
    → c.control ≡ q
    → IsSound send_buffer taken c
    → IsSound send_buffer taken (control_turn_on ok c q)
unfolding control_turn_on write_frame
control_turn_on-IsSound n taken c ok [] e s = s
control_turn_on-IsSound n taken c ok (frame ∷ frames) e s = elim (Bool-cases (c.done || not ok)) [
  | inl failed ↦ rw failed (failed_control-IsSound n taken c s frame frames e)
  | inr put ↦ rw put (
      if_cases (IsSound n taken) (is_close frame) _ _
        (λ _. wrote_close-IsSound n taken c s frame frames e)
        (wrote_control-IsSound n taken c s frame frames e))
]
