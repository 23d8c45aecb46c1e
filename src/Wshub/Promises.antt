-- ===== src/Wshub/Promises.antt =====
-- wshub.go: what a socket promises, and that its calls keep it.
use mathlib.Core.List.{append_assoc, append-nil}
use limit_plane.Prelude.{
  ltb, ◌==◌, if◌then◌else◌, Bool-cases, ltb→lt, if_cases, tests, length, keep_if, length-append,
  keep_if-append, All, All-append, ℕ, ◌%◌, ◌≤◌, ◌<◌, ◌≡◌, refl, sym, ap, ◌∙◌, inl, inr, Bool, true,
  false, ◌||◌, List, [], ◌∷◌, ◌++◌, arith,
}
use limit_plane.Wshub.{
  Bytes, op_text, op_close, op_pong, put_uint16, encode_text_frame, encode_control_frame,
  encode_close_frame,
}
use limit_plane.Wshub.Connection.{
  control_buffer, close_try_again_later, too_slow, enqueue, enqueue_control, close, graceful_close,
  offer, is_close, step, Conn, Event, broadcast, received, failed_read, control_turn, data_turn,
  shut_down, timed_out, saw_done,
}

-- The frames that the broadcasts offer, and those of them that find room.
unfoldable pub offered_by : Event → List Bytes
offered_by (broadcast payload) = encode_text_frame payload ∷ []
offered_by (received f) = []
offered_by (failed_read e) = []
offered_by (control_turn ok) = []
offered_by (data_turn ok) = []
offered_by shut_down = []
offered_by timed_out = []
offered_by saw_done = []

unfoldable pub offered : List Event → List Bytes
offered [] = []
offered (e ∷ es) = offered_by e ++ offered es

unfoldable pub taken_by : ℕ → Event → Conn → List Bytes
unfolding offered_by
taken_by send_buffer (broadcast payload) c =
    if ltb (length c.send) send_buffer then offered_by (broadcast payload) else []
taken_by send_buffer (received f) c = []
taken_by send_buffer (failed_read e) c = []
taken_by send_buffer (control_turn ok) c = []
taken_by send_buffer (data_turn ok) c = []
taken_by send_buffer shut_down c = []
taken_by send_buffer timed_out c = []
taken_by send_buffer saw_done c = []

unfoldable pub accepted : ℕ → List Event → Conn → List Bytes
accepted send_buffer [] c = []
accepted send_buffer (e ∷ es) c =
    taken_by send_buffer e c ++ accepted send_buffer es (step send_buffer e c)

unfoldable pub is_text : Bytes → Bool
is_text [] = false
is_text (b ∷ bs) = b % 0x10 == op_text

abbrev pub texts : List Bytes → List Bytes
texts = keep_if is_text

unfoldable pub has_close : List Bytes → Bool
has_close [] = false
has_close (x ∷ xs) = is_close x || has_close xs

pub record IsSound (send_buffer : ℕ) (taken : List Bytes) (c : Conn) : Type 0 where
  pub send_bounded : length c.send ≤ send_buffer
  pub control_bounded : length c.control ≤ control_buffer
  pub done_unlisted : c.done ≡ true → c.listed ≡ false
  pub send_texts : All (λ frame. is_text frame ≡ true) c.send
  pub control_texts : All (λ frame. is_text frame ≡ false) c.control
  pub close_last : has_close c.wire ≡ true → c.done ≡ true
  pub delivered :
      (lost : List Bytes) × (texts c.wire ++ lost ≡ taken) × (c.done ≡ false → lost ≡ c.send)

pub has_close-append :
    (xs : List Bytes) (x : Bytes) → has_close (xs ++ x ∷ []) ≡ (has_close xs || is_close x)
unfolding has_close
has_close-append [] x = ground arith
has_close-append (y ∷ ys) x = ground (arith, has_close-append ys x)

is_text-encode_text_frame : (payload : Bytes) → is_text (encode_text_frame payload) ≡ true
unfolding is_text encode_text_frame
is_text-encode_text_frame payload = ground arith

pub is_text-encode_control_frame :
    (payload : Bytes)
    → (is_text (encode_control_frame op_close payload) ≡ false)
      × (is_text (encode_control_frame op_pong payload) ≡ false)
unfolding is_text encode_control_frame
is_text-encode_control_frame payload = ground arith

pub is_close-is_text : (frame : Bytes) → is_text frame ≡ true → is_close frame ≡ false
unfolding is_text is_close
is_close-is_text [] h = refl
is_close-is_text (b ∷ bs) h = ground arith

-- Texts on the wire and in the buffer, across a write.
pub texts-append :
    (xs ys : List Bytes) (x : Bytes)
    → is_text x ≡ true
    → texts (xs ++ x ∷ []) ++ ys ≡ texts xs ++ x ∷ ys
texts-append xs ys x h =
    rw (keep_if-append is_text xs (x ∷ []), h) (append_assoc (texts xs) (x ∷ []) ys)

pub texts-append_other :
    (xs : List Bytes) (x : Bytes) → is_text x ≡ false → texts (xs ++ x ∷ []) ≡ texts xs
texts-append_other xs x h = rw (keep_if-append is_text xs (x ∷ []), h) (append-nil (texts xs))

module _ (send_buffer : ℕ) (taken : List Bytes) (c : Conn) (s : IsSound send_buffer taken c) where
  -- A change that touches the control buffer and the registry only.
  pub adjusted :
      (control' : List Bytes) (listed' closing' : Bool)
      → length control' ≤ control_buffer
      → All (λ frame. is_text frame ≡ false) control'
      → (c.done ≡ true → listed' ≡ false)
      → IsSound send_buffer taken
          (record c { control = control'; listed = listed'; closing = closing' })
  adjusted control' listed' closing' short frames unlisted = record {
    send_bounded = s.send_bounded;
    control_bounded = short;
    done_unlisted = unlisted;
    send_texts = s.send_texts;
    control_texts = frames;
    close_last = s.close_last;
    delivered = s.delivered;
  }

  pub enqueue_control-IsSound :
      (frame : Bytes) → is_text frame ≡ false → IsSound send_buffer taken (enqueue_control frame c)
  unfolding enqueue_control
  enqueue_control-IsSound frame h = elim (Bool-cases (ltb (length c.control) control_buffer)) [
    | inl e ↦ rw e (
        adjusted (c.control ++ frame ∷ []) c.listed c.closing
          (omega (tests, e, length-append c.control (frame ∷ [])))
          (All-append _ c.control (frame ∷ []) s.control_texts (h, tt)) s.done_unlisted)
    | inr e ↦ rw e s
  ]

  -- A socket that is torn down, whatever its buffers have lost.
  pub torn :
      (send' control' : List Bytes)
      → length send' ≤ send_buffer
      → length control' ≤ control_buffer
      → All (λ frame. is_text frame ≡ true) send'
      → All (λ frame. is_text frame ≡ false) control'
      → IsSound send_buffer taken (close (record c { send = send'; control = control' }))
  unfolding close
  torn send' control' short short' are are_not = record {
    send_bounded = short;
    control_bounded = short';
    done_unlisted = λ _. refl;
    send_texts = are;
    control_texts = are_not;
    close_last = λ _. refl;
    delivered = let (lost, same, _) = s.delivered in (lost, same, λ h. absurd cc);
  }

  pub close-IsSound : IsSound send_buffer taken (close c)
  unfolding close
  close-IsSound =
      torn c.send c.control s.send_bounded s.control_bounded s.send_texts s.control_texts

  -- The buffer takes one frame more.
  sent-IsSound :
      (frame : Bytes)
      → is_text frame ≡ true
      → length c.send < send_buffer
      → IsSound send_buffer (taken ++ frame ∷ []) (record c { send = c.send ++ frame ∷ [] })
  sent-IsSound frame h room =
      let (lost, same, left) = s.delivered in
      record {
        send_bounded = omega (arith, length-append c.send (frame ∷ []));
        control_bounded = s.control_bounded;
        done_unlisted = s.done_unlisted;
        send_texts = All-append _ c.send (frame ∷ []) s.send_texts (h, tt);
        control_texts = s.control_texts;
        close_last = s.close_last;
        delivered = (
          lost ++ frame ∷ [],
          sym (append_assoc (texts c.wire) lost (frame ∷ [])) ∙ ap (λ xs. xs ++ frame ∷ []) same,
          λ h. ap (λ xs. xs ++ frame ∷ []) (left h),
        );
      }

pub graceful_close-IsSound :
    (send_buffer : ℕ) (taken : List Bytes) (c : Conn) (code : ℕ) (reason : Bytes)
    → IsSound send_buffer taken c
    → IsSound send_buffer taken (graceful_close code reason c)
unfolding graceful_close encode_close_frame
graceful_close-IsSound n taken c code reason s =
    if_cases (IsSound n taken) c.done _ _ (λ _. close-IsSound n taken c s)
      (λ _.
        enqueue_control-IsSound n taken (record c { listed = false; closing = true })
          (adjusted n taken c s c.control false true s.control_bounded s.control_texts (λ _. refl))
          (encode_close_frame code reason)
          (is_text-encode_control_frame (put_uint16 code ++ reason)).0)

pub offer-IsSound :
    (send_buffer : ℕ) (taken : List Bytes) (c : Conn) (payload : Bytes)
    → IsSound send_buffer taken c
    → IsSound send_buffer
        (taken ++ taken_by send_buffer (broadcast payload) c)
        (offer send_buffer (encode_text_frame payload) c)
unfolding offer enqueue taken_by offered_by
offer-IsSound n taken c payload s = elim (Bool-cases (ltb (length c.send) n)) [
  | inl e ↦ rw e (
      sent-IsSound n taken c s (encode_text_frame payload) (is_text-encode_text_frame payload)
        (ltb→lt _ _ e))
  | inr e ↦
      rw (e, append-nil taken) (graceful_close-IsSound n taken c close_try_again_later too_slow s)
]
