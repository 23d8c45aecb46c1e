-- ===== src/Wshub/Replies.antt =====
-- wshub.go: the server's frames, as a client reads them.
use mathlib.Core.List.{append_assoc}
use limit_plane.Prelude.{
  ltb, Bool-cases, ltb→lt, length, take_all, ℕ, suc, ◌%◌, ◌^◌, ◌≤◌, ◌<◌, ◌≡◌, refl, ap, inl, inr,
  true, [], ◌∷◌, ◌++◌, arith,
}
use limit_plane.Wshub.{
  Bytes, op_text, op_ping, op_pong, put_uint16, put_uint64, encode_text_frame, encode_control_frame,
  has_bits, is_control, parsed, Reader, ◌>>=◌, give, read_full, read_byte, read_length, after,
  read_frame, Frame,
}
use limit_plane.Wshub.Connection.{enqueue_control, on_frame, after_read, read_loop, Conn}
use limit_plane.Wshub.RoundTrip.{read_full-append, big_endian-put_uint16, big_endian-put_uint64}
use limit_plane.Wshub.Reading.{read_frame-IsAllowed}

-- A client's reader of the server's frames, by the format of the RFC: no mask, the length as in a
-- client's frame, then the payload.
unfoldable pub read_server : Reader Frame
read_server = do
  b0 ← read_byte
  b1 ← read_byte
  n ← read_length b1
  payload ← read_full n
  give (record { fin = has_bits b0 0x80 2; opcode = b0 % 0x10; payload = payload })

read_length_short : (n : ℕ) (tail : Bytes) → ltb n 126 ≡ true → read_length n tail ≡ parsed n tail
unfolding read_length
read_length_short n tail e = ground (arith, e)

read_length_126 :
    (n : ℕ) (tail : Bytes) → n < 2 ^ 16 → read_length 126 (put_uint16 n ++ tail) ≡ parsed n tail
unfolding read_length read_full put_uint16 ◌>>=◌
read_length_126 n tail h = ap (λ (v : ℕ). parsed v tail) (big_endian-put_uint16 n h)

read_length_127 :
    (n : ℕ) (tail : Bytes) → n < 2 ^ 63 → read_length 127 (put_uint64 n ++ tail) ≡ parsed n tail
unfolding read_length read_full put_uint64 ◌>>=◌
read_length_127 n tail h = rw (big_endian-put_uint64 n h) (ground (arith, h))

-- With the length read, the rest is the payload.
read_server_lem :
    (b0 b1 n : ℕ) (payload ext rest : Bytes)
    → length payload ≡ n
    → read_length b1 (ext ++ (payload ++ rest)) ≡ parsed n (payload ++ rest)
    → read_server (b0 ∷ b1 ∷ ((ext ++ payload) ++ rest))
      ≡ parsed (record { fin = has_bits b0 0x80 2; opcode = b0 % 0x10; payload = payload }) rest
unfolding read_server read_byte
read_server_lem b0 b1 n payload ext rest len got = rw (append_assoc ext payload rest) (
    after _ _ refl
      (after _ _ refl (after _ _ got (after _ _ (rw len at (read_full-append payload rest)) refl))))

-- Whatever `encodeTextFrame` makes of a payload below 2^63 bytes, a client reads as one whole text message
-- with that payload, and the next frame starts right behind it.
read_server-encode_text_frame :
    (payload rest : Bytes)
    → length payload < 2 ^ 63
    → read_server (encode_text_frame payload ++ rest)
      ≡ parsed (record { fin = true; opcode = op_text; payload = payload }) rest
unfolding read_server encode_text_frame
read_server-encode_text_frame payload rest h =
    let n = length payload in
    elim (Bool-cases (ltb n 126)) [
      | inl e ↦
          rw e
            (read_server_lem 129 n n payload [] rest refl (read_length_short n (payload ++ rest) e))
      | inr e ↦ elim (Bool-cases (ltb n (2 ^ 16))) [
        | inl e' ↦
            rw (e, e')
              (read_server_lem 129 126 n payload (put_uint16 n) rest refl
                (read_length_126 n (payload ++ rest) (ltb→lt n (2 ^ 16) e')))
        | inr e' ↦
            rw (e, e')
              (read_server_lem 129 127 n payload (put_uint64 n) rest refl
                (read_length_127 n (payload ++ rest) h))
      ]
    ]

-- A Pong with a payload that a Ping may have.
read_server-pong :
    (payload rest : Bytes)
    → length payload ≤ 125
    → read_server (encode_control_frame op_pong payload ++ rest)
      ≡ parsed (record { fin = true; opcode = op_pong; payload = payload }) rest
unfolding encode_control_frame
read_server-pong payload rest h =
    let n = length payload in
    rw (take_all payload 125 h) (
      read_server_lem 138 n n payload [] rest refl
        (read_length_short n (payload ++ rest) (ground (arith, h))))

roomy : (n : ℕ) → n < 4 → ltb n 4 ≡ true
roomy n h = ground arith

-- A Ping on the reader's stream is answered in its turn of the loop, if there is room among the control
-- frames: one frame is put behind those, nothing else of the connection changes, and the loop goes on behind
-- the Ping. A client reads that frame as a whole Pong with the Ping's payload, and the next frame starts
-- right behind it.
pub pong_echoes_ping :
    (fuel : ℕ) (bs rest later : Bytes) (f : Frame) (c : Conn)
    → read_frame bs ≡ parsed f rest
    → f.opcode ≡ op_ping
    → length c.control < 4
    → (pong : Bytes) × (read_loop (suc fuel) bs c
        ≡ read_loop fuel rest (record c { control = c.control ++ pong ∷ [] }))
      × (read_server (pong ++ later)
          ≡ parsed (record { fin = true; opcode = op_pong; payload = f.payload }) later)
unfolding is_control read_loop after_read on_frame enqueue_control
pong_echoes_ping fuel bs rest later f c got ping room =
    let (allowed, _) = read_frame-IsAllowed bs f rest got in
    let (short, _) = allowed.short (ground (arith, ping)) in
    (
      encode_control_frame op_pong f.payload,
      rw got (rw ping (rw (roomy (length c.control) room) refl)),
      read_server-pong f.payload later short,
    )
