-- ===== src/Wshub/ReadLoop.antt =====
-- wshub.go: the reader on a stream that ends, and the answer to a ping.
use limit_plane.Prelude.{
  ◌==◌, Bool-cases, length, ℕ, zero, suc, ◌<◌, ◌≡◌, refl, inl, inr, true, false, ◌||◌, Option, some,
  arith,
}
use limit_plane.Wshub.{
  Bytes, op_close, parsed, refused, read_frame, ReadError, Parsed, Frame, hung_up, reserved_bits,
  unmasked, control_too_long, fragmented_control, too_large, unknown_opcode, broken,
}
use limit_plane.Wshub.Connection.{
  enqueue_control, close, graceful_close, on_error, on_frame, after_read, read_loop, Conn,
}
use limit_plane.Wshub.Reading.{read_frame-IsAllowed}

-- Out of the hub's registry, and torn down or about to be.
abbrev pub IsEnding : Conn → Type 0
IsEnding c = (c.listed ≡ false) × ((c.done || c.closing) ≡ true)

graceful_close-IsEnding :
    (code : ℕ) (reason : Bytes) (c : Conn) → IsEnding (graceful_close code reason c)
unfolding graceful_close close enqueue_control
graceful_close-IsEnding code reason c = ground arith

on_error-IsEnding : (e : ReadError) (c : Conn) → IsEnding (on_error e c)
unfolding on_error close
on_error-IsEnding hung_up c = (refl, refl)
on_error-IsEnding too_large c = graceful_close-IsEnding _ _ c
on_error-IsEnding reserved_bits c = graceful_close-IsEnding _ _ c
on_error-IsEnding unmasked c = graceful_close-IsEnding _ _ c
on_error-IsEnding control_too_long c = graceful_close-IsEnding _ _ c
on_error-IsEnding fragmented_control c = graceful_close-IsEnding _ _ c
on_error-IsEnding unknown_opcode c = graceful_close-IsEnding _ _ c
on_error-IsEnding broken c = graceful_close-IsEnding _ _ c

on_close-IsEnding : (f : Frame) (c : Conn) → (f.opcode == op_close) ≡ true → IsEnding (on_frame f c)
unfolding on_frame
on_close-IsEnding f c h = rw h (graceful_close-IsEnding _ _ c)

-- One turn of the loop, if the rest of the loop ends.
after_read-IsEnding :
    (next : Bytes → Conn → Option Conn) (c : Conn) (p : Parsed Frame)
    → ((f : Frame) (rest : Bytes)
        → p ≡ parsed f rest
        → (c' : Conn) × (next rest (on_frame f c) ≡ some c') × IsEnding c')
    → (c' : Conn) × (after_read next c p ≡ some c') × IsEnding c'
unfolding after_read
after_read-IsEnding next c (refused e) h = (on_error e c, refl, on_error-IsEnding e c)
after_read-IsEnding next c (parsed f rest) h = elim (Bool-cases (f.opcode == op_close)) [
  | inl said ↦ rw said (on_frame f c, refl, on_close-IsEnding f c said)
  | inr other ↦ rw other (h f rest refl)
]

-- On a stream that ends, whatever its bytes, fuel above their number is enough: the reader stops, and the
-- connection is then out of the registry, and torn down or with its timer set.
pub read_loop-IsEnding :
    (fuel : ℕ) (bs : Bytes) (c : Conn)
    → length bs < fuel
    → (c' : Conn) × (read_loop fuel bs c ≡ some c') × IsEnding c'
unfolding read_loop
read_loop-IsEnding zero bs c h = absurd (omega (arith, h))
read_loop-IsEnding (suc fuel) bs c h =
    after_read-IsEnding (read_loop fuel) c (read_frame bs) (λ f rest got.
      let (_, shorter) = read_frame-IsAllowed bs f rest got in
      read_loop-IsEnding fuel rest (on_frame f c) (omega (arith, h, shorter)))
