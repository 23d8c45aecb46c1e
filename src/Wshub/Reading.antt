-- ===== src/Wshub/Reading.antt =====
-- wshub.go: what `readFrame` accepts, and what it takes from the stream.
use limit_plane.Prelude.{
  length, ℕ, zero, suc, ◌+◌, ◌%◌, ◌≤◌, ◌≡◌, refl, ap, ◌∙◌, Bool, true, false, [], ◌∷◌, arith,
}
use limit_plane.Wshub.{
  Bytes, parsed, refused, Reader, hand_on, ◌>>=◌, guard, more, read_full, read_byte, read_uint16,
  read_uint64, read_length, check_frame, mask_from, read_payload, read_body, read_frame, ReadError,
  Parsed, Frame, IsAllowed, reserved_bits, unmasked, control_too_long, fragmented_control,
  too_large, unknown_opcode,
}
use limit_plane.Wshub.RoundTrip.{length-mask_from}

module _ {B : Type 0} {C : Type 0} where
  hand_on-parsed :
      {A : Type 0} (p : Parsed A) (k : A → Reader B) (r : B) (rest : Bytes)
      → hand_on p k ≡ parsed r rest
      → ((a : A) (behind : Bytes) → p ≡ parsed a behind → k a behind ≡ parsed r rest → C)
      → C
  hand_on-parsed (parsed a behind) k r rest h go = go a behind refl h
  hand_on-parsed (refused e) k r rest h go = absurd cc

  -- A reader that succeeded did so in both of its parts.
  bind-parsed :
      {A : Type 0} (m : Reader A) (k : A → Reader B) (bs : Bytes) (r : B) (rest : Bytes)
      → (m >>= k) bs ≡ parsed r rest
      → ((a : A) (behind : Bytes) → m bs ≡ parsed a behind → k a behind ≡ parsed r rest → C)
      → C
  unfolding ◌>>=◌
  bind-parsed m k bs r rest h = hand_on-parsed (m bs) k r rest h

  -- A reader that succeeded behind a guard succeeded on the same bytes.
  guard-parsed :
      (c : Bool) (e : ReadError) (k : Unit {0} → Reader B) (bs : Bytes) (r : B) (rest : Bytes)
      → (guard c e >>= k) bs ≡ parsed r rest
      → (c ≡ true → k tt bs ≡ parsed r rest → C)
      → C
  unfolding ◌>>=◌
  guard-parsed true e k bs r rest h go = go refl h
  guard-parsed false e k bs r rest h go = absurd cc

last_guard-parsed :
    (c : Bool) (e : ReadError) (bs rest : Bytes) (u : Unit {0})
    → guard c e bs ≡ parsed u rest
    → (c ≡ true) × (rest ≡ bs)
last_guard-parsed true e bs rest u h = (refl, cc)
last_guard-parsed false e bs rest u h = absurd cc

more-parsed :
    (b : ℕ) (p : Parsed Bytes) (xs rest : Bytes)
    → more b p ≡ parsed xs rest
    → (ys : Bytes) × (xs ≡ b ∷ ys) × (p ≡ parsed ys rest)
more-parsed b (parsed ys r) xs rest h = (ys, cc, cc)
more-parsed b (refused e) xs rest h = cc

read_full-parsed :
    (n : ℕ) (bs xs rest : Bytes)
    → read_full n bs ≡ parsed xs rest
    → (length xs ≡ n) × (length bs ≡ n + length rest)
unfolding read_full
read_full-parsed zero bs xs rest h =
    let same : bs ≡ rest = cc in (cc, omega (arith, ap length same))
read_full-parsed (suc n) [] xs rest h = cc
read_full-parsed (suc n) (b ∷ bs) xs rest h =
    let (ys, e, h') = more-parsed b (read_full n bs) xs rest h in
    let (len, all) = read_full-parsed n bs ys rest h' in
    (rw e (omega (arith, len)), omega (arith, all))

read_uint16-parsed :
    (n : ℕ) (bs rest : Bytes) → read_uint16 bs ≡ parsed n rest → length rest ≤ length bs
unfolding read_uint16
read_uint16-parsed n bs rest h = bind-parsed (read_full 2) _ bs n rest h (λ ext behind e h'.
    let same : rest ≡ behind = cc in
    let (_, all) = read_full-parsed 2 bs ext behind e in rw same (omega (arith, all)))

read_uint64-parsed :
    (n : ℕ) (bs rest : Bytes) → read_uint64 bs ≡ parsed n rest → length rest ≤ length bs
unfolding read_uint64
read_uint64-parsed n bs rest h = bind-parsed (read_full 8) _ bs n rest h (λ ext behind e h₁.
    guard-parsed _ too_large _ behind n rest h₁ (λ _ h₂.
      let same : rest ≡ behind = cc in
      let (_, all) = read_full-parsed 8 bs ext behind e in rw same (omega (arith, all))))

read_length-parsed :
    (b n : ℕ) (bs rest : Bytes) → read_length b bs ≡ parsed n rest → length rest ≤ length bs
unfolding read_length
read_length-parsed b n bs rest h =
    ground (arith, read_uint16-parsed n bs rest, read_uint64-parsed n bs rest)

check_frame-parsed :
    (f : Frame) (u : Unit {0}) (bs rest : Bytes)
    → check_frame f.fin f.opcode (length f.payload) bs ≡ parsed u rest
    → IsAllowed f × (rest ≡ bs)
unfolding check_frame
check_frame-parsed f u bs rest h = guard-parsed _ unknown_opcode _ bs u rest h (λ known h₁.
    guard-parsed _ control_too_long _ bs u rest h₁ (λ short h₂.
      guard-parsed _ fragmented_control _ bs u rest h₂ (λ whole h₃.
        let (small, same) = last_guard-parsed _ too_large bs rest u h₃ in
        (
          record {
            known = known;
            short = λ c. ground (arith, c, short, whole);
            bounded = ground (arith, small);
          },
          same,
        ))))

read_byte-parsed :
    (bs rest : Bytes) (b : ℕ) → read_byte bs ≡ parsed b rest → length bs ≡ 1 + length rest
unfolding read_byte
read_byte-parsed [] rest b h = cc
read_byte-parsed (x ∷ bs) rest b h = let same : bs ≡ rest = cc in omega (arith, ap length same)

-- The payload is behind the key, and as long as was declared.
read_payload-parsed :
    (fin : Bool) (op n : ℕ) (bs : Bytes) (u : Unit {0}) (bs₁ : Bytes) (f : Frame) (rest : Bytes)
    → check_frame fin op n bs ≡ parsed u bs₁
    → read_payload fin op n bs₁ ≡ parsed f rest
    → IsAllowed f × (4 + length f.payload + length rest ≤ length bs)
unfolding read_payload
read_payload-parsed fin op n bs u bs₁ f rest checked h =
    bind-parsed (read_full 4) _ bs₁ f rest h (λ key bs₂ e₂ h₂.
      bind-parsed (read_full n) _ bs₂ f rest h₂ (λ xs bs₃ e₃ h₃.
        let made : Frame = record { fin = fin; opcode = op; payload = mask_from 0 key xs } in
        let same : made ≡ f = cc in
        let same_rest : bs₃ ≡ rest = cc in
        let (_, all_key) = read_full-parsed 4 bs₁ key bs₂ e₂ in
        let (len_xs, all_xs) = read_full-parsed n bs₂ xs bs₃ e₃ in
        let len = length-mask_from 0 key xs ∙ len_xs in
        let (allowed, same₁) = check_frame-parsed made u bs bs₁ (rw len checked) in
        (
          rw same at allowed,
          omega (
            arith,
            len,
            ap (λ g. length g.payload) same,
            ap length same_rest,
            all_key,
            all_xs,
            ap length same₁,
          ),
        )))

-- Behind the header: what was declared was allowed, and the key and the payload were taken.
read_body-parsed :
    (b0 b1 : ℕ) (bs : Bytes) (f : Frame) (rest : Bytes)
    → read_body b0 b1 bs ≡ parsed f rest
    → IsAllowed f × (4 + length f.payload + length rest ≤ length bs)
unfolding read_body
read_body-parsed b0 b1 bs f rest h = guard-parsed _ reserved_bits _ bs f rest h (λ _ h₀.
    guard-parsed _ unmasked _ bs f rest h₀ (λ _ h₁.
      bind-parsed (read_length (b1 % 0x80)) _ bs f rest h₁ (λ n bs₂ e₂ h₂.
        bind-parsed (check_frame _ _ n) _ bs₂ f rest h₂ (λ u bs₃ e₃ h₃.
          let (allowed, taken) = read_payload-parsed _ _ n bs₂ u bs₃ f rest e₃ h₃ in
          (allowed, omega (arith, taken, read_length-parsed _ n bs bs₂ e₂))))))

-- Whatever stream a client sends: a frame that `readFrame` returns has an opcode that the RFC defines, a
-- payload of at most 2^20 bytes, and if it is a control frame, at most 125 bytes and the final bit; and
-- the reader moved past the two bytes of the header, the four of the key and the payload.
pub read_frame-IsAllowed :
    (bs : Bytes) (f : Frame) (rest : Bytes)
    → read_frame bs ≡ parsed f rest
    → IsAllowed f × (6 + length f.payload + length rest ≤ length bs)
unfolding read_frame
read_frame-IsAllowed bs f rest h = bind-parsed read_byte _ bs f rest h (λ b0 bs₁ e₁ h₁.
    bind-parsed read_byte _ bs₁ f rest h₁ (λ b1 bs₂ e₂ h₂.
      let (allowed, taken) = read_body-parsed b0 b1 bs₂ f rest h₂ in
      (
        allowed,
        omega (arith, taken, read_byte-parsed bs bs₁ b0 e₁, read_byte-parsed bs₁ bs₂ b1 e₂),
      )))
