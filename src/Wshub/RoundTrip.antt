-- ===== src/Wshub/RoundTrip.antt =====
-- wshub.go: the frames against the format of RFC 6455.
use Prim.Native.Nat.{bit_xor}
use mathlib.Core.List.{append_assoc}
use limit_plane.Prelude.{
  ltb, if◌then◌else◌, Bool-cases, Option-cases, ltb→lt, tests, length, get_elem?, All, ℕ, zero, suc,
  ◌+◌, ◌%◌, ◌^◌, ◌<◌, ◌≡◌, refl, ap, inl, inr, Bool, true, false, not, some, [], ◌∷◌, ◌++◌, arith,
}
use limit_plane.Wshub.{
  Bytes, put_uint16, put_uint64, has_bits, is_control, known_opcode, parsed, ◌>>=◌, guard, more,
  read_full, big_endian, read_byte, read_length, check_frame, key_at, mask_from, read_payload,
  read_body, after, read_frame, Frame, IsAllowed, reserved_bits, unmasked,
}
use limit_plane.Prelude.Bytes.{xor_cancel}

-- The length, in the shortest form, with the mask bit or without.
unfoldable pub length_field : ℕ → ℕ → Bytes
length_field mask n =
    if ltb n 126
    then (mask + n) ∷ []
    else if ltb n (2 ^ 16)
    then (mask + 126) ∷ put_uint16 n
    else (mask + 127) ∷ put_uint64 n

unfoldable pub first_byte : Bool → ℕ → ℕ
first_byte fin opcode = (if fin then 0x80 else 0) + opcode

-- The payload under the key, which turns by one byte for each byte.
unfoldable pub masked : Bytes → Bytes → Bytes
masked key [] = []
masked [] (b ∷ bs) = b ∷ bs
masked (k ∷ ks) (b ∷ bs) = bit_xor b k ∷ masked (ks ++ k ∷ []) bs

-- A frame as a client sends it.
unfoldable pub client_frame : Frame → Bytes → Bytes
client_frame f key =
    first_byte f.fin f.opcode
    ∷ (length_field 0x80 (length f.payload) ++ (key ++ masked key f.payload))

abbrev pub IsByte : ℕ → Type 0
IsByte b = b < 256

pub read_full-append : (xs rest : Bytes) → read_full (length xs) (xs ++ rest) ≡ parsed xs rest
unfolding read_full
read_full-append [] rest = refl
read_full-append (x ∷ xs) rest = ap (more x) (read_full-append xs rest)

pub length-mask_from : (i : ℕ) (key xs : Bytes) → length (mask_from i key xs) ≡ length xs
unfolding mask_from
length-mask_from i key [] = refl
length-mask_from i key (x ∷ xs) = omega (arith, length-mask_from (suc i) key xs)

get_elem?-IsByte : (key : Bytes) (i k : ℕ) → All IsByte key → get_elem? key i ≡ some k → k < 256
get_elem?-IsByte [] i k h e = cc
get_elem?-IsByte (b ∷ bs) zero k h e = ground (arith, h.0)
get_elem?-IsByte (b ∷ bs) (suc i) k h e = get_elem?-IsByte bs i k h.1 e

key_at-lt : (key : Bytes) (i : ℕ) → All IsByte key → key_at key i < 256
unfolding key_at
key_at-lt key i h = elim (Option-cases (get_elem? key (i % 4))) [
  | inl e ↦ rw (e, key_at) (omega arith)
  | inr (k, e) ↦ rw (e, key_at) (get_elem?-IsByte key (i % 4) k h e)
]

-- Masking twice with one key changes nothing.
mask_from-mask_from :
    (i : ℕ) (key xs : Bytes)
    → All IsByte key
    → All IsByte xs
    → mask_from i key (mask_from i key xs) ≡ xs
unfolding mask_from
mask_from-mask_from i key [] hk hx = refl
mask_from-mask_from i key (x ∷ xs) hk hx = cc (
  xor_cancel x (key_at key i) hx.0 (key_at-lt key i hk),
  mask_from-mask_from (suc i) key xs hk hx.1,
)

-- The place in the key comes round again after four bytes.
key_at-round : (key : Bytes) (i : ℕ) → key_at key (suc (suc (suc (suc i)))) ≡ key_at key i
unfolding key_at
key_at-round key i =
    let same : suc (suc (suc (suc i))) % 4 ≡ i % 4 = omega arith in rw (same, key_at) refl

masked-mask_from_at :
    (key : Bytes) (i : ℕ) (xs : Bytes)
    → masked
        (key_at key i
          ∷ key_at key (suc i)
          ∷ key_at key (suc (suc i))
          ∷ key_at key (suc (suc (suc i)))
          ∷ [])
        xs
      ≡ mask_from i key xs
unfolding masked mask_from
masked-mask_from_at key i [] = refl
masked-mask_from_at key i (x ∷ xs) =
    ap (λ ys. bit_xor x (key_at key i) ∷ ys)
      (rw (key_at-round key i) at (masked-mask_from_at key (suc i) xs))

-- The turning key and the place modulo four are one mask.
masked-mask_from : (key xs : Bytes) → length key ≡ 4 → masked key xs ≡ mask_from 0 key xs
unfolding key_at
masked-mask_from [] xs h = absurd (omega (arith, h))
masked-mask_from (a ∷ []) xs h = absurd (omega (arith, h))
masked-mask_from (a ∷ b ∷ []) xs h = absurd (omega (arith, h))
masked-mask_from (a ∷ b ∷ c ∷ []) xs h = absurd (omega (arith, h))
masked-mask_from (a ∷ b ∷ c ∷ d ∷ []) xs h = masked-mask_from_at (a ∷ b ∷ c ∷ d ∷ []) 0 xs
masked-mask_from (a ∷ b ∷ c ∷ d ∷ e ∷ key) xs h = absurd (omega (arith, h))

pub big_endian-put_uint16 : (n : ℕ) → n < 2 ^ 16 → big_endian 0 (put_uint16 n) ≡ n
unfolding big_endian put_uint16
big_endian-put_uint16 n h = omega arith

pub big_endian-put_uint64 : (n : ℕ) → n < 2 ^ 63 → big_endian 0 (put_uint64 n) ≡ n
unfolding big_endian put_uint64
big_endian-put_uint64 n h = omega arith

known_opcode-lt : (op : ℕ) → known_opcode op ≡ true → op < 16
unfolding known_opcode
known_opcode-lt op h = ground arith

first_byte_lem :
    (fin : Bool) (op : ℕ)
    → op < 16
    → (has_bits (first_byte fin op) 0x10 8 ≡ false)
      × (has_bits (first_byte fin op) 0x80 2 ≡ fin)
      × (first_byte fin op % 0x10 ≡ op)
unfolding first_byte
first_byte_lem true op h = ground arith
first_byte_lem false op h = ground arith

-- The length is read back, whatever is behind it.
read_length_lem :
    (n : ℕ) (tail : Bytes)
    → n < 2 ^ 63
    → (b : ℕ) × (ext : Bytes) × (length_field 0x80 n ≡ b ∷ ext)
      × (has_bits b 0x80 2 ≡ true)
      × (read_length (b % 0x80) (ext ++ tail) ≡ parsed n tail)
unfolding length_field read_length read_full put_uint16 put_uint64 ◌>>=◌
read_length_lem n tail h = elim (Bool-cases (ltb n 126)) [
  | inl e ↦
      let m : (128 + n) % 128 ≡ n = omega (tests, e) in
      (128 + n, [], rw e refl, ground arith, rw m (ground arith))
  | inr e ↦ elim (Bool-cases (ltb n (2 ^ 16))) [
    | inl e' ↦ (
      254,
      put_uint16 n,
      rw (e, e') refl,
      refl,
      ap (λ (v : ℕ). parsed v tail) (big_endian-put_uint16 n (ltb→lt n (2 ^ 16) e')),
    )
    | inr e' ↦
        (255, put_uint64 n, rw (e, e') refl, refl, rw (big_endian-put_uint64 n h) (ground arith))
  ]
]

check_frame_lem :
    (f : Frame) (bs : Bytes)
    → IsAllowed f
    → check_frame f.fin f.opcode (length f.payload) bs ≡ parsed tt bs
unfolding check_frame ◌>>=◌
check_frame_lem f bs s = elim (Bool-cases (is_control f.opcode)) [
  | inl e ↦ ground (arith, s.known, s.short e, s.bounded)
  | inr e ↦ ground (arith, s.known, s.bounded)
]

read_body_lem :
    (f : Frame) (key rest bs : Bytes) (b0 b1 : ℕ)
    → IsAllowed f
    → All IsByte f.payload
    → length key ≡ 4
    → All IsByte key
    → has_bits b0 0x10 8 ≡ false
    → has_bits b0 0x80 2 ≡ f.fin
    → b0 % 0x10 ≡ f.opcode
    → has_bits b1 0x80 2 ≡ true
    → read_length (b1 % 0x80) bs
      ≡ parsed (length f.payload) (key ++ (mask_from 0 key f.payload ++ rest))
    → read_body b0 b1 bs ≡ parsed f rest
unfolding read_body read_payload
read_body_lem f key rest bs b0 b1 s hp hk hb clear fin op has_mask len =
    let masked = mask_from 0 key f.payload in
    let tail = key ++ (masked ++ rest) in
    let fk : read_full 4 tail ≡ parsed key (masked ++ rest) =
      rw hk at (read_full-append key (masked ++ rest)) in
    let fp : read_full (length f.payload) (masked ++ rest) ≡ parsed masked rest =
      rw (length-mask_from 0 key f.payload) at (read_full-append masked rest) in
    let check : check_frame (has_bits b0 0x80 2) (b0 % 0x10) (length f.payload) tail
        ≡ parsed tt tail =
      rw (fin, op) (check_frame_lem f tail s) in
    let g0 : guard (not (has_bits b0 0x10 8)) reserved_bits bs ≡ parsed tt bs = rw clear refl in
    let g1 : guard (has_bits b1 0x80 2) unmasked bs ≡ parsed tt bs = rw has_mask refl in
    let same : mask_from 0 key masked ≡ f.payload = mask_from-mask_from 0 key f.payload hb hp in
    after _ _ g0 (
      after _ _ g1
        (after _ _ len (after _ _ check (after _ _ fk (after _ _ fp (cc (fin, op, same)))))))

-- Whatever a client may send is read back as it was meant: the same frame, unmasked, with exactly the
-- bytes behind it left, whatever the masking key.
pub read_frame-client_frame :
    (f : Frame) (key rest : Bytes)
    → IsAllowed f
    → All IsByte f.payload
    → length key ≡ 4
    → All IsByte key
    → read_frame (client_frame f key ++ rest) ≡ parsed f rest
unfolding read_frame client_frame read_byte ◌>>=◌
read_frame-client_frame f key rest s hp hk hb =
    let n = length f.payload in
    let same = masked-mask_from key f.payload hk in
    let hidden = mask_from 0 key f.payload in
    let (b, ext, field, has_mask, len) =
      read_length_lem n (key ++ (hidden ++ rest)) (omega (arith, s.bounded)) in
    let (clear, fin, op) = first_byte_lem f.fin f.opcode (known_opcode-lt f.opcode s.known) in
    rw (field, same, append_assoc ext (key ++ hidden) rest, append_assoc key hidden rest)
      (read_body_lem f key rest (ext ++ (key ++ (hidden ++ rest))) (first_byte f.fin f.opcode) b s
        hp hk hb clear fin op has_mask len)
