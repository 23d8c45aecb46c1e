-- ===== src/Wshub.antt =====
-- internal/wshub/wshub.go: the frames of RFC 6455 that the hub writes and reads. A byte is a number
-- below 256, and a mask of adjacent bits is a quotient and a remainder. The stream that a reader reads is
-- the list of the bytes still to come, and a peer that hangs up is its end. A read that fails otherwise
-- is a `broken` one, which no list of bytes has.
pub mod RoundTrip
pub mod Reading
pub mod Connection
pub mod Promises
pub mod Writes
pub mod Delivery
pub mod Ending
pub mod Hubs
pub mod Missed
pub mod Dashboards
pub mod ReadLoop
pub mod Replies
pub mod Examples
use Prim.Native.Nat.{bit_or, bit_xor}
use limit_plane.Prelude.{
  ltb, leb, ◌==◌, if◌then◌else◌, length, get_elem?, take, ℕ, zero, suc, ◌+◌, ◌*◌, ◌/◌, ◌%◌, ◌^◌,
  ◌≤◌, ◌≡◌, ap, ◌∙◌, Bool, true, false, not, ◌||◌, none, some, List, [], ◌∷◌, ◌++◌,
}

abbrev pub Bytes : Type 0
Bytes = List ℕ

abbrev pub fin_bit : ℕ
fin_bit = 0x80

abbrev pub op_continuation : ℕ
op_continuation = 0x0

abbrev pub op_text : ℕ
op_text = 0x1

abbrev pub op_binary : ℕ
op_binary = 0x2

abbrev pub op_close : ℕ
op_close = 0x8

abbrev pub op_ping : ℕ
op_ping = 0x9

abbrev pub op_pong : ℕ
op_pong = 0xa

abbrev pub max_inbound_payload : ℕ
max_inbound_payload = 1_048_576

-- `binary.BigEndian.PutUint16` and `PutUint64`.
unfoldable pub put_uint16 : ℕ → Bytes
put_uint16 n = n / 2 ^ 8 % 256 ∷ n % 256 ∷ []

unfoldable pub put_uint64 : ℕ → Bytes
put_uint64 n =
    n / 2 ^ 56 % 256
    ∷ n / 2 ^ 48 % 256
    ∷ n / 2 ^ 40 % 256
    ∷ n / 2 ^ 32 % 256
    ∷ n / 2 ^ 24 % 256
    ∷ n / 2 ^ 16 % 256
    ∷ n / 2 ^ 8 % 256
    ∷ n % 256
    ∷ []

unfoldable pub encode_text_frame : Bytes → Bytes
encode_text_frame payload =
    let n = length payload in
    if ltb n 126
    then bit_or fin_bit op_text ∷ n ∷ payload
    else if ltb n (2 ^ 16)
    then bit_or fin_bit op_text ∷ 126 ∷ (put_uint16 n ++ payload)
    else bit_or fin_bit op_text ∷ 127 ∷ (put_uint64 n ++ payload)

-- A payload past 125 bytes is cut off.
unfoldable pub encode_control_frame : ℕ → Bytes → Bytes
encode_control_frame opcode payload =
    let cut = take 125 payload in bit_or fin_bit opcode ∷ length cut ∷ cut

unfoldable pub encode_close_frame : ℕ → Bytes → Bytes
encode_close_frame code reason = encode_control_frame op_close (put_uint16 code ++ reason)

-- `b & m != 0` for the mask `m` of the bits from the weight `low`, as many as `2 ^ k = width` says.
abbrev pub has_bits : ℕ → ℕ → ℕ → Bool
has_bits b low width = not (b / low % width == 0)

unfoldable pub is_control : ℕ → Bool
is_control opcode = has_bits opcode 0x8 2

unfoldable pub known_opcode : ℕ → Bool
known_opcode opcode =
    opcode == op_continuation
    || opcode == op_text
    || opcode == op_binary
    || opcode == op_close
    || opcode == op_ping
    || opcode == op_pong

pub data ReadError : Type 0 where
  hung_up reserved_bits unmasked control_too_long fragmented_control : ReadError
  too_large unknown_opcode broken : ReadError

-- What was read and the bytes behind it, or the reason for closing this connection.
pub data Parsed (A : Type 0) : Type 0 where
  parsed : A → Bytes → Parsed A
  refused : ReadError → Parsed A

abbrev pub Reader : Type 0 → Type 0
Reader A = Bytes → Parsed A

abbrev pub hand_on : {A B : Type 0} → Parsed A → (A → Reader B) → Parsed B
hand_on (parsed a rest) f = f a rest
hand_on (refused e) f = refused e

infixl 5 ◌>>=◌ ◌>>◌
unfoldable pub ◌>>=◌ : {A B : Type 0} → Reader A → (A → Reader B) → Reader B
◌>>=◌ m f bs = hand_on (m bs) f

abbrev pub ◌>>◌ : {B : Type 0} → Reader (Unit {0}) → Reader B → Reader B
m >> k = m >>= λ _. k

abbrev pub guard : Bool → ReadError → Reader (Unit {0})
guard true e bs = parsed tt bs
guard false e bs = refused e

abbrev pub give : {A : Type 0} → A → Reader A
give a bs = parsed a bs

abbrev pub more : ℕ → Parsed Bytes → Parsed Bytes
more b (parsed xs rest) = parsed (b ∷ xs) rest
more b (refused e) = refused e

-- `io.ReadFull` into a buffer of `n` bytes.
unfoldable pub read_full : ℕ → Reader Bytes
read_full zero bs = parsed [] bs
read_full (suc n) [] = refused hung_up
read_full (suc n) (b ∷ bs) = more b (read_full n bs)

-- The big-endian number that the bytes are, behind `acc`.
unfoldable pub big_endian : ℕ → Bytes → ℕ
big_endian acc [] = acc
big_endian acc (b ∷ bs) = big_endian (acc * 256 + b) bs

unfoldable pub read_byte : Reader ℕ
read_byte [] = refused hung_up
read_byte (b ∷ bs) = parsed b bs

-- The 16-bit and the 64-bit length, the latter without its highest bit.
read_uint16 : Reader ℕ
read_uint16 = do ext ← read_full 2; give (big_endian 0 ext)

read_uint64 : Reader ℕ
read_uint64 = do
  ext ← read_full 8
  guard (not (has_bits (big_endian 0 ext) (2 ^ 63) 2)) too_large
  give (big_endian 0 ext)

unfoldable pub read_length : ℕ → Reader ℕ
unfolding read_uint16 read_uint64
read_length n = if n == 126 then read_uint16 else if n == 127 then read_uint64 else give n

-- What a frame may declare.
unfoldable pub check_frame : Bool → ℕ → ℕ → Reader (Unit {0})
check_frame fin opcode n = do
  guard (known_opcode opcode) unknown_opcode
  guard (not (is_control opcode) || leb n 125) control_too_long
  guard (not (is_control opcode) || fin) fragmented_control
  guard (leb n max_inbound_payload) too_large

-- The key's byte for a place; the key has four.
unfoldable pub key_at : Bytes → ℕ → ℕ
key_at key i = elim (get_elem? key (i % 4)) [ none ↦ 0 | some k ↦ k ]

-- `payload[i] ^= maskKey[i&3]`, from the place `i` on.
unfoldable pub mask_from : ℕ → Bytes → Bytes → Bytes
mask_from i key [] = []
mask_from i key (b ∷ bs) = bit_xor b (key_at key i) ∷ mask_from (suc i) key bs

pub record Frame : Type 0 where
  pub fin : Bool
  pub opcode : ℕ
  pub payload : Bytes

-- What RFC 6455 allows a client to send, within what the hub takes.
pub record IsAllowed (f : Frame) : Type 0 where
  pub known : known_opcode f.opcode ≡ true
  pub short : is_control f.opcode ≡ true → (length f.payload ≤ 125) × (f.fin ≡ true)
  pub bounded : length f.payload ≤ max_inbound_payload

-- Behind the length.
read_payload : Bool → ℕ → ℕ → Reader Frame
read_payload fin opcode n = do
  key ← read_full 4
  payload ← read_full n
  give (record { fin = fin; opcode = opcode; payload = mask_from 0 key payload })

-- Behind the header's two bytes.
read_body : ℕ → ℕ → Reader Frame
read_body b0 b1 = do
  guard (not (has_bits b0 0x10 8)) reserved_bits
  guard (has_bits b1 0x80 2) unmasked
  n ← read_length (b1 % 0x80)
  check_frame (has_bits b0 0x80 2) (b0 % 0x10) n
  read_payload (has_bits b0 0x80 2) (b0 % 0x10) n

-- What a reader read is handed on.
pub after :
    {A B : Type 0} {bs : Bytes} {a : A} {rest : Bytes} {r : Parsed B} (m : Reader A)
    (k : A → Reader B)
    → m bs ≡ parsed a rest
    → k a rest ≡ r
    → (m >>= k) bs ≡ r
unfolding ◌>>=◌
after m k e e' = ap (λ p. hand_on p k) e ∙ e'

unfoldable pub read_frame : Reader Frame
unfolding read_byte read_body read_payload
read_frame = do b0 ← read_byte; b1 ← read_byte; read_body b0 b1
