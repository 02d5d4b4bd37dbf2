-- ===== src/Xochimilco/Base64/RoundTrip.antt =====
-- Decoding inverts encoding.
use go_ratchet.Prelude.{ℕ, ◌+◌, ◌*◌, ◌/◌, ◌%◌, ◌<◌, ◌≡◌, refl, arith, [], ◌∷◌, ok, Bytes, IsBytes}
use go_ratchet.Xochimilco.Base64.{
  encode_digit, decode_digit, encode, strip_breaks, digit, one_byte, two_bytes, three_bytes,
  decode_groups, decode,
}

digit-encode_digit : (n : ℕ) → n < 64 → digit (encode_digit n) ≡ ok n
unfolding digit encode_digit decode_digit
digit-encode_digit n h = ground arith

-- The alphabet has no line breaks.
encode_digit-visible : (n : ℕ) → 13 < encode_digit n
unfolding encode_digit
encode_digit-visible n = ground arith

strip_visible :
    (n : ℕ) (rest : Bytes)
    → strip_breaks (encode_digit n ∷ rest) ≡ encode_digit n ∷ strip_breaks rest
unfolding strip_breaks
strip_visible n rest = ground (arith, encode_digit-visible n)

strip_nil : strip_breaks [] ≡ []
unfolding strip_breaks
strip_nil = refl

strip_breaks-encode : (src : Bytes) → strip_breaks (encode src) ≡ encode src
unfolding encode
strip_breaks-encode [] = strip_nil
strip_breaks-encode (a ∷ []) = simp (strip_visible, strip_nil)
strip_breaks-encode (a ∷ b ∷ []) = simp (strip_visible, strip_nil)
strip_breaks-encode (a ∷ b ∷ d ∷ rest) = simp (strip_visible, strip_breaks-encode rest)

-- The bytes that two, three or four digits stand for.
first_byte : (a b : ℕ) → a < 256 → b < 256 → a / 4 * 4 + (a % 4 * 16 + b / 16) / 16 ≡ a
first_byte a b h k = omega arith

second_byte :
    (a b d : ℕ)
    → b < 256
    → d < 256
    → (a % 4 * 16 + b / 16) % 16 * 16 + (b % 16 * 4 + d / 64) / 4 ≡ b
second_byte a b d h k = omega arith

third_byte : (b d : ℕ) → d < 256 → (b % 16 * 4 + d / 64) % 4 * 64 + d % 64 ≡ d
third_byte b d h = omega arith

one_byte-encode :
    (a : ℕ) → a < 256 → one_byte (encode_digit (a / 4)) (encode_digit (a % 4 * 16)) ≡ ok (a ∷ [])
unfolding one_byte
one_byte-encode a h =
    let e : a / 4 * 4 + a % 4 * 16 / 16 ≡ a = omega arith in
    rw (digit-encode_digit (a / 4) (omega arith), digit-encode_digit (a % 4 * 16) (omega arith), e)

two_bytes-encode :
    (a b : ℕ)
    → a < 256
    → b < 256
    → two_bytes
        (encode_digit (a / 4))
        (encode_digit (a % 4 * 16 + b / 16))
        (encode_digit (b % 16 * 4))
      ≡ ok (a ∷ b ∷ [])
unfolding two_bytes
two_bytes-encode a b h k =
    let e : (a % 4 * 16 + b / 16) % 16 * 16 + b % 16 * 4 / 4 ≡ b = omega arith in
    rw (
      digit-encode_digit (a / 4) (omega arith),
      digit-encode_digit (a % 4 * 16 + b / 16) (omega arith),
      digit-encode_digit (b % 16 * 4) (omega arith),
      first_byte a b h k,
      e,
    )

three_bytes-encode :
    (a b d : ℕ)
    → a < 256
    → b < 256
    → d < 256
    → three_bytes
        (encode_digit (a / 4))
        (encode_digit (a % 4 * 16 + b / 16))
        (encode_digit (b % 16 * 4 + d / 64))
        (encode_digit (d % 64))
      ≡ ok (a ∷ b ∷ d ∷ [])
unfolding three_bytes
three_bytes-encode a b d h k l = rw (
  digit-encode_digit (a / 4) (omega arith),
  digit-encode_digit (a % 4 * 16 + b / 16) (omega arith),
  digit-encode_digit (b % 16 * 4 + d / 64) (omega arith),
  digit-encode_digit (d % 64) (omega arith),
  first_byte a b h k,
  second_byte a b d k l,
  third_byte b d l,
)

decode_groups-encode : (src : Bytes) → IsBytes src → decode_groups (encode src) ≡ ok src
unfolding encode decode_groups
decode_groups-encode [] h = refl
decode_groups-encode (a ∷ []) h = one_byte-encode a h.0
decode_groups-encode (a ∷ b ∷ []) h = two_bytes-encode a b h.0 h.1.0
decode_groups-encode (a ∷ b ∷ d ∷ rest) h =
    rw (three_bytes-encode a b d h.0 h.1.0 h.1.1.0) (rw (decode_groups-encode rest h.1.1.1))

-- Any bytes that are encoded are decoded to the same bytes.
pub decode-encode : (src : Bytes) → IsBytes src → decode (encode src) ≡ ok src
unfolding decode
decode-encode src h = rw (strip_breaks-encode src) (decode_groups-encode src h)
