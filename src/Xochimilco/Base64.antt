-- ===== src/Xochimilco/Base64.antt =====
-- encoding/base64 with RawURLEncoding, as xochimilco/message.go calls it: characters are bytes, the
-- last group is not padded, and the decoder skips line breaks.
pub mod RoundTrip
use go_ratchet.Prelude.{
  ℕ, ◌+◌, ◌-◌, ◌*◌, ◌/◌, ◌%◌, ◌==◌, ltb, leb, if◌then◌else◌, ◌&&◌, ◌||◌, Option, none, some, [],
  ◌∷◌, ◌++◌, Error, Result, ok, err, Bytes,
}
use go_ratchet.Prelude.Errors.{◌>>=◌}

-- The alphabet: A-Z, a-z, 0-9, - and _.
unfoldable pub encode_digit : ℕ → ℕ
encode_digit n =
    if ltb n 26
    then n + b'A'
    else if ltb n 52
    then n - 26 + b'a'
    else if ltb n 62
    then n - 52 + b'0'
    else if n == 62
    then b'-'
    else b'_'

unfoldable pub decode_digit : ℕ → Option ℕ
decode_digit ch =
    if leb b'A' ch && leb ch b'Z'
    then some (ch - b'A')
    else if leb b'a' ch && leb ch b'z'
    then some (ch - b'a' + 26)
    else if leb b'0' ch && leb ch b'9'
    then some (ch - b'0' + 52)
    else if ch == b'-'
    then some 62
    else if ch == b'_'
    then some 63
    else none

-- Three bytes give four digits, two give three and one gives two.
unfoldable pub encode : Bytes → Bytes
unfolding encode_digit
encode [] = []
encode (a ∷ []) = encode_digit (a / 4) ∷ encode_digit (a % 4 * 16) ∷ []
encode (a ∷ b ∷ []) =
    encode_digit (a / 4) ∷ encode_digit (a % 4 * 16 + b / 16) ∷ encode_digit (b % 16 * 4) ∷ []
encode (a ∷ b ∷ d ∷ rest) =
    encode_digit (a / 4)
    ∷ encode_digit (a % 4 * 16 + b / 16)
    ∷ encode_digit (b % 16 * 4 + d / 64)
    ∷ encode_digit (d % 64)
    ∷ encode rest

-- The decoder skips carriage returns and line feeds.
unfoldable pub strip_breaks : Bytes → Bytes
strip_breaks [] = []
strip_breaks (ch ∷ rest) =
    let kept = strip_breaks rest in if ch == 10 || ch == 13 then kept else ch ∷ kept

unfoldable pub digit : ℕ → Result ℕ
digit ch = elim (decode_digit ch) [ none ↦ err Error.bad_base64 | some n ↦ ok n ]

-- The bytes of two, three and four digits. The spare bits of a short group do not matter.
unfoldable pub one_byte : ℕ → ℕ → Result Bytes
one_byte p q = do w ← digit p; x ← digit q; ok ((w * 4 + x / 16) ∷ [])

unfoldable pub two_bytes : ℕ → ℕ → ℕ → Result Bytes
two_bytes p q r = do
  w ← digit p
  x ← digit q
  y ← digit r
  ok ((w * 4 + x / 16) ∷ (x % 16 * 16 + y / 4) ∷ [])

unfoldable pub three_bytes : ℕ → ℕ → ℕ → ℕ → Result Bytes
three_bytes p q r s = do
  w ← digit p
  x ← digit q
  y ← digit r
  z ← digit s
  ok ((w * 4 + x / 16) ∷ (x % 16 * 16 + y / 4) ∷ (y % 4 * 64 + z) ∷ [])

-- One part, and the rest of the text.
abbrev pub then_rest : Result Bytes → Result Bytes → Result Bytes
then_rest m tail = do part ← m; rest ← tail; ok (part ++ rest)

-- Groups of four digits; a single digit at the end is an error.
unfoldable pub decode_groups : Bytes → Result Bytes
decode_groups [] = ok []
decode_groups (p ∷ []) = err Error.bad_base64
decode_groups (p ∷ q ∷ []) = one_byte p q
decode_groups (p ∷ q ∷ r ∷ []) = two_bytes p q r
decode_groups (p ∷ q ∷ r ∷ s ∷ rest) = then_rest (three_bytes p q r s) (decode_groups rest)

unfoldable pub decode : Bytes → Result Bytes
decode src = decode_groups (strip_breaks src)
