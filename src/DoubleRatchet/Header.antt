-- ===== src/DoubleRatchet/Header.antt =====
-- doubleratchet/msg_header.go: the header in front of each ciphertext.
pub mod Laws
use go_ratchet.Prelude.{
  ℕ, ◌+◌, ◌*◌, ◌/◌, ◌%◌, ◌^◌, ltb, leb, if◌then◌else◌, ◌||◌, [], ◌∷◌, ◌++◌, Error, Result, ok, err,
  Bytes, length, get_or, take, fit,
}

pub record Header : Type 0 where
  pub dh_pub : Bytes
  pub prev_no : ℕ
  pub msg_no : ℕ

abbrev pub header_len : ℕ
header_len = 32 + 2 + 2

-- `[]byte{byte(n >> 8), byte(n)}`
abbrev pub be16 : ℕ → Bytes
be16 n = n / 256 % 256 ∷ n % 256 ∷ []

unfoldable pub marshal : Header → Result Bytes
marshal h =
    if leb (2 ^ 16) h.prev_no || leb (2 ^ 16) h.msg_no
    then err Error.header_range
    else ok (fit 32 h.dh_pub ++ (be16 h.prev_no ++ be16 h.msg_no))

-- `int(hi)<<8 | int(lo)`: the low byte fits into the zeros that the shift leaves.
abbrev pub read16 : Bytes → ℕ → ℕ
read16 src i = get_or src i 0 * 256 + get_or src (i + 1) 0

unfoldable pub parse_header : Bytes → Result Header
parse_header src =
    if ltb (length src) header_len
    then err Error.header_short
    else ok (record { dh_pub = take 32 src; prev_no = read16 src 32; msg_no = read16 src 34 })
