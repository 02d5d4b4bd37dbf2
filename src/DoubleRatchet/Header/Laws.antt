-- ===== src/DoubleRatchet/Header/Laws.antt =====
-- Marshalling and parsing of headers are inverse to each other.
use go_ratchet.Prelude.{
  ℕ, zero, suc, ◌+◌, ◌*◌, ◌^◌, ◌≤◌, ◌<◌, ◌≡◌, arith, Error, ok, err, Bytes, IsBytes, length, take,
  drop, [], ◌∷◌, ◌++◌, fit, length-append, length-fit, take-append, fit_self, get_or-append_right,
  ap, ◌⊎◌, length-take, length-drop, take-append-drop, sym, ◌∙◌,
}
use go_ratchet.DoubleRatchet.Header.{Header, header_len, be16, read16, marshal, parse_header}

-- The number of a header can be sent.
pub record IsSendable (h : Header) : Type 0 where
  pub length_key : length h.dh_pub ≡ 32
  pub prev_no-lt : h.prev_no < 2 ^ 16
  pub msg_no-lt : h.msg_no < 2 ^ 16

-- The 36 bytes of a header.
abbrev pub encoded : Header → Bytes
encoded h = fit 32 h.dh_pub ++ (be16 h.prev_no ++ be16 h.msg_no)

-- Marshalling fails if one of the two numbers does not fit into 16 bits, and otherwise gives the
-- key, fitted to 32 bytes, and the numbers in two bytes each.
pub marshal_range :
    (h : Header)
    → (((2 ^ 16 ≤ h.prev_no) ⊎ (2 ^ 16 ≤ h.msg_no)) × (marshal h ≡ err Error.header_range))
      ⊎ ((h.prev_no < 2 ^ 16) × (h.msg_no < 2 ^ 16) × (marshal h ≡ ok (encoded h)))
unfolding marshal
marshal_range h = ground arith

pub length-encoded : (h : Header) → length (encoded h) ≡ header_len
length-encoded h = omega (
  arith,
  length-append (fit 32 h.dh_pub) (be16 h.prev_no ++ be16 h.msg_no),
  length-fit 32 h.dh_pub,
)

-- Reading behind the key.
read16-key :
    (key rest : Bytes) (i : ℕ) → length key ≡ 32 → read16 (key ++ rest) (32 + i) ≡ read16 rest i
read16-key key rest i h =
    let e : 32 + i + 1 ≡ 32 + (i + 1) = omega arith in
    rw (e, get_or-append_right key rest i 32 0 h, get_or-append_right key rest (i + 1) 32 0 h)

-- A header whose key has 32 bytes and whose numbers are below 2 ^ 16 is parsed from its 36 bytes.
pub parse_header-encoded : (h : Header) → IsSendable h → parse_header (encoded h) ≡ ok h
unfolding parse_header
parse_header-encoded h s =
    let nums : Bytes = be16 h.prev_no ++ be16 h.msg_no in
    let key : Bytes = fit 32 h.dh_pub in
    ground (
      arith,
      s.length_key,
      s.prev_no-lt,
      s.msg_no-lt,
      length-encoded h,
      take-append 32 key nums (length-fit 32 h.dh_pub),
      fit_self 32 h.dh_pub s.length_key,
      read16-key key nums 0 (length-fit 32 h.dh_pub),
      read16-key key nums 2 (length-fit 32 h.dh_pub),
    )

-- Two bytes are the big-endian form of the number that is read from them.
be16-bytes : (a b : ℕ) → a < 256 → b < 256 → be16 (a * 256 + b) ≡ a ∷ b ∷ []
be16-bytes a b h k = ground arith

IsBytes-drop : (n : ℕ) (src : Bytes) → IsBytes src → IsBytes (drop n src)
IsBytes-drop zero src h = h
IsBytes-drop (suc n) [] h = tt
IsBytes-drop (suc n) (x ∷ xs) h = IsBytes-drop n xs h.1

-- The header that stands in a key and four more bytes.
abbrev decoded : Bytes → Bytes → Header
decoded key nums = record { dh_pub = key; prev_no = read16 nums 0; msg_no = read16 nums 2 }

parse_header-split :
    (key nums : Bytes)
    → length key ≡ 32
    → length nums ≡ 4
    → parse_header (key ++ nums) ≡ ok (decoded key nums)
unfolding parse_header
parse_header-split key nums h k = ground (
  arith,
  length-append key nums,
  take-append 32 key nums h,
  read16-key key nums 0 h,
  read16-key key nums 2 h,
)

marshal-decoded :
    (key nums : Bytes)
    → length key ≡ 32
    → length nums ≡ 4
    → IsBytes nums
    → marshal (decoded key nums) ≡ ok (key ++ nums)
unfolding marshal
marshal-decoded key (a ∷ b ∷ c ∷ d ∷ []) h k r =
    ground (arith, fit_self 32 key h, be16-bytes a b r.0 r.1.0, be16-bytes c d r.1.1.0 r.1.1.1.0)
marshal-decoded key [] h k r = absurd (omega arith)
marshal-decoded key (_ ∷ []) h k r = absurd (omega arith)
marshal-decoded key (_ ∷ _ ∷ []) h k r = absurd (omega arith)
marshal-decoded key (_ ∷ _ ∷ _ ∷ []) h k r = absurd (omega arith)
marshal-decoded key (_ ∷ _ ∷ _ ∷ _ ∷ _ ∷ _) h k r = absurd (omega arith)

-- Any 36 bytes parse to a header, and marshalling that header gives the same bytes back.
pub marshal-parse_header :
    (src : Bytes)
    → IsBytes src
    → length src ≡ header_len
    → (h : Header) × (parse_header src ≡ ok h) × (marshal h ≡ ok src)
marshal-parse_header src b e =
    let key : Bytes = take 32 src in
    let nums : Bytes = drop 32 src in
    let k : length key ≡ 32 = omega (arith, length-take 32 src) in
    let n : length nums ≡ 4 = omega (arith, length-drop 32 src) in
    let p = parse_header-split key nums k n in
    let m = marshal-decoded key nums k n (IsBytes-drop 32 src b) in
    let s : key ++ nums ≡ src = take-append-drop 32 src in
    (decoded key nums, ap parse_header (sym s) ∙ p, m ∙ ap ok s)
