-- ===== src/DoubleRatchet/Pkcs7/Laws.antt =====
-- Padding and stripping are inverse to each other.
use go_ratchet.Prelude.{
  ℕ, zero, suc, ◌+◌, ◌-◌, ◌%◌, ◌≤◌, ◌<◌, ◌≡◌, refl, arith, ok, Bytes, length, get_or, drop,
  replicate, ◌++◌, length-append, length-replicate, take-append, drop-append, bytes_eq_refl,
  bytes_eq→eq, take-append-drop, Bool-cases, inl, inr, ltb, ◌==◌, ◌||◌, length-take,
  get_or-append_right, ◌∙◌,
}
use go_ratchet.DoubleRatchet.Pkcs7.{pkcs7_pad, strip_padding, pkcs7_unpad}
use native.Mathlib.Nat.{mod-add-mod, mod-eq-sub-mod, mod-eq_of_lt, mod-lt}
use native.Mathlib.Decide.{dec_lt}
use go_ratchet.Prelude.Errors.{◌>>=◌}

-- How many bytes of padding a text takes.
abbrev pub pad_len : Bytes → ℕ → ℕ
pad_len src b = b - length src % b

mod-pad : (n b : ℕ) → 0 < b → (n + (b - n % b)) % b ≡ 0
mod-pad n b h = grind arith

get_or-replicate : (n i a : ℕ) → i < n → get_or (replicate n a) i 0 ≡ a
get_or-replicate zero i a h = absurd (omega arith)
get_or-replicate (suc n) zero a h = refl
get_or-replicate (suc n) (suc i) a h = get_or-replicate n i a (omega arith)

-- The last byte of a padded text is the length of its padding.
get_or-last :
    (src : Bytes) (n a : ℕ) → 0 < n → get_or (src ++ replicate n a) (length src + n - 1) 0 ≡ a
get_or-last src n a h =
    let e : length src + n - 1 ≡ length src + (n - 1) = omega arith in
    rw (e, get_or-append_right src (replicate n a) (n - 1) (length src) 0 refl)
      (get_or-replicate n (n - 1) a (omega arith))

strip_padding-append :
    (src : Bytes) (b n : ℕ)
    → 0 < n
    → n ≤ b
    → strip_padding (src ++ replicate n (n % 256)) b n ≡ ok src
unfolding strip_padding
strip_padding-append src b n h k =
    let pad : Bytes = replicate n (n % 256) in
    let e : length (src ++ pad) - n ≡ length src =
      omega (arith, length-append src pad, length-replicate n (n % 256)) in
    ground (
      arith,
      e,
      drop-append (length src) src pad refl,
      take-append (length src) src pad refl,
      bytes_eq_refl pad,
    )

length-padded : (src : Bytes) (b n : ℕ) → length (src ++ replicate n (n % 256)) ≡ length src + n
length-padded src b n =
    omega (arith, length-append src (replicate n (n % 256)), length-replicate n (n % 256))

unpad-append :
    (src : Bytes) (b n : ℕ)
    → 0 < b
    → b ≤ 255
    → 0 < n
    → n ≤ b
    → (length src + n) % b ≡ 0
    → pkcs7_unpad (src ++ replicate n (n % 256)) b ≡ ok src
unfolding pkcs7_unpad
unpad-append src b n h k p q m =
    let e : n % 256 ≡ n = omega arith in
    ground (
      arith,
      length-padded src b n,
      get_or-last src n (n % 256) p,
      strip_padding-append src b n p q,
    )

-- For a block size from 1 to 255 every text can be padded, and stripping the padding gives it back.
pub unpad-pad :
    (src : Bytes) (b : ℕ) → 0 < b → b ≤ 255 → (pkcs7_pad src b >>= λ p. pkcs7_unpad p b) ≡ ok src
unfolding pkcs7_pad
unpad-pad src b h k = ground (
  arith,
  unpad-append src b (pad_len src b) h k (omega arith) (omega arith) (mod-pad (length src) b h),
)

-- A padded text is made of whole blocks, and is longer than the text by at most one block.
pub length-pkcs7_pad :
    (src p : Bytes) (b : ℕ)
    → pkcs7_pad src b ≡ ok p
    → (length p % b ≡ 0) × (length src < length p) × (length p ≤ length src + b)
unfolding pkcs7_pad
length-pkcs7_pad src p b h = elim (Bool-cases (b == 0 || ltb 255 b)) [
  | inl bad ↦ ground arith
  | inr good ↦
      let n = pad_len src b in
      let e : ok (src ++ replicate n (n % 256)) ≡ ok p = ground arith in
      let f : 0 < b = ground arith in
      ground (arith, length-padded src b n, mod-pad (length src) b f)
]

sub-eq_of_mod : (b r n : ℕ) → r < b → 0 < n → n ≤ b → (r + n) % b ≡ 0 → b - r ≡ n
sub-eq_of_mod b r n h p q m = elim (dec_lt (r + n) b) [
  | yes short ↦ absurd (omega (arith, mod-eq_of_lt short))
  | no long ↦
      let e : (r + n) % b ≡ (r + n - b) % b = mod-eq-sub-mod (omega arith) in
      let d : r + n - b < b = omega arith in omega (arith, e, mod-eq_of_lt d)
]

le_of_mod : (n b : ℕ) → 0 < b → 0 < n → n % b ≡ 0 → b ≤ n
le_of_mod n b h p m = elim (dec_lt n b) [
  | yes short ↦ absurd (omega (arith, mod-eq_of_lt short))
  | no long ↦ omega arith
]

-- The padding is as long as the last block is short.
pad_len_unique :
    (src : Bytes) (b n : ℕ) → 0 < n → n ≤ b → (length src + n) % b ≡ 0 → pad_len src b ≡ n
pad_len_unique src b n h k m =
    sub-eq_of_mod b (length src % b) n (mod-lt (length src) (omega arith)) h k
      (mod-add-mod (length src) b n ∙ m)

strip_padding-range : (p src : Bytes) (b n : ℕ) → strip_padding p b n ≡ ok src → (0 < n) × (n ≤ b)
unfolding strip_padding
strip_padding-range p src b n h = ground arith

strip_padding-inv :
    (p src : Bytes) (b n : ℕ)
    → n ≤ length p
    → strip_padding p b n ≡ ok src
    → (src ++ replicate n (n % 256) ≡ p) × (0 < n) × (n ≤ b) × (length src + n ≡ length p)
unfolding strip_padding
strip_padding-inv p src b n k h =
    let cut = length p - n in
    ground (
      arith,
      bytes_eq→eq (replicate n (n % 256)) (drop cut p),
      take-append-drop cut p,
      length-take cut p,
    )

-- What an accepted input has passed.
unpad-inv :
    (p src : Bytes) (b : ℕ)
    → pkcs7_unpad p b ≡ ok src
    → (0 < b)
      × (b ≤ 255)
      × (length p % b ≡ 0)
      × (0 < length p)
      × (strip_padding p b (get_or p (length p - 1) 0) ≡ ok src)
unfolding pkcs7_unpad
unpad-inv p src b h = ground arith

pad-exact :
    (p src : Bytes) (b n : ℕ)
    → 0 < b
    → b ≤ 255
    → pad_len src b ≡ n
    → src ++ replicate n (n % 256) ≡ p
    → pkcs7_pad src b ≡ ok p
unfolding pkcs7_pad
pad-exact p src b n h k e f = ground arith

-- If stripping accepts a text, then padding the result gives that text back.
pub pad-unpad : (p src : Bytes) (b : ℕ) → pkcs7_unpad p b ≡ ok src → pkcs7_pad src b ≡ ok p
pad-unpad p src b h =
    let n = get_or p (length p - 1) 0 in
    let (pos, small, aligned, nonempty, accepted) = unpad-inv p src b h in
    let (some_padding, fits) = strip_padding-range p src b n accepted in
    let within : n ≤ length p = omega (arith, le_of_mod (length p) b pos nonempty aligned) in
    let (whole, _, _, total) = strip_padding-inv p src b n within accepted in
    let rest : (length src + n) % b ≡ 0 = rw total aligned in
    pad-exact p src b n pos small (pad_len_unique src b n some_padding fits rest) whole
