-- ===== src/Xochimilco/Message/Safety.antt =====
-- What reading a message from the network can come to.
use go_ratchet.Prelude.{
  not, lt→ltb, le→leb, take-append-drop, ℕ, ◌-◌, ◌<◌, ◌≤◌, ◌≡◌, ◌≢◌, inl, inr, refl, sym, ap, ◌∙◌,
  arith, ltb, leb, true, false, Bool, Bool-cases, Option-cases, [], ◌∷◌, ◌++◌, Error, Result, ok,
  err, panic, Bytes, bytes_eq, bytes_eq→eq, length, take, drop, get_or, length-drop,
}
use native.Mathlib.Decide.{dec_lt}
use mathlib.Core.Path.{subst}
use go_ratchet.Prelude.Errors.{◌>>=◌, fail_if}
use go_ratchet.Xochimilco.Base64.{
  decode, decode_digit, digit, strip_breaks, one_byte, two_bytes, three_bytes, decode_groups,
}
use go_ratchet.Xochimilco.Message.Fields.{offer_long, ack_long, data_long, close_long}
use go_ratchet.Xochimilco.Message.{
  MessageType, sess_offer, sess_ack, sess_data, sess_close, sess_sealed, prefix, suffix,
  unmarshal_offer, unmarshal_ack, unmarshal_data, unmarshal_close, unmarshal_sealed,
  unmarshal_binary, container, unmarshal_body, unmarshal_message, index, slice, type_byte,
  has_prefix, has_suffix,
}

-- A call that returns, with a value or an error.
abbrev pub Returns : {A : Type 0} → Result A → Type 0
Returns (ok a) = Unit {0}
Returns (err e) = Unit {0}
Returns panic = ⊥

>>=-Returns :
    {A B : Type 0} (m : Result A) (f : A → Result B)
    → Returns m
    → ((a : A) → m ≡ ok a → Returns (f a))
    → Returns (m >>= f)
>>=-Returns (ok a) f h k = k a refl
>>=-Returns (err e) f h k = tt
>>=-Returns panic f h k = h

fail_if-Returns : (b : Bool) (e : Error) → Returns (fail_if b e)
fail_if-Returns true e = tt
fail_if-Returns false e = tt

digit-Returns : (ch : ℕ) → Returns (digit ch)
unfolding digit
digit-Returns ch = elim (Option-cases (decode_digit ch)) [
  | inl e ↦ rw (e, digit) tt
  | inr (n, e) ↦ rw (e, digit) tt
]

one_byte-Returns : (p q : ℕ) → Returns (one_byte p q)
unfolding one_byte
one_byte-Returns p q =
    >>=-Returns (digit p) _ (digit-Returns p)
      λ w _. >>=-Returns (digit q) _ (digit-Returns q) λ x _. tt

two_bytes-Returns : (p q r : ℕ) → Returns (two_bytes p q r)
unfolding two_bytes
two_bytes-Returns p q r = >>=-Returns (digit p) _ (digit-Returns p) λ w _.
    >>=-Returns (digit q) _ (digit-Returns q)
      λ x _. >>=-Returns (digit r) _ (digit-Returns r) λ y _. tt

three_bytes-Returns : (p q r s : ℕ) → Returns (three_bytes p q r s)
unfolding three_bytes
three_bytes-Returns p q r s = >>=-Returns (digit p) _ (digit-Returns p) λ w _.
    >>=-Returns (digit q) _ (digit-Returns q) λ x _.
      >>=-Returns (digit r) _ (digit-Returns r)
        λ y _. >>=-Returns (digit s) _ (digit-Returns s) λ z _. tt

decode_groups-Returns : (src : Bytes) → Returns (decode_groups src)
unfolding decode_groups
decode_groups-Returns [] = tt
decode_groups-Returns (p ∷ []) = tt
decode_groups-Returns (p ∷ q ∷ []) = one_byte-Returns p q
decode_groups-Returns (p ∷ q ∷ r ∷ []) = two_bytes-Returns p q r
decode_groups-Returns (p ∷ q ∷ r ∷ s ∷ rest) =
    >>=-Returns (three_bytes p q r s) _ (three_bytes-Returns p q r s)
      λ part _. >>=-Returns (decode_groups rest) _ (decode_groups-Returns rest) λ tail _. tt

decode-Returns : (src : Bytes) → Returns (decode src)
unfolding decode
decode-Returns src = decode_groups-Returns (strip_breaks src)

-- A slice that is long enough is cut inside its bounds, and a shorter one is refused before.
offer-Returns : (src : Bytes) → Returns (unmarshal_offer src)
unfolding unmarshal_offer
offer-Returns src = elim (dec_lt (length src) 144) [
  | yes short ↦ rw (lt→ltb _ _ short) tt
  | no long ↦ rw (offer_long src (omega arith)) tt
]

ack-Returns : (src : Bytes) → Returns (unmarshal_ack src)
unfolding unmarshal_ack
ack-Returns src = elim (dec_lt 80 (length src)) [
  | yes long ↦ rw (ack_long src long) tt
  | no short ↦ rw (le→leb (length src) 80 (omega arith)) tt
]

data-Returns : (src : Bytes) → Returns (unmarshal_data src)
unfolding unmarshal_data
data-Returns src = elim (dec_lt 16 (length src)) [
  | yes long ↦ rw (data_long src long) tt
  | no short ↦ rw (le→leb (length src) 16 (omega arith)) tt
]

close-Returns : (src : Bytes) → Returns (unmarshal_close src)
unfolding unmarshal_close
close-Returns src = elim (dec_lt 16 (length src)) [
  | yes long ↦ rw (close_long src long) (
      >>=-Returns (fail_if (not (bytes_eq (drop 16 src) (255 ∷ []))) Error.close_payload) _
        (fail_if-Returns _ _) (λ _ _. tt))
  | no short ↦ rw (le→leb (length src) 16 (omega arith)) tt
]

unmarshal_binary-Returns : (t : MessageType) (src : Bytes) → Returns (unmarshal_binary t src)
unfolding unmarshal_binary unmarshal_sealed
unmarshal_binary-Returns sess_offer src =
    >>=-Returns (unmarshal_offer src) _ (offer-Returns src) λ _ _. tt
unmarshal_binary-Returns sess_ack src =
    >>=-Returns (unmarshal_ack src) _ (ack-Returns src) λ _ _. tt
unmarshal_binary-Returns sess_data src =
    >>=-Returns (unmarshal_data src) _ (data-Returns src) λ _ _. tt
unmarshal_binary-Returns sess_close src =
    >>=-Returns (unmarshal_close src) _ (close-Returns src) λ _ _. tt
unmarshal_binary-Returns sess_sealed src = ground arith

container-Returns : (t : ℕ) → Returns (container t)
unfolding container
container-Returns t = ground arith

-- A text of eleven bytes or more is indexed and cut inside its bounds.
long-Returns : (src : Bytes) → 11 ≤ length src → Returns (unmarshal_body src)
unfolding unmarshal_body index slice
long-Returns src h =
    let lo : ltb 5 (length src) ≡ true = lt→ltb _ _ (omega arith) in
    let cut : leb 6 (length src - 5) ≡ true = le→leb _ _ (omega arith) in
    let hi : leb (length src - 5) (length src) ≡ true = le→leb _ _ (omega arith) in
    rw lo (
      >>=-Returns (container (type_byte (get_or src 5 0))) _ (container-Returns _) λ t _.
        rw (cut, hi)
          (>>=-Returns (decode (take (length src - 5 - 6) (drop 6 src))) _ (decode-Returns _)
            λ raw _.
              >>=-Returns (unmarshal_binary t raw) _ (unmarshal_binary-Returns t raw) λ m _. tt))

-- In a shorter text the affixes overlap or touch, and the byte behind the prefix is no message
-- type.
short-Returns :
    (rest : Bytes)
    → length rest < 6
    → has_suffix (prefix ++ rest) suffix ≡ true
    → Returns (unmarshal_body (prefix ++ rest))
unfolding unmarshal_body index container bytes_eq
short-Returns [] h e = cc
short-Returns (x ∷ []) h e = cc
short-Returns (x ∷ y ∷ []) h e = cc
short-Returns (x ∷ y ∷ z ∷ []) h e = cc
short-Returns (x ∷ y ∷ z ∷ w ∷ []) h e = let c : x ≡ b'C' = ground arith in rw c tt
short-Returns (x ∷ y ∷ z ∷ w ∷ v ∷ []) h e = let c : x ≡ b'!' = ground arith in rw c tt
short-Returns (x ∷ y ∷ z ∷ w ∷ v ∷ u ∷ rest) h e = absurd (omega arith)

body-Returns :
    (src : Bytes)
    → has_prefix src prefix ≡ true
    → has_suffix src suffix ≡ true
    → Returns (unmarshal_body src)
body-Returns src p e = elim (dec_lt (length src) 11) [
  | no long ↦ long-Returns src (omega arith)
  | yes short ↦
      let rest : Bytes = drop 5 src in
      let cut : take 5 src ≡ prefix = bytes_eq→eq (take 5 src) prefix p in
      let whole : prefix ++ rest ≡ src =
        ap (λ (q : Bytes). q ++ rest) (sym cut) ∙ take-append-drop 5 src in
      let few : length rest < 6 = omega (arith, length-drop 5 src) in
      subst (λ q. Returns (unmarshal_body q)) whole
        (short-Returns rest few (subst (λ q. has_suffix q suffix ≡ true) (sym whole) e))
]

message-Returns : (src : Bytes) → Returns (unmarshal_message src)
unfolding unmarshal_message
message-Returns src = elim (Bool-cases (has_prefix src prefix)) [
  | inr bad ↦ rw bad tt
  | inl good ↦ elim (Bool-cases (has_suffix src suffix)) [
    | inr bad ↦ rw (good, bad) tt
    | inl fine ↦ rw (good, fine) (body-Returns src good fine)
  ]
]

-- Whatever text comes in, reading it returns a message or an error: no index and no slice is out of
-- bounds, neither in the envelope nor in the message that it carries.
pub unmarshal_message-ne-panic : (src : Bytes) → unmarshal_message src ≢ panic
unmarshal_message-ne-panic src e = subst Returns e (message-Returns src)
