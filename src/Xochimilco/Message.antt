-- ===== src/Xochimilco/Message.antt =====
-- xochimilco/message.go: the five kinds of messages and their envelope. Go's strings and byte
-- slices are lists of bytes.
pub mod Fields
pub mod RoundTrip
pub mod Safety
pub mod Sealed
use go_ratchet.Prelude.{
  ℕ, ◌+◌, ◌-◌, ◌*◌, ◌/◌, ◌%◌, ◌==◌, ltb, leb, if◌then◌else◌, not, Bool, true, false, ◌&&◌, ◌||◌,
  Option, none, some, [], ◌∷◌, ◌++◌, Error, Result, ok, err, panic, Bytes, bytes_eq, length, take,
  drop, get_or, fit,
}
use go_ratchet.Prelude.Errors.{◌>>=◌, ◌>>◌, fail_if}
use go_ratchet.Crypto.{Crypto, Sample}
use go_ratchet.Xochimilco.Base64.{encode, decode}

-- The message types; in an envelope each is a digit.
pub data MessageType : Type 0 where
  sess_offer sess_ack sess_data sess_close sess_sealed : MessageType

abbrev pub type_number : MessageType → ℕ
type_number sess_offer = 1
type_number sess_ack = 2
type_number sess_data = 3
type_number sess_close = 4
type_number sess_sealed = 5

-- "!RAT!" and "!CHT!"
abbrev pub prefix : Bytes
prefix = b'!' ∷ b'R' ∷ b'A' ∷ b'T' ∷ b'!' ∷ []

abbrev pub suffix : Bytes
suffix = b'!' ∷ b'C' ∷ b'H' ∷ b'T' ∷ b'!' ∷ []

pub record OfferMessage : Type 0 where
  pub id_key : Bytes
  pub sp_key : Bytes
  pub sp_sig : Bytes
  pub uuid : Bytes
  pub nick : Bytes

pub record AckMessage : Type 0 where
  pub id_key : Bytes
  pub e_key : Bytes
  pub uuid : Bytes
  pub cipher : Bytes

pub record DataMessage : Type 0 where
  pub uuid : Bytes
  pub payload : Bytes

pub record CloseMessage : Type 0 where
  pub uuid : Bytes
  pub payload : Bytes

-- The interface `Msg` with its implementations.
pub data Msg : Type 0 where
  offer : OfferMessage → Msg
  ack : AckMessage → Msg
  payload : DataMessage → Msg
  close : CloseMessage → Msg
  sealed : Bytes → Msg

abbrev pub type_of : Msg → MessageType
type_of (offer m) = sess_offer
type_of (ack m) = sess_ack
type_of (payload m) = sess_data
type_of (close m) = sess_close
type_of (sealed b) = sess_sealed

-- The method `ID`.
abbrev pub id : Msg → Bytes
id (offer m) = m.uuid
id (ack m) = m.uuid
id (payload m) = m.uuid
id (close m) = m.uuid
id (sealed b) = []

-- The methods `MarshalBinary`. None of them fails.
unfoldable pub marshal_offer : OfferMessage → Bytes
marshal_offer m =
    fit 32 m.id_key ++ (fit 32 m.sp_key ++ (fit 64 m.sp_sig ++ (fit 16 m.uuid ++ m.nick)))

unfoldable pub marshal_ack : AckMessage → Bytes
marshal_ack m = fit 32 m.id_key ++ (fit 32 m.e_key ++ (fit 16 m.uuid ++ m.cipher))

unfoldable pub marshal_data : DataMessage → Bytes
marshal_data m = fit 16 m.uuid ++ m.payload

unfoldable pub marshal_close : CloseMessage → Bytes
marshal_close m = fit 16 m.uuid ++ m.payload

unfoldable pub marshal_binary : Msg → Bytes
marshal_binary (offer m) = marshal_offer m
marshal_binary (ack m) = marshal_ack m
marshal_binary (payload m) = marshal_data m
marshal_binary (close m) = marshal_close m
marshal_binary (sealed b) = b

-- Go's `src[i]`, `src[lo:hi]` and `src[lo:]`, which panic out of bounds
unfoldable pub index : Bytes → ℕ → Result ℕ
index src i = if ltb i (length src) then ok (get_or src i 0) else panic

unfoldable pub slice : Bytes → ℕ → ℕ → Result Bytes
slice src lo hi =
    if leb lo hi && leb hi (length src) then ok (take (hi - lo) (drop lo src)) else panic

unfoldable pub slice_from : Bytes → ℕ → Result Bytes
slice_from src lo = if leb lo (length src) then ok (drop lo src) else panic

-- The methods `UnmarshalBinary`. What is copied has the length of the slice that it is copied into.
unfoldable pub unmarshal_offer : Bytes → Result OfferMessage
unmarshal_offer src = do
  fail_if (ltb (length src) (32 + 32 + 64 + 16)) Error.payload_short
  id_key ← slice src 0 32
  sp_key ← slice src 32 64
  sp_sig ← slice src 64 128
  uuid ← slice src 128 144
  nick ← slice_from src 144
  ok (record { id_key = id_key; sp_key = sp_key; sp_sig = sp_sig; uuid = uuid; nick = nick })

unfoldable pub unmarshal_ack : Bytes → Result AckMessage
unmarshal_ack src = do
  fail_if (leb (length src) (32 + 32 + 16)) Error.payload_short
  id_key ← slice src 0 32
  e_key ← slice src 32 64
  uuid ← slice src 64 80
  cipher ← slice_from src 80
  ok (record { id_key = id_key; e_key = e_key; uuid = uuid; cipher = cipher })

unfoldable pub unmarshal_data : Bytes → Result DataMessage
unmarshal_data src = do
  fail_if (leb (length src) 16) Error.payload_short
  uuid ← slice src 0 16
  rest ← slice_from src 16
  ok (record { uuid = uuid; payload = rest })

unfoldable pub unmarshal_close : Bytes → Result CloseMessage
unmarshal_close src = do
  fail_if (leb (length src) 16) Error.payload_short
  uuid ← slice src 0 16
  rest ← slice_from src 16
  fail_if (not (bytes_eq rest (255 ∷ []))) Error.close_payload
  ok (record { uuid = uuid; payload = rest })

unfoldable pub unmarshal_sealed : Bytes → Result Bytes
unmarshal_sealed src = do fail_if (leb (length src) 1) Error.payload_short; ok src

-- `container`, and the call of `UnmarshalBinary` on what it made.
unfoldable pub container : ℕ → Result MessageType
container t =
    if t == 1
    then ok sess_offer
    else if t == 2
    then ok sess_ack
    else if t == 3
    then ok sess_data
    else if t == 4
    then ok sess_close
    else if t == 5
    then ok sess_sealed
    else err Error.unsupported_type

unfoldable pub unmarshal_binary : MessageType → Bytes → Result Msg
unmarshal_binary sess_offer src = do m ← unmarshal_offer src; ok (offer m)
unmarshal_binary sess_ack src = do m ← unmarshal_ack src; ok (ack m)
unmarshal_binary sess_data src = do m ← unmarshal_data src; ok (payload m)
unmarshal_binary sess_close src = do m ← unmarshal_close src; ok (close m)
unmarshal_binary sess_sealed src = do m ← unmarshal_sealed src; ok (sealed m)

-- `marshalMessage`: the type as a digit, and the message in base64.
unfoldable pub marshal_message : MessageType → Msg → Bytes
marshal_message t m = prefix ++ ((b'0' + type_number t) ∷ (encode (marshal_binary m) ++ suffix))

-- `strings.HasPrefix` and `strings.HasSuffix`
abbrev pub has_prefix : Bytes → Bytes → Bool
has_prefix src p = bytes_eq (take (length p) src) p

abbrev pub has_suffix : Bytes → Bytes → Bool
has_suffix src s = leb (length s) (length src) && bytes_eq (drop (length src - length s) src) s

-- `messageType(ch - '0')`, a byte
abbrev pub type_byte : ℕ → ℕ
type_byte ch = (ch + 256 - b'0') % 256

-- `unmarshalMessage` behind its test of the affixes.
unfoldable pub unmarshal_body : Bytes → Result (MessageType × Msg)
unmarshal_body src = do
  ch ← index src (length prefix)
  t ← container (type_byte ch)
  text ← slice src (length prefix + 1) (length src - length suffix)
  raw ← decode text
  m ← unmarshal_binary t raw
  ok (t, m)

unfoldable pub unmarshal_message : Bytes → Result (MessageType × Msg)
unmarshal_message src = do
  fail_if (not (has_prefix src prefix) || not (has_suffix src suffix)) Error.bad_affixes
  unmarshal_body src

unfoldable pub parse : Bytes → Result Msg
parse src = do (t, m) ← unmarshal_message src; ok m

-- The bytes in front of a message that is sealed; a sealed message is not sealed again.
unfoldable pub sealed_type : Msg → Result ℕ
sealed_type (offer m) = ok b'1'
sealed_type (ack m) = ok b'2'
sealed_type (payload m) = ok b'3'
sealed_type (close m) = ok b'4'
sealed_type (sealed b) = err Error.unsupported_type

module _ (c : Crypto) where
  unfoldable pub seal : Msg → Bytes → Sample → Result Bytes
  seal m key s = do
    t ← sealed_type m
    elim (c.seal_anonymous (t ∷ marshal_binary m) key s) [
      | none ↦ err Error.rand_failed
      | some b ↦ ok b
    ]

  unfoldable pub opened : Option Bytes → Result Bytes
  opened none = err Error.unseal_invalid
  opened (some raw) = ok raw

  -- Nothing is checked between opening the box and reading the first byte.
  unfoldable pub unseal : Bytes → Bytes → Bytes → Result Msg
  unseal box priv pub_key = do
    raw ← opened (c.open_anonymous box pub_key priv)
    ch ← index raw 0
    t ← container (type_byte ch)
    unmarshal_binary t (drop 1 raw)
