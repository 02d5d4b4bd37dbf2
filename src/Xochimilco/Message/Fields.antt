-- ===== src/Xochimilco/Message/Fields.antt =====
-- `MarshalBinary` and `UnmarshalBinary` of each kind of message.
use go_ratchet.Prelude.{
  ℕ, ◌-◌, not, take, drop, le→leb, Error, ◌<◌, ◌≤◌, ◌≡◌, ap, arith, [], ◌∷◌, ◌++◌, ok, Bytes,
  bytes_eq, length, fit_self, length-append, take-append, drop-append, drop-append_add, le→ltb,
  lt→leb,
}
use go_ratchet.Prelude.Errors.{◌>>◌, fail_if}
use go_ratchet.Xochimilco.Message.{
  slice, slice_from, OfferMessage, AckMessage, DataMessage, CloseMessage, Msg, offer, ack, payload,
  close, sealed, type_of, marshal_offer, marshal_ack, marshal_data, marshal_close, marshal_binary,
  unmarshal_offer, unmarshal_ack, unmarshal_data, unmarshal_close, unmarshal_sealed,
  unmarshal_binary,
}

-- The sizes that the wire format has room for.
pub record IsOffer (m : OfferMessage) : Type 0 where
  pub length_id : length m.id_key ≡ 32
  pub length_sp : length m.sp_key ≡ 32
  pub length_sig : length m.sp_sig ≡ 64
  pub length_uuid : length m.uuid ≡ 16

pub record IsAck (m : AckMessage) : Type 0 where
  pub length_id : length m.id_key ≡ 32
  pub length_e : length m.e_key ≡ 32
  pub length_uuid : length m.uuid ≡ 16
  pub nonempty : 0 < length m.cipher

pub record IsData (m : DataMessage) : Type 0 where
  pub length_uuid : length m.uuid ≡ 16
  pub nonempty : 0 < length m.payload

pub record IsClose (m : CloseMessage) : Type 0 where
  pub length_uuid : length m.uuid ≡ 16
  pub payload_ff : m.payload ≡ 255 ∷ []

-- A message that its kind's wire format can carry.
abbrev pub IsWellFormed : Msg → Type 0
IsWellFormed (offer m) = IsOffer m
IsWellFormed (ack m) = IsAck m
IsWellFormed (payload m) = IsData m
IsWellFormed (close m) = IsClose m
IsWellFormed (sealed b) = 1 < length b

-- What is cut out of a slice that is long enough.
pub slice_lem :
    (src : Bytes) (lo hi : ℕ)
    → lo ≤ hi
    → hi ≤ length src
    → slice src lo hi ≡ ok (take (hi - lo) (drop lo src))
unfolding slice
slice_lem src lo hi h k = rw (le→leb lo hi h, le→leb hi (length src) k)

pub slice_from_lem : (src : Bytes) (lo : ℕ) → lo ≤ length src → slice_from src lo ≡ ok (drop lo src)
unfolding slice_from
slice_from_lem src lo h = rw (le→leb lo (length src) h)

pub offer_long :
    (src : Bytes)
    → 144 ≤ length src
    → unmarshal_offer src
      ≡ ok (record {
        id_key = take 32 src;
        sp_key = take 32 (drop 32 src);
        sp_sig = take 64 (drop 64 src);
        uuid = take 16 (drop 128 src);
        nick = drop 144 src;
      })
unfolding unmarshal_offer
offer_long src h = rw (
  le→ltb _ _ h,
  slice_lem src 0 32 (omega arith) (omega (arith, h)),
  slice_lem src 32 64 (omega arith) (omega (arith, h)),
  slice_lem src 64 128 (omega arith) (omega (arith, h)),
  slice_lem src 128 144 (omega arith) h,
  slice_from_lem src 144 h,
)

pub ack_long :
    (src : Bytes)
    → 80 < length src
    → unmarshal_ack src
      ≡ ok (record {
        id_key = take 32 src;
        e_key = take 32 (drop 32 src);
        uuid = take 16 (drop 64 src);
        cipher = drop 80 src;
      })
unfolding unmarshal_ack
ack_long src h = rw (
  lt→leb _ _ h,
  slice_lem src 0 32 (omega arith) (omega (arith, h)),
  slice_lem src 32 64 (omega arith) (omega (arith, h)),
  slice_lem src 64 80 (omega arith) (omega (arith, h)),
  slice_from_lem src 80 (omega (arith, h)),
)

pub data_long :
    (src : Bytes)
    → 16 < length src
    → unmarshal_data src ≡ ok (record { uuid = take 16 src; payload = drop 16 src })
unfolding unmarshal_data
data_long src h = rw (
  lt→leb _ _ h,
  slice_lem src 0 16 (omega arith) (omega (arith, h)),
  slice_from_lem src 16 (omega (arith, h)),
)

pub close_long :
    (src : Bytes)
    → 16 < length src
    → unmarshal_close src ≡ (do
      fail_if (not (bytes_eq (drop 16 src) (255 ∷ []))) Error.close_payload
      ok (record { uuid = take 16 src; payload = drop 16 src }))
unfolding unmarshal_close
close_long src h = rw (
  lt→leb _ _ h,
  slice_lem src 0 16 (omega arith) (omega (arith, h)),
  slice_from_lem src 16 (omega (arith, h)),
)

unmarshal-marshal_offer : (m : OfferMessage) → IsOffer m → unmarshal_offer (marshal_offer m) ≡ ok m
unfolding marshal_offer
unmarshal-marshal_offer m v =
    let r3 : Bytes = m.uuid ++ m.nick in
    let r2 : Bytes = m.sp_sig ++ r3 in
    let r1 : Bytes = m.sp_key ++ r2 in
    let all : Bytes = m.id_key ++ r1 in
    let long : 144 ≤ length all = omega (
      arith,
      v.length_id,
      v.length_sp,
      v.length_sig,
      v.length_uuid,
      length-append m.id_key r1,
      length-append m.sp_key r2,
      length-append m.sp_sig r3,
      length-append m.uuid m.nick,
    ) in
    rw (
      fit_self 32 m.id_key v.length_id,
      fit_self 32 m.sp_key v.length_sp,
      fit_self 64 m.sp_sig v.length_sig,
      fit_self 16 m.uuid v.length_uuid,
      offer_long _ long,
      take-append 32 m.id_key r1 v.length_id,
      drop-append 32 m.id_key r1 v.length_id,
      take-append 32 m.sp_key r2 v.length_sp,
      drop-append_add 32 32 m.id_key r1 v.length_id,
      drop-append 32 m.sp_key r2 v.length_sp,
      take-append 64 m.sp_sig r3 v.length_sig,
      drop-append_add 32 96 m.id_key r1 v.length_id,
      drop-append_add 32 64 m.sp_key r2 v.length_sp,
      drop-append 64 m.sp_sig r3 v.length_sig,
      take-append 16 m.uuid m.nick v.length_uuid,
      drop-append_add 32 112 m.id_key r1 v.length_id,
      drop-append_add 32 80 m.sp_key r2 v.length_sp,
      drop-append_add 64 16 m.sp_sig r3 v.length_sig,
      drop-append 16 m.uuid m.nick v.length_uuid,
    )

unmarshal-marshal_ack : (m : AckMessage) → IsAck m → unmarshal_ack (marshal_ack m) ≡ ok m
unfolding marshal_ack
unmarshal-marshal_ack m v =
    let r2 : Bytes = m.uuid ++ m.cipher in
    let r1 : Bytes = m.e_key ++ r2 in
    let all : Bytes = m.id_key ++ r1 in
    let long : 80 < length all = omega (
      arith,
      v.length_id,
      v.length_e,
      v.length_uuid,
      v.nonempty,
      length-append m.id_key r1,
      length-append m.e_key r2,
      length-append m.uuid m.cipher,
    ) in
    rw (
      fit_self 32 m.id_key v.length_id,
      fit_self 32 m.e_key v.length_e,
      fit_self 16 m.uuid v.length_uuid,
      ack_long _ long,
      take-append 32 m.id_key r1 v.length_id,
      drop-append 32 m.id_key r1 v.length_id,
      take-append 32 m.e_key r2 v.length_e,
      drop-append_add 32 32 m.id_key r1 v.length_id,
      drop-append 32 m.e_key r2 v.length_e,
      take-append 16 m.uuid m.cipher v.length_uuid,
      drop-append_add 32 48 m.id_key r1 v.length_id,
      drop-append_add 32 16 m.e_key r2 v.length_e,
      drop-append 16 m.uuid m.cipher v.length_uuid,
    )

unmarshal-marshal_data : (m : DataMessage) → IsData m → unmarshal_data (marshal_data m) ≡ ok m
unfolding marshal_data
unmarshal-marshal_data m v =
    let size = length-append m.uuid m.payload in
    let long : 16 < length (m.uuid ++ m.payload) = omega (arith, size, v.length_uuid, v.nonempty) in
    rw (
      fit_self 16 m.uuid v.length_uuid,
      data_long _ long,
      take-append 16 m.uuid m.payload v.length_uuid,
      drop-append 16 m.uuid m.payload v.length_uuid,
    )

unmarshal-marshal_close : (m : CloseMessage) → IsClose m → unmarshal_close (marshal_close m) ≡ ok m
unfolding marshal_close bytes_eq
unmarshal-marshal_close m v =
    let size = length-append m.uuid m.payload in
    let long : 16 < length (m.uuid ++ m.payload) =
      omega (arith, size, v.length_uuid, ap length v.payload_ff) in
    rw (
      fit_self 16 m.uuid v.length_uuid,
      close_long _ long,
      take-append 16 m.uuid m.payload v.length_uuid,
      drop-append 16 m.uuid m.payload v.length_uuid,
      ap (λ p. bytes_eq p (255 ∷ [])) v.payload_ff,
    )

-- A message of any of the five kinds whose fields have the sizes of the wire format is read back
-- from its binary form.
pub unmarshal-marshal_binary :
    (m : Msg) → IsWellFormed m → unmarshal_binary (type_of m) (marshal_binary m) ≡ ok m
unfolding unmarshal_binary marshal_binary unmarshal_sealed
unmarshal-marshal_binary (offer m) v = rw (unmarshal-marshal_offer m v)
unmarshal-marshal_binary (ack m) v = rw (unmarshal-marshal_ack m v)
unmarshal-marshal_binary (payload m) v = rw (unmarshal-marshal_data m v)
unmarshal-marshal_binary (close m) v = rw (unmarshal-marshal_close m v)
unmarshal-marshal_binary (sealed b) v = rw (lt→leb _ _ v)
