-- ===== src/Xochimilco/Message/RoundTrip.antt =====
-- `marshalMessage` and `unmarshalMessage`: the envelope around a message.
use go_ratchet.Prelude.{
  ℕ, ◌+◌, ◌-◌, ◌≤◌, ◌≡◌, refl, arith, true, [], ◌∷◌, ◌++◌, ok, Bytes, IsBytes, bytes_eq_refl,
  length, length-append, take-append, drop-append, drop-append_add, le→leb, lt→ltb,
}
use go_ratchet.Xochimilco.Base64.{encode, decode}
use go_ratchet.Xochimilco.Base64.RoundTrip.{decode-encode}
use go_ratchet.Xochimilco.Message.Fields.{IsWellFormed, unmarshal-marshal_binary}
use go_ratchet.Xochimilco.Message.{
  MessageType, sess_offer, sess_ack, sess_data, sess_close, sess_sealed, type_number, type_of,
  prefix, suffix, Msg, marshal_binary, unmarshal_binary, container, marshal_message, unmarshal_body,
  unmarshal_message, index, slice, type_byte, has_prefix, has_suffix,
}

container-type_byte : (t : MessageType) → container (type_byte (b'0' + type_number t)) ≡ ok t
unfolding container
container-type_byte sess_offer = refl
container-type_byte sess_ack = refl
container-type_byte sess_data = refl
container-type_byte sess_close = refl
container-type_byte sess_sealed = refl

-- An envelope is as long as its text and eleven bytes more.
length-wrapped :
    (ch : ℕ) (text : Bytes) → length (prefix ++ (ch ∷ (text ++ suffix))) ≡ 11 + length text
length-wrapped ch text = omega (arith, length-append text suffix)

wrapped-prefix :
    (ch : ℕ) (text : Bytes) → has_prefix (prefix ++ (ch ∷ (text ++ suffix))) prefix ≡ true
wrapped-prefix ch text = bytes_eq_refl prefix

-- The text of an envelope between its affixes is what stands behind the type.
wrapped-slice :
    (ch : ℕ) (text : Bytes)
    → let src = prefix ++ (ch ∷ (text ++ suffix)) in
      slice src (length prefix + 1) (length src - length suffix) ≡ ok text
unfolding slice
wrapped-slice ch text =
    let src : Bytes = prefix ++ (ch ∷ (text ++ suffix)) in
    let size = length-wrapped ch text in
    let end : length src - 5 ≡ 6 + length text = omega (arith, size) in
    let width : 6 + length text - 6 ≡ length text = omega arith in
    let inside : 6 + length text ≤ length src = omega (arith, size) in
    rw (
      end,
      le→leb 6 (6 + length text) (omega arith),
      le→leb _ _ inside,
      width,
      take-append (length text) text suffix refl,
    )

wrapped-suffix :
    (ch : ℕ) (text : Bytes) → has_suffix (prefix ++ (ch ∷ (text ++ suffix))) suffix ≡ true
wrapped-suffix ch text =
    let src : Bytes = prefix ++ (ch ∷ (text ++ suffix)) in
    let size = length-wrapped ch text in
    let end : length src - 5 ≡ 6 + length text = omega (arith, size) in
    let inside : 5 ≤ length src = omega (arith, size) in
    rw
      (
        le→leb _ _ inside,
        end,
        drop-append_add 6 (length text) (prefix ++ (ch ∷ [])) (text ++ suffix) refl,
        drop-append (length text) text suffix refl,
      )
      (bytes_eq_refl suffix)

wrapped-index :
    (ch : ℕ) (text : Bytes) → index (prefix ++ (ch ∷ (text ++ suffix))) (length prefix) ≡ ok ch
unfolding index
wrapped-index ch text = rw (lt→ltb 5 (length (prefix ++ (ch ∷ (text ++ suffix)))) (omega arith))

unmarshal-wrapped :
    (t : MessageType) (text raw : Bytes) (m : Msg)
    → decode text ≡ ok raw
    → unmarshal_binary t raw ≡ ok m
    → unmarshal_message (prefix ++ ((b'0' + type_number t) ∷ (text ++ suffix))) ≡ ok (t, m)
unfolding unmarshal_message unmarshal_body
unmarshal-wrapped t text raw m d u =
    let ch : ℕ = b'0' + type_number t in
    rw (wrapped-prefix ch text, wrapped-suffix ch text)
      (rw (wrapped-index ch text)
        (rw (container-type_byte t) (rw (wrapped-slice ch text) (rw d (rw u)))))

-- A message of any of the five kinds whose fields have the sizes of the wire format and whose
-- binary form is made of bytes is read back from its envelope, with its type.
pub unmarshal-marshal_message :
    (m : Msg)
    → IsWellFormed m
    → IsBytes (marshal_binary m)
    → unmarshal_message (marshal_message (type_of m) m) ≡ ok (type_of m, m)
unfolding marshal_message
unmarshal-marshal_message m v b =
    unmarshal-wrapped (type_of m) (encode (marshal_binary m)) (marshal_binary m) m
      (decode-encode (marshal_binary m) b) (unmarshal-marshal_binary m v)
