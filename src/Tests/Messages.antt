-- ===== src/Tests/Messages.antt =====
-- The messages of the session layer.
use go_ratchet.Prelude.{◌≡◌, ◌≢◌, refl, sym, arith, [], ◌∷◌, Bytes, ok, panic, replicate, false}
use go_ratchet.Crypto.{Sample}
use go_ratchet.Xochimilco.Message.{
  AckMessage, ack, type_of, marshal_binary, marshal_ack, marshal_message, unmarshal_message, unseal,
}
use go_ratchet.Xochimilco.Message.Fields.{IsAck}
use go_ratchet.Xochimilco.Message.RoundTrip.{unmarshal-marshal_message}
use go_ratchet.Xochimilco.Message.Safety.{unmarshal_message-ne-panic}
use go_ratchet.Xochimilco.Message.Sealed.{Opens, unseal_empty}
use go_ratchet.Tests.Toy.{toy, are_bytes-IsBytes}

abbrev answer : AckMessage
answer = record {
  id_key = replicate 32 1;
  e_key = replicate 32 2;
  uuid = replicate 16 3;
  cipher = 4 ∷ 255 ∷ [];
}

answer-IsAck : IsAck answer
answer-IsAck = record {
  length_id = refl;
  length_e = refl;
  length_uuid = refl;
  nonempty = omega arith;
}

unmarshal-marshal_message_example :
    unmarshal_message (marshal_message (type_of (ack answer)) (ack answer))
    ≡ ok (type_of (ack answer), ack answer)
unfolding marshal_binary marshal_ack
unmarshal-marshal_message_example =
    unmarshal-marshal_message (ack answer) answer-IsAck
      (are_bytes-IsBytes (marshal_binary (ack answer)) refl)

unmarshal_message-ne-panic_example : unmarshal_message (33 ∷ 88 ∷ []) ≢ panic
unmarshal_message-ne-panic_example = unmarshal_message-ne-panic (33 ∷ 88 ∷ [])

toy-Opens : Opens toy (5 ∷ []) (6 ∷ [])
toy-Opens text box s h = sym h

abbrev sample : Sample
sample = record { buffer = []; failed = false }

abbrev box : Bytes
box = 50 ∷ marshal_binary (ack answer)

unseal_empty_example : unseal toy [] (5 ∷ []) (6 ∷ []) ≡ panic
unseal_empty_example = unseal_empty toy [] (5 ∷ []) (6 ∷ []) sample toy-Opens refl
