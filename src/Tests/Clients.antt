-- ===== src/Tests/Clients.antt =====
-- Two clients, each with a manager that has one session.
use go_ratchet.Prelude.{
  ◌≡◌, refl, ap, arith, some, none, true, false, Option, [], ◌∷◌, Error, Result, ok, err, Bytes,
  IsBytes, replicate,
}
use mathlib.Core.Path.{subst}
use go_ratchet.Crypto.{read_full}
use go_ratchet.DoubleRatchet.Pkcs7.{pkcs7_pad}
use go_ratchet.DoubleRatchet.Header.{marshal}
use go_ratchet.DoubleRatchet.Primitives.{
  encrypt, encrypt_params, derive_params, new_cipher, chain_kdf,
}
use go_ratchet.DoubleRatchet.Ratchet.{
  DoubleRatchet, encrypt_message, when, next_send_key, take_header,
}
use go_ratchet.DoubleRatchet.Ratchet.Conversing.{Conversing, CanSay, goes_on, heard}
use go_ratchet.Xochimilco.Message.{
  marshal_binary, marshal_close, close, sess_close, marshal_message, unmarshal_message,
  CloseMessage,
}
use go_ratchet.Xochimilco.Message.RoundTrip.{unmarshal-marshal_message}
use go_ratchet.Xochimilco.Session.{Session, OfferSamples, send, on_ratchet}
use go_ratchet.Disk.{pos, Addr, DiskSession, zero_session, zero_disk_session}
use go_ratchet.Client.Interface.{SessionManager}
use go_ratchet.Client.{
  session_started, Client, Input, Salty, parsed_text, present_or, message_received,
}
use go_ratchet.Client.Operations.{send_text, chat}
use go_ratchet.Client.Inputs.{input, unsealed}
use go_ratchet.Client.Sending.{CanSend, unsent}
use go_ratchet.Client.Answering.{chat_again}
use go_ratchet.Client.Receiving.{unknown_session}
use go_ratchet.Client.Delivery.{CanReach, renewed, input-send}
use go_ratchet.Tests.Toy.{toy, toy_laws, are_bytes-IsBytes}
use go_ratchet.Tests.Ratchets.{sample, text}
use go_ratchet.Tests.Talks.{listener, speaker, listener-Conversing, value}
use go_ratchet.Tests.Libraries.{toy_libraries}

-- A manager of one session at most.
abbrev pub one_session : SessionManager (Option DiskSession)
one_session = record {
  identity = λ sm. replicate 64 5;
  by_name = λ name sm. (ok (replicate 16 1), sm);
  new = λ name sm. (ok zero_disk_session, sm);
  get = λ uid sm. (present_or Error.not_exist sm, sm);
  put = λ s sm. (ok tt, some s);
  delete = λ s sm. (ok tt, none);
  sessions = λ sm. [];
  set_position = λ at sm. sm;
}

-- A text is its own literal, and the time is in front of it.
abbrev pub salty : Salty Bytes Bytes
salty = record {
  new_salty_text = λ time user domain words events. words;
  literal = λ t. t;
  parse_salty = λ b. some (parsed_text b);
  ulid_time = λ uid. 0;
  encrypt_salty = λ key b to. some b;
  decrypt_salty = λ key b. some (b, key);
}

abbrev pub address : Addr
address = record {
  endpoint = 104 ∷ [];
  key = replicate 32 9;
  user = 97 ∷ [];
  domain = 98 ∷ [];
  cap = [];
}

abbrev session_of : DoubleRatchet → Session
session_of dr = record zero_session {
  local_uuid = replicate 16 1;
  remote_uuid = replicate 16 2;
  double_ratchet = some dr;
}

abbrev held : DoubleRatchet → DiskSession
held dr = record {
  name = 66 ∷ [];
  peer_key = some (replicate 32 9);
  endpoint = 104 ∷ [];
  pending_ack = [];
  session = some (session_of dr);
}

abbrev pub client : Option DiskSession → Client (Option DiskSession) Bytes Bytes
client sm = record { sm = sm; addr = address; posted = []; events = [] }

speaker-CanSay : CanSay toy speaker listener sample
speaker-CanSay =
    goes_on listener-Conversing
      (record { length_key = refl; prev_no-lt = omega arith; msg_no-lt = omega arith })

abbrev ciphertext : Bytes
ciphertext = value (encrypt_message toy sample text speaker).0

ciphertext-IsBytes : IsBytes ciphertext
unfolding encrypt_message when next_send_key take_header marshal encrypt encrypt_params
    derive_params new_cipher chain_kdf read_full pkcs7_pad
ciphertext-IsBytes = are_bytes-IsBytes ciphertext refl

speaker-CanReach :
    CanReach toy toy_laws toy_libraries toy_libraries one_session one_session salty
      (client (some (held speaker)))
      (client (some (held listener)))
      (pos 3)
      (66 ∷ [])
      text
      []
      7
      8
      sample
      sample
speaker-CanReach =
    let h = heard toy toy_laws speaker listener text sample sample speaker-CanSay in
    record {
      uid = replicate 16 1;
      s = held speaker;
      x = session_of speaker;
      from = speaker;
      other_s = held listener;
      other_x = session_of listener;
      to = listener;
      after = some (renewed (held speaker) (session_of speaker) h.sender);
      other_after = some (renewed (held listener) (session_of listener) h.recipient);
      named = refl;
      holds = record { got = refl; inner = refl; ratchet = refl };
      other_holds = record { got = refl; inner = refl; ratchet = refl };
      no_pending = refl;
      can_say = speaker-CanSay;
      put_back = refl;
      other_put_back = refl;
      parses = refl;
      bytes = subst IsBytes (ap (λ r. value r.0) h.encrypted) ciphertext-IsBytes;
      stamp_bytes = are_bytes-IsBytes (replicate 16 2) refl;
      stamp_length = refl;
    }

abbrev pub samples : OfferSamples
samples = record { ephemeral = sample; key_pair = sample; unused = sample; filling = sample }

input-send_example :
    let (r, a') =
      send_text toy toy_libraries one_session salty 7 8 sample false
        (66 ∷ [])
        text
        []
        (client (some (held speaker))) in
    (wire : Bytes) × (r ≡ ok tt)
    × (a'.posted ≡ (104 ∷ [], wire) ∷ [])
    × let (q, b') =
        input toy toy_libraries one_session salty
          (record { position = pos 3; payload = wire })
          samples
          sample
          (client (some (held listener))) in
      (q ≡ ok tt)
      × (b'.events ≡ message_received (replicate 16 2) (66 ∷ []) text text ∷ [])
      × (a'.sm ≡ speaker-CanReach.after)
      × (b'.sm ≡ speaker-CanReach.other_after)
      × Conversing toy
          (heard toy toy_laws speaker listener text sample sample speaker-CanSay).recipient
          (heard toy toy_laws speaker listener text sample sample speaker-CanSay).sender
unfolding speaker-CanReach speaker-CanSay
input-send_example =
    input-send toy toy_laws toy_libraries toy_libraries one_session one_session salty
      (client (some (held speaker))) (client (some (held listener))) (pos 3) (66 ∷ []) text [] 7 8
      sample sample samples speaker-CanReach

abbrev sent : Result Bytes × Session
sent = send toy 8 text sample (session_of speaker)

speaker-CanSend :
    CanSend toy toy_libraries one_session salty
      (client (some (held speaker)))
      (66 ∷ [])
      text
      8
      sample
      (session_of speaker)
      sent.1
      (value sent.0)
unfolding send on_ratchet encrypt_message when next_send_key take_header marshal encrypt
    encrypt_params derive_params new_cipher chain_kdf read_full pkcs7_pad
speaker-CanSend = record {
  uid = replicate 16 1;
  s = held speaker;
  named = refl;
  got = refl;
  inner = refl;
  sealed = refl;
}

unsent_example :
    send_text toy toy_libraries one_session salty 7 8 sample true
      (66 ∷ [])
      text
      []
      (client (some (held speaker)))
    ≡ (err Error.post_failed, client (some (held speaker)))
unsent_example =
    unsent toy toy_libraries one_session salty (client (some (held speaker))) (66 ∷ []) text
      (value sent.0) [] 7 8 sample (session_of speaker) sent.1 speaker-CanSend

abbrev goodbye : CloseMessage
goodbye = record { uuid = replicate 16 2; payload = 255 ∷ [] }

abbrev goodbye_input : Input
goodbye_input = record { position = pos 3; payload = marshal_message sess_close (close goodbye) }

goodbye_read :
    unmarshal_message (marshal_message sess_close (close goodbye)) ≡ ok (sess_close, close goodbye)
unfolding marshal_binary marshal_close
goodbye_read =
    unmarshal-marshal_message (close goodbye) (record { length_uuid = refl; payload_ff = refl })
      (are_bytes-IsBytes (marshal_binary (close goodbye)) refl)

unknown_session_example :
    input toy toy_libraries one_session salty goodbye_input samples sample (client none)
    ≡ (ok tt, client none)
unfolding unsealed
unknown_session_example =
    unknown_session toy toy_libraries one_session salty goodbye_input sess_close (close goodbye)
      (close goodbye) samples sample (client none) goodbye_read refl refl refl

abbrev pub answering : DiskSession
answering = record (held listener) { pending_ack = 33 ∷ [] }

chat_again_example :
    let (r, me') =
      chat toy toy_libraries one_session sample sample false (66 ∷ []) (client (some answering)) in
    (r ≡ ok tt)
    × (me'.posted ≡ (104 ∷ [], 33 ∷ []) ∷ [])
    × (me'.events ≡ session_started (replicate 16 1) (66 ∷ []) ∷ [])
    × (chat toy toy_libraries one_session sample sample true (66 ∷ []) me' ≡ (ok tt, me'))
chat_again_example =
    chat_again toy toy_libraries one_session sample sample sample sample true (66 ∷ []) answering
      (session_of listener) 33 [] (client (some answering)) (some (held listener))
      (record {
        uid = replicate 16 1;
        named = refl;
        got = refl;
        inner = refl;
        pending = refl;
        put_back = refl;
        named_after = refl;
        kept = held listener;
        got_after = refl;
        none_pending = refl;
      })
