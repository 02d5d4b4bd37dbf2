-- ===== src/Tests/Talks.antt =====
-- A conversation of two texts: the party that spoke last goes on, and the other one answers.
use go_ratchet.Prelude.{
  bytes_eq, refl, arith, inl, some, [], ◌∷◌, Result, ok, err, panic, Bytes, replicate,
}
use go_ratchet.Crypto.{read_full}
use go_ratchet.DoubleRatchet.Pkcs7.{pkcs7_pad, pkcs7_unpad, strip_padding}
use go_ratchet.DoubleRatchet.Header.{marshal, parse_header}
use go_ratchet.DoubleRatchet.Primitives.{
  encrypt, decrypt, open_cipher, encrypt_params, derive_params, new_cipher, chain_kdf, root_kdf, dh,
  dh_key_pair, pair_from,
}
use go_ratchet.DoubleRatchet.DhRatchet.{step, full_step, proceed, derive_send}
use go_ratchet.DoubleRatchet.Ratchet.{
  DoubleRatchet, create, encrypt_message, decrypt_message, when, next_send_key, take_header,
  next_recv_key, current_key, message_key_for, follow_peer, skip_msg_keys, skip_keys, dh_step,
}
use go_ratchet.DoubleRatchet.Ratchet.Chain.{chain_key}
use go_ratchet.DoubleRatchet.Ratchet.Conversing.{Conversing}
use go_ratchet.DoubleRatchet.Ratchet.Talk.{
  Exchange, Said, AllReceived, again, answer, start, say, Talk-AllReceived,
}
use go_ratchet.Tests.Toy.{toy, toy_laws}
use go_ratchet.Tests.Ratchets.{
  sample, sample-IsFresh, start_key, sender_dhr, idle_dhr, sender-Leads, text,
}

abbrev chain : Bytes
chain = replicate 32 5

-- The party that has listened to one message, and the one that has sent it.
abbrev pub listener : DoubleRatchet
listener = record (create (9 ∷ []) sender_dhr (replicate 32 4)) {
  chain_key_send = some start_key;
  chain_key_recv = some (chain_key toy chain 1);
  recv_no = 1;
}

abbrev pub speaker : DoubleRatchet
speaker = record (create (9 ∷ []) idle_dhr []) {
  chain_key_send = some (chain_key toy chain 1);
  send_no = 1;
}

pub listener-Conversing : Conversing toy listener speaker
listener-Conversing = record {
  key = start_key;
  chain = chain;
  lead_chain = refl;
  lead_unsent = refl;
  ahead = sender-Leads;
  length_chain = refl;
  other_sending = refl;
  lead_receiving = refl;
  same_place = refl;
  known = refl;
  associated = refl;
  all_received = omega arith;
  can_skip = inl refl;
}

abbrev pub value : Result Bytes → Bytes
value (ok b) = b
value (err e) = []
value panic = []

abbrev spoken : DoubleRatchet
spoken = (encrypt_message toy sample text speaker).1

abbrev spoken_ct : Bytes
spoken_ct = value (encrypt_message toy sample text speaker).0

abbrev listened : DoubleRatchet
listened = (decrypt_message toy sample spoken_ct listener).1

abbrev answered : DoubleRatchet
answered = (encrypt_message toy sample (7 ∷ []) listened).1

abbrev answered_ct : Bytes
answered_ct = value (encrypt_message toy sample (7 ∷ []) listened).0

abbrev heard : DoubleRatchet
heard = (decrypt_message toy sample answered_ct spoken).1

first : Exchange toy text (ok text) speaker listener spoken listened
unfolding encrypt_message when next_send_key take_header marshal encrypt encrypt_params
    derive_params new_cipher chain_kdf read_full pkcs7_pad decrypt_message parse_header
    message_key_for current_key next_recv_key decrypt open_cipher pkcs7_unpad strip_padding
first = record {
  sample = sample;
  other_sample = sample;
  ct = spoken_ct;
  encrypted = refl;
  decrypted = refl;
}

second : Exchange toy (7 ∷ []) (ok (7 ∷ [])) listened spoken answered heard
unfolding encrypt_message when next_send_key take_header marshal encrypt encrypt_params
    derive_params new_cipher chain_kdf read_full pkcs7_pad decrypt_message parse_header
    message_key_for current_key next_recv_key decrypt open_cipher pkcs7_unpad strip_padding
    follow_peer skip_msg_keys skip_keys dh_step step full_step proceed derive_send root_kdf dh
    dh_key_pair pair_from
second = record {
  sample = sample;
  other_sample = sample;
  ct = answered_ct;
  encrypted = refl;
  decrypted = refl;
}

first-Said : Said toy text (ok text) listener speaker listened spoken
first-Said =
    again (record { length_key = refl; prev_no-lt = omega arith; msg_no-lt = omega arith }) first

second-Said : Said toy (7 ∷ []) (ok (7 ∷ [])) listened spoken heard answered
unfolding encrypt_message when next_send_key take_header marshal encrypt encrypt_params
    derive_params new_cipher chain_kdf read_full pkcs7_pad decrypt_message parse_header
    message_key_for current_key next_recv_key bytes_eq second
second-Said =
    answer (record { length_key = refl; prev_no-lt = omega arith; msg_no-lt = omega arith })
      (λ e. cc) second (sample-IsFresh _)

Talk-AllReceived_example :
    AllReceived ((7 ∷ [], ok (7 ∷ [])) ∷ (text, ok text) ∷ []) × Conversing toy heard answered
Talk-AllReceived_example =
    Talk-AllReceived toy toy_laws listener speaker listener-Conversing
      (say (say start first-Said) second-Said)
