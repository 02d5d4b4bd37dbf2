-- ===== src/Tests/Ratchets.antt =====
-- The Double Ratchet between two parties that share a root key.
use go_ratchet.Prelude.{
  ℕ, ◌-◌, ◌<◌, ◌≡◌, refl, arith, inl, true, false, some, [], ◌∷◌, ◌++◌, Bytes, ok, err, length,
  drop, replicate, Error, bytes_eq,
}
use go_ratchet.Crypto.{Sample, read_full}
use go_ratchet.DoubleRatchet.Pkcs7.{pkcs7_unpad, strip_padding, pkcs7_pad}
use go_ratchet.DoubleRatchet.Header.Laws.{encoded}
use go_ratchet.DoubleRatchet.KeyBuffer.{
  find, element_find, insert, drop_last, cell, get_key, set_key, holds, find_number, new_key_buffer,
}
use go_ratchet.DoubleRatchet.Primitives.{
  encrypt, decrypt, derive_params, encrypt_params, open_cipher, new_cipher, dh, root_kdf, pair_from,
  dh_key_pair,
}
use go_ratchet.DoubleRatchet.Primitives.RoundTrip.{decrypt_forged}
use go_ratchet.DoubleRatchet.DhRatchet.{DhRatchet, dh_ratchet_active}
use go_ratchet.DoubleRatchet.DhRatchet.Agreement.{Leads, IsFresh}
use go_ratchet.DoubleRatchet.Ratchet.{
  DoubleRatchet, create, create_active, create_passive, encrypt_message, decrypt_message,
}
use go_ratchet.DoubleRatchet.Ratchet.Chain.{chain_key, cache}
use go_ratchet.DoubleRatchet.Ratchet.Messages.{next_header}
use go_ratchet.DoubleRatchet.Ratchet.Delivery.{Sends, Follows, late_delivery, out_of_order}
use go_ratchet.DoubleRatchet.Ratchet.Turn.{Delivers, turn_delivery}
use go_ratchet.DoubleRatchet.Ratchet.Conversing.{Heard}
use go_ratchet.DoubleRatchet.Ratchet.Start.{first_delivery}
use go_ratchet.DoubleRatchet.Ratchet.Forged.{skip_refused, forged_blocks_genuine}
use go_ratchet.Tests.Toy.{toy, toy_laws}

abbrev root_key : Bytes
root_key = replicate 32 1

abbrev pub text : Bytes
text = 104 ∷ 105 ∷ []

abbrev other_text : Bytes
other_text = 98 ∷ 121 ∷ 101 ∷ []

abbrev pub sample : Sample
sample = record { buffer = replicate 32 6; failed = false }

-- The keys of the recipient and the sender are 32 times 4 and 3, and their secret is 32 times 7.
abbrev root_stream : ℕ → ℕ
root_stream = toy.hkdf_sha256 (replicate 32 7) root_key (2 ∷ [])

abbrev pub start_key : Bytes
start_key = read_full root_stream 32 32

abbrev pub sender_dhr : DhRatchet
sender_dhr = record {
  root_key = read_full root_stream 0 32;
  dh_pub = replicate 32 3;
  dh_priv = replicate 32 3;
  peer_dh_pub = replicate 32 4;
  is_active = true;
  is_initialized = true;
}

abbrev pub idle_dhr : DhRatchet
idle_dhr = record {
  root_key = root_key;
  dh_pub = replicate 32 4;
  dh_priv = replicate 32 4;
  peer_dh_pub = [];
  is_active = false;
  is_initialized = false;
}

-- The sender before its n-th message.
abbrev pub sender : ℕ → DoubleRatchet
sender n = record (create (9 ∷ []) sender_dhr (replicate 32 4)) {
  chain_key_send = some (chain_key toy start_key n);
  send_no = n;
}

-- The recipient before the n-th message, and before any.
abbrev recipient : ℕ → DoubleRatchet
recipient n = record (create (9 ∷ []) idle_dhr (replicate 32 3)) {
  chain_key_recv = some (chain_key toy start_key n);
  recv_no = n;
}

abbrev pub fresh_recipient : DoubleRatchet
fresh_recipient = create (9 ∷ []) idle_dhr []

pub sender-Sends : (n : ℕ) → n < 256 → Sends toy (sender n) start_key
unfolding read_full
sender-Sends n h = record {
  length_chain = refl;
  sending = refl;
  sendable = record { length_key = refl; prev_no-lt = omega arith; msg_no-lt = omega arith };
}

recipient-Follows : (n m : ℕ) → Follows toy (recipient n) (sender m) start_key
recipient-Follows n m = record { receiving = refl; peer = refl; associated = refl }

pub sample-IsFresh : (peer : Bytes) → IsFresh toy sample peer
sample-IsFresh peer = record {
  read = refl;
  length_key = refl;
  public = (_, refl);
  shared = (_, refl);
}

pub sender-Leads : Leads toy sender_dhr start_key idle_dhr
unfolding dh root_kdf read_full
sender-Leads = record {
  lead_started = refl;
  follow_started = refl;
  length_lead = refl;
  length_follow = refl;
  lead_pair = refl;
  follow_pair = refl;
  derived = refl;
}

out_of_order_example :
    (ct : Bytes) × (dt : Bytes) × ((encrypt_message toy sample text (sender 1)).0 ≡ ok ct)
    × ((encrypt_message toy sample other_text (sender 2)).0 ≡ ok dt)
    × let (r', b') = decrypt_message toy sample dt (recipient 1) in
      (r' ≡ ok other_text) × (decrypt_message toy sample ct b' ≡ (ok text, b'))
out_of_order_example =
    out_of_order toy toy_laws (sender 1) (sender 2) (recipient 1) start_key text other_text sample
      sample sample sample (sender-Sends 1 (omega arith)) (sender-Sends 2 (omega arith))
      (recipient-Follows 1 1) (recipient-Follows 1 2) (omega arith) (omega arith) (omega arith)

abbrev late_recipient : DoubleRatchet
late_recipient = record (recipient 2) {
  msg_key_buffer = cache toy start_key (replicate 32 3) 1 1 new_key_buffer;
}

late_delivery_example :
    (ct : Bytes) × ((encrypt_message toy sample text (sender 1)).0 ≡ ok ct)
    × (decrypt_message toy sample ct late_recipient ≡ (ok text, late_recipient))
unfolding find element_find holds find_number insert drop_last cell get_key set_key
late_delivery_example =
    late_delivery toy toy_laws (sender 1) late_recipient start_key text sample sample
      (sender-Sends 1 (omega arith)) refl refl (omega arith) refl

turn_delivery_example : Delivers toy text sample sample (sender 2) fresh_recipient
turn_delivery_example =
    turn_delivery toy toy_laws (sender 2) fresh_recipient start_key text sample sample
      (sender-Sends 2 (omega arith)) sender-Leads refl (λ e. cc) (omega arith) (omega arith)
      (inl refl) (sample-IsFresh (replicate 32 3))

skip_refused_example :
    (ct : Bytes) × ((encrypt_message toy sample text (sender 40)).0 ≡ ok ct)
    × (decrypt_message toy sample ct (recipient 1) ≡ (err Error.skip_limit, (recipient 1)))
skip_refused_example =
    skip_refused toy toy_laws (sender 40) (recipient 1) start_key text sample sample
      (sender-Sends 40 (omega arith)) refl (omega arith)

forged_blocks_genuine_example :
    let (r, b') =
      decrypt_message toy sample (encoded (next_header (sender 1)) ++ (5 ∷ [])) (recipient 1) in
    (r ≡ err Error.ciphertext_short)
    × (ct : Bytes) × ((encrypt_message toy sample text (sender 1)).0 ≡ ok ct)
    × ((decrypt_message toy sample ct b').0 ≡ err Error.key_not_cached)
unfolding find element_find holds decrypt encrypt_params derive_params open_cipher new_cipher
    read_full
forged_blocks_genuine_example =
    forged_blocks_genuine toy toy_laws (sender 1) (recipient 1) start_key text (5 ∷ [])
      Error.ciphertext_short Error.key_not_cached sample sample sample
      (sender-Sends 1 (omega arith)) (recipient-Follows 1 1) refl refl (omega arith) refl

abbrev active_dhr : DhRatchet
active_dhr = record {
  root_key = root_key;
  dh_pub = replicate 32 6;
  dh_priv = replicate 32 6;
  peer_dh_pub = replicate 32 4;
  is_active = true;
  is_initialized = false;
}

abbrev ciphertext : Bytes
ciphertext =
    (text ++ replicate 14 14) ++ toy.hmac_sha256 (derive_params toy root_key).auth_key (9 ∷ [])

decrypt_forged_example :
    decrypt toy root_key
      ((replicate 15 7 ++ (1 ∷ [])) ++ drop (length ciphertext - 32) ciphertext)
      (9 ∷ [])
    ≡ ok (replicate 15 7)
unfolding encrypt encrypt_params derive_params new_cipher read_full pkcs7_pad pkcs7_unpad
    strip_padding bytes_eq
decrypt_forged_example =
    decrypt_forged toy toy_laws root_key text (9 ∷ []) ciphertext (replicate 15 7 ++ (1 ∷ []))
      (replicate 15 7) refl refl refl refl

first_delivery_example :
    Heard toy text sample sample
      (create (9 ∷ []) active_dhr (replicate 32 4))
      (create_passive root_key (9 ∷ []) (replicate 32 4) (replicate 32 4))
unfolding create_active dh_ratchet_active dh_key_pair pair_from
first_delivery_example =
    first_delivery toy toy_laws root_key (9 ∷ []) (replicate 32 4) (replicate 32 4) text sample
      sample sample (create (9 ∷ []) active_dhr (replicate 32 4)) refl refl refl
      (sample-IsFresh (replicate 32 4)) refl (sample-IsFresh _)
