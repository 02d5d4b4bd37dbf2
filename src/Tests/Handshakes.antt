-- ===== src/Tests/Handshakes.antt =====
-- A handshake of two sessions.
use go_ratchet.Prelude.{◌≡◌, refl, true, false, none, [], ◌∷◌, Bytes, ok, replicate}
use go_ratchet.Crypto.{Sample}
use go_ratchet.DoubleRatchet.Primitives.{dh_key_pair, pair_from}
use go_ratchet.DoubleRatchet.DhRatchet.{dh_ratchet_active}
use go_ratchet.DoubleRatchet.Ratchet.{DoubleRatchet, create, create_active}
use go_ratchet.X3dh.{create_new_spk, exchange, sign}
use go_ratchet.Xochimilco.Message.{OfferMessage, AckMessage, ack, sess_ack, marshal_message}
use go_ratchet.Xochimilco.Session.{Session, OfferSamples, create_offer, receive_offer, receive_ack}
use go_ratchet.Xochimilco.Session.Handshake.{Paired, CanMeet, handshake}
use go_ratchet.Tests.Toy.{toy, toy_laws}
use go_ratchet.Tests.Ratchets.{sample, sample-IsFresh}
use go_ratchet.Tests.Agreements.{
  ours, theirs, prekey, initial, our-IsIdentity, their-IsIdentity, made,
}

abbrev session : Bytes → Bytes → Session
session key uuid = record {
  local_uuid = uuid;
  remote_uuid = [];
  me = 77 ∷ [];
  identity_key = key;
  verify_peer = λ k. true;
  spk_pub = [];
  spk_priv = [];
  double_ratchet = none;
}

-- The session that makes the offer, and the one that answers it.
abbrev alice : Session
alice = session theirs (replicate 16 1)

abbrev pub bob : Session
bob = session ours (replicate 16 2)

abbrev prekey_sample : Sample
prekey_sample = record { buffer = replicate 32 4; failed = false }

abbrev pub samples : OfferSamples
samples = record { ephemeral = sample; key_pair = sample; unused = sample; filling = sample }

abbrev ratchet : DoubleRatchet
ratchet =
    create initial.associated_data
      (record {
        root_key = initial.sess_key;
        dh_pub = replicate 32 6;
        dh_priv = replicate 32 6;
        peer_dh_pub = replicate 32 4;
        is_active = true;
        is_initialized = false;
      })
      (replicate 32 4)

alice-CanMeet : CanMeet toy alice bob prekey_sample sample samples
unfolding create_new_spk exchange sign create_active dh_ratchet_active dh_key_pair pair_from
alice-CanMeet = record {
  prekey = prekey;
  initial = initial;
  ratchet = ratchet;
  a_identity = their-IsIdentity;
  b_identity = our-IsIdentity;
  idle = refl;
  length_uuid = refl;
  a_accepts = refl;
  b_accepts = refl;
  length_prekey = refl;
  prekey_made = refl;
  initial_made = made;
  ratchet_made = refl;
  filled = refl;
  pair_fresh = sample-IsFresh _;
  step_fresh = sample-IsFresh _;
}

handshake_example :
    let (offered, a1) = create_offer toy prekey_sample alice in
    (m : OfferMessage) × (offered ≡ ok m)
    × let (answered, b') = receive_offer toy m samples bob in
      (n : AckMessage) × (answered ≡ ok (marshal_message sess_ack (ack n)))
      × let (r, a') = receive_ack toy n sample a1 in
        (r ≡ ok tt)
        × (a'.remote_uuid ≡ bob.local_uuid)
        × (b'.remote_uuid ≡ alice.local_uuid)
        × (a'.identity_key ≡ [])
        × (b'.identity_key ≡ [])
        × Paired toy a' b'
handshake_example = handshake toy toy_laws alice bob prekey_sample sample samples alice-CanMeet
