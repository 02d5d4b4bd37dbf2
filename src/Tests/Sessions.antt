-- ===== src/Tests/Sessions.antt =====
-- A session that becomes active, also by an acknowledgement that cannot be decrypted.
use go_ratchet.Prelude.{Result, err, Error, ◌≡◌, refl, true, [], ◌∷◌, Bytes, ok, replicate}
use go_ratchet.DoubleRatchet.Ratchet.{create_passive, decrypt_message}
use go_ratchet.X3dh.Convert.{public_part}
use go_ratchet.X3dh.{receive_initial_message}
use go_ratchet.X3dh.Agreement.{receive-create}
use go_ratchet.DoubleRatchet.Header.{parse_header}
use go_ratchet.Xochimilco.Session.Guards.{forged_ack}
use go_ratchet.Xochimilco.Message.{AckMessage, OfferMessage, offer, sess_offer, marshal_message}
use go_ratchet.Xochimilco.Session.{Session, receive_ack, OfferSamples, active}
use go_ratchet.Tests.Toy.{toy_laws, toy}
use go_ratchet.Tests.Ratchets.{sample}
use go_ratchet.Tests.Agreements.{
  ours, theirs, prekey, initial, our-IsIdentity, their-IsIdentity, made,
}
use go_ratchet.Tests.Handshakes.{bob, samples}

abbrev an_offer : OfferMessage
an_offer = record {
  id_key = public_part theirs;
  sp_key = prekey.spk_pub;
  sp_sig = prekey.spk_sig;
  uuid = replicate 16 1;
  nick = 77 ∷ [];
}

abbrev a_text : Bytes
a_text = marshal_message sess_offer (offer an_offer)

-- The random bytes for the answer fail, when the ratchet is already set.
abbrev unfilled : OfferSamples
unfilled = record samples { filling = record sample { failed = true } }

-- An acknowledgement with the right keys and no ciphertext.
abbrev offering : Session
offering = record bob {
  identity_key = theirs;
  spk_pub = prekey.spk_pub;
  spk_priv = prekey.spk_priv;
}

abbrev garbage : AckMessage
garbage = record {
  id_key = public_part ours;
  e_key = initial.ek_pub;
  uuid = replicate 16 1;
  cipher = 5 ∷ [];
}

abbrev genuine : AckMessage
genuine = record garbage { cipher = replicate 100 5 }

abbrev agreed : Result (Bytes × Bytes)
agreed = ok (initial.sess_key, initial.associated_data)

agreement :
    receive_initial_message toy theirs (public_part ours) prekey.spk_priv initial.ek_pub ≡ agreed
agreement =
    receive-create toy toy_laws ours theirs prekey sample initial our-IsIdentity their-IsIdentity
      refl made

forged_ack_example :
    let (r, after) = receive_ack toy garbage sample offering in
    (r ≡ err Error.ciphertext_short)
    × (active after ≡ true)
    × (after.spk_priv ≡ [])
    × (receive_ack toy genuine sample after ≡ (err Error.already_active, after))
unfolding decrypt_message parse_header create_passive
forged_ack_example =
    forged_ack toy garbage genuine sample sample offering initial.sess_key initial.associated_data
      Error.ciphertext_short
      (create_passive initial.sess_key initial.associated_data prekey.spk_pub prekey.spk_priv) refl
      refl agreement refl
