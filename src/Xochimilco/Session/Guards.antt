-- ===== src/Xochimilco/Session/Guards.antt =====
-- What the methods of a session do before the session is active and after it is closed
-- (xochimilco/session.go).
use go_ratchet.Prelude.{
  [], ◌≡◌, refl, true, false, Error, ok, err, Bytes, ℕ, Bool, Bool-cases, inl, inr,
}
use go_ratchet.Crypto.{Crypto, Sample}
use go_ratchet.Xochimilco.Message.{
  OfferMessage, AckMessage, DataMessage, Msg, MessageType, offer, ack, payload, close, sealed,
  unmarshal_message,
}
use go_ratchet.DoubleRatchet.Ratchet.{DoubleRatchet, create_passive, decrypt_message}
use go_ratchet.X3dh.{receive_initial_message}
use go_ratchet.Xochimilco.Session.{
  on_ratchet, Session, OfferSamples, active, receive_offer, receive_ack, receive_data, send,
  close_session,
}

-- A message that carries an identity key which the program accepts.
abbrev pub CarriesAccepted : (Bytes → Bool) → Msg → Type 0
CarriesAccepted verify (offer m) = verify m.id_key ≡ true
CarriesAccepted verify (ack m) = verify m.id_key ≡ true
CarriesAccepted verify (payload m) = ⊥
CarriesAccepted verify (close m) = ⊥
CarriesAccepted verify (sealed b) = ⊥

-- A text that is read as such a message.
abbrev pub ReadsAccepted : (Bytes → Bool) → Bytes → Type 0
ReadsAccepted verify text =
    (t : MessageType) × (m : Msg) × (unmarshal_message text ≡ ok (t, m)) × CarriesAccepted verify m

module _ (c : Crypto) where
  -- An acknowledgement on a session that is active is refused, and the session stays as it is.
  pub ack_while_active :
      (m : AckMessage) (s : Sample) (sess : Session)
      → active sess ≡ true
      → receive_ack c m s sess ≡ (err Error.already_active, sess)
  unfolding receive_ack
  ack_while_active m s sess h = rw (h)

  pub receive_offer-accepted :
      (m : OfferMessage) (o : OfferSamples) (sess : Session)
      → active sess ≡ false
      → active (receive_offer c m o sess).1 ≡ true
      → sess.verify_peer m.id_key ≡ true
  unfolding receive_offer
  receive_offer-accepted m o sess idle now = elim (Bool-cases (sess.verify_peer m.id_key)) [
    | inl accepted ↦ accepted
    | inr refused ↦ absurd (cc (idle, rw refused at now))
  ]

  pub receive_ack-accepted :
      (m : AckMessage) (s : Sample) (sess : Session)
      → active sess ≡ false
      → active (receive_ack c m s sess).1 ≡ true
      → sess.verify_peer m.id_key ≡ true
  unfolding receive_ack
  receive_ack-accepted m s sess idle now = elim (Bool-cases (sess.verify_peer m.id_key)) [
    | inl accepted ↦ accepted
    | inr refused ↦ absurd (cc (idle, rw (idle, refused) at now))
  ]

  pub receive_data-idle :
      (m : DataMessage) (s : Sample) (sess : Session)
      → active sess ≡ false
      → receive_data c m s sess ≡ (err Error.not_active, sess)
  unfolding receive_data
  receive_data-idle m s sess idle = rw idle

  -- Suppose that a session is not active, and is given an acknowledgement with an identity key that
  -- it accepts and from which the key agreement gives some key, but whose ciphertext cannot be
  -- decrypted with it. Then it returns the error, and yet it is active and has dropped its signed
  -- prekey: every acknowledgement after it is refused, the genuine one too, and changes nothing.
  pub forged_ack :
      (m n : AckMessage) (s t : Sample) (sess : Session) (key ad : Bytes) (e : Error)
      (dr : DoubleRatchet)
      → active sess ≡ false
      → sess.verify_peer m.id_key ≡ true
      → receive_initial_message c sess.identity_key m.id_key sess.spk_priv m.e_key ≡ ok (key, ad)
      → decrypt_message c s m.cipher (create_passive key ad sess.spk_pub sess.spk_priv)
        ≡ (err e, dr)
      → let (r, after) = receive_ack c m s sess in
        (r ≡ err e)
        × (active after ≡ true)
        × (after.spk_priv ≡ [])
        × (receive_ack c n t after ≡ (err Error.already_active, after))
  unfolding receive_ack on_ratchet
  forged_ack m n s t sess key ad e dr idle accepted agreed fails =
      rw idle (rw accepted (rw agreed (rw fails (refl, refl, refl, refl))))

  -- After `Close` a session is no longer active, and both sending and receiving data give an error
  -- and leave the session as it is.
  pub closed :
      (sess : Session) (now : ℕ) (text : Bytes) (m : DataMessage) (s : Sample)
      → let after = (close_session c sess).1 in
        (send c now text s after ≡ (err Error.not_active, after))
        × (receive_data c m s after ≡ (err Error.not_active, after))
  unfolding close_session receive_data send
  closed sess now text m s = (refl, refl)
