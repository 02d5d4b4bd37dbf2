-- ===== src/Xochimilco/Session.antt =====
-- xochimilco/session.go: the session between two parties. Its methods are actions; what they read
-- from crypto/rand and the clock are arguments.
pub mod Guards
pub mod Verifies
pub mod Accepted
pub mod Handshake
pub mod Exchange
pub mod Persist
use go_ratchet.Prelude.{
  ℕ, ◌-◌, ◌%◌, Bool, true, false, not, Option, none, some, [], ◌∷◌, ◌++◌, Error, Result, ok, err,
  panic, Bytes, length, take, fit, replicate,
}
use go_ratchet.Prelude.Methods.{Action, ◌>>=◌, ◌>>◌, lift, get, modify}
use go_ratchet.Prelude.Errors.{fail_if}
use go_ratchet.Crypto.{Crypto, Sample}
use go_ratchet.DoubleRatchet.Ratchet.{
  DoubleRatchet, Method, create_active, create_passive, encrypt_message, decrypt_message,
}
use go_ratchet.X3dh.Convert.{public_part}
use go_ratchet.X3dh.{Spk, Initial, create_new_spk, create_initial_message, receive_initial_message}
use go_ratchet.Xochimilco.Message.{
  MessageType, sess_offer, sess_ack, sess_data, sess_close, sess_sealed, OfferMessage, AckMessage,
  DataMessage, CloseMessage, Msg, offer, ack, payload, close, sealed, marshal_message,
  unmarshal_message, seal,
}

-- `VerifyPeer` is the callback of the program that uses the package. A nil identity key or signed
-- prekey is `[]`.
pub record Session : Type 0 where
  pub local_uuid : Bytes
  pub remote_uuid : Bytes
  pub me : Bytes
  pub identity_key : Bytes
  pub verify_peer : Bytes → Bool
  pub spk_pub : Bytes
  pub spk_priv : Bytes
  pub double_ratchet : Option DoubleRatchet

abbrev pub Call : Type 0 → Type 0
Call A = Action Session A

-- `Active`
abbrev pub active : Session → Bool
active sess = elim sess.double_ratchet [ none ↦ false | some dr ↦ true ]

-- What `Receive` returns beside an error.
pub record Received : Type 0 where
  pub is_established : Bool
  pub is_closed : Bool
  pub plaintext : Bytes

-- The samples that answering an offer takes: for the ephemeral key, the ratchet's first key pair,
-- a step that the first encryption does not use it for, and the filling of the first message.
pub record OfferSamples : Type 0 where
  pub ephemeral : Sample
  pub key_pair : Sample
  pub unused : Sample
  pub filling : Sample

-- A method of the ratchet, called through the session's pointer.
unfoldable pub on_ratchet : {A : Type 0} → Option DoubleRatchet → Method A → Call A
on_ratchet none m sess = (panic, sess)
on_ratchet (some dr) m sess = let (r, dr') = m dr in (r, record sess { double_ratchet = some dr' })

-- `sess.doubleRatchet, err = CreateActive(…)`, which sets nil with an error
unfoldable pub set_ratchet : Result DoubleRatchet → Call (Unit {0})
set_ratchet (ok dr) sess = (ok tt, record sess { double_ratchet = some dr })
set_ratchet (err e) sess = (err e, record sess { double_ratchet = none })
set_ratchet panic sess = (panic, sess)

-- `plaintext[:16]`: the slice reaches into the padding behind a text that is shorter, since both
-- lie in one array of whole blocks.
abbrev pub first_16 : Bytes → Bytes
first_16 plaintext = let n = 16 - length plaintext % 16 in take 16 (plaintext ++ replicate n n)

module _ (c : Crypto) where
  -- `encTime`: the session's ULID with the time of the clock.
  abbrev pub enc_time : ℕ → Bytes → Bytes
  enc_time now src = c.ulid_set_time now (fit 16 src)

  unfoldable pub create_offer : Sample → Call OfferMessage
  create_offer s = do
    sess ← get
    spk ← lift (create_new_spk c sess.identity_key s)
    modify (λ x. record x { spk_pub = spk.spk_pub; spk_priv = spk.spk_priv })
    lift (
        ok (record {
          id_key = public_part sess.identity_key;
          sp_key = spk.spk_pub;
          sp_sig = spk.spk_sig;
          uuid = sess.local_uuid;
          nick = sess.me;
        }))

  unfoldable pub make_offer : Sample → Call Bytes
  make_offer s = do m ← create_offer s; lift (ok (marshal_message sess_offer (offer m)))

  unfoldable pub make_offer_sealed : Bytes → Sample → Sample → Call Bytes
  make_offer_sealed key s t = do
    m ← create_offer s
    box ← lift (seal c (offer m) key t)
    lift (ok (marshal_message sess_sealed (sealed box)))

  -- The first message that the passive party encrypts: its session and seven random bytes.
  unfoldable pub initial_payload : Bytes → Sample → Result Bytes
  initial_payload local_uuid s = elim s.failed [
    | true ↦ err Error.rand_failed
    | false ↦ ok (fit 16 local_uuid ++ fit 7 s.buffer)
  ]

  unfoldable pub receive_offer : OfferMessage → OfferSamples → Call Bytes
  receive_offer m s = do
    sess ← get
    lift (fail_if (not (sess.verify_peer m.id_key)) Error.peer_refused)
    i ← lift (create_initial_message c sess.identity_key m.id_key m.sp_key m.sp_sig s.ephemeral)
    modify (λ x. record x { remote_uuid = m.uuid })
    set_ratchet (create_active c i.sess_key i.associated_data m.sp_key s.key_pair)
    text ← lift (initial_payload sess.local_uuid s.filling)
    started ← get
    cipher ← on_ratchet started.double_ratchet (encrypt_message c s.unused text)
    let answer : AckMessage = record {
      id_key = public_part sess.identity_key;
      e_key = i.ek_pub;
      uuid = m.uuid;
      cipher = cipher;
    }
    modify (λ x. record x { identity_key = [] })
    lift (ok (marshal_message sess_ack (ack answer)))

  -- What `Acknowledge` does with a message by its type.
  unfoldable pub acknowledge_msg : MessageType × Msg → OfferSamples → Call Bytes
  acknowledge_msg (sess_offer, offer m) s = receive_offer m s
  acknowledge_msg (t, m) s = lift (err Error.unexpected_type)

  unfoldable pub acknowledge : Bytes → OfferSamples → Call Bytes
  acknowledge text s = do m ← lift (unmarshal_message text); acknowledge_msg m s

  unfoldable pub receive_ack : AckMessage → Sample → Call (Unit {0})
  receive_ack m s = do
    sess ← get
    lift (fail_if (active sess) Error.already_active)
    lift (fail_if (not (sess.verify_peer m.id_key)) Error.peer_refused)
    (key, associated) ←
        lift (receive_initial_message c sess.identity_key m.id_key sess.spk_priv m.e_key)
    modify (λ x. record x {
      double_ratchet = some (create_passive key associated sess.spk_pub sess.spk_priv);
      spk_pub = [];
      spk_priv = [];
    })
    started ← get
    plaintext ← on_ratchet started.double_ratchet (decrypt_message c s m.cipher)
    modify (λ x. record x { remote_uuid = first_16 plaintext; identity_key = [] })

  unfoldable pub receive_data : DataMessage → Sample → Call Bytes
  receive_data m s = do
    sess ← get
    lift (fail_if (not (active sess)) Error.not_active)
    on_ratchet sess.double_ratchet (decrypt_message c s m.payload)

  unfoldable pub receive_msg : Msg → OfferSamples → Sample → Call Received
  receive_msg (offer m) s t = do
    text ← receive_offer m s
    lift (ok (record { is_established = true; is_closed = false; plaintext = text }))
  receive_msg (ack m) s t = do
    receive_ack m t
    lift (ok (record { is_established = true; is_closed = false; plaintext = [] }))
  receive_msg (payload m) s t = do
    text ← receive_data m t
    lift (ok (record { is_established = false; is_closed = false; plaintext = text }))
  receive_msg (close m) s t =
      lift (ok (record { is_established = false; is_closed = true; plaintext = [] }))
  receive_msg (sealed b) s t = lift (err Error.unexpected_type)

  unfoldable pub receive : Bytes → OfferSamples → Sample → Call Received
  receive text s t = do (_, m) ← lift (unmarshal_message text); receive_msg m s t

  unfoldable pub send : ℕ → Bytes → Sample → Call Bytes
  send now plaintext s = do
    sess ← get
    lift (fail_if (not (active sess)) Error.not_active)
    cipher ← on_ratchet sess.double_ratchet (encrypt_message c s plaintext)
    lift (
        ok (
          marshal_message sess_data
            (payload (record { uuid = enc_time now sess.remote_uuid; payload = cipher }))))

  unfoldable pub close_session : Call Bytes
  close_session = do
    modify (λ x. record x { spk_pub = []; spk_priv = []; double_ratchet = none })
    sess ← get
    lift (
        ok (
          marshal_message sess_close
            (close (record { uuid = sess.remote_uuid; payload = 255 ∷ [] }))))
