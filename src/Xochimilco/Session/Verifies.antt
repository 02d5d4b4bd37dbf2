-- ===== src/Xochimilco/Session/Verifies.antt =====
-- The callback that accepts a peer's key stays the same (xochimilco/session.go).
use go_ratchet.Prelude.{◌≡◌, Bool, Option, none, some, Result, ok, err, panic, Bytes, ℕ}
use go_ratchet.Prelude.Methods.{modify}
use go_ratchet.Prelude.Keeps.{Keeps, Keeps-modify, keeps_rules}
use go_ratchet.Crypto.{Crypto, Sample}
use go_ratchet.DoubleRatchet.Ratchet.{DoubleRatchet, Method}
use go_ratchet.Xochimilco.Message.{
  MessageType, sess_offer, Msg, offer, ack, payload, close, sealed, OfferMessage, AckMessage,
  DataMessage,
}
use go_ratchet.Xochimilco.Session.{
  Session, Call, OfferSamples, on_ratchet, set_ratchet, create_offer, make_offer, make_offer_sealed,
  receive_offer, acknowledge_msg, acknowledge, receive_ack, receive_data, receive_msg, receive,
  send, close_session,
}

-- No call changes `VerifyPeer`.
module _ (c : Crypto) (v : Bytes → Bool) where
  abbrev Verifies : Session → Type 0
  Verifies sess = sess.verify_peer ≡ v

  abbrev KeepsVerifies : {A : Type 0} → Call A → Type 0
  KeepsVerifies m = Keeps Verifies m

  on_ratchet-Verifies :
      {A : Type 0} (dr : Option DoubleRatchet) (m : Method A) → KeepsVerifies (on_ratchet dr m)
  unfolding on_ratchet
  on_ratchet-Verifies none m = record { after = λ s h. h }
  on_ratchet-Verifies (some dr) m = record { after = λ s h. h }

  set_ratchet-Verifies : (r : Result DoubleRatchet) → KeepsVerifies (set_ratchet r)
  unfolding set_ratchet
  set_ratchet-Verifies (ok dr) = record { after = λ s h. h }
  set_ratchet-Verifies (err e) = record { after = λ s h. h }
  set_ratchet-Verifies panic = record { after = λ s h. h }

  set_spk-Verifies :
      (p q : Bytes) → KeepsVerifies (modify λ x. record x { spk_pub = p; spk_priv = q })
  set_spk-Verifies p q = Keeps-modify _ λ s h. h

  set_remote-Verifies : (u : Bytes) → KeepsVerifies (modify λ x. record x { remote_uuid = u })
  set_remote-Verifies u = Keeps-modify _ λ s h. h

  set_key-Verifies : (k : Bytes) → KeepsVerifies (modify λ x. record x { identity_key = k })
  set_key-Verifies k = Keeps-modify _ λ s h. h

  set_both-Verifies :
      (u k : Bytes) → KeepsVerifies (modify λ x. record x { remote_uuid = u; identity_key = k })
  set_both-Verifies u k = Keeps-modify _ λ s h. h

  set_all-Verifies :
      (dr : Session → Option DoubleRatchet) (p q : Bytes)
      → KeepsVerifies (modify λ x. record x { double_ratchet = dr x; spk_pub = p; spk_priv = q })
  set_all-Verifies dr p q = Keeps-modify _ λ s h. h

  ruleset session_rules = (
    keeps_rules, on_ratchet-Verifies, set_ratchet-Verifies, set_spk-Verifies, set_remote-Verifies,
    set_key-Verifies, set_both-Verifies, set_all-Verifies,
  )

  create_offer-Verifies : (s : Sample) → KeepsVerifies (create_offer c s)
  unfolding create_offer
  create_offer-Verifies s = search session_rules depth 20

  pub make_offer-Verifies : (s : Sample) → KeepsVerifies (make_offer c s)
  unfolding make_offer
  make_offer-Verifies s = search (session_rules, create_offer-Verifies) depth 20

  pub make_offer_sealed-Verifies :
      (key : Bytes) (s t : Sample) → KeepsVerifies (make_offer_sealed c key s t)
  unfolding make_offer_sealed
  make_offer_sealed-Verifies key s t = search (session_rules, create_offer-Verifies) depth 20

  receive_offer-Verifies :
      (m : OfferMessage) (o : OfferSamples) → KeepsVerifies (receive_offer c m o)
  unfolding receive_offer
  receive_offer-Verifies m o = search session_rules depth 30

  receive_ack-Verifies : (m : AckMessage) (s : Sample) → KeepsVerifies (receive_ack c m s)
  unfolding receive_ack
  receive_ack-Verifies m s = search session_rules depth 30

  receive_data-Verifies : (m : DataMessage) (s : Sample) → KeepsVerifies (receive_data c m s)
  unfolding receive_data
  receive_data-Verifies m s = search session_rules depth 20

  pub send-Verifies : (now : ℕ) (text : Bytes) (s : Sample) → KeepsVerifies (send c now text s)
  unfolding send
  send-Verifies now text s = search session_rules depth 20

  pub close-Verifies : KeepsVerifies (close_session c)
  unfolding close_session
  close-Verifies = record { after = λ s h. h }

  acknowledge_msg-Verifies :
      (m : MessageType × Msg) (o : OfferSamples) → KeepsVerifies (acknowledge_msg c m o)
  unfolding acknowledge_msg
  acknowledge_msg-Verifies (sess_offer, offer m) o = receive_offer-Verifies m o
  acknowledge_msg-Verifies (t, m) o = search session_rules

  receive_msg-Verifies :
      (m : Msg) (o : OfferSamples) (t : Sample) → KeepsVerifies (receive_msg c m o t)
  unfolding receive_msg
  receive_msg-Verifies (offer m) o t = search (session_rules, receive_offer-Verifies) depth 20
  receive_msg-Verifies (ack m) o t = search (session_rules, receive_ack-Verifies) depth 20
  receive_msg-Verifies (payload m) o t = search (session_rules, receive_data-Verifies) depth 20
  receive_msg-Verifies (close m) o t = search session_rules
  receive_msg-Verifies (sealed b) o t = search session_rules

  pub acknowledge-Verifies :
      (text : Bytes) (o : OfferSamples) → KeepsVerifies (acknowledge c text o)
  unfolding acknowledge
  acknowledge-Verifies text o = search (session_rules, acknowledge_msg-Verifies) depth 20

  pub receive-Verifies :
      (text : Bytes) (o : OfferSamples) (t : Sample) → KeepsVerifies (receive c text o t)
  unfolding receive
  receive-Verifies text o t = search (session_rules, receive_msg-Verifies) depth 20
