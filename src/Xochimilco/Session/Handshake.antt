-- ===== src/Xochimilco/Session/Handshake.antt =====
-- The handshake of two sessions (xochimilco/session.go): an offer, its answer, and the receipt of
-- the answer.
use go_ratchet.Prelude.{
  ◌≡◌, refl, ap, ◌∙◌, true, false, some, [], ◌++◌, ◌-◌, ◌%◌, ok, Bytes, length, take, fit, fit_self,
  replicate, take-append,
}
use mathlib.Core.List.{append_assoc}
use go_ratchet.Crypto.{Crypto, CryptoLaws, Sample}
use go_ratchet.DoubleRatchet.DhRatchet.Agreement.{IsFresh}
use go_ratchet.DoubleRatchet.Ratchet.{
  DoubleRatchet, create_active, create_passive, encrypt_message, decrypt_message,
}
use go_ratchet.DoubleRatchet.Ratchet.Conversing.{Conversing}
use go_ratchet.DoubleRatchet.Ratchet.Start.{first_delivery}
use go_ratchet.X3dh.Convert.{public_part}
use go_ratchet.X3dh.{Spk, Initial, create_new_spk, create_initial_message, receive_initial_message}
use go_ratchet.X3dh.Agreement.{IsIdentity, length-sess_key, create_new_spk-pair, receive-create}
use go_ratchet.Xochimilco.Message.{OfferMessage, AckMessage, ack, sess_ack, marshal_message}
use go_ratchet.Xochimilco.Session.{
  Session, OfferSamples, active, first_16, set_ratchet, on_ratchet, initial_payload, create_offer,
  receive_offer, receive_ack,
}

-- The offer that a session makes with a signed prekey, and the session afterwards.
abbrev pub offer_of : Session → Spk → OfferMessage
offer_of a spk = record {
  id_key = public_part a.identity_key;
  sp_key = spk.spk_pub;
  sp_sig = spk.spk_sig;
  uuid = a.local_uuid;
  nick = a.me;
}

abbrev pub offering : Session → Spk → Session
offering a spk = record a { spk_pub = spk.spk_pub; spk_priv = spk.spk_priv }

-- The first text that is encrypted.
abbrev pub first_text : Session → OfferSamples → Bytes
first_text b o = fit 16 b.local_uuid ++ fit 7 o.filling.buffer

abbrev pub answer_of : Session → OfferMessage → Initial → Bytes → AckMessage
answer_of b m i ct = record {
  id_key = public_part b.identity_key;
  e_key = i.ek_pub;
  uuid = m.uuid;
  cipher = ct;
}

take_first :
    (uuid rest more : Bytes) → length uuid ≡ 16 → take 16 ((fit 16 uuid ++ rest) ++ more) ≡ uuid
take_first uuid rest more h =
    rw (fit_self 16 uuid h, append_assoc uuid rest more, take-append 16 uuid (rest ++ more) h)

first_16_uuid :
    (b : Session) (o : OfferSamples)
    → length b.local_uuid ≡ 16
    → first_16 (first_text b o) ≡ b.local_uuid
first_16_uuid b o h =
    let rest : Bytes = fit 7 o.filling.buffer in
    let n = 16 - length (first_text b o) % 16 in take_first b.local_uuid rest (replicate n n) h

module _ (c : Crypto) where
  create_offer_lem :
      (s : Sample) (a : Session) (spk : Spk)
      → create_new_spk c a.identity_key s ≡ ok spk
      → create_offer c s a ≡ (ok (offer_of a spk), offering a spk)
  unfolding create_offer
  create_offer_lem s a spk h = rw h

  receive_offer_lem :
      (m : OfferMessage) (o : OfferSamples) (b : Session) (i : Initial) (dr dr' : DoubleRatchet)
      (ct : Bytes)
      → b.verify_peer m.id_key ≡ true
      → create_initial_message c b.identity_key m.id_key m.sp_key m.sp_sig o.ephemeral ≡ ok i
      → create_active c i.sess_key i.associated_data m.sp_key o.key_pair ≡ ok dr
      → o.filling.failed ≡ false
      → encrypt_message c o.unused (first_text b o) dr ≡ (ok ct, dr')
      → receive_offer c m o b ≡ (
        ok (marshal_message sess_ack (ack (answer_of b m i ct))),
        record b { remote_uuid = m.uuid; double_ratchet = some dr'; identity_key = [] },
      )
  unfolding receive_offer set_ratchet on_ratchet initial_payload
  receive_offer_lem m o b i dr dr' ct v made active filled sent =
      rw v (rw made (rw active (rw filled (rw sent))))

  receive_ack_lem :
      (n : AckMessage) (s : Sample) (a : Session) (key ad plain : Bytes) (dr : DoubleRatchet)
      → active a ≡ false
      → a.verify_peer n.id_key ≡ true
      → receive_initial_message c a.identity_key n.id_key a.spk_priv n.e_key ≡ ok (key, ad)
      → decrypt_message c s n.cipher (create_passive key ad a.spk_pub a.spk_priv) ≡ (ok plain, dr)
      → receive_ack c n s a ≡ (
        ok tt,
        record a {
          double_ratchet = some dr;
          spk_pub = [];
          spk_priv = [];
          remote_uuid = first_16 plain;
          identity_key = [];
        },
      )
  unfolding receive_ack on_ratchet
  receive_ack_lem n s a key ad plain dr idle v made got = rw idle (rw v (rw made (rw got)))

  -- Two sessions with ratchets that are in a conversation, in which the first has listened.
  pub record Paired (a b : Session) : Type 0 where
    pub ours : DoubleRatchet
    pub theirs : DoubleRatchet
    pub ours_set : a.double_ratchet ≡ some ours
    pub theirs_set : b.double_ratchet ≡ some theirs
    pub conversing : Conversing c ours theirs

  -- What two parties need for a handshake: each accepts the other's identity key, the first has no
  -- ratchet, the second can create the initial message and its ratchet, and the samples are fresh.
  pub record CanMeet (a b : Session) (p s : Sample) (o : OfferSamples) : Type 0 where
    pub prekey : Spk
    pub initial : Initial
    pub ratchet : DoubleRatchet
    pub a_identity : IsIdentity c a.identity_key
    pub b_identity : IsIdentity c b.identity_key
    pub idle : active a ≡ false
    pub length_uuid : length b.local_uuid ≡ 16
    pub a_accepts : a.verify_peer (public_part b.identity_key) ≡ true
    pub b_accepts : b.verify_peer (public_part a.identity_key) ≡ true
    pub length_prekey : length p.buffer ≡ 32
    pub prekey_made : create_new_spk c a.identity_key p ≡ ok prekey
    pub initial_made :
        create_initial_message c b.identity_key
          (public_part a.identity_key)
          prekey.spk_pub
          prekey.spk_sig
          o.ephemeral
        ≡ ok initial
    pub ratchet_made :
        create_active c initial.sess_key initial.associated_data prekey.spk_pub o.key_pair
        ≡ ok ratchet
    pub filled : o.filling.failed ≡ false
    pub pair_fresh : IsFresh c o.key_pair prekey.spk_pub
    pub step_fresh : IsFresh c s (encrypt_message c o.unused (first_text b o) ratchet).1.dhr.dh_pub

  -- Suppose that the first of two sessions has no ratchet and makes a signed prekey, that each
  -- accepts the other's identity key, that both identity keys convert to key pairs of X25519, that
  -- the second creates the initial message and its ratchet, that its UUID has 16 bytes, and that
  -- the samples are fresh. Then the first makes an offer, the second answers it, and the first
  -- accepts the answer. Each then knows the other's UUID and has dropped its identity key, and both
  -- have ratchets, which are in a conversation in which the first one has listened.
  pub handshake :
      CryptoLaws c
      → (a b : Session) (p s : Sample) (o : OfferSamples) → CanMeet a b p s o
      → let (offered, a1) = create_offer c p a in
        (m : OfferMessage) × (offered ≡ ok m)
        × let (answered, b') = receive_offer c m o b in
          (n : AckMessage) × (answered ≡ ok (marshal_message sess_ack (ack n)))
          × let (r, a') = receive_ack c n s a1 in
            (r ≡ ok tt)
            × (a'.remote_uuid ≡ b.local_uuid)
            × (b'.remote_uuid ≡ a.local_uuid)
            × (a'.identity_key ≡ [])
            × (b'.identity_key ≡ [])
            × Paired a' b'
  handshake laws a b p s o w =
      let i = w.initial in
      let spk = w.prekey in
      let text : Bytes = first_text b o in
      let (same, pair) = create_new_spk-pair c a.identity_key p spk w.prekey_made in
      let root_size = length-sess_key c _ _ _ _ _ i w.initial_made in
      let priv_size : length spk.spk_priv ≡ 32 = ap length same ∙ w.length_prekey in
      let agreed =
        receive-create c laws b.identity_key a.identity_key spk o.ephemeral i w.b_identity
          w.a_identity pair w.initial_made in
      let h =
        first_delivery c laws i.sess_key i.associated_data spk.spk_pub spk.spk_priv text o.key_pair
          o.unused s w.ratchet root_size priv_size pair w.pair_fresh w.ratchet_made w.step_fresh in
      let answered =
        receive_offer_lem (offer_of a spk) o b i w.ratchet h.sender h.ct w.b_accepts w.initial_made
          w.ratchet_made w.filled h.encrypted in
      let n = answer_of b (offer_of a spk) i h.ct in
      let accepted =
        receive_ack_lem n s (offering a spk) i.sess_key i.associated_data text h.recipient w.idle
          w.a_accepts agreed h.decrypted in
      rw (create_offer_lem p a spk w.prekey_made) (
        offer_of a spk,
        refl,
        rw answered (
          n,
          refl,
          rw accepted (
            refl,
            first_16_uuid b o w.length_uuid,
            refl,
            refl,
            refl,
            record {
              ours = h.recipient;
              theirs = h.sender;
              ours_set = refl;
              theirs_set = refl;
              conversing = h.conversing;
            },
          ),
        ),
      )
