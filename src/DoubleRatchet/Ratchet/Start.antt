-- ===== src/DoubleRatchet/Ratchet/Start.antt =====
-- The first message of a conversation, from the active party to the passive one.
use go_ratchet.Prelude.{
  ◌≡◌, inl, refl, sym, ap, ◌∙◌, arith, none, some, Result, ok, err, panic, Bytes, length,
}
use mathlib.Core.Path.{subst}
use go_ratchet.Crypto.{Crypto, CryptoLaws, Sample}
use go_ratchet.DoubleRatchet.DhRatchet.{DhRatchet, dh_ratchet_active, step}
use go_ratchet.DoubleRatchet.DhRatchet.Agreement.{Leads, IsFresh, initial-Leads, length-key}
use go_ratchet.DoubleRatchet.Ratchet.{
  DoubleRatchet, is_nil, create, create_active, create_passive, dh_step, when, encrypt_message,
}
use go_ratchet.DoubleRatchet.Ratchet.Delivery.{Sends, sent}
use go_ratchet.DoubleRatchet.Ratchet.Conversing.{Heard, heard_turn}

module _ (c : Crypto) where
  created_from :
      (root ad dh_pub : Bytes) (k : Sample) (a : DoubleRatchet) (r : Result DhRatchet)
      → create_active c root ad dh_pub k ≡ ok a
      → dh_ratchet_active c root dh_pub k ≡ r
      → (dhr : DhRatchet) × (r ≡ ok dhr) × (create ad dhr dh_pub ≡ a)
  unfolding create_active
  created_from root ad dh_pub k a (ok dhr) h e = (dhr, refl, ground arith)
  created_from root ad dh_pub k a (err x) h e = absurd (ground arith)
  created_from root ad dh_pub k a panic h e = absurd (ground arith)

  -- The active party before its first message, after the step that the message begins with.
  abbrev pub stepped : Sample → DoubleRatchet → DoubleRatchet
  stepped s a =
      let o = step c a.dhr a.peer_dh_pub s in
      record a {
        prev_send_no = a.send_no;
        send_no = 0;
        recv_no = 0;
        chain_key_send = o.send_key;
        chain_key_recv = o.recv_key;
        dhr = o.ratchet;
      }

  encrypt_message_first :
      (s : Sample) (plain key : Bytes) (a : DoubleRatchet)
      → a.chain_key_send ≡ none
      → (step c a.dhr a.peer_dh_pub s).outcome ≡ ok tt
      → (step c a.dhr a.peer_dh_pub s).send_key ≡ some key
      → encrypt_message c s plain a ≡ encrypt_message c s plain (stepped s a)
  unfolding encrypt_message when dh_step
  encrypt_message_first s plain key a n d k = rw (ap is_nil n, d, ap is_nil k)

  module _ (laws : CryptoLaws c) where
    first-Sends :
        (a : DoubleRatchet) (key : Bytes) (follow : DhRatchet)
        → Leads c a.dhr key follow
        → a.chain_key_send ≡ some key
        → a.send_no ≡ 0
        → a.prev_send_no ≡ 0
        → Sends c a key
    first-Sends a key follow l k n p = record {
      length_chain = length-key c a.dhr follow key l;
      sending = k ∙ rw n;
      sendable = record {
        length_key = laws.length-x25519 _ _ _ l.lead_pair;
        prev_no-lt = omega (arith, p);
        msg_no-lt = omega (arith, n);
      };
    }

    first_heard :
        (root ad dh_pub dh_priv plain : Bytes) (k s t : Sample) (dhr : DhRatchet)
        → length root ≡ 32
        → length dh_priv ≡ 32
        → c.x25519 dh_priv c.basepoint ≡ some dh_pub
        → IsFresh c k dh_pub
        → dh_ratchet_active c root dh_pub k ≡ ok dhr
        → IsFresh c t (encrypt_message c s plain (create ad dhr dh_pub)).1.dhr.dh_pub
        → Heard c plain s t (create ad dhr dh_pub) (create_passive root ad dh_pub dh_priv)
    unfolding create_passive
    first_heard root ad dh_pub dh_priv plain k s t dhr lr lp pair f active g =
        let (key, fine, recv, send, ahead) =
          initial-Leads c laws root dh_pub dh_priv dh_pub dhr k s lr lp pair f active in
        let a = create ad dhr dh_pub in
        let same = encrypt_message_first s plain key a refl fine send in
        let sends = first-Sends (stepped s a) key _ ahead send refl refl in
        let (_, made, _, _) = sent c laws (stepped s a) key plain s sends in
        let known = ap (λ p. p.1.dhr.dh_pub) (same ∙ made) in
        let size : length (stepped s a).dhr.dh_pub ≡ 32 =
          laws.length-x25519 _ _ _ ahead.lead_pair in
        let h =
          heard_turn c laws (stepped s a) (create_passive root ad dh_pub dh_priv) key plain s t
            sends ahead (inl recv) (inl refl) refl (λ e. absurd (omega (arith, size, ap length e)))
            refl (omega arith) refl (subst (IsFresh c t) known g) in
        record {
          ct = h.ct;
          sender = h.sender;
          recipient = h.recipient;
          encrypted = same ∙ h.encrypted;
          decrypted = h.decrypted;
          conversing = h.conversing;
        }

    -- If the active party was created with the public key of the passive party's 32-byte private
    -- key, from a sample that is fresh for it, and both with the same 32-byte root key and the same
    -- associated data, then the active party's first message is encrypted, and the passive party,
    -- with a sample that is fresh for the public key that the active party then has, receives it
    -- with its text. Afterwards the two are in a conversation, in which the passive party is the
    -- one that has listened.
    pub first_delivery :
        (root ad dh_pub dh_priv plain : Bytes) (k s t : Sample) (a : DoubleRatchet)
        → length root ≡ 32
        → length dh_priv ≡ 32
        → c.x25519 dh_priv c.basepoint ≡ some dh_pub
        → IsFresh c k dh_pub
        → create_active c root ad dh_pub k ≡ ok a
        → IsFresh c t (encrypt_message c s plain a).1.dhr.dh_pub
        → Heard c plain s t a (create_passive root ad dh_pub dh_priv)
    first_delivery root ad dh_pub dh_priv plain k s t a lr lp pair f made g =
        let (dhr, active, same) = created_from root ad dh_pub k a _ made refl in
        let g' =
          subst (λ (x : DoubleRatchet). IsFresh c t (encrypt_message c s plain x).1.dhr.dh_pub)
            (sym same) g in
        subst (λ (x : DoubleRatchet). Heard c plain s t x (create_passive root ad dh_pub dh_priv))
          same (first_heard root ad dh_pub dh_priv plain k s t dhr lr lp pair f active g')
