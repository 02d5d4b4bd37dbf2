-- ===== src/DoubleRatchet/Ratchet/Delivery.antt =====
-- Messages of one sending chain arrive at the party that holds the receiving chain.
use go_ratchet.Prelude.{
  suc, ◌+◌, ◌-◌, ◌≤◌, ◌<◌, ◌≡◌, refl, ◌∙◌, arith, some, [], ◌∷◌, ◌++◌, ok, Bytes, length,
}
use go_ratchet.Crypto.{Crypto, CryptoLaws, Sample}
use go_ratchet.DoubleRatchet.Header.Laws.{IsSendable, encoded}
use go_ratchet.DoubleRatchet.KeyBuffer.{find, max_skip_elements}
use go_ratchet.DoubleRatchet.Primitives.{decrypt}
use go_ratchet.DoubleRatchet.Primitives.RoundTrip.{decrypt-encrypt}
use go_ratchet.DoubleRatchet.Ratchet.Chain.{chain_key, nth_message_key, cache, find-cache}
use go_ratchet.DoubleRatchet.Ratchet.Messages.{
  next_header, encrypt_message_lem, message_key_for_ahead, message_key_for_late,
  decrypt_message_lem,
}
use go_ratchet.DoubleRatchet.Ratchet.{DoubleRatchet, encrypt_message, decrypt_message}

module _ (c : Crypto) where
  -- The sender is in the middle of a chain that begins with a key, and can send its next message.
  pub record Sends (a : DoubleRatchet) (ck : Bytes) : Type 0 where
    pub length_chain : length ck ≡ 32
    pub sending : a.chain_key_send ≡ some (chain_key c ck a.send_no)
    pub sendable : IsSendable (next_header a)

  -- The recipient follows the sender's chain.
  pub record Follows (b a : DoubleRatchet) (ck : Bytes) : Type 0 where
    pub receiving : b.chain_key_recv ≡ some (chain_key c ck b.recv_no)
    pub peer : a.dhr.dh_pub ≡ b.peer_dh_pub
    pub associated : a.associated_data ≡ b.associated_data

  -- The sender after its next message.
  abbrev pub advanced : DoubleRatchet → Bytes → DoubleRatchet
  advanced a ck = record a {
    chain_key_send = some (chain_key c ck (suc a.send_no));
    send_no = a.send_no + 1;
  }

  module _ (laws : CryptoLaws c) where
    open laws use {length-hmac_sha256}

    -- What the sender puts on the wire.
    pub sent :
        (a : DoubleRatchet) (ck plain : Bytes) (s : Sample)
        → Sends a ck
        → (body : Bytes) × (encrypt_message c s plain a
            ≡ (ok (encoded (next_header a) ++ body), advanced a ck))
          × (decrypt c (nth_message_key c ck a.send_no) body a.associated_data ≡ ok plain)
          × (0 < length body)
    sent a ck plain s v =
        let mk = nth_message_key c ck a.send_no in
        let size = length-hmac_sha256 (chain_key c ck a.send_no) (1 ∷ []) in
        let (body, made, opened, long) = decrypt-encrypt c laws mk plain a.associated_data size in
        (
          body,
          encrypt_message_lem c laws ck plain body s a v.length_chain v.sending v.sendable made,
          opened,
          long,
        )

    -- The recipient of the next message, with the skipped keys in its buffer.
    abbrev pub caught_up : Bytes → DoubleRatchet → DoubleRatchet → DoubleRatchet
    caught_up ck a b = record b {
      chain_key_recv = some (chain_key c ck (suc a.send_no));
      recv_no = a.send_no + 1;
      msg_key_buffer = cache c ck b.peer_dh_pub b.recv_no (a.send_no - b.recv_no) b.msg_key_buffer;
    }

    pub received :
        (a b : DoubleRatchet) (ck plain body : Bytes) (t : Sample)
        → Sends a ck
        → Follows b a ck
        → b.recv_no ≤ a.send_no
        → a.send_no ≤ b.recv_no + max_skip_elements
        → decrypt c (nth_message_key c ck a.send_no) body a.associated_data ≡ ok plain
        → 0 < length body
        → decrypt_message c t (encoded (next_header a) ++ body) b ≡ (ok plain, caught_up ck a b)
    received a b ck plain body t v w lo hi opened long =
        let h = next_header a in
        let key = message_key_for_ahead c laws ck h b v.length_chain w.receiving lo hi in
        decrypt_message_lem c laws h body (nth_message_key c ck a.send_no) t b _ v.sendable long
          w.peer key
        ∙ rw (← w.associated) (rw opened)

    -- If the sender is in a chain and its number can be sent, and the recipient follows that chain
    -- and is at most 32 messages behind, then the next message is encrypted and is received with
    -- its text. Both are at the same place of the chain afterwards.
    pub delivery :
        (a b : DoubleRatchet) (ck plain : Bytes) (s t : Sample)
        → Sends a ck
        → Follows b a ck
        → b.recv_no ≤ a.send_no
        → a.send_no ≤ b.recv_no + max_skip_elements
        → let (r, a') = encrypt_message c s plain a in
          (ct : Bytes) × (r ≡ ok ct)
          × let (r', b') = decrypt_message c t ct b in
            (r' ≡ ok plain) × (b'.recv_no ≡ a'.send_no) × (b'.chain_key_recv ≡ a'.chain_key_send)
    delivery a b ck plain s t v w lo hi =
        let (body, made, opened, long) = sent a ck plain s v in
        let got = received a b ck plain body t v w lo hi opened long in
        rw made (encoded (next_header a) ++ body, refl, rw got (refl, refl, refl))

    -- A message of the current chain that arrives late is received with its text if its key is in
    -- the buffer. The recipient's state stays as it was, the key in the buffer included.
    pub late_delivery :
        (a b : DoubleRatchet) (ck plain : Bytes) (s t : Sample)
        → Sends a ck
        → a.dhr.dh_pub ≡ b.peer_dh_pub
        → a.associated_data ≡ b.associated_data
        → a.send_no < b.recv_no
        → find a.dhr.dh_pub a.send_no b.msg_key_buffer ≡ ok (nth_message_key c ck a.send_no)
        → (ct : Bytes) × ((encrypt_message c s plain a).0 ≡ ok ct)
          × (decrypt_message c t ct b ≡ (ok plain, b))
    late_delivery a b ck plain s t v peer ad lt cached =
        let (body, made, opened, long) = sent a ck plain s v in
        let h = next_header a in
        let key = message_key_for_late c laws h b lt in
        let got =
          decrypt_message_lem c laws h body (nth_message_key c ck a.send_no) t b b v.sendable long
            peer (key ∙ rw cached) in
        rw made (encoded h ++ body, refl, got ∙ rw (← ad) (rw opened))

    -- Two messages of a chain that the recipient follows and that arrive in the wrong order are
    -- both received with their texts, and the second to arrive leaves the recipient's state as it
    -- was: `a` is the sender before the earlier one and `z` the sender before the later one, which
    -- is at most 32 ahead of the recipient.
    pub out_of_order :
        (a z b : DoubleRatchet) (ck early late : Bytes) (r s t u : Sample)
        → Sends a ck
        → Sends z ck
        → Follows b a ck
        → Follows b z ck
        → b.recv_no ≤ a.send_no
        → a.send_no < z.send_no
        → z.send_no ≤ b.recv_no + max_skip_elements
        → (ct : Bytes) × (dt : Bytes) × ((encrypt_message c r early a).0 ≡ ok ct)
          × ((encrypt_message c s late z).0 ≡ ok dt)
          × let (r', b') = decrypt_message c t dt b in
            (r' ≡ ok late) × (decrypt_message c u ct b' ≡ (ok early, b'))
    out_of_order a z b ck early late r s t u v v' w w' lo lt hi =
        let (body, made, opened, long) = sent z ck late s v' in
        let got = received z b ck late body t v' w' (omega arith) hi opened long in
        let found =
          find-cache c ck b.peer_dh_pub b.recv_no (z.send_no - b.recv_no) a.send_no b.msg_key_buffer
            lo (omega arith) in
        let (ct, sent_early, got_early) =
          late_delivery a (caught_up ck z b) ck early r u v w.peer w.associated (omega arith)
            (rw w.peer found) in
        (ct, encoded (next_header z) ++ body, sent_early, rw made refl, rw got (refl, got_early))
