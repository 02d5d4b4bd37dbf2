-- ===== src/DoubleRatchet/Ratchet/Turn.antt =====
-- The first message of a new chain: the recipient takes a step of its Diffie-Hellman ratchet.
use go_ratchet.Prelude.{
  suc, ◌∙◌, ℕ, ◌+◌, ◌-◌, ◌≤◌, ◌<◌, ◌≡◌, ◌≢◌, ◌⊎◌, inl, inr, refl, ap, arith, Option, none, some,
  ◌++◌, false, ok, Bytes, length, take-append, drop-append, length-append, ne→bytes_eq, le→ltb,
  lt→leb, leb,
}
use go_ratchet.Crypto.{Crypto, CryptoLaws, Sample}
use go_ratchet.DoubleRatchet.Header.{Header, header_len}
use go_ratchet.DoubleRatchet.Header.Laws.{IsSendable, encoded, length-encoded, parse_header-encoded}
use go_ratchet.DoubleRatchet.KeyBuffer.{KeyBuffer, max_skip_elements}
use go_ratchet.DoubleRatchet.Primitives.{decrypt}
use go_ratchet.DoubleRatchet.DhRatchet.{Stepped, step}
use go_ratchet.DoubleRatchet.DhRatchet.Agreement.{Leads, IsFresh, step-Leads}
use go_ratchet.DoubleRatchet.Ratchet.Chain.{chain_key, nth_message_key, cache, skip_keys_lem}
use go_ratchet.DoubleRatchet.Ratchet.Messages.{next_header, message_key_for_ahead}
use go_ratchet.DoubleRatchet.Ratchet.Delivery.{Sends, sent, advanced, caught_up}
use go_ratchet.DoubleRatchet.Ratchet.{
  DoubleRatchet, is_nil, when, encrypt_message, decrypt_message, skip_msg_keys, follow_peer,
  dh_step, message_key_for,
}

module _ (c : Crypto) where
  -- There is no receiving chain yet, or a proper one.
  abbrev pub CanSkip : DoubleRatchet → Type 0
  CanSkip b =
      (b.chain_key_recv ≡ none)
      ⊎ ((ck : Bytes) × (length ck ≡ 32) × (b.chain_key_recv ≡ some (chain_key c ck b.recv_no)))

  -- A state whose receiving chain has moved on.
  abbrev pub moved : DoubleRatchet → Option Bytes → ℕ → KeyBuffer → DoubleRatchet
  moved b k n kb = record b { chain_key_recv = k; recv_no = n; msg_key_buffer = kb }

  -- Where the recipient of the first messages of a new chain stands afterwards.
  pub record HasTurned (a b b' : DoubleRatchet) (ck : Bytes) : Type 0 where
    pub key : Bytes
    pub send_chain : b'.chain_key_send ≡ some key
    pub ahead : Leads c b'.dhr key a.dhr
    pub recv_no : b'.recv_no ≡ a.send_no + 1
    pub recv_chain : b'.chain_key_recv ≡ some (chain_key c ck (suc a.send_no))
    pub peer : b'.peer_dh_pub ≡ a.dhr.dh_pub
    pub send_no : b'.send_no ≡ 0
    pub prev_send_no : b'.prev_send_no ≡ b.send_no
    pub associated : b'.associated_data ≡ b.associated_data

  -- A text is encrypted by one party and received by another, who holds the sender's chain
  -- afterwards, is a step ahead of the sender, and has a sending chain that begins with the key of
  -- this step.
  abbrev pub Delivers : Bytes → Sample → Sample → DoubleRatchet → DoubleRatchet → Type 0
  Delivers plain s t a b =
      let (r, a') = encrypt_message c s plain a in
      (ct : Bytes) × (r ≡ ok ct)
      × let (r', b') = decrypt_message c t ct b in
        (r' ≡ ok plain)
        × (b'.recv_no ≡ a'.send_no)
        × (b'.chain_key_recv ≡ a'.chain_key_send)
        × (b'.peer_dh_pub ≡ a'.dhr.dh_pub)
        × (b'.send_no ≡ 0)
        × ((key : Bytes) × (b'.chain_key_send ≡ some key) × Leads c b'.dhr key a'.dhr)

  module _ (laws : CryptoLaws c) where
    -- Within the limit the rest of the old chain is skipped without an error.
    skip_msg_keys-moved :
        (until : ℕ) (b : DoubleRatchet)
        → until ≤ b.recv_no + max_skip_elements
        → CanSkip b
        → (k : Option Bytes) × (n : ℕ) × (kb : KeyBuffer) × (skip_msg_keys c until b
            ≡ (ok tt, moved b k n kb))
    unfolding skip_msg_keys
    skip_msg_keys-moved until b h (inl e) =
        (b.chain_key_recv, b.recv_no, b.msg_key_buffer, rw (le→ltb _ _ h, ap is_nil e))
    skip_msg_keys-moved until b h (inr (ck, l, e)) =
        let k = until - b.recv_no in
        (
          some (chain_key c ck (b.recv_no + k)),
          b.recv_no + k,
          cache c ck b.peer_dh_pub b.recv_no k b.msg_key_buffer,
          rw (le→ltb _ _ h, ap is_nil e) (skip_keys_lem c laws k b.recv_no ck b l refl e),
        )

    -- The state of a recipient that has followed the sender's step.
    abbrev pub followed : DoubleRatchet → Header → Stepped → KeyBuffer → DoubleRatchet
    followed b h o kb = record {
      associated_data = b.associated_data;
      dhr = o.ratchet;
      peer_dh_pub = h.dh_pub;
      chain_key_send = o.send_key;
      chain_key_recv = o.recv_key;
      send_no = 0;
      recv_no = 0;
      prev_send_no = b.send_no;
      msg_key_buffer = kb;
    }

    follow_peer_lem :
        (h : Header) (t : Sample) (b : DoubleRatchet)
        → h.prev_no ≤ b.recv_no + max_skip_elements
        → CanSkip b
        → (step c b.dhr h.dh_pub t).outcome ≡ ok tt
        → (kb : KeyBuffer) × (follow_peer c h t b
            ≡ (ok tt, followed b h (step c b.dhr h.dh_pub t) kb))
    unfolding follow_peer dh_step
    follow_peer_lem h t b le can e =
        let (k, n, kb, skipped) = skip_msg_keys-moved h.prev_no b le can in (kb, rw (skipped, e))

    decrypt_message_new :
        (h : Header) (body mk : Bytes) (t : Sample) (b mid after : DoubleRatchet)
        → IsSendable h
        → 0 < length body
        → h.dh_pub ≢ b.peer_dh_pub
        → follow_peer c h t b ≡ (ok tt, mid)
        → message_key_for c h mid ≡ (ok mk, after)
        → decrypt_message c t (encoded h ++ body) b ≡ (decrypt c mk body b.associated_data, after)
    unfolding decrypt_message when
    decrypt_message_new h body mk t b mid after v long other f k =
        let size = length-encoded h in
        let big : leb (length (encoded h ++ body)) header_len ≡ false =
          lt→leb _ _ (omega (arith, size, length-append (encoded h) body)) in
        rw (
          big,
          take-append header_len (encoded h) body size,
          parse_header-encoded h v,
          ne→bytes_eq h.dh_pub b.peer_dh_pub other,
          f,
          k,
          drop-append header_len (encoded h) body size,
        )

    -- A message of a new chain, with the states that it leaves.
    pub turn_lem :
        (a b : DoubleRatchet) (ck plain : Bytes) (s t : Sample)
        → Sends c a ck
        → Leads c a.dhr ck b.dhr
        → a.associated_data ≡ b.associated_data
        → a.dhr.dh_pub ≢ b.peer_dh_pub
        → a.send_no ≤ max_skip_elements
        → a.prev_send_no ≤ b.recv_no + max_skip_elements
        → CanSkip b
        → IsFresh c t a.dhr.dh_pub
        → (ct : Bytes) × (b' : DoubleRatchet) × (encrypt_message c s plain a
            ≡ (ok ct, advanced c a ck))
          × (decrypt_message c t ct b ≡ (ok plain, b'))
          × HasTurned a b b' ck
    turn_lem a b ck plain s t v lead ad other near old can fresh =
        let h = next_header a in
        let (body, made, opened, long) = sent c laws a ck plain s v in
        let (key, fine, recv, send, ahead) = step-Leads c laws a.dhr b.dhr ck t lead fresh in
        let (kb, f) = follow_peer_lem h t b old can fine in
        let o = step c b.dhr a.dhr.dh_pub t in
        let k =
          message_key_for_ahead c laws ck h (followed b h o kb) v.length_chain recv (omega arith)
            near in
        let after = caught_up c laws ck a (followed b h o kb) in
        let read : decrypt c (nth_message_key c ck a.send_no) body b.associated_data ≡ ok plain =
          rw (← ad) opened in
        let got =
          decrypt_message_new h body (nth_message_key c ck a.send_no) t b _ after v.sendable long
            other f k in
        (
          encoded h ++ body,
          after,
          made,
          got ∙ ap (λ r. (r, after)) read,
          record {
            key = key;
            send_chain = send;
            ahead = ahead;
            recv_no = refl;
            recv_chain = refl;
            peer = refl;
            send_no = refl;
            prev_send_no = refl;
            associated = refl;
          },
        )

    -- Two parties have the same associated data. If the sender is one step of the Diffie-Hellman
    -- ratchet ahead, with a public key that the recipient has not seen last, and in a new chain, at
    -- its 33rd message at most, and the recipient has a fresh sample and skips at most 32 keys of
    -- its old chain, if it has one, then the message is encrypted and received with its text.
    -- Afterwards the recipient holds the sender's chain and is a step ahead itself, with a new
    -- sending chain.
    pub turn_delivery :
        (a b : DoubleRatchet) (ck plain : Bytes) (s t : Sample)
        → Sends c a ck
        → Leads c a.dhr ck b.dhr
        → a.associated_data ≡ b.associated_data
        → a.dhr.dh_pub ≢ b.peer_dh_pub
        → a.send_no ≤ max_skip_elements
        → a.prev_send_no ≤ b.recv_no + max_skip_elements
        → CanSkip b
        → IsFresh c t a.dhr.dh_pub
        → Delivers plain s t a b
    turn_delivery a b ck plain s t v lead ad other near old can fresh =
        let (ct, b', made, got, w) = turn_lem a b ck plain s t v lead ad other near old can fresh in
        rw made (
          ct,
          refl,
          rw got (refl, w.recv_no, w.recv_chain, w.peer, w.send_no, (w.key, w.send_chain, w.ahead)),
        )
