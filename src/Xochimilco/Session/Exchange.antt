-- ===== src/Xochimilco/Session/Exchange.antt =====
-- A text goes from one session to another, through the envelope (xochimilco/session.go).
use go_ratchet.Prelude.{
  ℕ, ◌≡◌, ◌<◌, ◌≤◌, refl, sym, ap, ◌∙◌, arith, true, false, some, ◌++◌, ◌∷◌, ◌≢◌, ◌+◌, [], leb, ok,
  err, Error, Bytes, IsBytes, length, fit_self, Bool-cases, inl, inr,
}
use mathlib.Core.Path.{subst}
use go_ratchet.Crypto.{Crypto, CryptoLaws, Sample}
use go_ratchet.DoubleRatchet.Header.{header_len}
use go_ratchet.DoubleRatchet.Ratchet.{DoubleRatchet, encrypt_message, decrypt_message}
use go_ratchet.DoubleRatchet.Ratchet.Turn.{CanSkip, turn_delivery}
use go_ratchet.DoubleRatchet.Ratchet.Delivery.{Sends}
use go_ratchet.DoubleRatchet.DhRatchet.Agreement.{Leads, IsFresh}
use go_ratchet.DoubleRatchet.KeyBuffer.{max_skip_elements}
use go_ratchet.Xochimilco.Message.{
  DataMessage, payload, sess_data, marshal_message, marshal_binary, marshal_data, unmarshal_message,
}
use go_ratchet.Xochimilco.Message.Fields.{IsData}
use go_ratchet.Xochimilco.Message.RoundTrip.{unmarshal-marshal_message}
use go_ratchet.Xochimilco.Session.{
  Session, OfferSamples, on_ratchet, enc_time, receive, receive_msg, receive_data, send,
}

IsBytes-append : (a b : Bytes) → IsBytes a → IsBytes b → IsBytes (a ++ b)
IsBytes-append [] b h k = k
IsBytes-append (x ∷ a) b h k = (h.0, IsBytes-append a b h.1 k)

module _ (c : Crypto) where
  -- The data message that a session sends.
  abbrev pub data_of : ℕ → Session → Bytes → DataMessage
  data_of now a ct = record { uuid = enc_time c now a.remote_uuid; payload = ct }

  send_lem :
      (now : ℕ) (plain ct : Bytes) (s : Sample) (a : Session) (x x' : DoubleRatchet)
      → a.double_ratchet ≡ some x
      → encrypt_message c s plain x ≡ (ok ct, x')
      → send c now plain s a ≡ (
        ok (marshal_message sess_data (payload (data_of now a ct))),
        record a { double_ratchet = some x' },
      )
  unfolding send on_ratchet
  send_lem now plain ct s a x x' h e = rw h (rw e)

  receive_data_lem :
      (m : DataMessage) (plain : Bytes) (o : OfferSamples) (t : Sample) (b : Session)
      (y y' : DoubleRatchet)
      → b.double_ratchet ≡ some y
      → decrypt_message c t m.payload y ≡ (ok plain, y')
      → receive_msg c (payload m) o t b ≡ (
        ok (record { is_established = false; is_closed = false; plaintext = plain }),
        record b { double_ratchet = some y' },
      )
  unfolding receive_msg receive_data on_ratchet
  receive_data_lem m plain o t b y y' h e = rw h (rw e)

  receive_lem :
      (m : DataMessage) (o : OfferSamples) (t : Sample) (b : Session)
      → unmarshal_message (marshal_message sess_data (payload m)) ≡ ok (sess_data, payload m)
      → receive c (marshal_message sess_data (payload m)) o t b ≡ receive_msg c (payload m) o t b
  unfolding receive
  receive_lem m o t b h = rw h

  decrypt_message_short :
      (t : Sample) (ct : Bytes) (y : DoubleRatchet)
      → leb (length ct) header_len ≡ true
      → (decrypt_message c t ct y).0 ≡ err Error.ciphertext_short
  unfolding decrypt_message
  decrypt_message_short t ct y h = rw h

  decrypt_message-long :
      (t : Sample) (ct plain : Bytes) (y : DoubleRatchet)
      → (decrypt_message c t ct y).0 ≡ ok plain
      → 0 < length ct
  decrypt_message-long t ct plain y h = elim (Bool-cases (leb (length ct) header_len)) [
    | inl short ↦ absurd (cc (h, decrypt_message_short t ct y short))
    | inr long ↦ ground arith
  ]

  ok-inj : {x y : Bytes} → ok x ≡ ok y → x ≡ y
  ok-inj h = cc

  data-IsBytes :
      (m : DataMessage)
      → length m.uuid ≡ 16
      → IsBytes m.uuid
      → IsBytes m.payload
      → IsBytes (marshal_binary (payload m))
  unfolding marshal_binary marshal_data
  data-IsBytes m l u p = rw (fit_self 16 m.uuid l) (IsBytes-append m.uuid m.payload u p)

  -- A text on its way: what is sent, how it is read, and what the recipient makes of it.
  pub record Arrives (now : ℕ) (plain ct : Bytes) (s t : Sample) (o : OfferSamples) (a b : Session)
      (x' y' : DoubleRatchet) : Type 0 where
    pub sent : send c now plain s a ≡ (
      ok (marshal_message sess_data (payload (data_of now a ct))),
      record a { double_ratchet = some x' },
    )
    pub wire :
        unmarshal_message (marshal_message sess_data (payload (data_of now a ct)))
        ≡ ok (sess_data, payload (data_of now a ct))
    pub got : receive_msg c (payload (data_of now a ct)) o t b ≡ (
      ok (record { is_established = false; is_closed = false; plaintext = plain }),
      record b { double_ratchet = some y' },
    )

  pub arrives :
      (now : ℕ) (plain ct : Bytes) (s t : Sample) (o : OfferSamples) (a b : Session)
      (x y x' y' : DoubleRatchet)
      → a.double_ratchet ≡ some x
      → b.double_ratchet ≡ some y
      → encrypt_message c s plain x ≡ (ok ct, x')
      → decrypt_message c t ct y ≡ (ok plain, y')
      → IsBytes ct
      → IsBytes (enc_time c now a.remote_uuid)
      → length (enc_time c now a.remote_uuid) ≡ 16
      → Arrives now plain ct s t o a b x' y'
  arrives now plain ct s t o a b x y x' y' ax by made read bs us ul =
      let m = data_of now a ct in
      let well : IsData m = record {
        length_uuid = ul;
        nonempty = decrypt_message-long t ct plain y (ap (λ r. r.0) read);
      } in
      record {
        sent = send_lem now plain ct s a x x' ax made;
        wire = unmarshal-marshal_message (payload m) well (data-IsBytes m ul us bs);
        got = receive_data_lem m plain o t b y y' by read;
      }

  -- Two sessions have ratchets with the same associated data. The sender's is one step of the
  -- Diffie-Hellman ratchet ahead, with a public key that the recipient has not seen last, and in a
  -- new chain, at its 33rd message at most; the recipient has a fresh sample and skips at most 32
  -- keys of its old chain, if it has one. If the ciphertext and the stamped UUID are made of bytes,
  -- the latter of 16, then what `Send` returns is read by `Receive` as the text that was sent, and
  -- each session keeps its ratchet as the encryption and the decryption leave it.
  pub receive-send :
      CryptoLaws c
      → (now : ℕ) (plain ck ct : Bytes) (s t : Sample) (o : OfferSamples) (a b : Session)
        (x y : DoubleRatchet)
      → a.double_ratchet ≡ some x
      → b.double_ratchet ≡ some y
      → Sends c x ck
      → Leads c x.dhr ck y.dhr
      → x.associated_data ≡ y.associated_data
      → x.dhr.dh_pub ≢ y.peer_dh_pub
      → x.send_no ≤ max_skip_elements
      → x.prev_send_no ≤ y.recv_no + max_skip_elements
      → CanSkip c y
      → IsFresh c t x.dhr.dh_pub
      → (encrypt_message c s plain x).0 ≡ ok ct
      → IsBytes ct
      → IsBytes (enc_time c now a.remote_uuid)
      → length (enc_time c now a.remote_uuid) ≡ 16
      → let (r, a') = send c now plain s a in
        (text : Bytes) × (r ≡ ok text)
        × let (q, b') = receive c text o t b in
          (q ≡ ok (record { is_established = false; is_closed = false; plaintext = plain }))
          × (a'.double_ratchet ≡ some (encrypt_message c s plain x).1)
          × (b'.double_ratchet ≡ some (decrypt_message c t ct y).1)
  receive-send laws now plain ck ct s t o a b x y ax by v lead ad other near old can fresh made bs
        us ul =
      let (dt, sent, after) =
        turn_delivery c laws x y ck plain s t v lead ad other near old can fresh in
      let same : dt ≡ ct = ok-inj (sym sent ∙ made) in
      let read : (decrypt_message c t ct y).0 ≡ ok plain =
        subst (λ z. (decrypt_message c t z y).0 ≡ ok plain) same after.0 in
      let x' = (encrypt_message c s plain x).1 in
      let y' = (decrypt_message c t ct y).1 in
      let made' : encrypt_message c s plain x ≡ (ok ct, x') = ap (λ r. (r, x')) made in
      let read' : decrypt_message c t ct y ≡ (ok plain, y') = ap (λ r. (r, y')) read in
      let h = arrives now plain ct s t o a b x y x' y' ax by made' read' bs us ul in
      let m = data_of now a ct in
      rw h.sent (
        marshal_message sess_data (payload m),
        refl,
        rw (receive_lem m o t b h.wire) (rw h.got (refl, refl, refl)),
      )
