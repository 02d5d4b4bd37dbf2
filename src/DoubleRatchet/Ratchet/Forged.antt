-- ===== src/DoubleRatchet/Ratchet/Forged.antt =====
-- Messages that fail: how the state changes, and what that does to later messages.
use go_ratchet.Prelude.{
  suc, ◌+◌, ◌-◌, ◌<◌, ◌≡◌, refl, ap, ◌∙◌, arith, some, ◌++◌, ok, err, Bytes, length, Error,
}
use go_ratchet.Crypto.{Crypto, CryptoLaws, Sample}
use go_ratchet.DoubleRatchet.Header.Laws.{encoded}
use go_ratchet.DoubleRatchet.KeyBuffer.{find, max_skip_elements}
use go_ratchet.DoubleRatchet.Primitives.{decrypt}
use go_ratchet.DoubleRatchet.Ratchet.Chain.{chain_key, nth_message_key, cache}
use go_ratchet.DoubleRatchet.Ratchet.Messages.{
  next_header, message_key_for_ahead, message_key_for_late, decrypt_message_lem,
  decrypt_message_err, message_key_for_far,
}
use go_ratchet.DoubleRatchet.Ratchet.Delivery.{Sends, Follows, sent}
use go_ratchet.DoubleRatchet.Ratchet.{DoubleRatchet, encrypt_message, decrypt_message}

module _ (c : Crypto) (laws : CryptoLaws c) where
  -- A message of the current chain that is more than 32 ahead of the recipient is refused with the
  -- error for too many skipped keys, and the recipient's state stays as it was.
  pub skip_refused :
      (a b : DoubleRatchet) (ck plain : Bytes) (s t : Sample)
      → Sends c a ck
      → a.dhr.dh_pub ≡ b.peer_dh_pub
      → b.recv_no + max_skip_elements < a.send_no
      → (ct : Bytes) × ((encrypt_message c s plain a).0 ≡ ok ct)
        × (decrypt_message c t ct b ≡ (err Error.skip_limit, b))
  skip_refused a b ck plain s t v peer far =
      let h = next_header a in
      let (body, made, _, long) = sent c laws a ck plain s v in
      rw made (
        encoded h ++ body,
        refl,
        decrypt_message_err c laws h body Error.skip_limit t b b v.sendable long peer
            (message_key_for_far c laws h b far),
      )

  -- The recipient is at the same place of the chain as the sender and has no key for it in its
  -- buffer. If it refuses a forged body under the header of the sender's next message, then it
  -- refuses the genuine message too when that arrives.
  pub forged_blocks_genuine :
      (a b : DoubleRatchet) (ck plain forged : Bytes) (e f : Error) (s t u : Sample)
      → Sends c a ck
      → Follows c b a ck
      → b.recv_no ≡ a.send_no
      → find a.dhr.dh_pub a.send_no b.msg_key_buffer ≡ err f
      → 0 < length forged
      → decrypt c (nth_message_key c ck a.send_no) forged b.associated_data ≡ err e
      → let (r, b') = decrypt_message c t (encoded (next_header a) ++ forged) b in
        (r ≡ err e)
        × (ct : Bytes) × ((encrypt_message c s plain a).0 ≡ ok ct)
        × ((decrypt_message c u ct b').0 ≡ err f)
  forged_blocks_genuine a b ck plain forged e f s t u v w now absent some_body bad =
      let h = next_header a in
      let mk = nth_message_key c ck a.send_no in
      let (body, made, _, long) = sent c laws a ck plain s v in
      let key =
        message_key_for_ahead c laws ck h b v.length_chain w.receiving (omega arith)
          (omega arith) in
      let burnt = decrypt_message_lem c laws h forged mk t b _ v.sendable some_body w.peer key in
      let after = record b {
        chain_key_recv = some (chain_key c ck (suc a.send_no));
        recv_no = a.send_no + 1;
        msg_key_buffer =
            cache c ck b.peer_dh_pub b.recv_no (a.send_no - b.recv_no) b.msg_key_buffer;
      } in
      let zero_skipped : a.send_no - b.recv_no ≡ 0 = omega arith in
      let late = message_key_for_late c laws h after (omega arith) in
      let refused =
        decrypt_message_err c laws h body f u after after v.sendable long w.peer
          (late ∙ rw zero_skipped (rw absent)) in
      rw (burnt, bad, made) (refl, encoded h ++ body, refl, ap (λ p. p.0) refused)
