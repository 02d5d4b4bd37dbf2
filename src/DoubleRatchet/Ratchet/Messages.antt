-- ===== src/DoubleRatchet/Ratchet/Messages.antt =====
-- What the methods do in the middle of a chain: a message is encrypted, received in order, after
-- a gap, or late.
use go_ratchet.Prelude.{
  ℕ, suc, ◌+◌, ◌-◌, ◌≤◌, ◌<◌, ◌≡◌, refl, ap, ◌∙◌, arith, true, false, some, ◌++◌, ok, err, Bytes,
  length, take-append, drop-append, length-append, bytes_eq, bytes_eq_refl, inl, inr, leb, le→ltb,
  lt→leb, lt→ltb, Error,
}
use native.Mathlib.Decide.{dec_lt}
use go_ratchet.Crypto.{Crypto, CryptoLaws, Sample}
use go_ratchet.DoubleRatchet.Header.{Header, header_len, marshal}
use go_ratchet.DoubleRatchet.Header.Laws.{
  IsSendable, encoded, marshal_range, length-encoded, parse_header-encoded,
}
use go_ratchet.DoubleRatchet.KeyBuffer.{find, max_skip_elements}
use go_ratchet.DoubleRatchet.Primitives.{encrypt, decrypt}
use go_ratchet.DoubleRatchet.Ratchet.Chain.{
  chain_key, nth_message_key, cache, next_send_key_lem, next_recv_key_lem, skip_keys_lem,
}
use go_ratchet.DoubleRatchet.Ratchet.{
  DoubleRatchet, is_nil, take_header, when, encrypt_message, skip_msg_keys, current_key,
  message_key_for, decrypt_message,
}

-- The header that the next message of a state bears.
abbrev pub next_header : DoubleRatchet → Header
next_header dr = record { dh_pub = dr.dhr.dh_pub; prev_no = dr.prev_send_no; msg_no = dr.send_no }

marshal-encoded : (h : Header) → IsSendable h → marshal h ≡ ok (encoded h)
marshal-encoded h s = elim (marshal_range h) [
  | inl (big, _) ↦ absurd (omega (arith, s.prev_no-lt, s.msg_no-lt))
  | inr (_, _, e) ↦ e
]

module _ (c : Crypto) (laws : CryptoLaws c) where
  -- A message in the middle of a chain: the next header, then the text under the next key.
  pub encrypt_message_lem :
      (ck plain body : Bytes) (s : Sample) (a : DoubleRatchet)
      → length ck ≡ 32
      → a.chain_key_send ≡ some (chain_key c ck a.send_no)
      → IsSendable (next_header a)
      → encrypt c (nth_message_key c ck a.send_no) plain a.associated_data ≡ ok body
      → encrypt_message c s plain a ≡ (
        ok (encoded (next_header a) ++ body),
        record a {
          chain_key_send = some (chain_key c ck (suc a.send_no));
          send_no = a.send_no + 1;
        },
      )
  unfolding encrypt_message when take_header
  encrypt_message_lem ck plain body s a l h v e = rw (
    ap is_nil h,
    next_send_key_lem c laws ck a.send_no a l h,
    marshal-encoded (next_header a) v,
    e,
  )

  pub current_key_lem :
      (ck : Bytes) (n : ℕ) (dr : DoubleRatchet)
      → length ck ≡ 32
      → dr.chain_key_recv ≡ some (chain_key c ck n)
      → current_key c dr ≡ (
        ok (nth_message_key c ck n),
        record dr { chain_key_recv = some (chain_key c ck (suc n)); recv_no = dr.recv_no + 1 },
      )
  unfolding current_key
  current_key_lem ck n dr l h = rw (next_recv_key_lem c laws ck n dr l h)

  skip_msg_keys_lem :
      (ck : Bytes) (until : ℕ) (dr : DoubleRatchet)
      → length ck ≡ 32
      → dr.chain_key_recv ≡ some (chain_key c ck dr.recv_no)
      → dr.recv_no ≤ until
      → until ≤ dr.recv_no + max_skip_elements
      → skip_msg_keys c until dr ≡ (
        ok tt,
        record dr {
          chain_key_recv = some (chain_key c ck until);
          recv_no = until;
          msg_key_buffer =
              cache c ck dr.peer_dh_pub dr.recv_no (until - dr.recv_no) dr.msg_key_buffer;
        },
      )
  unfolding skip_msg_keys
  skip_msg_keys_lem ck until dr l h lo hi =
      let e : dr.recv_no + (until - dr.recv_no) ≡ until = omega arith in
      let looped = skip_keys_lem c laws (until - dr.recv_no) dr.recv_no ck dr l refl h in
      rw (le→ltb _ _ hi, ap is_nil h) (looped ∙ rw e)

  -- The key of the current message, or of a later one within the limit. The keys of the messages
  -- in between go to the buffer.
  pub message_key_for_ahead :
      (ck : Bytes) (h : Header) (dr : DoubleRatchet)
      → length ck ≡ 32
      → dr.chain_key_recv ≡ some (chain_key c ck dr.recv_no)
      → dr.recv_no ≤ h.msg_no
      → h.msg_no ≤ dr.recv_no + max_skip_elements
      → message_key_for c h dr ≡ (
        ok (nth_message_key c ck h.msg_no),
        record dr {
          chain_key_recv = some (chain_key c ck (suc h.msg_no));
          recv_no = h.msg_no + 1;
          msg_key_buffer =
              cache c ck dr.peer_dh_pub dr.recv_no (h.msg_no - dr.recv_no) dr.msg_key_buffer;
        },
      )
  unfolding message_key_for
  message_key_for_ahead ck h dr l e lo hi = elim (dec_lt dr.recv_no h.msg_no) [
    | yes gap ↦
        let skipped = record dr {
          chain_key_recv = some (chain_key c ck h.msg_no);
          recv_no = h.msg_no;
          msg_key_buffer =
              cache c ck dr.peer_dh_pub dr.recv_no (h.msg_no - dr.recv_no) dr.msg_key_buffer;
        } in
        rw (le→ltb _ _ lo, lt→ltb _ _ gap, skip_msg_keys_lem ck h.msg_no dr l e lo hi)
          (current_key_lem ck h.msg_no skipped l refl)
    | no gap ↦
        let same : h.msg_no ≡ dr.recv_no = omega arith in
        let none_skipped : h.msg_no - dr.recv_no ≡ 0 = omega arith in
        rw (le→ltb _ _ lo, none_skipped, same, le→ltb dr.recv_no dr.recv_no (omega arith))
          (current_key_lem ck dr.recv_no dr l e)
  ]

  -- The key of an earlier message comes from the buffer, and the state does not change.
  pub message_key_for_late :
      (h : Header) (dr : DoubleRatchet)
      → h.msg_no < dr.recv_no
      → message_key_for c h dr ≡ (find h.dh_pub h.msg_no dr.msg_key_buffer, dr)
  unfolding message_key_for
  message_key_for_late h dr lt = rw (lt→ltb _ _ lt)

  -- A message from the peer's current chain is decrypted under the key for its header, and the
  -- state afterwards is the one that the search for the key left.
  pub decrypt_message_lem :
      (h : Header) (body mk : Bytes) (t : Sample) (b after : DoubleRatchet)
      → IsSendable h
      → 0 < length body
      → h.dh_pub ≡ b.peer_dh_pub
      → message_key_for c h b ≡ (ok mk, after)
      → decrypt_message c t (encoded h ++ body) b ≡ (decrypt c mk body b.associated_data, after)
  unfolding decrypt_message when
  decrypt_message_lem h body mk t b after v long same k =
      let size = length-encoded h in
      let big : leb (length (encoded h ++ body)) header_len ≡ false =
        lt→leb _ _ (omega (arith, size, length-append (encoded h) body)) in
      let known : bytes_eq h.dh_pub b.peer_dh_pub ≡ true = rw (← same) (bytes_eq_refl h.dh_pub) in
      rw (
        big,
        take-append header_len (encoded h) body size,
        parse_header-encoded h v,
        known,
        k,
        drop-append header_len (encoded h) body size,
      )

  -- If no key is found for a message, that is the method's error.
  pub decrypt_message_err :
      (h : Header) (body : Bytes) (e : Error) (t : Sample) (b after : DoubleRatchet)
      → IsSendable h
      → 0 < length body
      → h.dh_pub ≡ b.peer_dh_pub
      → message_key_for c h b ≡ (err e, after)
      → decrypt_message c t (encoded h ++ body) b ≡ (err e, after)
  unfolding decrypt_message when
  decrypt_message_err h body e t b after v long same k =
      let size = length-encoded h in
      let big : leb (length (encoded h ++ body)) header_len ≡ false =
        lt→leb _ _ (omega (arith, size, length-append (encoded h) body)) in
      let known : bytes_eq h.dh_pub b.peer_dh_pub ≡ true = rw (← same) (bytes_eq_refl h.dh_pub) in
      rw (big, take-append header_len (encoded h) body size, parse_header-encoded h v, known, k)

  pub message_key_for_far :
      (h : Header) (dr : DoubleRatchet)
      → dr.recv_no + max_skip_elements < h.msg_no
      → message_key_for c h dr ≡ (err Error.skip_limit, dr)
  unfolding message_key_for skip_msg_keys
  message_key_for_far h dr far = rw (
    le→ltb h.msg_no dr.recv_no (omega arith),
    lt→ltb dr.recv_no h.msg_no (omega arith),
    lt→ltb _ _ far,
  )
