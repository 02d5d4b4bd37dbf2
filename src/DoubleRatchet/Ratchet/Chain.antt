-- ===== src/DoubleRatchet/Ratchet/Chain.antt =====
-- The keys of one chain, and the loop that skips some of them.
use go_ratchet.Prelude.{
  ℕ, zero, suc, ◌+◌, ◌≤◌, ◌<◌, ◌≡◌, ◌≢◌, refl, arith, some, [], ◌∷◌, ok, Bytes, length, eq→==,
  Option-cases, inl, inr, bytes_eq_refl,
}
use native.Mathlib.Decide.{ℕ_discrete}
use go_ratchet.Crypto.{Crypto, CryptoLaws}
use go_ratchet.DoubleRatchet.KeyBuffer.{KeyBuffer, element_find, find, insert}
use go_ratchet.DoubleRatchet.KeyBuffer.Lookup.{find-absent}
use go_ratchet.DoubleRatchet.KeyBuffer.Insert.{find-insert_cached, find-insert_self}
use go_ratchet.DoubleRatchet.Primitives.{chain_kdf}
use go_ratchet.DoubleRatchet.Ratchet.{DoubleRatchet, skip_keys, next_recv_key, next_send_key}

-- Where a key was found, it is still found after a key for another number of the same chain.
find-insert_keep :
    (p : Bytes) (n i : ℕ) (k key : Bytes) (kb : KeyBuffer)
    → n ≢ i
    → find p i kb ≡ ok key
    → find p i (insert p n k kb) ≡ ok key
find-insert_keep p n i k key kb ne h = elim (Option-cases (element_find p kb)) [
  | inl e ↦ ground (arith, find-absent p i kb e)
  | inr (j, e) ↦ ground (arith, find-insert_cached p p n i k kb j e, bytes_eq_refl p)
]

module _ (c : Crypto) where
  -- The n-th key of the chain that begins with a key, and the n-th message key.
  abbrev pub chain_key : Bytes → ℕ → Bytes
  chain_key ck zero = ck
  chain_key ck (suc n) = c.hmac_sha256 (chain_key ck n) (0 ∷ [])

  abbrev pub nth_message_key : Bytes → ℕ → Bytes
  nth_message_key ck n = c.hmac_sha256 (chain_key ck n) (1 ∷ [])

  -- The buffer after so many keys of a chain, from one number on, have been cached.
  abbrev pub cache : Bytes → Bytes → ℕ → ℕ → KeyBuffer → KeyBuffer
  cache ck p from zero kb = kb
  cache ck p from (suc k) kb = cache ck p (suc from) k (insert p from (nth_message_key ck from) kb)

  cache-keep :
      (ck p : Bytes) (from k i : ℕ) (key : Bytes) (kb : KeyBuffer)
      → i < from
      → find p i kb ≡ ok key
      → find p i (cache ck p from k kb) ≡ ok key
  cache-keep ck p from zero i key kb lt h = h
  cache-keep ck p from (suc k) i key kb lt h =
      cache-keep ck p (suc from) k i key (insert p from (nth_message_key ck from) kb) (omega arith)
        (find-insert_keep p from i (nth_message_key ck from) key kb (omega arith) h)

  -- Every cached key is found.
  pub find-cache :
      (ck p : Bytes) (from k i : ℕ) (kb : KeyBuffer)
      → from ≤ i
      → i < from + k
      → find p i (cache ck p from k kb) ≡ ok (nth_message_key ck i)
  find-cache ck p from zero i kb lo hi = absurd (omega arith)
  find-cache ck p from (suc k) i kb lo hi =
      let key = nth_message_key ck from in
      elim (ℕ_discrete i from) [
        | yes first ↦ rw first (
            cache-keep ck p (suc from) k from key (insert p from key kb) (omega arith)
              (find-insert_self p from key kb))
        | no later ↦
            find-cache ck p (suc from) k i (insert p from key kb) (omega arith) (omega arith)
      ]

  module _ (laws : CryptoLaws c) where
    open laws use {length-hmac_sha256}

    pub length-chain_key : (ck : Bytes) (n : ℕ) → length ck ≡ 32 → length (chain_key ck n) ≡ 32
    length-chain_key ck zero h = h
    length-chain_key ck (suc n) h = length-hmac_sha256 (chain_key ck n) (0 ∷ [])

    pub chain_kdf-chain_key :
        (ck : Bytes) (n : ℕ)
        → length ck ≡ 32
        → chain_kdf c (chain_key ck n) ≡ ok (chain_key ck (suc n), nth_message_key ck n)
    unfolding chain_kdf
    chain_kdf-chain_key ck n h = rw (eq→== _ _ (length-chain_key ck n h))

    pub next_recv_key_lem :
        (ck : Bytes) (n : ℕ) (dr : DoubleRatchet)
        → length ck ≡ 32
        → dr.chain_key_recv ≡ some (chain_key ck n)
        → next_recv_key c dr
          ≡ (ok (nth_message_key ck n), record dr { chain_key_recv = some (chain_key ck (suc n)) })
    unfolding next_recv_key
    next_recv_key_lem ck n dr l h = ground (arith, chain_kdf-chain_key ck n l)

    pub next_send_key_lem :
        (ck : Bytes) (n : ℕ) (dr : DoubleRatchet)
        → length ck ≡ 32
        → dr.chain_key_send ≡ some (chain_key ck n)
        → next_send_key c dr
          ≡ (ok (nth_message_key ck n), record dr { chain_key_send = some (chain_key ck (suc n)) })
    unfolding next_send_key
    next_send_key_lem ck n dr l h = ground (arith, chain_kdf-chain_key ck n l)

    -- The loop leaves the chain so many keys further, and the keys in between in the buffer.
    pub skip_keys_lem :
        (k n : ℕ) (ck : Bytes) (dr : DoubleRatchet)
        → length ck ≡ 32
        → dr.recv_no ≡ n
        → dr.chain_key_recv ≡ some (chain_key ck n)
        → skip_keys c k dr ≡ (
          ok tt,
          record dr {
            chain_key_recv = some (chain_key ck (n + k));
            recv_no = n + k;
            msg_key_buffer = cache ck dr.peer_dh_pub n k dr.msg_key_buffer;
          },
        )
    unfolding skip_keys
    skip_keys_lem zero n ck dr l num h = let e : n + 0 ≡ n = omega arith in ground (arith, e)
    skip_keys_lem (suc k) n ck dr l num h =
        let key = nth_message_key ck n in
        let dr' = record dr {
          chain_key_recv = some (chain_key ck (suc n));
          recv_no = dr.recv_no + 1;
          msg_key_buffer = insert dr.peer_dh_pub dr.recv_no key dr.msg_key_buffer;
        } in
        let e : suc n + k ≡ n + suc k = omega arith in
        let ih = skip_keys_lem k (suc n) ck dr' l (omega arith) refl in
        rw (next_recv_key_lem ck n dr l h) (rw ih (rw (num, e)))
