-- ===== src/DoubleRatchet/Primitives.antt =====
-- doubleratchet/primitives.go: key pairs, key derivation and the encryption of one message.
pub mod RoundTrip
use go_ratchet.Prelude.{
  ℕ, ◌-◌, ◌%◌, ◌==◌, ltb, if◌then◌else◌, not, ◌&&◌, ◌||◌, Bool, true, false, Option, none, some, [],
  ◌∷◌, ◌++◌, Error, Result, ok, err, panic, Bytes, bytes_eq, length, take, drop, replicate,
}
use go_ratchet.Prelude.Errors.{◌>>=◌, ◌>>◌, fail_if}
use go_ratchet.Crypto.{Crypto, Sample, read_full}
use go_ratchet.DoubleRatchet.Pkcs7.{pkcs7_pad, pkcs7_unpad}

abbrev pub key_size : ℕ
key_size = 32

abbrev pub aes_block_size : ℕ
aes_block_size = 16

abbrev pub sha256_size : ℕ
sha256_size = 32

-- A call of a foreign function that returns a value or an error.
abbrev pub or_err : Option Bytes → Error → Result Bytes
or_err none e = err e
or_err (some b) e = ok b

-- `aes.NewCipher` takes keys of three sizes.
unfoldable pub new_cipher : Bytes → Result (Unit {0})
new_cipher key =
    fail_if (not (length key == 16 || length key == 24 || length key == 32)) Error.cipher_key_size

-- `NewCBCEncrypter` and `CryptBlocks` panic on a vector or a text that is not made of blocks.
abbrev pub crypt_blocks : Bytes → Bytes → Bytes → Result Bytes
crypt_blocks iv src out =
    if length iv == aes_block_size && length src % aes_block_size == 0 then ok out else panic

-- The three values that `encryptParams` returns.
pub record Params : Type 0 where
  pub enc_key : Bytes
  pub auth_key : Bytes
  pub iv : Bytes

-- What `dhKeyPair` leaves in its results: it sets the private key before it can fail.
pub record KeyPair : Type 0 where
  pub pub_key : Bytes
  pub priv_key : Bytes
  pub outcome : Result (Unit {0})

module _ (c : Crypto) where
  unfoldable pub pair_from : Sample → Option Bytes → KeyPair
  pair_from s none = record { pub_key = []; priv_key = s.buffer; outcome = err Error.x25519_failed }
  pair_from s (some p) = record { pub_key = p; priv_key = s.buffer; outcome = ok tt }

  unfoldable pub dh_key_pair : Sample → KeyPair
  unfolding pair_from
  dh_key_pair s =
      if s.failed
      then record { pub_key = []; priv_key = s.buffer; outcome = err Error.rand_failed }
      else pair_from s (c.x25519 s.buffer c.basepoint)

  unfoldable pub dh : Bytes → Bytes → Result Bytes
  dh priv_key pub_key =
      if not (length priv_key == key_size)
      then err Error.private_key_size
      else if not (length pub_key == key_size)
      then err Error.public_key_size
      else or_err (c.x25519 priv_key pub_key) Error.x25519_failed

  -- The next chain key and the message key.
  unfoldable pub chain_kdf : Bytes → Result (Bytes × Bytes)
  chain_kdf ck =
      if not (length ck == 32)
      then err Error.chain_key_size
      else ok (c.hmac_sha256 ck (0 ∷ []), c.hmac_sha256 ck (1 ∷ []))

  -- The next root key and a chain key.
  unfoldable pub root_kdf : Bytes → Bytes → Result (Bytes × Bytes)
  root_kdf rk shared =
      if not (length rk == 32)
      then err Error.chain_key_size
      else let kdf = c.hkdf_sha256 shared rk (2 ∷ []) in
        ok (read_full kdf 0 32, read_full kdf 32 32)

  -- The three consecutive reads of the stream.
  unfoldable pub derive_params : Bytes → Params
  derive_params msg_key =
      let kdf = c.hkdf_sha256 msg_key (replicate sha256_size 0) (3 ∷ []) in
      record {
        enc_key = read_full kdf 0 32;
        auth_key = read_full kdf 32 32;
        iv = read_full kdf 64 aes_block_size;
      }

  unfoldable pub encrypt_params : Bytes → Result Params
  encrypt_params msg_key =
      if not (length msg_key == 32) then err Error.message_key_size else ok (derive_params msg_key)

  unfoldable pub encrypt : Bytes → Bytes → Bytes → Result Bytes
  encrypt msg_key plaintext associated = do
    p ← encrypt_params msg_key
    padded ← pkcs7_pad plaintext aes_block_size
    new_cipher p.enc_key
    aes_cipher ← crypt_blocks p.iv padded (c.cbc_encrypt p.enc_key p.iv padded)
    ok (aes_cipher ++ c.hmac_sha256 p.auth_key associated)

  -- The part of `decrypt` behind the derivation of the keys.
  unfoldable pub open_cipher : Params → Bytes → Bytes → Result Bytes
  open_cipher p ciphertext associated = do
    new_cipher p.enc_key
    fail_if (ltb (length ciphertext) sha256_size) Error.ciphertext_short
    let aes_cipher = take (length ciphertext - sha256_size) ciphertext
    fail_if (not (length aes_cipher % aes_block_size == 0)) Error.ciphertext_unaligned
    padded ← crypt_blocks p.iv aes_cipher (c.cbc_decrypt p.enc_key p.iv aes_cipher)
    plaintext ← pkcs7_unpad padded aes_block_size
    let mac = drop (length aes_cipher) ciphertext
    fail_if (not (bytes_eq mac (c.hmac_sha256 p.auth_key associated))) Error.hmac_differs
    ok plaintext

  unfoldable pub decrypt : Bytes → Bytes → Bytes → Result Bytes
  decrypt msg_key ciphertext associated = do
    p ← encrypt_params msg_key
    open_cipher p ciphertext associated
