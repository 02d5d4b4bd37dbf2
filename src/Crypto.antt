-- ===== src/Crypto.antt =====
-- The cryptographic functions that the program calls: golang.org/x/crypto (curve25519, hkdf,
-- nacl/box) and Go's crypto packages. They are parameters of the model, with the documented facts
-- on which the protocol rests. No function is assumed to be hard to invert.
use go_ratchet.Prelude.{
  ℕ, zero, suc, ◌%◌, ◌≡◌, Bool, Option, some, [], ◌∷◌, refl, ap, Bytes, length,
}

-- What a call of crypto/rand.Read does: the bytes left in the buffer, and whether it failed.
pub record Sample : Type 0 where
  pub buffer : Bytes
  pub failed : Bool

pub record Crypto : Type 0 where
  -- curve25519.X25519 and its base point; `none` is its error.
  pub x25519 : Bytes → Bytes → Option Bytes
  pub basepoint : Bytes
  -- hmac.New(sha256.New, key) fed with one message
  pub hmac_sha256 : Bytes → Bytes → Bytes
  -- The i-th byte of hkdf.New(sha256.New, secret, salt, info).
  pub hkdf_sha256 : Bytes → Bytes → Bytes → ℕ → ℕ
  -- AES in CBC mode, of a key, an initial vector and whole blocks
  pub cbc_encrypt : Bytes → Bytes → Bytes → Bytes
  pub cbc_decrypt : Bytes → Bytes → Bytes → Bytes
  -- big.Int's ModInverse of a number and a modulus; `none` where they are not coprime
  pub mod_inverse : ℕ → ℕ → Option ℕ
  -- ULID.SetTime of github.com/oklog/ulid: a ULID with the milliseconds of a clock. Where it fails,
  -- which the program ignores, the ULID is unchanged.
  pub ulid_set_time : ℕ → Bytes → Bytes
  pub sha512 : Bytes → Bytes
  -- ed25519.Sign and ed25519.Verify, of a key, a message and (for the latter) a signature
  pub ed25519_sign : Bytes → Bytes → Bytes
  pub ed25519_verify : Bytes → Bytes → Bytes → Bool
  -- box.SealAnonymous, of a text, the recipient's public key and what is read from rand;
  -- box.OpenAnonymous, of a box and the recipient's public and private key
  pub seal_anonymous : Bytes → Bytes → Sample → Option Bytes
  pub open_anonymous : Bytes → Bytes → Bytes → Option Bytes

-- What their documentation says.
pub record CryptoLaws (c : Crypto) : Type 0 where
  pub length-x25519 : (k p s : Bytes) → c.x25519 k p ≡ some s → length s ≡ 32
  pub x25519_comm :
      (a b pa pb : Bytes)
      → c.x25519 a c.basepoint ≡ some pa
      → c.x25519 b c.basepoint ≡ some pb
      → c.x25519 a pb ≡ c.x25519 b pa
  pub length-hmac_sha256 : (k m : Bytes) → length (c.hmac_sha256 k m) ≡ 32
  pub length-cbc_encrypt : (k v d : Bytes) → length (c.cbc_encrypt k v d) ≡ length d
  pub cbc_decrypt-cbc_encrypt :
      (k v d : Bytes)
      → length k ≡ 32
      → length v ≡ 16
      → length d % 16 ≡ 0
      → c.cbc_decrypt k v (c.cbc_encrypt k v d) ≡ d

-- Reading the n bytes of a key stream that begin at an offset. The program reads at most 80 bytes
-- of a stream, far below the 8160 at which HKDF ends, so `io.ReadFull` does not fail.
unfoldable pub read_full : (ℕ → ℕ) → ℕ → ℕ → Bytes
read_full stream off zero = []
read_full stream off (suc n) = stream off ∷ read_full stream (suc off) n

pub length-read_full : (stream : ℕ → ℕ) (off n : ℕ) → length (read_full stream off n) ≡ n
unfolding read_full
length-read_full stream off zero = refl
length-read_full stream off (suc n) = ap suc (length-read_full stream (suc off) n)
