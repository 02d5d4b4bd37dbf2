-- ===== src/DoubleRatchet/Primitives/RoundTrip.antt =====
-- What the recipient of an encrypted message gets back, and what the code authenticates.
use go_ratchet.Prelude.{
  replicate, false, ◌-◌, ◌%◌, ◌<◌, ◌≡◌, refl, arith, ltb, not, [], ◌∷◌, ◌++◌, Error, ok, Bytes,
  bytes_eq, bytes_eq_refl, length, drop, length-append, take-append, drop-append, le→ltb, eq→==,
}
use go_ratchet.Prelude.Errors.{◌>>=◌, ◌>>◌, fail_if}
use go_ratchet.Crypto.{Crypto, CryptoLaws, length-read_full}
use go_ratchet.DoubleRatchet.Pkcs7.{pkcs7_pad, pkcs7_unpad}
use go_ratchet.DoubleRatchet.Pkcs7.Laws.{unpad-pad, length-pkcs7_pad}
use go_ratchet.DoubleRatchet.Primitives.{
  Params, new_cipher, sha256_size, derive_params, encrypt_params, encrypt, open_cipher, decrypt,
}

-- The sizes that AES-256 and its CBC mode ask for.
pub record IsSized (p : Params) : Type 0 where
  pub length_key : length p.enc_key ≡ 32
  pub length_iv : length p.iv ≡ 16

pad_total : (src : Bytes) → (p : Bytes) × (pkcs7_pad src 16 ≡ ok p) × (pkcs7_unpad p 16 ≡ ok src)
unfolding pkcs7_pad
pad_total src = (_, refl, unpad-pad src 16 (omega arith) (omega arith))

new_cipher-32 : (key : Bytes) → length key ≡ 32 → new_cipher key ≡ ok tt
unfolding new_cipher
new_cipher-32 key h = ground arith

module _ (c : Crypto) where
  pub derive_params-IsSized : (mk : Bytes) → IsSized (derive_params c mk)
  unfolding derive_params
  derive_params-IsSized mk =
      let kdf = c.hkdf_sha256 mk (replicate sha256_size 0) (3 ∷ []) in
      record { length_key = length-read_full kdf 0 32; length_iv = length-read_full kdf 64 16 }

  pub encrypt_params-ok :
      (mk : Bytes) → length mk ≡ 32 → encrypt_params c mk ≡ ok (derive_params c mk)
  unfolding encrypt_params
  encrypt_params-ok mk h = ground arith

  -- Opening a body that is followed by 32 bytes: the body alone is decrypted, and the tail alone
  -- is compared.
  pub open_cipher-append :
      (p : Params) (body mac ad : Bytes)
      → IsSized p
      → length body % 16 ≡ 0
      → length mac ≡ 32
      → open_cipher c p (body ++ mac) ad ≡ (
          pkcs7_unpad (c.cbc_decrypt p.enc_key p.iv body) 16 >>= λ t.
          fail_if (not (bytes_eq mac (c.hmac_sha256 p.auth_key ad))) Error.hmac_differs >> ok t)
  unfolding open_cipher
  open_cipher-append p body mac ad s a m =
      let cut : length (body ++ mac) - 32 ≡ length body = omega (arith, length-append body mac) in
      let long : ltb (length (body ++ mac)) 32 ≡ false =
        le→ltb _ _ (omega (arith, length-append body mac)) in
      rw (
        long,
        cut,
        take-append (length body) body mac refl,
        drop-append (length body) body mac refl,
        new_cipher-32 _ s.length_key,
        eq→== _ _ s.length_iv,
        eq→== _ _ a,
      )

  -- What `encrypt` returns: the encrypted padding of the text, and the MAC of the associated data.
  pub encrypt_lem :
      (mk plain ad padded : Bytes)
      → length mk ≡ 32
      → pkcs7_pad plain 16 ≡ ok padded
      → let p = derive_params c mk in
        encrypt c mk plain ad
        ≡ ok (c.cbc_encrypt p.enc_key p.iv padded ++ c.hmac_sha256 p.auth_key ad)
  unfolding encrypt
  encrypt_lem mk plain ad padded h k =
      let s = derive_params-IsSized mk in
      let (a, _, _) = length-pkcs7_pad plain padded 16 k in
      rw (
        encrypt_params-ok mk h,
        k,
        new_cipher-32 _ s.length_key,
        eq→== _ _ s.length_iv,
        eq→== _ _ a,
      )

  module _ (laws : CryptoLaws c) where
    open laws use {length-hmac_sha256, length-cbc_encrypt, cbc_decrypt-cbc_encrypt}

    -- Decrypting any body with the MAC that belongs to the message key and the associated data.
    pub decrypt-body :
        (mk body ad plain : Bytes)
        → length mk ≡ 32
        → length body % 16 ≡ 0
        → (let p = derive_params c mk in pkcs7_unpad (c.cbc_decrypt p.enc_key p.iv body) 16)
          ≡ ok plain
        → decrypt c mk (body ++ c.hmac_sha256 (derive_params c mk).auth_key ad) ad ≡ ok plain
    unfolding decrypt
    decrypt-body mk body ad plain h a u =
        let p = derive_params c mk in
        let mac = c.hmac_sha256 p.auth_key ad in
        rw (
          encrypt_params-ok mk h,
          open_cipher-append p body mac ad (derive_params-IsSized mk) a
              (length-hmac_sha256 p.auth_key ad),
          u,
          bytes_eq_refl mac,
        )

    -- Under one 32-byte message key and the same associated data, what is encrypted is decrypted to
    -- the same text, and the ciphertext is not empty.
    pub decrypt-encrypt :
        (mk plain ad : Bytes)
        → length mk ≡ 32
        → (ct : Bytes) × (encrypt c mk plain ad ≡ ok ct)
          × (decrypt c mk ct ad ≡ ok plain)
          × (0 < length ct)
    decrypt-encrypt mk plain ad h =
        let (padded, padding, stripping) = pad_total plain in
        let (a, _, _) = length-pkcs7_pad plain padded 16 padding in
        let p = derive_params c mk in
        let s = derive_params-IsSized mk in
        let body = c.cbc_encrypt p.enc_key p.iv padded in
        let whole : length body % 16 ≡ 0 = rw (length-cbc_encrypt p.enc_key p.iv padded) a in
        let back : pkcs7_unpad (c.cbc_decrypt p.enc_key p.iv body) 16 ≡ ok plain =
          rw (cbc_decrypt-cbc_encrypt p.enc_key p.iv padded s.length_key s.length_iv a) stripping in
        let mac = c.hmac_sha256 p.auth_key ad in
        let long : 0 < length (body ++ mac) =
          omega (arith, length-append body mac, length-hmac_sha256 p.auth_key ad) in
        (
          body ++ mac,
          encrypt_lem mk plain ad padded h padding,
          decrypt-body mk body ad plain h whole back,
          long,
        )

    -- If everything but the last 32 bytes of a ciphertext is replaced by a body of whole blocks
    -- that decrypts to a padded text, then decryption accepts it with that text.
    pub decrypt_forged :
        (mk plain ad ct body text : Bytes)
        → length mk ≡ 32
        → encrypt c mk plain ad ≡ ok ct
        → length body % 16 ≡ 0
        → (let p = derive_params c mk in pkcs7_unpad (c.cbc_decrypt p.enc_key p.iv body) 16)
          ≡ ok text
        → decrypt c mk (body ++ drop (length ct - 32) ct) ad ≡ ok text
    decrypt_forged mk plain ad ct body text h e a u =
        let (padded, padding, _) = pad_total plain in
        let p = derive_params c mk in
        let head = c.cbc_encrypt p.enc_key p.iv padded in
        let mac = c.hmac_sha256 p.auth_key ad in
        let same : head ++ mac ≡ ct = cc (encrypt_lem mk plain ad padded h padding) in
        let cut : length (head ++ mac) - 32 ≡ length head =
          omega (arith, length-append head mac, length-hmac_sha256 p.auth_key ad) in
        rw (← same, cut, drop-append (length head) head mac refl)
          (decrypt-body mk body ad text h a u)
