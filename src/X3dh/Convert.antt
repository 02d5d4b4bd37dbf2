-- ===== src/X3dh/Convert.antt =====
-- x3dh/curve25519_conv.go: X25519 keys from Ed25519 keys. A big.Int below the modulus is a number;
-- all of the arithmetic is taken modulo 2 ^ 255 - 19, as the last step of the code does.
use go_ratchet.Prelude.{
  ℕ, zero, suc, ◌+◌, ◌-◌, ◌*◌, ◌/◌, ◌%◌, ◌^◌, leb, if◌then◌else◌, none, some, [], ◌∷◌, Result, ok,
  panic, Bytes, length, take, drop, fit,
}
use go_ratchet.Crypto.{Crypto}

abbrev pub curve25519_p : ℕ
curve25519_p = 2 ^ 255 - 19

-- The number that some bytes stand for, the lowest first.
unfoldable pub little_endian : Bytes → ℕ
little_endian [] = 0
little_endian (b ∷ bs) = b + 256 * little_endian bs

-- The lowest bytes of a number.
unfoldable pub to_little_endian : ℕ → ℕ → Bytes
to_little_endian zero n = []
to_little_endian (suc k) n = n % 256 ∷ to_little_endian k (n / 256)

-- An Ed25519 private key is a seed of 32 bytes and the public key: `Public` copies the latter.
unfoldable pub public_part : Bytes → Bytes
public_part key = fit 32 (drop 32 key)

module _ (c : Crypto) where
  -- `Seed` panics on a key that is too short, as a nil key is.
  unfoldable pub private_to_curve : Bytes → Result Bytes
  private_to_curve key =
      if leb 32 (length key) then ok (take 32 (c.sha512 (take 32 key))) else panic

  -- 1 / (1 - y); where there is no inverse, ModInverse leaves 1 - y.
  unfoldable pub inverse_or_same : ℕ → ℕ
  inverse_or_same d = elim (c.mod_inverse d curve25519_p) [ none ↦ d | some i ↦ i ]

  -- The map u = (1 + y) / (1 - y); the sign bit of the key is masked out.
  unfoldable pub montgomery_u : ℕ → ℕ
  unfolding inverse_or_same
  montgomery_u n =
      let y = n % 2 ^ 255 in
      let d = (1 + 2 * curve25519_p - y) % curve25519_p in
      (y + 1) * inverse_or_same d % curve25519_p

  unfoldable pub public_to_curve : Bytes → Bytes
  unfolding montgomery_u to_little_endian little_endian
  public_to_curve key = to_little_endian 32 (montgomery_u (little_endian key))
