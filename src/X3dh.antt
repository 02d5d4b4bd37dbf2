-- ===== src/X3dh.antt =====
-- The package x3dh: the key agreement in front of the Double Ratchet (x3dh/x3dh.go), over identity
-- keys that are converted from Ed25519 (x3dh/curve25519_conv.go).
pub mod Convert
pub mod Agreement
use go_ratchet.Prelude.{
  ℕ, ◌*◌, ◌==◌, ltb, if◌then◌else◌, not, Bool, true, false, Option, none, some, List, [], ◌∷◌, ◌++◌,
  Error, Result, ok, err, panic, Bytes, length, take, drop, fit, replicate,
}
use go_ratchet.Prelude.Errors.{◌>>=◌, ◌>>◌, fail_if}
use go_ratchet.Crypto.{Crypto, Sample, read_full}
use go_ratchet.X3dh.Convert.{private_to_curve, public_to_curve, public_part}

-- What `CreateNewSpk` returns.
pub record Spk : Type 0 where
  pub spk_pub : Bytes
  pub spk_priv : Bytes
  pub spk_sig : Bytes

-- What `CreateInitialMessage` returns.
pub record Initial : Type 0 where
  pub sess_key : Bytes
  pub associated_data : Bytes
  pub ek_pub : Bytes

module _ (c : Crypto) where
  -- curve25519.X25519
  unfoldable pub exchange : Bytes → Bytes → Result Bytes
  exchange k p = elim (c.x25519 k p) [ none ↦ err Error.x25519_failed | some s ↦ ok s ]

  -- `ed25519.Sign`, which panics on a key of another size
  unfoldable pub sign : Bytes → Bytes → Result Bytes
  sign key text = if length key == 64 then ok (c.ed25519_sign key text) else panic

  unfoldable pub create_new_spk : Bytes → Sample → Result Spk
  create_new_spk id_key s = do
    fail_if s.failed Error.rand_failed
    spk_pub ← exchange s.buffer c.basepoint
    spk_sig ← sign id_key spk_pub
    ok (record { spk_pub = spk_pub; spk_priv = s.buffer; spk_sig = spk_sig })

  -- 32 zero bytes stand in front of the key material, and the salt is zero.
  unfoldable pub kdf : Bytes → Bytes
  kdf km = read_full (c.hkdf_sha256 (replicate 32 0 ++ km) (replicate 32 0) (255 ∷ [])) 0 32

  -- The loop over the three exchanges: it appends to 96 zero bytes, which `make` put there.
  unfoldable pub exchange_all : List (Bytes × Bytes) → Bytes → Result Bytes
  exchange_all [] out = ok out
  exchange_all ((k, p) ∷ steps) out =
      let rest = λ (dh_tmp : Bytes). exchange_all steps (out ++ dh_tmp) in exchange k p >>= rest

  unfoldable pub create_initial_message : Bytes → Bytes → Bytes → Bytes → Sample → Result Initial
  create_initial_message id_key peer_id_key spk_pub spk_sig s = do
    fail_if (not (length peer_id_key == 32)) Error.peer_key_size
    fail_if (not (c.ed25519_verify peer_id_key spk_pub spk_sig)) Error.spk_signature
    fail_if s.failed Error.rand_failed
    ek_pub ← exchange s.buffer c.basepoint
    id_x_key ← private_to_curve c id_key
    let peer_x_key = public_to_curve c peer_id_key
    out ←
        exchange_all ((id_x_key, spk_pub) ∷ (s.buffer, peer_x_key) ∷ (s.buffer, spk_pub) ∷ [])
          (replicate 96 0)
    ok (record {
      sess_key = kdf out;
      associated_data = public_part id_key ++ peer_id_key;
      ek_pub = ek_pub;
    })

  unfoldable pub receive_initial_message : Bytes → Bytes → Bytes → Bytes → Result (Bytes × Bytes)
  receive_initial_message id_key peer_id_key spk_priv ek_pub = do
    fail_if (not (length peer_id_key == 32)) Error.peer_key_size
    id_x_key ← private_to_curve c id_key
    let peer_x_key = public_to_curve c peer_id_key
    out ←
        exchange_all ((spk_priv, peer_x_key) ∷ (id_x_key, ek_pub) ∷ (spk_priv, ek_pub) ∷ [])
          (replicate 96 0)
    ok (kdf out, peer_id_key ++ public_part id_key)
