-- ===== src/X3dh/Agreement.antt =====
-- Both parties of a key agreement come to the same session key.
use go_ratchet.Prelude.{
  ◌≡◌, refl, sym, ap, ◌∙◌, arith, ◌==◌, not, Bool, true, false, some, [], ◌∷◌, ◌++◌, Error, ok,
  Bytes, length, eq→==, replicate, drop, length-fit,
}
use go_ratchet.Prelude.Errors.{>>=-eq-ok, fail_if}
use go_ratchet.Crypto.{Crypto, CryptoLaws, Sample, length-read_full}
use go_ratchet.X3dh.Convert.{private_to_curve, public_to_curve, public_part}
use go_ratchet.X3dh.{
  Spk, Initial, exchange, kdf, exchange_all, create_initial_message, receive_initial_message,
  create_new_spk, sign,
}

module _ (c : Crypto) where
  -- A private identity key whose two conversions are a key pair of X25519.
  pub record IsIdentity (key : Bytes) : Type 0 where
    pub curve : Bytes
    pub converted : private_to_curve c key ≡ ok curve
    pub pair : c.x25519 curve c.basepoint ≡ some (public_to_curve c (public_part key))

  length-public_part : (key : Bytes) → length (public_part key) ≡ 32
  unfolding public_part
  length-public_part key = length-fit 32 (drop 32 key)

  exchange-some : (a p : Bytes) {k : Bytes} → exchange c a p ≡ ok k → c.x25519 a p ≡ some k
  unfolding exchange
  exchange-some a p h = ground arith

  fail_if-inv : (b : Bool) (e : Error) → fail_if (not b) e ≡ ok tt → b ≡ true
  fail_if-inv true e h = refl
  fail_if-inv false e h = cc

  -- The parts of a message that was created.
  record Created (id_key peer spk_pub spk_sig : Bytes) (s : Sample) (i : Initial) : Type 0 where
    verified : c.ed25519_verify peer spk_pub spk_sig ≡ true
    ephemeral : c.x25519 s.buffer c.basepoint ≡ some i.ek_pub
    curve : Bytes
    converted : private_to_curve c id_key ≡ ok curve
    out : Bytes
    exchanged :
        exchange_all c
          ((curve, spk_pub) ∷ (s.buffer, public_to_curve c peer) ∷ (s.buffer, spk_pub) ∷ [])
          (replicate 96 0)
        ≡ ok out
    key : i.sess_key ≡ kdf c out
    associated : i.associated_data ≡ public_part id_key ++ peer

  created :
      (id_key peer spk_pub spk_sig : Bytes) (s : Sample) (i : Initial)
      → create_initial_message c id_key peer spk_pub spk_sig s ≡ ok i
      → Created id_key peer spk_pub spk_sig s i
  unfolding create_initial_message
  created id_key peer spk_pub spk_sig s i h =
      let (_, _, h1) = >>=-eq-ok (fail_if (not (length peer == 32)) Error.peer_key_size) _ h in
      let (_, v, h2) =
        >>=-eq-ok (fail_if (not (c.ed25519_verify peer spk_pub spk_sig)) Error.spk_signature) _
          h1 in
      let (_, _, h3) = >>=-eq-ok (fail_if s.failed Error.rand_failed) _ h2 in
      let (ek, e, h4) = >>=-eq-ok (exchange c s.buffer c.basepoint) _ h3 in
      let (x, p, h5) = >>=-eq-ok (private_to_curve c id_key) _ h4 in
      let (out, o, h6) =
        >>=-eq-ok
          (exchange_all c
            ((x, spk_pub) ∷ (s.buffer, public_to_curve c peer) ∷ (s.buffer, spk_pub) ∷ [])
            (replicate 96 0))
          _ h5 in
      let made : record {
        sess_key = kdf c out;
        associated_data = public_part id_key ++ peer;
        ek_pub = ek;
      }
          ≡ i =
        cc h6 in
      record {
        verified = fail_if-inv (c.ed25519_verify peer spk_pub spk_sig) Error.spk_signature v;
        ephemeral = exchange-some s.buffer c.basepoint e ∙ ap (λ (x : Initial). some x.ek_pub) made;
        curve = x;
        converted = p;
        out = out;
        exchanged = o;
        key = ap (λ (x : Initial). x.sess_key) (sym made);
        associated = ap (λ (x : Initial). x.associated_data) (sym made);
      }

  -- If an initial message is created, then the signature of the prekey has been verified with the
  -- peer's identity key.
  pub create-verified :
      (id_key peer spk_pub spk_sig : Bytes) (s : Sample) (i : Initial)
      → create_initial_message c id_key peer spk_pub spk_sig s ≡ ok i
      → c.ed25519_verify peer spk_pub spk_sig ≡ true
  create-verified id_key peer spk_pub spk_sig s i h =
      let made = created id_key peer spk_pub spk_sig s i h in made.verified

  length-kdf : (km : Bytes) → length (kdf c km) ≡ 32
  unfolding kdf
  length-kdf km =
      length-read_full (c.hkdf_sha256 (replicate 32 0 ++ km) (replicate 32 0) (255 ∷ [])) 0 32

  pub length-sess_key :
      (id_key peer spk_pub spk_sig : Bytes) (s : Sample) (i : Initial)
      → create_initial_message c id_key peer spk_pub spk_sig s ≡ ok i
      → length i.sess_key ≡ 32
  length-sess_key id_key peer spk_pub spk_sig s i h =
      let made = created id_key peer spk_pub spk_sig s i h in
      ap length made.key ∙ length-kdf made.out

  -- The private half of a new signed prekey is what was read, and the public half belongs to it.
  pub create_new_spk-pair :
      (id_key : Bytes) (s : Sample) (spk : Spk)
      → create_new_spk c id_key s ≡ ok spk
      → (spk.spk_priv ≡ s.buffer) × (c.x25519 spk.spk_priv c.basepoint ≡ some spk.spk_pub)
  unfolding create_new_spk
  create_new_spk-pair id_key s spk h =
      let (_, _, h1) = >>=-eq-ok (fail_if s.failed Error.rand_failed) _ h in
      let (p, e, h2) = >>=-eq-ok (exchange c s.buffer c.basepoint) _ h1 in
      let (sig, _, h3) = >>=-eq-ok (sign c id_key p) _ h2 in
      let made : record { spk_pub = p; spk_priv = s.buffer; spk_sig = sig } ≡ spk = cc h3 in
      (
        ap (λ (x : Spk). x.spk_priv) (sym made),
        ap (λ (x : Spk). c.x25519 x.spk_priv c.basepoint) (sym made)
            ∙ exchange-some s.buffer c.basepoint e
            ∙ ap (λ (x : Spk). some x.spk_pub) made,
      )

  module _ (laws : CryptoLaws c) where
    exchange_comm :
        (a b pa pb : Bytes)
        → c.x25519 a c.basepoint ≡ some pa
        → c.x25519 b c.basepoint ≡ some pb
        → exchange c b pa ≡ exchange c a pb
    unfolding exchange
    exchange_comm a b pa pb ea eb = rw (laws.x25519_comm a b pa pb ea eb, exchange)

    -- Three exchanges come out the same if each of them does.
    exchange_all_cong :
        (a1 a2 a3 b1 b2 b3 p1 p2 p3 q1 q2 q3 out : Bytes)
        → exchange c a1 p1 ≡ exchange c b1 q1
        → exchange c a2 p2 ≡ exchange c b2 q2
        → exchange c a3 p3 ≡ exchange c b3 q3
        → exchange_all c ((a1, p1) ∷ (a2, p2) ∷ (a3, p3) ∷ []) out
          ≡ exchange_all c ((b1, q1) ∷ (b2, q2) ∷ (b3, q3) ∷ []) out
    unfolding exchange_all
    exchange_all_cong a1 a2 a3 b1 b2 b3 p1 p2 p3 q1 q2 q3 out e1 e2 e3 = rw (e1, e2, e3)

    -- If both identity keys convert to key pairs of X25519, and one party creates an initial
    -- message for the other's identity key and signed prekey, then the other, who holds the private
    -- halves, receives it with the same session key and the same associated data.
    pub receive-create :
        (ours theirs : Bytes) (spk : Spk) (s : Sample) (i : Initial)
        → IsIdentity ours
        → IsIdentity theirs
        → c.x25519 spk.spk_priv c.basepoint ≡ some spk.spk_pub
        → create_initial_message c ours (public_part theirs) spk.spk_pub spk.spk_sig s ≡ ok i
        → receive_initial_message c theirs (public_part ours) spk.spk_priv i.ek_pub
          ≡ ok (i.sess_key, i.associated_data)
    unfolding receive_initial_message
    receive-create ours theirs spk s i us them pair h =
        let made = created ours (public_part theirs) spk.spk_pub spk.spk_sig s i h in
        let same_curve : made.curve ≡ us.curve = cc (made.converted, us.converted) in
        let first = exchange_comm us.curve spk.spk_priv _ _ us.pair pair in
        let second = exchange_comm s.buffer them.curve _ _ made.ephemeral them.pair in
        let third = exchange_comm s.buffer spk.spk_priv _ _ made.ephemeral pair in
        let outs : exchange_all c
              ((spk.spk_priv, public_to_curve c (public_part ours))
                ∷ (them.curve, i.ek_pub)
                ∷ (spk.spk_priv, i.ek_pub)
                ∷ [])
              (replicate 96 0)
            ≡ ok made.out =
          exchange_all_cong _ _ _ _ _ _ _ _ _ _ _ _ (replicate 96 0) first second third
          ∙ ap
              (λ x.
                exchange_all c
                  ((x, spk.spk_pub)
                    ∷ (s.buffer, public_to_curve c (public_part theirs))
                    ∷ (s.buffer, spk.spk_pub)
                    ∷ [])
                  (replicate 96 0))
              (sym same_curve)
          ∙ made.exchanged in
        let size : length (public_part ours) == 32 ≡ true =
          eq→== (length (public_part ours)) 32 (length-public_part ours) in
        rw (size, them.converted, outs, made.key, made.associated)
