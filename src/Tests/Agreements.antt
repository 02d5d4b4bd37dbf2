-- ===== src/Tests/Agreements.antt =====
-- A key agreement between two parties with identity keys.
use go_ratchet.Prelude.{◌≡◌, refl, ok, false, ◌∷◌, ◌++◌, Bytes, replicate, bytes_eq}
use go_ratchet.Crypto.{Sample}
use go_ratchet.X3dh.{
  Spk, Initial, create_initial_message, receive_initial_message, exchange_all, exchange, kdf,
}
use go_ratchet.X3dh.Convert.{
  public_part, private_to_curve, public_to_curve, montgomery_u, inverse_or_same, little_endian,
  to_little_endian,
}
use go_ratchet.X3dh.Agreement.{IsIdentity, receive-create}
use go_ratchet.Tests.Toy.{toy, toy_laws}

-- The public key is the point whose y is 1; the private scalar is zero.
abbrev public_key : Bytes
public_key = 1 ∷ replicate 31 0

abbrev pub ours : Bytes
ours = replicate 32 1 ++ public_key

abbrev pub theirs : Bytes
theirs = replicate 32 2 ++ public_key

abbrev sample : Sample
sample = record { buffer = replicate 32 6; failed = false }

abbrev pub prekey : Spk
prekey = record {
  spk_pub = replicate 32 4;
  spk_priv = replicate 32 4;
  spk_sig = replicate 32 4 ++ replicate 32 0;
}

abbrev pub initial : Initial
initial = record {
  sess_key = kdf toy (((replicate 96 0 ++ replicate 32 4) ++ replicate 32 6) ++ replicate 32 10);
  associated_data = public_key ++ public_key;
  ek_pub = replicate 32 6;
}

pub our-IsIdentity : IsIdentity toy ours
unfolding private_to_curve public_to_curve public_part montgomery_u inverse_or_same little_endian
    to_little_endian
our-IsIdentity = record { curve = replicate 32 0; converted = refl; pair = refl }

pub their-IsIdentity : IsIdentity toy theirs
unfolding private_to_curve public_to_curve public_part montgomery_u inverse_or_same little_endian
    to_little_endian
their-IsIdentity = record { curve = replicate 32 0; converted = refl; pair = refl }

pub made :
    create_initial_message toy ours (public_part theirs) prekey.spk_pub prekey.spk_sig sample
    ≡ ok initial
unfolding create_initial_message private_to_curve public_to_curve public_part montgomery_u
    inverse_or_same little_endian to_little_endian exchange_all exchange bytes_eq
made = refl

receive-create_example :
    receive_initial_message toy theirs (public_part ours) prekey.spk_priv initial.ek_pub
    ≡ ok (initial.sess_key, initial.associated_data)
receive-create_example =
    receive-create toy toy_laws ours theirs prekey sample initial our-IsIdentity their-IsIdentity
      refl made
