-- ===== src/DoubleRatchet/DhRatchet.antt =====
-- doubleratchet/dh_ratchet.go: the Diffie-Hellman ratchet with its root chain. A step writes its
-- fields one after the other and may fail in between, so it returns the ratchet, the two keys and
-- the error as they stand at that point. A nil slice is `[]`, but for the keys that the caller
-- compares with nil, which are options.
pub mod Agreement
use go_ratchet.Prelude.{
  if◌then◌else◌, ◌&&◌, not, Bool, true, false, Option, none, some, [], Error, Result, ok, err,
  panic, Bytes,
}
use go_ratchet.Crypto.{Crypto, Sample}
use go_ratchet.DoubleRatchet.Primitives.{KeyPair, dh_key_pair, dh, root_kdf}

pub record DhRatchet : Type 0 where
  pub root_key : Bytes
  pub dh_pub : Bytes
  pub dh_priv : Bytes
  pub peer_dh_pub : Bytes
  pub is_active : Bool
  pub is_initialized : Bool

-- What `step` returns, without the public key that its only caller drops.
pub record Stepped : Type 0 where
  pub ratchet : DhRatchet
  pub send_key : Option Bytes
  pub recv_key : Option Bytes
  pub outcome : Result (Unit {0})

-- Ending a step early.
abbrev pub stop : DhRatchet → Option Bytes → Option Bytes → Error → Stepped
stop r send recv e = record { ratchet = r; send_key = send; recv_key = recv; outcome = err e }

unfoldable pub dh_ratchet_passive : Bytes → Bytes → Bytes → DhRatchet
dh_ratchet_passive root_key dh_pub dh_priv = record {
  root_key = root_key;
  dh_pub = dh_pub;
  dh_priv = dh_priv;
  peer_dh_pub = [];
  is_active = false;
  is_initialized = false;
}

module _ (c : Crypto) where
  unfoldable pub dh_ratchet_active : Bytes → Bytes → Sample → Result DhRatchet
  dh_ratchet_active root_key peer_dh_pub s =
      let pair = dh_key_pair c s in
      elim pair.outcome [
        | ok _ ↦ ok (record {
          root_key = root_key;
          dh_pub = pair.pub_key;
          dh_priv = pair.priv_key;
          peer_dh_pub = peer_dh_pub;
          is_active = true;
          is_initialized = false;
        })
        | err e ↦ err e
        | panic ↦ panic
      ]

  -- `sendKey, err = dh(…)` and `r.rootKey, sendKey, err = rootKdf(r.rootKey, sendKey)`, the last
  -- two calls of a step; `recv` is the receiving key so far.
  unfoldable pub derive_send : DhRatchet → Option Bytes → Stepped
  derive_send r recv = elim (dh c r.dh_priv r.peer_dh_pub) [
    | err e ↦ stop r none recv e
    | panic ↦ record { ratchet = r; send_key = none; recv_key = recv; outcome = panic }
    | ok shared ↦ elim (root_kdf c r.root_key shared) [
      | err e ↦ stop (record r { root_key = [] }) none recv e
      | panic ↦ record { ratchet = r; send_key = none; recv_key = recv; outcome = panic }
      | ok (root, key) ↦ record {
        ratchet = record r { root_key = root };
        send_key = some key;
        recv_key = recv;
        outcome = ok tt;
      }
    ]
  ]

  -- The first step of the active party.
  unfoldable pub initial_step : DhRatchet → Stepped
  unfolding derive_send
  initial_step r =
      let o = derive_send r none in
      elim o.outcome [
        | ok _ ↦ record o { ratchet = record (o.ratchet) { is_initialized = true } }
        | err _ ↦ o
        | panic ↦ o
      ]

  -- A new key pair, and the sending key for it.
  unfoldable pub proceed : DhRatchet → Bytes → Sample → Stepped
  unfolding derive_send
  proceed r recv s =
      let pair = dh_key_pair c s in
      let r' = record r { dh_pub = pair.pub_key; dh_priv = pair.priv_key } in
      elim pair.outcome [
        | ok _ ↦ derive_send r' (some recv)
        | err e ↦ stop r' none (some recv) e
        | panic ↦ record { ratchet = r'; send_key = none; recv_key = some recv; outcome = panic }
      ]

  -- Any other step: first the receiving key, for the peer's new public key.
  unfoldable pub full_step : DhRatchet → Sample → Stepped
  unfolding proceed
  full_step r s = elim (dh c r.dh_priv r.peer_dh_pub) [
    | err e ↦ stop r none none e
    | panic ↦ record { ratchet = r; send_key = none; recv_key = none; outcome = panic }
    | ok shared ↦ elim (root_kdf c r.root_key shared) [
      | err e ↦ stop (record r { root_key = [] }) none none e
      | panic ↦ record { ratchet = r; send_key = none; recv_key = none; outcome = panic }
      | ok (root, recv) ↦ proceed (record r { root_key = root }) recv s
    ]
  ]

  unfoldable pub step : DhRatchet → Bytes → Sample → Stepped
  unfolding initial_step full_step
  step r peer_dh_pub s =
      if r.is_active && not r.is_initialized
      then initial_step r
      else full_step (record r { peer_dh_pub = peer_dh_pub }) s
