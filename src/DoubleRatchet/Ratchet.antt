-- ===== src/DoubleRatchet/Ratchet.antt =====
-- doubleratchet/doubleratchet.go: the Double Ratchet of one party. Its methods are actions on the
-- state; randomness is an argument, the sample that `dhKeyPair` would read.
pub mod Chain
pub mod Messages
pub mod Delivery
pub mod Turn
pub mod Conversing
pub mod Talk
pub mod Start
pub mod Forged
use go_ratchet.Prelude.{
  ℕ, zero, suc, ◌+◌, ◌-◌, ◌==◌, ltb, leb, if◌then◌else◌, not, Bool, true, false, Option, none, some,
  [], ◌++◌, Error, Result, ok, err, panic, Bytes, bytes_eq, length, take, drop,
}
use go_ratchet.Prelude.Methods.{Action, ◌>>=◌, ◌>>◌, lift, get, modify}
use go_ratchet.Prelude.Errors.{fail_if}
use go_ratchet.Crypto.{Crypto, Sample}
use go_ratchet.DoubleRatchet.Header.{Header, header_len, marshal, parse_header}
use go_ratchet.DoubleRatchet.KeyBuffer.{KeyBuffer, new_key_buffer, find, insert, max_skip_elements}
use go_ratchet.DoubleRatchet.Primitives.{chain_kdf, encrypt, decrypt}
use go_ratchet.DoubleRatchet.DhRatchet.{
  DhRatchet, Stepped, dh_ratchet_active, dh_ratchet_passive, step,
}

pub record DoubleRatchet : Type 0 where
  pub associated_data : Bytes
  pub dhr : DhRatchet
  pub peer_dh_pub : Bytes
  pub chain_key_send : Option Bytes
  pub chain_key_recv : Option Bytes
  pub send_no : ℕ
  pub recv_no : ℕ
  pub prev_send_no : ℕ
  pub msg_key_buffer : KeyBuffer

abbrev pub Method : Type 0 → Type 0
Method A = Action DoubleRatchet A

-- A nil key has no bytes.
abbrev pub key_bytes : Option Bytes → Bytes
key_bytes none = []
key_bytes (some k) = k

abbrev pub is_nil : Option Bytes → Bool
is_nil none = true
is_nil (some k) = false

-- A state with zero values but for the four that a constructor sets.
abbrev pub create : Bytes → DhRatchet → Bytes → DoubleRatchet
create associated dhr peer = record {
  associated_data = associated;
  dhr = dhr;
  peer_dh_pub = peer;
  chain_key_send = none;
  chain_key_recv = none;
  send_no = 0;
  recv_no = 0;
  prev_send_no = 0;
  msg_key_buffer = new_key_buffer;
}

unfoldable pub create_passive : Bytes → Bytes → Bytes → Bytes → DoubleRatchet
create_passive sess_key associated dh_pub dh_priv =
    create associated (dh_ratchet_passive sess_key dh_pub dh_priv) []

-- `dr.chainKey, msgKey, err = chainKdf(dr.chainKey)`: the new chain key is nil after an error.
abbrev pub derived : Result (Bytes × Bytes) → Option Bytes
derived (ok (ck, _)) = some ck
derived (err e) = none
derived panic = none

abbrev pub message_key : Result (Bytes × Bytes) → Result Bytes
message_key (ok (_, mk)) = ok mk
message_key (err e) = err e
message_key panic = panic

module _ (c : Crypto) where
  unfoldable pub create_active : Bytes → Bytes → Bytes → Sample → Result DoubleRatchet
  create_active sess_key associated peer_dh_pub s =
      elim (dh_ratchet_active c sess_key peer_dh_pub s) [
        | ok dhr ↦ ok (create associated dhr peer_dh_pub)
        | err e ↦ err e
        | panic ↦ panic
      ]

  unfoldable pub dh_step : Sample → Method (Unit {0})
  dh_step s dr =
      let o = step c dr.dhr dr.peer_dh_pub s in
      (
        o.outcome,
        record dr {
          prev_send_no = dr.send_no;
          send_no = 0;
          recv_no = 0;
          chain_key_send = o.send_key;
          chain_key_recv = o.recv_key;
          dhr = o.ratchet;
        },
      )

  unfoldable pub next_send_key : Method Bytes
  next_send_key dr =
      let r = chain_kdf c (key_bytes dr.chain_key_send) in
      (message_key r, record dr { chain_key_send = derived r })

  unfoldable pub next_recv_key : Method Bytes
  next_recv_key dr =
      let r = chain_kdf c (key_bytes dr.chain_key_recv) in
      (message_key r, record dr { chain_key_recv = derived r })

  -- The header of the next message; its number is used up.
  unfoldable pub take_header : Method Header
  take_header dr = (
    ok (record { dh_pub = dr.dhr.dh_pub; prev_no = dr.prev_send_no; msg_no = dr.send_no }),
    record dr { send_no = dr.send_no + 1 },
  )

  unfoldable pub when : Bool → Method (Unit {0}) → Method (Unit {0})
  when true m dr = m dr
  when false m dr = (ok tt, dr)

  unfoldable pub encrypt_message : Sample → Bytes → Method Bytes
  encrypt_message s plaintext = do
    dr ← get
    when (is_nil dr.chain_key_send) (dh_step s)
    msg_key ← next_send_key
    h ← take_header
    h_data ← lift (marshal h)
    ciphertext ← lift (encrypt c msg_key plaintext dr.associated_data)
    lift (ok (h_data ++ ciphertext))

  -- The loop of `skipMsgKeys`, of so many rounds: each derives a key and caches it.
  unfoldable pub skip_keys : ℕ → Method (Unit {0})
  skip_keys zero = lift (ok tt)
  skip_keys (suc rounds) = do
    msg_key ← next_recv_key
    modify (λ dr. record dr {
      msg_key_buffer = insert dr.peer_dh_pub dr.recv_no msg_key dr.msg_key_buffer;
      recv_no = dr.recv_no + 1;
    })
    skip_keys rounds

  unfoldable pub skip_msg_keys : ℕ → Method (Unit {0})
  skip_msg_keys until dr =
      if ltb (dr.recv_no + max_skip_elements) until
      then (err Error.skip_limit, dr)
      else if is_nil dr.chain_key_recv
      then (ok tt, dr)
      else skip_keys (until - dr.recv_no) dr

  -- A header with another public key than the peer's last one.
  unfoldable pub follow_peer : Header → Sample → Method (Unit {0})
  follow_peer h s = do
    skip_msg_keys h.prev_no
    modify (λ dr. record dr { peer_dh_pub = h.dh_pub })
    dh_step s

  unfoldable pub current_key : Method Bytes
  current_key = do
    msg_key ← next_recv_key
    modify (λ dr. record dr { recv_no = dr.recv_no + 1 })
    lift (ok msg_key)

  -- The three cases of the switch.
  unfoldable pub message_key_for : Header → Method Bytes
  message_key_for h dr =
      if ltb h.msg_no dr.recv_no
      then (find h.dh_pub h.msg_no dr.msg_key_buffer, dr)
      else if ltb dr.recv_no h.msg_no
      then (skip_msg_keys h.msg_no >> current_key) dr
      else current_key dr

  unfoldable pub decrypt_message : Sample → Bytes → Method Bytes
  decrypt_message s ciphertext = do
    lift (fail_if (leb (length ciphertext) header_len) Error.ciphertext_short)
    h ← lift (parse_header (take header_len ciphertext))
    dr ← get
    when (not (bytes_eq h.dh_pub dr.peer_dh_pub)) (follow_peer h s)
    msg_key ← message_key_for h
    lift (decrypt c msg_key (drop header_len ciphertext) dr.associated_data)
