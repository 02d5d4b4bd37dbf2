-- ===== src/Disk.antt =====
-- session/disk-session.go: a session with a peer, as it is kept on a disk. The keys of
-- github.com/keys-pub/keys, the ULIDs of github.com/oklog/ulid, file names, hashes and the formats
-- of encoding/gob and encoding/json are parameters.
pub mod Marshal
pub mod Loading
pub mod Manager
use go_ratchet.Prelude.{
  ℕ, ◌≡◌, if◌then◌else◌, Bool, true, false, Option, none, some, List, [], ◌∷◌, ◌++◌, Error, Result,
  ok, err, panic, Bytes, bytes_eq, length, fit,
}
use go_ratchet.Prelude.Maps.{Map}
use go_ratchet.Prelude.Methods.{Action, ◌>>=◌, ◌>>◌, and_then, lift, get, modify}
use go_ratchet.Crypto.{Crypto, Sample}
use go_ratchet.DoubleRatchet.Persist.{Codec, Decoded, Gob, encoded_or_err}
use go_ratchet.Xochimilco.Message.{Msg}
use go_ratchet.Xochimilco.Session.{
  Session, Call, Received, OfferSamples, receive_msg, make_offer_sealed,
}
use go_ratchet.Xochimilco.Session.Persist.{SavedSession, marshal_session, unmarshal_session}

-- A whole number. The position in a stream starts at -1.
pub data ℤ : Type 0 where
  pos : ℕ → ℤ
  negsuc : ℕ → ℤ

-- The anonymous structure that holds a session with a peer.
pub record SavedDiskSession : Type 0 where
  pub name : Bytes
  pub key : Bytes
  pub endpoint : Bytes
  pub pending_ack : Bytes
  pub session : Bytes

-- The structure that a manager is saved as, with the sessions by their peers' names.
pub record Index : Type 0 where
  pub position : ℤ
  pub sessions : Map Bytes

-- The libraries' functions.
pub record Libraries : Type 0 where
  -- `String` of a public key, `keys.ParseID`, and `keys.NewEdX25519PublicKeyFromID`
  pub key_string : Bytes → Bytes
  pub parse_id : Bytes → Option Bytes
  pub key_from_id : Bytes → Option Bytes
  -- The bytes of the X25519 key of a public key, and those of a private key.
  pub x25519_public : Bytes → Bytes
  pub x25519_private : Bytes → Bytes
  pub x25519_own_public : Bytes → Bytes
  -- `filepath.Join` of two elements, `Sum` of fnv.New128a, and `Entropy` of a ULID
  pub join : Bytes → Bytes → Bytes
  pub fnv128a : Bytes → Bytes
  pub entropy : Bytes → Bytes
  pub gob : Gob
  pub session_codec : Codec SavedSession
  pub disk_codec : Codec SavedDiskSession
  pub json : Codec Index

-- What a saltyim address is used for: the endpoint's URL, the key, the parts of the name, and the
-- capabilities of the endpoint.
pub record Addr : Type 0 where
  pub endpoint : Bytes
  pub key : Bytes
  pub user : Bytes
  pub domain : Bytes
  pub cap : Bytes

-- A nil pointer is `none`; `session` is the embedded session.
pub record DiskSession : Type 0 where
  pub name : Bytes
  pub peer_key : Option Bytes
  pub endpoint : Bytes
  pub pending_ack : Bytes
  pub session : Option Session

abbrev pub DiskCall : Type 0 → Type 0
DiskCall A = Action DiskSession A

-- `&xochimilco.Session{}`. Its nil callback is replaced before it is called.
abbrev pub zero_session : Session
zero_session = record {
  local_uuid = [];
  remote_uuid = [];
  me = [];
  identity_key = [];
  verify_peer = λ peer. false;
  spk_pub = [];
  spk_priv = [];
  double_ratchet = none;
}

-- `&Session{}`
abbrev pub zero_disk_session : DiskSession
zero_disk_session = record {
  name = [];
  peer_key = none;
  endpoint = [];
  pending_ack = [];
  session = none;
}

-- The value behind a pointer.
abbrev pub pointed : {A : Type 0} → Option A → Result A
pointed none = panic
pointed (some a) = ok a

-- A method of the embedded session.
unfoldable pub embedded : {A : Type 0} → Call A → DiskCall A
embedded m s = elim s.session [
  | none ↦ (panic, s)
  | some x ↦ let (r, x') = m x in (r, record s { session = some x' })
]

-- A call whose error is not looked at.
abbrev pub error_ignored : {A : Type 0} → Result A → Result (Unit {0})
error_ignored (ok a) = ok tt
error_ignored (err e) = ok tt
error_ignored panic = panic

-- The error of a call that returns a pointer.
abbrev pub some_or_err : Error → Option Bytes → Result Bytes
some_or_err e none = err e
some_or_err e (some b) = ok b

unfoldable pub set_peer_key : Bytes → Bytes → DiskCall (Unit {0})
set_peer_key name p = do
  modify (λ s. record s { name = name })
  embedded (modify λ x. record x { verify_peer = λ peer. bytes_eq peer p })

-- `NewSession`, which ends with a call of `SetPeerKey`.
unfoldable pub new_session : Bytes → Bytes → Bytes → Bytes → Addr → DiskSession
new_session id me key name them =
    (set_peer_key name them.key (record {
      name = [];
      peer_key = some them.key;
      endpoint = them.endpoint;
      pending_ack = [];
      session = some (record zero_session { identity_key = key; me = me; local_uuid = id });
    })).1

-- What is established leaves an answer that is still to be sent, and no plaintext.
unfoldable pub keep_ack : Received → DiskCall Received
keep_ack r =
    if r.is_established
    then modify (λ s. record s { pending_ack = r.plaintext })
      >> lift (ok (record r { plaintext = [] }))
    else lift (ok r)

unfoldable pub receive_disk_msg : Crypto → Msg → OfferSamples → Sample → DiskCall Received
receive_disk_msg c m s t = do r ← embedded (receive_msg c m s t); keep_ack r

module _ (l : Libraries) where
  -- `s.PeerKey, err = keys.NewEdX25519PublicKeyFromID(id)`, which sets nil with an error
  unfoldable pub load_peer_key : Bytes → DiskCall Bytes
  load_peer_key text = do
    id ← lift (some_or_err Error.bad_key_id (l.parse_id text))
    modify (λ s. record s { peer_key = l.key_from_id id })
    lift (some_or_err Error.bad_key_id (l.key_from_id id))

  unfoldable pub load_disk_session : SavedDiskSession → DiskCall (Unit {0})
  load_disk_session o = do
    modify (λ s. record s { session = some zero_session })
    embedded (λ x.
        let (r, x') = unmarshal_session l.gob l.session_codec o.session x in (error_ignored r, x'))
    key ← load_peer_key o.key
    set_peer_key o.name key
    modify (λ s. record s { endpoint = o.endpoint; pending_ack = o.pending_ack })

  unfoldable pub unmarshal_disk_session : Bytes → DiskCall (Unit {0})
  unmarshal_disk_session b s =
      let o = l.disk_codec.decode b in
      if o.failed then (err Error.gob_failed, s) else load_disk_session o.value s

  -- `Offer`
  unfoldable pub offer_disk_session : Crypto → Sample → Sample → DiskCall Bytes
  offer_disk_session c s t = do
    x ← get
    key ← lift (pointed x.peer_key)
    embedded (make_offer_sealed c (l.x25519_public key) s t)
