-- ===== src/DoubleRatchet/DhRatchet/Agreement.antt =====
-- The two parties' ratchets derive the same keys, turn by turn.
use go_ratchet.Prelude.{
  ◌≡◌, refl, ◌∙◌, arith, ◌&&◌, not, true, false, Option, none, some, ok, Bytes, length, [], ◌∷◌,
  eq→==,
}
use go_ratchet.Prelude.Errors.{◌>>=◌, >>=-eq-ok}
use go_ratchet.Crypto.{Crypto, CryptoLaws, Sample, read_full, length-read_full}
use go_ratchet.DoubleRatchet.Primitives.{dh_key_pair, dh, root_kdf}
use go_ratchet.DoubleRatchet.DhRatchet.{
  DhRatchet, dh_ratchet_active, dh_ratchet_passive, derive_send, proceed, full_step, step,
}

module _ (c : Crypto) where
  -- The ratchet takes full steps from here on.
  abbrev pub IsStarted : DhRatchet → Type 0
  IsStarted r = (r.is_active && not r.is_initialized) ≡ false

  -- A sample that gives a key pair, and a secret with a peer's key.
  pub record IsFresh (s : Sample) (peer : Bytes) : Type 0 where
    pub read : s.failed ≡ false
    pub length_key : length s.buffer ≡ 32
    pub public : (p : Bytes) × (c.x25519 s.buffer c.basepoint ≡ some p)
    pub shared : (k : Bytes) × (c.x25519 s.buffer peer ≡ some k)

  -- One party is a step ahead: it has derived a sending key, and a new root key from the other's.
  pub record Leads (lead : DhRatchet) (key : Bytes) (follow : DhRatchet) : Type 0 where
    pub lead_started : IsStarted lead
    pub follow_started : IsStarted follow
    pub length_lead : length lead.dh_priv ≡ 32
    pub length_follow : length follow.dh_priv ≡ 32
    pub lead_pair : c.x25519 lead.dh_priv c.basepoint ≡ some lead.dh_pub
    pub follow_pair : c.x25519 follow.dh_priv c.basepoint ≡ some follow.dh_pub
    pub derived :
        (dh c lead.dh_priv follow.dh_pub >>= root_kdf c follow.root_key) ≡ ok (lead.root_key, key)

  step_started :
      (r : DhRatchet) (peer : Bytes) (s : Sample)
      → IsStarted r
      → step c r peer s ≡ full_step c (record r { peer_dh_pub = peer }) s
  unfolding step
  step_started r peer s h = rw (h)

  full_step_lem :
      (r : DhRatchet) (s : Sample) (shared root recv : Bytes)
      → dh c r.dh_priv r.peer_dh_pub ≡ ok shared
      → root_kdf c r.root_key shared ≡ ok (root, recv)
      → full_step c r s ≡ proceed c (record r { root_key = root }) recv s
  unfolding full_step
  full_step_lem r s shared root recv h k = ground arith

  derive_send_lem :
      (r : DhRatchet) (recv : Option Bytes) (shared root key : Bytes)
      → dh c r.dh_priv r.peer_dh_pub ≡ ok shared
      → root_kdf c r.root_key shared ≡ ok (root, key)
      → derive_send c r recv ≡ record {
        ratchet = record r { root_key = root };
        send_key = some key;
        recv_key = recv;
        outcome = ok tt;
      }
  unfolding derive_send
  derive_send_lem r recv shared root key h k = ground arith

  proceed_lem :
      (r : DhRatchet) (recv p : Bytes) (s : Sample)
      → s.failed ≡ false
      → c.x25519 s.buffer c.basepoint ≡ some p
      → proceed c r recv s ≡ derive_send c (record r { dh_pub = p; dh_priv = s.buffer }) (some recv)
  unfolding proceed dh_key_pair
  proceed_lem r recv p s h k = ground arith

  dh_lem : (a p k : Bytes) → length a ≡ 32 → length p ≡ 32 → c.x25519 a p ≡ some k → dh c a p ≡ ok k
  unfolding dh
  dh_lem a p k h l e = rw (eq→== _ _ h, eq→== _ _ l, e)

  pub length-root :
      (rk k root key : Bytes)
      → root_kdf c rk k ≡ ok (root, key)
      → (length root ≡ 32) × (length key ≡ 32)
  unfolding root_kdf
  length-root rk k root key h =
      let kdf = c.hkdf_sha256 k rk (2 ∷ []) in
      ground (arith, length-read_full kdf 0 32, length-read_full kdf 32 32)

  -- The sending key of the party that is ahead has the size of a key.
  pub length-key : (lead follow : DhRatchet) (key : Bytes) → Leads lead key follow → length key ≡ 32
  length-key lead follow key l =
      let (shared, _, roots) =
        >>=-eq-ok (dh c lead.dh_priv follow.dh_pub) (root_kdf c follow.root_key) l.derived in
      let (_, size) = length-root follow.root_key shared lead.root_key key roots in size

  root_kdf_total : (rk k : Bytes) → length rk ≡ 32 → (p : Bytes × Bytes) × (root_kdf c rk k ≡ ok p)
  unfolding root_kdf
  root_kdf_total rk k h =
      let kdf = c.hkdf_sha256 k rk (2 ∷ []) in
      ((read_full kdf 0 32, read_full kdf 32 32), rw (eq→== _ _ h))

  -- The ratchet after a full step that went well.
  abbrev stepped : DhRatchet → Bytes → Bytes → Sample → Bytes → DhRatchet
  stepped r peer root s p = record {
    root_key = root;
    dh_pub = p;
    dh_priv = s.buffer;
    peer_dh_pub = peer;
    is_active = r.is_active;
    is_initialized = r.is_initialized;
  }

  -- A full step of which every part succeeds.
  step_lem :
      (r : DhRatchet) (peer shared mid recv p k root send : Bytes) (s : Sample)
      → IsStarted r
      → dh c r.dh_priv peer ≡ ok shared
      → root_kdf c r.root_key shared ≡ ok (mid, recv)
      → s.failed ≡ false
      → c.x25519 s.buffer c.basepoint ≡ some p
      → dh c s.buffer peer ≡ ok k
      → root_kdf c mid k ≡ ok (root, send)
      → step c r peer s ≡ record {
        ratchet = stepped r peer root s p;
        send_key = some send;
        recv_key = some recv;
        outcome = ok tt;
      }
  step_lem r peer shared mid recv p k root send s st d1 k1 rd pr d2 k2 =
      let r1 = record r { peer_dh_pub = peer } in
      let r2 = record r1 { root_key = mid } in
      step_started r peer s st
      ∙ full_step_lem r1 s shared mid recv d1 k1
      ∙ proceed_lem r2 recv p s rd pr
      ∙ derive_send_lem (record r2 { dh_pub = p; dh_priv = s.buffer }) (some recv) k root send d2 k2

  -- The active party's ratchet before its first step.
  abbrev begun : Bytes → Bytes → Bytes → Sample → DhRatchet
  begun root peer p s = record {
    root_key = root;
    dh_pub = p;
    dh_priv = s.buffer;
    peer_dh_pub = peer;
    is_active = true;
    is_initialized = false;
  }

  active_lem :
      (root peer p : Bytes) (s : Sample)
      → s.failed ≡ false
      → c.x25519 s.buffer c.basepoint ≡ some p
      → dh_ratchet_active c root peer s ≡ ok (begun root peer p s)
  unfolding dh_ratchet_active dh_key_pair
  active_lem root peer p s h k = ground arith

  initial_lem :
      (root peer p k mid key : Bytes) (s t : Sample) (ignored : Bytes)
      → dh c s.buffer peer ≡ ok k
      → root_kdf c root k ≡ ok (mid, key)
      → step c (begun root peer p s) ignored t ≡ record {
        ratchet = record (begun root peer p s) { root_key = mid; is_initialized = true };
        send_key = some key;
        recv_key = none;
        outcome = ok tt;
      }
  unfolding step
  initial_lem root peer p k mid key s t ignored h e = ground arith

  module _ (laws : CryptoLaws c) where
    open laws use {length-x25519, x25519_comm}

    -- Both ends of an exchange compute the same secret, or the same error.
    pub dh_comm :
        (a b pa pb : Bytes)
        → length a ≡ 32
        → length b ≡ 32
        → c.x25519 a c.basepoint ≡ some pa
        → c.x25519 b c.basepoint ≡ some pb
        → dh c a pb ≡ dh c b pa
    unfolding dh
    dh_comm a b pa pb la lb ea eb = rw (
      eq→== _ _ la,
      eq→== _ _ lb,
      eq→== _ _ (length-x25519 a c.basepoint pa ea),
      eq→== _ _ (length-x25519 b c.basepoint pb eb),
      x25519_comm a b pa pb ea eb,
    )

    -- The party that lags takes its step with the other's public key: it derives the receiving key
    -- that the other sends with, and is ahead itself afterwards.
    pub step-Leads :
        (lead follow : DhRatchet) (key : Bytes) (s : Sample)
        → Leads lead key follow
        → IsFresh s lead.dh_pub
        → let o = step c follow lead.dh_pub s in
          (next_key : Bytes) × (o.outcome ≡ ok tt)
          × (o.recv_key ≡ some key)
          × (o.send_key ≡ some next_key)
          × Leads o.ratchet next_key lead
    step-Leads lead follow key s l f =
        let (shared, secret, roots) =
          >>=-eq-ok (dh c lead.dh_priv follow.dh_pub) (root_kdf c follow.root_key) l.derived in
        let (p, pair) = f.public in
        let (k, agreed) = f.shared in
        let (root_size, _) = length-root follow.root_key shared lead.root_key key roots in
        let ((root, next_key), kdf) = root_kdf_total lead.root_key k root_size in
        let same =
          dh_comm follow.dh_priv lead.dh_priv follow.dh_pub lead.dh_pub l.length_follow
            l.length_lead l.follow_pair l.lead_pair in
        let sent =
          dh_lem s.buffer lead.dh_pub k f.length_key (length-x25519 _ _ _ l.lead_pair) agreed in
        rw
          (step_lem follow lead.dh_pub shared lead.root_key key p k root next_key s l.follow_started
            (same ∙ secret) roots f.read pair sent kdf)
          (
            next_key,
            refl,
            refl,
            refl,
            record {
              lead_started = l.follow_started;
              follow_started = l.lead_started;
              length_lead = f.length_key;
              length_follow = l.length_lead;
              lead_pair = pair;
              follow_pair = l.lead_pair;
              derived = rw sent kdf;
            },
          )

    -- The active party's first step puts it ahead of a passive party with the same root key whose
    -- public key it was given. The step reads neither the public key that it is given nor a sample.
    pub initial-Leads :
        (root dh_pub dh_priv ignored : Bytes) (active : DhRatchet) (s t : Sample)
        → length root ≡ 32
        → length dh_priv ≡ 32
        → c.x25519 dh_priv c.basepoint ≡ some dh_pub
        → IsFresh s dh_pub
        → dh_ratchet_active c root dh_pub s ≡ ok active
        → let o = step c active ignored t in
          (key : Bytes) × (o.outcome ≡ ok tt)
          × (o.recv_key ≡ none)
          × (o.send_key ≡ some key)
          × Leads o.ratchet key (dh_ratchet_passive root dh_pub dh_priv)
    unfolding dh_ratchet_passive
    initial-Leads root dh_pub dh_priv ignored active s t lr lp pair f made =
        let (p, mine) = f.public in
        let (k, agreed) = f.shared in
        let ((mid, key), kdf) = root_kdf_total root k lr in
        let sent = dh_lem s.buffer dh_pub k f.length_key (length-x25519 _ _ _ pair) agreed in
        let same : active ≡ begun root dh_pub p s = cc (active_lem root dh_pub p s f.read mine) in
        rw same (
          rw (initial_lem root dh_pub p k mid key s t ignored sent kdf) (
            key,
            refl,
            refl,
            refl,
            record {
              lead_started = refl;
              follow_started = refl;
              length_lead = f.length_key;
              length_follow = lp;
              lead_pair = mine;
              follow_pair = pair;
              derived = rw sent kdf;
            },
          ))
