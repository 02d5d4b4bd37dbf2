-- ===== src/Disk/Loading.antt =====
-- A session with a peer is saved and loaded (session/disk-session.go).
use mathlib.Core.Path.{subst}
use go_ratchet.Prelude.{[], sym, ◌≡◌, refl, ap, ◌∙◌, some, Option, ok, Bytes, length, bytes_eq}
use go_ratchet.Prelude.Errors.{>>=-eq-ok}
use go_ratchet.DoubleRatchet.Ratchet.{DoubleRatchet}
use go_ratchet.DoubleRatchet.Persist.{GobLaws, IsLossless, encoded_or_err}
use go_ratchet.DoubleRatchet.Persist.Loading.{encoded-inv}
use go_ratchet.Xochimilco.Session.{Session}
use go_ratchet.Xochimilco.Session.Persist.{
  SavedSession, HasKeys, Restored, marshal_session, unmarshal_session, load_saved_session,
}
use go_ratchet.Disk.{
  DiskSession, SavedDiskSession, Libraries, zero_session, zero_disk_session, embedded, pointed,
  set_peer_key, load_peer_key, load_disk_session, unmarshal_disk_session,
}
use go_ratchet.Disk.Marshal.{marshal_disk_session, saved_disk_session}

-- What the libraries' documentation says. A public key has 32 bytes.
pub record LibraryLaws (l : Libraries) : Type 0 where
  pub gob_laws : GobLaws l.gob
  pub session-IsLossless :
      (s : SavedSession) (b : Bytes)
      → l.session_codec.encode s ≡ some b
      → IsLossless l.session_codec s b
  pub disk_session-IsLossless :
      (s : SavedDiskSession) (b : Bytes)
      → l.disk_codec.encode s ≡ some b
      → IsLossless l.disk_codec s b
  pub parse_id-key_string :
      (k : Bytes)
      → length k ≡ 32
      → (id : Bytes) × (l.parse_id (l.key_string k) ≡ some id) × (l.key_from_id id ≡ some k)

-- A loaded session: its ratchet, no identity key, and the verification of its peer's key.
abbrev pub reloaded : Session → Bytes → Option DoubleRatchet → Session
reloaded x key o = record x {
  double_ratchet = o;
  identity_key = [];
  verify_peer = λ peer. bytes_eq peer key;
}

ok-session : {x y : Session} → ok x ≡ ok y → x ≡ y
ok-session h = cc

ok-key : {x y : Bytes} → ok x ≡ ok y → x ≡ y
ok-key h = cc

module _ (l : Libraries) (laws : LibraryLaws l) where
  load_peer_key_lem :
      (k : Bytes) (s : DiskSession)
      → length k ≡ 32
      → load_peer_key l (l.key_string k) s ≡ (ok k, record s { peer_key = some k })
  unfolding load_peer_key
  load_peer_key_lem k s h =
      let (id, parsed, made) = laws.parse_id-key_string k h in rw parsed (rw made)

  load_disk_session_lem :
      (s : DiskSession) (x : Session) (k b : Bytes) (o : Option DoubleRatchet)
      → length k ≡ 32
      → unmarshal_session l.gob l.session_codec b zero_session ≡ (
        ok tt,
        record x { double_ratchet = o; identity_key = []; verify_peer = zero_session.verify_peer },
      )
      → load_disk_session l (saved_disk_session s (l.key_string k) b) zero_disk_session
        ≡ (ok tt, record s { peer_key = some k; session = some (reloaded x k o) })
  unfolding load_disk_session embedded set_peer_key
  load_disk_session_lem s x k b o h read = rw read (rw (load_peer_key_lem k _ h))

  -- If a session with a peer is saved, its ratchet's chain keys being nil or not empty and the
  -- peer's key having 32 bytes, then loading it succeeds and gives the same name, key, endpoint and
  -- pending answer, and the same session but for its identity key, which is gone, and the parts of
  -- its ratchet that are not kept; it accepts the peer's key and no other.
  pub load_saved_disk_session :
      (s : DiskSession) (x : Session) (k b : Bytes)
      → s.session ≡ some x
      → s.peer_key ≡ some k
      → length k ≡ 32
      → HasKeys x.double_ratchet
      → marshal_disk_session l s ≡ ok b
      → (o : Option DoubleRatchet) × Restored x.double_ratchet o
        × (unmarshal_disk_session l b zero_disk_session
            ≡ (ok tt, record s { session = some (reloaded x k o) }))
  unfolding marshal_disk_session unmarshal_disk_session
  load_saved_disk_session s x k b sx sk h keys made =
      let (x', e1, m1) = >>=-eq-ok (pointed s.session) _ made in
      let (sb, e2, m2) = >>=-eq-ok (marshal_session l.gob l.session_codec x') _ m1 in
      let (k', e3, m3) = >>=-eq-ok (pointed s.peer_key) _ m2 in
      let same_x : x' ≡ x = ok-session (sym e1 ∙ ap pointed sx) in
      let same_k : k' ≡ k = ok-key (sym e3 ∙ ap pointed sk) in
      let m4 =
        subst
          (λ q.
            encoded_or_err (l.disk_codec.encode (saved_disk_session s (l.key_string q) sb)) ≡ ok b)
          same_k m3 in
      let saved = saved_disk_session s (l.key_string k) sb in
      let fine = laws.disk_session-IsLossless saved b (encoded-inv _ b m4) in
      let (o, restored, read) =
        load_saved_session l.gob l.session_codec laws.gob_laws laws.session-IsLossless x
          zero_session sb keys refl
          (subst (λ q. marshal_session l.gob l.session_codec q ≡ ok sb) same_x e2) in
      (o, restored, rw (fine.fine, fine.same, load_disk_session_lem s x k sb o h read, sk))
