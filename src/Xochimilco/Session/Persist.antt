-- ===== src/Xochimilco/Session/Persist.antt =====
-- xochimilco/session.go: saving and loading a session. encoding/gob is a parameter, as it is for a
-- Double Ratchet.
use go_ratchet.Prelude.{
  ◌≡◌, ◌==◌, ◌<◌, if◌then◌else◌, Option, none, some, List, [], Error, Result, ok, err, Bytes,
  length,
}
use go_ratchet.Prelude.Errors.{◌>>=◌, >>=-eq-ok}
use go_ratchet.DoubleRatchet.Ratchet.{DoubleRatchet}
use go_ratchet.DoubleRatchet.KeyBuffer.{Element}
use go_ratchet.DoubleRatchet.Persist.{
  marshal_dh_ratchet, marshal_key_buffer, Codec, Gob, GobLaws, IsLossless, encoded_or_err, chains,
  marshal_ratchet, unmarshal_ratchet, zero_ratchet,
}
use go_ratchet.DoubleRatchet.Persist.Loading.{
  IsKey, AllSame, loaded, load_saved, encoded-inv, not_empty,
}
use go_ratchet.Xochimilco.Session.{Session, Call}

-- The anonymous structure that holds a session.
pub record SavedSession : Type 0 where
  pub local_uuid : Bytes
  pub remote_uuid : Bytes
  pub me : Bytes
  pub spk_pub : Bytes
  pub spk_priv : Bytes
  pub double_ratchet : Bytes

abbrev pub saved_session : Session → Bytes → SavedSession
saved_session sess dr = record {
  local_uuid = sess.local_uuid;
  remote_uuid = sess.remote_uuid;
  me = sess.me;
  spk_pub = sess.spk_pub;
  spk_priv = sess.spk_priv;
  double_ratchet = dr;
}

-- The fields that are assigned from the structure.
abbrev pub assign_session : SavedSession → Session → Session
assign_session o sess = record sess {
  me = o.me;
  local_uuid = o.local_uuid;
  remote_uuid = o.remote_uuid;
  spk_pub = o.spk_pub;
  spk_priv = o.spk_priv;
}

-- A session's ratchet, if it has one, and what is loaded in its place.
abbrev pub HasKeys : Option DoubleRatchet → Type 0
HasKeys none = Unit {0}
HasKeys (some dr) = IsKey dr.chain_key_send × IsKey dr.chain_key_recv

pub data Restored : Option DoubleRatchet → Option DoubleRatchet → Type 0 where
  without : Restored none none
  within :
      (dr : DoubleRatchet) (fs : List Element)
      → AllSame fs (chains dr.msg_key_buffer)
      → Restored (some dr) (some (loaded dr zero_ratchet fs))

module _ (g : Gob) (sc : Codec SavedSession) where
  unfoldable pub marshal_ratchet_of : Option DoubleRatchet → Result Bytes
  marshal_ratchet_of none = ok []
  marshal_ratchet_of (some dr) = marshal_ratchet g dr

  unfoldable pub marshal_session : Session → Result Bytes
  marshal_session sess = do
    dr ← marshal_ratchet_of sess.double_ratchet
    encoded_or_err (sc.encode (saved_session sess dr))

  unfoldable pub load_double_ratchet : Bytes → Call (Unit {0})
  load_double_ratchet b sess =
      if length b == 0
      then (ok tt, sess)
      else let (r, dr) = unmarshal_ratchet g b zero_ratchet in
        (r, record sess { double_ratchet = some dr })

  unfoldable pub unmarshal_session : Bytes → Call (Unit {0})
  unmarshal_session b sess =
      let o = sc.decode b in
      if o.failed
      then (err Error.gob_failed, sess)
      else load_double_ratchet o.value.double_ratchet (assign_session o.value sess)

  module _ (laws : GobLaws g)
      (sc-IsLossless : (s : SavedSession) (b : Bytes)
        → sc.encode s ≡ some b
        → IsLossless sc s b) where
    marshal_ratchet-long :
        (dr : DoubleRatchet) (b : Bytes) → marshal_ratchet g dr ≡ ok b → 0 < length b
    unfolding marshal_ratchet
    marshal_ratchet-long dr b h =
        let (dhr, h1, rest) = >>=-eq-ok (marshal_dh_ratchet g dr.dhr) _ h in
        let (mkb, h2, h3) = >>=-eq-ok (marshal_key_buffer g dr.msg_key_buffer) _ rest in
        let l = laws.ratchet-IsLossless _ b (encoded-inv _ b h3) in l.nonempty

    load_double_ratchet_lem :
        (o : Option DoubleRatchet) (b : Bytes) (sess : Session)
        → sess.double_ratchet ≡ none
        → HasKeys o
        → marshal_ratchet_of o ≡ ok b
        → (o' : Option DoubleRatchet) × Restored o o'
          × (load_double_ratchet b sess ≡ (ok tt, record sess { double_ratchet = o' }))
    unfolding marshal_ratchet_of load_double_ratchet
    load_double_ratchet_lem none b sess empty k h =
        let e : [] ≡ b = cc h in (none, without, rw (← e, empty))
    load_double_ratchet_lem (some dr) b sess empty (ks, kr) h =
        let (fs, same, read) = load_saved g laws dr zero_ratchet b ks kr h in
        (
          some (loaded dr zero_ratchet fs),
          within dr fs same,
          rw (not_empty b (marshal_ratchet-long dr b h)) (rw read),
        )

    -- If a session is saved, the chain keys of its ratchet being nil or not empty, then loading it
    -- into a session without a ratchet succeeds. The loaded session has the fields of the saved
    -- one, but for its identity key and the verification of its peer, which are those that it had
    -- before; and it has a ratchet exactly where the saved one has, which is the saved one as a new
    -- one loads it.
    pub load_saved_session :
        (sess old : Session) (b : Bytes)
        → HasKeys sess.double_ratchet
        → old.double_ratchet ≡ none
        → marshal_session sess ≡ ok b
        → (o : Option DoubleRatchet) × Restored sess.double_ratchet o
          × (unmarshal_session b old ≡ (
            ok tt,
            record sess {
              double_ratchet = o;
              identity_key = old.identity_key;
              verify_peer = old.verify_peer;
            },
          ))
    unfolding marshal_session unmarshal_session
    load_saved_session sess old b k empty h =
        let (dr, h1, h2) = >>=-eq-ok (marshal_ratchet_of sess.double_ratchet) _ h in
        let o = saved_session sess dr in
        let l = sc-IsLossless o b (encoded-inv _ b h2) in
        let (o', same, read) =
          load_double_ratchet_lem sess.double_ratchet dr (assign_session o old) empty k h1 in
        (o', same, rw (l.fine, l.same) (read))
