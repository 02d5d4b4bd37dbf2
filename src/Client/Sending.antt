-- ===== src/Client/Sending.antt =====
-- `Send` of the client, by how posting its message ends (client/client.go).
use go_ratchet.Prelude.{ℕ, ◌≡◌, refl, true, false, some, List, [], ◌∷◌, ◌++◌, Error, ok, err, Bytes}
use go_ratchet.Crypto.{Crypto, Sample}
use go_ratchet.Xochimilco.Session.{Session, enc_time, send}
use go_ratchet.Disk.{Libraries, DiskSession, embedded}
use go_ratchet.Disk.Manager.{to_ulid}
use go_ratchet.Client.Interface.{SessionManager}
use go_ratchet.Client.{Client, message_sent, Salty, dispatch, post, send_msg}
use go_ratchet.Client.Operations.{send_text}

module _ {M Text Ev : Type 0} (c : Crypto) (l : Libraries) (w : SessionManager M)
    (y : Salty Text Ev) where
  -- The text of a message, with its time and its sender's name.
  abbrev pub id_of : ℕ → Session → Bytes
  id_of now x = to_ulid (enc_time c now x.local_uuid)

  abbrev pub text_of : Client M Text Ev → ℕ → Session → Bytes → List Ev → Text
  text_of me now x text events =
      y.new_salty_text (y.ulid_time (id_of now x)) me.addr.user me.addr.domain text events

  -- A session that the client has with a peer, and what it sends.
  pub record CanSend (me : Client M Text Ev) (them lit : Bytes) (later : ℕ) (t : Sample)
      (x x' : Session) (wire : Bytes) : Type 0 where
    pub uid : Bytes
    pub s : DiskSession
    pub named : w.by_name them me.sm ≡ (ok uid, me.sm)
    pub got : w.get uid me.sm ≡ (ok s, me.sm)
    pub inner : s.session ≡ some x
    pub sealed : send c later lit t x ≡ (ok wire, x')

  embedded_lem :
      (s : DiskSession) (x x' : Session) (lit wire : Bytes) (later : ℕ) (t : Sample)
      → s.session ≡ some x
      → send c later lit t x ≡ (ok wire, x')
      → embedded (send c later lit t) s ≡ (ok wire, record s { session = some x' })
  unfolding embedded
  embedded_lem s x x' lit wire later t h e = rw (embedded, h) (rw e refl)

  -- If the client has an active session with the peer, but its message cannot be posted, then
  -- `Send` gives the error and the client stays as it was: the session is not put back, although a
  -- message was encrypted with it.
  pub unsent :
      (me : Client M Text Ev) (them text wire : Bytes) (events : List Ev) (now later : ℕ)
      (t : Sample) (x x' : Session)
      → CanSend me them (y.literal (text_of me now x text events)) later t x x' wire
      → send_text c l w y now later t true them text events me ≡ (err Error.post_failed, me)
  unfolding send_text send_msg post
  unsent me them text wire events now later t x x' v =
      rw v.named
        (rw v.got (simp (v.inner) (rw (embedded_lem v.s x x' _ wire later t v.inner v.sealed))))

  -- If the message of `Send` is posted and the session is put back, then `Send` succeeds: the
  -- message went to the peer's endpoint, and its event is dispatched.
  pub sent_lem :
      (me : Client M Text Ev) (them text wire : Bytes) (events : List Ev) (now later : ℕ)
      (t : Sample) (x x' : Session) (sm' : M)
      → (v : CanSend me them (y.literal (text_of me now x text events)) later t x x' wire)
      → w.put (record (v.s) { session = some x' }) me.sm ≡ (ok tt, sm')
      → send_text c l w y now later t false them text events me ≡ (
        ok tt,
        record me {
          sm = sm';
          posted = me.posted ++ ((v.s.endpoint, wire) ∷ []);
          events =
              me.events
              ++ (message_sent
                    (id_of now x)
                    them
                    (y.literal (text_of me now x text events))
                    (text_of me now x text events)
                    wire
                  ∷ []);
        },
      )
  unfolding send_text send_msg post dispatch
  sent_lem me them text wire events now later t x x' sm' v put = rw v.named (
      rw v.got
        (simp (v.inner) (rw (embedded_lem v.s x x' _ wire later t v.inner v.sealed) (rw put))))
