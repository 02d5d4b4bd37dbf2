-- ===== src/Client/Answering.antt =====
-- `Chat` with a peer whose offer was received (client/client.go).
use go_ratchet.Prelude.{◌≡◌, refl, ap, ◌∙◌, Bool, false, some, [], ◌∷◌, ◌++◌, ℕ, ok, Bytes}
use go_ratchet.Crypto.{Crypto, Sample}
use go_ratchet.Xochimilco.Session.{Session}
use go_ratchet.Disk.{Libraries, DiskSession}
use go_ratchet.Disk.Manager.{to_ulid}
use go_ratchet.Client.Interface.{SessionManager}
use go_ratchet.Client.{Client, session_started, dispatch, post, send_msg}
use go_ratchet.Client.Operations.{local_id, send_pending, chat_with, chat}

-- A manager has a session with the peer, and an answer for it that is still to be sent. Once it was
-- put back without the answer, the manager has a session with the peer that has none.
pub record HasAnswer {M : Type 0} (w : SessionManager M) (sm : M) (them : Bytes) (s : DiskSession)
    (x : Session) (first : ℕ) (rest : Bytes) (after : M) : Type 0 where
  pub uid : Bytes
  pub named : w.by_name them sm ≡ (ok uid, sm)
  pub got : w.get uid sm ≡ (ok s, sm)
  pub inner : s.session ≡ some x
  pub pending : s.pending_ack ≡ first ∷ rest
  pub put_back : w.put (record s { pending_ack = [] }) sm ≡ (ok tt, after)
  pub named_after : w.by_name them after ≡ (ok uid, after)
  pub kept : DiskSession
  pub got_after : w.get uid after ≡ (ok kept, after)
  pub none_pending : kept.pending_ack ≡ []

local_id_lem :
    (s : DiskSession) (x : Session) → s.session ≡ some x → local_id s ≡ ok (to_ulid x.local_uuid)
local_id_lem s x h = rw (local_id, h) refl

module _ {M Text Ev : Type 0} (c : Crypto) (l : Libraries) (w : SessionManager M) where
  send_pending_lem :
      (them : Bytes) (s : DiskSession) (x : Session) (me : Client M Text Ev) (after : M)
      → s.session ≡ some x
      → w.put (record s { pending_ack = [] }) me.sm ≡ (ok tt, after)
      → send_pending c l w false them s me ≡ (
        ok tt,
        record me {
          sm = after;
          posted = me.posted ++ ((s.endpoint, s.pending_ack) ∷ []);
          events = me.events ++ (session_started (to_ulid x.local_uuid) them ∷ []);
        },
      )
  unfolding send_pending send_msg post dispatch
  send_pending_lem them s x me after h put =
      rw put (rw (local_id_lem (record s { pending_ack = [] }) x h))

  chat_with_pending :
      (p t : Sample) (post_failed : Bool) (them : Bytes) (s : DiskSession) (first : ℕ)
      (rest : Bytes) (me : Client M Text Ev)
      → s.pending_ack ≡ first ∷ rest
      → chat_with c l w p t post_failed them (ok s) me ≡ send_pending c l w post_failed them s me
  unfolding chat_with
  chat_with_pending p t post_failed them s first rest me h =
      rw (chat_with, h)
        (ap (λ q. send_pending c l w post_failed them (record s { pending_ack = q }) me) h)

  chat_got :
      (p t : Sample) (post_failed : Bool) (them uid : Bytes) (s : DiskSession)
      (me : Client M Text Ev)
      → w.by_name them me.sm ≡ (ok uid, me.sm)
      → w.get uid me.sm ≡ (ok s, me.sm)
      → chat c l w p t post_failed them me ≡ chat_with c l w p t post_failed them (ok s) me
  unfolding chat
  chat_got p t post_failed them uid s me named got = rw named (rw got)

  chat_idle :
      (p t : Sample) (post_failed : Bool) (them : Bytes) (s : DiskSession) (me : Client M Text Ev)
      → s.pending_ack ≡ []
      → chat_with c l w p t post_failed them (ok s) me ≡ (ok tt, me)
  unfolding chat_with
  chat_idle p t post_failed them s me h = rw (chat_with, h) refl

  -- If a client has a session with a peer, an answer that is still to be sent, and a manager that
  -- keeps the session without the answer once it is put back, then `Chat` posts the answer to the
  -- peer's endpoint and dispatches that the session started. `Chat` with this peer again, whether a
  -- post would fail or not, posts nothing and changes nothing.
  pub chat_again :
      (p t p' t' : Sample) (post_failed : Bool) (them : Bytes) (s : DiskSession) (x : Session)
      (first : ℕ) (rest : Bytes) (me : Client M Text Ev) (after : M)
      → HasAnswer w me.sm them s x first rest after
      → let (r, me') = chat c l w p t false them me in
        (r ≡ ok tt)
        × (me'.posted ≡ me.posted ++ ((s.endpoint, first ∷ rest) ∷ []))
        × (me'.events ≡ me.events ++ (session_started (to_ulid x.local_uuid) them ∷ []))
        × (chat c l w p' t' post_failed them me' ≡ (ok tt, me'))
  chat_again p t p' t' post_failed them s x first rest me after h =
      let done : Client M Text Ev = record me {
        sm = after;
        posted = me.posted ++ ((s.endpoint, s.pending_ack) ∷ []);
        events = me.events ++ (session_started (to_ulid x.local_uuid) them ∷ []);
      } in
      let one =
        chat_got p t false them h.uid s me h.named h.got
        ∙ chat_with_pending p t false them s first rest me h.pending
        ∙ send_pending_lem them s x me after h.inner h.put_back in
      rw one (
        refl,
        ap (λ q. me.posted ++ ((s.endpoint, q) ∷ [])) h.pending,
        refl,
        chat_got p' t' post_failed them h.uid h.kept done h.named_after h.got_after
            ∙ chat_idle p' t' post_failed them h.kept done h.none_pending,
      )
