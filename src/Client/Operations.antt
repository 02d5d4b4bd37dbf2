-- ===== src/Client/Operations.antt =====
-- client/client.go: `Chat`, `Send`, `Close` and `SendSalty`. The Boolean that `Chat` returns is
-- left out, since Go does not say whether it is read before or after the call beside it.
use go_ratchet.Prelude.{
  ℕ, Bool, Option, none, some, List, [], ◌∷◌, Error, Result, ok, err, panic, Bytes,
}
use go_ratchet.Prelude.Methods.{Action, ◌>>=◌, ◌>>◌, lift, get}
use go_ratchet.Crypto.{Crypto, Sample}
use go_ratchet.Xochimilco.Session.{enc_time, send, close_session}
use go_ratchet.Disk.{Libraries, Addr, DiskSession, pointed, embedded, offer_disk_session}
use go_ratchet.Disk.Manager.{to_ulid}
use go_ratchet.Client.Interface.{SessionManager}
use go_ratchet.Client.{
  Client, offer_sent, session_started, message_sent, close_sent, session_closed, salty_sent, Salty,
  attempt, run_on, on_manager, dispatch, send_msg, post, present_or,
}

-- `toULID(session.LocalUUID)`
abbrev pub local_id : DiskSession → Result Bytes
local_id s = elim s.session [ none ↦ panic | some x ↦ ok (to_ulid x.local_uuid) ]

module _ {M Text Ev : Type 0} (c : Crypto) (l : Libraries) (w : SessionManager M) where
  -- A new session: its offer is posted before it is saved.
  unfoldable pub start_chat : Sample → Sample → Bool → Bytes → Action (Client M Text Ev) (Unit {0})
  start_chat p t post_failed them = do
    s ← on_manager (w.new them)
    (msg, s') ← run_on s (offer_disk_session l c p t)
    send_msg post_failed s' msg
    on_manager (w.put s')
    id ← lift (local_id s')
    dispatch (offer_sent id them msg)

  -- An answer that is still to be sent.
  unfoldable pub send_pending : Bool → Bytes → DiskSession → Action (Client M Text Ev) (Unit {0})
  send_pending post_failed them s = do
    send_msg post_failed s s.pending_ack
    let s' : DiskSession = record s { pending_ack = [] }
    on_manager (w.put s')
    id ← lift (local_id s')
    dispatch (session_started id them)

  -- What `Chat` does with the session, or the error, that it got.
  unfoldable pub chat_with :
      Sample → Sample → Bool → Bytes → Result DiskSession → Action (Client M Text Ev) (Unit {0})
  chat_with p t post_failed them (ok s) = elim s.pending_ack [
    | [] ↦ lift (ok tt)
    | x ∷ xs ↦ send_pending post_failed them s
  ]
  chat_with p t post_failed them (err Error.not_exist) = start_chat p t post_failed them
  chat_with p t post_failed them (err e) = lift (err e)
  chat_with p t post_failed them panic = lift panic

  unfoldable pub chat : Sample → Sample → Bool → Bytes → Action (Client M Text Ev) (Unit {0})
  chat p t post_failed them = do
    id ← on_manager (w.by_name them)
    got ← attempt (on_manager (w.get id))
    chat_with p t post_failed them got

  -- `Send`; the clock is read for the message's own id and again for the envelope.
  unfoldable pub send_text :
      Salty Text Ev
      → ℕ
      → ℕ
      → Sample
      → Bool
      → Bytes
      → Bytes
      → List Ev
      → Action (Client M Text Ev) (Unit {0})
  send_text y now later t post_failed them text events = do
    id ← on_manager (w.by_name them)
    s ← on_manager (w.get id)
    local ← lift (pointed s.session)
    me ← get
    let msg_id : Bytes = to_ulid (enc_time c now local.local_uuid)
    let msg : Text = y.new_salty_text (y.ulid_time msg_id) me.addr.user me.addr.domain text events
    (sealed, s') ← run_on s (embedded (send c later (y.literal msg) t))
    send_msg post_failed s' sealed
    on_manager (w.put s')
    dispatch (message_sent msg_id them (y.literal msg) msg sealed)

  -- `Close`: the session is deleted last.
  unfoldable pub close_chat : Bool → Bytes → Action (Client M Text Ev) (Unit {0})
  close_chat post_failed them = do
    id ← on_manager (w.by_name them)
    s ← on_manager (w.get id)
    (msg, s') ← run_on s (embedded (close_session c))
    send_msg post_failed s' msg
    own ← lift (local_id s')
    dispatch (close_sent own them msg)
    dispatch (session_closed own them)
    on_manager (w.delete s')

  -- `SendSalty`; `found` is what `saltyim.LookupAddr` finds.
  unfoldable pub send_salty :
      Salty Text Ev
      → ℕ
      → Option Addr
      → Bool
      → Bytes
      → Bytes
      → List Ev
      → Action (Client M Text Ev) (Unit {0})
  send_salty y now found post_failed them text events = do
    addr ← lift (present_or Error.lookup_failed found)
    me ← get
    let msg : Text = y.new_salty_text now addr.user addr.domain text events
    b ← lift (
        present_or Error.salty_failed
          (y.encrypt_salty (w.identity me.sm) (y.literal msg) (l.key_string addr.key)))
    post post_failed addr.endpoint b
    dispatch (salty_sent them addr msg (y.literal msg))
