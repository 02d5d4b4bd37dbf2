-- ===== src/Client/Sent.antt =====
-- What `Send` has done once it succeeds (client/client.go).
use go_ratchet.Prelude.{◌≡◌, ap, ℕ, Bool, true, false, List, [], ◌∷◌, ◌++◌, Bytes}
use go_ratchet.Prelude.Methods.{Action, ◌>>◌}
use go_ratchet.Prelude.Yields.{Yields, Yields-lift, Yields-get, Yields-bind}
use go_ratchet.Crypto.{Crypto, Sample}
use go_ratchet.Xochimilco.Session.{enc_time, send}
use go_ratchet.Disk.{pointed, embedded, Libraries, DiskSession}
use go_ratchet.Disk.Manager.{to_ulid}
use go_ratchet.Client.Interface.{SessionManager}
use go_ratchet.Client.{
  Client, Event, message_sent, Salty, on_manager, dispatch, post, send_msg, run_on,
}
use go_ratchet.Client.Operations.{send_text}

module _ {M Text Ev : Type 0} where
  abbrev pub Posts : List (Bytes × Bytes) → List (Event Text Ev) → Client M Text Ev → Type 0
  Posts posted events me = (me.posted ≡ posted) × (me.events ≡ events)

  module _ {posted : List (Bytes × Bytes)} {events : List (Event Text Ev)} where
    manager-Yields :
        {A : Type 0} (m : Action M A)
        → Yields (Posts posted events) (on_manager m) (λ _. Posts posted events)
    manager-Yields m = record { after = λ me h a e. h }

    post-Yields :
        (post_failed : Bool) (endpoint text : Bytes)
        → Yields
            (Posts posted events)
            (post post_failed endpoint text)
            (λ _. Posts (posted ++ ((endpoint, text) ∷ [])) events)
    unfolding post
    post-Yields true endpoint text = record { after = λ me h a e. cc }
    post-Yields false endpoint text = record {
      after =
          λ me h a e. (ap (λ (p : List (Bytes × Bytes)). p ++ ((endpoint, text) ∷ [])) h.0, h.1);
    }

    dispatch-Yields :
        (e : Event Text Ev)
        → Yields (Posts posted events) (dispatch e) (λ _. Posts posted (events ++ (e ∷ [])))
    unfolding dispatch
    dispatch-Yields e = record {
      after = λ me h a e'. (h.0, ap (λ (es : List (Event Text Ev)). es ++ (e ∷ [])) h.1);
    }

module _ {M Text Ev : Type 0} (c : Crypto) (l : Libraries) (w : SessionManager M)
    (y : Salty Text Ev) where
  -- One message was posted, and one event was dispatched, which has the text that was posted.
  abbrev pub SentOne :
      Bytes → List (Bytes × Bytes) → List (Event Text Ev) → Client M Text Ev → Type 0
  SentOne them posted events me =
      (endpoint : Bytes) × (sealed : Bytes) × (uid : Bytes) × (raw : Bytes) × (msg : Text)
      × (me.posted ≡ posted ++ ((endpoint, sealed) ∷ []))
      × (me.events ≡ events ++ (message_sent uid them raw msg sealed ∷ []))

  sent-Yields :
      (uid them raw : Bytes) (msg : Text) (sealed : Bytes) (endpoint : Bytes)
      (posted : List (Bytes × Bytes)) (events : List (Event Text Ev))
      → Yields
          (Posts (posted ++ ((endpoint, sealed) ∷ [])) events)
          (dispatch (message_sent uid them raw msg sealed))
          (λ _. SentOne them posted events)
  sent-Yields uid them raw msg sealed endpoint posted events = record {
    after = λ me h a e.
        let d = (dispatch-Yields (message_sent uid them raw msg sealed)).after me h a e in
        (endpoint, sealed, uid, raw, msg, d.0, d.1);
  }

  posted-Yields :
      (post_failed : Bool) (r : Bytes × DiskSession) (uid them raw : Bytes) (msg : Text)
      (posted : List (Bytes × Bytes)) (events : List (Event Text Ev))
      → Yields
          (Posts posted events)
          (send_msg post_failed r.1 r.0
            >> (on_manager (w.put r.1) >> dispatch (message_sent uid them raw msg r.0)))
          (λ _. SentOne them posted events)
  unfolding send_msg
  posted-Yields post_failed r uid them raw msg posted events =
      Yields-bind _ _ (post-Yields post_failed r.1.endpoint r.0) λ _.
        Yields-bind (on_manager (w.put r.1)) (λ _. dispatch (message_sent uid them raw msg r.0))
          (manager-Yields (w.put r.1))
          λ _. sent-Yields uid them raw msg r.0 r.1.endpoint posted events

  pub send_text-Yields :
      (now later : ℕ) (t : Sample) (post_failed : Bool) (them text : Bytes) (evs : List Ev)
      (posted : List (Bytes × Bytes)) (events : List (Event Text Ev))
      → Yields
          (Posts posted events)
          (send_text c l w y now later t post_failed them text evs)
          (λ _. SentOne them posted events)
  unfolding send_text
  send_text-Yields now later t post_failed them text evs posted events =
      Yields-bind _ _ (manager-Yields (w.by_name them)) λ id.
        Yields-bind _ _ (manager-Yields (w.get id)) λ s.
          Yields-bind _ _ (Yields-lift (pointed s.session)) λ local.
            Yields-bind _ _ Yields-get λ me.
              let uid = to_ulid (enc_time c now local.local_uuid) in
              let msg = y.new_salty_text (y.ulid_time uid) me.addr.user me.addr.domain text evs in
              Yields-bind (run_on s (embedded (send c later (y.literal msg) t))) _ (Yields-lift _)
                λ r. posted-Yields post_failed r uid them (y.literal msg) msg posted events
