-- ===== src/Client/Receiving.antt =====
-- How the client handles a data message, and one for which it has no session (client/client.go).
use go_ratchet.Prelude.{
  ◌≡◌, refl, Bool, true, false, some, none, [], ◌∷◌, ◌++◌, Error, ok, err, Bytes,
}
use go_ratchet.Crypto.{Crypto, Sample}
use go_ratchet.Xochimilco.Message.{
  offer, ack, close, sealed, Msg, MessageType, DataMessage, payload, id, parse, unmarshal_message,
}
use go_ratchet.Xochimilco.Session.{Session, OfferSamples, receive_msg}
use go_ratchet.Disk.{Libraries, DiskSession, embedded, keep_ack, receive_disk_msg}
use go_ratchet.Disk.Manager.{to_ulid}
use go_ratchet.Client.Interface.{SessionManager}
use go_ratchet.Client.{Client, Input, message_received, Salty, parsed_text, dispatch, reported}
use go_ratchet.Client.Inputs.{
  is_ratchet, next, move_on, unsealed, session_for, receive_for, receive_ratchet, read_ratchet,
  handle_ratchet, input, dispatch_pending, dispatch_received, dispatch_text, existing,
}
use go_ratchet.Client.Handlers.{affixes, input_one_handler}

-- An offer names its sender.
abbrev pub is_offer : Msg → Bool
is_offer (offer m) = true
is_offer (ack m) = false
is_offer (payload m) = false
is_offer (close m) = false
is_offer (sealed b) = false

module _ {M Text Ev : Type 0} (c : Crypto) (l : Libraries) (w : SessionManager M)
    (y : Salty Text Ev) where
  -- The client after the position in its stream was moved.
  abbrev pub moved_on : Input → Client M Text Ev → Client M Text Ev
  moved_on i me = record me { sm = w.set_position (next i.position) me.sm }

  receive_disk_lem :
      (m : DataMessage) (o : OfferSamples) (t : Sample) (s : DiskSession) (x x' : Session)
      (plain : Bytes)
      → s.session ≡ some x
      → receive_msg c (payload m) o t x
        ≡ (ok (record { is_established = false; is_closed = false; plaintext = plain }), x')
      → receive_disk_msg c (payload m) o t s ≡ (
        ok (record { is_established = false; is_closed = false; plaintext = plain }),
        record s { session = some x' },
      )
  unfolding receive_disk_msg keep_ack embedded
  receive_disk_lem m o t s x x' plain h e = rw (embedded, h) (rw e refl)

  dispatch_pending_lem :
      (uid : Bytes) (s : DiskSession) (me : Client M Text Ev)
      → s.pending_ack ≡ []
      → dispatch_pending c l w y uid s me ≡ (ok tt, me)
  unfolding dispatch_pending
  dispatch_pending_lem uid s me h = rw (dispatch_pending, h) refl

  receive_for_lem :
      (m : DataMessage) (o : OfferSamples) (t : Sample) (s : DiskSession) (x x' : Session)
      (plain : Bytes) (text : Text) (me : Client M Text Ev) (sm' : M)
      → s.session ≡ some x
      → s.pending_ack ≡ []
      → receive_msg c (payload m) o t x
        ≡ (ok (record { is_established = false; is_closed = false; plaintext = plain }), x')
      → w.put (record s { session = some x' }) me.sm ≡ (ok tt, sm')
      → y.parse_salty plain ≡ some (parsed_text text)
      → receive_for c l w y (payload m) o t (some s) me ≡ (
        ok tt,
        record me {
          sm = sm';
          events = me.events ++ (message_received (to_ulid m.uuid) s.name plain text ∷ []);
        },
      )
  unfolding receive_for dispatch_received dispatch_text dispatch
  receive_for_lem m o t s x x' plain text me sm' h p e put parses =
      rw (receive_disk_lem m o t s x x' plain h e) (
        rw (dispatch_pending_lem (to_ulid m.uuid) (record s { session = some x' }) me p)
          (rw put (rw parses)))

  parse_lem :
      (b : Bytes) (t : MessageType) (m : Msg) → unmarshal_message b ≡ ok (t, m) → parse b ≡ ok m
  unfolding parse
  parse_lem b t m h = rw h

  read_ratchet_lem :
      (i : Input) (m : Msg) (o : OfferSamples) (t : Sample) (me : Client M Text Ev)
      → parse i.payload ≡ ok m
      → read_ratchet c l w y i o t me ≡ receive_ratchet c l w y i m o t me
  unfolding read_ratchet
  read_ratchet_lem i m o t me h = rw h

  -- An input that is handled as a ratchet's message, without an error.
  handled :
      (i : Input) (m : Msg) (o : OfferSamples) (t : Sample) (me after : Client M Text Ev)
      → is_ratchet i.payload ≡ true
      → parse i.payload ≡ ok m
      → receive_ratchet c l w y i m o t me ≡ (ok tt, after)
      → input c l w y i o t me ≡ (ok tt, after)
  unfolding handle_ratchet reported
  handled i m o t me after h p r =
      rw (input_one_handler c l w y i o t me, h) (rw (read_ratchet_lem i m o t me p) (rw r))

  session_for_data :
      (uid : Bytes) (m : DataMessage) (s : DiskSession) (me : Client M Text Ev) (sm' : M)
      → w.get uid me.sm ≡ (ok s, sm')
      → session_for c l w y uid (payload m) me ≡ (ok (some s), record me { sm = sm' })
  unfolding session_for existing
  session_for_data uid m s me sm' h = rw h

  session_for_unknown :
      (uid : Bytes) (m : Msg) (me : Client M Text Ev)
      → is_offer m ≡ false
      → w.get uid me.sm ≡ (err Error.not_exist, me.sm)
      → session_for c l w y uid m me ≡ (ok none, me)
  unfolding session_for existing
  session_for_unknown uid (offer m) me f h = cc
  session_for_unknown uid (ack m) me f h = rw h
  session_for_unknown uid (payload m) me f h = rw h
  session_for_unknown uid (close m) me f h = rw h
  session_for_unknown uid (sealed m) me f h = rw h

  -- If a message is read, and unsealed if it is sealed, and is then no offer, and the manager has
  -- no session of the id that the message had before it was unsealed, then the client does nothing
  -- but move its position in the stream.
  pub unknown_session :
      (i : Input) (t' : MessageType) (m m' : Msg) (o : OfferSamples) (t : Sample)
      (me : Client M Text Ev)
      → unmarshal_message i.payload ≡ ok (t', m)
      → unsealed c l w y (moved_on i me).sm m ≡ ok m'
      → is_offer m' ≡ false
      → w.get (to_ulid (id m)) (moved_on i me).sm ≡ (err Error.not_exist, (moved_on i me).sm)
      → input c l w y i o t me ≡ (ok tt, moved_on i me)
  unfolding receive_ratchet move_on receive_for
  unknown_session i t' m m' o t me p u f g =
      handled i m o t me (moved_on i me) (affixes i.payload t' m p) (parse_lem i.payload t' m p)
        (rw u (rw (session_for_unknown (to_ulid (id m)) m' (moved_on i me) f g)))

  -- A data message, from the text of the input to the event.
  pub handle_data :
      (i : Input) (t' : MessageType) (m : DataMessage) (o : OfferSamples) (t : Sample)
      (s : DiskSession) (x x' : Session) (plain : Bytes) (text : Text) (me : Client M Text Ev)
      (sm' : M)
      → unmarshal_message i.payload ≡ ok (t', payload m)
      → w.get (to_ulid m.uuid) (moved_on i me).sm ≡ (ok s, (moved_on i me).sm)
      → s.session ≡ some x
      → s.pending_ack ≡ []
      → receive_msg c (payload m) o t x
        ≡ (ok (record { is_established = false; is_closed = false; plaintext = plain }), x')
      → w.put (record s { session = some x' }) (moved_on i me).sm ≡ (ok tt, sm')
      → y.parse_salty plain ≡ some (parsed_text text)
      → input c l w y i o t me ≡ (
        ok tt,
        record me {
          sm = sm';
          events = me.events ++ (message_received (to_ulid m.uuid) s.name plain text ∷ []);
        },
      )
  unfolding receive_ratchet move_on unsealed
  handle_data i t' m o t s x x' plain text me sm' p g sx pend got put parses =
      handled i (payload m) o t me _ (affixes i.payload t' (payload m) p)
        (parse_lem i.payload t' (payload m) p)
        (rw (session_for_data (to_ulid m.uuid) m s (moved_on i me) _ g)
          (receive_for_lem m o t s x x' plain text (moved_on i me) sm' sx pend got put parses))
