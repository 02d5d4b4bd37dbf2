-- ===== src/Client/Delivery.antt =====
-- A text goes from one client to another (client/client.go).
use go_ratchet.Prelude.{ℕ, ◌≡◌, refl, false, some, List, [], ◌∷◌, ◌++◌, ok, Bytes, IsBytes, length}
use go_ratchet.Crypto.{Crypto, CryptoLaws, Sample}
use go_ratchet.DoubleRatchet.Ratchet.{DoubleRatchet}
use go_ratchet.DoubleRatchet.Ratchet.Conversing.{Conversing, CanSay, heard}
use go_ratchet.Xochimilco.Message.{marshal_message, sess_data, payload}
use go_ratchet.Xochimilco.Session.{Session, OfferSamples, enc_time}
use go_ratchet.Xochimilco.Session.Exchange.{arrives, data_of}
use go_ratchet.Disk.{ℤ, Libraries, DiskSession}
use go_ratchet.Disk.Manager.{to_ulid}
use go_ratchet.Client.Interface.{SessionManager}
use go_ratchet.Client.{Client, Input, message_received, Salty, parsed_text}
use go_ratchet.Client.Operations.{send_text}
use go_ratchet.Client.Inputs.{input, next}
use go_ratchet.Client.Sending.{CanSend, text_of, sent_lem}
use go_ratchet.Client.Receiving.{handle_data}

-- A manager has a session with a ratchet.
pub record Holds {M : Type 0} (w : SessionManager M) (sm : M) (uid : Bytes) (s : DiskSession)
    (x : Session) (dr : DoubleRatchet) : Type 0 where
  pub got : w.get uid sm ≡ (ok s, sm)
  pub inner : s.session ≡ some x
  pub ratchet : x.double_ratchet ≡ some dr

-- A session with another ratchet.
abbrev pub renewed : DiskSession → Session → DoubleRatchet → DiskSession
renewed s x dr = record s { session = some (record x { double_ratchet = some dr }) }

module _ {M N Text Ev : Type 0} (c : Crypto) (laws : CryptoLaws c) (l k : Libraries)
    (w : SessionManager M) (v : SessionManager N) (y : Salty Text Ev) where
  -- The first client has a session with the second, and the second one with the first, under the id
  -- that the message is stamped with and with no answer that is still to be sent. Their ratchets
  -- are in a conversation, in which the first client can say the text, and both managers can put
  -- back the sessions with what becomes of the ratchets. The text is parsed as it was made, and the
  -- stamp and the ciphertext are made of bytes.
  pub record CanReach (a : Client M Text Ev) (b : Client N Text Ev) (at : ℤ) (them text : Bytes)
      (events : List Ev) (now later : ℕ) (e d : Sample) : Type 0 where
    pub uid : Bytes
    pub s : DiskSession
    pub x : Session
    pub from : DoubleRatchet
    pub other_s : DiskSession
    pub other_x : Session
    pub to : DoubleRatchet
    pub after : M
    pub other_after : N
    pub named : w.by_name them a.sm ≡ (ok uid, a.sm)
    pub holds : Holds w a.sm uid s x from
    pub other_holds :
        Holds v
          (v.set_position (next at) b.sm)
          (to_ulid (enc_time c later x.remote_uuid))
          other_s
          other_x
          to
    pub no_pending : other_s.pending_ack ≡ []
    pub can_say : CanSay c from to d
    pub put_back :
        let h =
          heard c laws from to (y.literal (text_of c l w y a now x text events)) e d can_say in
        w.put (renewed s x h.sender) a.sm ≡ (ok tt, after)
    pub other_put_back :
        let h =
          heard c laws from to (y.literal (text_of c l w y a now x text events)) e d can_say in
        v.put (renewed other_s other_x h.recipient) (v.set_position (next at) b.sm)
        ≡ (ok tt, other_after)
    pub parses :
        let msg = text_of c l w y a now x text events in
        y.parse_salty (y.literal msg) ≡ some (parsed_text msg)
    pub bytes :
        let h =
          heard c laws from to (y.literal (text_of c l w y a now x text events)) e d can_say in
        IsBytes h.ct
    pub stamp_bytes : IsBytes (enc_time c later x.remote_uuid)
    pub stamp_length : length (enc_time c later x.remote_uuid) ≡ 16

  -- If a client can reach another one with a text, then `Send` succeeds and posts one message to
  -- the peer's endpoint; the other client, given this message as an input, dispatches the event
  -- that the text was received, from the peer of the session; and both managers have the sessions
  -- put back, whose ratchets are in a conversation again.
  pub input-send :
      (a : Client M Text Ev) (b : Client N Text Ev) (at : ℤ) (them text : Bytes) (events : List Ev)
      (now later : ℕ) (e d : Sample) (o : OfferSamples)
      → (h : CanReach a b at them text events now later e d)
      → let msg = text_of c l w y a now h.x text events in
        let (r, a') = send_text c l w y now later e false them text events a in
        (wire : Bytes) × (r ≡ ok tt)
        × (a'.posted ≡ a.posted ++ ((h.s.endpoint, wire) ∷ []))
        × let (q, b') = input c k v y (record { position = at; payload = wire }) o d b in
          (q ≡ ok tt)
          × (b'.events
              ≡ b.events
                ++ (message_received
                      (to_ulid (enc_time c later h.x.remote_uuid))
                      h.other_s.name
                      (y.literal msg)
                      msg
                    ∷ []))
          × (a'.sm ≡ h.after)
          × (b'.sm ≡ h.other_after)
          × Conversing c
              (heard c laws h.from h.to (y.literal msg) e d h.can_say).recipient
              (heard c laws h.from h.to (y.literal msg) e d h.can_say).sender
  input-send a b at them text events now later e d o h =
      let msg = text_of c l w y a now h.x text events in
      let t = heard c laws h.from h.to (y.literal msg) e d h.can_say in
      let way =
        arrives c later (y.literal msg) t.ct e d o h.x h.other_x h.from h.to t.sender t.recipient
          h.holds.ratchet h.other_holds.ratchet t.encrypted t.decrypted h.bytes h.stamp_bytes
          h.stamp_length in
      let wire = marshal_message sess_data (payload (data_of c later h.x t.ct)) in
      let x' : Session = record (h.x) { double_ratchet = some t.sender } in
      let sends : CanSend c l w y a them (y.literal msg) later e h.x x' wire = record {
        uid = h.uid;
        s = h.s;
        named = h.named;
        got = h.holds.got;
        inner = h.holds.inner;
        sealed = way.sent;
      } in
      let i : Input = record { position = at; payload = wire } in
      rw (sent_lem c l w y a them text wire events now later e h.x x' h.after sends h.put_back) (
        wire,
        refl,
        refl,
        rw
            (handle_data c k v y i _ (data_of c later h.x t.ct) o d h.other_s h.other_x
              (record (h.other_x) { double_ratchet = some t.recipient }) (y.literal msg) msg b
              h.other_after way.wire h.other_holds.got h.other_holds.inner h.no_pending way.got
              h.other_put_back h.parses)
            (refl, refl, refl, refl, t.conversing),
      )
