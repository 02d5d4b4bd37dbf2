-- ===== src/Client/Inputs.antt =====
-- client/client.go: the handlers of what arrives in the own inbox.
use go_ratchet.Prelude.{
  zero, suc, suc, if◌then◌else◌, ◌&&◌, Bool, Option, none, some, [], ◌∷◌, Error, Result, ok, err,
  panic, Bytes,
}
use go_ratchet.Prelude.Methods.{Action, ◌>>=◌, ◌>>◌, lift, get, modify}
use go_ratchet.Crypto.{Crypto, Sample}
use go_ratchet.Xochimilco.Message.{
  Msg, offer, ack, payload, close, sealed, id, prefix, suffix, has_prefix, has_suffix, parse,
  unseal,
}
use go_ratchet.Xochimilco.Session.{OfferSamples, Received}
use go_ratchet.Disk.{ℤ, pos, negsuc, Libraries, DiskSession, receive_disk_msg}
use go_ratchet.Disk.Manager.{to_ulid}
use go_ratchet.Client.Interface.{SessionManager}
use go_ratchet.Client.{
  Client, Input, offer_received, session_started, session_closed, message_received, event_received,
  salty_text_received, salty_event_received, received, Salty, Parsed, parsed_text, parsed_event,
  parsed_other, attempt, run_on, on_manager, dispatch, reported, present_or,
}

-- `in.Position + 1`
abbrev pub next : ℤ → ℤ
next (pos n) = pos (suc n)
next (negsuc zero) = pos 0
next (negsuc (suc n)) = negsuc n

-- "BEGIN SALTPACK ENCRYPTED MESSAGE."
abbrev pub salt_prefix : Bytes
salt_prefix =
    b'B' ∷ b'E' ∷ b'G' ∷ b'I' ∷ b'N' ∷ 32 ∷ b'S' ∷ b'A' ∷ b'L' ∷ b'T' ∷ b'P' ∷ b'A' ∷ b'C' ∷ b'K'
    ∷ 32 ∷ b'E' ∷ b'N' ∷ b'C' ∷ b'R' ∷ b'Y' ∷ b'P' ∷ b'T' ∷ b'E' ∷ b'D' ∷ 32 ∷ b'M' ∷ b'E' ∷ b'S'
    ∷ b'S' ∷ b'A' ∷ b'G' ∷ b'E' ∷ b'.' ∷ []

abbrev pub is_salt_pack : Bytes → Bool
is_salt_pack b = has_prefix b salt_prefix

abbrev pub is_ratchet : Bytes → Bool
is_ratchet b = has_prefix b prefix && has_suffix b suffix

module _ {M Text Ev : Type 0} (c : Crypto) (l : Libraries) (w : SessionManager M)
    (y : Salty Text Ev) where
  unfoldable pub move_on : Input → Action (Client M Text Ev) (Unit {0})
  move_on i = modify λ me. record me { sm = w.set_position (next i.position) me.sm }

  unfoldable pub dispatch_salty : Bytes → Parsed Text Ev → Action (Client M Text Ev) (Unit {0})
  dispatch_salty key (parsed_event e) = dispatch (salty_event_received key e)
  dispatch_salty key (parsed_text m) = dispatch (salty_text_received key m)
  dispatch_salty key parsed_other = lift (ok tt)

  unfoldable pub read_salt_pack : Input → Action (Client M Text Ev) (Unit {0})
  read_salt_pack i = do
    move_on i
    me ← get
    (text, key) ←
        lift (present_or Error.salty_failed (y.decrypt_salty (w.identity me.sm) i.payload))
    msg ← lift (present_or Error.parse_failed (y.parse_salty text))
    dispatch_salty key msg

  unfoldable pub handle_salt_pack : Input → Action (Client M Text Ev) (Unit {0})
  handle_salt_pack i = if is_salt_pack i.payload then reported (read_salt_pack i) else lift (ok tt)

  -- A sealed message is opened, any other one is as it is.
  unfoldable pub unsealed : M → Msg → Result Msg
  unsealed sm (sealed b) =
      let key : Bytes = w.identity sm in unseal c b (l.x25519_private key) (l.x25519_own_public key)
  unsealed sm (offer m) = ok (offer m)
  unsealed sm (ack m) = ok (ack m)
  unsealed sm (payload m) = ok (payload m)
  unsealed sm (close m) = ok (close m)

  -- A session that does not exist is no error here.
  unfoldable pub existing : Result DiskSession → Result (Option DiskSession)
  existing (ok s) = ok (some s)
  existing (err Error.not_exist) = ok none
  existing (err e) = err e
  existing panic = panic

  -- An offer names its sender and makes a new session; any other message has the id of a session,
  -- which was read before the message was unsealed.
  unfoldable pub session_for : Bytes → Msg → Action (Client M Text Ev) (Option DiskSession)
  session_for uid (offer m) = do s ← on_manager (w.new m.nick); lift (ok (some s))
  session_for uid m = do r ← attempt (on_manager (w.get uid)); lift (existing r)

  -- A text that was received; an error of `ParseSalty` is not looked at.
  unfoldable pub dispatch_text :
      Bytes → Bytes → Bytes → Option (Parsed Text Ev) → Action (Client M Text Ev) (Unit {0})
  dispatch_text uid name plain (some (parsed_text m)) = dispatch (message_received uid name plain m)
  dispatch_text uid name plain (some (parsed_event e)) = dispatch (event_received uid name plain e)
  dispatch_text uid name plain (some parsed_other) = lift (ok tt)
  dispatch_text uid name plain none = lift (ok tt)

  unfoldable pub dispatch_received :
      Bytes → DiskSession → Received → Action (Client M Text Ev) (Unit {0})
  dispatch_received uid s r =
      if r.is_closed
      then on_manager (w.delete s) >> dispatch (session_closed uid s.name)
      else if r.is_established
      then dispatch (session_started uid s.name)
      else dispatch_text uid s.name r.plaintext (y.parse_salty r.plaintext)

  unfoldable pub dispatch_pending : Bytes → DiskSession → Action (Client M Text Ev) (Unit {0})
  dispatch_pending uid s = elim s.pending_ack [
    | [] ↦ lift (ok tt)
    | x ∷ xs ↦ dispatch (offer_received uid s.name s.pending_ack)
  ]

  -- What is done with a message and the session that it is for, if there is one.
  unfoldable pub receive_for :
      Msg → OfferSamples → Sample → Option DiskSession → Action (Client M Text Ev) (Unit {0})
  receive_for m o t none = lift (ok tt)
  receive_for m o t (some s) = do
    (r, s') ← run_on s (receive_disk_msg c m o t)
    let uid : Bytes = to_ulid (id m)
    dispatch_pending uid s'
    on_manager (w.put s')
    dispatch_received uid s' r

  unfoldable pub receive_ratchet :
      Input → Msg → OfferSamples → Sample → Action (Client M Text Ev) (Unit {0})
  receive_ratchet i m o t = do
    move_on i
    me ← get
    m' ← lift (unsealed me.sm m)
    s ← session_for (to_ulid (id m)) m'
    receive_for m' o t s

  -- `readMsg` and what follows it; an error of either is dispatched.
  unfoldable pub read_ratchet : Input → OfferSamples → Sample → Action (Client M Text Ev) (Unit {0})
  read_ratchet i o t = do m ← lift (parse i.payload); receive_ratchet i m o t

  unfoldable pub handle_ratchet :
      Input → OfferSamples → Sample → Action (Client M Text Ev) (Unit {0})
  handle_ratchet i o t =
      if is_ratchet i.payload then reported (read_ratchet i o t) else lift (ok tt)

  unfoldable pub handle_other : Input → Action (Client M Text Ev) (Unit {0})
  handle_other i =
      if is_ratchet i.payload
      then lift (ok tt)
      else if is_salt_pack i.payload
      then lift (ok tt)
      else dispatch (received i.payload)

  -- `Input`, which dispatches to the three handlers. Go runs them side by side; here they run in
  -- the order in which they are registered.
  unfoldable pub input : Input → OfferSamples → Sample → Action (Client M Text Ev) (Unit {0})
  input i o t = do handle_salt_pack i; handle_ratchet i o t; handle_other i
