-- ===== src/Client/Kept.antt =====
-- What the client's operations keep true of the manager (client/client.go).
pub mod Inputs
use go_ratchet.Prelude.{
  ◌≡◌, refl, ℕ, Bool, true, false, Option, none, some, List, [], ◌∷◌, ◌++◌, Error, Result, ok, err,
  panic, Bytes,
}
use go_ratchet.Prelude.Methods.{Action, ◌>>=◌, ◌>>◌, lift, get, modify}
use go_ratchet.Prelude.Keeps.{Keeps, Keeps-bind, Keeps-lift, keeps_rules}
use go_ratchet.Crypto.{Crypto, Sample}
use go_ratchet.Xochimilco.Message.{Msg, offer, ack, payload, close, sealed}
use go_ratchet.Xochimilco.Session.{OfferSamples, Received}
use go_ratchet.Disk.{ℤ, Libraries, Addr, DiskSession, DiskCall}
use go_ratchet.Client.Interface.{SessionManager}
use go_ratchet.Client.{
  Client, Event, Input, Salty, Parsed, parsed_text, parsed_event, parsed_other, attempted, attempt,
  run_on, on_manager, dispatch, post, send_msg, reported,
}
use go_ratchet.Client.Operations.{
  start_chat, send_pending, chat_with, chat, send_text, close_chat, send_salty,
}

-- Whatever the client's operations do with its state keeps `Q`: a call of the manager, an event
-- that is dispatched, and a post.
pub record ClientKeeps {M Text Ev : Type 0} (w : SessionManager M) (Q : Client M Text Ev → Type 0)
    : Type 0 where
  pub by_name-Keeps : (name : Bytes) → Keeps Q (on_manager (w.by_name name))
  pub new-Keeps : (name : Bytes) → Keeps Q (on_manager (w.new name))
  pub get-Keeps : (uid : Bytes) → Keeps Q (on_manager (w.get uid))
  pub put-Keeps : (s : DiskSession) → Keeps Q (on_manager (w.put s))
  pub delete-Keeps : (s : DiskSession) → Keeps Q (on_manager (w.delete s))
  pub dispatch-Keeps : (e : Event Text Ev) → Keeps Q (dispatch e)
  pub post-Keeps :
      (post_failed : Bool) (endpoint text : Bytes) → Keeps Q (post post_failed endpoint text)

module _ {S A : Type 0} (P : S → Type 0) where
  attempted-keeps : (r : Result A) (s : S) → P s → P (attempted (r, s)).1
  attempted-keeps (ok a) s h = h
  attempted-keeps (err e) s h = h
  attempted-keeps panic s h = h

module _ {S A : Type 0} {P : S → Type 0} where
  pub Keeps-attempt : (m : Action S A) → Keeps P m → Keeps P (attempt m)
  Keeps-attempt m km = record { after = λ s h. attempted-keeps P (m s).0 (m s).1 (km.after s h) }

module _ {M Text Ev : Type 0} {Q : Client M Text Ev → Type 0} where
  pub Keeps-run_on : {A : Type 0} (s : DiskSession) (m : DiskCall A) → Keeps Q (run_on s m)
  Keeps-run_on s m = record { after = λ c h. h }

pub ruleset client_rules = (keeps_rules, Keeps-attempt, Keeps-run_on)

module _ {M Text Ev : Type 0} (c : Crypto) (l : Libraries) (w : SessionManager M)
    (y : Salty Text Ev) (Q : Client M Text Ev → Type 0) (k : ClientKeeps w Q) where
  Keeps-send_msg :
      (post_failed : Bool) (s : DiskSession) (text : Bytes) → Keeps Q (send_msg post_failed s text)
  unfolding send_msg
  Keeps-send_msg post_failed s text = k.post-Keeps post_failed s.endpoint text

  start_chat-Keeps :
      (p t : Sample) (post_failed : Bool) (them : Bytes)
      → Keeps Q (start_chat c l w p t post_failed them)
  unfolding start_chat
  start_chat-Keeps p t post_failed them =
      search (client_rules, k.new-Keeps, k.put-Keeps, k.dispatch-Keeps, Keeps-send_msg) depth 20

  pub close_chat-Keeps :
      (post_failed : Bool) (them : Bytes) → Keeps Q (close_chat c l w post_failed them)
  unfolding close_chat
  close_chat-Keeps post_failed them =
      search
        (
          client_rules, k.by_name-Keeps, k.get-Keeps, k.delete-Keeps, k.dispatch-Keeps,
          Keeps-send_msg,
        )
        depth 20

  send_pending-Keeps :
      (post_failed : Bool) (them : Bytes) (s : DiskSession)
      → Keeps Q (send_pending c l w post_failed them s)
  unfolding send_pending
  send_pending-Keeps post_failed them s =
      search (client_rules, k.put-Keeps, k.dispatch-Keeps, Keeps-send_msg) depth 20

  pending_or-Keeps :
      (post_failed : Bool) (them : Bytes) (s : DiskSession) (answer : Bytes)
      → Keeps Q (elim answer [ [] ↦ lift (ok tt) | x ∷ xs ↦ send_pending c l w post_failed them s ])
  pending_or-Keeps post_failed them s [] = search client_rules
  pending_or-Keeps post_failed them s (x ∷ xs) = send_pending-Keeps post_failed them s

  chat_with-Keeps :
      (p t : Sample) (post_failed : Bool) (them : Bytes) (r : Result DiskSession)
      → Keeps Q (chat_with c l w p t post_failed them r)
  unfolding chat_with
  chat_with-Keeps p t post_failed them (ok s) = pending_or-Keeps post_failed them s s.pending_ack
  chat_with-Keeps p t post_failed them (err Error.not_exist) = start_chat-Keeps p t post_failed them
  chat_with-Keeps p t post_failed them (err e) = search client_rules
  chat_with-Keeps p t post_failed them panic = search client_rules

  pub chat-Keeps :
      (p t : Sample) (post_failed : Bool) (them : Bytes) → Keeps Q (chat c l w p t post_failed them)
  unfolding chat
  chat-Keeps p t post_failed them =
      search (client_rules, k.by_name-Keeps, k.get-Keeps, chat_with-Keeps) depth 20

  pub send_text-Keeps :
      (now later : ℕ) (t : Sample) (post_failed : Bool) (them text : Bytes) (events : List Ev)
      → Keeps Q (send_text c l w y now later t post_failed them text events)
  unfolding send_text
  send_text-Keeps now later t post_failed them text events =
      search
        (client_rules, k.by_name-Keeps, k.get-Keeps, k.put-Keeps, k.dispatch-Keeps, Keeps-send_msg)
        depth 30

  pub send_salty-Keeps :
      (now : ℕ) (found : Option Addr) (post_failed : Bool) (them text : Bytes) (events : List Ev)
      → Keeps Q (send_salty c l w y now found post_failed them text events)
  unfolding send_salty
  send_salty-Keeps now found post_failed them text events =
      search (client_rules, k.dispatch-Keeps, k.post-Keeps) depth 30
