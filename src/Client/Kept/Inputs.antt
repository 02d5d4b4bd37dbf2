-- ===== src/Client/Kept/Inputs.antt =====
-- What the client's handlers of an input keep true of the manager (client/client.go).
use go_ratchet.Prelude.{Option, none, some, [], ◌∷◌, Result, ok, err, panic, Bytes}
use go_ratchet.Prelude.Methods.{Action, lift}
use go_ratchet.Prelude.Keeps.{Keeps, Keeps-bind}
use go_ratchet.Crypto.{Crypto, Sample}
use go_ratchet.Xochimilco.Message.{Msg, offer, ack, payload, close, sealed}
use go_ratchet.Xochimilco.Session.{OfferSamples, Received}
use go_ratchet.Disk.{Libraries, DiskSession}
use go_ratchet.Client.Interface.{SessionManager}
use go_ratchet.Client.{
  Event, Client, Input, Salty, Parsed, parsed_text, parsed_event, parsed_other, failed, dispatch,
  reported, offer_received,
}
use go_ratchet.Client.Inputs.{
  next, move_on, dispatch_salty, read_salt_pack, handle_salt_pack, session_for, dispatch_text,
  dispatch_received, dispatch_pending, receive_for, receive_ratchet, read_ratchet, handle_ratchet,
  handle_other, input,
}
use go_ratchet.Client.Kept.{ClientKeeps, Keeps-attempt, client_rules}

module _ {M Text Ev : Type 0} (Q : Client M Text Ev → Type 0)
    (kd : (e : Event Text Ev) → Keeps Q (dispatch e)) where
  reported_result-Keeps :
      (r : Result (Unit {0}))
      → Keeps Q (elim r as (λ _. Action (Client M Text Ev) (Unit {0})) [
        | ok done ↦ lift (ok tt)
        | err e ↦ dispatch (failed e)
        | panic ↦ lift panic
      ])
  reported_result-Keeps (ok done) = search client_rules
  reported_result-Keeps (err e) = search (client_rules, kd)
  reported_result-Keeps panic = search client_rules

  reported-Keeps : (m : Action (Client M Text Ev) (Unit {0})) → Keeps Q m → Keeps Q (reported m)
  unfolding reported
  reported-Keeps m km = Keeps-bind _ _ (Keeps-attempt m km) reported_result-Keeps

module _ {M Text Ev : Type 0} (c : Crypto) (l : Libraries) (w : SessionManager M)
    (y : Salty Text Ev) (Q : Client M Text Ev → Type 0) (k : ClientKeeps w Q) where
  abbrev KeepsClient : {A : Type 0} → Action (Client M Text Ev) A → Type 0
  KeepsClient m = Keeps Q m

  dispatch_salty-Keeps :
      (key : Bytes) (p : Parsed Text Ev) → KeepsClient (dispatch_salty c l w y key p)
  unfolding dispatch_salty
  dispatch_salty-Keeps key (parsed_event e) = search (client_rules, k.dispatch-Keeps)
  dispatch_salty-Keeps key (parsed_text m) = search (client_rules, k.dispatch-Keeps)
  dispatch_salty-Keeps key parsed_other = search client_rules

  session_for-Keeps : (uid : Bytes) (m : Msg) → KeepsClient (session_for c l w y uid m)
  unfolding session_for
  session_for-Keeps uid (offer m) = search (client_rules, k.new-Keeps) depth 10
  session_for-Keeps uid (ack m) = search (client_rules, k.get-Keeps) depth 10
  session_for-Keeps uid (payload m) = search (client_rules, k.get-Keeps) depth 10
  session_for-Keeps uid (close m) = search (client_rules, k.get-Keeps) depth 10
  session_for-Keeps uid (sealed m) = search (client_rules, k.get-Keeps) depth 10

  dispatch_text-Keeps :
      (uid name plain : Bytes) (o : Option (Parsed Text Ev))
      → KeepsClient (dispatch_text c l w y uid name plain o)
  unfolding dispatch_text
  dispatch_text-Keeps uid name plain (some (parsed_text m)) =
      search (client_rules, k.dispatch-Keeps)
  dispatch_text-Keeps uid name plain (some (parsed_event e)) =
      search (client_rules, k.dispatch-Keeps)
  dispatch_text-Keeps uid name plain (some parsed_other) = search client_rules
  dispatch_text-Keeps uid name plain none = search client_rules

  dispatch_received-Keeps :
      (uid : Bytes) (s : DiskSession) (r : Received)
      → KeepsClient (dispatch_received c l w y uid s r)
  unfolding dispatch_received
  dispatch_received-Keeps uid s r =
      search (client_rules, k.dispatch-Keeps, k.delete-Keeps, dispatch_text-Keeps) depth 20

  pending_or-Keeps :
      (uid : Bytes) (s : DiskSession) (answer : Bytes)
      → KeepsClient (elim answer as (λ _. Action (Client M Text Ev) (Unit {0})) [
        | [] ↦ lift (ok tt)
        | x ∷ xs ↦ dispatch (offer_received uid s.name s.pending_ack)
      ])
  pending_or-Keeps uid s [] = search client_rules
  pending_or-Keeps uid s (x ∷ xs) = search (client_rules, k.dispatch-Keeps)

  dispatch_pending-Keeps :
      (uid : Bytes) (s : DiskSession) → KeepsClient (dispatch_pending c l w y uid s)
  unfolding dispatch_pending
  dispatch_pending-Keeps uid s = pending_or-Keeps uid s s.pending_ack

  receive_for-Keeps :
      (m : Msg) (o : OfferSamples) (t : Sample) (s : Option DiskSession)
      → KeepsClient (receive_for c l w y m o t s)
  unfolding receive_for
  receive_for-Keeps m o t none = search client_rules
  receive_for-Keeps m o t (some s) =
      search (client_rules, dispatch_pending-Keeps, k.put-Keeps, dispatch_received-Keeps) depth 20

  pub handle_other-Keeps : (i : Input) → KeepsClient (handle_other c l w y i)
  unfolding handle_other
  handle_other-Keeps i = search (client_rules, k.dispatch-Keeps)

  -- Handling an input sets one position only.
  module _ (i : Input)
      (moves : (me : Client M Text Ev)
        → Q me
        → Q (record me { sm = w.set_position (next i.position) me.sm })) where
    move_on-Keeps : KeepsClient (move_on c l w y i)
    unfolding move_on
    move_on-Keeps = record { after = moves }

    pub handle_salt_pack-Keeps : KeepsClient (handle_salt_pack c l w y i)
    unfolding handle_salt_pack read_salt_pack
    handle_salt_pack-Keeps =
        search
          (client_rules, reported-Keeps Q k.dispatch-Keeps, move_on-Keeps, dispatch_salty-Keeps)
          depth 20

    pub handle_ratchet-Keeps :
        (o : OfferSamples) (t : Sample) → KeepsClient (handle_ratchet c l w y i o t)
    unfolding handle_ratchet read_ratchet receive_ratchet
    handle_ratchet-Keeps o t =
        search
          (
            client_rules,
            reported-Keeps Q k.dispatch-Keeps,
            move_on-Keeps,
            session_for-Keeps,
            receive_for-Keeps,
          )
          depth 20

    pub input-Keeps : (o : OfferSamples) (t : Sample) → KeepsClient (input c l w y i o t)
    unfolding input
    input-Keeps o t =
        search (client_rules, handle_salt_pack-Keeps, handle_ratchet-Keeps, handle_other-Keeps)
          depth 20
