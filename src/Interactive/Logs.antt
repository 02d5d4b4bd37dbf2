-- ===== src/Interactive/Logs.antt =====
-- The session memory of the interactive mode (interactive/interactive.go,
-- session/mem/mem-session.go): it has what the client has dispatched.
use go_ratchet.Prelude.{
  ◌≡◌, refl, sym, ap, ◌∙◌, ℕ, List, [], ◌∷◌, ◌++◌, Bytes, length, drop, drop-append,
}
use go_ratchet.Prelude.Maps.{lookup, Map}
use go_ratchet.Prelude.Methods.{Action}
use go_ratchet.Prelude.Keeps.{Keeps}
use go_ratchet.Crypto.{Crypto}
use go_ratchet.Disk.{ℤ, Libraries}
use go_ratchet.Client.Interface.{SessionManager}
use go_ratchet.Client.{Client, Event, Salty}
use go_ratchet.Client.Operations.{chat, send_text, close_chat, send_salty}
use go_ratchet.Client.Inputs.{input}
use go_ratchet.Client.Kept.{chat-Keeps, send_text-Keeps, close_chat-Keeps, send_salty-Keeps}
use go_ratchet.Client.Kept.Inputs.{input-Keeps}
use go_ratchet.Client.Growing.{Extends, Extends-ClientKeeps, added}
use go_ratchet.Memory.{Page, stream_of, user_stream, system_stream, read_log}
use go_ratchet.Memory.Conversations.{
  kept, Pages, Pages-read_log, is_with, is_for_system, events_for_peer, events_for_system,
}
use go_ratchet.Memory.Updating.{update_all, stream_of-update_all}
use go_ratchet.Interactive.{Service, Strings, react, react_all, on_client}
use go_ratchet.Interactive.Lines.{CallsKeep, run_line-keeps, begin-keeps}
use go_ratchet.Interactive.Turns.{Turn, types, gets, Reaches, begins, turns}

module _ {M Text Ev : Type 0} (nick : Text → Bytes) where
  -- The memory is what all the events that the client has dispatched make of an empty one.
  abbrev pub IsFold : Client M Text Ev → Map (List (Event Text Ev)) → Type 0
  IsFold client logs = logs ≡ update_all nick client.events []

module _ {M Text Ev : Type 0} (nick : Text → Bytes) (me : Bytes) where
  react_all-logs :
      (es : List (Event Text Ev)) (svc : Service M Text Ev)
      → (react_all nick me es svc).logs ≡ update_all nick es svc.logs
  unfolding react_all react
  react_all-logs [] svc = refl
  react_all-logs (e ∷ es) svc = react_all-logs es (react nick me e svc)

  react_all-client :
      (es : List (Event Text Ev)) (svc : Service M Text Ev)
      → (react_all nick me es svc).client ≡ svc.client
  unfolding react_all react
  react_all-client [] svc = refl
  react_all-client (e ∷ es) svc = react_all-client es (react nick me e svc)

update_all-append :
    {Text Ev : Type 0} (nick : Text → Bytes) (es new : List (Event Text Ev))
    (logs : Map (List (Event Text Ev)))
    → update_all nick (es ++ new) logs ≡ update_all nick new (update_all nick es logs)
update_all-append nick [] new logs = refl
update_all-append nick (e ∷ es) new logs = update_all-append nick es new _

abbrev Folded : {M Text Ev : Type 0} → (Text → Bytes) → Service M Text Ev → Type 0
Folded nick svc = IsFold nick svc.client svc.logs

module _ {M Text Ev A : Type 0} (nick : Text → Bytes) (me : Bytes) where
  -- A call that only adds events keeps the memory up to date.
  on_client-IsFold :
      (m : Action (Client M Text Ev) A)
      → ((before : List (Event Text Ev)) → Keeps (Extends before) m)
      → Keeps (Folded nick) (on_client nick me m)
  unfolding on_client
  on_client-IsFold m keeps = record {
    after = λ svc h.
        let client = (m svc.client).1 in
        let (new, e) = added m keeps svc.client in
        let fresh = drop (length svc.client.events) client.events in
        let start : Service M Text Ev = record svc { client = client } in
        let is_new : fresh ≡ new =
          ap (drop (length svc.client.events)) e
          ∙ drop-append (length svc.client.events) svc.client.events new refl in
        react_all-logs nick me fresh start
        ∙ ap (λ es. update_all nick es svc.logs) is_new
        ∙ ap (update_all nick new) h
        ∙ sym (update_all-append nick svc.client.events new [])
        ∙ ap (λ es. update_all nick es []) (sym e)
        ∙ ap (λ (cl : Client M Text Ev). update_all nick cl.events [])
            (sym (react_all-client nick me fresh start));
  }

module _ {M Text Ev : Type 0} (c : Crypto) (l : Libraries) (y : Salty Text Ev)
    (pager_box : ℕ → ℕ → ℤ → ℤ → Page) (str : Strings) (nick : Text → Bytes) (me : Bytes) where
  calls-IsFold : (w : SessionManager M) → CallsKeep c l w y pager_box str nick me (IsFold nick)
  calls-IsFold w = record {
    chat-Keeps = λ p t post_failed them.
        on_client-IsFold nick me (chat c l w p t post_failed them) (λ before.
          chat-Keeps c l w y (Extends before) (Extends-ClientKeeps before w) p t post_failed them);
    send_text-Keeps = λ now later t post_failed them text.
        on_client-IsFold nick me (send_text c l w y now later t post_failed them text []) (λ before.
          send_text-Keeps c l w y (Extends before) (Extends-ClientKeeps before w) now later t
            post_failed them text []);
    close_chat-Keeps = λ post_failed them.
        on_client-IsFold nick me (close_chat c l w post_failed them) (λ before.
          close_chat-Keeps c l w y (Extends before) (Extends-ClientKeeps before w) post_failed
            them);
    send_salty-Keeps = λ now found post_failed them text.
        on_client-IsFold nick me (send_salty c l w y now found post_failed them text []) (λ before.
          send_salty-Keeps c l w y (Extends before) (Extends-ClientKeeps before w) now found
            post_failed them text []);
  }

  Turn-IsFold :
      {s t : Service M Text Ev}
      → Turn c l y pager_box str nick me s t
      → IsFold nick s.client s.logs
      → IsFold nick t.client t.logs
  Turn-IsFold (types svc w o line going) h =
      (run_line-keeps c l w y pager_box str nick me (IsFold nick) (calls-IsFold w) o line).after svc
        h
  Turn-IsFold (gets svc w i o t) h =
      (on_client-IsFold nick me (input c l w y i o t) (λ before.
          input-Keeps c l w y (Extends before) (Extends-ClientKeeps before w) i (λ me h. h) o
            t)).after
        svc h

  reached-IsFold :
      (them : Bytes) {svc t : Service M Text Ev}
      → IsFold nick svc.client svc.logs
      → Reaches c l y pager_box str nick me svc them t
      → IsFold nick t.client t.logs
  reached-IsFold them {svc} h (begins w o) =
      (begin-keeps c l w y pager_box str nick me (IsFold nick) (calls-IsFold w) o them).after svc h
  reached-IsFold them h (turns r turn) = Turn-IsFold turn (reached-IsFold them h r)

  -- If the interactive mode begins with a client that has dispatched nothing and with an empty
  -- session memory, then at any time, whatever lines were typed and inputs arrived, in any order,
  -- and whatever failed, reading the log of a peer gives the page that `PagerBox` chooses of the
  -- conversation with this peer: the sessions that were started and closed, the messages and salty
  -- texts that were sent and received, in the order in which they were dispatched. Reading the
  -- system's log gives such a page of the offers and of the salty events. A page that starts at no
  -- entry panics.
  pub reached-logs :
      (them peer : Bytes) (after count : ℤ) (svc : Service M Text Ev) {t : Service M Text Ev}
      → svc.client.events ≡ []
      → svc.logs ≡ []
      → Reaches c l y pager_box str nick me svc them t
      → Pages
          (read_log pager_box t.logs (user_stream peer) after count)
          (kept (is_with nick peer) t.client.events)
          (λ n. pager_box 1 n after count)
        × Pages
            (read_log pager_box t.logs system_stream after count)
            (kept is_for_system t.client.events)
            (λ n. pager_box 1 n after count)
  unfolding lookup
  reached-logs them peer after count svc {t} nothing empty r =
      let fold = reached-IsFold them (empty ∙ ap (λ es. update_all nick es []) (sym nothing)) r in
      let logged = λ (name : Bytes).
        ap (stream_of name) fold ∙ stream_of-update_all nick name t.client.events [] in
      (
        Pages-read_log pager_box t.logs (user_stream peer) after count _
            (logged (user_stream peer) ∙ events_for_peer nick peer t.client.events),
        Pages-read_log pager_box t.logs system_stream after count _
            (logged system_stream ∙ events_for_system nick t.client.events),
      )
