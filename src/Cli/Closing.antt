-- ===== src/Cli/Closing.antt =====
-- `ratchet close` (cli/basic.go) prints nothing.
use go_ratchet.Prelude.{
  ◌≡◌, refl, sym, ap, ◌∙◌, Bool, true, false, Option, none, some, List, [], ◌∷◌, ◌++◌, Result, ok,
  err, panic, Bytes,
}
use mathlib.Core.List.{append_assoc, append-nil}
use go_ratchet.Prelude.Methods.{Action}
use go_ratchet.Prelude.Keeps.{Keeps, keeps_rules, Keeps-bind, Keeps-get}
use go_ratchet.Crypto.{Crypto}
use go_ratchet.Disk.{Libraries, Addr, DiskSession}
use go_ratchet.Disk.Manager.{DiskSessionManager, load_manager, new_session_manager}
use go_ratchet.Client.Interface.{SessionManager}
use go_ratchet.Client.{
  Client, Event, close_sent, session_closed, Salty, on_manager, dispatch, post, send_msg,
}
use go_ratchet.Client.Operations.{close_chat}
use go_ratchet.Cli.{
  Machine, Conditions, print_all, shown_sent, call_client, deferred, with_loaded, with_client,
  read_salty_identity, manager, cli_close,
}

print_all-append :
    {Text Ev : Type 0} (es : List (Event Text Ev)) (e : Event Text Ev)
    → print_all shown_sent (es ++ (e ∷ [])) ≡ print_all shown_sent es ++ shown_sent e
unfolding print_all
print_all-append [] e = append-nil (shown_sent e)
print_all-append (x ∷ es) e =
    ap (λ (p : List Bytes). shown_sent x ++ p) (print_all-append es e)
    ∙ sym (append_assoc (shown_sent x) (print_all shown_sent es) (shown_sent e))

module _ {M Text Ev : Type 0} where
  -- Of the events so far, the handler of `Send` and `Close` prints nothing.
  abbrev Silent : Client M Text Ev → Type 0
  Silent me = print_all shown_sent me.events ≡ []

  on_manager-Silent : {A : Type 0} (m : Action M A) → Keeps Silent (on_manager m)
  on_manager-Silent m = record { after = λ me h. h }

  send_msg-Silent :
      (post_failed : Bool) (s : DiskSession) (text : Bytes)
      → Keeps Silent (send_msg post_failed s text)
  unfolding send_msg post
  send_msg-Silent true s text = record { after = λ me h. h }
  send_msg-Silent false s text = record { after = λ me h. h }

  dispatch-Silent : (e : Event Text Ev) → shown_sent e ≡ [] → Keeps Silent (dispatch e)
  unfolding dispatch
  dispatch-Silent e none_shown = record {
    after = λ me h.
        print_all-append me.events e ∙ ap (λ (p : List Bytes). p ++ shown_sent e) h ∙ none_shown;
  }

  close_sent-Silent : (uid them text : Bytes) → Keeps Silent (dispatch (close_sent uid them text))
  unfolding shown_sent
  close_sent-Silent uid them text = dispatch-Silent (close_sent uid them text) refl

  session_closed-Silent : (uid them : Bytes) → Keeps Silent (dispatch (session_closed uid them))
  unfolding shown_sent
  session_closed-Silent uid them = dispatch-Silent (session_closed uid them) refl

close_chat-Silent :
    {M Text Ev : Type 0} (c : Crypto) (l : Libraries) (w : SessionManager M) (post_failed : Bool)
    (them : Bytes)
    → Keeps (Silent {M = M} {Text = Text} {Ev = Ev}) (close_chat c l w post_failed them)
unfolding close_chat
close_chat-Silent c l w post_failed them =
    search
      (keeps_rules, on_manager-Silent, send_msg-Silent, close_sent-Silent, session_closed-Silent)
      depth 20

module _ {Text Ev : Type 0} (c : Crypto) (l : Libraries) (y : Salty Text Ev) (q : Conditions)
    (call : Action (Client DiskSessionManager Text Ev) (Unit {0})) (quiet : Keeps Silent call)
    (printed : List Bytes) where
  abbrev Printed : Machine → Type 0
  Printed m = m.printed ≡ printed

  call_client-Printed :
      (o : Option Addr) (sm : DiskSessionManager) (m : Machine)
      → Printed m
      → Printed (call_client c l y q o shown_sent call sm m).2
  unfolding call_client
  call_client-Printed none sm m h = h
  call_client-Printed (some addr) sm m h =
      let start : Client DiskSessionManager Text Ev = record {
        sm = sm;
        addr = addr;
        posted = m.posted;
        events = [];
      } in
      ap (λ (p : List Bytes). m.printed ++ p) (quiet.after start (unfold print_all in refl))
      ∙ append-nil m.printed
      ∙ h

  deferred-Printed :
      (r : Result (Unit {0})) (sm : DiskSessionManager) (m : Machine)
      → Printed m
      → Printed (deferred {Text = Text} {Ev = Ev} c l y q r sm m).1
  unfolding deferred
  deferred-Printed panic sm m h = h
  deferred-Printed (ok done) sm m h = h
  deferred-Printed (err e) sm m h = h

  with_loaded-Printed :
      (name : Bytes) (loaded : Result (Unit {0}) × DiskSessionManager)
      → Keeps Printed (with_loaded c l y q name shown_sent call loaded)
  unfolding with_loaded
  with_loaded-Printed name (ok done, sm) = record {
    after = λ m h. deferred-Printed _ _ _ (call_client-Printed (q.find_addr name) sm m h);
  }
  with_loaded-Printed name (err e, sm) = record { after = λ m h. h }
  with_loaded-Printed name (panic, sm) = record { after = λ m h. h }

  read_salty_identity-Printed : (keyfile : Bytes) → Keeps Printed (read_salty_identity q keyfile)
  unfolding read_salty_identity
  read_salty_identity-Printed keyfile = search keeps_rules depth 20

  with_client-Printed :
      (keyfile state : Bytes)
      → Keeps Printed (with_client c l y q keyfile state shown_sent (λ name. call))
  unfolding with_client
  with_client-Printed keyfile state = Keeps-bind _ _ (read_salty_identity-Printed keyfile) λ who.
      Keeps-bind _ _ Keeps-get λ m.
        with_loaded-Printed who.name
          (load_manager l q.loading (new_session_manager state who.name who.key m.files))

-- `ratchet close` prints nothing, whether it succeeds or not: the handler that it registers is that
-- of a text that was sent, and not that of a close.
pub close_silent :
    {Text Ev : Type 0} (c : Crypto) (l : Libraries) (y : Salty Text Ev) (q : Conditions)
    (keyfile state them : Bytes) (m : Machine)
    → (cli_close c l y q keyfile state them m).1.printed ≡ m.printed
unfolding cli_close
close_silent {Text} {Ev} c l y q keyfile state them m =
    let w = manager {Text = Text} {Ev = Ev} c l y q in
    let quiet = close_chat-Silent {Text = Text} {Ev = Ev} c l w q.outside.post_failed them in
    (with_client-Printed c l y q (close_chat c l w q.outside.post_failed them) quiet m.printed
        keyfile state).after
      m refl
