-- ===== src/Interactive/Lines.antt =====
-- What a line of the interactive mode (interactive/interactive.go) keeps true of the client and the
-- session memory, which change in calls of the client only.
use go_ratchet.Prelude.{Option, Bool, true, ℕ, List, [], ◌∷◌, Result, ok, err, panic, Bytes}
use go_ratchet.Prelude.Maps.{Map}
use go_ratchet.Prelude.Methods.{Action, lift, modify}
use go_ratchet.Prelude.Keeps.{Keeps, Keeps-bind, Keeps-lift, keeps_rules}
use go_ratchet.Crypto.{Crypto, Sample}
use go_ratchet.Disk.{ℤ, Addr, Libraries}
use go_ratchet.Client.Interface.{SessionManager}
use go_ratchet.Client.{Client, Event, Salty}
use go_ratchet.Client.Operations.{chat, send_text, close_chat, send_salty}
use go_ratchet.Client.Kept.{Keeps-attempt}
use go_ratchet.Memory.{Page}
use go_ratchet.Interactive.{
  Line, Service, Strings, Outside, on_client, show, set_prompt, recent, list_sessions, chat_to,
  chat_fields, do_chat, close_target, do_close, do_default, do_log, do_salty, logged, run_command,
  run_line, begin, error_line,
}

module _ {M Text Ev : Type 0} (c : Crypto) (l : Libraries) (w : SessionManager M)
    (y : Salty Text Ev) (pager_box : ℕ → ℕ → ℤ → ℤ → Page) (str : Strings) (nick : Text → Bytes)
    (me : Bytes) (G : Client M Text Ev → Map (List (Event Text Ev)) → Type 0) where
  abbrev Holds : Service M Text Ev → Type 0
  Holds svc = G svc.client svc.logs

  abbrev KeepsG : {A : Type 0} → Action (Service M Text Ev) A → Type 0
  KeepsG m = Keeps Holds m

  -- The calls of the client that a line can lead to keep it.
  pub record CallsKeep : Type 0 where
    pub chat-Keeps :
        (p t : Sample) (post_failed : Bool) (them : Bytes)
        → Keeps Holds (on_client nick me (chat c l w p t post_failed them))
    pub send_text-Keeps :
        (now later : ℕ) (t : Sample) (post_failed : Bool) (them text : Bytes)
        → Keeps Holds (on_client nick me (send_text c l w y now later t post_failed them text []))
    pub close_chat-Keeps :
        (post_failed : Bool) (them : Bytes)
        → Keeps Holds (on_client nick me (close_chat c l w post_failed them))
    pub send_salty-Keeps :
        (now : ℕ) (found : Option Addr) (post_failed : Bool) (them text : Bytes)
        → Keeps Holds (on_client nick me (send_salty c l w y now found post_failed them text []))

  module _ (k : CallsKeep) where
    show-keeps : (lines : List (Line Text Ev)) → KeepsG (show c l w y pager_box str nick me lines)
    unfolding show
    show-keeps lines = record { after = λ svc h. h }

    set_prompt-keeps : (them : Bytes) → KeepsG (set_prompt c l w y pager_box str nick me them)
    unfolding set_prompt
    set_prompt-keeps them = record { after = λ svc h. h }

    set_them-keeps : (them : Bytes) → KeepsG (modify λ svc. record svc { them = them })
    set_them-keeps them = record { after = λ svc h. h }

    stop-keeps : KeepsG (modify λ svc. record svc { stopped = true })
    stop-keeps = record { after = λ svc h. h }

    recent-keeps : (name : Bytes) → KeepsG (recent c l w y pager_box str nick me name)
    unfolding recent
    recent-keeps name = search keeps_rules depth 10

    list_sessions-keeps : KeepsG (list_sessions c l w y pager_box str nick me)
    unfolding list_sessions
    list_sessions-keeps = search (keeps_rules, show-keeps) depth 10

    chat_to-keeps :
        (o : Outside) (them : Bytes) → KeepsG (chat_to c l w y pager_box str nick me o them)
    unfolding chat_to
    chat_to-keeps o them =
        search
          (
            keeps_rules, set_them-keeps, recent-keeps, show-keeps, set_prompt-keeps, Keeps-attempt,
            k.chat-Keeps,
          )
          depth 30

    do_chat-keeps :
        (o : Outside) (fields : List Bytes)
        → KeepsG (chat_fields c l w y pager_box str nick me o fields)
    unfolding chat_fields
    do_chat-keeps o [] = list_sessions-keeps
    do_chat-keeps o (command ∷ []) = list_sessions-keeps
    do_chat-keeps o (command ∷ them ∷ more) = chat_to-keeps o them

    close_target-keeps :
        (o : Outside) (input target : Bytes)
        → KeepsG (close_target c l w y pager_box str nick me o input target)
    unfolding close_target
    close_target-keeps o input [] = search keeps_rules
    close_target-keeps o input (t ∷ target) =
        search (keeps_rules, set_them-keeps, set_prompt-keeps, show-keeps, k.close_chat-Keeps) depth
          20

    do_close-keeps :
        (o : Outside) (input : Bytes) → KeepsG (do_close c l w y pager_box str nick me o input)
    unfolding do_close
    do_close-keeps o input = search (keeps_rules, close_target-keeps) depth 10

    do_default-keeps :
        (o : Outside) (input them : Bytes)
        → KeepsG (do_default c l w y pager_box str nick me o input them)
    unfolding do_default
    do_default-keeps o input [] = search show-keeps
    do_default-keeps o input (t ∷ them) = search k.send_text-Keeps

    do_log-keeps : (input : Bytes) → KeepsG (do_log c l w y pager_box str nick me input)
    unfolding do_log
    do_log-keeps input = search (keeps_rules, recent-keeps, show-keeps) depth 10

    do_salty-keeps :
        (o : Outside) (input : Bytes) → KeepsG (do_salty c l w y pager_box str nick me o input)
    unfolding do_salty
    do_salty-keeps o input = k.send_salty-Keeps _ _ _ _ _

    logged_result-keeps :
        (r : Result (Unit {0}))
        → KeepsG (elim r as (λ _. Action (Service M Text Ev) (Unit {0})) [
          | ok done ↦ lift (ok tt)
          | err e ↦ show c l w y pager_box str nick me (error_line e ∷ [])
          | panic ↦ lift panic
        ])
    logged_result-keeps (ok done) = Keeps-lift (ok tt)
    logged_result-keeps (err e) = show-keeps (error_line e ∷ [])
    logged_result-keeps panic = Keeps-lift panic

    logged-keeps :
        (m : Action (Service M Text Ev) (Unit {0}))
        → KeepsG m
        → KeepsG (logged c l w y pager_box str nick me m)
    unfolding logged
    logged-keeps m km = Keeps-bind _ _ (Keeps-attempt m km) logged_result-keeps

    run_command-keeps :
        (o : Outside) (input : Bytes) → KeepsG (run_command c l w y pager_box str nick me o input)
    unfolding run_command do_chat
    run_command-keeps o input =
        search
          (
            keeps_rules, do_log-keeps, do_chat-keeps, do_close-keeps, stop-keeps, do_salty-keeps,
            do_default-keeps, logged-keeps,
          )
          depth 20

    by_line-keeps :
        (o : Outside) (line : Bytes)
        → KeepsG (elim line as (λ _. Action (Service M Text Ev) (Unit {0})) [
          | [] ↦ lift (ok tt)
          | x ∷ xs ↦ run_command c l w y pager_box str nick me o (x ∷ xs)
        ])
    by_line-keeps o [] = Keeps-lift (ok tt)
    by_line-keeps o (x ∷ xs) = run_command-keeps o (x ∷ xs)

    pub run_line-keeps :
        (o : Outside) (typed : Bytes) → KeepsG (run_line c l w y pager_box str nick me o typed)
    unfolding run_line
    run_line-keeps o typed = by_line-keeps o (str.trim_space typed)

    pub begin-keeps :
        (o : Outside) (them : Bytes) → KeepsG (begin c l w y pager_box str nick me o them)
    unfolding begin
    begin-keeps o [] = record { after = λ svc h. h }
    begin-keeps o (t ∷ them) =
        search (keeps_rules, set_prompt-keeps, set_them-keeps, show-keeps, run_line-keeps) depth 20
