-- ===== src/Ui/Meant.antt =====
-- The terminal interface (ui/chat.go) does with a line what the line means, as the interactive mode
-- (interactive/interactive.go) does.
use go_ratchet.Prelude.{
  ◌≡◌, refl, sym, ap, ◌∙◌, inl, inr, ℕ, Bool, false, Bool-cases, List, [], ◌∷◌, Result, ok, err,
  panic, Bytes,
}
use go_ratchet.Prelude.Methods.{Action, and_then, lift}
use go_ratchet.Crypto.{Crypto}
use go_ratchet.Xochimilco.Message.{has_prefix}
use go_ratchet.Disk.{ℤ, Libraries}
use go_ratchet.Client.Interface.{SessionManager}
use go_ratchet.Client.{Client, Event, Salty, attempted}
use go_ratchet.Client.Operations.{send_text}
use go_ratchet.Memory.{Page}
use go_ratchet.Memory.Reading.{ReadsBack}
use go_ratchet.Commands.{IsOther, chat_meaning, close_meaning, text_meaning, meaning}
use go_ratchet.Interactive.{
  Service, Strings, Outside, error_line, run_line, target_of, log_command, quit_command,
  chat_command, close_command, salty_command,
}
use go_ratchet.Interactive.Meant.{run_line-meaning}
use go_ratchet.Ui.{
  Model, Widgets, write_event, write_events, in_model, write, written, unchecked, set_them,
  ui_sessions, ui_chat, ui_close, ui_salty, ui_text, ui_line, ui_enter,
}

module _ {M Text Ev : Type 0} where
  abbrev pub model_situation : Model M Text Ev → Client M Text Ev × Bytes
  model_situation m = (m.client, m.them)

  write_events-situation :
      (es : List (Event Text Ev)) (m : Model M Text Ev)
      → model_situation (write_events es m) ≡ model_situation m
  unfolding write_events write_event
  write_events-situation [] m = refl
  write_events-situation (e ∷ es) m = write_events-situation es (write_event e m)

  in_model-situation :
      {A : Type 0} (call : Action (Client M Text Ev) A) (m : Model M Text Ev)
      → model_situation (in_model call m).1 ≡ ((call m.client).1, m.them)
  unfolding in_model
  in_model-situation call m = write_events-situation _ _

  written_result :
      (r : Result (Unit {0})) (m : Model M Text Ev)
      → model_situation
          (and_then (attempted (r, m)) (λ r'.
            elim r' as (λ _. Action (Model M Text Ev) (Unit {0})) [
              | ok done ↦ lift (ok tt)
              | err e ↦ write (error_line e ∷ [])
              | panic ↦ lift panic
            ])).1
        ≡ model_situation m
  unfolding write
  written_result (ok done) m = refl
  written_result (err e) m = refl
  written_result panic m = refl

  written-situation :
      (call : Action (Model M Text Ev) (Unit {0})) (m : Model M Text Ev)
      → model_situation (written call m).1 ≡ model_situation (call m).1
  unfolding written
  written-situation call m = written_result (call m).0 (call m).1

  unchecked_result :
      (r : Result (Unit {0})) (m : Model M Text Ev)
      → model_situation
          (and_then (attempted (r, m)) (λ r'.
            elim r' as (λ _. Action (Model M Text Ev) (Unit {0})) [
              | ok done ↦ lift (ok tt)
              | err e ↦ lift (ok tt)
              | panic ↦ lift panic
            ])).1
        ≡ model_situation m
  unchecked_result (ok done) m = refl
  unchecked_result (err e) m = refl
  unchecked_result panic m = refl

  unchecked-situation :
      (call : Action (Model M Text Ev) (Unit {0})) (m : Model M Text Ev)
      → model_situation (unchecked call m).1 ≡ model_situation (call m).1
  unfolding unchecked
  unchecked-situation call m = unchecked_result (call m).0 (call m).1

  -- What follows a call and only says whether the program ends.
  ended :
      (r : Result (Unit {0})) (m : Model M Text Ev) (b : Bool)
      → model_situation (and_then (r, m) (λ _. lift (ok b))).1 ≡ model_situation m
  ended (ok done) m b = refl
  ended (err e) m b = refl
  ended panic m b = refl

module _ {M Text Ev : Type 0} (c : Crypto) (l : Libraries) (w : SessionManager M)
    (y : Salty Text Ev) (str : Strings) (widgets : Widgets) (me : Bytes) where
  ui_chat-situation :
      (o : Outside) (fields : List Bytes) (m : Model M Text Ev)
      → model_situation (ui_chat c l w y str widgets me o fields m).1
        ≡ chat_meaning c l w y str o fields (model_situation m)
  unfolding ui_chat ui_sessions write set_them
  ui_chat-situation o [] m = refl
  ui_chat-situation o (command ∷ []) m = refl
  ui_chat-situation o (command ∷ them ∷ more) m = written-situation _ _ ∙ in_model-situation _ _

  ui_close-situation :
      (o : Outside) (target : Bytes) (m : Model M Text Ev)
      → model_situation (ui_close c l w y str widgets me o target m).1
        ≡ close_meaning c l w y str o target (model_situation m)
  unfolding ui_close set_them
  ui_close-situation o [] m = refl
  ui_close-situation o (t ∷ target) m = written-situation _ _ ∙ in_model-situation _ _

  ui_text-situation :
      (o : Outside) (input them : Bytes) (m : Model M Text Ev)
      → m.them ≡ them
      → model_situation (ui_text c l w y str widgets me o input them m).1
        ≡ text_meaning c l w y str o input them m.client
  unfolding ui_text write
  ui_text-situation o input [] m e = ap (λ them. (m.client, them)) e
  ui_text-situation o input (t ∷ them) m e =
      unchecked-situation _ m
      ∙ in_model-situation _ m
      ∙ ap
          (λ them'. (
            (send_text c l w y o.now o.later o.offer_sample o.post_failed (t ∷ them) input []
                m.client).1,
            them',
          ))
          e

  ui_line-meaning :
      (o : Outside) (line : Bytes) (m : Model M Text Ev)
      → has_prefix line quit_command ≡ false
      → model_situation (ui_line c l w y str widgets me o line m).1
        ≡ meaning c l w y str o line (model_situation m)
  unfolding ui_line ui_salty meaning
  ui_line-meaning o line m no_quit = elim (Bool-cases (has_prefix line chat_command)) [
    | inl is_chat ↦ rw is_chat (ended _ _ false ∙ ui_chat-situation o (str.fields line) m)
    | inr no_chat ↦ elim (Bool-cases (has_prefix line close_command)) [
      | inl is_close ↦
          rw (no_chat, is_close)
            (ended _ _ false ∙ ui_close-situation o (target_of (str.fields line) m.them) m)
      | inr no_close ↦ elim (Bool-cases (has_prefix line salty_command)) [
        | inl is_salty ↦
            rw (no_chat, no_close, is_salty)
              (ended _ _ false ∙ written-situation _ m ∙ in_model-situation _ m)
        | inr no_salty ↦
            rw (no_chat, no_close, no_salty, no_quit)
              (ended _ _ false ∙ ui_text-situation o line m.them m refl)
      ]
    ]
  ]

  -- Enter, with a line that is no "/quit", leaves the client and the current peer as the line
  -- means: a "/chat" with the own name and an error of the client too.
  pub ui_enter-meaning :
      (o : Outside) (x : ℕ) (xs : Bytes) (m : Model M Text Ev)
      → has_prefix (x ∷ xs) quit_command ≡ false
      → model_situation (ui_enter c l w y str widgets me o (x ∷ xs) m).1
        ≡ meaning c l w y str o (x ∷ xs) (model_situation m)
  unfolding ui_enter
  ui_enter-meaning o x xs m no_quit = ui_line-meaning o (x ∷ xs) (record m { input = [] }) no_quit

-- Suppose that `PagerBox`, asked for 20 entries back from the end of a log that has some, starts at
-- one of them or wants none. If a line is not empty, neither begins nor ends with a space, is no
-- "/log" and no "/quit", and is no "/chat" with the own name, then both user interfaces, with the
-- same client and the same current peer, leave the same client and the same current peer.
pub same_effect :
    {M Text Ev : Type 0} (c : Crypto) (l : Libraries) (w : SessionManager M) (y : Salty Text Ev)
    (pager_box : ℕ → ℕ → ℤ → ℤ → Page)
    → ReadsBack pager_box
    → (str : Strings) (nick : Text → Bytes) (me : Bytes) (widgets : Widgets) (o : Outside) (x : ℕ)
      (xs : Bytes) (svc : Service M Text Ev) (m : Model M Text Ev)
    → svc.client ≡ m.client
    → svc.them ≡ m.them
    → str.trim_space (x ∷ xs) ≡ x ∷ xs
    → has_prefix (x ∷ xs) log_command ≡ false
    → has_prefix (x ∷ xs) quit_command ≡ false
    → IsOther me (str.fields (x ∷ xs))
    → let (_, svc') = run_line c l w y pager_box str nick me o (x ∷ xs) svc in
      let (_, m') = ui_enter c l w y str widgets me o (x ∷ xs) m in
      (svc'.client ≡ m'.client) × (svc'.them ≡ m'.them)
same_effect c l w y pager_box back str nick me widgets o x xs svc m client them trimmed no_log
      no_quit other =
    let meant =
      run_line-meaning c l w y pager_box back str nick me o x xs svc trimmed no_log no_quit other in
    let same = ap (meaning c l w y str o (x ∷ xs)) (λ i. (client i, them i)) in
    let e = meant ∙ same ∙ sym (ui_enter-meaning c l w y str widgets me o x xs m no_quit) in
    (ap (λ p. p.0) e, ap (λ p. p.1) e)
