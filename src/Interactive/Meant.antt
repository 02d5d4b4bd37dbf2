-- ===== src/Interactive/Meant.antt =====
-- The interactive mode (interactive/interactive.go) does with a line what the line means.
use go_ratchet.Prelude.{
  ◌≡◌, refl, ap, ◌∙◌, inl, inr, ℕ, false, Bool-cases, List, [], ◌∷◌, Result, ok, err, panic, Bytes,
  bytes_eq,
}
use go_ratchet.Prelude.Methods.{Action, and_then, lift}
use go_ratchet.Crypto.{Crypto}
use go_ratchet.Xochimilco.Message.{has_prefix}
use go_ratchet.Disk.{ℤ, Libraries}
use go_ratchet.Client.Interface.{SessionManager}
use go_ratchet.Client.{Client, Event, Salty, attempted}
use go_ratchet.Client.Operations.{chat, send_text}
use go_ratchet.Memory.{Page, user_stream}
use go_ratchet.Memory.Reading.{ReadsBack, read_log-back}
use go_ratchet.Commands.{IsOther, chat_meaning, close_meaning, text_meaning, meaning}
use go_ratchet.Interactive.{
  Service, Strings, Outside, react, react_all, on_client, show, set_prompt, recent, list_sessions,
  chat_to, chat_fields, do_chat, close_target, do_close, do_default, do_salty, logged, run_command,
  run_line, error_line, target_of, log_command, quit_command, chat_command, close_command,
  salty_command,
}

module _ {M Text Ev : Type 0} where
  -- What a line is about: the client and the current peer.
  abbrev pub situation : Service M Text Ev → Client M Text Ev × Bytes
  situation svc = (svc.client, svc.them)

module _ {M Text Ev : Type 0} (nick : Text → Bytes) (me : Bytes) where
  react_all-situation :
      (es : List (Event Text Ev)) (svc : Service M Text Ev)
      → situation (react_all nick me es svc) ≡ situation svc
  unfolding react_all react
  react_all-situation [] svc = refl
  react_all-situation (e ∷ es) svc = react_all-situation es (react nick me e svc)

  on_client-situation :
      {A : Type 0} (m : Action (Client M Text Ev) A) (svc : Service M Text Ev)
      → situation (on_client nick me m svc).1 ≡ ((m svc.client).1, svc.them)
  unfolding on_client
  on_client-situation m svc = react_all-situation _ _

module _ {M Text Ev : Type 0} (c : Crypto) (l : Libraries) (w : SessionManager M)
    (y : Salty Text Ev) (pager_box : ℕ → ℕ → ℤ → ℤ → Page) (back : ReadsBack pager_box)
    (str : Strings) (nick : Text → Bytes) (me : Bytes) where
  result_dropped :
      (r : Result (Unit {0})) (svc : Service M Text Ev)
      → situation
          (and_then (attempted (r, svc)) (λ r'.
            elim r' as (λ _. Action (Service M Text Ev) (Unit {0})) [
              | ok done ↦ lift (ok tt)
              | err e ↦ show c l w y pager_box str nick me (error_line e ∷ [])
              | panic ↦ lift panic
            ])).1
        ≡ situation svc
  unfolding show
  result_dropped (ok done) svc = refl
  result_dropped (err e) svc = refl
  result_dropped panic svc = refl

  logged-situation :
      (m : Action (Service M Text Ev) (Unit {0})) (svc : Service M Text Ev)
      → situation (logged c l w y pager_box str nick me m svc).1 ≡ situation (m svc).1
  unfolding logged
  logged-situation m svc = result_dropped (m svc).0 (m svc).1

  answer_dropped :
      (r : Result (Unit {0})) (svc : Service M Text Ev)
      → situation (and_then (attempted (r, svc)) (λ _. lift (ok tt))).1 ≡ situation svc
  answer_dropped (ok done) svc = refl
  answer_dropped (err e) svc = refl
  answer_dropped panic svc = refl

  chat_to-situation :
      (o : Outside) (them : Bytes) (svc : Service M Text Ev)
      → bytes_eq me them ≡ false
      → situation (chat_to c l w y pager_box str nick me o them svc).1
        ≡ ((chat c l w o.offer_sample o.other_sample o.post_failed them svc.client).1, them)
  unfolding chat_to recent show set_prompt
  chat_to-situation o them svc apart =
      let read = read_log-back pager_box svc.logs (user_stream them) back in
      rw (apart, read) (answer_dropped _ _ ∙ on_client-situation nick me _ _)

  do_chat-situation :
      (o : Outside) (fields : List Bytes) (svc : Service M Text Ev)
      → IsOther me fields
      → situation (chat_fields c l w y pager_box str nick me o fields svc).1
        ≡ chat_meaning c l w y str o fields (situation svc)
  unfolding chat_fields list_sessions show
  do_chat-situation o [] svc other = refl
  do_chat-situation o (command ∷ []) svc other = refl
  do_chat-situation o (command ∷ them ∷ more) svc other = chat_to-situation o them svc other

  close_target-situation :
      (o : Outside) (input target : Bytes) (svc : Service M Text Ev)
      → situation (close_target c l w y pager_box str nick me o input target svc).1
        ≡ close_meaning c l w y str o target (situation svc)
  unfolding close_target set_prompt show
  close_target-situation o input [] svc = refl
  close_target-situation o input (t ∷ target) svc = on_client-situation nick me _ _

  do_default-situation :
      (o : Outside) (input them : Bytes) (svc : Service M Text Ev)
      → svc.them ≡ them
      → situation (do_default c l w y pager_box str nick me o input them svc).1
        ≡ text_meaning c l w y str o input them svc.client
  unfolding do_default show
  do_default-situation o input [] svc e = ap (λ them. (svc.client, them)) e
  do_default-situation o input (t ∷ them) svc e =
      on_client-situation nick me _ svc
      ∙ ap
          (λ them'. (
            (send_text c l w y o.now o.later o.offer_sample o.post_failed (t ∷ them) input []
                svc.client).1,
            them',
          ))
          e

  run_command-meaning :
      (o : Outside) (line : Bytes) (svc : Service M Text Ev)
      → has_prefix line log_command ≡ false
      → has_prefix line quit_command ≡ false
      → IsOther me (str.fields line)
      → situation (run_command c l w y pager_box str nick me o line svc).1
        ≡ meaning c l w y str o line (situation svc)
  unfolding run_command meaning do_chat do_close do_salty
  run_command-meaning o line svc no_log no_quit other =
      elim (Bool-cases (has_prefix line chat_command)) [
        | inl is_chat ↦
            rw (no_log, is_chat)
              (logged-situation (do_chat c l w y pager_box str nick me o line) svc
                ∙ do_chat-situation o (str.fields line) svc other)
        | inr no_chat ↦ elim (Bool-cases (has_prefix line close_command)) [
          | inl is_close ↦
              rw (no_log, no_chat, is_close)
                (logged-situation (do_close c l w y pager_box str nick me o line) svc
                  ∙ close_target-situation o line (target_of (str.fields line) svc.them) svc)
          | inr no_close ↦ elim (Bool-cases (has_prefix line salty_command)) [
            | inl is_salty ↦
                rw (no_log, no_chat, no_close, no_quit, is_salty)
                  (logged-situation (do_salty c l w y pager_box str nick me o line) svc
                    ∙ on_client-situation nick me _ svc)
            | inr no_salty ↦
                rw (no_log, no_chat, no_close, no_quit, no_salty)
                  (logged-situation (do_default c l w y pager_box str nick me o line svc.them) svc
                    ∙ do_default-situation o line svc.them svc refl)
          ]
        ]
      ]

  -- If `PagerBox`, asked for 20 entries back from the end of a log that has some, starts at one of
  -- them or wants none, and a line is neither empty nor begins or ends with a space, is no "/log"
  -- and no "/quit", and is no "/chat" with the own name, then the interactive mode leaves the
  -- client and the current peer as the line means.
  pub run_line-meaning :
      (o : Outside) (x : ℕ) (xs : Bytes) (svc : Service M Text Ev)
      → str.trim_space (x ∷ xs) ≡ x ∷ xs
      → has_prefix (x ∷ xs) log_command ≡ false
      → has_prefix (x ∷ xs) quit_command ≡ false
      → IsOther me (str.fields (x ∷ xs))
      → situation (run_line c l w y pager_box str nick me o (x ∷ xs) svc).1
        ≡ meaning c l w y str o (x ∷ xs) (situation svc)
  unfolding run_line
  run_line-meaning o x xs svc trimmed no_log no_quit other =
      rw (run_line, trimmed) (run_command-meaning o (x ∷ xs) svc no_log no_quit other)
