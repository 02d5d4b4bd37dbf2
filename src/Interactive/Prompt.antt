-- ===== src/Interactive/Prompt.antt =====
-- The prompt and the current peer of the interactive mode (interactive/interactive.go).
pub mod Reached
use go_ratchet.Prelude.{
  ◌≡◌, refl, ◌⊎◌, inl, inr, ℕ, Bool, true, false, Bool-cases, List, [], ◌∷◌, ◌++◌, Error, Result,
  ok, err, panic, Bytes, bytes_eq, map,
}
use go_ratchet.Prelude.Methods.{Action, ◌>>=◌, ◌>>◌, lift, get, modify}
use go_ratchet.Prelude.Keeps.{
  Keeps, Keeps-bind, Keeps-then, Keeps-lift, Keeps-modify, Keeps-get, keeps_rules,
}
use go_ratchet.Crypto.{Crypto, Sample}
use go_ratchet.Xochimilco.Session.{OfferSamples}
use go_ratchet.Disk.{ℤ, negsuc, Libraries}
use go_ratchet.Client.Interface.{SessionManager}
use go_ratchet.Client.{
  attempted, Client, Event, Input, Salty, attempt, session_closed, offer_sent, offer_received,
  session_started, message_received, event_received, message_sent, close_sent, salty_text_received,
  salty_event_received, salty_sent, received, failed,
}
use go_ratchet.Client.Kept.{Keeps-attempt}
use go_ratchet.Memory.{Page, read_log, user_stream}
use go_ratchet.Memory.Reading.{ReadsBack, selected, read_log-back}
use go_ratchet.Interactive.{
  and_then, chat, chat_fields, Line, Service, Strings, Outside, prompt_of, prompt_after, react,
  react_all, on_client, show, set_prompt, recent, list_sessions, chat_to, do_chat, close_target,
  do_close, do_default, do_log, do_salty, logged, run_command, run_line, begin, error_line,
}
use go_ratchet.Interactive.Turns.{Turn, types, gets, Reaches, begins, turns}

module _ {M Text Ev : Type 0} (me : Bytes) where
  -- The prompt names the current peer, or nobody.
  pub record PromptFits (svc : Service M Text Ev) : Type 0 where
    pub names : (svc.prompt ≡ prompt_of me svc.them) ⊎ (svc.prompt ≡ prompt_of me [])

module _ {Text Ev : Type 0} (me : Bytes) where
  prompt_after_lem :
      (them : Bytes) (e : Event Text Ev) (prompt : Bytes)
      → (prompt_after me them e prompt ≡ prompt) ⊎ (prompt_after me them e prompt ≡ prompt_of me [])
  unfolding prompt_after
  prompt_after_lem them (session_closed uid closed) prompt =
      elim (Bool-cases (bytes_eq them closed)) [
        | inl same ↦ inr (rw same)
        | inr apart ↦ inl (rw apart)
      ]
  prompt_after_lem them _ prompt = inl refl

module _ {M Text Ev : Type 0} (nick : Text → Bytes) (me : Bytes) where
  react-PromptFits :
      (e : Event Text Ev) (svc : Service M Text Ev)
      → PromptFits me svc
      → PromptFits me (react nick me e svc)
  unfolding react
  react-PromptFits e svc h = elim (prompt_after_lem me svc.them e svc.prompt) [
    | inl same ↦ record { names = rw same h.names }
    | inr reset ↦ record { names = inr reset }
  ]

  react_all-PromptFits :
      (es : List (Event Text Ev)) (svc : Service M Text Ev)
      → PromptFits me svc
      → PromptFits me (react_all nick me es svc)
  unfolding react_all
  react_all-PromptFits [] svc h = h
  react_all-PromptFits (e ∷ es) svc h =
      react_all-PromptFits es (react nick me e svc) (react-PromptFits e svc h)

  on_client-PromptFits :
      {A : Type 0} (m : Action (Client M Text Ev) A) → Keeps (PromptFits me) (on_client nick me m)
  unfolding on_client
  on_client-PromptFits m = record {
    after = λ svc h. react_all-PromptFits _ _ (record { names = h.names });
  }

module _ {M Text Ev : Type 0} (c : Crypto) (l : Libraries) (w : SessionManager M)
    (y : Salty Text Ev) (pager_box : ℕ → ℕ → ℤ → ℤ → Page) (back : ReadsBack pager_box)
    (str : Strings) (nick : Text → Bytes) (me : Bytes) where
  abbrev KeepsPrompt : {A : Type 0} → Action (Service M Text Ev) A → Type 0
  KeepsPrompt m = Keeps (PromptFits me) m

  show-PromptFits :
      (lines : List (Line Text Ev)) → KeepsPrompt (show c l w y pager_box str nick me lines)
  unfolding show
  show-PromptFits lines = record { after = λ svc h. record { names = h.names } }

  recent-PromptFits : (name : Bytes) → KeepsPrompt (recent c l w y pager_box str nick me name)
  unfolding recent
  recent-PromptFits name = search keeps_rules depth 10

  list_sessions-PromptFits : KeepsPrompt (list_sessions c l w y pager_box str nick me)
  unfolding list_sessions
  list_sessions-PromptFits = search (keeps_rules, show-PromptFits) depth 10

  -- With another peer, `doChat` sets the prompt that names the peer, whatever it was before.
  pub chat_to-other :
      (o : Outside) (them : Bytes) (svc : Service M Text Ev)
      → bytes_eq me them ≡ false
      → PromptFits me (chat_to c l w y pager_box str nick me o them svc).1
  unfolding chat_to recent show set_prompt
  chat_to-other o them svc apart =
      let read = read_log-back pager_box svc.logs (user_stream them) back in
      let asked = chat c l w o.offer_sample o.other_sample o.post_failed them in
      let rest =
        Keeps-bind (attempt (on_client nick me asked)) (λ r. lift (ok tt))
          (Keeps-attempt (on_client nick me asked) (on_client-PromptFits nick me asked))
          (λ r. Keeps-lift (ok tt)) in
      rw (apart, read) (rest.after _ (record { names = inl refl }))

  chat_to_self :
      (o : Outside) (them : Bytes) (svc : Service M Text Ev)
      → bytes_eq me them ≡ true
      → chat_to c l w y pager_box str nick me o them svc ≡ (err Error.self_chat, svc)
  unfolding chat_to
  chat_to_self o them svc self = rw self

  chat_to-PromptFits :
      (o : Outside) (them : Bytes) → KeepsPrompt (chat_to c l w y pager_box str nick me o them)
  chat_to-PromptFits o them = record {
    after = λ svc h. elim (Bool-cases (bytes_eq me them)) [
      | inl self ↦ rw (chat_to_self o them svc self) h
      | inr apart ↦ chat_to-other o them svc apart
    ];
  }

  chat_fields-PromptFits :
      (o : Outside) (fields : List Bytes)
      → KeepsPrompt (chat_fields c l w y pager_box str nick me o fields)
  unfolding chat_fields
  chat_fields-PromptFits o [] = list_sessions-PromptFits
  chat_fields-PromptFits o (command ∷ []) = list_sessions-PromptFits
  chat_fields-PromptFits o (command ∷ them ∷ more) = chat_to-PromptFits o them

  do_chat-PromptFits :
      (o : Outside) (input : Bytes) → KeepsPrompt (do_chat c l w y pager_box str nick me o input)
  unfolding do_chat
  do_chat-PromptFits o input = chat_fields-PromptFits o (str.fields input)

  close_target-PromptFits :
      (o : Outside) (input target : Bytes)
      → KeepsPrompt (close_target c l w y pager_box str nick me o input target)
  unfolding close_target set_prompt show
  close_target-PromptFits o input [] = Keeps-lift (ok tt)
  close_target-PromptFits o input (t ∷ target) = record {
    after = λ svc h. (on_client-PromptFits nick me _).after _ (record { names = inl refl });
  }

  do_close-PromptFits :
      (o : Outside) (input : Bytes) → KeepsPrompt (do_close c l w y pager_box str nick me o input)
  unfolding do_close
  do_close-PromptFits o input = search (keeps_rules, close_target-PromptFits) depth 10

  do_default-PromptFits :
      (o : Outside) (input them : Bytes)
      → KeepsPrompt (do_default c l w y pager_box str nick me o input them)
  unfolding do_default
  do_default-PromptFits o input [] = search show-PromptFits
  do_default-PromptFits o input (t ∷ them) = on_client-PromptFits nick me _

  do_log-PromptFits : (input : Bytes) → KeepsPrompt (do_log c l w y pager_box str nick me input)
  unfolding do_log
  do_log-PromptFits input = search (keeps_rules, recent-PromptFits, show-PromptFits) depth 10

  do_salty-PromptFits :
      (o : Outside) (input : Bytes) → KeepsPrompt (do_salty c l w y pager_box str nick me o input)
  unfolding do_salty
  do_salty-PromptFits o input = on_client-PromptFits nick me _

  attempted_at :
      (r : Result (Unit {0})) (svc : Service M Text Ev)
      → PromptFits me svc
      → PromptFits me
          (and_then (attempted (r, svc)) (λ r'.
            elim r' as (λ _. Action (Service M Text Ev) (Unit {0})) [
              | ok done ↦ lift (ok tt)
              | err e ↦ show c l w y pager_box str nick me (error_line e ∷ [])
              | panic ↦ lift panic
            ])).1
  attempted_at (ok a) svc h = h
  attempted_at (err e) svc h = (show-PromptFits (error_line e ∷ [])).after svc h
  attempted_at panic svc h = h

  pub logged_at :
      (m : Action (Service M Text Ev) (Unit {0})) (svc : Service M Text Ev)
      → PromptFits me (m svc).1
      → PromptFits me (logged c l w y pager_box str nick me m svc).1
  unfolding logged
  logged_at m svc h = attempted_at (m svc).0 (m svc).1 h

  logged-PromptFits :
      (m : Action (Service M Text Ev) (Unit {0}))
      → KeepsPrompt m
      → KeepsPrompt (logged c l w y pager_box str nick me m)
  logged-PromptFits m km = record { after = λ svc h. logged_at m svc (km.after svc h) }

  stop-PromptFits : KeepsPrompt (modify λ svc. record svc { stopped = true })
  stop-PromptFits = record { after = λ svc h. record { names = h.names } }

  run_command-PromptFits :
      (o : Outside) (input : Bytes)
      → KeepsPrompt (run_command c l w y pager_box str nick me o input)
  unfolding run_command
  run_command-PromptFits o input =
      search
        (
          keeps_rules, do_log-PromptFits, do_chat-PromptFits, do_close-PromptFits, stop-PromptFits,
          do_salty-PromptFits, do_default-PromptFits, logged-PromptFits,
        )
        depth 20

  pub run_line-PromptFits :
      (o : Outside) (typed : Bytes) → KeepsPrompt (run_line c l w y pager_box str nick me o typed)
  unfolding run_line
  run_line-PromptFits o typed = by_line (str.trim_space typed)
    where
      by_line :
          (line : Bytes)
          → KeepsPrompt (elim line as (λ _. Action (Service M Text Ev) (Unit {0})) [
            | [] ↦ lift (ok tt)
            | x ∷ xs ↦ run_command c l w y pager_box str nick me o (x ∷ xs)
          ])
      by_line [] = Keeps-lift (ok tt)
      by_line (x ∷ xs) = run_command-PromptFits o (x ∷ xs)
