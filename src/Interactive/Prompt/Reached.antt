-- ===== src/Interactive/Prompt/Reached.antt =====
-- The prompt from the beginning of the interactive mode on (interactive/interactive.go).
use go_ratchet.Prelude.{◌≡◌, refl, inl, ℕ, false, [], ◌∷◌, ◌++◌, Bytes, bytes_eq}
use go_ratchet.Crypto.{Crypto}
use go_ratchet.Disk.{ℤ, Libraries}
use go_ratchet.Client.Interface.{SessionManager}
use go_ratchet.Client.{Salty}
use go_ratchet.Client.Inputs.{input}
use go_ratchet.Memory.{Page}
use go_ratchet.Memory.Reading.{ReadsBack}
use go_ratchet.Interactive.{
  initial_line, prompt_of, Service, Strings, Outside, show, set_prompt, chat_fields, do_chat,
  run_command, run_line, begin, chat_command,
}
use go_ratchet.Interactive.Turns.{Turn, types, gets, Reaches, begins, turns}
use go_ratchet.Interactive.Prompt.{
  PromptFits, on_client-PromptFits, chat_to-other, logged_at, run_line-PromptFits,
}

-- The line that the program begins with.
abbrev initial_line_of : Bytes → Bytes
initial_line_of them = chat_command ++ (32 ∷ them)

-- Nobody is named, or someone else whose name is one field of the first line.
pub data CanBegin (str : Strings) (me : Bytes) : Bytes → Type 0 where
  with_nobody : CanBegin str me []
  with_peer :
      (t : ℕ) (them : Bytes)
      → str.trim_space (initial_line_of (t ∷ them)) ≡ initial_line_of (t ∷ them)
      → str.fields (initial_line_of (t ∷ them)) ≡ chat_command ∷ (t ∷ them) ∷ []
      → bytes_eq me (t ∷ them) ≡ false
      → CanBegin str me (t ∷ them)

module _ {M Text Ev : Type 0} (c : Crypto) (l : Libraries) (y : Salty Text Ev)
    (pager_box : ℕ → ℕ → ℤ → ℤ → Page) (back : ReadsBack pager_box) (str : Strings)
    (nick : Text → Bytes) (me : Bytes) where
  abbrev ready : ℕ → Bytes → Service M Text Ev → Service M Text Ev
  ready t them svc = record svc {
    them = [];
    prompt = prompt_of me (t ∷ them);
    shown = svc.shown ++ (initial_line (initial_line_of (t ∷ them)) ∷ []);
  }

  begin-PromptFits :
      (them : Bytes) (w : SessionManager M) (o : Outside) (svc : Service M Text Ev)
      → CanBegin str me them
      → PromptFits me (begin c l w y pager_box str nick me o them svc).1
  unfolding begin run_line run_command do_chat chat_fields set_prompt show bytes_eq
  begin-PromptFits [] w o svc with_nobody = record { names = inl refl }
  begin-PromptFits (t ∷ them) w o svc (with_peer _ _ trimmed split apart) =
      rw (run_line, trimmed)
        (logged_at c l w y pager_box back str nick me
          (do_chat c l w y pager_box str nick me o (initial_line_of (t ∷ them))) (ready t them svc)
          (rw (do_chat, split)
            (chat_to-other c l w y pager_box back str nick me o (t ∷ them) (ready t them svc)
              apart)))

  Turn-PromptFits :
      {s t : Service M Text Ev}
      → Turn c l y pager_box str nick me s t
      → PromptFits me s
      → PromptFits me t
  Turn-PromptFits (types svc w o line going) h =
      (run_line-PromptFits c l w y pager_box back str nick me o line).after svc h
  Turn-PromptFits (gets svc w i o t) h =
      (on_client-PromptFits nick me (input c l w y i o t)).after svc h

  -- If `PagerBox`, asked for 20 entries back from the end of a log that has some, starts at one of
  -- them or wants none, and the program begins with no peer or with another one, whose name is one
  -- field, then at any time, whatever lines were typed and inputs arrived, in any order, and
  -- whatever failed, the prompt names the current peer or nobody.
  pub reached-PromptFits :
      (them : Bytes) {svc t : Service M Text Ev}
      → CanBegin str me them
      → Reaches c l y pager_box str nick me svc them t
      → PromptFits me t
  reached-PromptFits them {svc} can (begins w o) = begin-PromptFits them w o svc can
  reached-PromptFits them can (turns r turn) = Turn-PromptFits turn (reached-PromptFits them can r)
