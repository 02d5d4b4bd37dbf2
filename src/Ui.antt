-- ===== src/Ui.antt =====
-- ui/chat.go: the terminal interface. Its state is the client, the current peer, what was written,
-- the line that is edited and the viewport. The widgets of the libraries (the text input, the
-- viewport and the heights of what is drawn) are parameters.
pub mod Meant
use go_ratchet.Prelude.{
  ℕ, ◌+◌, ◌-◌, leb, if◌then◌else◌, Bool, true, false, List, [], ◌∷◌, ◌++◌, map, Error, Result, ok,
  err, panic, Bytes, bytes_eq, length, drop,
}
use go_ratchet.Prelude.Methods.{Action, ◌>>=◌, ◌>>◌, and_then, lift, get, modify}
use go_ratchet.Crypto.{Crypto}
use go_ratchet.Xochimilco.Message.{has_prefix}
use go_ratchet.Disk.{ℤ, pos, negsuc, Libraries}
use go_ratchet.Client.Interface.{SessionManager}
use go_ratchet.Client.{Client, Event, Salty, attempt}
use go_ratchet.Client.Operations.{chat, send_text, close_chat, send_salty}
use go_ratchet.Interactive.{
  Line, event_line, session_line, usage_line, error_line, Strings, Outside, is_shown, chat_command,
  close_command, quit_command, salty_command, trim_prefix, target_of,
}

-- The fields of a viewport that are set.
pub record Viewport : Type 0 where
  pub width : ℕ
  pub height : ℤ
  pub y_position : ℕ

-- The struct `model`. `content` is what was written, `on_screen` what the viewport was given last.
pub record Model (M Text Ev : Type 0) : Type 0 where
  pub client : Client M Text Ev
  pub them : Bytes
  pub content : List (Line Text Ev)
  pub on_screen : List (Line Text Ev)
  pub ready : Bool
  pub viewport : Viewport
  pub prompt : Bytes
  pub input : Bytes
  pub input_width : ℕ

-- A `tea.Msg`: Ctrl-C or Escape, Enter, another key, a new size of the window, or something else.
pub data UiMsg : Type 0 where
  quit_key enter_key : UiMsg
  other_key : ℕ → UiMsg
  window_size : ℕ → ℕ → UiMsg
  other_msg : UiMsg

-- `Update` of the text input, on its value, and of the viewport; and the heights of the header, the
-- footer and the input.
pub record Widgets : Type 0 where
  pub edit : UiMsg → Bytes → Bytes
  pub scroll : UiMsg → Viewport → Viewport
  pub header_height : ℕ
  pub footer_height : ℕ
  pub input_height : ℕ

-- `setPrompt`
unfoldable pub ui_prompt : Bytes → Bytes → Bytes
ui_prompt me [] = me ++ (b'>' ∷ 32 ∷ [])
ui_prompt me (t ∷ them) = me ++ (32 ∷ b'-' ∷ b'>' ∷ 32 ∷ ((t ∷ them) ++ (b'>' ∷ 32 ∷ [])))

-- The difference of two ints.
abbrev diff : ℕ → ℕ → ℤ
diff a b = if leb b a then pos (a - b) else negsuc (b - a - 1)

-- `InitialModel`
unfoldable pub initial_model :
    {M Text Ev : Type 0} → Bytes → Client M Text Ev → Bytes → Model M Text Ev
initial_model me client them = record {
  client = client;
  them = them;
  content = [];
  on_screen = [];
  ready = false;
  viewport = record { width = 0; height = pos 0; y_position = 0 };
  prompt = ui_prompt me them;
  input = [];
  input_width = 20;
}

module _ {M Text Ev : Type 0} where
  -- `Update` for an event, as the handlers of `InitialModel` call it: on a copy of the model that
  -- shares what was written.
  unfoldable pub write_event : Event Text Ev → Model M Text Ev → Model M Text Ev
  write_event e m = record m {
    content = m.content ++ (if is_shown e then event_line e ∷ [] else []);
  }

  unfoldable pub write_events : List (Event Text Ev) → Model M Text Ev → Model M Text Ev
  write_events [] m = m
  write_events (e ∷ es) m = write_events es (write_event e m)

  -- A call of the client. The events that it dispatches are handled before it returns.
  unfoldable pub in_model : {A : Type 0} → Action (Client M Text Ev) A → Action (Model M Text Ev) A
  in_model call m =
      let (r, client) = call m.client in
      (r, write_events (drop (length m.client.events) client.events) (record m { client = client }))

  unfoldable pub write : List (Line Text Ev) → Action (Model M Text Ev) (Unit {0})
  write lines = modify λ m. record m { content = m.content ++ lines }

  -- `if err != nil { fmt.Fprintf(m.content, "ERR: %s\n", err) }`
  unfoldable pub written : Action (Model M Text Ev) (Unit {0}) → Action (Model M Text Ev) (Unit {0})
  written call = do
    r ← attempt call
    elim r [ ok done ↦ lift (ok tt) | err e ↦ write (error_line e ∷ []) | panic ↦ lift panic ]

  -- `m.c.Send(ctx, m.them, input)`, whose error is not looked at
  unfoldable pub unchecked :
      Action (Model M Text Ev) (Unit {0}) → Action (Model M Text Ev) (Unit {0})
  unchecked call = do
    r ← attempt call
    elim r [ ok done ↦ lift (ok tt) | err e ↦ lift (ok tt) | panic ↦ lift panic ]

module _ {M Text Ev : Type 0} (c : Crypto) (l : Libraries) (w : SessionManager M)
    (y : Salty Text Ev) (str : Strings) (widgets : Widgets) (me : Bytes) where
  unfoldable pub set_them : Bytes → Action (Model M Text Ev) (Unit {0})
  set_them them = modify λ m. record m { them = them; prompt = ui_prompt me them }

  unfoldable pub ui_sessions : Action (Model M Text Ev) (Unit {0})
  ui_sessions = do
    m ← get
    write (usage_line ∷ map (λ p. session_line p.0) (w.sessions m.client.sm))

  -- A chat with the own name is reported as an error, and tried all the same.
  unfoldable pub ui_chat : Outside → List Bytes → Action (Model M Text Ev) (Unit {0})
  ui_chat o [] = ui_sessions
  ui_chat o (command ∷ []) = ui_sessions
  ui_chat o (command ∷ them ∷ more) = do
    write (if bytes_eq me them then error_line Error.self_chat ∷ [] else [])
    set_them them
    written (in_model (chat c l w o.offer_sample o.other_sample o.post_failed them))

  unfoldable pub ui_close : Outside → Bytes → Action (Model M Text Ev) (Unit {0})
  ui_close o [] = lift (ok tt)
  ui_close o (t ∷ target) = do
    set_them []
    written (in_model (close_chat c l w o.post_failed (t ∷ target)))

  unfoldable pub ui_salty : Outside → Bytes × Bytes → Action (Model M Text Ev) (Unit {0})
  ui_salty o parts =
      written (in_model (send_salty c l w y o.now o.found o.post_failed parts.0 parts.1 []))

  unfoldable pub ui_text : Outside → Bytes → Bytes → Action (Model M Text Ev) (Unit {0})
  ui_text o input [] = write (usage_line ∷ [])
  ui_text o input (t ∷ them) =
      unchecked (
        in_model (send_text c l w y o.now o.later o.offer_sample o.post_failed (t ∷ them) input []))

  -- What Enter does with a line; the result says whether the program ends.
  unfoldable pub ui_line : Outside → Bytes → Action (Model M Text Ev) Bool
  ui_line o input =
      if has_prefix input chat_command
      then ui_chat o (str.fields input) >> lift (ok false)
      else if has_prefix input close_command
      then get >>= (λ m. ui_close o (target_of (str.fields input) m.them)) >> lift (ok false)
      else if has_prefix input salty_command
      then ui_salty o (str.cut (trim_prefix input (salty_command ++ (32 ∷ [])))) >> lift (ok false)
      else if has_prefix input quit_command
      then lift (ok true)
      else get >>= (λ m. ui_text o input m.them) >> lift (ok false)

  unfoldable pub ui_enter : Outside → Bytes → Action (Model M Text Ev) Bool
  ui_enter o [] = lift (ok false)
  ui_enter o (x ∷ xs) = modify (λ m. record m { input = [] }) >> ui_line o (x ∷ xs)

  -- The first size makes the viewport, any other one only changes it.
  unfoldable pub resize : ℕ → ℕ → Model M Text Ev → Model M Text Ev
  resize width height m =
      let size =
        diff height (widgets.header_height + widgets.footer_height + widgets.input_height) in
      if m.ready
      then record m { viewport = record (m.viewport) { width = width; height = size } }
      else record m {
        input_width = width;
        viewport = record { width = width; height = size; y_position = widgets.header_height + 1 };
        on_screen = m.content;
        ready = true;
      }

  -- What `Update` ends with, unless the program does.
  unfoldable pub refresh : UiMsg → Bool → Action (Model M Text Ev) Bool
  refresh msg true = lift (ok true)
  refresh msg false =
      modify (λ m. record m {
        on_screen = m.content;
        viewport = widgets.scroll msg m.viewport;
        input = widgets.edit msg m.input;
      })
      >> lift (ok false)

  unfoldable pub handle_msg : Outside → UiMsg → Action (Model M Text Ev) Bool
  handle_msg o quit_key = lift (ok true)
  handle_msg o enter_key = get >>= λ m. ui_enter o m.input
  handle_msg o (other_key k) = lift (ok false)
  handle_msg o (window_size width height) = modify (resize width height) >> lift (ok false)
  handle_msg o other_msg = lift (ok false)

  -- `Update`; the result says whether the program ends.
  unfoldable pub update_model : Outside → UiMsg → Action (Model M Text Ev) Bool
  update_model o msg = do ends ← handle_msg o msg; refresh msg ends
