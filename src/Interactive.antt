-- ===== src/Interactive.antt =====
-- interactive/interactive.go: what is done with each line that is typed. Its state is the client,
-- the peer that is talked to, the prompt and what was shown. The fields of a line and its parts
-- (strings.Fields, strings.TrimSpace and strings.Cut) are parameters, and so is `PagerBox`. How an
-- event is shown as text is left out.

pub mod Reporting
pub mod Turns
pub mod Prompt
pub mod Lines
pub mod Logs
pub mod Meant
use go_ratchet.Prelude.{
  ℕ, if◌then◌else◌, Bool, true, false, Option, none, some, List, [], ◌∷◌, ◌++◌, map, Error, Result,
  ok, err, panic, Bytes, bytes_eq, length, drop,
}
use go_ratchet.Prelude.Maps.{Map}
use go_ratchet.Prelude.Methods.{Action, ◌>>=◌, ◌>>◌, and_then, lift, get, modify}
use go_ratchet.Prelude.Errors.{fail_if}
use go_ratchet.Crypto.{Crypto, Sample}
use go_ratchet.Xochimilco.Message.{has_prefix}
use go_ratchet.Disk.{ℤ, negsuc, Addr, Libraries}
use go_ratchet.Client.Interface.{SessionManager}
use go_ratchet.Client.{event_received, close_sent, session_closed, Client, Event, Salty, attempt}
use go_ratchet.Client.Operations.{chat, send_text, close_chat, send_salty}
use go_ratchet.Memory.{Page, read_log, user_stream, system_stream, update}

-- What is printed: an event of a log, a name of a session, the usage, the title of a log, the line
-- that was typed, the line that the program begins with, or an error.
pub data Line (Text Ev : Type 0) : Type 0 where
  event_line : Event Text Ev → Line Text Ev
  session_line : Bytes → Line Text Ev
  usage_line : Line Text Ev
  title_line : Bytes → Line Text Ev
  typed_line : Bytes → Line Text Ev
  initial_line : Bytes → Line Text Ev
  error_line : Error → Line Text Ev

-- The struct `service` and the variables of `Interactive`. `logs` is the session memory, and
-- `stopped` is set once the loop is left.
pub record Service (M Text Ev : Type 0) : Type 0 where
  pub client : Client M Text Ev
  pub logs : Map (List (Event Text Ev))
  pub them : Bytes
  pub prompt : Bytes
  pub shown : List (Line Text Ev)
  pub stopped : Bool

-- The standard library's functions on strings.
pub record Strings : Type 0 where
  pub fields : Bytes → List Bytes
  pub trim_space : Bytes → Bytes
  pub cut : Bytes → Bytes × Bytes

-- What a line's operation reads from outside.
pub record Outside : Type 0 where
  pub now : ℕ
  pub later : ℕ
  pub offer_sample : Sample
  pub other_sample : Sample
  pub post_failed : Bool
  pub found : Option Addr

-- `setPrompt`
unfoldable pub prompt_of : Bytes → Bytes → Bytes
prompt_of me [] = b'[' ∷ (me ++ (b']' ∷ b'>' ∷ 32 ∷ []))
prompt_of me (t ∷ them) =
    b'[' ∷ (me ++ (32 ∷ b'-' ∷ b'>' ∷ 32 ∷ ((t ∷ them) ++ (b']' ∷ b'>' ∷ 32 ∷ []))))

-- The commands.
abbrev pub log_command : Bytes
log_command = b'/' ∷ b'l' ∷ b'o' ∷ b'g' ∷ []

abbrev pub chat_command : Bytes
chat_command = b'/' ∷ b'c' ∷ b'h' ∷ b'a' ∷ b't' ∷ []

abbrev pub close_command : Bytes
close_command = b'/' ∷ b'c' ∷ b'l' ∷ b'o' ∷ b's' ∷ b'e' ∷ []

abbrev pub quit_command : Bytes
quit_command = b'/' ∷ b'q' ∷ b'u' ∷ b'i' ∷ b't' ∷ []

abbrev pub salty_command : Bytes
salty_command = b'/' ∷ b's' ∷ b'a' ∷ b'l' ∷ b't' ∷ b'y' ∷ []

-- `strings.TrimPrefix`
abbrev pub trim_prefix : Bytes → Bytes → Bytes
trim_prefix src p = if has_prefix src p then drop (length p) src else src

abbrev or_if_empty : Bytes → Bytes → Bytes
or_if_empty [] other = other
or_if_empty (x ∷ xs) other = x ∷ xs

-- The log that "/log" asks for.
abbrev log_name : Bytes → Bytes → Bytes
log_name them input =
    let named =
      if has_prefix input (log_command ++ (32 ∷ []))
      then trim_prefix input (log_command ++ (32 ∷ []))
      else [] in
    or_if_empty named (elim them [ [] ↦ system_stream | t ∷ ts ↦ user_stream (t ∷ ts) ])

-- The peer to close: the one that is named, or the current one.
abbrev pub target_of : List Bytes → Bytes → Bytes
target_of [] them = them
target_of (command ∷ []) them = them
target_of (command ∷ target ∷ more) them = target

-- Whether a handler shows an event.
unfoldable pub is_shown : {Text Ev : Type 0} → Event Text Ev → Bool
is_shown (event_received uid them raw e) = false
is_shown (close_sent uid them text) = false
is_shown e = true

-- The prompt once an event was handled: that of no peer if the session with the current one closed.
unfoldable pub prompt_after : {Text Ev : Type 0} → Bytes → Bytes → Event Text Ev → Bytes → Bytes
prompt_after me them (session_closed uid closed) prompt =
    if bytes_eq them closed then prompt_of me [] else prompt
prompt_after me them e prompt = prompt

module _ {M Text Ev : Type 0} (nick : Text → Bytes) (me : Bytes) where
  -- The handlers of an event: that of the session memory and that of `Interactive`.
  unfoldable pub react : Event Text Ev → Service M Text Ev → Service M Text Ev
  react e svc = record svc {
    logs = update nick e svc.logs;
    prompt = prompt_after me svc.them e svc.prompt;
    shown = svc.shown ++ (if is_shown e then event_line e ∷ [] else []);
  }

  unfoldable pub react_all : List (Event Text Ev) → Service M Text Ev → Service M Text Ev
  react_all [] svc = svc
  react_all (e ∷ es) svc = react_all es (react e svc)

  -- A call of the client. The events that it dispatches are handled before it returns.
  unfoldable pub on_client :
      {A : Type 0} → Action (Client M Text Ev) A → Action (Service M Text Ev) A
  on_client m svc =
      let (r, client) = m svc.client in
      (
        r,
        react_all (drop (length svc.client.events) client.events) (record svc { client = client }),
      )

module _ {M Text Ev : Type 0} (c : Crypto) (l : Libraries) (w : SessionManager M)
    (y : Salty Text Ev) (pager_box : ℕ → ℕ → ℤ → ℤ → Page) (str : Strings) (nick : Text → Bytes)
    (me : Bytes) where
  unfoldable pub show : List (Line Text Ev) → Action (Service M Text Ev) (Unit {0})
  show lines = modify λ svc. record svc { shown = svc.shown ++ lines }

  unfoldable pub set_prompt : Bytes → Action (Service M Text Ev) (Unit {0})
  set_prompt them = modify λ svc. record svc { prompt = prompt_of me them }

  -- `ReadLog(ctx, name, -1, -20)`
  unfoldable pub recent : Bytes → Action (Service M Text Ev) (List (Event Text Ev))
  recent name = do svc ← get; lift (read_log pager_box svc.logs name (negsuc 0) (negsuc 19))

  unfoldable pub list_sessions : Action (Service M Text Ev) (Unit {0})
  list_sessions = do
    svc ← get
    show (usage_line ∷ map (λ p. session_line p.0) (w.sessions svc.client.sm))

  -- `doChat` with a name: an error of `Chat` is not returned.
  unfoldable pub chat_to : Outside → Bytes → Action (Service M Text Ev) (Unit {0})
  chat_to o them = do
    lift (fail_if (bytes_eq me them) Error.self_chat)
    modify (λ svc. record svc { them = them })
    log ← recent (user_stream them)
    show (map (λ e. event_line e) log)
    set_prompt them
    r ← attempt (on_client nick me (chat c l w o.offer_sample o.other_sample o.post_failed them))
    lift (ok tt)

  -- What the fields of a line that begins with "/chat" ask for.
  unfoldable pub chat_fields : Outside → List Bytes → Action (Service M Text Ev) (Unit {0})
  chat_fields o [] = list_sessions
  chat_fields o (command ∷ []) = list_sessions
  chat_fields o (command ∷ them ∷ more) = chat_to o them

  unfoldable pub do_chat : Outside → Bytes → Action (Service M Text Ev) (Unit {0})
  do_chat o input = chat_fields o (str.fields input)

  unfoldable pub close_target : Outside → Bytes → Bytes → Action (Service M Text Ev) (Unit {0})
  close_target o input [] = lift (ok tt)
  close_target o input (t ∷ target) = do
    modify (λ svc. record svc { them = [] })
    set_prompt []
    show (typed_line input ∷ [])
    on_client nick me (close_chat c l w o.post_failed (t ∷ target))

  unfoldable pub do_close : Outside → Bytes → Action (Service M Text Ev) (Unit {0})
  do_close o input = do svc ← get; close_target o input (target_of (str.fields input) svc.them)

  -- `doDefault`: a text for the current peer, if there is one.
  unfoldable pub do_default : Outside → Bytes → Bytes → Action (Service M Text Ev) (Unit {0})
  do_default o input [] = show (usage_line ∷ [])
  do_default o input (t ∷ them) =
      on_client nick me
        (send_text c l w y o.now o.later o.offer_sample o.post_failed (t ∷ them) input [])

  unfoldable pub do_log : Bytes → Action (Service M Text Ev) (Unit {0})
  do_log input = do
    svc ← get
    let name : Bytes = log_name svc.them input
    log ← recent name
    show (title_line name ∷ map (λ e. event_line e) log)

  unfoldable pub do_salty : Outside → Bytes → Action (Service M Text Ev) (Unit {0})
  do_salty o input = do
    let parts : Bytes × Bytes = str.cut (trim_prefix input (salty_command ++ (32 ∷ [])))
    on_client nick me (send_salty c l w y o.now o.found o.post_failed parts.0 parts.1 [])

  -- `if err != nil { log(err) }`
  unfoldable pub logged :
      Action (Service M Text Ev) (Unit {0}) → Action (Service M Text Ev) (Unit {0})
  logged m = do
    r ← attempt m
    elim r [ ok done ↦ lift (ok tt) | err e ↦ show (error_line e ∷ []) | panic ↦ lift panic ]

  unfoldable pub run_command : Outside → Bytes → Action (Service M Text Ev) (Unit {0})
  run_command o input =
      if has_prefix input log_command
      then do_log input
      else if has_prefix input chat_command
      then logged (do_chat o input)
      else if has_prefix input close_command
      then logged (do_close o input)
      else if has_prefix input quit_command
      then modify (λ svc. record svc { stopped = true })
      else if has_prefix input salty_command
      then logged (do_salty o input)
      else get >>= λ svc. logged (do_default o input svc.them)

  -- One turn of the loop: an empty line does nothing.
  unfoldable pub run_line : Outside → Bytes → Action (Service M Text Ev) (Unit {0})
  run_line o typed = elim (str.trim_space typed) [
    | [] ↦ lift (ok tt)
    | x ∷ xs ↦ run_command o (x ∷ xs)
  ]

  -- The beginning of `Interactive`. A peer that is named is forgotten, and the first line that is
  -- handled names it again.
  unfoldable pub begin : Outside → Bytes → Action (Service M Text Ev) (Unit {0})
  begin o [] = modify λ svc. record svc { them = []; prompt = prompt_of me [] }
  begin o (t ∷ them) = do
    set_prompt (t ∷ them)
    modify (λ svc. record svc { them = [] })
    let initial : Bytes = chat_command ++ (32 ∷ t ∷ them)
    show (initial_line initial ∷ [])
    run_line o initial
