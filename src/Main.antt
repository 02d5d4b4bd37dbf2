-- ===== src/Main.antt =====
-- main.go: the choice of a command, and where the text of a message comes from. docopt's parser,
-- the driver of the client and the program loop of the terminal interface are outside: what is
-- typed and what arrives are lists.
pub mod Refusing
use go_ratchet.Prelude.{
  ℕ, ◌==◌, if◌then◌else◌, Bool, false, Option, none, some, List, [], ◌∷◌, Error, ok, Bytes,
}
use go_ratchet.Prelude.Maps.{lookup}
use go_ratchet.Prelude.Methods.{Action, ◌>>=◌, ◌>>◌, lift, get}
use go_ratchet.Prelude.Errors.{fail_if}
use go_ratchet.Crypto.{Crypto, Sample}
use go_ratchet.Xochimilco.Session.{OfferSamples}
use go_ratchet.Disk.{Addr, ℤ, Libraries}
use go_ratchet.Disk.Manager.{DiskSessionManager, found_or_err}
use go_ratchet.Client.Interface.{SessionManager}
use go_ratchet.Client.{Client, Input, Salty, present_or}
use go_ratchet.Client.Inputs.{input}
use go_ratchet.Memory.{Page}
use go_ratchet.Interactive.{Service, Strings, Outside, on_client, run_line, begin}
use go_ratchet.Ui.{in_model, update_model, Model, initial_model, UiMsg, Widgets}
use go_ratchet.Cli.{
  with_client, cli_close, cli_recv, cli_send, cli_offer, Machine, Conditions, manager,
}

-- The struct `opts`, without what the program does not read.
pub record Opts : Type 0 where
  pub is_offer : Bool
  pub is_send : Bool
  pub is_recv : Bool
  pub is_close : Bool
  pub is_chat : Bool
  pub is_ui : Bool
  pub them : Bytes
  pub key : Bytes
  pub state : Bytes
  pub msg : Bytes
  pub msg_file : Bytes
  pub msg_stdin : Bool

-- What reaches a user interface: something of the user's, or an input of the client.
pub data Happening (U : Type 0) : Type 0 where
  of_user : Outside → U → Happening U
  of_stream : Input → OfferSamples → Sample → Happening U

-- `ReadString('\n')`: the text up to the first newline and with it. Without a newline it is an
-- error.
unfoldable pub read_string : Bytes → Option Bytes
read_string [] = none
read_string (x ∷ xs) =
    let rest = read_string xs in
    if x == 10 then some (x ∷ []) else elim rest [ none ↦ none | some line ↦ some (x ∷ line) ]

-- `readInput`. `stdin` is none where reading standard input fails.
unfoldable pub read_input : Strings → Bool → Option Bytes → Opts → Action Machine Bytes
read_input str open_failed stdin o =
    if o.msg_stdin
    then (do
      text ← lift (present_or Error.input_failed stdin)
      line ← lift (present_or Error.input_failed (read_string text))
      lift (ok (str.trim_space line)))
    else elim o.msg_file [
      | [] ↦ lift (ok (str.trim_space o.msg))
      | x ∷ xs ↦ do
        m ← get
        lift (fail_if open_failed Error.file_failed)
        file ← lift (found_or_err (lookup (x ∷ xs) m.files))
        line ← lift (present_or Error.input_failed (read_string file.content))
        lift (ok (str.trim_space line))
    ]

module _ {Text Ev : Type 0} (c : Crypto) (l : Libraries) (y : Salty Text Ev) (q : Conditions)
    (pager_box : ℕ → ℕ → ℤ → ℤ → Page) (str : Strings) (nick : Text → Bytes) (widgets : Widgets)
    (addr_string : Addr → Bytes) where
  abbrev w : SessionManager DiskSessionManager
  w = manager {Text = Text} {Ev = Ev} c l y q

  -- A line that is typed after the loop was left is not read.
  unfoldable pub chat_happening :
      Bytes → Happening Bytes → Action (Service DiskSessionManager Text Ev) (Unit {0})
  chat_happening me (of_user o line) svc =
      if svc.stopped then (ok tt, svc) else run_line c l w y pager_box str nick me o line svc
  chat_happening me (of_stream i o t) svc = on_client nick me (input c l w y i o t) svc

  unfoldable pub chat_happenings :
      Bytes → List (Happening Bytes) → Action (Service DiskSessionManager Text Ev) (Unit {0})
  chat_happenings me [] = lift (ok tt)
  chat_happenings me (h ∷ hs) = chat_happening me h >> chat_happenings me hs

  -- `interactive.New(c).Run`; an error of the driver is left out.
  unfoldable pub run_interactive :
      Outside
      → Bytes
      → List (Happening Bytes)
      → Bytes
      → Action (Client DiskSessionManager Text Ev) (Unit {0})
  run_interactive o them hs me client =
      let start : Service DiskSessionManager Text Ev = record {
        client = client;
        logs = [];
        them = [];
        prompt = [];
        shown = [];
        stopped = false;
      } in
      let (r, svc) = (begin c l w y pager_box str nick me o them >> chat_happenings me hs) start in
      (r, svc.client)

  -- The loop of the terminal interface's library, until `Update` ends it.
  unfoldable pub ui_happenings :
      Bytes → List (Happening UiMsg) → Action (Model DiskSessionManager Text Ev) (Unit {0})
  ui_happenings me [] = lift (ok tt)
  ui_happenings me (of_user o msg ∷ hs) = do
    ends ← update_model c l w y str widgets me o msg
    if ends then lift (ok tt) else ui_happenings me hs
  ui_happenings me (of_stream i o t ∷ hs) = in_model (input c l w y i o t) >> ui_happenings me hs

  unfoldable pub run_ui :
      Bytes → List (Happening UiMsg) → Action (Client DiskSessionManager Text Ev) (Unit {0})
  run_ui them hs client =
      let me = addr_string client.addr in
      let (r, m) = ui_happenings me hs (initial_model me client them) in (r, m.client)

  -- `run`: the first command that was chosen. Without one the usage is shown.
  unfoldable pub run :
      Bool
      → Option Bytes
      → Outside
      → List (Happening Bytes)
      → List (Happening UiMsg)
      → Opts
      → Action Machine (Unit {0})
  run open_failed stdin o lines msgs opts =
      if opts.is_offer
      then cli_offer {Text = Text} {Ev = Ev} c l y q opts.key opts.state opts.them
      else if opts.is_send
      then read_input str open_failed stdin opts >>= cli_send c l y q opts.key opts.state opts.them
      else if opts.is_recv
      then read_input str open_failed stdin opts >>= cli_recv c l y q opts.key opts.state
      else if opts.is_close
      then cli_close {Text = Text} {Ev = Ev} c l y q opts.key opts.state opts.them
      else if opts.is_chat
      then with_client {Text = Text} {Ev = Ev} c l y q opts.key opts.state (λ e. [])
          (run_interactive o opts.them lines)
      else if opts.is_ui
      then with_client {Text = Text} {Ev = Ev} c l y q opts.key opts.state (λ e. [])
          (λ name. run_ui opts.them msgs)
      else lift (ok tt)
