-- ===== src/Cli.antt =====
-- cli/basic.go and main.go: the commands. Each makes a manager and a client, and calls the client
-- once. Their state is the files, the texts that were posted and what was printed.
pub mod Sending
pub mod Closing
pub mod Conversation
use go_ratchet.Prelude.{
  ℕ, ◌==◌, if◌then◌else◌, Bool, true, false, Option, none, some, List, [], ◌∷◌, ◌++◌, Error, Result,
  ok, err, panic, Bytes,
}
use go_ratchet.Prelude.Maps.{Map, lookup}
use go_ratchet.Prelude.Methods.{Action, ◌>>=◌, ◌>>◌, and_then, lift, get, modify}
use go_ratchet.Prelude.Errors.{fail_if}
use go_ratchet.Crypto.{Crypto}
use go_ratchet.Xochimilco.Session.{OfferSamples}
use go_ratchet.Disk.{pos, Libraries, Addr}
use go_ratchet.Disk.Manager.{
  File, DiskSessionManager, Faults, is_weak, found_or_err, new_session_manager, load_manager,
  close_manager,
}
use go_ratchet.Client.Interface.{SessionManager, disk_manager}
use go_ratchet.Client.{
  Client, Event, offer_sent, offer_received, session_started, session_closed, message_received,
  message_sent, Salty, present_or,
}
use go_ratchet.Client.Operations.{chat, send_text, close_chat}
use go_ratchet.Client.Inputs.{input}
use go_ratchet.Interactive.{Outside}

-- The files, what was posted, and what was printed, one entry for each line.
pub record Machine : Type 0 where
  pub files : Map File
  pub posted : List (Bytes × Bytes)
  pub printed : List Bytes

-- A salty identity: the address as a text, and the private key.
pub record Identity : Type 0 where
  pub name : Bytes
  pub key : Bytes

-- What the packages saltyim and ulid give, and how the operating system treats each part of a
-- command.
pub record Conditions : Type 0 where
  pub get_identity : Bytes → Option Identity
  pub find_addr : Bytes → Option Addr
  pub fresh : Bytes
  pub reading : Faults
  pub loading : Faults
  pub calling : Faults
  pub closing : Faults
  pub outside : Outside
  pub samples : OfferSamples

unfoldable pub read_salty_identity : Conditions → Bytes → Action Machine Identity
read_salty_identity q keyfile = do
  m ← get
  lift (fail_if q.reading.stat_failed Error.file_failed)
  file ← lift (found_or_err (lookup keyfile m.files))
  lift (fail_if (is_weak file.mode) Error.weak_permissions)
  lift (fail_if q.reading.open_failed Error.file_failed)
  lift (fail_if q.reading.read_failed Error.file_failed)
  lift (present_or Error.identity_failed (q.get_identity file.content))

-- What the handlers of a command print for the events.
unfoldable pub print_all :
    {Text Ev : Type 0} → (Event Text Ev → List Bytes) → List (Event Text Ev) → List Bytes
print_all shown [] = []
print_all shown (e ∷ es) = shown e ++ print_all shown es

-- "Session Started with " and "Session Closed with ", each with the space that Println adds.
abbrev started_with : Bytes
started_with =
    b'S' ∷ b'e' ∷ b's' ∷ b's' ∷ b'i' ∷ b'o' ∷ b'n' ∷ 32 ∷ b'S' ∷ b't' ∷ b'a' ∷ b'r' ∷ b't' ∷ b'e'
    ∷ b'd' ∷ 32 ∷ b'w' ∷ b'i' ∷ b't' ∷ b'h' ∷ 32 ∷ 32 ∷ []

abbrev closed_with : Bytes
closed_with =
    b'S' ∷ b'e' ∷ b's' ∷ b's' ∷ b'i' ∷ b'o' ∷ b'n' ∷ 32 ∷ b'C' ∷ b'l' ∷ b'o' ∷ b's' ∷ b'e' ∷ b'd'
    ∷ 32 ∷ b'w' ∷ b'i' ∷ b't' ∷ b'h' ∷ 32 ∷ 32 ∷ []

-- The handlers that `Offer` registers, those of `Send` and of `Close`, and those of `Recv`.
unfoldable pub shown_offer : {Text Ev : Type 0} → Event Text Ev → List Bytes
shown_offer (offer_sent uid them raw) = raw ∷ []
shown_offer e = []

unfoldable pub shown_sent : {Text Ev : Type 0} → Event Text Ev → List Bytes
shown_sent (message_sent uid them raw msg sealed) = sealed ∷ []
shown_sent e = []

unfoldable pub shown_received : {Text Ev : Type 0} → (Text → Bytes) → Event Text Ev → List Bytes
shown_received literal (message_received uid them raw msg) = literal msg ∷ []
shown_received literal (offer_received uid them answer) = answer ∷ []
shown_received literal (session_started uid them) = (started_with ++ them) ∷ []
shown_received literal (session_closed uid them) = (closed_with ++ them) ∷ []
shown_received literal e = []

module _ {Text Ev : Type 0} (c : Crypto) (l : Libraries) (y : Salty Text Ev) (q : Conditions) where
  -- `client.New` with the address that is found, the handlers, and the call of the client.
  unfoldable pub call_client :
      Option Addr
      → (Event Text Ev → List Bytes)
      → Action (Client DiskSessionManager Text Ev) (Unit {0})
      → DiskSessionManager
      → Machine
      → Result (Unit {0}) × DiskSessionManager × Machine
  call_client none shown call sm m = (err Error.lookup_failed, sm, m)
  call_client (some addr) shown call sm m =
      let (r, me) = call (record { sm = sm; addr = addr; posted = m.posted; events = [] }) in
      (r, me.sm, record m { posted = me.posted; printed = m.printed ++ print_all shown me.events })

  -- `defer close()`, whose error is not looked at. After a run-time panic nothing more is done.
  unfoldable pub deferred :
      Result (Unit {0}) → DiskSessionManager → Machine → Result (Unit {0}) × Machine
  deferred panic sm m = (panic, record m { files = sm.files })
  deferred (ok done) sm m =
      let (_, closed) = close_manager l q.closing sm in (ok tt, record m { files = closed.files })
  deferred (err e) sm m =
      let (_, closed) = close_manager l q.closing sm in (err e, record m { files = closed.files })

  -- What follows `session.NewSessionManager`.
  unfoldable pub with_loaded :
      Bytes
      → (Event Text Ev → List Bytes)
      → Action (Client DiskSessionManager Text Ev) (Unit {0})
      → Result (Unit {0}) × DiskSessionManager
      → Action Machine (Unit {0})
  with_loaded name shown call (ok done, sm) m =
      let (r, sm', m') = call_client (q.find_addr name) shown call sm m in deferred r sm' m'
  with_loaded name shown call (err e, sm) m = (err e, m)
  with_loaded name shown call (panic, sm) m = (panic, m)

  -- What the commands have in common; the call may use the own name.
  unfoldable pub with_client :
      Bytes
      → Bytes
      → (Event Text Ev → List Bytes)
      → (Bytes → Action (Client DiskSessionManager Text Ev) (Unit {0}))
      → Action Machine (Unit {0})
  with_client keyfile state shown call = do
    who ← read_salty_identity q keyfile
    m ← get
    with_loaded who.name shown (call who.name)
        (load_manager l q.loading (new_session_manager state who.name who.key m.files))

  -- The manager during the call.
  abbrev pub manager : SessionManager DiskSessionManager
  manager = disk_manager l q.calling q.fresh q.find_addr

  unfoldable pub cli_offer : Bytes → Bytes → Bytes → Action Machine (Unit {0})
  cli_offer keyfile state them = with_client keyfile state shown_offer (λ name.
      chat c l manager q.outside.offer_sample q.outside.other_sample q.outside.post_failed them)

  unfoldable pub cli_send : Bytes → Bytes → Bytes → Bytes → Action Machine (Unit {0})
  cli_send keyfile state them text = with_client keyfile state shown_sent (λ name.
      send_text c l manager y q.outside.now q.outside.later q.outside.offer_sample
        q.outside.post_failed them text [])

  -- The text is taken for the first entry of the stream.
  unfoldable pub cli_recv : Bytes → Bytes → Bytes → Action Machine (Unit {0})
  cli_recv keyfile state text = with_client keyfile state (shown_received y.literal) (λ name.
      input c l manager y (record { position = pos 1; payload = text }) q.samples
        q.outside.other_sample)

  unfoldable pub cli_close : Bytes → Bytes → Bytes → Action Machine (Unit {0})
  cli_close keyfile state them =
      with_client keyfile state shown_sent
        (λ name. close_chat c l manager q.outside.post_failed them)
