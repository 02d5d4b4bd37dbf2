-- ===== src/Tests/Running.antt =====
-- Runs of the client and of the user interfaces.
use go_ratchet.Prelude.{◌≡◌, refl, Option, some, none, false, [], ◌∷◌, Bytes, bytes_eq, replicate}
use go_ratchet.Prelude.{if◌then◌else◌, true, Bool}
use go_ratchet.Client.{Input}
use go_ratchet.Client.Inputs.{input}
use go_ratchet.Disk.{pos, negsuc}
use go_ratchet.Memory.{user_stream, system_stream, read_log, read_stream}
use go_ratchet.Memory.Conversations.{kept, Pages, is_with, is_for_system}
use go_ratchet.Client.{send_msg, post}
use go_ratchet.Client.Operations.{chat_with, send_pending, start_chat}
use go_ratchet.Interactive.{
  react_all, react, logged, recent, show, set_prompt, chat_to, chat_fields, do_chat, run_command,
  Service, on_client, run_line, begin, close_command,
}
use go_ratchet.Interactive.Turns.{Reaches, turns, types, gets}
use go_ratchet.Interactive.Turns
use go_ratchet.Interactive.Prompt.{PromptFits}
use go_ratchet.Interactive.Prompt.Reached.{with_peer, reached-PromptFits}
use go_ratchet.Interactive.Logs.{reached-logs}
use go_ratchet.Ui.{Model, Widgets, initial_model, ui_enter}
use go_ratchet.Ui.Meant.{same_effect}
use go_ratchet.Tests.Clients.{one_session, client, answering, samples}
use go_ratchet.Tests.Memories.{from_last, from_last-ReadsBack, nick}
use go_ratchet.Tests.Commands.{strings, offline, service}
use go_ratchet.Prelude.Maps.{Map, lookup}
use go_ratchet.Disk.{DiskSession}
use go_ratchet.Disk.Manager.{
  File, DiskSessionManager, is_weak, load_manager, close_manager, new_session_manager,
}
use go_ratchet.Disk.Manager.Stored.{no_faults}
use go_ratchet.Disk.Manager.Strict.{AreStrict}
use go_ratchet.Disk.Manager.Sound.{IsSound}
use go_ratchet.Client.Interface.{SessionManager, disk_manager}
use go_ratchet.Client.{Client}
use go_ratchet.Client.Operations.{chat}
use go_ratchet.Client.Running.{begins, goes_on, chats, on_disk, disk-Run-IsSound}
use go_ratchet.Tests.Toy.{toy}
use go_ratchet.Tests.Ratchets.{sample}
use go_ratchet.Tests.Libraries.{toy_libraries}
use go_ratchet.Tests.Clients.{salty, address}

-- An input that is no message of the program's.
abbrev plain : Input
plain = record { position = pos 3; payload = 104 ∷ 105 ∷ [] }

abbrev files : Map File
files = (75 ∷ [], record { mode = 384; content = 1 ∷ [] }) ∷ []

strict_if :
    (here : Bool) (g f : File)
    → is_weak g.mode ≡ false
    → (if here then some g else none) ≡ some f
    → is_weak f.mode ≡ false
strict_if true g f h e = let same : g ≡ f = cc in rw (← same) h
strict_if false g f h e = cc

files-AreStrict : AreStrict files
unfolding lookup is_weak
files-AreStrict name f e =
    strict_if (bytes_eq name (75 ∷ [])) (record { mode = 384; content = 1 ∷ [] }) f refl e

abbrev loaded : DiskSessionManager
loaded =
    (load_manager toy_libraries no_faults
      (new_session_manager (112 ∷ []) (77 ∷ []) (replicate 64 5) files)).1

abbrev start : Client DiskSessionManager Bytes Bytes
start = record { sm = loaded; addr = address; posted = []; events = [] }

abbrev manager : SessionManager DiskSessionManager
manager = disk_manager toy_libraries no_faults (replicate 16 1) (λ name. some address)

abbrev after : Client DiskSessionManager Bytes Bytes
after = (chat toy toy_libraries manager sample sample false (66 ∷ []) start).1

disk-Run-IsSound_example :
    IsSound (77 ∷ []) (replicate 64 5) (112 ∷ []) (close_manager toy_libraries no_faults after.sm).1
disk-Run-IsSound_example =
    disk-Run-IsSound toy toy_libraries salty (77 ∷ []) (replicate 64 5) (112 ∷ []) no_faults
      no_faults files start after files-AreStrict refl
      (goes_on begins (
        chats start manager sample sample false (66 ∷ [])
          (on_disk no_faults (replicate 16 1) (λ name. some address))))

-- The interactive mode begins with a peer. Then a text is typed, and an input arrives.
abbrev begun : Service (Option DiskSession) Bytes Bytes
begun =
    (begin toy toy_libraries one_session salty from_last strings nick (65 ∷ []) offline (66 ∷ [])
      service).1

abbrev typed : Service (Option DiskSession) Bytes Bytes
typed =
    (run_line toy toy_libraries one_session salty from_last strings nick (65 ∷ []) offline
      (104 ∷ []) begun).1

abbrev arrived : Service (Option DiskSession) Bytes Bytes
arrived =
    (on_client nick (65 ∷ []) (input toy toy_libraries one_session salty plain samples sample)
      typed).1

goes : begun.stopped ≡ false
unfolding begin run_line run_command do_chat chat_fields chat_to set_prompt show recent logged
    on_client react react_all read_log read_stream lookup chat chat_with send_pending start_chat
    send_msg post bytes_eq
goes = refl

there : Reaches toy toy_libraries salty from_last strings nick (65 ∷ []) service (66 ∷ []) arrived
there =
    turns
      (turns (Turns.begins one_session offline) (types begun one_session offline (104 ∷ []) goes))
      (gets typed one_session plain samples sample)

reached-PromptFits_example : PromptFits (65 ∷ []) arrived
unfolding bytes_eq
reached-PromptFits_example =
    reached-PromptFits toy toy_libraries salty from_last from_last-ReadsBack strings nick (65 ∷ [])
      (66 ∷ []) (with_peer 66 [] refl refl refl) there

reached-logs_example :
    Pages
      (read_log from_last arrived.logs (user_stream (66 ∷ [])) (negsuc 0) (negsuc 19))
      (kept (is_with nick (66 ∷ [])) arrived.client.events)
      (λ n. from_last 1 n (negsuc 0) (negsuc 19))
    × Pages
        (read_log from_last arrived.logs system_stream (negsuc 0) (negsuc 19))
        (kept is_for_system arrived.client.events)
        (λ n. from_last 1 n (negsuc 0) (negsuc 19))
reached-logs_example =
    reached-logs toy toy_libraries salty from_last strings nick (65 ∷ []) (66 ∷ []) (66 ∷ [])
      (negsuc 0) (negsuc 19) service refl refl there

abbrev pub widgets : Widgets
widgets = record {
  edit = λ msg text. text;
  scroll = λ msg view. view;
  header_height = 3;
  footer_height = 1;
  input_height = 1;
}

abbrev model : Model (Option DiskSession) Bytes Bytes
model = initial_model (65 ∷ []) (client (some answering)) (66 ∷ [])

abbrev talking : Service (Option DiskSession) Bytes Bytes
talking = record service { them = 66 ∷ [] }

same_effect_example :
    let (_, svc') =
      run_line toy toy_libraries one_session salty from_last strings nick
        (65 ∷ [])
        offline
        close_command
        talking in
    let (_, m') =
      ui_enter toy toy_libraries one_session salty strings widgets
        (65 ∷ [])
        offline
        close_command
        model in
    (svc'.client ≡ m'.client) × (svc'.them ≡ m'.them)
unfolding bytes_eq initial_model
same_effect_example =
    same_effect toy toy_libraries one_session salty from_last from_last-ReadsBack strings nick
      (65 ∷ []) widgets offline b'/' (b'c' ∷ b'l' ∷ b'o' ∷ b's' ∷ b'e' ∷ []) talking model refl refl
      refl refl refl tt
