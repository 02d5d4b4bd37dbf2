-- ===== src/Tests/Machines.antt =====
-- The commands, on two machines whose files have a session with each other.
use go_ratchet.Prelude.{
  Error, err, true, ◌≡◌, refl, some, none, false, [], ◌∷◌, Bytes, bytes_eq, replicate,
}
use go_ratchet.DoubleRatchet.Ratchet.Conversing.{Conversing, CanSay, goes_on}
use go_ratchet.DoubleRatchet.Persist.{
  load_ratchet, load_dh_ratchet, unmarshal_dh_ratchet, load_key_buffer, unmarshal_ratchet,
  zero_ratchet,
}
use go_ratchet.DoubleRatchet.Persist.Reloaded.{reloaded-Conversing}
use go_ratchet.Tests.Saving.{toy_gob, toy_gob_laws}
use go_ratchet.Tests.Talks.{listener-Conversing}
use mathlib.Core.Path.{subst}
use go_ratchet.Prelude.{ap, sym, arith}
use go_ratchet.Prelude.Maps.{Map, lookup}
use go_ratchet.DoubleRatchet.Ratchet.{DoubleRatchet}
use go_ratchet.DoubleRatchet.Persist.{
  marshal_ratchet, marshal_dh_ratchet, marshal_element, marshal_elements, marshal_key_buffer,
  chains,
}
use go_ratchet.Xochimilco.Base64.{encode, encode_digit}
use go_ratchet.Xochimilco.Session.Persist.{marshal_ratchet_of, marshal_session}
use go_ratchet.Disk.{pos, DiskSession, zero_session}
use go_ratchet.Disk.Marshal.{marshal_disk_session}
use go_ratchet.Disk.Manager.{
  File, DiskSessionManager, is_weak, file_of, index_name, session_hash, new_session_manager,
  load_manager, load_content,
}
use go_ratchet.Disk.Manager.Stored.{no_faults}
use go_ratchet.Interactive.{Outside}
use go_ratchet.Cli.{Machine, Conditions, read_salty_identity, cli_close}
use go_ratchet.Cli.Closing.{close_silent}
use go_ratchet.Cli.Conversation.{CanCall}
use go_ratchet.Tests.Toy.{toy_laws, toy}
use go_ratchet.Tests.Ratchets.{sample}
use go_ratchet.Tests.Talks.{listener, speaker, value}
use go_ratchet.Tests.Saving.{join}
use go_ratchet.Tests.Libraries.{of_index, toy_libraries}
use go_ratchet.Main.{Opts, run, read_input}
use go_ratchet.Main.Refusing.{run_refused}
use go_ratchet.Tests.Memories.{from_last, nick}
use go_ratchet.Tests.Commands.{strings, offline}
use go_ratchet.Tests.Running.{widgets}
use go_ratchet.Tests.Clients.{salty, address, samples}

-- A session with a peer: the own UUID, the peer's UUID and the ratchet.
abbrev pub held : Bytes → Bytes → DoubleRatchet → DiskSession
held own other dr = record {
  name = 66 ∷ [];
  peer_key = some (replicate 32 9);
  endpoint = 104 ∷ [];
  pending_ack = [];
  session = some (record zero_session {
    local_uuid = own;
    remote_uuid = other;
    me = 77 ∷ [];
    double_ratchet = some dr;
  });
}

-- The manager before it loads, without files.
abbrev pub bare : DiskSessionManager
bare = new_session_manager (112 ∷ []) (77 ∷ []) (replicate 64 5) []

-- The files: the key, the session, and the index that names it.
abbrev pub files_with : Bytes → Bytes → DoubleRatchet → Map File
files_with own other dr =
    (75 ∷ [], record { mode = 384; content = 1 ∷ [] })
    ∷ (
      file_of toy_libraries bare own,
      record {
        mode = 384;
        content = value (marshal_disk_session toy_libraries (held own other dr));
      },
    )
    ∷ (
      index_name toy_libraries bare,
      record {
        mode = 384;
        content = join (of_index (record { position = pos 7; sessions = (66 ∷ [], own) ∷ [] }));
      },
    )
    ∷ []

abbrev pub machine : Bytes → Bytes → DoubleRatchet → Machine
machine own other dr = record { files = files_with own other dr; posted = []; printed = [] }

abbrev pub first : Machine
first = machine (replicate 16 1) (replicate 16 2) speaker

abbrev pub second : Machine
second = machine (replicate 16 2) (replicate 16 1) listener

abbrev pub outside : Outside
outside = record {
  now = 7;
  later = 8;
  offer_sample = sample;
  other_sample = sample;
  post_failed = false;
  found = none;
}

abbrev pub conditions : Conditions
conditions = record {
  get_identity = λ b. some (record { name = 77 ∷ []; key = replicate 64 5 });
  find_addr = λ name. some address;
  fresh = replicate 16 4;
  reading = no_faults;
  loading = no_faults;
  calling = no_faults;
  closing = no_faults;
  outside = outside;
  samples = samples;
}

abbrev pub loaded : Machine → DiskSessionManager
loaded m =
    (load_manager toy_libraries no_faults
      (new_session_manager (112 ∷ []) (77 ∷ []) (replicate 64 5) m.files)).1

unfoldable pub first-CanCall : CanCall toy_libraries conditions (75 ∷ []) (112 ∷ []) first
unfolding read_salty_identity lookup bytes_eq is_weak load_manager load_content new_session_manager
    session_hash encode encode_digit marshal_disk_session marshal_session marshal_ratchet_of
    marshal_ratchet marshal_dh_ratchet marshal_element marshal_elements marshal_key_buffer chains
first-CanCall = record {
  who = record { name = 77 ∷ []; key = replicate 64 5 };
  sm = loaded first;
  addr = address;
  reads = refl;
  loads = refl;
  found = refl;
}

unfoldable pub second-CanCall : CanCall toy_libraries conditions (75 ∷ []) (112 ∷ []) second
unfolding read_salty_identity lookup bytes_eq is_weak load_manager load_content new_session_manager
    session_hash encode encode_digit marshal_disk_session marshal_session marshal_ratchet_of
    marshal_ratchet marshal_dh_ratchet marshal_element marshal_elements marshal_key_buffer chains
second-CanCall = record {
  who = record { name = 77 ∷ []; key = replicate 64 5 };
  sm = loaded second;
  addr = address;
  reads = refl;
  loads = refl;
  found = refl;
}

close_silent_example :
    (cli_close toy toy_libraries salty conditions (75 ∷ []) (112 ∷ []) (66 ∷ []) first).1.printed
    ≡ []
close_silent_example =
    close_silent toy toy_libraries salty conditions (75 ∷ []) (112 ∷ []) (66 ∷ []) first

-- A ratchet as it is loaded again.
abbrev pub bytes_of : DoubleRatchet → Bytes
bytes_of dr = value (marshal_ratchet toy_gob dr)

abbrev pub again : DoubleRatchet → DoubleRatchet
again dr = (unmarshal_ratchet toy_gob (bytes_of dr) zero_ratchet).1

pub again-Conversing : Conversing toy (again listener) (again speaker)
unfolding marshal_ratchet marshal_dh_ratchet marshal_element marshal_elements marshal_key_buffer
    chains
again-Conversing =
    let (l, o, l_loaded, o_loaded, w) =
      reloaded-Conversing toy toy_laws toy_gob toy_gob_laws listener speaker zero_ratchet
        zero_ratchet (bytes_of listener) (bytes_of speaker) listener-Conversing refl refl refl in
    subst (λ d. Conversing toy d (again speaker)) (ap (λ r. r.1) (sym l_loaded))
      (subst (λ d. Conversing toy l d) (ap (λ r. r.1) (sym o_loaded)) w)

pub again-CanSay : CanSay toy (again speaker) (again listener) sample
unfolding marshal_ratchet marshal_dh_ratchet marshal_element marshal_elements marshal_key_buffer
    chains unmarshal_ratchet load_ratchet load_dh_ratchet unmarshal_dh_ratchet load_key_buffer
again-CanSay =
    goes_on again-Conversing
      (record { length_key = refl; prev_no-lt = omega arith; msg_no-lt = omega arith })

-- The key file of the first machine, open to others.
abbrev open_to_others : Machine
open_to_others = record first { files = (75 ∷ [], record { mode = 420; content = 1 ∷ [] }) ∷ [] }

abbrev sending : Opts
sending = record {
  is_offer = false;
  is_send = true;
  is_recv = false;
  is_close = false;
  is_chat = false;
  is_ui = false;
  them = 66 ∷ [];
  key = 75 ∷ [];
  state = 112 ∷ [];
  msg = 104 ∷ [];
  msg_file = [];
  msg_stdin = false;
}

run_refused_example :
    run toy toy_libraries salty conditions from_last strings nick widgets
      (λ a. a.user)
      false
      none
      offline
      []
      []
      sending
      open_to_others
    ≡ (err Error.weak_permissions, open_to_others)
unfolding lookup bytes_eq is_weak read_input
run_refused_example =
    run_refused toy toy_libraries salty conditions from_last strings nick widgets (λ a. a.user)
      false none offline [] [] sending open_to_others (record { mode = 420; content = 1 ∷ [] })
      (104 ∷ []) refl refl refl refl refl
