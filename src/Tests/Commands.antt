-- ===== src/Tests/Commands.antt =====
-- A command of the interactive mode.
use go_ratchet.Disk.{DiskSession}
use go_ratchet.Prelude.{
  ◌==◌, if◌then◌else◌, ◌++◌, List, Option, some, ◌≡◌, refl, none, true, false, [], ◌∷◌, Error, ok,
  Bytes, bytes_eq,
}
use go_ratchet.Prelude.Maps.{lookup}
use go_ratchet.Client.{post, send_msg}
use go_ratchet.Client.Operations.{chat, chat_with, send_pending}
use go_ratchet.Memory.{read_log, read_stream}
use go_ratchet.Interactive.{Service, Strings, Outside, chat_to}
use go_ratchet.Interactive.Reporting.{chat_failure}
use go_ratchet.Tests.Toy.{toy}
use go_ratchet.Tests.Ratchets.{sample}
use go_ratchet.Tests.Libraries.{toy_libraries}
use go_ratchet.Tests.Memories.{from_last, nick}
use go_ratchet.Tests.Clients.{one_session, salty, client, answering}

-- The parts between spaces.
abbrev after_word : Bytes → List Bytes → List Bytes
after_word [] more = more
after_word (x ∷ xs) more = (x ∷ xs) ∷ more

abbrev words : Bytes → Bytes → List Bytes
words word [] = after_word word []
words word (x ∷ xs) =
    let more = words [] xs in
    let longer = words (word ++ (x ∷ [])) xs in if x == 32 then after_word word more else longer

abbrev pub strings : Strings
strings = record { fields = words []; trim_space = λ b. b; cut = λ b. (b, []) }

abbrev pub offline : Outside
offline = record {
  now = 7;
  later = 8;
  offer_sample = sample;
  other_sample = sample;
  post_failed = true;
  found = none;
}

abbrev pub service : Service (Option DiskSession) Bytes Bytes
service = record {
  client = client (some answering);
  logs = [];
  them = [];
  prompt = [];
  shown = [];
  stopped = false;
}

chat_failure_example :
    let (r, svc') =
      chat_to toy toy_libraries one_session salty from_last strings nick
        (65 ∷ [])
        offline
        (66 ∷ [])
        service in
    (r ≡ ok tt) × (svc'.them ≡ 66 ∷ [])
unfolding bytes_eq read_log read_stream lookup chat chat_with send_pending send_msg post
chat_failure_example =
    chat_failure toy toy_libraries one_session salty from_last strings nick (65 ∷ []) offline
      (66 ∷ []) Error.post_failed [] (client (some answering)) service refl refl refl
