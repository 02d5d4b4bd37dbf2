-- ===== src/Tests/Streams.antt =====
-- A stream of messages that the driver delivers.
use go_ratchet.Prelude.{◌≡◌, refl, some, List, [], ◌∷◌, ◌++◌, Bytes, ok, bytes_eq, replicate}
use go_ratchet.Prelude.Maps.{lookup}
use go_ratchet.Disk.{ℤ, pos, Index}
use go_ratchet.Disk.Manager.{
  DiskSessionManager, new_session_manager, load_manager, close_manager, set_position,
}
use go_ratchet.Disk.Manager.Stored.{no_faults}
use go_ratchet.Client.{Client, reported, dispatch}
use go_ratchet.Client.Inputs.{
  salt_prefix, input, move_on, dispatch_salty, read_salt_pack, handle_salt_pack, handle_ratchet,
  handle_other,
}
use go_ratchet.Client.Interface.{disk_manager}
use go_ratchet.Client.Running.{on_disk}
use go_ratchet.Driver.{Arrival, handler, deliver_all}
use go_ratchet.Driver.Resuming.{taken_up}
use go_ratchet.Tests.Toy.{toy}
use go_ratchet.Tests.Ratchets.{sample}
use go_ratchet.Tests.Saving.{codec-IsLossless}
use go_ratchet.Tests.Libraries.{toy_libraries, of_index, to_index}
use go_ratchet.Tests.Clients.{salty, address, samples}

abbrev loaded : DiskSessionManager
loaded =
    (load_manager toy_libraries no_faults
      (new_session_manager (112 ∷ []) (77 ∷ []) (replicate 64 5) [])).1

abbrev start : Client DiskSessionManager Bytes Bytes
start = record { sm = loaded; addr = address; posted = []; events = [] }

abbrev arrives : ℤ → Bytes → Arrival DiskSessionManager
arrives n text = record {
  message = record { id = n; payload = text };
  manager = disk_manager toy_libraries no_faults (replicate 16 1) (λ name. some address);
  offers = samples;
  other = sample;
}

-- A saltpack message, and one that is no message of the program's.
abbrev arrivals : List (Arrival DiskSessionManager)
arrivals = arrives (pos 8) (salt_prefix ++ (104 ∷ [])) ∷ arrives (pos 9) (104 ∷ 105 ∷ []) ∷ []

abbrev ending : Index
ending = record { position = pos 9; sessions = [] }

taken_up_example :
    let me = (deliver_all toy toy_libraries salty arrivals start).1 in
    let (closes, closed) = close_manager toy_libraries no_faults me.sm in
    let (loads, sm) =
      load_manager toy_libraries no_faults
        (new_session_manager me.sm.path me.sm.me me.sm.key closed.files) in
    (closes ≡ ok tt) × (loads ≡ ok tt) × (sm.position ≡ pos 9)
unfolding deliver_all handler input handle_salt_pack read_salt_pack dispatch_salty move_on reported
    handle_ratchet handle_other dispatch set_position load_manager new_session_manager lookup
    bytes_eq
taken_up_example =
    taken_up toy toy_libraries salty arrivals start _
      (
        on_disk no_faults (replicate 16 1) (λ name. some address),
        (on_disk no_faults (replicate 16 1) (λ name. some address), tt),
      )
      refl refl (codec-IsLossless of_index to_index ending _ refl refl)
