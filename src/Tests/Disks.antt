-- ===== src/Tests/Disks.antt =====
-- Sessions with peers on a disk.
use go_ratchet.Prelude.{
  ap, ◌∙◌, ◌≢◌, bytes_eq, bytes_eq_refl, ◌≡◌, refl, some, none, true, false, Option, [], ◌∷◌, ◌++◌,
  Error, ok, err, panic, Bytes, replicate,
}
use go_ratchet.Prelude.Maps.{Map, IsDistinct, lookup}
use go_ratchet.DoubleRatchet.Ratchet.{DoubleRatchet}
use go_ratchet.DoubleRatchet.Ratchet.Conversing.{Conversing}
use go_ratchet.DoubleRatchet.Persist.{
  marshal_ratchet, unmarshal_ratchet, marshal_dh_ratchet, marshal_element, marshal_elements,
  marshal_key_buffer, chains, zero_ratchet,
}
use go_ratchet.DoubleRatchet.Persist.Reloaded.{reloaded-Conversing}
use go_ratchet.Xochimilco.Base64.{encode, encode_digit}
use go_ratchet.Xochimilco.Session.{Session}
use go_ratchet.Xochimilco.Session.Persist.{
  marshal_ratchet_of, marshal_session, unmarshal_session, Restored, load_saved_session,
}
use go_ratchet.Disk.{pos, Libraries, DiskSession, zero_session}
use go_ratchet.Disk.Marshal.{marshal_disk_session}
use go_ratchet.Disk.Loading.{reloaded}
use go_ratchet.Disk.Manager.{
  File, mode_of, DiskSessionManager, is_weak, file_of, session_hash, with_identity,
  new_session_manager, get_session, put_session, delete_session, load_manager, close_manager,
}
use go_ratchet.Disk.Manager.Stored.{no_faults, get-put}
use go_ratchet.Disk.Manager.Kept.{get-delete, get_corrupt, put_unencoded}
use go_ratchet.Disk.Manager.Indexed.{load-close}
use go_ratchet.Tests.Toy.{toy, toy_laws}
use go_ratchet.Tests.Talks.{listener, speaker, listener-Conversing, value}
use go_ratchet.Tests.Saving.{join, codec-IsLossless, toy_gob, toy_gob_laws, state, state_bytes}
use go_ratchet.Tests.Libraries.{
  of_session, of_disk, to_disk, of_index, to_index, toy_libraries, toy_libraries_laws,
}

abbrev listener_bytes : Bytes
listener_bytes = value (marshal_ratchet toy_gob listener)

abbrev speaker_bytes : Bytes
speaker_bytes = value (marshal_ratchet toy_gob speaker)

reloaded-Conversing_example :
    (l : DoubleRatchet) × (o : DoubleRatchet) × (unmarshal_ratchet toy_gob listener_bytes
        zero_ratchet
      ≡ (ok tt, l))
    × (unmarshal_ratchet toy_gob speaker_bytes zero_ratchet ≡ (ok tt, o))
    × Conversing toy l o
unfolding marshal_ratchet marshal_dh_ratchet marshal_element marshal_elements marshal_key_buffer
    chains
reloaded-Conversing_example =
    reloaded-Conversing toy toy_laws toy_gob toy_gob_laws listener speaker zero_ratchet zero_ratchet
      listener_bytes speaker_bytes listener-Conversing refl refl refl

abbrev session : Session
session = record zero_session {
  local_uuid = replicate 16 1;
  remote_uuid = replicate 16 2;
  me = 77 ∷ [];
  double_ratchet = some state;
}

abbrev session_bytes : Bytes
session_bytes = join (
    of_session (record {
      local_uuid = replicate 16 1;
      remote_uuid = replicate 16 2;
      me = 77 ∷ [];
      spk_pub = [];
      spk_priv = [];
      double_ratchet = state_bytes;
    }))

load_saved_session_example :
    (o : Option DoubleRatchet) × Restored session.double_ratchet o
    × (unmarshal_session toy_gob toy_libraries.session_codec session_bytes zero_session
        ≡ (ok tt, record session { double_ratchet = o }))
unfolding marshal_session marshal_ratchet_of marshal_ratchet marshal_dh_ratchet marshal_element
    marshal_elements marshal_key_buffer chains
load_saved_session_example =
    load_saved_session toy_gob toy_libraries.session_codec toy_gob_laws
      toy_libraries_laws.session-IsLossless session zero_session session_bytes (tt, tt) refl refl

abbrev key : Bytes
key = replicate 32 9

abbrev disk_session : DiskSession
disk_session = record {
  name = 66 ∷ [];
  peer_key = some key;
  endpoint = 104 ∷ [];
  pending_ack = 8 ∷ [];
  session = some session;
}

abbrev disk_bytes : Bytes
disk_bytes = join (
    of_disk (record {
      name = 66 ∷ [];
      key = key;
      endpoint = 104 ∷ [];
      pending_ack = 8 ∷ [];
      session = session_bytes;
    }))

abbrev manager : Map File → DiskSessionManager
manager files = record {
  me = 77 ∷ [];
  key = replicate 64 5;
  path = 112 ∷ [];
  position = pos 7;
  sessions = (66 ∷ [], replicate 16 1) ∷ (67 ∷ [], replicate 16 3) ∷ [];
  files = files;
}

-- The session's own ULID with another time.
abbrev later_id : Bytes
later_id = replicate 6 9 ++ replicate 10 1

get-put_example :
    let (r, sm') = put_session toy_libraries no_faults disk_session (manager []) in
    (r ≡ ok tt)
    × (o : Option DoubleRatchet) × Restored session.double_ratchet o
    × (get_session toy_libraries no_faults later_id sm' ≡ (
      ok (record disk_session {
        session = some (with_identity (replicate 64 5) (reloaded session key o));
      }),
      sm',
    ))
unfolding marshal_disk_session marshal_session marshal_ratchet_of marshal_ratchet marshal_dh_ratchet
    marshal_element marshal_elements marshal_key_buffer chains lookup is_weak
get-put_example =
    get-put toy_libraries toy_libraries_laws (manager []) disk_session session key disk_bytes
      later_id refl refl refl (tt, tt) refl refl refl

abbrev own_file : Libraries → Bytes
own_file l = file_of l (manager []) (replicate 16 1)

abbrev with_file : Libraries → Bytes → DiskSessionManager
with_file l b = manager ((own_file l, record { mode = 384; content = b }) ∷ [])

found :
    (l : Libraries) (b : Bytes)
    → lookup (own_file l) (with_file l b).files ≡ some (record { mode = 384; content = b })
unfolding lookup
found l b = rw (bytes_eq_refl (own_file l))

abbrev another_file : Bytes
another_file = file_of toy_libraries (manager []) (replicate 16 3)

apart : bytes_eq another_file (own_file toy_libraries) ≡ false
unfolding session_hash encode encode_digit bytes_eq
apart = refl

other_file : another_file ≢ own_file toy_libraries
other_file e = cc (
  apart,
  ap (λ n. bytes_eq n (own_file toy_libraries)) e ∙ bytes_eq_refl (own_file toy_libraries),
)

get-delete_example :
    let (r, sm') =
      delete_session toy_libraries no_faults disk_session (with_file toy_libraries disk_bytes) in
    (r ≡ ok tt)
    × (lookup (66 ∷ []) sm'.sessions ≡ none)
    × ((get_session toy_libraries no_faults later_id sm').0 ≡ err Error.not_exist)
    × ((get_session toy_libraries no_faults (replicate 16 3) sm').0
        ≡ (get_session toy_libraries no_faults
            (replicate 16 3)
            (with_file toy_libraries disk_bytes)).0)
get-delete_example =
    get-delete toy_libraries (with_file toy_libraries disk_bytes) disk_session session
      (record { mode = 384; content = disk_bytes }) later_id (replicate 16 3) refl
      (found toy_libraries disk_bytes) refl other_file

load-close_example :
    let (r, closed) = close_manager toy_libraries no_faults (manager []) in
    let (q, sm') =
      load_manager toy_libraries no_faults
        (new_session_manager (112 ∷ []) (77 ∷ []) (replicate 64 5) closed.files) in
    (r ≡ ok tt)
    × (q ≡ ok tt)
    × ((name : Bytes) → lookup name sm'.sessions ≡ lookup name (manager []).sessions)
    × IsDistinct sm'.sessions
    × (sm'.position ≡ pos 7)
unfolding lookup bytes_eq
load-close_example =
    load-close toy_libraries (manager []) _ (refl, (refl, tt)) refl
      (codec-IsLossless of_index to_index
        (record { position = pos 7; sessions = (manager []).sessions }) _ refl refl)

-- A format that never decodes.
abbrev broken : Libraries
broken = record toy_libraries {
  disk_codec = record {
    encode = λ s. none;
    decode = λ b. record { value = to_disk []; failed = true };
  };
}

get_corrupt_example :
    get_session broken no_faults (replicate 16 1) (with_file broken [])
    ≡ (panic, with_file broken [])
unfolding is_weak
get_corrupt_example =
    get_corrupt broken (with_file broken []) (replicate 16 1) (record { mode = 384; content = [] })
      (found broken []) refl refl

put_unencoded_example :
    let (r, sm') = put_session broken no_faults disk_session (with_file broken disk_bytes) in
    (r ≡ err Error.gob_failed)
    × (lookup (own_file broken) sm'.files
        ≡ some (record {
          mode = mode_of (lookup (own_file broken) (with_file broken disk_bytes).files);
          content = [];
        }))
unfolding marshal_disk_session marshal_session marshal_ratchet_of marshal_ratchet marshal_dh_ratchet
    marshal_element marshal_elements marshal_key_buffer chains
put_unencoded_example =
    put_unencoded broken (with_file broken disk_bytes) disk_session session Error.gob_failed refl
      refl
