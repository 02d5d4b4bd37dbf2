-- ===== src/Disk/Manager.antt =====
-- session/disk-session.go: the manager of the sessions. Its state is that of the program and the
-- files. How the operating system treats each call is an argument.

pub mod Stored
pub mod Kept
pub mod Indexed
pub mod Strict
pub mod Sound
pub mod Positioned
use go_ratchet.Prelude.{
  ℕ, ◌==◌, ◌%◌, ◌/◌, if◌then◌else◌, not, ltb, Bool, ◌||◌, Option, none, some, [], ◌∷◌, ◌++◌, Error,
  Result, ok, err, panic, Bytes, fit, take,
}
use go_ratchet.Prelude.Maps.{Map, lookup, assign, remove, assign_all}
use go_ratchet.Prelude.Methods.{Action, ◌>>=◌, ◌>>◌, lift, get, modify}
use go_ratchet.Prelude.Errors.{fail_if}
use go_ratchet.DoubleRatchet.Persist.{encoded_or_err}
use go_ratchet.Xochimilco.Base64.{encode}
use go_ratchet.Xochimilco.Session.{Session, active}
use go_ratchet.Disk.{
  ℤ, pos, negsuc, Index, Libraries, Addr, DiskSession, zero_disk_session, pointed, new_session,
  unmarshal_disk_session,
}
use go_ratchet.Disk.Marshal.{marshal_disk_session}

-- A file's mode and content.
pub record File : Type 0 where
  pub mode : ℕ
  pub content : Bytes

-- The struct `DiskSessionManager`, with the files of the disk. `key` is the private key's bytes.
pub record DiskSessionManager : Type 0 where
  pub me : Bytes
  pub key : Bytes
  pub path : Bytes
  pub position : ℤ
  pub sessions : Map Bytes
  pub files : Map File

abbrev pub Managed : Type 0 → Type 0
Managed A = Action DiskSessionManager A

-- What fails in a call, apart from what the files themselves decide. `written` is how much a write
-- that fails has written.
pub record Faults : Type 0 where
  pub stat_failed : Bool
  pub open_failed : Bool
  pub read_failed : Bool
  pub mkdir_failed : Bool
  pub create_failed : Bool
  pub write_failed : Bool
  pub written : ℕ
  pub close_failed : Bool
  pub remove_failed : Bool

-- `fd.Mode()&0066 != 0`: the group or others may read or write.
unfoldable pub is_weak : ℕ → Bool
is_weak mode = not ((mode / 2) % 4 == 0) || not ((mode / 16) % 4 == 0)

-- The mode 0600 of a file that is created; one that was there keeps its mode.
abbrev pub mode_of : Option File → ℕ
mode_of none = 384
mode_of (some f) = f.mode

abbrev pub found_or_err : Option File → Result File
found_or_err none = err Error.not_exist
found_or_err (some f) = ok f

-- `toULID`
abbrev pub to_ulid : Bytes → Bytes
to_ulid b = fit 16 b

-- `os.OpenFile` with `O_TRUNC|O_CREATE|O_WRONLY` and the mode 0600
unfoldable pub create_file : Faults → Bytes → Managed (Unit {0})
create_file faults name = do
  lift (fail_if faults.create_failed Error.file_failed)
  modify (λ sm. record sm {
    files = assign name (record { mode = mode_of (lookup name sm.files); content = [] }) sm.files;
  })

-- `fp.Write` on a file that was just truncated
unfoldable pub write_file : Faults → Bytes → Bytes → Managed (Unit {0})
write_file faults name b = do
  modify (λ sm. record sm {
    files =
        assign name
          (record {
            mode = mode_of (lookup name sm.files);
            content = if faults.write_failed then take faults.written b else b;
          })
          sm.files;
  })
  lift (fail_if faults.write_failed Error.file_failed)

-- `sess.IdentityKey = sm.key.Private()`, for a session that is not active
abbrev pub with_identity : Bytes → Session → Session
with_identity key x = if active x then x else record x { identity_key = key }

-- The value and the error that `Get` returns at its end.
abbrev pub returned : {A : Type 0} → Result (Unit {0}) → A → Result A
returned (ok done) a = ok a
returned (err e) a = err e
returned panic a = panic

-- What follows `UnmarshalBinary` in `Get`: the embedded session is looked at before the error.
unfoldable pub checked : Bytes → Result (Unit {0}) → DiskSession → Result DiskSession
checked key r s = elim s.session [
  | none ↦ panic
  | some x ↦ returned r (record s { session = some (with_identity key x) })
]

unfoldable pub new_session_manager : Bytes → Bytes → Bytes → Map File → DiskSessionManager
new_session_manager path me key files = record {
  me = me;
  key = key;
  path = path;
  position = negsuc 0;
  sessions = [];
  files = files;
}

-- `ByName`; `fresh` is what `ulid.Make` returns.
unfoldable pub by_name : Bytes → Bytes → Managed Bytes
by_name fresh name sm = elim (lookup name sm.sessions) [
  | some u ↦ (ok u, sm)
  | none ↦ (ok fresh, record sm { sessions = assign name fresh sm.sessions })
]

-- `New`; `addr` is what `fetchKey` finds.
unfoldable pub new_of : Bytes → Option Addr → Bytes → Managed DiskSession
new_of fresh addr them = do
  id ← by_name fresh them
  sm ← get
  elim addr [
    | none ↦ lift (err Error.lookup_failed)
    | some a ↦ lift (ok (new_session id sm.me sm.key them a))
  ]

-- `if data.Position > 0`
abbrev pub position_of : ℤ → ℤ → ℤ
position_of (pos n) old = if ltb 0 n then pos n else old
position_of (negsuc n) old = old

-- What `Load` takes from the decoded structure.
abbrev pub with_index : Index → DiskSessionManager → DiskSessionManager
with_index o sm = record sm {
  position = position_of o.position sm.position;
  sessions = assign_all o.sessions sm.sessions;
}

unfoldable pub set_position : ℤ → DiskSessionManager → DiskSessionManager
set_position p sm = record sm { position = p }

module _ (l : Libraries) where
  unfoldable pub session_hash : Bytes → Bytes → Bytes
  session_hash self id = encode (l.fnv128a (self ++ l.entropy id))

  -- The file of a session.
  abbrev pub file_of : DiskSessionManager → Bytes → Bytes
  file_of sm id = l.join sm.path (session_hash sm.me id)

  -- What `Get` does with the bytes of the file.
  unfoldable pub load_bytes : Bytes → Bytes → Result DiskSession
  load_bytes key b = let (r, s) = unmarshal_disk_session l b zero_disk_session in checked key r s

  unfoldable pub get_session : Faults → Bytes → Managed DiskSession
  get_session faults id = do
    sm ← get
    lift (fail_if faults.stat_failed Error.file_failed)
    file ← lift (found_or_err (lookup (file_of sm id) sm.files))
    lift (fail_if (is_weak file.mode) Error.weak_permissions)
    lift (fail_if faults.open_failed Error.file_failed)
    lift (fail_if faults.read_failed Error.file_failed)
    lift (load_bytes sm.key file.content)

  -- `Put`. The file is emptied before the session is encoded.
  unfoldable pub put_session : Faults → DiskSession → Managed (Unit {0})
  put_session faults s = do
    sm ← get
    x ← lift (pointed s.session)
    let name : Bytes = file_of sm (to_ulid x.local_uuid)
    lift (fail_if faults.mkdir_failed Error.file_failed)
    create_file faults name
    b ← lift (marshal_disk_session l s)
    write_file faults name b
    lift (fail_if faults.close_failed Error.file_failed)

  -- `Delete`. The entry of the map goes even if the file cannot be removed.
  unfoldable pub delete_session : Faults → DiskSession → Managed (Unit {0})
  delete_session faults s = do
    sm ← get
    x ← lift (pointed s.session)
    let name : Bytes = file_of sm (to_ulid x.local_uuid)
    modify (λ m. record m { sessions = remove s.name m.sessions })
    lift (fail_if faults.remove_failed Error.file_failed)
    file ← lift (found_or_err (lookup name sm.files))
    modify (λ m. record m { files = remove name m.files })

  -- "sess-" and ".json" around the program's own name
  abbrev pub index_name : DiskSessionManager → Bytes
  index_name sm = l.join sm.path (
      (b's' ∷ b'e' ∷ b's' ∷ b's' ∷ b'-' ∷ []) ++ (sm.me ++ (b'.' ∷ b'j' ∷ b's' ∷ b'o' ∷ b'n' ∷ [])))

  unfoldable pub load_content : Bytes → Managed (Unit {0})
  load_content b sm =
      let o = l.json.decode b in
      if o.failed then (err Error.json_failed, sm) else (ok tt, with_index o.value sm)

  unfoldable pub load_manager : Faults → Managed (Unit {0})
  load_manager faults = do
    sm ← get
    lift (fail_if faults.open_failed Error.file_failed)
    elim (lookup (index_name sm) sm.files) [
      | none ↦ lift (ok tt)
      | some file ↦ load_content file.content
    ]

  unfoldable pub close_manager : Faults → Managed (Unit {0})
  close_manager faults = do
    sm ← get
    create_file faults (index_name sm)
    b ←
        lift (
          encoded_or_err
            (l.json.encode (record { position = sm.position; sessions = sm.sessions })))
    write_file faults (index_name sm) b
