-- ===== src/Disk/Manager/Stored.antt =====
-- The files of the sessions: what `Get` finds after `Put` and `Delete` (session/disk-session.go).
use go_ratchet.Prelude.{
  ◌++◌, inl, inr, Option-cases, Bool-cases, [], [], ◌≡◌, ◌≢◌, refl, sym, ap, ◌∙◌, true, false, none,
  some, Option, ok, err, Error, Bytes, length, ne→bytes_eq,
}
use go_ratchet.Prelude.Maps.{Map, lookup, assign, lookup-assign_self, lookup-assign_other}
use go_ratchet.DoubleRatchet.Ratchet.{DoubleRatchet}
use go_ratchet.Xochimilco.Session.{Session}
use go_ratchet.Xochimilco.Session.Persist.{HasKeys, Restored}
use go_ratchet.Xochimilco.Base64.{encode}
use go_ratchet.Disk.{DiskSession, Libraries, zero_disk_session, unmarshal_disk_session}
use go_ratchet.Disk.Marshal.{marshal_disk_session}
use go_ratchet.Disk.Loading.{LibraryLaws, reloaded, load_saved_disk_session}
use go_ratchet.Disk.Manager.{
  checked, with_identity, File, DiskSessionManager, Faults, is_weak, mode_of, to_ulid, create_file,
  write_file, session_hash, file_of, load_bytes, get_session, put_session,
}

-- No call of the operating system fails.
abbrev pub no_faults : Faults
no_faults = record {
  stat_failed = false;
  open_failed = false;
  read_failed = false;
  mkdir_failed = false;
  create_failed = false;
  write_failed = false;
  written = 0;
  close_failed = false;
  remove_failed = false;
}

-- The files after bytes were written under a name.
abbrev pub stored : Bytes → Bytes → Map File → Map File
stored name b files =
    let mode = mode_of (lookup name files) in
    assign name (record { mode = mode; content = b })
      (assign name (record { mode = mode; content = [] }) files)

-- A file that was just created, or emptied.
abbrev pub emptied : Bytes → DiskSessionManager → DiskSessionManager
emptied name sm = record sm {
  files = assign name (record { mode = mode_of (lookup name sm.files); content = [] }) sm.files;
}

pub create_file_lem :
    (name : Bytes) (sm : DiskSessionManager)
    → create_file no_faults name sm ≡ (ok tt, emptied name sm)
unfolding create_file
create_file_lem name sm = refl

pub write_file_lem :
    (name b : Bytes) (sm : DiskSessionManager)
    → write_file no_faults name b (emptied name sm)
      ≡ (ok tt, record sm { files = stored name b sm.files })
unfolding write_file
write_file_lem name b sm =
    let empty : File = record { mode = mode_of (lookup name sm.files); content = [] } in
    rw (lookup-assign_self name empty sm.files)

pub lookup-stored :
    (name b : Bytes) (files : Map File)
    → lookup name (stored name b files)
      ≡ some (record { mode = mode_of (lookup name files); content = b })
lookup-stored name b files = lookup-assign_self name _ _

pub lookup-stored_other :
    (other name b : Bytes) (files : Map File)
    → other ≢ name
    → lookup other (stored name b files) ≡ lookup other files
lookup-stored_other other name b files apart =
    let no = ne→bytes_eq other name apart in
    lookup-assign_other other name _ _ no ∙ lookup-assign_other other name _ _ no

module _ (l : Libraries) where
  pub put_session_lem :
      (s : DiskSession) (x : Session) (b : Bytes) (sm : DiskSessionManager)
      → s.session ≡ some x
      → marshal_disk_session l s ≡ ok b
      → put_session l no_faults s sm
        ≡ (ok tt, record sm { files = stored (file_of l sm (to_ulid x.local_uuid)) b sm.files })
  unfolding put_session
  put_session_lem s x b sm sx made =
      let name : Bytes = file_of l sm (to_ulid x.local_uuid) in
      simp (sx) (rw (create_file_lem name sm) (rw made (rw (write_file_lem name b sm))))

  pub get_session_lem :
      (id : Bytes) (file : File) (sm : DiskSessionManager)
      → lookup (file_of l sm id) sm.files ≡ some file
      → is_weak file.mode ≡ false
      → get_session l no_faults id sm ≡ (load_bytes l sm.key file.content, sm)
  unfolding get_session
  get_session_lem id file sm found strict = rw found (rw strict)

  pub missing :
      (id : Bytes) (sm : DiskSessionManager)
      → lookup (file_of l sm id) sm.files ≡ none
      → get_session l no_faults id sm ≡ (err Error.not_exist, sm)
  unfolding get_session
  missing id sm h = rw h

  refused :
      (id : Bytes) (file : File) (sm : DiskSessionManager)
      → lookup (file_of l sm id) sm.files ≡ some file
      → is_weak file.mode ≡ true
      → get_session l no_faults id sm ≡ (err Error.weak_permissions, sm)
  unfolding get_session
  refused id file sm h weak = rw h (rw weak)

  -- `Get` depends on the one file only.
  pub get_session_same :
      (id : Bytes) (files : Map File) (sessions : Map Bytes) (sm : DiskSessionManager)
      → lookup (file_of l sm id) files ≡ lookup (file_of l sm id) sm.files
      → (get_session l no_faults id (record sm { files = files; sessions = sessions })).0
        ≡ (get_session l no_faults id sm).0
  get_session_same id files sessions sm h =
      let sm' : DiskSessionManager = record sm { files = files; sessions = sessions } in
      elim (Option-cases (lookup (file_of l sm id) sm.files)) [
        | inl gone ↦
            ap (λ p. p.0) (missing id sm' (h ∙ gone)) ∙ sym (ap (λ p. p.0) (missing id sm gone))
        | inr (file, there) ↦ elim (Bool-cases (is_weak file.mode)) [
          | inl weak ↦
              ap (λ p. p.0) (refused id file sm' (h ∙ there) weak)
              ∙ sym (ap (λ p. p.0) (refused id file sm there weak))
          | inr strict ↦
              ap (λ p. p.0) (get_session_lem id file sm' (h ∙ there) strict)
              ∙ sym (ap (λ p. p.0) (get_session_lem id file sm there strict))
        ]
      ]

  pub same_file :
      (sm : DiskSessionManager) (id uuid : Bytes)
      → l.entropy id ≡ l.entropy uuid
      → file_of l sm id ≡ file_of l sm uuid
  unfolding session_hash
  same_file sm id uuid h = ap (λ e. l.join sm.path (encode (l.fnv128a (sm.me ++ e)))) h

  load_bytes_lem :
      (key b : Bytes) (s : DiskSession) (x : Session)
      → unmarshal_disk_session l b zero_disk_session ≡ (ok tt, record s { session = some x })
      → load_bytes l key b ≡ ok (record s { session = some (with_identity key x) })
  unfolding load_bytes checked
  load_bytes_lem key b s x h = rw (load_bytes, h) refl

  -- If no call of the operating system fails and a session with a peer can be encoded, its
  -- ratchet's chain keys being nil or not empty and the peer's key having 32 bytes, and if a file
  -- that is already there is closed to others, then `Put` succeeds, and `Get` of any ULID with the
  -- same entropy finds the session. It has the same fields, except that it accepts the peer's key
  -- and no other, that its identity key is the manager's if it is not active and gone otherwise,
  -- and that its ratchet is the saved one as a new one loads it.
  pub get-put :
      LibraryLaws l
      → (sm : DiskSessionManager) (s : DiskSession) (x : Session) (k b id : Bytes)
      → s.session ≡ some x
      → s.peer_key ≡ some k
      → length k ≡ 32
      → HasKeys x.double_ratchet
      → marshal_disk_session l s ≡ ok b
      → is_weak (mode_of (lookup (file_of l sm (to_ulid x.local_uuid)) sm.files)) ≡ false
      → l.entropy id ≡ l.entropy (to_ulid x.local_uuid)
      → let (r, sm') = put_session l no_faults s sm in
        (r ≡ ok tt)
        × (o : Option DoubleRatchet) × Restored x.double_ratchet o
        × (get_session l no_faults id sm'
            ≡ (ok (record s { session = some (with_identity sm.key (reloaded x k o)) }), sm'))
  get-put laws sm s x k b id sx sk size keys made strict same =
      let name : Bytes = file_of l sm (to_ulid x.local_uuid) in
      let sm' : DiskSessionManager = record sm { files = stored name b sm.files } in
      let (o, restored, read) = load_saved_disk_session l laws s x k b sx sk size keys made in
      let found =
        ap (λ n. lookup n sm'.files) (same_file sm id (to_ulid x.local_uuid) same)
        ∙ lookup-stored name b sm.files in
      rw (put_session_lem s x b sm sx made) (
        refl,
        o,
        restored,
        get_session_lem id _ sm' found strict
            ∙ ap (λ r. (r, sm')) (load_bytes_lem sm.key b s (reloaded x k o) read),
      )
