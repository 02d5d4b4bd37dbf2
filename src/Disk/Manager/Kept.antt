-- ===== src/Disk/Manager/Kept.antt =====
-- What `Put` and `Delete` of one session leave of the others, and files that do not decode
-- (session/disk-session.go).
use go_ratchet.Prelude.{
  [], [], ◌≡◌, ◌≢◌, refl, ap, ◌∙◌, true, false, none, some, ok, err, panic, Error, Bytes,
  ne→bytes_eq,
}
use go_ratchet.Prelude.Maps.{
  lookup, remove, lookup-assign_self, lookup-remove_self, lookup-remove_other,
}
use go_ratchet.Xochimilco.Session.{Session}
use go_ratchet.Disk.{DiskSession, Libraries, unmarshal_disk_session}
use go_ratchet.Disk.Marshal.{marshal_disk_session}
use go_ratchet.Disk.Manager.{
  checked, File, DiskSessionManager, is_weak, mode_of, to_ulid, file_of, load_bytes, get_session,
  put_session, delete_session,
}
use go_ratchet.Disk.Manager.Stored.{
  no_faults, stored, create_file_lem, lookup-stored_other, put_session_lem, get_session_lem,
  missing, get_session_same, same_file,
}

module _ (l : Libraries) where
  delete_session_lem :
      (s : DiskSession) (x : Session) (file : File) (sm : DiskSessionManager)
      → s.session ≡ some x
      → lookup (file_of l sm (to_ulid x.local_uuid)) sm.files ≡ some file
      → delete_session l no_faults s sm ≡ (
        ok tt,
        record sm {
          sessions = remove s.name sm.sessions;
          files = remove (file_of l sm (to_ulid x.local_uuid)) sm.files;
        },
      )
  unfolding delete_session
  delete_session_lem s x file sm sx there = simp (sx) (rw there)

  -- If no call of the operating system fails, then `Delete` of a session whose file is there
  -- succeeds. After it `ByName` knows no session of that name, `Get` of any ULID with the entropy
  -- of the session's gives the error that there is none, and `Get` of a session in another file
  -- gives what it gave before.
  pub get-delete :
      (sm : DiskSessionManager) (s : DiskSession) (x : Session) (file : File) (id other : Bytes)
      → s.session ≡ some x
      → lookup (file_of l sm (to_ulid x.local_uuid)) sm.files ≡ some file
      → l.entropy id ≡ l.entropy (to_ulid x.local_uuid)
      → file_of l sm other ≢ file_of l sm (to_ulid x.local_uuid)
      → let (r, sm') = delete_session l no_faults s sm in
        (r ≡ ok tt)
        × (lookup s.name sm'.sessions ≡ none)
        × ((get_session l no_faults id sm').0 ≡ err Error.not_exist)
        × ((get_session l no_faults other sm').0 ≡ (get_session l no_faults other sm).0)
  get-delete sm s x file id other sx there same apart =
      let name : Bytes = file_of l sm (to_ulid x.local_uuid) in
      let sessions = remove s.name sm.sessions in
      let sm' : DiskSessionManager = record sm {
        sessions = sessions;
        files = remove name sm.files;
      } in
      let gone =
        ap (λ n. lookup n sm'.files) (same_file l sm id (to_ulid x.local_uuid) same)
        ∙ lookup-remove_self name sm.files in
      let kept = lookup-remove_other (file_of l sm other) name sm.files (ne→bytes_eq _ _ apart) in
      rw (delete_session_lem s x file sm sx there) (
        refl,
        lookup-remove_self s.name sm.sessions,
        ap (λ p. p.0) (missing l id sm' gone),
        get_session_same l other (remove name sm.files) sessions sm kept,
      )

  -- If no call of the operating system fails, `Put` of one session does not change what `Get` gives
  -- for a session in another file.
  pub get-put_other :
      (sm : DiskSessionManager) (s : DiskSession) (x : Session) (b other : Bytes)
      → s.session ≡ some x
      → marshal_disk_session l s ≡ ok b
      → file_of l sm other ≢ file_of l sm (to_ulid x.local_uuid)
      → let (r, sm') = put_session l no_faults s sm in
        (get_session l no_faults other sm').0 ≡ (get_session l no_faults other sm).0
  get-put_other sm s x b other sx made apart =
      let name : Bytes = file_of l sm (to_ulid x.local_uuid) in
      rw (put_session_lem l s x b sm sx made) (
        get_session_same l other (stored name b sm.files) sm.sessions sm
          (lookup-stored_other (file_of l sm other) name b sm.files apart))

  -- If no call of the operating system fails, and a session's file is there, is closed to others,
  -- and does not decode, then `Get` panics.
  pub get_corrupt :
      (sm : DiskSessionManager) (id : Bytes) (file : File)
      → lookup (file_of l sm id) sm.files ≡ some file
      → is_weak file.mode ≡ false
      → (l.disk_codec.decode file.content).failed ≡ true
      → get_session l no_faults id sm ≡ (panic, sm)
  unfolding load_bytes checked unmarshal_disk_session
  get_corrupt sm id file there strict bad = rw (get_session_lem l id file sm there strict) (rw bad)

  -- If no call of the operating system fails and a session with a peer cannot be encoded, then
  -- `Put` gives the error of that, and leaves the session's file empty.
  pub put_unencoded :
      (sm : DiskSessionManager) (s : DiskSession) (x : Session) (e : Error)
      → s.session ≡ some x
      → marshal_disk_session l s ≡ err e
      → let name : Bytes = file_of l sm (to_ulid x.local_uuid) in
        let (r, sm') = put_session l no_faults s sm in
        (r ≡ err e)
        × (lookup name sm'.files
            ≡ some (record { mode = mode_of (lookup name sm.files); content = [] }))
  unfolding put_session
  put_unencoded sm s x e sx made =
      let name : Bytes = file_of l sm (to_ulid x.local_uuid) in
      simp (sx) (rw (create_file_lem name sm) (rw made (refl, lookup-assign_self name _ sm.files)))
