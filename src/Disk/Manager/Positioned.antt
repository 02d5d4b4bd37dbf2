-- ===== src/Disk/Manager/Positioned.antt =====
-- The position in the stream of messages (session/disk-session.go): only `SetPosition` and `Load`
-- change it.
use go_ratchet.Prelude.{Option-cases, ◌≡◌, inl, inr, Option, none, some, Error, ok, err, Bytes}
use go_ratchet.Prelude.Maps.{Map, lookup}
use go_ratchet.Prelude.Methods.{lift, modify}
use go_ratchet.Prelude.Keeps.{Keeps, Keeps-modify, Keeps-get, Keeps-bind, keeps_rules}
use go_ratchet.Disk.{ℤ, Libraries, Addr, DiskSession, new_session}
use go_ratchet.Disk.Manager.{
  DiskSessionManager, File, Managed, Faults, create_file, write_file, by_name, new_of, get_session,
  put_session, delete_session,
}

module _ (p : ℤ) where
  abbrev pub IsAt : DiskSessionManager → Type 0
  IsAt sm = sm.position ≡ p

  abbrev KeepsAt : {A : Type 0} → Managed A → Type 0
  KeepsAt m = Keeps IsAt m

  with_files-IsAt :
      (f : DiskSessionManager → Map File) → KeepsAt (modify λ sm. record sm { files = f sm })
  with_files-IsAt f = Keeps-modify _ λ sm h. h

  with_sessions-IsAt :
      (f : DiskSessionManager → Map Bytes) → KeepsAt (modify λ sm. record sm { sessions = f sm })
  with_sessions-IsAt f = Keeps-modify _ λ sm h. h

  create_file-IsAt : (faults : Faults) (name : Bytes) → KeepsAt (create_file faults name)
  unfolding create_file
  create_file-IsAt faults name = search (keeps_rules, with_files-IsAt)

  write_file-IsAt : (faults : Faults) (name b : Bytes) → KeepsAt (write_file faults name b)
  unfolding write_file
  write_file-IsAt faults name b = search (keeps_rules, with_files-IsAt)

  named-IsAt :
      (fresh name : Bytes) (sm : DiskSessionManager) → IsAt sm → IsAt (by_name fresh name sm).1
  unfolding by_name
  named-IsAt fresh name sm h = elim (Option-cases (lookup name sm.sessions)) [
    | inl missing ↦ rw (by_name, missing) h
    | inr (u, there) ↦ rw (by_name, there) h
  ]

  pub by_name-IsAt : (fresh name : Bytes) → KeepsAt (by_name fresh name)
  by_name-IsAt fresh name = record { after = named-IsAt fresh name }

  addressed-IsAt :
      (addr : Option Addr) (id them self own : Bytes)
      → KeepsAt (elim addr as (λ _. Managed DiskSession) [
        | none ↦ lift (err Error.lookup_failed)
        | some a ↦ lift (ok (new_session id self own them a))
      ])
  addressed-IsAt none id them self own = search keeps_rules
  addressed-IsAt (some a) id them self own = search keeps_rules

  pub new_of-IsAt :
      (fresh : Bytes) (addr : Option Addr) (them : Bytes) → KeepsAt (new_of fresh addr them)
  unfolding new_of
  new_of-IsAt fresh addr them =
      Keeps-bind _ _ (by_name-IsAt fresh them)
        λ id. Keeps-bind _ _ Keeps-get λ sm. addressed-IsAt addr id them sm.me sm.key

  module _ (l : Libraries) (faults : Faults) where
    pub get_session-IsAt : (uid : Bytes) → KeepsAt (get_session l faults uid)
    unfolding get_session
    get_session-IsAt uid = search keeps_rules depth 20

    pub put_session-IsAt : (s : DiskSession) → KeepsAt (put_session l faults s)
    unfolding put_session
    put_session-IsAt s = search (keeps_rules, create_file-IsAt, write_file-IsAt) depth 20

    pub delete_session-IsAt : (s : DiskSession) → KeepsAt (delete_session l faults s)
    unfolding delete_session
    delete_session-IsAt s = search (keeps_rules, with_files-IsAt, with_sessions-IsAt) depth 20
