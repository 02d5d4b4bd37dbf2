-- ===== src/Disk/Manager/Sound.antt =====
-- What every operation of the manager keeps true, whatever the operating system does
-- (session/disk-session.go).
use go_ratchet.Prelude.{
  Bool-cases, Option-cases, ◌≡◌, refl, inl, inr, Option, none, some, [], Error, ok, err, Bytes,
}
use go_ratchet.Prelude.Maps.{
  Map, lookup, assign, remove, IsDistinct, assign-IsDistinct, remove-IsDistinct,
  assign_all-IsDistinct,
}
use go_ratchet.Prelude.Methods.{modify, lift}
use go_ratchet.Prelude.Keeps.{
  Keeps, Keeps-modify, Keeps-lift, Keeps-get, Keeps-bind, Keeps-then, keeps_rules,
}
use go_ratchet.Disk.Manager.Strict.{AreStrict, assign-AreStrict, remove-AreStrict}
use go_ratchet.Disk.{ℤ, Libraries, Addr, DiskSession, new_session}
use go_ratchet.Disk.Manager.{
  index_name, load_content, load_manager, new_session_manager, set_position, File,
  DiskSessionManager, Managed, Faults, mode_of, create_file, write_file, by_name, new_of,
  get_session, put_session, delete_session, close_manager,
}

-- The manager has the name, the key and the path that it was made with, no peer has two sessions,
-- and no file is open to others.
pub record IsSound (me key path : Bytes) (sm : DiskSessionManager) : Type 0 where
  pub same_me : sm.me ≡ me
  pub same_key : sm.key ≡ key
  pub same_path : sm.path ≡ path
  pub distinct : IsDistinct sm.sessions
  pub strict : AreStrict sm.files

module _ (me key path : Bytes) where
  abbrev KeepsSound : {A : Type 0} → Managed A → Type 0
  KeepsSound m = Keeps (IsSound me key path) m

  with_file-IsSound :
      (name content : Bytes) (sm : DiskSessionManager)
      → IsSound me key path sm
      → IsSound me key path (record sm {
        files =
            assign name
              (record { mode = mode_of (lookup name sm.files); content = content })
              sm.files;
      })
  with_file-IsSound name content sm h = record {
    same_me = h.same_me;
    same_key = h.same_key;
    same_path = h.same_path;
    distinct = h.distinct;
    strict = assign-AreStrict name content sm.files h.strict;
  }

  create_file-IsSound : (faults : Faults) (name : Bytes) → KeepsSound (create_file faults name)
  unfolding create_file
  create_file-IsSound faults name =
      Keeps-then _ _ (Keeps-lift _) (Keeps-modify _ (with_file-IsSound name []))

  write_file-IsSound : (faults : Faults) (name b : Bytes) → KeepsSound (write_file faults name b)
  unfolding write_file
  write_file-IsSound faults name b =
      Keeps-then _ _ (Keeps-modify _ (with_file-IsSound name _)) (Keeps-lift _)

  with_name-IsSound :
      (fresh name : Bytes) (sm : DiskSessionManager)
      → IsSound me key path sm
      → IsSound me key path (by_name fresh name sm).1
  unfolding by_name
  with_name-IsSound fresh name sm h = elim (Option-cases (lookup name sm.sessions)) [
    | inl missing ↦
        rw (by_name, missing)
          (record {
            same_me = h.same_me;
            same_key = h.same_key;
            same_path = h.same_path;
            distinct = assign-IsDistinct name fresh sm.sessions h.distinct;
            strict = h.strict;
          })
    | inr (u, there) ↦ rw (by_name, there) h
  ]

  pub by_name-IsSound : (fresh name : Bytes) → KeepsSound (by_name fresh name)
  by_name-IsSound fresh name = record { after = with_name-IsSound fresh name }

  addressed-IsSound :
      (addr : Option Addr) (id them : Bytes) (self own : Bytes)
      → KeepsSound (elim addr as (λ _. Managed DiskSession) [
        | none ↦ lift (err Error.lookup_failed)
        | some a ↦ lift (ok (new_session id self own them a))
      ])
  addressed-IsSound none id them self own = search keeps_rules
  addressed-IsSound (some a) id them self own = search keeps_rules

  pub new_of-IsSound :
      (fresh : Bytes) (addr : Option Addr) (them : Bytes) → KeepsSound (new_of fresh addr them)
  unfolding new_of
  new_of-IsSound fresh addr them =
      Keeps-bind _ _ (by_name-IsSound fresh them)
        λ id. Keeps-bind _ _ Keeps-get λ sm. addressed-IsSound addr id them sm.me sm.key

  pub set_position-IsSound :
      (p : ℤ) (sm : DiskSessionManager)
      → IsSound me key path sm
      → IsSound me key path (set_position p sm)
  unfolding set_position
  set_position-IsSound p sm h = record {
    same_me = h.same_me;
    same_key = h.same_key;
    same_path = h.same_path;
    distinct = h.distinct;
    strict = h.strict;
  }

  module _ (l : Libraries) where
    pub get_session-IsSound :
        (faults : Faults) (uid : Bytes) → KeepsSound (get_session l faults uid)
    unfolding get_session
    get_session-IsSound faults uid = search keeps_rules depth 20

    pub put_session-IsSound :
        (faults : Faults) (s : DiskSession) → KeepsSound (put_session l faults s)
    unfolding put_session
    put_session-IsSound faults s =
        search (keeps_rules, create_file-IsSound, write_file-IsSound) depth 20

    without_name-IsSound :
        (name : Bytes) (sm : DiskSessionManager)
        → IsSound me key path sm
        → IsSound me key path (record sm { sessions = remove name sm.sessions })
    without_name-IsSound name sm h = record {
      same_me = h.same_me;
      same_key = h.same_key;
      same_path = h.same_path;
      distinct = remove-IsDistinct name sm.sessions h.distinct;
      strict = h.strict;
    }

    without_file-IsSound :
        (name : Bytes) (sm : DiskSessionManager)
        → IsSound me key path sm
        → IsSound me key path (record sm { files = remove name sm.files })
    without_file-IsSound name sm h = record {
      same_me = h.same_me;
      same_key = h.same_key;
      same_path = h.same_path;
      distinct = h.distinct;
      strict = remove-AreStrict name sm.files h.strict;
    }

    without_name-Keeps :
        (name : Bytes) → KeepsSound (modify λ sm. record sm { sessions = remove name sm.sessions })
    without_name-Keeps name = Keeps-modify _ (without_name-IsSound name)

    without_file-Keeps :
        (name : Bytes) → KeepsSound (modify λ sm. record sm { files = remove name sm.files })
    without_file-Keeps name = Keeps-modify _ (without_file-IsSound name)

    pub delete_session-IsSound :
        (faults : Faults) (s : DiskSession) → KeepsSound (delete_session l faults s)
    unfolding delete_session
    delete_session-IsSound faults s =
        search (keeps_rules, without_name-Keeps, without_file-Keeps) depth 20

    pub close_manager-IsSound : (faults : Faults) → KeepsSound (close_manager l faults)
    unfolding close_manager
    close_manager-IsSound faults =
        search (keeps_rules, create_file-IsSound, write_file-IsSound) depth 20

    load_content-IsSound : (b : Bytes) → KeepsSound (load_content l b)
    unfolding load_content
    load_content-IsSound b = record {
      after = λ sm h. elim (Bool-cases (l.json.decode b).failed) [
        | inl bad ↦ rw bad h
        | inr fine ↦ rw fine (record {
          same_me = h.same_me;
          same_key = h.same_key;
          same_path = h.same_path;
          distinct = assign_all-IsDistinct (l.json.decode b).value.sessions sm.sessions h.distinct;
          strict = h.strict;
        })
      ];
    }

    loaded-IsSound :
        (o : Option File)
        → KeepsSound (elim o as (λ _. Managed (Unit {0})) [
          | none ↦ lift (ok tt)
          | some file ↦ load_content l file.content
        ])
    loaded-IsSound none = search keeps_rules
    loaded-IsSound (some file) = load_content-IsSound file.content

    load_manager-IsSound : (faults : Faults) → KeepsSound (load_manager l faults)
    unfolding load_manager
    load_manager-IsSound faults =
        Keeps-bind _ _ Keeps-get
          λ sm. Keeps-then _ _ (Keeps-lift _) (loaded-IsSound (lookup (index_name l sm) sm.files))

    -- A manager that was just made and loaded, whether loading fails or not.
    pub started-IsSound :
        (faults : Faults) (files : Map File)
        → AreStrict files
        → IsSound me key path (load_manager l faults (new_session_manager path me key files)).1
    unfolding new_session_manager
    started-IsSound faults files h =
        (load_manager-IsSound faults).after _
          (record { same_me = refl; same_key = refl; same_path = refl; distinct = tt; strict = h })
